-- ===== src/Parser/Frame.antt =====
-- What the parser's small steps leave alone: the options, the depth, the count of nodes and the
-- text. They never put bytes back, and in strict JSON they never see a comment.
use jsonc.Prelude.{
  ◌≤◌, ◌<◌, Bool, true, not, ◌≡◌, refl, ◌∙◌, if◌then◌else◌, Option, none, some, Result, ok, arith,
  Ensures, holds, fails,
}
use jsonc.Token.{Token, is_comment}
use jsonc.Scanner.Cursor.{Scan}
use jsonc.Scanner.Extent.{ReportsFrom, length-Advanced}
use jsonc.Scanner.Progress.{NextAt, next-Tracks}
use jsonc.Parser.State.{
  Parser, Failure, M, chain, peek, peek_at, scanned, bump, is_consumable, held, remaining, flags_of,
}

abbrev pub is_plain : Option Token → Bool
is_plain none = true
is_plain (some t) = not (is_comment t.kind)

-- In strict JSON the lookahead token is no comment.
abbrev pub Clean : Parser → Type 0
Clean p = p.opts.strict_json ≡ true → is_plain p.lookahead ≡ true

pub record Frame (p q : Parser) : Type 0 where
  pub opts : q.opts ≡ p.opts
  pub depth : q.depth ≡ p.depth
  pub nodes : q.nodes ≡ p.nodes
  pub text : q.text ≡ p.text
  pub fewer : remaining q ≤ remaining p
  pub clean : Clean q

pub Frame-refl : {p : Parser} → Clean p → Frame p p
Frame-refl c = record {
  opts = refl;
  depth = refl;
  nodes = refl;
  text = refl;
  fewer = omega arith;
  clean = c;
}

pub Frame-trans : {p q r : Parser} → Frame p q → Frame q r → Frame p r
Frame-trans f g = record {
  opts = g.opts ∙ f.opts;
  depth = g.depth ∙ f.depth;
  nodes = g.nodes ∙ f.nodes;
  text = g.text ∙ f.text;
  fewer = omega (arith, f.fewer, g.fewer);
  clean = g.clean;
}

-- The run succeeds within its fuel with `P`, or throws.
abbrev pub Runs : {A : Type 0} → (A × Parser → Type 0) → Result Failure (A × Parser) → Type 0
Runs P = Ensures P (λ _. Unit {0})

pub Runs-then :
    {A B : Type 0} {P : A × Parser → Type 0} {R : B × Parser → Type 0}
    {m : Result Failure (A × Parser)} {f : A → M B}
    → Runs P m
    → ((a : A) (q : Parser) → P (a, q) → Runs R (f a q))
    → Runs R (chain m f)
Runs-then (holds {a = (a, q)} h) k = k a q h
Runs-then (fails h) k = fails tt

-- the lookahead token is the result
abbrev pub Peeked : Parser → Token × Parser → Type 0
Peeked p r = Frame p r.1 × (r.1.lookahead ≡ some r.0)

scanned-Runs :
    (p : Parser) {r : Scan}
    → p.lookahead ≡ none
    → Ensures (NextAt p.opts.strict_json p.sc) (ReportsFrom p.sc) r
    → Runs (Peeked p) (scanned r p)
unfolding scanned remaining held is_consumable
scanned-Runs p e (holds {a = (t, sc)} h) = holds (
  record {
    opts = refl;
    depth = refl;
    nodes = refl;
    text = refl;
    fewer = ground (arith, length-Advanced h.behind);
    clean = λ strict. ground (arith, h.plain strict);
  },
  refl,
)
scanned-Runs p e (fails h) = holds (
  record {
    opts = refl;
    depth = refl;
    nodes = refl;
    text = refl;
    fewer = omega arith;
    clean = λ _. refl;
  },
  refl,
)

peek_at-Runs :
    (p : Parser) (l : Option Token) → p.lookahead ≡ l → Clean p → Runs (Peeked p) (peek_at l p)
unfolding peek_at
peek_at-Runs p none e c = scanned-Runs p e (next-Tracks (flags_of p) p.sc)
peek_at-Runs p (some t) e c = holds (Frame-refl c, e)

pub peek-Runs : (p : Parser) → Clean p → Runs (Peeked p) (peek p)
unfolding peek
peek-Runs p c = peek_at-Runs p p.lookahead refl c

peek_at-some :
    (p : Parser) (t : Token) (l : Option Token)
    → Clean p
    → p.lookahead ≡ l
    → l ≡ some t
    → Runs (λ r. Peeked p r × (r.0 ≡ t)) (peek_at l p)
unfolding peek_at
peek_at-some p t none c e q = cc
peek_at-some p t (some u) c e q = holds ((Frame-refl c, e), cc)

-- A second `peek` gives the same token.
pub peek-some :
    (p : Parser) (t : Token)
    → Clean p
    → p.lookahead ≡ some t
    → Runs (λ r. Peeked p r × (r.0 ≡ t)) (peek p)
unfolding peek
peek-some p t c e = peek_at-some p t p.lookahead c refl e

-- `bump` behind a `peek` that gave `t`.
pub bump-eq :
    (p : Parser) (t : Token)
    → p.lookahead ≡ some t
    → bump p ≡ ok (tt, if is_consumable t.kind then record p { lookahead = none } else p)
unfolding bump peek peek_at
bump-eq p t e = rw (e, peek_at)

-- it takes a byte of the text off what remains
abbrev pub Consumed : {A : Type 0} → Parser → A × Parser → Type 0
Consumed p r = Frame p r.1 × (remaining r.1 < remaining p)

pub bump-Runs :
    (p : Parser) (t : Token)
    → Clean p
    → p.lookahead ≡ some t
    → is_consumable t.kind ≡ true
    → Runs (Consumed p) (bump p)
unfolding remaining held
bump-Runs p t c e k =
    rw (bump-eq p t e, k)
      (holds (
        record {
          opts = refl;
          depth = refl;
          nodes = refl;
          text = refl;
          fewer = ground arith;
          clean = λ _. refl;
        },
        ground arith,
      ))
