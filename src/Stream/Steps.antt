-- ===== src/Stream/Steps.antt =====
-- What one value of a stream leaves of the parser's state.
use jsonc.Prelude.{
  ℕ, suc, ◌≤◌, ◌<◌, Bool, true, false, [], ◌∷◌, ◌≡◌, refl, inr, Option, none, some, holds, arith,
  Bytes,
}
use jsonc.Token.{Token}
use jsonc.Tree.Internal.{Node, NodeInfo}
use jsonc.Scanner.Extent.{length-Advanced}
use jsonc.Scanner.Progress.{skip_blanks-Advanced}
use jsonc.Parser.State.{Parser, DecoderOptions, remaining, held}
use jsonc.Parser.Frame.{Clean, Frame, Frame-refl, Frame-trans, Runs, Runs-then, peek-Runs}
use jsonc.Parser.CommentFrame.{collect_head_comments-Runs}
use jsonc.Parser.Step.{Step-of_Frame, Parsed, Ready, Ready-Step}
use jsonc.Parser.Touch.{IsComment, update-Touched}
use jsonc.Parser.ValueLoop.{parse_value-Runs}
use jsonc.Parser.RootSound.{Touched-root, Parsed-from}
use jsonc.Parser.Correct.{Accepted, size-Within}
use jsonc.Stream.State.{
  value_end, value_end_at, add_lead, next_at, next_root, reset, is_eof, more_run,
}

-- What the parser is left with: the same options, and a lookahead that strict JSON allows.
pub record Kept (p q : Parser) : Type 0 where
  pub opts : q.opts ≡ p.opts
  pub fewer : remaining q ≤ remaining p
  pub clean : Clean q

-- No value, or a value that is well formed and within the limits, for which a token or more was read.
pub data Next (p : Parser) : Option (Node × ℕ) × Parser → Type 0 where
  ended : {q : Parser} → Kept p q → Next p (none, q)
  read :
      {n : Node} {k : ℕ} {q : Parser}
      → Kept p q
      → remaining q < remaining p
      → Accepted p.opts (n, [])
      → Next p (some (n, k), q)

value_end_at-Runs :
    (o : Option Token) (p : Parser)
    → p.lookahead ≡ o
    → Clean p
    → Runs (λ r. Frame p r.1) (value_end_at o p)
unfolding value_end_at remaining held
value_end_at-Runs (some t) p e c = holds (Frame-refl c)
value_end_at-Runs none p e c = holds (record {
  opts = refl;
  depth = refl;
  nodes = refl;
  text = refl;
  fewer = omega (arith, length-Advanced (skip_blanks-Advanced p.sc));
  clean = c;
})

value_end-Runs : (p : Parser) → Clean p → Runs (λ r. Frame p r.1) (value_end p)
unfolding value_end
value_end-Runs p c = value_end_at-Runs p.lookahead p refl c

add_lead-kind : (c : Bytes) (i : NodeInfo) → (add_lead c i).kind ≡ i.kind
unfolding add_lead
add_lead-kind [] i = refl
add_lead-kind (_ ∷ _) i = refl

add_lead-key : (c : Bytes) (i : NodeInfo) → (add_lead c i).key ≡ i.key
unfolding add_lead
add_lead-key [] i = refl
add_lead-key (_ ∷ _) i = refl

add_lead-IsComment :
    {o : DecoderOptions} {c : Bytes} → (o.strict_json ≡ true → c ≡ []) → IsComment o (add_lead c)
unfolding add_lead
add_lead-IsComment {c} h = record {
  kind = add_lead-kind c;
  key = add_lead-key c;
  silent = λ s i e. rw (h s) e;
}

Ready-reset : (p : Parser) → Clean p → Ready (reset p)
Ready-reset p c = record { clean = c; depth = inr (omega arith); nodes = inr (omega arith) }

-- A value that is read by a parser that was reset.
Next-reset :
    (p : Parser) (k : ℕ) {n : Node} {r : Parser} → Parsed (reset p) (n, r) → Next p (some (n, k), r)
unfolding remaining
Next-reset p k h =
    read (record { opts = h.after.opts; fewer = h.after.fewer; clean = h.after.clean }) h.took
      (record {
        shaped = h.value;
        shallow = size-Within h.good.deep (omega arith);
        small = size-Within (h.after.limited (inr (omega arith))) (omega (arith, h.sized));
        plain = h.good.silent;
      })

next_at-Runs :
    (b : Bool) (lead : Bytes) (p q : Parser)
    → Clean p
    → Frame (reset p) q
    → (p.opts.strict_json ≡ true → lead ≡ [])
    → Runs (Next p) (next_at b lead q)
unfolding next_at remaining
next_at-Runs true lead p q c f s =
    holds (ended (record { opts = f.opts; fewer = f.fewer; clean = f.clean }))
next_at-Runs false lead p q c f s =
    Runs-then
      (parse_value-Runs (suc (remaining q)) q (omega arith)
        (Ready-Step (Ready-reset p c) (Step-of_Frame f)))
      λ n r h. Runs-then (value_end-Runs r h.after.clean) λ k u g.
        let t = update-Touched p.opts (add_lead lead) n (add_lead-IsComment s) in
        let w = Parsed-from f h in holds (Next-reset p k (Touched-root w g t))

-- The parser gives no value, or one that is well formed and within the limits, or fails; no loop
-- outruns its fuel.
pub next_root-Runs : (p : Parser) → Clean p → Runs (Next p) (next_root p)
unfolding next_root
next_root-Runs p c = Runs-then (collect_head_comments-Runs (reset p) c) λ lead q h.
    Runs-then (peek-Runs q h.0.clean)
      λ t r g. next_at-Runs (is_eof t.kind) lead p r c (Frame-trans h.0 g.0) h.1

pub more_run-Runs : (p : Parser) → Clean p → Runs (λ r. Kept p r.1) (more_run p)
unfolding more_run
more_run-Runs p c = Runs-then (collect_head_comments-Runs p c) λ lead q h.
    Runs-then (peek-Runs q h.0.clean) λ t r g.
      let f = Frame-trans h.0 g.0 in
      holds (record { opts = f.opts; fewer = f.fewer; clean = f.clean })
