-- ===== src/Parser/Step.antt =====
-- What parsing a value, or a part of one, leaves of the parser's state.
use jsonc.Prelude.{
  ℕ, ◌+◌, ◌-◌, ◌≤◌, ◌<◌, true, false, ◌≡◌, refl, ◌∙◌, inl, inr, arith, holds, fails, Bool-cases,
}
use mathlib.Core.Path.{subst₂}
use jsonc.Tree.Internal.{Node}
use jsonc.Tree.Valid.{IsValue, height, size, comment_free, Within}
use jsonc.Parser.State.{Parser, DecoderOptions, exceeds, enter_depth, bump_node_count, remaining}
use jsonc.Parser.Frame.{Clean, Frame, Runs, Runs-then, peek-Runs}

-- As `Frame`, but nodes may have been counted, within their limit.
pub record Step (p q : Parser) : Type 0 where
  pub opts : q.opts ≡ p.opts
  pub depth : q.depth ≡ p.depth
  pub text : q.text ≡ p.text
  pub fewer : remaining q ≤ remaining p
  pub clean : Clean q
  pub counted : p.nodes ≤ q.nodes
  pub limited : Within p.opts.max_nodes p.nodes → Within p.opts.max_nodes q.nodes

pub Step-of_Frame : {p q : Parser} → Frame p q → Step p q
Step-of_Frame f = record {
  opts = f.opts;
  depth = f.depth;
  text = f.text;
  fewer = f.fewer;
  clean = f.clean;
  counted = omega (arith, f.nodes);
  limited = λ w. rw f.nodes w;
}

pub Step-trans : {p q r : Parser} → Step p q → Step q r → Step p r
Step-trans f g = record {
  opts = g.opts ∙ f.opts;
  depth = g.depth ∙ f.depth;
  text = g.text ∙ f.text;
  fewer = omega (arith, f.fewer, g.fewer);
  clean = g.clean;
  counted = omega (arith, f.counted, g.counted);
  limited = λ w. rw f.opts at (g.limited (rw f.opts (f.limited w)));
}

-- What the parser guarantees of a node read at nesting depth `d` under the options `o`.
pub record Good (o : DecoderOptions) (d : ℕ) (t : Node) : Type 0 where
  pub deep : Within o.max_depth (d + height t)
  pub silent : o.strict_json ≡ true → comment_free t ≡ true

pub Good-at :
    {o o' : DecoderOptions} {d d' : ℕ} {t : Node} → o ≡ o' → d ≡ d' → Good o d t → Good o' d' t
Good-at {t} e q g = subst₂ (λ x y. Good x y t) e q g

-- A value read from `p`: it took a token or more, and its nodes have been counted.
pub record Parsed (p : Parser) (r : Node × Parser) : Type 0 where
  pub after : Step p r.1
  pub took : remaining r.1 < remaining p
  pub value : IsValue r.0
  pub good : Good p.opts p.depth r.0
  pub sized : p.nodes + size r.0 ≤ r.1.nodes

-- the state in which a value is read
pub record Ready (p : Parser) : Type 0 where
  pub clean : Clean p
  pub depth : Within p.opts.max_depth p.depth
  pub nodes : Within p.opts.max_nodes p.nodes

pub Ready-Step : {p q : Parser} → Ready p → Step p q → Ready q
Ready-Step r s = record {
  clean = s.clean;
  depth = rw (s.opts, s.depth) r.depth;
  nodes = rw s.opts (s.limited r.nodes);
}

Within-of_exceeds : (n limit : ℕ) → exceeds n limit ≡ false → Within limit n
Within-of_exceeds n limit e = ground arith

-- A parser one level deeper, with the same input and counts.
pub record Entered (p q : Parser) : Type 0 where
  pub opts : q.opts ≡ p.opts
  pub depth : q.depth ≡ p.depth + 1
  pub text : q.text ≡ p.text
  pub nodes : q.nodes ≡ p.nodes
  pub lookahead : q.lookahead ≡ p.lookahead
  pub same : remaining q ≡ remaining p
  pub ready : Ready q

pub enter_depth-Runs : (p : Parser) → Ready p → Runs (λ r. Entered p r.1) (enter_depth p)
unfolding enter_depth remaining
enter_depth-Runs p h = elim (Bool-cases (exceeds (p.depth + 1) p.opts.max_depth)) [
  | inl e ↦
      rw e (Runs-then (peek-Runs (record p { depth = p.depth + 1 }) h.clean) λ _ _ _. fails tt)
  | inr e ↦ rw e (
      holds (record {
        opts = refl;
        depth = refl;
        text = refl;
        nodes = refl;
        lookahead = refl;
        same = refl;
        ready = record {
          clean = h.clean;
          depth = Within-of_exceeds (p.depth + 1) p.opts.max_depth e;
          nodes = h.nodes;
        };
      }))
]

-- `bumpNodeCount` counts one node.
abbrev pub Counted : Parser → Unit {0} × Parser → Type 0
Counted p r = Step p r.1 × (r.1.nodes ≡ p.nodes + 1)

pub bump_node_count-Runs : (p : Parser) → Clean p → Runs (Counted p) (bump_node_count p)
unfolding bump_node_count remaining
bump_node_count-Runs p c = elim (Bool-cases (exceeds (p.nodes + 1) p.opts.max_nodes)) [
  | inl e ↦ rw e (Runs-then (peek-Runs (record p { nodes = p.nodes + 1 }) c) λ _ _ _. fails tt)
  | inr e ↦ rw e (
      holds (
        record {
          opts = refl;
          depth = refl;
          text = refl;
          fewer = omega arith;
          clean = c;
          counted = omega arith;
          limited = λ _. Within-of_exceeds (p.nodes + 1) p.opts.max_nodes e;
        },
        refl,
      ))
]

-- the depth is no part of what remains
pub remaining-depth : (r : Parser) (d : ℕ) → remaining (record r { depth = d }) ≡ remaining r
unfolding remaining
remaining-depth r d = refl

-- the state behind a container that was read one level deeper
pub exit_depth-Step :
    {p q r : Parser} → Entered p q → Step q r → Step p (record r { depth = r.depth - 1 })
unfolding remaining
exit_depth-Step {p} {q} {r} e s = record {
  opts = s.opts ∙ e.opts;
  depth = omega (arith, s.depth, e.depth);
  text = s.text ∙ e.text;
  fewer = unfold remaining in omega (arith, s.fewer, e.same);
  clean = s.clean;
  counted = omega (arith, s.counted, e.nodes);
  limited = λ w. rw e.opts at (s.limited (rw (e.opts, e.nodes) w));
}
