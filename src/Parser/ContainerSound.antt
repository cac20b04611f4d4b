-- ===== src/Parser/ContainerSound.antt =====
-- What `parseObject` and `parseArray` share: the way in and out of a container, and its closing.
use jsonc.Prelude.{
  ℕ, ◌+◌, ◌-◌, ◌≤◌, ◌<◌, Bool, true, ◌&&◌, List, [], ◌≡◌, refl, ◌∙◌, inl, inr, Bytes, some, arith,
  holds, fails, Bool-cases,
}
use jsonc.Token.{Token}
use jsonc.Tree.Shape.{tree, of_list}
use jsonc.Tree.Internal.{Node, NodeInfo, NodeKind}
use jsonc.Tree.Valid.{IsValue, height, size, comment_free, has_no_comment, Within}
use jsonc.Parser.State.{
  Parser, M, ◌>>=◌, ◌>>◌, pure, bump, peek, is_consumable, remaining, enter_depth, exit_depth,
  bump_node_count,
}
use jsonc.Parser.Containers.{check_trailing_comma, close_container}
use jsonc.Parser.Frame.{Clean, Frame, Frame-trans, Runs, Runs-then, peek-some, bump-Runs}
use jsonc.Parser.CommentFrame.{collect_trailing_inline_comment-Runs}
use jsonc.Parser.Step.{
  Step, Step-of_Frame, Step-trans, Parsed, Ready, Ready-Step, enter_depth-Runs, exit_depth-Step,
  remaining-depth, bump_node_count-Runs,
}
use jsonc.Parser.ValueSound.{AtToken}

-- A container closed around its children.
pub record Closed (p : Parser) (k : NodeKind) (ts : List Node) (r : Node × Parser) : Type 0 where
  pub frame : Frame p r.1
  pub node :
      (i : NodeInfo) × (r.0 ≡ tree i (of_list ts))
      × (i.kind ≡ k)
      × (p.opts.strict_json ≡ true → has_no_comment i ≡ true)

pub close_container-Runs :
    (k : NodeKind) (opened closed : Token) (comma : Bool) (foot : Bytes) (ts : List Node)
    (p : Parser)
    → Clean p
    → p.lookahead ≡ some closed
    → is_consumable closed.kind ≡ true
    → (p.opts.strict_json ≡ true → foot ≡ [])
    → Runs (Closed p k ts) (close_container k opened closed comma foot ts p)
unfolding close_container check_trailing_comma
close_container-Runs k opened closed comma foot ts p c l taken silent =
    elim (Bool-cases (comma && p.opts.strict_json)) [
      | inl e ↦ rw e (fails tt)
      | inr e ↦ rw e (
          Runs-then (bump-Runs p closed c l taken) λ _ q a.
            Runs-then (collect_trailing_inline_comment-Runs q a.0.clean) λ text r b. holds (record {
              frame = Frame-trans a.0 b.0;
              node = (_, refl, refl, λ s. rw (silent s, b.1 (rw a.0.opts s)) refl);
            }))
    ]

-- A container that was read from `p`, inside of it, with `base` nodes counted so far, itself
-- included.
pub record Built (p : Parser) (base : ℕ) (r : Node × Parser) : Type 0 where
  pub after : Step p r.1
  pub value : IsValue r.0
  pub deep : (d : ℕ) → p.depth ≡ d + 1 → Within p.opts.max_depth (d + height r.0)
  pub silent : p.opts.strict_json ≡ true → comment_free r.0 ≡ true
  pub sized : base + size r.0 ≤ r.1.nodes + 1

pub Built-Step :
    {p q : Parser} {base : ℕ} {r : Node × Parser} → Step p q → Built q base r → Built p base r
Built-Step f b = record {
  after = Step-trans f b.after;
  value = b.value;
  deep = λ d e. rw f.opts at (b.deep d (f.depth ∙ e));
  silent = rw f.opts at b.silent;
  sized = b.sized;
}

-- From the opening token `t`, in the lookahead of `q`, to the state behind the container.
pub container-Runs :
    (loop : Token → M Node) (p q : Parser) (t : Token)
    → Ready p
    → AtToken p q t
    → ((opened : Token) (r : Parser)
        → Ready r
        → remaining r < remaining p
        → Runs (Built r r.nodes) (loop opened r))
    → Runs (Parsed p) (
        (do
          enter_depth
          opened ← peek
          bump
          bump_node_count
          n ← λ r. loop opened r
          exit_depth
          pure n)
          q)
unfolding exit_depth
container-Runs loop p q t h a ih =
    Runs-then (enter_depth-Runs q (Ready-Step h (Step-of_Frame a.frame))) λ _ q1 b1.
      Runs-then (peek-some q1 t b1.ready.clean (b1.lookahead ∙ a.stands)) λ opened q2 b2.
        Runs-then (bump-Runs q2 opened b2.0.0.clean b2.0.1 (rw b2.1 a.taken)) λ _ q3 b3.
          Runs-then (bump_node_count-Runs q3 b3.0.clean) λ _ q4 b4.
            let f = Step-trans (Step-of_Frame (Frame-trans b2.0.0 b3.0)) b4.0 in
            let less : remaining q4 < remaining p =
              omega (arith, b4.0.fewer, b3.1, b2.0.0.fewer, b1.same, a.frame.fewer) in
            Runs-then (ih opened q4 (Ready-Step b1.ready f) less) λ n q5 b5.
              let s = exit_depth-Step b1 (Step-trans f b5.after) in
              let o = b4.0.opts ∙ b3.0.opts ∙ b2.0.0.opts ∙ b1.opts ∙ a.frame.opts in
              holds (record {
                after = Step-trans (Step-of_Frame a.frame) s;
                took = omega (arith, less, b5.after.fewer, remaining-depth q5 (q5.depth - 1));
                value = b5.value;
                good = record {
                  deep =
                      rw o at (b5.deep p.depth (omega (arith, f.depth, b1.depth, a.frame.depth)));
                  silent = rw o at b5.silent;
                };
                sized =
                    omega
                      (arith, b5.sized, b4.1, b3.0.nodes, b2.0.0.nodes, b1.nodes, a.frame.nodes);
              })
