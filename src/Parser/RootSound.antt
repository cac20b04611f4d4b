-- ===== src/Parser/RootSound.antt =====
-- `parseRoot`: the value, and the comments around it.
use jsonc.Prelude.{
  ℕ, zero, suc, ◌<◌, Bool, true, false, [], ◌∷◌, ◌≡◌, refl, is_empty, Bytes, inl, inr, Bool-cases,
  Result, arith, holds, fails, Ensures-weaken,
}
use jsonc.Token.{Token}
use jsonc.Tree.Shape.{info, update}
use jsonc.Tree.Internal.{Node, NodeInfo}
use jsonc.Parser.State.{Parser, Failure, DecoderOptions, M, chain, remaining}
use jsonc.Parser.Comments.{
  Trivia, line_break, comment, other, trivia, non_blank, write_comment, append_comment_block,
  set_comment,
}
use jsonc.Parser.Document.{
  is_end, end_trailing, trailing_turn, trailing_loop, consume_trailing, add_trail, require_value,
  lead, root_comment, parse_root,
}
use jsonc.Parser.Frame.{
  Clean, Frame, Frame-refl, Frame-trans, Runs, Runs-then, Peeked, peek-Runs, Consumed, bump-Runs,
}
use jsonc.Parser.CommentFrame.{
  Silent, later, not_strict, trivia_consumable, non_blank-nil, collect_head_comments-Runs,
  collect_trailing_inline_comment-Runs,
}
use jsonc.Parser.Step.{Step-of_Frame, Step-trans, Good-at, Parsed, Ready, Ready-Step}
use jsonc.Parser.Touch.{
  IsComment, Touched, Touched-refl, Touched-trans, update-Touched, set_comment-IsComment, Commented,
}
use jsonc.Parser.ValueLoop.{parse_value-Runs}

empty-of : (c : Bytes) → is_empty c ≡ true → c ≡ []
empty-of [] e = refl
empty-of (x ∷ xs) e = cc

is_empty-append_comment_block :
    (a b : Bytes) → b ≡ [] → is_empty a ≡ true → is_empty (append_comment_block a b) ≡ true
unfolding append_comment_block
is_empty-append_comment_block a b e h = rw (e, empty-of a h) refl

module _ {o : DecoderOptions} {c : Bytes} (none_in_strict : o.strict_json ≡ true → c ≡ []) where
  add_trail-IsComment : IsComment o (add_trail c)
  add_trail-IsComment = record {
    kind = λ i. refl;
    key = λ i. refl;
    silent =
        λ s i e. ground (arith, is_empty-append_comment_block i.trail_comment c (none_in_strict s));
  }

lead-kind : (c : Bytes) (i : NodeInfo) → (lead c i).kind ≡ i.kind
unfolding lead
lead-kind [] i = refl
lead-kind (_ ∷ _) i = refl

lead-key : (c : Bytes) (i : NodeInfo) → (lead c i).key ≡ i.key
unfolding lead
lead-key [] i = refl
lead-key (_ ∷ _) i = refl

lead-IsComment :
    {o : DecoderOptions} {c : Bytes} → (o.strict_json ≡ true → c ≡ []) → IsComment o (lead c)
unfolding lead
lead-IsComment {c} h = record { kind = lead-kind c; key = lead-key c; silent = λ s i e. rw (h s) e }

pub Touched-root :
    {p : Parser} {n n' : Node} {q r : Parser}
    → Parsed p (n, q)
    → Frame q r
    → Touched p.opts n n'
    → Parsed p (n', r)
Touched-root {p} h f t = record {
  after = Step-trans h.after (Step-of_Frame f);
  took = omega (arith, h.took, f.fewer);
  value = t.value h.value;
  good = t.good p.depth h.good;
  sized = omega (arith, h.sized, t.sized, f.nodes);
}

root_comment-Runs : (n : Node) (p : Parser) → Clean p → Runs (Commented p n) (root_comment n p)
unfolding root_comment
root_comment-Runs n p c = elim (Bool-cases (is_empty (info n).comment)) [
  | inl e ↦ rw e (
      Runs-then (collect_trailing_inline_comment-Runs p c) λ text q k.
        holds (k.0, update-Touched p.opts (set_comment text) n (set_comment-IsComment k.1)))
  | inr e ↦ rw e (holds (Frame-refl c, Touched-refl))
]

end_trailing-Runs :
    (b : Bool) (t : Token) (sb : Bytes) (n : Node) (p : Parser)
    → Clean p
    → Silent p sb
    → Runs (Commented p n) (end_trailing b t sb n p)
unfolding end_trailing
end_trailing-Runs true t sb n p c s = holds (
  Frame-refl c,
  update-Touched p.opts (add_trail (non_blank sb)) n (add_trail-IsComment λ x. non_blank-nil (s x)),
)
end_trailing-Runs false t sb n p c s = fails tt

-- A run that began a few small steps later.
Commented-later :
    {p q : Parser} {n : Node} {m : Result Failure (Node × Parser)}
    → Frame p q
    → Runs (Commented q n) m
    → Runs (Commented p n) m
Commented-later {n} f h = Ensures-weaken h (λ w g. (Frame-trans f g.0, rw f.opts at g.1)) λ _ _. tt

trailing_turn-Runs :
    (k : Trivia) (t : Token) (sb : Bytes) (n : Node) (again : Bytes → M Node) (p q : Parser)
    → trivia t.kind ≡ k
    → Peeked p (t, q)
    → Silent p sb
    → ((c : Bytes) (r : Parser)
        → Consumed {A = Unit {0}} q (tt, r)
        → Silent r c
        → Runs (Commented r n) (again c r))
    → Runs (Commented p n) (trailing_turn k t sb n again q)
unfolding trailing_turn
trailing_turn-Runs line_break t sb n again p q e h s ih =
    Runs-then (bump-Runs q t h.0.clean h.1 (trivia_consumable t.kind line_break e (cc)))
      λ _ r b. let f = Frame-trans h.0 b.0 in Commented-later f (ih sb r b (later f s))
trailing_turn-Runs comment t sb n again p q e h s ih =
    Runs-then (bump-Runs q t h.0.clean h.1 (trivia_consumable t.kind comment e (cc))) λ _ r b.
      let f = Frame-trans h.0 b.0 in
      Commented-later f (ih (write_comment sb t.value) r b (later f (not_strict p q t h e)))
trailing_turn-Runs other t sb n again p q e h s ih =
    Commented-later h.0 (end_trailing-Runs (is_end t.kind) t sb n q h.0.clean (later h.0 s))

trailing_loop-Runs :
    (fuel : ℕ) (n : Node) (sb : Bytes) (p : Parser)
    → remaining p < fuel
    → Clean p
    → Silent p sb
    → Runs (Commented p n) (trailing_loop fuel n sb p)
unfolding trailing_loop
trailing_loop-Runs zero n sb p lt c e = absurd (omega arith)
trailing_loop-Runs (suc fuel) n sb p lt c e = Runs-then (peek-Runs p c) λ t q h.
    trailing_turn-Runs (trivia t.kind) t sb n (trailing_loop fuel n) p q refl h e
      λ c r b s. trailing_loop-Runs fuel n c r (omega (arith, h.0.fewer)) b.0.clean s

consume_trailing-Runs :
    (n : Node) (p : Parser) → Clean p → Runs (Commented p n) (consume_trailing n p)
unfolding consume_trailing
consume_trailing-Runs n p c =
    trailing_loop-Runs (suc (remaining p)) n [] p (omega arith) c λ _. refl

module _ {B : Type 0} {R : B × Parser → Type 0} where
  require_value-then :
      (b : Bool) (t : Token) (p : Parser) (f : Unit {0} → M B)
      → Runs R (f tt p)
      → Runs R (chain (require_value b t p) f)
  unfolding require_value
  require_value-then true t p f h = fails tt
  require_value-then false t p f h = h

pub Parsed-from : {p q : Parser} {r : Node × Parser} → Frame p q → Parsed q r → Parsed p r
Parsed-from f h = record {
  after = Step-trans (Step-of_Frame f) h.after;
  took = omega (arith, h.took, f.fewer);
  value = h.value;
  good = Good-at f.opts f.depth h.good;
  sized = omega (arith, h.sized, f.nodes);
}

-- The root is a well-formed value within the limits.
pub parse_root-Runs : (p : Parser) → Ready p → Runs (Parsed p) (parse_root p)
unfolding parse_root
parse_root-Runs p h = Runs-then (collect_head_comments-Runs p h.clean) λ head q1 a1.
    Runs-then (peek-Runs q1 a1.0.clean) λ t q2 a2. require_value-then (is_end t.kind) t q2 _ (
      let f = Frame-trans a1.0 a2.0 in
      Runs-then
        (parse_value-Runs (suc (remaining q2)) q2 (omega arith) (Ready-Step h (Step-of_Frame f)))
        λ n q3 a3.
          let w = Parsed-from f a3 in
          Runs-then (root_comment-Runs (update (lead head) n) q3 a3.after.clean) λ n' q4 a4.
            let w' = Touched-root w a4.0 (
              Touched-trans (update-Touched p.opts (lead head) n (lead-IsComment a1.1))
                (rw w.after.opts at a4.1)) in
            Ensures-weaken (consume_trailing-Runs n' q4 a4.0.clean)
              (λ r k. Touched-root w' k.0 (rw w'.after.opts at k.1)) λ _ _. tt)
