-- ===== src/Parser/ArrayLoop.antt =====
-- The loop of `parseArray` ends within its fuel in a well-formed array, or in an error.
use jsonc.Prelude.{
  ℕ, zero, suc, ◌<◌, Bool, true, false, [], ◌≡◌, refl, Bytes, some, arith, Ensures-weaken,
}
use jsonc.Token.{Token, TokenKind}
use jsonc.Tree.Internal.{Node, NodeKind}
use jsonc.Tree.Valid.{array_value, height, size, sizes, comment_free}
use jsonc.Parser.State.{Parser, M, is_consumable, remaining}
use jsonc.Parser.Comments.{append_comment_block}
use jsonc.Parser.Arrays.{
  ArrayState, is_array_end, array_round, array_loop, empty_array, parse_array,
}
use jsonc.Parser.Frame.{Frame-trans, Runs, Runs-then, peek-Runs}
use jsonc.Parser.CommentFrame.{collect_head_comments-Runs}
use jsonc.Parser.Step.{Step, Step-of_Frame, Parsed, Ready, Ready-Step}
use jsonc.Parser.ValueSound.{Inner, AtToken}
use jsonc.Parser.Touch.{append_comment_block-silent}
use jsonc.Parser.ContainerSound.{Closed, close_container-Runs, Built, Built-Step, container-Runs}
use jsonc.Parser.ArraySound.{
  Holding, Holding-Step, AreValues-of_list, heights-of_list, comments_free-of_list,
  array_element-Runs,
}

is_array_end-is_consumable : (k : TokenKind) → is_array_end k ≡ true → is_consumable k ≡ true
unfolding is_array_end is_consumable
is_array_end-is_consumable TokenKind.array_end e = refl
is_array_end-is_consumable _ e = cc

-- The node of an array that closes around the elements read.
Closed-Built :
    (p : Parser) (base : ℕ) (s : ArrayState) (r : Node × Parser)
    → Ready p
    → Holding p base s
    → Closed p NodeKind.array s.elements r
    → Built p base r
unfolding height size comment_free
Closed-Built p base s (n, q) h hold c =
    let (i, e, k, quiet) = c.node in
    record {
      after = Step-of_Frame c.frame;
      value = rw e (array_value k (AreValues-of_list p.opts p.depth s.elements hold.each));
      deep = λ d q.
          rw (e, k) (ground (arith, heights-of_list p.opts p.depth s.elements h.depth hold.each));
      silent = λ x. rw (e, quiet x, comments_free-of_list p.opts p.depth s.elements hold.each x);
      sized = rw e (omega (arith, hold.sized, c.frame.nodes));
    }

Holding-head :
    {p : Parser} {base : ℕ} {s : ArrayState} {c : Bytes}
    → Holding p base s
    → (p.opts.strict_json ≡ true → c ≡ [])
    → Holding p base (record s { pending_head = append_comment_block s.pending_head c })
Holding-head {p} h k = record {
  each = h.each;
  sized = h.sized;
  head = append_comment_block-silent p.opts h.head k;
  foot = h.foot;
}

array_round-Runs :
    (k : Bool) (t : Token) (inner : M Node) (opened : Token) (s : ArrayState) (base : ℕ)
    (again : ArrayState → M Node) (p : Parser)
    → is_array_end t.kind ≡ k
    → Ready p
    → p.lookahead ≡ some t
    → Runs (Parsed p) (inner p)
    → Holding p base s
    → ((s' : ArrayState) (q : Parser)
        → Step p q
        → remaining q < remaining p
        → Holding q base s'
        → Runs (Built q base) (again s' q))
    → Runs (Built p base) (array_round k t inner opened s again p)
unfolding array_round
array_round-Runs true t inner opened s base again p e h l ih hold next =
    Ensures-weaken
      (close_container-Runs NodeKind.array opened t s.just_consumed_comma _ s.elements p h.clean l
        (is_array_end-is_consumable t.kind e)
        (append_comment_block-silent p.opts hold.foot hold.head))
      (λ r c. Closed-Built p base s r h hold c) λ _ _. tt
array_round-Runs false t inner opened s base again p e h l ih hold next =
    Runs-then (array_element-Runs inner s base p h ih hold)
      λ s' q a. Ensures-weaken (next s' q a.0.0 a.1 a.0.1) (λ r b. Built-Step a.0.0 b) λ _ _. tt

array_loop-Runs :
    (fuel bound : ℕ) (inner : M Node) (opened : Token) (s : ArrayState) (base : ℕ) (p : Parser)
    → remaining p < fuel
    → remaining p < bound
    → Ready p
    → Inner bound inner
    → Holding p base s
    → Runs (Built p base) (array_loop fuel inner opened s p)
unfolding array_loop
array_loop-Runs zero bound inner opened s base p lt in_bound h ih hold = absurd (omega arith)
array_loop-Runs (suc fuel) bound inner opened s base p lt in_bound h ih hold =
    Runs-then (collect_head_comments-Runs p h.clean) λ c q1 a1.
      Runs-then (peek-Runs q1 a1.0.clean) λ t q2 a2.
        let f = Step-of_Frame (Frame-trans a1.0 a2.0) in
        let hold' = Holding-head (Holding-Step hold f) (rw f.opts a1.1) in
        let k = Ready-Step h f in
        Ensures-weaken
          (array_round-Runs (is_array_end t.kind) t inner opened _ base
            (array_loop fuel inner opened) q2 refl k a2.1 (ih q2 (omega (arith, f.fewer)) k) hold'
            λ s' r g less k'.
              array_loop-Runs fuel bound inner opened s' base r (omega (arith, f.fewer))
                (omega (arith, f.fewer)) (Ready-Step k g) ih k')
          (λ r b. Built-Step f b) λ _ _. tt

-- An array is read from its opening bracket `t`.
pub parse_array-Runs :
    (inner : M Node) (p q : Parser) (t : Token)
    → Ready p
    → AtToken p q t
    → Inner (remaining p) inner
    → Runs (Parsed p) (parse_array inner q)
unfolding parse_array sizes
parse_array-Runs inner p q t h a ih =
    container-Runs (λ opened r. array_loop (suc (remaining r)) inner opened empty_array r) p q t h a
      λ opened r k less.
        array_loop-Runs (suc (remaining r)) (remaining p) inner opened empty_array r.nodes r
          (omega arith) less k ih
          (record { each = tt; sized = omega arith; head = λ _. refl; foot = λ _. refl })
