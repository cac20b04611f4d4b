-- ===== src/Parser/ObjectLoop.antt =====
-- The loop of `parseObject` ends within its fuel in a well-formed object, or in an error.
use jsonc.Prelude.{ℕ, zero, suc, ◌<◌, true, ◌≡◌, refl, some, arith, fails, Ensures-weaken}
use jsonc.Token.{Token, TokenKind}
use jsonc.Tree.Internal.{Node, NodeKind}
use jsonc.Tree.Valid.{object_value, height, size, comment_free}
use jsonc.Parser.State.{Parser, M, is_consumable, remaining}
use jsonc.Parser.Members.{live}
use jsonc.Parser.Members.Upkeep.{Sound-nil}
use jsonc.Parser.Objects.{
  ObjectState, ObjectTurn, close, key, neither, object_turn, object_round, object_loop,
  empty_object, parse_object,
}
use jsonc.Parser.Frame.{Frame-trans, Runs, Runs-then, peek-Runs}
use jsonc.Parser.CommentFrame.{collect_head_comments-Runs}
use jsonc.Parser.Step.{Step, Step-of_Frame, Parsed, Ready, Ready-Step}
use jsonc.Parser.ValueSound.{Inner, AtToken}
use jsonc.Parser.Touch.{append_comment_block-silent}
use jsonc.Parser.ContainerSound.{Closed, close_container-Runs, Built, Built-Step, container-Runs}
use jsonc.Parser.ObjectState.{
  AreMembers-live, DistinctKeys-live, heights-live, comments_free-live, sizes-live,
}
use jsonc.Parser.ObjectSound.{Holding, Holding-Step, Holding-head, object_member-Runs}

turn_close : (k : TokenKind) → object_turn k ≡ close → is_consumable k ≡ true
unfolding object_turn is_consumable
turn_close TokenKind.object_end e = refl
turn_close _ e = cc

-- The node of an object that closes around the members read.
Closed-Built :
    (p : Parser) (base : ℕ) (s : ObjectState) (r : Node × Parser)
    → Ready p
    → Holding p base s
    → Closed p NodeKind.object (live s.members) r
    → Built p base r
unfolding height size comment_free
Closed-Built p base s (n, q) h hold c =
    let (i, e, k, quiet) = c.node in
    record {
      after = Step-of_Frame c.frame;
      value = rw e (
          object_value k (AreMembers-live p.opts p.depth s.members hold.each)
            (DistinctKeys-live s.members hold.sound.distinct));
      deep = λ d q.
          rw (e, k) (ground (arith, heights-live p.opts p.depth s.members h.depth hold.each));
      silent = λ x. rw (e, quiet x, comments_free-live p.opts p.depth s.members hold.each x);
      sized = rw e (omega (arith, hold.sized, sizes-live s.members, c.frame.nodes));
    }

object_round-Runs :
    (k : ObjectTurn) (t : Token) (inner : M Node) (opened : Token) (s : ObjectState) (base : ℕ)
    (again : ObjectState → M Node) (p : Parser)
    → object_turn t.kind ≡ k
    → Ready p
    → p.lookahead ≡ some t
    → Inner (remaining p) inner
    → Holding p base s
    → ((s' : ObjectState) (q : Parser)
        → Step p q
        → remaining q < remaining p
        → Holding q base s'
        → Runs (Built q base) (again s' q))
    → Runs (Built p base) (object_round k t inner opened s again p)
unfolding object_round
object_round-Runs close t inner opened s base again p e h l ih hold next =
    Ensures-weaken
      (close_container-Runs NodeKind.object opened t s.just_consumed_comma _ (live s.members) p
        h.clean l (turn_close t.kind e) (append_comment_block-silent p.opts hold.foot hold.head))
      (λ r c. Closed-Built p base s r h hold c) λ _ _. tt
object_round-Runs key t inner opened s base again p e h l ih hold next =
    Runs-then (object_member-Runs inner s base p h ih hold)
      λ s' q a. Ensures-weaken (next s' q a.0.0 a.1 a.0.1) (λ r b. Built-Step a.0.0 b) λ _ _. tt
object_round-Runs neither t inner opened s base again p e h l ih hold next = fails tt

object_loop-Runs :
    (fuel : ℕ) (inner : M Node) (opened : Token) (s : ObjectState) (base : ℕ) (p : Parser)
    → remaining p < fuel
    → Ready p
    → Inner (remaining p) inner
    → Holding p base s
    → Runs (Built p base) (object_loop fuel inner opened s p)
unfolding object_loop
object_loop-Runs zero inner opened s base p lt h ih hold = absurd (omega arith)
object_loop-Runs (suc fuel) inner opened s base p lt h ih hold =
    Runs-then (collect_head_comments-Runs p h.clean) λ c q1 a1.
      Runs-then (peek-Runs q1 a1.0.clean) λ t q2 a2.
        let f = Step-of_Frame (Frame-trans a1.0 a2.0) in
        let hold' = Holding-head (Holding-Step hold f) (rw f.opts a1.1) in
        Ensures-weaken
          (object_round-Runs (object_turn t.kind) t inner opened _ base
            (object_loop fuel inner opened) q2 refl (Ready-Step h f) a2.1
            (λ r lt' k. ih r (omega (arith, f.fewer)) k) hold'
            λ s' r g less k.
              object_loop-Runs fuel inner opened s' base r (omega (arith, f.fewer))
                (Ready-Step (Ready-Step h f) g) (λ r' lt' k'. ih r' (omega (arith, f.fewer)) k') k)
          (λ r b. Built-Step f b) λ _ _. tt

-- An object is read from its opening brace `t`.
pub parse_object-Runs :
    (inner : M Node) (p q : Parser) (t : Token)
    → Ready p
    → AtToken p q t
    → Inner (remaining p) inner
    → Runs (Parsed p) (parse_object inner q)
unfolding parse_object
parse_object-Runs inner p q t h a ih =
    container-Runs (λ opened r. object_loop (suc (remaining r)) inner opened empty_object r) p q t h
      a
      λ opened r k less.
        object_loop-Runs (suc (remaining r)) inner opened empty_object r.nodes r (omega arith) k
          (λ r' lt k'. ih r' (omega arith) k')
          (record {
            sound = Sound-nil;
            each = tt;
            sized = omega arith;
            head = λ _. refl;
            foot = λ _. refl;
          })
