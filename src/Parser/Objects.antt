-- ===== src/Parser/Objects.antt =====
-- parser.go: `parseObject`.
use jsonc.Prelude.{
  ℕ, zero, suc, ◌+◌, Bool, true, false, not, [], ◌∷◌, ◌++◌, if◌then◌else◌, Bytes, Option, none,
  some, ok, out_of_fuel,
}
use jsonc.Token.{Token, TokenKind, Position}
use jsonc.Errors.{
  duplicate_key_error, expected_key_or_close, expected_comma_or_brace, max_keys_exceeded,
}
use jsonc.Tree.Shape.{info, update}
use jsonc.Tree.Internal.{Node, NodeKind}
use jsonc.Parser.State.{
  M, ◌>>=◌, ◌>>◌, pure, fail, throw, warn, duplicate_key, peek, bump, bump_node_count, enter_depth,
  exit_depth, exceeds, remaining,
}
use jsonc.Parser.Comments.{
  collect_head_comments, append_comment_block, attach_after_comma, add_foot,
}
use jsonc.Parser.Members.{Members, MemberIndex, key_of, find, add, clear, make_room, live}
use jsonc.Parser.Values.{parse_member}
use jsonc.Parser.Containers.{close_container, take_comment}

-- The variables of the loop in `parseObject`. A member joins `members` once its comments are
-- settled, which the source does by writing through the pointer it has already appended.
pub record ObjectState : Type 0 where
  pub members : Members
  pub index : MemberIndex
  pub foot : Bytes
  pub pending_head : Bytes
  pub just_consumed_comma : Bool

-- What is done about an earlier member of the same key: an error, or it makes room with a warning.
unfoldable pub resolve_duplicate : Option ℕ → Node → Members → M Members
unfolding clear
resolve_duplicate none member cs p = ok (cs, p)
resolve_duplicate (some i) member cs p =
    if not p.opts.allow_duplicate_keys
    then throw (duplicate_key_error (key_of member) (info member).pos) p
    else (do warn (duplicate_key (info member).pos (key_of member)); pure (make_room (some i) cs)) p

-- `p.keys++` with its limit
unfoldable pub count_key : Position → M (Unit {0})
count_key pos p =
    let q = record p { keys = p.keys + 1 } in
    if exceeds q.keys q.opts.max_keys then fail max_keys_exceeded pos q else ok (tt, q)

abbrev push : ObjectState → Node → ObjectState
push s member = record s { members = s.members ++ some member ∷ [] }

-- The switch behind a member, on the kind of the token `t`; `between` are the comments before it.
unfoldable pub after_member : TokenKind → Token → Bytes → Node → ObjectState → M ObjectState
unfolding bump attach_after_comma append_comment_block
after_member TokenKind.value_separator t between member s = do
  bump
  settled ← attach_after_comma (update (add_foot between) member)
  pure (record (push s settled) { just_consumed_comma = true })
after_member TokenKind.object_end t between member s =
    pure (record (push s member) { foot = append_comment_block s.foot between })
after_member _ t between member s = fail (expected_comma_or_brace t) t.pos

-- The rest of a round, at the key of a member.
unfoldable pub object_member : M Node → ObjectState → M ObjectState
unfolding parse_member find add resolve_duplicate count_key take_comment collect_head_comments peek
    after_member
object_member parse_value s = do
  member ← parse_member parse_value s.pending_head
  members ← resolve_duplicate (find s.index s.members (key_of member)) member s.members
  count_key (info member).pos
  let s' = record s {
    members = members;
    index = add s.index members member;
    pending_head = [];
    just_consumed_comma = false;
  }
  member' ← take_comment member
  between ← collect_head_comments
  t ← peek
  after_member t.kind t between member' s'

-- where a round of the object's loop goes
pub data ObjectTurn : Type 0 where
  close key neither : ObjectTurn

unfoldable pub object_turn : TokenKind → ObjectTurn
object_turn TokenKind.object_end = close
object_turn TokenKind.string = key
object_turn _ = neither

-- The branch that a round takes at the token `t`; `again` is the loop's next round.
unfoldable pub object_round :
    ObjectTurn → Token → M Node → Token → ObjectState → (ObjectState → M Node) → M Node
unfolding object_member close_container live append_comment_block
object_round close t parse_value opened s again =
    close_container NodeKind.object opened t s.just_consumed_comma
      (append_comment_block s.foot s.pending_head) (live s.members)
object_round key t parse_value opened s again = do s' ← object_member parse_value s; again s'
object_round neither t parse_value opened s again = fail (expected_key_or_close t) t.pos

-- the loop of `parseObject`; each round but the last consumes tokens
unfoldable pub object_loop : ℕ → M Node → Token → ObjectState → M Node
unfolding collect_head_comments peek object_turn object_round append_comment_block
object_loop zero parse_value opened s p = out_of_fuel
object_loop (suc fuel) parse_value opened s p =
    (do
      captured ← collect_head_comments
      t ← peek
      let s' = record s { pending_head = append_comment_block s.pending_head captured }
      object_round (object_turn t.kind) t parse_value opened s'
          (object_loop fuel parse_value opened))
      p

abbrev pub empty_object : ObjectState
empty_object = record {
  members = [];
  index = none;
  foot = [];
  pending_head = [];
  just_consumed_comma = false;
}

-- `parseObject`
unfoldable pub parse_object : M Node → M Node
unfolding enter_depth peek bump bump_node_count object_loop exit_depth remaining
parse_object parse_value = do
  enter_depth
  opened ← peek
  bump
  bump_node_count
  n ← λ p. object_loop (suc (remaining p)) parse_value opened empty_object p
  exit_depth
  pure n
