-- ===== src/Parser/Arrays.antt =====
-- parser.go: `parseArray`.
use jsonc.Prelude.{ℕ, zero, suc, Bool, true, false, List, [], ◌∷◌, ◌++◌, Bytes, out_of_fuel}
use jsonc.Token.{Token, TokenKind}
use jsonc.Errors.{expected_comma_or_bracket}
use jsonc.Tree.Shape.{update}
use jsonc.Tree.Internal.{Node, NodeKind}
use jsonc.Parser.State.{
  M, ◌>>=◌, ◌>>◌, pure, fail, peek, bump, bump_node_count, enter_depth, exit_depth, remaining,
}
use jsonc.Parser.Comments.{
  collect_head_comments, append_comment_block, attach_after_comma, add_foot, add_head,
}
use jsonc.Parser.Containers.{close_container, take_comment}

-- the variables of the loop in `parseArray`
pub record ArrayState : Type 0 where
  pub elements : List Node
  pub foot : Bytes
  pub pending_head : Bytes
  pub just_consumed_comma : Bool

-- the switch behind an element
unfoldable pub after_element : TokenKind → Token → Bytes → Node → ArrayState → M ArrayState
unfolding bump attach_after_comma append_comment_block
after_element TokenKind.value_separator t between value s = do
  bump
  settled ← attach_after_comma (update (add_foot between) value)
  pure (record s { elements = s.elements ++ settled ∷ []; just_consumed_comma = true })
after_element TokenKind.array_end t between value s =
    pure
      (record s { elements = s.elements ++ value ∷ []; foot = append_comment_block s.foot between })
after_element _ t between value s = fail (expected_comma_or_bracket t) t.pos

unfoldable pub array_element : M Node → ArrayState → M ArrayState
unfolding take_comment collect_head_comments peek after_element append_comment_block
array_element parse_value s = do
  value ← parse_value
  let s' = record s { pending_head = []; just_consumed_comma = false }
  value' ← take_comment (update (add_head s.pending_head) value)
  between ← collect_head_comments
  t ← peek
  after_element t.kind t between value' s'

unfoldable pub is_array_end : TokenKind → Bool
is_array_end TokenKind.array_end = true
is_array_end _ = false

-- the branch that a round takes, by whether the token `t` closes the array
unfoldable pub array_round :
    Bool → Token → M Node → Token → ArrayState → (ArrayState → M Node) → M Node
unfolding array_element close_container append_comment_block
array_round true t parse_value opened s again =
    close_container NodeKind.array opened t s.just_consumed_comma
      (append_comment_block s.foot s.pending_head) s.elements
array_round false t parse_value opened s again = do s' ← array_element parse_value s; again s'

-- the loop of `parseArray`
unfoldable pub array_loop : ℕ → M Node → Token → ArrayState → M Node
unfolding collect_head_comments peek is_array_end array_round append_comment_block
array_loop zero parse_value opened s p = out_of_fuel
array_loop (suc fuel) parse_value opened s p =
    (do
      captured ← collect_head_comments
      t ← peek
      let s' = record s { pending_head = append_comment_block s.pending_head captured }
      array_round (is_array_end t.kind) t parse_value opened s'
          (array_loop fuel parse_value opened))
      p

abbrev pub empty_array : ArrayState
empty_array = record { elements = []; foot = []; pending_head = []; just_consumed_comma = false }

-- `parseArray`
unfoldable pub parse_array : M Node → M Node
unfolding enter_depth peek bump bump_node_count array_loop exit_depth remaining
parse_array parse_value = do
  enter_depth
  opened ← peek
  bump
  bump_node_count
  n ← λ p. array_loop (suc (remaining p)) parse_value opened empty_array p
  exit_depth
  pure n
