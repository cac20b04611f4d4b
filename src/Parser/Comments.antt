-- ===== src/Parser/Comments.antt =====
-- parser.go: where the parser collects and drops comments.
use jsonc.Prelude.{
  ℕ, zero, suc, Bool, true, ◌&&◌, ◌||◌, [], ◌∷◌, ◌++◌, ◌==◌, is_empty, if◌then◌else◌, Bytes,
  out_of_fuel,
}
use jsonc.Token.{Token, TokenKind}
use jsonc.Tree.Shape.{update}
use jsonc.Tree.Internal.{Node, NodeInfo}
use jsonc.Parser.State.{M, ◌>>=◌, ◌>>◌, pure, peek, bump, warn, dropped_comment, remaining}

-- `isBlank`
unfoldable pub is_blank : Bytes → Bool
is_blank [] = true
is_blank (c ∷ cs) = (c == b' ' || c == b'\t' || c == b'\r' || c == b'\n') && is_blank cs

-- `nonBlank`
unfoldable pub non_blank : Bytes → Bytes
unfolding is_blank
non_blank text = if is_blank text then [] else text

-- `appendCommentBlock`
unfoldable pub append_comment_block : Bytes → Bytes → Bytes
append_comment_block [] addition = addition
append_comment_block (c ∷ cs) [] = c ∷ cs
append_comment_block (c ∷ cs) (d ∷ ds) = (c ∷ cs) ++ b'\n' ∷ d ∷ ds

-- the writes of one comment to a `strings.Builder`, behind a newline if it is not empty
abbrev pub write_comment : Bytes → Bytes → Bytes
write_comment [] value = value
write_comment (c ∷ cs) value = (c ∷ cs) ++ b'\n' ∷ value

-- what the loops over comments tell apart
pub data Trivia : Type 0 where
  line_break comment other : Trivia

unfoldable pub trivia : TokenKind → Trivia
trivia TokenKind.newline = line_break
trivia TokenKind.line_comment = comment
trivia TokenKind.block_comment = comment
trivia _ = other

-- The switch of `collectHeadComments` at the token `t`; `again` is the loop's next round.
unfoldable pub collect_turn : Trivia → Token → Bytes → (Bytes → M Bytes) → M Bytes
unfolding bump non_blank
collect_turn line_break t sb again = do bump; again sb
collect_turn comment t sb again = do bump; again (write_comment sb t.value)
collect_turn other t sb again = pure (non_blank sb)

-- its loop; each round but the last consumes a token
unfoldable pub collect_loop : ℕ → Bytes → M Bytes
unfolding trivia peek collect_turn
collect_loop zero sb p = out_of_fuel
collect_loop (suc fuel) sb p =
    (do t ← peek; collect_turn (trivia t.kind) t sb (collect_loop fuel)) p

unfoldable pub collect_head_comments : M Bytes
unfolding collect_loop remaining non_blank
collect_head_comments p = collect_loop (suc (remaining p)) [] p

unfoldable pub inline_turn : Trivia → Token → M Bytes
unfolding bump non_blank
inline_turn comment t = do bump; pure (non_blank t.value)
inline_turn _ t = pure []

-- `collectTrailingInlineComment`
unfoldable pub collect_trailing_inline_comment : M Bytes
unfolding trivia peek inline_turn
collect_trailing_inline_comment = do t ← peek; inline_turn (trivia t.kind) t

-- the switch of `skipDroppedComments`
unfoldable pub skip_turn : Trivia → Token → M (Unit {0}) → M (Unit {0})
unfolding bump
skip_turn line_break t again = do bump; again
skip_turn comment t again = do warn (dropped_comment t.pos); bump; again
skip_turn other t again = pure tt

unfoldable pub skip_loop : ℕ → M (Unit {0})
unfolding trivia peek skip_turn
skip_loop zero p = out_of_fuel
skip_loop (suc fuel) p = (do t ← peek; skip_turn (trivia t.kind) t (skip_loop fuel)) p

unfoldable pub skip_dropped_comments : M (Unit {0})
unfolding skip_loop remaining
skip_dropped_comments p = skip_loop (suc (remaining p)) p

-- the setters of the comment fields
abbrev pub set_comment : Bytes → NodeInfo → NodeInfo
set_comment c i = record i { comment = c }

abbrev pub add_foot : Bytes → NodeInfo → NodeInfo
add_foot c i = record i { foot_comment = append_comment_block i.foot_comment c }

abbrev pub add_head : Bytes → NodeInfo → NodeInfo
add_head c i = record i { head_comment = append_comment_block i.head_comment c }

-- the switch of `attachAfterComma`, on the comment collected
unfoldable pub attach : Bytes → NodeInfo → NodeInfo
unfolding append_comment_block
attach c i = if is_empty c then i else if is_empty i.comment then set_comment c i else add_foot c i

-- `attachAfterComma`, which gives the node with its new comments
unfoldable pub attach_after_comma : Node → M Node
unfolding attach collect_trailing_inline_comment
attach_after_comma n = do c ← collect_trailing_inline_comment; pure (update (attach c) n)
