-- ===== src/Parser/AnyValue.antt =====
-- parser.go: `parseValue`.
use jsonc.Prelude.{ℕ, zero, suc, out_of_fuel}
use jsonc.Token.{Token, TokenKind}
use jsonc.Errors.{expected_value_got, comments_before_value}
use jsonc.Tree.Internal.{Node}
use jsonc.Parser.State.{M, ◌>>=◌, fail, peek}
use jsonc.Parser.Values.{parse_string_value, parse_number_value, parse_bool_value, parse_null_value}
use jsonc.Parser.Objects.{parse_object}
use jsonc.Parser.Arrays.{parse_array}

-- the switch of `parseValue`, on the kind of the token `t`
unfoldable pub parse_value_at : TokenKind → Token → M Node → M Node
unfolding parse_object parse_array parse_string_value parse_number_value parse_bool_value
    parse_null_value
parse_value_at TokenKind.object_start t inner = parse_object inner
parse_value_at TokenKind.array_start t inner = parse_array inner
parse_value_at TokenKind.string t inner = parse_string_value t
parse_value_at TokenKind.number t inner = parse_number_value t
parse_value_at TokenKind.true_word t inner = parse_bool_value t
parse_value_at TokenKind.false_word t inner = parse_bool_value t
parse_value_at TokenKind.null_word t inner = parse_null_value t
parse_value_at TokenKind.line_comment t inner = fail comments_before_value t.pos
parse_value_at TokenKind.block_comment t inner = fail comments_before_value t.pos
parse_value_at TokenKind.newline t inner = fail comments_before_value t.pos
parse_value_at _ t inner = fail (expected_value_got t) t.pos

-- `parseValue`; a value inside another costs a unit of fuel and has consumed a token
unfoldable pub parse_value : ℕ → M Node
unfolding peek parse_value_at
parse_value zero p = out_of_fuel
parse_value (suc fuel) p = (do t ← peek; parse_value_at t.kind t (parse_value fuel)) p
