-- ===== src/Parser/Values.antt =====
-- parser.go: `parseStringValue`, `parseNumberValue`, `parseBoolValue`, `parseNullValue` and
-- `parseMember`. The parser of values is a parameter, since objects and values are parsed in turn.
use jsonc.Prelude.{Bytes, codes, ok, err, out_of_fuel}
use jsonc.Token.{Token, TokenKind, Position}
use jsonc.Errors.{invalid_string, invalid_object_key, expected_key, expected_colon}
use jsonc.Strings.Unquote.{unquote_string, Unquoted}
use jsonc.Tree.Shape.{tree, nil, cons}
use jsonc.Tree.Internal.{Node, NodeKind, new_info}
use jsonc.Parser.State.{M, ◌>>=◌, ◌>>◌, pure, fail, peek, bump, bump_node_count}
use jsonc.Parser.Comments.{skip_dropped_comments}

-- the node of a scalar
abbrev pub scalar : NodeKind → Bytes → Bytes → Position → Node
scalar k value raw p = tree (record (new_info k p) { value = value; raw_value = raw }) nil

-- how each of the four ends
abbrev pub finish_scalar : Node → M Node
finish_scalar n = do bump; bump_node_count; pure n

unfoldable pub string_node : Unquoted Bytes → Token → M Node
unfolding bump bump_node_count
string_node (ok value) t = finish_scalar (scalar NodeKind.string value t.value t.pos)
string_node (err _) t = fail invalid_string t.pos
string_node out_of_fuel t = λ p. out_of_fuel

-- `parseStringValue`, at the string token `t`
unfoldable pub parse_string_value : Token → M Node
unfolding string_node unquote_string
parse_string_value t = string_node (unquote_string t.value) t

unfoldable pub parse_number_value : Token → M Node
unfolding bump bump_node_count
parse_number_value t = finish_scalar (scalar NodeKind.number t.value t.value t.pos)

unfoldable pub parse_bool_value : Token → M Node
unfolding bump bump_node_count
parse_bool_value t = finish_scalar (scalar NodeKind.bool t.value t.value t.pos)

unfoldable pub parse_null_value : Token → M Node
unfolding bump bump_node_count
parse_null_value t = finish_scalar (scalar NodeKind.null (codes "null") (codes "null") t.pos)

-- `tk.kind != tokenString`, `tk.kind != tokenNameSeparator`
unfoldable pub require_string : TokenKind → Token → M (Unit {0})
require_string TokenKind.string t = pure tt
require_string _ t = fail (expected_key t) t.pos

unfoldable pub require_colon : TokenKind → Token → M (Unit {0})
require_colon TokenKind.name_separator t = pure tt
require_colon _ t = fail (expected_colon t) t.pos

unfoldable pub key_text : Unquoted Bytes → Token → M Bytes
key_text (ok key) t = pure key
key_text (err _) t = fail invalid_object_key t.pos
key_text out_of_fuel t = λ p. out_of_fuel

-- the node of a member
abbrev pub member_node : Bytes → Token → Bytes → Node → Node
member_node head t key value =
    tree
      (record (new_info NodeKind.key_value t.pos) {
        key = key;
        raw_key = t.value;
        head_comment = head;
      })
      (cons value nil)

-- `parseMember`
unfoldable pub parse_member : M Node → Bytes → M Node
unfolding peek bump bump_node_count skip_dropped_comments require_string require_colon key_text
    unquote_string
parse_member parse_value head = do
  t ← peek
  require_string t.kind t
  key ← key_text (unquote_string t.value) t
  bump
  skip_dropped_comments
  colon ← peek
  require_colon colon.kind colon
  bump
  skip_dropped_comments
  value ← parse_value
  bump_node_count
  pure (member_node head t key value)
