-- ===== src/Ast/Public.antt =====
-- node.go: `Node`, and its conversion to and from the parser's node.
use jsonc.Prelude.{
  ℕ, Bool, true, false, ◌&&◌, ◌||◌, [], ◌∷◌, ◌==◌, ltb, if◌then◌else◌, is_empty, Bytes, bytes_eq,
  ok, err, out_of_fuel,
}
use jsonc.Token.{Position}
use jsonc.Strings.Utf8.{valid_string}
use jsonc.Strings.Unquote.{Unquoted, unquote_string}
use jsonc.Tree.Shape.{Tree, Forest, tree, nil, cons}
use jsonc.Tree.Internal.{Node, NodeInfo, NodeKind, CommentStyle}

-- `NodeKind`: an int, of which eight have a name
pub data PublicKind : Type 0 where
  object_node array_node key_value_node string_node number_node boolean_node null_node
        comment_node :
      PublicKind
  unnamed_kind : ℕ → PublicKind

-- the public `CommentStyle`
pub data PublicStyle : Type 0 where
  line_comment_style block_comment_style : PublicStyle
  unnamed_style : ℕ → PublicStyle

-- `Node`, less its children
pub record PublicInfo : Type 0 where
  pub kind : PublicKind
  pub key : Bytes
  pub raw_key : Bytes
  pub value : Bytes
  pub raw_value : Bytes
  pub style : PublicStyle
  pub pos : Position
  pub comment : Bytes
  pub head_comment : Bytes
  pub foot_comment : Bytes
  pub trail_comment : Bytes

-- A tree whose children are not nil.
abbrev pub PublicNode : Type 0
PublicNode = Tree PublicInfo

-- `exportKind`
unfoldable pub export_kind : NodeKind → PublicKind
export_kind NodeKind.object = object_node
export_kind NodeKind.array = array_node
export_kind NodeKind.key_value = key_value_node
export_kind NodeKind.string = string_node
export_kind NodeKind.number = number_node
export_kind NodeKind.bool = boolean_node
export_kind NodeKind.null = null_node
export_kind NodeKind.comment = comment_node

-- `importKind`
unfoldable pub import_kind : PublicKind → NodeKind
import_kind object_node = NodeKind.object
import_kind array_node = NodeKind.array
import_kind key_value_node = NodeKind.key_value
import_kind string_node = NodeKind.string
import_kind number_node = NodeKind.number
import_kind boolean_node = NodeKind.bool
import_kind null_node = NodeKind.null
import_kind comment_node = NodeKind.comment
import_kind (unnamed_kind _) = NodeKind.string

-- `exportStyle`
unfoldable pub export_style : CommentStyle → PublicStyle
export_style CommentStyle.line = line_comment_style
export_style CommentStyle.block = block_comment_style

-- `importStyle`
unfoldable pub import_style : PublicStyle → CommentStyle
import_style block_comment_style = CommentStyle.block
import_style _ = CommentStyle.line

unfoldable pub export_info : NodeInfo → PublicInfo
unfolding export_kind export_style
export_info i = record {
  kind = export_kind i.kind;
  key = i.key;
  raw_key = i.raw_key;
  value = i.value;
  raw_value = i.raw_value;
  style = export_style i.style;
  pos = i.pos;
  comment = i.comment;
  head_comment = i.head_comment;
  foot_comment = i.foot_comment;
  trail_comment = i.trail_comment;
}

-- `exportNode`, and its loop over the children
unfoldable mutual
  unfolding export_info

  pub export_node : Node → PublicNode
  export_node (tree i ts) = tree (export_info i) (export_nodes ts)

  pub export_nodes : Forest NodeInfo → Forest PublicInfo
  export_nodes nil = nil
  export_nodes (cons t ts) = cons (export_node t) (export_nodes ts)

-- The loop of `plainStringToken` over the bytes between the quotes, from behind the first of them:
-- the last byte of the list is the closing quote. A backslash skips a byte.
unfoldable pub plain_loop : Bytes → Bool
plain_loop [] = true
plain_loop (c ∷ []) = true
plain_loop (c ∷ d ∷ ds) =
    let rest = plain_loop (d ∷ ds) in
    let behind = plain_loop ds in
    if c == b'\\' then behind else if c == b'"' || ltb c 0x20 then false else rest

unfoldable pub plain_between : Bytes → Bool
unfolding plain_loop
plain_between [] = true
plain_between (c ∷ cs) = plain_loop cs

-- `plainStringToken`
unfoldable pub plain_string_token : Bytes → Bool
unfolding valid_string plain_between
plain_string_token raw = valid_string raw && plain_between raw

-- the test on the outcome of `unquoteString`
unfoldable pub spells : Unquoted Bytes → Bytes → Bool
unfolding bytes_eq
spells (ok text) key = bytes_eq text key
spells (err e) key = false
spells out_of_fuel key = false

-- the raw key that `importNode` keeps
unfoldable pub import_raw_key : Bytes → Bytes → Bytes
unfolding spells unquote_string plain_string_token
import_raw_key raw key =
    if is_empty raw
    then []
    else if spells (unquote_string raw) key && plain_string_token raw
    then raw
    else []

unfoldable pub import_info : PublicInfo → NodeInfo
unfolding import_kind import_style import_raw_key
import_info i = record {
  kind = import_kind i.kind;
  key = i.key;
  raw_key = import_raw_key i.raw_key i.key;
  value = i.value;
  raw_value = i.raw_value;
  style = import_style i.style;
  pos = i.pos;
  comment = i.comment;
  head_comment = i.head_comment;
  foot_comment = i.foot_comment;
  trail_comment = i.trail_comment;
  raw_bytes = [];
}

-- `importNode`, and its loop over the children
unfoldable mutual
  unfolding import_info

  pub import_node : PublicNode → Node
  import_node (tree i ts) = tree (import_info i) (import_nodes ts)

  pub import_nodes : Forest PublicInfo → Forest NodeInfo
  import_nodes nil = nil
  import_nodes (cons t ts) = cons (import_node t) (import_nodes ts)
