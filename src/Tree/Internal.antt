-- ===== src/Tree/Internal.antt =====
-- node.go: the internal `node` and its kinds.
use jsonc.Prelude.{Bytes, []}
use jsonc.Token.{Position}
use jsonc.Tree.Shape.{Tree}

pub data NodeKind : Type 0 where
  object array key_value string number bool null comment : NodeKind

pub data CommentStyle : Type 0 where
  line block : CommentStyle

-- the fields of `node` but its children
pub record NodeInfo : Type 0 where
  pub kind : NodeKind
  pub key : Bytes
  pub raw_key : Bytes
  pub value : Bytes
  pub raw_value : Bytes
  pub style : CommentStyle
  pub pos : Position
  pub comment : Bytes
  pub head_comment : Bytes
  pub foot_comment : Bytes
  pub trail_comment : Bytes
  pub raw_bytes : Bytes

abbrev pub Node : Type 0
Node = Tree NodeInfo

-- `&node{kind: k, pos: p}`
abbrev pub new_info : NodeKind → Position → NodeInfo
new_info k p = record {
  kind = k;
  key = [];
  raw_key = [];
  value = [];
  raw_value = [];
  style = CommentStyle.line;
  pos = p;
  comment = [];
  head_comment = [];
  foot_comment = [];
  trail_comment = [];
  raw_bytes = [];
}
