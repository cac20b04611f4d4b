-- ===== src/Encoder/Values.antt =====
-- encode.go: `writeValue` and the writers of containers, and `encodeNode`. The source appends to a
-- buffer; a function here gives the bytes that its method appends.
use jsonc.Prelude.{
  ℕ, ◌+◌, Bool, true, false, not, ◌&&◌, ◌||◌, [], ◌∷◌, ◌++◌, ltb, is_empty, if◌then◌else◌, Bytes,
  codes,
}
use jsonc.Tree.Shape.{Forest, tree, nil, cons, info}
use jsonc.Tree.Internal.{Node, NodeInfo, NodeKind, object, array, key_value, string, comment}
use jsonc.Encoder.Options.{EncoderOptions}
use jsonc.Encoder.Quote.{source_string}
use jsonc.Encoder.Comments.{
  multiline, node_comments, write_indent, comment_block, optional_block, orphan_comment,
  after_comments, head_comments, line_comments,
}

abbrev pub is_comment_kind : NodeKind → Bool
is_comment_kind comment = true
is_comment_kind _ = false

-- `memberCount`
unfoldable pub member_count : Forest NodeInfo → ℕ
member_count nil = 0
member_count (cons t ts) = (if is_comment_kind (info t).kind then 0 else 1) + member_count ts

abbrev pub no_children : Forest NodeInfo → Bool
no_children nil = true
no_children (cons t ts) = false

-- a number, a Boolean or null
abbrev pub literal_text : NodeInfo → Bytes
literal_text i = if is_empty i.raw_value then i.value else i.raw_value

-- The lines of a container between its delimiters `l` and `r`, with `inner` from `writeChildren`.
unfoldable pub multiline_container : EncoderOptions → ℕ → NodeInfo → Bool → ℕ → ℕ → Bytes → Bytes
unfolding comment_block write_indent
multiline_container o depth i no_child l r inner =
    let foot = if o.strict_json_output then [] else optional_block o i.foot_comment (depth + 1) in
    if no_child && is_empty i.foot_comment
    then l ∷ r ∷ []
    else l ∷ b'\n' ∷ inner ++ foot ++ write_indent o depth ++ r ∷ []

-- A container on one line or on several.
unfoldable pub container :
    Bool → EncoderOptions → ℕ → NodeInfo → Bool → ℕ → ℕ → Bytes → Bytes → Bytes
unfolding multiline_container
container true o depth i no_child l r compact inner =
    multiline_container o depth i no_child l r inner
container false o depth i no_child l r compact inner = l ∷ compact ++ r ∷ []

-- The switch of `writeValue`; the last three texts are of the children, on one line, on several lines,
-- and as a member's value.
unfoldable pub value_text :
    NodeKind → EncoderOptions → ℕ → NodeInfo → Bool → Bytes → Bytes → Bytes → Bytes
unfolding container source_string orphan_comment
value_text object o depth i e compact inner value =
    container (multiline o) o depth i e b'{' b'}' compact inner
value_text array o depth i e compact inner value =
    container (o.array_multiline || multiline o) o depth i e b'[' b']' compact inner
value_text key_value o depth i e compact inner value =
    source_string o i.raw_key i.key ++ codes ": " ++ value
value_text string o depth i e compact inner value = source_string o i.raw_value i.value
value_text comment o depth i e compact inner value = orphan_comment o i depth
value_text _ o depth i e compact inner value = literal_text i

-- the separator of compact containers
abbrev pub separator : Bool → Bytes
separator first = if first then [] else codes ", "

-- One child of `writeChildren` on its lines, with its text and whether a comma follows.
unfoldable pub child_lines : EncoderOptions → ℕ → Bool → Node → Bytes → Bytes
unfolding head_comments write_indent line_comments after_comments comment_block
child_lines o depth comma t text =
    head_comments o t depth
    ++ write_indent o depth
    ++ text
    ++ (if comma then b',' ∷ [] else [])
    ++ (if node_comments o then line_comments t else [])
    ++ b'\n' ∷ (if node_comments o then optional_block o (after_comments t) depth else [])

unfoldable mutual
  unfolding value_text member_count child_lines orphan_comment

  -- `writeValue`
  pub write_value : EncoderOptions → ℕ → Node → Bytes
  write_value o depth (tree i ts) =
      value_text i.kind o depth i (no_children ts) (write_compact o true ts)
        (write_children o (depth + 1) (member_count ts) 0 ts) (write_member_value o depth ts)

  -- the value of a member, or null
  pub write_member_value : EncoderOptions → ℕ → Forest NodeInfo → Bytes
  write_member_value o depth nil = codes "null"
  write_member_value o depth (cons t ts) = write_value o depth t

  -- the loop of `writeObjectCompact` and of `writeArrayCompact`
  pub write_compact : EncoderOptions → Bool → Forest NodeInfo → Bytes
  write_compact o first nil = []
  write_compact o first (cons t ts) =
      let dropped = is_comment_kind (info t).kind in
      (if dropped then [] else separator first ++ write_value o 0 t)
      ++ write_compact o (first && dropped) ts

  -- the loop of `writeChildren`, with the number of members and how many of them are written
  pub write_children : EncoderOptions → ℕ → ℕ → ℕ → Forest NodeInfo → Bytes
  write_children o depth members emitted nil = []
  write_children o depth members emitted (cons t ts) =
      let orphan = is_comment_kind (info t).kind in
      let emitted' = if orphan then emitted else emitted + 1 in
      let comma = ltb emitted' members || (o.trailing_comma && not o.strict_json_output) in
      (if orphan
        then orphan_comment o (info t) depth
        else child_lines o depth comma t (write_value o depth t))
      ++ write_children o depth members emitted' ts

-- the comments of `encodeNode` behind the value
unfoldable pub closing_comments : EncoderOptions → Node → Bytes
unfolding line_comments after_comments comment_block
closing_comments o n =
    line_comments n
    ++ (if is_empty (after_comments n) then [] else b'\n' ∷ comment_block o (after_comments n) 0)

-- `encodeNode`, of a node that is not nil
unfoldable pub encode_node : EncoderOptions → Node → Bytes
unfolding head_comments write_value closing_comments
encode_node o n =
    head_comments o n 0
    ++ write_value o 0 n
    ++ (if node_comments o then closing_comments o n else [])
