-- ===== src/Encoder/Comments.antt =====
-- encode.go: the comments of a syntax tree as they are written.
use jsonc.Prelude.{
  ℕ, zero, suc, Bool, true, false, not, ◌&&◌, ◌||◌, List, [], ◌∷◌, ◌++◌, ◌==◌, is_empty,
  if◌then◌else◌, Bytes, codes,
}
use jsonc.Tree.Shape.{tree, nil, cons, info}
use jsonc.Tree.Internal.{Node, NodeInfo, NodeKind, CommentStyle, object, array, key_value}
use jsonc.Parser.Comments.{append_comment_block, is_blank}
use jsonc.Encoder.Options.{EncoderOptions}

-- `multiline`
abbrev pub multiline : EncoderOptions → Bool
multiline o = not (is_empty o.indent)

-- `nodeComments`
abbrev pub node_comments : EncoderOptions → Bool
node_comments o = multiline o && not o.strict_json_output

-- `isContainer`
abbrev pub is_container : NodeKind → Bool
is_container object = true
is_container array = true
is_container _ = false

abbrev pub is_key_value : NodeKind → Bool
is_key_value key_value = true
is_key_value _ = false

-- `writeIndent`
unfoldable pub write_indent : EncoderOptions → ℕ → Bytes
write_indent o zero = []
write_indent o (suc depth) = o.indent ++ write_indent o depth

abbrev is_lf_next : Bytes → Bool
is_lf_next [] = false
is_lf_next (c ∷ _) = c == b'\n'

-- `normalizeLineEndings`
unfoldable pub normalize_line_endings : Bytes → Bytes
normalize_line_endings [] = []
normalize_line_endings (c ∷ cs) =
    let rest = normalize_line_endings cs in
    if c == b'\r' then if is_lf_next cs then rest else b'\n' ∷ rest else c ∷ rest

abbrev pub is_slash_next : Bytes → Bool
is_slash_next [] = false
is_slash_next (c ∷ _) = c == b'/'

-- `sanitizeBlockCommentText`
unfoldable pub sanitize_block_comment_text : Bytes → Bytes
sanitize_block_comment_text [] = []
sanitize_block_comment_text (c ∷ cs) =
    let rest = sanitize_block_comment_text cs in
    if c == b'*' && is_slash_next cs then c ∷ b' ' ∷ rest else c ∷ rest

-- `strings.Split(text, "\n")`: the first line, and the others
unfoldable pub split_lines : Bytes → Bytes × List Bytes
split_lines [] = ([], [])
split_lines (c ∷ cs) =
    let r = split_lines cs in if c == b'\n' then ([], r.0 ∷ r.1) else (c ∷ r.0, r.1)

abbrev pub is_space : ℕ → Bool
is_space c = c == b' ' || c == b'\t'

-- `strings.TrimRight(text, " \t")`
unfoldable pub trim_right : Bytes → Bytes
trim_right [] = []
trim_right (c ∷ cs) =
    let rest = trim_right cs in if is_empty rest && is_space c then [] else c ∷ rest

abbrev pub starts_blank : Bytes → Bool
starts_blank [] = false
starts_blank (c ∷ _) = is_space c

-- behind the slashes of `writeLineCommentText`
unfoldable pub padded_line : Bytes → Bytes
padded_line text = if is_empty text || starts_blank text then text else b' ' ∷ text

-- `writeLineCommentText`
unfoldable pub line_comment_text : Bytes → Bytes
unfolding padded_line trim_right
line_comment_text text = codes "//" ++ padded_line (trim_right text)

-- the loop of `writeCommentBlock`, with `started`
unfoldable pub comment_lines : EncoderOptions → ℕ → Bool → List Bytes → Bytes
unfolding write_indent line_comment_text is_blank
comment_lines o depth started [] = []
comment_lines o depth started (line ∷ lines) =
    let skipped = not started && is_blank line in
    (if skipped then [] else write_indent o depth ++ line_comment_text line ++ b'\n' ∷ [])
    ++ comment_lines o depth (not skipped) lines

-- `writeCommentBlock`
unfoldable pub comment_block : EncoderOptions → Bytes → ℕ → Bytes
unfolding comment_lines normalize_line_endings split_lines
comment_block o text depth =
    let lines = split_lines (normalize_line_endings text) in
    comment_lines o depth false (lines.0 ∷ lines.1)

-- the text, written where it is not empty
abbrev pub optional_block : EncoderOptions → Bytes → ℕ → Bytes
unfolding comment_block
optional_block o text depth = if is_empty text then [] else comment_block o text depth

abbrev pub is_blank_byte : ℕ → Bool
is_blank_byte c = c == b' ' || c == b'\t' || c == b'\n'

abbrev pub begins_blank : Bytes → Bool
begins_blank [] = false
begins_blank (c ∷ _) = is_blank_byte c

unfoldable pub ends_blank : Bytes → Bool
ends_blank [] = false
ends_blank (c ∷ []) = is_blank_byte c
ends_blank (c ∷ d ∷ ds) = ends_blank (d ∷ ds)

-- the space inside a delimiter
abbrev pub pad : Bool → Bytes
pad b = if b then [] else b' ' ∷ []

-- `writeInlineBlockComment`
unfoldable pub inline_block_comment : Bytes → Bytes
unfolding sanitize_block_comment_text ends_blank
inline_block_comment text =
    let safe = sanitize_block_comment_text text in
    codes " /*" ++ pad (begins_blank safe) ++ safe ++ pad (ends_blank safe) ++ codes "*/"

-- `strings.ContainsAny(text, "\n\r")`
unfoldable pub has_line_break : Bytes → Bool
has_line_break [] = false
has_line_break (c ∷ cs) = c == b'\n' || c == b'\r' || has_line_break cs

-- `writeInlineComment`
unfoldable pub inline_comment : Bytes → Bytes
unfolding has_line_break inline_block_comment line_comment_text
inline_comment text =
    if has_line_break text then inline_block_comment text else b' ' ∷ line_comment_text text

unfoldable pub spaced : Bytes → Bytes
spaced [] = []
spaced (c ∷ cs) = (if c == b'\n' then b' ' else c) ∷ spaced cs

-- the switch of `writeOrphanComment`
unfoldable pub orphan_text : CommentStyle → Bytes → Bytes
unfolding sanitize_block_comment_text spaced normalize_line_endings
orphan_text CommentStyle.block text =
    codes "/*" ++ sanitize_block_comment_text text ++ codes "*/" ++ b'\n' ∷ []
orphan_text CommentStyle.line text =
    codes "//" ++ spaced (normalize_line_endings text) ++ b'\n' ∷ []

-- `writeOrphanComment`, where the output may have comments
unfoldable pub orphan_comment : EncoderOptions → NodeInfo → ℕ → Bytes
unfolding write_indent orphan_text
orphan_comment o i depth =
    if o.strict_json_output then [] else write_indent o depth ++ orphan_text i.style i.value

-- `n.children[0]`'s field, for a member that has a value
abbrev pub of_value : (NodeInfo → Bytes) → Node → Bytes
of_value field (tree i nil) = []
of_value field (tree i (cons v vs)) = if is_key_value i.kind then field (info v) else []

-- `afterComments`
unfoldable pub after_comments : Node → Bytes
unfolding append_comment_block
after_comments n =
    let foot = if is_container (info n).kind then [] else (info n).foot_comment in
    append_comment_block (append_comment_block foot (of_value (λ i. i.trail_comment) n))
      (info n).trail_comment

-- `writeHeadComments`
unfoldable pub head_comments : EncoderOptions → Node → ℕ → Bytes
unfolding append_comment_block comment_block
head_comments o n depth =
    let head = append_comment_block (info n).head_comment (of_value (λ i. i.head_comment) n) in
    if node_comments o then optional_block o head depth else []

-- the loop of `writeLineComments`: the last text goes last on the line
unfoldable pub line_texts : Bytes → Bytes → Bytes
unfolding inline_block_comment inline_comment
line_texts [] [] = []
line_texts [] (c ∷ cs) = inline_comment (c ∷ cs)
line_texts (v ∷ vs) [] = inline_comment (v ∷ vs)
line_texts (v ∷ vs) (c ∷ cs) = inline_block_comment (v ∷ vs) ++ inline_comment (c ∷ cs)

-- `writeLineComments`
unfoldable pub line_comments : Node → Bytes
unfolding line_texts
line_comments n = line_texts (of_value (λ i. i.comment) n) (info n).comment
