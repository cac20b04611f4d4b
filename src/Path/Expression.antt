-- ===== src/Path/Expression.antt =====
-- path.go: `PathString` and `PathPointer`, which compile a text to a path.
use jsonc.Prelude.{
  ℕ, zero, suc, ◌&&◌, ◌||◌, List, [], ◌∷◌, ◌==◌, is_empty, if◌then◌else◌, Bytes, codes, bytes_eq,
  Option, none, some, Result, ok, err, out_of_fuel, ◌>>=◌, length,
}
use jsonc.Text.{cut, trim_space}
use jsonc.Integers.{ℤ, pos, negsuc, atoi}
use jsonc.Pointer.Tokens.{PointerError, pointer_start, prepend, decode_pointer_token, split_slash}

-- `segmentKind`
pub data SegmentKind : Type 0 where
  seg_child seg_index seg_wildcard seg_recursive : SegmentKind

-- `pathSegment`
pub record PathSegment : Type 0 where
  pub kind : SegmentKind
  pub name : Bytes
  pub index : ℕ

-- `Path`
pub record NodePath : Type 0 where
  pub expr : Bytes
  pub segments : List PathSegment

-- the errors that wrap `ErrPathSyntax`, with what they name
pub data PathError : Type 0 where
  empty_expression : PathError
  unexpected : ℕ → PathError
  empty_name : PathError
  missing_bracket : PathError
  invalid_bracket : Bytes → PathError

-- `pathSegment{kind: kind, name: name}`
abbrev pub named_segment : SegmentKind → Bytes → PathSegment
named_segment kind name = record { kind = kind; name = name; index = 0 }

abbrev pub index_segment : ℕ → PathSegment
index_segment i = record { kind = SegmentKind.seg_index; name = []; index = i }

-- the name at the start of a text, up to the next `.` or `[`, and the text behind it
unfoldable pub split_name : Bytes → Bytes × Bytes
split_name [] = ([], [])
split_name (c ∷ cs) =
    let r = split_name cs in if c == b'.' || c == b'[' then ([], c ∷ cs) else (c ∷ r.0, r.1)

abbrev segment_named : SegmentKind → Bytes × Bytes → Result PathError (PathSegment × Bytes)
segment_named kind r = if is_empty r.0 then err empty_name else ok (named_segment kind r.0, r.1)

-- `parseDotSegment`, behind the first dot
unfoldable pub parse_dot_segment : Bytes → Result PathError (PathSegment × Bytes)
unfolding split_name
parse_dot_segment [] = segment_named SegmentKind.seg_child ([], [])
parse_dot_segment (c ∷ cs) =
    if c == b'.'
    then segment_named SegmentKind.seg_recursive (split_name cs)
    else segment_named SegmentKind.seg_child (split_name (c ∷ cs))

-- a text without its last byte, and that byte
unfoldable pub split_end : ℕ → Bytes → Bytes × ℕ
split_end c [] = ([], c)
split_end c (d ∷ ds) = let r = split_end d ds in (c ∷ r.0, r.1)

-- `inner[1:len(inner)-1]` where `inner` is quoted
unfoldable pub quoted_name : Bytes → Option Bytes
unfolding split_end
quoted_name (c ∷ d ∷ ds) =
    let r = split_end d ds in if (c == b'"' || c == b'\'') && r.1 == c then some r.0 else none
quoted_name _ = none

abbrev index_of : Bytes → Option ℤ → Result PathError PathSegment
index_of inner (some (pos i)) = ok (index_segment i)
index_of inner (some (negsuc n)) = err (invalid_bracket inner)
index_of inner none = err (invalid_bracket inner)

abbrev quoted_or_index : Bytes → Option Bytes → Result PathError PathSegment
quoted_or_index inner (some name) = ok (named_segment SegmentKind.seg_child name)
quoted_or_index inner none = index_of inner (atoi inner)

-- what stands between the brackets, trimmed
unfoldable pub parse_inner : Bytes → Result PathError PathSegment
unfolding bytes_eq quoted_name atoi
parse_inner inner =
    if bytes_eq inner (codes "*")
    then ok (named_segment SegmentKind.seg_wildcard [])
    else quoted_or_index inner (quoted_name inner)

abbrev in_brackets : Bytes × Option Bytes → Result PathError (PathSegment × Bytes)
in_brackets (inner, none) = err missing_bracket
in_brackets (inner, some rest) = parse_inner (trim_space inner) >>= λ seg. ok (seg, rest)

-- `parseBracketSegment`, behind the bracket
unfoldable pub parse_bracket_segment : Bytes → Result PathError (PathSegment × Bytes)
unfolding cut trim_space parse_inner
parse_bracket_segment s = in_brackets (cut b']' s)

-- `parsePathSegment`, of a text that starts with `c`
unfoldable pub parse_path_segment : ℕ → Bytes → Result PathError (PathSegment × Bytes)
unfolding parse_dot_segment parse_bracket_segment
parse_path_segment c s =
    if c == b'.'
    then parse_dot_segment s
    else if c == b'['
    then parse_bracket_segment s
    else err (unexpected c)

-- The loop of `PathString`. A segment takes at least a byte.
unfoldable pub segments_loop : ℕ → Bytes → Result PathError (List PathSegment)
unfolding parse_path_segment
segments_loop zero src = out_of_fuel
segments_loop (suc fuel) [] = ok []
segments_loop (suc fuel) (c ∷ cs) =
    parse_path_segment c cs >>= λ r. segments_loop fuel r.1 >>= λ segs. ok (r.0 ∷ segs)

unfoldable pub parse_segments : Bytes → Result PathError (List PathSegment)
unfolding segments_loop
parse_segments src = segments_loop (suc (length src)) src

-- `PathString`
unfoldable pub path_string : Bytes → Result PathError NodePath
unfolding parse_segments
path_string [] = err empty_expression
path_string (c ∷ cs) = parse_segments (if c == b'$' then cs else c ∷ cs) >>= λ segs.
    ok (record { expr = c ∷ cs; segments = segs })

-- the loop of `PathPointer`
unfoldable pub pointer_segments : List Bytes → Result PointerError (List PathSegment)
unfolding decode_pointer_token prepend
pointer_segments [] = ok []
pointer_segments (t ∷ ts) = decode_pointer_token t >>= λ name.
    prepend (named_segment SegmentKind.seg_child name) (pointer_segments ts)

abbrev pub as_path : Bytes → Result PointerError (List PathSegment) → Result PointerError NodePath
as_path ptr r = r >>= λ segs. ok (record { expr = ptr; segments = segs })

-- `PathPointer`
unfoldable pub path_pointer : Bytes → Result PointerError NodePath
unfolding split_slash pointer_segments
path_pointer [] = ok (record { expr = []; segments = [] })
path_pointer (c ∷ cs) =
    if c == b'/'
    then as_path (c ∷ cs) (pointer_segments ((split_slash cs).0 ∷ (split_slash cs).1))
    else err pointer_start
