-- ===== src/Tests/Paths.antt =====
-- The theorems on paths at concrete inputs.
use jsonc.Prelude.{Bytes, true, false, ◌≡◌, refl, codes, [], ◌∷◌, ok, List, ◌>>=◌}
use jsonc.Pointer.Tokens.{pointer_tokens}
use jsonc.Pointer.Resolve.{resolve_target}
use jsonc.Strings.Unquote.{contains_byte}
use jsonc.Path.Expression.{
  PathSegment, SegmentKind, named_segment, index_segment, path_pointer, path_string,
}
use jsonc.Integers.{decimal}
use jsonc.Path.Read.{read}
use jsonc.Path.Pointers.{outcome_list, path_pointer-resolve_target}
use jsonc.Path.Written.{
  Spells, no_segment, dotted, bracketed, index, wildcard, recursive, dot_name, path_string-Spells,
}
use jsonc.Tests.{replaced, seven}

path_pointer-resolve_target_example :
    (path_pointer (codes "/a") >>= λ p. ok (read p replaced))
    ≡ (pointer_tokens (codes "/a") >>= λ ts. ok (outcome_list (resolve_target replaced ts)))
path_pointer-resolve_target_example = path_pointer-resolve_target (codes "/a") replaced

read_member : (path_string (codes "$..a") >>= λ p. ok (read p replaced)) ≡ ok (seven 16 ∷ [])
unfolding path_string read
read_member = refl

abbrev segments : List PathSegment
segments =
    named_segment SegmentKind.seg_child (codes "a.b")
    ∷ named_segment SegmentKind.seg_recursive (codes "x")
    ∷ index_segment 10
    ∷ named_segment SegmentKind.seg_child (codes "y")
    ∷ named_segment SegmentKind.seg_child (codes "z")
    ∷ named_segment SegmentKind.seg_wildcard []
    ∷ []

abbrev expression : Bytes
expression = codes "[\"a.b\"]..x[10].y['z'][*]"

expression-Spells : Spells expression segments
unfolding dot_name contains_byte decimal
expression-Spells = bracketed true (codes "a.b") refl (
    recursive b'x' [] refl (
      index 10 refl (dotted b'y' [] refl (bracketed false (codes "z") refl (wildcard no_segment)))))

path_string-Spells_example :
    path_string (b'$' ∷ expression) ≡ ok (record { expr = b'$' ∷ expression; segments = segments })
path_string-Spells_example = path_string-Spells expression segments expression-Spells
