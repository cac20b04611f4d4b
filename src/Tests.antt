-- ===== src/Tests.antt =====
-- Runs of the scanner and the parser on small documents, and the theorems at concrete inputs.
mod Edits
mod Paths
mod Encoding
mod Excerpts
mod Streams
mod Tagged
use jsonc.Prelude.{
  ◌≡◌, ◌≢◌, refl, ℕ, ◌+◌, true, false, Bytes, codes, [], ◌∷◌, ◌++◌, none, some, ok, out_of_fuel,
  ◌>>=◌, List, ap, arith, Ensures, Bool, inl, inr, length, ◌↔◌,
}
use jsonc.Errors.{error_pos}
use jsonc.Token.{Position}
use jsonc.Tree.Shape.{tree, cons, nil}
use jsonc.Tree.Internal.{Node, NodeKind, new_info}
use jsonc.Tree.Valid.{IsValue, height, size, comment_free, Within}
use jsonc.Scanner.Cursor.{Cursor, advance}
use jsonc.Scanner.Next.{Flags, next, begin}
use jsonc.Scanner.Extent.{here, step, ReportsFrom}
use jsonc.Scanner.Progress.{NextAt, next-Tracks}
use jsonc.Scanner.Positions.{position_of, next-position_of}
use jsonc.Strings.Unquote.{unquote_string}
use jsonc.Strings.Total.{unquote_string-ne-out_of_fuel}
use jsonc.Parser.State.{DecoderOptions, default_decode_options, duplicate_key}
use jsonc.Ast.Public.{
  PublicKind, PublicInfo, PublicNode, object_node, array_node, key_value_node, number_node,
  line_comment_style, export_node, import_node, plain_string_token,
}
use jsonc.Pointer.Tokens.{pointer_tokens}
use jsonc.Pointer.Escapes.{pointer_of, pointer_tokens-pointer_of}
use jsonc.Pointer.Resolve.{resolve_target}
use jsonc.Patch.Edit.{op_add, op_remove, dash}
use jsonc.Patch.Added.{Found, op_add-resolve_target}
use jsonc.Patch.Replace.{op_replace}
use jsonc.Patch.Copy.{op_copy, op_copy-resolve_target}
use jsonc.Patch.Replaced.{Replaced, op_replace-resolve_target}
use jsonc.Ast.Walk.{filter, validate, is_key_value}
use jsonc.Ast.File.{File, parse_file}
use jsonc.Ast.Visits.{preorder, select, filter-select}
use jsonc.Ast.Validated.{Validated, validate_iff}
use jsonc.Ast.Exact.{Exact, export_node-import_node}
use jsonc.Ast.Parsed.{parse_file-validate}
use jsonc.Parser.Members.{Members, key_of, find, add, make_room}
use jsonc.Parser.Members.Laws.{Sound}
use jsonc.Parser.Members.Upkeep.{Sound-add}
use jsonc.Parser.Document.{parse_document, valid}
use jsonc.Parser.Correct.{
  parse_document-IsValue, parse_document-height, parse_document-size, parse_document-comment_free,
  parse_document-ne-out_of_fuel,
}

valid-sample : valid (codes "{\"a\": [1, -2.5e3, true], // x\n \"b\\u0041\": {}, /* y */ }") ≡ true
unfolding valid
valid-sample = refl

valid-duplicate_key : valid (codes "{\"a\": 1, \"\\u0061\": 2}") ≡ false
unfolding valid
valid-duplicate_key = refl

valid-leading_zero : valid (codes "[01]") ≡ false
unfolding valid
valid-leading_zero = refl

abbrev lenient : DecoderOptions
lenient = record default_decode_options { allow_duplicate_keys = true; max_document_size = 20 }

abbrev strict : DecoderOptions
strict = record default_decode_options { strict_json = true; max_depth = 2; max_nodes = 4 }

abbrev sample : Bytes
sample = codes "{\"k\": [7]}"

abbrev pub place : ℕ → Position
place n = record { line = 1; column = n + 1; offset = n }

abbrev sample_member : Node
sample_member =
    tree
      (record (new_info NodeKind.key_value (place 1)) { key = codes "k"; raw_key = codes "\"k\"" })
      (cons
        (tree (record (new_info NodeKind.array (place 6)) { raw_bytes = codes "[7]" })
          (cons
            (tree
              (record (new_info NodeKind.number (place 7)) {
                value = codes "7";
                raw_value = codes "7";
              })
              nil)
            nil))
        nil)

abbrev sample_tree : Node
sample_tree =
    tree (record (new_info NodeKind.object (place 0)) { raw_bytes = sample })
      (cons sample_member nil)

sample-parsed : parse_document sample strict ≡ ok (sample_tree, [])
unfolding parse_document
sample-parsed = refl

parse_document-IsValue_example : IsValue sample_tree
parse_document-IsValue_example = parse_document-IsValue sample strict sample_tree [] sample-parsed

parse_document-height_example : Within 2 (height sample_tree)
parse_document-height_example = parse_document-height sample strict sample_tree [] sample-parsed

parse_document-size_example : Within 4 (size sample_tree)
parse_document-size_example = parse_document-size sample strict sample_tree [] sample-parsed

parse_document-comment_free_example : comment_free sample_tree ≡ true
parse_document-comment_free_example =
    parse_document-comment_free sample strict sample_tree [] sample-parsed refl

parse_document-ne-out_of_fuel_example : parse_document sample strict ≢ out_of_fuel
parse_document-ne-out_of_fuel_example = parse_document-ne-out_of_fuel sample strict

unquote_string-ne-out_of_fuel_example : unquote_string (codes "\"\\ud83d\\ude00\"") ≢ out_of_fuel
unquote_string-ne-out_of_fuel_example = unquote_string-ne-out_of_fuel (codes "\"\\ud83d\\ude00\"")

abbrev flags : Flags
flags = record { strict_json = true; raw_only = false }

abbrev second_line : Cursor
second_line = advance (begin (codes "\n 1.5e3"))

next-position_of_example :
    Ensures
      (λ r. r.0.pos ≡ position_of (codes "\n 1.5e3") r.0.pos.offset)
      (λ e. error_pos e ≡ position_of (codes "\n 1.5e3") (error_pos e).offset)
      (next flags second_line)
next-position_of_example = next-position_of (codes "\n 1.5e3") flags second_line (step here)

next-Tracks_example :
    Ensures (NextAt true second_line) (ReportsFrom second_line) (next flags second_line)
next-Tracks_example = next-Tracks flags second_line

abbrev sample_members : Members
sample_members = some sample_member ∷ []

sample_members-Sound : Sound none sample_members
unfolding find
sample_members-Sound = record { agrees = λ k. refl; distinct = (tt, tt) }

Sound-add_example :
    Sound
      (add none
        (make_room (find none sample_members (key_of sample_member)) sample_members)
        sample_member)
      (make_room (find none sample_members (key_of sample_member)) sample_members
        ++ some sample_member ∷ [])
Sound-add_example =
    Sound-add none sample_members sample_member sample_member sample_members-Sound refl

abbrev pub public_info : PublicKind → ℕ → PublicInfo
public_info k n = record {
  kind = k;
  key = [];
  raw_key = [];
  value = [];
  raw_value = [];
  style = line_comment_style;
  pos = place n;
  comment = [];
  head_comment = [];
  foot_comment = [];
  trail_comment = [];
}

abbrev pub seven : ℕ → PublicNode
seven n = tree (record (public_info number_node n) { value = codes "7"; raw_value = codes "7" }) nil

-- of the text `{"a":6,"\\u0061":7}`
abbrev pub replaced : PublicNode
replaced = tree (public_info object_node 0) (
    cons
      (tree
        (record (public_info key_value_node 7) { key = codes "a"; raw_key = codes "\"\\u0061\"" })
        (cons (seven 16) nil))
      nil)

abbrev duplicated : Bytes
duplicated = codes "{\"a\":6,\"\\u0061\":7}"

abbrev duplicated_file : File
duplicated_file = record { root = replaced; warnings = duplicate_key (place 7) (codes "a") ∷ [] }

duplicated-parsed : parse_file duplicated lenient ≡ ok duplicated_file
unfolding parse_file
duplicated-parsed = refl

parse_file-validate_example : validate replaced ≡ none
parse_file-validate_example =
    parse_file-validate duplicated lenient duplicated_file duplicated-parsed

validate_iff_example : (validate replaced ≡ none) ↔ Validated replaced
validate_iff_example = validate_iff replaced

replaced-Exact : Exact replaced
unfolding Exact unquote_string plain_string_token
replaced-Exact = (
  record { kind = refl; style = refl; raw_key = inl refl },
  (
    (
      record { kind = refl; style = refl; raw_key = inr (refl, refl) },
      ((record { kind = refl; style = refl; raw_key = inl refl }, tt), tt),
    ),
    tt,
  ),
)

export_node-import_node_example : export_node (import_node replaced) ≡ replaced
export_node-import_node_example = export_node-import_node replaced replaced-Exact

abbrev is_member : PublicNode → Bool
unfolding is_key_value
is_member (tree i ts) = is_key_value i.kind

filter-select_example : filter replaced is_member ≡ select is_member (preorder replaced)
filter-select_example = filter-select replaced is_member

pointer_tokens-pointer_of_example :
    pointer_tokens (pointer_of (codes "a/b" ∷ codes "~1" ∷ [])) ≡ ok (codes "a/b" ∷ codes "~1" ∷ [])
pointer_tokens-pointer_of_example = pointer_tokens-pointer_of (codes "a/b" ∷ codes "~1" ∷ [])

-- `[7]`, and what it becomes when 7 is inserted
abbrev pub one_seven : PublicNode
one_seven = tree (public_info array_node 0) (cons (seven 1) nil)

abbrev pub two_sevens : PublicNode
two_sevens = tree (public_info array_node 0) (cons (seven 5) (cons (seven 1) nil))

pub added : op_add one_seven (codes "/0") (some (seven 5)) ≡ ok two_sevens
unfolding op_add
added = refl

removed : op_remove two_sevens (codes "/0") ≡ ok one_seven
unfolding op_remove
removed = refl

pub zero_token : pointer_tokens (codes "/0") ≡ ok (codes "0" ∷ [])
unfolding pointer_tokens
zero_token = refl

abbrev first_byte : List Bytes → ℕ
first_byte ((c ∷ cs) ∷ ts) = c
first_byte _ = 0

pub no_dash : (us : List Bytes) → codes "0" ∷ [] ≢ us ++ dash ∷ []
no_dash [] e = let q : ◌≡◌ {A = ℕ} 48 45 = ap first_byte e in absurd (omega arith)
no_dash (u ∷ []) e = cc
no_dash (u ∷ w ∷ us) e = cc

op_add-resolve_target_example : resolve_target two_sevens (codes "0" ∷ []) ≡ ok (seven 5)
op_add-resolve_target_example =
    op_add-resolve_target one_seven (seven 5) two_sevens (codes "/0") (codes "0" ∷ []) zero_token
      no_dash added

replaced_seven :
    op_replace one_seven (codes "/0") (some (seven 5))
    ≡ ok (tree (public_info array_node 0) (cons (seven 5) nil))
unfolding op_replace
replaced_seven = refl

op_replace-resolve_target_example :
    Found
      (Replaced one_seven (seven 5) (codes "0" ∷ []))
      (resolve_target (tree (public_info array_node 0) (cons (seven 5) nil)) (codes "0" ∷ []))
op_replace-resolve_target_example =
    op_replace-resolve_target one_seven (seven 5)
      (tree (public_info array_node 0) (cons (seven 5) nil)) (codes "/0") (codes "0" ∷ [])
      zero_token replaced_seven

copied :
    op_copy one_seven (codes "/0") (codes "/0")
    ≡ ok (tree (public_info array_node 0) (cons (seven 1) (cons (seven 1) nil)))
unfolding op_copy
copied = refl

op_copy-resolve_target_example :
    (v : PublicNode) × (pointer_tokens (codes "/0") >>= (λ ts. resolve_target one_seven ts) ≡ ok v)
    × (resolve_target
          (tree (public_info array_node 0) (cons (seven 1) (cons (seven 1) nil)))
          (codes "0" ∷ [])
        ≡ ok v)
op_copy-resolve_target_example =
    op_copy-resolve_target one_seven
      (tree (public_info array_node 0) (cons (seven 1) (cons (seven 1) nil))) (codes "/0")
      (codes "/0") (codes "0" ∷ []) zero_token no_dash copied
