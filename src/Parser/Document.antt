-- ===== src/Parser/Document.antt =====
-- parser.go: `parse`, `parseRoot` and `consumeTrailing`; scanner.go: `stripBOM` and `Valid`;
-- unmarshal.go: `parseDocument`; node.go: `Parse`, up to the exported copy of the tree.
use jsonc.Prelude.{
  ℕ, zero, suc, Bool, true, false, ◌&&◌, List, [], ◌∷◌, ◌++◌, ◌==◌, is_empty, if◌then◌else◌, Bytes,
  Option, none, some, Result, ok, err, out_of_fuel,
}
use jsonc.Token.{Token, TokenKind, Position}
use jsonc.Errors.{
  Error, syntax_error, expected_value_got_eof, extra_data, unsupported_encoding, Encoding, utf16_be,
  utf16_le, utf32_be, utf32_le,
}
use jsonc.Tree.Shape.{info, update}
use jsonc.Tree.Internal.{Node, NodeInfo}
use jsonc.Parser.State.{
  Parser, new_parser, DecoderOptions, default_decode_options, Failure, Warning, M, ◌>>=◌, ◌>>◌,
  pure, fail, peek, bump, remaining,
}
use jsonc.Parser.Comments.{
  Trivia, line_break, comment, other, trivia, write_comment, non_blank, append_comment_block,
  collect_head_comments, collect_trailing_inline_comment, set_comment,
}
use jsonc.Parser.AnyValue.{parse_value}

-- `tokenEOF` and `tokenStreamEnd`
unfoldable pub is_end : TokenKind → Bool
is_end TokenKind.eof = true
is_end TokenKind.stream_end = true
is_end _ = false

abbrev pub add_trail : Bytes → NodeInfo → NodeInfo
add_trail c i = record i { trail_comment = append_comment_block i.trail_comment c }

-- the end of `consumeTrailing`, at a token that is no comment or newline
unfoldable pub end_trailing : Bool → Token → Bytes → Node → M Node
unfolding non_blank append_comment_block
end_trailing true t sb root = pure (update (add_trail (non_blank sb)) root)
end_trailing false t sb root = fail (extra_data t) t.pos

-- the switch of `consumeTrailing`
unfoldable pub trailing_turn : Trivia → Token → Bytes → Node → (Bytes → M Node) → M Node
unfolding bump is_end end_trailing
trailing_turn line_break t sb root again = do bump; again sb
trailing_turn comment t sb root again = do bump; again (write_comment sb t.value)
trailing_turn other t sb root again = end_trailing (is_end t.kind) t sb root

-- its loop
unfoldable pub trailing_loop : ℕ → Node → Bytes → M Node
unfolding peek trivia trailing_turn
trailing_loop zero root sb p = out_of_fuel
trailing_loop (suc fuel) root sb p =
    (do t ← peek; trailing_turn (trivia t.kind) t sb root (trailing_loop fuel root)) p

unfoldable pub consume_trailing : Node → M Node
unfolding trailing_loop remaining
consume_trailing root p = trailing_loop (suc (remaining p)) root [] p

unfoldable pub require_value : Bool → Token → M (Unit {0})
require_value true t = fail expected_value_got_eof t.pos
require_value false t = pure tt

-- comments before the value become the head comment of the root
unfoldable pub lead : Bytes → NodeInfo → NodeInfo
lead [] i = i
lead (c ∷ cs) i = record i {
  head_comment = if is_empty i.head_comment then c ∷ cs else (c ∷ cs) ++ b'\n' ∷ i.head_comment;
}

-- `if root.comment == "" { root.comment = p.collectTrailingInlineComment() }`
unfoldable pub root_comment : Node → M Node
unfolding collect_trailing_inline_comment
root_comment root =
    let collected : M Node = do
      c ← collect_trailing_inline_comment
      pure (update (set_comment c) root)
    in if is_empty (info root).comment then collected else pure root

-- `parseRoot`
unfoldable pub parse_root : M Node
unfolding collect_head_comments peek is_end require_value parse_value lead root_comment
    consume_trailing remaining
parse_root = do
  head ← collect_head_comments
  t ← peek
  require_value (is_end t.kind) t
  root ← λ p. parse_value (suc (remaining p)) p
  root' ← root_comment (update (lead head) root)
  consume_trailing root'

-- the error that `parse` returns: the scan error, if there is one
abbrev pub reported : Failure → Error
reported f = elim f.behind [ some e ↦ e | none ↦ f.raised ]

-- what `parse` makes of the outcome of `parseRoot`
abbrev pub settle : Result Failure (Node × Parser) → Result Error (Node × List Warning)
settle (ok (n, q)) = ok (n, q.warnings)
settle (err f) = err (reported f)
settle out_of_fuel = out_of_fuel

-- `parse`, with the warnings
unfoldable pub parse : Parser → Result Error (Node × List Warning)
unfolding parse_root
parse p = settle (parse_root p)

abbrev no_position : Position
no_position = record { line = 0; column = 0; offset = 0 }

abbrev big_or_little : ℕ → ℕ → Option Encoding
big_or_little a b =
    if a == 0xFE && b == 0xFF
    then some utf16_be
    else if a == 0xFF && b == 0xFE
    then some utf16_le
    else none

-- the byte-order marks that `stripBOM` refuses
unfoldable pub other_bom : Bytes → Option Encoding
other_bom (a ∷ b ∷ c ∷ d ∷ _) =
    if a == 0x00 && b == 0x00 && c == 0xFE && d == 0xFF
    then some utf32_be
    else if a == 0xFF && b == 0xFE && c == 0x00 && d == 0x00
    then some utf32_le
    else big_or_little a b
other_bom (a ∷ b ∷ _) = big_or_little a b
other_bom _ = none

abbrev pub refuse : Option Encoding → Bytes → Result Error Bytes
refuse none src = ok src
refuse (some e) src = err (syntax_error (unsupported_encoding e) no_position)

-- `stripBOM`
unfoldable pub strip_bom : Bytes → Result Error Bytes
unfolding other_bom
strip_bom (a ∷ b ∷ c ∷ rest) =
    if a == 0xEF && b == 0xBB && c == 0xBF
    then ok rest
    else refuse (other_bom (a ∷ b ∷ c ∷ rest)) (a ∷ b ∷ c ∷ rest)
strip_bom src = refuse (other_bom src) src

-- what it does with the outcome of `stripBOM`
unfoldable pub parse_stripped :
    Result Error Bytes → DecoderOptions → Result Error (Node × List Warning)
unfolding parse new_parser
parse_stripped (ok text) opts = parse (new_parser text opts)
parse_stripped (err e) opts = err e
parse_stripped out_of_fuel opts = out_of_fuel

-- `parseDocumentWarnings`
unfoldable pub parse_document : Bytes → DecoderOptions → Result Error (Node × List Warning)
unfolding strip_bom parse_stripped
parse_document src opts = parse_stripped (strip_bom src) opts

-- `Valid`
unfoldable pub valid : Bytes → Bool
unfolding parse_document
valid src = elim (parse_document src default_decode_options) [ ok _ ↦ true | _ ↦ false ]
