-- ===== src/Tests/Encoding.antt =====
-- The theorems on the encoder at concrete inputs.
use jsonc.Prelude.{◌≡◌, refl, suc, true, false, Bytes, codes, [], ◌∷◌, ◌++◌, ok, length}
use jsonc.Strings.Utf8.{valid_string}
use jsonc.Strings.Unquote.{unquote_string, unquote_body, unquote_loop}
use jsonc.Strings.Reference.{unquote_body-unquote_loop}
use jsonc.Token.{Position, TokenKind}
use jsonc.Tree.Internal.{CommentStyle}
use jsonc.Scanner.Cursor.{at, token}
use jsonc.Scanner.Strings.{scan_string}
use jsonc.Scanner.Comments.{scan_comment}
use jsonc.Scanner.Grammar.{
  Spelled, spelled_end, spelled_byte, spelled_escape, line_feed, scan_string-Spelled,
}
use jsonc.Scanner.Accepted.{Reads, scan_string-Reads}
use jsonc.Encoder.Comments.{inline_comment, orphan_text}
use jsonc.Encoder.ReadBack.{all_block}
use jsonc.Encoder.Inline.{orphan_token, orphan_text-scan_comment}
use jsonc.Encoder.Spelled.{scan_string-quote_string}
use jsonc.Encoder.Quote.{quote_string}
use jsonc.Encoder.Unquoted.{unquote_string-quote_string}

abbrev start : Position
start = record { line = 1; column = 1; offset = 0 }

-- a quotation mark, a tab, U+2028 and `<`
abbrev text : Bytes
text = b'"' ∷ b'\t' ∷ 0xE2 ∷ 0x80 ∷ 0xA8 ∷ b'<' ∷ []

text-valid : valid_string text ≡ true
unfolding valid_string
text-valid = refl

text-quoted : quote_string true text ≡ codes "\"\\\"\\t\\u2028\\u003c\""
unfolding quote_string
text-quoted = refl

unquote_string-quote_string_example : unquote_string (quote_string true text) ≡ ok text
unquote_string-quote_string_example = unquote_string-quote_string true text text-valid

unquote_body-unquote_loop_example : unquote_body text ≡ unquote_loop (suc (length text)) [] text
unquote_body-unquote_loop_example = unquote_body-unquote_loop text

a_newline : Spelled (codes "a\\n")
a_newline = spelled_byte b'a' refl (spelled_escape b'n' line_feed spelled_end)

scan_string-Spelled_example :
    (q : Position) × (scan_string false (at (codes "\"a\\n\",") start)
      ≡ ok (token TokenKind.string (codes "\"a\\n\"") start, at (codes ",") q))
scan_string-Spelled_example = scan_string-Spelled a_newline (codes ",") start

abbrev behind : Position
behind = record { line = 1; column = 6; offset = 5 }

token_read :
    scan_string false (at (codes "\"a\\n\",") start)
    ≡ ok (token TokenKind.string (codes "\"a\\n\"") start, at (codes ",") behind)
unfolding scan_string
token_read = refl

scan_string-Reads_example :
    Reads (codes "a\\n\",") start (token TokenKind.string (codes "\"a\\n\"") start) (codes ",")
scan_string-Reads_example =
    scan_string-Reads (codes "a\\n\",") start (token TokenKind.string (codes "\"a\\n\"") start)
      (at (codes ",") behind) token_read

scan_string-quote_string_example :
    (q : Position) × (scan_string false (at (quote_string true text ++ codes ",") start)
      ≡ ok (token TokenKind.string (quote_string true text) start, at (codes ",") q))
scan_string-quote_string_example = scan_string-quote_string true text (codes ",") start text-valid

-- a comment that would end itself
abbrev note : Bytes
note = codes "*/ 1," ++ b'\n' ∷ codes "x*"

note-all_block : all_block note ≡ true
unfolding all_block
note-all_block = refl

note-written : inline_comment note ≡ codes " /* * / 1," ++ b'\n' ∷ codes "x* */"
unfolding inline_comment
note-written = refl

orphan_text-scan_comment_example :
    (q : Position) × (scan_comment false (at (orphan_text CommentStyle.line note ++ []) start)
      ≡ ok (orphan_token CommentStyle.line note start, at (b'\n' ∷ []) q))
orphan_text-scan_comment_example =
    orphan_text-scan_comment CommentStyle.line note [] start note-all_block
