-- ===== src/Scanner/Comments.antt =====
-- scanner.go: `scanComment`, `scanLineComment` and `scanBlockComment`.
use jsonc.Prelude.{
  ℕ, Bool, not, ◌&&◌, ◌||◌, [], ◌∷◌, ◌++◌, ◌==◌, if◌then◌else◌, Bytes, ok, err, ◌>>=◌, Result,
  Option, none, some,
}
use jsonc.Token.{Position, TokenKind}
use jsonc.Errors.{
  Error, Feature, strict_json_error, control_in_line_comment, control_in_block_comment,
  unterminated_block_comment, unexpected_slash, unexpected_after_slash,
}
use jsonc.Scanner.Cursor.{
  Cursor, at, position, advance_position, advance, text_from, error_at, is_control, Scan, token,
}

-- The loop of `scanLineComment`: up to a line break or the end of the text.
unfoldable pub line_comment_loop : Cursor → Result Error Cursor
unfolding advance_position
line_comment_loop (at [] p) = ok (at [] p)
line_comment_loop (at (c ∷ cs) p) =
    let more = line_comment_loop (at cs (advance_position c cs p)) in
    if c == b'\n' || c == b'\r'
    then ok (at (c ∷ cs) p)
    else if is_control c && not (c == b'\t')
    then error_at p (control_in_line_comment c)
    else more

-- `start` stands at the slashes
unfoldable pub scan_line_comment : Bool → Cursor → Scan
unfolding line_comment_loop advance
scan_line_comment strict start =
    if strict then err (strict_json_error Feature.line_comment (position start)) else do
      let begin = advance (advance start)
      stop ← line_comment_loop begin
      ok (token TokenKind.line_comment (text_from begin stop) (position start), stop)

-- `buf` and `hasCR`: no buffer while no CR has been met.
abbrev pub with_lf : Option Bytes → Bytes → Bytes
with_lf none text = text ++ b'\n' ∷ []
with_lf (some buf) text = buf ++ b'\n' ∷ []

abbrev pub with_byte : Option Bytes → ℕ → Option Bytes
with_byte none c = none
with_byte (some buf) c = some (buf ++ c ∷ [])

abbrev pub buffered : Option Bytes → Bytes → Bytes
buffered none text = text
buffered (some buf) text = buf

-- The loop of `scanBlockComment`, from `begin`, which is `textStart`. It returns the text and the
-- cursor at the closing `*/`. The clause for one last byte is the general one at the text's end.
unfoldable pub block_comment_loop :
    Position → Cursor → Option Bytes → Cursor → Result Error (Bytes × Cursor)
unfolding advance_position
block_comment_loop start begin buf (at [] p) = error_at start unterminated_block_comment
block_comment_loop start begin buf (at (c ∷ []) p) =
    if c == b'\r'
    then error_at start unterminated_block_comment
    else if is_control c && not (c == b'\t') && not (c == b'\n')
    then error_at p (control_in_block_comment c)
    else error_at start unterminated_block_comment
block_comment_loop start begin buf (at (c ∷ d ∷ ds) p) =
    let text = text_from begin (at (c ∷ d ∷ ds) p) in
    let p1 = advance_position c (d ∷ ds) p in
    let after_crlf =
      block_comment_loop start begin (some (with_lf buf text)) (at ds (advance_position d ds p1)) in
    let after_cr = block_comment_loop start begin (some (with_lf buf text)) (at (d ∷ ds) p1) in
    let after_byte = block_comment_loop start begin (with_byte buf c) (at (d ∷ ds) p1) in
    if c == b'*' && d == b'/'
    then ok (buffered buf text, at (c ∷ d ∷ ds) p)
    else if c == b'\r'
    then if d == b'\n' then after_crlf else after_cr
    else if is_control c && not (c == b'\t') && not (c == b'\n')
    then error_at p (control_in_block_comment c)
    else after_byte

unfoldable pub scan_block_comment : Bool → Cursor → Scan
unfolding block_comment_loop advance
scan_block_comment strict start =
    if strict then err (strict_json_error Feature.block_comment (position start)) else do
      let begin = advance (advance start)
      (text, stop) ← block_comment_loop (position start) begin none begin
      ok (token TokenKind.block_comment text (position start), advance (advance stop))

-- `scanComment`, which is called at a slash
unfoldable pub scan_comment : Bool → Cursor → Scan
unfolding scan_line_comment scan_block_comment
scan_comment strict (at (c ∷ d ∷ cs) p) =
    if d == b'/'
    then scan_line_comment strict (at (c ∷ d ∷ cs) p)
    else if d == b'*'
    then scan_block_comment strict (at (c ∷ d ∷ cs) p)
    else error_at p (unexpected_after_slash d)
scan_comment strict (at cs p) = error_at p unexpected_slash
