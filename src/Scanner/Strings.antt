-- ===== src/Scanner/Strings.antt =====
-- scanner.go: `scanString` and `scanEscape`.
use jsonc.Prelude.{
  ℕ, zero, suc, Bool, not, ◌||◌, [], ◌∷◌, ◌==◌, if◌then◌else◌, length, ok, out_of_fuel, ◌>>=◌,
  Result,
}
use jsonc.Token.{Position, TokenKind}
use jsonc.Errors.{
  Error, control_in_string, unterminated_string, incomplete_escape, incomplete_unicode_escape,
  invalid_hex_digit, unknown_escape,
}
use jsonc.Scanner.Cursor.{
  Cursor, at, rest, position, advance, advance_by, text_from, error_at, is_control, is_hex, Scan,
  token,
}

-- `case '"', '\\', '/', 'b', 'f', 'n', 'r', 't'`
unfoldable pub is_simple_escape : ℕ → Bool
is_simple_escape c =
    c == b'"'
    || c == b'\\'
    || c == b'/'
    || c == b'b'
    || c == b'f'
    || c == b'n'
    || c == b'r'
    || c == b't'

-- The two loops over the four digits behind `\u`; the escape began at `start`.
unfoldable pub scan_hex4 : Position → Cursor → Result Error Cursor
unfolding is_hex advance_by
scan_hex4 start (at (a ∷ b ∷ c ∷ d ∷ ds) p) =
    if not (is_hex a)
    then error_at start (invalid_hex_digit a)
    else if not (is_hex b)
    then error_at start (invalid_hex_digit b)
    else if not (is_hex c)
    then error_at start (invalid_hex_digit c)
    else if not (is_hex d)
    then error_at start (invalid_hex_digit d)
    else ok (advance_by 4 (at (a ∷ b ∷ c ∷ d ∷ ds) p))
scan_hex4 start _ = error_at start incomplete_unicode_escape

-- the switch of `scanEscape`, behind the backslash at `start`
unfoldable pub scan_escape_at : Position → Cursor → Result Error Cursor
unfolding is_simple_escape scan_hex4 advance
scan_escape_at start (at [] p) = error_at start incomplete_escape
scan_escape_at start (at (c ∷ cs) p) =
    if is_simple_escape c
    then ok (advance (at (c ∷ cs) p))
    else if c == b'u'
    then scan_hex4 start (advance (at (c ∷ cs) p))
    else error_at start (unknown_escape c)

unfoldable pub scan_escape : Cursor → Result Error Cursor
unfolding scan_escape_at advance
scan_escape s = scan_escape_at (position s) (advance s)

-- The loop of `scanString`, up to the cursor behind the closing quote. Each round reads a byte or
-- more, so fuel above the length of the text is enough.
unfoldable pub string_loop : ℕ → Position → Cursor → Result Error Cursor
unfolding scan_escape advance
string_loop zero start s = out_of_fuel
string_loop (suc fuel) start (at [] p) = error_at start unterminated_string
string_loop (suc fuel) start (at (c ∷ cs) p) =
    let escaped = scan_escape (at (c ∷ cs) p) >>= string_loop fuel start in
    let more = string_loop fuel start (advance (at (c ∷ cs) p)) in
    if c == b'"'
    then ok (advance (at (c ∷ cs) p))
    else if c == b'\\'
    then escaped
    else if is_control c
    then error_at p (control_in_string c)
    else more

-- `value` is left empty by a scanner with `rawOnly`
unfoldable pub scan_string : Bool → Cursor → Scan
unfolding string_loop advance
scan_string raw_only start = do
  stop ← string_loop (suc (length (rest start))) (position start) (advance start)
  let value = if raw_only then [] else text_from start stop
  ok (token TokenKind.string value (position start), stop)
