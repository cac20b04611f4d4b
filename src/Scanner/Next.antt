-- ===== src/Scanner/Next.antt =====
-- scanner.go: `next`, `scanNext` and `stripBOM`.
use jsonc.Prelude.{ℕ, Bool, ◌||◌, [], ◌∷◌, ◌==◌, if◌then◌else◌, within, Bytes, codes, ok}
use jsonc.Token.{TokenKind}
use jsonc.Errors.{unexpected_character}
use jsonc.Scanner.Cursor.{Cursor, at, position, advance_position, advance, error_at, Scan, token}
use jsonc.Scanner.Comments.{scan_comment}
use jsonc.Scanner.Strings.{scan_string}
use jsonc.Scanner.Numbers.{scan_number, scan_literal_word}

-- `strictJSON` and `rawOnly`
pub record Flags : Type 0 where
  pub strict_json : Bool
  pub raw_only : Bool

-- a line feed behind a carriage return
abbrev pub skip_lf : Cursor → Cursor
skip_lf (at [] p) = at [] p
skip_lf (at (c ∷ cs) p) = if c == b'\n' then advance (at (c ∷ cs) p) else at (c ∷ cs) p

-- `emitAdvance`
abbrev pub punctuation : TokenKind → ℕ → Cursor → Scan
punctuation k c s = ok (token k (c ∷ []) (position s), advance s)

-- the switch of `scanNext`, on the byte `c` at the cursor `s`
unfoldable pub scan_at : Flags → ℕ → Cursor → Scan
unfolding advance scan_comment scan_string scan_number scan_literal_word
scan_at flags c s =
    if c == b'\r'
    then ok (token TokenKind.newline [] (position (skip_lf (advance s))), skip_lf (advance s))
    else if c == b'\n'
    then ok (token TokenKind.newline [] (position (advance s)), advance s)
    else if c == b'/'
    then scan_comment flags.strict_json s
    else if c == b'{'
    then punctuation TokenKind.object_start c s
    else if c == b'}'
    then punctuation TokenKind.object_end c s
    else if c == b'['
    then punctuation TokenKind.array_start c s
    else if c == b']'
    then punctuation TokenKind.array_end c s
    else if c == b':'
    then punctuation TokenKind.name_separator c s
    else if c == b','
    then punctuation TokenKind.value_separator c s
    else if c == b'"'
    then scan_string flags.raw_only s
    else if c == b'-' || within b'0' b'9' c
    then scan_number flags.raw_only s
    else if c == b't'
    then scan_literal_word (codes "true") TokenKind.true_word s
    else if c == b'f'
    then scan_literal_word (codes "false") TokenKind.false_word s
    else if c == b'n'
    then scan_literal_word (codes "null") TokenKind.null_word s
    else error_at (position s) (unexpected_character c)

-- the loop of `next` over spaces and tabs
unfoldable pub skip_blanks : Cursor → Cursor
unfolding advance_position
skip_blanks (at [] p) = at [] p
skip_blanks (at (c ∷ cs) p) =
    let more = skip_blanks (at cs (advance_position c cs p)) in
    if c == b' ' || c == b'\t' then more else at (c ∷ cs) p

-- The rest of `next`, at a byte that is no blank. An error comes back alone: the position of the
-- `tokenError` that `next` returns with it is where this cursor stands.
unfoldable pub next_token : Flags → Cursor → Scan
unfolding scan_at
next_token flags (at [] p) = ok (token TokenKind.eof [] p, at [] p)
next_token flags (at (c ∷ cs) p) = scan_at flags c (at (c ∷ cs) p)

unfoldable pub next : Flags → Cursor → Scan
unfolding next_token skip_blanks
next flags s = next_token flags (skip_blanks s)

-- `scanner{src: src, line: 1, col: 1}`
abbrev pub begin : Bytes → Cursor
begin src = at src (record { line = 1; column = 1; offset = 0 })
