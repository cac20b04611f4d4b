-- ===== src/Scanner/Cursor.antt =====
-- scanner.go: the scanner's place in the text, the helpers that move it, and the byte classes.
-- A cursor is the unread text `src[pos:]` with the position of its first byte; the scanner looks
-- at no byte before that but to slice a token's text.
use jsonc.Prelude.{
  ℕ, zero, suc, ◌+◌, ◌-◌, Bool, true, false, ◌||◌, [], ◌∷◌, ◌==◌, ltb, within, if◌then◌else◌, Bytes,
  take, Result, err,
}
use jsonc.Token.{Token, TokenKind, Position}
use jsonc.Errors.{Error, Message, syntax_error}

pub data Cursor : Type 0 where
  at : Bytes → Position → Cursor

abbrev pub rest : Cursor → Bytes
rest (at r p) = r

abbrev pub position : Cursor → Position
position (at r p) = p

abbrev pub at_end : Cursor → Bool
at_end (at [] p) = true
at_end (at (_ ∷ _) p) = false

abbrev pub starts_with_lf : Bytes → Bool
starts_with_lf [] = false
starts_with_lf (c ∷ _) = c == b'\n'

abbrev pub next_column : Position → Position
next_column p = record { line = p.line; column = p.column + 1; offset = p.offset + 1 }

abbrev pub next_line : Position → Position
next_line p = record { line = p.line + 1; column = 1; offset = p.offset + 1 }

-- the switch of `advance`, on the byte `c` with `cs` behind it
unfoldable pub advance_position : ℕ → Bytes → Position → Position
advance_position c cs p =
    if c == b'\n'
    then next_line p
    else if c == b'\r'
    then if starts_with_lf cs then next_column p else next_line p
    else next_column p

unfoldable pub advance : Cursor → Cursor
unfolding advance_position
advance (at [] p) = at [] p
advance (at (c ∷ cs) p) = at cs (advance_position c cs p)

-- `for range n { s.advance() }`
unfoldable pub advance_by : ℕ → Cursor → Cursor
unfolding advance
advance_by zero s = s
advance_by (suc n) s = advance_by n (advance s)

-- `string(s.src[start.Offset:s.pos])`
abbrev pub text_from : Cursor → Cursor → Bytes
text_from start s = take ((position s).offset - (position start).offset) (rest start)

-- `syntaxErrorAt`; `syntaxError` is this at the cursor's own position
abbrev pub error_at : {A : Type 0} → Position → Message → Result Error A
error_at p m = err (syntax_error m p)

unfoldable pub is_hex : ℕ → Bool
is_hex c = within b'0' b'9' c || within b'a' b'f' c || within b'A' b'F' c

unfoldable pub is_letter : ℕ → Bool
is_letter c = within b'a' b'z' c || within b'A' b'Z' c

unfoldable pub is_digit : ℕ → Bool
is_digit c = within b'0' b'9' c

-- `c < 0x20`
abbrev pub is_control : ℕ → Bool
is_control c = ltb c 0x20

-- what a scanning method leaves in `s.tok`, with the cursor behind it
abbrev pub Scan : Type 0
Scan = Result Error (Token × Cursor)

abbrev pub token : TokenKind → Bytes → Position → Token
token k v p = record { kind = k; value = v; pos = p }
