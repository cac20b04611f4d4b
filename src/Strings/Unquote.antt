-- ===== src/Strings/Unquote.antt =====
-- strings.go: `unquoteString` and its helpers. The index `i` into the body is the unread part of it.
use jsonc.Prelude.{
  ℕ, zero, suc, ◌+◌, ◌-◌, ◌*◌, ◌%◌, Bool, false, not, ◌&&◌, ◌||◌, [], ◌∷◌, ◌++◌, ◌==◌, leb, within,
  if◌then◌else◌, Bytes, Option, none, some, Result, ok, err, out_of_fuel, ◌>>=◌, length, take, drop,
}
use mathlib.Core.Option
use jsonc.Strings.Utf8.{rune_size, valid_string, encode_rune, is_surrogate, decode_pair, rune_error}

-- the messages that wrap `errInvalidQuotedString`
pub data QuoteError : Type 0 where
  not_surrounded dangling_backslash unknown_escape incomplete_unicode invalid_hex : QuoteError

abbrev pub Unquoted : Type 0 → Type 0
Unquoted = Result QuoteError

unfoldable pub contains_byte : Bytes → ℕ → Bool
contains_byte [] b = false
contains_byte (c ∷ cs) b = c == b || contains_byte cs b

-- the switch of `parseHex4`
unfoldable pub hex_value : ℕ → Unquoted ℕ
hex_value c =
    if within b'0' b'9' c
    then ok (c - b'0')
    else if within b'a' b'f' c
    then ok (c - b'a' + 10)
    else if within b'A' b'F' c
    then ok (c - b'A' + 10)
    else err invalid_hex

-- `v<<4 | d` in a `uint16`
abbrev pub shift_in : ℕ → ℕ → ℕ
shift_in v d = (v * 16 + d) % 65536

-- `parseHex4`, on the four bytes of its argument
unfoldable pub parse_hex4 : ℕ → ℕ → ℕ → ℕ → Unquoted ℕ
unfolding hex_value
parse_hex4 a b c d = do
  w ← hex_value a
  x ← hex_value b
  y ← hex_value c
  z ← hex_value d
  ok (shift_in (shift_in (shift_in (shift_in 0 w) x) y) z)

-- the combined rune, if the two halves form a pair, and what is left
unfoldable pub pair : ℕ → Unquoted ℕ → Bytes → Option (ℕ × Bytes)
unfolding decode_pair
pair r1 (ok r2) rest =
    if decode_pair r1 r2 == rune_error then none else some (decode_pair r1 r2, rest)
pair r1 _ rest = none

-- The second half of a pair, if one follows.
unfoldable pub low_surrogate : ℕ → Bytes → Option (ℕ × Bytes)
unfolding parse_hex4 pair
low_surrogate r1 (s ∷ u ∷ a ∷ b ∷ c ∷ d ∷ rest) =
    if s == b'\\' && u == b'u' then pair r1 (parse_hex4 a b c d) rest else none
low_surrogate r1 _ = none

-- what is appended for a lone or combined surrogate, and what is left
unfoldable pub append_pair : Option (ℕ × Bytes) → Bytes → Bytes × Bytes
unfolding encode_rune
append_pair (some (r, rest')) rest = (encode_rune r, rest')
append_pair none rest = (encode_rune rune_error, rest)

-- behind the first `\uXXXX`, which gave `r1`
unfoldable pub decode_rune : ℕ → Bytes → Bytes × Bytes
unfolding is_surrogate encode_rune low_surrogate append_pair
decode_rune r1 rest =
    if not (is_surrogate r1)
    then (encode_rune r1, rest)
    else append_pair (low_surrogate r1 rest) rest

-- `decodeUnicodeEscape`, behind `\u`: what it appends, and what is left
unfoldable pub decode_unicode_escape : Bytes → Unquoted (Bytes × Bytes)
unfolding parse_hex4 decode_rune
decode_unicode_escape (a ∷ b ∷ c ∷ d ∷ rest) = do r1 ← parse_hex4 a b c d; ok (decode_rune r1 rest)
decode_unicode_escape _ = err incomplete_unicode

-- `decodeEscape` at the byte `c` behind the backslash
unfoldable pub decode_escape : ℕ → Bytes → Unquoted (Bytes × Bytes)
unfolding decode_unicode_escape
decode_escape c rest =
    if c == b'"'
    then ok (b'"' ∷ [], rest)
    else if c == b'\\'
    then ok (b'\\' ∷ [], rest)
    else if c == b'/'
    then ok (b'/' ∷ [], rest)
    else if c == b'b'
    then ok (0x08 ∷ [], rest)
    else if c == b'f'
    then ok (0x0C ∷ [], rest)
    else if c == b'n'
    then ok (b'\n' ∷ [], rest)
    else if c == b'r'
    then ok (b'\r' ∷ [], rest)
    else if c == b't'
    then ok (b'\t' ∷ [], rest)
    else if c == b'u'
    then decode_unicode_escape rest
    else err unknown_escape

-- a backslash with what is behind it
unfoldable pub unquote_escape : Bytes → Unquoted (Bytes × Bytes)
unfolding decode_escape
unquote_escape [] = err dangling_backslash
unquote_escape (c ∷ rest) = decode_escape c rest

unfoldable pub take_rune : Option ℕ → Bytes → Bytes × Bytes
unfolding encode_rune
take_rune none text = (encode_rune rune_error, drop 1 text)
take_rune (some n) text = (take n text, drop n text)

-- a byte of 0x80 or more: a valid rune is kept, any other byte becomes U+FFFD
unfoldable pub unquote_rune : Bytes → Bytes × Bytes
unfolding rune_size take_rune
unquote_rune text = take_rune (rune_size text) text

-- One round of the loop: what it appends to `out`, and what is left.
unfoldable pub unquote_step : ℕ → Bytes → Unquoted (Bytes × Bytes)
unfolding unquote_rune unquote_escape
unquote_step c cs =
    if leb 0x80 c
    then ok (unquote_rune (c ∷ cs))
    else if not (c == b'\\')
    then ok (c ∷ [], cs)
    else unquote_escape cs

-- The loop of `unquoteString`. A round reads a byte or more: fuel above the length is enough.
unfoldable pub unquote_loop : ℕ → Bytes → Bytes → Unquoted Bytes
unfolding unquote_step
unquote_loop zero out text = out_of_fuel
unquote_loop (suc fuel) out [] = ok out
unquote_loop (suc fuel) out (c ∷ cs) = do
  (more, rest) ← unquote_step c cs
  unquote_loop fuel (out ++ more) rest

-- the body between two quotes
unfoldable pub body : Bytes → Option Bytes
body [] = none
body (c ∷ []) = if c == b'"' then some [] else none
body (c ∷ cs) = Option.map (λ t. c ∷ t) (body cs)

unfoldable pub unquote_body : Bytes → Unquoted Bytes
unfolding unquote_loop contains_byte valid_string
unquote_body text =
    let slow = unquote_loop (suc (length text)) [] text in
    if not (contains_byte text b'\\') && valid_string text then ok text else slow

unfoldable pub unquote_between : Option Bytes → Unquoted Bytes
unfolding unquote_body
unquote_between none = err not_surrounded
unquote_between (some text) = unquote_body text

-- `unquoteString`
unfoldable pub unquote_string : Bytes → Unquoted Bytes
unfolding body unquote_between
unquote_string [] = err not_surrounded
unquote_string (c ∷ cs) = if c == b'"' then unquote_between (body cs) else err not_surrounded
