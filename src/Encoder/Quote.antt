-- ===== src/Encoder/Quote.antt =====
-- encode.go: `writeQuotedString` and the choice between a string's source text and its quotation.
use jsonc.Prelude.{
  ℕ, zero, suc, ◌+◌, ◌-◌, ◌/◌, ◌%◌, Bool, false, not, ◌&&◌, ◌||◌, [], ◌∷◌, ◌++◌, ◌==◌, ltb,
  is_empty, if◌then◌else◌, Bytes, codes, Option, none, some, take,
}
use jsonc.Strings.Utf8.{rune_size, valid_string, encode_rune, rune_error}
use jsonc.Encoder.Options.{EncoderOptions}

-- `hexDigit`
abbrev pub hex_digit : ℕ → ℕ
hex_digit n = if ltb n 10 then b'0' + n else b'a' + n - 10

-- `\u00` with the two hex digits of a byte
abbrev pub unicode_escape : ℕ → Bytes
unicode_escape c = b'\\' ∷ b'u' ∷ b'0' ∷ b'0' ∷ hex_digit (c / 16) ∷ hex_digit (c % 16) ∷ []

abbrev escaped : ℕ → Bytes
escaped c = b'\\' ∷ c ∷ []

-- The test for the bytes of U+2028 and U+2029. `s[i+2]&^1` clears the lowest bit.
unfoldable pub is_separator : Bytes → Bool
is_separator (a ∷ b ∷ c ∷ _) = a == 0xE2 && b == 0x80 && (c == 0xA8 || c == 0xA9)
is_separator _ = false

-- the last of these bytes as the escape's last digit
unfoldable pub separator_escape : Bytes → Bytes
separator_escape (a ∷ b ∷ c ∷ _) = codes "\\u202" ++ hex_digit (c % 16) ∷ []
separator_escape _ = []

-- the bytes of a rune with what `i` is advanced by; an invalid byte is written as U+FFFD
unfoldable pub quote_rune : Option ℕ → Bytes → Bytes × ℕ
unfolding encode_rune
quote_rune none text = (encode_rune rune_error, 0)
quote_rune (some n) text = (take n text, n - 1)

-- the switch of `writeQuotedString` below U+0080, on the byte `c`
unfoldable pub quote_byte : Bool → ℕ → Bytes
quote_byte html c =
    if c == b'"'
    then escaped b'"'
    else if c == b'\\'
    then escaped b'\\'
    else if c == 0x08
    then escaped b'b'
    else if c == 0x0C
    then escaped b'f'
    else if c == b'\n'
    then escaped b'n'
    else if c == b'\r'
    then escaped b'r'
    else if c == b'\t'
    then escaped b't'
    else if c == b'<' || c == b'>' || c == b'&'
    then if html then unicode_escape c else c ∷ []
    else if ltb c 0x20
    then unicode_escape c
    else c ∷ []

-- One round of the loop at a text that is not empty: what it writes, and what it advances `i` by
-- before the loop does.
unfoldable pub quote_at : Bool → ℕ → Bytes → Bytes × ℕ
unfolding is_separator separator_escape quote_byte quote_rune rune_size
quote_at html c text =
    if html && is_separator text
    then (separator_escape text, 2)
    else if ltb c 0x80
    then (quote_byte html c, 0)
    else quote_rune (rune_size text) text

-- The loop, with the number of bytes that `i` is yet to pass over.
unfoldable pub quote_loop : Bool → ℕ → Bytes → Bytes
unfolding quote_at
quote_loop html skip [] = []
quote_loop html (suc skip) (c ∷ cs) = quote_loop html skip cs
quote_loop html zero (c ∷ cs) = let r = quote_at html c (c ∷ cs) in r.0 ++ quote_loop html r.1 cs

-- `writeQuotedString`
unfoldable pub quote_string : Bool → Bytes → Bytes
unfolding quote_loop
quote_string html s = b'"' ∷ quote_loop html 0 s ++ b'"' ∷ []

-- `strings.ContainsAny(raw, "<>&\u2028\u2029")`, of valid UTF-8
unfoldable pub needs_html_escape : Bytes → Bool
unfolding is_separator
needs_html_escape [] = false
needs_html_escape (c ∷ cs) =
    c == b'<' || c == b'>' || c == b'&' || is_separator (c ∷ cs) || needs_html_escape cs

-- `rawStringOK`
unfoldable pub raw_string_ok : EncoderOptions → Bytes → Bool
unfolding valid_string needs_html_escape
raw_string_ok o raw =
    not (is_empty raw) && valid_string raw && (not o.escape_html || not (needs_html_escape raw))

-- `writeSourceString`
unfoldable pub source_string : EncoderOptions → Bytes → Bytes → Bytes
unfolding raw_string_ok quote_string
source_string o raw value = if raw_string_ok o raw then raw else quote_string o.escape_html value
