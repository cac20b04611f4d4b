-- ===== src/Encoder/Spelled.antt =====
-- What `writeQuotedString` writes is scanned as one string.
use jsonc.Prelude.{
  ℕ, ◌/◌, ◌%◌, ◌<◌, Bool, true, false, [], ◌∷◌, ◌++◌, ltb, leb, Bytes, ◌≡◌, refl, ok, arith,
  append_assoc,
}
use jsonc.Token.{Position, TokenKind}
use jsonc.Strings.Utf8.{valid_string, second_of_3, second_of_4}
use jsonc.Strings.Runes.{Runes-valid_string}
use jsonc.Scanner.Cursor.{at, token, is_hex}
use jsonc.Scanner.Strings.{scan_string}
use jsonc.Scanner.Grammar.{
  Spelled, spelled_end, spelled_byte, Spelled-escape, Spelled-unicode, plain_byte,
  scan_string-Spelled,
}
use jsonc.Encoder.Quote.{hex_digit, quote_loop, quote_string}
use jsonc.Encoder.Forms.{
  Form, plain, short, hex, Written, end_written, byte, separator, kept_2, kept_3, kept_4,
  quote_loop-Written,
}

is_hex-hex_digit : (n : ℕ) → n < 16 → is_hex (hex_digit n) ≡ true
unfolding is_hex
is_hex-hex_digit n h = ground arith

high_byte : (c : ℕ) → leb 0x80 c ≡ true → plain_byte c ≡ true
high_byte c e = ground arith

Spelled-Form : (c : ℕ) {v w : Bytes} → ltb c 0x80 ≡ true → Form c v → Spelled w → Spelled (v ++ w)
unfolding is_hex
Spelled-Form c l (plain a b d e) s = rw e (spelled_byte c (ground arith) s)
Spelled-Form c l (short k h _ e) s = rw e (Spelled-escape k h s)
Spelled-Form c l (hex e) s =
    let x : is_hex (hex_digit (c / 16)) ≡ true = is_hex-hex_digit (c / 16) (ground arith) in
    let y : is_hex (hex_digit (c % 16)) ≡ true = is_hex-hex_digit (c % 16) (omega arith) in
    rw e (Spelled-unicode b'0' b'0' (hex_digit (c / 16)) (hex_digit (c % 16)) (rw (x, y) refl) s)

Spelled-Written : {s x : Bytes} → Written s x → Spelled x
unfolding second_of_3 second_of_4 is_hex
Spelled-Written end_written = spelled_end
Spelled-Written (byte c l f r e) = rw e (Spelled-Form c l f (Spelled-Written r))
Spelled-Written (separator c h r _ e) =
    let y : is_hex (hex_digit (c % 16)) ≡ true = is_hex-hex_digit (c % 16) (omega arith) in
    rw e (Spelled-unicode b'2' b'0' b'2' (hex_digit (c % 16)) (rw y refl) (Spelled-Written r))
Spelled-Written (kept_2 a b e r) =
    spelled_byte a (high_byte a (ground arith))
      (spelled_byte b (high_byte b (ground arith)) (Spelled-Written r))
Spelled-Written (kept_3 a b c e r) = spelled_byte a (high_byte a (ground arith)) (
    spelled_byte b (high_byte b (ground arith))
      (spelled_byte c (high_byte c (ground arith)) (Spelled-Written r)))
Spelled-Written (kept_4 a b c d e r) = spelled_byte a (high_byte a (ground arith)) (
    spelled_byte b (high_byte b (ground arith)) (
      spelled_byte c (high_byte c (ground arith))
        (spelled_byte d (high_byte d (ground arith)) (Spelled-Written r))))

-- The quotation of a string of valid UTF-8, with and without HTML escapes, is scanned as one string token, whose text is
-- the quotation, whatever follows it.
pub scan_string-quote_string :
    (html : Bool) (s rest : Bytes) (p : Position)
    → valid_string s ≡ true
    → (q : Position) × (scan_string false (at (quote_string html s ++ rest) p)
        ≡ ok (token TokenKind.string (quote_string html s) p, at rest q))
unfolding quote_string
scan_string-quote_string html s rest p e =
    let w = quote_loop html 0 s in
    let (q, h) =
      scan_string-Spelled (Spelled-Written (quote_loop-Written html (Runes-valid_string s e))) rest
        p in
    let j : (b'"' ∷ w ++ b'"' ∷ []) ++ rest ≡ b'"' ∷ w ++ b'"' ∷ rest = simp append_assoc refl in
    (q, rw j h)
