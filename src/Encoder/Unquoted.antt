-- ===== src/Encoder/Unquoted.antt =====
-- What `writeQuotedString` writes is valid, and `unquoteString` reads it back.
use jsonc.Prelude.{
  ℕ, zero, suc, ◌/◌, ◌%◌, ◌<◌, Bool, true, false, ◌||◌, [], ◌∷◌, ◌++◌, ◌==◌, ltb, within, ◌≡◌, refl,
  ◌∙◌, ap, inl, inr, Bytes, some, ok, length, length-append, arith, Bool-cases, append_assoc,
  append-nil, codes,
}
use jsonc.Strings.Utf8.{valid_string, encode_rune, is_surrogate}
use jsonc.Strings.Runes.{Runes-valid_string}
use jsonc.Strings.Unquote.{
  unquote_string, unquote_between, body, unquote_loop, unquote_step, unquote_escape, decode_escape,
  decode_unicode_escape, decode_rune, parse_hex4, hex_value, shift_in,
}
use jsonc.Strings.Reference.{
  unquote_loop-rune_1, unquote_loop-rune_2, unquote_loop-rune_3, unquote_loop-rune_4,
  unquote_body-unquote_loop,
}
use jsonc.Encoder.Forms.{
  Form, plain, short, hex, Written, end_written, byte, separator, kept_2, kept_3, kept_4,
  quote_loop-Written, Form-length,
}
use jsonc.Encoder.Quote.{hex_digit, unicode_escape, quote_loop, quote_string}

hex_value-hex_digit : (n : ℕ) → n < 16 → hex_value (hex_digit n) ≡ ok n
unfolding hex_value
hex_value-hex_digit n h = ground arith

decode_rune-ascii : (c : ℕ) (rest : Bytes) → c < 128 → decode_rune c rest ≡ (c ∷ [], rest)
unfolding decode_rune is_surrogate encode_rune
decode_rune-ascii c rest h =
    let plain : within 0xD800 0xDFFF c ≡ false = ground arith in
    let low : ltb c 0x80 ≡ true = ground arith in rw plain (rw low refl)

-- an escape of a byte below U+0080
unquote_loop-unicode_escape :
    (fuel : ℕ) (out rest : Bytes) (c : ℕ)
    → c < 128
    → unquote_loop (suc fuel) out (unicode_escape c ++ rest)
      ≡ unquote_loop fuel (out ++ c ∷ []) rest
unfolding unquote_loop unquote_step unquote_escape decode_escape decode_unicode_escape parse_hex4
unquote_loop-unicode_escape fuel out rest c h =
    let same : shift_in (shift_in 0 (c / 16)) (c % 16) ≡ c = omega arith in
    rw (hex_value-hex_digit (c / 16) (omega arith), hex_value-hex_digit (c % 16) (omega arith))
      (rw same (rw (decode_rune-ascii c rest h) refl))

unquote_loop-escaped :
    (fuel : ℕ) (out rest : Bytes) (k e : ℕ)
    → decode_escape e rest ≡ ok (k ∷ [], rest)
    → unquote_loop (suc fuel) out (b'\\' ∷ e ∷ rest) ≡ unquote_loop fuel (out ++ k ∷ []) rest
unfolding unquote_loop unquote_step unquote_escape
unquote_loop-escaped fuel out rest k e h = rw h refl

-- A byte below U+0080 is read back in one round, however it is written.
unquote_loop-Form :
    (fuel : ℕ) (out rest : Bytes) (c : ℕ) {w : Bytes}
    → ltb c 0x80 ≡ true
    → Form c w
    → unquote_loop (suc fuel) out (w ++ rest) ≡ unquote_loop fuel (out ++ c ∷ []) rest
unquote_loop-Form fuel out rest c h (plain _ _ n e) = rw e (unquote_loop-rune_1 fuel out rest c h n)
unquote_loop-Form fuel out rest c h (short k _ d e) =
    rw e (unquote_loop-escaped fuel out rest c k (d rest))
unquote_loop-Form fuel out rest c h (hex e) =
    rw e (unquote_loop-unicode_escape fuel out rest c (ground arith))

-- The two separators are read back from their escapes.
unquote_loop-separator :
    (fuel : ℕ) (out rest : Bytes) (c : ℕ)
    → (c == 0xA8 || c == 0xA9) ≡ true
    → unquote_loop (suc fuel) out (codes "\\u202" ++ hex_digit (c % 16) ∷ rest)
      ≡ unquote_loop fuel (out ++ 0xE2 ∷ 0x80 ∷ c ∷ []) rest
unfolding unquote_loop unquote_step unquote_escape decode_escape decode_unicode_escape parse_hex4
    decode_rune is_surrogate encode_rune hex_value
unquote_loop-separator fuel out rest c h = elim (Bool-cases (c == 0xA8)) [
  | inl e ↦ let q : c ≡ 0xA8 = ground arith in rw q refl
  | inr e ↦ let q : c ≡ 0xA9 = ground arith in rw q refl
]

-- The pieces are read back, one a round.
unquote_loop-Written :
    {s x : Bytes}
    → Written s x
    → (fuel : ℕ) (out : Bytes) → length x < fuel
    → unquote_loop fuel out x ≡ ok (out ++ s)
unquote_loop-Written w zero out lt = absurd (omega arith)
unquote_loop-Written end_written (suc fuel) out lt = unfold unquote_loop in rw (append-nil out) refl
unquote_loop-Written (byte c {s} {v} {w} e f r q) (suc fuel) out lt = rw q (
    unquote_loop-Form fuel out w c e f
    ∙ unquote_loop-Written r fuel (out ++ c ∷ [])
        (omega (arith, Form-length f, ap length q, length-append v w))
    ∙ ap ok (append_assoc out (c ∷ []) s))
unquote_loop-Written (separator c {s} e r q x) (suc fuel) out lt =
    rw (q, x)
      (unquote_loop-separator fuel out _ c e
        ∙ unquote_loop-Written r fuel (out ++ 0xE2 ∷ 0x80 ∷ c ∷ []) (omega (arith, ap length x))
        ∙ ap ok (append_assoc out (0xE2 ∷ 0x80 ∷ c ∷ []) s))
unquote_loop-Written (kept_2 a b {s} {w} e r) (suc fuel) out lt =
    unquote_loop-rune_2 fuel out w a b e
    ∙ unquote_loop-Written r fuel (out ++ a ∷ b ∷ []) (omega arith)
    ∙ ap ok (append_assoc out (a ∷ b ∷ []) s)
unquote_loop-Written (kept_3 a b c {s} {w} e r) (suc fuel) out lt =
    unquote_loop-rune_3 fuel out w a b c e
    ∙ unquote_loop-Written r fuel (out ++ a ∷ b ∷ c ∷ []) (omega arith)
    ∙ ap ok (append_assoc out (a ∷ b ∷ c ∷ []) s)
unquote_loop-Written (kept_4 a b c d {s} {w} e r) (suc fuel) out lt =
    unquote_loop-rune_4 fuel out w a b c d e
    ∙ unquote_loop-Written r fuel (out ++ a ∷ b ∷ c ∷ d ∷ []) (omega arith)
    ∙ ap ok (append_assoc out (a ∷ b ∷ c ∷ d ∷ []) s)

body-quote : (text : Bytes) → body (text ++ b'"' ∷ []) ≡ some text
unfolding body
body-quote [] = refl
body-quote (c ∷ []) = refl
body-quote (c ∷ d ∷ text) = rw (body-quote (d ∷ text)) refl

-- A string of valid UTF-8 is read back from its quotation, with and without HTML escapes.
pub unquote_string-quote_string :
    (html : Bool) (s : Bytes) → valid_string s ≡ true → unquote_string (quote_string html s) ≡ ok s
unfolding unquote_string quote_string unquote_between
unquote_string-quote_string html s e =
    let q = quote_loop html 0 s in
    rw (body-quote q, unquote_body-unquote_loop q)
      (unquote_loop-Written (quote_loop-Written html (Runes-valid_string s e)) (suc (length q)) []
        (omega arith))
