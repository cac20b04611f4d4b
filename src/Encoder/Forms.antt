-- ===== src/Encoder/Forms.antt =====
-- What `writeQuotedString` writes, piece by piece.
use jsonc.Prelude.{
  ℕ, ◌%◌, ◌≤◌, Bool, true, false, ◌&&◌, ◌||◌, [], ◌∷◌, ◌++◌, ◌==◌, ltb, leb, ◌≡◌, refl, inl, inr,
  if◌then◌else◌, Bytes, ok, length, arith, Bool-cases, codes,
}
use jsonc.Strings.Utf8.{rune_size}
use jsonc.Strings.Runes.{
  Runes, end, rune_1, rune_2, rune_3, rune_4, two, three, four, rune_size_2, rune_size_3,
  rune_size_4,
}
use jsonc.Strings.Unquote.{decode_escape}
use jsonc.Scanner.Strings.{is_simple_escape}
use jsonc.Encoder.Quote.{
  hex_digit, unicode_escape, is_separator, separator_escape, quote_byte, quote_rune, quote_at,
  quote_loop,
}

-- The forms in which a byte below U+0080 is written: as it is, behind a backslash, or in hex.
pub data Form (c : ℕ) (w : Bytes) : Type 0 where
  plain : leb 0x20 c ≡ true → c == b'"' ≡ false → c == b'\\' ≡ false → w ≡ c ∷ [] → Form c w
  short :
      (e : ℕ)
      → is_simple_escape e ≡ true
      → ((rest : Bytes) → decode_escape e rest ≡ ok (c ∷ [], rest))
      → w ≡ b'\\' ∷ e ∷ []
      → Form c w
  hex : w ≡ unicode_escape c → Form c w

Form-if :
    {c : ℕ} {x y : Bytes} (b : Bool)
    → (b ≡ true → Form c x)
    → (b ≡ false → Form c y)
    → Form c (if b then x else y)
Form-if true f g = f refl
Form-if false f g = g refl

Form-short :
    {c k : ℕ} (e : ℕ)
    → c == k ≡ true
    → is_simple_escape e ≡ true
    → ((rest : Bytes) → decode_escape e rest ≡ ok (k ∷ [], rest))
    → Form c (b'\\' ∷ e ∷ [])
Form-short {c} {k} e q s h = let same : c ≡ k = ground arith in short e s (rw same h) refl

pub quote_byte-Form : (html : Bool) (c : ℕ) → Form c (quote_byte html c)
unfolding quote_byte is_simple_escape decode_escape
quote_byte-Form html c =
    Form-if (c == b'"') (λ e. Form-short b'"' e refl λ _. refl)
      λ n1.
        Form-if (c == b'\\') (λ e. Form-short b'\\' e refl λ _. refl)
          λ n2.
            Form-if (c == 0x08) (λ e. Form-short b'b' e refl λ _. refl)
              λ _.
                Form-if (c == 0x0C) (λ e. Form-short b'f' e refl λ _. refl)
                  λ _.
                    Form-if (c == b'\n') (λ e. Form-short b'n' e refl λ _. refl)
                      λ _.
                        Form-if (c == b'\r') (λ e. Form-short b'r' e refl λ _. refl)
                          λ _.
                            Form-if (c == b'\t') (λ e. Form-short b't' e refl λ _. refl)
                              λ _.
                                Form-if (c == b'<' || c == b'>' || c == b'&')
                                  (λ e.
                                    Form-if html (λ _. hex refl)
                                      λ _. plain (ground arith) n1 n2 refl)
                                  λ _.
                                    Form-if (ltb c 0x20) (λ _. hex refl)
                                      λ h. plain (ground arith) n1 n2 refl

-- The bytes of a string of runes, and the text that is written for them.
pub data Written : Bytes → Bytes → Type 0 where
  end_written : Written [] []
  byte :
      (c : ℕ) {s v w x : Bytes}
      → ltb c 0x80 ≡ true
      → Form c v
      → Written s w
      → x ≡ v ++ w
      → Written (c ∷ s) x
  separator :
      (c : ℕ) {s t w x : Bytes}
      → (c == 0xA8 || c == 0xA9) ≡ true
      → Written s w
      → t ≡ 0xE2 ∷ 0x80 ∷ c ∷ s
      → x ≡ codes "\\u202" ++ hex_digit (c % 16) ∷ w
      → Written t x
  kept_2 : (a b : ℕ) {s w : Bytes} → two a b ≡ true → Written s w → Written (a ∷ b ∷ s) (a ∷ b ∷ w)
  kept_3 :
      (a b c : ℕ) {s w : Bytes}
      → three a b c ≡ true
      → Written s w
      → Written (a ∷ b ∷ c ∷ s) (a ∷ b ∷ c ∷ w)
  kept_4 :
      (a b c d : ℕ) {s w : Bytes}
      → four a b c d ≡ true
      → Written s w
      → Written (a ∷ b ∷ c ∷ d ∷ s) (a ∷ b ∷ c ∷ d ∷ w)

is_separator-ne : (a : ℕ) (text : Bytes) → a == 0xE2 ≡ false → is_separator (a ∷ text) ≡ false
unfolding is_separator
is_separator-ne a [] e = refl
is_separator-ne a (b ∷ []) e = refl
is_separator-ne a (b ∷ c ∷ text) e = rw e refl

and_false : (b : Bool) → b && false ≡ false
and_false true = refl
and_false false = refl

quote_at-rune :
    (html : Bool) (a : ℕ) (text : Bytes)
    → html && is_separator (a ∷ text) ≡ false
    → ltb a 0x80 ≡ false
    → quote_at html a (a ∷ text) ≡ quote_rune (rune_size (a ∷ text)) (a ∷ text)
unfolding quote_at
quote_at-rune html a text e h = rw (e, h) refl

quote_at-byte :
    (html : Bool) (a : ℕ) (text : Bytes)
    → ltb a 0x80 ≡ true
    → quote_at html a (a ∷ text) ≡ (quote_byte html a, 0)
unfolding quote_at
quote_at-byte html a text h =
    let n : a == 0xE2 ≡ false = ground arith in
    rw (is_separator-ne a text n, and_false html, h) refl

is_separator-lead : (a b c : ℕ) (text : Bytes) → is_separator (a ∷ b ∷ c ∷ text) ≡ true → a ≡ 0xE2
unfolding is_separator
is_separator-lead a b c text e = ground arith

is_separator-second : (a b c : ℕ) (text : Bytes) → is_separator (a ∷ b ∷ c ∷ text) ≡ true → b ≡ 0x80
unfolding is_separator
is_separator-second a b c text e = ground arith

is_separator-last :
    (a b c : ℕ) (text : Bytes)
    → is_separator (a ∷ b ∷ c ∷ text) ≡ true
    → (c == 0xA8 || c == 0xA9) ≡ true
unfolding is_separator
is_separator-last a b c text e = ground arith

quote_at-separator :
    (html : Bool) (a b c : ℕ) (text : Bytes)
    → html && is_separator (a ∷ b ∷ c ∷ text) ≡ true
    → quote_at html a (a ∷ b ∷ c ∷ text) ≡ (codes "\\u202" ++ hex_digit (c % 16) ∷ [], 2)
unfolding quote_at separator_escape
quote_at-separator html a b c text e = rw e refl

pub Form-length : {c : ℕ} {w : Bytes} → Form c w → 1 ≤ length w
Form-length (plain _ _ _ e) = rw e (omega arith)
Form-length (short _ _ _ e) = rw e (omega arith)
Form-length (hex e) = rw e (omega arith)

-- Every string of runes is written in such pieces.
pub quote_loop-Written : (html : Bool) {s : Bytes} → Runes s → Written s (quote_loop html 0 s)
unfolding quote_loop quote_rune
quote_loop-Written html end = end_written
quote_loop-Written html (rune_1 a {text} e r) =
    byte a e (quote_byte-Form html a) (quote_loop-Written html r)
      (rw (quote_at-byte html a text e) refl)
quote_loop-Written html (rune_2 a b {text} e r) =
    let n : a == 0xE2 ≡ false = ground arith in
    let h : ltb a 0x80 ≡ false = ground arith in
    rw
      (
        quote_at-rune html a (b ∷ text) (rw (is_separator-ne a (b ∷ text) n, and_false html) refl)
            h,
        rune_size_2 a b text e,
      )
      (kept_2 a b e (quote_loop-Written html r))
quote_loop-Written html (rune_3 a b c {text} e r) =
    elim (Bool-cases (html && is_separator (a ∷ b ∷ c ∷ text))) [
      | inl y ↦
          let p : is_separator (a ∷ b ∷ c ∷ text) ≡ true = ground arith in
          rw
            (
              quote_at-separator html a b c text y,
              is_separator-lead a b c text p,
              is_separator-second a b c text p,
            )
            (separator c (is_separator-last a b c text p) (quote_loop-Written html r) refl refl)
      | inr n ↦
          let h : ltb a 0x80 ≡ false = ground arith in
          rw (quote_at-rune html a (b ∷ c ∷ text) n h, rune_size_3 a b c text e)
            (kept_3 a b c e (quote_loop-Written html r))
    ]
quote_loop-Written html (rune_4 a b c d {text} e r) =
    let n : a == 0xE2 ≡ false = ground arith in
    let h : ltb a 0x80 ≡ false = ground arith in
    rw
      (
        quote_at-rune html a (b ∷ c ∷ d ∷ text)
            (rw (is_separator-ne a (b ∷ c ∷ d ∷ text) n, and_false html) refl) h,
        rune_size_4 a b c d text e,
      )
      (kept_4 a b c d e (quote_loop-Written html r))
