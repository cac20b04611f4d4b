-- ===== src/Strings/Runes.antt =====
-- Valid UTF-8 as a sequence of runes, by the bytes that each has.
use jsonc.Prelude.{
  ℕ, zero, suc, ◌<◌, Bool, true, false, ◌&&◌, [], ◌∷◌, ◌++◌, ltb, within, ◌≡◌, refl, inl, inr,
  Bytes, Option, none, some, length, drop, arith, Bool-cases,
}
use jsonc.Strings.Utf8.{rune_size, valid_loop, valid_string, continues, second_of_3, second_of_4}

abbrev pub two : ℕ → ℕ → Bool
two a b = within 0xC2 0xDF a && continues b

abbrev pub three : ℕ → ℕ → ℕ → Bool
three a b c = within 0xE0 0xEF a && second_of_3 a b && continues c

abbrev pub four : ℕ → ℕ → ℕ → ℕ → Bool
four a b c d = within 0xF0 0xF4 a && second_of_4 a b && continues c && continues d

pub data Runes : Bytes → Type 0 where
  end : Runes []
  rune_1 : (a : ℕ) {text : Bytes} → ltb a 0x80 ≡ true → Runes text → Runes (a ∷ text)
  rune_2 : (a b : ℕ) {text : Bytes} → two a b ≡ true → Runes text → Runes (a ∷ b ∷ text)
  rune_3 : (a b c : ℕ) {text : Bytes} → three a b c ≡ true → Runes text → Runes (a ∷ b ∷ c ∷ text)
  rune_4 :
      (a b c d : ℕ) {text : Bytes} → four a b c d ≡ true → Runes text → Runes (a ∷ b ∷ c ∷ d ∷ text)

module _ (a : ℕ) where
  pub rune_size_1 : (text : Bytes) → ltb a 0x80 ≡ true → rune_size (a ∷ text) ≡ some 1
  unfolding rune_size
  rune_size_1 [] e = rw e refl
  rune_size_1 (b ∷ []) e = rw e refl
  rune_size_1 (b ∷ c ∷ []) e = rw e refl
  rune_size_1 (b ∷ c ∷ d ∷ text) e = rw e refl

  pub rune_size_2 : (b : ℕ) (text : Bytes) → two a b ≡ true → rune_size (a ∷ b ∷ text) ≡ some 2
  unfolding rune_size
  rune_size_2 b [] e = ground arith
  rune_size_2 b (c ∷ []) e = ground arith
  rune_size_2 b (c ∷ d ∷ text) e = ground arith

  pub rune_size_3 :
      (b c : ℕ) (text : Bytes) → three a b c ≡ true → rune_size (a ∷ b ∷ c ∷ text) ≡ some 3
  unfolding rune_size
  rune_size_3 b c [] e = ground arith
  rune_size_3 b c (d ∷ text) e = ground arith

  pub rune_size_4 :
      (b c d : ℕ) (text : Bytes) → four a b c d ≡ true → rune_size (a ∷ b ∷ c ∷ d ∷ text) ≡ some 4
  unfolding rune_size
  rune_size_4 b c d text e = ground arith

abbrev valid_step : ℕ → Bytes → Option ℕ → Bool
valid_step fuel text none = false
valid_step fuel text (some n) = valid_loop fuel (drop n text)

valid_loop-step :
    (fuel a : ℕ) (text : Bytes) {o : Option ℕ}
    → rune_size (a ∷ text) ≡ o
    → valid_loop (suc fuel) (a ∷ text) ≡ true
    → valid_step fuel (a ∷ text) o ≡ true
unfolding valid_loop
valid_loop-step fuel a text q e = rw (valid_loop, q) at e

Runes-valid_loop : (fuel : ℕ) (text : Bytes) → valid_loop fuel text ≡ true → Runes text
unfolding rune_size
Runes-valid_loop zero text e = unfold valid_loop in cc
Runes-valid_loop (suc fuel) [] e = end
Runes-valid_loop (suc fuel) (a ∷ []) e = elim (Bool-cases (ltb a 0x80)) [
  | inl h ↦ rune_1 a h end
  | inr h ↦ cc (valid_loop-step fuel a [] {o = none} (rw h refl) e)
]
Runes-valid_loop (suc fuel) (a ∷ b ∷ []) e = elim (Bool-cases (ltb a 0x80)) [
  | inl h ↦ rune_1 a h (
      Runes-valid_loop fuel (b ∷ []) (valid_loop-step fuel a (b ∷ []) (rune_size_1 a (b ∷ []) h) e))
  | inr h ↦ elim (Bool-cases (two a b)) [
    | inl k ↦ rune_2 a b k end
    | inr k ↦ cc (valid_loop-step fuel a (b ∷ []) {o = none} (rw (h, k) refl) e)
  ]
]
Runes-valid_loop (suc fuel) (a ∷ b ∷ c ∷ []) e = elim (Bool-cases (ltb a 0x80)) [
  | inl h ↦ rune_1 a h (
      Runes-valid_loop fuel (b ∷ c ∷ [])
        (valid_loop-step fuel a (b ∷ c ∷ []) (rune_size_1 a (b ∷ c ∷ []) h) e))
  | inr h ↦ elim (Bool-cases (two a b)) [
    | inl k ↦ rune_2 a b k (
        Runes-valid_loop fuel (c ∷ [])
          (valid_loop-step fuel a (b ∷ c ∷ []) (rune_size_2 a b (c ∷ []) k) e))
    | inr k ↦ elim (Bool-cases (three a b c)) [
      | inl m ↦ rune_3 a b c m end
      | inr m ↦ cc (valid_loop-step fuel a (b ∷ c ∷ []) {o = none} (rw (h, k, m) refl) e)
    ]
  ]
]
Runes-valid_loop (suc fuel) (a ∷ b ∷ c ∷ d ∷ text) e = elim (Bool-cases (ltb a 0x80)) [
  | inl h ↦ rune_1 a h (
      Runes-valid_loop fuel (b ∷ c ∷ d ∷ text)
        (valid_loop-step fuel a (b ∷ c ∷ d ∷ text) (rune_size_1 a (b ∷ c ∷ d ∷ text) h) e))
  | inr h ↦ elim (Bool-cases (two a b)) [
    | inl k ↦ rune_2 a b k (
        Runes-valid_loop fuel (c ∷ d ∷ text)
          (valid_loop-step fuel a (b ∷ c ∷ d ∷ text) (rune_size_2 a b (c ∷ d ∷ text) k) e))
    | inr k ↦ elim (Bool-cases (three a b c)) [
      | inl m ↦ rune_3 a b c m (
          Runes-valid_loop fuel (d ∷ text)
            (valid_loop-step fuel a (b ∷ c ∷ d ∷ text) (rune_size_3 a b c (d ∷ text) m) e))
      | inr m ↦ elim (Bool-cases (four a b c d)) [
        | inl w ↦ rune_4 a b c d w (
            Runes-valid_loop fuel text
              (valid_loop-step fuel a (b ∷ c ∷ d ∷ text) (rune_size_4 a b c d text w) e))
        | inr w ↦ cc (valid_loop-step fuel a (b ∷ c ∷ d ∷ text) {o = none} (rw (h, k, m, w) refl) e)
      ]
    ]
  ]
]

pub valid_loop-Runes :
    {text : Bytes} → Runes text → (fuel : ℕ) → length text < fuel → valid_loop fuel text ≡ true
unfolding valid_loop
valid_loop-Runes r zero lt = absurd (omega arith)
valid_loop-Runes end (suc fuel) lt = refl
valid_loop-Runes (rune_1 a {text} e r) (suc fuel) lt =
    rw (valid_loop, rune_size_1 a text e) (valid_loop-Runes r fuel (omega arith))
valid_loop-Runes (rune_2 a b {text} e r) (suc fuel) lt =
    rw (valid_loop, rune_size_2 a b text e) (valid_loop-Runes r fuel (omega arith))
valid_loop-Runes (rune_3 a b c {text} e r) (suc fuel) lt =
    rw (valid_loop, rune_size_3 a b c text e) (valid_loop-Runes r fuel (omega arith))
valid_loop-Runes (rune_4 a b c d {text} e r) (suc fuel) lt =
    rw (valid_loop, rune_size_4 a b c d text e) (valid_loop-Runes r fuel (omega arith))

-- `utf8.ValidString` accepts exactly the sequences of runes.
pub Runes-valid_string : (text : Bytes) → valid_string text ≡ true → Runes text
unfolding valid_string
Runes-valid_string text e = Runes-valid_loop (suc (length text)) text e

pub valid_string-Runes : {text : Bytes} → Runes text → valid_string text ≡ true
unfolding valid_string
valid_string-Runes {text} r = valid_loop-Runes r (suc (length text)) (omega arith)

pub Runes-append : {s t : Bytes} → Runes s → Runes t → Runes (s ++ t)
Runes-append end r = r
Runes-append (rune_1 a e s) r = rune_1 a e (Runes-append s r)
Runes-append (rune_2 a b e s) r = rune_2 a b e (Runes-append s r)
Runes-append (rune_3 a b c e s) r = rune_3 a b c e (Runes-append s r)
Runes-append (rune_4 a b c d e s) r = rune_4 a b c d e (Runes-append s r)
