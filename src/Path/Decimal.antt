-- ===== src/Path/Decimal.antt =====
-- The decimal digits of a number denote the number.
use jsonc.Prelude.{
  ℕ, zero, suc, ◌+◌, ◌*◌, ◌/◌, ◌%◌, ◌≤◌, ◌<◌, true, [], ◌∷◌, ltb, within, Bytes, ◌≡◌, refl, ◌∙◌, ap,
  inl, inr, arith, Bool-cases,
}
use jsonc.Pointer.Tokens.{all_digits, digits_value}
use jsonc.Integers.{decimal, decimal_loop}

-- digits that begin with one, denote `v` behind `ds`, and end as `ds` ends
pub data Digits (v : ℕ) : Bytes → Type 0 where
  digits :
      (c : ℕ) (cs : Bytes)
      → all_digits (c ∷ cs) ≡ true
      → digits_value 0 (c ∷ cs) ≡ v
      → Digits v (c ∷ cs)

all_digits-cons :
    (d : ℕ) (ds : Bytes) → d < 10 → all_digits ds ≡ true → all_digits ((b'0' + d) ∷ ds) ≡ true
unfolding all_digits
all_digits-cons d ds lt a = let w : within b'0' b'9' (b'0' + d) ≡ true = ground arith in rw w a

digits_value-cons :
    (m d n : ℕ) (ds : Bytes) → m * 10 + d ≡ n → digits_value m ((b'0' + d) ∷ ds) ≡ digits_value n ds
unfolding digits_value
digits_value-cons m d n ds e = ap (λ k. digits_value k ds) (omega (arith, e))

decimal_loop-Digits :
    (fuel n v : ℕ) (ds : Bytes)
    → n < fuel
    → all_digits ds ≡ true
    → digits_value n ds ≡ v
    → Digits v (decimal_loop fuel n ds)
unfolding decimal_loop
decimal_loop-Digits zero n v ds lt a e = absurd (omega arith)
decimal_loop-Digits (suc fuel) n v ds lt a e = elim (Bool-cases (ltb n 10)) [
  | inl h ↦
      let l : n < 10 = ground arith in
      let q : n % 10 ≡ n = omega arith in
      rw (h, q)
        (digits (b'0' + n) ds (all_digits-cons n ds l a)
          (digits_value-cons 0 n n ds (omega arith) ∙ e))
  | inr h ↦
      let l : 10 ≤ n = ground arith in
      let d : n % 10 < 10 = omega arith in
      rw h (
        decimal_loop-Digits fuel (n / 10) v ((b'0' + n % 10) ∷ ds) (omega arith)
          (all_digits-cons (n % 10) ds d a)
          (digits_value-cons (n / 10) (n % 10) n ds (omega arith) ∙ e))
]

pub decimal-Digits : (n : ℕ) → Digits n (decimal n)
unfolding decimal digits_value all_digits
decimal-Digits n = decimal_loop-Digits (suc n) n n [] (omega arith) refl refl
