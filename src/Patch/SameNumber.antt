-- ===== src/Patch/SameNumber.antt =====
-- Numbers that `numbersEqual` takes for equal have the same value.
use jsonc.Prelude.{
  ℕ, suc, ◌+◌, ◌*◌, ◌-◌, ◌^◌, ◌≤◌, Bool, true, false, ◌&&◌, [], ◌∷◌, ◌++◌, ◌==◌, is_empty, Bytes,
  bytes_eq, bytes_eq_iff, Option, none, some, length, ◌≡◌, ◌⊎◌, inl, inr, refl, sym, ◌∙◌, ap, arith,
  Bool-cases, if◌then◌else◌, add-zero,
}
use native.Mathlib.Nat.{mul_assoc, mul_comm}
use native.Mathlib.Numerals.{unary_clauses}
use jsonc.Pointer.Tokens.{digits_value}
use jsonc.Integers.{ℤ, pos, negsuc, ◌⊖◌, ◌+ℤ◌, int_eq}
use jsonc.Patch.Denotes.{Value, Denotes, value_of, number_parts-Denotes}
use jsonc.Patch.Numbers.{
  Parts, Canonical, zero_text, scaled_text, number_parts, trim_left, trim_right_zeros,
  canonical_parts, canonical_of, canonical_number, canonical_eq, bool_eq, numbers_equal,
}

abbrev significand : Parts → ℕ
significand p = digits_value 0 (p.whole ++ p.fraction)

-- Two values are equal if both significands are 0, or if the signs agree and the significands do once
-- each is scaled by a power of ten, by which the exponents differ.
abbrev pub SameValue : Value → Value → Type 0
SameValue u v =
    ((u.significand ≡ 0) × (v.significand ≡ 0))
    ⊎ ((u.negative ≡ v.negative)
        × ((m : ℕ) × (n : ℕ) × (u.significand * 10 ^ m ≡ v.significand * 10 ^ n)
            × (u.exponent +ℤ (n ⊖ u.places) ≡ v.exponent +ℤ (m ⊖ v.places))))

digits_value-trim_left : (ds : Bytes) → digits_value 0 (trim_left ds) ≡ digits_value 0 ds
unfolding digits_value trim_left
digits_value-trim_left [] = refl
digits_value-trim_left (c ∷ cs) = elim (Bool-cases (c == b'0')) [
  | inl e ↦ let q : c ≡ b'0' = ground arith in rw q (digits_value-trim_left cs)
  | inr e ↦ rw e refl
]

length-trim_right_zeros : (ds : Bytes) → length (trim_right_zeros ds) ≤ length ds
unfolding trim_right_zeros
length-trim_right_zeros [] = omega arith
length-trim_right_zeros (c ∷ cs) = elim (Bool-cases (is_empty (trim_right_zeros cs) && c == b'0')) [
  | inl e ↦ rw e (omega arith)
  | inr e ↦ rw e (omega (arith, length-trim_right_zeros cs))
]

is_empty-nil : (ds : Bytes) → is_empty ds ≡ true → ds ≡ []
is_empty-nil [] e = refl
is_empty-nil (c ∷ cs) e = cc

-- Each zero that is trimmed stands for a factor of ten.
digits_value-trim_right_zeros :
    (n : ℕ) (ds : Bytes)
    → digits_value n ds
      ≡ digits_value n (trim_right_zeros ds) * 10 ^ (length ds - length (trim_right_zeros ds))
unfolding digits_value trim_right_zeros
digits_value-trim_right_zeros n [] = omega arith
digits_value-trim_right_zeros n (c ∷ cs) =
    elim (Bool-cases (is_empty (trim_right_zeros cs) && c == b'0')) [
      | inl e ↦
          let t : trim_right_zeros cs ≡ [] = is_empty-nil (trim_right_zeros cs) (ground arith) in
          let q : c ≡ b'0' = ground arith in
          let m = n * 10 + (c - b'0') in
          let h : digits_value m cs ≡ m * 10 ^ (length cs - 0) =
            rw t at (digits_value-trim_right_zeros m cs) in
          let l : length cs ≡ length cs - 0 = omega arith in
          let k : suc (length cs) ≡ suc (length cs) - 0 = omega arith in
          let x : (n * 10 + (c - b'0')) * 10 ^ length cs ≡ n * 10 ^ suc (length cs) = rw q (
            rw (add-zero (n * 10)) (
              mul_assoc n 10 (10 ^ length cs)
              ∙ ap (λ k. n * k) (simp unary_clauses (mul_comm 10 (10 ^ length cs))))) in
          rw e (h ∙ ap (λ l. m * 10 ^ l) (sym l) ∙ x ∙ ap (λ k. n * 10 ^ k) k)
      | inr e ↦
          let m = n * 10 + (c - b'0') in
          let t = trim_right_zeros cs in
          let k : length cs - length t ≡ suc (length cs) - suc (length t) = omega arith in
          rw e (digits_value-trim_right_zeros m cs ∙ ap (λ l. digits_value m t * 10 ^ l) k)
    ]

-- the branch that gave an outcome
branches :
    (b c : Bool) {x y v : Canonical}
    → (if b then some x else if c then some y else none) ≡ some v
    → ((b ≡ true) × (x ≡ v)) ⊎ ((b ≡ false) × (y ≡ v))
branches true c e = inl (refl, cc)
branches false true e = inr (refl, cc)
branches false false e = cc

-- The canonical form is 0 only of the significand 0.
canonical_parts-zero : (p : Parts) → canonical_parts p ≡ some zero_text → significand p ≡ 0
unfolding canonical_parts
canonical_parts-zero p e = elim (branches (is_empty (trim_left (p.whole ++ p.fraction))) _ e) [
  | inl (x, _) ↦
      let q = is_empty-nil (trim_left (p.whole ++ p.fraction)) x in
      sym (digits_value-trim_left (p.whole ++ p.fraction)) ∙ rw q (unfold digits_value in refl)
  | inr (_, x) ↦ absurd cc
]

-- The canonical form has the sign, and its digits and its exponent have the value.
canonical_parts-scaled :
    (p : Parts) (s : Bool) (ds : Bytes) (x : ℤ)
    → canonical_parts p ≡ some (scaled_text s ds x)
    → (p.negative ≡ s)
      × ((z : ℕ) × (significand p ≡ digits_value 0 ds * 10 ^ z)
          × (p.exponent +ℤ (z ⊖ length p.fraction) ≡ x))
unfolding canonical_parts
canonical_parts-scaled p s ds x e =
    elim (branches (is_empty (trim_left (p.whole ++ p.fraction))) _ e) [
      | inl (_, h) ↦ absurd cc
      | inr (_, h) ↦
          let digits = trim_left (p.whole ++ p.fraction) in
          let z = length digits - length (trim_right_zeros digits) in
          let t : trim_right_zeros digits ≡ ds = cc in
          let v : significand p ≡ digits_value 0 ds * 10 ^ z =
            sym (digits_value-trim_left (p.whole ++ p.fraction))
            ∙ digits_value-trim_right_zeros 0 digits
            ∙ ap (λ k. digits_value 0 k * 10 ^ z) t in
          (cc, (z, v, cc))
    ]

int_eq_sound : (x y : ℤ) → int_eq x y ≡ true → x ≡ y
int_eq_sound (pos m) (pos n) e = let q : m ≡ n = ground arith in ap pos q
int_eq_sound (negsuc m) (negsuc n) e = let q : m ≡ n = ground arith in ap negsuc q
int_eq_sound (pos m) (negsuc n) e = cc
int_eq_sound (negsuc m) (pos n) e = cc

bool_eq_sound : (s t : Bool) → bool_eq s t ≡ true → s ≡ t
bool_eq_sound true t e = sym e
bool_eq_sound false true e = cc
bool_eq_sound false false e = refl

powers_swap : (a b d m n : ℕ) → a ≡ d * 10 ^ m → b ≡ d * 10 ^ n → a * 10 ^ n ≡ b * 10 ^ m
powers_swap a b d m n p q =
    rw (p, q)
      (mul_assoc d (10 ^ m) (10 ^ n)
        ∙ ap (λ k. d * k) (mul_comm (10 ^ m) (10 ^ n))
        ∙ sym (mul_assoc d (10 ^ n) (10 ^ m)))

canonical_eq-SameValue :
    (p q : Parts) (c d : Canonical)
    → canonical_parts p ≡ some c
    → canonical_parts q ≡ some d
    → canonical_eq (some c) (some d) ≡ true
    → SameValue (value_of p) (value_of q)
unfolding canonical_eq
canonical_eq-SameValue p q zero_text zero_text e f h =
    inl (canonical_parts-zero p e, canonical_parts-zero q f)
canonical_eq-SameValue p q zero_text (scaled_text t es y) e f h = cc
canonical_eq-SameValue p q (scaled_text s ds x) zero_text e f h = cc
canonical_eq-SameValue p q (scaled_text s ds x) (scaled_text t es y) e f h =
    let (b, (m, v, k)) = canonical_parts-scaled p s ds x e in
    let (b', (n, v', k')) = canonical_parts-scaled q t es y f in
    let l : s ≡ t = bool_eq_sound s t (ground arith) in
    let u : ds ≡ es = (bytes_eq_iff ds es).0 (ground arith) in
    let w : x ≡ y = int_eq_sound x y (ground arith) in
    let v'' : significand q ≡ digits_value 0 ds * 10 ^ n = rw u v' in
    inr (
      b ∙ l ∙ sym b',
      (
        n,
        m,
        powers_swap (significand p) (significand q) (digits_value 0 ds) m n v v'',
        k ∙ w ∙ sym k',
      ),
    )

-- The two texts are numbers, and their values are equal.
abbrev pub SameNumber : Bytes → Bytes → Type 0
SameNumber a b = (u : Value) × (v : Value) × Denotes a u × Denotes b v × SameValue u v

canonical_eq-some :
    (o u : Option Canonical)
    → canonical_eq o u ≡ true
    → (c : Canonical) × (d : Canonical) × (o ≡ some c) × (u ≡ some d)
unfolding canonical_eq
canonical_eq-some none none e = absurd cc
canonical_eq-some none (some d) e = absurd cc
canonical_eq-some (some zero_text) none e = absurd cc
canonical_eq-some (some (scaled_text s ds x)) none e = absurd cc
canonical_eq-some (some c) (some d) e = (c, d, refl, refl)

number_parts-SameNumber :
    (a b : Bytes) (o u : Option Parts) (c d : Canonical)
    → number_parts a ≡ o
    → number_parts b ≡ u
    → canonical_of o ≡ some c
    → canonical_of u ≡ some d
    → canonical_eq (some c) (some d) ≡ true
    → SameNumber a b
number_parts-SameNumber a b none u c d x y p q e = absurd cc
number_parts-SameNumber a b (some v) none c d x y p q e = absurd cc
number_parts-SameNumber a b (some v) (some w) c d x y p q e = (
  value_of v,
  value_of w,
  number_parts-Denotes a v x,
  number_parts-Denotes b w y,
  canonical_eq-SameValue v w c d p q e,
)

-- Two texts that are taken for equal numbers are the same text, or are numbers with equal values. Zeros
-- may lead a number, and the digits behind its point may be missing.
pub numbers_equal-SameNumber : (a b : Bytes) → numbers_equal a b ≡ true → (a ≡ b) ⊎ SameNumber a b
unfolding numbers_equal canonical_number
numbers_equal-SameNumber a b e = elim (Bool-cases (bytes_eq a b)) [
  | inl x ↦ inl ((bytes_eq_iff a b).0 x)
  | inr x ↦
      let o = canonical_of (number_parts a) in
      let u = canonical_of (number_parts b) in
      let h : canonical_eq o u ≡ true = rw x at e in
      let (c, d, p, q) = canonical_eq-some o u h in
      inr (
        number_parts-SameNumber a b (number_parts a) (number_parts b) c d refl refl p q
          (rw (p, q) at h))
]
