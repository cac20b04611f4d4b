-- ===== src/Patch/Denotes.antt =====
-- The values of the texts that `canonicalNumber` takes apart.
use jsonc.Prelude.{
  ℕ, ◌+◌, ◌-◌, ◌*◌, ◌<◌, Bool, true, false, not, ◌&&◌, ◌||◌, [], ◌∷◌, ◌++◌, ◌==◌, is_empty, within,
  if◌then◌else◌, Bytes, Option, none, some, length, ◌≡◌, ◌≢◌, ◌⊎◌, inl, inr, refl, sym, ◌∙◌, ap,
  subst, arith, Bool-cases, append-nil, append_assoc,
}
use jsonc.Text.{to_lower, cut}
use jsonc.Pointer.Tokens.{digits_value, all_digits}
use jsonc.Integers.{ℤ, pos, ◌⊖◌, atoi, atoi_digits, fits_int}
use jsonc.Patch.Numbers.{Parts, or_empty, exponent_of, with_exponent, unsigned_parts, number_parts}

-- decimal digits behind others that denote the first number, and what all of them denote
pub data Numeral : ℕ → Bytes → ℕ → Type 0 where
  numeral_end : {n : ℕ} → Numeral n [] n
  numeral_digit :
      {n m : ℕ} {ds : Bytes} (d : ℕ)
      → d < 10
      → Numeral (n * 10 + d) ds m
      → Numeral n ((b'0' + d) ∷ ds) m

-- digits with a sign or none
pub data SignedNumeral : Bytes → ℤ → Type 0 where
  unsigned : {n : ℕ} {ds : Bytes} → ds ≢ [] → Numeral 0 ds n → SignedNumeral ds (pos n)
  plus : {n : ℕ} {ds : Bytes} → ds ≢ [] → Numeral 0 ds n → SignedNumeral (b'+' ∷ ds) (pos n)
  minus : {n : ℕ} {ds : Bytes} → ds ≢ [] → Numeral 0 ds n → SignedNumeral (b'-' ∷ ds) (0 ⊖ n)

pub data Sign : Bytes → Bool → Type 0 where
  no_sign : Sign [] false
  minus_sign : Sign (b'-' ∷ []) true

-- a point and the digits behind it, or nothing
pub data Fraction : Bytes → Bytes → Type 0 where
  no_point : Fraction [] []
  point : (ds : Bytes) → Fraction (b'.' ∷ ds) ds

pub data Exponent : Bytes → ℤ → Type 0 where
  no_exponent : Exponent [] (pos 0)
  lower_exponent : {s : Bytes} {x : ℤ} → SignedNumeral s x → Exponent (b'e' ∷ s) x
  upper_exponent : {s : Bytes} {x : ℤ} → SignedNumeral s x → Exponent (b'E' ∷ s) x

-- A value is the significand times ten to the exponent less the places.
pub record Value : Type 0 where
  pub negative : Bool
  pub significand : ℕ
  pub places : ℕ
  pub exponent : ℤ

-- The text is a number with the value. Zeros may lead, and the digits behind the point may be missing.
pub data Denotes : Bytes → Value → Type 0 where
  denotes :
      {negative : Bool} {n : ℕ} {x : ℤ} (sign whole behind digits power : Bytes)
      → Sign sign negative
      → whole ≢ []
      → Fraction behind digits
      → Numeral 0 (whole ++ digits) n
      → Exponent power x
      → Denotes
          (sign ++ whole ++ behind ++ power)
          (record { negative = negative; significand = n; places = length digits; exponent = x })

all_digits-Numeral : (n : ℕ) (ds : Bytes) → all_digits ds ≡ true → Numeral n ds (digits_value n ds)
unfolding all_digits digits_value
all_digits-Numeral n [] e = numeral_end
all_digits-Numeral n (c ∷ cs) e =
    let d = c - b'0' in
    let q : b'0' + d ≡ c = ground arith in
    let h : all_digits cs ≡ true = ground arith in
    subst (λ x. Numeral n (x ∷ cs) (digits_value (n * 10 + d) cs)) q
      (numeral_digit d (ground arith) (all_digits-Numeral (n * 10 + d) cs h))

-- no byte is a small letter
abbrev small : ℕ → Bool
small c = within b'a' b'z' c

unfoldable unlettered : Bytes → Bool
unlettered [] = true
unlettered (c ∷ cs) = not (small c) && unlettered cs

unlettered-digits : (ds : Bytes) → all_digits ds ≡ true → unlettered ds ≡ true
unfolding all_digits unlettered
unlettered-digits [] e = refl
unlettered-digits (c ∷ cs) e =
    let h : unlettered cs ≡ true = unlettered-digits cs (ground arith) in ground arith

-- A text that is no letters in lower case is that text.
to_lower-unlettered : (s x : Bytes) → unlettered x ≡ true → to_lower s ≡ x → s ≡ x
unfolding to_lower unlettered
to_lower-unlettered [] x u e = e
to_lower-unlettered (c ∷ cs) [] u e = absurd cc
to_lower-unlettered (c ∷ cs) (d ∷ ds) u e =
    let r : to_lower cs ≡ ds = cc in
    let h : cs ≡ ds = to_lower-unlettered cs ds (ground arith) r in
    let l : (if within b'A' b'Z' c then c + 32 else c) ≡ d = cc in
    let k : not (small d) ≡ true = ground arith in
    let q : c ≡ d = (elim (Bool-cases (within b'A' b'Z' c)) [
      | inl b ↦ let y : c + 32 ≡ d = rw b at l in absurd (ground arith)
      | inr b ↦ rw b at l
    ]) in
    rw (q, h) refl

-- A text that has an `e` in lower case has one or an `E`.
record Parted (s x y : Bytes) : Type 0 where
  before : Bytes
  mark : ℕ
  after : Bytes
  joined : s ≡ before ++ mark ∷ after
  is_e : (mark ≡ b'e') ⊎ (mark ≡ b'E')
  low_before : to_lower before ≡ x
  low_after : to_lower after ≡ y

to_lower-Parted : (s x y : Bytes) → to_lower s ≡ x ++ b'e' ∷ y → Parted s x y
unfolding to_lower
to_lower-Parted [] [] y e = absurd cc
to_lower-Parted [] (d ∷ x) y e = absurd cc
to_lower-Parted (c ∷ cs) [] y e =
    let l : (if within b'A' b'Z' c then c + 32 else c) ≡ b'e' = cc in
    record {
      before = [];
      mark = c;
      after = cs;
      joined = refl;
      is_e = elim (Bool-cases (within b'A' b'Z' c)) [
        | inl b ↦ let z : c + 32 ≡ b'e' = rw b at l in inr (omega arith)
        | inr b ↦ inl (rw b at l)
      ];
      low_before = refl;
      low_after = cc;
    }
to_lower-Parted (c ∷ cs) (d ∷ x) y e =
    let r : to_lower cs ≡ x ++ b'e' ∷ y = cc in
    let p = to_lower-Parted cs x y r in
    let l : (if within b'A' b'Z' c then c + 32 else c) ≡ d = cc in
    record {
      before = c ∷ p.before;
      mark = p.mark;
      after = p.after;
      joined = ap (λ z. c ∷ z) p.joined;
      is_e = p.is_e;
      low_before = rw (l, p.low_before) refl;
      low_after = p.low_after;
    }

abbrev rejoin : ℕ → Bytes → Option Bytes → Bytes
rejoin b x none = x
rejoin b x (some y) = x ++ b ∷ y

rejoin-cons : (b c : ℕ) (x : Bytes) (o : Option Bytes) → rejoin b (c ∷ x) o ≡ c ∷ rejoin b x o
rejoin-cons b c x none = refl
rejoin-cons b c x (some y) = refl

rejoin-cut : (b : ℕ) (s : Bytes) → rejoin b (cut b s).0 (cut b s).1 ≡ s
unfolding cut
rejoin-cut b [] = refl
rejoin-cut b (c ∷ cs) = elim (Bool-cases (c == b)) [
  | inl e ↦ let q : c ≡ b = ground arith in rw e (rw q refl)
  | inr e ↦ rw e (rejoin-cons b c (cut b cs).0 (cut b cs).1 ∙ ap (λ z. c ∷ z) (rejoin-cut b cs))
]

-- digits with a point among them, perhaps
unlettered-rejoin :
    (x : Bytes) (o : Option Bytes)
    → all_digits (x ++ or_empty o) ≡ true
    → unlettered (rejoin b'.' x o) ≡ true
unfolding all_digits unlettered
unlettered-rejoin [] none e = refl
unlettered-rejoin [] (some y) e = unlettered-digits y e
unlettered-rejoin (c ∷ x) o e =
    let h : unlettered (rejoin b'.' x o) ≡ true = unlettered-rejoin x o (ground arith) in
    rw (rejoin-cons b'.' c x o) (ground arith)

rejoin-Fraction :
    (x : Bytes) (o : Option Bytes)
    → (behind : Bytes) × (rejoin b'.' x o ≡ x ++ behind) × Fraction behind (or_empty o)
rejoin-Fraction x none = ([], sym (append-nil x), no_point)
rejoin-Fraction x (some y) = (b'.' ∷ y, refl, point y)

all_digits-ne :
    (ds : Bytes) → (is_empty ds || not (all_digits ds)) ≡ false → (ds ≢ []) × (all_digits ds ≡ true)
all_digits-ne [] e = absurd cc
all_digits-ne (c ∷ cs) e = (λ q. cc, ground arith)

atoi_digits-value :
    (negative : Bool) (ds : Bytes) (x : ℤ)
    → atoi_digits negative ds ≡ some x
    → (ds ≢ [])
      × (all_digits ds ≡ true)
      × (x ≡ (if negative then 0 ⊖ digits_value 0 ds else pos (digits_value 0 ds)))
unfolding atoi_digits
atoi_digits-value negative ds x e = elim (Bool-cases (is_empty ds || not (all_digits ds))) [
  | inl b ↦ absurd (let k : ◌≡◌ {A = Option ℤ} none (some x) = rw b at e in cc)
  | inr b ↦
      let v = if negative then 0 ⊖ digits_value 0 ds else pos (digits_value 0 ds) in
      let (n, a) = all_digits-ne ds b in
      elim (Bool-cases (fits_int v)) [
        | inl f ↦ let k : ◌≡◌ {A = Option ℤ} (some v) (some x) = rw (b, f) at e in (n, a, cc)
        | inr f ↦ absurd (let k : ◌≡◌ {A = Option ℤ} none (some x) = rw (b, f) at e in cc)
      ]
]

-- What `atoi` reads is digits with a sign or none.
abbrev Read : Bytes → ℤ → Type 0
Read s x = SignedNumeral s x × (unlettered s ≡ true)

atoi-Read : (s : Bytes) (x : ℤ) → atoi s ≡ some x → Read s x
unfolding atoi unlettered
atoi-Read [] x e = absurd cc
atoi-Read (c ∷ cs) x e = elim (Bool-cases (c == b'-')) [
  | inl b ↦
      let q : c ≡ b'-' = ground arith in
      let (n, a, v) = atoi_digits-value true cs x (rw b at e) in
      rw (q, v) (minus n (all_digits-Numeral 0 cs a), unlettered-digits cs a)
  | inr b ↦ elim (Bool-cases (c == b'+')) [
    | inl d ↦
        let q : c ≡ b'+' = ground arith in
        let (n, a, v) = atoi_digits-value false cs x (rw (b, d) at e) in
        rw (q, v) (plus n (all_digits-Numeral 0 cs a), unlettered-digits cs a)
    | inr d ↦
        let (n, a, v) = atoi_digits-value false (c ∷ cs) x (rw (b, d) at e) in
        rw v (unsigned n (all_digits-Numeral 0 (c ∷ cs) a), unlettered-digits (c ∷ cs) a)
  ]
]

power_of-mark :
    (c : ℕ) (s : Bytes) (x : ℤ) → (c ≡ b'e') ⊎ (c ≡ b'E') → SignedNumeral s x → Exponent (c ∷ s) x
power_of-mark c s x (inl q) n = rw q (lower_exponent n)
power_of-mark c s x (inr q) n = rw q (upper_exponent n)

exponent_of-Power :
    (s m : Bytes) (o : Option Bytes) (x : ℤ)
    → unlettered m ≡ true
    → to_lower s ≡ rejoin b'e' m o
    → exponent_of o ≡ some x
    → (power : Bytes) × (s ≡ m ++ power) × Exponent power x
unfolding exponent_of
exponent_of-Power s m none x u t e =
    let q : pos 0 ≡ x = cc in
    ([], to_lower-unlettered s m u t ∙ sym (append-nil m), rw (sym q) no_exponent)
exponent_of-Power s m (some y) x u t e =
    let p = to_lower-Parted s m y t in
    let (n, k) = atoi-Read y x e in
    let a : p.after ≡ y = to_lower-unlettered p.after y k p.low_after in
    let b : p.before ≡ m = to_lower-unlettered p.before m u p.low_before in
    (
      p.mark ∷ y,
      p.joined ∙ ap (λ z. z ++ p.mark ∷ p.after) b ∙ ap (λ z. m ++ p.mark ∷ z) a,
      power_of-mark p.mark y x p.is_e n,
    )

-- the value of the parts
abbrev pub value_of : Parts → Value
value_of p = record {
  negative = p.negative;
  significand = digits_value 0 (p.whole ++ p.fraction);
  places = length p.fraction;
  exponent = p.exponent;
}

with_exponent-some :
    (negative : Bool) (whole fraction : Bytes) (o : Option ℤ) (p : Parts)
    → with_exponent negative whole fraction o ≡ some p
    → (x : ℤ) × (o ≡ some x)
      × (p ≡ record { negative = negative; whole = whole; fraction = fraction; exponent = x })
with_exponent-some negative whole fraction none p e = absurd cc
with_exponent-some negative whole fraction (some x) p e = (x, refl, cc)

nonempty :
    (x s : Bytes) → (is_empty x || not (all_digits s)) ≡ false → (x ≢ []) × (all_digits s ≡ true)
nonempty [] s e = absurd cc
nonempty (c ∷ x) s e = (λ q. cc, ground arith)

regroup : (a b c d : Bytes) → a ++ b ++ c ++ d ≡ a ++ (b ++ c ++ d)
regroup a b c d = simp append_assoc refl

-- A sign and the parts of the text behind it.
unsigned_parts-Denotes :
    (negative : Bool) (s : Bytes) (p : Parts)
    → unsigned_parts negative s ≡ some p
    → (sign : Bytes) → Sign sign negative
    → Denotes (sign ++ s) (value_of p)
unfolding unsigned_parts
unsigned_parts-Denotes negative s p e sign k =
    let m = cut b'e' (to_lower s) in
    let w = cut b'.' m.0 in
    let f = or_empty w.1 in
    elim (Bool-cases (is_empty w.0 || not (all_digits (w.0 ++ f)))) [
      | inl b ↦ absurd (let z : ◌≡◌ {A = Option Parts} none (some p) = rw b at e in cc)
      | inr b ↦
          let (n, a) = nonempty w.0 (w.0 ++ f) b in
          let (x, h, q) = with_exponent-some negative w.0 f (exponent_of m.1) p (rw b at e) in
          let j : rejoin b'.' w.0 w.1 ≡ m.0 = rejoin-cut b'.' m.0 in
          let u : unlettered m.0 ≡ true =
            subst (λ z. unlettered z ≡ true) j (unlettered-rejoin w.0 w.1 a) in
          let (behind, r, fr) = rejoin-Fraction w.0 w.1 in
          let (power, t, ex) =
            exponent_of-Power s m.0 m.1 x u (sym (rejoin-cut b'e' (to_lower s))) h in
          let y : s ≡ w.0 ++ behind ++ power = t ∙ ap (λ z. z ++ power) (sym j ∙ r) in
          let g : Parts = record { negative = negative; whole = w.0; fraction = f; exponent = x } in
          let d : Denotes (sign ++ w.0 ++ behind ++ power) (value_of g) =
            denotes sign w.0 behind f power k n fr (all_digits-Numeral 0 (w.0 ++ f) a) ex in
          let z : sign ++ w.0 ++ behind ++ power ≡ sign ++ s =
            regroup sign w.0 behind power ∙ ap (λ v. sign ++ v) (sym y) in
          subst (λ v. Denotes (sign ++ s) (value_of v)) (sym q)
            (subst (λ v. Denotes v (value_of g)) z d)
    ]

-- What `canonicalNumber` takes apart is a number, with the value of the parts.
pub number_parts-Denotes :
    (s : Bytes) (p : Parts) → number_parts s ≡ some p → Denotes s (value_of p)
unfolding number_parts
number_parts-Denotes [] p e = unsigned_parts-Denotes false [] p e [] no_sign
number_parts-Denotes (c ∷ cs) p e = elim (Bool-cases (c == b'-')) [
  | inl b ↦
      let q : c ≡ b'-' = ground arith in
      rw q (unsigned_parts-Denotes true cs p (rw b at e) (b'-' ∷ []) minus_sign)
  | inr b ↦ unsigned_parts-Denotes false (c ∷ cs) p (rw b at e) [] no_sign
]
