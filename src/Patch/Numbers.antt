-- ===== src/Patch/Numbers.antt =====
-- patch.go: `canonicalNumber` and `numbersEqual`.
use jsonc.Prelude.{
  ◌-◌, Bool, true, false, not, ◌&&◌, ◌||◌, [], ◌∷◌, ◌++◌, ◌==◌, is_empty, if◌then◌else◌, Bytes,
  bytes_eq, Option, none, some, length,
}
use jsonc.Text.{to_lower, cut}
use jsonc.Pointer.Tokens.{all_digits}
use jsonc.Integers.{ℤ, pos, ◌⊖◌, ◌+ℤ◌, int_eq, fits_int, atoi}

abbrev pub or_empty : Option Bytes → Bytes
or_empty none = []
or_empty (some text) = text

-- the exponent, which is 0 where there is no `e`
unfoldable pub exponent_of : Option Bytes → Option ℤ
unfolding atoi
exponent_of none = some (pos 0)
exponent_of (some text) = atoi text

-- A number's parts: `intPart`, `frac` and `exp`, with the sign.
pub record Parts : Type 0 where
  pub negative : Bool
  pub whole : Bytes
  pub fraction : Bytes
  pub exponent : ℤ

abbrev pub with_exponent : Bool → Bytes → Bytes → Option ℤ → Option Parts
with_exponent negative whole fraction none = none
with_exponent negative whole fraction (some x) =
    some (record { negative = negative; whole = whole; fraction = fraction; exponent = x })

unfoldable pub unsigned_parts : Bool → Bytes → Option Parts
unfolding to_lower cut all_digits exponent_of
unsigned_parts negative s =
    let m = cut b'e' (to_lower s) in
    let p = cut b'.' m.0 in
    if is_empty p.0 || not (all_digits (p.0 ++ or_empty p.1))
    then none
    else with_exponent negative p.0 (or_empty p.1) (exponent_of m.1)

-- the part of `canonicalNumber` that takes the text apart
unfoldable pub number_parts : Bytes → Option Parts
unfolding unsigned_parts
number_parts [] = unsigned_parts false []
number_parts (c ∷ cs) = if c == b'-' then unsigned_parts true cs else unsigned_parts false (c ∷ cs)

-- `strings.TrimLeft(digits, "0")`
unfoldable pub trim_left : Bytes → Bytes
trim_left [] = []
trim_left (c ∷ cs) = let rest = trim_left cs in if c == b'0' then rest else c ∷ cs

-- `strings.TrimRight(digits, "0")`
unfoldable pub trim_right_zeros : Bytes → Bytes
trim_right_zeros [] = []
trim_right_zeros (c ∷ cs) =
    let rest = trim_right_zeros cs in if is_empty rest && c == b'0' then [] else c ∷ rest

-- What `canonicalNumber` returns: "0", or the text of the sign, the digits, an `e` and the exponent.
pub data Canonical : Type 0 where
  zero_text : Canonical
  scaled_text : Bool → Bytes → ℤ → Canonical

-- The rest of `canonicalNumber`. `exp` is an int, and the test on `shift` is that `exp + shift` is one.
unfoldable pub canonical_parts : Parts → Option Canonical
unfolding trim_left trim_right_zeros fits_int
canonical_parts p =
    let digits = trim_left (p.whole ++ p.fraction) in
    let trimmed = trim_right_zeros digits in
    let x = p.exponent +ℤ ((length digits - length trimmed) ⊖ length p.fraction) in
    if is_empty digits
    then some zero_text
    else if fits_int x
    then some (scaled_text p.negative trimmed x)
    else none

abbrev pub canonical_of : Option Parts → Option Canonical
canonical_of none = none
canonical_of (some p) = canonical_parts p

-- `canonicalNumber`
unfoldable pub canonical_number : Bytes → Option Canonical
unfolding number_parts canonical_parts
canonical_number s = canonical_of (number_parts s)

abbrev pub bool_eq : Bool → Bool → Bool
bool_eq true b = b
bool_eq false b = not b

-- `ca == cb`, of two texts of this form
unfoldable pub canonical_eq : Option Canonical → Option Canonical → Bool
unfolding bytes_eq
canonical_eq (some zero_text) (some zero_text) = true
canonical_eq (some (scaled_text s ds x)) (some (scaled_text t es y)) =
    bool_eq s t && bytes_eq ds es && int_eq x y
canonical_eq _ _ = false

-- `numbersEqual`
unfoldable pub numbers_equal : Bytes → Bytes → Bool
unfolding canonical_number canonical_eq bytes_eq
numbers_equal a b =
    if bytes_eq a b then true else canonical_eq (canonical_number a) (canonical_number b)
