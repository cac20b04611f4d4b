-- ===== src/Integers.antt =====
-- Go's int, and what the program uses of `strconv.Atoi`.
use jsonc.Prelude.{
  ℕ, zero, suc, ◌+◌, ◌-◌, ◌/◌, ◌%◌, Bool, true, false, not, ◌||◌, [], ◌∷◌, ◌==◌, leb, ltb, is_empty,
  Bytes, Option, none, some, if◌then◌else◌,
}
use jsonc.Pointer.Tokens.{all_digits, digits_value, max_int}

-- `negsuc n` is `- (n + 1)`.
pub data ℤ : Type 0 where
  pos : ℕ → ℤ
  negsuc : ℕ → ℤ

-- the decimal digits of a number before the digits that stand already; a number has at most as many digits as units
unfoldable pub decimal_loop : ℕ → ℕ → Bytes → Bytes
decimal_loop zero n ds = ds
decimal_loop (suc fuel) n ds =
    let here = (b'0' + n % 10) ∷ ds in
    let rest = decimal_loop fuel (n / 10) here in if ltb n 10 then here else rest

-- `strconv.Itoa` of a number that is not negative
unfoldable pub decimal : ℕ → Bytes
unfolding decimal_loop
decimal n = decimal_loop (suc n) n []

-- `m - n`
abbrev pub ◌⊖◌ : ℕ → ℕ → ℤ
m ⊖ n = if leb n m then pos (m - n) else negsuc (n - suc m)

infixl 60 ◌⊖◌
abbrev pub ◌+ℤ◌ : ℤ → ℤ → ℤ
pos m +ℤ pos n = pos (m + n)
pos m +ℤ negsuc n = m ⊖ suc n
negsuc m +ℤ pos n = n ⊖ suc m
negsuc m +ℤ negsuc n = negsuc (suc (m + n))

infixl 60 ◌+ℤ◌
abbrev pub int_eq : ℤ → ℤ → Bool
int_eq (pos m) (pos n) = m == n
int_eq (negsuc m) (negsuc n) = m == n
int_eq (pos m) (negsuc n) = false
int_eq (negsuc m) (pos n) = false

-- The number is one of Go's ints, of 64 bits.
unfoldable pub fits_int : ℤ → Bool
fits_int (pos n) = leb n max_int
fits_int (negsuc n) = leb n max_int

abbrev if_fits : ℤ → Option ℤ
if_fits x = if fits_int x then some x else none

abbrev signed : Bool → ℕ → ℤ
signed negative n = if negative then 0 ⊖ n else pos n

unfoldable pub atoi_digits : Bool → Bytes → Option ℤ
unfolding all_digits digits_value fits_int
atoi_digits negative ds =
    if is_empty ds || not (all_digits ds)
    then none
    else if_fits (signed negative (digits_value 0 ds))

-- `strconv.Atoi`: a sign or none, and digits; an error is `none`
unfoldable pub atoi : Bytes → Option ℤ
unfolding atoi_digits
atoi [] = none
atoi (c ∷ cs) =
    if c == b'-'
    then atoi_digits (true) cs
    else if c == b'+'
    then atoi_digits (false) cs
    else atoi_digits (false) (c ∷ cs)
