-- ===== src/Text.antt =====
-- What the program uses of the package `strings` of the standard library.
use jsonc.Prelude.{
  ℕ, zero, suc, ◌+◌, ◌-◌, Bool, true, false, ◌&&◌, ◌||◌, [], ◌∷◌, ◌==◌, within, if◌then◌else◌,
  Bytes, Option, none, some,
}

-- `strings.ToLower`, which outside of ASCII gives neither an `e` nor a `.` nor a digit nor a sign
unfoldable pub to_lower : Bytes → Bytes
to_lower [] = []
to_lower (c ∷ cs) = (if within b'A' b'Z' c then c + 32 else c) ∷ to_lower cs

-- `strings.Cut` at a byte: what stands before it, and what stands behind it where there is one
unfoldable pub cut : ℕ → Bytes → Bytes × Option Bytes
cut b [] = ([], none)
cut b (c ∷ cs) = let r = cut b cs in if c == b then ([], some cs) else (c ∷ r.0, r.1)

-- `strings.HasPrefix`
unfoldable pub has_prefix : Bytes → Bytes → Bool
has_prefix text [] = true
has_prefix [] (d ∷ ds) = false
has_prefix (c ∷ cs) (d ∷ ds) = c == d && has_prefix cs ds

unfoldable pub reverse_onto : Bytes → Bytes → Bytes
reverse_onto done [] = done
reverse_onto done (c ∷ cs) = reverse_onto (c ∷ done) cs

-- `unicode.IsSpace` of the runes below U+0080
abbrev space_1 : ℕ → Bool
space_1 a = within 9 13 a || a == b' '

-- of those of two bytes: U+0085 and U+00A0
abbrev space_2 : ℕ → ℕ → Bool
space_2 a b = a == 0xC2 && (b == 0x85 || b == 0xA0)

-- of those of three: U+1680, U+2000 to U+200A, U+2028, U+2029, U+202F, U+205F and U+3000
abbrev space_3 : ℕ → ℕ → ℕ → Bool
space_3 a b c =
    (a == 0xE1 && b == 0x9A && c == 0x80)
    || (a == 0xE2 && b == 0x80 && (within 0x80 0x8A c || c == 0xA8 || c == 0xA9 || c == 0xAF))
    || (a == 0xE2 && b == 0x81 && c == 0x9F)
    || (a == 0xE3 && b == 0x80 && c == 0x80)

-- how many bytes the space at the start of a text has; 0 where there is none
unfoldable pub space_size : Bytes → ℕ
space_size (a ∷ b ∷ c ∷ _) =
    if space_1 a then 1 else if space_2 a b then 2 else if space_3 a b c then 3 else 0
space_size (a ∷ b ∷ []) = if space_1 a then 1 else if space_2 a b then 2 else 0
space_size (a ∷ []) = if space_1 a then 1 else 0
space_size [] = 0

-- the same of a text that is read from its end
unfoldable pub space_size_back : Bytes → ℕ
space_size_back (c ∷ b ∷ a ∷ _) =
    if space_1 c then 1 else if space_2 b c then 2 else if space_3 a b c then 3 else 0
space_size_back (b ∷ a ∷ []) = if space_1 b then 1 else if space_2 a b then 2 else 0
space_size_back (a ∷ []) = if space_1 a then 1 else 0
space_size_back [] = 0

-- the text without the spaces at its start, of which `skip` bytes are yet to be passed over
unfoldable pub trim_from : (Bytes → ℕ) → ℕ → Bytes → Bytes
trim_from size skip [] = []
trim_from size (suc skip) (c ∷ cs) = trim_from size skip cs
trim_from size zero (c ∷ cs) =
    let n = size (c ∷ cs) in let rest = trim_from size (n - 1) cs in if n == 0 then c ∷ cs else rest

-- `strings.TrimSpace`
unfoldable pub trim_space : Bytes → Bytes
unfolding trim_from space_size space_size_back reverse_onto
trim_space s =
    reverse_onto [] (trim_from space_size_back 0 (reverse_onto [] (trim_from space_size 0 s)))
