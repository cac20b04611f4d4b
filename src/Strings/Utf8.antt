-- ===== src/Strings/Utf8.antt =====
-- What strings.go, node.go and encode.go use of Go's packages unicode/utf8 and unicode/utf16.
use jsonc.Prelude.{
  ℕ, zero, suc, ◌+◌, ◌-◌, ◌*◌, ◌/◌, ◌%◌, Bool, true, false, ◌&&◌, ◌||◌, [], ◌∷◌, ◌==◌, ltb, within,
  if◌then◌else◌, Bytes, Option, none, some, length, drop,
}

-- `utf8.RuneError`, U+FFFD
abbrev pub rune_error : ℕ
rune_error = 0xFFFD

abbrev pub continues : ℕ → Bool
continues = within 0x80 0xBF

-- the bytes that may follow the lead byte of a three-byte and of a four-byte form
unfoldable pub second_of_3 : ℕ → ℕ → Bool
second_of_3 lead c =
    if lead == 0xE0
    then within 0xA0 0xBF c
    else if lead == 0xED
    then within 0x80 0x9F c
    else continues c

unfoldable pub second_of_4 : ℕ → ℕ → Bool
second_of_4 lead c =
    if lead == 0xF0
    then within 0x90 0xBF c
    else if lead == 0xF4
    then within 0x80 0x8F c
    else continues c

-- `utf8.DecodeRuneInString` as to its size: the length of the rune at the front of a text, or `none`
-- where it is not valid UTF-8, for which Go gives (RuneError, 1).
unfoldable pub rune_size : Bytes → Option ℕ
unfolding second_of_3 second_of_4
rune_size [] = none
rune_size (a ∷ []) = if ltb a 0x80 then some 1 else none
rune_size (a ∷ b ∷ []) =
    if ltb a 0x80 then some 1 else if within 0xC2 0xDF a && continues b then some 2 else none
rune_size (a ∷ b ∷ c ∷ []) =
    if ltb a 0x80
    then some 1
    else if within 0xC2 0xDF a && continues b
    then some 2
    else if within 0xE0 0xEF a && second_of_3 a b && continues c
    then some 3
    else none
rune_size (a ∷ b ∷ c ∷ d ∷ _) =
    if ltb a 0x80
    then some 1
    else if within 0xC2 0xDF a && continues b
    then some 2
    else if within 0xE0 0xEF a && second_of_3 a b && continues c
    then some 3
    else if within 0xF0 0xF4 a && second_of_4 a b && continues c && continues d
    then some 4
    else none

-- The loop of `utf8.ValidString`: each round takes a rune, so fuel above the length is enough.
unfoldable pub valid_loop : ℕ → Bytes → Bool
unfolding rune_size
valid_loop zero text = false
valid_loop (suc fuel) [] = true
valid_loop (suc fuel) (c ∷ cs) = elim (rune_size (c ∷ cs)) [
  | none ↦ false
  | some n ↦ valid_loop fuel (drop n (c ∷ cs))
]

-- `utf8.ValidString`
unfoldable pub valid_string : Bytes → Bool
unfolding valid_loop
valid_string text = valid_loop (suc (length text)) text

unfoldable pub is_surrogate : ℕ → Bool
is_surrogate r = within 0xD800 0xDFFF r

abbrev three_bytes : ℕ → Bytes
three_bytes r = (0xE0 + r / 4096) ∷ (0x80 + r / 64 % 64) ∷ (0x80 + r % 64) ∷ []

-- `utf8.AppendRune(nil, r)`; a surrogate and what is above U+10FFFF is written as U+FFFD
unfoldable pub encode_rune : ℕ → Bytes
unfolding is_surrogate
encode_rune r =
    if ltb r 0x80
    then r ∷ []
    else if ltb r 0x800
    then (0xC0 + r / 64) ∷ (0x80 + r % 64) ∷ []
    else if is_surrogate r || ltb 0x10FFFF r
    then three_bytes rune_error
    else if ltb r 0x10000
    then three_bytes r
    else (0xF0 + r / 262144) ∷ (0x80 + r / 4096 % 64) ∷ (0x80 + r / 64 % 64) ∷ (0x80 + r % 64) ∷ []

-- `utf16.DecodeRune`
unfoldable pub decode_pair : ℕ → ℕ → ℕ
decode_pair r1 r2 =
    if within 0xD800 0xDBFF r1 && within 0xDC00 0xDFFF r2
    then (r1 - 0xD800) * 1024 + (r2 - 0xDC00) + 0x10000
    else rune_error
