-- ===== src/Strings/Total.antt =====
-- `unquoteString` ends within its fuel, on every input.
use jsonc.Prelude.{
  ℕ, zero, suc, ◌≤◌, ◌<◌, not, ◌&&◌, [], ◌∷◌, ◌++◌, ◌==◌, leb, within, ◌≡◌, ◌≢◌, refl, inl, inr,
  Bytes, Option, none, some, ok, out_of_fuel, Ensures, holds, fails, Ensures-if, Ensures-bind,
  Ensures-out_of_fuel, length, drop, arith, Bool-cases,
}
use jsonc.Strings.Utf8.{rune_size, valid_string, is_surrogate, decode_pair, rune_error}
use jsonc.Strings.Unquote.{
  Unquoted, unquote_string, unquote_between, take_rune, pair, append_pair, unquote_body,
  unquote_loop, unquote_step, unquote_escape, unquote_rune, decode_escape, decode_unicode_escape,
  decode_rune, low_surrogate, parse_hex4, hex_value, body, contains_byte,
}

pub rune_size_pos : (text : Bytes) (n : ℕ) → rune_size text ≡ some n → 0 < n
unfolding rune_size
rune_size_pos [] n e = cc
rune_size_pos (a ∷ []) n e = ground arith
rune_size_pos (a ∷ b ∷ []) n e = ground arith
rune_size_pos (a ∷ b ∷ c ∷ []) n e = ground arith
rune_size_pos (a ∷ b ∷ c ∷ d ∷ _) n e = ground arith

length-drop_le : (n : ℕ) (cs : Bytes) → length (drop n cs) ≤ length cs
length-drop_le zero cs = omega arith
length-drop_le (suc n) [] = omega arith
length-drop_le (suc n) (c ∷ cs) = omega (arith, length-drop_le n cs)

-- What a part of the loop leaves to read is no longer than `text`.
abbrev Leaves : Bytes → Unquoted (Bytes × Bytes) → Type 0
Leaves text = Ensures (λ r. length r.1 ≤ length text) (λ _. Unit {0})

abbrev Ends : {A : Type 0} → Unquoted A → Type 0
Ends = Ensures (λ _. Unit {0}) (λ _. Unit {0})

take_rune-le :
    (o : Option ℕ) (c : ℕ) (cs : Bytes)
    → ((n : ℕ) → o ≡ some n → 0 < n)
    → length (take_rune o (c ∷ cs)).1 ≤ length cs
unfolding take_rune
take_rune-le none c cs h = omega arith
take_rune-le (some zero) c cs h = absurd (omega (arith, h 0 refl))
take_rune-le (some (suc n)) c cs h = length-drop_le n cs

unquote_rune-le : (c : ℕ) (cs : Bytes) → length (unquote_rune (c ∷ cs)).1 ≤ length cs
unfolding unquote_rune
unquote_rune-le c cs = take_rune-le (rune_size (c ∷ cs)) c cs (rune_size_pos (c ∷ cs))

hex_value-Ends : (c : ℕ) → Ends (hex_value c)
unfolding hex_value
hex_value-Ends c =
    Ensures-if (within b'0' b'9' c) (λ _. holds tt)
      λ _.
        Ensures-if (within b'a' b'f' c) (λ _. holds tt)
          λ _. Ensures-if (within b'A' b'F' c) (λ _. holds tt) λ _. fails tt

parse_hex4-Ends : (a b c d : ℕ) → Ends (parse_hex4 a b c d)
unfolding parse_hex4
parse_hex4-Ends a b c d = Ensures-bind (hex_value-Ends a) λ w _.
    Ensures-bind (hex_value-Ends b)
      λ x _. Ensures-bind (hex_value-Ends c) λ y _. Ensures-bind (hex_value-Ends d) λ z _. holds tt

-- A pair found leaves no more than the text behind the first half.
abbrev PairLeaves : Bytes → Option (ℕ × Bytes) → Type 0
PairLeaves text none = Unit {0}
PairLeaves text (some (r, rest)) = length rest ≤ length text

pair-le :
    (r1 : ℕ) (m : Unquoted ℕ) (text rest : Bytes)
    → length rest ≤ length text
    → PairLeaves text (pair r1 m rest)
unfolding pair
pair-le r1 (ok r2) text rest h = elim (Bool-cases (decode_pair r1 r2 == rune_error)) [
  | inl e ↦ rw e tt
  | inr e ↦ rw e h
]
pair-le r1 _ text rest h = tt

low_surrogate-le : (r1 : ℕ) (text : Bytes) → PairLeaves text (low_surrogate r1 text)
unfolding low_surrogate
low_surrogate-le r1 (s ∷ u ∷ a ∷ b ∷ c ∷ d ∷ ds) = elim (Bool-cases (s == b'\\' && u == b'u')) [
  | inl e ↦ rw e (pair-le r1 (parse_hex4 a b c d) (s ∷ u ∷ a ∷ b ∷ c ∷ d ∷ ds) ds (omega arith))
  | inr e ↦ rw e tt
]
low_surrogate-le r1 _ = tt

append_pair-le :
    (o : Option (ℕ × Bytes)) (text : Bytes)
    → PairLeaves text o
    → length (append_pair o text).1 ≤ length text
unfolding append_pair
append_pair-le none text h = omega arith
append_pair-le (some (r, rest)) text h = h

decode_rune-le : (r1 : ℕ) (text : Bytes) → length (decode_rune r1 text).1 ≤ length text
unfolding decode_rune
decode_rune-le r1 text = elim (Bool-cases (is_surrogate r1)) [
  | inl s ↦ rw s (append_pair-le (low_surrogate r1 text) text (low_surrogate-le r1 text))
  | inr s ↦ rw s (omega arith)
]

decode_unicode_escape-Leaves : (text : Bytes) → Leaves text (decode_unicode_escape text)
unfolding decode_unicode_escape
decode_unicode_escape-Leaves (a ∷ b ∷ c ∷ d ∷ ds) =
    Ensures-bind (parse_hex4-Ends a b c d) λ r1 _. holds (omega (arith, decode_rune-le r1 ds))
decode_unicode_escape-Leaves _ = fails tt

decode_escape-Leaves : (c : ℕ) (rest : Bytes) → Leaves rest (decode_escape c rest)
unfolding decode_escape
decode_escape-Leaves c rest =
    Ensures-if (c == b'"') (λ _. same)
      λ _.
        Ensures-if (c == b'\\') (λ _. same)
          λ _.
            Ensures-if (c == b'/') (λ _. same)
              λ _.
                Ensures-if (c == b'b') (λ _. same)
                  λ _.
                    Ensures-if (c == b'f') (λ _. same)
                      λ _.
                        Ensures-if (c == b'n') (λ _. same)
                          λ _.
                            Ensures-if (c == b'r') (λ _. same)
                              λ _.
                                Ensures-if (c == b't') (λ _. same)
                                  λ _.
                                    Ensures-if (c == b'u') (λ _. decode_unicode_escape-Leaves rest)
                                      λ _. fails tt
  where
    same : {more : Bytes} → Leaves rest (ok (more, rest))
    same = holds (omega arith)

unquote_escape-Leaves : (text : Bytes) → Leaves text (unquote_escape text)
unfolding unquote_escape
unquote_escape-Leaves [] = fails tt
unquote_escape-Leaves (c ∷ rest) = grow (decode_escape-Leaves c rest)
  where
    grow : {m : Unquoted (Bytes × Bytes)} → Leaves rest m → Leaves (c ∷ rest) m
    grow (holds h) = holds (omega arith)
    grow (fails h) = fails tt

-- A round leaves what stands behind its first byte, or less.
unquote_step-Leaves : (c : ℕ) (cs : Bytes) → Leaves cs (unquote_step c cs)
unfolding unquote_step
unquote_step-Leaves c cs =
    Ensures-if (leb 0x80 c) (λ _. holds (unquote_rune-le c cs))
      λ _. Ensures-if (not (c == b'\\')) (λ _. holds (omega arith)) λ _. unquote_escape-Leaves cs

unquote_loop-Ends :
    (fuel : ℕ) (out text : Bytes) → length text < fuel → Ends (unquote_loop fuel out text)
unfolding unquote_loop
unquote_loop-Ends zero out text h = absurd (omega arith)
unquote_loop-Ends (suc fuel) out [] h = holds tt
unquote_loop-Ends (suc fuel) out (c ∷ cs) h =
    Ensures-bind (unquote_step-Leaves c cs)
      λ r k. unquote_loop-Ends fuel (out ++ r.0) r.1 (omega arith)

unquote_body-Ends : (text : Bytes) → Ends (unquote_body text)
unfolding unquote_body
unquote_body-Ends text =
    Ensures-if (not (contains_byte text b'\\') && valid_string text) (λ _. holds tt)
      λ _. unquote_loop-Ends (suc (length text)) [] text (omega arith)

unquote_between-Ends : (o : Option Bytes) → Ends (unquote_between o)
unfolding unquote_between
unquote_between-Ends none = fails tt
unquote_between-Ends (some text) = unquote_body-Ends text

unquote_string-Ends : (raw : Bytes) → Ends (unquote_string raw)
unfolding unquote_string
unquote_string-Ends [] = fails tt
unquote_string-Ends (c ∷ cs) =
    Ensures-if (c == b'"') (λ _. unquote_between-Ends (body cs)) λ _. fails tt

-- The decoder of quoted strings gives a string or an error on every input.
pub unquote_string-ne-out_of_fuel : (raw : Bytes) → unquote_string raw ≢ out_of_fuel
unquote_string-ne-out_of_fuel raw = Ensures-out_of_fuel (unquote_string-Ends raw)
