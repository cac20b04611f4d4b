-- ===== src/Excerpt/Shown.antt =====
-- `FormatError` does not panic on valid UTF-8.
use jsonc.Prelude.{
  ℕ, zero, suc, ◌-◌, ◌≤◌, Bool, true, false, ◌&&◌, [], ◌∷◌, ◌++◌, ◌==◌, ltb, leb, Bytes, ◌≡◌, ◌≢◌,
  refl, subst, inl, inr, Option, none, some, length, arith, Bool-cases, Option-cases,
}
use jsonc.Token.{Position}
use jsonc.Strings.Utf8.{valid_string, second_of_3, second_of_4}
use jsonc.Strings.Runes.{
  Runes, end, rune_1, rune_2, rune_3, rune_4, Runes-valid_string, valid_string-Runes,
}
use jsonc.Excerpt.Lines.{
  trim_bom, behind_lf, first_line, source_line, smaller, clip_line, excerpt, excerpt_of,
  format_error,
}
use jsonc.Excerpt.Window.{clip_line-Under}

behind_bom :
    (a b c : ℕ) (rest : Bytes)
    → a == 0xEF && b == 0xBB && c == 0xBF ≡ true
    → Runes (a ∷ b ∷ c ∷ rest)
    → Runes rest
behind_bom _ _ _ _ e (rune_1 a h r) = absurd (ground arith)
behind_bom _ _ _ _ e (rune_2 a b h r) = absurd (ground arith)
behind_bom _ _ _ _ e (rune_3 a b c h r) = r
behind_bom _ _ _ _ e (rune_4 a b c d h r) = absurd (ground arith)

Runes-trim_bom : {src : Bytes} → Runes src → Runes (trim_bom src)
unfolding trim_bom
Runes-trim_bom {src = []} r = r
Runes-trim_bom {src = a ∷ []} r = r
Runes-trim_bom {src = a ∷ b ∷ []} r = r
Runes-trim_bom {src = a ∷ b ∷ c ∷ rest} r =
    elim (Bool-cases (a == 0xEF && b == 0xBB && c == 0xBF)) [
      | inr e ↦ rw e r
      | inl e ↦ rw e (behind_bom a b c rest e r)
    ]

-- the two parts of what `first_line` gives
data LineParts : Bytes × Option Bytes → Type 0 where
  last_line : {line : Bytes} → Runes line → LineParts (line, none)
  with_rest : {line rest : Bytes} → Runes line → Runes rest → LineParts (line, some rest)

LineParts-byte :
    (a : ℕ) (r : Bytes × Option Bytes) → ltb a 0x80 ≡ true → LineParts r → LineParts (a ∷ r.0, r.1)
LineParts-byte a r e (last_line x) = last_line (rune_1 a e x)
LineParts-byte a r e (with_rest x y) = with_rest (rune_1 a e x) y

Runes-behind_lf : {text : Bytes} → Runes text → Runes (behind_lf text)
Runes-behind_lf end = end
Runes-behind_lf (rune_1 a {text} e r) = elim (Bool-cases (a == b'\n')) [
  | inl h ↦ rw h r
  | inr h ↦ rw h (rune_1 a e r)
]
Runes-behind_lf (rune_2 a b {text} e r) =
    let h : a == b'\n' ≡ false = ground arith in rw h (rune_2 a b e r)
Runes-behind_lf (rune_3 a b c {text} e r) =
    let h : a == b'\n' ≡ false = ground arith in rw h (rune_3 a b c e r)
Runes-behind_lf (rune_4 a b c d {text} e r) =
    let h : a == b'\n' ≡ false = ground arith in rw h (rune_4 a b c d e r)

first_line-high :
    (c : ℕ) (cs : Bytes)
    → leb 0x80 c ≡ true
    → first_line (c ∷ cs) ≡ (c ∷ (first_line cs).0, (first_line cs).1)
unfolding first_line
first_line-high c cs h =
    let a : c == b'\n' ≡ false = ground arith in
    let b : c == b'\r' ≡ false = ground arith in rw (a, b) refl

LineParts-front :
    (w : Bytes) (r : Bytes × Option Bytes)
    → ((s : Bytes) → Runes s → Runes (w ++ s))
    → LineParts r
    → LineParts (w ++ r.0, r.1)
LineParts-front w r f (last_line {line} x) = last_line (f line x)
LineParts-front w r f (with_rest {line} x y) = with_rest (f line x) y

-- Lines of valid UTF-8 are valid UTF-8.
Runes-first_line : {text : Bytes} → Runes text → LineParts (first_line text)
unfolding first_line second_of_3 second_of_4
Runes-first_line end = last_line end
Runes-first_line (rune_1 a {text} e r) = elim (Bool-cases (a == b'\n')) [
  | inl h ↦ rw h (with_rest end r)
  | inr h ↦ elim (Bool-cases (a == b'\r')) [
    | inl k ↦ rw (h, k) (with_rest end (Runes-behind_lf r))
    | inr k ↦ rw (h, k) (LineParts-byte a (first_line text) e (Runes-first_line r))
  ]
]
Runes-first_line (rune_2 a b {text} e r) =
    rw (first_line-high a (b ∷ text) (ground arith), first_line-high b text (ground arith))
      (LineParts-front (a ∷ b ∷ []) (first_line text) (λ s x. rune_2 a b e x) (Runes-first_line r))
Runes-first_line (rune_3 a b c {text} e r) =
    rw
      (
        first_line-high a (b ∷ c ∷ text) (ground arith),
        first_line-high b (c ∷ text) (ground arith),
        first_line-high c text (ground arith),
      )
      (LineParts-front (a ∷ b ∷ c ∷ []) (first_line text) (λ s x. rune_3 a b c e x)
        (Runes-first_line r))
Runes-first_line (rune_4 a b c d {text} e r) =
    rw
      (
        first_line-high a (b ∷ c ∷ d ∷ text) (ground arith),
        first_line-high b (c ∷ d ∷ text) (ground arith),
        first_line-high c (d ∷ text) (ground arith),
        first_line-high d text (ground arith),
      )
      (LineParts-front (a ∷ b ∷ c ∷ d ∷ []) (first_line text) (λ s x. rune_4 a b c d e x)
        (Runes-first_line r))

LineParts-line : {r : Bytes × Option Bytes} → LineParts r → Runes r.0
LineParts-line (last_line x) = x
LineParts-line (with_rest x y) = x

LineParts-rest :
    {r : Bytes × Option Bytes} {rest : Bytes} → LineParts r → r.1 ≡ some rest → Runes rest
LineParts-rest (last_line x) e = absurd cc
LineParts-rest (with_rest {rest} x y) e = subst Runes (cc) y

Runes-source_line :
    {text line : Bytes} (n : ℕ) → Runes text → source_line text n ≡ some line → Runes line
unfolding source_line
Runes-source_line zero r e = absurd cc
Runes-source_line {text} (suc zero) r e =
    let q : (first_line text).0 ≡ _ = cc in subst Runes q (LineParts-line (Runes-first_line r))
Runes-source_line {text} (suc (suc n)) r e = elim (Option-cases (first_line text).1) [
  | inl x ↦ absurd (cc (rw (source_line, x) at e))
  | inr (rest, x) ↦
      Runes-source_line (suc n) (LineParts-rest (Runes-first_line r) x) (rw (source_line, x) at e)
]

excerpt-shown :
    (color : Bool) (message : Bytes) (r : Bytes × ℕ)
    → r.1 ≤ length r.0
    → excerpt color message r ≢ none
excerpt-shown color message (line, col) h e =
    let q : ltb (length line) col ≡ false = ground arith in cc (rw q at e)

smaller-le : (a b : ℕ) → smaller a b ≤ b
smaller-le a b = ground arith

excerpt_of-shown :
    (color : Bool) (message : Bytes) (column : ℕ) (o : Option Bytes)
    → ((line : Bytes) → o ≡ some line → valid_string line ≡ true)
    → excerpt_of color message column o ≢ none
excerpt_of-shown color message column none h = cc
excerpt_of-shown color message column (some line) h =
    let col = smaller (column - 1) (length line) in
    excerpt-shown color message (clip_line line col)
      (clip_line-Under line col (h line refl) (smaller-le (column - 1) (length line))).0

-- `FormatError` does not slice a line beyond its end if the source is valid UTF-8, whatever the position is.
pub format_error-shown :
    (color : Bool) (src message : Bytes) (pos : Position)
    → valid_string src ≡ true
    → format_error color src message pos ≢ none
unfolding format_error
format_error-shown color src message pos v = elim (Bool-cases (pos.line == 0)) [
  | inl e ↦ rw e cc
  | inr e ↦ rw e (
      excerpt_of-shown color message pos.column (source_line (trim_bom src) pos.line) (λ line q.
        valid_string-Runes
          (Runes-source_line pos.line (Runes-trim_bom (Runes-valid_string src v)) q)))
]
