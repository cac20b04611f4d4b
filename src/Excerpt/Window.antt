-- ===== src/Excerpt/Window.antt =====
-- The window that `clipLine` cuts out of a line holds the column.
use jsonc.Prelude.{
  ℕ, zero, suc, ◌+◌, ◌-◌, ◌≤◌, ◌<◌, true, [], ◌∷◌, ◌++◌, List, ltb, leb, Bytes, ◌≡◌, refl, ◌∙◌, ap,
  inl, inr, length, length-append, take, drop, get_elem?, arith, Bool-cases,
}
use jsonc.Strings.Utf8.{valid_string}
use jsonc.Strings.Runes.{Runes-valid_string}
use jsonc.Excerpt.Lines.{
  format_error_width, rune_start, back, forth, dots, window, window_start, window_end, clip_line,
}
use jsonc.Excerpt.Starts.{Start, rune_at, Runes-Start, back-le, back-ge}

module _ {A : Type 0} where
  length-drop : (n : ℕ) (xs : List A) → length (drop n xs) ≡ length xs - n
  length-drop zero xs = omega arith
  length-drop (suc n) [] = omega arith
  length-drop (suc n) (x ∷ xs) = omega (arith, length-drop n xs)

  length-take : (n : ℕ) (xs : List A) → n ≤ length xs → length (take n xs) ≡ n
  length-take zero xs h = refl
  length-take (suc n) [] h = absurd (omega arith)
  length-take (suc n) (x ∷ xs) h = ap suc (length-take n xs (omega arith))

  get_elem?-drop : (n i : ℕ) (xs : List A) → get_elem? (drop n xs) i ≡ get_elem? xs (n + i)
  get_elem?-drop zero i xs = let q : 0 + i ≡ i = omega arith in rw q refl
  get_elem?-drop (suc n) i [] = refl
  get_elem?-drop (suc n) i (x ∷ xs) =
      let q : suc n + i ≡ suc (n + i) = omega arith in rw q (get_elem?-drop n i xs)

  get_elem?-take : (n i : ℕ) (xs : List A) → i < n → get_elem? (take n xs) i ≡ get_elem? xs i
  get_elem?-take zero i xs h = absurd (omega arith)
  get_elem?-take (suc n) i [] h = refl
  get_elem?-take (suc n) zero (x ∷ xs) h = refl
  get_elem?-take (suc n) (suc i) (x ∷ xs) h = get_elem?-take n i xs (omega arith)

  get_elem?-behind :
      (xs ys : List A) (i : ℕ) → get_elem? (xs ++ ys) (length xs + i) ≡ get_elem? ys i
  get_elem?-behind [] ys i = let q : 0 + i ≡ i = omega arith in rw q refl
  get_elem?-behind (x ∷ xs) ys i =
      let q : suc (length xs) + i ≡ suc (length xs + i) = omega arith in
      rw q (get_elem?-behind xs ys i)

  get_elem?-before :
      (xs ys : List A) (i : ℕ) → i < length xs → get_elem? (xs ++ ys) i ≡ get_elem? xs i
  get_elem?-before [] ys i h = absurd (omega arith)
  get_elem?-before (x ∷ xs) ys zero h = refl
  get_elem?-before (x ∷ xs) ys (suc i) h = get_elem?-before xs ys i (omega arith)

-- The column is in the text, and the byte there is the line's at `col`.
abbrev pub Under : Bytes → ℕ → Bytes × ℕ → Type 0
Under line col r = (r.1 ≤ length r.0) × (col < length line → get_elem? r.0 r.1 ≡ get_elem? line col)

-- A column `i` of a part of the line is shown behind what stands before the part.
Under-part :
    (line before part after : Bytes) (col i j : ℕ)
    → j ≡ length before + i
    → i ≤ length part
    → (col < length line → i < length part)
    → (i < length part → get_elem? part i ≡ get_elem? line col)
    → Under line col (before ++ part ++ after, j)
Under-part line before part after col i j q a b c = (
  omega (arith, q, a, length-append before part, length-append (before ++ part) after),
  λ h.
      ap (get_elem? (before ++ part ++ after)) q
      ∙ get_elem?-before (before ++ part) after (length before + i)
          (omega (arith, b h, length-append before part))
      ∙ get_elem?-behind before part i
      ∙ c (b h),
)

-- A window shows the column if the column is in it.
window-Under :
    (line : Bytes) (col start stop : ℕ)
    → start ≤ col
    → col ≤ stop
    → stop ≤ length line
    → (col < length line → col < stop)
    → Under line col (window line col start stop)
window-Under line col start stop a b c d =
    let part = take (stop - start) (drop start line) in
    let n : length part ≡ stop - start =
      length-take (stop - start) (drop start line) (omega (arith, length-drop start line)) in
    Under-part line (dots (ltb 0 start)) part (dots (ltb stop (length line))) col (col - start)
      (length (dots (ltb 0 start)) + col - start) (omega arith) (omega (arith, n))
      (λ h. let e = d h in omega (arith, n, e))
      (λ h.
        get_elem?-take (stop - start) (col - start) (drop start line) (omega (arith, n, h))
        ∙ get_elem?-drop start (col - start) line
        ∙ ap (get_elem? line) (omega arith))

forth-ge : (n : ℕ) (text : Bytes) → n ≤ forth n text
unfolding forth
forth-ge n [] = omega arith
forth-ge n (c ∷ cs) = elim (Bool-cases (rune_start c)) [
  | inl e ↦ rw e (omega arith)
  | inr e ↦ rw e (omega (arith, forth-ge (n + 1) cs))
]

forth-le : (n : ℕ) (text : Bytes) → forth n text ≤ n + length text
unfolding forth
forth-le n [] = omega arith
forth-le n (c ∷ cs) = elim (Bool-cases (rune_start c)) [
  | inl e ↦ rw e (omega arith)
  | inr e ↦ rw e (omega (arith, forth-le (n + 1) cs))
]

-- the window ends behind the column
window_end-col :
    (line : Bytes) (col start : ℕ)
    → col ≤ length line
    → col < start + 120
    → (col ≤ window_end line start)
      × (window_end line start ≤ length line)
      × (col < length line → col < window_end line start)
unfolding window_end
window_end-col line col start a b = elim (Bool-cases (ltb (length line) (start + 120))) [
  | inl e ↦
      let g = forth-ge (length line) (drop (length line) line) in
      let l = forth-le (length line) (drop (length line) line) in
      let n = length-drop (length line) line in
      rw e (omega (arith, g), omega (arith, l, n), λ h. omega (arith, g))
  | inr e ↦
      let s : start + 120 ≤ length line = ground arith in
      let g = forth-ge (start + 120) (drop (start + 120) line) in
      let l = forth-le (start + 120) (drop (start + 120) line) in
      let n = length-drop (start + 120) line in
      rw e (omega (arith, g), omega (arith, l, n, s), λ h. omega (arith, g))
]

back-near : (line : Bytes) (i : ℕ) → Start line i → i ≤ back line i + 3
back-near line i (rune_at k h l e) = omega (arith, back-ge line i k l e)

-- In valid UTF-8 the window starts at most 63 bytes before the column.
window_start-col :
    (line : Bytes) (col : ℕ)
    → valid_string line ≡ true
    → (window_start line col ≤ col) × (col < window_start line col + 120)
unfolding window_start
window_start-col line col v =
    let i = col - 60 in
    (
      omega (arith, back-le line i),
      omega (arith, back-near line i (Runes-Start (Runes-valid_string line v) i)),
    )

-- Of a line of valid UTF-8, what `clipLine` returns holds the column, and there the byte that the line
-- has at it.
pub clip_line-Under :
    (line : Bytes) (col : ℕ)
    → valid_string line ≡ true
    → col ≤ length line
    → Under line col (clip_line line col)
unfolding clip_line
clip_line-Under line col v h = elim (Bool-cases (leb (length line) format_error_width)) [
  | inl e ↦ rw e (h, λ _. refl)
  | inr e ↦
      let s = window_start line col in
      let (a, b) = window_start-col line col v in
      let (c, d, f) = window_end-col line col s h b in
      rw e (window-Under line col s (window_end line s) a c d f)
]
