-- ===== src/Excerpt/Starts.antt =====
-- In valid UTF-8 the start of a rune is at most three bytes back.
use jsonc.Prelude.{
  ℕ, zero, suc, ◌+◌, ◌-◌, ◌≤◌, true, ◌∷◌, Bytes, ◌≡◌, refl, inl, inr, get_elem?, arith, Bool-cases,
}
use jsonc.Strings.Runes.{Runes, end, rune_1, rune_2, rune_3, rune_4}
use jsonc.Excerpt.Lines.{rune_start, starts_at, back}

-- A rune starts `k` bytes before the place `i`.
pub data Start (line : Bytes) (i : ℕ) : Type 0 where
  rune_at : (k : ℕ) → k ≤ 3 → k ≤ i → starts_at (get_elem? line (i - k)) ≡ true → Start line i

Start-lead : (a : ℕ) (text : Bytes) (i : ℕ) → i ≤ 3 → rune_start a ≡ true → Start (a ∷ text) i
Start-lead a text i h e = let q : i - i ≡ 0 = omega arith in rune_at i h (omega arith) (rw q e)

Start-cons : (a : ℕ) (text : Bytes) (i : ℕ) → Start text i → Start (a ∷ text) (suc i)
Start-cons a text i (rune_at k h l e) =
    let q : suc i - k ≡ suc (i - k) = omega arith in rune_at k h (omega arith) (rw q e)

-- At every place in a sequence of runes one starts at most three bytes before.
pub Runes-Start : {line : Bytes} → Runes line → (i : ℕ) → Start line i
Runes-Start end i = rune_at 0 (omega arith) (omega arith) refl
Runes-Start (rune_1 a e r) zero = Start-lead a _ 0 (omega arith) (ground arith)
Runes-Start (rune_1 a e r) (suc i) = Start-cons a _ i (Runes-Start r i)
Runes-Start (rune_2 a b e r) zero = Start-lead a _ 0 (omega arith) (ground arith)
Runes-Start (rune_2 a b e r) (suc zero) = Start-lead a _ 1 (omega arith) (ground arith)
Runes-Start (rune_2 a b e r) (suc (suc i)) =
    Start-cons a _ (suc i) (Start-cons b _ i (Runes-Start r i))
Runes-Start (rune_3 a b c e r) zero = Start-lead a _ 0 (omega arith) (ground arith)
Runes-Start (rune_3 a b c e r) (suc zero) = Start-lead a _ 1 (omega arith) (ground arith)
Runes-Start (rune_3 a b c e r) (suc (suc zero)) = Start-lead a _ 2 (omega arith) (ground arith)
Runes-Start (rune_3 a b c e r) (suc (suc (suc i))) =
    Start-cons a _ (suc (suc i)) (Start-cons b _ (suc i) (Start-cons c _ i (Runes-Start r i)))
Runes-Start (rune_4 a b c d e r) zero = Start-lead a _ 0 (omega arith) (ground arith)
Runes-Start (rune_4 a b c d e r) (suc zero) = Start-lead a _ 1 (omega arith) (ground arith)
Runes-Start (rune_4 a b c d e r) (suc (suc zero)) = Start-lead a _ 2 (omega arith) (ground arith)
Runes-Start (rune_4 a b c d e r) (suc (suc (suc zero))) =
    Start-lead a _ 3 (omega arith) (ground arith)
Runes-Start (rune_4 a b c d e r) (suc (suc (suc (suc i)))) =
    Start-cons a _ (suc (suc (suc i)))
      (Start-cons b _ (suc (suc i)) (Start-cons c _ (suc i) (Start-cons d _ i (Runes-Start r i))))

pub back-le : (line : Bytes) (i : ℕ) → back line i ≤ i
unfolding back
back-le line zero = omega arith
back-le line (suc i) = elim (Bool-cases (starts_at (get_elem? line (suc i)))) [
  | inl e ↦ rw e (omega arith)
  | inr e ↦ rw e (omega (arith, back-le line i))
]

-- The loop stops at a start that is `k` bytes back, if no other stops it before.
pub back-ge :
    (line : Bytes) (i k : ℕ)
    → k ≤ i
    → starts_at (get_elem? line (i - k)) ≡ true
    → i ≤ back line i + k
unfolding back
back-ge line zero k l e = omega arith
back-ge line (suc i) zero l e =
    let q : suc i - 0 ≡ suc i = omega arith in
    let h : starts_at (get_elem? line (suc i)) ≡ true = rw q at e in rw h (omega arith)
back-ge line (suc i) (suc k) l e =
    let q : suc i - suc k ≡ i - k = omega arith in
    let h : starts_at (get_elem? line (i - k)) ≡ true = rw q at e in
    elim (Bool-cases (starts_at (get_elem? line (suc i)))) [
      | inl b ↦ rw b (omega arith)
      | inr b ↦ rw b (omega (arith, back-ge line i k (omega arith) h))
    ]
