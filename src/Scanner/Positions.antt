-- ===== src/Scanner/Positions.antt =====
-- The line and column of every token and every error of the scanner, described by the text alone.
use jsonc.Prelude.{
  ℕ, zero, suc, ◌+◌, ◌-◌, ◌≤◌, Bool, not, ◌&&◌, ◌||◌, [], ◌∷◌, ◌==◌, ◌≡◌, refl, sym, if◌then◌else◌,
  Bytes, drop, Ensures, Ensures-weaken, arith,
}
use jsonc.Token.{Position}
use jsonc.Errors.{error_pos}
use jsonc.Scanner.Cursor.{Cursor, at, rest, position, advance_position, advance, starts_with_lf}
use jsonc.Scanner.Next.{Flags, next, begin}
use jsonc.Scanner.Extent.{Advanced, here, step, Advanced-trans}
use jsonc.Scanner.Progress.{next-Tracks}

-- A line ends at a line feed, and at a carriage return that no line feed follows.
unfoldable pub is_break : ℕ → Bytes → Bool
is_break c cs = c == b'\n' || (c == b'\r' && not (starts_with_lf cs))

-- The lines that end in the first `n` bytes of the text.
unfoldable pub line_breaks : ℕ → Bytes → ℕ
line_breaks zero src = 0
line_breaks (suc n) [] = 0
line_breaks (suc n) (c ∷ cs) = (if is_break c cs then 1 else 0) + line_breaks n cs

-- The offset behind the last of them, where the line of byte `n` starts.
unfoldable pub line_start : ℕ → Bytes → ℕ
line_start zero src = 0
line_start (suc n) [] = 0
line_start (suc n) (c ∷ cs) =
    let r = line_start n cs in if r == 0 then if is_break c cs then 1 else 0 else suc r

-- Lines and columns count from 1, offsets from 0; a column counts bytes.
unfoldable pub position_of : Bytes → ℕ → Position
position_of src n = record {
  line = line_breaks n src + 1;
  column = n + 1 - line_start n src;
  offset = n;
}

line_breaks-suc :
    (n : ℕ) (src : Bytes) (c : ℕ) (cs : Bytes)
    → drop n src ≡ c ∷ cs
    → line_breaks (suc n) src ≡ line_breaks n src + (if is_break c cs then 1 else 0)
unfolding line_breaks
line_breaks-suc zero [] c cs e = cc
line_breaks-suc zero (x ∷ xs) c cs e = ground arith
line_breaks-suc (suc n) [] c cs e = cc
line_breaks-suc (suc n) (x ∷ xs) c cs e = omega (arith, line_breaks-suc n xs c cs e)

line_start-suc :
    (n : ℕ) (src : Bytes) (c : ℕ) (cs : Bytes)
    → drop n src ≡ c ∷ cs
    → line_start (suc n) src ≡ (if is_break c cs then suc n else line_start n src)
unfolding line_start
line_start-suc zero [] c cs e = cc
line_start-suc zero (x ∷ xs) c cs e = ground arith
line_start-suc (suc n) [] c cs e = cc
line_start-suc (suc n) (x ∷ xs) c cs e = ground (arith, line_start-suc n xs c cs e)

line_start-le : (n : ℕ) (src : Bytes) → line_start n src ≤ n
unfolding line_start
line_start-le zero src = omega arith
line_start-le (suc n) [] = omega arith
line_start-le (suc n) (c ∷ cs) = ground (arith, line_start-le n cs)

drop-suc : (n : ℕ) (src : Bytes) (c : ℕ) (cs : Bytes) → drop n src ≡ c ∷ cs → drop (suc n) src ≡ cs
drop-suc zero [] c cs e = cc
drop-suc zero (x ∷ xs) c cs e = cc
drop-suc (suc n) [] c cs e = cc
drop-suc (suc n) (x ∷ xs) c cs e = drop-suc n xs c cs e

-- The cursor stands in the text `src`, where its position says.
abbrev pub Placed : Bytes → Cursor → Type 0
Placed src s =
    (rest s ≡ drop (position s).offset src) × (position s ≡ position_of src (position s).offset)

advance-Placed : (src : Bytes) (s : Cursor) → Placed src s → Placed src (advance s)
unfolding advance position_of advance_position is_break
advance-Placed src (at [] p) h = h
advance-Placed src (at (c ∷ cs) p) (e, q) =
    let n = p.offset in
    ground (
      arith,
      line_breaks-suc n src c cs (sym e),
      line_start-suc n src c cs (sym e),
      line_start-le n src,
      drop-suc n src c cs (sym e),
    )

Advanced-Placed : (src : Bytes) {s t : Cursor} → Placed src s → Advanced s t → Placed src t
Advanced-Placed src h here = h
Advanced-Placed src h (step {t} a) = advance-Placed src t (Advanced-Placed src h a)

begin-Placed : (src : Bytes) → Placed src (begin src)
unfolding position_of line_breaks line_start
begin-Placed [] = (refl, refl)
begin-Placed _ = (refl, refl)

-- From any cursor that calls of `advance` reach in a text, `next` gives each token, and each error,
-- the line and the column that its offset has in the text.
pub next-position_of :
    (src : Bytes) (flags : Flags) (s : Cursor)
    → Advanced (begin src) s
    → Ensures
        (λ r. r.0.pos ≡ position_of src r.0.pos.offset)
        (λ e. error_pos e ≡ position_of src (error_pos e).offset)
        (next flags s)
next-position_of src flags s k =
    Ensures-weaken (next-Tracks flags s) (λ r h. stands h.from.0 h.from.1 h.from.2)
      λ e (u, a, q). stands u a q
  where
    stands :
        {p : Position} (u : Cursor) → Advanced s u → p ≡ position u → p ≡ position_of src p.offset
    stands u a q = rw q (Advanced-Placed src (begin-Placed src) (Advanced-trans k a)).1
