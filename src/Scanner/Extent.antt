-- ===== src/Scanner/Extent.antt =====
-- Where the scanner stands: every scanning method moves its cursor by calls of `advance` alone, and
-- reports an error at a place that such calls lead to.
use jsonc.Prelude.{
  ℕ, zero, suc, ◌≤◌, ◌<◌, Bool, true, false, not, ◌&&◌, ◌||◌, [], ◌∷◌, ◌==◌, ◌≡◌, refl, Bytes,
  length, Result, Ensures, Ensures-bind, Ensures-weaken, holds, fails, Ensures-if, arith, Option,
  none, some,
}
use jsonc.Token.{is_comment, Position, Token}
use jsonc.Errors.{Error, error_pos, Message}
use jsonc.Scanner.Cursor.{
  Cursor, at, rest, position, advance_position, advance, Scan, is_control, is_hex, error_at,
  text_from,
}
use jsonc.Scanner.Comments.{
  with_lf, with_byte, line_comment_loop, block_comment_loop, scan_line_comment, scan_block_comment,
  scan_comment,
}
use jsonc.Scanner.Strings.{
  is_simple_escape, scan_hex4, scan_escape_at, scan_escape, string_loop, scan_string,
}

-- Calls of `advance` lead from the one cursor to the other.
pub data Advanced (s : Cursor) : Cursor → Type 0 where
  here : Advanced s s
  step : {t : Cursor} → Advanced s t → Advanced s (advance t)

pub Advanced-trans : {s t u : Cursor} → Advanced s t → Advanced t u → Advanced s u
Advanced-trans a here = a
Advanced-trans a (step b) = step (Advanced-trans a b)

pub Advanced-advance : {s t : Cursor} → Advanced (advance s) t → Advanced s t
Advanced-advance a = Advanced-trans (step here) a

pub length-advance : (s : Cursor) → length (rest (advance s)) ≤ length (rest s)
unfolding advance
length-advance (at [] p) = omega arith
length-advance (at (c ∷ cs) p) = omega arith

pub length-Advanced : {s t : Cursor} → Advanced s t → length (rest t) ≤ length (rest s)
length-Advanced here = omega arith
length-Advanced (step {t} a) = omega (arith, length-Advanced a, length-advance t)

pub length-advance_cons :
    (c : ℕ) (cs : Bytes) (p : Position) → length (rest (advance (at (c ∷ cs) p))) ≡ length cs
unfolding advance
length-advance_cons c cs p = refl

-- The error is reported at a place that calls of `advance` lead to.
abbrev pub ReportsFrom : Cursor → Error → Type 0
ReportsFrom s e = (u : Cursor) × Advanced s u × (error_pos e ≡ position u)

abbrev pub Tracks : Cursor → Result Error Cursor → Type 0
Tracks s = Ensures (Advanced s) (ReportsFrom s)

-- A token that begins at `s`, with the cursor left behind it; in strict JSON it is no comment.
abbrev pub Spans : Bool → Cursor → Token × Cursor → Type 0
Spans strict s r =
    Advanced (advance s) r.1
    × (r.0.pos ≡ position s)
    × (strict ≡ true → is_comment r.0.kind ≡ false)

abbrev pub TracksToken : Bool → Cursor → Scan → Type 0
TracksToken strict s = Ensures (Spans strict s) (ReportsFrom s)

pub Reports-behind :
    {s : Cursor} (t : Cursor) → Advanced s t → (e : Error) → ReportsFrom t e → ReportsFrom s e
Reports-behind t k e (u, a, q) = (u, Advanced-trans k a, q)

pub Tracks-advance : {s : Cursor} {m : Result Error Cursor} → Tracks (advance s) m → Tracks s m
Tracks-advance h =
    Ensures-weaken h (λ t a. Advanced-advance a) λ e (u, a, q). (u, Advanced-advance a, q)

-- an error at the cursor `u`
pub reports :
    {A : Type 0} {P : A → Type 0} {s : Cursor} (u : Cursor) {m : Message}
    → Advanced s u
    → Ensures P (ReportsFrom s) (error_at (position u) m)
unfolding error_pos
reports u a = fails (u, a, refl)

line_comment_loop-Tracks : (s : Cursor) → Tracks s (line_comment_loop s)
unfolding line_comment_loop advance
line_comment_loop-Tracks (at [] p) = holds here
line_comment_loop-Tracks (at (c ∷ cs) p) =
    Ensures-if (c == b'\n' || c == b'\r') (λ _. holds here)
      λ _.
        Ensures-if (is_control c && not (c == b'\t')) (λ _. reports (at (c ∷ cs) p) here)
          λ _. Tracks-advance (line_comment_loop-Tracks (at cs (advance_position c cs p)))

-- Both comment scanners report strict JSON at the slashes where they are called.
scan_line_comment-Tracks :
    (strict : Bool) (s : Cursor) → TracksToken strict s (scan_line_comment strict s)
unfolding scan_line_comment error_pos
scan_line_comment-Tracks true s = fails (s, here, refl)
scan_line_comment-Tracks false s =
    let b = advance (advance s) in
    Ensures-bind
      (Ensures-weaken (line_comment_loop-Tracks b) (λ t a. Advanced-advance a)
        (Reports-behind b (step (step here))))
      λ t h. holds (h, refl, λ e. cc)

-- `start`, where the comment began, was come by.
block_comment_loop-Tracks :
    (s start b : Cursor) (buf : Option Bytes) (t : Cursor)
    → Advanced s start
    → Advanced s t
    → Ensures (λ r. Advanced t r.1) (ReportsFrom s) (block_comment_loop (position start) b buf t)
unfolding block_comment_loop advance
block_comment_loop-Tracks s start b buf (at [] p) h a = reports start h
block_comment_loop-Tracks s start b buf (at (c ∷ []) p) h a =
    Ensures-if (c == b'\r') (λ _. reports start h)
      λ _.
        Ensures-if (is_control c && not (c == b'\t') && not (c == b'\n'))
          (λ _. reports (at (c ∷ []) p) a) λ _. reports start h
block_comment_loop-Tracks s start b buf (at (c ∷ d ∷ ds) p) h a =
    let p1 = advance_position c (d ∷ ds) p in
    let lf = some (with_lf buf (text_from b (at (c ∷ d ∷ ds) p))) in
    let from : (buf' : Option Bytes) (u : Cursor)
        → Advanced (at (c ∷ d ∷ ds) p) u
        → Ensures (λ r. Advanced u r.1) (ReportsFrom s)
            (block_comment_loop (position start) b buf' u)
        → Ensures (λ r. Advanced (at (c ∷ d ∷ ds) p) r.1) (ReportsFrom s)
            (block_comment_loop (position start) b buf' u) =
      λ buf' u k m. Ensures-weaken m (λ r q. Advanced-trans k q) λ e q. q in
    let crlf = from lf _ (step (step here)) (
      block_comment_loop-Tracks s start b lf (at ds (advance_position d ds p1)) h
        (step (step a))) in
    let cr =
      from lf _ (step here) (block_comment_loop-Tracks s start b lf (at (d ∷ ds) p1) h (step a)) in
    let byte =
      from (with_byte buf c) _ (step here)
        (block_comment_loop-Tracks s start b (with_byte buf c) (at (d ∷ ds) p1) h (step a)) in
    Ensures-if (c == b'*' && d == b'/') (λ _. holds here)
      λ _.
        Ensures-if (c == b'\r') (λ _. Ensures-if (d == b'\n') (λ _. crlf) λ _. cr)
          λ _.
            Ensures-if (is_control c && not (c == b'\t') && not (c == b'\n'))
              (λ _. reports (at (c ∷ d ∷ ds) p) a) λ _. byte

scan_block_comment-Tracks :
    (strict : Bool) (s : Cursor) → TracksToken strict s (scan_block_comment strict s)
unfolding scan_block_comment error_pos
scan_block_comment-Tracks true s = fails (s, here, refl)
scan_block_comment-Tracks false s =
    let b = advance (advance s) in
    Ensures-bind (block_comment_loop-Tracks s s b none b here (step (step here)))
      λ r h. holds (step (step (Advanced-advance h)), refl, λ e. cc)

-- An escape that began at `start` is read on from `t`.
scan_hex4-Tracks :
    (s start t : Cursor)
    → Advanced s start
    → Ensures (Advanced t) (ReportsFrom s) (scan_hex4 (position start) t)
unfolding scan_hex4
scan_hex4-Tracks s start (at (a ∷ b ∷ c ∷ d ∷ ds) p) h =
    Ensures-if (not (is_hex a)) (λ _. reports start h)
      λ _.
        Ensures-if (not (is_hex b)) (λ _. reports start h)
          λ _.
            Ensures-if (not (is_hex c)) (λ _. reports start h)
              λ _.
                Ensures-if (not (is_hex d)) (λ _. reports start h)
                  λ _. holds (step (step (step (step here))))
scan_hex4-Tracks s start (at _ p) h = reports start h

scan_escape_at-Tracks :
    (s start t : Cursor)
    → Advanced s start
    → Ensures (Advanced t) (ReportsFrom s) (scan_escape_at (position start) t)
unfolding scan_escape_at
scan_escape_at-Tracks s start (at [] p) h = reports start h
scan_escape_at-Tracks s start (at (c ∷ cs) p) h =
    let t = advance (at (c ∷ cs) p) in
    Ensures-if (is_simple_escape c) (λ _. holds (step here))
      λ _.
        Ensures-if (c == b'u')
          (λ _. Ensures-weaken (scan_hex4-Tracks s start t h) (λ u a. Advanced-advance a) λ e q. q)
          λ _. reports start h

scan_escape-Tracks :
    (s t : Cursor) → Advanced s t → Ensures (Advanced (advance t)) (ReportsFrom s) (scan_escape t)
unfolding scan_escape
scan_escape-Tracks s t k = scan_escape_at-Tracks s t (advance t) k

string_loop-Tracks :
    (fuel : ℕ) (s start t : Cursor)
    → Advanced s start
    → Advanced s t
    → length (rest t) < fuel
    → Ensures (Advanced t) (ReportsFrom s) (string_loop fuel (position start) t)
unfolding string_loop
string_loop-Tracks zero s start t h k lt = absurd (omega arith)
string_loop-Tracks (suc fuel) s start (at [] p) h k lt = reports start h
string_loop-Tracks (suc fuel) s start (at (c ∷ cs) p) h k lt =
    let t = at (c ∷ cs) p in
    let go : (u : Cursor)
        → Advanced (advance t) u
        → Ensures (Advanced t) (ReportsFrom s) (string_loop fuel (position start) u) =
      λ u a.
        Ensures-weaken
          (string_loop-Tracks fuel s start u h (Advanced-trans k (Advanced-advance a))
            (omega (arith, length-Advanced a, length-advance_cons c cs p)))
          (λ v b. Advanced-trans (Advanced-advance a) b) λ e q. q in
    Ensures-if (c == b'"') (λ _. holds (step here))
      λ _.
        Ensures-if (c == b'\\') (λ _. Ensures-bind (scan_escape-Tracks s t k) go)
          λ _. Ensures-if (is_control c) (λ _. reports t k) λ _. go (advance t) here

pub scan_comment-Tracks :
    (strict : Bool) (c : ℕ) (cs : Bytes) (p : Position)
    → TracksToken strict (at (c ∷ cs) p) (scan_comment strict (at (c ∷ cs) p))
unfolding scan_comment
scan_comment-Tracks strict c [] p = reports (at (c ∷ []) p) here
scan_comment-Tracks strict c (d ∷ ds) p =
    let s = at (c ∷ d ∷ ds) p in
    Ensures-if (d == b'/') (λ _. scan_line_comment-Tracks strict s)
      λ _. Ensures-if (d == b'*') (λ _. scan_block_comment-Tracks strict s) λ _. reports s here

pub scan_string-Tracks : (strict raw : Bool) (s : Cursor) → TracksToken strict s (scan_string raw s)
unfolding scan_string
scan_string-Tracks strict raw s =
    Ensures-bind
      (string_loop-Tracks (suc (length (rest s))) s s (advance s) here (step here)
        (omega (arith, length-advance s)))
      λ t a. holds (a, refl, λ _. refl)

-- `advance` is monotone.
pub advance_mono : {s t : Cursor} → Advanced s t → Advanced (advance s) (advance t)
advance_mono here = here
advance_mono (step a) = step (advance_mono a)
