-- ===== src/Path/Written.antt =====
-- `PathString` compiles what spells segments.
use jsonc.Prelude.{
  ℕ, zero, suc, ◌<◌, Bool, true, false, not, ◌&&◌, ◌||◌, List, [], ◌∷◌, ◌++◌, ◌==◌, leb, within,
  Bytes, codes, bytes_eq, ◌≡◌, refl, ap, none, some, ok, length, length-append, arith,
}
use jsonc.Text.{trim_space}
use jsonc.Strings.Unquote.{contains_byte}
use jsonc.Pointer.Tokens.{all_digits, max_int}
use jsonc.Path.Trimmed.{tight, trim_space-tight, cut-append, split_end-snoc, contains_byte-append}
use jsonc.Path.Decimal.{Digits, digits, decimal-Digits}
use jsonc.Integers.{pos, decimal, atoi, atoi_digits, fits_int}
use jsonc.Path.Expression.{
  SegmentKind, PathSegment, named_segment, index_segment, split_name, parse_dot_segment, split_end,
  quoted_name, parse_inner, parse_bracket_segment, parse_path_segment, segments_loop,
  parse_segments, path_string,
}

unfoldable pub ends_name : Bytes → Bool
ends_name [] = true
ends_name (c ∷ cs) = c == b'.' || c == b'['

-- No byte of the name ends it after a dot.
unfoldable pub dot_name : Bytes → Bool
dot_name [] = true
dot_name (c ∷ cs) = not (c == b'.' || c == b'[') && dot_name cs

-- the quotes of a name in brackets, double or single
abbrev pub quote_of : Bool → ℕ
quote_of true = b'"'
quote_of false = b'\''

abbrev quoted : Bool → Bytes → Bytes
quoted double name = quote_of double ∷ name ++ quote_of double ∷ []

-- The text spells the segments: `.name`, `["name"]`, `['name']`, `[1]`, `[*]` and `..name`. A name behind dots is not
-- empty and has no byte that ends it, a name in brackets has no `]`, and an index is an int.
pub data Spells : Bytes → List PathSegment → Type 0 where
  no_segment : Spells [] []
  dotted :
      (c : ℕ) (name : Bytes) {rest : Bytes} {segs : List PathSegment}
      → dot_name (c ∷ name) ≡ true
      → Spells rest segs
      → Spells (b'.' ∷ c ∷ name ++ rest) (named_segment SegmentKind.seg_child (c ∷ name) ∷ segs)
  bracketed :
      (double : Bool) (name : Bytes) {rest : Bytes} {segs : List PathSegment}
      → contains_byte name b']' ≡ false
      → Spells rest segs
      → Spells
          (b'[' ∷ (quote_of double ∷ name ++ quote_of double ∷ []) ++ b']' ∷ rest)
          (named_segment SegmentKind.seg_child name ∷ segs)
  index :
      (i : ℕ) {rest : Bytes} {segs : List PathSegment}
      → leb i max_int ≡ true
      → Spells rest segs
      → Spells (b'[' ∷ decimal i ++ b']' ∷ rest) (index_segment i ∷ segs)
  wildcard :
      {rest : Bytes} {segs : List PathSegment}
      → Spells rest segs
      → Spells (b'[' ∷ b'*' ∷ b']' ∷ rest) (named_segment SegmentKind.seg_wildcard [] ∷ segs)
  recursive :
      (c : ℕ) (name : Bytes) {rest : Bytes} {segs : List PathSegment}
      → dot_name (c ∷ name) ≡ true
      → Spells rest segs
      → Spells
          (b'.' ∷ b'.' ∷ c ∷ name ++ rest)
          (named_segment SegmentKind.seg_recursive (c ∷ name) ∷ segs)

-- the parts of an expression

quoted_name-quoted : (double : Bool) (name : Bytes) → quoted_name (quoted double name) ≡ some name
unfolding quoted_name split_end
quoted_name-quoted true [] = refl
quoted_name-quoted true (c ∷ cs) = rw (split_end-snoc c b'"' cs) refl
quoted_name-quoted false [] = refl
quoted_name-quoted false (c ∷ cs) = rw (split_end-snoc c b'\'' cs) refl

parse_inner-quoted :
    (double : Bool) (name : Bytes)
    → parse_inner (quoted double name) ≡ ok (named_segment SegmentKind.seg_child name)
unfolding parse_inner bytes_eq
parse_inner-quoted true name = rw (quoted_name-quoted true name) refl
parse_inner-quoted false name = rw (quoted_name-quoted false name) refl

parse_bracket_segment-inner :
    (inner rest : Bytes) (seg : PathSegment)
    → contains_byte inner b']' ≡ false
    → trim_space inner ≡ inner
    → parse_inner inner ≡ ok seg
    → parse_bracket_segment (inner ++ b']' ∷ rest) ≡ ok (seg, rest)
unfolding parse_bracket_segment
parse_bracket_segment-inner inner rest seg c t e =
    rw (cut-append b']' inner rest c) (rw t (rw e refl))

parse_bracket_segment-child :
    (double : Bool) (name rest : Bytes)
    → contains_byte name b']' ≡ false
    → parse_bracket_segment (quoted double name ++ b']' ∷ rest)
      ≡ ok (named_segment SegmentKind.seg_child name, rest)
unfolding contains_byte
parse_bracket_segment-child true name rest e =
    parse_bracket_segment-inner (quoted true name) rest (named_segment SegmentKind.seg_child name)
      (contains_byte-append b']' name (b'"' ∷ []) e refl)
      (trim_space-tight b'"' b'"' (name ++ b'"' ∷ []) (b'"' ∷ name) refl refl refl)
      (parse_inner-quoted true name)
parse_bracket_segment-child false name rest e =
    parse_bracket_segment-inner (quoted false name) rest (named_segment SegmentKind.seg_child name)
      (contains_byte-append b']' name (b'\'' ∷ []) e refl)
      (trim_space-tight b'\'' b'\'' (name ++ b'\'' ∷ []) (b'\'' ∷ name) refl refl refl)
      (parse_inner-quoted false name)

-- the last of the digits
last_digit :
    (c : ℕ) (cs : Bytes)
    → all_digits (c ∷ cs) ≡ true
    → (s : Bytes) × (d : ℕ) × (c ∷ cs ≡ s ++ d ∷ []) × (within b'0' b'9' d ≡ true)
unfolding all_digits
last_digit c [] e = ([], c, refl, ground arith)
last_digit c (f ∷ cs) e =
    let (s, d, q, w) = last_digit f cs (ground arith) in (c ∷ s, d, ap (λ t. c ∷ t) q, w)

contains_byte-digits : (s : Bytes) → all_digits s ≡ true → contains_byte s b']' ≡ false
unfolding all_digits contains_byte
contains_byte-digits [] e = refl
contains_byte-digits (c ∷ cs) e =
    let q : c == b']' ≡ false = ground arith in rw q (contains_byte-digits cs (ground arith))

all_digits-head : (c : ℕ) (cs : Bytes) → all_digits (c ∷ cs) ≡ true → within b'0' b'9' c ≡ true
unfolding all_digits
all_digits-head c cs e = ground arith

atoi-Digits : (i : ℕ) (ds : Bytes) → leb i max_int ≡ true → Digits i ds → atoi ds ≡ some (pos i)
unfolding atoi atoi_digits fits_int
atoi-Digits i ds h (digits c cs a e) =
    let w = all_digits-head c cs a in
    let m : c == b'-' ≡ false = ground arith in
    let p : c == b'+' ≡ false = ground arith in rw (m, p) (rw a (rw e (rw h refl)))

quoted_name-digit : (c : ℕ) (cs : Bytes) → within b'0' b'9' c ≡ true → quoted_name (c ∷ cs) ≡ none
unfolding quoted_name
quoted_name-digit c [] w = refl
quoted_name-digit c (d ∷ ds) w =
    let q : c == b'"' ≡ false = ground arith in
    let r : c == b'\'' ≡ false = ground arith in rw (q, r) refl

parse_inner-Digits :
    (i : ℕ) (ds : Bytes)
    → leb i max_int ≡ true
    → Digits i ds
    → parse_inner ds ≡ ok (index_segment i)
unfolding parse_inner bytes_eq
parse_inner-Digits i ds h (digits c cs a e) =
    let w = all_digits-head c cs a in
    let q : c == b'*' ≡ false = ground arith in
    rw q (rw (quoted_name-digit c cs w) (rw (atoi-Digits i (c ∷ cs) h (digits c cs a e)) refl))

tight-digit : (c : ℕ) → within b'0' b'9' c ≡ true → tight c ≡ true
tight-digit c w = ground arith

bracket-Digits :
    (i : ℕ) (ds rest : Bytes)
    → leb i max_int ≡ true
    → Digits i ds
    → parse_bracket_segment (ds ++ b']' ∷ rest) ≡ ok (index_segment i, rest)
bracket-Digits i ds rest h (digits c cs a e) =
    let (s, d, q, w) = last_digit c cs a in
    parse_bracket_segment-inner (c ∷ cs) rest (index_segment i) (contains_byte-digits (c ∷ cs) a)
      (trim_space-tight c d cs s (tight-digit c (all_digits-head c cs a)) (tight-digit d w) q)
      (parse_inner-Digits i (c ∷ cs) h (digits c cs a e))

-- a name after dots

split_name-append :
    (s rest : Bytes)
    → dot_name s ≡ true
    → ends_name rest ≡ true
    → split_name (s ++ rest) ≡ (s, rest)
unfolding split_name dot_name ends_name
split_name-append [] [] e f = refl
split_name-append [] (c ∷ cs) e f = rw f refl
split_name-append (c ∷ cs) rest e f =
    let q : (c == b'.' || c == b'[') ≡ false = ground arith in
    let h : dot_name cs ≡ true = ground arith in rw q (rw (split_name-append cs rest h f) refl)

parse_dot_segment-name :
    (c : ℕ) (name rest : Bytes)
    → dot_name (c ∷ name) ≡ true
    → ends_name rest ≡ true
    → parse_dot_segment (b'.' ∷ c ∷ name ++ rest)
      ≡ ok (named_segment SegmentKind.seg_recursive (c ∷ name), rest)
unfolding parse_dot_segment
parse_dot_segment-name c name rest e f = rw (split_name-append (c ∷ name) rest e f) refl

parse_dot_segment-child :
    (c : ℕ) (name rest : Bytes)
    → dot_name (c ∷ name) ≡ true
    → ends_name rest ≡ true
    → parse_dot_segment (c ∷ name ++ rest)
      ≡ ok (named_segment SegmentKind.seg_child (c ∷ name), rest)
unfolding parse_dot_segment dot_name
parse_dot_segment-child c name rest e f =
    let q : c == b'.' ≡ false = ground arith in
    let r : c == b'[' ≡ false = ground arith in
    let h : dot_name name ≡ true = ground arith in
    rw (q, r) (rw (split_name-append name rest h f) refl)

Spells-ends_name :
    {text : Bytes} {segs : List PathSegment} → Spells text segs → ends_name text ≡ true
unfolding ends_name
Spells-ends_name no_segment = refl
Spells-ends_name (dotted c name e w) = refl
Spells-ends_name (bracketed double name e w) = refl
Spells-ends_name (index i e w) = refl
Spells-ends_name (wildcard w) = refl
Spells-ends_name (recursive c name e w) = refl

-- the loop takes one segment in a round
segments_loop-step :
    (fuel c : ℕ) (cs rest : Bytes) (seg : PathSegment) (segs : List PathSegment)
    → parse_path_segment c cs ≡ ok (seg, rest)
    → segments_loop fuel rest ≡ ok segs
    → segments_loop (suc fuel) (c ∷ cs) ≡ ok (seg ∷ segs)
unfolding segments_loop
segments_loop-step fuel c cs rest seg segs e f = rw e (rw f refl)

star_plain : contains_byte (codes "*") b']' ≡ false
unfolding contains_byte
star_plain = refl

star_trimmed : trim_space (codes "*") ≡ codes "*"
star_trimmed = trim_space-tight b'*' b'*' [] [] refl refl refl

star_parsed : parse_inner (codes "*") ≡ ok (named_segment SegmentKind.seg_wildcard [])
unfolding parse_inner bytes_eq
star_parsed = refl

segments_loop-Spells :
    (fuel : ℕ) {text : Bytes} {segs : List PathSegment}
    → Spells text segs
    → length text < fuel
    → segments_loop fuel text ≡ ok segs
unfolding parse_path_segment
segments_loop-Spells zero w lt = absurd (omega arith)
segments_loop-Spells (suc fuel) no_segment lt = unfold segments_loop in refl
segments_loop-Spells (suc fuel) (dotted c name {rest} {segs} e w) lt =
    let l : length rest < fuel = omega (arith, length-append name rest) in
    segments_loop-step fuel b'.' (c ∷ name ++ rest) rest
      (named_segment SegmentKind.seg_child (c ∷ name)) segs
      (parse_dot_segment-child c name rest e (Spells-ends_name w)) (segments_loop-Spells fuel w l)
segments_loop-Spells (suc fuel) (bracketed double name {rest} {segs} e w) lt =
    let l : length rest < fuel = omega (arith, length-append (quoted double name) (b']' ∷ rest)) in
    segments_loop-step fuel b'[' (quoted double name ++ b']' ∷ rest) rest
      (named_segment SegmentKind.seg_child name) segs
      (parse_bracket_segment-child double name rest e) (segments_loop-Spells fuel w l)
segments_loop-Spells (suc fuel) (index i {rest} {segs} e w) lt =
    let l : length rest < fuel = omega (arith, length-append (decimal i) (b']' ∷ rest)) in
    segments_loop-step fuel b'[' (decimal i ++ b']' ∷ rest) rest (index_segment i) segs
      (bracket-Digits i (decimal i) rest e (decimal-Digits i)) (segments_loop-Spells fuel w l)
segments_loop-Spells (suc fuel) (wildcard {rest} {segs} w) lt =
    segments_loop-step fuel b'[' (b'*' ∷ b']' ∷ rest) rest
      (named_segment SegmentKind.seg_wildcard []) segs
      (parse_bracket_segment-inner (codes "*") rest (named_segment SegmentKind.seg_wildcard [])
        (star_plain) (star_trimmed) star_parsed)
      (segments_loop-Spells fuel w (omega arith))
segments_loop-Spells (suc fuel) (recursive c name {rest} {segs} e w) lt =
    let l : length rest < fuel = omega (arith, length-append name rest) in
    segments_loop-step fuel b'.' (b'.' ∷ c ∷ name ++ rest) rest
      (named_segment SegmentKind.seg_recursive (c ∷ name)) segs
      (parse_dot_segment-name c name rest e (Spells-ends_name w)) (segments_loop-Spells fuel w l)

-- An expression that spells segments compiles to these segments: members as `.name`, `["name"]` and
-- `['name']`, indices as `[1]`, wildcards as `[*]` and members at any depth as `..name`. A name behind
-- dots is not empty and has neither `.` nor `[`, a name in brackets has no `]`, and an index is an int.
pub path_string-Spells :
    (text : Bytes) (segs : List PathSegment)
    → Spells text segs
    → path_string (b'$' ∷ text) ≡ ok (record { expr = b'$' ∷ text; segments = segs })
unfolding path_string parse_segments
path_string-Spells text segs w = rw (segments_loop-Spells (suc (length text)) w (omega arith)) refl
