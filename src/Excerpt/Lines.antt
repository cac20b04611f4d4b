-- ===== src/Excerpt/Lines.antt =====
-- errors.go: `FormatError` with `sourceLine`, `clipLine` and `caretPadding`, and `Position.String`.
use jsonc.Prelude.{
  ℕ, zero, suc, ◌+◌, ◌-◌, ◌/◌, Bool, true, false, not, ◌&&◌, [], ◌∷◌, ◌++◌, ◌==◌, ltb, leb, within,
  if◌then◌else◌, Bytes, codes, Option, none, some, length, take, drop, get_elem?,
}
use jsonc.Token.{Position}
use jsonc.Integers.{decimal}
use jsonc.Strings.Utf8.{rune_size}

-- `Position.String`
unfoldable pub position_string : Position → Bytes
unfolding decimal
position_string p = decimal p.line ++ b':' ∷ decimal p.column

-- `bytes.TrimPrefix(data, utf8BOM)`
unfoldable pub trim_bom : Bytes → Bytes
trim_bom (a ∷ b ∷ c ∷ rest) = if a == 0xEF && b == 0xBB && c == 0xBF then rest else a ∷ b ∷ c ∷ rest
trim_bom src = src

abbrev pub behind_lf : Bytes → Bytes
behind_lf [] = []
behind_lf (c ∷ cs) = if c == b'\n' then cs else c ∷ cs

-- The first line of a text, and what stands behind its end, if it has one: one round of `sourceLine`.
unfoldable pub first_line : Bytes → Bytes × Option Bytes
first_line [] = ([], none)
first_line (c ∷ cs) =
    let r = first_line cs in
    if c == b'\n'
    then ([], some cs)
    else if c == b'\r'
    then ([], some (behind_lf cs))
    else (c ∷ r.0, r.1)

-- `sourceLine`: the line is counted down to 1
unfoldable pub source_line : Bytes → ℕ → Option Bytes
unfolding first_line
source_line src zero = none
source_line src (suc zero) = some (first_line src).0
source_line src (suc (suc n)) = elim (first_line src).1 [
  | none ↦ none
  | some rest ↦ source_line rest (suc n)
]

-- `formatErrorWidth`
abbrev pub format_error_width : ℕ
format_error_width = 120

-- `utf8.RuneStart`
abbrev pub rune_start : ℕ → Bool
rune_start c = not (within 0x80 0xBF c)

abbrev pub starts_at : Option ℕ → Bool
starts_at none = true
starts_at (some c) = rune_start c

-- the loop that moves `start` back
unfoldable pub back : Bytes → ℕ → ℕ
back line zero = zero
back line (suc k) =
    let before = back line k in if starts_at (get_elem? line (suc k)) then suc k else before

-- the loop that moves `end` forth, at the bytes from `end`
unfoldable pub forth : ℕ → Bytes → ℕ
forth n [] = n
forth n (c ∷ cs) = let more = forth (n + 1) cs in if rune_start c then n else more

abbrev pub smaller : ℕ → ℕ → ℕ
smaller a b = if ltb b a then b else a

abbrev pub dots : Bool → Bytes
dots b = if b then codes "..." else []

-- the window from `start` to `stop`, and the column in it
abbrev pub window : Bytes → ℕ → ℕ → ℕ → Bytes × ℕ
window line col start stop =
    let before = dots (ltb 0 start) in
    (
      before ++ take (stop - start) (drop start line) ++ dots (ltb stop (length line)),
      length before + col - start,
    )

-- `start` and `end`
unfoldable pub window_start : Bytes → ℕ → ℕ
unfolding back
window_start line col = back line (col - format_error_width / 2)

unfoldable pub window_end : Bytes → ℕ → ℕ
unfolding forth
window_end line start =
    let stop = smaller (start + format_error_width) (length line) in forth stop (drop stop line)

-- `clipLine`
unfoldable pub clip_line : Bytes → ℕ → Bytes × ℕ
unfolding window_start window_end
clip_line line col =
    let start = window_start line col in
    if leb (length line) format_error_width
    then (line, col)
    else window line col start (window_end line start)

abbrev advanced : Option ℕ → ℕ
advanced none = 0
advanced (some n) = n - 1

-- `caretPadding`, with the bytes of a rune that are yet to be passed over
unfoldable pub padding : ℕ → Bytes → Bytes
unfolding rune_size
padding skip [] = []
padding (suc skip) (c ∷ cs) = padding skip cs
padding zero (c ∷ cs) =
    (if c == b'\t' then b'\t' else b' ') ∷ padding (advanced (rune_size (c ∷ cs))) cs

unfoldable pub caret_padding : Bytes → Bytes
unfolding padding
caret_padding prefix = padding 0 prefix

abbrev coloured : Bool → Bytes → Bytes
coloured true text = 0x1B ∷ codes "[1;31m" ++ text ++ 0x1B ∷ codes "[0m"
coloured false text = text

-- the lines of `FormatError`; slicing a line beyond its end panics, which is `none`
abbrev pub excerpt : Bool → Bytes → Bytes × ℕ → Option Bytes
excerpt color message (line, col) =
    if ltb (length line) col
    then none
    else some (
        coloured color message
        ++ codes "\n  "
        ++ line
        ++ codes "\n  "
        ++ caret_padding (take col line)
        ++ coloured color (codes "^")
        ++ codes "\n")

abbrev pub excerpt_of : Bool → Bytes → ℕ → Option Bytes → Option Bytes
excerpt_of color message column none = some message
excerpt_of color message column (some line) =
    excerpt color message (clip_line line (smaller (column - 1) (length line)))

-- `FormatError`, of an error with a message and a position; `none` is a panic
unfoldable pub format_error : Bool → Bytes → Bytes → Position → Option Bytes
unfolding source_line trim_bom clip_line caret_padding
format_error color src message pos =
    if pos.line == 0
    then some message
    else excerpt_of color message pos.column (source_line (trim_bom src) pos.line)
