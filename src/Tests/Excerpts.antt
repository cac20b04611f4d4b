-- ===== src/Tests/Excerpts.antt =====
-- Runs of `FormatError`, and the theorems on it at concrete inputs.
use jsonc.Prelude.{
  ◌≡◌, ◌≢◌, refl, ℕ, zero, suc, true, false, Bytes, codes, [], ◌∷◌, ◌++◌, none, some, err, arith,
}
use jsonc.Token.{Position}
use jsonc.Strings.Utf8.{valid_string}
use jsonc.Errors.{syntax_error, unexpected_character}
use jsonc.Parser.State.{default_decode_options}
use jsonc.Parser.Document.{parse_document}
use jsonc.Excerpt.Lines.{clip_line, format_error}
use jsonc.Excerpt.Window.{Under, clip_line-Under}
use jsonc.Excerpt.Shown.{format_error-shown}

abbrev repeated : ℕ → ℕ → Bytes
repeated zero c = []
repeated (suc n) c = c ∷ repeated n c

abbrev place : ℕ → ℕ → Position
place line column = record { line = line; column = column; offset = 0 }

abbrev two_lines : Bytes
two_lines = codes "[1,\n\t0x1]"

two_lines-valid : valid_string two_lines ≡ true
unfolding valid_string
two_lines-valid = refl

two_lines-shown :
    format_error false two_lines (codes "bad") (place 2 3) ≡ some (codes "bad\n  \t0x1]\n  \t ^\n")
unfolding format_error
two_lines-shown = refl

format_error-shown_example : format_error false two_lines (codes "bad") (place 2 3) ≢ none
format_error-shown_example =
    format_error-shown false two_lines (codes "bad") (place 2 3) two_lines-valid

abbrev long_line : Bytes
long_line = repeated 130 b'a'

long_line-valid : valid_string long_line ≡ true
unfolding valid_string
long_line-valid = refl

clip_line-Under_example : Under long_line 100 (clip_line long_line 100)
clip_line-Under_example = clip_line-Under long_line 100 long_line-valid (omega arith)

-- a string of bytes that continue no rune, and a stray letter 43 spaces behind it
abbrev stray : Bytes
stray = b'"' ∷ repeated 300 0x80 ++ b'"' ∷ repeated 43 b' ' ++ codes "x"

stray-refused :
    parse_document stray default_decode_options
    ≡ err
        (syntax_error (unexpected_character b'x') (record { line = 1; column = 346; offset = 345 }))
unfolding parse_document
stray-refused = refl

-- The window stops before the column, and the slice up to it panics.
stray-panics : format_error false stray (codes "bad") (place 1 346) ≡ none
unfolding format_error
stray-panics = refl
