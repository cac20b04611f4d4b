-- ===== src/Scanner/Numbers.antt =====
-- scanner.go: `scanNumber` and `scanLiteralWord`.
use jsonc.Prelude.{
  Bool, false, not, ◌||◌, [], ◌∷◌, ◌==◌, if◌then◌else◌, Bytes, bytes_eq, length, take, drop, ltb,
  ok, ◌>>=◌, Result,
}
use jsonc.Token.{Position, TokenKind}
use jsonc.Errors.{
  Error, expected_digit_after_minus, expected_digit_in_number, expected_digit, leading_zeros,
  expected_digit_after_point, expected_digit_after_point_got, expected_digit_in_exponent,
  expected_digit_after_exponent_sign, expected_digit_in_exponent_got, expected_word,
  expected_word_end,
}
use jsonc.Scanner.Cursor.{
  Cursor, at, rest, position, at_end, advance_position, advance, advance_by, text_from, error_at,
  is_digit, is_letter, Scan, token,
}

-- the loops over digits
unfoldable pub skip_digits : Cursor → Cursor
unfolding is_digit advance_position
skip_digits (at [] p) = at [] p
skip_digits (at (c ∷ cs) p) =
    let more = skip_digits (at cs (advance_position c cs p)) in
    if is_digit c then more else at (c ∷ cs) p

-- the optional minus; `start` is where the number begins
unfoldable pub scan_minus : Position → Cursor → Result Error Cursor
unfolding advance
scan_minus start (at [] p) = ok (at [] p)
scan_minus start (at (c ∷ cs) p) =
    let t = advance (at (c ∷ cs) p) in
    if c == b'-'
    then if at_end t then error_at start expected_digit_after_minus else ok t
    else ok (at (c ∷ cs) p)

-- behind a leading zero
unfoldable pub reject_digit : Position → Cursor → Result Error Cursor
unfolding is_digit
reject_digit start (at [] p) = ok (at [] p)
reject_digit start (at (c ∷ cs) p) =
    if is_digit c then error_at start leading_zeros else ok (at (c ∷ cs) p)

-- the integer part
unfoldable pub scan_int : Position → Cursor → Result Error Cursor
unfolding skip_digits reject_digit advance
scan_int start (at [] p) = error_at start expected_digit_in_number
scan_int start (at (c ∷ cs) p) =
    let t = advance (at (c ∷ cs) p) in
    if not (is_digit c)
    then error_at start (expected_digit c)
    else if c == b'0'
    then reject_digit start t
    else ok (skip_digits t)

-- the digits behind the point
unfoldable pub scan_fraction : Position → Cursor → Result Error Cursor
unfolding skip_digits
scan_fraction start (at [] p) = error_at start expected_digit_after_point
scan_fraction start (at (c ∷ cs) p) =
    if not (is_digit c)
    then error_at start (expected_digit_after_point_got c)
    else ok (skip_digits (at (c ∷ cs) p))

-- the optional fraction
unfoldable pub scan_frac : Position → Cursor → Result Error Cursor
unfolding scan_fraction advance
scan_frac start (at [] p) = ok (at [] p)
scan_frac start (at (c ∷ cs) p) =
    if c == b'.' then scan_fraction start (advance (at (c ∷ cs) p)) else ok (at (c ∷ cs) p)

-- the digits of the exponent
unfoldable pub scan_exp_digits : Position → Cursor → Result Error Cursor
unfolding skip_digits
scan_exp_digits start (at [] p) = error_at start expected_digit_after_exponent_sign
scan_exp_digits start (at (c ∷ cs) p) =
    if not (is_digit c)
    then error_at start (expected_digit_in_exponent_got c)
    else ok (skip_digits (at (c ∷ cs) p))

-- the optional sign of the exponent, and its digits
unfoldable pub scan_exponent : Position → Cursor → Result Error Cursor
unfolding scan_exp_digits advance
scan_exponent start (at [] p) = error_at start expected_digit_in_exponent
scan_exponent start (at (c ∷ cs) p) =
    scan_exp_digits start
      (if c == b'+' || c == b'-' then advance (at (c ∷ cs) p) else at (c ∷ cs) p)

-- the optional exponent
unfoldable pub scan_exp : Position → Cursor → Result Error Cursor
unfolding scan_exponent advance
scan_exp start (at [] p) = ok (at [] p)
scan_exp start (at (c ∷ cs) p) =
    if c == b'e' || c == b'E'
    then scan_exponent start (advance (at (c ∷ cs) p))
    else ok (at (c ∷ cs) p)

unfoldable pub scan_number : Bool → Cursor → Scan
unfolding scan_minus scan_int scan_frac scan_exp
scan_number raw_only start = do
  s1 ← scan_minus (position start) start
  s2 ← scan_int (position start) s1
  s3 ← scan_frac (position start) s2
  stop ← scan_exp (position start) s3
  let value = if raw_only then [] else text_from start stop
  ok (token TokenKind.number value (position start), stop)

-- `isLetter(next) || isDigit(next) || next == '_'`, on the byte behind a keyword
unfoldable pub continues_word : Bytes → Bool
unfolding is_letter is_digit
continues_word [] = false
continues_word (c ∷ _) = is_letter c || is_digit c || c == b'_'

unfoldable pub scan_literal_word : Bytes → TokenKind → Cursor → Scan
unfolding continues_word advance_by bytes_eq
scan_literal_word word kind start =
    if ltb (length (rest start)) (length word)
    then error_at (position start) (expected_word word)
    else if not (bytes_eq (take (length word) (rest start)) word)
    then error_at (position start) (expected_word word)
    else if continues_word (drop (length word) (rest start))
    then error_at (position start) (expected_word_end word)
    else ok (token kind word (position start), advance_by (length word) start)
