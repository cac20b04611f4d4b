-- ===== src/Pointer/Tokens.antt =====
-- path.go: `decodePointerToken` and `parseArrayIndex`; patch.go: `pointerTokens`.
use jsonc.Prelude.{
  ℕ, ◌+◌, ◌-◌, ◌*◌, Bool, true, false, not, ◌&&◌, ◌||◌, List, [], ◌∷◌, ◌==◌, ltb, within, is_empty,
  if◌then◌else◌, Bytes, Option, none, some, Result, ok, err, out_of_fuel, ◌>>=◌,
}

-- the errors about pointers and patches, with what they name
pub data PointerError : Type 0 where
  pointer_start : PointerError
  invalid_escape : Bytes → PointerError
  no_member : Bytes → PointerError
  no_index : Bytes → PointerError
  no_descent : PointerError
  root_parent : PointerError
  requires_value : PointerError
  wrong_index : Bytes → PointerError
  add_into : PointerError
  remove_from : PointerError
  remove_root : PointerError
  into_descendant : PointerError
  test_failed : Bytes → PointerError
  unknown_op : Bytes → PointerError

-- `append(out, x)` at the front of the outcome of the rest
unfoldable pub prepend :
    {A : Type 0} → A → Result PointerError (List A) → Result PointerError (List A)
prepend x (ok xs) = ok (x ∷ xs)
prepend x (err e) = err e
prepend x out_of_fuel = out_of_fuel

-- The loop of `decodePointerToken` over the rest of the token `tok`. A token without `~` is its own
-- decoding, as the loop would have it.
unfoldable pub decode_loop : Bytes → Bytes → Result PointerError Bytes
unfolding prepend
decode_loop tok [] = ok []
decode_loop tok (c ∷ []) = if c == b'~' then err (invalid_escape tok) else ok (c ∷ [])
decode_loop tok (c ∷ d ∷ ds) =
    let rest = decode_loop tok (d ∷ ds) in
    let behind = decode_loop tok ds in
    if not (c == b'~')
    then prepend c rest
    else if d == b'0'
    then prepend b'~' behind
    else if d == b'1'
    then prepend b'/' behind
    else err (invalid_escape tok)

-- `decodePointerToken`
unfoldable pub decode_pointer_token : Bytes → Result PointerError Bytes
unfolding decode_loop
decode_pointer_token tok = decode_loop tok tok

-- the first part of a text that slashes divide, and the others
unfoldable pub split_slash : Bytes → Bytes × List Bytes
split_slash [] = ([], [])
split_slash (c ∷ cs) =
    let r = split_slash cs in if c == b'/' then ([], r.0 ∷ r.1) else (c ∷ r.0, r.1)

-- the loop of `pointerTokens`
unfoldable pub decode_tokens : List Bytes → Result PointerError (List Bytes)
unfolding decode_pointer_token prepend
decode_tokens [] = ok []
decode_tokens (t ∷ ts) = decode_pointer_token t >>= λ tok. prepend tok (decode_tokens ts)

-- `pointerTokens`
unfoldable pub pointer_tokens : Bytes → Result PointerError (List Bytes)
unfolding split_slash decode_tokens
pointer_tokens [] = ok []
pointer_tokens (c ∷ cs) =
    if c == b'/' then decode_tokens ((split_slash cs).0 ∷ (split_slash cs).1) else err pointer_start

-- the largest int
abbrev pub max_int : ℕ
max_int = 9223372036854775807

unfoldable pub all_digits : Bytes → Bool
all_digits [] = true
all_digits (c ∷ cs) = within b'0' b'9' c && all_digits cs

-- the number that decimal digits denote, behind digits that denote `n`
unfoldable pub digits_value : ℕ → Bytes → ℕ
digits_value n [] = n
digits_value n (c ∷ cs) = digits_value (n * 10 + (c - b'0')) cs

-- `strconv.Atoi` of digits: a number beyond an int is an error
unfoldable pub int_of_digits : Bytes → Option ℕ
unfolding digits_value
int_of_digits tok = if ltb max_int (digits_value 0 tok) then none else some (digits_value 0 tok)

unfoldable pub leads_with_zero : Bytes → Bool
leads_with_zero (c ∷ d ∷ ds) = c == b'0'
leads_with_zero _ = false

-- `parseArrayIndex`; its -1 is `none`
unfoldable pub parse_array_index : Bytes → Option ℕ
unfolding leads_with_zero all_digits int_of_digits
parse_array_index tok =
    if is_empty tok || leads_with_zero tok || not (all_digits tok) then none else int_of_digits tok
