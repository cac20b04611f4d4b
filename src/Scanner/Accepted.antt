-- ===== src/Scanner/Accepted.antt =====
-- What `scanString` accepts is a string of the grammar.
use jsonc.Prelude.{
  ℕ, zero, suc, true, false, ◌&&◌, [], ◌∷◌, ◌++◌, ◌==◌, Bytes, ◌≡◌, refl, sym, ◌∙◌, ap, inl, inr,
  Result, ok, err, out_of_fuel, ◌>>=◌, length, arith, Bool-cases,
}
use jsonc.Token.{Position, Token, TokenKind}
use jsonc.Errors.{Error}
use jsonc.Scanner.Cursor.{
  Cursor, at, rest, advance, advance_by, advance_position, is_control, is_hex, token, text_from,
  Scan,
}
use jsonc.Scanner.Strings.{
  is_simple_escape, scan_hex4, scan_escape_at, scan_escape, string_loop, scan_string,
}
use jsonc.Scanner.Grammar.{
  Spelled, spelled_end, spelled_byte, Spelled-escape, Spelled-unicode, plain_byte,
  scan_string-Spelled,
}

-- The text is one of the grammar, a closing quote and what the cursor is left at.
abbrev pub Closes : Bytes → Cursor → Type 0
Closes text s = (w : Bytes) × Spelled w × (text ≡ w ++ b'"' ∷ rest s)

then_ok :
    {A B : Type 0} (m : Result Error A) (f : A → Result Error B) {b : B}
    → m >>= f ≡ ok b
    → (a : A) × (m ≡ ok a) × (f a ≡ ok b)
then_ok (ok a) f e = (a, refl, e)
then_ok (err x) f e = cc
then_ok out_of_fuel f e = cc

-- Behind a backslash stands a byte of a simple escape, or a `u` and four hex digits.
data Escape (s : Cursor) : Bytes → Type 0 where
  simple : (c : ℕ) (cs : Bytes) → is_simple_escape c ≡ true → rest s ≡ cs → Escape s (c ∷ cs)
  unicode :
      (a b c d : ℕ) (cs : Bytes)
      → is_hex a && is_hex b && is_hex c && is_hex d ≡ true
      → rest s ≡ cs
      → Escape s (b'u' ∷ a ∷ b ∷ c ∷ d ∷ cs)

rest-advance :
    (c : ℕ) (cs : Bytes) (p : Position) (s : Cursor) → advance (at (c ∷ cs) p) ≡ s → rest s ≡ cs
unfolding advance
rest-advance c cs p s e = rw (sym e) refl

rest-advance_by :
    (a b c d : ℕ) (cs : Bytes) (p : Position) (s : Cursor)
    → advance_by 4 (at (a ∷ b ∷ c ∷ d ∷ cs) p) ≡ s
    → rest s ≡ cs
unfolding advance advance_by
rest-advance_by a b c d cs p s e = rw (sym e) refl

scan_hex4-Escape :
    (start p : Position) (text : Bytes) (s : Cursor)
    → scan_hex4 start (at text p) ≡ ok s
    → Escape s (b'u' ∷ text)
unfolding scan_hex4
scan_hex4-Escape start p (a ∷ b ∷ c ∷ d ∷ cs) s e = elim (Bool-cases (is_hex a)) [
  | inr x ↦ cc (rw x at e)
  | inl x ↦ elim (Bool-cases (is_hex b)) [
    | inr y ↦ cc (rw (x, y) at e)
    | inl y ↦ elim (Bool-cases (is_hex c)) [
      | inr z ↦ cc (rw (x, y, z) at e)
      | inl z ↦ elim (Bool-cases (is_hex d)) [
        | inr w ↦ cc (rw (x, y, z, w) at e)
        | inl w ↦
            let q : advance_by 4 (at (a ∷ b ∷ c ∷ d ∷ cs) p) ≡ s = cc (rw (x, y, z, w) at e) in
            unicode a b c d cs (rw (x, y, z, w) refl) (rest-advance_by a b c d cs p s q)
      ]
    ]
  ]
]
scan_hex4-Escape start p _ s e = cc

scan_escape_at-Escape :
    (start p : Position) (text : Bytes) (s : Cursor)
    → scan_escape_at start (at text p) ≡ ok s
    → Escape s text
unfolding scan_escape_at advance
scan_escape_at-Escape start p [] s e = cc
scan_escape_at-Escape start p (c ∷ cs) s e = elim (Bool-cases (is_simple_escape c)) [
  | inl x ↦
      let q : advance (at (c ∷ cs) p) ≡ s = cc (rw x at e) in
      simple c cs x (rest-advance c cs p s q)
  | inr x ↦ elim (Bool-cases (c == b'u')) [
    | inl y ↦
        let u : c ≡ b'u' = ground arith in
        rw u (scan_hex4-Escape start (advance_position c cs p) cs s (rw (x, y) at e))
    | inr y ↦ cc (rw (x, y) at e)
  ]
]

scan_escape-Escape :
    (c : ℕ) (cs : Bytes) (p : Position) (s : Cursor)
    → scan_escape (at (c ∷ cs) p) ≡ ok s
    → Escape s cs
unfolding scan_escape advance
scan_escape-Escape c cs p s e = scan_escape_at-Escape p (advance_position c cs p) cs s e

Closes-Escape :
    (text : Bytes) (s t : Cursor) → Escape s text → Closes (rest s) t → Closes (b'\\' ∷ text) t
Closes-Escape text s t (simple c cs h q) (w, k, e) =
    (b'\\' ∷ c ∷ w, Spelled-escape c h k, ap (λ z. b'\\' ∷ c ∷ z) (sym q ∙ e))
Closes-Escape text s t (unicode a b c d cs h q) (w, k, e) = (
  b'\\' ∷ b'u' ∷ a ∷ b ∷ c ∷ d ∷ w,
  Spelled-unicode a b c d h k,
  ap (λ z. b'\\' ∷ b'u' ∷ a ∷ b ∷ c ∷ d ∷ z) (sym q ∙ e),
)

Closes-byte :
    (c : ℕ) (text : Bytes) (t : Cursor) → plain_byte c ≡ true → Closes text t → Closes (c ∷ text) t
Closes-byte c text t h (w, k, e) = (c ∷ w, spelled_byte c h k, ap (λ z. c ∷ z) e)

string_loop-Closes :
    (fuel : ℕ) (start : Position) (s t : Cursor)
    → string_loop fuel start s ≡ ok t
    → Closes (rest s) t
unfolding string_loop
string_loop-Closes zero start s t e = cc
string_loop-Closes (suc fuel) start (at [] p) t e = cc
string_loop-Closes (suc fuel) start (at (c ∷ cs) p) t e = elim (Bool-cases (c == b'"')) [
  | inl x ↦
      let q : advance (at (c ∷ cs) p) ≡ t = cc (rw x at e) in
      let u : c ≡ b'"' = ground arith in ([], spelled_end, rw (u, rest-advance c cs p t q) refl)
  | inr x ↦ elim (Bool-cases (c == b'\\')) [
    | inl y ↦
        let u : c ≡ b'\\' = ground arith in
        let h = then_ok (scan_escape (at (c ∷ cs) p)) (string_loop fuel start) (rw (x, y) at e) in
        rw u (
          Closes-Escape cs h.0 t (scan_escape-Escape c cs p h.0 h.1)
            (string_loop-Closes fuel start h.0 t h.2))
    | inr y ↦ elim (Bool-cases (is_control c)) [
      | inl z ↦ cc (rw (x, y, z) at e)
      | inr z ↦
          let h : plain_byte c ≡ true = ground arith in
          let n : string_loop fuel start (at cs (advance_position c cs p)) ≡ ok t =
            unfold advance in (rw (x, y, z) at e) in
          Closes-byte c cs t h (string_loop-Closes fuel start (at cs (advance_position c cs p)) t n)
    ]
  ]
]

scan_string-Closes :
    (text : Bytes) (p : Position) (t : Token) (s : Cursor)
    → scan_string false (at (b'"' ∷ text) p) ≡ ok (t, s)
    → Closes text s
unfolding scan_string advance
scan_string-Closes text p t s e =
    let f : Cursor → Scan =
      λ stop. ok (token TokenKind.string (text_from (at (b'"' ∷ text) p) stop) p, stop) in
    let fuel = suc (suc (length text)) in
    let h = then_ok (string_loop fuel p (at text (advance_position b'"' text p))) f e in
    let q : h.0 ≡ s = cc (h.2) in
    rw (sym q) (string_loop-Closes fuel p (at text (advance_position b'"' text p)) h.0 h.1)

-- The texts that begin with a string of the grammar, which the token is, with what is left.
abbrev pub Reads : Bytes → Position → Token → Bytes → Type 0
Reads text p t left =
    (w : Bytes) × Spelled w
    × (text ≡ w ++ b'"' ∷ left)
    × (t ≡ token TokenKind.string (b'"' ∷ w ++ b'"' ∷ []) p)

same_token :
    {t u : Token} {s v : Cursor}
    → ◌≡◌ {A = Result Error (Token × Cursor)} (ok (t, s)) (ok (u, v))
    → t ≡ u
same_token e = cc

-- A string token that the scanner gives is a quote, a text of the grammar and a quote, with which the
-- text begins, and the scanner stands behind it.
pub scan_string-Reads :
    (text : Bytes) (p : Position) (t : Token) (s : Cursor)
    → scan_string false (at (b'"' ∷ text) p) ≡ ok (t, s)
    → Reads text p t (rest s)
scan_string-Reads text p t s e =
    let (w, k, q) = scan_string-Closes text p t s e in
    let (v, h) = scan_string-Spelled k (rest s) p in (w, k, q, same_token (sym (rw q at e) ∙ h))
