-- ===== src/Scanner/Grammar.antt =====
-- The strings that `scanString` accepts are those of a grammar.
use jsonc.Prelude.{
  ◌≤◌, leb, within, inl, inr, Bool-cases, ℕ, zero, suc, ◌+◌, ◌-◌, ◌<◌, Bool, true, false, not, ◌&&◌,
  [], ◌∷◌, ◌++◌, ◌==◌, Bytes, ◌≡◌, refl, ◌∙◌, ok, length, length-append, take, take-length_append,
  arith, append_assoc,
}
use jsonc.Token.{Position, TokenKind}
use jsonc.Scanner.Cursor.{
  at, rest, advance_position, advance, advance_by, is_control, is_hex, token,
}
use jsonc.Scanner.Strings.{
  is_simple_escape, scan_hex4, scan_escape_at, scan_escape, string_loop, scan_string,
}

-- the letters of RFC 8259 behind a backslash
pub data SimpleEscape : ℕ → Type 0 where
  quote_mark : SimpleEscape b'"'
  backslash : SimpleEscape b'\\'
  slash : SimpleEscape b'/'
  backspace : SimpleEscape b'b'
  form_feed : SimpleEscape b'f'
  line_feed : SimpleEscape b'n'
  carriage_return : SimpleEscape b'r'
  tab : SimpleEscape b't'

pub data HexDigit (c : ℕ) : Type 0 where
  decimal : b'0' ≤ c → c ≤ b'9' → HexDigit c
  lower_hex : b'a' ≤ c → c ≤ b'f' → HexDigit c
  upper_hex : b'A' ≤ c → c ≤ b'F' → HexDigit c

-- a byte that stands for itself in a string
abbrev pub plain_byte : ℕ → Bool
plain_byte c = leb 0x20 c && not (c == b'"') && not (c == b'\\')

-- what may stand between the quotes of a string
pub data Spelled : Bytes → Type 0 where
  spelled_end : Spelled []
  spelled_byte : (c : ℕ) {w : Bytes} → plain_byte c ≡ true → Spelled w → Spelled (c ∷ w)
  spelled_escape : (e : ℕ) {w : Bytes} → SimpleEscape e → Spelled w → Spelled (b'\\' ∷ e ∷ w)
  spelled_unicode :
      (a b c d : ℕ) {w : Bytes}
      → HexDigit a × HexDigit b × HexDigit c × HexDigit d
      → Spelled w
      → Spelled (b'\\' ∷ b'u' ∷ a ∷ b ∷ c ∷ d ∷ w)

SimpleEscape-is_simple_escape : {c : ℕ} → SimpleEscape c → is_simple_escape c ≡ true
unfolding is_simple_escape
SimpleEscape-is_simple_escape quote_mark = refl
SimpleEscape-is_simple_escape backslash = refl
SimpleEscape-is_simple_escape slash = refl
SimpleEscape-is_simple_escape backspace = refl
SimpleEscape-is_simple_escape form_feed = refl
SimpleEscape-is_simple_escape line_feed = refl
SimpleEscape-is_simple_escape carriage_return = refl
SimpleEscape-is_simple_escape tab = refl

escape_at : {c k : ℕ} → SimpleEscape k → c == k ≡ true → SimpleEscape c
escape_at {c} {k} s e = let q : c ≡ k = ground arith in rw q s

-- What the scanner takes for a letter of an escape is one.
is_simple_escape-SimpleEscape : (c : ℕ) → is_simple_escape c ≡ true → SimpleEscape c
unfolding is_simple_escape
is_simple_escape-SimpleEscape c h = elim (Bool-cases (c == b'"')) [
  | inl e ↦ escape_at quote_mark e
  | inr x1 ↦ elim (Bool-cases (c == b'\\')) [
    | inl e ↦ escape_at backslash e
    | inr x2 ↦ elim (Bool-cases (c == b'/')) [
      | inl e ↦ escape_at slash e
      | inr x3 ↦ elim (Bool-cases (c == b'b')) [
        | inl e ↦ escape_at backspace e
        | inr x4 ↦ elim (Bool-cases (c == b'f')) [
          | inl e ↦ escape_at form_feed e
          | inr x5 ↦ elim (Bool-cases (c == b'n')) [
            | inl e ↦ escape_at line_feed e
            | inr x6 ↦ elim (Bool-cases (c == b'r')) [
              | inl e ↦ escape_at carriage_return e
              | inr x7 ↦ escape_at tab (rw (x1, x2, x3, x4, x5, x6, x7) at h)
            ]
          ]
        ]
      ]
    ]
  ]
]

HexDigit-is_hex : (c : ℕ) → HexDigit c → is_hex c ≡ true
unfolding is_hex
HexDigit-is_hex c (decimal a b) = ground arith
HexDigit-is_hex c (lower_hex a b) = ground arith
HexDigit-is_hex c (upper_hex a b) = ground arith

is_hex-HexDigit : (c : ℕ) → is_hex c ≡ true → HexDigit c
unfolding is_hex
is_hex-HexDigit c h = elim (Bool-cases (within b'0' b'9' c)) [
  | inl e ↦ decimal (ground arith) (ground arith)
  | inr x ↦ elim (Bool-cases (within b'a' b'f' c)) [
    | inl e ↦ lower_hex (ground arith) (ground arith)
    | inr y ↦
        let e : within b'A' b'F' c ≡ true = rw (x, y) at h in
        upper_hex (ground arith) (ground arith)
  ]
]

-- the escapes as the scanner tells them
pub Spelled-escape :
    (e : ℕ) {w : Bytes} → is_simple_escape e ≡ true → Spelled w → Spelled (b'\\' ∷ e ∷ w)
Spelled-escape e h s = spelled_escape e (is_simple_escape-SimpleEscape e h) s

pub Spelled-unicode :
    (a b c d : ℕ) {w : Bytes}
    → is_hex a && is_hex b && is_hex c && is_hex d ≡ true
    → Spelled w
    → Spelled (b'\\' ∷ b'u' ∷ a ∷ b ∷ c ∷ d ∷ w)
Spelled-unicode a b c d h s =
    spelled_unicode a b c d
      (
        is_hex-HexDigit a (ground arith),
        is_hex-HexDigit b (ground arith),
        is_hex-HexDigit c (ground arith),
        is_hex-HexDigit d (ground arith),
      )
      s

pub offset-advance :
    (c : ℕ) (cs : Bytes) (p : Position) → (advance_position c cs p).offset ≡ p.offset + 1
unfolding advance_position
offset-advance c [] p = ground arith
offset-advance c (d ∷ ds) p = ground arith

-- One round of the loop reads a piece of `n` bytes and goes on with the rest.
abbrev Round : ℕ → Position → Bytes → Bytes → Position → ℕ → Type 0
Round fuel start text rest p n =
    (q : Position) × (q.offset ≡ p.offset + n)
    × (string_loop (suc fuel) start (at text p) ≡ string_loop fuel start (at rest q))

string_loop-byte :
    (fuel : ℕ) (start p : Position) (c : ℕ) (cs : Bytes)
    → plain_byte c ≡ true
    → Round fuel start (c ∷ cs) cs p 1
unfolding string_loop advance
string_loop-byte fuel start p c cs e =
    let a : c == b'"' ≡ false = ground arith in
    let b : c == b'\\' ≡ false = ground arith in
    let k : is_control c ≡ false = ground arith in
    (advance_position c cs p, offset-advance c cs p, rw (a, b, k) refl)

string_loop-escape :
    (fuel : ℕ) (start p : Position) (e : ℕ) (cs : Bytes)
    → is_simple_escape e ≡ true
    → Round fuel start (b'\\' ∷ e ∷ cs) cs p 2
unfolding string_loop advance scan_escape scan_escape_at
string_loop-escape fuel start p e cs h =
    let p1 = advance_position b'\\' (e ∷ cs) p in
    (
      advance_position e cs p1,
      omega (arith, offset-advance e cs p1, offset-advance b'\\' (e ∷ cs) p),
      rw h refl,
    )

string_loop-unicode :
    (fuel : ℕ) (start p : Position) (a b c d : ℕ) (cs : Bytes)
    → is_hex a && is_hex b && is_hex c && is_hex d ≡ true
    → Round fuel start (b'\\' ∷ b'u' ∷ a ∷ b ∷ c ∷ d ∷ cs) cs p 6
unfolding string_loop advance advance_by scan_escape scan_escape_at scan_hex4 is_simple_escape
string_loop-unicode fuel start p a b c d cs h =
    let ha : is_hex a ≡ true = ground arith in
    let hb : is_hex b ≡ true = ground arith in
    let hc : is_hex c ≡ true = ground arith in
    let hd : is_hex d ≡ true = ground arith in
    let p1 = advance_position b'\\' (b'u' ∷ a ∷ b ∷ c ∷ d ∷ cs) p in
    let p2 = advance_position b'u' (a ∷ b ∷ c ∷ d ∷ cs) p1 in
    let p3 = advance_position a (b ∷ c ∷ d ∷ cs) p2 in
    let p4 = advance_position b (c ∷ d ∷ cs) p3 in
    let p5 = advance_position c (d ∷ cs) p4 in
    (
      advance_position d cs p5,
      omega (
        arith,
        offset-advance b'\\' (b'u' ∷ a ∷ b ∷ c ∷ d ∷ cs) p,
        offset-advance b'u' (a ∷ b ∷ c ∷ d ∷ cs) p1,
        offset-advance a (b ∷ c ∷ d ∷ cs) p2,
        offset-advance b (c ∷ d ∷ cs) p3,
        offset-advance c (d ∷ cs) p4,
        offset-advance d cs p5,
      ),
      rw (ha, hb, hc, hd) refl,
    )

-- The loop reads a text of the grammar up to the closing quote.
string_loop-Spelled :
    {w : Bytes}
    → Spelled w
    → (fuel : ℕ) (start p : Position) (rest : Bytes) → length w < fuel
    → (q : Position) × (q.offset ≡ p.offset + length w + 1)
      × (string_loop fuel start (at (w ++ b'"' ∷ rest) p) ≡ ok (at rest q))
string_loop-Spelled s zero start p rest lt = absurd (omega arith)
string_loop-Spelled spelled_end (suc fuel) start p rest lt =
    unfold string_loop in
    unfold advance in
    (advance_position b'"' rest p, omega (arith, offset-advance b'"' rest p), refl)
string_loop-Spelled (spelled_byte c {w} e s) (suc fuel) start p rest lt =
    let (q, o, h) = string_loop-byte fuel start p c (w ++ b'"' ∷ rest) e in
    let (r, m, k) = string_loop-Spelled s fuel start q rest (omega arith) in
    (r, omega (arith, o, m), h ∙ k)
string_loop-Spelled (spelled_escape x {w} e s) (suc fuel) start p rest lt =
    let (q, o, h) =
      string_loop-escape fuel start p x (w ++ b'"' ∷ rest) (SimpleEscape-is_simple_escape e) in
    let (r, m, k) = string_loop-Spelled s fuel start q rest (omega arith) in
    (r, omega (arith, o, m), h ∙ k)
string_loop-Spelled (spelled_unicode a b c d {w} (ka, kb, kc, kd) s) (suc fuel) start p rest lt =
    let (q, o, h) = string_loop-unicode fuel start p a b c d (w ++ b'"' ∷ rest) (
      rw (HexDigit-is_hex a ka, HexDigit-is_hex b kb, HexDigit-is_hex c kc, HexDigit-is_hex d kd)
        refl) in
    let (r, m, k) = string_loop-Spelled s fuel start q rest (omega arith) in
    (r, omega (arith, o, m), h ∙ k)

-- A string of the grammar is scanned as one token, whose text is the string with its quotes, whatever
-- follows it.
pub scan_string-Spelled :
    {w : Bytes}
    → Spelled w
    → (rest : Bytes) (p : Position)
    → (q : Position) × (scan_string false (at (b'"' ∷ w ++ b'"' ∷ rest) p)
        ≡ ok (token TokenKind.string (b'"' ∷ w ++ b'"' ∷ []) p, at rest q))
unfolding scan_string advance
scan_string-Spelled {w} s rest p =
    let body = w ++ b'"' ∷ rest in
    let p1 = advance_position b'"' body p in
    let (q, o, h) =
      string_loop-Spelled s (suc (suc (length body))) p p1 rest
        (omega (arith, length-append w (b'"' ∷ rest))) in
    let j : b'"' ∷ body ≡ (b'"' ∷ w ++ b'"' ∷ []) ++ rest = simp append_assoc refl in
    let t : take (q.offset - p.offset) (b'"' ∷ body) ≡ b'"' ∷ w ++ b'"' ∷ [] = rw j (
      take-length_append (b'"' ∷ w ++ b'"' ∷ []) rest (q.offset - p.offset)
        (omega (arith, o, offset-advance b'"' body p, length-append w (b'"' ∷ [])))) in
    (q, rw h (rw t refl))
