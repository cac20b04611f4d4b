-- ===== src/Encoder/ReadBack.antt =====
-- The comments that the writer puts behind a value are scanned as one comment each.
use jsonc.Prelude.{
  ℕ, ◌+◌, ◌-◌, Bool, true, false, not, ◌&&◌, ◌||◌, [], ◌∷◌, ◌++◌, ◌==◌, Bytes, ◌≡◌, refl, ◌∙◌, inl,
  inr, none, Result, ok, length, take, take-length_append, arith, Bool-cases,
}
use jsonc.Token.{Position, TokenKind}
use jsonc.Errors.{Error}
use jsonc.Scanner.Cursor.{Cursor, at, advance_position, advance, text_from, is_control, token}
use jsonc.Scanner.Comments.{block_comment_loop, scan_block_comment, scan_comment}
use jsonc.Encoder.Comments.{sanitize_block_comment_text, is_slash_next}

pub advance_position-offset :
    (c : ℕ) (cs : Bytes) (p : Position) → (advance_position c cs p).offset ≡ p.offset + 1
unfolding advance_position
advance_position-offset c [] p = ground arith
advance_position-offset c (d ∷ ds) p = ground arith

-- A byte that a comment may have on one line, and one that it may have on several.
abbrev pub line_byte : ℕ → Bool
line_byte c = not (is_control c) || c == b'\t'

abbrev pub block_byte : ℕ → Bool
block_byte c = line_byte c || c == b'\n'

unfoldable pub all_block : Bytes → Bool
all_block [] = true
all_block (c ∷ cs) = block_byte c && all_block cs

unfoldable pub all_line : Bytes → Bool
all_line [] = true
all_line (c ∷ cs) = line_byte c && all_line cs

-- The text has no `*/`.
unfoldable pub unbroken : Bytes → Bool
unbroken [] = true
unbroken (c ∷ cs) = not (c == b'*' && is_slash_next cs) && unbroken cs

-- `sanitizeBlockCommentText` leaves no `*/`, and no byte but spaces is added.
is_slash_next-sanitize :
    (cs : Bytes) → is_slash_next (sanitize_block_comment_text cs) ≡ is_slash_next cs
unfolding sanitize_block_comment_text
is_slash_next-sanitize [] = refl
is_slash_next-sanitize (c ∷ cs) = elim (Bool-cases (c == b'*' && is_slash_next cs)) [
  | inl e ↦ rw e refl
  | inr e ↦ rw e refl
]

pub unbroken-sanitize : (text : Bytes) → unbroken (sanitize_block_comment_text text) ≡ true
unfolding sanitize_block_comment_text unbroken
unbroken-sanitize [] = refl
unbroken-sanitize (c ∷ cs) = elim (Bool-cases (c == b'*' && is_slash_next cs)) [
  | inl e ↦ let q : c ≡ b'*' = ground arith in rw e (rw (q, unbroken-sanitize cs) refl)
  | inr e ↦ rw e (rw (is_slash_next-sanitize cs) (rw (e, unbroken-sanitize cs) refl))
]

pub all_block-sanitize :
    (text : Bytes) → all_block text ≡ true → all_block (sanitize_block_comment_text text) ≡ true
unfolding sanitize_block_comment_text all_block
all_block-sanitize [] h = refl
all_block-sanitize (c ∷ cs) h =
    let a : block_byte c ≡ true = ground arith in
    let b : all_block cs ≡ true = ground arith in
    elim (Bool-cases (c == b'*' && is_slash_next cs)) [
      | inl e ↦ rw e (rw (a, all_block-sanitize cs b) refl)
      | inr e ↦ rw e (rw (a, all_block-sanitize cs b) refl)
    ]

abbrev pub close : Bytes → Bytes
close rest = b'*' ∷ b'/' ∷ rest

block_comment_loop-close :
    (start : Position) (begin : Cursor) (rest : Bytes) (p : Position)
    → block_comment_loop start begin none (at (close rest) p)
      ≡ ok (text_from begin (at (close rest) p), at (close rest) p)
unfolding block_comment_loop
block_comment_loop-close start begin rest p = refl

pub and_left : (a b : Bool) → a && b ≡ true → a ≡ true
and_left true b e = refl
and_left false b e = e

pub and_right : (a b : Bool) → a && b ≡ true → b ≡ true
and_right true b e = e
and_right false b e = absurd cc

false-not : {b : Bool} → not b ≡ true → b ≡ false
false-not {b = true} e = absurd cc
false-not {b = false} e = refl

and_false : (b : Bool) → b && false ≡ false
and_false true = refl
and_false false = refl

-- The cursor behind a text that the loop passed over.
abbrev Stops : Result Error (Bytes × Cursor) → (Position → Bytes × Cursor) → ℕ → Type 0
Stops r f n = (q : Position) × (q.offset ≡ n) × (r ≡ ok (f q))

block_comment_loop-step :
    (start : Position) (begin : Cursor) (c d : ℕ) (ds : Bytes) (p : Position)
    → c == b'*' && d == b'/' ≡ false
    → block_byte c ≡ true
    → block_comment_loop start begin none (at (c ∷ d ∷ ds) p)
      ≡ block_comment_loop start begin none (at (d ∷ ds) (advance_position c (d ∷ ds) p))
unfolding block_comment_loop
block_comment_loop-step start begin c d ds p e b =
    let n : c == b'\r' ≡ false = ground arith in
    let k : is_control c && not (c == b'\t') && not (c == b'\n') ≡ false = ground arith in
    rw (e, n, k) refl

pub all_block-head : (c : ℕ) (cs : Bytes) → all_block (c ∷ cs) ≡ true → block_byte c ≡ true
unfolding all_block
all_block-head c cs a = and_left _ _ a

pub all_block-tail : (c : ℕ) (cs : Bytes) → all_block (c ∷ cs) ≡ true → all_block cs ≡ true
unfolding all_block
all_block-tail c cs a = and_right _ _ a

unbroken-head :
    (c : ℕ) (s rest : Bytes)
    → unbroken (c ∷ s) ≡ true
    → c == b'*' && is_slash_next (s ++ close rest) ≡ false
unfolding unbroken
unbroken-head c [] rest u = and_false (c == b'*')
unbroken-head c (d ∷ s) rest u = false-not (and_left _ _ u)

pub unbroken-tail : (c : ℕ) (cs : Bytes) → unbroken (c ∷ cs) ≡ true → unbroken cs ≡ true
unfolding unbroken
unbroken-tail c cs u = and_right _ _ u

-- The loop takes a text without `*/` up to the closing delimiter.
block_comment_loop-unbroken :
    (start : Position) (begin : Cursor) (s rest : Bytes) (p : Position)
    → unbroken s ≡ true
    → all_block s ≡ true
    → Stops
        (block_comment_loop start begin none (at (s ++ close rest) p))
        (λ q. (text_from begin (at (close rest) q), at (close rest) q))
        (p.offset + length s)
block_comment_loop-unbroken start begin [] rest p u a =
    (p, omega arith, block_comment_loop-close start begin rest p)
block_comment_loop-unbroken start begin (c ∷ []) rest p u a =
    let ds = b'/' ∷ rest in
    let (q, o, e) =
      block_comment_loop-unbroken start begin [] rest (advance_position c (close rest) p)
        (unbroken-tail c [] u) (all_block-tail c [] a) in
    (
      q,
      omega (arith, o, advance_position-offset c (close rest) p),
      block_comment_loop-step start begin c b'*' ds p (unbroken-head c [] rest u)
            (all_block-head c [] a)
          ∙ e,
    )
block_comment_loop-unbroken start begin (c ∷ d ∷ s) rest p u a =
    let ds = s ++ close rest in
    let (q, o, e) =
      block_comment_loop-unbroken start begin (d ∷ s) rest (advance_position c (d ∷ ds) p)
        (unbroken-tail c (d ∷ s) u) (all_block-tail c (d ∷ s) a) in
    (
      q,
      omega (arith, o, advance_position-offset c (d ∷ ds) p),
      block_comment_loop-step start begin c d ds p (unbroken-head c (d ∷ s) rest u)
            (all_block-head c (d ∷ s) a)
          ∙ e,
    )

-- A text between the delimiters is scanned as one block comment.
pub scan_comment-block :
    (s rest : Bytes) (p : Position)
    → unbroken s ≡ true
    → all_block s ≡ true
    → (q : Position) × (scan_comment false (at (b'/' ∷ b'*' ∷ s ++ close rest) p)
        ≡ ok (token TokenKind.block_comment s p, at rest q))
unfolding scan_comment scan_block_comment advance
scan_comment-block s rest p u a =
    let body = s ++ close rest in
    let p1 = advance_position b'/' (b'*' ∷ body) p in
    let p2 = advance_position b'*' body p1 in
    let (q, o, e) = block_comment_loop-unbroken p (at body p2) s rest p2 u a in
    let t : take (q.offset - p2.offset) body ≡ s =
      take-length_append s (close rest) (q.offset - p2.offset) (omega (arith, o)) in
    (advance_position b'/' rest (advance_position b'*' (b'/' ∷ rest) q), rw e (rw t refl))
