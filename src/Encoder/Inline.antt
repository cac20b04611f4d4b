-- ===== src/Encoder/Inline.antt =====
-- The comments that the writer puts behind a value, and those of comment nodes, are scanned as one comment each.
use jsonc.Prelude.{
  ℕ, ◌+◌, ◌-◌, true, false, not, ◌&&◌, ◌||◌, [], ◌∷◌, ◌++◌, ◌==◌, Bytes, codes, ◌≡◌, refl, inl, inr,
  ok, length, take, take-length_append, arith, Bool-cases, append_assoc,
}
use jsonc.Token.{Position, Token, TokenKind}
use jsonc.Tree.Internal.{CommentStyle}
use jsonc.Scanner.Cursor.{at, advance_position, advance, is_control, token}
use jsonc.Scanner.Comments.{line_comment_loop, scan_line_comment, scan_comment}
use jsonc.Encoder.Comments.{
  sanitize_block_comment_text, pad, ends_blank, begins_blank, orphan_text, spaced,
  normalize_line_endings,
}
use jsonc.Encoder.ReadBack.{
  line_byte, block_byte, all_block, all_line, unbroken-sanitize, all_block-sanitize,
  scan_comment-block, close, advance_position-offset, and_left, and_right, all_block-head,
  all_block-tail,
}

all_line-head : (c : ℕ) (cs : Bytes) → all_line (c ∷ cs) ≡ true → line_byte c ≡ true
unfolding all_line
all_line-head c cs a = and_left (line_byte c) (all_line cs) a

all_line-tail : (c : ℕ) (cs : Bytes) → all_line (c ∷ cs) ≡ true → all_line cs ≡ true
unfolding all_line
all_line-tail c cs a = and_right (line_byte c) (all_line cs) a

all_line-cons :
    (c : ℕ) (cs : Bytes) → line_byte c ≡ true → all_line cs ≡ true → all_line (c ∷ cs) ≡ true
unfolding all_line
all_line-cons c cs b a = rw b a

-- A text without control bytes other than tabs is scanned as a line comment up to the line feed.
line_comment_loop-line :
    (s rest : Bytes) (p : Position)
    → all_line s ≡ true
    → (q : Position) × (q.offset ≡ p.offset + length s)
      × (line_comment_loop (at (s ++ b'\n' ∷ rest) p) ≡ ok (at (b'\n' ∷ rest) q))
unfolding line_comment_loop all_line
line_comment_loop-line [] rest p a = (p, omega arith, refl)
line_comment_loop-line (c ∷ cs) rest p a =
    let ds = cs ++ b'\n' ∷ rest in
    let b : line_byte c ≡ true = all_line-head c cs a in
    let n : (c == b'\n' || c == b'\r') ≡ false = ground arith in
    let k : is_control c && not (c == b'\t') ≡ false = ground arith in
    let (q, o, e) =
      line_comment_loop-line cs rest (advance_position c ds p) (all_line-tail c cs a) in
    (q, omega (arith, o, advance_position-offset c ds p), rw (n, k) e)

scan_comment-line :
    (s rest : Bytes) (p : Position)
    → all_line s ≡ true
    → (q : Position) × (scan_comment false (at (b'/' ∷ b'/' ∷ s ++ b'\n' ∷ rest) p)
        ≡ ok (token TokenKind.line_comment s p, at (b'\n' ∷ rest) q))
unfolding scan_comment scan_line_comment advance
scan_comment-line s rest p a =
    let body = s ++ b'\n' ∷ rest in
    let p2 = advance_position b'/' body (advance_position b'/' (b'/' ∷ body) p) in
    let (q, o, e) = line_comment_loop-line s rest p2 a in
    let t : take (q.offset - p2.offset) body ≡ s =
      take-length_append s (b'\n' ∷ rest) (q.offset - p2.offset) (omega (arith, o)) in
    (q, rw e (rw t refl))

all_line-spaced :
    (text : Bytes) → all_block text ≡ true → all_line (spaced (normalize_line_endings text)) ≡ true
unfolding all_block all_line spaced normalize_line_endings
all_line-spaced [] a = refl
all_line-spaced (c ∷ cs) a =
    let b : block_byte c ≡ true = all_block-head c cs a in
    let n : c == b'\r' ≡ false = ground arith in
    let rest = spaced (normalize_line_endings cs) in
    let h : all_line rest ≡ true = all_line-spaced cs (all_block-tail c cs a) in
    elim (Bool-cases (c == b'\n')) [
      | inl e ↦ rw n (rw e h)
      | inr e ↦ let k : line_byte c ≡ true = ground arith in rw n (rw e (all_line-cons c rest k h))
    ]

-- The text between the delimiters, with a space inside each unless there is one.
abbrev pub padded : Bytes → Bytes
padded safe = pad (begins_blank safe) ++ safe ++ pad (ends_blank safe)

-- The other text has a space between the bytes of a `*/`, perhaps, and is the same elsewhere.
pub data Split : Bytes → Bytes → Type 0 where
  nothing : Split [] []
  same : (c : ℕ) {s t : Bytes} → Split s t → Split (c ∷ s) (c ∷ t)
  parted : {s t : Bytes} → Split (b'/' ∷ s) t → Split (b'*' ∷ b'/' ∷ s) (b'*' ∷ b' ' ∷ t)

-- The text is empty, or it is a space.
pub data Pad : Bytes → Type 0 where
  no_pad : Pad []
  space_pad : Pad (b' ' ∷ [])

-- spaces and tabs
pub data Blanks : Bytes → Type 0 where
  no_blank : Blanks []
  space : {s : Bytes} → Blanks s → Blanks (b' ' ∷ s)
  tab : {s : Bytes} → Blanks s → Blanks (b'\t' ∷ s)

-- What a comment holds of a text that is written behind a value: of one line all but the spaces and tabs at its end,
-- perhaps behind a space; of more lines all of it, with each `*/` parted, perhaps between spaces.
pub data Content : Bytes → TokenKind → Bytes → Type 0 where
  line_content :
      (before s blanks : Bytes)
      → all_line (s ++ blanks) ≡ true
      → Pad before
      → Blanks blanks
      → Content (s ++ blanks) TokenKind.line_comment (before ++ s)
  block_content :
      {text : Bytes} (before s behind : Bytes)
      → all_line text ≡ false
      → Pad before
      → Split text s
      → Pad behind
      → Content text TokenKind.block_comment (before ++ s ++ behind)

-- the token that a comment node is scanned as
abbrev pub orphan_token : CommentStyle → Bytes → Position → Token
orphan_token CommentStyle.block text p =
    token TokenKind.block_comment (sanitize_block_comment_text text) p
orphan_token CommentStyle.line text p =
    token TokenKind.line_comment (spaced (normalize_line_endings text)) p

-- A comment node whose text has no control bytes other than tabs and line feeds is written as one
-- comment of its style and a line feed, and the scanner reads that comment, whatever follows.
pub orphan_text-scan_comment :
    (style : CommentStyle) (text rest : Bytes) (p : Position)
    → all_block text ≡ true
    → (q : Position) × (scan_comment false (at (orphan_text style text ++ rest) p)
        ≡ ok (orphan_token style text p, at (b'\n' ∷ rest) q))
unfolding orphan_text
orphan_text-scan_comment CommentStyle.block text rest p a =
    let safe = sanitize_block_comment_text text in
    let (q, h) =
      scan_comment-block safe (b'\n' ∷ rest) p (unbroken-sanitize text)
        (all_block-sanitize text a) in
    let j : (safe ++ codes "*/" ++ b'\n' ∷ []) ++ rest ≡ safe ++ close (b'\n' ∷ rest) =
      simp append_assoc refl in
    (q, rw j h)
orphan_text-scan_comment CommentStyle.line text rest p a =
    let line = spaced (normalize_line_endings text) in
    let (q, h) = scan_comment-line line rest p (all_line-spaced text a) in
    let j : (line ++ b'\n' ∷ []) ++ rest ≡ line ++ b'\n' ∷ rest = simp append_assoc refl in
    (q, rw j h)
