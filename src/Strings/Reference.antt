-- ===== src/Strings/Reference.antt =====
-- The fast path of `unquoteString` gives what its loop gives.
use jsonc.Prelude.{
  ℕ, zero, suc, ◌<◌, true, false, not, ◌&&◌, [], ◌∷◌, ◌++◌, ◌==◌, ltb, leb, ◌≡◌, refl, sym, ◌∙◌, ap,
  inl, inr, Bytes, ok, length, arith, Bool-cases, append_assoc, append-nil,
}
use jsonc.Strings.Utf8.{valid_string}
use jsonc.Strings.Runes.{
  Runes, end, rune_1, rune_2, rune_3, rune_4, two, three, four, rune_size_2, rune_size_3,
  rune_size_4, Runes-valid_string,
}
use jsonc.Strings.Unquote.{
  unquote_loop, unquote_step, unquote_rune, take_rune, unquote_body, contains_byte,
}

-- A rune that is no backslash is kept.
pub unquote_loop-rune_1 :
    (fuel : ℕ) (out rest : Bytes) (a : ℕ)
    → ltb a 0x80 ≡ true
    → a == b'\\' ≡ false
    → unquote_loop (suc fuel) out (a ∷ rest) ≡ unquote_loop fuel (out ++ a ∷ []) rest
unfolding unquote_loop unquote_step
unquote_loop-rune_1 fuel out rest a e n =
    let q : leb 0x80 a ≡ false = ground arith in rw (q, n) refl

pub unquote_loop-rune_2 :
    (fuel : ℕ) (out rest : Bytes) (a b : ℕ)
    → two a b ≡ true
    → unquote_loop (suc fuel) out (a ∷ b ∷ rest) ≡ unquote_loop fuel (out ++ a ∷ b ∷ []) rest
unfolding unquote_loop unquote_step unquote_rune take_rune
unquote_loop-rune_2 fuel out rest a b e =
    let q : leb 0x80 a ≡ true = ground arith in rw (q, rune_size_2 a b rest e) refl

pub unquote_loop-rune_3 :
    (fuel : ℕ) (out rest : Bytes) (a b c : ℕ)
    → three a b c ≡ true
    → unquote_loop (suc fuel) out (a ∷ b ∷ c ∷ rest)
      ≡ unquote_loop fuel (out ++ a ∷ b ∷ c ∷ []) rest
unfolding unquote_loop unquote_step unquote_rune take_rune
unquote_loop-rune_3 fuel out rest a b c e =
    let q : leb 0x80 a ≡ true = ground arith in rw (q, rune_size_3 a b c rest e) refl

pub unquote_loop-rune_4 :
    (fuel : ℕ) (out rest : Bytes) (a b c d : ℕ)
    → four a b c d ≡ true
    → unquote_loop (suc fuel) out (a ∷ b ∷ c ∷ d ∷ rest)
      ≡ unquote_loop fuel (out ++ a ∷ b ∷ c ∷ d ∷ []) rest
unfolding unquote_loop unquote_step unquote_rune take_rune
unquote_loop-rune_4 fuel out rest a b c d e =
    let q : leb 0x80 a ≡ true = ground arith in rw (q, rune_size_4 a b c d rest e) refl

-- A text of runes without a backslash is its own decoding.
unquote_loop-plain :
    {text : Bytes}
    → Runes text
    → (fuel : ℕ) (out : Bytes) → length text < fuel
    → contains_byte text b'\\' ≡ false
    → unquote_loop fuel out text ≡ ok (out ++ text)
unfolding contains_byte
unquote_loop-plain r zero out lt n = absurd (omega arith)
unquote_loop-plain end (suc fuel) out lt n = unfold unquote_loop in rw (append-nil out) refl
unquote_loop-plain (rune_1 a {text} e r) (suc fuel) out lt n =
    unquote_loop-rune_1 fuel out text a e (ground arith)
    ∙ unquote_loop-plain r fuel (out ++ a ∷ []) (omega arith) (ground arith)
    ∙ ap ok (append_assoc out (a ∷ []) text)
unquote_loop-plain (rune_2 a b {text} e r) (suc fuel) out lt n =
    unquote_loop-rune_2 fuel out text a b e
    ∙ unquote_loop-plain r fuel (out ++ a ∷ b ∷ []) (omega arith) (ground arith)
    ∙ ap ok (append_assoc out (a ∷ b ∷ []) text)
unquote_loop-plain (rune_3 a b c {text} e r) (suc fuel) out lt n =
    unquote_loop-rune_3 fuel out text a b c e
    ∙ unquote_loop-plain r fuel (out ++ a ∷ b ∷ c ∷ []) (omega arith) (ground arith)
    ∙ ap ok (append_assoc out (a ∷ b ∷ c ∷ []) text)
unquote_loop-plain (rune_4 a b c d {text} e r) (suc fuel) out lt n =
    unquote_loop-rune_4 fuel out text a b c d e
    ∙ unquote_loop-plain r fuel (out ++ a ∷ b ∷ c ∷ d ∷ []) (omega arith) (ground arith)
    ∙ ap ok (append_assoc out (a ∷ b ∷ c ∷ d ∷ []) text)

-- The body of a quoted string is decoded as the loop decodes it, also on the fast path.
pub unquote_body-unquote_loop :
    (text : Bytes) → unquote_body text ≡ unquote_loop (suc (length text)) [] text
unfolding unquote_body
unquote_body-unquote_loop text =
    elim (Bool-cases (not (contains_byte text b'\\') && valid_string text)) [
      | inl e ↦ rw e (
          sym (
            unquote_loop-plain (Runes-valid_string text (ground arith)) (suc (length text)) []
              (omega arith) (ground arith)))
      | inr e ↦ rw e refl
    ]
