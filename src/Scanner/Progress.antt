-- ===== src/Scanner/Progress.antt =====
-- Numbers, keywords and `next`: the cursor moves by `advance`, and past the token's first byte.
use jsonc.Prelude.{
  ℕ, zero, suc, ◌<◌, Bool, true, false, not, ◌||◌, [], ◌∷◌, ◌==◌, ◌≡◌, refl, ◌⊎◌, inl, inr,
  if◌then◌else◌, within, ltb, Bytes, bytes_eq, codes, length, take, drop, ok, Result, Ensures,
  Ensures-bind, Ensures-weaken, holds, Ensures-if, arith,
}
use jsonc.Token.{is_comment, Position, TokenKind, Token}
use jsonc.Errors.{Error}
use jsonc.Scanner.Cursor.{
  Cursor, at, rest, position, advance_position, advance, advance_by, Scan, token, is_digit, at_end,
}
use jsonc.Scanner.Numbers.{
  skip_digits, scan_minus, reject_digit, scan_int, scan_fraction, scan_frac, scan_exp_digits,
  scan_exponent, scan_exp, scan_number, scan_literal_word, continues_word,
}
use jsonc.Scanner.Next.{Flags, skip_lf, scan_at, skip_blanks, next_token, next}
use jsonc.Scanner.Extent.{
  Advanced, here, step, Advanced-trans, Advanced-advance, ReportsFrom, TracksToken, reports,
  Reports-behind, scan_comment-Tracks, scan_string-Tracks, advance_mono, length-Advanced,
  length-advance_cons,
}

pub skip_digits-Advanced : (s : Cursor) → Advanced s (skip_digits s)
unfolding skip_digits advance
skip_digits-Advanced (at [] p) = here
skip_digits-Advanced (at (c ∷ cs) p) =
    choose (is_digit c) (skip_digits-Advanced (at cs (advance_position c cs p)))
  where
    choose :
        (b : Bool) {t : Cursor}
        → Advanced (advance (at (c ∷ cs) p)) t
        → Advanced (at (c ∷ cs) p) (if b then t else at (c ∷ cs) p)
    choose true a = Advanced-advance a
    choose false a = here

-- Each part of a number begins at `t`, come by from the number's start `s`.
abbrev Part : Cursor → Cursor → Result Error Cursor → Type 0
Part s t = Ensures (Advanced t) (ReportsFrom s)

-- the same for a part that takes a byte or more
abbrev PartPast : Cursor → Cursor → Result Error Cursor → Type 0
PartPast s t = Ensures (Advanced (advance t)) (ReportsFrom s)

module _ (s : Cursor) where
  scan_minus-Tracks : (t : Cursor) → Part s t (scan_minus (position s) t)
  unfolding scan_minus
  scan_minus-Tracks (at [] p) = holds here
  scan_minus-Tracks (at (c ∷ cs) p) =
      Ensures-if (c == b'-')
        (λ _.
          Ensures-if (at_end (advance (at (c ∷ cs) p))) (λ _. reports s here)
            λ _. holds (step here))
        λ _. holds here

  reject_digit-Tracks : (t : Cursor) → Part s t (reject_digit (position s) t)
  unfolding reject_digit
  reject_digit-Tracks (at [] p) = holds here
  reject_digit-Tracks (at (c ∷ cs) p) =
      Ensures-if (is_digit c) (λ _. reports s here) λ _. holds here

  scan_int-Tracks : (t : Cursor) → PartPast s t (scan_int (position s) t)
  unfolding scan_int
  scan_int-Tracks (at [] p) = reports s here
  scan_int-Tracks (at (c ∷ cs) p) =
      let t = advance (at (c ∷ cs) p) in
      Ensures-if (not (is_digit c)) (λ _. reports s here)
        λ _. Ensures-if (c == b'0') (λ _. reject_digit-Tracks t) λ _. holds (skip_digits-Advanced t)

  scan_fraction-Tracks : (t : Cursor) → Part s t (scan_fraction (position s) t)
  unfolding scan_fraction
  scan_fraction-Tracks (at [] p) = reports s here
  scan_fraction-Tracks (at (c ∷ cs) p) =
      Ensures-if (not (is_digit c)) (λ _. reports s here) λ _. holds (skip_digits-Advanced _)

  scan_frac-Tracks : (t : Cursor) → Part s t (scan_frac (position s) t)
  unfolding scan_frac
  scan_frac-Tracks (at [] p) = holds here
  scan_frac-Tracks (at (c ∷ cs) p) =
      Ensures-if (c == b'.')
        (λ _.
          Ensures-weaken (scan_fraction-Tracks (advance (at (c ∷ cs) p)))
            (λ u a. Advanced-advance a) λ e q. q)
        λ _. holds here

  scan_exp_digits-Tracks : (t : Cursor) → Part s t (scan_exp_digits (position s) t)
  unfolding scan_exp_digits
  scan_exp_digits-Tracks (at [] p) = reports s here
  scan_exp_digits-Tracks (at (c ∷ cs) p) =
      Ensures-if (not (is_digit c)) (λ _. reports s here) λ _. holds (skip_digits-Advanced _)

  scan_exponent-Tracks : (t : Cursor) → Part s t (scan_exponent (position s) t)
  unfolding scan_exponent
  scan_exponent-Tracks (at [] p) = reports s here
  scan_exponent-Tracks (at (c ∷ cs) p) = sign (c == b'+' || c == b'-')
    where
      sign :
          (b : Bool)
          → Part s
              (at (c ∷ cs) p)
              (scan_exp_digits (position s) (if b then advance (at (c ∷ cs) p) else at (c ∷ cs) p))
      sign true =
          Ensures-weaken (scan_exp_digits-Tracks (advance (at (c ∷ cs) p)))
            (λ u a. Advanced-advance a) λ e q. q
      sign false = scan_exp_digits-Tracks (at (c ∷ cs) p)

  scan_exp-Tracks : (t : Cursor) → Part s t (scan_exp (position s) t)
  unfolding scan_exp
  scan_exp-Tracks (at [] p) = holds here
  scan_exp-Tracks (at (c ∷ cs) p) =
      Ensures-if (c == b'e' || c == b'E')
        (λ _.
          Ensures-weaken (scan_exponent-Tracks (advance (at (c ∷ cs) p)))
            (λ u a. Advanced-advance a) λ e q. q)
        λ _. holds here

scan_number-Tracks : (strict raw : Bool) (s : Cursor) → TracksToken strict s (scan_number raw s)
unfolding scan_number
scan_number-Tracks strict raw s = Ensures-bind (scan_minus-Tracks s s) λ s1 a1.
    Ensures-bind (scan_int-Tracks s s1) λ s2 a2. Ensures-bind (scan_frac-Tracks s s2) λ s3 a3.
      Ensures-bind (scan_exp-Tracks s s3) λ s4 a4. holds (
        Advanced-trans (advance_mono a1) (Advanced-trans a2 (Advanced-trans a3 a4)),
        refl,
        λ _. refl,
      )

advance_by-Advanced : (n : ℕ) (s : Cursor) → Advanced s (advance_by n s)
unfolding advance_by
advance_by-Advanced zero s = here
advance_by-Advanced (suc n) s = Advanced-advance (advance_by-Advanced n (advance s))

-- a keyword is not empty
scan_literal_word-Tracks :
    (strict : Bool) (c : ℕ) (cs : Bytes) (kind : TokenKind) (s : Cursor)
    → is_comment kind ≡ false
    → TracksToken strict s (scan_literal_word (c ∷ cs) kind s)
unfolding scan_literal_word advance_by
scan_literal_word-Tracks strict c cs kind s plain =
    let word = c ∷ cs in
    Ensures-if (ltb (length (rest s)) (length word)) (λ _. reports s here)
      λ _.
        Ensures-if (not (bytes_eq (take (length word) (rest s)) word)) (λ _. reports s here)
          λ _.
            Ensures-if (continues_word (drop (length word) (rest s))) (λ _. reports s here)
              λ _. holds (advance_by-Advanced (length cs) (advance s), refl, λ _. plain)

skip_lf-Advanced : (s : Cursor) → Advanced s (skip_lf s)
skip_lf-Advanced (at [] p) = here
skip_lf-Advanced (at (c ∷ cs) p) = choose (c == b'\n')
  where
    choose :
        (b : Bool) → Advanced (at (c ∷ cs) p) (if b then advance (at (c ∷ cs) p) else at (c ∷ cs) p)
    choose true = step here
    choose false = here

pub skip_blanks-Advanced : (s : Cursor) → Advanced s (skip_blanks s)
unfolding skip_blanks advance
skip_blanks-Advanced (at [] p) = here
skip_blanks-Advanced (at (c ∷ cs) p) =
    choose (c == b' ' || c == b'\t') (skip_blanks-Advanced (at cs (advance_position c cs p)))
  where
    choose :
        (b : Bool) {t : Cursor}
        → Advanced (advance (at (c ∷ cs) p)) t
        → Advanced (at (c ∷ cs) p) (if b then t else at (c ∷ cs) p)
    choose true a = Advanced-advance a
    choose false a = here

-- A newline token carries the place behind the line break, any other token the place where it
-- begins.
abbrev pub TokenAt : Bool → Cursor → Token × Cursor → Type 0
TokenAt strict s r =
    Advanced (advance s) r.1
    × ((r.0.pos ≡ position s) ⊎ ((r.0.kind ≡ TokenKind.newline) × (r.0.pos ≡ position r.1)))
    × (strict ≡ true → is_comment r.0.kind ≡ false)

abbrev ScansAt : Bool → Cursor → Scan → Type 0
ScansAt strict s = Ensures (TokenAt strict s) (ReportsFrom s)

scan_at-Tracks :
    (flags : Flags) (c : ℕ) (cs : Bytes) (p : Position)
    → ScansAt flags.strict_json (at (c ∷ cs) p) (scan_at flags c (at (c ∷ cs) p))
unfolding scan_at
scan_at-Tracks flags c cs p =
    Ensures-if (c == b'\r') (λ _. holds (skip_lf-Advanced (advance s), inr (refl, refl), λ _. refl))
      λ _.
        Ensures-if (c == b'\n') (λ _. holds (here, inr (refl, refl), λ _. refl))
          λ _.
            Ensures-if (c == b'/') (λ _. begins (scan_comment-Tracks strict c cs p))
              λ _.
                Ensures-if (c == b'{') (λ _. mark refl)
                  λ _.
                    Ensures-if (c == b'}') (λ _. mark refl)
                      λ _.
                        Ensures-if (c == b'[') (λ _. mark refl)
                          λ _.
                            Ensures-if (c == b']') (λ _. mark refl)
                              λ _.
                                Ensures-if (c == b':') (λ _. mark refl)
                                  λ _.
                                    Ensures-if (c == b',') (λ _. mark refl)
                                      λ _.
                                        Ensures-if (c == b'"')
                                          (λ _. begins (scan_string-Tracks strict flags.raw_only s))
                                          λ _.
                                            Ensures-if (c == b'-' || within b'0' b'9' c)
                                              (λ _.
                                                begins (scan_number-Tracks strict flags.raw_only s))
                                              λ _.
                                                Ensures-if (c == b't')
                                                  (λ _.
                                                    word b't' (codes "rue") TokenKind.true_word
                                                      refl)
                                                  λ _.
                                                    Ensures-if (c == b'f')
                                                      (λ _.
                                                        word b'f' (codes "alse")
                                                          TokenKind.false_word refl)
                                                      λ _.
                                                        Ensures-if (c == b'n')
                                                          (λ _.
                                                            word b'n' (codes "ull")
                                                            TokenKind.null_word refl)
                                                          λ _. reports s here
  where
    strict : Bool
    strict = flags.strict_json

    s : Cursor
    s = at (c ∷ cs) p

    begins : {m : Scan} → TracksToken strict s m → ScansAt strict s m
    begins m = Ensures-weaken m (λ r h. (h.0, inl h.1, h.2)) λ e q. q

    mark :
        {k : TokenKind}
        → is_comment k ≡ false
        → ScansAt strict s (ok (token k (c ∷ []) (position s), advance s))
    mark plain = holds (here, inl refl, λ _. plain)

    word :
        (d : ℕ) (ds : Bytes) (k : TokenKind)
        → is_comment k ≡ false
        → ScansAt strict s (scan_literal_word (d ∷ ds) k s)
    word d ds k plain = begins (scan_literal_word-Tracks strict d ds k s plain)

-- What `next` returns: a token at a place that `advance` leads to, and a cursor behind it, strictly
-- shorter unless the text is at its end.
pub record NextAt (strict : Bool) (s : Cursor) (r : Token × Cursor) : Type 0 where
  pub behind : Advanced s r.1
  pub from : (u : Cursor) × Advanced s u × (r.0.pos ≡ position u)
  pub shorter :
      ((r.0.kind ≡ TokenKind.eof) × (rest r.1 ≡ [])) ⊎ (length (rest r.1) < length (rest s))
  pub plain : strict ≡ true → is_comment r.0.kind ≡ false

next_token-Tracks :
    (flags : Flags) (s u : Cursor)
    → Advanced s u
    → Ensures (NextAt flags.strict_json s) (ReportsFrom s) (next_token flags u)
unfolding next_token
next_token-Tracks flags s (at [] p) k = holds (record {
  behind = k;
  from = (at [] p, k, refl);
  shorter = inl (refl, refl);
  plain = λ _. refl;
})
next_token-Tracks flags s (at (c ∷ cs) p) k =
    Ensures-weaken (scan_at-Tracks flags c cs p) reach (Reports-behind (at (c ∷ cs) p) k)
  where
    place :
        (r : Token × Cursor)
        → Advanced (advance (at (c ∷ cs) p)) r.1
        → ((r.0.pos ≡ p) ⊎ ((r.0.kind ≡ TokenKind.newline) × (r.0.pos ≡ position r.1)))
        → (u : Cursor) × Advanced s u × (r.0.pos ≡ position u)
    place r a (inl e) = (at (c ∷ cs) p, k, e)
    place r a (inr e) = (r.1, Advanced-trans k (Advanced-advance a), e.1)

    reach :
        (r : Token × Cursor)
        → TokenAt flags.strict_json (at (c ∷ cs) p) r
        → NextAt flags.strict_json s r
    reach r h = record {
      behind = Advanced-trans k (Advanced-advance h.0);
      from = place r h.0 h.1;
      shorter =
          inr (omega (arith, length-Advanced h.0, length-advance_cons c cs p, length-Advanced k));
      plain = h.2;
    }

-- `next` ends on every cursor. Its token lies at a place that calls of `advance` lead to, and the
-- cursor it leaves has strictly less before it, or nothing, and then the token is the end of the text;
-- in strict JSON the token is no comment. An error is reported at a place that calls of `advance` lead
-- to.
pub next-Tracks :
    (flags : Flags) (s : Cursor)
    → Ensures (NextAt flags.strict_json s) (ReportsFrom s) (next flags s)
unfolding next
next-Tracks flags s = next_token-Tracks flags s (skip_blanks s) (skip_blanks-Advanced s)
