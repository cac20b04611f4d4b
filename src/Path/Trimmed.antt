-- ===== src/Path/Trimmed.antt =====
-- Texts that are trimmed of nothing, and texts that are cut at a byte.
use jsonc.Prelude.{
  ℕ, Bool, true, false, [], ◌∷◌, ◌++◌, ◌==◌, within, Bytes, ◌≡◌, refl, sym, ◌∙◌, ap, some, arith,
  append-nil,
}
use jsonc.Text.{cut, trim_space, trim_from, space_size, space_size_back, reverse_onto}
use jsonc.Strings.Unquote.{contains_byte}
use jsonc.Path.Expression.{split_end}

abbrev pub tight : ℕ → Bool
tight c = within 0x21 0x7E c

space_size-tight : (c : ℕ) (cs : Bytes) → tight c ≡ true → space_size (c ∷ cs) ≡ 0
unfolding space_size
space_size-tight c [] e = ground arith
space_size-tight c (d ∷ []) e = ground arith
space_size-tight c (d ∷ f ∷ cs) e = ground arith

space_size_back-tight : (c : ℕ) (cs : Bytes) → tight c ≡ true → space_size_back (c ∷ cs) ≡ 0
unfolding space_size_back
space_size_back-tight c [] e = ground arith
space_size_back-tight c (d ∷ []) e = ground arith
space_size_back-tight c (d ∷ f ∷ cs) e = ground arith

trim_from-tight :
    (size : Bytes → ℕ) (c : ℕ) (cs : Bytes) → size (c ∷ cs) ≡ 0 → trim_from size 0 (c ∷ cs) ≡ c ∷ cs
unfolding trim_from
trim_from-tight size c cs e = rw e refl

reverse_onto-twice :
    (done s out : Bytes) → reverse_onto out (reverse_onto done s) ≡ reverse_onto (s ++ out) done
unfolding reverse_onto
reverse_onto-twice done [] out = refl
reverse_onto-twice done (c ∷ cs) out = reverse_onto-twice (c ∷ done) cs out

reverse_onto-snoc :
    (done s : Bytes) (d : ℕ) → reverse_onto done (s ++ d ∷ []) ≡ d ∷ reverse_onto done s
unfolding reverse_onto
reverse_onto-snoc done [] d = refl
reverse_onto-snoc done (c ∷ cs) d = reverse_onto-snoc (c ∷ done) cs d

-- A text with no space at its ends is trimmed of nothing.
pub trim_space-tight :
    (c d : ℕ) (cs s : Bytes)
    → tight c ≡ true
    → tight d ≡ true
    → c ∷ cs ≡ s ++ d ∷ []
    → trim_space (c ∷ cs) ≡ c ∷ cs
unfolding trim_space
trim_space-tight c d cs s e f q =
    let back : reverse_onto [] (c ∷ cs) ≡ d ∷ reverse_onto [] s =
      ap (reverse_onto []) q ∙ reverse_onto-snoc [] s d in
    rw (trim_from-tight space_size c cs (space_size-tight c cs e)) (
      rw back (
        rw
          (trim_from-tight space_size_back d (reverse_onto [] s)
            (space_size_back-tight d (reverse_onto [] s) f))
          (ap (reverse_onto []) (sym back)
            ∙ reverse_onto-twice [] (c ∷ cs) []
            ∙ append-nil (c ∷ cs))))

pub cut-append :
    (b : ℕ) (s rest : Bytes) → contains_byte s b ≡ false → cut b (s ++ b ∷ rest) ≡ (s, some rest)
unfolding cut contains_byte
cut-append b [] rest e = let q : b == b ≡ true = ground arith in rw q refl
cut-append b (c ∷ cs) rest e =
    let q : c == b ≡ false = ground arith in
    let h : contains_byte cs b ≡ false = ground arith in rw q (rw (cut-append b cs rest h) refl)

pub split_end-snoc : (c d : ℕ) (s : Bytes) → split_end c (s ++ d ∷ []) ≡ (c ∷ s, d)
unfolding split_end
split_end-snoc c d [] = refl
split_end-snoc c d (e ∷ s) = rw (split_end-snoc e d s) refl

pub contains_byte-append :
    (b : ℕ) (s t : Bytes)
    → contains_byte s b ≡ false
    → contains_byte t b ≡ false
    → contains_byte (s ++ t) b ≡ false
unfolding contains_byte
contains_byte-append b [] t e f = f
contains_byte-append b (c ∷ cs) t e f = ground (arith, contains_byte-append b cs t)
