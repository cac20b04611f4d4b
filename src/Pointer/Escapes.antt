-- ===== src/Pointer/Escapes.antt =====
-- A pointer built from tokens by the escapes of RFC 6901 gives the tokens back.
use jsonc.Prelude.{
  ℕ, false, List, [], ◌∷◌, ◌++◌, ◌==◌, ◌≡◌, refl, inl, inr, if◌then◌else◌, Bytes, ok, arith,
  Bool-cases, map, append-nil,
}
use jsonc.Pointer.Tokens.{
  prepend, decode_loop, decode_pointer_token, split_slash, decode_tokens, pointer_tokens,
}

-- RFC 6901: `~` is written `~0`, and `/` is written `~1`.
unfoldable pub escape : Bytes → Bytes
escape [] = []
escape (c ∷ cs) =
    let rest = escape cs in
    if c == b'~' then b'~' ∷ b'0' ∷ rest else if c == b'/' then b'~' ∷ b'1' ∷ rest else c ∷ rest

-- A slash stands before each token.
unfoldable pub pointer_of : List Bytes → Bytes
unfolding escape
pointer_of [] = []
pointer_of (t ∷ ts) = b'/' ∷ escape t ++ pointer_of ts

decode_loop-plain :
    (tok : Bytes) (c : ℕ) (cs : Bytes)
    → c == b'~' ≡ false
    → decode_loop tok (c ∷ cs) ≡ prepend c (decode_loop tok cs)
unfolding decode_loop prepend
decode_loop-plain tok c [] e = rw e refl
decode_loop-plain tok c (d ∷ ds) e = rw e refl

decode_loop-escape : (tok t : Bytes) → decode_loop tok (escape t) ≡ ok t
unfolding escape decode_loop prepend
decode_loop-escape tok [] = refl
decode_loop-escape tok (c ∷ cs) = elim (Bool-cases (c == b'~')) [
  | inl e ↦ let q : c ≡ b'~' = ground arith in rw (q, decode_loop-escape tok cs) refl
  | inr e ↦ elim (Bool-cases (c == b'/')) [
    | inl f ↦ let q : c ≡ b'/' = ground arith in rw (q, decode_loop-escape tok cs) refl
    | inr f ↦ rw (e, f) (rw (decode_loop-plain tok c (escape cs) e, decode_loop-escape tok cs) refl)
  ]
]

split_slash-escape :
    (t rest : Bytes)
    → split_slash (escape t ++ rest) ≡ (escape t ++ (split_slash rest).0, (split_slash rest).1)
unfolding escape split_slash
split_slash-escape [] rest = refl
split_slash-escape (c ∷ cs) rest = elim (Bool-cases (c == b'~')) [
  | inl e ↦ rw e (rw (split_slash-escape cs rest) refl)
  | inr e ↦ elim (Bool-cases (c == b'/')) [
    | inl f ↦ rw (e, f) (rw (split_slash-escape cs rest) refl)
    | inr f ↦ rw (e, f) (rw (f, split_slash-escape cs rest) refl)
  ]
]

split_slash-pointer_of :
    (t : Bytes) (ts : List Bytes)
    → split_slash (escape t ++ pointer_of ts) ≡ (escape t, map escape ts)
unfolding pointer_of split_slash
split_slash-pointer_of t [] = rw (split_slash-escape t []) (rw (append-nil (escape t)) refl)
split_slash-pointer_of t (u ∷ us) =
    rw
      (
        split_slash-escape t (b'/' ∷ escape u ++ pointer_of us),
        split_slash-pointer_of u us,
        append-nil (escape t),
      )
      refl

decode_tokens-map : (ts : List Bytes) → decode_tokens (map escape ts) ≡ ok ts
unfolding decode_tokens decode_pointer_token prepend
decode_tokens-map [] = refl
decode_tokens-map (t ∷ ts) = rw (decode_loop-escape (escape t) t, decode_tokens-map ts) refl

-- A pointer gives back the tokens that it was built from, whatever bytes they have.
pub pointer_tokens-pointer_of : (ts : List Bytes) → pointer_tokens (pointer_of ts) ≡ ok ts
unfolding pointer_tokens pointer_of
pointer_tokens-pointer_of [] = refl
pointer_tokens-pointer_of (t ∷ ts) = rw (split_slash-pointer_of t ts) (decode_tokens-map (t ∷ ts))
