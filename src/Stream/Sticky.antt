-- ===== src/Stream/Sticky.antt =====
-- An error of a decoder stays.
use jsonc.Prelude.{
  List, [], ◌∷◌, ◌≢◌, ℕ, false, ◌&&◌, ltb, ◌≡◌, refl, sym, inl, inr, Option, none, some, Result, ok,
  err, out_of_fuel, Bytes, Bool-cases, length,
}
use jsonc.Errors.{Error}
use jsonc.Tree.Internal.{Node}
use jsonc.Parser.State.{Parser, Failure}
use jsonc.Parser.Document.{strip_bom}
use jsonc.Stream.State.{
  StreamError, Phase, unloaded, running, stopped, Decoder, Outcome, failed, read_error, load_text,
  load_bytes, load, limited, ensure_phase, ensure_loaded, next_root, settle_next, next_phase,
  next_value, unless_failed, decode_node, more_phase, more_loaded, more,
}

-- Later calls return the error and change nothing.
abbrev pub Stays : StreamError → Decoder → Type 0
Stays e d = (decode_node d ≡ (failed e, d)) × (more d ≡ (false, d))

Stays-stopped : (e : StreamError) (d : Decoder) → d.phase ≡ stopped e → Stays e d
unfolding decode_node ensure_loaded next_value next_phase more more_loaded more_phase
Stays-stopped e d h = (rw h refl, rw h refl)

-- The outcome is a failure with the decoder stopped on it, or it is none.
abbrev StopsAt : Outcome × Decoder → Type 0
StopsAt r = (e : StreamError) (d : Decoder) → r ≡ (failed e, d) → d.phase ≡ stopped e

same_failure :
    {e x : StreamError} {d y : Decoder}
    → ◌≡◌ {A = Outcome × Decoder} (failed x, y) (failed e, d)
    → y.phase ≡ stopped x
    → d.phase ≡ stopped e
same_failure {e} {x} {d} {y} h p =
    let a : x ≡ e = cc in let b : y ≡ d = cc in rw (sym b) (rw (sym a) p)

settle_next-StopsAt :
    (d : Decoder) (r : Result Failure (Option (Node × ℕ) × Parser)) → StopsAt (settle_next d r)
unfolding settle_next
settle_next-StopsAt d (ok (none, q)) e y h = absurd cc
settle_next-StopsAt d (ok (some (n, k), q)) e y h = absurd cc
settle_next-StopsAt d (err f) e y h = same_failure h refl
settle_next-StopsAt d out_of_fuel e y h = absurd cc

next_phase-StopsAt : (ph : Phase) (d : Decoder) → d.phase ≡ ph → StopsAt (next_phase ph d)
unfolding next_phase
next_phase-StopsAt unloaded d p e y h = absurd cc
next_phase-StopsAt (stopped x) d p e y h = same_failure h p
next_phase-StopsAt (running q) d p e y h = settle_next-StopsAt d (next_root q) e y h

next_value-StopsAt : (d : Decoder) → StopsAt (next_value d)
unfolding next_value
next_value-StopsAt d = next_phase-StopsAt d.phase d refl

-- what is left where loading fails
abbrev StopsOn : Option StreamError × Decoder → Type 0
StopsOn r = (e : StreamError) (d : Decoder) → r ≡ (some e, d) → d.phase ≡ stopped e

same_stop :
    {e x : StreamError} {d y : Decoder}
    → ◌≡◌ {A = Option StreamError × Decoder} (some x, y) (some e, d)
    → y.phase ≡ stopped x
    → d.phase ≡ stopped e
same_stop {e} {x} {d} {y} h p =
    let a : x ≡ e = cc in let b : y ≡ d = cc in rw (sym b) (rw (sym a) p)

load_text-StopsOn :
    (r : Result Error Bytes) (bytes : Bytes) (d : Decoder) → StopsOn (load_text r bytes d)
unfolding load_text
load_text-StopsOn (ok src) bytes d e y h = absurd cc
load_text-StopsOn (err x) bytes d e y h = same_stop h refl
load_text-StopsOn out_of_fuel bytes d e y h = absurd cc

load_bytes-StopsOn : (bytes : Bytes) (d : Decoder) → StopsOn (load_bytes bytes d)
unfolding load_bytes
load_bytes-StopsOn bytes d e y h =
    elim (Bool-cases
      (ltb 0 d.opts.max_document_size && ltb d.opts.max_document_size (length bytes))) [
        | inl b ↦ same_stop (rw b at h) refl
        | inr b ↦ load_text-StopsOn (strip_bom bytes) bytes d e y (rw b at h)
      ]

unless_failed-StopsAt :
    (r : Option StreamError × Decoder) → StopsOn r → StopsAt (unless_failed failed next_value r)
unless_failed-StopsAt (some x, d) s e y h = same_failure h (s x d refl)
unless_failed-StopsAt (none, d) s e y h = next_value-StopsAt d e y h

load-Stays :
    (input : List (Option Bytes)) (d : Decoder) (e : StreamError) (y : Decoder)
    → e ≢ read_error
    → unless_failed failed next_value (load input d) ≡ (failed e, y)
    → Stays e y
unfolding load
load-Stays [] d e y ne h =
    Stays-stopped e y (unless_failed-StopsAt (load_bytes [] d) (load_bytes-StopsOn [] d) e y h)
load-Stays (none ∷ later) d e y ne h = let q : read_error ≡ e = cc in absurd (ne (sym q))
load-Stays (some bytes ∷ later) d e y ne h =
    let bytes' = limited d.opts.max_document_size bytes in
    let d' = record d { input = later } in
    Stays-stopped e y
      (unless_failed-StopsAt (load_bytes bytes' d') (load_bytes-StopsOn bytes' d') e y h)

ensure_phase-Stays :
    (ph : Phase) (d : Decoder) (e : StreamError) (y : Decoder)
    → e ≢ read_error
    → unless_failed failed next_value (ensure_phase ph d) ≡ (failed e, y)
    → Stays e y
ensure_phase-Stays unloaded d e y ne h = load-Stays d.input d e y ne h
ensure_phase-Stays (running r) d e y ne h = Stays-stopped e y (next_value-StopsAt d e y h)
ensure_phase-Stays (stopped x) d e y ne h = Stays-stopped e y (next_value-StopsAt d e y h)

-- Once a call of `Decode` has failed to load the input or to parse a value, for another reason than an
-- error of the reader, every later call of `Decode` fails with the same error and `More` reports no
-- value, and neither changes the decoder. The errors of converting a value are not among these.
pub decode_node-Stays :
    (d d' : Decoder) (e : StreamError)
    → e ≢ read_error
    → decode_node d ≡ (failed e, d')
    → Stays e d'
unfolding decode_node ensure_loaded
decode_node-Stays d d' e ne h = ensure_phase-Stays d.phase d e d' ne h
