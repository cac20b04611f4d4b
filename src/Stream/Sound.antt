-- ===== src/Stream/Sound.antt =====
-- What a call of `Decode` gives, and what it leaves of the decoder.
use jsonc.Prelude.{
  List, sym, ℕ, zero, suc, ◌+◌, ◌≤◌, ◌<◌, ◌&&◌, ltb, [], ◌∷◌, ◌==◌, ◌≡◌, refl, subst, ◌∙◌, inl, inr,
  Option, none, some, Result, Ensures, Ensures-if, holds, fails, arith, length, take, Bytes,
  Bool-cases,
}
use jsonc.Errors.{Error, Encoding}
use jsonc.Tree.Internal.{Node}
use jsonc.Parser.State.{Parser, DecoderOptions, Failure, remaining, held, new_parser}
use jsonc.Parser.Document.{strip_bom, refuse}
use jsonc.Parser.Frame.{Clean, Runs}
use jsonc.Parser.Correct.{Accepted}
use jsonc.Stream.State.{
  StreamError, Phase, unloaded, running, stopped, Decoder, Outcome, value, no_value, never, failed,
  load_text, load_bytes, load, limited, ensure_phase, ensure_loaded, settle_next, next_phase,
  next_value, unless_failed, decode_node,
}
use jsonc.Stream.Steps.{Next, ended, read, next_root-Runs}

-- The parser runs under the decoder's options, with a lookahead that they allow.
abbrev pub UsablePhase : DecoderOptions → Phase → Type 0
UsablePhase o unloaded = Unit
UsablePhase o (running p) = Clean p × (p.opts ≡ o)
UsablePhase o (stopped e) = Unit

abbrev pub Usable : Decoder → Type 0
Usable d = UsablePhase d.opts d.phase

-- A value is well formed and within the limits on nesting and nodes.
abbrev pub Fine : DecoderOptions → Outcome → Type 0
Fine o (value n) = Accepted o (n, [])
Fine o no_value = Unit
Fine o (failed e) = Unit
Fine o never = ⊥

-- the length of all that the reader gives
unfoldable pub input_length : List (Option Bytes) → ℕ
input_length [] = 0
input_length (none ∷ later) = input_length later
input_length (some bytes ∷ later) = length bytes + input_length later

-- a bound on the values that are left
abbrev pub left_of : List (Option Bytes) → Phase → ℕ
left_of input unloaded = suc (input_length input)
left_of input (running p) = remaining p
left_of input (stopped e) = 0

abbrev pub left : Decoder → ℕ
left d = left_of d.input d.phase

pub record Sound (d : Decoder) (r : Outcome × Decoder) : Type 0 where
  pub fine : Fine d.opts r.0
  pub usable : Usable r.1
  pub opts : r.1.opts ≡ d.opts
  pub less : (n : Node) → r.0 ≡ value n → left r.1 < left d

settle_next-Sound :
    (d : Decoder) (p : Parser) {r : Result Failure (Option (Node × ℕ) × Parser)}
    → d.phase ≡ running p
    → p.opts ≡ d.opts
    → Runs (Next p) r
    → Sound d (settle_next d r)
unfolding settle_next
settle_next-Sound d p e o (holds {a = (none, q)} (ended k)) = record {
  fine = tt;
  usable = (k.clean, k.opts ∙ o);
  opts = refl;
  less = λ n x. cc;
}
settle_next-Sound d p e o (holds {a = (some (m, i), q)} (read k l a)) = record {
  fine = subst (λ x. Accepted x (m, [])) o a;
  usable = (k.clean, k.opts ∙ o);
  opts = refl;
  less = λ n x. rw e l;
}
settle_next-Sound d p e o (fails h) = record {
  fine = tt;
  usable = tt;
  opts = refl;
  less = λ n x. cc;
}

next_phase-Sound :
    (ph : Phase) (d : Decoder) → d.phase ≡ ph → UsablePhase d.opts ph → Sound d (next_phase ph d)
unfolding next_phase
next_phase-Sound unloaded d e u = record {
  fine = tt;
  usable = rw e tt;
  opts = refl;
  less = λ n x. cc;
}
next_phase-Sound (stopped x) d e u = record {
  fine = tt;
  usable = rw e tt;
  opts = refl;
  less = λ n y. cc;
}
next_phase-Sound (running p) d e u = settle_next-Sound d p e u.1 (next_root-Runs p u.0)

next_value-Sound : (d : Decoder) → Usable d → Sound d (next_value d)
unfolding next_value
next_value-Sound d u = next_phase-Sound d.phase d refl u

-- What loading leaves of the decoder.
pub record Loaded (d : Decoder) (r : Option StreamError × Decoder) : Type 0 where
  pub usable : Usable r.1
  pub opts : r.1.opts ≡ d.opts
  pub fewer : left r.1 ≤ left d

-- `stripBOM` gives a text that is no longer, or an error.
abbrev Shorter : ℕ → Result Error Bytes → Type 0
Shorter n = Ensures (λ src. length src ≤ n) λ _. Unit

refuse-Shorter : (e : Option Encoding) (src : Bytes) → Shorter (length src) (refuse e src)
refuse-Shorter none src = holds (omega arith)
refuse-Shorter (some e) src = fails tt

strip_bom-Shorter : (src : Bytes) → Shorter (length src) (strip_bom src)
unfolding strip_bom
strip_bom-Shorter [] = refuse-Shorter none []
strip_bom-Shorter (a ∷ []) = refuse-Shorter none (a ∷ [])
strip_bom-Shorter (a ∷ b ∷ []) = refuse-Shorter _ (a ∷ b ∷ [])
strip_bom-Shorter (a ∷ b ∷ c ∷ rest) =
    Ensures-if (a == 0xEF && b == 0xBB && c == 0xBF) (λ _. holds (omega arith))
      λ _. refuse-Shorter _ (a ∷ b ∷ c ∷ rest)

load_text-Loaded :
    (d d' : Decoder) (bytes : Bytes) (n : ℕ) {r : Result Error Bytes}
    → d'.opts ≡ d.opts
    → Shorter n r
    → n < left d
    → Loaded d (load_text r bytes d')
unfolding load_text new_parser remaining held
load_text-Loaded d d' bytes n o (holds {a = src} h) l = record {
  usable = (λ _. refl, refl);
  opts = o;
  fewer = omega (arith, h, l);
}
load_text-Loaded d d' bytes n o (fails h) l = record { usable = tt; opts = o; fewer = omega arith }

load_bytes-Loaded :
    (d d' : Decoder) (bytes : Bytes)
    → d'.opts ≡ d.opts
    → length bytes < left d
    → Loaded d (load_bytes bytes d')
unfolding load_bytes
load_bytes-Loaded d d' bytes o l =
    elim (Bool-cases
      (ltb 0 d'.opts.max_document_size && ltb d'.opts.max_document_size (length bytes))) [
        | inl e ↦ rw e (record { usable = tt; opts = o; fewer = omega arith })
        | inr e ↦ rw e (load_text-Loaded d d' bytes (length bytes) o (strip_bom-Shorter bytes) l)
      ]

take-le : (n : ℕ) (xs : Bytes) → length (take n xs) ≤ length xs
take-le zero xs = omega arith
take-le (suc n) [] = omega arith
take-le (suc n) (x ∷ xs) = omega (arith, take-le n xs)

limited-le : (n : ℕ) (bytes : Bytes) → length (limited n bytes) ≤ length bytes
limited-le n bytes = elim (Bool-cases (ltb 0 n)) [
  | inl e ↦ rw e (take-le (n + 1) bytes)
  | inr e ↦ rw e (omega arith)
]

load-Loaded :
    (input : List (Option Bytes)) (d : Decoder)
    → d.phase ≡ unloaded
    → input_length input < left d
    → Loaded d (load input d)
unfolding load input_length
load-Loaded [] d e l = load_bytes-Loaded d d [] refl (omega (arith, l))
load-Loaded (none ∷ later) d e l = record {
  usable = subst (UsablePhase d.opts) (sym e) tt;
  opts = refl;
  fewer = subst (λ ph. left_of later ph ≤ left d) (sym e) l;
}
load-Loaded (some bytes ∷ later) d e l =
    load_bytes-Loaded d (record d { input = later }) (limited d.opts.max_document_size bytes) refl
      (omega (arith, limited-le d.opts.max_document_size bytes, l))

ensure_phase-Loaded :
    (ph : Phase) (d : Decoder) → d.phase ≡ ph → Usable d → Loaded d (ensure_phase ph d)
ensure_phase-Loaded unloaded d e u = load-Loaded d.input d e (rw e (omega arith))
ensure_phase-Loaded (running p) d e u = record { usable = u; opts = refl; fewer = omega arith }
ensure_phase-Loaded (stopped x) d e u = record { usable = u; opts = refl; fewer = omega arith }

pub ensure_loaded-Loaded : (d : Decoder) → Usable d → Loaded d (ensure_loaded d)
unfolding ensure_loaded
ensure_loaded-Loaded d u = ensure_phase-Loaded d.phase d refl u

decode_node-after :
    (d : Decoder) (r : Option StreamError × Decoder)
    → Loaded d r
    → Sound d (unless_failed failed next_value r)
decode_node-after d (some e, d') l = record {
  fine = tt;
  usable = l.usable;
  opts = l.opts;
  less = λ n x. cc;
}
decode_node-after d (none, d') l =
    let s = next_value-Sound d' l.usable in
    record {
      fine = subst (λ o. Fine o (next_value d').0) l.opts s.fine;
      usable = s.usable;
      opts = s.opts ∙ l.opts;
      less = λ n x. omega (arith, s.less n x, l.fewer);
    }

-- A call of `Decode` on a decoder that is usable ends in a well-formed value within the limits on nesting and nodes, in the
-- end of the input or in an error, and leaves a usable decoder with the same options, which has less of
-- the input left if there was a value.
pub decode_node-Sound : (d : Decoder) → Usable d → Sound d (decode_node d)
unfolding decode_node
decode_node-Sound d u = decode_node-after d (ensure_loaded d) (ensure_loaded-Loaded d u)
