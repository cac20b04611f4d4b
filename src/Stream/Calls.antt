-- ===== src/Stream/Calls.antt =====
-- Sequences of calls on a decoder.
use jsonc.Prelude.{
  List, [], ◌∷◌, ℕ, zero, suc, ◌≤◌, Bool, false, ◌≡◌, refl, ◌∙◌, subst, Option, none, some, Result,
  holds, fails, arith, Bytes, length,
}
use jsonc.Tree.Internal.{Node}
use jsonc.Parser.State.{Parser, DecoderOptions, Failure}
use jsonc.Parser.Frame.{Runs}
use jsonc.Stream.State.{
  StreamError, Phase, unloaded, running, stopped, Decoder, Outcome, value, no_value, never, failed,
  new_decoder, ensure_loaded, unless_failed, decode_node, settle_more, more_phase, more_loaded,
  more,
}
use jsonc.Stream.Steps.{Kept, more_run-Runs}
use jsonc.Stream.Sound.{
  UsablePhase, Usable, Fine, left, input_length, Loaded, ensure_loaded-Loaded, decode_node-Sound,
}

-- The decoders that calls of `Decode` and `More` lead to.
pub data Reached (input : List (Option Bytes)) (o : DecoderOptions) : Decoder → Type 0 where
  fresh : Reached input o (new_decoder input o)
  decoded : {d : Decoder} → Reached input o d → Reached input o (decode_node d).1
  asked : {d : Decoder} → Reached input o d → Reached input o (more d).1

settle_more-Usable :
    (d : Decoder) (p : Parser) {r : Result Failure (Bool × Parser)}
    → Usable d
    → p.opts ≡ d.opts
    → Runs (λ r. Kept p r.1) r
    → Usable (settle_more d r).1 × ((settle_more d r).1.opts ≡ d.opts)
settle_more-Usable d p u o (holds {a = (b, q)} k) = ((k.clean, k.opts ∙ o), refl)
settle_more-Usable d p u o (fails h) = (u, refl)

more_phase-Usable :
    (ph : Phase) (d : Decoder)
    → Usable d
    → UsablePhase d.opts ph
    → Usable (more_phase ph d).1 × ((more_phase ph d).1.opts ≡ d.opts)
unfolding more_phase
more_phase-Usable unloaded d u v = (u, refl)
more_phase-Usable (stopped e) d u v = (u, refl)
more_phase-Usable (running p) d u v = settle_more-Usable d p u v.1 (more_run-Runs p v.0)

more-after :
    (d : Decoder) (r : Option StreamError × Decoder)
    → Loaded d r
    → Usable (unless_failed (λ _. false) more_loaded r).1
      × ((unless_failed (λ _. false) more_loaded r).1.opts ≡ d.opts)
unfolding more_loaded
more-after d (some e, d') l = (l.usable, l.opts)
more-after d (none, d') l =
    let (u, o) = more_phase-Usable d'.phase d' l.usable l.usable in (u, o ∙ l.opts)

more-Usable : (d : Decoder) → Usable d → Usable (more d).1 × ((more d).1.opts ≡ d.opts)
unfolding more
more-Usable d u = more-after d (ensure_loaded d) (ensure_loaded-Loaded d u)

Reached-Usable :
    {input : List (Option Bytes)} {o : DecoderOptions} {d : Decoder}
    → Reached input o d
    → Usable d × (d.opts ≡ o)
Reached-Usable fresh = (tt, refl)
Reached-Usable (decoded {d} r) =
    let (u, q) = Reached-Usable r in let s = decode_node-Sound d u in (s.usable, s.opts ∙ q)
Reached-Usable (asked {d} r) =
    let (u, q) = Reached-Usable r in let (v, w) = more-Usable d u in (v, w ∙ q)

-- However calls of `Decode` and `More` alternate, the next `Decode` ends in a well-formed value that nests
-- at most `maxDepth` deep and has at most `maxNodes` nodes, in the end of the input or in an error.
pub Reached-Fine :
    {input : List (Option Bytes)} {o : DecoderOptions} {d : Decoder}
    → Reached input o d
    → Fine o (decode_node d).0
Reached-Fine {d} r =
    let (u, q) = Reached-Usable r in
    subst (λ x. Fine x (decode_node d).0) q (decode_node-Sound d u).fine

-- the decoder after `k` calls of `Decode`
unfoldable pub after : ℕ → Decoder → Decoder
unfolding decode_node
after zero d = d
after (suc k) d = after k (decode_node d).1

-- The call gives no value.
pub data Last : Outcome → Type 0 where
  of_end : Last no_value
  of_error : {e : StreamError} → Last (failed e)

-- A call on `d`, or one that fewer calls lead to than the bound, gives no value.
abbrev pub Ends : ℕ → Decoder → Type 0
Ends n d = (k : ℕ) × (k ≤ n) × Last (decode_node (after k d)).0

Ends-here : (n : ℕ) (d : Decoder) → Last (decode_node d).0 → Ends n d
unfolding after
Ends-here n d l = (0, omega arith, l)

Ends-next : (n : ℕ) (d : Decoder) → Ends n (decode_node d).1 → Ends (suc n) d
unfolding after
Ends-next n d (k, h, l) = (suc k, omega (arith, h), l)

Ends-from :
    (n : ℕ) (d : Decoder) (r : Outcome)
    → (decode_node d).0 ≡ r
    → Fine d.opts r
    → ((m : Node) → r ≡ value m → Ends n d)
    → Ends n d
Ends-from n d (value m) e f h = h m refl
Ends-from n d no_value e f h = Ends-here n d (rw e of_end)
Ends-from n d (failed x) e f h = Ends-here n d (rw e of_error)
Ends-from n d never e f h = absurd f

Ends-left : (n : ℕ) (d : Decoder) → Usable d → left d ≤ n → Ends n d
Ends-left zero d u l =
    let s = decode_node-Sound d u in
    Ends-from zero d (decode_node d).0 refl s.fine λ m e. absurd (omega (arith, s.less m e))
Ends-left (suc n) d u l =
    let s = decode_node-Sound d u in
    Ends-from (suc n) d (decode_node d).0 refl s.fine
      λ m e. Ends-next n d (Ends-left n (decode_node d).1 s.usable (omega (arith, s.less m e)))

-- A decoder of an input of `n` bytes gives no more than `n + 1` values: one of its calls then returns the
-- end of the input or an error.
pub new_decoder-Ends :
    (bytes : Bytes) (o : DecoderOptions)
    → Ends (suc (length bytes)) (new_decoder (some bytes ∷ []) o)
unfolding input_length
new_decoder-Ends bytes o =
    Ends-left (suc (length bytes)) (new_decoder (some bytes ∷ []) o) tt (omega arith)
