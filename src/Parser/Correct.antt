-- ===== src/Parser/Correct.antt =====
-- What `parseDocument` promises of every document: it ends, and the tree it gives is well formed
-- and within the limits on nesting and nodes.
use jsonc.Prelude.{
  ℕ, ◌≤◌, true, ◌≡◌, ◌≢◌, refl, inr, Bytes, List, [], ◌∷◌, Option, none, some, ◌==◌, ◌&&◌,
  Ensures-if, Result, ok, out_of_fuel, arith, Ensures, holds, fails, Ensures-ok,
  Ensures-out_of_fuel,
}
use jsonc.Errors.{Error, Encoding}
use jsonc.Tree.Internal.{Node}
use jsonc.Tree.Valid.{IsValue, height, size, comment_free, Within}
use jsonc.Parser.State.{Parser, Failure, DecoderOptions, Warning, new_parser}
use jsonc.Parser.Document.{settle, parse, refuse, strip_bom, parse_stripped, parse_document}
use jsonc.Parser.Frame.{Runs}
use jsonc.Parser.Step.{Parsed, Ready}
use jsonc.Parser.RootSound.{parse_root-Runs}

-- What holds of a document's root.
pub record Accepted (o : DecoderOptions) (r : Node × List Warning) : Type 0 where
  pub shaped : IsValue r.0
  pub shallow : Within o.max_depth (height r.0)
  pub small : Within o.max_nodes (size r.0)
  pub plain : o.strict_json ≡ true → comment_free r.0 ≡ true

abbrev Ends : DecoderOptions → Result Error (Node × List Warning) → Type 0
Ends o = Ensures (Accepted o) λ _. Unit {0}

Ready-new : (text : Bytes) (o : DecoderOptions) → Ready (new_parser text o)
unfolding new_parser
Ready-new text o = record {
  clean = λ _. refl;
  depth = inr (omega arith);
  nodes = inr (omega arith);
}

pub size-Within : {limit a b : ℕ} → Within limit b → a ≤ b → Within limit a
size-Within w le = ground (arith, w, le)

Accepted-Parsed :
    (text : Bytes) (o : DecoderOptions) {n : Node} {q : Parser} (ws : List Warning)
    → Parsed (new_parser text o) (n, q)
    → Accepted o (n, ws)
unfolding new_parser
Accepted-Parsed text o ws h = record {
  shaped = h.value;
  shallow = size-Within h.good.deep (omega arith);
  small = size-Within (h.after.limited (inr (omega arith))) (omega (arith, h.sized));
  plain = h.good.silent;
}

settle-Ends :
    (text : Bytes) (o : DecoderOptions) {r : Result Failure (Node × Parser)}
    → Runs (Parsed (new_parser text o)) r
    → Ends o (settle r)
settle-Ends text o (holds {a = (n, q)} h) = holds (Accepted-Parsed text o q.warnings h)
settle-Ends text o (fails h) = fails tt

abbrev pub Stripped : Result Error Bytes → Type 0
Stripped = Ensures (λ _. Unit {0}) λ _. Unit {0}

refuse-Stripped : (e : Option Encoding) (src : Bytes) → Stripped (refuse e src)
refuse-Stripped none src = holds tt
refuse-Stripped (some e) src = fails tt

pub strip_bom-Stripped : (src : Bytes) → Stripped (strip_bom src)
unfolding strip_bom
strip_bom-Stripped [] = refuse-Stripped none []
strip_bom-Stripped (a ∷ []) = refuse-Stripped none (a ∷ [])
strip_bom-Stripped (a ∷ b ∷ []) = refuse-Stripped _ (a ∷ b ∷ [])
strip_bom-Stripped (a ∷ b ∷ c ∷ rest) =
    Ensures-if (a == 0xEF && b == 0xBB && c == 0xBF) (λ _. holds tt)
      λ _. refuse-Stripped _ (a ∷ b ∷ c ∷ rest)

parse_stripped-Ends :
    (o : DecoderOptions) {r : Result Error Bytes} → Stripped r → Ends o (parse_stripped r o)
unfolding parse_stripped parse
parse_stripped-Ends o (holds {a = text} h) =
    settle-Ends text o (parse_root-Runs (new_parser text o) (Ready-new text o))
parse_stripped-Ends o (fails h) = fails tt

parse_document-Ends : (src : Bytes) (o : DecoderOptions) → Ends o (parse_document src o)
unfolding parse_document
parse_document-Ends src o = parse_stripped-Ends o (strip_bom-Stripped src)

-- Parsing a document ends for every input and options: the fuel of no loop runs out.
pub parse_document-ne-out_of_fuel :
    (src : Bytes) (o : DecoderOptions) → parse_document src o ≢ out_of_fuel
parse_document-ne-out_of_fuel src o = Ensures-out_of_fuel (parse_document-Ends src o)

module _ (src : Bytes) (o : DecoderOptions) (n : Node) (ws : List Warning)
    (e : parse_document src o ≡ ok (n, ws)) where
  accepted : Accepted o (n, ws)
  accepted = Ensures-ok (parse_document-Ends src o) e

  -- An accepted document is a value: a scalar without children, an array of values, or an object
  -- of members with one value each, whose keys are distinct, also where duplicates are allowed.
  pub parse_document-IsValue : IsValue n
  parse_document-IsValue = accepted.shaped

  -- The containers of an accepted document nest at most `max_depth` deep, if that is not 0.
  pub parse_document-height : Within o.max_depth (height n)
  parse_document-height = accepted.shallow

  -- An accepted document has at most `max_nodes` nodes, if that is not 0.
  pub parse_document-size : Within o.max_nodes (size n)
  parse_document-size = accepted.small

  -- A document that strict JSON accepts carries no comment on any node.
  pub parse_document-comment_free : o.strict_json ≡ true → comment_free n ≡ true
  parse_document-comment_free = accepted.plain
