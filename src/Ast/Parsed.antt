-- ===== src/Ast/Parsed.antt =====
-- What `Parse` promises of the public tree.
use jsonc.Prelude.{
  true, ◌&&◌, ◌≡◌, ◌≢◌, refl, subst, inl, inr, Bytes, List, length, ltb, Result, ok, err,
  out_of_fuel, none, Bool-cases,
}
use jsonc.Errors.{Error}
use jsonc.Tree.Shape.{Forest, tree, nil, cons}
use jsonc.Tree.Internal.{Node, NodeInfo, NodeKind}
use jsonc.Tree.Valid.{
  IsValue, scalar_value, array_value, object_value, AreValues, no_values, more_values, AreMembers,
  no_members, more_members, DistinctKeys, Keyless, is_scalar,
}
use jsonc.Parser.State.{DecoderOptions, Warning}
use jsonc.Parser.Document.{parse_document}
use jsonc.Parser.Correct.{parse_document-IsValue}
use jsonc.Ast.Public.{key_value_node, export_kind, export_info, export_node, export_nodes}
use jsonc.Ast.Walk.{count, validate}
use jsonc.Ast.Validated.{NoMember, DistinctMembers, Validated, AllValidated, validate_iff}
use jsonc.Ast.File.{File, as_file, parse_file}

NoMember-Keyless : (k : Bytes) (ts : Forest NodeInfo) → Keyless k ts → NoMember k (export_nodes ts)
unfolding export_node export_info
NoMember-Keyless k nil h = tt
NoMember-Keyless k (cons (tree i us) ts) h = (λ _. h.0, NoMember-Keyless k ts h.1)

DistinctMembers-DistinctKeys :
    (ts : Forest NodeInfo) → DistinctKeys ts → DistinctMembers (export_nodes ts)
unfolding export_node export_info
DistinctMembers-DistinctKeys nil h = tt
DistinctMembers-DistinctKeys (cons (tree i us) ts) h =
    (λ _. NoMember-Keyless i.key ts h.0, DistinctMembers-DistinctKeys ts h.1)

export-no_member : (k : NodeKind) → is_scalar k ≡ true → export_kind k ≢ key_value_node
unfolding export_kind
export-no_member NodeKind.object e q = cc
export-no_member NodeKind.array e q = cc
export-no_member NodeKind.key_value e q = cc
export-no_member NodeKind.comment e q = cc
export-no_member NodeKind.string e q = cc
export-no_member NodeKind.number e q = cc
export-no_member NodeKind.bool e q = cc
export-no_member NodeKind.null e q = cc

mutual
  unfolding Validated export_node export_info export_kind count

  Validated-IsValue : {n : Node} → IsValue n → Validated (export_node n)
  Validated-IsValue (scalar_value {i} e) = (λ _. tt, λ q. absurd (export-no_member i.kind e q), tt)
  Validated-IsValue (array_value {i} e vs) =
      rw e (λ q. absurd (cc), λ q. absurd (cc), AllValidated-AreValues vs)
  Validated-IsValue (object_value {i} {ts} e ms d) =
      rw e (λ q. DistinctMembers-DistinctKeys ts d, λ q. absurd (cc), AllValidated-AreMembers ms)

  AllValidated-AreValues : {ts : Forest NodeInfo} → AreValues ts → AllValidated (export_nodes ts)
  AllValidated-AreValues no_values = tt
  AllValidated-AreValues (more_values v vs) = (Validated-IsValue v, AllValidated-AreValues vs)

  AllValidated-AreMembers : {ts : Forest NodeInfo} → AreMembers ts → AllValidated (export_nodes ts)
  AllValidated-AreMembers no_members = tt
  AllValidated-AreMembers (more_members {i} e v ms) =
      ((rw e (λ q. absurd (cc), λ q. refl, (Validated-IsValue v, tt))), AllValidated-AreMembers ms)

-- The outcome of `Parse` within the size limit.
as_file-Validated :
    (src : Bytes) (o : DecoderOptions) (r : Result Error (Node × List Warning)) (f : File)
    → parse_document src o ≡ r
    → as_file r ≡ ok f
    → Validated f.root
unfolding as_file
as_file-Validated src o (ok (n, ws)) f e q =
    let g : File = record { root = export_node n; warnings = ws } in
    let same : g ≡ f = cc in
    subst (λ g. Validated g.root) same (Validated-IsValue (parse_document-IsValue src o n ws e))
as_file-Validated src o (err x) f e q = cc
as_file-Validated src o out_of_fuel f e q = cc

module _ (src : Bytes) (o : DecoderOptions) (f : File) (e : parse_file src o ≡ ok f) where
  -- The tree that `Parse` returns passes `Validate`, also where duplicate keys are allowed.
  pub parse_file-validate : validate f.root ≡ none
  unfolding parse_file
  parse_file-validate =
      elim (Bool-cases (ltb 0 o.max_document_size && ltb o.max_document_size (length src))) [
        | inl b ↦ absurd (cc (rw b at e))
        | inr b ↦
            (validate_iff f.root).1
              (as_file-Validated src o (parse_document src o) f refl (rw b at e))
      ]
