-- ===== src/Path/Pointers.antt =====
-- A path that is compiled from a JSON Pointer reads what a patch resolves.
use jsonc.Prelude.{
  List, [], ◌∷◌, ◌++◌, ◌==◌, ◌≡◌, refl, sym, ◌∙◌, ap, inl, inr, Bytes, Option, none, some, Result,
  ok, err, out_of_fuel, ◌>>=◌, map, append-nil, is_empty, if◌then◌else◌, Bool-cases,
}
use jsonc.Tree.Shape.{Forest, tree}
use jsonc.Ast.Public.{PublicKind, PublicInfo, PublicNode, object_node, array_node}
use jsonc.Pointer.Tokens.{
  PointerError, parse_array_index, pointer_tokens, decode_tokens, decode_pointer_token, prepend,
  split_slash,
}
use jsonc.Pointer.Resolve.{descend_into, descend, resolve_target, member_value, at_index, found}
use jsonc.Path.Expression.{
  SegmentKind, PathSegment, named_segment, pointer_segments, as_path, path_pointer,
}
use jsonc.Path.Read.{
  option_list, child_by_name, element_at, apply_kind, apply_segment, read_from, read,
}

-- the nodes that an outcome gives
abbrev pub outcome_list : Result PointerError PublicNode → List PublicNode
outcome_list (ok n) = n ∷ []
outcome_list (err e) = []
outcome_list out_of_fuel = []

abbrev child_segment : Bytes → PathSegment
child_segment name = named_segment SegmentKind.seg_child name

found-list : (e : PointerError) (o : Option PublicNode) → outcome_list (found e o) ≡ option_list o
found-list e none = refl
found-list e (some n) = refl

apply_kind-descend_into :
    (k : PublicKind) (tok : Bytes) (ts : Forest PublicInfo)
    → child_by_name k tok ts ++ element_at k (parse_array_index tok) ts
      ≡ outcome_list (descend_into k ts tok)
unfolding child_by_name element_at descend_into
apply_kind-descend_into object_node tok ts =
    append-nil (option_list (member_value tok ts)) ∙ sym (found-list _ (member_value tok ts))
apply_kind-descend_into array_node tok ts = sym (found-list _ (at_index (parse_array_index tok) ts))
apply_kind-descend_into _ tok ts = refl

apply_segment-descend :
    (n : PublicNode) (tok : Bytes)
    → apply_segment (n ∷ []) (child_segment tok) ≡ outcome_list (descend n tok)
unfolding apply_segment apply_kind descend
apply_segment-descend (tree i ts) tok =
    append-nil (child_by_name i.kind tok ts ++ element_at i.kind (parse_array_index tok) ts)
    ∙ apply_kind-descend_into i.kind tok ts

abbrev read_after : List PublicNode → List PathSegment → List PublicNode
read_after [] segs = []
read_after (n ∷ ns) segs = read_from (n ∷ ns) segs

read_after-if :
    (r : List PublicNode) (segs : List PathSegment)
    → (if is_empty r then [] else read_from r segs) ≡ read_after r segs
read_after-if [] segs = refl
read_after-if (n ∷ ns) segs = refl

read_from-step :
    (n : PublicNode) (seg : PathSegment) (segs : List PathSegment) {r : List PublicNode}
    → apply_segment (n ∷ []) seg ≡ r
    → read_from (n ∷ []) (seg ∷ segs) ≡ read_after r segs
unfolding read_from
read_from-step n seg segs e = rw e (read_after-if _ segs)

resolve-round :
    (n : PublicNode) (tok : Bytes) (tokens : List Bytes) (r : Result PointerError PublicNode)
    → ((c : PublicNode)
        → read_from (c ∷ []) (map child_segment tokens) ≡ outcome_list (resolve_target c tokens))
    → read_after (outcome_list r) (map child_segment tokens)
      ≡ outcome_list (r >>= λ c. resolve_target c tokens)
resolve-round n tok tokens (ok c) h = h c
resolve-round n tok tokens (err e) h = refl
resolve-round n tok tokens out_of_fuel h = refl

read_from-resolve_target :
    (tokens : List Bytes) (n : PublicNode)
    → read_from (n ∷ []) (map child_segment tokens) ≡ outcome_list (resolve_target n tokens)
unfolding read_from resolve_target
read_from-resolve_target [] n = refl
read_from-resolve_target (t ∷ ts) n =
    read_from-step n (child_segment t) (map child_segment ts) (apply_segment-descend n t)
    ∙ resolve-round n t ts (descend n t) (read_from-resolve_target ts)

prepend-map :
    (t : Bytes) (r : Result PointerError (List Bytes))
    → prepend (child_segment t) (r >>= λ ts. ok (map child_segment ts))
      ≡ (prepend t r >>= λ ts. ok (map child_segment ts))
unfolding prepend
prepend-map t (ok ts) = refl
prepend-map t (err e) = refl
prepend-map t out_of_fuel = refl

pointer_segments-round :
    (r : Result PointerError Bytes) (s : Result PointerError (List PathSegment))
    (d : Result PointerError (List Bytes))
    → s ≡ (d >>= λ ts. ok (map child_segment ts))
    → (r >>= λ name. prepend (child_segment name) s)
      ≡ ((r >>= λ name. prepend name d) >>= λ ts. ok (map child_segment ts))
pointer_segments-round (ok t) s d e = ap (prepend (child_segment t)) e ∙ prepend-map t d
pointer_segments-round (err x) s d e = refl
pointer_segments-round out_of_fuel s d e = refl

pointer_segments-decode_tokens :
    (ts : List Bytes) → pointer_segments ts ≡ (decode_tokens ts >>= λ us. ok (map child_segment us))
unfolding pointer_segments decode_tokens
pointer_segments-decode_tokens [] = refl
pointer_segments-decode_tokens (t ∷ ts) =
    pointer_segments-round (decode_pointer_token t) (pointer_segments ts) (decode_tokens ts)
      (pointer_segments-decode_tokens ts)

as_path-map :
    (ptr : Bytes) (root : PublicNode) (r : Result PointerError (List Bytes))
    → (as_path ptr (r >>= λ ts. ok (map child_segment ts)) >>= λ p. ok (read p root))
      ≡ (r >>= λ ts. ok (outcome_list (resolve_target root ts)))
unfolding read
as_path-map ptr root (ok ts) = ap ok (read_from-resolve_target ts root)
as_path-map ptr root (err e) = refl
as_path-map ptr root out_of_fuel = refl

-- A JSON Pointer compiles to a path exactly if a patch accepts it, with the same error otherwise, and the path reads
-- the one node that the patch resolves, or none where the patch finds none.
pub path_pointer-resolve_target :
    (ptr : Bytes) (root : PublicNode)
    → (path_pointer ptr >>= λ p. ok (read p root))
      ≡ (pointer_tokens ptr >>= λ ts. ok (outcome_list (resolve_target root ts)))
unfolding path_pointer pointer_tokens read read_from resolve_target
path_pointer-resolve_target [] root = refl
path_pointer-resolve_target (c ∷ cs) root = elim (Bool-cases (c == b'/')) [
  | inl e ↦
      let ts = (split_slash cs).0 ∷ (split_slash cs).1 in
      rw e (
        ap (λ r. as_path (c ∷ cs) r >>= λ p. ok (read p root)) (pointer_segments-decode_tokens ts)
        ∙ as_path-map (c ∷ cs) root (decode_tokens ts))
  | inr e ↦ rw e refl
]
