-- ===== src/Pointer/Resolve.antt =====
-- patch.go: `descend` and `resolveTarget`.
use jsonc.Prelude.{
  ℕ, ◌&&◌, List, [], ◌∷◌, if◌then◌else◌, Bytes, bytes_eq, Option, none, some, Result, ok, err,
  ◌>>=◌, get_elem?,
}
use jsonc.Tree.Shape.{Forest, tree, nil, cons, info, to_list}
use jsonc.Ast.Public.{PublicKind, PublicInfo, PublicNode, object_node, array_node}
use jsonc.Ast.Walk.{is_key_value}
use jsonc.Pointer.Tokens.{PointerError, no_member, no_index, no_descent, parse_array_index}

abbrev first_child : PublicNode → Option PublicNode
first_child (tree i (cons t ts)) = some t
first_child (tree i nil) = none

-- the loop of `descend` over an object's children
unfoldable pub member_value : Bytes → Forest PublicInfo → Option PublicNode
unfolding is_key_value bytes_eq
member_value tok nil = none
member_value tok (cons t ts) =
    let rest = member_value tok ts in
    if is_key_value (info t).kind && bytes_eq (info t).key tok
    then elim (first_child t) [ some v ↦ some v | none ↦ rest ]
    else rest

abbrev pub found : {A : Type 0} → PointerError → Option A → Result PointerError A
found e (some a) = ok a
found e none = err e

abbrev pub at_index : Option ℕ → Forest PublicInfo → Option PublicNode
at_index (some i) ts = get_elem? (to_list ts) i
at_index none ts = none

-- the switch of `descend`
unfoldable pub descend_into :
    PublicKind → Forest PublicInfo → Bytes → Result PointerError PublicNode
unfolding member_value parse_array_index
descend_into object_node ts tok = found (no_member tok) (member_value tok ts)
descend_into array_node ts tok = found (no_index tok) (at_index (parse_array_index tok) ts)
descend_into _ ts tok = err no_descent

-- `descend`, from a node that is not nil
unfoldable pub descend : PublicNode → Bytes → Result PointerError PublicNode
unfolding descend_into
descend (tree i ts) tok = descend_into i.kind ts tok

-- `resolveTarget`
unfoldable pub resolve_target : PublicNode → List Bytes → Result PointerError PublicNode
unfolding descend
resolve_target cur [] = ok cur
resolve_target cur (t ∷ ts) = descend cur t >>= λ next. resolve_target next ts
