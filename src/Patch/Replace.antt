-- ===== src/Patch/Replace.antt =====
-- patch.go: `opReplace`; path.go: `replacementNode`.
use jsonc.Prelude.{
  Bool, not, ◌&&◌, ◌||◌, List, [], ◌∷◌, if◌then◌else◌, is_empty, Bytes, bytes_eq, Option, none,
  some, Result, ok, err, ◌>>=◌,
}
use jsonc.Tree.Shape.{Forest, tree, nil, cons, info, update}
use jsonc.Ast.Public.{PublicKind, PublicInfo, PublicNode, object_node, array_node}
use jsonc.Ast.Walk.{is_key_value}
use jsonc.Pointer.Tokens.{
  PointerError, no_member, no_index, no_descent, requires_value, parse_array_index, pointer_tokens,
}
use jsonc.Pointer.Resolve.{found, at_index}
use jsonc.Patch.Edit.{put_index, put_at, edit_parent, split_last}

-- `hasComments`
unfoldable pub has_comments : PublicInfo → Bool
has_comments i =
    not (is_empty i.head_comment)
    || not (is_empty i.comment)
    || not (is_empty i.foot_comment)
    || not (is_empty i.trail_comment)

abbrev take_comments : PublicInfo → PublicInfo → PublicInfo
take_comments old i = record i {
  head_comment = old.head_comment;
  comment = old.comment;
  foot_comment = old.foot_comment;
  trail_comment = old.trail_comment;
}

-- `replacementNode`
unfoldable pub replacement_node : PublicNode → PublicNode → PublicNode
unfolding has_comments
replacement_node old v = if has_comments (info v) then v else update (take_comments (info old)) v

-- The children with another value in the member that `memberNode` finds.
unfoldable pub replace_member : Bytes → PublicNode → Forest PublicInfo → Option (Forest PublicInfo)
unfolding is_key_value bytes_eq
replace_member last v nil = none
replace_member last v (cons (tree i us) ts) =
    let rest = replace_member last v ts in
    if is_key_value i.kind && bytes_eq i.key last
    then some (cons (tree i (cons v nil)) ts)
    else elim rest [ some ws ↦ some (cons (tree i us) ws) | none ↦ none ]

-- the switch of `opReplace` on the parent's kind
unfoldable pub replace_into_kind :
    PublicKind → Bytes → PublicNode → Forest PublicInfo → Result PointerError (Forest PublicInfo)
unfolding replace_member replacement_node put_index parse_array_index
replace_into_kind object_node last v ts = found (no_member last) (replace_member last v ts)
replace_into_kind array_node last v ts =
    let i = parse_array_index last in
    found (no_index last) (at_index i ts) >>= λ old. ok (put_at i (replacement_node old v) ts)
replace_into_kind _ last v ts = err no_descent

unfoldable pub replace_child : PublicNode → Bytes → PublicNode → Result PointerError PublicNode
unfolding replace_into_kind
replace_child v last (tree i ts) = replace_into_kind i.kind last v ts >>= λ us. ok (tree i us)

-- what `opReplace` does with the tokens of the path
unfoldable pub replace_at : List Bytes → PublicNode → PublicNode → Result PointerError PublicNode
unfolding replace_child edit_parent split_last
replace_at [] v root = ok v
replace_at (t ∷ ts) v root = edit_parent (replace_child v) (split_last (t ∷ ts)) root

-- `opReplace`; the value may be nil
unfoldable pub op_replace : PublicNode → Bytes → Option PublicNode → Result PointerError PublicNode
unfolding replace_at pointer_tokens
op_replace root path none = err requires_value
op_replace root path (some v) = pointer_tokens path >>= λ tokens. replace_at tokens v root
