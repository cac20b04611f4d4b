-- ===== src/Patch/Move.antt =====
-- patch.go: `opMove`.
use jsonc.Prelude.{
  ◌&&◌, List, [], ◌∷◌, ◌++◌, if◌then◌else◌, Bytes, bytes_eq, Option, none, some, Result, ok, err,
  out_of_fuel, ◌>>=◌,
}
use jsonc.Tree.Shape.{Forest, tree, nil, cons, info, update}
use jsonc.Ast.Public.{PublicKind, PublicInfo, PublicNode, object_node}
use jsonc.Ast.Walk.{is_key_value}
use jsonc.Text.{has_prefix}
use jsonc.Pointer.Tokens.{PointerError, into_descendant, pointer_tokens}
use jsonc.Pointer.Resolve.{resolve_target}
use jsonc.Patch.Edit.{split_last, edit_parent, op_add, op_remove}
use jsonc.Patch.Replace.{has_comments}

-- `memberNode`: what its node carries
unfoldable pub member_info : Bytes → Forest PublicInfo → Option PublicInfo
unfolding is_key_value bytes_eq
member_info key nil = none
member_info key (cons t ts) =
    let rest = member_info key ts in
    if is_key_value (info t).kind && bytes_eq (info t).key key then some (info t) else rest

-- `memberNode` where the kind is that of an object
unfoldable pub member_of_kind : PublicKind → Bytes → Forest PublicInfo → Option PublicInfo
unfolding member_info
member_of_kind object_node key ts = member_info key ts
member_of_kind _ key ts = none

abbrev member_of : Bytes → Result PointerError PublicNode → Option PublicInfo
member_of last (ok (tree i ts)) = member_of_kind i.kind last ts
member_of last (err e) = none
member_of last out_of_fuel = none

-- `srcMember`
unfoldable pub source_member : PublicNode → Option (List Bytes × Bytes) → Option PublicInfo
unfolding member_of_kind resolve_target
source_member root none = none
source_member root (some (ts, last)) = member_of last (resolve_target root ts)

-- the comments that a moved member keeps, unless it has some where it comes to
unfoldable pub keep_comments : PublicInfo → PublicInfo → PublicInfo
unfolding has_comments
keep_comments src dst = if has_comments dst then dst else record dst {
  head_comment = src.head_comment;
  comment = src.comment;
  foot_comment = src.foot_comment;
}

-- The children with these comments on the member that `memberNode` finds.
unfoldable pub comment_member : PublicInfo → Bytes → Forest PublicInfo → Forest PublicInfo
unfolding is_key_value bytes_eq keep_comments
comment_member src key nil = nil
comment_member src key (cons t ts) =
    let rest = comment_member src key ts in
    if is_key_value (info t).kind && bytes_eq (info t).key key
    then cons (update (keep_comments src) t) ts
    else cons t rest

unfoldable pub comment_in_kind :
    PublicKind → PublicInfo → Bytes → Forest PublicInfo → Forest PublicInfo
unfolding comment_member
comment_in_kind object_node src key ts = comment_member src key ts
comment_in_kind _ src key ts = ts

unfoldable pub comment_in : PublicInfo → Bytes → PublicNode → Result PointerError PublicNode
unfolding comment_in_kind
comment_in src key (tree i ts) = ok (tree i (comment_in_kind i.kind src key ts))

-- the root, or the changed root where the change went through
abbrev pub or_else : PublicNode → Result PointerError PublicNode → PublicNode
or_else root (ok root') = root'
or_else root (err e) = root
or_else root out_of_fuel = root

-- the end of `opMove`, behind `opAdd`
unfoldable pub finish_move : Option PublicInfo → List Bytes → PublicNode → PublicNode
unfolding comment_in edit_parent split_last
finish_move none dst root = root
finish_move (some src) dst root = or_else root (edit_parent (comment_in src) (split_last dst) root)

-- `opMove` of the value `v` that it has found
unfoldable pub move_value :
    PublicNode
    → Bytes
    → Bytes
    → List Bytes
    → List Bytes
    → PublicNode
    → Result PointerError PublicNode
unfolding bytes_eq has_prefix source_member split_last op_remove op_add finish_move
move_value root source path tokens dst v =
    let src = source_member root (split_last tokens) in
    let moved = op_remove root source >>= λ less. op_add less path (some v) in
    if bytes_eq source path
    then ok root
    else if has_prefix path (source ++ b'/' ∷ [])
    then err into_descendant
    else moved >>= λ more. ok (finish_move src dst more)

-- `opMove`
unfoldable pub op_move : PublicNode → Bytes → Bytes → Result PointerError PublicNode
unfolding move_value pointer_tokens resolve_target
op_move root source path = pointer_tokens source >>= λ tokens. resolve_target root tokens >>= λ v.
    pointer_tokens path >>= λ dst. move_value root source path tokens dst v
