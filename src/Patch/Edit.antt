-- ===== src/Patch/Edit.antt =====
-- patch.go: `resolveParent`, `opAdd` and `opRemove`. The program changes a deep copy of the document in
-- place; the model gives the changed tree.
use jsonc.Prelude.{
  ℕ, zero, suc, Bool, true, false, ◌&&◌, List, [], ◌∷◌, if◌then◌else◌, Bytes, bytes_eq, Option,
  none, some, Result, ok, err, ◌>>=◌,
}
use jsonc.Token.{Position}
use jsonc.Tree.Shape.{Forest, tree, nil, cons, info}
use jsonc.Ast.Public.{
  PublicKind, PublicInfo, PublicNode, object_node, array_node, key_value_node, line_comment_style,
}
use jsonc.Ast.Walk.{is_key_value}
use jsonc.Pointer.Tokens.{
  PointerError, no_member, root_parent, requires_value, wrong_index, add_into, remove_from,
  remove_root, parse_array_index, pointer_tokens,
}
use jsonc.Pointer.Resolve.{descend}

abbrev set_first : PublicNode → PublicNode → PublicNode
set_first v (tree i nil) = tree i nil
set_first v (tree i (cons t ts)) = tree i (cons v ts)

abbrev has_children : PublicNode → Bool
has_children (tree i nil) = false
has_children (tree i (cons t ts)) = true

-- The members with another value where `descend` finds it.
unfoldable pub put_member : Bytes → PublicNode → Forest PublicInfo → Forest PublicInfo
unfolding is_key_value bytes_eq
put_member tok v nil = nil
put_member tok v (cons t ts) =
    let rest = put_member tok v ts in
    if is_key_value (info t).kind && bytes_eq (info t).key tok && has_children t
    then cons (set_first v t) ts
    else cons t rest

unfoldable pub put_index : ℕ → PublicNode → Forest PublicInfo → Forest PublicInfo
put_index i v nil = nil
put_index zero v (cons t ts) = cons v ts
put_index (suc i) v (cons t ts) = cons t (put_index i v ts)

abbrev pub put_at : Option ℕ → PublicNode → Forest PublicInfo → Forest PublicInfo
put_at none v ts = ts
put_at (some i) v ts = put_index i v ts

-- The children with another node where `descend` finds it.
unfoldable pub put_into : PublicKind → Bytes → PublicNode → Forest PublicInfo → Forest PublicInfo
unfolding put_member put_index parse_array_index
put_into object_node tok v ts = put_member tok v ts
put_into array_node tok v ts = put_at (parse_array_index tok) v ts
put_into _ tok v ts = ts

unfoldable pub put_child : Bytes → PublicNode → PublicNode → PublicNode
unfolding put_into
put_child tok v (tree i ts) = tree i (put_into i.kind tok v ts)

-- A change of the node that the tokens lead to, which is changed in place.
unfoldable pub edit :
    (PublicNode → Result PointerError PublicNode)
    → List Bytes
    → PublicNode
    → Result PointerError PublicNode
unfolding descend put_child
edit f [] n = f n
edit f (t ∷ ts) n = descend n t >>= λ c. edit f ts c >>= λ c'. ok (put_child t c' n)

-- `tokens[:len(tokens)-1]` and `tokens[len(tokens)-1]`
unfoldable pub split_last : List Bytes → Option (List Bytes × Bytes)
split_last [] = none
split_last (t ∷ ts) = elim (split_last ts) [ none ↦ some ([], t) | some r ↦ some (t ∷ r.0, r.1) ]

-- `resolveParent`, with what is done to the parent
unfoldable pub edit_parent :
    (Bytes → PublicNode → Result PointerError PublicNode)
    → Option (List Bytes × Bytes)
    → PublicNode
    → Result PointerError PublicNode
unfolding edit
edit_parent f none root = err root_parent
edit_parent f (some (ts, last)) root = edit (f last) ts root

abbrev no_position : Position
no_position = record { line = 0; column = 0; offset = 0 }

-- `&Node{Kind: KeyValueNode, Key: last, Children: []*Node{v}}`
abbrev pub new_member : Bytes → PublicNode → PublicNode
new_member last v =
    tree
      (record {
        kind = key_value_node;
        key = last;
        raw_key = [];
        value = [];
        raw_value = [];
        style = line_comment_style;
        pos = no_position;
        comment = [];
        head_comment = [];
        foot_comment = [];
        trail_comment = [];
      })
      (cons v nil)

abbrev set_value : PublicNode → PublicNode → PublicNode
set_value v (tree i nil) = tree i (cons v nil)
set_value v (tree i (cons t ts)) = tree i (cons v ts)

-- The loop of `opAdd` over an object's children: it sets the member, or appends it.
unfoldable pub add_member : Bytes → PublicNode → Forest PublicInfo → Forest PublicInfo
unfolding is_key_value bytes_eq
add_member last v nil = cons (new_member last v) nil
add_member last v (cons t ts) =
    let rest = add_member last v ts in
    if is_key_value (info t).kind && bytes_eq (info t).key last
    then cons (set_value v t) ts
    else cons t rest

unfoldable pub append_child : PublicNode → Forest PublicInfo → Forest PublicInfo
append_child v nil = cons v nil
append_child v (cons t ts) = cons t (append_child v ts)

-- The elements with one more at the index, where there are so many.
unfoldable pub insert_at : ℕ → PublicNode → Forest PublicInfo → Option (Forest PublicInfo)
insert_at zero v ts = some (cons v ts)
insert_at (suc i) v nil = none
insert_at (suc i) v (cons t ts) = elim (insert_at i v ts) [
  | some us ↦ some (cons t us)
  | none ↦ none
]

unfoldable pub insert_index :
    Bytes → Option ℕ → PublicNode → Forest PublicInfo → Result PointerError (Forest PublicInfo)
unfolding insert_at
insert_index last none v ts = err (wrong_index last)
insert_index last (some i) v ts = elim (insert_at i v ts) [
  | some us ↦ ok us
  | none ↦ err (wrong_index last)
]

abbrev pub dash : Bytes
dash = b'-' ∷ []

-- the switch of `opAdd` on the parent's kind
unfoldable pub add_into_kind :
    PublicKind → Bytes → PublicNode → Forest PublicInfo → Result PointerError (Forest PublicInfo)
unfolding add_member append_child insert_index parse_array_index bytes_eq
add_into_kind object_node last v ts = ok (add_member last v ts)
add_into_kind array_node last v ts =
    if bytes_eq last dash
    then ok (append_child v ts)
    else insert_index last (parse_array_index last) v ts
add_into_kind _ last v ts = err add_into

unfoldable pub add_child : PublicNode → Bytes → PublicNode → Result PointerError PublicNode
unfolding add_into_kind
add_child v last (tree i ts) = add_into_kind i.kind last v ts >>= λ us. ok (tree i us)

-- what `opAdd` does with the tokens of the path
unfoldable pub add_at : List Bytes → PublicNode → PublicNode → Result PointerError PublicNode
unfolding add_child edit_parent split_last
add_at [] v root = ok v
add_at (t ∷ ts) v root = edit_parent (add_child v) (split_last (t ∷ ts)) root

-- `opAdd`; the value may be nil
unfoldable pub op_add : PublicNode → Bytes → Option PublicNode → Result PointerError PublicNode
unfolding add_at pointer_tokens
op_add root path none = err requires_value
op_add root path (some v) = pointer_tokens path >>= λ tokens. add_at tokens v root

-- the loop of `opRemove` over an object's children
unfoldable pub remove_member : Bytes → Forest PublicInfo → Option (Forest PublicInfo)
unfolding is_key_value bytes_eq
remove_member last nil = none
remove_member last (cons t ts) =
    let rest = remove_member last ts in
    if is_key_value (info t).kind && bytes_eq (info t).key last
    then some ts
    else elim rest [ some us ↦ some (cons t us) | none ↦ none ]

unfoldable pub remove_index : ℕ → Forest PublicInfo → Option (Forest PublicInfo)
remove_index i nil = none
remove_index zero (cons t ts) = some ts
remove_index (suc i) (cons t ts) = elim (remove_index i ts) [
  | some us ↦ some (cons t us)
  | none ↦ none
]

abbrev pub remove_at_index : Option ℕ → Forest PublicInfo → Option (Forest PublicInfo)
remove_at_index none ts = none
remove_at_index (some i) ts = remove_index i ts

abbrev pub rebuilt :
    PointerError → PublicInfo → Option (Forest PublicInfo) → Result PointerError PublicNode
rebuilt e i none = err e
rebuilt e i (some ts) = ok (tree i ts)

-- the switch of `opRemove` on the parent's kind
unfoldable pub remove_child_kind :
    PublicKind → Bytes → PublicInfo → Forest PublicInfo → Result PointerError PublicNode
unfolding remove_member remove_index parse_array_index
remove_child_kind object_node last i ts = rebuilt (no_member last) i (remove_member last ts)
remove_child_kind array_node last i ts =
    rebuilt (wrong_index last) i (remove_at_index (parse_array_index last) ts)
remove_child_kind _ last i ts = err remove_from

unfoldable pub remove_child : Bytes → PublicNode → Result PointerError PublicNode
unfolding remove_child_kind
remove_child last (tree i ts) = remove_child_kind i.kind last i ts

unfoldable pub remove_at : List Bytes → PublicNode → Result PointerError PublicNode
unfolding remove_child edit_parent split_last
remove_at [] root = err remove_root
remove_at (t ∷ ts) root = edit_parent remove_child (split_last (t ∷ ts)) root

-- `opRemove`
unfoldable pub op_remove : PublicNode → Bytes → Result PointerError PublicNode
unfolding remove_at pointer_tokens
op_remove root path = pointer_tokens path >>= λ tokens. remove_at tokens root
