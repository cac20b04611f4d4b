-- ===== src/Path/Read.antt =====
-- path.go: `Path.Read` and what it offers; node.go: `Node.String`.
use jsonc.Prelude.{
  ℕ, List, [], ◌∷◌, ◌++◌, if◌then◌else◌, is_empty, Bytes, codes, bytes_eq, Option, none, some,
  Result, ok, err, ◌>>=◌, map,
}
use jsonc.Token.{Position}
use jsonc.Integers.{decimal}
use jsonc.Tree.Shape.{Forest, tree, nil, cons, info}
use jsonc.Ast.Public.{
  PublicKind, PublicInfo, PublicNode, PublicStyle, object_node, array_node, key_value_node,
  string_node, number_node, boolean_node, null_node, comment_node, line_comment_style,
  block_comment_style, unnamed_style,
}
use jsonc.Ast.Walk.{is_key_value, count}
use jsonc.Pointer.Tokens.{parse_array_index}
use jsonc.Pointer.Resolve.{member_value, at_index}
use jsonc.Path.Expression.{SegmentKind, PathSegment, NodePath}

abbrev pub option_list : {A : Type 0} → Option A → List A
option_list none = []
option_list (some a) = a ∷ []

-- `childByName`; its loop is that of `descend`
unfoldable pub child_by_name : PublicKind → Bytes → Forest PublicInfo → List PublicNode
unfolding member_value
child_by_name object_node name ts = option_list (member_value name ts)
child_by_name _ name ts = []

-- the elements of an array at an index, if there is one
unfoldable pub element_at : PublicKind → Option ℕ → Forest PublicInfo → List PublicNode
element_at array_node i ts = option_list (at_index i ts)
element_at _ i ts = []

-- what `valueChildrenPublic` takes for a child
unfoldable pub value_child : PublicKind → PublicNode → List PublicNode
value_child comment_node t = []
value_child key_value_node (tree i (cons v vs)) = v ∷ []
value_child _ t = t ∷ []

-- `valueChildrenPublic`
unfoldable pub value_children_public : Forest PublicInfo → List PublicNode
unfolding value_child
value_children_public nil = []
value_children_public (cons t ts) = value_child (info t).kind t ++ value_children_public ts

abbrev if_named : Bytes → PublicInfo → Forest PublicInfo → List PublicNode
if_named name i nil = []
if_named name i (cons v vs) = if bytes_eq i.key name then v ∷ [] else []

abbrev below_kind : PublicKind → List PublicNode → List PublicNode → List PublicNode
below_kind object_node members elements = members
below_kind array_node members elements = elements
below_kind _ members elements = []

-- `collectRecursive`, and its loops over the children of an object, of a member and of an array
unfoldable mutual
  unfolding is_key_value bytes_eq

  pub collect_recursive : Bytes → PublicNode → List PublicNode
  collect_recursive name (tree i ts) =
      below_kind i.kind (collect_members name ts) (collect_all name ts)

  pub collect_members : Bytes → Forest PublicInfo → List PublicNode
  collect_members name nil = []
  collect_members name (cons (tree i ts) us) =
      let here = if_named name i ts ++ collect_all name ts in
      let rest = collect_members name us in if is_key_value i.kind then here ++ rest else rest

  pub collect_all : Bytes → Forest PublicInfo → List PublicNode
  collect_all name nil = []
  collect_all name (cons t ts) = collect_recursive name t ++ collect_all name ts

-- the switch of `applySegment` at a node; the index of a child segment is `indexFromName`
unfoldable pub apply_kind : SegmentKind → PathSegment → PublicNode → List PublicNode
unfolding child_by_name element_at parse_array_index value_children_public collect_recursive
apply_kind SegmentKind.seg_child seg (tree i ts) =
    child_by_name i.kind seg.name ts ++ element_at i.kind (parse_array_index seg.name) ts
apply_kind SegmentKind.seg_index seg (tree i ts) = element_at i.kind (some seg.index) ts
apply_kind SegmentKind.seg_wildcard seg (tree i ts) = value_children_public ts
apply_kind SegmentKind.seg_recursive seg n = collect_recursive seg.name n

-- `applySegment`
unfoldable pub apply_segment : List PublicNode → PathSegment → List PublicNode
unfolding apply_kind
apply_segment [] seg = []
apply_segment (n ∷ ns) seg = apply_kind seg.kind seg n ++ apply_segment ns seg

-- the loop of `Path.Read`, which ends once nothing is selected
unfoldable pub read_from : List PublicNode → List PathSegment → List PublicNode
unfolding apply_segment
read_from cur [] = cur
read_from cur (seg ∷ segs) =
    let next = apply_segment cur seg in
    let rest = read_from next segs in if is_empty next then [] else rest

-- `Path.Read`, from a root that is not nil
unfoldable pub read : NodePath → PublicNode → List PublicNode
unfolding read_from
read p root = read_from (root ∷ []) p.segments

-- `ErrPathNotFound`
pub data NotFound : Type 0 where
  path_not_found : NotFound

abbrev first : List PublicNode → Result NotFound PublicNode
first [] = err path_not_found
first (n ∷ ns) = ok n

-- `Path.ReadFirst`
unfoldable pub read_first : NodePath → PublicNode → Result NotFound PublicNode
unfolding read
read_first p root = first (read p root)

-- the text of a comment node in `Node.String`
unfoldable pub comment_string : PublicStyle → Bytes → Bytes
comment_string line_comment_style value = codes "// " ++ value
comment_string block_comment_style value = codes "/* " ++ value ++ codes " */"
comment_string (unnamed_style _) value = value

-- `Node.String`
unfoldable pub node_string : PublicNode → Bytes
unfolding decimal count comment_string
node_string (tree i ts) = elim i.kind [
  | key_value_node ↦ i.key
  | object_node ↦ codes "{object: " ++ decimal (count ts) ++ codes " members}"
  | array_node ↦ codes "[array: " ++ decimal (count ts) ++ codes " elements]"
  | comment_node ↦ comment_string i.style i.value
  | _ ↦ if is_empty i.raw_value then i.value else i.raw_value
]

abbrev read_value : PublicNode → Bytes
read_value n = elim (info n).kind [
  | string_node ↦ (info n).value
  | number_node ↦ (info n).value
  | boolean_node ↦ (info n).value
  | null_node ↦ (info n).value
  | _ ↦ node_string n
]

-- `Path.ReadString`
unfoldable pub read_string : NodePath → PublicNode → Result NotFound Bytes
unfolding read_first node_string
read_string p root = read_first p root >>= λ n. ok (read_value n)

-- `Path.ReadPositions`
unfoldable pub read_positions : NodePath → PublicNode → List Position
unfolding read
read_positions p root = map (λ (n : PublicNode). (info n).pos) (read p root)
