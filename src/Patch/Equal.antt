-- ===== src/Patch/Equal.antt =====
-- patch.go: `nodeEqual`, of nodes that are not nil.
use jsonc.Prelude.{
  ℕ, ◌+◌, Bool, true, false, not, ◌&&◌, List, [], ◌∷◌, ◌==◌, if◌then◌else◌, Bytes, bytes_eq, Option,
  none, some, length,
}
use jsonc.Tree.Shape.{Forest, tree, nil, cons, info}
use jsonc.Ast.Public.{
  PublicKind, PublicInfo, PublicNode, object_node, array_node, string_node, number_node,
  boolean_node, null_node, comment_node,
}
use jsonc.Ast.Walk.{is_key_value}
use jsonc.Patch.Numbers.{numbers_equal}

unfoldable pub is_comment_node : PublicKind → Bool
is_comment_node comment_node = true
is_comment_node _ = false

-- `nonCommentChildren`
unfoldable pub non_comment_children : Forest PublicInfo → List PublicNode
unfolding is_comment_node
non_comment_children nil = []
non_comment_children (cons t ts) =
    let rest = non_comment_children ts in if is_comment_node (info t).kind then rest else t ∷ rest

-- a child's entry in the map of `objectMembers`, where it makes one for the key
unfoldable pub entry : Bytes → PublicNode → Option PublicNode
unfolding is_key_value bytes_eq
entry key (tree i nil) = none
entry key (tree i (cons v vs)) = if is_key_value i.kind && bytes_eq i.key key then some v else none

-- The map of `objectMembers` at a key: the last entry for it stays.
unfoldable pub member_entry : Bytes → Forest PublicInfo → Option PublicNode
unfolding entry
member_entry key nil = none
member_entry key (cons t ts) = elim (member_entry key ts) [ some v ↦ some v | none ↦ entry key t ]

abbrev pub is_some : {A : Type 0} → Option A → Bool
is_some none = false
is_some (some _) = true

-- The child's entry is in the map of an object with the children `ts` behind it.
unfoldable pub stays : PublicNode → Forest PublicInfo → Bool
unfolding member_entry entry
stays t ts = is_some (entry (info t).key t) && not (is_some (member_entry (info t).key ts))

-- `len` of the map of `objectMembers`
unfoldable pub member_total : Forest PublicInfo → ℕ
unfolding stays
member_total nil = 0
member_total (cons t ts) = if stays t ts then member_total ts + 1 else member_total ts

-- `a.Kind == b.Kind`, of two kinds that `nodeEqual` compares
pub data Comparison : Type 0 where
  as_numbers as_values as_arrays as_objects unequal : Comparison

unfoldable pub comparison : PublicKind → PublicKind → Comparison
comparison number_node number_node = Comparison.as_numbers
comparison string_node string_node = Comparison.as_values
comparison boolean_node boolean_node = Comparison.as_values
comparison null_node null_node = Comparison.as_values
comparison array_node array_node = Comparison.as_arrays
comparison object_node object_node = Comparison.as_objects
comparison _ _ = Comparison.unequal

-- the switch of `nodeEqual`, on what the cases return
abbrev pub by_comparison : Comparison → Bool → Bool → Bool → Bool → Bool
by_comparison Comparison.as_numbers numbers values elements members = numbers
by_comparison Comparison.as_values numbers values elements members = values
by_comparison Comparison.as_arrays numbers values elements members = elements
by_comparison Comparison.as_objects numbers values elements members = members
by_comparison Comparison.unequal numbers values elements members = false

-- `nodeEqual`, with its loops over elements and members. The loop over the map of an object's
-- members takes each entry once, in any order.
unfoldable mutual
  unfolding comparison numbers_equal bytes_eq non_comment_children is_comment_node member_total
      member_entry stays

  pub node_equal : PublicNode → PublicNode → Bool
  node_equal (tree i ts) (tree j us) =
      by_comparison (comparison i.kind j.kind) (numbers_equal i.value j.value)
        (bytes_eq i.value j.value)
        (length (non_comment_children ts) == length (non_comment_children us)
          && elements_equal ts (non_comment_children us))
        (member_total ts == member_total us && members_equal ts us)

  pub elements_equal : Forest PublicInfo → List PublicNode → Bool
  elements_equal nil us = true
  elements_equal (cons t ts) [] =
      let skip = elements_equal ts [] in if is_comment_node (info t).kind then skip else false
  elements_equal (cons t ts) (u ∷ us) =
      let skip = elements_equal ts (u ∷ us) in
      let here = node_equal t u && elements_equal ts us in
      if is_comment_node (info t).kind then skip else here

  pub members_equal : Forest PublicInfo → Forest PublicInfo → Bool
  members_equal nil us = true
  members_equal (cons t ts) us =
      let rest = members_equal ts us in
      let here = member_equal t (member_entry (info t).key us) in
      if stays t ts then here && rest else rest

  pub member_equal : PublicNode → Option PublicNode → Bool
  member_equal (tree i (cons v vs)) (some u) = node_equal v u
  member_equal (tree i (cons v vs)) none = false
  member_equal (tree i nil) u = false
