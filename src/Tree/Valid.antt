-- ===== src/Tree/Valid.antt =====
-- What a well-formed syntax tree is, and how deep and how large it is.
use jsonc.Prelude.{ℕ, suc, ◌+◌, ◌≤◌, max, Bool, true, false, ◌&&◌, ◌≡◌, ◌≢◌, ◌⊎◌, is_empty, Bytes}
use jsonc.Tree.Shape.{Forest, tree, nil, cons, info}
use jsonc.Tree.Internal.{
  Node, NodeInfo, NodeKind, object, array, key_value, string, number, bool, null,
}

abbrev pub is_scalar : NodeKind → Bool
is_scalar string = true
is_scalar number = true
is_scalar bool = true
is_scalar null = true
is_scalar _ = false

abbrev pub is_container : NodeKind → Bool
is_container object = true
is_container array = true
is_container _ = false

-- No node of the row has the key.
abbrev pub Keyless : Bytes → Forest NodeInfo → Type 0
Keyless k nil = Unit {0}
Keyless k (cons t ts) = ((info t).key ≢ k) × Keyless k ts

-- The keys of the row are distinct.
abbrev pub DistinctKeys : Forest NodeInfo → Type 0
DistinctKeys nil = Unit {0}
DistinctKeys (cons t ts) = Keyless (info t).key ts × DistinctKeys ts

-- A value: a scalar has no children, an array has values, and an object has members with distinct
-- keys, each a key-value node with one value.
mutual
  pub data IsValue : Node → Type 0 where
    scalar_value : {i : NodeInfo} → is_scalar i.kind ≡ true → IsValue (tree i nil)
    array_value :
        {i : NodeInfo} {ts : Forest NodeInfo} → i.kind ≡ array → AreValues ts → IsValue (tree i ts)
    object_value :
        {i : NodeInfo} {ts : Forest NodeInfo}
        → i.kind ≡ object
        → AreMembers ts
        → DistinctKeys ts
        → IsValue (tree i ts)

  pub data AreValues : Forest NodeInfo → Type 0 where
    no_values : AreValues nil
    more_values :
        {t : Node} {ts : Forest NodeInfo} → IsValue t → AreValues ts → AreValues (cons t ts)

  pub data AreMembers : Forest NodeInfo → Type 0 where
    no_members : AreMembers nil
    more_members :
        {i : NodeInfo} {v : Node} {ts : Forest NodeInfo}
        → i.kind ≡ key_value
        → IsValue v
        → AreMembers ts
        → AreMembers (cons (tree i (cons v nil)) ts)

abbrev pub container_level : NodeKind → ℕ
container_level object = 1
container_level array = 1
container_level _ = 0

-- A member with its value.
pub data IsMember : Node → Type 0 where
  member :
      {i : NodeInfo} {v : Node} → i.kind ≡ key_value → IsValue v → IsMember (tree i (cons v nil))

-- How deeply containers nest; a scalar inside them adds no level.
unfoldable mutual
  pub height : Node → ℕ
  height (tree i ts) = container_level i.kind + heights ts

  pub heights : Forest NodeInfo → ℕ
  heights nil = 0
  heights (cons t ts) = max (height t) (heights ts)

-- How many nodes the tree has.
unfoldable mutual
  pub size : Node → ℕ
  size (tree i ts) = suc (sizes ts)

  pub sizes : Forest NodeInfo → ℕ
  sizes nil = 0
  sizes (cons t ts) = size t + sizes ts

-- The node carries no comment.
abbrev pub has_no_comment : NodeInfo → Bool
has_no_comment i =
    is_empty i.head_comment
    && is_empty i.comment
    && is_empty i.foot_comment
    && is_empty i.trail_comment

-- No node of the tree carries a comment.
unfoldable mutual
  pub comment_free : Node → Bool
  comment_free (tree i ts) = has_no_comment i && comments_free ts

  pub comments_free : Forest NodeInfo → Bool
  comments_free nil = true
  comments_free (cons t ts) = comment_free t && comments_free ts

-- A limit that is not 0 bounds the number.
abbrev pub Within : ℕ → ℕ → Type 0
Within limit n = (limit ≡ 0) ⊎ (n ≤ limit)
