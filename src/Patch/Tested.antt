-- ===== src/Patch/Tested.antt =====
-- `opTest` after `opAdd`: a value is equal to itself.
use jsonc.Prelude.{
  ℕ, Bool, true, false, not, ◌&&◌, ◌||◌, List, [], ◌∷◌, ◌++◌, ◌==◌, ◌≡◌, ◌≢◌, refl, sym, ◌∙◌, ap,
  inl, inr, Bytes, bytes_eq, bytes_eq_iff, Option, none, some, ok, arith, Bool-cases, length,
}
use jsonc.Tree.Shape.{Forest, tree, nil, cons, info}
use jsonc.Ast.Public.{
  PublicInfo, PublicNode, PublicKind, object_node, array_node, key_value_node, string_node,
  number_node, boolean_node, null_node, comment_node, unnamed_kind,
}
use jsonc.Ast.Walk.{is_key_value}
use jsonc.Pointer.Tokens.{pointer_tokens}
use jsonc.Patch.Edit.{op_add, dash}
use jsonc.Patch.Added.{op_add-resolve_target}
use jsonc.Patch.Numbers.{numbers_equal}
use jsonc.Patch.Equal.{
  comparison, node_equal, elements_equal, members_equal, member_equal, member_entry, entry, stays,
  is_some, non_comment_children, is_comment_node, member_total,
}
use jsonc.Patch.Apply.{op_test}

abbrev is_comment : PublicKind → Bool
is_comment comment_node = true
is_comment _ = false

-- what makes a node of a kind one that a test can compare, with that of its children in an array and in an object
abbrev comparable_kind : PublicKind → Bool → Bool → Bool
comparable_kind null_node elements members = true
comparable_kind boolean_node elements members = true
comparable_kind number_node elements members = true
comparable_kind string_node elements members = true
comparable_kind array_node elements members = elements
comparable_kind object_node elements members = members
comparable_kind _ elements members = false

-- A value that a test can compare: scalars, and containers of such values. Comments in an array do not matter, and
-- neither do the children of an object that are not members with a value.
unfoldable mutual
  pub comparable : PublicNode → Bool
  comparable (tree i ts) = comparable_kind i.kind (comparable_elements ts) (comparable_members ts)

  comparable_elements : Forest PublicInfo → Bool
  comparable_elements nil = true
  comparable_elements (cons t ts) =
      (is_comment (info t).kind || comparable t) && comparable_elements ts

  comparable_members : Forest PublicInfo → Bool
  comparable_members nil = true
  comparable_members (cons t ts) = comparable_value t && comparable_members ts

  comparable_value : PublicNode → Bool
  comparable_value (tree i nil) = true
  comparable_value (tree i (cons v vs)) = comparable v

-- Every entry of the map of the members `ts` is in the map of `us`.
abbrev Submap : Forest PublicInfo → Forest PublicInfo → Type 0
Submap ts us =
    (key : Bytes) (v : PublicNode) → member_entry key ts ≡ some v → member_entry key us ≡ some v

member_entry-behind :
    (key : Bytes) (t v : PublicNode) (ts : Forest PublicInfo)
    → member_entry key ts ≡ some v
    → member_entry key (cons t ts) ≡ some v
unfolding member_entry
member_entry-behind key t v ts e = rw e refl

member_entry-here :
    (key : Bytes) (t : PublicNode) (ts : Forest PublicInfo)
    → member_entry key ts ≡ none
    → member_entry key (cons t ts) ≡ entry key t
unfolding member_entry
member_entry-here key t ts e = rw e refl

and_left : (a b : Bool) → a && b ≡ true → a ≡ true
and_left true b e = refl
and_left false b e = e

and_right : (a b : Bool) → a && b ≡ true → b ≡ true
and_right true b e = e
and_right false b e = absurd cc

is_some-cases : {A : Type 0} (o : Option A) → is_some o ≡ true → (a : A) × (o ≡ some a)
is_some-cases (some a) e = (a, refl)
is_some-cases none e = absurd cc

is_some-none : {A : Type 0} (o : Option A) → not (is_some o) ≡ true → o ≡ none
is_some-none none e = refl
is_some-none (some a) e = absurd cc

numbers_equal_refl : (a : Bytes) → numbers_equal a a ≡ true
unfolding numbers_equal
numbers_equal_refl a = rw ((bytes_eq_iff a a).1 refl) refl

==-refl : (n : ℕ) → n == n ≡ true
==-refl n = ground arith

stays-entry :
    (t : PublicNode) (ts : Forest PublicInfo)
    → stays t ts ≡ true
    → (v : PublicNode) × (entry (info t).key t ≡ some v) × (member_entry (info t).key ts ≡ none)
unfolding stays
stays-entry t ts e =
    let (v, h) = is_some-cases (entry (info t).key t) (ground arith) in
    (v, h, is_some-none (member_entry (info t).key ts) (ground arith))

entry-value :
    (key : Bytes) (i : PublicInfo) (w v : PublicNode) (ws : Forest PublicInfo)
    → entry key (tree i (cons w ws)) ≡ some v
    → w ≡ v
unfolding entry
entry-value key i w v ws e = elim (Bool-cases (is_key_value i.kind && bytes_eq i.key key)) [
  | inl b ↦ cc (rw b at e)
  | inr b ↦ absurd (cc (rw b at e))
]

-- A member that stays is compared with its own value.
members_equal-step :
    (i : PublicInfo) (w : PublicNode) (ws ts us : Forest PublicInfo)
    → node_equal w w ≡ true
    → members_equal ts us ≡ true
    → Submap (cons (tree i (cons w ws)) ts) us
    → members_equal (cons (tree i (cons w ws)) ts) us ≡ true
unfolding members_equal member_equal
members_equal-step i w ws ts us h e sub = elim (Bool-cases (stays (tree i (cons w ws)) ts)) [
  | inl b ↦
      let t : PublicNode = tree i (cons w ws) in
      let (v, p, n) = stays-entry t ts b in
      let q : w ≡ v = entry-value i.key i w v ws p in
      let m : member_entry i.key us ≡ some w =
        sub i.key w (member_entry-here i.key t ts n ∙ p ∙ ap some (sym q)) in
      rw (b, m, h) e
  | inr b ↦ rw b e
]

members_equal-skip :
    (i : PublicInfo) (ts us : Forest PublicInfo)
    → members_equal ts us ≡ true
    → members_equal (cons (tree i nil) ts) us ≡ true
unfolding members_equal stays entry
members_equal-skip i ts us e = e

elements_equal-comment :
    (t : PublicNode) (ts : Forest PublicInfo) (us : List PublicNode)
    → is_comment_node (info t).kind ≡ true
    → elements_equal (cons t ts) us ≡ elements_equal ts us
unfolding elements_equal
elements_equal-comment t ts [] b = rw b refl
elements_equal-comment t ts (u ∷ us) b = rw b refl

is_comment-is_comment_node : (k : PublicKind) → is_comment k ≡ is_comment_node k
unfolding is_comment_node
is_comment-is_comment_node object_node = refl
is_comment-is_comment_node array_node = refl
is_comment-is_comment_node key_value_node = refl
is_comment-is_comment_node string_node = refl
is_comment-is_comment_node number_node = refl
is_comment-is_comment_node boolean_node = refl
is_comment-is_comment_node null_node = refl
is_comment-is_comment_node comment_node = refl
is_comment-is_comment_node (unnamed_kind n) = refl

elements_equal-step :
    (t : PublicNode) (ts : Forest PublicInfo)
    → (is_comment (info t).kind || comparable t) ≡ true
    → (comparable t ≡ true → node_equal t t ≡ true)
    → elements_equal ts (non_comment_children ts) ≡ true
    → elements_equal (cons t ts) (non_comment_children (cons t ts)) ≡ true
unfolding elements_equal non_comment_children
elements_equal-step t ts c h e = elim (Bool-cases (is_comment_node (info t).kind)) [
  | inl b ↦ rw b (elements_equal-comment t ts (non_comment_children ts) b ∙ e)
  | inr b ↦
      let k : is_comment (info t).kind ≡ false = is_comment-is_comment_node (info t).kind ∙ b in
      rw b (rw b (rw (h (rw k at c)) e))
]

node_equal-kinds :
    (i : PublicInfo) (ts : Forest PublicInfo) (k : PublicKind)
    → i.kind ≡ k
    → comparable_kind k (comparable_elements ts) (comparable_members ts) ≡ true
    → (comparable_elements ts ≡ true → elements_equal ts (non_comment_children ts) ≡ true)
    → (comparable_members ts ≡ true → members_equal ts ts ≡ true)
    → node_equal (tree i ts) (tree i ts) ≡ true
unfolding node_equal comparison
node_equal-kinds i ts number_node p c x y = rw (p, numbers_equal_refl i.value) refl
node_equal-kinds i ts string_node p c x y = rw (p, (bytes_eq_iff i.value i.value).1 refl) refl
node_equal-kinds i ts boolean_node p c x y = rw (p, (bytes_eq_iff i.value i.value).1 refl) refl
node_equal-kinds i ts null_node p c x y = rw (p, (bytes_eq_iff i.value i.value).1 refl) refl
node_equal-kinds i ts array_node p c x y =
    rw (p, ==-refl (length (non_comment_children ts)), x c) refl
node_equal-kinds i ts object_node p c x y = rw (p, ==-refl (member_total ts), y c) refl
node_equal-kinds i ts _ p c x y = absurd cc

mutual
  unfolding elements_equal members_equal comparable comparable_elements comparable_members
      comparable_value

  node_equal_refl : (v : PublicNode) → comparable v ≡ true → node_equal v v ≡ true
  node_equal_refl (tree i ts) c =
      node_equal-kinds i ts i.kind refl c (elements_equal_refl ts)
        (λ m. members_equal_refl ts ts (λ key v e. e) m)

  elements_equal_refl :
      (ts : Forest PublicInfo)
      → comparable_elements ts ≡ true
      → elements_equal ts (non_comment_children ts) ≡ true
  elements_equal_refl nil c = refl
  elements_equal_refl (cons t ts) c =
      elements_equal-step t ts (and_left _ _ c) (node_equal_refl t)
        (elements_equal_refl ts (and_right _ _ c))

  members_equal_refl :
      (ts us : Forest PublicInfo)
      → Submap ts us
      → comparable_members ts ≡ true
      → members_equal ts us ≡ true
  members_equal_refl nil us sub c = refl
  members_equal_refl (cons (tree i nil) ts) us sub c = members_equal-skip i ts us (
      members_equal_refl ts us (λ key v e. sub key v (member_entry-behind key (tree i nil) v ts e))
        c)
  members_equal_refl (cons (tree i (cons w ws)) ts) us sub c =
      members_equal-step i w ws ts us (node_equal_refl w (and_left _ _ c))
        (members_equal_refl ts us
          (λ key v e. sub key v (member_entry-behind key (tree i (cons w ws)) v ts e))
          (and_right _ _ c))
        sub

-- After a successful add, a test for the value that was added passes at the same path, if the path does not end in the
-- token `-` and the value is one that a test can compare.
pub op_test-op_add :
    (root v root' : PublicNode) (path : Bytes) (tokens : List Bytes)
    → pointer_tokens path ≡ ok tokens
    → ((us : List Bytes) → tokens ≢ us ++ dash ∷ [])
    → comparable v ≡ true
    → op_add root path (some v) ≡ ok root'
    → op_test root' path (some v) ≡ ok root'
unfolding op_test
op_test-op_add root v root' path tokens p ne c e =
    rw (p)
      (rw (op_add-resolve_target root v root' path tokens p ne e) (rw (node_equal_refl v c) refl))
