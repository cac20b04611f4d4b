-- ===== src/Patch/Replaced.antt =====
-- What `opReplace` puts at its path is found there.
use jsonc.Prelude.{
  ◌++◌, ◌∙◌, true, false, is_empty, subst, ap, arith, ◌&&◌, List, [], ◌∷◌, ◌≡◌, refl, sym, inl, inr,
  Bytes, bytes_eq, some, ok, Bool-cases, Option-cases,
}
use jsonc.Tree.Shape.{Forest, tree, nil, cons, info}
use jsonc.Ast.Public.{PublicKind, PublicInfo, PublicNode, object_node, array_node}
use jsonc.Ast.Walk.{is_key_value}
use jsonc.Pointer.Tokens.{parse_array_index, pointer_tokens, no_index}
use jsonc.Pointer.Resolve.{member_value, descend_into, descend, resolve_target, found, at_index}
use jsonc.Patch.Edit.{put_at, split_last}
use jsonc.Patch.Replace.{
  has_comments, replacement_node, replace_member, replace_into_kind, replace_child, replace_at,
  op_replace,
}
use jsonc.Patch.Added.{then_ok, found-ok, at_index-put_at, Found}
use jsonc.Patch.Removed.{edit_parent-Changed}

-- The node has no comment of its own.
pub record Uncommented (n : PublicNode) : Type 0 where
  head : (info n).head_comment ≡ []
  inline : (info n).comment ≡ []
  foot : (info n).foot_comment ≡ []
  trail : (info n).trail_comment ≡ []

-- the value with the comments of the node that it stands in for
abbrev pub with_comments_of : PublicNode → PublicNode → PublicNode
with_comments_of (tree o _) (tree i ts) =
    tree
      (record i {
        head_comment = o.head_comment;
        comment = o.comment;
        foot_comment = o.foot_comment;
        trail_comment = o.trail_comment;
      })
      ts

-- What the last token leads to in a container after a replace: in an object the value; in an array the value if it has
-- comments, and with the comments of the element that it replaces if it has none.
pub data StandsFor (parent : PublicNode) (last : Bytes) (v : PublicNode) : PublicNode → Type 0 where
  member_value_of : (info parent).kind ≡ object_node → StandsFor parent last v v
  commented_element : (info parent).kind ≡ array_node → ¬ Uncommented v → StandsFor parent last v v
  element :
      (old : PublicNode)
      → (info parent).kind ≡ array_node
      → descend parent last ≡ ok old
      → Uncommented v
      → StandsFor parent last v (with_comments_of old v)

-- The node that takes the place of another: the value itself at the root, or what stands for it in the
-- container that the tokens but the last lead to.
pub data Replaced (root v : PublicNode) : List Bytes → PublicNode → Type 0 where
  the_root : Replaced root v [] v
  inside :
      {tokens : List Bytes} {n : PublicNode} (us : List Bytes) (last : Bytes) (parent : PublicNode)
      → tokens ≡ us ++ last ∷ []
      → resolve_target root us ≡ ok parent
      → StandsFor parent last v n
      → Replaced root v tokens n

member_value-replace_member :
    (last : Bytes) (v : PublicNode) (ts us : Forest PublicInfo)
    → replace_member last v ts ≡ some us
    → member_value last us ≡ some v
unfolding member_value replace_member
member_value-replace_member last v nil us e = cc
member_value-replace_member last v (cons (tree i ws) ts) us e =
    elim (Bool-cases (is_key_value i.kind && bytes_eq i.key last)) [
      | inl b ↦
          let q : cons (tree i (cons v nil)) ts ≡ us = cc (rw b at e) in rw (sym q) (rw b refl)
      | inr b ↦ elim (Option-cases (replace_member last v ts)) [
        | inl x ↦ absurd (cc (rw (b, x) at e))
        | inr (w, x) ↦
            let q : cons (tree i ws) w ≡ us = cc (rw (b, x) at e) in
            rw (sym q) (rw b (member_value-replace_member last v ts w x))
      ]
    ]

empty_text : (s : Bytes) → is_empty s ≡ true → s ≡ []
empty_text [] e = refl
empty_text (c ∷ s) e = absurd cc

Uncommented-has_comments : (v : PublicNode) → Uncommented v → has_comments (info v) ≡ false
unfolding has_comments
Uncommented-has_comments v u = rw (u.head, u.inline, u.foot, u.trail) refl

has_comments-Uncommented : (v : PublicNode) → has_comments (info v) ≡ false → Uncommented v
unfolding has_comments
has_comments-Uncommented v e =
    let i = info v in
    record {
      head = empty_text i.head_comment (ground arith);
      inline = empty_text i.comment (ground arith);
      foot = empty_text i.foot_comment (ground arith);
      trail = empty_text i.trail_comment (ground arith);
    }

replacement_node-Uncommented :
    (old v : PublicNode)
    → has_comments (info v) ≡ false
    → replacement_node old v ≡ with_comments_of old v
unfolding replacement_node
replacement_node-Uncommented (tree o ws) (tree i ts) e = rw e refl

replacement_node-StandsFor :
    (parent old v : PublicNode) (last : Bytes)
    → (info parent).kind ≡ array_node
    → descend parent last ≡ ok old
    → StandsFor parent last v (replacement_node old v)
unfolding replacement_node
replacement_node-StandsFor parent old v last k d = elim (Bool-cases (has_comments (info v))) [
  | inl e ↦
      rw e (
        commented_element k
          λ u. (let x : true ≡ false = sym e ∙ Uncommented-has_comments v u in cc))
  | inr e ↦
      subst (StandsFor parent last v) (sym (replacement_node-Uncommented old v e))
        (element old k d (has_comments-Uncommented v e))
]

descend_into-replace_into_kind :
    (k : PublicKind) (i : PublicInfo) (last : Bytes) (v : PublicNode) (ts us : Forest PublicInfo)
    → i.kind ≡ k
    → replace_into_kind k last v ts ≡ ok us
    → Found (StandsFor (tree i ts) last v) (descend_into k us last)
unfolding replace_into_kind descend_into descend
descend_into-replace_into_kind object_node i last v ts us k e =
    (v, rw (member_value-replace_member last v ts us (found-ok _ e)) refl, member_value_of k)
descend_into-replace_into_kind array_node i last v ts us k e =
    let x = parse_array_index last in
    let r =
      then_ok (found (no_index last) (at_index x ts))
        (λ old. ok (put_at x (replacement_node old v) ts)) e in
    let q : put_at x (replacement_node r.0 v) ts ≡ us = cc (r.2) in
    let d : descend (tree i ts) last ≡ ok r.0 = ap (λ z. descend_into z ts last) k ∙ r.1 in
    (
      replacement_node r.0 v,
      rw (sym q) (rw (at_index-put_at x (replacement_node r.0 v) r.0 ts (found-ok _ r.1)) refl),
      replacement_node-StandsFor (tree i ts) r.0 v last k d,
    )
descend_into-replace_into_kind _ i last v ts us k e = cc

descend-replace_child :
    (last : Bytes) (v n n' : PublicNode)
    → replace_child v last n ≡ ok n'
    → Found (StandsFor n last v) (descend n' last)
unfolding replace_child descend
descend-replace_child last v (tree i ts) n' e =
    let r = then_ok (replace_into_kind i.kind last v ts) (λ us. ok (tree i us)) e in
    let q : tree i r.0 ≡ n' = cc (r.2) in
    rw (sym q) (descend_into-replace_into_kind i.kind i last v ts r.0 refl r.1)

resolve_target-behind :
    (us : List Bytes) (last : Bytes) (n c m : PublicNode)
    → resolve_target n us ≡ ok c
    → descend c last ≡ ok m
    → resolve_target n (us ++ last ∷ []) ≡ ok m
unfolding resolve_target
resolve_target-behind [] last n c m e d =
    let q : n ≡ c = cc in
    let k : descend n last ≡ ok m = subst (λ z. descend z last ≡ ok m) (sym q) d in rw k refl
resolve_target-behind (u ∷ us) last n c m e d =
    let r = then_ok (descend n u) (λ x. resolve_target x us) e in
    rw r.1 (resolve_target-behind us last r.0 c m r.2 d)

-- After a successful replace the path leads to the value that was given: to the root, to the value of the
-- member, or to the element; only in an array a value that has no comments takes those of the element
-- that it replaces.
pub op_replace-resolve_target :
    (root v root' : PublicNode) (path : Bytes) (tokens : List Bytes)
    → pointer_tokens path ≡ ok tokens
    → op_replace root path (some v) ≡ ok root'
    → Found (Replaced root v tokens) (resolve_target root' tokens)
unfolding op_replace replace_at
op_replace-resolve_target root v root' path [] p e =
    let q : v ≡ root' = cc (rw p at e) in unfold resolve_target in (rw (sym q) (v, refl, the_root))
op_replace-resolve_target root v root' path (t ∷ ts) p e =
    let (us, last, c, c', q, h, (a, b)) =
      edit_parent-Changed (replace_child v) (t ∷ ts) root root' (split_last (t ∷ ts)) refl
        (rw p at e) in
    let (m, d, s) = descend-replace_child last v c c' h in
    (
      m,
      subst (λ z. resolve_target root' z ≡ ok m) (sym q)
          (resolve_target-behind us last root' c' m b d),
      inside us last c q a s,
    )
