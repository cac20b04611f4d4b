-- ===== src/Patch/Removed.antt =====
-- What `opRemove` leaves of the document.
use jsonc.Prelude.{
  ℕ, zero, suc, ◌&&◌, true, false, List, [], ◌∷◌, ◌++◌, ◌≡◌, refl, sym, ap, inl, inr, Bytes,
  bytes_eq, Option, none, some, Result, ok, ◌>>=◌, Bool-cases, Option-cases, length,
}
use jsonc.Tree.Shape.{Forest, tree, nil, cons, info, to_list}
use jsonc.Ast.Public.{PublicKind, PublicInfo, PublicNode, object_node, array_node}
use jsonc.Ast.Walk.{is_key_value}
use jsonc.Pointer.Tokens.{PointerError, parse_array_index, pointer_tokens}
use jsonc.Pointer.Resolve.{descend, resolve_target}
use jsonc.Patch.Edit.{
  put_child, edit, split_last, edit_parent, remove_member, remove_index, remove_at_index,
  remove_child_kind, remove_child, remove_at, op_remove, rebuilt,
}
use jsonc.Patch.Added.{then_ok, descend-put_child, split_last-concat}

-- The node `n'` is `n` with `c'` in place of `c` where the tokens lead to.
abbrev pub Changed : List Bytes → PublicNode → PublicNode → PublicNode → PublicNode → Type 0
Changed ts n n' c c' = (resolve_target n ts ≡ ok c) × (resolve_target n' ts ≡ ok c')

-- A change of the node that the tokens lead to is found there.
pub edit-Changed :
    (f : PublicNode → Result PointerError PublicNode) (ts : List Bytes) (n n' : PublicNode)
    → edit f ts n ≡ ok n'
    → (c c' : PublicNode) × (f c ≡ ok c') × Changed ts n n' c c'
unfolding edit resolve_target
edit-Changed f [] n n' e = (n, n', e, (refl, refl))
edit-Changed f (t ∷ ts) n n' e =
    let r = then_ok (descend n t) (λ c. edit f ts c >>= λ c'. ok (put_child t c' n)) e in
    let w = then_ok (edit f ts r.0) (λ c'. ok (put_child t c' n)) r.2 in
    let q : put_child t w.0 n ≡ n' = cc (w.2) in
    let (c, c', h, (a, b)) = edit-Changed f ts r.0 w.0 w.1 in
    (c, c', h, (rw r.1 a, rw (sym q) (rw (descend-put_child t w.0 r.0 n r.1) b)))

pub edit_parent-Changed :
    (f : Bytes → PublicNode → Result PointerError PublicNode) (tokens : List Bytes)
    (n n' : PublicNode) (o : Option (List Bytes × Bytes))
    → split_last tokens ≡ o
    → edit_parent f o n ≡ ok n'
    → (us : List Bytes) × (last : Bytes) × (c : PublicNode) × (c' : PublicNode) × (tokens
        ≡ us ++ last ∷ [])
      × (f last c ≡ ok c')
      × Changed us n n' c c'
unfolding edit_parent
edit_parent-Changed f tokens n n' none s e = cc
edit_parent-Changed f tokens n n' (some (us, last)) s e =
    let (c, c', h, x) = edit-Changed (f last) us n n' e in
    (us, last, c, c', split_last-concat tokens us last s, h, x)

-- No node of the list is a member with the key.
pub data Unnamed (last : Bytes) : List PublicNode → Type 0 where
  nothing : Unnamed last []
  other :
      {t : PublicNode} {ts : List PublicNode}
      → is_key_value (info t).kind && bytes_eq (info t).key last ≡ false
      → Unnamed last ts
      → Unnamed last (t ∷ ts)

-- The token names the child of a container of the kind that stands behind the children `xs`: it is
-- the first member with the key, or the element with the index.
pub data Named (last : Bytes) (xs : List PublicNode) (t : PublicNode) : PublicKind → Type 0 where
  member :
      is_key_value (info t).kind && bytes_eq (info t).key last ≡ true
      → Unnamed last xs
      → Named last xs t object_node
  element : parse_array_index last ≡ some (length xs) → Named last xs t array_node

-- The row `us` is `ts` without the child that the token names.
abbrev pub Without : PublicKind → Bytes → Forest PublicInfo → Forest PublicInfo → Type 0
Without k last ts us =
    (xs : List PublicNode) × (t : PublicNode) × (ys : List PublicNode) × (to_list ts ≡ xs ++ t ∷ ys)
    × (to_list us ≡ xs ++ ys)
    × Named last xs t k

Without-cons :
    (last : Bytes) (t : PublicNode) (ts us : Forest PublicInfo)
    → is_key_value (info t).kind && bytes_eq (info t).key last ≡ false
    → Without object_node last ts us
    → Without object_node last (cons t ts) (cons t us)
Without-cons last t ts us b (xs, u, ys, l, m, member h n) =
    (t ∷ xs, u, ys, ap (λ zs. t ∷ zs) l, ap (λ zs. t ∷ zs) m, member h (other b n))

remove_member-Without :
    (last : Bytes) (ts us : Forest PublicInfo)
    → remove_member last ts ≡ some us
    → Without object_node last ts us
unfolding remove_member
remove_member-Without last nil us e = cc
remove_member-Without last (cons t ts) us e =
    elim (Bool-cases (is_key_value (info t).kind && bytes_eq (info t).key last)) [
      | inl b ↦
          let q : ts ≡ us = cc (rw b at e) in
          ([], t, to_list ts, refl, rw (sym q) refl, member b nothing)
      | inr b ↦ elim (Option-cases (remove_member last ts)) [
        | inl x ↦ absurd (cc (rw (b, x) at e))
        | inr (w, x) ↦
            let q : cons t w ≡ us = cc (rw (b, x) at e) in
            rw (sym q) (Without-cons last t ts w b (remove_member-Without last ts w x))
      ]
    ]

-- The row without the element at the index.
remove_index-split :
    (i : ℕ) (ts us : Forest PublicInfo)
    → remove_index i ts ≡ some us
    → (xs : List PublicNode) × (t : PublicNode) × (ys : List PublicNode) × (to_list ts
        ≡ xs ++ t ∷ ys)
      × (to_list us ≡ xs ++ ys)
      × (i ≡ length xs)
unfolding remove_index
remove_index-split i nil us e = cc
remove_index-split zero (cons t ts) us e =
    let q : ts ≡ us = cc in ([], t, to_list ts, refl, rw (sym q) refl, refl)
remove_index-split (suc i) (cons t ts) us e = elim (Option-cases (remove_index i ts)) [
  | inl x ↦ absurd (cc (rw x at e))
  | inr (w, x) ↦
      let q : cons t w ≡ us = cc (rw x at e) in
      let (xs, u, ys, l, m, h) = remove_index-split i ts w x in
      (t ∷ xs, u, ys, ap (λ zs. t ∷ zs) l, rw (sym q) (ap (λ zs. t ∷ zs) m), ap suc h)
]

rebuilt-ok :
    (x : PointerError) (i : PublicInfo) (o : Option (Forest PublicInfo)) (n : PublicNode)
    → rebuilt x i o ≡ ok n
    → (us : Forest PublicInfo) × (o ≡ some us) × (tree i us ≡ n)
rebuilt-ok x i none n e = cc
rebuilt-ok x i (some us) n e = (us, refl, cc)

remove_at_index-Without :
    (last : Bytes) (o : Option ℕ) (ts us : Forest PublicInfo)
    → parse_array_index last ≡ o
    → remove_at_index o ts ≡ some us
    → Without array_node last ts us
remove_at_index-Without last none ts us p e = cc
remove_at_index-Without last (some i) ts us p e =
    let (xs, t, ys, l, m, h) = remove_index-split i ts us e in
    (xs, t, ys, l, m, element (rw h at p))

remove_child_kind-Without :
    (k : PublicKind) (last : Bytes) (i : PublicInfo) (ts : Forest PublicInfo) (n : PublicNode)
    → remove_child_kind k last i ts ≡ ok n
    → (us : Forest PublicInfo) × Without k last ts us × (tree i us ≡ n)
unfolding remove_child_kind
remove_child_kind-Without object_node last i ts n e =
    let (us, x, q) = rebuilt-ok _ i (remove_member last ts) n e in
    (us, remove_member-Without last ts us x, q)
remove_child_kind-Without array_node last i ts n e =
    let (us, x, q) = rebuilt-ok _ i (remove_at_index (parse_array_index last) ts) n e in
    (us, remove_at_index-Without last (parse_array_index last) ts us refl x, q)
remove_child_kind-Without _ last i ts n e = cc

-- The container at the tokens but the last lost the child that the last token names, and nothing else.
pub data Removal (root root' : PublicNode) (tokens : List Bytes) : Type 0 where
  removal :
      (us : List Bytes) (last : Bytes) (i : PublicInfo) (ts ts' : Forest PublicInfo)
      → tokens ≡ us ++ last ∷ []
      → resolve_target root us ≡ ok (tree i ts)
      → resolve_target root' us ≡ ok (tree i ts')
      → Without i.kind last ts ts'
      → Removal root root' tokens

remove_child-Removal :
    (root root' : PublicNode) (tokens us : List Bytes) (last : Bytes) (c c' : PublicNode)
    → tokens ≡ us ++ last ∷ []
    → remove_child last c ≡ ok c'
    → Changed us root root' c c'
    → Removal root root' tokens
unfolding remove_child
remove_child-Removal root root' tokens us last (tree i ts) c' q e (a, b) =
    let (ts', w, x) = remove_child_kind-Without i.kind last i ts c' e in
    removal us last i ts ts' q a (rw (sym x) at b) w

-- After a successful remove the container that the tokens but the last lead to has the child that the
-- last token names removed, the first member with the key or the element with the index, and its other
-- children in their order.
pub op_remove-Removal :
    (root root' : PublicNode) (path : Bytes) (tokens : List Bytes)
    → pointer_tokens path ≡ ok tokens
    → op_remove root path ≡ ok root'
    → Removal root root' tokens
unfolding op_remove remove_at
op_remove-Removal root root' path [] p e = cc (rw p at e)
op_remove-Removal root root' path (t ∷ ts) p e =
    let (us, last, c, c', q, h, x) =
      edit_parent-Changed remove_child (t ∷ ts) root root' (split_last (t ∷ ts)) refl (rw p at e) in
    remove_child-Removal root root' (t ∷ ts) us last c c' q h x
