-- ===== src/Patch/Added.antt =====
-- What `opAdd` adds is found at its path.
use jsonc.Prelude.{
  ◌∙◌, ℕ, zero, suc, ◌&&◌, List, [], ◌∷◌, ◌++◌, ◌≡◌, ◌≢◌, refl, sym, ap, inl, inr, Bytes, bytes_eq,
  bytes_eq_iff, Option, none, some, Result, ok, err, out_of_fuel, ◌>>=◌, arith, Bool-cases,
  Option-cases, get_elem?,
}
use jsonc.Tree.Shape.{Forest, tree, nil, cons, to_list}
use jsonc.Ast.Public.{PublicKind, PublicInfo, PublicNode, object_node, array_node}
use jsonc.Ast.Walk.{is_key_value}
use jsonc.Pointer.Tokens.{PointerError, parse_array_index, pointer_tokens}
use jsonc.Pointer.Resolve.{member_value, descend_into, descend, resolve_target, found, at_index}
use jsonc.Patch.Edit.{
  put_member, put_index, put_at, put_into, put_child, edit, split_last, edit_parent, add_member,
  insert_at, insert_index, dash, add_into_kind, add_child, add_at, op_add,
}

-- A run that succeeded went through its first part.
pub then_ok :
    {A B : Type 0} (m : Result PointerError A) (f : A → Result PointerError B) {b : B}
    → m >>= f ≡ ok b
    → (a : A) × (m ≡ ok a) × (f a ≡ ok b)
then_ok (ok a) f e = (a, refl, e)
then_ok (err x) f e = cc
then_ok out_of_fuel f e = cc

member_value-put_member :
    (tok : Bytes) (v c : PublicNode) (ts : Forest PublicInfo)
    → member_value tok ts ≡ some c
    → member_value tok (put_member tok v ts) ≡ some v
unfolding member_value put_member
member_value-put_member tok v c nil e = cc
member_value-put_member tok v c (cons (tree i nil) ts) e =
    elim (Bool-cases (is_key_value i.kind && bytes_eq i.key tok)) [
      | inl b ↦ ground (arith, member_value-put_member tok v c ts)
      | inr b ↦ ground (arith, member_value-put_member tok v c ts)
    ]
member_value-put_member tok v c (cons (tree i (cons u us)) ts) e =
    elim (Bool-cases (is_key_value i.kind && bytes_eq i.key tok)) [
      | inl b ↦ ground (arith, member_value-put_member tok v c ts)
      | inr b ↦ ground (arith, member_value-put_member tok v c ts)
    ]

get_elem?-put_index :
    (i : ℕ) (v c : PublicNode) (ts : Forest PublicInfo)
    → get_elem? (to_list ts) i ≡ some c
    → get_elem? (to_list (put_index i v ts)) i ≡ some v
unfolding put_index
get_elem?-put_index i v c nil e = cc
get_elem?-put_index zero v c (cons t ts) e = refl
get_elem?-put_index (suc i) v c (cons t ts) e = get_elem?-put_index i v c ts e

pub found-ok :
    {A : Type 0} (x : PointerError) {o : Option A} {a : A} → found x o ≡ ok a → o ≡ some a
found-ok x {o = some b} e = cc
found-ok x {o = none} e = cc

pub at_index-put_at :
    (o : Option ℕ) (v c : PublicNode) (ts : Forest PublicInfo)
    → at_index o ts ≡ some c
    → at_index o (put_at o v ts) ≡ some v
at_index-put_at none v c ts e = cc
at_index-put_at (some i) v c ts e = get_elem?-put_index i v c ts e

descend_into-put_into :
    (k : PublicKind) (tok : Bytes) (v c : PublicNode) (ts : Forest PublicInfo)
    → descend_into k ts tok ≡ ok c
    → descend_into k (put_into k tok v ts) tok ≡ ok v
unfolding descend_into put_into
descend_into-put_into object_node tok v c ts e =
    rw (member_value-put_member tok v c ts (found-ok _ e)) refl
descend_into-put_into array_node tok v c ts e =
    rw (at_index-put_at (parse_array_index tok) v c ts (found-ok _ e)) refl
descend_into-put_into _ tok v c ts e = cc

pub descend-put_child :
    (tok : Bytes) (v c n : PublicNode)
    → descend n tok ≡ ok c
    → descend (put_child tok v n) tok ≡ ok v
unfolding descend put_child
descend-put_child tok v c (tree i ts) e = descend_into-put_into i.kind tok v c ts e

member_value-add_member :
    (last : Bytes) (v : PublicNode) (ts : Forest PublicInfo)
    → member_value last (add_member last v ts) ≡ some v
unfolding member_value add_member is_key_value
member_value-add_member last v nil = rw ((bytes_eq_iff last last).1 refl) refl
member_value-add_member last v (cons (tree i nil) ts) =
    elim (Bool-cases (is_key_value i.kind && bytes_eq i.key last)) [
      | inl b ↦ rw b (rw b refl)
      | inr b ↦ rw b (rw b (member_value-add_member last v ts))
    ]
member_value-add_member last v (cons (tree i (cons u us)) ts) =
    elim (Bool-cases (is_key_value i.kind && bytes_eq i.key last)) [
      | inl b ↦ rw b (rw b refl)
      | inr b ↦ rw b (rw b (member_value-add_member last v ts))
    ]

get_elem?-insert_at :
    (i : ℕ) (v : PublicNode) (ts us : Forest PublicInfo)
    → insert_at i v ts ≡ some us
    → get_elem? (to_list us) i ≡ some v
unfolding insert_at
get_elem?-insert_at zero v ts us e = let q : cons v ts ≡ us = cc in rw (sym q) refl
get_elem?-insert_at (suc i) v nil us e = cc
get_elem?-insert_at (suc i) v (cons t ts) us e = elim (Option-cases (insert_at i v ts)) [
  | inl x ↦ absurd (cc (rw x at e))
  | inr (w, x) ↦
      let q : cons t w ≡ us = cc (rw x at e) in rw (sym q) (get_elem?-insert_at i v ts w x)
]

at_index-insert_index :
    (last : Bytes) (o : Option ℕ) (v : PublicNode) (ts us : Forest PublicInfo)
    → insert_index last o v ts ≡ ok us
    → at_index o us ≡ some v
unfolding insert_index
at_index-insert_index last none v ts us e = cc
at_index-insert_index last (some i) v ts us e = elim (Option-cases (insert_at i v ts)) [
  | inl x ↦ absurd (cc (rw (insert_index, x) at e))
  | inr (w, x) ↦
      let q : w ≡ us = cc (rw (insert_index, x) at e) in rw (sym q) (get_elem?-insert_at i v ts w x)
]

-- The child that was added is found.
descend_into-add_into_kind :
    (k : PublicKind) (last : Bytes) (v : PublicNode) (ts us : Forest PublicInfo)
    → last ≢ dash
    → add_into_kind k last v ts ≡ ok us
    → descend_into k us last ≡ ok v
unfolding add_into_kind descend_into
descend_into-add_into_kind object_node last v ts us ne e =
    let q : add_member last v ts ≡ us = cc in
    rw (sym q) (rw (member_value-add_member last v ts) refl)
descend_into-add_into_kind array_node last v ts us ne e = elim (Bool-cases (bytes_eq last dash)) [
  | inl b ↦ absurd (ne ((bytes_eq_iff last dash).0 b))
  | inr b ↦ rw (at_index-insert_index last (parse_array_index last) v ts us (rw b at e)) refl
]
descend_into-add_into_kind _ last v ts us ne e = cc

descend-add_child :
    (last : Bytes) (v n n' : PublicNode)
    → last ≢ dash
    → add_child v last n ≡ ok n'
    → descend n' last ≡ ok v
unfolding add_child descend
descend-add_child last v (tree i ts) n' ne e =
    let r = then_ok (add_into_kind i.kind last v ts) (λ us. ok (tree i us)) e in
    let q : tree i r.0 ≡ n' = cc (r.2) in
    rw (sym q) (descend_into-add_into_kind i.kind last v ts r.0 ne r.1)

-- The run finds a node of which `S` holds.
abbrev pub Found : (PublicNode → Type 0) → Result PointerError PublicNode → Type 0
Found S r = (n : PublicNode) × (r ≡ ok n) × S n

-- What is found in the changed node is found behind the tokens that lead to it.
resolve_target-edit :
    (S : PublicNode → Type 0) (f : PublicNode → Result PointerError PublicNode) (ts : List Bytes)
    (last : Bytes) (n n' : PublicNode)
    → ((c c' : PublicNode) → f c ≡ ok c' → Found S (descend c' last))
    → edit f ts n ≡ ok n'
    → Found S (resolve_target n' (ts ++ last ∷ []))
unfolding edit resolve_target
resolve_target-edit S f [] last n n' h e = let (m, x, s) = h n n' e in (m, rw x refl, s)
resolve_target-edit S f (t ∷ ts) last n n' h e =
    let r = then_ok (descend n t) (λ c. edit f ts c >>= λ c'. ok (put_child t c' n)) e in
    let w = then_ok (edit f ts r.0) (λ c'. ok (put_child t c' n)) r.2 in
    let q : put_child t w.0 n ≡ n' = cc (w.2) in
    rw (sym q)
      (rw (descend-put_child t w.0 r.0 n r.1) (resolve_target-edit S f ts last r.0 w.0 h w.1))

split_last-none : (ts : List Bytes) → split_last ts ≡ none → ts ≡ []
unfolding split_last
split_last-none [] e = refl
split_last-none (t ∷ ts) e = elim (Option-cases (split_last ts)) [
  | inl x ↦ absurd (cc (rw x at e))
  | inr (w, x) ↦ absurd (cc (rw x at e))
]

pub split_last-concat :
    (ts us : List Bytes) (last : Bytes) → split_last ts ≡ some (us, last) → ts ≡ us ++ last ∷ []
unfolding split_last
split_last-concat [] us last e = cc
split_last-concat (t ∷ ts) us last e = elim (Option-cases (split_last ts)) [
  | inl x ↦
      let q : ◌≡◌ {A = Option (List Bytes × Bytes)} (some ([], t)) (some (us, last)) = rw x at e in
      let r : us ≡ [] = cc in let l : t ≡ last = cc in rw (r, split_last-none ts x, l) refl
  | inr (w, x) ↦
      let q : ◌≡◌ {A = Option (List Bytes × Bytes)} (some (t ∷ w.0, w.1)) (some (us, last)) =
        rw x at e in
      let r : us ≡ t ∷ w.0 = cc in
      let l : w.1 ≡ last = cc in
      rw r (ap (λ ys. t ∷ ys) (split_last-concat ts w.0 last (rw l at x)))
]

-- What the change of a parent leaves at the last token is found behind all of them.
pub resolve_target-edit_parent :
    (S : PublicNode → Type 0) (f : Bytes → PublicNode → Result PointerError PublicNode)
    (n n' : PublicNode) (tokens : List Bytes) (o : Option (List Bytes × Bytes))
    → split_last tokens ≡ o
    → ((us : List Bytes) (last : Bytes) (c c' : PublicNode)
        → tokens ≡ us ++ last ∷ []
        → f last c ≡ ok c'
        → Found S (descend c' last))
    → edit_parent f o n ≡ ok n'
    → Found S (resolve_target n' tokens)
unfolding edit_parent
resolve_target-edit_parent S f n n' tokens none s h e = cc
resolve_target-edit_parent S f n n' tokens (some (us, last)) s h e =
    let q = split_last-concat tokens us last s in
    rw q (resolve_target-edit S (f last) us last n n' (λ c c' a. h us last c c' q a) e)

-- After a successful add at a path that does not end in the token `-`, the path leads to the value
-- that was added: to the new root, the member or the element.
pub op_add-resolve_target :
    (root v root' : PublicNode) (path : Bytes) (tokens : List Bytes)
    → pointer_tokens path ≡ ok tokens
    → ((us : List Bytes) → tokens ≢ us ++ dash ∷ [])
    → op_add root path (some v) ≡ ok root'
    → resolve_target root' tokens ≡ ok v
unfolding op_add add_at resolve_target
op_add-resolve_target root v root' path [] p ne e =
    let q : v ≡ root' = cc (rw p at e) in rw (sym q) refl
op_add-resolve_target root v root' path (t ∷ ts) p ne e =
    let r =
      resolve_target-edit_parent (λ m. m ≡ v) (add_child v) root root' (t ∷ ts)
        (split_last (t ∷ ts)) refl
        (λ us last c c' q a. (v, descend-add_child last v c c' (λ d. ne us (rw d at q)) a, refl))
        (rw p at e) in
    r.1 ∙ ap (λ m. ok m) r.2
