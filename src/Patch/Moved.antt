-- ===== src/Patch/Moved.antt =====
-- What `opMove` moves is found at its path.
use jsonc.Prelude.{
  ◌&&◌, List, [], ◌∷◌, ◌++◌, ◌≡◌, ◌≢◌, refl, sym, ◌∙◌, subst, inl, inr, Bytes, bytes_eq, Option,
  none, some, Result, ok, err, out_of_fuel, ◌>>=◌, Bool-cases, false,
}
use jsonc.Tree.Shape.{Forest, tree, nil, cons}
use jsonc.Ast.Public.{PublicKind, PublicInfo, PublicNode, object_node}
use jsonc.Ast.Walk.{is_key_value}
use jsonc.Text.{has_prefix}
use jsonc.Pointer.Tokens.{PointerError, pointer_tokens}
use jsonc.Pointer.Resolve.{member_value, descend_into, descend, resolve_target}
use jsonc.Patch.Edit.{put_child, edit, split_last, edit_parent, op_add, op_remove, dash}
use jsonc.Patch.Replace.{has_comments}
use jsonc.Patch.Added.{then_ok, descend-put_child, split_last-concat, op_add-resolve_target}
use jsonc.Patch.Move.{
  keep_comments, comment_member, comment_in_kind, comment_in, or_else, finish_move, move_value,
  op_move, source_member,
}

keep_comments-kind : (src dst : PublicInfo) → (keep_comments src dst).kind ≡ dst.kind
unfolding keep_comments
keep_comments-kind src dst = elim (Bool-cases (has_comments dst)) [
  | inl b ↦ rw b refl
  | inr b ↦ rw b refl
]

keep_comments-key : (src dst : PublicInfo) → (keep_comments src dst).key ≡ dst.key
unfolding keep_comments
keep_comments-key src dst = elim (Bool-cases (has_comments dst)) [
  | inl b ↦ rw b refl
  | inr b ↦ rw b refl
]

member_value-head :
    (key : Bytes) (i j : PublicInfo) (us ts : Forest PublicInfo)
    → i.kind ≡ j.kind
    → i.key ≡ j.key
    → member_value key (cons (tree i us) ts) ≡ member_value key (cons (tree j us) ts)
unfolding member_value
member_value-head key i j nil ts p q = rw (p, q) refl
member_value-head key i j (cons u us) ts p q = rw (p, q) refl

member_value-tail :
    (key : Bytes) (t : PublicNode) (ts us : Forest PublicInfo)
    → member_value key ts ≡ member_value key us
    → member_value key (cons t ts) ≡ member_value key (cons t us)
unfolding member_value
member_value-tail key (tree i nil) ts us e = rw e refl
member_value-tail key (tree i (cons w ws)) ts us e = rw e refl

-- Comments on a member do not change what a key leads to.
member_value-comment_member :
    (src : PublicInfo) (last key : Bytes) (ts : Forest PublicInfo)
    → member_value key (comment_member src last ts) ≡ member_value key ts
unfolding comment_member
member_value-comment_member src last key nil = refl
member_value-comment_member src last key (cons (tree i us) ts) =
    elim (Bool-cases (is_key_value i.kind && bytes_eq i.key last)) [
      | inl b ↦ rw b (
          member_value-head key (keep_comments src i) i us ts (keep_comments-kind src i)
            (keep_comments-key src i))
      | inr b ↦ rw b (
          member_value-tail key (tree i us) (comment_member src last ts) ts
            (member_value-comment_member src last key ts))
    ]

descend_into-comment_in_kind :
    (k : PublicKind) (src : PublicInfo) (last key : Bytes) (ts : Forest PublicInfo)
    → descend_into k (comment_in_kind k src last ts) key ≡ descend_into k ts key
unfolding descend_into comment_in_kind
descend_into-comment_in_kind object_node src last key ts =
    rw (member_value-comment_member src last key ts) refl
descend_into-comment_in_kind _ src last key ts = refl

descend-comment_in :
    (src : PublicInfo) (last key : Bytes) (n n' : PublicNode)
    → comment_in src last n ≡ ok n'
    → descend n' key ≡ descend n key
unfolding descend comment_in
descend-comment_in src last key (tree i ts) n' e =
    let q : tree i (comment_in_kind i.kind src last ts) ≡ n' = cc in
    rw (sym q) (descend_into-comment_in_kind i.kind src last key ts)

resolve_target-comment :
    (src : PublicInfo) (last : Bytes) (ts : List Bytes) (n n' v : PublicNode)
    → edit (comment_in src last) ts n ≡ ok n'
    → resolve_target n (ts ++ last ∷ []) ≡ ok v
    → resolve_target n' (ts ++ last ∷ []) ≡ ok v
unfolding edit resolve_target
resolve_target-comment src last [] n n' v e h = rw (descend-comment_in src last last n n' e) h
resolve_target-comment src last (t ∷ ts) n n' v e h =
    let r =
      then_ok (descend n t) (λ c. edit (comment_in src last) ts c >>= λ c'. ok (put_child t c' n))
        e in
    let w = then_ok (edit (comment_in src last) ts r.0) (λ c'. ok (put_child t c' n)) r.2 in
    let q : put_child t w.0 n ≡ n' = cc (w.2) in
    rw (sym q) (
      rw (descend-put_child t w.0 r.0 n r.1)
        (resolve_target-comment src last ts r.0 w.0 v w.1 (rw r.1 at h)))

or_else-resolve_target :
    (r : Result PointerError PublicNode) (n v : PublicNode) (tokens : List Bytes)
    → ((n' : PublicNode) → r ≡ ok n' → resolve_target n' tokens ≡ ok v)
    → resolve_target n tokens ≡ ok v
    → resolve_target (or_else n r) tokens ≡ ok v
or_else-resolve_target (ok n') n v tokens h e = h n' refl
or_else-resolve_target (err x) n v tokens h e = e
or_else-resolve_target out_of_fuel n v tokens h e = e

edit_parent-comment :
    (src : PublicInfo) (tokens : List Bytes) (n n' v : PublicNode) (o : Option (List Bytes × Bytes))
    → split_last tokens ≡ o
    → edit_parent (comment_in src) o n ≡ ok n'
    → resolve_target n tokens ≡ ok v
    → resolve_target n' tokens ≡ ok v
unfolding edit_parent
edit_parent-comment src tokens n n' v none s e h = cc
edit_parent-comment src tokens n n' v (some (us, last)) s e h =
    let q = split_last-concat tokens us last s in
    rw q (resolve_target-comment src last us n n' v e (rw q at h))

finish_move-resolve_target :
    (o : Option PublicInfo) (tokens : List Bytes) (n v : PublicNode)
    → resolve_target n tokens ≡ ok v
    → resolve_target (finish_move o tokens n) tokens ≡ ok v
unfolding finish_move
finish_move-resolve_target none tokens n v e = e
finish_move-resolve_target (some src) tokens n v e =
    or_else-resolve_target (edit_parent (comment_in src) (split_last tokens) n) n v tokens
      (λ n' x. edit_parent-comment src tokens n n' v (split_last tokens) refl x e) e

-- the value of a move that went through
move_value-resolve_target :
    (root root' v : PublicNode) (source path : Bytes) (ts tokens : List Bytes)
    → pointer_tokens path ≡ ok tokens
    → ((us : List Bytes) → tokens ≢ us ++ dash ∷ [])
    → bytes_eq source path ≡ false
    → move_value root source path ts tokens v ≡ ok root'
    → resolve_target root' tokens ≡ ok v
unfolding move_value
move_value-resolve_target root root' v source path ts tokens p ne b e =
    elim (Bool-cases (has_prefix path (source ++ b'/' ∷ []))) [
      | inl x ↦ cc (rw (b, x) at e)
      | inr x ↦
          let src = source_member root (split_last ts) in
          let r =
            then_ok (op_remove root source >>= λ less. op_add less path (some v))
              (λ more. ok (finish_move src tokens more)) (rw (b, x) at e) in
          let w = then_ok (op_remove root source) (λ less. op_add less path (some v)) r.1 in
          let q : finish_move src tokens r.0 ≡ root' = cc (r.2) in
          rw (sym q) (
            finish_move-resolve_target src tokens r.0 v
              (op_add-resolve_target w.0 v r.0 path tokens p ne w.2))
    ]

ok_injective : {A : Type 0} {a b : A} → ◌≡◌ {A = Result PointerError A} (ok a) (ok b) → a ≡ b
ok_injective e = cc

-- After a successful move to another path that does not end in the token `-`, the path leads to the
-- node that the source path led to before the move.
pub op_move-resolve_target :
    (root root' : PublicNode) (source path : Bytes) (tokens : List Bytes)
    → pointer_tokens path ≡ ok tokens
    → ((us : List Bytes) → tokens ≢ us ++ dash ∷ [])
    → bytes_eq source path ≡ false
    → op_move root source path ≡ ok root'
    → (v : PublicNode) × (pointer_tokens source >>= (λ ts. resolve_target root ts) ≡ ok v)
      × (resolve_target root' tokens ≡ ok v)
unfolding op_move
op_move-resolve_target root root' source path tokens p ne b e =
    let rest : List Bytes → PublicNode → Result PointerError PublicNode =
      λ ts v. pointer_tokens path >>= λ dst. move_value root source path ts dst v in
    let r = then_ok (pointer_tokens source) (λ ts. resolve_target root ts >>= λ v. rest ts v) e in
    let w = then_ok (resolve_target root r.0) (λ v. rest r.0 v) r.2 in
    let d = then_ok (pointer_tokens path) (λ dst. move_value root source path r.0 dst w.0) w.2 in
    let q : tokens ≡ d.0 = ok_injective (sym p ∙ d.1) in
    (
      w.0,
      rw r.1 w.1,
      subst (λ ts. resolve_target root' ts ≡ ok w.0) (sym q)
          (move_value-resolve_target root root' w.0 source path r.0 d.0 d.1 (λ us x. ne us (q ∙ x))
            b d.2),
    )
