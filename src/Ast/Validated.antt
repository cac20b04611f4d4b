-- ===== src/Ast/Validated.antt =====
-- `Validate` finds no violation exactly in the trees whose members are sound.
use jsonc.Prelude.{
  Bool, true, false, ◌||◌, List, [], ◌∷◌, ◌≡◌, ◌≢◌, ◌↔◌, refl, sym, ◌∙◌, inl, inr, Bytes, bytes_eq,
  bytes_eq_iff, none, some, arith, Bool-cases, Option-cases,
}
use jsonc.Errors.{Error}
use jsonc.Tree.Shape.{Forest, tree, nil, cons, info}
use jsonc.Ast.Public.{PublicKind, PublicInfo, PublicNode, object_node, key_value_node}
use jsonc.Ast.Walk.{
  walk, walk_all, check_node, violation, find_duplicate, seen_key, is_key_value, count, validate,
}

-- No member of the row has the key.
abbrev pub NoMember : Bytes → Forest PublicInfo → Type 0
NoMember k nil = Unit {0}
NoMember k (cons t ts) = (is_key_value (info t).kind ≡ true → (info t).key ≢ k) × NoMember k ts

-- The members of the row have distinct keys.
abbrev pub DistinctMembers : Forest PublicInfo → Type 0
DistinctMembers nil = Unit {0}
DistinctMembers (cons t ts) =
    (is_key_value (info t).kind ≡ true → NoMember (info t).key ts) × DistinctMembers ts

-- The members of objects have distinct keys, and each key-value node has one child.
unfoldable mutual
  pub Validated : PublicNode → Type 0
  Validated (tree i ts) =
      (i.kind ≡ object_node → DistinctMembers ts)
      × (i.kind ≡ key_value_node → count ts ≡ 1)
      × AllValidated ts

  pub AllValidated : Forest PublicInfo → Type 0
  AllValidated nil = Unit {0}
  AllValidated (cons t ts) = Validated t × AllValidated ts

-- an error stays
mutual
  unfolding walk check_node

  walk-some : (n : PublicNode) (e : Error) → walk check_node n (some e) ≡ some e
  walk-some (tree i ts) e = refl

  walk_all-some : (ts : Forest PublicInfo) (e : Error) → walk_all check_node ts (some e) ≡ some e
  walk_all-some nil e = refl
  walk_all-some (cons t ts) e = rw (walk-some t e) (walk_all-some ts e)

-- No member of the row has one of the keys.
abbrev Unseen : List Bytes → Forest PublicInfo → Type 0
Unseen [] ts = Unit {0}
Unseen (k ∷ ks) ts = NoMember k ts × Unseen ks ts

Unseen-nil : (seen : List Bytes) → Unseen seen nil
Unseen-nil [] = tt
Unseen-nil (k ∷ ks) = (tt, Unseen-nil ks)

or_left : (a b : Bool) → a || b ≡ false → a ≢ true
or_left true b e q = cc
or_left false b e q = cc

or_right : (a : Bool) {b : Bool} → a || b ≡ false → b ≡ false
or_right true e = cc
or_right false e = e

-- what the loop asks of the first child
Unseen-cons :
    (seen : List Bytes) (t : PublicNode) (ts : Forest PublicInfo)
    → Unseen seen (cons t ts)
      ↔ ((is_key_value (info t).kind ≡ true → seen_key (info t).key seen ≡ false) × Unseen seen ts)
unfolding seen_key
Unseen-cons [] t ts = (λ _. (λ _. refl, tt), λ _. tt)
Unseen-cons (k ∷ ks) t ts =
    let ih = Unseen-cons ks t ts in
    let same = bytes_eq_iff k (info t).key in
    (
      λ (h, u). (
        λ b. elim (Bool-cases (bytes_eq k (info t).key)) [
          | inl e ↦ absurd (h.0 b (sym (same.0 e)))
          | inr e ↦ rw e ((ih.0 u).0 b)
        ],
        (h.1, (ih.0 u).1),
      ),
      λ (h, (n, u)). (
        (λ b e. absurd (or_left (bytes_eq k (info t).key) _ (h b) (same.1 (sym e))), n),
        ih.1 (λ b. or_right (bytes_eq k (info t).key) (h b), u),
      ),
    )

find_duplicate_iff :
    (seen : List Bytes) (ts : Forest PublicInfo)
    → (find_duplicate seen ts ≡ none) ↔ (Unseen seen ts × DistinctMembers ts)
unfolding find_duplicate
find_duplicate_iff seen nil = (λ _. (Unseen-nil seen, tt), λ _. refl)
find_duplicate_iff seen (cons t ts) = elim (Bool-cases (is_key_value (info t).kind)) [
  | inl e ↦
      let ih = find_duplicate_iff ((info t).key ∷ seen) ts in
      let first = Unseen-cons seen t ts in
      rw e (elim (Bool-cases (seen_key (info t).key seen)) [
        | inl s ↦ rw s (λ q. cc, λ (u, d). absurd (cc ((first.0 u).0 e ∙ refl)))
        | inr s ↦ rw s (
          λ q. let (u, d) = ih.0 q in (first.1 (λ _. s, u.1), (λ _. u.0, d)),
          λ (u, d). ih.1 ((d.0 refl, (first.0 u).1), d.1),
        )
      ])
  | inr e ↦
      let ih = find_duplicate_iff seen ts in
      let first = Unseen-cons seen t ts in
      rw e (
        λ q. let (u, d) = ih.0 q in (first.1 (λ b. absurd (cc), u), (λ b. absurd (cc), d)),
        λ (u, d). ih.1 ((first.0 u).1, d.1),
      )
]

violation_iff :
    (k : PublicKind) (i : PublicInfo) (ts : Forest PublicInfo)
    → (violation k i ts ≡ none)
      ↔ ((k ≡ object_node → DistinctMembers ts) × (k ≡ key_value_node → count ts ≡ 1))
unfolding violation
violation_iff object_node i ts =
    let d = find_duplicate_iff [] ts in
    (λ e. (λ _. (d.0 e).1, λ x. absurd (cc)), λ h. d.1 (tt, h.0 refl))
violation_iff key_value_node i ts = ground arith
violation_iff _ i ts = (λ _. (λ x. cc, λ x. cc), λ _. refl)

-- The walk finds nothing at a node where neither the node nor its children have a violation.
walk-tree :
    (i : PublicInfo) (ts : Forest PublicInfo)
    → (walk check_node (tree i ts) none ≡ none)
      ↔ ((violation i.kind i ts ≡ none) × (walk_all check_node ts none ≡ none))
unfolding walk check_node
walk-tree i ts = elim (Option-cases (violation i.kind i ts)) [
  | inl e ↦ rw e (λ h. (refl, h), λ h. h.1)
  | inr (x, e) ↦ rw e (λ h. absurd (cc), λ h. absurd (cc))
]

walk_all-cons :
    (t : PublicNode) (ts : Forest PublicInfo)
    → (walk_all check_node (cons t ts) none ≡ none)
      ↔ ((walk check_node t none ≡ none) × (walk_all check_node ts none ≡ none))
unfolding walk
walk_all-cons t ts = elim (Option-cases (walk check_node t none)) [
  | inl e ↦ rw e (λ h. (refl, h), λ h. h.1)
  | inr (x, e) ↦ rw e (λ h. absurd (cc (rw (walk_all-some ts x) at h)), λ h. absurd (cc))
]

mutual
  unfolding Validated walk

  walk-Validated : (n : PublicNode) → (walk check_node n none ≡ none) ↔ Validated n
  walk-Validated (tree i ts) =
      let w = walk-tree i ts in
      let v = violation_iff i.kind i ts in
      let ih = walk_all-Validated ts in
      (
        λ e. let (q, r) = w.0 e in ((v.0 q).0, (v.0 q).1, ih.0 r),
        λ (d, c, r). w.1 (v.1 (d, c), ih.1 r),
      )

  walk_all-Validated :
      (ts : Forest PublicInfo) → (walk_all check_node ts none ≡ none) ↔ AllValidated ts
  walk_all-Validated nil = (λ _. tt, λ _. refl)
  walk_all-Validated (cons t ts) =
      let w = walk_all-cons t ts in
      let f = walk-Validated t in
      let g = walk_all-Validated ts in
      (λ e. (f.0 (w.0 e).0, g.0 (w.0 e).1), λ h. w.1 (f.1 h.0, g.1 h.1))

-- `Validate` reports no violation exactly of the trees where the members of every object have
-- distinct keys and every key-value node has one child.
pub validate_iff : (n : PublicNode) → (validate n ≡ none) ↔ Validated n
unfolding validate
validate_iff n = walk-Validated n
