-- ===== src/Ast/Visits.antt =====
-- `Filter` gives the nodes of the preorder that pass the test.
use jsonc.Prelude.{
  Bool, List, [], ◌∷◌, ◌++◌, ◌≡◌, refl, sym, ◌∙◌, append_assoc, append-nil, if◌then◌else◌, arith,
  Bool-cases, inl, inr,
}
use jsonc.Tree.Shape.{Forest, tree, nil, cons}
use jsonc.Ast.Public.{PublicInfo, PublicNode}
use jsonc.Ast.Walk.{walk, walk_all, keep, filter}

-- The node, and then its children's nodes, from left to right.
unfoldable mutual
  pub preorder : PublicNode → List PublicNode
  preorder (tree i ts) = tree i ts ∷ preorders ts

  pub preorders : Forest PublicInfo → List PublicNode
  preorders nil = []
  preorders (cons t ts) = preorder t ++ preorders ts

abbrev pub select : (PublicNode → Bool) → List PublicNode → List PublicNode
select test [] = []
select test (n ∷ ns) = if test n then n ∷ select test ns else select test ns

select-concat :
    (test : PublicNode → Bool) (ns ms : List PublicNode)
    → select test (ns ++ ms) ≡ select test ns ++ select test ms
select-concat test [] ms = refl
select-concat test (n ∷ ns) ms = ground (arith, select-concat test ns ms)

mutual
  unfolding walk keep preorder

  walk-keep :
      (test : PublicNode → Bool) (n : PublicNode) (acc : List PublicNode)
      → walk (keep test) n acc ≡ acc ++ select test (preorder n)
  walk-keep test (tree i ts) acc = elim (Bool-cases (test (tree i ts))) [
    | inl e ↦
        rw e (walk_all-keep test ts (acc ++ tree i ts ∷ []) ∙ append_assoc acc (tree i ts ∷ []) _)
    | inr e ↦ rw e (walk_all-keep test ts acc)
  ]

  walk_all-keep :
      (test : PublicNode → Bool) (ts : Forest PublicInfo) (acc : List PublicNode)
      → walk_all (keep test) ts acc ≡ acc ++ select test (preorders ts)
  walk_all-keep test nil acc = sym (append-nil acc)
  walk_all-keep test (cons t ts) acc =
      rw (walk-keep test t acc, select-concat test (preorder t) (preorders ts))
        (walk_all-keep test ts (acc ++ select test (preorder t)) ∙ append_assoc acc _ _)

-- `Filter` gives exactly the nodes that pass the test, in depth-first preorder.
pub filter-select :
    (n : PublicNode) (test : PublicNode → Bool) → filter n test ≡ select test (preorder n)
unfolding filter
filter-select n test = walk-keep test n []
