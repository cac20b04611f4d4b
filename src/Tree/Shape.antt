-- ===== src/Tree/Shape.antt =====
-- Trees and rows of trees, over what a node carries.
use jsonc.Prelude.{List, [], ◌∷◌}

mutual
  pub data Tree (I : Type 0) : Type 0 where
    tree : I → Forest I → Tree I

  pub data Forest (I : Type 0) : Type 0 where
    nil : Forest I
    cons : Tree I → Forest I → Forest I

module _ {I : Type 0} where
  abbrev pub info : Tree I → I
  info (tree i ts) = i

  abbrev pub children : Tree I → Forest I
  children (tree i ts) = ts

  -- a change of what the root carries
  abbrev pub update : (I → I) → Tree I → Tree I
  update f (tree i ts) = tree (f i) ts

  abbrev pub of_list : List (Tree I) → Forest I
  of_list [] = nil
  of_list (t ∷ ts) = cons t (of_list ts)

  abbrev pub to_list : Forest I → List (Tree I)
  to_list nil = []
  to_list (cons t ts) = t ∷ to_list ts
