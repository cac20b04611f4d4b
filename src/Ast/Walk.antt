-- ===== src/Ast/Walk.antt =====
-- node.go: `Walk`, `Filter` and `Validate`.
use jsonc.Prelude.{
  ℕ, ◌+◌, Bool, true, false, ◌&&◌, ◌||◌, List, [], ◌∷◌, ◌++◌, ◌==◌, if◌then◌else◌, Bytes, bytes_eq,
  Option, none, some,
}
use jsonc.Errors.{Error, duplicate_key_error, syntax_error, wrong_children}
use jsonc.Tree.Shape.{Forest, tree, nil, cons, info}
use jsonc.Ast.Public.{PublicKind, PublicInfo, PublicNode, object_node, key_value_node}

-- A callback of `Walk` with the variables that it captures: it tells whether to visit the children.
abbrev pub WalkFunc : Type 0 → Type 0
WalkFunc S = PublicNode → S → Bool × S

-- `Walk`, and its loop over the children
unfoldable mutual
  pub walk : {S : Type 0} → WalkFunc S → PublicNode → S → S
  walk visit (tree i ts) s =
      let r = visit (tree i ts) s in let below = walk_all visit ts r.1 in if r.0 then below else r.1

  pub walk_all : {S : Type 0} → WalkFunc S → Forest PublicInfo → S → S
  walk_all visit nil s = s
  walk_all visit (cons t ts) s = walk_all visit ts (walk visit t s)

-- the callback of `Filter`
unfoldable pub keep : (PublicNode → Bool) → WalkFunc (List PublicNode)
keep test n result = (true, if test n then result ++ n ∷ [] else result)

-- `Filter`
unfoldable pub filter : PublicNode → (PublicNode → Bool) → List PublicNode
unfolding walk keep
filter n test = walk (keep test) n []

-- membership in `seen`
unfoldable pub seen_key : Bytes → List Bytes → Bool
unfolding bytes_eq
seen_key k [] = false
seen_key k (j ∷ js) = bytes_eq j k || seen_key k js

unfoldable pub is_key_value : PublicKind → Bool
is_key_value key_value_node = true
is_key_value _ = false

-- the loop of `Validate` over an object's children
unfoldable pub find_duplicate : List Bytes → Forest PublicInfo → Option Error
unfolding seen_key is_key_value
find_duplicate seen nil = none
find_duplicate seen (cons t ts) =
    let member = is_key_value (info t).kind in
    let rest = find_duplicate (if member then (info t).key ∷ seen else seen) ts in
    if member && seen_key (info t).key seen
    then some (duplicate_key_error (info t).key (info t).pos)
    else rest

unfoldable pub count : Forest PublicInfo → ℕ
count nil = 0
count (cons t ts) = count ts + 1

-- what the switch of `Validate` finds at a node of the kind
unfoldable pub violation : PublicKind → PublicInfo → Forest PublicInfo → Option Error
unfolding find_duplicate count
violation object_node i ts = find_duplicate [] ts
violation key_value_node i ts =
    if count ts == 1 then none else some (syntax_error (wrong_children i.key (count ts)) i.pos)
violation _ i ts = none

abbrev pub visit_with : Option Error → Bool × Option Error
visit_with none = (true, none)
visit_with (some e) = (false, some e)

-- the callback of `Validate`, whose variable is `firstErr`
unfoldable pub check_node : WalkFunc (Option Error)
unfolding violation
check_node (tree i ts) (some e) = (false, some e)
check_node (tree i ts) none = visit_with (violation i.kind i ts)

-- `Validate`
unfoldable pub validate : PublicNode → Option Error
unfolding walk check_node
validate n = walk check_node n none
