-- ===== src/Parser/Members.antt =====
-- parser.go: `memberIndex`, which finds an object's members by key.
pub mod Laws
pub mod Upkeep
use jsonc.Prelude.{
  ℕ, zero, suc, ◌+◌, ◌-◌, Bool, true, false, not, ◌&&◌, ◌||◌, List, [], ◌∷◌, ◌++◌, ◌==◌, leb,
  if◌then◌else◌, Bytes, bytes_eq, Option, none, some, length,
}
use mathlib.Core.Option
use jsonc.Tree.Shape.{tree, info}
use jsonc.Tree.Internal.{Node}

-- An object's members while it is parsed: one that a later duplicate replaced is nil.
abbrev pub Members : Type 0
Members = List (Option Node)

abbrev pub key_of : Node → Bytes
key_of n = (info n).key

-- A Go map from strings to ints: the first entry of a key counts.
abbrev pub KeyMap : Type 0
KeyMap = List (Bytes × ℕ)

-- `byKey`, which is nil until the object has `memberIndexMin` members
abbrev pub MemberIndex : Type 0
MemberIndex = Option KeyMap

abbrev pub member_index_min : ℕ
member_index_min = 16

unfoldable pub lookup : Bytes → KeyMap → Option ℕ
unfolding bytes_eq
lookup k [] = none
lookup k ((j, i) ∷ m) = if bytes_eq j k then some i else lookup k m

-- `c != nil && c.key == key`
unfoldable pub has_key : Bytes → Option Node → Bool
unfolding bytes_eq
has_key k none = false
has_key k (some n) = bytes_eq (key_of n) k

-- the loop of `find`, from the index `i`
unfoldable pub find_from : ℕ → Bytes → Members → Option ℕ
unfolding has_key
find_from i k [] = none
find_from i k (c ∷ cs) = if has_key k c then some i else find_from (i + 1) k cs

-- `find`; its -1 is `none`
unfoldable pub find : MemberIndex → Members → Bytes → Option ℕ
unfolding lookup find_from
find (some m) cs k = lookup k m
find none cs k = find_from 0 k cs

-- the loop of `add`, from the index `i`, into the map `m`
unfoldable pub index_from : ℕ → Members → KeyMap → KeyMap
index_from i [] m = m
index_from i (none ∷ cs) m = index_from (i + 1) cs m
index_from i (some n ∷ cs) m = index_from (i + 1) cs ((key_of n, i) ∷ m)

-- `add`, of the member `n` just appended to the members `cs`
unfoldable pub add : MemberIndex → Members → Node → MemberIndex
unfolding index_from
add (some m) cs n = some ((key_of n, length cs) ∷ m)
add none cs n =
    if leb member_index_min (length cs + 1)
    then some (index_from 0 (cs ++ some n ∷ []) [])
    else none

-- `obj.children[i] = nil`
unfoldable pub clear : ℕ → Members → Members
clear i [] = []
clear zero (c ∷ cs) = none ∷ cs
clear (suc i) (c ∷ cs) = c ∷ clear i cs

-- `slices.DeleteFunc` of the nil members, when the object closes
unfoldable pub live : Members → List Node
live [] = []
live (none ∷ cs) = live cs
live (some n ∷ cs) = n ∷ live cs

-- the members once the earlier one of a key, at the index that `find` gave, has made room
abbrev pub make_room : Option ℕ → Members → Members
make_room none cs = cs
make_room (some i) cs = clear i cs
