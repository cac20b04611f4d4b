-- ===== src/Parser/Members/Upkeep.antt =====
-- One round of an object's loop on the member index: `find`, the removal of the earlier member, and
-- `add` of the new one.
use jsonc.Prelude.{
  ℕ, ◌+◌, false, [], ◌∷◌, ◌++◌, leb, ◌≡◌, refl, sym, ◌∙◌, ap, inl, inr, Bytes, bytes_eq,
  bytes_eq_iff, Option, none, some, length, arith, Bool-cases,
}
use jsonc.Tree.Internal.{Node}
use jsonc.Parser.Members.{
  Members, key_of, KeyMap, MemberIndex, member_index_min, lookup, find_from, find, index_from, add,
  make_room,
}
use jsonc.Parser.Members.Laws.{
  Absent, Distinct, Sound, find_from-none, find_from-Absent, find_from-concat, lookup-index_from,
  Distinct-concat, Distinct-clear, Absent-clear_found, find_from-clear,
}

-- the members that are left when the one at the index found has made room for the key `k`
make_room-Distinct : (o : Option ℕ) (cs : Members) → Distinct cs → Distinct (make_room o cs)
make_room-Distinct none cs d = d
make_room-Distinct (some i) cs d = Distinct-clear i cs d

make_room-Absent :
    (o : Option ℕ) (k : Bytes) (cs : Members)
    → Distinct cs
    → find_from 0 k cs ≡ o
    → Absent k (make_room o cs)
make_room-Absent none k cs d e = find_from-none 0 k cs e
make_room-Absent (some i) k cs d e = Absent-clear_found 0 i k cs d (e ∙ ap some (omega arith))

find_from-make_room :
    (o : Option ℕ) (k k' : Bytes) (cs : Members)
    → find_from 0 k cs ≡ o
    → bytes_eq k k' ≡ false
    → find_from 0 k' (make_room o cs) ≡ find_from 0 k' cs
find_from-make_room none k k' cs e ne = refl
find_from-make_room (some i) k k' cs e ne =
    find_from-clear 0 i k k' cs (e ∙ ap some (omega arith)) ne

-- `add` reads of a member its key alone.
index_from-key :
    (j : ℕ) (cs : Members) (m : KeyMap) (a b : Node)
    → key_of a ≡ key_of b
    → index_from j (cs ++ some a ∷ []) m ≡ index_from j (cs ++ some b ∷ []) m
unfolding index_from
index_from-key j [] m a b e = ap (λ k. (k, j) ∷ m) e
index_from-key j (none ∷ cs) m a b e = index_from-key (j + 1) cs m a b e
index_from-key j (some n ∷ cs) m a b e = index_from-key (j + 1) cs ((key_of n, j) ∷ m) a b e

add-key :
    (m : MemberIndex) (cs : Members) (a b : Node) → key_of a ≡ key_of b → add m cs a ≡ add m cs b
unfolding add
add-key (some m) cs a b e = ap (λ k. some ((k, length cs) ∷ m)) e
add-key none cs a b e = rw (index_from-key 0 cs [] a b e)

-- The map, with the new member entered behind those that are left, against the scan.
add-agrees :
    (m : MemberIndex) (cs cs' : Members) (n : Node) (k : Bytes)
    → ((k' : Bytes) → bytes_eq (key_of n) k' ≡ false → find m cs k' ≡ find_from 0 k' cs')
    → Distinct cs'
    → Absent (key_of n) cs'
    → find (add m cs' n) (cs' ++ some n ∷ []) k ≡ find_from 0 k (cs' ++ some n ∷ [])
unfolding add find lookup
add-agrees (some m) cs cs' n k h d a = elim (Bool-cases (bytes_eq (key_of n) k)) [
  | inl e ↦
      let q = (bytes_eq_iff (key_of n) k).0 e in
      ground (arith, find_from-concat 0 k cs' n, find_from-Absent 0 k cs' (rw q at a))
  | inr e ↦ ground (arith, find_from-concat 0 k cs' n, h k e)
]
add-agrees none cs cs' n k h d a = elim (Bool-cases (leb member_index_min (length cs' + 1))) [
  | inl e ↦
      rw e
        (lookup-index_from 0 k (cs' ++ some n ∷ []) [] (Distinct-concat cs' n d a) ∙ ground arith)
  | inr e ↦ rw e
]

-- A new object's index.
pub Sound-nil : Sound none []
unfolding find find_from
Sound-nil = record { agrees = λ k. refl; distinct = tt }

-- After a round of the loop the index agrees with the scan again, and the keys are distinct; the
-- member that joins, `n'`, has the key of the `n` that was entered.
pub Sound-add :
    (m : MemberIndex) (cs : Members) (n n' : Node)
    → Sound m cs
    → key_of n' ≡ key_of n
    → Sound
        (add m (make_room (find m cs (key_of n)) cs) n)
        (make_room (find m cs (key_of n)) cs ++ some n' ∷ [])
Sound-add m cs n n' s e =
    let o = find m cs (key_of n) in
    let cs' = make_room o cs in
    let q : find_from 0 (key_of n') cs ≡ o =
      ap (λ k. find_from 0 k cs) e ∙ sym (s.agrees (key_of n)) in
    let d = make_room-Distinct o cs s.distinct in
    let a = make_room-Absent o (key_of n') cs s.distinct q in
    record {
      agrees = λ k. rw (add-key m cs' n n' (sym e)) (
          add-agrees m cs cs' n' k
            (λ k' ne. s.agrees k' ∙ sym (find_from-make_room o (key_of n') k' cs q ne)) d a);
      distinct = Distinct-concat cs' n' d a;
    }
