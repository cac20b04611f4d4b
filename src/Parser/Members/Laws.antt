-- ===== src/Parser/Members/Laws.antt =====
-- The member index finds what the scan of the members finds, and the members' keys stay distinct.
use jsonc.Prelude.{
  ℕ, zero, suc, ◌+◌, ◌≤◌, true, false, [], ◌∷◌, ◌++◌, ◌≡◌, refl, sym, ◌∙◌, ap, inl, inr,
  if◌then◌else◌, Bytes, bytes_eq, bytes_eq_iff, none, some, length, arith, Bool-cases,
}
use jsonc.Tree.Internal.{Node}
use jsonc.Parser.Members.{
  Members, key_of, KeyMap, MemberIndex, lookup, has_key, find_from, find, index_from, clear,
}

-- No member has the key.
abbrev pub Absent : Bytes → Members → Type 0
Absent k [] = Unit {0}
Absent k (c ∷ cs) = (has_key k c ≡ false) × Absent k cs

-- No two members have the same key.
abbrev pub Distinct : Members → Type 0
Distinct [] = Unit {0}
Distinct (none ∷ cs) = Distinct cs
Distinct (some n ∷ cs) = Absent (key_of n) cs × Distinct cs

-- The index agrees with the scan, and the keys are distinct.
pub record Sound (m : MemberIndex) (cs : Members) : Type 0 where
  pub agrees : (k : Bytes) → find m cs k ≡ find_from 0 k cs
  pub distinct : Distinct cs

pub find_from-none : (j : ℕ) (k : Bytes) (cs : Members) → find_from j k cs ≡ none → Absent k cs
unfolding find_from
find_from-none j k [] e = tt
find_from-none j k (c ∷ cs) e = elim (Bool-cases (has_key k c)) [
  | inl h ↦ absurd (cc (rw h at e))
  | inr h ↦ (h, find_from-none (j + 1) k cs (rw h at e))
]

pub find_from-Absent : (j : ℕ) (k : Bytes) (cs : Members) → Absent k cs → find_from j k cs ≡ none
unfolding find_from
find_from-Absent j k [] h = refl
find_from-Absent j k (c ∷ cs) h = rw h.0 (find_from-Absent (j + 1) k cs h.1)

has_key-eq : (k : Bytes) (n : Node) → has_key k (some n) ≡ bytes_eq (key_of n) k
unfolding has_key
has_key-eq k n = refl

-- Behind members that lack the key, the last one counts.
pub find_from-concat :
    (j : ℕ) (k : Bytes) (cs : Members) (n : Node)
    → find_from j k (cs ++ some n ∷ []) ≡ elim (find_from j k cs) [
      | some i ↦ some i
      | none ↦ if bytes_eq (key_of n) k then some (j + length cs) else none
    ]
unfolding find_from has_key
find_from-concat j k [] n = ground arith
find_from-concat j k (c ∷ cs) n = elim (Bool-cases (has_key k c)) [
  | inl h ↦ ground arith
  | inr h ↦ ground (arith, find_from-concat (j + 1) k cs n)
]

pub lookup-index_from :
    (j : ℕ) (k : Bytes) (cs : Members) (m : KeyMap)
    → Distinct cs
    → lookup k (index_from j cs m) ≡ elim (find_from j k cs) [ some i ↦ some i | none ↦ lookup k m ]
unfolding index_from find_from lookup has_key
lookup-index_from j k [] m d = refl
lookup-index_from j k (none ∷ cs) m d = lookup-index_from (j + 1) k cs m d
lookup-index_from j k (some n ∷ cs) m d = elim (Bool-cases (bytes_eq (key_of n) k)) [
  | inl h ↦
      let e = (bytes_eq_iff (key_of n) k).0 h in
      ground (
        arith,
        lookup-index_from (j + 1) k cs ((key_of n, j) ∷ m) d.1,
        find_from-Absent (j + 1) k cs (rw e at d.0),
      )
  | inr h ↦ ground (arith, lookup-index_from (j + 1) k cs ((key_of n, j) ∷ m) d.1)
]

Absent-concat :
    (k : Bytes) (cs : Members) (n : Node)
    → Absent k cs
    → bytes_eq (key_of n) k ≡ false
    → Absent k (cs ++ some n ∷ [])
unfolding has_key
Absent-concat k [] n h e = (e, tt)
Absent-concat k (c ∷ cs) n h e = (h.0, Absent-concat k cs n h.1 e)

bytes_eq_comm : (a b : Bytes) → bytes_eq a b ≡ bytes_eq b a
bytes_eq_comm a b = elim (Bool-cases (bytes_eq a b)) [
  | inl h ↦ let e = (bytes_eq_iff a b).0 h in rw (h, (bytes_eq_iff b a).1 (sym e))
  | inr h ↦ elim (Bool-cases (bytes_eq b a)) [
    | inl g ↦ let e = (bytes_eq_iff b a).0 g in absurd (cc ((bytes_eq_iff a b).1 (sym e)))
    | inr g ↦ rw (h, g)
  ]
]

pub Distinct-concat :
    (cs : Members) (n : Node) → Distinct cs → Absent (key_of n) cs → Distinct (cs ++ some n ∷ [])
unfolding has_key
Distinct-concat [] n d h = (tt, tt)
Distinct-concat (none ∷ cs) n d h = Distinct-concat cs n d h.1
Distinct-concat (some m ∷ cs) n d h = (
  Absent-concat (key_of m) cs n d.0 (bytes_eq_comm (key_of n) (key_of m) ∙ h.0),
  Distinct-concat cs n d.1 h.1,
)

Absent-clear : (k : Bytes) (i : ℕ) (cs : Members) → Absent k cs → Absent k (clear i cs)
unfolding clear has_key
Absent-clear k zero [] h = h
Absent-clear k (suc i) [] h = h
Absent-clear k zero (c ∷ cs) h = (refl, h.1)
Absent-clear k (suc i) (c ∷ cs) h = (h.0, Absent-clear k i cs h.1)

pub Distinct-clear : (i : ℕ) (cs : Members) → Distinct cs → Distinct (clear i cs)
unfolding clear
Distinct-clear zero [] d = d
Distinct-clear (suc i) [] d = d
Distinct-clear zero (none ∷ cs) d = d
Distinct-clear zero (some n ∷ cs) d = d.1
Distinct-clear (suc i) (none ∷ cs) d = Distinct-clear i cs d
Distinct-clear (suc i) (some n ∷ cs) d = (Absent-clear (key_of n) i cs d.0, Distinct-clear i cs d.1)

find_from-le : (j : ℕ) (k : Bytes) (cs : Members) (m : ℕ) → find_from j k cs ≡ some m → j ≤ m
unfolding find_from
find_from-le j k [] m e = cc
find_from-le j k (c ∷ cs) m e = elim (Bool-cases (has_key k c)) [
  | inl h ↦ ground arith
  | inr h ↦ omega (arith, find_from-le (j + 1) k cs m (rw h at e))
]

-- Two members of one key cannot both be there.
has_key_trans :
    (k : Bytes) (n : Node) (cs : Members)
    → has_key k (some n) ≡ true
    → Absent (key_of n) cs
    → Absent k cs
unfolding has_key
has_key_trans k n cs h a = let e = (bytes_eq_iff (key_of n) k).0 h in rw e at a

-- Where the scan finds the key, clearing that member leaves none of the key.
pub Absent-clear_found :
    (j i : ℕ) (k : Bytes) (cs : Members)
    → Distinct cs
    → find_from j k cs ≡ some (j + i)
    → Absent k (clear i cs)
unfolding find_from clear has_key
Absent-clear_found j i k [] d e = cc
Absent-clear_found j zero k (none ∷ cs) d e =
    absurd (omega (arith, find_from-le (j + 1) k cs (j + 0) e))
Absent-clear_found j (suc i) k (none ∷ cs) d e =
    (refl, Absent-clear_found (j + 1) i k cs d (e ∙ ap some (omega arith)))
Absent-clear_found j zero k (some n ∷ cs) d e = elim (Bool-cases (has_key k (some n))) [
  | inl h ↦ (refl, has_key_trans k n cs h d.0)
  | inr h ↦ absurd (omega (arith, find_from-le (j + 1) k cs (j + 0) (rw h at e)))
]
Absent-clear_found j (suc i) k (some n ∷ cs) d e = elim (Bool-cases (has_key k (some n))) [
  | inl h ↦ absurd (ground arith)
  | inr h ↦ (h, Absent-clear_found (j + 1) i k cs d.1 (rw h at e ∙ ap some (omega arith)))
]

-- Clearing a member of one key does not move what the scan finds of another.
pub find_from-clear :
    (j i : ℕ) (k k' : Bytes) (cs : Members)
    → find_from j k cs ≡ some (j + i)
    → bytes_eq k k' ≡ false
    → find_from j k' (clear i cs) ≡ find_from j k' cs
unfolding find_from clear has_key
find_from-clear j i k k' [] e ne = cc
find_from-clear j zero k k' (none ∷ cs) e ne =
    absurd (omega (arith, find_from-le (j + 1) k cs (j + 0) e))
find_from-clear j (suc i) k k' (none ∷ cs) e ne =
    find_from-clear (j + 1) i k k' cs (e ∙ ap some (omega arith)) ne
find_from-clear j zero k k' (some n ∷ cs) e ne = elim (Bool-cases (bytes_eq (key_of n) k)) [
  | inl h ↦ let q = (bytes_eq_iff (key_of n) k).0 h in rw (q, ne)
  | inr h ↦ absurd (omega (arith, find_from-le (j + 1) k cs (j + 0) (rw h at e)))
]
find_from-clear j (suc i) k k' (some n ∷ cs) e ne = elim (Bool-cases (bytes_eq (key_of n) k)) [
  | inl h ↦ absurd (ground arith)
  | inr h ↦ rw (find_from-clear (j + 1) i k k' cs (rw h at e ∙ ap some (omega arith)) ne)
]
