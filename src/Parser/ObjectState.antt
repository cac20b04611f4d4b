-- ===== src/Parser/ObjectState.antt =====
-- The members read so far, and the node that an object's loop makes of them.
use jsonc.Prelude.{
  ℕ, zero, suc, ◌+◌, ◌≤◌, true, List, [], ◌∷◌, ◌++◌, ◌≡◌, refl, ap, Bytes, bytes_eq_iff, Option,
  none, some, arith,
}
use jsonc.Tree.Shape.{of_list}
use jsonc.Tree.Internal.{Node}
use jsonc.Tree.Valid.{
  IsMember, member, AreMembers, no_members, more_members, Keyless, DistinctKeys, heights, size,
  sizes, comments_free, Within,
}
use jsonc.Parser.State.{DecoderOptions}
use jsonc.Parser.Members.{Members, key_of, has_key, clear, live, make_room}
use jsonc.Parser.Members.Laws.{Absent, Distinct}
use jsonc.Parser.Step.{Good}

-- Every member that is left is one, read at depth `d`.
abbrev pub EachLive : DecoderOptions → ℕ → Members → Type 0
EachLive o d [] = Unit {0}
EachLive o d (none ∷ cs) = EachLive o d cs
EachLive o d (some n ∷ cs) = IsMember n × Good o d n × EachLive o d cs

-- the nodes that they have
abbrev pub live_size : Members → ℕ
live_size [] = 0
live_size (none ∷ cs) = live_size cs
live_size (some n ∷ cs) = size n + live_size cs

pub EachLive-concat :
    {o : DecoderOptions} {d : ℕ} (cs : Members) (n : Node)
    → EachLive o d cs
    → IsMember n
    → Good o d n
    → EachLive o d (cs ++ some n ∷ [])
EachLive-concat [] n h m g = (m, g, tt)
EachLive-concat (none ∷ cs) n h m g = EachLive-concat cs n h m g
EachLive-concat (some c ∷ cs) n h m g = (h.0, h.1, EachLive-concat cs n h.2 m g)

pub live_size-concat :
    (cs : Members) (n : Node) → live_size (cs ++ some n ∷ []) ≡ live_size cs + size n
live_size-concat [] n = omega arith
live_size-concat (none ∷ cs) n = live_size-concat cs n
live_size-concat (some c ∷ cs) n = omega (arith, live_size-concat cs n)

EachLive-clear :
    (o : DecoderOptions) (d : ℕ) (i : ℕ) (cs : Members)
    → EachLive o d cs
    → EachLive o d (clear i cs)
unfolding clear
EachLive-clear o d zero [] h = h
EachLive-clear o d (suc i) [] h = h
EachLive-clear o d zero (none ∷ cs) h = h
EachLive-clear o d zero (some c ∷ cs) h = h.2
EachLive-clear o d (suc i) (none ∷ cs) h = EachLive-clear o d i cs h
EachLive-clear o d (suc i) (some c ∷ cs) h = (h.0, h.1, EachLive-clear o d i cs h.2)

live_size-clear : (i : ℕ) (cs : Members) → live_size (clear i cs) ≤ live_size cs
unfolding clear
live_size-clear zero [] = omega arith
live_size-clear (suc i) [] = omega arith
live_size-clear zero (none ∷ cs) = omega arith
live_size-clear zero (some c ∷ cs) = omega arith
live_size-clear (suc i) (none ∷ cs) = live_size-clear i cs
live_size-clear (suc i) (some c ∷ cs) = omega (arith, live_size-clear i cs)

pub EachLive-make_room :
    (o : DecoderOptions) (d : ℕ) (j : Option ℕ) (cs : Members)
    → EachLive o d cs
    → EachLive o d (make_room j cs)
EachLive-make_room o d none cs h = h
EachLive-make_room o d (some i) cs h = EachLive-clear o d i cs h

pub live_size-make_room : (j : Option ℕ) (cs : Members) → live_size (make_room j cs) ≤ live_size cs
live_size-make_room none cs = omega arith
live_size-make_room (some i) cs = live_size-clear i cs

Keyless-live : (k : Bytes) (cs : Members) → Absent k cs → Keyless k (of_list (live cs))
unfolding live has_key
Keyless-live k [] a = tt
Keyless-live k (none ∷ cs) a = Keyless-live k cs a.1
Keyless-live k (some n ∷ cs) a = (λ e. cc ((bytes_eq_iff (key_of n) k).1 e), Keyless-live k cs a.1)

pub DistinctKeys-live : (cs : Members) → Distinct cs → DistinctKeys (of_list (live cs))
unfolding live
DistinctKeys-live [] d = tt
DistinctKeys-live (none ∷ cs) d = DistinctKeys-live cs d
DistinctKeys-live (some n ∷ cs) d = (Keyless-live (key_of n) cs d.0, DistinctKeys-live cs d.1)

AreMembers-cons :
    {n : Node} (cs : List Node)
    → IsMember n
    → AreMembers (of_list cs)
    → AreMembers (of_list (n ∷ cs))
AreMembers-cons cs (member k v) h = more_members k v h

module _ (o : DecoderOptions) (d : ℕ) where
  pub AreMembers-live : (cs : Members) → EachLive o d cs → AreMembers (of_list (live cs))
  unfolding live
  AreMembers-live [] h = no_members
  AreMembers-live (none ∷ cs) h = AreMembers-live cs h
  AreMembers-live (some n ∷ cs) h = AreMembers-cons (live cs) h.0 (AreMembers-live cs h.2)

  pub heights-live :
      (cs : Members)
      → Within o.max_depth d
      → EachLive o d cs
      → Within o.max_depth (d + heights (of_list (live cs)))
  unfolding live heights
  heights-live [] w h = ground arith
  heights-live (none ∷ cs) w h = heights-live cs w h
  heights-live (some n ∷ cs) w h = ground (arith, h.1.deep, heights-live cs w h.2)

  pub comments_free-live :
      (cs : Members)
      → EachLive o d cs
      → o.strict_json ≡ true
      → comments_free (of_list (live cs)) ≡ true
  unfolding live comments_free
  comments_free-live [] h s = refl
  comments_free-live (none ∷ cs) h s = comments_free-live cs h s
  comments_free-live (some n ∷ cs) h s = rw (h.1.silent s, comments_free-live cs h.2 s)

pub sizes-live : (cs : Members) → sizes (of_list (live cs)) ≡ live_size cs
unfolding live sizes
sizes-live [] = refl
sizes-live (none ∷ cs) = sizes-live cs
sizes-live (some n ∷ cs) = ap (λ t. size n + t) (sizes-live cs)
