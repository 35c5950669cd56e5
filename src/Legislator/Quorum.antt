-- ===== src/Legislator/Quorum.antt =====
-- src/RSL/src/legislator.cpp: `QuorumSize` makes majorities.
use rsl.Common.{◌+◌, ◌≤◌, ◌≡◌, subst, arith}
use rsl.Common.{
  List, [], ◌∷◌, true, false, Bool-cases, inl, inr, ◌⊎◌, length, ◌++◌, length-append, if◌then◌else◌,
}
use rsl.Ballot.{MemberId, id_eq}
use rsl.Ballot.Order.{id_eq-eq, id_eq_self, id_eq_swap}
use rsl.Legislator.{Legislator, quorum_size}
use rsl.Legislator.Handlers.{includes}
use rsl.Legislator.Guards.{Distinct}

-- Every member of the first list is in the second.
abbrev pub IsWithin : List MemberId → List MemberId → Type 0
IsWithin [] ms = Unit
IsWithin (x ∷ xs) ms = (includes x ms ≡ true) × IsWithin xs ms

-- The list without a member.
erase : MemberId → List MemberId → List MemberId
erase x [] = []
erase x (y ∷ ys) = let rest = erase x ys in if id_eq x y then ys else y ∷ rest

length-erase :
    (x : MemberId) (ys : List MemberId) → includes x ys ≡ true → length (erase x ys) + 1 ≡ length ys
unfolding erase includes
length-erase x [] h = cc
length-erase x (y ∷ ys) h = ground (arith, length-erase x ys)

includes-erase :
    (z x : MemberId) (ys : List MemberId)
    → id_eq z x ≡ false
    → includes z ys ≡ true
    → includes z (erase x ys) ≡ true
unfolding erase includes
includes-erase z x [] n h = h
includes-erase z x (y ∷ ys) n h = elim (Bool-cases (id_eq x y)) [
  | inl same ↦
      let other : id_eq z y ≡ false = subst (λ w. id_eq z w ≡ false) (id_eq-eq x y same) n in
      rw same (ground arith)
  | inr other ↦ rw other (ground (arith, includes-erase z x ys n))
]

IsWithin-erase :
    (x : MemberId) (xs ms : List MemberId)
    → includes x xs ≡ false
    → IsWithin xs ms
    → IsWithin xs (erase x ms)
unfolding includes
IsWithin-erase x [] ms n h = tt
IsWithin-erase x (z ∷ zs) ms n h = (
  includes-erase z x ms (id_eq_swap x z (ground arith)) h.0,
  IsWithin-erase x zs ms (ground arith) h.1,
)

-- A list of different members within another is no longer than that.
pigeonhole : (xs ms : List MemberId) → Distinct xs → IsWithin xs ms → length xs ≤ length ms
pigeonhole [] ms d h = omega arith
pigeonhole (x ∷ xs) ms d h =
    let shorter = pigeonhole xs (erase x ms) d.1 (IsWithin-erase x xs ms d.0 h.1) in
    omega (arith, shorter, length-erase x ms h.0)

-- No member of the first list is in the second.
abbrev Apart : List MemberId → List MemberId → Type 0
Apart [] ys = Unit
Apart (x ∷ xs) ys = (includes x ys ≡ false) × Apart xs ys

includes-append :
    (z : MemberId) (xs ys : List MemberId)
    → includes z xs ≡ false
    → includes z ys ≡ false
    → includes z (xs ++ ys) ≡ false
unfolding includes
includes-append z [] ys h k = k
includes-append z (x ∷ xs) ys h k = ground (arith, includes-append z xs ys)

append-Distinct :
    (xs ys : List MemberId) → Distinct xs → Distinct ys → Apart xs ys → Distinct (xs ++ ys)
append-Distinct [] ys d e a = e
append-Distinct (x ∷ xs) ys d e a =
    (includes-append x xs ys d.0 a.0, append-Distinct xs ys d.1 e a.1)

append-IsWithin :
    (xs ys ms : List MemberId) → IsWithin xs ms → IsWithin ys ms → IsWithin (xs ++ ys) ms
append-IsWithin [] ys ms h k = k
append-IsWithin (x ∷ xs) ys ms h k = (h.0, append-IsWithin xs ys ms h.1 k)

-- A member of both lists.
abbrev pub IsShared : List MemberId → List MemberId → Type 0
IsShared xs ys = (id : MemberId) × (includes id xs ≡ true) × (includes id ys ≡ true)

IsShared-or_Apart : (xs ys : List MemberId) → IsShared xs ys ⊎ Apart xs ys
unfolding includes
IsShared-or_Apart [] ys = inr tt
IsShared-or_Apart (x ∷ xs) ys = elim (Bool-cases (includes x ys)) [
  | inl found ↦ inl (x, ground (arith, id_eq_self x), found)
  | inr absent ↦ elim (IsShared-or_Apart xs ys) [
    | inl (id, h, k) ↦ inl (id, ground arith, k)
    | inr apart ↦ inr (absent, apart)
  ]
]

-- Two sets of members of one configuration, each as large as the quorum of a replica that knows all
-- the other members, share a member.
pub quorums-IsShared :
    (s : Legislator) (members xs ys : List MemberId)
    → length members ≡ length s.replicas + 1
    → Distinct xs
    → Distinct ys
    → IsWithin xs members
    → IsWithin ys members
    → quorum_size s ≤ length xs
    → quorum_size s ≤ length ys
    → IsShared xs ys
unfolding quorum_size
quorums-IsShared s members xs ys all d e h k p q = elim (IsShared-or_Apart xs ys) [
  | inl shared ↦ shared
  | inr apart ↦
      let few =
        pigeonhole (xs ++ ys) members (append-Distinct xs ys d e apart)
          (append-IsWithin xs ys members h k) in
      let clash : ⊥ = omega (arith, few, length-append xs ys, all, p, q) in elim clash [ ]
]
