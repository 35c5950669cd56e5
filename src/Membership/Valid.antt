-- ===== src/Membership/Valid.antt =====
-- src/RSL/src/rsl.cpp: what `MemberSet::Verify` accepts, and the length of a member set.
use rsl.Common.{ℕ, ◌<◌, ◌≡◌, ◌≢◌, refl, subst, Bool-cases, inl, inr, true, false, arith, All, ◌↔◌}
use rsl.Common.{List, [], ◌∷◌, length, ◌==◌}
use rsl.Ballot.{MemberId, id_eq}
use rsl.Ballot.Order.{id_eq-eq, id_eq_self}
use rsl.Message.Encode.{CRuntime}
use rsl.Membership.{MemberInfo, MemberSet, includes_id, is_number, verify_members, verify}

-- No member has the id.
abbrev pub IsAbsent : MemberId → List MemberInfo → Type 0
IsAbsent id ns = All (λ n. id ≢ n.member_id) ns

-- No two members have one id.
abbrev pub HasDistinctIds : List MemberInfo → Type 0
HasDistinctIds [] = Unit
HasDistinctIds (n ∷ ns) = IsAbsent n.member_id ns × HasDistinctIds ns

-- A member has a port, and up to version 3 its id is read as a number to its end.
abbrev pub IsUsable : CRuntime → ℕ → MemberInfo → Type 0
IsUsable c version n = (0 < n.rsl_port) × (version < 4 → (c.strtoui64 n.member_id).1 ≡ [])

includes_id-IsAbsent :
    (id : MemberId) (ns : List MemberInfo) → includes_id id ns ≡ false → IsAbsent id ns
unfolding includes_id
includes_id-IsAbsent id [] h = tt
includes_id-IsAbsent id (n ∷ ns) h =
    let first : id_eq id n.member_id ≡ false = ground arith in
    let rest : includes_id id ns ≡ false = ground arith in
    (
      (λ same.
          let eq : id_eq id n.member_id ≡ true =
            subst (λ t. id_eq id t ≡ true) same (id_eq_self id) in
          ground arith),
      includes_id-IsAbsent id ns rest,
    )

pub IsAbsent-includes_id :
    (id : MemberId) (ns : List MemberInfo) → IsAbsent id ns → includes_id id ns ≡ false
unfolding includes_id
IsAbsent-includes_id id [] h = refl
IsAbsent-includes_id id (n ∷ ns) h = elim (Bool-cases (id_eq id n.member_id)) [
  | inl e ↦ absurd (h.0 (id_eq-eq id n.member_id e))
  | inr e ↦ rw e (IsAbsent-includes_id id ns h.1)
]

length-nil : (xs : List ℕ) → (length xs == 0) ≡ true → xs ≡ []
length-nil [] h = refl
length-nil (x ∷ xs) h = absurd (ground arith)

is_number-nil : (c : CRuntime) (id : MemberId) → is_number c id ≡ true → (c.strtoui64 id).1 ≡ []
unfolding is_number
is_number-nil c id h = length-nil (c.strtoui64 id).1 h

nil-is_number : (c : CRuntime) (id : MemberId) → (c.strtoui64 id).1 ≡ [] → is_number c id ≡ true
unfolding is_number
nil-is_number c id h = rw h refl

verify_members-lem :
    (c : CRuntime) (version : ℕ) (ns : List MemberInfo)
    → (verify_members c version ns ≡ true → HasDistinctIds ns × All (IsUsable c version) ns)
      × (HasDistinctIds ns × All (IsUsable c version) ns → verify_members c version ns ≡ true)
unfolding verify_members
verify_members-lem c version [] = ((λ _. (tt, tt)), (λ _. refl))
verify_members-lem c version (n ∷ ns) =
    let (to, from) = verify_members-lem c version ns in
    (
      (λ h.
          let rest : verify_members c version ns ≡ true = ground arith in
          let absent : includes_id n.member_id ns ≡ false = ground arith in
          (
            (includes_id-IsAbsent n.member_id ns absent, (to rest).0),
            (
              (
                ground arith,
                λ old.
                    let number : is_number c n.member_id ≡ true = ground arith in
                    is_number-nil c n.member_id number,
              ),
              (to rest).1,
            ),
          )),
      (λ h.
          let absent = IsAbsent-includes_id n.member_id ns h.0.0 in
          let number : version < 4 → is_number c n.member_id ≡ true =
            λ old. nil-is_number c n.member_id (h.1.0.1 old) in
          ground (arith, from (h.0.1, h.1.1), absent, number)),
    )

-- `Verify` accepts a member set exactly if it has a member, no two members have one id, every member
-- has a port and, up to version 3, every id is read to its end as a number.
pub verify-HasDistinctIds :
    (c : CRuntime) (version : ℕ) (s : MemberSet)
    → (verify c version s ≡ true)
      ↔ ((0 < length s.members) × HasDistinctIds s.members × All (IsUsable c version) s.members)
unfolding verify
verify-HasDistinctIds c version s =
    let (to, from) = verify_members-lem c version s.members in
    (
      (λ h.
          let rest : verify_members c version s.members ≡ true = ground arith in
          (ground arith, (to rest).0, (to rest).1)),
      (λ h. ground (arith, h.0, from (h.1, h.2))),
    )
