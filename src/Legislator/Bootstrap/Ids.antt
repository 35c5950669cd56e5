-- ===== src/Legislator/Bootstrap/Ids.antt =====
-- src/RSL/src/rsl.cpp: the ids of a member set, as the comparison of two sets reads them.
use rsl.Common.{suc, ◌≤◌, true, false, List, [], ◌∷◌, length}
use rsl.Common.{◌≡◌, ◌⊎◌, inl, inr, refl, sym, ap, ◌∙◌, subst, arith, Bool-cases, if◌then◌else◌}
use rsl.Ballot.{MemberId, id_eq}
use rsl.Ballot.Order.{id_eq-eq, id_eq_self}
use rsl.Membership.{MemberInfo, includes_id}
use rsl.Membership.Valid.{HasDistinctIds, IsAbsent-includes_id}

abbrev pub Listed : MemberInfo → List MemberInfo → Type 0
Listed n [] = ⊥
Listed n (x ∷ xs) = (n ≡ x) ⊎ Listed n xs

pub Listed-includes_id :
    (n : MemberInfo) (ns : List MemberInfo) → Listed n ns → includes_id n.member_id ns ≡ true
unfolding includes_id
Listed-includes_id n [] l = absurd l
Listed-includes_id n (x ∷ xs) (inl e) = rw (sym e) (ground (arith, id_eq_self n.member_id))
Listed-includes_id n (x ∷ xs) (inr l) = ground (arith, Listed-includes_id n xs l)

-- The member that has the id.
pub includes_id-Listed :
    (id : MemberId) (ns : List MemberInfo)
    → includes_id id ns ≡ true
    → (n : MemberInfo) × Listed n ns × (n.member_id ≡ id)
unfolding includes_id
includes_id-Listed id [] h = ground arith
includes_id-Listed id (x ∷ xs) h = elim (Bool-cases (id_eq id x.member_id)) [
  | inl e ↦ (x, inl refl, sym (id_eq-eq id x.member_id e))
  | inr e ↦
      let rest : includes_id id xs ≡ true = ground arith in
      let (n, l, p) = includes_id-Listed id xs rest in (n, inr l, p)
]

-- With distinct ids, the id tells the member.
pub distinct :
    (n m : MemberInfo) (ns : List MemberInfo)
    → HasDistinctIds ns
    → Listed n ns
    → Listed m ns
    → n.member_id ≡ m.member_id
    → n ≡ m
distinct n m [] d l k e = absurd l
distinct n m (x ∷ xs) d (inl p) (inl q) e = p ∙ sym q
distinct n m (x ∷ xs) d (inl p) (inr q) e =
    let there : includes_id x.member_id xs ≡ true =
      subst (λ t. includes_id t xs ≡ true) (sym e ∙ ap (λ t. t.member_id) p)
        (Listed-includes_id m xs q) in
    ground (arith, IsAbsent-includes_id x.member_id xs d.0)
distinct n m (x ∷ xs) d (inr p) (inl q) e =
    let there : includes_id x.member_id xs ≡ true =
      subst (λ t. includes_id t xs ≡ true) (e ∙ ap (λ t. t.member_id) q)
        (Listed-includes_id n xs p) in
    ground (arith, IsAbsent-includes_id x.member_id xs d.0)
distinct n m (x ∷ xs) d (inr p) (inr q) e = distinct n m xs d.1 p q e

-- Whoever fits into the fewer others fills them: if each of `old` is among the at most as many
-- members `new`, each of `new` is among `old`.
abbrev drop_id : MemberId → List MemberInfo → List MemberInfo
drop_id id [] = []
drop_id id (n ∷ ns) = let rest = drop_id id ns in if id_eq id n.member_id then ns else n ∷ rest

length-drop_id :
    (id : MemberId) (ns : List MemberInfo)
    → includes_id id ns ≡ true
    → suc (length (drop_id id ns)) ≡ length ns
unfolding includes_id
length-drop_id id [] h = ground arith
length-drop_id id (n ∷ ns) h = elim (Bool-cases (id_eq id n.member_id)) [
  | inl e ↦ rw e refl
  | inr e ↦
      let rest : includes_id id ns ≡ true = ground arith in
      rw e (ap suc (length-drop_id id ns rest))
]

-- Another id stays.
includes_id-drop_id :
    (id other : MemberId) (ns : List MemberInfo)
    → id_eq other id ≡ false
    → includes_id other ns ≡ true
    → includes_id other (drop_id id ns) ≡ true
unfolding includes_id
includes_id-drop_id id other [] f h = h
includes_id-drop_id id other (n ∷ ns) f h = elim (Bool-cases (id_eq id n.member_id)) [
  | inl e ↦
      let away : id_eq other n.member_id ≡ false =
        subst (λ t. id_eq other t ≡ false) (id_eq-eq id n.member_id e) f in
      rw e (ground arith)
  | inr e ↦ rw e (elim (Bool-cases (id_eq other n.member_id)) [
    | inl k ↦ ground arith
    | inr k ↦
        let rest : includes_id other ns ≡ true = ground arith in
        rw k (includes_id-drop_id id other ns f rest)
  ])
]

pub includes_id-all :
    (old new : List MemberInfo)
    → HasDistinctIds old
    → length new ≤ length old
    → ((id : MemberId) → includes_id id old ≡ true → includes_id id new ≡ true)
    → (id : MemberId) → includes_id id new ≡ true
    → includes_id id old ≡ true
unfolding includes_id
includes_id-all [] [] d le sub id h = h
includes_id-all [] (n ∷ ns) d le sub id h = absurd (omega arith)
includes_id-all (o ∷ os) new d le sub id h = elim (Bool-cases (id_eq id o.member_id)) [
  | inl e ↦ ground arith
  | inr e ↦
      let first : includes_id o.member_id new ≡ true =
        sub o.member_id (ground (arith, id_eq_self o.member_id)) in
      let rest =
        includes_id-all os (drop_id o.member_id new) d.1
          (omega (arith, length-drop_id o.member_id new first, le))
          (λ other k.
            let apart : id_eq other o.member_id ≡ false =
              elim (Bool-cases (id_eq other o.member_id)) [
                | inl same ↦
                    let there : includes_id o.member_id os ≡ true =
                      subst (λ t. includes_id t os ≡ true) (id_eq-eq other o.member_id same) k in
                    ground (arith, IsAbsent-includes_id o.member_id os d.0)
                | inr f ↦ f
              ] in
            includes_id-drop_id o.member_id other new apart (sub other (ground arith)))
          id (includes_id-drop_id o.member_id id new e h) in
      ground arith
]
