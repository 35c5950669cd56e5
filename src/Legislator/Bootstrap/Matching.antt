-- ===== src/Legislator/Bootstrap/Matching.antt =====
-- src/RSL/src/legislator.cpp: the comparison of two member sets in `StartBootstrap`.
use rsl.Common.{ℕ, ◌≤◌, Bool, true, false, List, [], ◌∷◌, length}
use rsl.Common.{◌≡◌, ◌⊎◌, inl, inr, refl, sym, ◌∙◌, subst, arith, Bool-cases, if◌then◌else◌}
use rsl.Ballot.{MemberId, id_eq}
use rsl.Ballot.Order.{id_eq-eq}
use rsl.Membership.{MemberInfo, MemberSet, includes_id}
use rsl.Membership.Valid.{HasDistinctIds}
use rsl.Legislator.Bootstrap.{Starter, same_place, found_in, all_found, same_members}
use rsl.Legislator.Bootstrap.Ids.{
  Listed, Listed-includes_id, includes_id-Listed, distinct, includes_id-all,
}

module _ (h : Starter) where
  -- What `lstrcmpi` is documented to be: an equivalence of names.
  pub record IsNameEquality : Type 0 where
    pub reflexive : (a : List ℕ) → h.same_host a a ≡ true
    pub symmetric : (a b : List ℕ) → h.same_host a b ≡ true → h.same_host b a ≡ true
    pub transitive :
        (a b c : List ℕ) → h.same_host a b ≡ true → h.same_host b c ≡ true → h.same_host a c ≡ true

  -- The two are one member: one id, address and port, and host names that compare equal.
  pub record IsSame (c n : MemberInfo) : Type 0 where
    pub id : c.member_id ≡ n.member_id
    pub ip : c.ip ≡ n.ip
    pub port : c.rsl_port ≡ n.rsl_port
    pub host : h.same_host c.host_name n.host_name ≡ true

  -- Each member of the first list is one of the second.
  abbrev pub IsWithin : List MemberInfo → List MemberInfo → Type 0
  IsWithin cs ns = (c : MemberInfo) → Listed c cs → (n : MemberInfo) × Listed n ns × IsSame c n

  -- The two sets have as many members, and the same ones.
  pub record Agree (a b : MemberSet) : Type 0 where
    pub count : length a.members ≡ length b.members
    pub forth : IsWithin a.members b.members
    pub back : IsWithin b.members a.members

  same_place-IsSame :
      (c n : MemberInfo)
      → id_eq c.member_id n.member_id ≡ true
      → same_place h c n ≡ true
      → IsSame c n
  unfolding same_place
  same_place-IsSame c n e p = record {
    id = id_eq-eq c.member_id n.member_id e;
    ip = ground arith;
    port = ground arith;
    host = ground arith;
  }

  found_in-lem :
      (c : MemberInfo) (b : Bool) (ns : List MemberInfo)
      → found_in h c b ns ≡ true
      → (b ≡ true) ⊎ ((n : MemberInfo) × Listed n ns × IsSame c n)
  unfolding found_in
  found_in-lem c b [] p = inl p
  found_in-lem c b (n ∷ ns) p =
      elim (found_in-lem c (if id_eq c.member_id n.member_id then same_place h c n else b) ns p) [
        | inl q ↦ elim (Bool-cases (id_eq c.member_id n.member_id)) [
          | inl e ↦
              let place : same_place h c n ≡ true = ground arith in
              inr (n, inl refl, same_place-IsSame c n e place)
          | inr e ↦ inl (ground arith)
        ]
        | inr r ↦ inr (r.0, inr r.1, r.2)
      ]

  all_found-IsWithin : (cs ns : List MemberInfo) → all_found h cs ns ≡ true → IsWithin cs ns
  unfolding all_found
  all_found-IsWithin [] ns p c l = absurd l
  all_found-IsWithin (x ∷ xs) ns p c (inl e) =
      let found : found_in h x false ns ≡ true = ground arith in
      elim (found_in-lem x false ns found) [
        | inl q ↦ absurd (ground arith)
        | inr r ↦ subst (λ t. (n : MemberInfo) × Listed n ns × IsSame t n) (sym e) r
      ]
  all_found-IsWithin (x ∷ xs) ns p c (inr l) =
      let rest : all_found h xs ns ≡ true = ground arith in all_found-IsWithin xs ns rest c l

  IsWithin-trans :
      IsNameEquality → (a b c : List MemberInfo) → IsWithin a b → IsWithin b c → IsWithin a c
  IsWithin-trans names a b c p q n l =
      let (m, k, s) = p n l in
      let (o, j, t) = q m k in
      (
        o,
        j,
        record {
          id = s.id ∙ t.id;
          ip = s.ip ∙ t.ip;
          port = s.port ∙ t.port;
          host = names.transitive n.host_name m.host_name o.host_name s.host t.host;
        },
      )

  -- The id of a listed member of `old` is that of one of `new`.
  IsWithin-includes_id :
      (old new : List MemberInfo)
      → IsWithin old new
      → (id : MemberId) → includes_id id old ≡ true
      → includes_id id new ≡ true
  IsWithin-includes_id old new p id k =
      let (o, listed, same) = includes_id-Listed id old k in
      let (n, there, r) = p o listed in
      subst (λ t. includes_id t new ≡ true) (sym r.id ∙ same) (Listed-includes_id n new there)

  -- As many members with distinct ids are the same ones.
  IsWithin-back :
      IsNameEquality
      → (old new : List MemberInfo) → HasDistinctIds old
      → HasDistinctIds new
      → length new ≤ length old
      → IsWithin old new
      → IsWithin new old
  IsWithin-back names old new d e le p n l =
      let (o, listed, same) = includes_id-Listed n.member_id old (
        includes_id-all old new d le (IsWithin-includes_id old new p) n.member_id
          (Listed-includes_id n new l)) in
      let (m, there, r) = p o listed in
      let it : m ≡ n = distinct m n new e there l (sym r.id ∙ same) in
      let s : IsSame o n = subst (IsSame o) it r in
      (
        o,
        listed,
        record {
          id = sym s.id;
          ip = sym s.ip;
          port = sym s.port;
          host = names.symmetric o.host_name n.host_name s.host;
        },
      )

  module _ (names : IsNameEquality) where
    pub Agree-refl : (a : MemberSet) → Agree a a
    Agree-refl a =
        let self : IsWithin a.members a.members = λ n l. (
          n,
          l,
          record { id = refl; ip = refl; port = refl; host = names.reflexive n.host_name },
        ) in
        record { count = refl; forth = self; back = self }

    pub Agree-trans : (a b c : MemberSet) → Agree a b → Agree b c → Agree a c
    Agree-trans a b c p q = record {
      count = p.count ∙ q.count;
      forth = IsWithin-trans names a.members b.members c.members p.forth q.forth;
      back = IsWithin-trans names c.members b.members a.members q.back p.back;
    }

    -- Sets with distinct ids that the code finds to match are the same.
    pub same_members-Agree :
        (old new : MemberSet)
        → HasDistinctIds old.members
        → HasDistinctIds new.members
        → same_members h old new ≡ true
        → Agree old new
    unfolding same_members
    same_members-Agree old new d e p =
        let all : all_found h old.members new.members ≡ true = ground arith in
        let count : length old.members ≡ length new.members = ground arith in
        let forth = all_found-IsWithin old.members new.members all in
        record {
          count = count;
          forth = forth;
          back = IsWithin-back names old.members new.members d e (omega (arith, count)) forth;
        }
