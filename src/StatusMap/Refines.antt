-- ===== src/StatusMap/Refines.antt =====
-- src/RSL/src/legislator.cpp: a `StatusMap` is a finite map from member ids to responses.
use rsl.Common.{◌+◌, ◌^◌, ◌<◌, ◌≡◌, refl, ◌∙◌, sym, subst, ap, arith, true, false}
use rsl.Common.{List, [], ◌∷◌, ◌++◌, length, length-append, Option, none, some, if◌then◌else◌}
use rsl.Common.{Bool-cases, inl, inr}
use rsl.Ballot.{MemberId, id_eq}
use rsl.Ballot.Order.{id_eq-eq, id_eq_swap}
use rsl.Message.Bodies.{StatusResponse}
use rsl.StatusMap.{StatusMap, remove, insert, empty_map}

-- The abstract view: what a member answered last, if it answered.
unfoldable pub lookup : MemberId → List StatusResponse → Option StatusResponse
lookup id [] = none
lookup id (s ∷ q) = let rest = lookup id q in if id_eq s.member_id id then some s else rest

abbrev pub override :
    StatusResponse → (MemberId → Option StatusResponse) → MemberId → Option StatusResponse
override r f id = if id_eq r.member_id id then some r else f id

-- No member has two responses.
abbrev pub IsUnique : List StatusResponse → Type 0
IsUnique [] = Unit
IsUnique (s ∷ q) = (lookup s.member_id q ≡ none) × IsUnique q

-- The map `m` holds what `f` says, once, and counts it.
pub record Refines (m : StatusMap) (f : MemberId → Option StatusResponse) : Type 0 where
  pub unique : IsUnique m.queue
  pub counted : m.num_responses ≡ length m.queue
  pub bounded : length m.queue + 1 < 2 ^ 32
  pub holds : (id : MemberId) → lookup id m.queue ≡ f id

lookup-none :
    (x : MemberId) (s : StatusResponse) (q : List StatusResponse)
    → lookup x (s ∷ q) ≡ none
    → (id_eq s.member_id x ≡ false) × (lookup x q ≡ none)
unfolding lookup
lookup-none x s q h = ground arith

lookup-remove_other :
    (x id : MemberId) (q : List StatusResponse)
    → id_eq id x ≡ false
    → lookup x (remove id q).1 ≡ lookup x q
unfolding lookup remove
lookup-remove_other x id [] h = refl
lookup-remove_other x id (s ∷ q) h = elim (Bool-cases (id_eq s.member_id id)) [
  | inl same ↦
      let other : id_eq s.member_id x ≡ false =
        subst (λ z. id_eq z x ≡ false) (sym (id_eq-eq s.member_id id same)) h in
      rw (same, other) refl
  | inr other ↦
      rw other
        (ap (λ rest. if id_eq s.member_id x then some s else rest) (lookup-remove_other x id q h))
]

lookup-remove_self :
    (id : MemberId) (q : List StatusResponse) → IsUnique q → lookup id (remove id q).1 ≡ none
unfolding lookup remove
lookup-remove_self id [] u = refl
lookup-remove_self id (s ∷ q) u = elim (Bool-cases (id_eq s.member_id id)) [
  | inl same ↦ rw same (subst (λ z. lookup z q ≡ none) (id_eq-eq s.member_id id same) u.0)
  | inr other ↦ rw (other, other) (lookup-remove_self id q u.1)
]

remove-IsUnique : (id : MemberId) (q : List StatusResponse) → IsUnique q → IsUnique (remove id q).1
unfolding remove
remove-IsUnique id [] u = tt
remove-IsUnique id (s ∷ q) u = elim (Bool-cases (id_eq s.member_id id)) [
  | inl same ↦ rw same u.1
  | inr other ↦ rw other (
    lookup-remove_other s.member_id id q (id_eq_swap s.member_id id other) ∙ u.0,
    remove-IsUnique id q u.1,
  )
]

remove-length :
    (id : MemberId) (q : List StatusResponse)
    → (if (remove id q).0 then length (remove id q).1 + 1 else length (remove id q).1) ≡ length q
unfolding remove
remove-length id [] = refl
remove-length id (s ∷ q) = ground (arith, remove-length id q)

lookup-append_self :
    (x : MemberId) (q : List StatusResponse) (r : StatusResponse)
    → lookup x q ≡ none
    → id_eq r.member_id x ≡ true
    → lookup x (q ++ (r ∷ [])) ≡ some r
unfolding lookup
lookup-append_self x [] r h same = rw same refl
lookup-append_self x (s ∷ q) r h same =
    let (other, below) = lookup-none x s q h in rw other (lookup-append_self x q r below same)

lookup-append_other :
    (x : MemberId) (q : List StatusResponse) (r : StatusResponse)
    → id_eq r.member_id x ≡ false
    → lookup x (q ++ (r ∷ [])) ≡ lookup x q
unfolding lookup
lookup-append_other x [] r h = rw h refl
lookup-append_other x (s ∷ q) r h =
    ap (λ rest. if id_eq s.member_id x then some s else rest) (lookup-append_other x q r h)

append-IsUnique :
    (q : List StatusResponse) (r : StatusResponse)
    → IsUnique q
    → lookup r.member_id q ≡ none
    → IsUnique (q ++ (r ∷ []))
unfolding lookup
append-IsUnique [] r u h = (refl, tt)
append-IsUnique (s ∷ q) r u h = (
  lookup-append_other s.member_id q r
        (id_eq_swap s.member_id r.member_id (lookup-none r.member_id s q h).0)
      ∙ u.0,
  append-IsUnique q r u.1 (lookup-none r.member_id s q h).1,
)

pub empty_map-Refines : Refines empty_map (λ id. none)
unfolding empty_map lookup
empty_map-Refines = record {
  unique = tt;
  counted = refl;
  bounded = omega arith;
  holds = λ id. refl;
}

-- `Insert` is the update of the map at the sender's id, whether the sender had answered before or
-- not, and the counter stays the number of members that have answered, while a UInt32 holds it.
pub insert-Refines :
    (r : StatusResponse) (m : StatusMap) (f : MemberId → Option StatusResponse)
    → Refines m f
    → length m.queue + 2 < 2 ^ 32
    → Refines (insert r m) (override r f)
unfolding insert
insert-Refines r m f h few =
    let id = r.member_id in
    let rest = (remove id m.queue).1 in
    let gone : lookup id rest ≡ none = lookup-remove_self id m.queue h.unique in
    let count : length (rest ++ (r ∷ [])) ≡ length rest + 1 = length-append rest (r ∷ []) in
    record {
      unique = append-IsUnique rest r (remove-IsUnique id m.queue h.unique) gone;
      counted = ground (arith, count, h.counted, remove-length id m.queue);
      bounded = ground (arith, count, remove-length id m.queue);
      holds = λ x. elim (Bool-cases (id_eq id x)) [
        | inl same ↦ rw same (
            lookup-append_self x rest r
              (subst (λ z. lookup z rest ≡ none) (id_eq-eq id x same) gone) same)
        | inr other ↦ rw other (
            lookup-append_other x rest r other ∙ lookup-remove_other x id m.queue other ∙ h.holds x)
      ];
    }
