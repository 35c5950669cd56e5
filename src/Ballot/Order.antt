-- ===== src/Ballot/Order.antt =====
-- The comparisons of ballots are those of one strict total order.
use Prim.Native.Nat.{Ordering}
use rsl.Common.{ℕ, ◌≡◌, refl, subst, true, false, not, List, [], ◌∷◌, arith, Bool-cases, inl, inr}
use rsl.Ballot.{MemberId, strncmp, compare_id, BallotNumber, lt, gt, ge, eq, id_eq}

abbrev swap : Ordering → Ordering
swap Ordering.lt = Ordering.gt
swap Ordering.eq = Ordering.eq
swap Ordering.gt = Ordering.lt

strncmp-swap : (a b : List ℕ) → strncmp b a ≡ swap (strncmp a b)
unfolding strncmp
strncmp-swap [] [] = refl
strncmp-swap [] (y ∷ b) = refl
strncmp-swap (x ∷ a) [] = refl
strncmp-swap (x ∷ a) (y ∷ b) = ground (arith, strncmp-swap a b)

strncmp-eq : (a b : List ℕ) → strncmp a b ≡ Ordering.eq → a ≡ b
unfolding strncmp
strncmp-eq [] [] h = refl
strncmp-eq [] (y ∷ b) h = cc
strncmp-eq (x ∷ a) [] h = cc
strncmp-eq (x ∷ a) (y ∷ b) h = ground (arith, strncmp-eq a b)

strncmp_self : (a : List ℕ) → strncmp a a ≡ Ordering.eq
unfolding strncmp
strncmp_self [] = refl
strncmp_self (x ∷ a) = ground (arith, strncmp_self a)

strncmp_trans :
    (a b c : List ℕ)
    → strncmp a b ≡ Ordering.lt
    → strncmp b c ≡ Ordering.lt
    → strncmp a c ≡ Ordering.lt
unfolding strncmp
strncmp_trans [] [] c h k = cc
strncmp_trans [] (y ∷ b) [] h k = cc
strncmp_trans [] (y ∷ b) (z ∷ c) h k = refl
strncmp_trans (x ∷ a) [] c h k = cc
strncmp_trans (x ∷ a) (y ∷ b) [] h k = cc
strncmp_trans (x ∷ a) (y ∷ b) (z ∷ c) h k = ground (arith, strncmp_trans a b c)

compare_id-swap : (a b : MemberId) → compare_id b a ≡ swap (compare_id a b)
unfolding compare_id
compare_id-swap a b = ground (arith, strncmp-swap a b)

pub compare_id-eq : (a b : MemberId) → compare_id a b ≡ Ordering.eq → a ≡ b
unfolding compare_id
compare_id-eq a b h = ground (arith, strncmp-eq a b)

pub compare_id_self : (a : MemberId) → compare_id a a ≡ Ordering.eq
unfolding compare_id
compare_id_self a = ground (arith, strncmp_self a)

compare_id_trans :
    (a b c : MemberId)
    → compare_id a b ≡ Ordering.lt
    → compare_id b c ≡ Ordering.lt
    → compare_id a c ≡ Ordering.lt
unfolding compare_id
compare_id_trans a b c h k = ground (arith, strncmp_trans a b c)

pub id_eq-eq : (a b : MemberId) → id_eq a b ≡ true → a ≡ b
unfolding id_eq
id_eq-eq a b h = compare_id-eq a b (ground arith)

pub id_eq_self : (a : MemberId) → id_eq a a ≡ true
unfolding id_eq
id_eq_self a = rw (compare_id_self a)

pub id_eq_sym : (x y : MemberId) → id_eq x y ≡ true → id_eq y x ≡ true
id_eq_sym x y h = subst (λ z. id_eq z x ≡ true) (id_eq-eq x y h) (id_eq_self x)

pub id_eq_swap : (x y : MemberId) → id_eq x y ≡ false → id_eq y x ≡ false
id_eq_swap x y h = elim (Bool-cases (id_eq y x)) [
  | inl same ↦ ground (arith, id_eq-eq y x, id_eq_self y)
  | inr other ↦ other
]

pub lt_irrefl : (a : BallotNumber) → lt a a ≡ false
unfolding lt
lt_irrefl a = ground (arith, compare_id_self a.member_id)

pub lt_trans : (a b c : BallotNumber) → lt a b ≡ true → lt b c ≡ true → lt a c ≡ true
unfolding lt
lt_trans a b c h k = ground (arith, compare_id_trans a.member_id b.member_id c.member_id)

-- `>`, `>=` and `==` are what `<` makes them.
pub gt-lt : (a b : BallotNumber) → gt a b ≡ lt b a
unfolding gt lt
gt-lt a b = ground (arith, compare_id-swap a.member_id b.member_id)

pub ge-lt : (a b : BallotNumber) → ge a b ≡ not (lt a b)
unfolding ge lt
ge-lt a b = ground arith

pub eq-eq : (a b : BallotNumber) → eq a b ≡ true → a ≡ b
unfolding eq
eq-eq a b h = ground (arith, compare_id-eq a.member_id b.member_id)

pub eq_self : (a : BallotNumber) → eq a a ≡ true
unfolding eq
eq_self a = ground (arith, compare_id_self a.member_id)

-- Two different ballots are ordered one way or the other.
pub lt_total : (a b : BallotNumber) → lt a b ≡ false → lt b a ≡ false → a ≡ b
unfolding lt
lt_total a b h k =
    ground (arith, compare_id-swap a.member_id b.member_id, compare_id-eq a.member_id b.member_id)
