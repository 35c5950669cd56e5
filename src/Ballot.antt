-- ===== src/Ballot.antt =====
-- src/RSL/src/message.cpp: `MemberId` and `BallotNumber`, and their order.
-- A member id is the characters of `m_value` before its terminating NUL; `m_len` is their number.
-- `strncmp` is the C library's: the first difference decides.
pub mod Order
pub mod Le
pub mod Places
use Prim.Native.Nat.{compare, Ordering}
use rsl.Common.{ℕ, Bool, true, false, ◌||◌, not, List, [], ◌∷◌, length, ◌==◌, ltb, if◌then◌else◌}

-- 64 characters with the NUL: the ids that fit `m_value`.
abbrev pub member_id_size : ℕ
member_id_size = 64

abbrev pub MemberId : Type 0
MemberId = List ℕ

-- The sign of `strncmp` on strings of one length.
unfoldable pub strncmp : List ℕ → List ℕ → Ordering
strncmp [] [] = Ordering.eq
strncmp [] (y ∷ ys) = Ordering.lt
strncmp (x ∷ xs) [] = Ordering.gt
strncmp (x ∷ xs) (y ∷ ys) =
    let rest = strncmp xs ys in
    elim (compare x y) [
      | Ordering.lt ↦ Ordering.lt
      | Ordering.eq ↦ rest
      | Ordering.gt ↦ Ordering.gt
    ]

-- The sign of `MemberId::Compare`: lengths first, then the characters.
unfoldable pub compare_id : MemberId → MemberId → Ordering
unfolding strncmp
compare_id a b = elim (compare (length a) (length b)) [
  | Ordering.lt ↦ Ordering.lt
  | Ordering.eq ↦ strncmp a b
  | Ordering.gt ↦ Ordering.gt
]

abbrev pub is_lt : Ordering → Bool
is_lt Ordering.lt = true
is_lt Ordering.eq = false
is_lt Ordering.gt = false

abbrev pub is_eq : Ordering → Bool
is_eq Ordering.lt = false
is_eq Ordering.eq = true
is_eq Ordering.gt = false

abbrev pub is_gt : Ordering → Bool
is_gt Ordering.lt = false
is_gt Ordering.eq = false
is_gt Ordering.gt = true

pub record BallotNumber : Type 0 where
  pub ballot_id : ℕ
  pub member_id : MemberId

-- `BallotNumber()`.
abbrev pub no_ballot : BallotNumber
no_ballot = record { ballot_id = 0; member_id = [] }

-- `operator ==` of member ids.
unfoldable pub id_eq : MemberId → MemberId → Bool
unfolding compare_id
id_eq a b = is_eq (compare_id a b)

-- `operator <`, `>`, `>=`, `==`.
unfoldable pub lt : BallotNumber → BallotNumber → Bool
unfolding compare_id
lt a b =
    if a.ballot_id == b.ballot_id
    then is_lt (compare_id a.member_id b.member_id)
    else ltb a.ballot_id b.ballot_id

unfoldable pub gt : BallotNumber → BallotNumber → Bool
unfolding compare_id
gt a b =
    if a.ballot_id == b.ballot_id
    then is_gt (compare_id a.member_id b.member_id)
    else ltb b.ballot_id a.ballot_id

unfoldable pub ge : BallotNumber → BallotNumber → Bool
unfolding compare_id
ge a b =
    if a.ballot_id == b.ballot_id
    then not (is_lt (compare_id a.member_id b.member_id))
    else not (ltb a.ballot_id b.ballot_id)

unfoldable pub eq : BallotNumber → BallotNumber → Bool
unfolding compare_id
eq a b = if a.ballot_id == b.ballot_id then is_eq (compare_id a.member_id b.member_id) else false
