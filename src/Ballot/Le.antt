-- ===== src/Ballot/Le.antt =====
-- The order of ballots, and of pairs of a decree and a ballot, as relations.
use rsl.Common.{ℕ, ◌<◌, ◌≤◌, ◌≡◌, refl, ◌⊎◌, inl, inr, true, false, arith}
use rsl.Ballot.{BallotNumber, lt, gt, ge}
use rsl.Ballot.Order.{lt_irrefl, lt_trans, lt_total, gt-lt, ge-lt}

-- `a` is at most `b`.
abbrev pub Le : BallotNumber → BallotNumber → Type 0
Le a b = lt b a ≡ false

pub Le-refl : (a : BallotNumber) → Le a a
Le-refl a = lt_irrefl a

pub Le-trans : (a b c : BallotNumber) → Le a b → Le b c → Le a c
Le-trans a b c h k =
    ground (arith, lt_total b a, lt_total c b, lt_trans c a b, lt_trans b c a, lt_irrefl a)

pub lt-Le : (a b : BallotNumber) → lt a b ≡ true → Le a b
lt-Le a b h = ground (arith, lt_trans a b a, lt_irrefl a)

pub ge-Le : (a b : BallotNumber) → ge a b ≡ true → Le b a
ge-Le a b h = ground (arith, ge-lt a b)

pub gt-Le : (a b : BallotNumber) → gt a b ≡ true → Le b a
gt-Le a b h = ground (arith, gt-lt a b, lt-Le b a)

-- A higher id makes a higher ballot.
pub Le_of_id : (a b : BallotNumber) → a.ballot_id < b.ballot_id → Le a b
unfolding lt
Le_of_id a b h = ground arith

-- The place of a vote: decrees first, then ballots.
abbrev pub Upto : ℕ → BallotNumber → ℕ → BallotNumber → Type 0
Upto d a e b = (d < e) ⊎ ((d ≡ e) × Le a b)

pub Upto-refl : (d : ℕ) (a : BallotNumber) → Upto d a d a
Upto-refl d a = inr (refl, Le-refl a)

pub Upto-trans : (d e f : ℕ) (a b c : BallotNumber) → Upto d a e b → Upto e b f c → Upto d a f c
Upto-trans d e f a b c (inl h) k = ground arith
Upto-trans d e f a b c (inr h) (inl k) = inl (omega arith)
Upto-trans d e f a b c (inr h) (inr k) = inr (omega arith, Le-trans a b c h.1 k.1)

pub Le-id : (a b : BallotNumber) → Le a b → a.ballot_id ≤ b.ballot_id
unfolding lt
Le-id a b h = ground arith
