-- ===== src/Ballot/Places.antt =====
-- src/RSL/src/message.cpp: the tests of a vote's decree and ballot against the place of another.
use rsl.Common.{ℕ, ◌+◌, ◌^◌, ◌≤◌, ◌<◌, ◌≡◌, sym, true, arith}
use rsl.Ballot.{BallotNumber}
use rsl.Ballot.Le.{Upto, ge-Le}
use rsl.Ballot.Order.{eq-eq}
use rsl.Message.{is_next_decree, is_same_decree}

-- The same place.
pub is_same_decree-same :
    (d e : ℕ) (a b : BallotNumber) → is_same_decree d a e b ≡ true → (e ≡ d) × (b ≡ a)
unfolding is_same_decree
is_same_decree-same d e a b h = (ground arith, sym (eq-eq a b (ground arith)))

-- The next place is at most one decree higher.
pub is_next_decree-Upto :
    (d e : ℕ) (b a : BallotNumber)
    → e + 1 < 2 ^ 64
    → is_next_decree d b e a ≡ true
    → (d ≤ e + 1) × Upto e a d b
unfolding is_next_decree
is_next_decree-Upto d e b a r h = ground (arith, ge-Le b a)
