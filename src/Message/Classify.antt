-- ===== src/Message/Classify.antt =====
-- How the four decree tests of message.cpp divide the messages that a replica can receive.
use rsl.Common.{ℕ, ◌+◌, ◌^◌, ◌<◌, ◌≡◌, true, false, arith}
use rsl.Ballot.{BallotNumber}
use rsl.Ballot.Order.{gt-lt, ge-lt, eq-eq, lt_irrefl}
use rsl.Message.{is_lower_decree, is_higher_decree, is_next_decree}

module _ (d : ℕ) (b : BallotNumber) (cur_decree : ℕ) (cur_ballot : BallotNumber) where
  -- A message that is neither lower nor next has a decree beyond the replica's, with a ballot at
  -- least as high: the replica has missed votes.
  pub missed_votes :
      is_lower_decree d b cur_decree cur_ballot ≡ false
      → is_next_decree d b cur_decree cur_ballot ≡ false
      → (is_higher_decree d b cur_decree cur_ballot ≡ true) × (cur_decree < d)
  unfolding is_lower_decree is_next_decree is_higher_decree
  missed_votes h k = ground (arith, ge-lt b cur_ballot, gt-lt b cur_ballot)

  -- A message for the next decree is never for a lower one, if the replica's decree is not the last
  -- UInt64.
  pub next-not_lower :
      cur_decree + 1 < 2 ^ 64
      → is_next_decree d b cur_decree cur_ballot ≡ true
      → is_lower_decree d b cur_decree cur_ballot ≡ false
  unfolding is_lower_decree is_next_decree
  next-not_lower h k = ground (arith, ge-lt b cur_ballot, lt_irrefl b, eq-eq b cur_ballot)
