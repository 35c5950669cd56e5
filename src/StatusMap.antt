-- ===== src/StatusMap.antt =====
-- src/RSL/src/legislator.cpp: `StatusMap`, the last status response of each replica, the oldest
-- first, and the searches through it. `insert` counts like the code, in a UInt32.
pub mod Refines
pub mod Searches
use rsl.Common.{ℕ, ◌+◌, ◌-◌, ◌%◌, ◌^◌, Bool, true, false, ◌&&◌, List, [], ◌∷◌, ◌++◌, ltb, leb}
use rsl.Common.{if◌then◌else◌}
use rsl.Ballot.{MemberId, BallotNumber, id_eq}
use rsl.Message.{is_higher_decree}
use rsl.Message.Bodies.{StatusResponse}

pub record StatusMap : Type 0 where
  pub queue : List StatusResponse
  pub num_responses : ℕ

unfoldable pub empty_map : StatusMap
empty_map = record { queue = []; num_responses = 0 }

-- The queue without the first response of the member, and whether there was one.
unfoldable pub remove : MemberId → List StatusResponse → Bool × List StatusResponse
remove id [] = (false, [])
remove id (s ∷ q) =
    let (found, rest) = remove id q in if id_eq s.member_id id then (true, q) else (found, s ∷ rest)

unfoldable pub insert : StatusResponse → StatusMap → StatusMap
unfolding remove
insert resp m =
    let (found, rest) = remove resp.member_id m.queue in
    record {
      queue = rest ++ (resp ∷ []);
      num_responses =
          ((if found then (m.num_responses + (2 ^ 32 - 1)) % 2 ^ 32 else m.num_responses) + 1)
          % 2 ^ 32;
    }

-- The responses with a higher decree or ballot whose log starts early enough.
unfoldable pub find_higher_logged : ℕ → ℕ → BallotNumber → List StatusResponse → List StatusResponse
find_higher_logged min_decree decree ballot [] = []
find_higher_logged min_decree decree ballot (s ∷ q) =
    let rest = find_higher_logged min_decree decree ballot q in
    if leb s.min_decree_in_log min_decree && is_higher_decree s.decree s.ballot decree ballot
    then s ∷ rest
    else rest

unfoldable pub find_checkpoint : ℕ → List StatusResponse → List StatusResponse
find_checkpoint decree [] = []
find_checkpoint decree (s ∷ q) =
    let rest = find_checkpoint decree q in
    if leb decree s.checkpointed_decree then s ∷ rest else rest

-- `<` of two Int64 numbers that are given by their bits.
abbrev pub signed_ltb : ℕ → ℕ → Bool
signed_ltb a b = ltb ((a + 2 ^ 63) % 2 ^ 64) ((b + 2 ^ 63) % 2 ^ 64)

unfoldable pub lower_ago : ℕ → List StatusResponse → ℕ
lower_ago min [] = min
lower_ago min (s ∷ q) =
    lower_ago (if signed_ltb s.last_received_ago min then s.last_received_ago else min) q

unfoldable pub find_min_received_ago : List StatusResponse → ℕ
unfolding lower_ago
find_min_received_ago q = let min = lower_ago (2 ^ 63 - 1) q in if signed_ltb min 0 then 0 else min
