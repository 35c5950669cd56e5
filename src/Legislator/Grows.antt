-- ===== src/Legislator/Grows.antt =====
-- What the steps of the engine never lower.
pub mod Log
pub mod Votes
pub mod Initialize
pub mod Learn
pub mod Status
pub mod Dispatch
pub mod Handlers
pub mod Election
use rsl.Common.{
  ℕ, ◌+◌, ◌*◌, ◌^◌, ◌≤◌, ◌<◌, ◌≡◌, refl, ◌∙◌, arith, Outcome, Holds, Holds-map, Holds-bind, ◌>>=◌,
}
use rsl.Ballot.{MemberId, BallotNumber}
use rsl.Ballot.Le.{Le, Le-refl, Le-trans, Upto, Upto-refl, Upto-trans}
use rsl.Legislator.{Legislator, paxos_configuration}

-- The part of the state that the promises of the protocol are about.
pub record View : Type 0 where
  pub member_id : MemberId
  pub max_ballot : BallotNumber
  pub max_seen_ballot : BallotNumber
  pub decree : ℕ
  pub ballot : BallotNumber
  pub configuration : ℕ
  pub highest_defunct : ℕ

abbrev pub view : Legislator → View
view s = record {
  member_id = s.member_id;
  max_ballot = s.max_ballot;
  max_seen_ballot = s.max_seen_ballot;
  decree = s.max_accepted.decree;
  ballot = s.max_accepted.ballot;
  configuration = paxos_configuration s;
  highest_defunct = s.highest_defunct;
}

-- The promised ballot, the last accepted vote, the configuration and the defunct configurations
-- only go up; the member keeps its id.
pub record Grows (v w : View) : Type 0 where
  pub member : w.member_id ≡ v.member_id
  pub promised : Le v.max_ballot w.max_ballot
  pub accepted : Upto v.decree v.ballot w.decree w.ballot
  pub configuration : v.configuration ≤ w.configuration
  pub defunct : v.highest_defunct ≤ w.highest_defunct

pub Grows-refl : (v : View) → Grows v v
Grows-refl v = record {
  member = refl;
  promised = Le-refl v.max_ballot;
  accepted = Upto-refl v.decree v.ballot;
  configuration = omega arith;
  defunct = omega arith;
}

pub Grows-trans : {u v w : View} → Grows u v → Grows v w → Grows u w
Grows-trans {u} {v} {w} g h = record {
  member = h.member ∙ g.member;
  promised = Le-trans u.max_ballot v.max_ballot w.max_ballot g.promised h.promised;
  accepted = Upto-trans u.decree v.decree w.decree u.ballot v.ballot w.ballot g.accepted h.accepted;
  configuration = omega (arith, g.configuration, h.configuration);
  defunct = omega (arith, g.defunct, h.defunct);
}

-- The counters can be raised `k` times more before they wrap, the replica is bootstrapped, and its last
-- accepted vote has a ballot of at most the promised one.
pub record Room (k : ℕ) (v : View) : Type 0 where
  pub ballot_id : v.max_ballot.ballot_id + k < 2 ^ 32
  pub seen_id : v.max_seen_ballot.ballot_id + k < 2 ^ 32
  pub decree : v.decree + k < 2 ^ 64
  pub number : v.configuration + k < 2 ^ 32
  pub bootstrapped : 1 ≤ v.configuration
  pub below : Le v.ballot v.max_ballot

pub Room-less : (j k : ℕ) (v : View) → j ≤ k → Room k v → Room j v
Room-less j k v h r = record {
  ballot_id = omega (arith, r.ballot_id);
  seen_id = omega (arith, r.seen_id);
  decree = omega (arith, r.decree);
  number = omega (arith, r.number);
  bootstrapped = r.bootstrapped;
  below = r.below;
}

-- The part of `Room` that is about the counters alone, and the part that every step keeps.
pub record Slack (k : ℕ) (v : View) : Type 0 where
  pub ballot_id : v.max_ballot.ballot_id + k < 2 ^ 32
  pub seen_id : v.max_seen_ballot.ballot_id + k < 2 ^ 32
  pub decree : v.decree + k < 2 ^ 64
  pub number : v.configuration + k < 2 ^ 32

-- The replica is bootstrapped, and its last accepted vote has a ballot of at most the promised one.
pub record Sound (v : View) : Type 0 where
  pub bootstrapped : 1 ≤ v.configuration
  pub below : Le v.ballot v.max_ballot

pub Slack-Room : (k : ℕ) (v : View) → Slack k v → Sound v → Room k v
Slack-Room k v r h = record {
  ballot_id = r.ballot_id;
  seen_id = r.seen_id;
  decree = r.decree;
  number = r.number;
  bootstrapped = h.bootstrapped;
  below = h.below;
}

pub Room-Sound : (k : ℕ) (v : View) → Room k v → Sound v
Room-Sound k v r = record { bootstrapped = r.bootstrapped; below = r.below }

-- From `s` the counters grew and have room for `k` more.
abbrev pub Step : ℕ → Legislator → Legislator → Type 0
Step k s t = Grows (view s) (view t) × Room k (view t)

-- A routine that raises each counter at most `c` times.
abbrev pub Costs : ℕ → (Legislator → Outcome Legislator) → Type 0
Costs c f = (k : ℕ) (s : Legislator) → Room (k + c) (view s) → Holds (Step k s) (f s)

-- One routine after another.
pub Step-bind :
    (j k : ℕ) (s : Legislator) (m : Outcome Legislator) (f : Legislator → Outcome Legislator)
    → Holds (Step j s) m
    → ((t : Legislator) → Step j s t → Holds (Step k t) (f t))
    → Holds (Step k s) (m >>= f)
Step-bind j k s m f h next = Holds-bind (Step j s) (Step k s) m f h (λ t st.
    Holds-map (Step k t) (Step k s) (f t) (next t st) (λ u su. (Grows-trans st.0 su.0, su.1)))
