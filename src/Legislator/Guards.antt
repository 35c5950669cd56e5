-- ===== src/Legislator/Guards.antt =====
-- src/RSL/src/legislator.cpp: what the checks of the handlers guarantee.
use rsl.Common.{◌+◌, ◌*◌, ◌/◌, ◌%◌, ◌^◌, ◌<◌, ◌≤◌, ◌≡◌, refl, arith, ◌||◌, List, [], ◌∷◌, ◌-◌}
use rsl.Common.{length, Bool, Bool-cases, inl, inr, leb, true, false}
use rsl.Common.{Outcome, done, assert_failed}
use rsl.Ballot.{MemberId, BallotNumber, id_eq, lt, eq}
use rsl.Ballot.Le.{Le, lt-Le}
use rsl.Ballot.Order.{lt_trans, id_eq_swap}
use rsl.Message.{Message}
use rsl.Vote.{Vote}
use rsl.Legislator.{Legislator, Env, quorum_size, is_inactive, is_initializing, paxos_configuration}
use rsl.Legislator.Election
use rsl.Legislator.Handlers
use rsl.Legislator.Votes

-- A message is let through only if it is for the configuration in force, which is above the defunct
-- ones, the replica is not inactive, and the sender is another member than this one.
pub verify_message-Current :
    (m : Message) (s : Legislator)
    → (Handlers.verify_message m s).0 ≡ true
    → (m.configuration_number ≡ paxos_configuration s)
      × (s.highest_defunct < paxos_configuration s)
      × (is_inactive s ≡ false)
      × (id_eq m.member_id s.member_id ≡ false)
      × (Handlers.is_some (Handlers.get_replica m.member_id m.remote_ip s.replicas) ≡ true)
unfolding Handlers.verify_message
verify_message-Current m s h = ground arith

-- A higher id makes a higher ballot.
lt_of_id : (a b : BallotNumber) → a.ballot_id < b.ballot_id → lt a b ≡ true
unfolding lt
lt_of_id a b h = ground arith

raise_above-above :
    (seen b x : BallotNumber)
    → seen.ballot_id + 1 < 2 ^ 32
    → lt x b ≡ true
    → ((Election.raise_above seen b).member_id ≡ b.member_id)
      × (lt x (Election.raise_above seen b) ≡ true)
      × Le seen (Election.raise_above seen b)
unfolding Election.raise_above
raise_above-above seen b x r h = elim (Bool-cases (lt b seen)) [
  | inl below ↦
      let up : BallotNumber = record b { ballot_id = (seen.ballot_id + 1) % 2 ^ 32 } in
      let higher : lt seen up ≡ true = lt_of_id seen up (omega arith) in
      rw below (refl, lt_trans x seen up (lt_trans x b seen h below) higher, lt-Le seen up higher)
  | inr not_below ↦ rw not_below (refl, h, not_below)
]

-- At the end of initialization, where no ballot id wraps, the ballot to prepare has this member's id,
-- is above the promised one and not below the highest ballot that was seen.
pub prepare_ballot-above :
    (e : Env) (again : Legislator → Outcome Legislator) (s : Legislator)
    → is_initializing s ≡ true
    → s.max_ballot.ballot_id + 1 < 2 ^ 32
    → s.max_seen_ballot.ballot_id + 1 < 2 ^ 32
    → (b : BallotNumber) × (Election.prepare_ballot e again s ≡ done b)
      × (b.member_id ≡ s.member_id)
      × (lt s.max_ballot b ≡ true)
      × Le s.max_seen_ballot b
unfolding Election.prepare_ballot
prepare_ballot-above e again s h r₁ r₂ =
    let b : BallotNumber = record {
      ballot_id = (s.max_ballot.ballot_id + 1) % 2 ^ 32;
      member_id = s.member_id;
    } in
    let up =
      raise_above-above s.max_seen_ballot b s.max_ballot r₂
        (lt_of_id s.max_ballot b (omega arith)) in
    (Election.raise_above s.max_seen_ballot b, rw h refl, up.0, up.1, up.2)

-- While the primary is being relinquished, a vote that was received makes the destructor of the
-- local queue fail, at a replica that is not initializing.
pub play_votes-relinquish :
    (e : Env) (again : Legislator → Outcome Legislator) (s : Legislator) (v : Vote) (vs : List Vote)
    → s.relinquish_primary ≡ true
    → is_initializing s ≡ false
    → s.vote_cache ≡ v ∷ vs
    → Votes.play_votes e again s ≡ assert_failed
unfolding Votes.play_votes Votes.handle_new_votes Votes.no_votes
play_votes-relinquish e again s v vs h i c = rw (i, h, c) refl

-- No member is in the list twice.
abbrev pub Distinct : List MemberId → Type 0
Distinct [] = Unit
Distinct (x ∷ xs) = (Handlers.includes x xs ≡ false) × Distinct xs

or_first : (a b : Bool) → a || b ≡ false → a ≡ false
or_first false b h = refl
or_first true b h = h

or_second : (a b : Bool) → a || b ≡ false → b ≡ false
or_second false b h = h
or_second true false h = refl
or_second true true h = h

includes-respond :
    (x id : MemberId) (xs : List MemberId)
    → Handlers.includes x xs ≡ false
    → id_eq id x ≡ false
    → Handlers.includes x (Handlers.respond id xs) ≡ false
unfolding Handlers.respond Handlers.includes
includes-respond x id [] h n = rw (id_eq_swap id x n) refl
includes-respond x id (y ∷ ys) h n = elim (Bool-cases (id_eq id y)) [
  | inl same ↦ rw same h
  | inr other ↦ rw other (
      rw
        (
          or_first (id_eq x y) (Handlers.includes x ys) h,
          includes-respond x id ys (or_second (id_eq x y) (Handlers.includes x ys) h) n,
        )
        refl)
]

respond-Distinct :
    (id : MemberId) (xs : List MemberId) → Distinct xs → Distinct (Handlers.respond id xs)
unfolding Handlers.respond Handlers.includes
respond-Distinct id [] d = (refl, tt)
respond-Distinct id (x ∷ xs) d = elim (Bool-cases (id_eq id x)) [
  | inl same ↦ rw same d
  | inr other ↦ rw other (includes-respond x id xs d.0 other, respond-Distinct id xs d.1)
]

-- Answers that with this replica's own vote are no more than half of the members pass no vote: the
-- sender is recorded, once, and nothing else happens.
pub count_response-minority :
    (e : Env) (again : Legislator → Outcome Legislator) (id : MemberId) (s : Legislator)
    → Distinct s.response_map
    → eq s.max_ballot s.max_accepted.ballot ≡ true
    → 2 * (length (Handlers.respond id s.response_map) + 1) ≤ length s.replicas + 1
    → (Handlers.count_response e again id s
        ≡ done (record s { response_map = Handlers.respond id s.response_map }))
      × Distinct (Handlers.respond id s.response_map)
unfolding Handlers.count_response quorum_size
count_response-minority e again id s d same few =
    let short : leb ((length s.replicas + 1) / 2 + 1 - 1)
          (length (Handlers.respond id s.response_map))
        ≡ false =
      ground arith in
    (rw (same, short) refl, respond-Distinct id s.response_map d)
