-- ===== src/Legislator/Election.antt =====
-- src/RSL/src/legislator.cpp: preparing, becoming primary or secondary, proposing a vote, and
-- changing the configuration. `again` stands for `StartInitializing`.
use rsl.Common.{ℕ, ◌+◌, ◌*◌, ◌%◌, ◌^◌, Bool, true, false, not, ◌&&◌, ◌||◌, List, [], ◌∷◌}
use rsl.Common.{map, Option, none, some, ltb, ◌==◌, if◌then◌else◌}
use rsl.Common.{Outcome, ◌>>=◌, ◌>>◌, done, log_assert, assert_failed}
use rsl.Ballot.{MemberId, BallotNumber, no_ballot, id_eq, lt, gt, eq}
use rsl.Message.{Message, MsgId, msg_code, init_message, base_size, next}
use rsl.Message.Bodies.{PrepareMsg}
use rsl.Vote.{Vote, Node, new_vote, can_init, copy_vote}
use rsl.LogFile.{decision_record}
use rsl.StatusMap.{empty_map}
use rsl.Legislator.{Legislator, Env, paxos_inactive, stable_primary, stable_secondary}
use rsl.Legislator.{preparing, Replica, ConfigurationInfo, plain, prepare, vote, never}
use rsl.Legislator.{paxos_configuration, quorum_size, is_inactive, is_preparing, is_initializing}
use rsl.Legislator.Send.{send_request_to_all, own_message}
use rsl.Legislator.Log.{
  write_back, add_message_to_log, add_to_execution_queue, log_prepare, log_vote,
}

unfoldable pub start_being_stable_secondary : Legislator → Legislator
start_being_stable_secondary s = record s {
  force_reelection = false;
  state = stable_secondary;
  response_map = [];
  action_timeout = never;
}

unfoldable pub switch_to_paxos_inactive_state : Legislator → Legislator
unfolding is_inactive
switch_to_paxos_inactive_state s = if is_inactive s then s else record s {
  state = paxos_inactive;
  status_map = empty_map;
  response_map = [];
  next_election_time = never;
  action_timeout = never;
}

unfoldable pub includes_member : MemberId → List Node → Bool
includes_member id [] = false
includes_member id (n ∷ ns) = id_eq id n.member_id || includes_member id ns

-- `Replica(node)`.
unfoldable pub new_replica : Node → Replica
new_replica n = record {
  node = n;
  num_outstanding = 0;
  status = 1;
  failed_at = 0;
  last_request_voted_at = 0;
  last_request_voted_decree = 0;
  last_vote_payload = 0;
  connected = false;
  consecutive_failures = 0;
  last_request_sent_at = 0;
}

-- The members but this one.
unfoldable pub other_members : MemberId → List Node → List Replica
unfolding new_replica
other_members id [] = []
other_members id (n ∷ ns) =
    let rest = other_members id ns in if id_eq id n.member_id then rest else new_replica n ∷ rest

-- `ResolveNode` of a new replica. That it failed, and has to be tried again, is left out.
unfoldable pub resolved : Env → Replica → Replica
resolved e r = record r { node = e.resolve r.node }

-- The state with the configuration in force, before the replica initializes or goes inactive. No
-- vote of the new configuration has been accepted: the vote that stands for that has its first
-- decree and no ballot.
unfoldable pub install_configuration : Env → ConfigurationInfo → Legislator → Legislator
unfolding new_vote other_members resolved
install_configuration e c s = record s {
  configuration = c;
  max_seen_ballot = no_ballot;
  max_ballot = record { ballot_id = (s.max_ballot.ballot_id + 1) % 2 ^ 32; member_id = [] };
  max_accepted = new_vote s.version s.member_id c.initial_decree 0 no_ballot s.primary_cookie;
  last_time_join_messages_sent = 0;
  replicas = map (resolved e) (other_members s.member_id c.members);
  vote_cache = [];
  recv_msg_q = [];
}

-- The vote as `SendNextVote` fills it in.
unfoldable pub address_vote : ℕ → ℕ → Vote → Legislator → Vote
address_vote now decree v s = record v {
  header = record (v.header) {
    decree = decree;
    ballot = s.max_ballot;
    member_id = s.member_id;
    configuration_number = paxos_configuration s;
  };
  received_at = now;
}

-- The decree that the next vote is for: the one behind the last accepted vote if that has this
-- primary's ballot, and else the same decree again.
unfoldable pub next_decree : Legislator → Outcome ℕ
next_decree s =
    if eq s.max_ballot s.max_accepted.ballot
    then done (next s.max_accepted.decree)
    else (do log_assert (gt s.max_ballot s.max_accepted.ballot); done s.max_accepted.decree)

unfoldable pub is_none : Option Vote → Bool
is_none none = true
is_none (some v) = false

-- A ballot below one that was seen gets an id above it.
unfoldable pub raise_above : BallotNumber → BallotNumber → BallotNumber
raise_above seen b = if lt b seen then record b { ballot_id = (seen.ballot_id + 1) % 2 ^ 32 } else b

module _ (e : Env) (again : Legislator → Outcome Legislator) where
  unfoldable pub change_paxos_configuration : ConfigurationInfo → Legislator → Outcome Legislator
  unfolding install_configuration includes_member switch_to_paxos_inactive_state
  change_paxos_configuration c s =
      if includes_member s.member_id c.members
      then again (install_configuration e c s)
      else done (switch_to_paxos_inactive_state (install_configuration e c s))

  -- A decision for another vote than the last accepted one is ignored.
  unfoldable pub log_reconfiguration_decision : Message → Legislator → Outcome Legislator
  unfolding change_paxos_configuration write_back add_to_execution_queue add_message_to_log
  log_reconfiguration_decision d s =
      if not (d.decree == s.max_accepted.decree) || not (eq d.ballot s.max_accepted.ballot)
      then done s
      else (do
        log_assert (d.configuration_number == paxos_configuration s)
        log_assert s.max_accepted.is_reconfiguration
        s₁ ← write_back (decision_record d) s
        s₂ ← add_to_execution_queue e s₁.max_accepted s₁
        s₃ ← add_message_to_log (base_size d.version) s₂
        change_paxos_configuration
            (record {
              configuration_number = (paxos_configuration s + 1) % 2 ^ 32;
              initial_decree = next s.max_accepted.decree;
              members = s.max_accepted.members_in_new_configuration;
            })
            s₃)

  unfoldable pub send_and_log_reconfiguration_decision :
      ℕ → BallotNumber → Legislator → Outcome Legislator
  unfolding send_request_to_all log_reconfiguration_decision own_message
  send_and_log_reconfiguration_decision decree ballot s =
      let decision =
        own_message MsgId.reconfiguration_decision decree (paxos_configuration s) ballot 0 s in
      log_reconfiguration_decision decision (send_request_to_all e (plain decision) s)

  -- With other members the vote is sent to them; alone, the replica passes it at once.
  unfoldable pub propose : Vote → Legislator → Outcome Legislator
  unfolding log_vote send_request_to_all send_and_log_reconfiguration_decision
      add_to_execution_queue
  propose v s =
      if ltb 1 (quorum_size s)
      then (do
        s₁ ←
            log_vote e again v
              (record s { outstanding = some v; action_timeout = e.now + e.hrtime_second })
        done (send_request_to_all e (vote v) s₁))
      else if v.is_reconfiguration
      then (do
        s₁ ← log_vote e again v s
        send_and_log_reconfiguration_decision v.decree v.ballot s₁)
      else (do
        s₁ ← log_vote e again v s
        s₂ ← add_to_execution_queue e v s₁
        done (record s₂ { action_timeout = never }))

  unfoldable pub send_next_vote : Vote → Legislator → Outcome Legislator
  unfolding next_decree address_vote propose is_none
  send_next_vote v s = do
    log_assert (id_eq s.max_ballot.member_id s.member_id)
    log_assert (is_none s.outstanding)
    decree ← next_decree s
    let s₁ = record s { response_map = [] }
    if s₁.relinquish_primary
        then done s₁
        else propose (address_vote e.now decree v s₁)
            (record s₁ { relinquish_primary = s₁.relinquish_primary || v.relinquish_primary })

  -- `m_oldFreshestVote`, which is dereferenced.
  unfoldable pub freshest : Option Vote → Outcome Vote
  freshest none = assert_failed
  freshest (some v) = done v

  unfoldable pub start_being_stable_primary : Legislator → Outcome Legislator
  unfolding is_preparing freshest can_init copy_vote send_next_vote
  start_being_stable_primary s = do
    log_assert (is_preparing s && id_eq s.max_ballot.member_id s.member_id)
    old ← freshest s.old_freshest
    log_assert (can_init s.version old)
    s₁ ← send_next_vote (copy_vote s.version old s.primary_cookie) (record s {
      is_transitioning = true;
      force_reelection = false;
      state = stable_primary;
      outstanding = none;
      response_map = [];
    })
    done (record s₁ { old_freshest = none })

  -- The ballot that `StartPreparing` prepares: a new one at the end of initialization, above every
  -- ballot that was seen.
  unfoldable pub prepare_ballot : Legislator → Outcome BallotNumber
  unfolding is_initializing is_preparing raise_above
  prepare_ballot s =
      if is_initializing s
      then done (
          raise_above s.max_seen_ballot
            (record { ballot_id = (s.max_ballot.ballot_id + 1) % 2 ^ 32; member_id = s.member_id }))
      else (do
        log_assert (is_preparing s)
        log_assert (id_eq s.max_ballot.member_id s.member_id)
        done (raise_above s.max_seen_ballot s.max_ballot))

  unfoldable pub start_preparing : Legislator → Outcome Legislator
  unfolding prepare_ballot log_prepare send_request_to_all start_being_stable_primary
  start_preparing s = do
    new_ballot ← prepare_ballot s
    let m : PrepareMsg = record {
      header =
          init_message s.version (msg_code MsgId.prepare) s.member_id s.max_accepted.decree
            (paxos_configuration s) new_ballot 0;
      primary_cookie = s.primary_cookie;
    }
    let s₁ : Legislator = record s {
      state = preparing;
      action_timeout = e.now + e.hrtime_second;
      prepare_timeout = e.now + e.election_delay * 30;
      response_map = [];
      old_freshest = some s.max_accepted;
      last_prepare = some m;
    }
    if quorum_size s == 1
        then (do s₂ ← log_prepare e m s₁; start_being_stable_primary s₂)
        else log_prepare e m (send_request_to_all e (prepare m) s₁)
