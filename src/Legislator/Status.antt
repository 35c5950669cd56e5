-- ===== src/Legislator/Status.antt =====
-- src/RSL/src/legislator.cpp: the status query of a replica that initializes or that waits for a
-- checkpoint, its answer, and the join messages. `again` stands for `StartInitializing`.
use rsl.Common.{ℕ, ◌+◌, ◌-◌, ◌*◌, ◌/◌, ◌%◌, ◌^◌, Bool, true, not, ◌&&◌, ◌||◌, List, [], ◌∷◌}
use rsl.Common.{Option, none, some, ltb, leb, ◌==◌, if◌then◌else◌, length, get_elem?}
use rsl.Common.{Outcome, ◌>>=◌, done, assert_failed, shut_down}
use rsl.Ballot.{no_ballot, ge, eq}
use rsl.Message.{Message, MsgId, msg_code, init_message, next}
use rsl.Message.Bodies.{JoinMessage, StatusResponse}
use rsl.LogFile.{LogFile}
use rsl.StatusMap.{insert, find_higher_logged, find_checkpoint, find_min_received_ago}
use rsl.Legislator.{Legislator, Env, Phase, paxos_configuration, quorum_size, am_primary, never}
use rsl.Legislator.{paxos_inactive, stable_primary, stable_secondary, preparing, initializing}
use rsl.Legislator.{is_initializing, plain, join, status_response}
use rsl.Legislator.Send.{send_message_to_ip_port, send_request_to_all, own_message, send_response}
use rsl.Legislator.Send.{send_defunct_configuration_message}
use rsl.Legislator.Votes.{no_votes}
use rsl.Legislator.Learn.{head, learn_votes, learn_votes_and_transition, copy_checkpoint}
use rsl.Legislator.Reinitialize.{move_to_secondary_or_prepare}

-- The oldest log file's first decree; the files have the newest first.
unfoldable pub min_decree_of_log : List LogFile → Option ℕ
min_decree_of_log [] = none
min_decree_of_log (f ∷ []) = some f.min_decree
min_decree_of_log (f ∷ g ∷ fs) = min_decree_of_log (g ∷ fs)

-- The values of `Legislator::State`.
unfoldable pub phase_code : Phase → ℕ
phase_code paxos_inactive = 0
phase_code stable_primary = 1
phase_code stable_secondary = 2
phase_code preparing = 3
phase_code initializing = 4

-- The Int64 milliseconds since the last accepted vote was received.
unfoldable pub received_ago : Env → Legislator → ℕ
received_ago e s = (e.now - s.max_accepted.received_at) / e.hrtime_msecond

-- The answer to a status query, as `HandleStatusQueryMsg` puts it together: `BuildLearnServerState`,
-- then `BuildLearnStatusResponse`.
unfoldable pub build_status_response : Env → Message → Legislator → StatusResponse
unfolding received_ago min_decree_of_log phase_code
build_status_response e m s = record {
  header =
      init_message s.version (msg_code MsgId.status_response) s.member_id s.max_accepted.decree
        (paxos_configuration s) s.max_accepted.ballot 0;
  query_decree = m.decree;
  query_ballot = m.ballot;
  last_received_ago = received_ago e s;
  min_decree_in_log = elim (min_decree_of_log s.log_files) [ none ↦ 0 | some d ↦ d ];
  checkpointed_decree = s.checkpointed_decree;
  checkpoint_size = s.checkpoint_size;
  max_ballot = s.max_ballot;
  state = phase_code s.state;
}

unfoldable pub handle_status_query : Env → Message → Legislator → Legislator
unfolding build_status_response send_response
handle_status_query e m s =
    if s.relinquish_primary
    then s
    else send_response m.remote_ip m.remote_port (status_response (build_status_response e m s)) s

-- The join message, with the log's first decree.
unfoldable pub join_message : Env → ℕ → Legislator → JoinMessage
unfolding own_message
join_message e min_decree s = record {
  header =
      own_message MsgId.join ((s.configuration.initial_decree + (2 ^ 64 - 1)) % 2 ^ 64)
        (paxos_configuration s) no_ballot 0 s;
  learn_port = e.rsl_learn_port;
  min_decree_in_log = min_decree;
  checkpointed_decree = s.checkpointed_decree;
  checkpoint_size = s.checkpoint_size;
}

-- Without a log file the code reads past the vector.
unfoldable pub send_join : Env → ℕ → ℕ → Bool → Option ℕ → Legislator → Outcome Legislator
unfolding join_message send_message_to_ip_port send_request_to_all
send_join e ip port as_client none s = assert_failed
send_join e ip port as_client (some d) s = done (
    if as_client && ip == 0
    then send_request_to_all e (join (join_message e d s)) s
    else send_message_to_ip_port ip port as_client (join (join_message e d s)) s)

unfoldable pub send_join_message : Env → ℕ → ℕ → Bool → Legislator → Outcome Legislator
unfolding send_join min_decree_of_log
send_join_message e ip port as_client s =
    send_join e ip port as_client (min_decree_of_log s.log_files) s

unfoldable pub handle_join_request : Env → Message → Legislator → Outcome Legislator
unfolding send_join_message
handle_join_request e m s =
    if m.configuration_number == paxos_configuration s
    then send_join_message e m.remote_ip m.remote_port m.as_client s
    else done s

unfoldable pub send_join_messages_if_necessary : Env → Legislator → Outcome Legislator
unfolding send_join_message
send_join_messages_if_necessary e s =
    if leb (paxos_configuration s) ((s.highest_defunct + 1) % 2 ^ 32)
    then done s
    else if ltb (e.now - s.last_time_join_messages_sent) e.join_messages_interval
    then done s
    else (do
      s₁ ← send_join_message e 0 0 true s
      done (record s₁ { last_time_join_messages_sent = e.now }))

-- A primary that waits for a checkpoint asks again whether there is one to copy.
unfoldable pub send_status_request_message : Env → Legislator → Legislator
unfolding am_primary send_request_to_all own_message
send_status_request_message e s =
    if not (am_primary s) || s.copy_checkpoint_at == 0
    then record s { copy_checkpoint_at = 0; cp_timeout = never }
    else (let s₁ =
          send_request_to_all e
            (plain (
              own_message MsgId.status_query s.max_accepted.decree (paxos_configuration s)
                s.max_accepted.ballot 0 s))
            s in
        record s₁ { cp_timeout = e.now + e.cp_query_retry_interval })

-- `responses[rand() % responses.size()]`.
unfoldable pub pick : ℕ → List StatusResponse → Option StatusResponse
pick r rs = get_elem? rs (r % length rs)

module _ (e : Env) (again : Legislator → Outcome Legislator) where
  -- A copy thread is started when the checkpoint that is waited for is there and no thread runs.
  unfoldable pub start_copy : StatusResponse → Legislator → Legislator
  start_copy m s = record s {
    cp_timeout =
        if not (s.copy_checkpoint_at == 0)
          && leb s.copy_checkpoint_at m.checkpointed_decree
          && not e.copy_thread_running
        then never
        else s.cp_timeout;
  }

  -- The vote that waits first, if it is ahead, tells up to where the log is to be learned.
  unfoldable pub min_decree : Legislator → ℕ
  unfolding head
  min_decree s = elim (head s.vote_cache) [
    | none ↦ never
    | some v ↦ if ltb s.max_accepted.decree v.decree then v.decree else never
  ]

  unfoldable pub copy_or_retry : Option StatusResponse → Legislator → Outcome Legislator
  unfolding copy_checkpoint
  copy_or_retry none s = done s
  copy_or_retry (some r) s = do
    ok ← copy_checkpoint (e.copied r.member_id)
    if ok then shut_down else again s

  -- The election is due `election_delay` after the last vote that anyone received.
  unfoldable pub schedule_election : Legislator → Legislator
  unfolding find_min_received_ago
  schedule_election s =
      let ago = find_min_received_ago s.status_map.queue in
      let now_ms = e.now / e.hrtime_msecond in
      let capped = (if ltb now_ms ago then now_ms else ago) in
      if s.next_election_time == never || ago == never
      then record s { next_election_time = e.now - capped * e.hrtime_msecond + e.election_delay }
      else s

  -- Nobody is ahead.
  unfoldable pub elect : Legislator → Outcome Legislator
  unfolding move_to_secondary_or_prepare schedule_election
  elect s = move_to_secondary_or_prepare e again (schedule_election s)

  -- Learn from the replica that was picked, if there is one.
  unfoldable pub learn_or :
      (Legislator → Outcome Legislator) → Option StatusResponse → Legislator → Outcome Legislator
  unfolding learn_votes_and_transition
  learn_or otherwise none s = otherwise s
  learn_or otherwise (some r) s = learn_votes_and_transition e again r.member_id s

  -- No log reaches back to this replica's place: a checkpoint helps if anyone is ahead at all.
  unfoldable pub copy_or_elect : List StatusResponse → Legislator → Outcome Legislator
  unfolding copy_or_retry pick find_checkpoint elect
  copy_or_elect [] s = elect s
  copy_or_elect (_ ∷ _) s =
      copy_or_retry (pick e.rand (find_checkpoint s.max_accepted.decree s.status_map.queue)) s

  -- The responses of the replicas ahead of a decree whose log starts early enough.
  unfoldable pub ahead : ℕ → ℕ → Legislator → List StatusResponse
  unfolding find_higher_logged
  ahead log_start decree s =
      find_higher_logged log_start decree s.max_accepted.ballot s.status_map.queue

  unfoldable pub choose_other : Legislator → Outcome Legislator
  unfolding learn_or pick ahead copy_or_elect
  choose_other s =
      learn_or (λ t. copy_or_elect (ahead never t.max_accepted.decree t) t)
        (pick e.rand (ahead s.max_accepted.decree s.max_accepted.decree s)) s

  -- With the answers of a majority: learn from a log that reaches to the waiting votes, or from one
  -- that is ahead, or copy a checkpoint, or go on to an election.
  unfoldable pub choose : Legislator → Outcome Legislator
  unfolding learn_or pick ahead min_decree choose_other
  choose s =
      learn_or choose_other (pick e.rand (ahead s.max_accepted.decree (min_decree s - 1) s)) s

  unfoldable pub count_status : StatusResponse → Legislator → Outcome Legislator
  unfolding insert quorum_size choose
  count_status m s =
      let s₁ : Legislator = record s { status_map = insert m s.status_map } in
      if leb (quorum_size s - 1) s₁.status_map.num_responses then choose s₁ else done s₁

  unfoldable pub handle_status_response : StatusResponse → Legislator → Outcome Legislator
  unfolding start_copy am_primary is_initializing no_votes learn_votes_and_transition count_status
  handle_status_response m s =
      let s₁ = start_copy m s in
      if am_primary s
      then done s₁
      else if not (m.query_decree == s.max_accepted.decree)
          || not (eq m.query_ballot s.max_accepted.ballot)
      then done s₁
      else if not (is_initializing s)
      then (if m.decree == next s.max_accepted.decree
            && ge m.ballot s.max_accepted.ballot
            && no_votes s.vote_cache
          then learn_votes_and_transition e again m.member_id s₁
          else done s₁)
      else count_status m s₁

  -- A join message tells of a configuration that this replica is not in yet.
  unfoldable pub handle_join : JoinMessage → Legislator → Outcome Legislator
  unfolding learn_votes copy_checkpoint send_defunct_configuration_message
  handle_join m s =
      if leb m.configuration_number (paxos_configuration s)
      then done (
          if leb m.configuration_number ((s.highest_defunct + 1) % 2 ^ 32)
          then send_defunct_configuration_message m.remote_ip m.remote_port m.as_client s
          else s)
      else if leb m.min_decree_in_log s.max_accepted.decree && ltb 0 (paxos_configuration s)
      then (do (ok, s₁) ← learn_votes e again m.member_id s; done s₁)
      else if leb s.max_accepted.decree m.checkpointed_decree
      then (do ok ← copy_checkpoint (e.copied m.member_id); if ok then shut_down else done s)
      else done s
