-- ===== src/Legislator/Handlers.antt =====
-- src/RSL/src/legislator.cpp: `VerifyMessage` and the handlers of the messages of an election and of
-- a vote. `again` stands for `StartInitializing`.
use rsl.Common.{ℕ, ◌+◌, ◌-◌, ◌%◌, ◌^◌, Bool, true, false, not, ◌&&◌, ◌||◌, List, [], ◌∷◌, length}
use rsl.Common.{Option, none, some, ltb, leb, ◌==◌, if◌then◌else◌}
use rsl.Common.{Outcome, ◌>>=◌, ◌>>◌, done, log_assert, assert_failed, shut_down}
use rsl.Ballot.{MemberId, BallotNumber, id_eq, lt, gt, eq}
use rsl.Message.{Message, MsgId, msg_code, init_message, is_lower_decree, is_same_decree}
use rsl.Message.Bodies.{PrimaryCookie, PrepareMsg}
use rsl.Vote.{Vote}
use rsl.Legislator.{Legislator, Env, Replica, plain, prepare_accepted, never}
use rsl.Legislator.{paxos_configuration, quorum_size, am_primary, is_inactive, is_preparing}
use rsl.Legislator.{is_initializing}
use rsl.Legislator.Send.{send_response, own_message, send_defunct_configuration_message}
use rsl.Legislator.Send.{send_join_request_message}
use rsl.Legislator.Log.{add_to_execution_queue, log_prepare}
use rsl.Legislator.Election.{start_being_stable_secondary, start_being_stable_primary}
use rsl.Legislator.Election.{send_and_log_reconfiguration_decision}

-- `GetReplica`: the replica with the id at the address.
unfoldable pub get_replica : MemberId → ℕ → List Replica → Option Replica
get_replica id ip [] = none
get_replica id ip (r ∷ rs) =
    let rest = get_replica id ip rs in if id_eq id r.member_id && r.ip == ip then some r else rest

-- The same replica, changed by `f`.
unfoldable pub update_replica : (Replica → Replica) → MemberId → ℕ → List Replica → List Replica
update_replica f id ip [] = []
update_replica f id ip (r ∷ rs) =
    let rest = update_replica f id ip rs in
    if id_eq id r.member_id && r.ip == ip then f r ∷ rs else r ∷ rest

abbrev pub is_some : Option Replica → Bool
is_some none = false
is_some (some r) = true

unfoldable pub see_ballot : BallotNumber → Legislator → Legislator
see_ballot b s = if gt b s.max_seen_ballot then record s { max_seen_ballot = b } else s

unfoldable pub mark_healthy : Message → Legislator → Legislator
unfolding update_replica
mark_healthy m s = record s {
  replicas =
      update_replica (λ r. record r { status = if r.status == 0 then 1 else r.status }) m.member_id
        m.remote_ip s.replicas;
}

-- Whether the message is for this configuration and from another member of it, and the state that
-- the check leaves: a notice may have been sent, the replica marked healthy, the ballot seen.
unfoldable pub verify_message : Message → Legislator → Bool × Legislator
unfolding is_inactive get_replica see_ballot mark_healthy send_defunct_configuration_message
    send_join_request_message
verify_message m s =
    if leb m.configuration_number s.highest_defunct
    then (false, send_defunct_configuration_message m.remote_ip m.remote_port m.as_client s)
    else if ltb m.configuration_number (paxos_configuration s)
    then (false, s)
    else if ltb (paxos_configuration s) m.configuration_number
    then (
      false,
      send_join_request_message m.configuration_number m.remote_ip m.remote_port m.as_client s,
    )
    else if is_inactive s
    then (false, s)
    else if id_eq m.member_id s.member_id
        || not (is_some (get_replica m.member_id m.remote_ip s.replicas))
    then (false, mark_healthy m s)
    else (true, see_ballot m.ballot (mark_healthy m s))

-- `m_responseMap[id] = true`.
unfoldable pub respond : MemberId → List MemberId → List MemberId
respond id [] = id ∷ []
respond id (x ∷ xs) = let rest = respond id xs in if id_eq id x then x ∷ xs else x ∷ rest

-- Whether the member has answered, `m_responseMap.find`.
unfoldable pub includes : MemberId → List MemberId → Bool
includes id [] = false
includes id (x ∷ xs) = id_eq id x || includes id xs

-- What the application, or the flag that stands for it, says about a replica and its cookie.
unfoldable pub accepts : Env → MemberId → PrimaryCookie → Bool
accepts e id cookie =
    if e.use_global_accept_messages_flag
    then e.accept_messages
    else e.accept_message_from_replica id cookie

-- `NotAccepted`, with the decree and the ballot that this replica is at.
unfoldable pub send_not_accepted : ℕ → ℕ → Legislator → Legislator
unfolding send_response own_message
send_not_accepted ip port s =
    send_response ip port
      (plain (
        own_message MsgId.not_accepted s.max_accepted.decree (paxos_configuration s) s.max_ballot 0
          s))
      s

module _ (e : Env) where
  unfoldable pub record_vote_accepted : Message → Legislator → Legislator
  unfolding update_replica
  record_vote_accepted m s = record s {
    replicas =
        update_replica
          (λ r. record r {
            last_request_voted_at = e.now;
            last_request_voted_decree =
                if ltb r.last_request_voted_decree m.decree
                then m.decree
                else r.last_request_voted_decree;
            last_vote_payload = m.payload;
          })
          m.member_id m.remote_ip s.replicas;
  }

  module _ (again : Legislator → Outcome Legislator) where
    -- The last accepted vote has passed.
    unfoldable pub vote_passed : Legislator → Outcome Legislator
    unfolding send_and_log_reconfiguration_decision add_to_execution_queue
    vote_passed s =
        if s.max_accepted.is_reconfiguration
        then send_and_log_reconfiguration_decision e again s.max_accepted.decree
            s.max_accepted.ballot s
        else if s.max_accepted.relinquish_primary
        then shut_down
        else add_to_execution_queue e s.max_accepted s

    unfoldable pub count_response : MemberId → Legislator → Outcome Legislator
    unfolding respond quorum_size vote_passed
    count_response id s = do
      log_assert (eq s.max_ballot s.max_accepted.ballot)
      let responses = respond id s.response_map
      if leb (quorum_size s - 1) (length responses)
          then vote_passed
              (record s { response_map = responses; outstanding = none; action_timeout = never })
          else done (record s { response_map = responses })

    unfoldable pub outstanding_is_accepted : Option Vote → Legislator → Bool
    outstanding_is_accepted none s = false
    outstanding_is_accepted (some v) s =
        is_same_decree v.decree v.ballot s.max_accepted.decree s.max_ballot

    unfoldable pub handle_vote_accepted : Message → Legislator → Outcome Legislator
    unfolding am_primary record_vote_accepted count_response outstanding_is_accepted
    handle_vote_accepted m s =
        let s₁ = if am_primary s then record_vote_accepted m s else s in
        if am_primary s
          && outstanding_is_accepted s.outstanding s
          && is_same_decree m.decree m.ballot s.max_accepted.decree s.max_ballot
        then count_response m.member_id s₁
        else done s₁

    -- A prepare message that is not lower, at a replica that is not initializing.
    unfoldable pub promise : PrepareMsg → Legislator → Outcome Legislator
    unfolding log_prepare accepts send_response own_message start_being_stable_secondary
    promise m s = do
      s₁ ← log_prepare e m s
      let s₂ =
          if accepts e m.member_id m.primary_cookie
          then send_response m.remote_ip m.remote_port
              (prepare_accepted
                (own_message MsgId.prepare_accepted m.decree (paxos_configuration s₁) m.ballot 0 s₁)
                s₁.max_accepted)
              s₁
          else s₁
      if ltb s₂.max_accepted.decree m.decree
          then again s₂
          else done (start_being_stable_secondary s₂)

    unfoldable pub handle_prepare : PrepareMsg → Legislator → Outcome Legislator
    unfolding promise send_not_accepted is_initializing
    handle_prepare m s =
        if s.relinquish_primary
        then done s
        else if is_lower_decree m.decree m.ballot s.max_accepted.decree s.max_ballot
        then (if ltb ((m.decree + 1) % 2 ^ 64) s.max_accepted.decree || lt m.ballot s.max_ballot
            then done (send_not_accepted m.remote_ip m.remote_port s)
            else done s)
        else if is_initializing s
        then done s
        else promise m s

    -- The freshest vote for the decree at hand that the promises told of.
    unfoldable pub fresher : Vote → Option Vote → Outcome Vote
    fresher v none = assert_failed
    fresher v (some old) =
        done (if v.decree == old.decree && gt v.ballot old.ballot then v else old)

    unfoldable pub freshest_decree : Option Vote → Outcome ℕ
    freshest_decree none = assert_failed
    freshest_decree (some old) = done old.decree

    unfoldable pub handle_prepare_accepted : Message → Vote → Legislator → Outcome Legislator
    unfolding is_preparing fresher freshest_decree respond quorum_size start_being_stable_primary
    handle_prepare_accepted m v s =
        if is_preparing s && is_same_decree m.decree m.ballot s.max_accepted.decree s.max_ballot
        then (do
          log_assert (id_eq s.max_ballot.member_id s.member_id)
          d ← freshest_decree s.old_freshest
          log_assert (d == s.max_accepted.decree)
          if ltb m.decree v.decree || gt v.ballot m.ballot then done s else (do
            old ← fresher v s.old_freshest
            let s₁ = record s {
              old_freshest = some old;
              response_map = respond m.member_id s.response_map;
            }
            if leb (quorum_size s₁ - 1) (length s₁.response_map)
                then start_being_stable_primary e again s₁
                else done s₁))
        else done s

    unfoldable pub handle_not_accepted : Message → Legislator → Outcome Legislator
    unfolding is_initializing log_prepare start_being_stable_secondary
    handle_not_accepted m s =
        if is_lower_decree m.decree m.ballot s.max_accepted.decree s.max_accepted.ballot
          || is_initializing s
        then done s
        else if ltb s.max_accepted.decree m.decree
        then again s
        else if gt m.ballot s.max_ballot
        then (do
          s₁ ←
              log_prepare e
                (record {
                  header =
                      init_message m.version (msg_code MsgId.prepare) m.member_id m.decree
                        (paxos_configuration s) m.ballot 0;
                  primary_cookie = [];
                })
                s
          done (start_being_stable_secondary s₁))
        else done s
