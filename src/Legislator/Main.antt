-- ===== src/Legislator/Main.antt =====
-- src/RSL/src/legislator.cpp: `HandleMessage`, the steps of `MainLoop` (the received votes, a
-- message, the proposal of a vote, `Timer`, the join messages), and what the receive threads and
-- the network library do to the state. Bootstrapping is not among them.
use rsl.Common.{Bool, true, false, not, ◌&&◌, ◌||◌, ltb, leb}
use rsl.Common.{if◌then◌else◌, Outcome, done}
use rsl.Ballot.{MemberId}
use rsl.Message.{Message}
use rsl.Message.Bodies.{PrepareMsg, JoinMessage, StatusResponse}
use rsl.Vote.{Vote}
use rsl.Legislator.{Legislator, Env, am_primary, is_preparing, is_initializing}
use rsl.Legislator.{stable_secondary, paxos_inactive, stable_primary, preparing, initializing}
use rsl.Legislator.Send.{send_defunct_configuration_message}
use rsl.Legislator.Log.{update_defunct_info}
use rsl.Legislator.Election.{send_next_vote, log_reconfiguration_decision, is_none}
use rsl.Legislator.Handlers.{verify_message, handle_vote_accepted, handle_prepare}
use rsl.Legislator.Handlers.{handle_prepare_accepted, handle_not_accepted}
use rsl.Legislator.Votes.{play_votes, no_votes, check_notify_status}
use rsl.Legislator.Learn.{receive_vote}
use rsl.Legislator.Status.{handle_status_response, handle_join, handle_join_request}
use rsl.Legislator.Status.{send_join_messages_if_necessary, send_status_request_message}
use rsl.Legislator.Status.{handle_status_query}
use rsl.Legislator.Resend.{SendStatus, resend_current_vote, resend_prepare_msg, process_send}

-- What `HandleMessage` dispatches on.
pub data Incoming : Type 0 where
  defunct_configuration : Message → Incoming
  vote_accepted : Message → Incoming
  prepare_msg : PrepareMsg → Incoming
  prepare_accepted_msg : Message → Vote → Incoming
  not_accepted : Message → Incoming
  status_response_msg : StatusResponse → Incoming
  reconfiguration_decision : Message → Incoming
  join_msg : JoinMessage → Incoming
  join_request : Message → Incoming
  unknown : Message → Incoming

abbrev pub header_of : Incoming → Message
header_of (defunct_configuration m) = m
header_of (vote_accepted m) = m
header_of (prepare_msg m) = m.header
header_of (prepare_accepted_msg m v) = m
header_of (not_accepted m) = m
header_of (status_response_msg m) = m.header
header_of (reconfiguration_decision m) = m
header_of (join_msg m) = m.header
header_of (join_request m) = m
header_of (unknown m) = m

unfoldable pub is_stable_secondary : Legislator → Bool
is_stable_secondary s = elim s.state [
  | paxos_inactive ↦ false
  | stable_primary ↦ false
  | stable_secondary ↦ true
  | preparing ↦ false
  | initializing ↦ false
]

module _ (e : Env) (again : Legislator → Outcome Legislator) where
  -- A message for this configuration, from another member of it.
  unfoldable pub dispatch : Incoming → Legislator → Outcome Legislator
  unfolding handle_vote_accepted handle_prepare handle_prepare_accepted handle_not_accepted
      log_reconfiguration_decision handle_status_response
  dispatch (defunct_configuration m) s = done s
  dispatch (vote_accepted m) s = handle_vote_accepted e again m s
  dispatch (prepare_msg m) s = handle_prepare e again m s
  dispatch (prepare_accepted_msg m v) s = handle_prepare_accepted e again m v s
  dispatch (not_accepted m) s = handle_not_accepted e again m s
  dispatch (status_response_msg m) s = handle_status_response e again m s
  dispatch (reconfiguration_decision m) s = log_reconfiguration_decision e again m s
  dispatch (join_msg m) s = done s
  dispatch (join_request m) s = done s
  dispatch (unknown m) s = done s

  unfoldable pub verify_and_dispatch : Incoming → Legislator → Outcome Legislator
  unfolding verify_message dispatch
  verify_and_dispatch i s =
      let (ok, s₁) = verify_message (header_of i) s in if ok then dispatch i s₁ else done s₁

  -- The messages about joining are not checked.
  unfoldable pub route : Incoming → Legislator → Outcome Legislator
  unfolding verify_and_dispatch handle_join handle_join_request
  route (defunct_configuration m) s = done s
  route (vote_accepted m) s = verify_and_dispatch (vote_accepted m) s
  route (prepare_msg m) s = verify_and_dispatch (prepare_msg m) s
  route (prepare_accepted_msg m v) s = verify_and_dispatch (prepare_accepted_msg m v) s
  route (not_accepted m) s = verify_and_dispatch (not_accepted m) s
  route (status_response_msg m) s = verify_and_dispatch (status_response_msg m) s
  route (reconfiguration_decision m) s = verify_and_dispatch (reconfiguration_decision m) s
  route (join_msg m) s = handle_join e again m s
  route (join_request m) s = handle_join_request e m s
  route (unknown m) s = verify_and_dispatch (unknown m) s

  unfoldable pub handle_current : Incoming → Legislator → Outcome Legislator
  unfolding route send_defunct_configuration_message
  handle_current i s =
      let m = header_of i in
      if leb m.configuration_number s.highest_defunct
      then done (send_defunct_configuration_message m.remote_ip m.remote_port m.as_client s)
      else route i s

  unfoldable pub handle_message : Incoming → Legislator → Outcome Legislator
  unfolding update_defunct_info handle_current
  handle_message (defunct_configuration m) s = update_defunct_info e again m.configuration_number s
  handle_message (vote_accepted m) s = handle_current (vote_accepted m) s
  handle_message (prepare_msg m) s = handle_current (prepare_msg m) s
  handle_message (prepare_accepted_msg m v) s = handle_current (prepare_accepted_msg m v) s
  handle_message (not_accepted m) s = handle_current (not_accepted m) s
  handle_message (status_response_msg m) s = handle_current (status_response_msg m) s
  handle_message (reconfiguration_decision m) s = handle_current (reconfiguration_decision m) s
  handle_message (join_msg m) s = handle_current (join_msg m) s
  handle_message (join_request m) s = handle_current (join_request m) s
  handle_message (unknown m) s = handle_current (unknown m) s

  -- The part of `MainLoop` behind the messages: the primary proposes the vote `v` of a client, when it
  -- waits for no other.
  unfoldable pub propose_next : Vote → Legislator → Outcome Legislator
  unfolding am_primary is_none send_next_vote check_notify_status
  propose_next v s =
      if am_primary s
      then (if is_none s.outstanding
          then send_next_vote e again v (check_notify_status true s)
          else done s)
      else done (check_notify_status false s)

  -- The parts of `Timer`.
  unfoldable pub check_election_timeout : Legislator → Outcome Legislator
  unfolding is_stable_secondary no_votes
  check_election_timeout s =
      if (leb s.next_election_time e.now || s.force_reelection)
        && is_stable_secondary s
        && no_votes s.vote_cache
      then again s
      else done s

  unfoldable pub check_action_timeout : Legislator → Outcome Legislator
  unfolding am_primary is_preparing is_initializing resend_current_vote resend_prepare_msg
  check_action_timeout s =
      if not (ltb s.action_timeout e.now)
      then done s
      else if am_primary s
      then resend_current_vote e s
      else if is_preparing s
      then (if ltb s.prepare_timeout e.now then again s else resend_prepare_msg e s)
      else if is_initializing s
      then again s
      else done s

  unfoldable pub check_cp_timeout : Legislator → Legislator
  unfolding send_status_request_message
  check_cp_timeout s = if ltb s.cp_timeout e.now then send_status_request_message e s else s

-- The steps of the main loop, then those of the threads of the network library: a vote or a status
-- query is received, a request to a member was sent or not.
pub data Event : Type 0 where
  votes election_timer action_timer cp_timer join_timer : Event
  message : Incoming → Event
  client_vote : Vote → Event
  vote_received : Vote → Event
  status_query : Message → Event
  request_sent : SendStatus → MemberId → Event

module _ (e : Env) (again : Legislator → Outcome Legislator) where
  unfoldable pub handle : Event → Legislator → Outcome Legislator
  unfolding play_votes handle_message propose_next check_election_timeout check_action_timeout
      check_cp_timeout send_join_messages_if_necessary receive_vote handle_status_query process_send
  handle votes s = play_votes e again s
  handle election_timer s = check_election_timeout e again s
  handle action_timer s = check_action_timeout e again s
  handle cp_timer s = done (check_cp_timeout e again s)
  handle join_timer s = send_join_messages_if_necessary e s
  handle (message i) s = handle_message e again i s
  handle (client_vote v) s = propose_next e again v s
  handle (vote_received v) s = done (receive_vote e v s)
  handle (status_query m) s = done (handle_status_query e m s)
  handle (request_sent status id) s = done (process_send e status id s)
