-- ===== src/Legislator/Votes.antt =====
-- src/RSL/src/legislator.cpp: `HandleNewVotes` and `LogAndAcceptVote`. `again` stands for
-- `StartInitializing`.
use rsl.Common.{◌+◌, Bool, true, false, not, ◌&&◌, ◌||◌, List, [], ◌∷◌}
use rsl.Common.{ltb, ◌==◌, if◌then◌else◌, Outcome, ◌>>=◌, ◌>>◌, done}
use rsl.Common.{log_assert}
use rsl.Ballot.{no_ballot, id_eq, lt, gt, eq}
use rsl.Message.{MsgId, is_lower_decree, is_next_decree, next}
use rsl.Vote.{Vote}
use rsl.Legislator.{Legislator, Env, plain, paxos_configuration, am_primary, is_initializing}
use rsl.Legislator.Send.{send_response, own_message}
use rsl.Legislator.Log.{add_to_execution_queue, log_vote}
use rsl.Legislator.Election.{start_being_stable_secondary}
use rsl.Legislator.Handlers.{verify_message, accepts, send_not_accepted}

-- How the loop over the received votes goes on: with the next vote (and whether this one was
-- accepted), or not at all.
pub data Progress : Type 0 where
  go_on : Bool → Legislator → Progress
  stop : Legislator → Progress

-- The part of `CheckNotifyStatus` that changes the modelled state.
unfoldable pub check_notify_status : Bool → Legislator → Legislator
check_notify_status status s = record s { is_primary = status; is_transitioning = false }

-- The reply to a batch of votes goes out with the last vote of one sender.
unfoldable pub is_last_of_sender : Vote → List Vote → Bool
is_last_of_sender v [] = true
is_last_of_sender v (w ∷ ws) =
    not (w.remote_ip == v.remote_ip) || not (w.remote_port == v.remote_port)

unfoldable pub no_votes : List Vote → Bool
no_votes [] = true
no_votes (v ∷ vs) = false

module _ (e : Env) (again : Legislator → Outcome Legislator) where
  -- A vote for the next decree tells that the last accepted one has passed.
  unfoldable pub pass_previous : Vote → Legislator → Outcome Legislator
  unfolding add_to_execution_queue
  pass_previous v s = do
    log_assert (not (eq v.ballot no_ballot))
    s₁ ← add_to_execution_queue e s.max_accepted s
    let received_at = if v.received_at == 0 then e.now else v.received_at
    done (record s₁ {
      next_election_time =
          if id_eq s₁.max_ballot.member_id s₁.member_id
          then received_at + e.heart_beat_interval
          else received_at + e.election_delay;
    })

  unfoldable pub log_and_accept_vote : Vote → Legislator → Outcome Legislator
  unfolding pass_previous log_vote
  log_and_accept_vote v s = do
    log_assert (is_next_decree v.decree v.ballot s.max_accepted.decree s.max_accepted.ballot)
    log_assert (v.configuration_number == paxos_configuration s)
    s₁ ← (if v.decree == next s.max_accepted.decree then pass_previous v s else done s)
    log_vote e again v s₁

  -- The reply to the accepted vote `v`.
  unfoldable pub reply : Vote → Legislator → Progress
  unfolding accepts send_response own_message
  reply v s =
      let rejected = lt v.ballot s.max_ballot in
      if rejected || accepts e s.max_accepted.member_id s.max_accepted.primary_cookie
      then (let s₁ =
            send_response v.remote_ip v.remote_port
              (plain (
                own_message (if rejected then MsgId.not_accepted else MsgId.vote_accepted)
                  s.max_accepted.decree (paxos_configuration s) s.max_ballot s.vote_payload s))
              s in
          if v.relinquish_primary
          then stop (record s₁ { force_reelection = true })
          else go_on true s₁)
      else go_on true s

  unfoldable pub accept_vote : Vote → List Vote → Legislator → Outcome Progress
  unfolding log_and_accept_vote reply is_last_of_sender start_being_stable_secondary
      check_notify_status am_primary
  accept_vote v rest s = do
    s₁ ← log_and_accept_vote v (
        if am_primary s && gt v.ballot s.max_ballot
        then check_notify_status false (start_being_stable_secondary s)
        else s)
    done (if is_last_of_sender v rest then reply v s₁ else go_on true s₁)

  unfoldable pub discard_vote : Vote → Legislator → Legislator
  unfolding send_not_accepted
  discard_vote v s =
      if lt v.ballot s.max_ballot || ltb (next v.decree) s.max_accepted.decree
      then send_not_accepted v.remote_ip v.remote_port s
      else s

  -- A vote that passed the check of its configuration and sender.
  unfoldable pub handle_verified_vote : Vote → List Vote → Legislator → Outcome Progress
  unfolding accept_vote discard_vote
  handle_verified_vote v rest s =
      if is_lower_decree v.decree v.ballot s.max_accepted.decree s.max_accepted.ballot
      then done (go_on false (discard_vote v s))
      else if is_next_decree v.decree v.ballot s.max_accepted.decree s.max_accepted.ballot
      then accept_vote v rest s
      else (do s₁ ← again s; done (stop s₁))

  unfoldable pub handle_vote : Vote → List Vote → Legislator → Outcome Progress
  unfolding verify_message handle_verified_vote
  handle_vote v rest s =
      let (ok, s₁) = verify_message v.header s in
      if ok then handle_verified_vote v rest s₁ else done (go_on false s₁)

  unfoldable pub handle_votes : List Vote → Bool → Legislator → Outcome Legislator
  unfolding handle_vote start_being_stable_secondary
  handle_votes [] accepted s = done (if accepted then start_being_stable_secondary s else s)
  handle_votes (v ∷ vs) accepted s = handle_vote v vs s >>= λ p. elim p [
    | go_on now s₁ ↦ handle_votes vs (accepted || now) s₁
    | stop s₁ ↦ done s₁
  ]

  -- The votes that are left in the queue, and the state. While the primary is being relinquished
  -- the votes are not looked at.
  unfoldable pub handle_new_votes : List Vote → Legislator → Outcome (List Vote × Legislator)
  unfolding handle_votes
  handle_new_votes votes s =
      if s.relinquish_primary
      then done (votes, s)
      else (do s₁ ← handle_votes votes false s; done ([], s₁))

  -- `MainLoop` plays the votes that were received. The local queue is destroyed at the end, and its
  -- destructor asserts that it is empty.
  unfoldable pub play_votes : Legislator → Outcome Legislator
  unfolding handle_new_votes is_initializing no_votes
  play_votes s = if is_initializing s then done s else (do
    (left, s₁) ← handle_new_votes s.vote_cache (record s { vote_cache = [] })
    log_assert (no_votes left)
    done s₁)
