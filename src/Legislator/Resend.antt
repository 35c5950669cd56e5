-- ===== src/Legislator/Resend.antt =====
-- src/RSL/src/legislator.cpp: requests that are sent again to the replicas that have not answered,
-- and what the network library reports of a send.
use rsl.Common.{ℕ, ◌+◌, ◌-◌, Bool, true, false, not, ◌&&◌, ◌||◌, List, [], ◌∷◌}
use rsl.Common.{Option, none, some, ltb, leb, ◌==◌, if◌then◌else◌}
use rsl.Common.{Outcome, ◌>>◌, done, log_assert, assert_failed}
use rsl.Ballot.{MemberId, id_eq}
use rsl.Message.{is_same_decree}
use rsl.Message.Bodies.{PrepareMsg}
use rsl.Vote.{Vote}
use rsl.Legislator.{Legislator, Env, Replica, Packet, Sent, to_replica, vote, prepare, is_preparing}
use rsl.Legislator.Send.{should_send}
use rsl.Legislator.Election.{is_none}
use rsl.Legislator.Handlers.{includes}

-- `TxRxStatus` as far as it is looked at.
pub data SendStatus : Type 0 where
  tx_success tx_abort tx_failed : SendStatus

module _ (e : Env) where
  -- How long the vote that is sent again has been outstanding, if it is the outstanding vote.
  unfoldable pub vote_age : Option Vote → Option Vote → Option ℕ
  vote_age none o = none
  vote_age (some v) none = none
  vote_age (some v) (some o) =
      if is_same_decree v.decree v.ballot o.decree o.ballot
      then some (e.now - v.received_at)
      else none

  unfoldable pub is_overdue : Option ℕ → ℕ → Bool
  is_overdue none timeout = false
  is_overdue (some age) timeout = leb timeout age

  -- The replica has not answered, nothing is on the way to it, and the time is up for the last
  -- request to it or for the vote.
  unfoldable pub is_due : List MemberId → Option ℕ → ℕ → Replica → Bool
  unfolding includes is_overdue
  is_due responses age failed_timeout r =
      let timeout = (if r.connected then e.receive_timeout else failed_timeout) in
      not (includes r.member_id responses)
      && r.num_outstanding == 0
      && (leb timeout (e.now - r.last_request_sent_at) || is_overdue age timeout)

  unfoldable pub resend_all :
      Packet → List MemberId → Option ℕ → ℕ → List Replica → List Sent → List Replica × List Sent
  unfolding is_due should_send
  resend_all p responses age failed_timeout [] sent = ([], sent)
  resend_all p responses age failed_timeout (r ∷ rs) sent =
      let go = is_due responses age failed_timeout r && should_send e r in
      let (rest, out) =
        resend_all p responses age failed_timeout rs
          (if go then to_replica r.member_id p ∷ sent else sent) in
      ((if go then record r { num_outstanding = r.num_outstanding + 1 } else r) ∷ rest, out)

  unfoldable pub resend_request : Packet → Option Vote → ℕ → Legislator → Legislator
  unfolding resend_all vote_age
  resend_request p v failed_timeout s =
      let (replicas, sent) =
        resend_all p s.response_map (vote_age v s.outstanding) failed_timeout s.replicas s.sent in
      record s { replicas = replicas; sent = sent }

  -- A vote that has been outstanding for too long ends the process.
  unfoldable pub resend_current_vote : Legislator → Outcome Legislator
  unfolding resend_request is_none
  resend_current_vote s = do
    log_assert (not (is_none s.outstanding))
    log_assert (ltb (e.now - s.max_accepted.received_at) e.vote_max_outstanding_interval)
    let s₁ = resend_request (vote s.max_accepted) (some s.max_accepted) e.vote_retry_interval s
    done (record s₁ { action_timeout = e.now + e.hrtime_second })

  unfoldable pub resend_prepare : Option PrepareMsg → Legislator → Outcome Legislator
  unfolding resend_request
  resend_prepare none s = assert_failed
  resend_prepare (some m) s =
      let s₁ = resend_request (prepare m) none e.prepare_retry_interval s in
      done (record s₁ { action_timeout = e.now + e.hrtime_second })

  unfoldable pub resend_prepare_msg : Legislator → Outcome Legislator
  unfolding resend_prepare is_preparing
  resend_prepare_msg s = do log_assert (is_preparing s); resend_prepare s.last_prepare s

  -- `ProcessSend` at the replica: three failures in a row mark it as failed, a success as healthy.
  unfoldable pub note_send : SendStatus → Replica → Replica
  note_send tx_success r = record r {
    last_request_sent_at = e.now;
    num_outstanding = r.num_outstanding - 1;
    status = if r.status == 0 then 1 else r.status;
    consecutive_failures = 0;
    connected = true;
  }
  note_send tx_abort r = record r {
    last_request_sent_at = e.now;
    num_outstanding = r.num_outstanding - 1;
  }
  note_send tx_failed r = record r {
    last_request_sent_at = e.now;
    num_outstanding = r.num_outstanding - 1;
    consecutive_failures = r.consecutive_failures + 1;
    connected = false;
    status = if leb 3 (r.consecutive_failures + 1) && r.status == 1 then 0 else r.status;
    failed_at = if leb 3 (r.consecutive_failures + 1) && r.status == 1 then e.now else r.failed_at;
  }

  unfoldable pub note_first : SendStatus → MemberId → List Replica → List Replica
  unfolding note_send
  note_first status id [] = []
  note_first status id (r ∷ rs) =
      let rest = note_first status id rs in
      if id_eq id r.member_id then note_send status r ∷ rs else r ∷ rest

  unfoldable pub process_send : SendStatus → MemberId → Legislator → Legislator
  unfolding note_first
  process_send status id s = record s { replicas = note_first status id s.replicas }
