-- ===== src/Legislator/Grows/Handlers.antt =====
-- src/RSL/src/legislator.cpp: the handlers of the messages lower no counter.
use rsl.Common.{ℕ, ◌+◌, ◌%◌, ◌^◌, ◌<◌, arith, ◌&&◌, ◌||◌, []}
use rsl.Common.{none, some, leb, ltb, ◌==◌, length, ◌-◌}
use rsl.Common.{
  Outcome, done, Bool-cases, inl, inr, Holds, Holds-bind, Holds-into, Holds-log_assert, if-cases,
  if◌then◌else◌,
}
use rsl.Ballot.{MemberId, id_eq, eq, gt, lt}
use rsl.Message.{Message, MsgId, msg_code, init_message, is_lower_decree, is_same_decree}
use rsl.Message.Bodies.{PrepareMsg}
use rsl.Vote.{Vote}
use rsl.Legislator.{Legislator, Env, quorum_size, am_primary, is_preparing, is_initializing}
use rsl.Legislator.{paxos_configuration, never, prepare_accepted}
use rsl.Legislator.Send
use rsl.Legislator.Election
use rsl.Legislator.Log
use rsl.Legislator.Handlers
use rsl.Legislator.Grows.{Room, Room-less, Step, Step-bind, Costs, view}
use rsl.Legislator.Grows.Log.{Step-same, Keeps-Step, add_to_execution_queue-view, log_prepare-Step}
use rsl.Legislator.Grows.Election.{start_being_stable_primary-Step}
use rsl.Legislator.Grows.Election.{send_and_log_reconfiguration_decision-Step}

module _ (e : Env) (again : Legislator → Outcome Legislator) (c : ℕ) (costs : Costs c again) where
  vote_passed-Step :
      (k : ℕ) (s : Legislator)
      → Room (k + c + 1) (view s)
      → Holds (Step k s) (Handlers.vote_passed e again s)
  unfolding Handlers.vote_passed
  vote_passed-Step k s r =
      if-cases (Holds (Step k s)) s.max_accepted.is_reconfiguration _ _
        (λ _.
          send_and_log_reconfiguration_decision-Step e again c costs k s.max_accepted.decree
            s.max_accepted.ballot s r)
        (λ _.
          if-cases (Holds (Step k s)) s.max_accepted.relinquish_primary _ _ (λ _. tt)
            (λ _.
              Keeps-Step k s _ (Room-less k (k + c + 1) (view s) (omega arith) r)
                (add_to_execution_queue-view e s.max_accepted s)))

  count_response-Step :
      (k : ℕ) (id : MemberId) (s : Legislator)
      → Room (k + c + 1) (view s)
      → Holds (Step k s) (Handlers.count_response e again id s)
  unfolding Handlers.count_response
  count_response-Step k id s r =
      Holds-log_assert (Step k s) (eq s.max_ballot s.max_accepted.ballot) _ (λ _.
        if-cases (Holds (Step k s))
          (leb (quorum_size s - 1) (length (Handlers.respond id s.response_map))) _ _
          (λ _.
            vote_passed-Step k
              (record s {
                response_map = Handlers.respond id s.response_map;
                outstanding = none;
                action_timeout = never;
              })
              r)
          (λ _. Step-same k s (Room-less k (k + c + 1) (view s) (omega arith) r)))

  pub handle_vote_accepted-Step :
      (k : ℕ) (m : Message) (s : Legislator)
      → Room (k + c + 1) (view s)
      → Holds (Step k s) (Handlers.handle_vote_accepted e again m s)
  unfolding Handlers.handle_vote_accepted Handlers.record_vote_accepted
  handle_vote_accepted-Step k m s r =
      let less = Room-less k (k + c + 1) (view s) (omega arith) r in
      elim (Bool-cases (am_primary s)) [
        | inl primary ↦ rw primary (
            if-cases (Holds (Step k s))
              (Handlers.outstanding_is_accepted e again s.outstanding s
                && is_same_decree m.decree m.ballot s.max_accepted.decree s.max_ballot)
              (Handlers.count_response e again m.member_id (Handlers.record_vote_accepted e m s))
              (done (Handlers.record_vote_accepted e m s))
              (λ _. count_response-Step k m.member_id (Handlers.record_vote_accepted e m s) r)
              (λ _. Step-same k s less))
        | inr other ↦ rw other (Step-same k s less)
      ]

  -- After the reply to a prepare message, whatever was sent.
  settle-Step :
      (k : ℕ) (m : PrepareMsg) (s : Legislator)
      → Room (k + c) (view s)
      → Holds (Step k s) (
          if ltb s.max_accepted.decree m.decree
          then again s
          else done (Election.start_being_stable_secondary s))
  unfolding Election.start_being_stable_secondary
  settle-Step k m s r =
      if-cases (Holds (Step k s)) (ltb s.max_accepted.decree m.decree) _ _ (λ _. costs k s r)
        (λ _. Step-same k s (Room-less k (k + c) (view s) (omega arith) r))

  promise-Step :
      (k : ℕ) (m : PrepareMsg) (s : Legislator)
      → Room (k + c) (view s)
      → m.ballot.ballot_id + (k + c) < 2 ^ 32
      → Holds (Step k s) (Handlers.promise e again m s)
  unfolding Handlers.promise Send.send_response Election.start_being_stable_secondary
  promise-Step k m s r h =
      Step-bind (k + c) k s (Log.log_prepare e m s) _ (log_prepare-Step e (k + c) m s r h) (λ t st.
        let s₁ =
          Send.send_response m.remote_ip m.remote_port
            (prepare_accepted
              (Send.own_message MsgId.prepare_accepted m.decree (paxos_configuration t) m.ballot 0
                t)
              t.max_accepted)
            t in
        if-cases
          (λ u. Holds (Step k t) (
            if ltb u.max_accepted.decree m.decree
            then again u
            else done (Election.start_being_stable_secondary u)))
          (Handlers.accepts e m.member_id m.primary_cookie) s₁ t (λ _. settle-Step k m s₁ st.1)
          (λ _. settle-Step k m t st.1))

  pub handle_prepare-Step :
      (k : ℕ) (m : PrepareMsg) (s : Legislator)
      → Room (k + c) (view s)
      → m.ballot.ballot_id + (k + c) < 2 ^ 32
      → Holds (Step k s) (Handlers.handle_prepare e again m s)
  unfolding Handlers.handle_prepare Handlers.send_not_accepted Send.send_response
  handle_prepare-Step k m s r h =
      let less = Room-less k (k + c) (view s) (omega arith) r in
      if-cases (Holds (Step k s)) s.relinquish_primary _ _ (λ _. Step-same k s less)
        (λ _.
          if-cases (Holds (Step k s))
            (is_lower_decree m.decree m.ballot s.max_accepted.decree s.max_ballot) _ _
            (λ _.
              if-cases (Holds (Step k s))
                (ltb ((m.decree + 1) % 2 ^ 64) s.max_accepted.decree || lt m.ballot s.max_ballot)
                (done (Handlers.send_not_accepted m.remote_ip m.remote_port s)) (done s)
                (λ _. Step-same k s less) (λ _. Step-same k s less))
            (λ _.
              if-cases (Holds (Step k s)) (is_initializing s) _ _ (λ _. Step-same k s less)
                (λ _. promise-Step k m s r h)))

  pub handle_prepare_accepted-Step :
      (k : ℕ) (m : Message) (v : Vote) (s : Legislator)
      → Room (k + c + 2) (view s)
      → Holds (Step k s) (Handlers.handle_prepare_accepted e again m v s)
  unfolding Handlers.handle_prepare_accepted
  handle_prepare_accepted-Step k m v s r =
      let less = Room-less k (k + c + 2) (view s) (omega arith) r in
      if-cases (Holds (Step k s))
        (is_preparing s && is_same_decree m.decree m.ballot s.max_accepted.decree s.max_ballot) _
        (done s)
        (λ _. Holds-log_assert (Step k s) (id_eq s.max_ballot.member_id s.member_id) _ (λ _.
          Holds-into (Step k s) (Handlers.freshest_decree e again s.old_freshest) _ (λ d.
            Holds-log_assert (Step k s) (d == s.max_accepted.decree) _ (λ _.
              if-cases (Holds (Step k s)) (ltb m.decree v.decree || gt v.ballot m.ballot) (done s) _
                (λ _. Step-same k s less)
                (λ _. Holds-into (Step k s) (Handlers.fresher e again v s.old_freshest) _ (λ old.
                  let s₁ : Legislator = record s {
                    old_freshest = some old;
                    response_map = Handlers.respond m.member_id s.response_map;
                  } in
                  if-cases (Holds (Step k s)) (leb (quorum_size s₁ - 1) (length s₁.response_map)) _
                    (done s₁) (λ _. start_being_stable_primary-Step e again c costs k s₁ r)
                    (λ _. Step-same k s less)))))))
        (λ _. Step-same k s less)

  pub handle_not_accepted-Step :
      (k : ℕ) (m : Message) (s : Legislator)
      → Room (k + c) (view s)
      → m.ballot.ballot_id + k < 2 ^ 32
      → Holds (Step k s) (Handlers.handle_not_accepted e again m s)
  unfolding Handlers.handle_not_accepted Election.start_being_stable_secondary init_message
  handle_not_accepted-Step k m s r h =
      let less = Room-less k (k + c) (view s) (omega arith) r in
      if-cases (Holds (Step k s))
        (is_lower_decree m.decree m.ballot s.max_accepted.decree s.max_accepted.ballot
          || is_initializing s)
        (done s) _ (λ _. Step-same k s less)
        (λ _.
          if-cases (Holds (Step k s)) (ltb s.max_accepted.decree m.decree) _ _ (λ _. costs k s r)
            (λ _.
              if-cases (Holds (Step k s)) (gt m.ballot s.max_ballot) _ (done s)
                (λ _.
                  let p : PrepareMsg = record {
                    header =
                        init_message m.version (msg_code MsgId.prepare) m.member_id m.decree
                          (paxos_configuration s) m.ballot 0;
                    primary_cookie = [];
                  } in
                  Holds-bind (Step k s) (Step k s) (Log.log_prepare e p s) _
                    (log_prepare-Step e k p s less h) (λ t st. st))
                (λ _. Step-same k s less)))
