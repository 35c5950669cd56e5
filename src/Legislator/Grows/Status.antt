-- ===== src/Legislator/Grows/Status.antt =====
-- src/RSL/src/legislator.cpp: the messages about status and joining lower no counter.
use rsl.Common.{ℕ, ◌+◌, ◌-◌, ◌%◌, ◌^◌, ◌≤◌, ◌≡◌, refl, sym, subst, arith, not, ◌&&◌, ◌||◌}
use rsl.Common.{List, [], ◌∷◌, Bool, true, Option, none, some, leb, ltb, ◌==◌}
use rsl.Common.{Outcome, done, shut_down, Holds, Holds-bind, Holds-into, if-cases}
use rsl.Ballot.{ge, eq}
use rsl.Message.{Message, next}
use rsl.Message.Bodies.{JoinMessage, StatusResponse}
use rsl.StatusMap.{insert}
use rsl.Legislator.{
  Legislator, Env, am_primary, is_initializing, quorum_size, paxos_configuration, never,
}
use rsl.Legislator.Send
use rsl.Legislator.Votes
use rsl.Legislator.Learn
use rsl.Legislator.Status
use rsl.Legislator.Reinitialize.{move_to_secondary_or_prepare}
use rsl.Legislator.Grows.{Grows, Room, Room-less, Step, Costs, view}
use rsl.Legislator.Grows.Log.{Step-same, Step-from, Keeps}
use rsl.Legislator.Grows.Initialize.{move_to_secondary_or_prepare-Step}
use rsl.Legislator.Grows.Learn.{LearnsWithin, learn_votes-Step, learn_votes_and_transition-Step}
use rsl.Legislator.Grows.Votes.{send_defunct_configuration_message-view}

send_join-view :
    (e : Env) (ip port : ℕ) (as_client : Bool) (o : Option ℕ) (s : Legislator)
    → Keeps s (Status.send_join e ip port as_client o s)
unfolding Status.send_join Send.send_message_to_ip_port Send.send_request_to_all
send_join-view e ip port as_client none s = tt
send_join-view e ip port as_client (some d) s = ground arith

send_join_message-view :
    (e : Env) (ip port : ℕ) (as_client : Bool) (s : Legislator)
    → Keeps s (Status.send_join_message e ip port as_client s)
unfolding Status.send_join_message
send_join_message-view e ip port as_client s =
    send_join-view e ip port as_client (Status.min_decree_of_log s.log_files) s

pub handle_join_request-view :
    (e : Env) (m : Message) (s : Legislator) → Keeps s (Status.handle_join_request e m s)
unfolding Status.handle_join_request
handle_join_request-view e m s =
    if-cases (Keeps s) (m.configuration_number == paxos_configuration s) _ (done s)
      (λ _. send_join_message-view e m.remote_ip m.remote_port m.as_client s) (λ _. refl)

pub send_join_messages_if_necessary-view :
    (e : Env) (s : Legislator) → Keeps s (Status.send_join_messages_if_necessary e s)
unfolding Status.send_join_messages_if_necessary
send_join_messages_if_necessary-view e s =
    if-cases (Keeps s) (leb (paxos_configuration s) ((s.highest_defunct + 1) % 2 ^ 32)) (done s) _
      (λ _. refl)
      (λ _.
        if-cases (Keeps s) (ltb (e.now - s.last_time_join_messages_sent) e.join_messages_interval)
          (done s) _ (λ _. refl)
          (λ _.
            Holds-bind (λ t. view t ≡ view s) (λ t. view t ≡ view s)
              (Status.send_join_message e 0 0 true s)
              (λ t. done (record t { last_time_join_messages_sent = e.now }))
              (send_join_message-view e 0 0 true s) (λ t same. same)))

pub send_status_request_message-view :
    (e : Env) (s : Legislator) → view (Status.send_status_request_message e s) ≡ view s
unfolding Status.send_status_request_message Send.send_request_to_all
send_status_request_message-view e s = ground arith

pub handle_status_query-view :
    (e : Env) (m : Message) (s : Legislator) → view (Status.handle_status_query e m s) ≡ view s
unfolding Status.handle_status_query Send.send_response
handle_status_query-view e m s = ground arith

module _ (e : Env) (again : Legislator → Outcome Legislator) (c : ℕ) (costs : Costs c again) where
  start_copy-view :
      (m : StatusResponse) (s : Legislator) → view (Status.start_copy e again m s) ≡ view s
  unfolding Status.start_copy
  start_copy-view m s = refl

  copy_or_retry-Step :
      (k : ℕ) (o : Option StatusResponse) (s : Legislator)
      → Room (k + c) (view s)
      → Holds (Step k s) (Status.copy_or_retry e again o s)
  unfolding Status.copy_or_retry
  copy_or_retry-Step k none s r = Step-same k s (Room-less k (k + c) (view s) (omega arith) r)
  copy_or_retry-Step k (some m) s r =
      Holds-into (Step k s) (Learn.copy_checkpoint (e.copied m.member_id)) _
        (λ ok. if-cases (Holds (Step k s)) ok shut_down (again s) (λ _. tt) (λ _. costs k s r))

  schedule_election-view : (s : Legislator) → view (Status.schedule_election e again s) ≡ view s
  unfolding Status.schedule_election
  schedule_election-view s = ground arith

  elect-Step :
      (k : ℕ) (s : Legislator)
      → Room (k + c + 3) (view s)
      → Holds (Step k s) (Status.elect e again s)
  unfolding Status.elect
  elect-Step k s r =
      let t = Status.schedule_election e again s in
      let same = schedule_election-view s in
      Step-from k s t (move_to_secondary_or_prepare e again t) same (
        move_to_secondary_or_prepare-Step e again c costs k t
          (subst (Room (k + c + 3)) (sym same) r))

  copy_or_elect-Step :
      (k : ℕ) (q : List StatusResponse) (s : Legislator)
      → Room (k + c + 3) (view s)
      → Holds (Step k s) (Status.copy_or_elect e again q s)
  unfolding Status.copy_or_elect
  copy_or_elect-Step k [] s r = elect-Step k s r
  copy_or_elect-Step k (_ ∷ _) s r =
      copy_or_retry-Step k _ s (Room-less (k + c) (k + c + 3) (view s) (omega arith) r)

  learn_or-Step :
      (k n b : ℕ) (otherwise : Legislator → Outcome Legislator) (o : Option StatusResponse)
      (s : Legislator)
      → LearnsWithin c n b e
      → Room (k + c + n) (view s)
      → k + c + n ≤ b
      → Holds (Step k s) (otherwise s)
      → Holds (Step k s) (Status.learn_or e again otherwise o s)
  unfolding Status.learn_or
  learn_or-Step k n b otherwise none s w r l h = h
  learn_or-Step k n b otherwise (some m) s w r l h =
      learn_votes_and_transition-Step e again c costs k n b m.member_id s w r l

  choose-Step :
      (k n b : ℕ) (s : Legislator)
      → LearnsWithin c n b e
      → Room (k + c + n + 3) (view s)
      → k + c + n ≤ b
      → Holds (Step k s) (Status.choose e again s)
  unfolding Status.choose Status.choose_other
  choose-Step k n b s w r l =
      let less : Room (k + c + n) (view s) =
        Room-less (k + c + n) (k + c + n + 3) (view s) (omega arith) r in
      learn_or-Step k n b (Status.choose_other e again) _ s w less l (
        learn_or-Step k n b
          (λ t. Status.copy_or_elect e again (Status.ahead e again never t.max_accepted.decree t) t)
          _ s w less l
          (copy_or_elect-Step k (Status.ahead e again never s.max_accepted.decree s) s
            (Room-less (k + c + 3) (k + c + n + 3) (view s) (omega arith) r)))

  count_status-Step :
      (k n b : ℕ) (m : StatusResponse) (s : Legislator)
      → LearnsWithin c n b e
      → Room (k + c + n + 3) (view s)
      → k + c + n ≤ b
      → Holds (Step k s) (Status.count_status e again m s)
  unfolding Status.count_status
  count_status-Step k n b m s w r l =
      let s₁ : Legislator = record s { status_map = insert m s.status_map } in
      if-cases (Holds (Step k s)) (leb (quorum_size s - 1) s₁.status_map.num_responses)
        (Status.choose e again s₁) (done s₁) (λ _. choose-Step k n b s₁ w r l)
        (λ _. Step-same k s (Room-less k (k + c + n + 3) (view s) (omega arith) r))

  pub handle_status_response-Step :
      (k n b : ℕ) (m : StatusResponse) (s : Legislator)
      → LearnsWithin c n b e
      → Room (k + c + n + 3) (view s)
      → k + c + n ≤ b
      → Holds (Step k s) (Status.handle_status_response e again m s)
  unfolding Status.handle_status_response
  handle_status_response-Step k n b m s w r l =
      let t = Status.start_copy e again m s in
      let same = start_copy-view m s in
      let q : Room (k + c + n + 3) (view t) = subst (Room (k + c + n + 3)) (sym same) r in
      let P : Outcome Legislator → Type 0 = Holds (Step k t) in
      let stays : Step k t t =
        Step-same k t (Room-less k (k + c + n + 3) (view t) (omega arith) q) in
      Step-from k s t (Status.handle_status_response e again m s) same (
        if-cases P (am_primary s) (done t) _ (λ _. stays)
          (λ _.
            if-cases P
              (not (m.query_decree == s.max_accepted.decree)
                || not (eq m.query_ballot s.max_accepted.ballot))
              (done t) _ (λ _. stays)
              (λ _.
                if-cases P (not (is_initializing s)) _ (Status.count_status e again m t)
                  (λ _.
                    if-cases P
                      (m.decree == next s.max_accepted.decree
                        && ge m.ballot s.max_accepted.ballot
                        && Votes.no_votes s.vote_cache)
                      (Learn.learn_votes_and_transition e again m.member_id t) (done t)
                      (λ _.
                        learn_votes_and_transition-Step e again c costs k n b m.member_id t w
                          (Room-less (k + c + n) (k + c + n + 3) (view t) (omega arith) q) l)
                      (λ _. stays))
                  (λ _. count_status-Step k n b m t w q l))))

  pub handle_join-Step :
      (k n b : ℕ) (m : JoinMessage) (s : Legislator)
      → LearnsWithin c n b e
      → Room (k + n) (view s)
      → k + n ≤ b
      → Holds (Step k s) (Status.handle_join e again m s)
  unfolding Status.handle_join
  handle_join-Step k n b m s w r l =
      let less = Room-less k (k + n) (view s) (omega arith) r in
      let same = Step-same k s less in
      let P = Holds (Step k s) in
      if-cases P (leb m.configuration_number (paxos_configuration s)) _ _
        (λ _.
          if-cases (Step k s) (leb m.configuration_number ((s.highest_defunct + 1) % 2 ^ 32))
            (Send.send_defunct_configuration_message m.remote_ip m.remote_port m.as_client s) s
            (λ _.
              subst (λ w. Grows (view s) w × Room k w)
                (sym
                  (send_defunct_configuration_message-view m.remote_ip m.remote_port m.as_client s))
                same)
            (λ _. same))
        (λ _.
          if-cases P
            (leb m.min_decree_in_log s.max_accepted.decree && ltb 0 (paxos_configuration s)) _ _
            (λ _.
              Holds-bind (λ p. Step k s p.1) (Step k s) (Learn.learn_votes e again m.member_id s)
                (λ p. done p.1) (learn_votes-Step e again c costs k n b m.member_id s w r l)
                (λ p st. st))
            (λ _.
              if-cases P (leb s.max_accepted.decree m.checkpointed_decree) _ (done s)
                (λ _.
                  Holds-into (Step k s) (Learn.copy_checkpoint (e.copied m.member_id)) _
                    (λ ok. if-cases P ok shut_down (done s) (λ _. tt) (λ _. same)))
                (λ _. same)))
