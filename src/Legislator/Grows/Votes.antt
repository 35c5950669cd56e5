-- ===== src/Legislator/Grows/Votes.antt =====
-- src/RSL/src/legislator.cpp: checking a message, and accepting votes, lower no counter.
use rsl.Common.{
  ℕ, ◌+◌, ◌^◌, ◌<◌, ◌≤◌, ◌≡◌, ◌∙◌, ap, refl, sym, subst, arith, not, ◌&&◌, ◌||◌, List, [], ◌∷◌,
  true, false, Bool,
}
use rsl.Common.{leb, ltb, ◌==◌, ==→eq, length, All, Bool-cases, inl, inr}
use rsl.Common.{
  Outcome, done, Holds, Holds-map, Holds-bind, Holds-log_assert, if-cases, if◌then◌else◌,
}
use rsl.Ballot.{BallotNumber, id_eq, eq, gt, no_ballot}
use rsl.Ballot.Le.{Le-refl, Upto-refl}
use rsl.Message.{Message, is_lower_decree, is_next_decree, next}
use rsl.Vote.{Vote}
use rsl.Legislator.{Legislator, Env, am_primary, is_inactive, paxos_configuration}
use rsl.Legislator.Send
use rsl.Legislator.Log
use rsl.Legislator.Election
use rsl.Legislator.Handlers
use rsl.Legislator.Votes
use rsl.Legislator.Votes.{Progress, go_on, stop}
use rsl.Legislator.Grows.{Room, Room-less, Step, Costs, Grows, Grows-trans, view}
use rsl.Legislator.Grows.Log.{Step-same, Keeps, add_to_execution_queue-view, log_vote-Step}

see_ballot-Step :
    (k : ℕ) (b : BallotNumber) (s : Legislator)
    → Room k (view s)
    → b.ballot_id + k < 2 ^ 32
    → Step k s (Handlers.see_ballot b s)
unfolding Handlers.see_ballot
see_ballot-Step k b s r h =
    if-cases (Step k s) (gt b s.max_seen_ballot) (record s { max_seen_ballot = b }) s
      (λ _. (
        record {
          member = refl;
          promised = Le-refl s.max_ballot;
          accepted = Upto-refl s.max_accepted.decree s.max_accepted.ballot;
          configuration = omega arith;
          defunct = omega arith;
        },
        record {
          ballot_id = r.ballot_id;
          seen_id = h;
          decree = r.decree;
          number = r.number;
          bootstrapped = r.bootstrapped;
          below = r.below;
        },
      ))
      (λ _. Step-same k s r)

pub send_defunct_configuration_message-view :
    (ip port : ℕ) (as_client : Bool) (s : Legislator)
    → view (Send.send_defunct_configuration_message ip port as_client s) ≡ view s
unfolding Send.send_defunct_configuration_message Send.send_message_to_ip_port
send_defunct_configuration_message-view ip port as_client s = ground arith

send_join_request_message-view :
    (n ip port : ℕ) (as_client : Bool) (s : Legislator)
    → view (Send.send_join_request_message n ip port as_client s) ≡ view s
unfolding Send.send_join_request_message Send.send_message_to_ip_port
send_join_request_message-view n ip port as_client s = ground arith

-- The check leaves the counters but for the ballot that was seen, and lets through a message for the
-- configuration in force only.
pub verify_message-Step :
    (k : ℕ) (m : Message) (s : Legislator)
    → Room k (view s)
    → m.ballot.ballot_id + k < 2 ^ 32
    → Step k s (Handlers.verify_message m s).1
unfolding Handlers.verify_message Handlers.mark_healthy
verify_message-Step k m s r h =
    let P : Bool × Legislator → Type 0 = λ p. Step k s p.1 in
    let keeps : (t : Legislator) → view t ≡ view s → Step k s t =
      λ t same. subst (λ w. Grows (view s) w × Room k w) (sym same) (Step-same k s r) in
    elim (Bool-cases (leb m.configuration_number s.highest_defunct)) [
      | inl old ↦ rw old (
          keeps (Send.send_defunct_configuration_message m.remote_ip m.remote_port m.as_client s)
            (send_defunct_configuration_message-view m.remote_ip m.remote_port m.as_client s))
      | inr a ↦ elim (Bool-cases (ltb m.configuration_number (paxos_configuration s))) [
        | inl below ↦ rw (a, below) (Step-same k s r)
        | inr b ↦ elim (Bool-cases (ltb (paxos_configuration s) m.configuration_number)) [
          | inl above ↦
              rw (a, b, above)
                (keeps
                  (Send.send_join_request_message m.configuration_number m.remote_ip m.remote_port
                    m.as_client s)
                  (send_join_request_message-view m.configuration_number m.remote_ip m.remote_port
                    m.as_client s))
          | inr c ↦ elim (Bool-cases (is_inactive s)) [
            | inl inactive ↦ rw (a, b, c, inactive) (Step-same k s r)
            | inr d ↦
                rw (a, b, c, d)
                  (if-cases P
                    (id_eq m.member_id s.member_id
                      || not (
                          Handlers.is_some
                            (Handlers.get_replica m.member_id m.remote_ip s.replicas)))
                    (false, Handlers.mark_healthy m s)
                    (true, Handlers.see_ballot m.ballot (Handlers.mark_healthy m s))
                    (λ _. Step-same k s r)
                    (λ _. see_ballot-Step k m.ballot (Handlers.mark_healthy m s) r h))
          ]
        ]
      ]
    ]

-- The state that a vote leaves.
abbrev pub state_of : Progress → Legislator
state_of (go_on accepted s) = s
state_of (stop s) = s

reply-view :
    (e : Env) (again : Legislator → Outcome Legislator) (v : Vote) (s : Legislator)
    → view (state_of (Votes.reply e again v s)) ≡ view s
unfolding Votes.reply Send.send_response
reply-view e again v s = ground arith

discard_vote-view :
    (e : Env) (again : Legislator → Outcome Legislator) (v : Vote) (s : Legislator)
    → view (Votes.discard_vote e again v s) ≡ view s
unfolding Votes.discard_vote Handlers.send_not_accepted Send.send_response
discard_vote-view e again v s = ground arith

pass_previous-view :
    (e : Env) (again : Legislator → Outcome Legislator) (v : Vote) (s : Legislator)
    → Keeps s (Votes.pass_previous e again v s)
unfolding Votes.pass_previous
pass_previous-view e again v s =
    Holds-log_assert (λ t. view t ≡ view s) (not (eq v.ballot no_ballot)) _
      (λ _.
        Holds-bind (λ t. view t ≡ view s) (λ t. view t ≡ view s)
          (Log.add_to_execution_queue e s.max_accepted s) _
          (add_to_execution_queue-view e s.max_accepted s) (λ t same. same))

module _ (e : Env) (again : Legislator → Outcome Legislator) (c : ℕ) (costs : Costs c again) where
  -- The number of the configuration is asserted, as is the place of the vote.
  pub log_and_accept_vote-Step :
      (k : ℕ) (v : Vote) (s : Legislator)
      → Room (k + 1) (view s)
      → v.ballot.ballot_id + k < 2 ^ 32
      → Holds (Step k s) (Votes.log_and_accept_vote e again v s)
  unfolding Votes.log_and_accept_vote
  log_and_accept_vote-Step k v s r h =
      Holds-log_assert (Step k s)
        (is_next_decree v.decree v.ballot s.max_accepted.decree s.max_accepted.ballot) _
        (λ _.
          Holds-log_assert (Step k s) (v.configuration_number == paxos_configuration s) _ (λ number.
            Holds-bind (λ t. view t ≡ view s) (Step k s)
              (if v.decree == next s.max_accepted.decree
                then Votes.pass_previous e again v s
                else done s)
              (Log.log_vote e again v)
              (if-cases (Holds (λ t. view t ≡ view s)) (v.decree == next s.max_accepted.decree)
                (Votes.pass_previous e again v s) (done s) (λ _. pass_previous-view e again v s)
                (λ _. refl))
              (λ t same.
                Holds-map (Step k t) (Step k s) (Log.log_vote e again v t)
                  (log_vote-Step e again k v t (subst (Room (k + 1)) (sym same) r) h (
                    ==→eq v.configuration_number (paxos_configuration s) number
                    ∙ sym (ap (λ w. w.configuration) same)))
                  (λ u st. subst (λ w. Grows w (view u) × Room k (view u)) same st))))

  accept_vote-Step :
      (k : ℕ) (v : Vote) (rest : List Vote) (s : Legislator)
      → Room (k + 1) (view s)
      → v.ballot.ballot_id + k < 2 ^ 32
      → Holds (λ p. Step k s (state_of p)) (Votes.accept_vote e again v rest s)
  unfolding Votes.accept_vote Votes.check_notify_status Election.start_being_stable_secondary
  accept_vote-Step k v rest s r h =
      Holds-bind (Step k s) (λ p. Step k s (state_of p)) _ _
        (if-cases (λ t. Holds (Step k s) (Votes.log_and_accept_vote e again v t))
          (am_primary s && gt v.ballot s.max_ballot) _ s
          (λ _.
            log_and_accept_vote-Step k v
              (Votes.check_notify_status false (Election.start_being_stable_secondary s)) r h)
          (λ _. log_and_accept_vote-Step k v s r h))
        (λ t st.
          if-cases (λ p. Step k s (state_of p)) (Votes.is_last_of_sender v rest)
            (Votes.reply e again v t) (go_on true t)
            (λ _. subst (λ w. Grows (view s) w × Room k w) (sym (reply-view e again v t)) st)
            (λ _. st))

  -- With a vote left to look at, there is room for an initialization.
  abbrev Goes : ℕ → Legislator → Progress → Type 0
  Goes k s (go_on accepted t) = Step (k + c) s t
  Goes k s (stop t) = Step k s t

  Goes-accepted : (k : ℕ) (s : Legislator) (p : Progress) → Step (k + c) s (state_of p) → Goes k s p
  Goes-accepted k s (go_on accepted t) st = st
  Goes-accepted k s (stop t) st = (st.0, Room-less k (k + c) (view t) (omega arith) st.1)

  Goes-after :
      (k : ℕ) (s t : Legislator) (p : Progress) → Grows (view s) (view t) → Goes k t p → Goes k s p
  Goes-after k s t (go_on accepted u) g st = (Grows-trans g st.0, st.1)
  Goes-after k s t (stop u) g st = (Grows-trans g st.0, st.1)

  handle_verified_vote-Goes :
      (k : ℕ) (v : Vote) (rest : List Vote) (s : Legislator)
      → Room (k + c + 1) (view s)
      → v.ballot.ballot_id + (k + c + 1) < 2 ^ 32
      → Holds (Goes k s) (Votes.handle_verified_vote e again v rest s)
  unfolding Votes.handle_verified_vote
  handle_verified_vote-Goes k v rest s r h =
      let less : Room (k + c) (view s) = Room-less (k + c) (k + c + 1) (view s) (omega arith) r in
      if-cases (Holds (Goes k s))
        (is_lower_decree v.decree v.ballot s.max_accepted.decree s.max_accepted.ballot)
        (done (go_on false (Votes.discard_vote e again v s))) _
        (λ _.
          subst (λ w. Grows (view s) w × Room (k + c) w) (sym (discard_vote-view e again v s))
            (Step-same (k + c) s less))
        (λ _.
          if-cases (Holds (Goes k s))
            (is_next_decree v.decree v.ballot s.max_accepted.decree s.max_accepted.ballot)
            (Votes.accept_vote e again v rest s) _
            (λ _.
              Holds-map (λ p. Step (k + c) s (state_of p)) (Goes k s)
                (Votes.accept_vote e again v rest s)
                (accept_vote-Step (k + c) v rest s r (omega arith))
                (λ p st. Goes-accepted k s p st))
            (λ _.
              Holds-bind (Step k s) (Goes k s) (again s) (λ t. done (stop t)) (costs k s less)
                (λ t st. st)))

  handle_vote-Goes :
      (k : ℕ) (v : Vote) (rest : List Vote) (s : Legislator)
      → Room (k + c + 1) (view s)
      → v.ballot.ballot_id + (k + c + 1) < 2 ^ 32
      → Holds (Goes k s) (Votes.handle_vote e again v rest s)
  unfolding Votes.handle_vote
  handle_vote-Goes k v rest s r h =
      let t = (Handlers.verify_message v.header s).1 in
      let st = verify_message-Step (k + c + 1) v.header s r h in
      if-cases (Holds (Goes k s)) (Handlers.verify_message v.header s).0
        (Votes.handle_verified_vote e again v rest t) (done (go_on false t))
        (λ _.
          Holds-map (Goes k t) (Goes k s) (Votes.handle_verified_vote e again v rest t)
            (handle_verified_vote-Goes k v rest t st.1 h) (λ p g. Goes-after k s t p st.0 g))
        (λ _. (st.0, Room-less (k + c) (k + c + 1) (view t) (omega arith) st.1))

  abbrev next_votes : List Vote → Bool → Progress → Outcome Legislator
  next_votes vs accepted (go_on now t) = Votes.handle_votes e again vs (accepted || now) t
  next_votes vs accepted (stop t) = done t

  -- Every vote of the batch, in its order.
  pub handle_votes-Step :
      (k b : ℕ) (vs : List Vote) (accepted : Bool) (s : Legislator)
      → Room (k + c + length vs) (view s)
      → k + c + length vs ≤ b
      → All (λ v. v.ballot.ballot_id + b < 2 ^ 32) vs
      → Holds (Step k s) (Votes.handle_votes e again vs accepted s)
  unfolding Votes.handle_votes Election.start_being_stable_secondary
  handle_votes-Step k b [] accepted s r l h =
      if-cases (Step k s) accepted (Election.start_being_stable_secondary s) s
        (λ _. Step-same k s (Room-less k (k + c + 0) (view s) (omega arith) r))
        (λ _. Step-same k s (Room-less k (k + c + 0) (view s) (omega arith) r))
  handle_votes-Step k b (v ∷ vs) accepted s r l h =
      let j : ℕ = k + length vs in
      Holds-bind (Goes j s) (Step k s) (Votes.handle_vote e again v vs s) (next_votes vs accepted)
        (handle_vote-Goes j v vs s
          (Room-less (j + c + 1) (k + c + length (v ∷ vs)) (view s) (omega arith) r)
          (omega (arith, h.0)))
        (λ p. elim p as (λ p. Goes j s p → Holds (Step k s) (next_votes vs accepted p)) [
          | go_on now t ↦ λ st.
              Holds-map (Step k t) (Step k s) (Votes.handle_votes e again vs (accepted || now) t)
                (handle_votes-Step k b vs (accepted || now) t
                  (Room-less (k + c + length vs) (j + c) (view t) (omega arith) st.1) (omega arith)
                  h.1)
                (λ u su. (Grows-trans st.0 su.0, su.1))
          | stop t ↦ λ st. (st.0, Room-less k j (view t) (omega arith) st.1)
        ])
