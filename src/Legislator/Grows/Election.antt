-- ===== src/Legislator/Grows/Election.antt =====
-- src/RSL/src/legislator.cpp: preparing, proposing and changing the configuration lower no counter.
-- `again` stands for `StartInitializing`, which raises each counter at most `c` times.
use rsl.Common.{
  ℕ, ◌+◌, ◌%◌, ◌^◌, ◌<◌, ◌≡◌, refl, ap, ◌∙◌, subst, sym, arith, true, false, not, ◌||◌, ◌&&◌,
}
use rsl.Common.{
  Outcome, done, Holds, Holds-map, Holds-bind, Holds-log_assert, Holds-into, ◌>>=◌, if-cases,
}
use rsl.Common.{inl, [], none, some, ltb, ◌==◌}
use rsl.Ballot.{BallotNumber, no_ballot, id_eq, eq}
use rsl.Ballot.Le.{Le_of_id}
use rsl.Message.{Message, MsgId, next, base_size}
use rsl.Vote.{Vote, can_init, copy_vote}
use rsl.LogFile.{decision_record}
use rsl.StatusMap.{empty_map}
use rsl.Legislator.{
  Legislator, Env, ConfigurationInfo, paxos_configuration, quorum_size, is_inactive, paxos_inactive,
  never, is_preparing, plain, stable_primary,
}
use rsl.Legislator.Log
use rsl.Legislator.Election
use rsl.Legislator.Send
use rsl.Legislator.Grows.{Room, Room-less, Grows, Grows-trans, Step, Step-bind, Costs, view}
use rsl.Legislator.Grows.Log.{Step-same, Keeps, write_back-view, add_message_to_log-view}
use rsl.Legislator.Grows.Log.{add_to_execution_queue-view, log_prepare-Step, log_vote-Step}

-- The next configuration, from the decree behind the last accepted one.
install_configuration-Step :
    (e : Env) (k : ℕ) (c : ConfigurationInfo) (s : Legislator)
    → Room (k + 1) (view s)
    → c.configuration_number ≡ paxos_configuration s + 1
    → c.initial_decree ≡ s.max_accepted.decree + 1
    → Step k s (Election.install_configuration e c s)
unfolding Election.install_configuration rsl.Vote.new_vote rsl.Message.init_message
install_configuration-Step e k c s r hn hd = (
  record {
    member = refl;
    promised = Le_of_id s.max_ballot _ (omega (arith, r.ballot_id));
    accepted = inl (omega (arith, hd));
    configuration = omega (arith, hn);
    defunct = omega arith;
  },
  record {
    ballot_id = omega (arith, r.ballot_id);
    seen_id = omega (arith, r.seen_id);
    decree = omega (arith, hd, r.decree);
    number = omega (arith, hn, r.number);
    bootstrapped = omega (arith, hn);
    below =
        Le_of_id no_ballot
          (record { ballot_id = (s.max_ballot.ballot_id + 1) % 2 ^ 32; member_id = [] })
          (omega (arith, r.ballot_id));
  },
)

switch_to_paxos_inactive_state-Step :
    (k : ℕ) (s : Legislator)
    → Room k (view s)
    → Step k s (Election.switch_to_paxos_inactive_state s)
unfolding Election.switch_to_paxos_inactive_state
switch_to_paxos_inactive_state-Step k s r =
    if-cases (Step k s) (is_inactive s) s
      (record s {
        state = paxos_inactive;
        status_map = empty_map;
        response_map = [];
        next_election_time = never;
        action_timeout = never;
      })
      (λ _. Step-same k s r) (λ _. Step-same k s r)

-- A routine that keeps the view, before others.
Keeps-bind :
    (s t : Legislator) (m : Outcome Legislator) (f : Legislator → Outcome Legislator) (k : ℕ)
    → view t ≡ view s
    → Keeps t m
    → ((u : Legislator) → view u ≡ view s → Holds (Step k s) (f u))
    → Holds (Step k s) (m >>= f)
Keeps-bind s t m f k same h rest =
    Holds-bind (λ u. view u ≡ view t) (Step k s) m f h (λ u k. rest u (k ∙ same))

module _ (e : Env) (again : Legislator → Outcome Legislator) (c : ℕ) (costs : Costs c again) where
  change_paxos_configuration-Step :
      (k : ℕ) (conf : ConfigurationInfo) (s : Legislator)
      → Room (k + c + 1) (view s)
      → conf.configuration_number ≡ paxos_configuration s + 1
      → conf.initial_decree ≡ s.max_accepted.decree + 1
      → Holds (Step k s) (Election.change_paxos_configuration e again conf s)
  unfolding Election.change_paxos_configuration Election.switch_to_paxos_inactive_state
  change_paxos_configuration-Step k conf s r hn hd =
      let st = install_configuration-Step e (k + c) conf s r hn hd in
      if-cases (Holds (Step k s)) (Election.includes_member s.member_id conf.members) _ _
        (λ _.
          Holds-map (Step k (Election.install_configuration e conf s)) (Step k s) _
            (costs k (Election.install_configuration e conf s) st.1)
            (λ u su. (Grows-trans st.0 su.0, su.1)))
        (λ _.
          let su = switch_to_paxos_inactive_state-Step k (Election.install_configuration e conf s) (
            Room-less k (k + c) (view (Election.install_configuration e conf s)) (omega arith)
              st.1) in
          (Grows-trans st.0 su.0, su.1))

  -- The configuration that the last accepted vote asks for.
  abbrev configuration_of : Legislator → ConfigurationInfo
  configuration_of s = record {
    configuration_number = (paxos_configuration s + 1) % 2 ^ 32;
    initial_decree = next s.max_accepted.decree;
    members = s.max_accepted.members_in_new_configuration;
  }

  reconfigure-Step :
      (k : ℕ) (s t : Legislator)
      → Room (k + c + 1) (view s)
      → view t ≡ view s
      → Holds (Step k s) (Election.change_paxos_configuration e again (configuration_of s) t)
  reconfigure-Step k s t r same =
      Holds-map (Step k t) (Step k s)
        (Election.change_paxos_configuration e again (configuration_of s) t)
        (change_paxos_configuration-Step k (configuration_of s) t
          (subst (Room (k + c + 1)) (sym same) r)
          (omega (arith, ap (λ w. w.configuration) same, r.number))
          (omega (arith, ap (λ w. w.decree) same, r.decree)))
        (λ u st. subst (λ w. Grows w (view u) × Room k (view u)) same st)

  pub log_reconfiguration_decision-Step :
      (k : ℕ) (d : Message) (s : Legislator)
      → Room (k + c + 1) (view s)
      → Holds (Step k s) (Election.log_reconfiguration_decision e again d s)
  unfolding Election.log_reconfiguration_decision
  log_reconfiguration_decision-Step k d s r =
      let r₀ : Room k (view s) = Room-less k (k + c + 1) (view s) (omega arith) r in
      if-cases (Holds (Step k s))
        (not (d.decree == s.max_accepted.decree) || not (eq d.ballot s.max_accepted.ballot))
        (done s) _ (λ _. Step-same k s r₀)
        (λ _. Holds-log_assert (Step k s) (d.configuration_number == paxos_configuration s) _ (λ _.
          Holds-log_assert (Step k s) s.max_accepted.is_reconfiguration _ (λ _.
            Keeps-bind s s (Log.write_back (decision_record d) s) _ k refl
              (write_back-view e (decision_record d) s)
              (λ s₁ same₁.
                Keeps-bind s s₁ (Log.add_to_execution_queue e s₁.max_accepted s₁) _ k same₁
                  (add_to_execution_queue-view e s₁.max_accepted s₁)
                  (λ s₂ same₂.
                    Keeps-bind s s₂ (Log.add_message_to_log (base_size d.version) s₂) _ k same₂
                      (add_message_to_log-view e (base_size d.version) s₂)
                      (λ s₃ same₃. reconfigure-Step k s s₃ r same₃))))))

  pub send_and_log_reconfiguration_decision-Step :
      (k d : ℕ) (b : BallotNumber) (s : Legislator)
      → Room (k + c + 1) (view s)
      → Holds (Step k s) (Election.send_and_log_reconfiguration_decision e again d b s)
  unfolding Election.send_and_log_reconfiguration_decision Send.send_request_to_all
  send_and_log_reconfiguration_decision-Step k d b s r =
      log_reconfiguration_decision-Step k
        (Send.own_message MsgId.reconfiguration_decision d (paxos_configuration s) b 0 s)
        (Send.send_request_to_all e
          (plain (Send.own_message MsgId.reconfiguration_decision d (paxos_configuration s) b 0 s))
          s)
        r

  propose-Step :
      (k : ℕ) (v : Vote) (s : Legislator)
      → Room (k + c + 2) (view s)
      → v.ballot.ballot_id + (k + c + 1) < 2 ^ 32
      → v.configuration_number ≡ paxos_configuration s
      → Holds (Step k s) (Election.propose e again v s)
  unfolding Election.propose Send.send_request_to_all
  propose-Step k v s r hb hc =
      let j : ℕ = k + c + 1 in
      let less : (t : Legislator) → Room j (view t) → Room k (view t) =
        λ t q. Room-less k j (view t) (omega arith) q in
      let r₁ : Room (j + 1) (view s) = Room-less (j + 1) (k + c + 2) (view s) (omega arith) r in
      if-cases (Holds (Step k s)) (ltb 1 (quorum_size s)) _ _
        (λ _.
          Holds-bind (Step j s) (Step k s) _ _
            (log_vote-Step e again j v
              (record s { outstanding = some v; action_timeout = e.now + e.hrtime_second }) r₁ hb
              hc)
            (λ t st. (st.0, less t st.1)))
        (λ _.
          if-cases (Holds (Step k s)) v.is_reconfiguration _ _
            (λ _.
              Step-bind j k s (Log.log_vote e again v s) _ (log_vote-Step e again j v s r₁ hb hc)
                (λ t st. send_and_log_reconfiguration_decision-Step k v.decree v.ballot t st.1))
            (λ _.
              Step-bind j k s (Log.log_vote e again v s) _ (log_vote-Step e again j v s r₁ hb hc)
                (λ t st.
                  Keeps-bind t t (Log.add_to_execution_queue e v t) _ k refl
                    (add_to_execution_queue-view e v t)
                    (λ u same.
                      subst (λ w. Grows (view t) w × Room k w) (sym same)
                        (Step-same k t (less t st.1))))))

  pub send_next_vote-Step :
      (k : ℕ) (v : Vote) (s : Legislator)
      → Room (k + c + 2) (view s)
      → Holds (Step k s) (Election.send_next_vote e again v s)
  unfolding Election.send_next_vote Election.address_vote
  send_next_vote-Step k v s r =
      Holds-log_assert (Step k s) (id_eq s.max_ballot.member_id s.member_id) _ (λ _.
        Holds-log_assert (Step k s) (Election.is_none s.outstanding) _ (λ _.
          Holds-into (Step k s) (Election.next_decree s) _ (λ d.
            if-cases (Holds (Step k s)) s.relinquish_primary _ _
              (λ _. Step-same k s (Room-less k (k + c + 2) (view s) (omega arith) r))
              (λ _.
                propose-Step k (Election.address_vote e.now d v (record s { response_map = [] }))
                  (record s {
                    response_map = [];
                    relinquish_primary = s.relinquish_primary || v.relinquish_primary;
                  })
                  r (omega (arith, r.ballot_id)) refl))))

  pub start_being_stable_primary-Step :
      (k : ℕ) (s : Legislator)
      → Room (k + c + 2) (view s)
      → Holds (Step k s) (Election.start_being_stable_primary e again s)
  unfolding Election.start_being_stable_primary
  start_being_stable_primary-Step k s r =
      Holds-log_assert (Step k s) (is_preparing s && id_eq s.max_ballot.member_id s.member_id) _
        (λ _. Holds-into (Step k s) (Election.freshest e again s.old_freshest) _ (λ old.
          Holds-log_assert (Step k s) (can_init s.version old) _ (λ _.
            Holds-bind (Step k s) (Step k s) _ _
              (send_next_vote-Step k (copy_vote s.version old s.primary_cookie)
                (record s {
                  is_transitioning = true;
                  force_reelection = false;
                  state = stable_primary;
                  outstanding = none;
                  response_map = [];
                })
                r)
              (λ t st. st))))

  prepare_ballot_id :
      (k : ℕ) (s : Legislator)
      → Room (k + 1) (view s)
      → Holds (λ b. b.ballot_id + k < 2 ^ 32) (Election.prepare_ballot e again s)
  unfolding Election.prepare_ballot Election.raise_above
  prepare_ballot_id k s r = ground (arith, r.ballot_id, r.seen_id)

  pub start_preparing-Step :
      (k : ℕ) (s : Legislator)
      → Room (k + c + 3) (view s)
      → Holds (Step k s) (Election.start_preparing e again s)
  unfolding Election.start_preparing Send.send_request_to_all rsl.Message.init_message
  start_preparing-Step k s r =
      let j : ℕ = k + c + 2 in
      let r₁ : Room j (view s) = Room-less j (k + c + 3) (view s) (omega arith) r in
      Holds-bind (λ b. b.ballot_id + j < 2 ^ 32) (Step k s) (Election.prepare_ballot e again s) _
        (prepare_ballot_id j s (Room-less (j + 1) (k + c + 3) (view s) (omega arith) r))
        (λ b hb.
          if-cases (Holds (Step k s)) (quorum_size s == 1) _ _
            (λ _.
              Step-bind j k s _ _ (log_prepare-Step e j _ _ r₁ hb)
                (λ t st. start_being_stable_primary-Step k t st.1))
            (λ _.
              Holds-map (Step j s) (Step k s) _ (log_prepare-Step e j _ _ r₁ hb)
                (λ t st. (st.0, Room-less k j (view t) (omega arith) st.1))))
