-- ===== src/Legislator/Ends/Initialize.antt =====
-- src/RSL/src/legislator.cpp: `StartInitializing` comes to an end. Only a last accepted vote that is a
-- reconfiguration makes it start again, and the vote that a new configuration starts from is none.
use rsl.Common.{
  ℕ, suc, ◌+◌, ◌*◌, ◌%◌, ◌^◌, ◌≤◌, ◌<◌, ◌≡◌, refl, arith, Bool, true, false, not, ◌&&◌, ◌||◌, [],
  ◌⊎◌, inl, inr,
}
use rsl.Common.{Option, none, some, ltb, leb, ◌==◌, if◌then◌else◌, if-cases, sym, subst, ◌∙◌}
use rsl.Common.{Outcome, done, Total, Ends, Total-bind, Total-log_assert, Ends-bind, Total-map}
use mathlib.Core.Bool.{true≢false}
use rsl.Ballot.{BallotNumber, id_eq, eq}
use rsl.Message.{Message, MsgId, msg_code, init_message, base_size, next}
use rsl.Message.Bodies.{PrimaryCookie, PrepareMsg}
use rsl.Vote.{Vote, can_init, copy_vote}
use rsl.LogFile.{decision_record}
use rsl.StatusMap.{empty_map}
use rsl.Legislator.{
  Legislator, Env, ConfigurationInfo, paxos_configuration, quorum_size, is_preparing,
}
use rsl.Legislator.{initializing, preparing, stable_primary, plain, prepare}
use rsl.Legislator.Send
use rsl.Legislator.Log
use rsl.Legislator.Election
use rsl.Legislator.Reinitialize
use rsl.Legislator.Ends.{Same, write_back-Total, add_message_to_log-Total}
use rsl.Legislator.Ends.{add_to_execution_queue-Total, log_prepare-Total, log_vote-Total}

-- The replica is bootstrapped, and the number of its configuration can go up `k` times more.
pub record IsBootstrapped (k : ℕ) (s : Legislator) : Type 0 where
  pub bootstrapped : 1 ≤ paxos_configuration s
  pub number : paxos_configuration s + k < 2 ^ 32

-- `again` ends in every state in which a configuration has just been installed.
abbrev EndsAfresh : (Legislator → Outcome Legislator) → Type 0
EndsAfresh again =
    (t : Legislator)
    → 1 ≤ paxos_configuration t
    → paxos_configuration t < 2 ^ 32
    → t.max_accepted.is_reconfiguration ≡ false
    → Ends (again t)

true_not_false : (b : Bool) → b ≡ true → b ≡ false → ⊥
true_not_false b h k = true≢false (sym h ∙ k)

module _ (e : Env) (again : Legislator → Outcome Legislator) (n : ℕ) where
  change_paxos_configuration-Ends :
      (c : ConfigurationInfo) (s : Legislator)
      → EndsAfresh again
      → 1 ≤ c.configuration_number
      → c.configuration_number < 2 ^ 32
      → Ends (Election.change_paxos_configuration e again c s)
  unfolding Election.change_paxos_configuration Election.install_configuration
  change_paxos_configuration-Ends c s fresh h k =
      if-cases (Total (λ _. Unit)) (Election.includes_member s.member_id c.members) _ _
        (λ _. fresh (Election.install_configuration e c s) h k refl) (λ _. tt)

  send_and_log_reconfiguration_decision-Ends :
      (d : ℕ) (b : BallotNumber) (s : Legislator)
      → EndsAfresh again
      → paxos_configuration s + 1 < 2 ^ 32
      → Ends (Election.send_and_log_reconfiguration_decision e again d b s)
  unfolding Election.send_and_log_reconfiguration_decision Election.log_reconfiguration_decision
      Send.send_request_to_all
  send_and_log_reconfiguration_decision-Ends d b s₀ fresh h =
      let m : Message =
        Send.own_message MsgId.reconfiguration_decision d (paxos_configuration s₀) b 0 s₀ in
      let s : Legislator = Send.send_request_to_all e (plain m) s₀ in
      if-cases (Total (λ _. Unit))
        (not (m.decree == s.max_accepted.decree) || not (eq m.ballot s.max_accepted.ballot))
        (done s) _ (λ _. tt)
        (λ _.
          Total-log_assert (λ _. Unit) (m.configuration_number == paxos_configuration s) _
            (λ _.
              Total-log_assert (λ _. Unit) s.max_accepted.is_reconfiguration _
                (λ _.
                  Total-bind (Same s) (λ _. Unit) (Log.write_back (decision_record m) s) _
                    (write_back-Total (decision_record m) s)
                    (λ s₁ _.
                      Total-bind (Same s₁) (λ _. Unit)
                        (Log.add_to_execution_queue e s₁.max_accepted s₁) _
                        (add_to_execution_queue-Total e s₁.max_accepted s₁)
                        (λ s₂ _.
                          Total-bind (Same s₂) (λ _. Unit)
                            (Log.add_message_to_log (base_size m.version) s₂) _
                            (add_message_to_log-Total (base_size m.version) s₂)
                            (λ s₃ _.
                              change_paxos_configuration-Ends
                                (record {
                                  configuration_number = (paxos_configuration s + 1) % 2 ^ 32;
                                  initial_decree = next s.max_accepted.decree;
                                  members = s.max_accepted.members_in_new_configuration;
                                })
                                s₃ fresh (omega arith) (omega arith)))))))

  propose-Ends :
      (v : Vote) (s : Legislator)
      → IsBootstrapped n s
      → v.configuration_number ≡ paxos_configuration s
      → (v.is_reconfiguration ≡ false) ⊎ (EndsAfresh again × (1 ≤ n))
      → Ends (Election.propose e again v s)
  unfolding Election.propose
  propose-Ends v s b c why =
      let k : paxos_configuration s < 2 ^ 32 = omega (arith, b.number) in
      if-cases (Total (λ _. Unit)) (ltb 1 (quorum_size s)) _ _
        (λ _.
          let s₁ : Legislator = record s {
            outstanding = some v;
            action_timeout = e.now + e.hrtime_second;
          } in
          Total-bind (Same s₁) (λ _. Unit) (Log.log_vote e again v s₁) _
            (log_vote-Total e again v s₁ b.bootstrapped k c) (λ _ _. tt))
        (λ _.
          if-cases (Total (λ _. Unit)) v.is_reconfiguration _ _
            (λ yes.
              Total-bind (Same s) (λ _. Unit) (Log.log_vote e again v s) _
                (log_vote-Total e again v s b.bootstrapped k c)
                (λ t st. elim why [
                  | inl plain_vote ↦ elim (true_not_false v.is_reconfiguration yes plain_vote) [ ]
                  | inr (fresh, up) ↦
                      send_and_log_reconfiguration_decision-Ends v.decree v.ballot t fresh
                        (omega (arith, st.number, b.number, up))
                ]))
            (λ _.
              Total-bind (Same s) (λ _. Unit) (Log.log_vote e again v s) _
                (log_vote-Total e again v s b.bootstrapped k c)
                (λ t st.
                  Total-bind (Same t) (λ _. Unit) (Log.add_to_execution_queue e v t) _
                    (add_to_execution_queue-Total e v t) (λ _ _. tt))))

  next_decree-Ends : (s : Legislator) → Ends (Election.next_decree s)
  unfolding Election.next_decree
  next_decree-Ends s = ground arith

  send_next_vote-Ends :
      (v : Vote) (s : Legislator)
      → IsBootstrapped n s
      → (v.is_reconfiguration ≡ false) ⊎ (EndsAfresh again × (1 ≤ n))
      → Ends (Election.send_next_vote e again v s)
  unfolding Election.send_next_vote Election.address_vote
  send_next_vote-Ends v s b why =
      Total-log_assert (λ _. Unit) (id_eq s.max_ballot.member_id s.member_id) _
        (λ _.
          Total-log_assert (λ _. Unit) (Election.is_none s.outstanding) _
            (λ _. Ends-bind (Election.next_decree s) _ (next_decree-Ends s) (λ d.
              if-cases (Total (λ _. Unit)) s.relinquish_primary _ _ (λ _. tt)
                (λ _.
                  propose-Ends (Election.address_vote e.now d v (record s { response_map = [] }))
                    (record s {
                      response_map = [];
                      relinquish_primary = s.relinquish_primary || v.relinquish_primary;
                    })
                    (record { bootstrapped = b.bootstrapped; number = b.number }) refl why))))

  freshest-Total :
      (o : Option Vote) (v : Vote) → o ≡ some v → Total (λ w. w ≡ v) (Election.freshest e again o)
  unfolding Election.freshest
  freshest-Total o v h = rw h refl

  start_being_stable_primary-Ends :
      (s : Legislator) (v : Vote)
      → IsBootstrapped n s
      → s.old_freshest ≡ some v
      → (v.is_reconfiguration ≡ false) ⊎ (EndsAfresh again × (1 ≤ n))
      → Ends (Election.start_being_stable_primary e again s)
  unfolding Election.start_being_stable_primary copy_vote
  start_being_stable_primary-Ends s v b old why =
      Total-log_assert (λ _. Unit) (is_preparing s && id_eq s.max_ballot.member_id s.member_id) _
        (λ _.
          Total-bind (λ w. w ≡ v) (λ _. Unit) (Election.freshest e again s.old_freshest) _
            (freshest-Total s.old_freshest v old)
            (λ w same.
              let s₁ : Legislator = record s {
                is_transitioning = true;
                force_reelection = false;
                state = stable_primary;
                outstanding = none;
                response_map = [];
              } in
              Total-log_assert (λ _. Unit) (can_init s.version w) _
                (λ _.
                  Ends-bind
                    (Election.send_next_vote e again (copy_vote s.version w s.primary_cookie) s₁) _
                    (send_next_vote-Ends (copy_vote s.version w s.primary_cookie) s₁
                      (record { bootstrapped = b.bootstrapped; number = b.number })
                      (subst (λ w. (w.is_reconfiguration ≡ false) ⊎ (EndsAfresh again × (1 ≤ n)))
                        (sym same) why))
                    (λ _. tt))))

  prepare_ballot-Ends : (s : Legislator) → Ends (Election.prepare_ballot e again s)
  unfolding Election.prepare_ballot
  prepare_ballot-Ends s = ground arith

  start_preparing-Ends :
      (s : Legislator)
      → IsBootstrapped n s
      → (s.max_accepted.is_reconfiguration ≡ false) ⊎ (EndsAfresh again × (1 ≤ n))
      → Ends (Election.start_preparing e again s)
  unfolding Election.start_preparing Send.send_request_to_all
  start_preparing-Ends s b why =
      Ends-bind (Election.prepare_ballot e again s) _ (prepare_ballot-Ends s) (λ ballot.
        let m : PrepareMsg = record {
          header =
              init_message s.version (msg_code MsgId.prepare) s.member_id s.max_accepted.decree
                (paxos_configuration s) ballot 0;
          primary_cookie = s.primary_cookie;
        } in
        let s₁ : Legislator = record s {
          state = preparing;
          action_timeout = e.now + e.hrtime_second;
          prepare_timeout = e.now + e.election_delay * 30;
          response_map = [];
          old_freshest = some s.max_accepted;
          last_prepare = some m;
        } in
        let s₂ : Legislator = Send.send_request_to_all e (prepare m) s₁ in
        if-cases (Total (λ _. Unit)) (quorum_size s == 1) _ (Log.log_prepare e m s₂)
          (λ _.
            Total-bind (Same s₁) (λ _. Unit) (Log.log_prepare e m s₁) _ (log_prepare-Total e m s₁)
              (λ t st.
                start_being_stable_primary-Ends t s.max_accepted
                  (record {
                    bootstrapped = omega (arith, st.number, b.bootstrapped);
                    number = omega (arith, st.number, b.number);
                  })
                  st.freshest why))
          (λ _.
            Total-map (Same s₂) (λ _. Unit) (Log.log_prepare e m s₂) (log_prepare-Total e m s₂)
              (λ _ _. tt)))

  prepare_or_wait-Ends :
      (o : Option PrimaryCookie) (s : Legislator)
      → IsBootstrapped n s
      → (s.max_accepted.is_reconfiguration ≡ false) ⊎ (EndsAfresh again × (1 ≤ n))
      → Ends (Reinitialize.prepare_or_wait e again o s)
  unfolding Reinitialize.prepare_or_wait
  prepare_or_wait-Ends none s b why = tt
  prepare_or_wait-Ends (some cookie) s b why =
      start_preparing-Ends (record s { primary_cookie = cookie })
        (record { bootstrapped = b.bootstrapped; number = b.number }) why

  move_to_secondary_or_prepare-Ends :
      (s : Legislator)
      → IsBootstrapped n s
      → (s.max_accepted.is_reconfiguration ≡ false) ⊎ (EndsAfresh again × (1 ≤ n))
      → Ends (Reinitialize.move_to_secondary_or_prepare e again s)
  unfolding Reinitialize.move_to_secondary_or_prepare Reinitialize.call_off_checkpoint
  move_to_secondary_or_prepare-Ends s b why =
      let o : Option PrimaryCookie =
        (if not s.is_saving_checkpoint && Reinitialize.is_execute_queue_ready e s
          then e.can_become_primary
          else none) in
      if-cases (Total (λ _. Unit))
        (leb s.next_election_time e.now
          || id_eq s.max_ballot.member_id s.member_id
          || s.force_reelection)
        _ _
        (λ _.
          if-cases (λ t. Ends (Reinitialize.prepare_or_wait e again o t))
            (not s.is_saving_checkpoint && not s.must_checkpoint)
            (record s { save_checkpoint_at = 0 }) s
            (λ _.
              prepare_or_wait-Ends o (record s { save_checkpoint_at = 0 })
                (record { bootstrapped = b.bootstrapped; number = b.number }) why)
            (λ _. prepare_or_wait-Ends o s b why))
        (λ _. tt)

  start_initializing_step-Ends :
      (s : Legislator)
      → IsBootstrapped n s
      → (s.max_accepted.is_reconfiguration ≡ false) ⊎ (EndsAfresh again × (1 ≤ n))
      → Ends (Reinitialize.start_initializing_step e again s)
  unfolding Reinitialize.start_initializing_step
  start_initializing_step-Ends s b why =
      if-cases (Total (λ _. Unit)) (quorum_size s == 1) _ _
        (λ _.
          move_to_secondary_or_prepare-Ends
            (record s {
              state = initializing;
              response_map = [];
              status_map = empty_map;
              action_timeout = e.now + e.initialize_retry_interval;
              next_election_time = 0;
            })
            (record { bootstrapped = b.bootstrapped; number = b.number }) why)
        (λ _. tt)

-- At a bootstrapped replica whose configuration number does not wrap, `StartInitializing` comes to an
-- end with a depth of two calls, or of any more.
pub start_initializing-Ends :
    (e : Env) (fuel : ℕ) (s : Legislator)
    → IsBootstrapped 1 s
    → Ends (Reinitialize.start_initializing e (suc (suc fuel)) s)
unfolding Reinitialize.start_initializing
start_initializing-Ends e fuel s b =
    start_initializing_step-Ends e (Reinitialize.start_initializing e (suc fuel)) 1 s b (
      inr (
        λ t h k plain_vote.
            start_initializing_step-Ends e (Reinitialize.start_initializing e fuel) 0 t
              (record { bootstrapped = h; number = omega arith }) (inl plain_vote),
        omega arith,
      ))
