-- ===== src/Legislator/Grows/Initialize.antt =====
-- src/RSL/src/legislator.cpp: initializing lowers no counter, and raises each at most three times for
-- each unit of fuel.
use rsl.Common.{
  ℕ, zero, suc, ◌+◌, ◌*◌, arith, ◌≡◌, sym, subst, not, ◌&&◌, ◌||◌, [], Option, none, some, leb,
  ◌==◌,
}
use rsl.Common.{Outcome, Holds, Holds-map, if-cases, if◌then◌else◌}
use rsl.Ballot.{id_eq}
use rsl.Message.Bodies.{PrimaryCookie}
use rsl.StatusMap.{empty_map}
use rsl.Legislator.{Legislator, Env, initializing, quorum_size}
use rsl.Legislator.Send
use rsl.Legislator.Election
use rsl.Legislator.Reinitialize
use rsl.Legislator.Grows.{Room, Room-less, Step, Costs, Grows, view}
use rsl.Legislator.Grows.Log.{Step-same}
use rsl.Legislator.Grows.Election.{start_preparing-Step}

module _ (e : Env) (again : Legislator → Outcome Legislator) (c : ℕ) (costs : Costs c again) where
  prepare_or_wait-Step :
      (k : ℕ) (o : Option PrimaryCookie) (s : Legislator)
      → Room (k + c + 3) (view s)
      → Holds (Step k s) (Reinitialize.prepare_or_wait e again o s)
  unfolding Reinitialize.prepare_or_wait Election.start_being_stable_secondary
  prepare_or_wait-Step k none s r = Step-same k s (Room-less k (k + c + 3) (view s) (omega arith) r)
  prepare_or_wait-Step k (some cookie) s r =
      start_preparing-Step e again c costs k (record s { primary_cookie = cookie }) r

  call_off_checkpoint-view : (s : Legislator) → view (Reinitialize.call_off_checkpoint e s) ≡ view s
  unfolding Reinitialize.call_off_checkpoint
  call_off_checkpoint-view s = ground arith

  pub move_to_secondary_or_prepare-Step :
      (k : ℕ) (s : Legislator)
      → Room (k + c + 3) (view s)
      → Holds (Step k s) (Reinitialize.move_to_secondary_or_prepare e again s)
  unfolding Reinitialize.move_to_secondary_or_prepare Election.start_being_stable_secondary
  move_to_secondary_or_prepare-Step k s r =
      if-cases (Holds (Step k s))
        (leb s.next_election_time e.now
          || id_eq s.max_ballot.member_id s.member_id
          || s.force_reelection)
        _ _
        (λ _.
          let t = Reinitialize.call_off_checkpoint e s in
          let o : Option PrimaryCookie =
            (if not s.is_saving_checkpoint && Reinitialize.is_execute_queue_ready e s
              then e.can_become_primary
              else none) in
          Holds-map (Step k t) (Step k s) (Reinitialize.prepare_or_wait e again o t)
            (prepare_or_wait-Step k o t
              (subst (Room (k + c + 3)) (sym (call_off_checkpoint-view s)) r))
            (λ u st.
              subst (λ w. Grows w (view u) × Room k (view u)) (call_off_checkpoint-view s) st))
        (λ _. Step-same k s (Room-less k (k + c + 3) (view s) (omega arith) r))

  start_initializing_step-Step :
      (k : ℕ) (s : Legislator)
      → Room (k + c + 3) (view s)
      → Holds (Step k s) (Reinitialize.start_initializing_step e again s)
  unfolding Reinitialize.start_initializing_step Send.send_request_to_all
  start_initializing_step-Step k s r =
      if-cases (Holds (Step k s)) (quorum_size s == 1) _ _
        (λ _.
          move_to_secondary_or_prepare-Step k
            (record s {
              state = initializing;
              response_map = [];
              status_map = empty_map;
              action_timeout = e.now + e.initialize_retry_interval;
              next_election_time = 0;
            })
            r)
        (λ _. Step-same k s (Room-less k (k + c + 3) (view s) (omega arith) r))

-- Each round of initialization raises each counter at most three times.
pub start_initializing-Costs :
    (e : Env) (fuel : ℕ) → Costs (3 * fuel) (Reinitialize.start_initializing e fuel)
unfolding Reinitialize.start_initializing
start_initializing-Costs e zero k s r = tt
start_initializing-Costs e (suc fuel) k s r =
    start_initializing_step-Step e (Reinitialize.start_initializing e fuel) (3 * fuel)
      (start_initializing-Costs e fuel) k s
      (Room-less (k + 3 * fuel + 3) (k + 3 * suc fuel) (view s) (omega arith) r)
