-- ===== src/Legislator/Reinitialize.antt =====
-- src/RSL/src/legislator.cpp: `StartInitializing` and `MoveToSecondaryOrPrepare`. A replica that is
-- alone in its configuration goes all the way to the primary in one call, and that can change the
-- configuration and initialize once more: the recursion is on fuel.
use rsl.Common.{ℕ, zero, suc, ◌+◌, Bool, true, false, not, ◌&&◌, ◌||◌, [], ◌∷◌, Option, none, some}
use rsl.Common.{leb, ◌==◌, if◌then◌else◌, Outcome, done, stuck}
use rsl.Ballot.{id_eq}
use rsl.Message.{MsgId}
use rsl.Message.Bodies.{PrimaryCookie}
use rsl.ExecuteQueue.{is_in_memory}
use rsl.StatusMap.{empty_map}
use rsl.Legislator.{Legislator, Env, initializing, plain, paxos_configuration, quorum_size}
use rsl.Legislator.Send.{send_request_to_all, own_message}
use rsl.Legislator.Election.{start_being_stable_secondary, start_preparing}

unfoldable pub is_any_request_pending_execution : Legislator → Bool
is_any_request_pending_execution s = elim s.execute_q.to_execute [ [] ↦ false | _ ∷ _ ↦ true ]

module _ (e : Env) where
  unfoldable pub is_execute_queue_ready : Legislator → Bool
  unfolding is_any_request_pending_execution is_in_memory
  is_execute_queue_ready s =
      is_in_memory s.execute_q
      && (e.allow_primary_promotion_while_catching_up || not (is_any_request_pending_execution s))

  -- Whether a checkpoint that is being saved keeps the replica from preparing. If not, a save that
  -- need not happen is called off.
  unfoldable pub call_off_checkpoint : Legislator → Legislator
  call_off_checkpoint s =
      if not s.is_saving_checkpoint && not s.must_checkpoint
      then record s { save_checkpoint_at = 0 }
      else s

  module _ (again : Legislator → Outcome Legislator) where
    unfoldable pub prepare_or_wait : Option PrimaryCookie → Legislator → Outcome Legislator
    unfolding start_preparing start_being_stable_secondary
    prepare_or_wait none s = done (
        start_being_stable_secondary
          (record s { next_election_time = e.now + e.heart_beat_interval }))
    prepare_or_wait (some cookie) s = start_preparing e again (record s { primary_cookie = cookie })

    unfoldable pub move_to_secondary_or_prepare : Legislator → Outcome Legislator
    unfolding prepare_or_wait call_off_checkpoint is_execute_queue_ready
    move_to_secondary_or_prepare s =
        if leb s.next_election_time e.now
          || id_eq s.max_ballot.member_id s.member_id
          || s.force_reelection
        then prepare_or_wait
            (if not s.is_saving_checkpoint && is_execute_queue_ready s
              then e.can_become_primary
              else none)
            (call_off_checkpoint s)
        else done (start_being_stable_secondary s)

    unfoldable pub start_initializing_step : Legislator → Outcome Legislator
    unfolding move_to_secondary_or_prepare send_request_to_all own_message
    start_initializing_step s =
        let s₁ : Legislator = record s {
          state = initializing;
          response_map = [];
          status_map = empty_map;
          action_timeout = e.now + e.initialize_retry_interval;
        } in
        if quorum_size s == 1
        then move_to_secondary_or_prepare (record s₁ { next_election_time = 0 })
        else done (
            send_request_to_all e
              (plain (
                own_message MsgId.status_query s.max_accepted.decree (paxos_configuration s)
                  s.max_accepted.ballot 0 s))
              s₁)

  unfoldable pub start_initializing : ℕ → Legislator → Outcome Legislator
  unfolding start_initializing_step
  start_initializing zero s = stuck
  start_initializing (suc fuel) s = start_initializing_step (start_initializing fuel) s
