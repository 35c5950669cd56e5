-- ===== src/Legislator/Execute.antt =====
-- src/RSL/src/legislator.cpp: the thread that executes the votes that have passed, `ExecuteLoop`,
-- one turn of the loop at a time. Other threads' steps come between the turns. While a checkpoint is
-- saved the flag `m_isSavingCheckpoint` is up, which ends within the turn.
pub mod Progress
use rsl.Common.{
  ℕ, zero, suc, ◌+◌, ◌%◌, ◌^◌, Bool, true, false, not, ◌&&◌, ◌||◌, List, [], ◌∷◌, ◌++◌,
}
use rsl.Common.{Option, none, some, leb, ◌==◌, if◌then◌else◌}
use rsl.Common.{Outcome, ◌>>=◌, done}
use mathlib.Core.List.{reverse}
use rsl.Vote.{Vote}
use rsl.ExecuteQueue.{ExecuteQueue, dequeue}
use rsl.Legislator.Restore.{Restored, Host, execute_vote}

-- What the application is told: `NotifyPrimaryRecovered`, or `StateCopied` of a decree.
pub data Notice : Type 0 where
  primary_recovered : Notice
  state_copied : ℕ → Notice

-- `app` is the part of the engine that `ExecuteVote` changes. `callback_after` is the decree of
-- `m_callbackAfterVote`, and `copied` that of `m_checkpointSavedNotification`.
pub record Executor : Type 0 where
  pub app : Restored
  pub queue : ExecuteQueue
  pub save_checkpoint_at : ℕ
  pub must_checkpoint : Bool
  pub callback_after : Option ℕ
  pub copied : Option ℕ
  pub is_primary : Bool
  pub is_transitioning : Bool
  pub notices : List Notice

unfoldable pub call_recovered : Option ℕ → Executor → Executor
call_recovered none x = x
call_recovered (some d) x =
    if leb d x.app.last_executed
    then record x {
      callback_after = none;
      notices = if x.is_primary then x.notices ++ (primary_recovered ∷ []) else x.notices;
    }
    else x

unfoldable pub call_copied : Option ℕ → Executor → Executor
call_copied none x = x
call_copied (some d) x = record x { copied = none; notices = x.notices ++ (state_copied d ∷ []) }

-- The vote that a checkpoint ends with: the next one to be executed, or the last accepted one.
unfoldable pub vote_for_checkpoint : List Vote → Restored → Vote
vote_for_checkpoint [] s = s.max_accepted
vote_for_checkpoint (v ∷ vs) s = v

unfoldable pub rest_of : ExecuteQueue → Option (Vote × ExecuteQueue) → ExecuteQueue
rest_of q none = q
rest_of q (some (v, rest)) = rest

-- Where the vote asks for it, a checkpoint is due from here on.
unfoldable pub request_checkpoint : Bool → Executor → Executor
request_checkpoint save x =
    if save
    then record x { save_checkpoint_at = x.app.last_executed; must_checkpoint = true }
    else x

module _ (h : Host) (max_size : ℕ) where
  unfoldable pub save_with : Vote → Executor → Executor
  save_with v x =
      if h.save_checkpoint v
      then record x { save_checkpoint_at = 0 }
      else record x { app = record x.app { checkpoint_allowed = false } }

  -- Whether a checkpoint is to be saved now, and whether it waits for the next vote.
  unfoldable pub is_due : Executor → Bool
  is_due x =
      not (x.save_checkpoint_at == 0)
      && x.app.checkpoint_allowed
      && leb x.save_checkpoint_at x.app.last_executed

  unfoldable pub is_next_vote : Executor → Bool
  unfolding vote_for_checkpoint
  is_next_vote x =
      (vote_for_checkpoint x.queue.to_execute x.app).decree == (x.app.last_executed + 1) % 2 ^ 64

  unfoldable pub checkpoint : Executor → Executor
  unfolding save_with is_due is_next_vote vote_for_checkpoint
  checkpoint x =
      if is_due x && is_next_vote x
      then save_with (vote_for_checkpoint x.queue.to_execute x.app) x
      else x

  unfoldable pub is_waiting : Executor → Bool
  unfolding is_due is_next_vote
  is_waiting x = is_due x && not (is_next_vote x)

  -- After the vote was executed the queue lets go of it.
  unfoldable pub take_out : Executor → Bool × Restored → Outcome Executor
  unfolding dequeue rest_of request_checkpoint
  take_out x (save, s) = do
    taken ← dequeue max_size (reverse s.log_files) x.queue
    done (request_checkpoint save (record x { app = s; queue = rest_of x.queue taken }))

  unfoldable pub execute_head : List Vote → Executor → Outcome Executor
  unfolding execute_vote take_out
  execute_head [] x = done x
  execute_head (v ∷ vs) x = do r ← execute_vote h v x.app; take_out x r

  -- One turn of the loop.
  unfoldable pub turn : Executor → Outcome Executor
  unfolding call_recovered call_copied checkpoint is_waiting execute_head
  turn x =
      let y = call_recovered x.callback_after x in
      let z = call_copied y.copied y in
      if is_waiting z || z.is_transitioning
      then done (checkpoint z)
      else execute_head z.queue.to_execute (checkpoint z)

  unfoldable pub turns : ℕ → Executor → Outcome Executor
  unfolding turn
  turns zero x = done x
  turns (suc n) x = turn x >>= turns n
