-- ===== src/Legislator/Cleanup.antt =====
-- src/RSL/src/legislator.cpp: what becomes of the files when a checkpoint is done, `CheckpointDone`
-- and `CleanupLogsAndCheckpoint`. Whether a file can be moved or deleted is a parameter, and so is
-- what the configuration says. The files of each kind stand in the order of their numbers, as
-- `GetFileNumbers` sorts them.
pub mod Restorable
use rsl.Common.{ℕ, ◌+◌, ◌%◌, ◌^◌, Bool, true, false, not, ◌&&◌, ◌||◌, List, [], ◌∷◌, length}
use rsl.Common.{ltb, leb, ◌==◌, if◌then◌else◌}
use rsl.Common.{Outcome, ◌>>=◌, ◌>>◌, done, log_assert, assert_failed}
use mathlib.Core.List.{reverse}
use rsl.LogFile.{LogFile}
use rsl.Legislator.{Legislator, never}
use rsl.Legislator.Restore.Files.{LogContents}

pub record Disk : Type 0 where
  pub checkpoints : List ℕ
  pub logs : List LogContents

-- `MaxCheckpoints`, `MaxLogs`, the next interval that `Randomize` draws, the clock, and which files
-- the system moves and deletes.
pub record Janitor : Type 0 where
  pub max_checkpoints : ℕ
  pub max_logs : ℕ
  pub interval : ℕ
  pub now : ℕ
  pub moves : Bool
  pub deletes_checkpoint : ℕ → Bool
  pub deletes_log : ℕ → Bool

-- The file of the checkpoint, where there is none yet.
unfoldable pub add_number : ℕ → List ℕ → List ℕ
add_number n [] = n ∷ []
add_number n (c ∷ cs) =
    let rest = add_number n cs in
    if ltb n c then n ∷ c ∷ cs else (if n == c then c ∷ cs else c ∷ rest)

-- The first file goes as long as the second one starts no later than the decree after `decree`.
-- Log files stand oldest first here.
unfoldable pub drop_logs : ℕ → List LogFile → List LogFile
drop_logs decree [] = []
drop_logs decree (f ∷ []) = f ∷ []
drop_logs decree (f ∷ g ∷ fs) =
    let rest = drop_logs decree (g ∷ fs) in
    if leb g.min_decree ((decree + 1) % 2 ^ 64) then rest else f ∷ g ∷ fs

module _ (j : Janitor) where
  unfoldable pub delete_checkpoints : List ℕ → List ℕ
  delete_checkpoints [] = []
  delete_checkpoints (c ∷ cs) =
      let rest = delete_checkpoints cs in
      if ltb j.max_checkpoints (length (c ∷ cs))
      then (if j.deletes_checkpoint c then rest else c ∷ rest)
      else c ∷ cs

  -- With the number of the oldest checkpoint. The loop looks at the second of the logs that remain:
  -- there is one, since more than `max_logs` of them remain.
  unfoldable pub delete_logs : ℕ → List LogContents → List LogContents
  delete_logs oldest [] = []
  delete_logs oldest (f ∷ []) = f ∷ []
  delete_logs oldest (f ∷ g ∷ fs) =
      let rest = delete_logs oldest (g ∷ fs) in
      if ltb j.max_logs (length (f ∷ g ∷ fs)) && leb g.starts_at ((oldest + 1) % 2 ^ 64)
      then (if j.deletes_log f.starts_at then rest else f ∷ rest)
      else f ∷ g ∷ fs

  -- Without a checkpoint the loop's condition reads behind the end of the list of checkpoints,
  -- unless there are few logs.
  unfoldable pub delete_old : List ℕ → List LogContents → Outcome Disk
  unfolding delete_checkpoints delete_logs
  delete_old [] logs =
      if ltb j.max_logs (length logs)
      then assert_failed
      else done (record { checkpoints = []; logs = logs })
  delete_old (c ∷ cs) logs =
      done (record { checkpoints = delete_checkpoints (c ∷ cs); logs = delete_logs c logs })

  -- `CleanupLogsAndCheckpoint`. The engine's log files stand newest first.
  unfoldable pub cleanup : ℕ → Legislator → Disk → Outcome (Legislator × Disk)
  unfolding drop_logs delete_old
  cleanup last_executed s d = do
    log_assert (ltb 0 j.max_checkpoints && ltb 0 j.max_logs)
    let min_decree =
        (if ltb last_executed s.checkpointed_decree then last_executed else s.checkpointed_decree)
    d' ← delete_old d.checkpoints d.logs
    done (record s { log_files = reverse (drop_logs min_decree (reverse s.log_files)) }, d')

  -- The engine's own record of the newest checkpoint, and when the next one is due.
  unfoldable pub note_checkpoint : ℕ → ℕ → Legislator → Legislator
  note_checkpoint decree size s =
      if ltb s.checkpointed_decree decree
      then record s {
        checkpoint_size = size;
        checkpointed_decree = decree;
        next_checkpoint_time =
            if s.next_checkpoint_time == never then never else j.now + j.interval;
      }
      else s

  -- A move that fails is reported and nothing else.
  unfoldable pub moved : ℕ → Disk → Disk
  unfolding add_number
  moved decree d = if j.moves then record d { checkpoints = add_number decree d.checkpoints } else d

  -- `CheckpointDone`.
  unfoldable pub checkpoint_done : ℕ → ℕ → ℕ → Legislator → Disk → Outcome (Legislator × Disk)
  unfolding cleanup note_checkpoint moved
  checkpoint_done last_executed decree size s d =
      cleanup last_executed (note_checkpoint decree size s) (moved decree d)
