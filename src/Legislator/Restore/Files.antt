-- ===== src/Legislator/Restore/Files.antt =====
-- src/RSL/src/legislator.cpp: the log files that `RestoreState` replays, and the state that it
-- leaves for the engine. A new log file is taken to be opened and written without failure, and so is
-- the search for the end of the last one. When the next checkpoint is taken is left out.
use rsl.Common.{ℕ, ◌+◌, ◌-◌, ◌%◌, ◌^◌, Bool, not, ◌||◌, List, [], ◌∷◌}
use rsl.Common.{Option, none, some, ltb, leb, ◌==◌, if◌then◌else◌}
use rsl.Common.{Outcome, ◌>>=◌, ◌>>◌, done, log_assert}
use rsl.Ballot.{no_ballot, eq}
use rsl.Vote.{Vote, marshal_len}
use rsl.LogFile.{LogFile, new_log_file, write_message, vote_record, add_vote}
use rsl.Legislator.{Logged}
use rsl.Legislator.Restore.{Restored, Host, replay_log}

-- A log file on the disk: the decree in its name, whether it can be opened, its messages, and
-- whether the reader finds the end of the log behind them or fails.
pub record LogContents : Type 0 where
  pub starts_at : ℕ
  pub opens : Bool
  pub messages : List Logged
  pub is_readable : Bool

unfoldable pub prefer : List LogContents → List LogContents → List LogContents
prefer [] ys = ys
prefer (x ∷ xs) ys = x ∷ xs

-- The files from the last one on that starts no later than the decree after the checkpoint.
unfoldable pub from_checkpoint : ℕ → List LogContents → List LogContents
unfolding prefer
from_checkpoint decree [] = []
from_checkpoint decree (f ∷ fs) =
    prefer (from_checkpoint decree fs)
      (if leb f.starts_at ((decree + 1) % 2 ^ 64) then f ∷ fs else [])

-- What follows where nothing has failed, and `return false` otherwise.
abbrev pub unless_failed :
    (Restored → Outcome (Option Restored)) → Option Restored → Outcome (Option Restored)
unless_failed f none = done none
unless_failed f (some t) = f t

module _ (h : Host) where
  -- Whether the replay of a file has succeeded: it does not read on after the last decree.
  unfoldable pub is_read : LogContents → Restored → Bool
  is_read f s = f.is_readable || not (ltb s.last_executed h.max_decree)

  unfoldable pub replay_file : LogContents → Restored → Outcome (Option Restored)
  unfolding replay_log new_log_file is_read
  replay_file f s =
      if f.opens
      then (do
        t ← replay_log h f.messages (record s { log_files = new_log_file ∷ s.log_files })
        done (if is_read f t then some t else none))
      else done none

  unfoldable pub replay_files : List LogContents → Restored → Outcome (Option Restored)
  unfolding replay_file
  replay_files [] s = done (some s)
  replay_files (f ∷ fs) s =
      let rest : Restored → Outcome (Option Restored) = replay_files fs in
      if ltb s.last_executed h.max_decree
      then (do r ← replay_file f s; unless_failed rest r)
      else done (some s)

  -- A new log that begins with the vote of the checkpoint. Without a ballot the vote stands for the
  -- start of a configuration and is not written.
  unfoldable pub log_of : Vote → Outcome LogFile
  unfolding new_log_file write_message add_vote marshal_len
  log_of v =
      if h.read_only || eq v.ballot no_ballot
      then done new_log_file
      else add_vote v.decree (marshal_len v) (write_message (vote_record v) new_log_file)

  -- The vote of the checkpoint, where it is ahead of every log.
  unfoldable pub resume_from : Option Vote → Restored → Outcome Restored
  unfolding log_of
  resume_from none s = done s
  resume_from (some v) s =
      if ltb s.max_accepted.decree v.decree
      then (do f ← log_of v; done (record s { log_files = f ∷ []; max_accepted = v }))
      else done s

  unfoldable pub resume : Restored → Outcome (Option Restored)
  unfolding resume_from
  resume t = do
    u ← resume_from t.checkpoint_vote t
    log_assert
        (u.last_executed == 0 || u.last_executed == (u.max_accepted.decree + (2 ^ 64 - 1)) % 2 ^ 64)
    done (some u)

  -- `RestoreState` from the checkpoint that `s` was read from.
  unfoldable pub restore : ℕ → List LogContents → Restored → Outcome (Option Restored)
  unfolding from_checkpoint replay_files resume
  restore decree files s = do
    r ← replay_files (from_checkpoint decree files) s
    unless_failed resume r
