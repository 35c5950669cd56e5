-- ===== src/Legislator/Log.antt =====
-- src/RSL/src/legislator.cpp: what is written to the log, and the state that follows the log.
-- `again` stands for `StartInitializing`, which `UpdateDefunctInfo` can call.
use rsl.Common.{ℕ, ◌+◌, ◌-◌, ◌%◌, ◌^◌, Bool, false, not, ◌&&◌, ◌||◌, List, [], ◌∷◌}
use rsl.Common.{length, get_elem?, Option, none, some, ltb, leb, ◌==◌, if◌then◌else◌}
use rsl.Common.{Outcome, ◌>>=◌, ◌>>◌, done, log_assert, assert_failed}
use mathlib.Core.List.{reverse}
use rsl.Ballot.{BallotNumber, id_eq, gt, ge, eq}
use rsl.Message.{is_next_decree, is_same_decree}
use rsl.Message.Bodies.{PrepareMsg, prepare_len}
use rsl.Vote.{Vote, marshal_len}
use rsl.LogFile.{LogFile, LogRecord, vote_record, prepare_record, write_message}
use rsl.LogFile.{new_log_file, add_vote, add_message}
use rsl.ExecuteQueue.{enqueue}
use rsl.Legislator.{Legislator, Env, quorum_size, am_primary}
use rsl.Legislator.{paxos_configuration, is_inactive, is_preparing}

-- The last log file, `m_logFiles.back()`, replaced by what `f` makes of it. There always is one:
-- without it the code dereferences no file, or its `LogAssert` fails.
unfoldable pub with_back : (LogFile → Outcome LogFile) → List LogFile → Outcome (List LogFile)
with_back f [] = assert_failed
with_back f (x ∷ xs) = do y ← f x; done (y ∷ xs)

unfoldable pub write_back : LogRecord → Legislator → Outcome Legislator
unfolding with_back write_message
write_back r s = do
  files ← with_back (λ f. done (write_message r f)) s.log_files
  done (record s { log_files = files })

-- `AddMessageToLog` of a vote, and of another message, of a marshaled length.
unfoldable pub add_vote_to_log : ℕ → ℕ → Legislator → Outcome Legislator
unfolding with_back add_vote
add_vote_to_log decree len s = do
  files ← with_back (add_vote decree len) s.log_files
  done (record s { log_files = files })

unfoldable pub add_message_to_log : ℕ → Legislator → Outcome Legislator
unfolding with_back add_message
add_message_to_log len s = do
  files ← with_back (λ f. done (add_message len f)) s.log_files
  done (record s { log_files = files })

module _ (e : Env) where
  unfoldable pub set_max_ballot : BallotNumber → Legislator → Legislator
  set_max_ballot ballot s =
      if gt ballot s.max_ballot
      then (let next_time : ℕ =
            (if id_eq ballot.member_id s.member_id
              then e.now + e.heart_beat_interval
              else e.now + e.new_leader_grace_period) in
          record s {
            max_ballot = ballot;
            next_election_time =
                if ltb s.next_election_time next_time then next_time else s.next_election_time;
          })
      else s

  unfoldable pub add_to_execution_queue : Vote → Legislator → Outcome Legislator
  unfolding am_primary
  add_to_execution_queue v s = do
    q ←
        enqueue e.in_memory_execution_queue_size (reverse s.log_files) v
          (v.has_user_cookie || am_primary s) s.execute_q
    done (record s {
      execute_q = q;
      version = if ltb s.version v.version then v.version else s.version;
    })

  unfoldable pub log_prepare : PrepareMsg → Legislator → Outcome Legislator
  unfolding write_back set_max_ballot add_message_to_log
  log_prepare m s = do
    log_assert (ge m.ballot s.max_ballot)
    if eq m.ballot s.max_ballot then done s else (do
      s₁ ← write_back (prepare_record m.header) s
      add_message_to_log (prepare_len m) (set_max_ballot m.ballot s₁))

  -- Whether `LogVote` switches to a new file.
  unfoldable pub switches_log : Vote → LogFile → Legislator → Bool
  switches_log v log s =
      (ltb s.max_log_len log.data_len
        || leb log.min_decree ((s.checkpointed_decree + 1) % 2 ^ 64)
          && ltb s.next_checkpoint_time e.now)
      && ltb s.max_accepted.decree v.decree

  -- The vote is written to the last file, or to a new one that is not yet in `m_logFiles`.
  unfoldable pub write_vote :
      Vote → List LogFile → Legislator → Outcome (Option LogFile × Legislator)
  unfolding switches_log write_message new_log_file
  write_vote v [] s = assert_failed
  write_vote v (log ∷ logs) s =
      if switches_log v log s
      then done (
        some (write_message (vote_record v) new_log_file),
        record s { max_log_len = e.randomized_log_len },
      )
      else done (none, record s { log_files = write_message (vote_record v) log ∷ logs })

  unfoldable pub push_log : Option LogFile → Legislator → Legislator
  push_log none s = s
  push_log (some log) s = record s { log_files = log ∷ s.log_files }

  -- The file that is put behind the others, given the files before and after `UpdateDefunctInfo`: a
  -- new file, or the file of the vote once more, if it is no longer the last one.
  unfoldable pub file_to_push : Option LogFile → List LogFile → List LogFile → Option LogFile
  file_to_push (some log) before after = some log
  file_to_push none before after =
      if length after == length before then none else get_elem? after (length after - length before)

  -- A switched log asks for a checkpoint up to its start.
  unfoldable pub ask_checkpoint : List LogFile → Legislator → Legislator
  unfolding am_primary quorum_size is_preparing
  ask_checkpoint [] s = s
  ask_checkpoint (log ∷ logs) s =
      if ltb ((s.checkpointed_decree + 1) % 2 ^ 64) log.min_decree
        && not (not (s.save_checkpoint_at == 0) || not (s.copy_checkpoint_at == 0))
        && not (is_preparing s)
      then (if am_primary s && ltb 1 (quorum_size s)
          then record s { copy_checkpoint_at = log.min_decree - 1; cp_timeout = 0 }
          else record s { save_checkpoint_at = log.min_decree - 1; must_checkpoint = false })
      else s

  module _ (again : Legislator → Outcome Legislator) where
    unfoldable pub update_defunct_info : ℕ → Legislator → Outcome Legislator
    unfolding is_inactive
    update_defunct_info n s =
        if leb n s.highest_defunct
        then done s
        else if leb (paxos_configuration s) n && not (is_inactive s)
        then again s
        else done (record s { highest_defunct = n })

    -- The rest of `LogVote`, after the vote is written.
    unfoldable pub finish_vote : Vote → Option LogFile → Legislator → Outcome Legislator
    unfolding update_defunct_info push_log file_to_push set_max_ballot add_vote_to_log
        ask_checkpoint
    finish_vote v log s = do
      s₁ ← update_defunct_info ((v.configuration_number + (2 ^ 32 - 1)) % 2 ^ 32) s
      let s₂ = record (push_log (file_to_push log s.log_files s₁.log_files) s₁) { max_accepted = v }
      s₃ ← add_vote_to_log v.decree (marshal_len v) (set_max_ballot v.ballot s₂)
      done (ask_checkpoint s₃.log_files s₃)

    -- The vote that was accepted last, with a higher ballot or not, is not logged again.
    unfoldable pub log_vote : Vote → Legislator → Outcome Legislator
    unfolding finish_vote write_vote
    log_vote v s =
        if is_same_decree s.max_accepted.decree s.max_accepted.ballot v.decree v.ballot
        then done (record s { max_accepted = v })
        else (do
          log_assert (is_next_decree v.decree v.ballot s.max_accepted.decree s.max_accepted.ballot)
          (log, s₁) ← write_vote v s.log_files s
          finish_vote v log s₁)
