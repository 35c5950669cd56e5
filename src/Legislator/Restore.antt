-- ===== src/Legislator/Restore.antt =====
-- src/RSL/src/legislator.cpp: how `RestoreState` replays a log file after a restart. What the
-- application and the disk do is a parameter.
pub mod Promises
pub mod Order
pub mod Files
pub mod Whole
use rsl.Common.{ℕ, ◌+◌, ◌%◌, ◌^◌, Bool, true, false, not, ◌&&◌, ◌||◌, List, [], ◌∷◌}
use rsl.Common.{Option, none, some, ltb, ◌==◌, if◌then◌else◌}
use rsl.Common.{Outcome, ◌>>=◌, ◌>>◌, done, log_assert}
use rsl.Ballot.{MemberId, BallotNumber, no_ballot, gt, ge, eq}
use rsl.Message.{Message, base_size, is_next_decree}
use rsl.Message.Bodies.{PrimaryCookie, prepare_len}
use rsl.Vote.{Vote, marshal_len, new_vote}
use rsl.LogFile.{LogFile, add_vote, add_message}
use rsl.Legislator.{ConfigurationInfo, Logged, logged_vote, logged_prepare, logged_decision}
use rsl.Legislator.Log.{with_back}
use rsl.Legislator.Learn.{logged_header}

-- The state that is rebuilt, with the votes that the application has executed, the last one first.
pub record Restored : Type 0 where
  pub max_ballot : BallotNumber
  pub max_accepted : Vote
  pub last_executed : ℕ
  pub state_configuration : ConfigurationInfo
  pub paxos_configuration : ConfigurationInfo
  pub log_files : List LogFile
  pub checkpoint_vote : Option Vote
  pub checkpoint_allowed : Bool
  pub executed : List Vote

-- The replica, and what its application and disk answer: whether a request of the vote asks for a
-- checkpoint, and whether `SaveCheckpoint` succeeds.
pub record Host : Type 0 where
  pub version : ℕ
  pub member_id : MemberId
  pub primary_cookie : PrimaryCookie
  pub read_only : Bool
  pub max_decree : ℕ
  pub should_save : Vote → Bool
  pub save_checkpoint : Vote → Bool

-- `AddMessageToLog`.
unfoldable pub index_message : Logged → LogFile → Outcome LogFile
unfolding add_vote add_message marshal_len prepare_len base_size
index_message (logged_vote v) f = add_vote v.decree (marshal_len v) f
index_message (logged_prepare m) f = done (add_message (prepare_len m) f)
index_message (logged_decision m) f = done (add_message (base_size m.version) f)

module _ (h : Host) where
  unfoldable pub apply_vote : Vote → Restored → Restored
  apply_vote v s = record s {
    last_executed = (s.last_executed + 1) % 2 ^ 64;
    state_configuration =
        if v.is_reconfiguration
        then record {
          configuration_number = (s.state_configuration.configuration_number + 1) % 2 ^ 32;
          initial_decree = (v.decree + 1) % 2 ^ 64;
          members = v.members_in_new_configuration;
        }
        else s.state_configuration;
    executed = v ∷ s.executed;
  }

  -- `ExecuteVote`, with `shouldSave`: a vote without requests asks for nothing.
  unfoldable pub execute_vote : Vote → Restored → Outcome (Bool × Restored)
  unfolding apply_vote
  execute_vote v s = do
    log_assert (v.decree == s.last_executed || v.decree == (s.last_executed + 1) % 2 ^ 64)
    if v.decree == (s.last_executed + 1) % 2 ^ 64
        then done (not (v.requests_len == 0) && h.should_save v, apply_vote v s)
        else done (false, s)

  -- A message of a decree that the checkpoint has executed already.
  unfoldable pub is_promised : Logged → BallotNumber → Bool
  is_promised (logged_vote v) b = eq b no_ballot || ge b v.ballot
  is_promised (logged_prepare m) b =
      eq b no_ballot || ge b m.ballot || (b.ballot_id + 1) % 2 ^ 32 == m.ballot.ballot_id
  is_promised (logged_decision m) b = eq b no_ballot || ge b m.ballot

  -- After a vote was executed: the checkpoint that it asks for.
  unfoldable pub save_for : Vote → Bool × Restored → Restored
  save_for v (save, s) =
      if save && not h.read_only
      then record s {
        checkpoint_vote = some v;
        checkpoint_allowed = s.checkpoint_allowed && h.save_checkpoint v;
      }
      else s

  unfoldable pub execute_previous : Vote → Restored → Outcome Restored
  unfolding execute_vote save_for
  execute_previous v s = do
    log_assert (is_next_decree v.decree v.ballot s.max_accepted.decree s.max_accepted.ballot)
    if v.decree == (s.max_accepted.decree + 1) % 2 ^ 64
        then (do r ← execute_vote s.max_accepted s; done (save_for v r))
        else done s

  unfoldable pub accept : Vote → Restored → Restored
  accept v s = record s {
    max_accepted = v;
    max_ballot = if gt v.ballot s.max_ballot then v.ballot else s.max_ballot;
  }

  unfoldable pub replay_vote : Vote → Restored → Outcome Restored
  unfolding execute_previous accept
  replay_vote v s = do
    t ←
        (if not (eq s.max_accepted.ballot no_ballot) || not (s.max_accepted.decree == 0)
          then execute_previous v s
          else done s)
    done (accept v t)

  unfoldable pub promise : BallotNumber → Restored → Restored
  promise b s = if gt b s.max_ballot then record s { max_ballot = b } else s

  -- The state at the start of the configuration that the decision `m` leads to.
  unfoldable pub reconfigured : Message → Restored → Restored
  unfolding new_vote
  reconfigured m s = record s {
    paxos_configuration = s.state_configuration;
    max_accepted =
        new_vote h.version h.member_id ((m.decree + 1) % 2 ^ 64) 0 no_ballot h.primary_cookie;
    max_ballot = record { ballot_id = (s.max_ballot.ballot_id + 1) % 2 ^ 32; member_id = [] };
  }

  unfoldable pub replay_decision : Message → Restored → Outcome Restored
  unfolding execute_vote reconfigured
  replay_decision m s = do
    log_assert (s.max_accepted.decree == m.decree && ge s.max_accepted.ballot m.ballot)
    log_assert s.max_accepted.is_reconfiguration
    log_assert (ltb s.last_executed m.decree)
    (save, t) ← execute_vote s.max_accepted s
    log_assert (not save)
    done (reconfigured m t)

  unfoldable pub replay_new : Logged → Restored → Outcome Restored
  unfolding replay_vote promise replay_decision
  replay_new (logged_vote v) s = replay_vote v s
  replay_new (logged_prepare m) s = done (promise m.ballot s)
  replay_new (logged_decision m) s = replay_decision m s

  unfoldable pub is_accounted : Logged → BallotNumber → Bool
  is_accounted m b = eq b no_ballot || ge b (logged_header m).ballot

  -- A message of the log, by its decree.
  unfoldable pub replay_message : Logged → Restored → Outcome Restored
  unfolding index_message is_accounted is_promised replay_new
  replay_message m s = do
    log_assert (not (eq (logged_header m).ballot no_ballot))
    files ← with_back (index_message m) s.log_files
    let t : Restored = record s { log_files = files }
    if ltb (logged_header m).decree t.last_executed
        then (log_assert (is_accounted m t.max_ballot) >> done t)
        else if (logged_header m).decree == t.last_executed
        then (log_assert (is_promised m t.max_ballot) >> done t)
        else replay_new m t

  -- The loop over the messages of a log file.
  unfoldable pub replay_log : List Logged → Restored → Outcome Restored
  unfolding replay_message
  replay_log [] s = done s
  replay_log (m ∷ ms) s =
      let rest : Restored → Outcome Restored = replay_log ms in
      if ltb s.last_executed h.max_decree then replay_message m s >>= rest else done s
