-- ===== src/Tests/Restoring.antt =====
-- A replay of a log of two votes and a prepare.
use rsl.Common.{
  ℕ, List, [], ◌∷◌, ◌≡◌, ◌-◌, ◌^◌, refl, true, false, arith, none, Holds, some, Returns,
}
use rsl.Ballot.{no_ballot, gt, eq}
use rsl.Message.{init_message, is_next_decree}
use rsl.Vote.{new_vote}
use rsl.LogFile.{new_log_file}
use rsl.Legislator.{ConfigurationInfo, Logged, logged_vote}
use rsl.Legislator.Log.{with_back}
use rsl.Legislator.Restore.{Restored, Host, replay_log}
use rsl.Legislator.Restore.Order.{IsRun, HasRun}
use rsl.Legislator.Restore.Files.{LogContents, from_checkpoint, restore}
use rsl.Legislator.Restore.Whole.{Restores, Recovers, count, restore-Recovers, restore-HasRun}
use rsl.Legislator.Execute.{Executor, turns}
use rsl.Legislator.Execute.Progress.{Executes, turns-Executes}
use rsl.Legislator.Cleanup.{Disk, Janitor, moved, checkpoint_done}
use rsl.Legislator.Cleanup.Restorable.{Keeps, checkpoint_done-Keeps}
use rsl.Tests.Data.{secondary, id_1, ballot_1, vote_at}

abbrev nobody_yet : ConfigurationInfo
nobody_yet = record { configuration_number = 1; initial_decree = 0; members = [] }

abbrev fresh : Restored
unfolding new_vote new_log_file
fresh = record {
  max_ballot = no_ballot;
  max_accepted = new_vote 6 id_1 0 1 no_ballot ((vote_at 1).primary_cookie);
  last_executed = 0;
  state_configuration = nobody_yet;
  paxos_configuration = nobody_yet;
  log_files = new_log_file ∷ [];
  checkpoint_vote = none;
  checkpoint_allowed = true;
  executed = [];
}

abbrev host : Host
host = record {
  version = 6;
  member_id = id_1;
  primary_cookie = (vote_at 1).primary_cookie;
  read_only = false;
  max_decree = 2 ^ 64 - 1;
  should_save = λ v. false;
  save_checkpoint = λ v. true;
}

abbrev two_votes : List Logged
two_votes = logged_vote (vote_at 1) ∷ logged_vote (vote_at 2) ∷ []

abbrev one_file : List LogContents
one_file = record { starts_at = 1; opens = true; messages = two_votes; is_readable = true } ∷ []

from_first : from_checkpoint 0 one_file ≡ one_file
unfolding from_checkpoint
from_first = refl

restore-Recovers_example :
    Holds
      (Restores (Recovers host (from_checkpoint 0 one_file) fresh))
      (restore host 0 one_file fresh)
unfolding fresh from_checkpoint count
restore-Recovers_example =
    restore-Recovers host 5 0 one_file fresh
      (((omega arith, omega arith), ((omega arith, omega arith), tt)), tt) (omega arith)
      (omega arith)

restore-HasRun_example : Holds (Restores (HasRun 0)) (restore host 0 one_file fresh)
unfolding fresh IsRun
restore-HasRun_example = restore-HasRun host 0 0 one_file fresh refl

-- The first vote has been executed, and the second one is accepted.
first_executed :
    Holds
      (λ t.
        (t.executed ≡ vote_at 1 ∷ []) × (t.max_accepted ≡ vote_at 2) × (t.max_ballot ≡ ballot_1))
      (replay_log host two_votes fresh)
unfolding fresh replay_log eq with_back init_message is_next_decree gt
first_executed = (refl, refl, refl)

-- Two votes that have passed wait for execution, and a checkpoint is due.
abbrev executor : Executor
executor = record {
  app = fresh;
  queue = record {
    to_execute = vote_at 1 ∷ vote_at 2 ∷ [];
    size = 0;
    last_passed = 2;
    last_inserted = 2;
    io_wait = false;
  };
  save_checkpoint_at = 1;
  must_checkpoint = false;
  callback_after = none;
  copied = some 1;
  is_primary = false;
  is_transitioning = false;
  notices = [];
}

turns-Executes_example :
    Returns (Executes host 100 (vote_at 1 ∷ vote_at 2 ∷ []) executor) (turns host 100 2 executor)
unfolding fresh
turns-Executes_example = turns-Executes host 100 (vote_at 1 ∷ vote_at 2 ∷ []) executor (record {
  waiting = refl;
  in_memory = omega arith;
  chain = (refl, (refl, refl));
  bounded = omega arith;
  steady = refl;
})

-- Two checkpoints and three logs, of which one each is to be kept.
abbrev log_from : ℕ → LogContents
log_from n = record { starts_at = n; opens = true; messages = []; is_readable = true }

abbrev pub janitor : Janitor
janitor = record {
  max_checkpoints = 1;
  max_logs = 1;
  interval = 60;
  now = 0;
  moves = true;
  deletes_checkpoint = λ c. true;
  deletes_log = λ c. true;
}

abbrev disk : Disk
disk = record { checkpoints = 10 ∷ []; logs = log_from 1 ∷ log_from 11 ∷ log_from 21 ∷ [] }

two_checkpoints : (moved janitor 20 disk).checkpoints ≡ 10 ∷ 20 ∷ []
unfolding moved
two_checkpoints = refl

checkpoint_done-Keeps_example :
    Returns
      (λ r. Keeps janitor host fresh (moved janitor 20 disk).checkpoints disk.logs (r.1))
      (checkpoint_done janitor 20 20 4096 secondary disk)
checkpoint_done-Keeps_example =
    checkpoint_done-Keeps janitor host fresh 20 20 4096 secondary disk (omega arith) (omega arith)
      (rw two_checkpoints (omega arith)) (omega arith, omega arith, tt) (omega arith)

-- The log before the older checkpoint is deleted, and so is that checkpoint.
cleaned :
    Returns
      (λ r. (r.1.checkpoints ≡ 20 ∷ []) × (r.1.logs ≡ log_from 11 ∷ log_from 21 ∷ []))
      (checkpoint_done janitor 20 20 4096 secondary disk)
unfolding checkpoint_done
cleaned = (refl, refl)
