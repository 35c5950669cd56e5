-- ===== src/ExecuteQueue.antt =====
-- src/RSL/src/legislator.cpp: `ExecuteQueue`, the votes that have passed and wait to be executed,
-- with the `VoteQueue` of legislator.h that holds them. The queue is throttled: votes that do not
-- fit stay in the log files, and the reader thread brings them in later. A call runs under
-- `m_lock`, so the threads' calls are steps on this state. Log files stand oldest first.
pub mod Order
pub mod Ends
use rsl.Common.{ℕ, zero, suc, ◌+◌, ◌*◌, ◌-◌, ◌%◌, ◌/◌, ◌^◌, Bool, true, false, not, ◌||◌, ◌&&◌}
use rsl.Common.{List, [], ◌∷◌, ◌++◌, Option, none, some, ltb, leb, ◌==◌, if◌then◌else◌}
use rsl.Common.{Outcome, ◌>>=◌, ◌>>◌, done, log_assert, assert_failed}
use rsl.Message.{next}
use rsl.Vote.{Vote, marshal_len}
use rsl.LogFile.{LogFile, has_decree, get_offset, get_length_of_decree, max_decree}

-- `size` is `SizeInBytes()` of `to_execute`.
pub record ExecuteQueue : Type 0 where
  pub to_execute : List Vote
  pub size : ℕ
  pub last_passed : ℕ
  pub last_inserted : ℕ
  pub io_wait : Bool

-- `c_ExecutionReadSize`.
abbrev pub execution_read_size : ℕ
execution_read_size = 1024 * 1024

unfoldable pub init : ℕ → ExecuteQueue
init last_executed = record {
  to_execute = [];
  size = 0;
  last_passed = last_executed;
  last_inserted = last_executed;
  io_wait = false;
}

unfoldable pub is_in_memory : ExecuteQueue → Bool
is_in_memory q = q.last_inserted == q.last_passed

-- The first file with the decree, and whether it is the last file.
unfoldable pub find_file : ℕ → List LogFile → Option (LogFile × Bool)
find_file d [] = none
find_file d (f ∷ []) = if has_decree d f then some (f, true) else none
find_file d (f ∷ g ∷ fs) =
    let rest = find_file d (g ∷ fs) in if has_decree d f then some (f, false) else rest

min : ℕ → ℕ → ℕ
min a b = if ltb b a then b else a

-- Whether it is worth to read from this file now.
unfoldable pub worth_reading : ℕ → ExecuteQueue → LogFile × Bool → Outcome (Option LogFile)
unfolding min
worth_reading max_size q (f, is_back) = do
  begin_offset ← get_offset (next q.last_inserted) f
  end_offset ← get_offset (min (max_decree f) q.last_passed) f
  len ← get_length_of_decree (min (max_decree f) q.last_passed) f
  done (
      if leb execution_read_size (((end_offset - begin_offset) % 2 ^ 32 + len) % 2 ^ 32)
        || not is_back
        || leb q.size (max_size / 2)
      then some f
      else none)

unfoldable pub or_assert : Option (LogFile × Bool) → Outcome (LogFile × Bool)
or_assert none = assert_failed
or_assert (some f) = done f

unfoldable pub check_read : ℕ → List LogFile → ExecuteQueue → Outcome (Option LogFile)
unfolding worth_reading find_file or_assert
check_read max_size files q =
    if q.io_wait
      || leb q.last_passed q.last_inserted
      || leb max_size ((q.size + execution_read_size) % 2 ^ 32)
    then done none
    else (do
      found ← or_assert (find_file (next q.last_inserted) files)
      worth_reading max_size q found)

-- `VoteQueue::Enqueue`, and `m_lastInsertedDecree` set to the tail's decree.
unfoldable pub push : Vote → ExecuteQueue → ExecuteQueue
push v q = record q {
  to_execute = q.to_execute ++ (v ∷ []);
  size = (q.size + marshal_len v) % 2 ^ 32;
  last_inserted = v.decree;
}

-- A vote that passed. With `must` it goes into the queue even if that is full.
unfoldable pub enqueue : ℕ → List LogFile → Vote → Bool → ExecuteQueue → Outcome ExecuteQueue
unfolding push check_read
enqueue max_size files v must q = if v.decree == q.last_passed then done q else (do
  log_assert (not must || q.last_passed == q.last_inserted)
  if must || ltb q.size max_size && v.decree == next q.last_inserted
      then done (push v (record q { last_passed = v.decree }))
      else (do
        file ← check_read max_size files (record q { last_passed = v.decree })
        done (record q { last_passed = v.decree })))

-- `VoteQueue::Dequeue`, and the check for a read that this makes room for. The signal to the reader
-- thread changes no state; an assertion inside `CheckRead` can fail.
unfoldable pub dequeue_from :
    ℕ → List LogFile → List Vote → ExecuteQueue → Outcome (Option (Vote × ExecuteQueue))
unfolding check_read
dequeue_from max_size files [] q = done none
dequeue_from max_size files (v ∷ vs) q = do
  let q' = record q { to_execute = vs; size = (q.size + 2 ^ 32 - marshal_len v) % 2 ^ 32 }
  file ← check_read max_size files q'
  done (some (v, q'))

unfoldable pub dequeue : ℕ → List LogFile → ExecuteQueue → Outcome (Option (Vote × ExecuteQueue))
unfolding dequeue_from
dequeue max_size files q = dequeue_from max_size files q.to_execute q

-- The reader thread: it starts a read from a file that `CheckRead` chose, and `io_wait` keeps it
-- from starting another.
unfoldable pub start_read : ExecuteQueue → ExecuteQueue
start_read q = record q { io_wait = true }

-- The votes that were read have the decrees behind the last inserted one.
unfoldable pub check_decrees : ℕ → List Vote → Outcome (Unit {0})
check_decrees d [] = done tt
check_decrees d (v ∷ vs) = do log_assert (v.decree == d); check_decrees (next d) vs

unfoldable pub push_all : List Vote → ExecuteQueue → ExecuteQueue
push_all [] q = q
push_all (v ∷ vs) q = push_all vs (push v q)

unfoldable pub finish_read : List Vote → ExecuteQueue → Outcome ExecuteQueue
unfolding check_decrees push_all
finish_read votes q = do
  check_decrees (next q.last_inserted) votes
  done (push_all votes (record q { io_wait = false }))
