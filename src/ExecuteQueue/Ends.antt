-- ===== src/ExecuteQueue/Ends.antt =====
-- src/RSL/src/legislator.cpp and logfile.cpp: the log index and the execute queue come to an end.
use rsl.Common.{
  ℕ, if◌then◌else◌, Bool, not, ◌&&◌, ◌||◌, ◌+◌, ◌%◌, ◌^◌, ◌==◌, ltb, leb, List, [], ◌∷◌, Option,
  none, some, arith,
}
use rsl.Common.{done, Total, Ends, Ends-bind, Total-log_assert, if-cases}
use rsl.Message.{next}
use rsl.Vote.{Vote}
use rsl.LogFile.{
  LogFile, index_vote, add_vote, get_offset, get_length_of_decree, max_decree, or_fail,
}
use rsl.ExecuteQueue.{
  ExecuteQueue, enqueue, check_read, worth_reading, or_assert, push, find_file, execution_read_size,
}

index_vote-Ends : (d m len : ℕ) (xs : List ℕ) → Ends (index_vote d m len xs)
unfolding index_vote
index_vote-Ends d m len [] = tt
index_vote-Ends d m len (x ∷ xs) =
    Total-log_assert (λ _. Unit) (d == m || d == next m)
      (done (if m == d then len ∷ xs else len ∷ x ∷ xs)) (λ _. tt)

pub add_vote-Ends : (d len : ℕ) (f : LogFile) → Ends (add_vote d len f)
unfolding add_vote
add_vote-Ends d len f =
    Ends-bind (index_vote d (max_decree f) f.data_len f.decree_offsets) _
      (index_vote-Ends d (max_decree f) f.data_len f.decree_offsets) (λ _. tt)

get_offset-Ends : (d : ℕ) (f : LogFile) → Ends (get_offset d f)
unfolding get_offset or_fail
get_offset-Ends d f = ground arith

get_length_of_decree-Ends : (d : ℕ) (f : LogFile) → Ends (get_length_of_decree d f)
unfolding get_length_of_decree
get_length_of_decree-Ends d f =
    if-cases (Total (λ _. Unit)) (ltb d (max_decree f)) _ _
      (λ _.
        Ends-bind (get_offset (next d) f) _ (get_offset-Ends (next d) f)
          (λ _. Ends-bind (get_offset d f) _ (get_offset-Ends d f) (λ _. tt)))
      (λ _. Ends-bind (get_offset d f) _ (get_offset-Ends d f) (λ _. tt))

worth_reading-Ends : (n : ℕ) (q : ExecuteQueue) (p : LogFile × Bool) → Ends (worth_reading n q p)
unfolding worth_reading
worth_reading-Ends n q (f, b) =
    Ends-bind (get_offset (next q.last_inserted) f) _ (get_offset-Ends _ f) (λ _.
      Ends-bind (get_offset _ f) _ (get_offset-Ends _ f)
        (λ _. Ends-bind (get_length_of_decree _ f) _ (get_length_of_decree-Ends _ f) (λ _. tt)))

or_assert-Ends : (o : Option (LogFile × Bool)) → Ends (or_assert o)
unfolding or_assert
or_assert-Ends none = tt
or_assert-Ends (some p) = tt

pub check_read-Ends :
    (n : ℕ) (files : List LogFile) (q : ExecuteQueue) → Ends (check_read n files q)
unfolding check_read
check_read-Ends n files q =
    if-cases (Total (λ _. Unit))
      (q.io_wait
        || leb q.last_passed q.last_inserted
        || leb n ((q.size + execution_read_size) % 2 ^ 32))
      (done none) _ (λ _. tt)
      (λ _.
        Ends-bind (or_assert (find_file (next q.last_inserted) files)) _
          (or_assert-Ends (find_file (next q.last_inserted) files)) (λ p. worth_reading-Ends n q p))

pub enqueue-Ends :
    (n : ℕ) (files : List LogFile) (v : Vote) (must : Bool) (q : ExecuteQueue)
    → Ends (enqueue n files v must q)
unfolding enqueue
enqueue-Ends n files v must q =
    if-cases (Total (λ _. Unit)) (v.decree == q.last_passed) (done q) _ (λ _. tt)
      (λ _.
        Total-log_assert (λ _. Unit) (not must || q.last_passed == q.last_inserted) _
          (λ _.
            if-cases (Total (λ _. Unit)) (must || ltb q.size n && v.decree == next q.last_inserted)
              (done (push v (record q { last_passed = v.decree }))) _ (λ _. tt)
              (λ _.
                Ends-bind (check_read n files (record q { last_passed = v.decree })) _
                  (check_read-Ends n files (record q { last_passed = v.decree })) (λ _. tt))))
