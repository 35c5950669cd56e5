-- ===== src/Tests/Queues.antt =====
-- The log file and the execute queue on concrete votes.
use rsl.Common.{[], ◌∷◌, ◌≡◌, refl, true, false, inr, arith, done, Holds}
use rsl.LogFile.{LogFile, add_vote}
use rsl.LogFile.Index.{IsIndexed, IsLast, add_vote-IsLast}
use rsl.ExecuteQueue.{ExecuteQueue, enqueue, dequeue, finish_read}
use rsl.ExecuteQueue.Order.{InOrder, Taken, enqueue-InOrder, dequeue-InOrder, finish_read-InOrder}
use rsl.Tests.Data.{log_9_10, queue_9, vote_at}

abbrev log_9_11 : LogFile
log_9_11 = record {
  decree_offsets = 1024 ∷ 512 ∷ 0 ∷ [];
  data_len = 1536;
  min_decree = 9;
  records = [];
}

log_9_10-IsIndexed : IsIndexed log_9_10
log_9_10-IsIndexed = record { falling = (omega arith, (omega arith, tt)); decrees = omega arith }

add_vote_11 : add_vote 11 300 log_9_10 ≡ done log_9_11
unfolding add_vote
add_vote_11 = refl

add_vote-IsLast_example : IsLast 11 1024 300 log_9_11
add_vote-IsLast_example =
    add_vote-IsLast 11 300 log_9_10 log_9_11 log_9_10-IsIndexed (omega arith) (omega arith)
      (omega arith) add_vote_11

queue_9-InOrder : InOrder 8 queue_9
queue_9-InOrder = record { chain = (refl, refl); behind = omega arith; bounded = omega arith }

enqueue-InOrder_example :
    Holds
      (λ q. InOrder 8 q × (q.last_passed ≡ 10))
      (enqueue 100000000 (log_9_10 ∷ []) (vote_at 10) false queue_9)
enqueue-InOrder_example =
    enqueue-InOrder 8 100000000 (log_9_10 ∷ []) (vote_at 10) false queue_9 queue_9-InOrder
      (inr refl) (omega arith)

dequeue-InOrder_example :
    Holds (Taken 8 (vote_at 9 ∷ [])) (dequeue 100000000 (log_9_10 ∷ []) queue_9)
dequeue-InOrder_example = dequeue-InOrder 8 100000000 (log_9_10 ∷ []) queue_9 queue_9-InOrder

-- Decree 10 has passed, but is only in the log.
abbrev queue_behind : ExecuteQueue
queue_behind = record queue_9 { last_passed = 10; io_wait = true }

queue_behind-InOrder : InOrder 8 queue_behind
queue_behind-InOrder = record { chain = (refl, refl); behind = omega arith; bounded = omega arith }

finish_read-InOrder_example :
    Holds (λ q. InOrder 8 q × (q.io_wait ≡ false)) (finish_read (vote_at 10 ∷ []) queue_behind)
finish_read-InOrder_example =
    finish_read-InOrder 8 (vote_at 10 ∷ []) queue_behind queue_behind-InOrder (omega arith)
