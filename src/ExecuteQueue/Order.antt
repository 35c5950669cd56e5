-- ===== src/ExecuteQueue/Order.antt =====
-- Votes are executed in the order of their decrees, with no gap.
use rsl.Common.{ℕ, ◌+◌, ◌^◌, ◌≤◌, ◌<◌, ◌≡◌, refl, ◌⊎◌, inl, inr, Bool, true, false, arith}
use rsl.Common.{List, [], ◌∷◌, ◌++◌, length, none, some, ltb, ◌==◌, Holds, Holds-bind}
use rsl.Common.{
  Holds-log_assert, Holds-skip, Holds-map, Option, suc, ◌-◌, ◌%◌, ◌∙◌, subst, Bool-cases, ==→eq,
  sym, not, ◌||◌, ◌&&◌,
}
use rsl.Message.{next}
use rsl.Vote.{Vote, marshal_len}
use rsl.LogFile.{LogFile}
use rsl.ExecuteQueue.{ExecuteQueue, push, enqueue, dequeue_from, dequeue, check_read, check_decrees}
use rsl.ExecuteQueue.{push_all, finish_read}

-- The votes have the decrees from `d + 1` up to `e`.
abbrev pub Chain : ℕ → List Vote → ℕ → Type 0
Chain d [] e = d ≡ e
Chain d (v ∷ vs) e = (v.decree ≡ d + 1) × Chain (d + 1) vs e

-- Everything up to `executed` was taken out; the queue goes on from there without a gap.
pub record InOrder (executed : ℕ) (q : ExecuteQueue) : Type 0 where
  pub chain : Chain executed q.to_execute q.last_inserted
  pub behind : q.last_inserted ≤ q.last_passed
  pub bounded : q.last_passed + 1 < 2 ^ 64

-- A vote that was taken out was the head of the list, and the next to be executed.
abbrev pub Taken : ℕ → List Vote → Option (Vote × ExecuteQueue) → Type 0
Taken n vs none = vs ≡ []
Taken n vs (some (v, q)) = (v.decree ≡ n + 1) × (vs ≡ v ∷ q.to_execute) × InOrder (n + 1) q

Chain-append :
    (d e : ℕ) (vs : List Vote) (v : Vote)
    → Chain d vs e
    → v.decree ≡ e + 1
    → Chain d (vs ++ (v ∷ [])) v.decree
Chain-append d e [] v c h = (ground arith, ground arith)
Chain-append d e (w ∷ vs) v c h = (c.0, Chain-append (d + 1) e vs v c.1 h)

push-InOrder :
    (n : ℕ) (v : Vote) (q : ExecuteQueue)
    → Chain n q.to_execute q.last_inserted
    → v.decree ≡ q.last_inserted + 1
    → v.decree ≤ q.last_passed
    → q.last_passed + 1 < 2 ^ 64
    → InOrder n (push v q)
unfolding push
push-InOrder n v q c h b t = record {
  chain = Chain-append n q.last_inserted q.to_execute v c h;
  behind = b;
  bounded = t;
}

-- Where the queue takes the vote, the vote follows the last one in it.
inserts :
    (must room : Bool) (v : Vote) (q : ExecuteQueue)
    → {n : ℕ} → InOrder n q
    → v.decree ≡ q.last_passed + 1
    → (not must || q.last_passed == q.last_inserted) ≡ true
    → (must || room && v.decree == next q.last_inserted) ≡ true
    → v.decree ≡ q.last_inserted + 1
inserts must room v q o f ok fits = ground (arith, o.behind, o.bounded)

-- Where the vote that passed last passes again, or the next one passes, `Enqueue` leaves the queue
-- in order and the vote as the last one that passed, unless an assertion fails.
pub enqueue-InOrder :
    (n max_size : ℕ) (files : List LogFile) (v : Vote) (must : Bool) (q : ExecuteQueue)
    → InOrder n q
    → (v.decree ≡ q.last_passed) ⊎ (v.decree ≡ q.last_passed + 1)
    → v.decree + 1 < 2 ^ 64
    → Holds (λ q'. InOrder n q' × (q'.last_passed ≡ v.decree)) (enqueue max_size files v must q)
unfolding enqueue
enqueue-InOrder n max_size files v must q o h b = elim (Bool-cases (v.decree == q.last_passed)) [
  | inl again ↦ rw again (o, sym (==→eq _ _ again))
  | inr new ↦
      let follows : v.decree ≡ q.last_passed + 1 = ground arith in
      rw new (
        Holds-log_assert _ (not must || q.last_passed == q.last_inserted) _ (λ ok.
          elim (Bool-cases (must || ltb q.size max_size && v.decree == next q.last_inserted)) [
            | inl fits ↦ rw fits (
              push-InOrder n v (record q { last_passed = v.decree }) o.chain
                  (inserts must (ltb q.size max_size) v q o follows ok fits) (omega arith) b,
              refl,
            )
            | inr full ↦ rw full (
                Holds-skip _ (check_read max_size files (record q { last_passed = v.decree })) _
                  (record { chain = o.chain; behind = omega (arith, o.behind); bounded = b }, refl))
          ]))
]

dequeue_from-InOrder :
    (n max_size : ℕ) (files : List LogFile) (vs : List Vote) (q : ExecuteQueue)
    → Chain n vs q.last_inserted
    → q.last_inserted ≤ q.last_passed
    → q.last_passed + 1 < 2 ^ 64
    → Holds (Taken n vs) (dequeue_from max_size files vs q)
unfolding dequeue_from
dequeue_from-InOrder n max_size files [] q c b t = refl
dequeue_from-InOrder n max_size files (v ∷ vs) q c b t =
    let q' : ExecuteQueue = record q {
      to_execute = vs;
      size = (q.size + 2 ^ 32 - marshal_len v) % 2 ^ 32;
    } in
    Holds-skip (Taken n (v ∷ vs)) (check_read max_size files q') (some (v, q'))
      (c.0, refl, record { chain = c.1; behind = b; bounded = t })

-- From a queue in order `Dequeue` takes out the head, which has the next decree, and leaves the rest
-- in order; an empty queue gives nothing. That is unless an assertion of the log index fails.
pub dequeue-InOrder :
    (n max_size : ℕ) (files : List LogFile) (q : ExecuteQueue)
    → InOrder n q
    → Holds (Taken n q.to_execute) (dequeue max_size files q)
unfolding dequeue
dequeue-InOrder n max_size files q o =
    dequeue_from-InOrder n max_size files q.to_execute q o.chain o.behind o.bounded

check_decrees-Chain :
    (d : ℕ) (votes : List Vote)
    → d + length votes + 1 < 2 ^ 64
    → Holds (λ _. Chain d votes (d + length votes)) (check_decrees (next d) votes)
unfolding check_decrees
check_decrees-Chain d [] b = omega arith
check_decrees-Chain d (v ∷ vs) b =
    let e : next d ≡ d + 1 = omega arith in
    let l : d + 1 + length vs ≡ d + suc (length vs) = omega arith in
    Holds-log_assert _ (v.decree == next d) _ (λ ok.
      Holds-map (λ _. Chain (d + 1) vs (d + 1 + length vs)) _ (check_decrees (next (next d)) vs)
        (rw e (check_decrees-Chain (d + 1) vs (omega arith)))
        (λ _ c. (==→eq _ _ ok ∙ e, subst (Chain (d + 1) vs) l c)))

io_wait-push_all : (votes : List Vote) (q : ExecuteQueue) → (push_all votes q).io_wait ≡ q.io_wait
unfolding push_all push
io_wait-push_all [] q = refl
io_wait-push_all (v ∷ vs) q = io_wait-push_all vs (push v q)

push_all-InOrder :
    (n k : ℕ) (votes : List Vote) (q : ExecuteQueue)
    → Chain n q.to_execute q.last_inserted
    → Chain q.last_inserted votes k
    → k ≤ q.last_passed
    → q.last_passed + 1 < 2 ^ 64
    → InOrder n (push_all votes q)
unfolding push_all push
push_all-InOrder n k [] q c d b t = record { chain = c; behind = omega (arith, d); bounded = t }
push_all-InOrder n k (v ∷ vs) q c d b t =
    push_all-InOrder n k vs (push v q) (Chain-append n q.last_inserted q.to_execute v c d.0)
      (rw d.0 d.1) b t

-- The votes that the reader thread brings in from the log leave the queue in order and end the read,
-- if they are no more than have passed, unless the assertion of their decrees fails.
pub finish_read-InOrder :
    (n : ℕ) (votes : List Vote) (q : ExecuteQueue)
    → InOrder n q
    → q.last_inserted + length votes ≤ q.last_passed
    → Holds (λ q'. InOrder n q' × (q'.io_wait ≡ false)) (finish_read votes q)
unfolding finish_read
finish_read-InOrder n votes q o h =
    Holds-bind _ _ (check_decrees (next q.last_inserted) votes) _
      (check_decrees-Chain q.last_inserted votes (omega (arith, o.bounded)))
      (λ _ c. (
        push_all-InOrder n (q.last_inserted + length votes) votes (record q { io_wait = false })
            o.chain c h o.bounded,
        io_wait-push_all votes (record q { io_wait = false }),
      ))
