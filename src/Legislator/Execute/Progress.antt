-- ===== src/Legislator/Execute/Progress.antt =====
-- src/RSL/src/legislator.cpp: the votes in the queue are executed, each by one turn of `ExecuteLoop`.
use rsl.Common.{ℕ, ◌+◌, ◌%◌, ◌^◌, ◌-◌, ◌≤◌, ◌<◌, ◌≡◌, refl, ◌∙◌, sym, ap, subst, arith}
use rsl.Common.{Bool, true, false, not, ◌&&◌, ◌||◌, List, [], ◌∷◌, length, Option, none, some}
use rsl.Common.{leb, ◌==◌, if◌then◌else◌, if-cases}
use rsl.Common.{◌>>=◌, done, Returns, Returns-bind, Returns-map}
use mathlib.Core.List.{reverse, reverse_aux}
use rsl.Vote.{Vote, marshal_len}
use rsl.LogFile.{LogFile}
use rsl.ExecuteQueue.{ExecuteQueue, dequeue, dequeue_from, check_read}
use rsl.ExecuteQueue.Order.{Chain}
use rsl.Legislator.Restore.{Restored, Host, apply_vote, execute_vote}
use rsl.Legislator.Execute.{
  Executor, call_recovered, call_copied, vote_for_checkpoint, rest_of, request_checkpoint,
  save_with, is_due, is_next_vote, checkpoint, is_waiting, take_out, execute_head, turn, turns,
}

-- The votes `vs` wait in the queue, which holds every vote that has passed, and nothing stops them.
pub record IsReady (vs : List Vote) (x : Executor) : Type 0 where
  pub waiting : x.queue.to_execute ≡ vs
  pub in_memory : x.queue.last_passed ≤ x.queue.last_inserted
  pub chain : Chain x.app.last_executed vs x.queue.last_inserted
  pub bounded : x.queue.last_inserted < 2 ^ 64
  pub steady : x.is_transitioning ≡ false

-- The queue after its head `v` was taken out, with `vs` left.
abbrev without : Vote → List Vote → ExecuteQueue → ExecuteQueue
without v vs q = record q { to_execute = vs; size = (q.size + 2 ^ 32 - marshal_len v) % 2 ^ 32 }

Chain-length : (d e : ℕ) (vs : List Vote) → Chain d vs e → d + length vs ≡ e
Chain-length d e [] c = omega arith
Chain-length d e (v ∷ vs) c = omega (arith, Chain-length (d + 1) e vs c.1)

if-true_lem : {A : Type 0} (b : Bool) (x y : A) → b ≡ true → (if b then x else y) ≡ x
if-true_lem b x y e = rw e refl

and_false : (b : Bool) → (b && false) ≡ false
and_false true = refl
and_false false = refl

or_middle : (a b c : Bool) → b ≡ true → (a || b || c) ≡ true
or_middle a b c e = ground arith

-- Where every vote that has passed is in memory, nothing is read.
check_read-in_memory :
    (max_size : ℕ) (files : List LogFile) (q : ExecuteQueue)
    → q.last_passed ≤ q.last_inserted
    → check_read max_size files q ≡ done none
unfolding check_read
check_read-in_memory max_size files q le =
    if-true_lem _ (done none) _
      (or_middle q.io_wait (leb q.last_passed q.last_inserted) _ (ground arith))

dequeue_from-in_memory :
    (max_size : ℕ) (files : List LogFile) (v : Vote) (vs : List Vote) (q : ExecuteQueue)
    → q.last_passed ≤ q.last_inserted
    → dequeue_from max_size files (v ∷ vs) q ≡ done (some (v, without v vs q))
unfolding dequeue_from
dequeue_from-in_memory max_size files v vs q le =
    ap (λ m. m >>= λ _. done (some (v, without v vs q)))
      (check_read-in_memory max_size files (without v vs q) le)

module _ (h : Host) (max_size : ℕ) where
  -- A turn's calls and its checkpoint leave the queue and what was executed.
  abbrev Same : Executor → Executor → Type 0
  Same x y =
      (y.queue ≡ x.queue)
      × (y.app.last_executed ≡ x.app.last_executed)
      × (y.app.executed ≡ x.app.executed)
      × (y.is_transitioning ≡ x.is_transitioning)

  call_recovered-Same : (d : Option ℕ) (x : Executor) → Same x (call_recovered d x)
  unfolding call_recovered
  call_recovered-Same none x = (refl, refl, refl, refl)
  call_recovered-Same (some d) x =
      if-cases (Same x) (leb d x.app.last_executed) _ x (λ _. (refl, refl, refl, refl))
        (λ _. (refl, refl, refl, refl))

  call_copied-Same : (d : Option ℕ) (x : Executor) → Same x (call_copied d x)
  unfolding call_copied
  call_copied-Same none x = (refl, refl, refl, refl)
  call_copied-Same (some d) x = (refl, refl, refl, refl)

  save_with-Same : (v : Vote) (x : Executor) → Same x (save_with h max_size v x)
  unfolding save_with
  save_with-Same v x =
      if-cases (Same x) (h.save_checkpoint v) _ _ (λ _. (refl, refl, refl, refl))
        (λ _. (refl, refl, refl, refl))

  checkpoint-Same : (x : Executor) → Same x (checkpoint h max_size x)
  unfolding checkpoint
  checkpoint-Same x =
      if-cases (Same x) (is_due h max_size x && is_next_vote h max_size x) _ x
        (λ _. save_with-Same (vote_for_checkpoint x.queue.to_execute x.app) x)
        (λ _. (refl, refl, refl, refl))

  Same-trans : (x y z : Executor) → Same x y → Same y z → Same x z
  Same-trans x y z (a, b, c, d) (a', b', c', d') = (a' ∙ a, b' ∙ b, c' ∙ c, d' ∙ d)

  Same-IsReady : (vs : List Vote) (x y : Executor) → Same x y → IsReady vs x → IsReady vs y
  Same-IsReady vs x y (q, l, e, t) r = record {
    waiting = ap (λ q. q.to_execute) q ∙ r.waiting;
    in_memory = subst (λ q. q.last_passed ≤ q.last_inserted) (sym q) r.in_memory;
    chain =
        subst (λ d. Chain d vs y.queue.last_inserted) (sym l)
          (subst (λ q. Chain x.app.last_executed vs q.last_inserted) (sym q) r.chain);
    bounded = subst (λ q. q.last_inserted < 2 ^ 64) (sym q) r.bounded;
    steady = t ∙ r.steady;
  }

  -- The vote is executed and out of the queue; the others are still ready.
  abbrev Advances : Vote → List Vote → Executor → Executor → Type 0
  Advances v vs x y =
      IsReady vs y
      × (y.app.executed ≡ v ∷ x.app.executed)
      × (y.app.last_executed ≡ x.app.last_executed + 1)

  taken-Advances :
      (v : Vote) (vs : List Vote) (x : Executor) (save : Bool)
      → IsReady (v ∷ vs) x
      → Advances v vs x (
          request_checkpoint save
            (record x { app = apply_vote h v x.app; queue = without v vs x.queue }))
  unfolding request_checkpoint apply_vote
  taken-Advances v vs x save r =
      let far = Chain-length x.app.last_executed x.queue.last_inserted (v ∷ vs) r.chain in
      let up : (x.app.last_executed + 1) % 2 ^ 64 ≡ x.app.last_executed + 1 =
        omega (arith, far, r.bounded) in
      let next = subst (λ d. Chain d vs x.queue.last_inserted) (sym up) (r.chain.1) in
      let step : Executor = record x { app = apply_vote h v x.app; queue = without v vs x.queue } in
      let ready : IsReady vs step = record {
        waiting = refl;
        in_memory = r.in_memory;
        chain = next;
        bounded = r.bounded;
        steady = r.steady;
      } in
      if-cases (Advances v vs x) save
        (record step { save_checkpoint_at = step.app.last_executed; must_checkpoint = true }) step
        (λ _. (
          record {
            waiting = refl;
            in_memory = r.in_memory;
            chain = next;
            bounded = r.bounded;
            steady = r.steady;
          },
          refl,
          up,
        ))
        (λ _. (ready, refl, up))

  take_out-Advances :
      (v : Vote) (vs : List Vote) (x : Executor) (save : Bool)
      → IsReady (v ∷ vs) x
      → Returns (Advances v vs x) (take_out h max_size x (save, apply_vote h v x.app))
  unfolding take_out
  take_out-Advances v vs x save r =
      let files = reverse (apply_vote h v x.app).log_files in
      let e : dequeue max_size files x.queue ≡ done (some (v, without v vs x.queue)) =
        ap (λ l. dequeue_from max_size files l x.queue) r.waiting
        ∙ dequeue_from-in_memory max_size files v vs x.queue r.in_memory in
      subst
        (λ m. Returns (Advances v vs x) (
          m >>= λ taken. done (
            request_checkpoint save
              (record x { app = apply_vote h v x.app; queue = rest_of x.queue taken }))))
        (sym e) (taken-Advances v vs x save r)

  execute_vote-next :
      (v : Vote) (s : Restored)
      → v.decree ≡ s.last_executed + 1
      → s.last_executed + 1 < 2 ^ 64
      → execute_vote h v s ≡ done (not (v.requests_len == 0) && h.should_save v, apply_vote h v s)
  unfolding execute_vote
  execute_vote-next v s e small =
      let same : (v.decree == (s.last_executed + 1) % 2 ^ 64) ≡ true = ground arith in
      let right : (v.decree == s.last_executed || v.decree == (s.last_executed + 1) % 2 ^ 64)
          ≡ true =
        ground arith in
      rw (right, same) refl

  execute_head-Advances :
      (v : Vote) (vs : List Vote) (x : Executor)
      → IsReady (v ∷ vs) x
      → Returns (Advances v vs x) (execute_head h max_size x.queue.to_execute x)
  unfolding execute_head
  execute_head-Advances v vs x r =
      let far = Chain-length x.app.last_executed x.queue.last_inserted (v ∷ vs) r.chain in
      let e = execute_vote-next v x.app (r.chain.0) (omega (arith, far, r.bounded)) in
      subst (λ l. Returns (Advances v vs x) (execute_head h max_size l x)) (sym r.waiting)
        (subst (λ m. Returns (Advances v vs x) (m >>= take_out h max_size x)) (sym e)
          (take_out-Advances v vs x (not (v.requests_len == 0) && h.should_save v) r))

  not_waiting :
      (v : Vote) (vs : List Vote) (x : Executor)
      → IsReady (v ∷ vs) x
      → is_waiting h max_size x ≡ false
  unfolding is_waiting is_next_vote vote_for_checkpoint
  not_waiting v vs x r =
      let far = Chain-length x.app.last_executed x.queue.last_inserted (v ∷ vs) r.chain in
      let next : (v.decree == (x.app.last_executed + 1) % 2 ^ 64) ≡ true =
        ground (arith, far, r.bounded, r.chain.0) in
      rw (r.waiting, next) (and_false (is_due h max_size x))

  turn-Advances :
      (v : Vote) (vs : List Vote) (x : Executor)
      → IsReady (v ∷ vs) x
      → Returns (Advances v vs x) (turn h max_size x)
  unfolding turn
  turn-Advances v vs x r =
      let y = call_recovered x.callback_after x in
      let z = call_copied y.copied y in
      let same =
        Same-trans x y z (call_recovered-Same x.callback_after x) (call_copied-Same y.copied y) in
      let rz = Same-IsReady (v ∷ vs) x z same r in
      if-cases (Returns (Advances v vs x)) (is_waiting h max_size z || z.is_transitioning) _ _
        (λ e. let absurd : ⊥ = ground (arith, not_waiting v vs z rz, rz.steady) in elim absurd [ ])
        (λ _.
          let c = checkpoint h max_size z in
          let (q, l, d, t) = Same-trans x z c same (checkpoint-Same z) in
          let rc = Same-IsReady (v ∷ vs) x c (q, l, d, t) r in
          subst (λ vs'. Returns (Advances v vs x) (execute_head h max_size vs' c))
            (rc.waiting ∙ sym rz.waiting)
            (Returns-map (Advances v vs c) (Advances v vs x)
              (execute_head h max_size c.queue.to_execute c)
              (λ w (ready, e, f). (ready, e ∙ ap (λ b. v ∷ b) d, f ∙ ap (λ b. b + 1) l))
              (execute_head-Advances v vs c rc)))

  -- The votes are executed after what was executed before, and the queue is empty.
  abbrev pub Executes : List Vote → Executor → Executor → Type 0
  Executes vs x y =
      IsReady [] y
      × (y.app.executed ≡ reverse_aux vs x.app.executed)
      × (y.app.last_executed ≡ x.app.last_executed + length vs)

  -- Every vote that waits is executed: where the queue holds every vote that has passed, in the
  -- order of the decrees after the last executed one, and the replica is not becoming the primary,
  -- as many turns of `ExecuteLoop` as there are votes execute them all, in order, and leave the
  -- queue empty. That is so whatever checkpoints they ask for and whether these can be saved.
  pub turns-Executes :
      (vs : List Vote) (x : Executor)
      → IsReady vs x
      → Returns (Executes vs x) (turns h max_size (length vs) x)
  unfolding turns
  turns-Executes [] x r = (r, refl, omega arith)
  turns-Executes (v ∷ vs) x r =
      Returns-bind (Advances v vs x) (Executes (v ∷ vs) x) (turn h max_size x) _
        (turn-Advances v vs x r)
        (λ y (ry, e, f).
          Returns-map (Executes vs y) (Executes (v ∷ vs) x) (turns h max_size (length vs) y)
            (λ z (rz, e', f'). (rz, e' ∙ ap (λ b. reverse_aux vs b) e, omega arith))
            (turns-Executes vs y ry))
