-- ===== src/Legislator/Ends.antt =====
-- src/RSL/src/legislator.cpp: the routines that log come to an end in the same configuration.
pub mod Initialize
use mathlib.Core.List.{reverse}
use rsl.Common.{
  ℕ, ◌+◌, ◌-◌, ◌%◌, ◌^◌, ◌≤◌, ◌<◌, ◌≡◌, refl, ◌∙◌, ap, arith, Bool, true, false, not, ◌&&◌, ◌||◌,
  List, [], ◌∷◌,
}
use rsl.Common.{Option, none, some, ltb, leb, ◌==◌, if◌then◌else◌, if-cases}
use rsl.Common.{
  Outcome, done, ◌>>=◌, Total, Ends, Total-bind, Total-log_assert, Ends-bind, Total-map,
}
use rsl.Ballot.{BallotNumber, ge, eq, gt}
use rsl.Message.{is_next_decree, is_same_decree}
use rsl.Message.Bodies.{PrepareMsg, prepare_len}
use rsl.Vote.{Vote, marshal_len}
use rsl.LogFile.{LogFile, LogRecord, write_message, add_message, add_vote, prepare_record}
use rsl.ExecuteQueue.{enqueue}
use rsl.ExecuteQueue.Ends.{add_vote-Ends, enqueue-Ends}
use rsl.Legislator.{Legislator, Env, paxos_configuration, am_primary, is_inactive}
use rsl.Legislator.Log

-- The configuration and the vote that an election started from are kept.
pub record Same (s t : Legislator) : Type 0 where
  pub number : paxos_configuration t ≡ paxos_configuration s
  pub freshest : t.old_freshest ≡ s.old_freshest

pub Same-refl : (s : Legislator) → Same s s
Same-refl s = record { number = refl; freshest = refl }

pub Same-trans : {s t u : Legislator} → Same s t → Same t u → Same s u
Same-trans a b = record { number = b.number ∙ a.number; freshest = b.freshest ∙ a.freshest }

with_back-Ends :
    (f : LogFile → Outcome LogFile) (files : List LogFile)
    → ((x : LogFile) → Ends (f x))
    → Ends (Log.with_back f files)
unfolding Log.with_back
with_back-Ends f [] h = tt
with_back-Ends f (x ∷ xs) h = Ends-bind (f x) _ (h x) (λ _. tt)

-- What puts the log files into the state.
stores :
    (s : Legislator) (m : Outcome (List LogFile))
    → Ends m
    → Total (Same s) (m >>= λ files. done (record s { log_files = files }))
stores s m h =
    Total-bind (λ _. Unit) (Same s) m (λ files. done (record s { log_files = files })) h
      (λ files _. record { number = refl; freshest = refl })

pub write_back-Total : (x : LogRecord) (s : Legislator) → Total (Same s) (Log.write_back x s)
unfolding Log.write_back
write_back-Total x s =
    stores s _ (with_back-Ends (λ f. done (write_message x f)) s.log_files (λ _. tt))

pub add_message_to_log-Total :
    (len : ℕ) (s : Legislator) → Total (Same s) (Log.add_message_to_log len s)
unfolding Log.add_message_to_log
add_message_to_log-Total len s =
    stores s _ (with_back-Ends (λ f. done (add_message len f)) s.log_files (λ _. tt))

add_vote_to_log-Total : (d len : ℕ) (s : Legislator) → Total (Same s) (Log.add_vote_to_log d len s)
unfolding Log.add_vote_to_log
add_vote_to_log-Total d len s =
    stores s _ (with_back-Ends (add_vote d len) s.log_files (λ f. add_vote-Ends d len f))

module _ (e : Env) where
  set_max_ballot-Same : (b : BallotNumber) (s : Legislator) → Same s (Log.set_max_ballot e b s)
  unfolding Log.set_max_ballot
  set_max_ballot-Same b s = record { number = ground arith; freshest = ground arith }

  ask_checkpoint-Same :
      (logs : List LogFile) (s : Legislator) → Same s (Log.ask_checkpoint e logs s)
  unfolding Log.ask_checkpoint
  ask_checkpoint-Same [] s = Same-refl s
  ask_checkpoint-Same (log ∷ logs) s = record { number = ground arith; freshest = ground arith }

  push_log-Same : (o : Option LogFile) (s : Legislator) → Same s (Log.push_log e o s)
  unfolding Log.push_log
  push_log-Same none s = Same-refl s
  push_log-Same (some log) s = record { number = refl; freshest = refl }

  pub add_to_execution_queue-Total :
      (v : Vote) (s : Legislator) → Total (Same s) (Log.add_to_execution_queue e v s)
  unfolding Log.add_to_execution_queue
  add_to_execution_queue-Total v s =
      Total-bind (λ _. Unit) (Same s)
        (enqueue e.in_memory_execution_queue_size (reverse s.log_files) v
          (v.has_user_cookie || am_primary s) s.execute_q)
        _
        (enqueue-Ends e.in_memory_execution_queue_size (reverse s.log_files) v
          (v.has_user_cookie || am_primary s) s.execute_q)
        (λ q _. record { number = refl; freshest = refl })

  pub log_prepare-Total : (m : PrepareMsg) (s : Legislator) → Total (Same s) (Log.log_prepare e m s)
  unfolding Log.log_prepare
  log_prepare-Total m s = Total-log_assert (Same s) (ge m.ballot s.max_ballot) _ (λ _.
      if-cases (Total (Same s)) (eq m.ballot s.max_ballot) (done s) _ (λ _. Same-refl s)
        (λ _.
          Total-bind (Same s) (Same s) (Log.write_back (prepare_record m.header) s) _
            (write_back-Total (prepare_record m.header) s)
            (λ t st.
              Total-map (Same (Log.set_max_ballot e m.ballot t)) (Same s) _
                (add_message_to_log-Total (prepare_len m) (Log.set_max_ballot e m.ballot t))
                (λ u tu. Same-trans st (Same-trans (set_max_ballot-Same m.ballot t) tu)))))

  write_vote-Total :
      (v : Vote) (logs : List LogFile) (s : Legislator)
      → Total (λ p. Same s p.1) (Log.write_vote e v logs s)
  unfolding Log.write_vote
  write_vote-Total v [] s = tt
  write_vote-Total v (log ∷ logs) s =
      if-cases (Total (λ p. Same s p.1)) (Log.switches_log e v log s) _ _
        (λ _. record { number = refl; freshest = refl })
        (λ _. record { number = refl; freshest = refl })

  module _ (again : Legislator → Outcome Legislator) where
    update_defunct_info-Total :
        (n : ℕ) (s : Legislator)
        → n < paxos_configuration s
        → Total (Same s) (Log.update_defunct_info e again n s)
    unfolding Log.update_defunct_info
    update_defunct_info-Total n s h =
        if-cases (Total (Same s)) (leb n s.highest_defunct) (done s) _ (λ _. Same-refl s)
          (λ _.
            let current : leb (paxos_configuration s) n ≡ false = ground arith in
            rw current (record { number = refl; freshest = refl }))

    finish_vote-Total :
        (v : Vote) (log : Option LogFile) (s : Legislator)
        → 1 ≤ paxos_configuration s
        → paxos_configuration s < 2 ^ 32
        → v.configuration_number ≡ paxos_configuration s
        → Total (Same s) (Log.finish_vote e again v log s)
    unfolding Log.finish_vote
    finish_vote-Total v log s h k c =
        Total-bind (Same s) (Same s) _ _
          (update_defunct_info-Total ((v.configuration_number + (2 ^ 32 - 1)) % 2 ^ 32) s
            (omega (arith, h, k, c)))
          (λ t st.
            let u : Legislator =
              record (Log.push_log e (Log.file_to_push e log s.log_files t.log_files) t) {
                max_accepted = v;
              } in
            let w : Legislator = Log.set_max_ballot e v.ballot u in
            let pushed = push_log-Same (Log.file_to_push e log s.log_files t.log_files) t in
            let tu : Same t u = record { number = pushed.number; freshest = pushed.freshest } in
            Total-bind (Same w) (Same s) (Log.add_vote_to_log v.decree (marshal_len v) w) _
              (add_vote_to_log-Total v.decree (marshal_len v) w)
              (λ x wx. Same-trans st (
                Same-trans tu (
                  Same-trans (set_max_ballot-Same v.ballot u)
                    (Same-trans wx (ask_checkpoint-Same x.log_files x))))))

    -- A vote for the configuration in force is logged without another initialization.
    pub log_vote-Total :
        (v : Vote) (s : Legislator)
        → 1 ≤ paxos_configuration s
        → paxos_configuration s < 2 ^ 32
        → v.configuration_number ≡ paxos_configuration s
        → Total (Same s) (Log.log_vote e again v s)
    unfolding Log.log_vote
    log_vote-Total v s h k c =
        if-cases (Total (Same s))
          (is_same_decree s.max_accepted.decree s.max_accepted.ballot v.decree v.ballot)
          (done (record s { max_accepted = v })) _ (λ _. record { number = refl; freshest = refl })
          (λ _.
            Total-log_assert (Same s)
              (is_next_decree v.decree v.ballot s.max_accepted.decree s.max_accepted.ballot) _
              (λ _.
                Total-bind (λ p. Same s p.1) (Same s) (Log.write_vote e v s.log_files s) _
                  (write_vote-Total v s.log_files s)
                  (λ (log, t) st.
                    Total-map (Same t) (Same s) (Log.finish_vote e again v log t)
                      (finish_vote-Total v log t (rw st.number h) (rw st.number k) (rw st.number c))
                      (λ u tu. Same-trans st tu))))
