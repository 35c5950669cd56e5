-- ===== src/Legislator/Restore/Order.antt =====
-- src/RSL/src/legislator.cpp: the order in which a replay hands votes to the application.
use rsl.Common.{ℕ, ◌+◌, ◌%◌, ◌^◌, ◌≡◌, refl, arith}
use rsl.Common.{Bool, not, ◌&&◌, ◌||◌, List, [], ◌∷◌}
use rsl.Common.{ltb, ◌==◌, if-cases}
use rsl.Common.{◌>>=◌, done, log_assert}
use rsl.Common.{Holds, Holds-bind, Holds-into, Holds-log_assert, Holds-skip}
use rsl.Ballot.{no_ballot, ge, eq}
use rsl.Message.{Message}
use rsl.Vote.{Vote}
use rsl.Legislator.{Logged, logged_vote, logged_prepare, logged_decision}
use rsl.Legislator.Log.{with_back}
use rsl.Legislator.Learn.{logged_header}
use rsl.Legislator.Restore.{
  Restored, Host, apply_vote, execute_vote, save_for, execute_previous, accept, replay_vote,
  promise, reconfigured, replay_decision, replay_new, replay_message, replay_log, index_message,
}

-- The votes, the last one first, are those of the decrees after `first` up to `last`, one each.
unfoldable pub IsRun : ℕ → ℕ → List Vote → Type 0
IsRun first last [] = last ≡ first
IsRun first last (v ∷ vs) =
    (v.decree ≡ last) × ((p : ℕ) × (last ≡ (p + 1) % 2 ^ 64) × IsRun first p vs)

abbrev pub HasRun : ℕ → Restored → Type 0
HasRun first s = IsRun first s.last_executed s.executed

abbrev Ran : ℕ → Bool × Restored → Type 0
Ran first r = HasRun first (r.1)

module _ (h : Host) (first : ℕ) where
  execute_vote-HasRun :
      (v : Vote) (s : Restored) → HasRun first s → Holds (Ran first) (execute_vote h v s)
  unfolding execute_vote apply_vote IsRun
  execute_vote-HasRun v s k = Holds-into (Ran first) (log_assert _) _ (λ _.
      if-cases (Holds (Ran first)) (v.decree == (s.last_executed + 1) % 2 ^ 64) _ _
        (λ same. (ground arith, (s.last_executed, refl, k))) (λ _. k))

  save_for-HasRun :
      (v : Vote) (b : Bool) (s : Restored) → HasRun first s → HasRun first (save_for h v (b, s))
  unfolding save_for
  save_for-HasRun v b s k = if-cases (HasRun first) (b && not h.read_only) _ s (λ _. k) (λ _. k)

  execute_previous-HasRun :
      (v : Vote) (s : Restored) → HasRun first s → Holds (HasRun first) (execute_previous h v s)
  unfolding execute_previous
  execute_previous-HasRun v s k = Holds-into (HasRun first) (log_assert _) _ (λ _.
      if-cases (Holds (HasRun first)) (v.decree == (s.max_accepted.decree + 1) % 2 ^ 64)
        (execute_vote h s.max_accepted s >>= λ r. done (save_for h v r)) (done s)
        (λ _.
          Holds-bind (Ran first) (HasRun first) (execute_vote h s.max_accepted s) _
            (execute_vote-HasRun s.max_accepted s k)
            (λ (save, t) run. save_for-HasRun v save t run))
        (λ _. k))

  replay_vote-HasRun :
      (v : Vote) (s : Restored) → HasRun first s → Holds (HasRun first) (replay_vote h v s)
  unfolding replay_vote accept
  replay_vote-HasRun v s k =
      Holds-bind (HasRun first) (HasRun first) _ _
        (if-cases (Holds (HasRun first))
          (not (eq s.max_accepted.ballot no_ballot) || not (s.max_accepted.decree == 0))
          (execute_previous h v s) (done s) (λ _. execute_previous-HasRun v s k) (λ _. k))
        (λ t run. run)

  replay_decision-HasRun :
      (m : Message) (s : Restored) → HasRun first s → Holds (HasRun first) (replay_decision h m s)
  unfolding replay_decision reconfigured
  replay_decision-HasRun m s k =
      Holds-log_assert (HasRun first)
        (s.max_accepted.decree == m.decree && ge s.max_accepted.ballot m.ballot) _
        (λ _. Holds-log_assert (HasRun first) s.max_accepted.is_reconfiguration _ (λ _.
          Holds-log_assert (HasRun first) (ltb s.last_executed m.decree) _ (λ _.
            Holds-bind (Ran first) (HasRun first) (execute_vote h s.max_accepted s) _
              (execute_vote-HasRun s.max_accepted s k)
              (λ (save, t) run. Holds-log_assert (HasRun first) (not save) _ (λ _. run)))))

  replay_new-HasRun :
      (m : Logged) (s : Restored) → HasRun first s → Holds (HasRun first) (replay_new h m s)
  unfolding replay_new promise
  replay_new-HasRun (logged_vote v) s k = replay_vote-HasRun v s k
  replay_new-HasRun (logged_prepare m) s k =
      if-cases (HasRun first) _ (record s { max_ballot = m.ballot }) s (λ _. k) (λ _. k)
  replay_new-HasRun (logged_decision m) s k = replay_decision-HasRun m s k

  replay_message-HasRun :
      (m : Logged) (s : Restored) → HasRun first s → Holds (HasRun first) (replay_message h m s)
  unfolding replay_message
  replay_message-HasRun m s k = Holds-into (HasRun first) (log_assert _) _ (λ _.
      Holds-into (HasRun first) (with_back (index_message m) s.log_files) _ (λ files.
        let t : Restored = record s { log_files = files } in
        if-cases (Holds (HasRun first)) (ltb (logged_header m).decree s.last_executed) _ _
          (λ _. Holds-skip (HasRun first) (log_assert _) t k)
          (λ _.
            if-cases (Holds (HasRun first)) ((logged_header m).decree == s.last_executed) _ _
              (λ _. Holds-skip (HasRun first) (log_assert _) t k) (λ _. replay_new-HasRun m t k))))

  -- A replay of one log executes the votes in the order of the decrees.
  pub replay_log-HasRun :
      (ms : List Logged) (s : Restored) → HasRun first s → Holds (HasRun first) (replay_log h ms s)
  unfolding replay_log
  replay_log-HasRun [] s k = k
  replay_log-HasRun (m ∷ ms) s k =
      if-cases (Holds (HasRun first)) (ltb s.last_executed h.max_decree) _ (done s)
        (λ _.
          Holds-bind (HasRun first) (HasRun first) (replay_message h m s) (replay_log h ms)
            (replay_message-HasRun m s k) (λ t run. replay_log-HasRun ms t run))
        (λ _. k)
