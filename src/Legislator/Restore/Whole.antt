-- ===== src/Legislator/Restore/Whole.antt =====
-- src/RSL/src/legislator.cpp: what `RestoreState` achieves over all the log files that it replays.
use rsl.Common.{ℕ, ◌+◌, ◌-◌, ◌%◌, ◌^◌, ◌≤◌, ◌<◌, ◌≡◌, ◌⊎◌, inl, inr, refl, sym, subst, arith}
use rsl.Common.{◌||◌, List, [], ◌∷◌, All, length, Option, none, some}
use rsl.Common.{ltb, ◌==◌, if-cases}
use rsl.Common.{Outcome, done, log_assert}
use rsl.Common.{Holds, Holds-bind, Holds-map, Holds-into}
use rsl.Ballot.Le.{Le, Le-refl}
use rsl.Vote.{Vote}
use rsl.LogFile.{new_log_file}
use rsl.Legislator.{Logged}
use rsl.Legislator.Restore.{Restored, Host, replay_log}
use rsl.Legislator.Restore.Promises.{Keeps, Keeps-trans, IsCovered, Keeps-IsCovered, InRange}
use rsl.Legislator.Restore.Promises.{Replayed, Replays, replay_log-Replays}
use rsl.Legislator.Restore.Order.{IsRun, HasRun, replay_log-HasRun}
use rsl.Legislator.Restore.Files.{
  LogContents, from_checkpoint, is_read, replay_file, replay_files, log_of, resume_from, resume,
  restore, unless_failed,
}

-- The property of a state that was restored.
abbrev pub Restores : (Restored → Type 0) → Option Restored → Type 0
Restores P none = Unit {_}
Restores P (some t) = P t

abbrev pub IsFileInRange : ℕ → LogContents → Type 0
IsFileInRange c f = All (InRange c) f.messages

abbrev pub IsFileCovered : Restored → LogContents → Type 0
IsFileCovered t f = All (IsCovered t) f.messages

-- The number of messages of all files.
unfoldable pub count : List LogContents → ℕ
count [] = 0
count (f ∷ fs) = length f.messages + count fs

Keeps-IsCovered-All :
    (s t : Restored) (ms : List Logged) → Keeps s t → All (IsCovered s) ms → All (IsCovered t) ms
Keeps-IsCovered-All s t [] k c = tt
Keeps-IsCovered-All s t (m ∷ ms) k (c, cs) =
    (Keeps-IsCovered s t m k c, Keeps-IsCovered-All s t ms k cs)

Holds-unless_failed :
    (P Q : Restored → Type 0) (f : Restored → Outcome (Option Restored)) (o : Option Restored)
    → Restores P o
    → ((t : Restored) → P t → Holds (Restores Q) (f t))
    → Holds (Restores Q) (unless_failed f o)
Holds-unless_failed P Q f none p k = tt
Holds-unless_failed P Q f (some t) p k = k t p

Restores-map :
    (P Q : Restored → Type 0) (o : Option Restored)
    → ((t : Restored) → P t → Q t)
    → Restores P o
    → Restores Q o
Restores-map P Q none k p = tt
Restores-map P Q (some t) k p = k t p

abbrev Same : Restored → Restored → Type 0
Same s t =
    (t.max_ballot ≡ s.max_ballot) × (t.last_executed ≡ s.last_executed) × (t.executed ≡ s.executed)

module _ (h : Host) where
  -- No promise is lost, and every file's messages are covered, unless the replay has stopped.
  abbrev pub Recovers : List LogContents → Restored → Restored → Type 0
  Recovers fs s t = Keeps s t × ((h.max_decree ≤ t.last_executed) ⊎ All (IsFileCovered t) fs)

  Recovers-cons :
      (f : LogContents) (fs : List LogContents) (s t u : Restored)
      → Replayed h f.messages s t
      → Recovers fs t u
      → Recovers (f ∷ fs) s u
  Recovers-cons f fs s t u (k, inl over) (l, c) = (Keeps-trans s t u k l, inl (omega arith))
  Recovers-cons f fs s t u (k, inr c) (l, inl over) = (Keeps-trans s t u k l, inl over)
  Recovers-cons f fs s t u (k, inr c) (l, inr cs) =
      (Keeps-trans s t u k l, inr (Keeps-IsCovered-All t u f.messages l c, cs))

  replay_file-Replays :
      (c b : ℕ) (f : LogContents) (s : Restored)
      → IsFileInRange c f
      → c ≤ b
      → s.max_ballot.ballot_id ≤ b
      → b + length f.messages < 2 ^ 32
      → Holds (Restores (Replays h b f.messages s)) (replay_file h f s)
  unfolding replay_file
  replay_file-Replays c b f s r cb k l =
      let P = Restores (Replays h b f.messages s) in
      let start : Restored = record s { log_files = new_log_file ∷ s.log_files } in
      if-cases (Holds P) f.opens _ (done none)
        (λ _.
          Holds-bind (Replays h b f.messages start) P (replay_log h f.messages start) _
            (replay_log-Replays h c b f.messages start r cb k l)
            (λ t done_with. if-cases P (is_read h f t) (some t) none (λ _. done_with) (λ _. tt)))
        (λ _. tt)

  replay_files-Recovers :
      (c b : ℕ) (fs : List LogContents) (s : Restored)
      → All (IsFileInRange c) fs
      → c ≤ b
      → s.max_ballot.ballot_id ≤ b
      → b + count fs < 2 ^ 32
      → Holds (Restores (Recovers fs s)) (replay_files h fs s)
  unfolding replay_files count
  replay_files-Recovers c b [] s r cb k l = ((omega arith, Le-refl s.max_ballot), inr tt)
  replay_files-Recovers c b (f ∷ fs) s (r, rs) cb k l =
      let P = Restores (Recovers (f ∷ fs) s) in
      if-cases (Holds P) (ltb s.last_executed h.max_decree) _ (done (some s))
        (λ _.
          Holds-bind (Restores (Replays h b f.messages s)) P (replay_file h f s) _
            (replay_file-Replays c b f s r cb k (omega arith))
            (λ o p.
              Holds-unless_failed (Replays h b f.messages s) (Recovers (f ∷ fs) s)
                (replay_files h fs) o p
                (λ t (g, i).
                  Holds-map (Restores (Recovers fs t)) P (replay_files h fs t)
                    (replay_files-Recovers c (b + length f.messages) fs t rs (omega arith) i
                      (omega arith))
                    (λ x.
                      Restores-map (Recovers fs t) (Recovers (f ∷ fs) s) x
                        (λ u z. Recovers-cons f fs s t u g z)))))
        (λ over. ((omega arith, Le-refl s.max_ballot), inl (ground arith)))

  -- The checkpoint's vote changes neither the promised ballot nor what has been executed.
  resume_from-Same : (v : Option Vote) (s : Restored) → Holds (Same s) (resume_from h v s)
  unfolding resume_from
  resume_from-Same none s = (refl, refl, refl)
  resume_from-Same (some v) s =
      if-cases (Holds (Same s)) (ltb s.max_accepted.decree v.decree) _ (done s)
        (λ _. Holds-into (Same s) (log_of h v) _ (λ f. (refl, refl, refl)))
        (λ _. (refl, refl, refl))

  resume-Restores :
      (P : Restored → Type 0) (t : Restored)
      → ((u : Restored) → Same t u → P u)
      → Holds (Restores P) (resume h t)
  unfolding resume
  resume-Restores P t k =
      Holds-bind (Same t) (Restores P) (resume_from h t.checkpoint_vote t) _
        (resume_from-Same t.checkpoint_vote t)
        (λ u same.
          Holds-into (Restores P)
            (log_assert (
              u.last_executed == 0
              || u.last_executed == (u.max_accepted.decree + (2 ^ 64 - 1)) % 2 ^ 64))
            (λ _. done (some u)) (λ _. k u same))

  Recovers-Same :
      (fs : List LogContents) (s t u : Restored) → Recovers fs s t → Same t u → Recovers fs s u
  Recovers-Same fs s t u (k, c) (p, q, _) =
      let same : Keeps t u =
        (omega arith, subst (Le t.max_ballot) (sym p) (Le-refl t.max_ballot)) in
      (Keeps-trans s t u k same, recovered t u fs same c)
    where
      files_later :
          (t u : Restored) (fs : List LogContents)
          → Keeps t u
          → All (IsFileCovered t) fs
          → All (IsFileCovered u) fs
      files_later t u [] k c = tt
      files_later t u (f ∷ fs) k (c, cs) =
          (Keeps-IsCovered-All t u f.messages k c, files_later t u fs k cs)

      recovered :
          (t u : Restored) (fs : List LogContents)
          → Keeps t u
          → (h.max_decree ≤ t.last_executed) ⊎ All (IsFileCovered t) fs
          → (h.max_decree ≤ u.last_executed) ⊎ All (IsFileCovered u) fs
      recovered t u fs k (inl over) = inl (omega (arith, k.0))
      recovered t u fs k (inr c) = inr (files_later t u fs k c)

  -- After a restart no promise is lost: unless the replica was told to stop at a decree and has
  -- executed it, each message of the log files that are replayed is of an executed decree or has a
  -- ballot that is not above the promised one; and neither the promised ballot nor the last executed
  -- decree is below the checkpoint's. Decrees are UInt64; the ballots' numbers are at most `b`, and
  -- `b` with the number of messages stays in the range of UInt32.
  pub restore-Recovers :
      (b decree : ℕ) (files : List LogContents) (s : Restored)
      → All (IsFileInRange b) (from_checkpoint decree files)
      → s.max_ballot.ballot_id ≤ b
      → b + count (from_checkpoint decree files) < 2 ^ 32
      → Holds (Restores (Recovers (from_checkpoint decree files) s)) (restore h decree files s)
  unfolding restore
  restore-Recovers b decree files s r k l =
      let fs = from_checkpoint decree files in
      Holds-bind (Restores (Recovers fs s)) (Restores (Recovers fs s)) (replay_files h fs s) _
        (replay_files-Recovers b b fs s r (omega arith) k l)
        (λ o p.
          Holds-unless_failed (Recovers fs s) (Recovers fs s) (resume h) o p
            (λ t q. resume-Restores (Recovers fs s) t (λ u same. Recovers-Same fs s t u q same)))

  Same-HasRun : (first : ℕ) (t u : Restored) → HasRun first t → Same t u → HasRun first u
  Same-HasRun first t u run (_, q, e) =
      subst (λ vs. IsRun first u.last_executed vs) (sym e)
        (subst (λ d. IsRun first d t.executed) (sym q) run)

  replay_files-HasRun :
      (first : ℕ) (fs : List LogContents) (s : Restored)
      → HasRun first s
      → Holds (Restores (HasRun first)) (replay_files h fs s)
  unfolding replay_files replay_file
  replay_files-HasRun first [] s run = run
  replay_files-HasRun first (f ∷ fs) s run =
      let P = Restores (HasRun first) in
      let start : Restored = record s { log_files = new_log_file ∷ s.log_files } in
      if-cases (Holds P) (ltb s.last_executed h.max_decree) _ (done (some s))
        (λ _.
          Holds-bind P P (replay_file h f s) _
            (if-cases (Holds P) f.opens _ (done none)
              (λ _.
                Holds-bind (HasRun first) P (replay_log h f.messages start) _
                  (replay_log-HasRun h first f.messages start run)
                  (λ t r. if-cases P (is_read h f t) (some t) none (λ _. r) (λ _. tt)))
              (λ _. tt))
            (λ o p.
              Holds-unless_failed (HasRun first) (HasRun first) (replay_files h fs) o p
                (λ t r. replay_files-HasRun first fs t r)))
        (λ _. run)

  -- A restart hands the votes to the application in the order of their decrees, one for each: if
  -- that holds of the votes executed since the decree `first` when the checkpoint has been loaded,
  -- it holds of the state that is restored, and up to its last executed decree.
  pub restore-HasRun :
      (first decree : ℕ) (files : List LogContents) (s : Restored)
      → HasRun first s
      → Holds (Restores (HasRun first)) (restore h decree files s)
  unfolding restore
  restore-HasRun first decree files s run =
      let fs = from_checkpoint decree files in
      Holds-bind (Restores (HasRun first)) (Restores (HasRun first)) (replay_files h fs s) _
        (replay_files-HasRun first fs s run)
        (λ o p.
          Holds-unless_failed (HasRun first) (HasRun first) (resume h) o p
            (λ t r. resume-Restores (HasRun first) t (λ u same. Same-HasRun first t u r same)))
