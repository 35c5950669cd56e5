-- ===== src/Legislator/Cleanup/Restorable.antt =====
-- src/RSL/src/legislator.cpp: the files that a restart needs outlive `CheckpointDone`.
use rsl.Common.{ℕ, ◌+◌, ◌%◌, ◌^◌, ◌≤◌, ◌<◌, ◌≡◌, refl, ◌∙◌, sym, ap, subst, arith}
use rsl.Common.{Bool, true, ◌&&◌, List, [], ◌∷◌, All, length}
use rsl.Common.{ltb, leb, ◌==◌, if◌then◌else◌, if-cases}
use rsl.Common.{◌>>=◌, Returns, Returns-bind, Returns-log_assert}
use rsl.Legislator.{Legislator}
use rsl.Legislator.Restore.{Restored, Host}
use rsl.Legislator.Restore.Files.{
  LogContents, prefer, from_checkpoint, replay_files, resume, restore, unless_failed,
}
use rsl.Legislator.Cleanup.{
  Disk, Janitor, add_number, delete_checkpoints, delete_logs, delete_old, cleanup, note_checkpoint,
  moved, checkpoint_done,
}

-- Ascending numbers of checkpoints, none below `oldest`, each with a decree after it.
abbrev pub Ascending : ℕ → List ℕ → Type 0
Ascending oldest [] = Unit {0}
Ascending oldest (c ∷ cs) = (oldest ≤ c) × (c + 1 < 2 ^ 64) × Ascending c cs

-- The last number of a list.
unfoldable pub newest : ℕ → List ℕ → ℕ
newest c [] = c
newest c (d ∷ ds) = newest d ds

if-true_lem : {A : Type 0} (b : Bool) (x y : A) → b ≡ true → (if b then x else y) ≡ x
if-true_lem b x y e = rw e refl

prefer_twice :
    (r : List LogContents) (g : LogContents) (fs ys : List LogContents)
    → prefer (prefer r (g ∷ fs)) ys ≡ prefer r (g ∷ fs)
unfolding prefer
prefer_twice [] g fs ys = refl
prefer_twice (x ∷ xs) g fs ys = refl

-- A file that starts late enough hides those before it.
from_checkpoint_hides :
    (c : ℕ) (f g : LogContents) (fs rest : List LogContents)
    → leb g.starts_at ((c + 1) % 2 ^ 64) ≡ true
    → from_checkpoint c rest ≡ from_checkpoint c (g ∷ fs)
    → from_checkpoint c (f ∷ rest) ≡ from_checkpoint c (g ∷ fs)
unfolding from_checkpoint
from_checkpoint_hides c f g fs rest e same =
    let late : from_checkpoint c (g ∷ fs) ≡ prefer (from_checkpoint c fs) (g ∷ fs) =
      ap (prefer (from_checkpoint c fs)) (if-true_lem _ (g ∷ fs) [] e) in
    ap (λ r. prefer r (if leb f.starts_at ((c + 1) % 2 ^ 64) then f ∷ rest else [])) (same ∙ late)
    ∙ prefer_twice (from_checkpoint c fs) g fs
        (if leb f.starts_at ((c + 1) % 2 ^ 64) then f ∷ rest else [])
    ∙ sym late

All-map : (P Q : ℕ → Type 0) (cs : List ℕ) → ((c : ℕ) → P c → Q c) → All P cs → All Q cs
All-map P Q [] k p = tt
All-map P Q (c ∷ cs) k (p, ps) = (k c p, All-map P Q cs k ps)

module _ (j : Janitor) where
  delete_logs-from :
      (oldest c : ℕ) (fs : List LogContents)
      → oldest ≤ c
      → c + 1 < 2 ^ 64
      → from_checkpoint c (delete_logs j oldest fs) ≡ from_checkpoint c fs
  unfolding delete_logs
  delete_logs-from oldest c [] le small = refl
  delete_logs-from oldest c (f ∷ []) le small = refl
  delete_logs-from oldest c (f ∷ g ∷ fs) le small =
      let P : List LogContents → Type 0 =
        λ r. from_checkpoint c r ≡ from_checkpoint c (f ∷ g ∷ fs) in
      let rest = delete_logs-from oldest c (g ∷ fs) le small in
      if-cases P (ltb j.max_logs (length (f ∷ g ∷ fs)) && leb g.starts_at ((oldest + 1) % 2 ^ 64)) _
        (f ∷ g ∷ fs)
        (λ e.
          let late : leb g.starts_at ((c + 1) % 2 ^ 64) ≡ true = ground arith in
          let all = from_checkpoint_hides c f g fs (g ∷ fs) late refl in
          if-cases P (j.deletes_log f.starts_at) (delete_logs j oldest (g ∷ fs)) _
            (λ _. rest ∙ sym all)
            (λ _.
              from_checkpoint_hides c f g fs (delete_logs j oldest (g ∷ fs)) late rest ∙ sym all))
        (λ _. refl)

  delete_checkpoints-All :
      (P : ℕ → Type 0) (cs : List ℕ) → All P cs → All P (delete_checkpoints j cs)
  unfolding delete_checkpoints
  delete_checkpoints-All P [] p = tt
  delete_checkpoints-All P (c ∷ cs) (p, ps) =
      let rest = delete_checkpoints-All P cs ps in
      if-cases (All P) (ltb j.max_checkpoints (length (c ∷ cs))) _ (c ∷ cs)
        (λ _.
          if-cases (All P) (j.deletes_checkpoint c) (delete_checkpoints j cs) _ (λ _. rest)
            (λ _. (p, rest)))
        (λ _. (p, ps))

  delete_checkpoints-newest :
      (c : ℕ) (cs : List ℕ) (old : ℕ)
      → 0 < j.max_checkpoints
      → newest old (delete_checkpoints j (c ∷ cs)) ≡ newest c cs
  unfolding delete_checkpoints newest
  delete_checkpoints-newest c [] old pos =
      if-cases (λ r. newest old r ≡ c) (ltb j.max_checkpoints 1) _ (c ∷ []) (λ e. ground arith)
        (λ _. refl)
  delete_checkpoints-newest c (d ∷ ds) old pos =
      let P : List ℕ → Type 0 = λ r. newest old r ≡ newest d ds in
      if-cases P (ltb j.max_checkpoints (length (c ∷ d ∷ ds))) _ (c ∷ d ∷ ds)
        (λ _.
          if-cases P (j.deletes_checkpoint c) (delete_checkpoints j (d ∷ ds))
            (c ∷ delete_checkpoints j (d ∷ ds)) (λ _. delete_checkpoints-newest d ds old pos)
            (λ _. delete_checkpoints-newest d ds c pos))
        (λ _. refl)

Ascending-All : (o : ℕ) (cs : List ℕ) → Ascending o cs → All (λ c. (o ≤ c) × (c + 1 < 2 ^ 64)) cs
Ascending-All o [] a = tt
Ascending-All o (c ∷ cs) (le, small, a) =
    ((le, small), All-map _ _ cs (λ d (ge, s). (omega arith, s)) (Ascending-All c cs a))

add_number-Ascending :
    (o n : ℕ) (cs : List ℕ)
    → o ≤ n
    → n + 1 < 2 ^ 64
    → Ascending o cs
    → Ascending o (add_number n cs)
unfolding add_number
add_number-Ascending o n [] le small a = (le, small, tt)
add_number-Ascending o n (c ∷ cs) le small (oc, sc, a) =
    if-cases (Ascending o) (ltb n c) (n ∷ c ∷ cs) _ (λ e. (le, small, (ground arith, sc, a)))
      (λ e.
        if-cases (Ascending o) (n == c) (c ∷ cs) (c ∷ add_number n cs) (λ _. (oc, sc, a))
          (λ _. (oc, sc, add_number-Ascending c n cs (ground arith) small a)))

-- Every checkpoint of the disk `e` restores what it restores with `logs`.
abbrev pub IsRestorable : Host → Restored → List LogContents → Disk → Type 0
IsRestorable h t logs e = All (λ c. restore h c e.logs t ≡ restore h c logs t) e.checkpoints

restore-same :
    (h : Host) (t : Restored) (c : ℕ) (xs ys : List LogContents)
    → from_checkpoint c xs ≡ from_checkpoint c ys
    → restore h c xs t ≡ restore h c ys t
unfolding restore
restore-same h t c xs ys e = ap (λ fs. replay_files h fs t >>= unless_failed (resume h)) e

module _ (j : Janitor) (h : Host) (t : Restored) where
  -- The checkpoints that are left restore what they restored, and the newest one is left.
  abbrev pub Keeps : List ℕ → List LogContents → Disk → Type 0
  Keeps cs logs e = IsRestorable h t logs e × (newest 0 e.checkpoints ≡ newest 0 cs)

  delete_old-Keeps :
      (cs : List ℕ) (logs : List LogContents)
      → 0 < length cs
      → 0 < j.max_checkpoints
      → Ascending 0 cs
      → Returns (Keeps cs logs) (delete_old j cs logs)
  unfolding delete_old newest
  delete_old-Keeps [] logs some_left pos a = let none_left : ⊥ = omega arith in elim none_left [ ]
  delete_old-Keeps (c ∷ cs) logs some_left pos (z, small, a) = (
    delete_checkpoints-All j (λ x. restore h x (delete_logs j c logs) t ≡ restore h x logs t)
        (c ∷ cs)
        (All-map _ _ (c ∷ cs)
          (λ x (le, s).
            restore-same h t x (delete_logs j c logs) logs (delete_logs-from j c x logs le s))
          ((omega arith, small), Ascending-All c cs a)),
    delete_checkpoints-newest j c cs 0 pos,
  )

  cleanup-Keeps :
      (last_executed : ℕ) (s : Legislator) (d : Disk)
      → 0 < length d.checkpoints
      → 0 < j.max_checkpoints
      → 0 < j.max_logs
      → Ascending 0 d.checkpoints
      → Returns (λ r. Keeps d.checkpoints d.logs (r.1)) (cleanup j last_executed s d)
  unfolding cleanup
  cleanup-Keeps last_executed s d some_left pos pos' a =
      let P : Legislator × Disk → Type 0 = λ r. Keeps d.checkpoints d.logs (r.1) in
      Returns-log_assert P (ltb 0 j.max_checkpoints && ltb 0 j.max_logs) _ (ground arith) (
        Returns-bind (Keeps d.checkpoints d.logs) P (delete_old j d.checkpoints d.logs) _
          (delete_old-Keeps d.checkpoints d.logs some_left pos a) (λ d' k. k))

  moved-logs : (decree : ℕ) (d : Disk) → (moved j decree d).logs ≡ d.logs
  unfolding moved
  moved-logs decree d = if-cases (λ e. e.logs ≡ d.logs) j.moves _ d (λ _. refl) (λ _. refl)

  moved-Ascending :
      (decree : ℕ) (d : Disk)
      → Ascending 0 d.checkpoints
      → decree + 1 < 2 ^ 64
      → Ascending 0 (moved j decree d).checkpoints
  unfolding moved
  moved-Ascending decree d a small =
      if-cases (λ e. Ascending 0 e.checkpoints) j.moves _ d
        (λ _. add_number-Ascending 0 decree d.checkpoints (omega arith) small a) (λ _. a)

  -- `CheckpointDone` deletes nothing that a restart needs: it ends, each checkpoint that is left,
  -- with the log files that are left, restores what it restores with all of the log files, and the
  -- newest checkpoint is left, whichever files the system refuses to delete. At least one
  -- checkpoint and one log are to be kept; there is a checkpoint, if only the new one; the numbers
  -- of the checkpoints on the disk ascend, and they and the new one are below the largest decree.
  pub checkpoint_done-Keeps :
      (last_executed decree size : ℕ) (s : Legislator) (d : Disk)
      → 0 < j.max_checkpoints
      → 0 < j.max_logs
      → 0 < length (moved j decree d).checkpoints
      → Ascending 0 d.checkpoints
      → decree + 1 < 2 ^ 64
      → Returns
          (λ r. Keeps (moved j decree d).checkpoints d.logs (r.1))
          (checkpoint_done j last_executed decree size s d)
  unfolding checkpoint_done
  checkpoint_done-Keeps last_executed decree size s d pos pos' some_left a small =
      subst
        (λ logs.
          Returns (λ r. Keeps (moved j decree d).checkpoints logs (r.1))
            (checkpoint_done j last_executed decree size s d))
        (moved-logs decree d)
        (cleanup-Keeps last_executed (note_checkpoint j decree size s) (moved j decree d) some_left
          pos pos' (moved-Ascending decree d a small))
