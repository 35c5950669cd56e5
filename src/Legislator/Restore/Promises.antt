-- ===== src/Legislator/Restore/Promises.antt =====
-- src/RSL/src/legislator.cpp: what a replica that replays its log knows of its promises.
use rsl.Common.{ℕ, ◌+◌, ◌%◌, ◌^◌, ◌≤◌, ◌<◌, ◌≡◌, ◌⊎◌, inl, inr, refl, ◌∙◌, sym, ap, subst, arith}
use rsl.Common.{Bool, not, ◌&&◌, ◌||◌, List, [], ◌∷◌, All, length}
use rsl.Common.{ltb, ◌==◌, if◌then◌else◌, if-cases}
use rsl.Common.{◌>>=◌, done, log_assert}
use rsl.Common.{Holds, Holds-bind, Holds-map, Holds-into, Holds-log_assert, Holds-skip}
use rsl.Ballot.{BallotNumber, no_ballot, gt, ge, eq}
use rsl.Ballot.Le.{Le, Le-refl, Le-trans, gt-Le, Le_of_id}
use rsl.Ballot.Order.{gt-lt}
use rsl.Message.{Message}
use rsl.Vote.{Vote}
use rsl.Legislator.{Logged, logged_vote, logged_prepare, logged_decision}
use rsl.Legislator.Log.{with_back}
use rsl.Legislator.Learn.{logged_header}
use rsl.Legislator.Restore.{
  Restored, Host, apply_vote, execute_vote, save_for, execute_previous, accept, replay_vote,
  promise, reconfigured, replay_decision, replay_new, replay_message, replay_log, index_message,
}

-- Nothing that the state `s` promises or has executed is lost in `t`.
abbrev pub Keeps : Restored → Restored → Type 0
Keeps s t = (s.last_executed ≤ t.last_executed) × Le s.max_ballot t.max_ballot

pub Keeps-trans : (s t u : Restored) → Keeps s t → Keeps t u → Keeps s u
Keeps-trans s t u (d, b) (f, c) = (omega arith, Le-trans s.max_ballot t.max_ballot u.max_ballot b c)

-- The decree of the message is executed, or its ballot is not above the promised one.
abbrev pub IsCovered : Restored → Logged → Type 0
IsCovered t m =
    ((logged_header m).decree ≤ t.last_executed) ⊎ Le (logged_header m).ballot t.max_ballot

pub Keeps-IsCovered : (s t : Restored) (m : Logged) → Keeps s t → IsCovered s m → IsCovered t m
Keeps-IsCovered s t m (d, b) (inl e) = inl (omega arith)
Keeps-IsCovered s t m (d, b) (inr e) =
    inr (Le-trans (logged_header m).ballot s.max_ballot t.max_ballot e b)

-- The decree and the ballot's number of a message that can stand in a log, with a bound on the
-- latter.
abbrev pub InRange : ℕ → Logged → Type 0
InRange b m = ((logged_header m).decree < 2 ^ 64) × ((logged_header m).ballot.ballot_id ≤ b)

-- What one message makes of the state.
abbrev Covers : ℕ → Logged → Restored → Restored → Type 0
Covers b m s t = Keeps s t × (t.max_ballot.ballot_id ≤ b + 1) × IsCovered t m

-- The vote is executed, and no promise is changed.
abbrev Executes : Vote → Restored → Bool × Restored → Type 0
Executes v s r =
    (v.decree ≡ r.1.last_executed)
    × (r.1.max_ballot ≡ s.max_ballot)
    × (s.last_executed ≤ r.1.last_executed)

abbrev SamePromise : Restored → Restored → Type 0
SamePromise s t = (t.max_ballot ≡ s.max_ballot) × (s.last_executed ≤ t.last_executed)

-- The higher of two ballots.
higher-Le :
    (b : ℕ) (x y : BallotNumber)
    → x.ballot_id ≤ b
    → y.ballot_id ≤ b
    → Le y (if gt x y then x else y)
      × ((if gt x y then x else y).ballot_id ≤ b)
      × Le x (if gt x y then x else y)
higher-Le b x y p q =
    if-cases (λ z. Le y z × (z.ballot_id ≤ b) × Le x z) (gt x y) x y
      (λ e. (gt-Le x y e, p, Le-refl x)) (λ e. (Le-refl y, q, sym (gt-lt x y) ∙ e))

module _ (h : Host) where
  execute_vote-Executes :
      (v : Vote) (s : Restored)
      → s.last_executed + 1 < 2 ^ 64
      → Holds (Executes v s) (execute_vote h v s)
  unfolding execute_vote apply_vote
  execute_vote-Executes v s k =
      Holds-log_assert (Executes v s)
        (v.decree == s.last_executed || v.decree == (s.last_executed + 1) % 2 ^ 64) _
        (λ e.
          if-cases (Holds (Executes v s)) (v.decree == (s.last_executed + 1) % 2 ^ 64) _ _
            (λ same. (ground arith, refl, omega arith))
            (λ other. (ground arith, refl, omega arith)))

  save_for-SamePromise : (v : Vote) (b : Bool) (s : Restored) → SamePromise s (save_for h v (b, s))
  unfolding save_for
  save_for-SamePromise v b s =
      if-cases (SamePromise s) (b && not h.read_only) _ s (λ _. (refl, omega arith))
        (λ _. (refl, omega arith))

  execute_previous-SamePromise :
      (v : Vote) (s : Restored)
      → s.last_executed + 1 < 2 ^ 64
      → Holds (SamePromise s) (execute_previous h v s)
  unfolding execute_previous
  execute_previous-SamePromise v s k = Holds-into (SamePromise s) (log_assert _) _ (λ _.
      if-cases (Holds (SamePromise s)) (v.decree == (s.max_accepted.decree + 1) % 2 ^ 64)
        (execute_vote h s.max_accepted s >>= λ r. done (save_for h v r)) (done s)
        (λ _.
          Holds-bind (Executes s.max_accepted s) (SamePromise s) (execute_vote h s.max_accepted s) _
            (execute_vote-Executes s.max_accepted s k)
            (λ (save, t) (_, same, le).
              let (p, q) = save_for-SamePromise v save t in (p ∙ same, omega (arith, q, le))))
        (λ _. (refl, omega arith)))

  accept-Covers :
      (b : ℕ) (v : Vote) (s t : Restored)
      → SamePromise s t
      → v.ballot.ballot_id ≤ b
      → s.max_ballot.ballot_id ≤ b
      → Covers b (logged_vote v) s (accept h v t)
  unfolding accept
  accept-Covers b v s t (same, le) r k =
      let (p, q, u) =
        higher-Le b v.ballot t.max_ballot r (subst (λ z. z.ballot_id ≤ b) (sym same) k) in
      (
        (
          le,
          subst (λ z. Le z (if gt v.ballot t.max_ballot then v.ballot else t.max_ballot)) same p,
        ),
        omega (arith, q),
        inr u,
      )

  replay_vote-Covers :
      (b : ℕ) (v : Vote) (s : Restored)
      → s.last_executed < v.decree
      → InRange b (logged_vote v)
      → s.max_ballot.ballot_id ≤ b
      → Holds (Covers b (logged_vote v) s) (replay_vote h v s)
  unfolding replay_vote
  replay_vote-Covers b v s d (e, r) k =
      Holds-bind (SamePromise s) (Covers b (logged_vote v) s) _ _
        (if-cases (Holds (SamePromise s))
          (not (eq s.max_accepted.ballot no_ballot) || not (s.max_accepted.decree == 0))
          (execute_previous h v s) (done s) (λ _. execute_previous-SamePromise v s (omega arith))
          (λ _. (refl, omega arith)))
        (λ t same. accept-Covers b v s t same r k)

  promise-Covers :
      (b : ℕ) (m : _) (s : Restored)
      → InRange b (logged_prepare m)
      → s.max_ballot.ballot_id ≤ b
      → Covers b (logged_prepare m) s (promise h m.ballot s)
  unfolding promise
  promise-Covers b m s (e, r) k =
      if-cases (Covers b (logged_prepare m) s) (gt m.ballot s.max_ballot)
        (record s { max_ballot = m.ballot }) s
        (λ up. ((omega arith, gt-Le m.ballot s.max_ballot up), omega arith, inr (Le-refl m.ballot)))
        (λ up. (
          (omega arith, Le-refl s.max_ballot),
          omega arith,
          inr (sym (gt-lt m.ballot s.max_ballot) ∙ up),
        ))

  replay_decision-Covers :
      (b : ℕ) (m : Message) (s : Restored)
      → InRange b (logged_decision m)
      → s.max_ballot.ballot_id ≤ b
      → b + 1 < 2 ^ 32
      → Holds (Covers b (logged_decision m) s) (replay_decision h m s)
  unfolding replay_decision reconfigured
  replay_decision-Covers b m s (e, r) k l =
      Holds-log_assert (Covers b (logged_decision m) s)
        (s.max_accepted.decree == m.decree && ge s.max_accepted.ballot m.ballot) _
        (λ same.
          Holds-log_assert (Covers b (logged_decision m) s) s.max_accepted.is_reconfiguration _
            (λ _.
              Holds-log_assert (Covers b (logged_decision m) s) (ltb s.last_executed m.decree) _
                (λ d.
                  Holds-bind (Executes s.max_accepted s) (Covers b (logged_decision m) s)
                    (execute_vote h s.max_accepted s) _
                    (execute_vote-Executes s.max_accepted s (ground arith))
                    (λ (save, t) (at, same_ballot, le).
                      Holds-log_assert (Covers b (logged_decision m) s) (not save) _ (λ _.
                        let id : t.max_ballot.ballot_id ≡ s.max_ballot.ballot_id =
                          ap (λ z. z.ballot_id) same_ballot in
                        (
                          (le, Le_of_id s.max_ballot _ (omega arith)),
                          omega arith,
                          inl (ground (arith, at)),
                        ))))))

  replay_new-Covers :
      (b : ℕ) (m : Logged) (s : Restored)
      → s.last_executed < (logged_header m).decree
      → InRange b m
      → s.max_ballot.ballot_id ≤ b
      → b + 1 < 2 ^ 32
      → Holds (Covers b m s) (replay_new h m s)
  unfolding replay_new
  replay_new-Covers b (logged_vote v) s d r k l = replay_vote-Covers b v s d r k
  replay_new-Covers b (logged_prepare m) s d r k l = promise-Covers b m s r k
  replay_new-Covers b (logged_decision m) s d r k l = replay_decision-Covers b m s r k l

  replay_message-Covers :
      (b : ℕ) (m : Logged) (s : Restored)
      → InRange b m
      → s.max_ballot.ballot_id ≤ b
      → b + 1 < 2 ^ 32
      → Holds (Covers b m s) (replay_message h m s)
  unfolding replay_message
  replay_message-Covers b m s r k l = Holds-into (Covers b m s) (log_assert _) _ (λ _.
      Holds-into (Covers b m s) (with_back (index_message m) s.log_files) _ (λ files.
        let t : Restored = record s { log_files = files } in
        if-cases (Holds (Covers b m s)) (ltb (logged_header m).decree s.last_executed) _ _
          (λ old.
            Holds-skip (Covers b m s) (log_assert _) t
              ((omega arith, Le-refl s.max_ballot), omega arith, inl (ground arith)))
          (λ recent.
            if-cases (Holds (Covers b m s)) ((logged_header m).decree == s.last_executed) _ _
              (λ same.
                Holds-skip (Covers b m s) (log_assert _) t
                  ((omega arith, Le-refl s.max_ballot), omega arith, inl (ground arith)))
              (λ other. replay_new-Covers b m t (ground arith) r k l))))

  -- The message is covered, and so is the rest, unless the replay has stopped.
  abbrev pub Replayed : List Logged → Restored → Restored → Type 0
  Replayed ms s t = Keeps s t × ((h.max_decree ≤ t.last_executed) ⊎ All (IsCovered t) ms)

  Replayed-cons :
      (b : ℕ) (m : Logged) (ms : List Logged) (s t u : Restored)
      → Covers b m s t
      → Replayed ms t u
      → Replayed (m ∷ ms) s u
  Replayed-cons b m ms s t u (k, e, c) (k₂, inl over) = (Keeps-trans s t u k k₂, inl over)
  Replayed-cons b m ms s t u (k, e, c) (k₂, inr cs) =
      (Keeps-trans s t u k k₂, inr (Keeps-IsCovered t u m k₂ c, cs))

  -- The promised ballot's number rises by one for each message at most.
  abbrev pub Replays : ℕ → List Logged → Restored → Restored → Type 0
  Replays b ms s t = Replayed ms s t × (t.max_ballot.ballot_id ≤ b + length ms)

  pub replay_log-Replays :
      (c b : ℕ) (ms : List Logged) (s : Restored)
      → All (InRange c) ms
      → c ≤ b
      → s.max_ballot.ballot_id ≤ b
      → b + length ms < 2 ^ 32
      → Holds (Replays b ms s) (replay_log h ms s)
  unfolding replay_log
  replay_log-Replays c b [] s r cb k l =
      (((omega arith, Le-refl s.max_ballot), inr tt), omega arith)
  replay_log-Replays c b (m ∷ ms) s ((d, i), r) cb k l =
      if-cases (Holds (Replays b (m ∷ ms) s)) (ltb s.last_executed h.max_decree) _ (done s)
        (λ _.
          Holds-bind (Covers b m s) (Replays b (m ∷ ms) s) (replay_message h m s) (replay_log h ms)
            (replay_message-Covers b m s (d, omega arith) k (omega arith))
            (λ t c₁.
              Holds-map (Replays (b + 1) ms t) (Replays b (m ∷ ms) s) (replay_log h ms t)
                (replay_log-Replays c (b + 1) ms t r (omega arith) c₁.1 (omega arith))
                (λ u (rest, e). (Replayed-cons b m ms s t u c₁ rest, omega arith))))
        (λ over. (((omega arith, Le-refl s.max_ballot), inl (ground arith)), omega arith))
