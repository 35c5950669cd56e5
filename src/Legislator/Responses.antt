-- ===== src/Legislator/Responses.antt =====
-- src/RSL/src/legislator.cpp: collecting status responses, and the queue of received votes.
use rsl.Common.{ℕ, ◌+◌, ◌-◌, ◌*◌, ◌/◌, ◌^◌, ◌<◌, ◌≤◌, ◌≡◌, ==_eq, subst, refl, ◌∙◌, arith}
use rsl.Common.{List, [], ◌∷◌, ◌++◌, true, false, Option, leb, ltb, ◌==◌}
use rsl.Common.{Outcome, done, if-cases, if◌then◌else◌, length}
use rsl.Ballot.{MemberId, eq}
use rsl.Ballot.Le.{Le, Le-id}
use rsl.Ballot.Order.{eq_self}
use rsl.Message.{is_lower_decree, is_same_decree}
use rsl.Message.Bodies.{StatusResponse}
use rsl.Vote.{Vote}
use rsl.StatusMap.{insert}
use rsl.StatusMap.Refines.{Refines, override, insert-Refines}
use rsl.Legislator.{Legislator, Env, am_primary, is_initializing, quorum_size}
use rsl.Legislator.Learn
use rsl.Legislator.Status

-- The answers of members that with this replica are no more than half of the configuration decide
-- nothing, at a replica that initializes and asked for the place that is answered: the answer goes
-- into the map, under its sender, and at most the timer of a checkpoint copy is stopped.
pub handle_status_response-minority :
    (e : Env) (again : Legislator → Outcome Legislator) (m : StatusResponse) (s : Legislator)
    (f : MemberId → Option StatusResponse)
    → Refines s.status_map f
    → length s.status_map.queue + 2 < 2 ^ 32
    → am_primary s ≡ false
    → is_initializing s ≡ true
    → (m.query_decree == s.max_accepted.decree) ≡ true
    → eq m.query_ballot s.max_accepted.ballot ≡ true
    → 2 * (length (insert m s.status_map).queue + 1) ≤ length s.replicas + 1
    → (Status.handle_status_response e again m s
        ≡ done (record (Status.start_copy e again m s) { status_map = insert m s.status_map }))
      × Refines (insert m s.status_map) (override m f)
unfolding Status.handle_status_response Status.count_status Status.start_copy quorum_size
handle_status_response-minority e again m s f map room secondary initializing decree ballot few =
    let refines = insert-Refines m s.status_map f map room in
    let short : leb ((length s.replicas + 1) / 2 + 1 - 1) (insert m s.status_map).num_responses
        ≡ false =
      ground (arith, refines.counted) in
    (rw (secondary, decree, ballot, initializing, short) refl, refines)

-- `w` is for no lower decree than `v` and has no lower ballot, and is not for the same place.
pub record IsAfter (v w : Vote) : Type 0 where
  pub decree : v.decree ≤ w.decree
  pub number : v.ballot.ballot_id ≤ w.ballot.ballot_id
  pub ballot : Le v.ballot w.ballot
  pub apart : ¬ ((w.decree ≡ v.decree) × (w.ballot ≡ v.ballot))

-- Each vote in the queue comes after the one before it.
abbrev pub Rising : List Vote → Type 0
Rising [] = Unit
Rising (v ∷ []) = Unit
Rising (v ∷ w ∷ ws) = IsAfter v w × Rising (w ∷ ws)

follows_vote-IsAfter : (w v : Vote) → Learn.follows_vote w v ≡ true → IsAfter v w
unfolding Learn.follows_vote is_lower_decree is_same_decree
follows_vote-IsAfter w v h =
    let le : Le v.ballot w.ballot = ground arith in
    record {
      decree = ground arith;
      number = Le-id v.ballot w.ballot le;
      ballot = le;
      apart = λ same.
          let d : (w.decree == v.decree) ≡ true = ==_eq w.decree v.decree same.0 in
          let b : eq w.ballot v.ballot ≡ true =
            subst (λ t. eq w.ballot t ≡ true) same.1 (eq_self w.ballot) in
          ground (arith, d, b);
    }

Rising-append :
    (v : Vote) (vs : List Vote)
    → Rising vs
    → Learn.follows_tail v vs ≡ true
    → Rising (vs ++ (v ∷ []))
unfolding Learn.follows_tail
Rising-append v [] r h = tt
Rising-append v (w ∷ []) r h = (follows_vote-IsAfter v w h, tt)
Rising-append v (w ∷ x ∷ ws) r h = (r.0, Rising-append v (x ∷ ws) r.1 h)

follows_received :
    (now : ℕ) (v : Vote) (vs : List Vote)
    → Learn.follows_tail (record v { received_at = now }) vs ≡ Learn.follows_tail v vs
unfolding Learn.follows_tail Learn.follows_vote
follows_received now v [] = refl
follows_received now v (w ∷ []) = refl
follows_received now v (w ∷ x ∷ ws) = follows_received now v (x ∷ ws)

-- However the receive thread treats a vote (put behind the others, put into a queue that was cleared
-- since it was full, or dropped): where every vote in the queue has no lower decree and no lower
-- ballot than the one before it and differs from it in one of them, that stays so.
pub receive_vote-Rising :
    (e : Env) (v : Vote) (s : Legislator)
    → Rising s.vote_cache
    → Rising (Learn.receive_vote e v s).vote_cache
unfolding Learn.receive_vote Learn.follows_tail
receive_vote-Rising e v s r =
    let vote : Vote = record v { received_at = e.now } in
    let kept : List Vote =
      (if ltb e.max_cache_length (Learn.size_in_bytes s.vote_cache) then [] else s.vote_cache) in
    if-cases (λ t. Rising t.vote_cache) (Learn.follows_tail v s.vote_cache)
      (record s { vote_cache = kept ++ (vote ∷ []) }) s
      (λ follows.
        if-cases (λ vs. Rising (vs ++ (vote ∷ [])))
          (ltb e.max_cache_length (Learn.size_in_bytes s.vote_cache)) [] s.vote_cache (λ _. tt)
          (λ _.
            Rising-append vote s.vote_cache r (follows_received e.now v s.vote_cache ∙ follows)))
      (λ _. r)
