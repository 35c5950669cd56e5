-- ===== src/Legislator/Grows/Learn.antt =====
-- src/RSL/src/legislator.cpp: learning votes lowers no counter.
use rsl.Common.{ℕ, ◌+◌, ◌^◌, ◌<◌, ◌≤◌, ◌≡◌, refl, ◌∙◌, sym, subst, arith, not, ◌&&◌, List, [], ◌∷◌}
use rsl.Common.{Bool, true, false, Option, none, some, leb, ◌==◌}
use rsl.Common.{Outcome, done, Holds, Holds-map, Holds-bind, Holds-log_assert, if-cases}
use rsl.Ballot.{MemberId, lt, gt}
use rsl.Ballot.Le.{Le-id}
use rsl.Message.{is_next_decree, next}
use rsl.Vote.{can_init, Vote}
use rsl.Legislator.{Legislator, Env, Logged, Fetched, logged_vote, logged_prepare, logged_decision}
use rsl.Legislator.{paxos_configuration}
use rsl.Legislator.Log
use rsl.Legislator.Election
use rsl.Legislator.Votes
use rsl.Legislator.Learn
use rsl.Legislator.Learn.{Reading, go_on, over, logged_header}
use rsl.Legislator.Grows.{Room, Room-less, Step, Costs, Grows, Grows-trans, view}
use rsl.Legislator.Grows.Log.{Step-same, log_prepare-Step}
use rsl.Legislator.Grows.Election.{log_reconfiguration_decision-Step}
use rsl.Legislator.Grows.Votes.{log_and_accept_vote-Step}

pub receive_vote-view :
    (e : Env) (v : Vote) (s : Legislator) → view (Learn.receive_vote e v s) ≡ view s
unfolding Learn.receive_vote
receive_vote-view e v s = ground arith

receive_votes-view :
    (e : Env) (vs : List Vote) (s : Legislator) → view (Learn.receive_votes e vs s) ≡ view s
unfolding Learn.receive_votes
receive_votes-view e [] s = refl
receive_votes-view e (v ∷ vs) s =
    receive_votes-view e vs (Learn.receive_vote e v s) ∙ receive_vote-view e v s

abbrev state_of : Reading → Legislator
state_of (go_on last needed s) = s
state_of (over ok s) = s

check_head-view :
    (v : Vote) (o : Option Vote) (s : Legislator)
    → view (state_of (Learn.check_head v o s)) ≡ view s
unfolding Learn.check_head
check_head-view v none s = refl
check_head-view v (some m) s =
    if-cases (λ p. view (state_of p) ≡ view s) (leb m.decree v.decree) (over true s)
      (go_on (some v) (some m) s) (λ _. refl) (λ _. refl)

check_caught_up-view :
    (v : Vote) (needed : Option Vote) (s : Legislator)
    → view (state_of (Learn.check_caught_up v needed s)) ≡ view s
unfolding Learn.check_caught_up
check_caught_up-view v needed s =
    if-cases (λ p. view (state_of p) ≡ view s) (Learn.is_reached needed v)
      (Learn.check_head v (Learn.head s.vote_cache) s) (go_on (some v) needed s)
      (λ _. check_head-view v (Learn.head s.vote_cache) s) (λ _. refl)

-- How often the messages of a log can raise a counter.
abbrev pub span : ℕ → List Fetched → ℕ
span c [] = 0
span c (f ∷ fs) = c + 2 + span c fs

-- The ballot ids in the messages leave room for `b` more.
abbrev pub Fits : ℕ → List Fetched → Type 0
Fits b [] = Unit
Fits b (f ∷ fs) = ((logged_header f.logged).ballot.ballot_id + b < 2 ^ 32) × Fits b fs

abbrev pub span_of : ℕ → Option (List Fetched) → ℕ
span_of c none = 0
span_of c (some fs) = span c fs

abbrev pub FitsOf : ℕ → Option (List Fetched) → Type 0
FitsOf b none = Unit
FitsOf b (some fs) = Fits b fs

module _ (e : Env) (again : Legislator → Outcome Legislator) (c : ℕ) (costs : Costs c again) where
  fill_gap-Step :
      (k : ℕ) (v : Vote) (s : Legislator)
      → Room (k + 1) (view s)
      → Holds (Step k s) (Learn.fill_gap e again v s)
  unfolding Learn.fill_gap Learn.missing_vote
  fill_gap-Step k v s r =
      Holds-log_assert (Step k s)
        (v.decree == next s.max_accepted.decree && gt v.ballot s.max_accepted.ballot) _
        (λ _. Holds-log_assert (Step k s) (can_init v.version v) _ (λ _.
          log_and_accept_vote-Step e again c costs k (Learn.missing_vote v s) s r
            (omega (arith, Le-id s.max_accepted.ballot s.max_ballot r.below, r.ballot_id))))

  learn_vote-Step :
      (k : ℕ) (v : Vote) (last needed : Option Vote) (s : Legislator)
      → Room (k + 2) (view s)
      → v.ballot.ballot_id + k < 2 ^ 32
      → Holds (λ p. Step k s (state_of p)) (Learn.learn_vote e again v last needed s)
  unfolding Learn.learn_vote
  learn_vote-Step k v last needed s r h =
      let same = Step-same k s (Room-less k (k + 2) (view s) (omega arith) r) in
      let P : Outcome Reading → Type 0 = Holds (λ p. Step k s (state_of p)) in
      if-cases P (not (Learn.follows v last s)) (done (over false s)) _ (λ _. same)
        (λ _.
          if-cases P (lt v.ballot s.max_accepted.ballot) (done (go_on (some v) needed s)) _
            (λ _. same)
            (λ _.
              Holds-bind (Step (k + 1) s) (λ p. Step k s (state_of p)) _ _
                (if-cases (Holds (Step (k + 1) s))
                  (is_next_decree v.decree v.ballot s.max_accepted.decree s.max_accepted.ballot)
                  (done s) (Learn.fill_gap e again v s)
                  (λ _. Step-same (k + 1) s (Room-less (k + 1) (k + 2) (view s) (omega arith) r))
                  (λ _.
                    fill_gap-Step (k + 1) v s
                      (Room-less (k + 1 + 1) (k + 2) (view s) (omega arith) r)))
                (λ t st.
                  Holds-bind (Step k s) (λ p. Step k s (state_of p))
                    (Votes.log_and_accept_vote e again v t) _
                    (Holds-map (Step k t) (Step k s) (Votes.log_and_accept_vote e again v t)
                      (log_and_accept_vote-Step e again c costs k v t st.1 h)
                      (λ u su. (Grows-trans st.0 su.0, su.1)))
                    (λ u su.
                      subst (λ w. Grows (view s) w × Room k w)
                        (sym (check_caught_up-view v needed u)) su))))

  learn_logged-Step :
      (k : ℕ) (m : Logged) (last needed : Option Vote) (s : Legislator)
      → Room (k + (c + 2)) (view s)
      → (logged_header m).ballot.ballot_id + (k + (c + 2)) < 2 ^ 32
      → Holds (λ p. Step k s (state_of p)) (Learn.learn_logged e again m last needed s)
  unfolding Learn.learn_logged
  learn_logged-Step k (logged_vote v) last needed s r h =
      learn_vote-Step k v last needed s (Room-less (k + 2) (k + (c + 2)) (view s) (omega arith) r)
        (omega arith)
  learn_logged-Step k (logged_prepare m) last needed s r h =
      let less = Room-less k (k + (c + 2)) (view s) (omega arith) r in
      if-cases (Holds (λ p. Step k s (state_of p))) (gt m.ballot s.max_ballot) _
        (done (go_on last needed s))
        (λ _.
          Holds-bind (Step k s) (λ p. Step k s (state_of p)) (Log.log_prepare e m s)
            (λ t. done (go_on last needed t)) (log_prepare-Step e k m s less (omega arith))
            (λ t st. st))
        (λ _. Step-same k s less)
  learn_logged-Step k (logged_decision m) last needed s r h =
      Holds-bind (Step k s) (λ p. Step k s (state_of p))
        (Election.log_reconfiguration_decision e again m s)
        (λ t. done (go_on (some t.max_accepted) needed t))
        (log_reconfiguration_decision-Step e again c costs k m s
          (Room-less (k + c + 1) (k + (c + 2)) (view s) (omega arith) r))
        (λ t st. st)

  learn_message-Step :
      (k : ℕ) (m : Logged) (last needed : Option Vote) (s : Legislator)
      → Room (k + (c + 2)) (view s)
      → (logged_header m).ballot.ballot_id + (k + (c + 2)) < 2 ^ 32
      → Holds (λ p. Step k s (state_of p)) (Learn.learn_message e again m last needed s)
  unfolding Learn.learn_message
  learn_message-Step k m last needed s r h =
      if-cases (Holds (λ p. Step k s (state_of p)))
        ((logged_header m).configuration_number == paxos_configuration s)
        (Learn.learn_logged e again m last needed s) (done (over false s))
        (λ _. learn_logged-Step k m last needed s r h)
        (λ _. Step-same k s (Room-less k (k + (c + 2)) (view s) (omega arith) r))

  abbrev next_messages : List Fetched → Reading → Outcome (Bool × Legislator)
  next_messages fs (go_on last needed s) = Learn.learn_messages e again fs last needed s
  next_messages fs (over ok s) = done (ok, s)

  learn_messages-Step :
      (k b : ℕ) (fs : List Fetched) (last needed : Option Vote) (s : Legislator)
      → Room (k + span c fs) (view s)
      → k + span c fs ≤ b
      → Fits b fs
      → Holds (λ p. Step k s p.1) (Learn.learn_messages e again fs last needed s)
  unfolding Learn.learn_messages
  learn_messages-Step k b [] last needed s r l h =
      Step-same k s (Room-less k (k + 0) (view s) (omega arith) r)
  learn_messages-Step k b (f ∷ fs) last needed s r l h =
      let j : ℕ = k + span c fs in
      let s₁ = Learn.receive_votes e f.received s in
      let same = receive_votes-view e f.received s in
      Holds-bind (λ p. Step j s (state_of p)) (λ p. Step k s p.1)
        (Learn.learn_message e again f.logged last needed s₁) (next_messages fs)
        (Holds-map (λ p. Step j s₁ (state_of p)) (λ p. Step j s (state_of p))
          (Learn.learn_message e again f.logged last needed s₁)
          (learn_message-Step j f.logged last needed s₁
            (subst (Room (j + (c + 2))) (sym same)
              (Room-less (j + (c + 2)) (k + span c (f ∷ fs)) (view s) (omega arith) r))
            (omega (arith, h.0)))
          (λ p st. subst (λ w. Grows w (view (state_of p)) × Room j (view (state_of p))) same st))
        (λ p.
          elim p as (λ p. Step j s (state_of p) → Holds (λ q. Step k s q.1) (next_messages fs p)) [
            | go_on last₁ needed₁ t ↦ λ st.
                Holds-map (λ q. Step k t q.1) (λ q. Step k s q.1)
                  (Learn.learn_messages e again fs last₁ needed₁ t)
                  (learn_messages-Step k b fs last₁ needed₁ t st.1 (omega arith) h.1)
                  (λ q su. (Grows-trans st.0 su.0, su.1))
            | over ok t ↦ λ st. (st.0, Room-less k j (view t) (omega arith) st.1)
          ])

  learn_from-Step :
      (k b : ℕ) (o : Option (List Fetched)) (s : Legislator)
      → Room (k + span_of c o) (view s)
      → k + span_of c o ≤ b
      → FitsOf b o
      → Holds (λ p. Step k s p.1) (Learn.learn_from e again o s)
  unfolding Learn.learn_from
  learn_from-Step k b none s r l h = Step-same k s (Room-less k (k + 0) (view s) (omega arith) r)
  learn_from-Step k b (some fs) s r l h =
      learn_messages-Step k b fs none (Learn.head s.vote_cache) s r l h

-- What a member's learn server sends raises no counter by more than `n`, and its ballot ids leave room
-- for `b`.
pub record LearnsWithin (c n b : ℕ) (e : Env) : Type 0 where
  pub spans : (id : MemberId) → span_of c (e.fetched_votes id) ≤ n
  pub fits : (id : MemberId) → FitsOf b (e.fetched_votes id)

module _ (e : Env) (again : Legislator → Outcome Legislator) (c : ℕ) (costs : Costs c again) where
  pub learn_votes-Step :
      (k n b : ℕ) (id : MemberId) (s : Legislator)
      → LearnsWithin c n b e
      → Room (k + n) (view s)
      → k + n ≤ b
      → Holds (λ p. Step k s p.1) (Learn.learn_votes e again id s)
  unfolding Learn.learn_votes
  learn_votes-Step k n b id s w r l =
      learn_from-Step e again c costs k b (e.fetched_votes id) s
        (Room-less (k + span_of c (e.fetched_votes id)) (k + n) (view s) (omega (arith, w.spans id))
          r)
        (omega (arith, w.spans id)) (w.fits id)

  pub learn_votes_and_transition-Step :
      (k n b : ℕ) (id : MemberId) (s : Legislator)
      → LearnsWithin c n b e
      → Room (k + c + n) (view s)
      → k + c + n ≤ b
      → Holds (Step k s) (Learn.learn_votes_and_transition e again id s)
  unfolding Learn.learn_votes_and_transition Election.start_being_stable_secondary
  learn_votes_and_transition-Step k n b id s w r l =
      Holds-bind (λ p. Step (k + c) s p.1) (Step k s) (Learn.learn_votes e again id s) _
        (learn_votes-Step (k + c) n b id s w r l)
        (λ (ok, t) st.
          if-cases (Holds (Step k s)) ok (done (Election.start_being_stable_secondary t)) (again t)
            (λ _. (st.0, Room-less k (k + c) (view t) (omega arith) st.1))
            (λ _.
              Holds-map (Step k t) (Step k s) (again t) (costs k t st.1)
                (λ u su. (Grows-trans st.0 su.0, su.1))))
