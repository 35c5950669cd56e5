-- ===== src/Legislator/Caught.antt =====
-- src/RSL/src/legislator.cpp: what learning votes, and collecting status responses, achieve.
use rsl.Common.{◌+◌, ◌-◌, ◌%◌, ◌^◌, ◌≤◌, ◌≡◌, refl, ◌∙◌, ap, sym, subst, arith, not}
use rsl.Common.{List, [], ◌∷◌, Bool, true, false, Option, none, some, leb, ◌==◌, leb→le}
use rsl.Common.{
  Outcome, done, Holds, Holds-bind, Holds-into, Holds-log_assert, if-cases, if◌then◌else◌,
}
use rsl.Ballot.{MemberId, lt, gt}
use rsl.Message.{is_next_decree, is_same_decree, next}
use rsl.Vote.{Vote, marshal_len}
use rsl.Legislator.{Legislator, Env, Logged, Fetched, logged_vote, logged_prepare, logged_decision}
use rsl.Legislator.{paxos_configuration}
use rsl.Legislator.Log
use rsl.Legislator.Election
use rsl.Legislator.Votes
use rsl.Legislator.Learn
use rsl.Legislator.Learn.{Reading, go_on, over, logged_header, head}
use rsl.Legislator.Grows.{view}
use rsl.Legislator.Grows.Log.{add_vote_to_log-view, ask_checkpoint-view}

set_max_ballot-decree :
    (e : Env) (b : _) (s : Legislator)
    → (Log.set_max_ballot e b s).max_accepted.decree ≡ s.max_accepted.decree
unfolding Log.set_max_ballot
set_max_ballot-decree e b s = ground arith

module _ (e : Env) (again : Legislator → Outcome Legislator) where
  -- The vote is the last accepted one afterwards.
  abbrev At : Vote → Legislator → Type 0
  At v t = t.max_accepted.decree ≡ v.decree

  finish_vote-At :
      (v : Vote) (log : _) (s : Legislator) → Holds (At v) (Log.finish_vote e again v log s)
  unfolding Log.finish_vote
  finish_vote-At v log s =
      Holds-into (At v)
        (Log.update_defunct_info e again ((v.configuration_number + (2 ^ 32 - 1)) % 2 ^ 32) s) _
        (λ t.
          let pushed = Log.push_log e (Log.file_to_push e log s.log_files t.log_files) t in
          let u : Legislator = Log.set_max_ballot e v.ballot (record pushed { max_accepted = v }) in
          Holds-bind (λ x. view x ≡ view u) (At v) (Log.add_vote_to_log v.decree (marshal_len v) u)
            _ (add_vote_to_log-view e v.decree (marshal_len v) u)
            (λ x same.
              ap (λ w. w.decree) (ask_checkpoint-view e x.log_files x ∙ same)
              ∙ set_max_ballot-decree e v.ballot (record pushed { max_accepted = v })))

  log_vote-At : (v : Vote) (s : Legislator) → Holds (At v) (Log.log_vote e again v s)
  unfolding Log.log_vote
  log_vote-At v s =
      if-cases (Holds (At v))
        (is_same_decree s.max_accepted.decree s.max_accepted.ballot v.decree v.ballot)
        (done (record s { max_accepted = v })) _ (λ _. refl)
        (λ _.
          Holds-log_assert (At v)
            (is_next_decree v.decree v.ballot s.max_accepted.decree s.max_accepted.ballot) _
            (λ _.
              Holds-into (At v) (Log.write_vote e v s.log_files s) _
                (λ (log, t). finish_vote-At v log t)))

  log_and_accept_vote-At :
      (v : Vote) (s : Legislator) → Holds (At v) (Votes.log_and_accept_vote e again v s)
  unfolding Votes.log_and_accept_vote
  log_and_accept_vote-At v s =
      Holds-log_assert (At v)
        (is_next_decree v.decree v.ballot s.max_accepted.decree s.max_accepted.ballot) _
        (λ _. Holds-log_assert (At v) (v.configuration_number == paxos_configuration s) _ (λ _.
          Holds-into (At v)
            (if v.decree == next s.max_accepted.decree
              then Votes.pass_previous e again v s
              else done s)
            (Log.log_vote e again v) (λ t. log_vote-At v t)))

  -- The vote that waits first in the queue is not ahead of the last accepted one.
  abbrev pub IsCaughtUp : Legislator → Type 0
  IsCaughtUp t = (m : Vote) × (head t.vote_cache ≡ some m) × (m.decree ≤ t.max_accepted.decree)

  -- A reading that is over with success.
  abbrev Succeeds : Reading → Type 0
  Succeeds (go_on last needed t) = Unit
  Succeeds (over ok t) = ok ≡ true → IsCaughtUp t

  check_head-Succeeds :
      (v : Vote) (o : Option Vote) (t : Legislator)
      → head t.vote_cache ≡ o
      → At v t
      → Succeeds (Learn.check_head v o t)
  unfolding Learn.check_head
  check_head-Succeeds v none t first at = tt
  check_head-Succeeds v (some m) t first at =
      if-cases Succeeds (leb m.decree v.decree) (over true t) (go_on (some v) (some m) t)
        (λ le _. (m, first, subst (λ d. m.decree ≤ d) (sym at) (leb→le m.decree v.decree le)))
        (λ _. tt)

  check_caught_up-Succeeds :
      (v : Vote) (needed : Option Vote) (t : Legislator)
      → At v t
      → Succeeds (Learn.check_caught_up v needed t)
  unfolding Learn.check_caught_up
  check_caught_up-Succeeds v needed t at =
      if-cases Succeeds (Learn.is_reached needed v) (Learn.check_head v (head t.vote_cache) t)
        (go_on (some v) needed t) (λ _. check_head-Succeeds v (head t.vote_cache) t refl at)
        (λ _. tt)

  fails : (t : Legislator) → Succeeds (over false t)
  fails t h = cc

  learn_vote-Succeeds :
      (v : Vote) (last needed : Option Vote) (s : Legislator)
      → Holds Succeeds (Learn.learn_vote e again v last needed s)
  unfolding Learn.learn_vote
  learn_vote-Succeeds v last needed s =
      if-cases (Holds Succeeds) (not (Learn.follows v last s)) (done (over false s)) _
        (λ _. fails s)
        (λ _.
          if-cases (Holds Succeeds) (lt v.ballot s.max_accepted.ballot)
            (done (go_on (some v) needed s)) _ (λ _. tt)
            (λ _.
              Holds-into Succeeds
                (if is_next_decree v.decree v.ballot s.max_accepted.decree s.max_accepted.ballot
                  then done s
                  else Learn.fill_gap e again v s)
                _
                (λ t.
                  Holds-bind (At v) Succeeds (Votes.log_and_accept_vote e again v t)
                    (λ u. done (Learn.check_caught_up v needed u)) (log_and_accept_vote-At v t)
                    (λ u at. check_caught_up-Succeeds v needed u at))))

  learn_logged-Succeeds :
      (m : Logged) (last needed : Option Vote) (s : Legislator)
      → Holds Succeeds (Learn.learn_logged e again m last needed s)
  unfolding Learn.learn_logged
  learn_logged-Succeeds (logged_vote v) last needed s = learn_vote-Succeeds v last needed s
  learn_logged-Succeeds (logged_prepare p) last needed s =
      if-cases (Holds Succeeds) (gt p.ballot s.max_ballot) _ (done (go_on last needed s))
        (λ _.
          Holds-into Succeeds (Log.log_prepare e p s) (λ t. done (go_on last needed t)) (λ t. tt))
        (λ _. tt)
  learn_logged-Succeeds (logged_decision d) last needed s =
      Holds-into Succeeds (Election.log_reconfiguration_decision e again d s)
        (λ t. done (go_on (some t.max_accepted) needed t)) (λ t. tt)

  learn_message-Succeeds :
      (m : Logged) (last needed : Option Vote) (s : Legislator)
      → Holds Succeeds (Learn.learn_message e again m last needed s)
  unfolding Learn.learn_message
  learn_message-Succeeds m last needed s =
      if-cases (Holds Succeeds) ((logged_header m).configuration_number == paxos_configuration s)
        (Learn.learn_logged e again m last needed s) (done (over false s))
        (λ _. learn_logged-Succeeds m last needed s) (λ _. fails s)

  abbrev Learned : Bool × Legislator → Type 0
  Learned p = p.0 ≡ true → IsCaughtUp p.1

  abbrev next_messages : List Fetched → Reading → Outcome (Bool × Legislator)
  next_messages fs (go_on last₁ needed₁ t) = Learn.learn_messages e again fs last₁ needed₁ t
  next_messages fs (over ok t) = done (ok, t)

  learn_messages-Learned :
      (fs : List Fetched) (last needed : Option Vote) (s : Legislator)
      → Holds Learned (Learn.learn_messages e again fs last needed s)
  unfolding Learn.learn_messages
  learn_messages-Learned [] last needed s = fails s
  learn_messages-Learned (f ∷ fs) last needed s =
      let s₁ = Learn.receive_votes e f.received s in
      Holds-bind Succeeds Learned (Learn.learn_message e again f.logged last needed s₁)
        (next_messages fs) (learn_message-Succeeds f.logged last needed s₁)
        (λ p. elim p as (λ p. Succeeds p → Holds Learned (next_messages fs p)) [
          | go_on last₁ needed₁ t ↦ λ _. learn_messages-Learned fs last₁ needed₁ t
          | over ok t ↦ λ ok_up. ok_up
        ])

  learn_from-Learned :
      (o : Option (List Fetched)) (s : Legislator) → Holds Learned (Learn.learn_from e again o s)
  unfolding Learn.learn_from
  learn_from-Learned none s = fails s
  learn_from-Learned (some fs) s = learn_messages-Learned fs none (head s.vote_cache) s

  -- Where learning from another replica succeeds, a vote waits in the queue and the first one there
  -- has at most the decree of the last accepted vote.
  pub learn_votes-IsCaughtUp :
      (id : MemberId) (s : Legislator)
      → Holds (λ p. p.0 ≡ true → IsCaughtUp p.1) (Learn.learn_votes e again id s)
  unfolding Learn.learn_votes
  learn_votes-IsCaughtUp id s = learn_from-Learned (e.fetched_votes id) s
