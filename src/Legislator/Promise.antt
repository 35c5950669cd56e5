-- ===== src/Legislator/Promise.antt =====
-- src/RSL/src/legislator.cpp: the promises of a replica over the steps of the main loop.
use rsl.Common.{
  ℕ, ◌+◌, ◌-◌, ◌*◌, ◌^◌, ◌<◌, ◌≤◌, ◌≡◌, refl, sym, subst, arith, not, ◌&&◌, ◌||◌, [], All,
}
use rsl.Common.{true, if◌then◌else◌, length, leb, ltb, false, none, some, Option}
use rsl.Common.{Outcome, done, Holds, Holds-bind, Holds-log_assert, if-cases, ◌>>=◌}
use rsl.Ballot.Le.{Le}
use rsl.Legislator.{
  Legislator, Env, paxos_configuration, am_primary, is_preparing, is_initializing, vote,
}
use rsl.Legislator.Election
use rsl.Legislator.Votes
use rsl.Legislator.Learn
use rsl.Legislator.Resend
use rsl.Legislator.Status
use rsl.Message.Bodies.{PrepareMsg}
use rsl.Legislator.Main
use rsl.Legislator.Main.{
  Event, votes, election_timer, action_timer, cp_timer, join_timer, message, client_vote,
  vote_received, status_query, request_sent, header_of,
}
use rsl.Legislator.Reinitialize.{start_initializing}
use rsl.Legislator.Grows.{
  Room, Room-less, Slack, Sound, Slack-Room, Room-Sound, Step, Costs, Grows, Grows-refl,
  Grows-trans, view,
}
use rsl.Legislator.Grows.Log.{Step-same, Keeps, Keeps-Step}
use rsl.Legislator.Grows.Election.{send_next_vote-Step}
use rsl.Legislator.Grows.Votes.{handle_votes-Step}
use rsl.Legislator.Grows.Learn.{LearnsWithin, receive_vote-view}
use rsl.Legislator.Grows.Status.{
  send_join_messages_if_necessary-view, send_status_request_message-view,
}
use rsl.Legislator.Grows.Status.{handle_status_query-view}
use rsl.Legislator.Grows.Dispatch.{handle_message-Step}
use rsl.Legislator.Grows.Initialize.{start_initializing-Costs}

-- How far a step can raise a counter, besides what one initialization and one learning do.
unfoldable pub rise : Event → Legislator → ℕ
rise votes s = length s.vote_cache
rise election_timer s = 0
rise action_timer s = 0
rise cp_timer s = 0
rise join_timer s = 0
rise (message i) s = 3
rise (client_vote v) s = 2
rise (vote_received v) s = 0
rise (status_query m) s = 0
rise (request_sent status id) s = 0

-- The ballot ids of what comes in leave room for `b` more.
abbrev pub HasRoom : ℕ → Event → Legislator → Type 0
HasRoom b votes s = All (λ v. v.ballot.ballot_id + b < 2 ^ 32) s.vote_cache
HasRoom b election_timer s = Unit
HasRoom b action_timer s = Unit
HasRoom b cp_timer s = Unit
HasRoom b join_timer s = Unit
HasRoom b (message i) s = (header_of i).ballot.ballot_id + b < 2 ^ 32
HasRoom b (client_vote v) s = Unit
HasRoom b (vote_received v) s = Unit
HasRoom b (status_query m) s = Unit
HasRoom b (request_sent status id) s = Unit

-- No counter wraps in the step, at most `c` rises by initializing and `learned` by what the learn
-- servers send included.
pub record Ready (c : ℕ) (e : Env) (ev : Event) (s : Legislator) : Type 0 where
  pub learned : ℕ
  pub learns : LearnsWithin c learned (c + learned + 3) e
  pub slack : Slack (c + learned + rise ev s) (view s)
  pub ballots : HasRoom (c + learned + rise ev s) ev s

Ready-Room :
    (c : ℕ) (e : Env) (ev : Event) (s : Legislator)
    → Sound (view s)
    → (r : Ready c e ev s) → Room (c + r.learned + rise ev s) (view s)
Ready-Room c e ev s h r = Slack-Room (c + r.learned + rise ev s) (view s) r.slack h

resend_current_vote-view : (e : Env) (s : Legislator) → Keeps s (Resend.resend_current_vote e s)
unfolding Resend.resend_current_vote Resend.resend_request
resend_current_vote-view e s =
    Holds-log_assert (λ t. view t ≡ view s) (not (Election.is_none s.outstanding)) _
      (λ _.
        Holds-log_assert (λ t. view t ≡ view s)
          (ltb (e.now - s.max_accepted.received_at) e.vote_max_outstanding_interval)
          (done
            (record (Resend.resend_request e (vote s.max_accepted) (some s.max_accepted)
              e.vote_retry_interval s) { action_timeout = e.now + e.hrtime_second }))
          (λ _. refl))

resend_prepare-view :
    (e : Env) (o : Option PrepareMsg) (s : Legislator) → Keeps s (Resend.resend_prepare e o s)
unfolding Resend.resend_prepare Resend.resend_request
resend_prepare-view e none s = tt
resend_prepare-view e (some m) s = refl

resend_prepare_msg-view : (e : Env) (s : Legislator) → Keeps s (Resend.resend_prepare_msg e s)
unfolding Resend.resend_prepare_msg
resend_prepare_msg-view e s =
    Holds-log_assert (λ t. view t ≡ view s) (is_preparing s) _
      (λ _. resend_prepare-view e s.last_prepare s)

same-Step : (s t : Legislator) → view t ≡ view s → Room 0 (view s) → Step 0 s t
same-Step s t same r = subst (λ w. Grows (view s) w × Room 0 w) (sym same) (Step-same 0 s r)

module _ (e : Env) (again : Legislator → Outcome Legislator) (c : ℕ) (costs : Costs c again) where
  play_votes-Step :
      (b : ℕ) (s : Legislator)
      → Room (c + length s.vote_cache) (view s)
      → c + length s.vote_cache ≤ b
      → All (λ v. v.ballot.ballot_id + b < 2 ^ 32) s.vote_cache
      → Holds (Step 0 s) (Votes.play_votes e again s)
  unfolding Votes.play_votes Votes.handle_new_votes
  play_votes-Step b s r l h =
      let s₁ : Legislator = record s { vote_cache = [] } in
      let less : Room 0 (view s) = Room-less 0 (c + length s.vote_cache) (view s) (omega arith) r in
      if-cases (Holds (Step 0 s)) (is_initializing s) (done s) _ (λ _. Step-same 0 s less)
        (λ _.
          Holds-bind (λ p. Step 0 s p.1) (Step 0 s) (Votes.handle_new_votes e again s.vote_cache s₁)
            _
            (if-cases (Holds (λ p. Step 0 s p.1)) s.relinquish_primary (done (s.vote_cache, s₁))
              (Votes.handle_votes e again s.vote_cache false s₁ >>= λ t. done ([], t))
              (λ _. Step-same 0 s less)
              (λ _.
                Holds-bind (Step 0 s) (λ p. Step 0 s p.1)
                  (Votes.handle_votes e again s.vote_cache false s₁) (λ t. done ([], t))
                  (handle_votes-Step e again c costs 0 b s.vote_cache false s₁
                    (Room-less (0 + c + length s.vote_cache) (c + length s.vote_cache) (view s)
                      (omega arith) r)
                    (omega arith) h)
                  (λ t st. st)))
            (λ (left, t) st. Holds-log_assert (Step 0 s) (Votes.no_votes left) (done t) (λ _. st)))

  check_action_timeout-Step :
      (s : Legislator) → Room c (view s) → Holds (Step 0 s) (Main.check_action_timeout e again s)
  unfolding Main.check_action_timeout
  check_action_timeout-Step s r =
      let less : Room 0 (view s) = Room-less 0 c (view s) (omega arith) r in
      let go : Holds (Step 0 s) (again s) =
        costs 0 s (Room-less (0 + c) c (view s) (omega arith) r) in
      let P : Outcome Legislator → Type 0 = Holds (Step 0 s) in
      if-cases P (not (ltb s.action_timeout e.now)) (done s) _ (λ _. Step-same 0 s less)
        (λ _.
          if-cases P (am_primary s) (Resend.resend_current_vote e s) _
            (λ _. Keeps-Step 0 s _ less (resend_current_vote-view e s))
            (λ _.
              if-cases P (is_preparing s) _ _
                (λ _.
                  if-cases P (ltb s.prepare_timeout e.now) (again s) (Resend.resend_prepare_msg e s)
                    (λ _. go) (λ _. Keeps-Step 0 s _ less (resend_prepare_msg-view e s)))
                (λ _.
                  if-cases P (is_initializing s) (again s) (done s) (λ _. go)
                    (λ _. Step-same 0 s less))))

  pub handle-Step :
      (ev : Event) (s : Legislator)
      → Sound (view s)
      → Ready c e ev s
      → Holds (Step 0 s) (Main.handle e again ev s)
  unfolding Main.handle Main.check_election_timeout Main.propose_next Main.check_cp_timeout rise
      Votes.check_notify_status Resend.process_send
  handle-Step votes s h r =
      let l = r.learned in
      play_votes-Step (c + l + length s.vote_cache) s
        (Room-less (c + length s.vote_cache) (c + l + length s.vote_cache) (view s) (omega arith)
          (Ready-Room c e votes s h r))
        (omega arith) r.ballots
  handle-Step election_timer s h r =
      if-cases (Holds (Step 0 s))
        ((leb s.next_election_time e.now || s.force_reelection)
          && Main.is_stable_secondary s
          && Votes.no_votes s.vote_cache)
        (again s) (done s)
        (λ _. costs 0 s (
          Room-less (0 + c) (c + r.learned + 0) (view s) (omega arith)
            (Ready-Room c e election_timer s h r)))
        (λ _. Step-same 0 s (
          Room-less 0 (c + r.learned + 0) (view s) (omega arith)
            (Ready-Room c e election_timer s h r)))
  handle-Step action_timer s h r =
      check_action_timeout-Step s
        (Room-less c (c + r.learned + 0) (view s) (omega arith) (Ready-Room c e action_timer s h r))
  handle-Step cp_timer s h r =
      let less =
        Room-less 0 (c + r.learned + 0) (view s) (omega arith) (Ready-Room c e cp_timer s h r) in
      if-cases (Step 0 s) (ltb s.cp_timeout e.now) (Status.send_status_request_message e s) s
        (λ _.
          same-Step s (Status.send_status_request_message e s)
            (send_status_request_message-view e s) less)
        (λ _. Step-same 0 s less)
  handle-Step join_timer s h r =
      Keeps-Step 0 s (Status.send_join_messages_if_necessary e s)
        (Room-less 0 (c + r.learned + 0) (view s) (omega arith) (Ready-Room c e join_timer s h r))
        (send_join_messages_if_necessary-view e s)
  handle-Step (message i) s h r =
      handle_message-Step e again c costs r.learned r.learns i s (Ready-Room c e (message i) s h r)
        r.ballots
  handle-Step (client_vote v) s h r =
      let room = Ready-Room c e (client_vote v) s h r in
      let less : Room 0 (view s) = Room-less 0 (c + r.learned + 2) (view s) (omega arith) room in
      let s₁ = Votes.check_notify_status true s in
      if-cases (Holds (Step 0 s)) (am_primary s)
        (if Election.is_none s.outstanding then Election.send_next_vote e again v s₁ else done s)
        (done (Votes.check_notify_status false s))
        (λ _.
          if-cases (Holds (Step 0 s)) (Election.is_none s.outstanding)
            (Election.send_next_vote e again v s₁) (done s)
            (λ _.
              send_next_vote-Step e again c costs 0 v s₁
                (Room-less (0 + c + 2) (c + r.learned + 2) (view s) (omega arith) room))
            (λ _. Step-same 0 s less))
        (λ _. Step-same 0 s less)
  handle-Step (vote_received v) s h r =
      same-Step s (Learn.receive_vote e v s) (receive_vote-view e v s) (
        Room-less 0 (c + r.learned + 0) (view s) (omega arith)
          (Ready-Room c e (vote_received v) s h r))
  handle-Step (status_query m) s h r =
      same-Step s (Status.handle_status_query e m s) (handle_status_query-view e m s) (
        Room-less 0 (c + r.learned + 0) (view s) (omega arith)
          (Ready-Room c e (status_query m) s h r))
  handle-Step (request_sent status id) s h r = Step-same 0 s (
      Room-less 0 (c + r.learned + 0) (view s) (omega arith)
        (Ready-Room c e (request_sent status id) s h r))

-- What the main loop does step by step, each in an environment of its own.
pub data Run (fuel : ℕ) : Legislator → Legislator → Type 0 where
  stay : (s : Legislator) → Run fuel s s
  step :
      (e : Env) (ev : Event) (s t u : Legislator)
      → Ready (3 * fuel) e ev s
      → Main.handle e (start_initializing e fuel) ev s ≡ done t
      → Run fuel t u
      → Run fuel s u

-- What one step of the run does.
ran-Step :
    (fuel : ℕ) (e : Env) (ev : Event) (s t : Legislator)
    → Sound (view s)
    → Ready (3 * fuel) e ev s
    → Main.handle e (start_initializing e fuel) ev s ≡ done t
    → Step 0 s t
ran-Step fuel e ev s t h ready ran = subst (Holds (Step 0 s)) ran (
    handle-Step e (start_initializing e fuel) (3 * fuel) (start_initializing-Costs e fuel) ev s h
      ready)

-- For a bootstrapped replica whose last accepted vote has a ballot of at most the promised one: over
-- any steps of the main loop that end without a failed assertion or a shut down, `CheckBootstrap`
-- aside, and in which no counter wraps, the promised ballot, the place of the last accepted vote, the
-- configuration's number and the highest defunct one never go down, and the member id stays. That no
-- counter wraps is asked of each step, with room for what its messages and learning may raise.
pub Run-Grows :
    (fuel : ℕ) (s t : Legislator) → Sound (view s) → Run fuel s t → Grows (view s) (view t)
Run-Grows fuel _ _ h (stay s) = Grows-refl (view s)
Run-Grows fuel _ _ h (step e ev s t u ready ran rest) =
    let st = ran-Step fuel e ev s t h ready ran in
    Grows-trans st.0 (Run-Grows fuel t u (Room-Sound 0 (view t) st.1) rest)

-- A replica that is bootstrapped, with a ballot of the last accepted vote of at most the promised
-- one, stays so over any steps of the main loop that end without a failed assertion or a shut down,
-- `CheckBootstrap` aside, and in which no counter wraps. Of the states between, only the counters are
-- asked to have room for what the messages and learning of the next step may raise.
pub Run-below :
    (fuel : ℕ) (s t : Legislator)
    → Run fuel s t
    → 1 ≤ paxos_configuration s
    → Le s.max_accepted.ballot s.max_ballot
    → (1 ≤ paxos_configuration t) × Le t.max_accepted.ballot t.max_ballot
Run-below fuel _ _ (stay s) number below = (number, below)
Run-below fuel _ _ (step e ev s t u ready ran rest) number below =
    let st = ran-Step fuel e ev s t (record { bootstrapped = number; below = below }) ready ran in
    Run-below fuel t u rest st.1.bootstrapped st.1.below
