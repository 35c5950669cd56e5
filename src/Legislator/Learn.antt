-- ===== src/Legislator/Learn.antt =====
-- src/RSL/src/legislator.cpp: learning votes from another replica's log, `LearnVotes`, while the
-- receive thread goes on to queue votes. `again` stands for `StartInitializing`.
use rsl.Common.{ℕ, ◌+◌, ◌%◌, ◌^◌, Bool, true, false, not, ◌&&◌, ◌||◌, List, [], ◌∷◌, ◌++◌}
use rsl.Common.{Option, none, some, ltb, leb, ◌==◌, if◌then◌else◌}
use rsl.Common.{Outcome, ◌>>=◌, ◌>>◌, done, log_assert, assert_failed}
use rsl.Ballot.{MemberId, lt, gt}
use rsl.Message.{Message, is_lower_decree, is_same_decree, is_next_decree, next}
use rsl.Vote.{Vote, marshal_len, can_init, copy_vote}
use rsl.Legislator.{Legislator, Env, paxos_configuration, Logged, Fetched, CopyResult}
use rsl.Legislator.{logged_vote, logged_prepare, logged_decision}
use rsl.Legislator.{success, invalid_argument, create_failed, connect_failed, header_rejected}
use rsl.Legislator.{header_write_failed, read_failed, body_write_failed, flush_failed}
use rsl.Legislator.{verification_failed}
use rsl.Legislator.Log.{log_prepare}
use rsl.Legislator.Election.{start_being_stable_secondary, log_reconfiguration_decision}
use rsl.Legislator.Votes.{log_and_accept_vote}

-- `VoteQueue::SizeInBytes`.
unfoldable pub size_in_bytes : List Vote → ℕ
size_in_bytes [] = 0
size_in_bytes (v ∷ vs) = (marshal_len v + size_in_bytes vs) % 2 ^ 32

-- Whether the vote `v` follows `w`, and whether it follows the last one in the queue.
unfoldable pub follows_vote : Vote → Vote → Bool
follows_vote v w = not (
    is_lower_decree v.decree v.ballot w.decree w.ballot
    || is_same_decree v.decree v.ballot w.decree w.ballot)

unfoldable pub follows_tail : Vote → List Vote → Bool
unfolding follows_vote
follows_tail v [] = true
follows_tail v (w ∷ []) = follows_vote v w
follows_tail v (w ∷ x ∷ ws) = follows_tail v (x ∷ ws)

-- The part of `ProcessReceive` that queues a vote.
unfoldable pub receive_vote : Env → Vote → Legislator → Legislator
unfolding follows_tail size_in_bytes
receive_vote e v s =
    let vote : Vote = record v { received_at = e.now } in
    let kept = (if ltb e.max_cache_length (size_in_bytes s.vote_cache) then [] else s.vote_cache) in
    if follows_tail v s.vote_cache then record s { vote_cache = kept ++ (vote ∷ []) } else s

unfoldable pub receive_votes : Env → List Vote → Legislator → Legislator
unfolding receive_vote
receive_votes e [] s = s
receive_votes e (v ∷ vs) s = receive_votes e vs (receive_vote e v s)

unfoldable pub head : List Vote → Option Vote
head [] = none
head (v ∷ vs) = some v

abbrev pub logged_header : Logged → Message
logged_header (logged_vote v) = v.header
logged_header (logged_prepare m) = m.header
logged_header (logged_decision m) = m

-- How the loop over the messages goes on: with the last vote and the vote that is needed, or it is
-- over, with or without success.
pub data Reading : Type 0 where
  go_on : Option Vote → Option Vote → Legislator → Reading
  over : Bool → Legislator → Reading

-- The first vote has the decree of the last accepted one; the others follow in order.
unfoldable pub follows : Vote → Option Vote → Legislator → Bool
follows v none s = v.decree == s.max_accepted.decree
follows v (some last) s =
    is_next_decree v.decree v.ballot last.decree last.ballot
    && not (ltb v.decree s.max_accepted.decree)
    && not (ltb (next s.max_accepted.decree) v.decree)

unfoldable pub is_reached : Option Vote → Vote → Bool
is_reached none v = true
is_reached (some m) v = leb m.decree v.decree

-- After the vote is accepted: whether the votes that wait in the queue can be played now.
unfoldable pub check_head : Vote → Option Vote → Legislator → Reading
check_head v none s = go_on (some v) none s
check_head v (some m) s = if leb m.decree v.decree then over true s else go_on (some v) (some m) s

unfoldable pub check_caught_up : Vote → Option Vote → Legislator → Reading
unfolding is_reached head check_head
check_caught_up v needed s =
    if is_reached needed v then check_head v (head s.vote_cache) s else go_on (some v) needed s

-- The proposal of `v` under the accepted ballot.
unfoldable pub missing_vote : Vote → Legislator → Vote
unfolding copy_vote
missing_vote v s =
    let missing = copy_vote v.version v v.primary_cookie in
    record missing { header = record missing.header { ballot = s.max_accepted.ballot } }

module _ (e : Env) (again : Legislator → Outcome Legislator) where
  -- A vote for the next decree under a higher ballot: the same proposal stands for the vote of the
  -- accepted ballot that this replica has missed.
  unfoldable pub fill_gap : Vote → Legislator → Outcome Legislator
  unfolding log_and_accept_vote can_init missing_vote
  fill_gap v s = do
    log_assert (v.decree == next s.max_accepted.decree && gt v.ballot s.max_accepted.ballot)
    log_assert (can_init v.version v)
    log_and_accept_vote e again (missing_vote v s) s

  unfoldable pub learn_vote : Vote → Option Vote → Option Vote → Legislator → Outcome Reading
  unfolding follows fill_gap log_and_accept_vote check_caught_up
  learn_vote v last needed s =
      if not (follows v last s)
      then done (over false s)
      else if lt v.ballot s.max_accepted.ballot
      then done (go_on (some v) needed s)
      else (do
        s₁ ←
            (if is_next_decree v.decree v.ballot s.max_accepted.decree s.max_accepted.ballot
              then done s
              else fill_gap v s)
        s₂ ← log_and_accept_vote e again v s₁
        done (check_caught_up v needed s₂))

  unfoldable pub learn_logged : Logged → Option Vote → Option Vote → Legislator → Outcome Reading
  unfolding learn_vote log_prepare log_reconfiguration_decision
  learn_logged (logged_vote v) last needed s = learn_vote v last needed s
  learn_logged (logged_prepare m) last needed s =
      if gt m.ballot s.max_ballot
      then (do s₁ ← log_prepare e m s; done (go_on last needed s₁))
      else done (go_on last needed s)
  learn_logged (logged_decision m) last needed s = do
    s₁ ← log_reconfiguration_decision e again m s
    done (go_on (some s₁.max_accepted) needed s₁)

  unfoldable pub learn_message : Logged → Option Vote → Option Vote → Legislator → Outcome Reading
  unfolding learn_logged
  learn_message m last needed s =
      if (logged_header m).configuration_number == paxos_configuration s
      then learn_logged m last needed s
      else done (over false s)

  -- The loop ends without success when the stream does.
  unfoldable pub learn_messages :
      List Fetched → Option Vote → Option Vote → Legislator → Outcome (Bool × Legislator)
  unfolding learn_message receive_votes
  learn_messages [] last needed s = done (false, s)
  learn_messages (f ∷ fs) last needed s =
      learn_message f.logged last needed (receive_votes e f.received s) >>= λ p. elim p [
        | go_on last₁ needed₁ s₁ ↦ learn_messages fs last₁ needed₁ s₁
        | over ok s₁ ↦ done (ok, s₁)
      ]

  unfoldable pub learn_from : Option (List Fetched) → Legislator → Outcome (Bool × Legislator)
  unfolding learn_messages head
  learn_from none s = done (false, s)
  learn_from (some fs) s = learn_messages fs none (head s.vote_cache) s

  -- From the learn server of the member `id`, if it can be reached.
  unfoldable pub learn_votes : MemberId → Legislator → Outcome (Bool × Legislator)
  unfolding learn_from
  learn_votes id s = learn_from (e.fetched_votes id) s

  unfoldable pub learn_votes_and_transition : MemberId → Legislator → Outcome Legislator
  unfolding learn_votes start_being_stable_secondary
  learn_votes_and_transition id s = do
    (ok, s₁) ← learn_votes id s
    if ok then done (start_being_stable_secondary s₁) else again s₁

-- `CopyCheckpoint` by the outcome of the copy: whether the checkpoint was copied. A failure to store
-- it locally ends the process. What the copy leaves in the state is not modelled: every caller shuts
-- the process down next.
unfoldable pub copy_checkpoint : CopyResult → Outcome Bool
copy_checkpoint success = done true
copy_checkpoint invalid_argument = done false
copy_checkpoint create_failed = assert_failed
copy_checkpoint connect_failed = done false
copy_checkpoint header_rejected = done false
copy_checkpoint header_write_failed = assert_failed
copy_checkpoint read_failed = done false
copy_checkpoint body_write_failed = assert_failed
copy_checkpoint flush_failed = assert_failed
copy_checkpoint verification_failed = assert_failed
