-- ===== src/Tests/Engine.antt =====
-- The engine on concrete messages.
use rsl.Common.{
  Ends, [], ◌∷◌, ◌≡◌, ◌+◌, ◌*◌, ◌<◌, ◌≤◌, length, refl, true, false, arith, done, assert_failed,
  Outcome, shut_down, stuck,
}
use rsl.Ballot.{BallotNumber, id_eq, lt, gt, ge, eq}
use rsl.Message.{is_lower_decree}
use rsl.Ballot.Le.{Le, Le-refl}
use rsl.Legislator.{Legislator, initializing, stable_primary, is_inactive, is_initializing}
use rsl.Legislator.Handlers.{verify_message, get_replica, is_some, count_response, respond}
use rsl.Legislator.Election.{prepare_ballot}
use rsl.Legislator.Votes.{play_votes}
use rsl.Legislator.Grows.{Grows, view}
use rsl.Legislator.Main.{message, prepare_msg, handle}
use rsl.Legislator.Reinitialize.{start_initializing}
use rsl.Legislator.{paxos_configuration}
use rsl.Legislator.Promise.{Run, stay, step, Ready, rise, Run-Grows, Run-below}
use rsl.Legislator.Guards.{verify_message-Current, prepare_ballot-above, play_votes-relinquish}
use rsl.Legislator.Guards.{count_response-minority, Distinct}
use rsl.Legislator.Ends.Initialize.{start_initializing-Ends}
use rsl.Tests.Data.{
  replica_of, env, secondary, prepare_msg_2, ballot_1, ballot_2, vote_at, id_1, id_2, id_3,
}

abbrev or_else : Legislator → Outcome Legislator → Legislator
or_else s (done t) = t
or_else s assert_failed = s
or_else s shut_down = s
or_else s stuck = s

-- The secondary after it has promised ballot 2 to member "3".
abbrev promised : Legislator
promised =
    or_else secondary
      (handle env (start_initializing env 2) (message (prepare_msg prepare_msg_2)) secondary)

promise_runs :
    handle env (start_initializing env 2) (message (prepare_msg prepare_msg_2)) secondary
    ≡ done promised
unfolding handle id_eq gt is_lower_decree lt ge eq
promise_runs = refl

secondary-Ready : Ready (3 * 2) env (message (prepare_msg prepare_msg_2)) secondary
unfolding rise
secondary-Ready = record {
  learned = 0;
  learns = record { spans = λ id. omega arith; fits = λ id. tt };
  slack = record {
    ballot_id = omega arith;
    seen_id = omega arith;
    decree = omega arith;
    number = omega arith;
  };
  ballots = omega arith;
}

promise-Run : Run 2 secondary promised
promise-Run =
    step env (message (prepare_msg prepare_msg_2)) secondary promised promised secondary-Ready
      promise_runs (stay promised)

Run-Grows_example : Grows (view secondary) (view promised)
Run-Grows_example =
    Run-Grows 2 secondary promised (record { bootstrapped = omega arith; below = Le-refl ballot_1 })
      promise-Run

Run-below_example :
    (1 ≤ paxos_configuration promised) × Le promised.max_accepted.ballot promised.max_ballot
Run-below_example = Run-below 2 secondary promised promise-Run (omega arith) (Le-refl ballot_1)

-- The promise itself: the ballot, the reply, and one page in the log.
promised_ballot : promised.max_ballot ≡ ballot_2
unfolding handle id_eq gt is_lower_decree lt ge eq
promised_ballot = refl

prepare_verified : (verify_message prepare_msg_2.header secondary).0 ≡ true
unfolding verify_message id_eq
prepare_verified = refl

verify_message-Current_example :
    (prepare_msg_2.configuration_number ≡ 1)
    × (0 < 1)
    × (is_inactive secondary ≡ false)
    × (id_eq id_3 id_1 ≡ false)
    × (is_some (get_replica id_3 3 secondary.replicas) ≡ true)
verify_message-Current_example =
    verify_message-Current prepare_msg_2.header secondary prepare_verified

abbrev starting : Legislator
starting = record secondary { state = initializing; max_seen_ballot = ballot_2 }

starting_initializing : is_initializing starting ≡ true
unfolding is_initializing
starting_initializing = refl

prepare_ballot-above_example :
    (b : BallotNumber) × (prepare_ballot env (start_initializing env 2) starting ≡ done b)
    × (b.member_id ≡ id_1)
    × (lt ballot_1 b ≡ true)
    × Le ballot_2 b
prepare_ballot-above_example =
    prepare_ballot-above env (start_initializing env 2) starting starting_initializing (omega arith)
      (omega arith)

abbrev relinquishing : Legislator
relinquishing = record secondary {
  state = stable_primary;
  relinquish_primary = true;
  vote_cache = vote_at 11 ∷ [];
}

relinquishing_started : is_initializing relinquishing ≡ false
unfolding is_initializing
relinquishing_started = refl

play_votes-relinquish_example :
    play_votes env (start_initializing env 2) relinquishing ≡ assert_failed
play_votes-relinquish_example =
    play_votes-relinquish env (start_initializing env 2) relinquishing (vote_at 11) [] refl
      relinquishing_started refl

-- A primary of five members with one answer to its vote.
abbrev waiting : Legislator
waiting = record secondary {
  state = stable_primary;
  replicas =
      replica_of id_2 2 ∷ replica_of id_3 3 ∷ replica_of (52 ∷ []) 4 ∷ replica_of (53 ∷ []) 5 ∷ [];
}

waiting_ballots : eq waiting.max_ballot waiting.max_accepted.ballot ≡ true
unfolding eq
waiting_ballots = refl

one_answer : 2 * (length (respond id_2 []) + 1) ≤ length waiting.replicas + 1
unfolding respond
one_answer = omega arith

count_response-minority_example :
    (count_response env (start_initializing env 2) id_2 waiting
      ≡ done (record waiting { response_map = respond id_2 [] }))
    × Distinct (respond id_2 [])
count_response-minority_example =
    count_response-minority env (start_initializing env 2) id_2 waiting tt waiting_ballots
      one_answer

-- A member that is alone, and has accepted a vote for another configuration.
abbrev alone : Legislator
alone = record secondary {
  replicas = [];
  max_accepted = record (vote_at 10) { is_reconfiguration = true };
}

start_initializing-Ends_example : Ends (start_initializing env 2 alone)
start_initializing-Ends_example =
    start_initializing-Ends env 0 alone
      (record { bootstrapped = omega arith; number = omega arith })
