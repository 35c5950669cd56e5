-- ===== src/Tests/Learning.antt =====
-- Status responses and learning on concrete messages.
use rsl.Common.{[], ◌∷◌, ◌≡◌, refl, true, false, arith, done, Holds, length, Option, none, some}
use rsl.Common.{◌+◌, ◌-◌, ◌*◌, ◌^◌, ◌<◌, ◌≤◌, ◌⊎◌, ◌↔◌, All}
use rsl.Ballot.{MemberId, id_eq, eq, lt, ge, gt}
use rsl.Message.{is_higher_decree, is_next_decree, is_same_decree, is_lower_decree}
use rsl.Message.Bodies.{StatusResponse}
use rsl.StatusMap.{
  StatusMap, empty_map, insert, find_higher_logged, find_checkpoint, find_min_received_ago,
}
use rsl.StatusMap.Refines.{Refines, override, lookup, IsUnique, empty_map-Refines, insert-Refines}
use rsl.StatusMap.Searches.{searches-lookup, IsAbove, Listed, find_min_received_ago-le}
use rsl.Legislator.{
  Legislator, Env, initializing, logged_vote, am_primary, is_initializing, quorum_size,
}
use rsl.ExecuteQueue.{enqueue}
use rsl.Legislator.Handlers.{includes}
use rsl.Legislator.Guards.{Distinct}
use rsl.Legislator.Learn.{learn_votes, receive_vote}
use rsl.Legislator.Status.{handle_status_response, start_copy}
use rsl.Legislator.Caught.{IsCaughtUp, learn_votes-IsCaughtUp}
use rsl.Legislator.Responses.{handle_status_response-minority, Rising, receive_vote-Rising}
use rsl.Legislator.Quorum.{IsShared, IsWithin, quorums-IsShared}
use rsl.Legislator.Reinitialize.{start_initializing}
use rsl.Tests.Data.{id_1, id_2, id_3, ballot_1, status_msg, vote_at, env, secondary, replica_of}

-- Member "3" has answered, at decree 10 and ballot 2.
abbrev one_answer : StatusMap
one_answer = record { queue = status_msg ∷ []; num_responses = 1 }

insert_one : insert status_msg empty_map ≡ one_answer
unfolding insert empty_map
insert_one = refl

abbrev nobody : MemberId → Option StatusResponse
nobody id = none

insert-Refines_example : Refines (insert status_msg empty_map) (override status_msg nobody)
unfolding empty_map
insert-Refines_example = insert-Refines status_msg empty_map nobody empty_map-Refines (omega arith)

-- A second answer of the member takes the place of the first.
insert_twice : insert status_msg one_answer ≡ one_answer
unfolding insert id_eq
insert_twice = refl

one_answer-IsUnique : IsUnique one_answer.queue
unfolding lookup
one_answer-IsUnique = (refl, tt)

searches-lookup_example :
    ((lookup id_3 (find_higher_logged 10 9 ballot_1 one_answer.queue) ≡ some status_msg) ↔ (
      (lookup id_3 one_answer.queue ≡ some status_msg)
      × (status_msg.min_decree_in_log ≤ 10)
      × IsAbove status_msg 9 ballot_1))
    × ((lookup id_3 (find_checkpoint 4 one_answer.queue) ≡ some status_msg)
        ↔ ((lookup id_3 one_answer.queue ≡ some status_msg) × (4 ≤ status_msg.checkpointed_decree)))
searches-lookup_example =
    searches-lookup 4 10 9 ballot_1 id_3 status_msg one_answer.queue one_answer-IsUnique

found_one : find_higher_logged 10 9 ballot_1 one_answer.queue ≡ one_answer.queue
unfolding find_higher_logged is_higher_decree gt ge
found_one = refl

find_min_received_ago-le_example :
    (find_min_received_ago one_answer.queue < 2 ^ 63)
    × All
        (λ s.
          s.last_received_ago < 2 ^ 63
          → find_min_received_ago one_answer.queue ≤ s.last_received_ago)
        one_answer.queue
    × ((find_min_received_ago one_answer.queue ≡ 2 ^ 63 - 1)
        ⊎ ((s : StatusResponse) × Listed s one_answer.queue
            × ((find_min_received_ago one_answer.queue ≡ s.last_received_ago)
                ⊎ ((find_min_received_ago one_answer.queue ≡ 0) × (2 ^ 63 ≤ s.last_received_ago)))))
find_min_received_ago-le_example = find_min_received_ago-le one_answer.queue (omega arith, tt)

-- Member "1" initializes and has received the vote of decree 12; member "2" sends those from 10 on.
abbrev learning_env : Env
learning_env = record env {
  fetched_votes = λ id. some (
      record { logged = logged_vote (vote_at 10); received = [] }
      ∷ record { logged = logged_vote (vote_at 11); received = vote_at 11 ∷ [] }
      ∷ []);
}

abbrev learner : Legislator
learner = record secondary { state = initializing; vote_cache = [] }

learn_votes-IsCaughtUp_example :
    Holds
      (λ p. p.0 ≡ true → IsCaughtUp learning_env (start_initializing learning_env 2) p.1)
      (learn_votes learning_env (start_initializing learning_env 2) id_2 learner)
learn_votes-IsCaughtUp_example =
    learn_votes-IsCaughtUp learning_env (start_initializing learning_env 2) id_2 learner

learns :
    Holds
      (λ p. (p.0 ≡ true) × (p.1.max_accepted.decree ≡ 11))
      (learn_votes learning_env (start_initializing learning_env 2) id_2 learner)
unfolding learn_votes enqueue is_next_decree is_lower_decree is_same_decree lt eq ge gt id_eq
learns = (refl, refl)

-- The first of four other members answers.
abbrev asking : Legislator
asking = record secondary {
  state = initializing;
  status_map = empty_map;
  max_accepted = vote_at 10;
  replicas =
      replica_of id_2 2 ∷ replica_of id_3 3 ∷ replica_of (52 ∷ []) 4 ∷ replica_of (53 ∷ []) 5 ∷ [];
}

asking_secondary : am_primary asking ≡ false
unfolding am_primary
asking_secondary = refl

asking_initializing : is_initializing asking ≡ true
unfolding is_initializing
asking_initializing = refl

asked_ballot : eq status_msg.query_ballot asking.max_accepted.ballot ≡ true
unfolding eq
asked_ballot = refl

few_answers :
    2 * (length (insert status_msg asking.status_map).queue + 1) ≤ length asking.replicas + 1
unfolding insert empty_map
few_answers = omega arith

asking_room : length asking.status_map.queue + 2 < 2 ^ 32
unfolding empty_map
asking_room = omega arith

handle_status_response-minority_example :
    (handle_status_response env (start_initializing env 2) status_msg asking
      ≡ done (record (start_copy env (start_initializing env 2) status_msg asking) {
        status_map = insert status_msg asking.status_map;
      }))
    × Refines (insert status_msg asking.status_map) (override status_msg nobody)
handle_status_response-minority_example =
    handle_status_response-minority env (start_initializing env 2) status_msg asking nobody
      empty_map-Refines asking_room asking_secondary asking_initializing refl asked_ballot
      few_answers

receive_vote-Rising_example :
    Rising
      (receive_vote env (vote_at 12) (record learner { vote_cache = vote_at 11 ∷ [] })).vote_cache
receive_vote-Rising_example =
    receive_vote-Rising env (vote_at 12) (record learner { vote_cache = vote_at 11 ∷ [] }) tt

first_pair-Distinct : Distinct (id_1 ∷ id_2 ∷ [])
unfolding includes id_eq
first_pair-Distinct = (refl, (refl, tt))

last_pair-Distinct : Distinct (id_2 ∷ id_3 ∷ [])
unfolding includes id_eq
last_pair-Distinct = (refl, (refl, tt))

first_pair-IsWithin : IsWithin (id_1 ∷ id_2 ∷ []) (id_1 ∷ id_2 ∷ id_3 ∷ [])
unfolding includes id_eq
first_pair-IsWithin = (refl, (refl, tt))

last_pair-IsWithin : IsWithin (id_2 ∷ id_3 ∷ []) (id_1 ∷ id_2 ∷ id_3 ∷ [])
unfolding includes id_eq
last_pair-IsWithin = (refl, (refl, tt))

pair_suffices : quorum_size secondary ≤ 2
unfolding quorum_size
pair_suffices = omega arith

quorums-IsShared_example : IsShared (id_1 ∷ id_2 ∷ []) (id_2 ∷ id_3 ∷ [])
quorums-IsShared_example =
    quorums-IsShared secondary (id_1 ∷ id_2 ∷ id_3 ∷ []) (id_1 ∷ id_2 ∷ []) (id_2 ∷ id_3 ∷ []) refl
      first_pair-Distinct last_pair-Distinct first_pair-IsWithin last_pair-IsWithin pair_suffices
      pair_suffices
