-- ===== src/Tests/Starting.antt =====
-- A replica that is given its first member set, and the set again in another order.
use rsl.Common.{[], ◌∷◌, ◌≡◌, ◌≢◌, refl, subst, true, arith, none, some}
use rsl.Common.{Outcome, done, assert_failed, shut_down, stuck, Returns}
use rsl.Ballot.{no_ballot, id_eq, eq}
use rsl.Message.{init_message}
use rsl.Legislator.Election.{includes_member}
use rsl.Legislator.Reinitialize.{start_initializing}
use rsl.Ballot.Order.{id_eq-eq, id_eq_self, id_eq_sym}
use rsl.Membership.{MemberSet, includes_id, verify}
use rsl.Vote.{new_vote}
use rsl.Legislator.{Legislator, is_inactive, paxos_inactive}
use rsl.Legislator.Bootstrap.{Starter, Startup, success, bootstrap_failed, invalid_parameter}
use rsl.Legislator.Bootstrap.{start_bootstrap, check_bootstrap, current_set}
use rsl.Legislator.Bootstrap.Matching.{IsNameEquality}
use rsl.Legislator.Bootstrap.Steps.{Step, Reach, Follows, Reach-Follows}
use rsl.Tests.Data.{one_digit, id_2, id_3, env, secondary}
use rsl.Tests.Restoring.{janitor}
use rsl.Tests.Votes.{two_members}

abbrev starter : Starter
starter = record {
  runtime = one_digit;
  same_host = id_eq;
  env = env;
  janitor = janitor;
  tries_save = true;
  file_size = 4096;
  verifies = true;
}

names : IsNameEquality starter
names = record {
  reflexive = id_eq_self;
  symmetric = id_eq_sym;
  transitive = λ a b c p q. subst (λ t. id_eq a t ≡ true) (id_eq-eq b c q) p;
}

abbrev waiting : Legislator
unfolding new_vote
waiting = record secondary {
  member_id = id_2;
  state = paxos_inactive;
  replicas = [];
  configuration = record { configuration_number = 0; initial_decree = 0; members = [] };
  max_accepted = new_vote 6 id_2 0 0 no_ballot secondary.primary_cookie;
}

abbrev started : Startup
started = record {
  engine = waiting;
  disk = record { checkpoints = []; logs = [] };
  state_configuration = record {
    configuration_number = 0;
    initial_decree = 0;
    member_set = record { members = []; cookie = [] };
  };
  bootstrap_set = some two_members;
  last_executed = 0;
  notices = 0;
  saved = 0;
}

abbrev reversed : MemberSet
reversed = record two_members {
  members = elim two_members.members [ a ∷ b ∷ ns ↦ b ∷ a ∷ ns | ns ↦ ns ];
}

abbrev again : Startup
again = record started { bootstrap_set = some reversed }

abbrev value : Outcome Startup → Startup
value (done s) = s
value assert_failed = started
value shut_down = started
value stuck = started

accepted : start_bootstrap starter reversed started ≡ done (success, again)
unfolding start_bootstrap verify new_vote id_eq init_message
accepted = refl

-- A member at another place, too few members, or none.
refused :
    (start_bootstrap starter
        (record two_members {
          members = elim two_members.members [ [] ↦ [] | a ∷ ns ↦ record a { ip = 9 } ∷ ns ];
        })
        started
      ≡ done (bootstrap_failed, started))
    × (start_bootstrap starter
          (record two_members { members = elim two_members.members [ [] ↦ [] | a ∷ ns ↦ a ∷ [] ] })
          started
        ≡ done (bootstrap_failed, started))
    × (start_bootstrap starter (record two_members { members = [] }) started
        ≡ done (invalid_parameter, started))
unfolding start_bootstrap verify new_vote id_eq init_message
refused = (refl, refl, refl)

-- The set is checkpointed, the application is told, and the replica is started no second time.
checked :
    Returns
      (λ s.
        (s.saved ≡ 1)
        × (s.notices ≡ 1)
        × (s.disk.checkpoints ≡ 0 ∷ [])
        × (s.bootstrap_set ≡ none)
        × (current_set s ≡ some reversed))
      (check_bootstrap starter 2 again)
unfolding check_bootstrap current_set new_vote is_inactive init_message eq includes_member id_eq
    start_initializing
checked = (refl, refl, refl, refl, refl)

check_again : check_bootstrap starter 2 again ≡ done (value (check_bootstrap starter 2 again))
unfolding check_bootstrap new_vote is_inactive init_message eq includes_member id_eq
    start_initializing
check_again = refl

id_2-apart : id_2 ≢ id_3
unfolding id_eq
id_2-apart e =
    let same : id_eq id_2 id_3 ≡ true = subst (λ t. id_eq id_2 t ≡ true) e (id_eq_self id_2) in
    ground arith

Reach-Follows_example : Follows starter two_members (value (check_bootstrap starter 2 again))
unfolding current_set includes_id new_vote id_eq
Reach-Follows_example =
    Reach-Follows starter names two_members started (value (check_bootstrap starter 2 again)) refl
      (omega arith, ((id_2-apart, tt), (tt, tt)))
      (Reach.later (Reach.later Reach.stay (Step.start reversed success accepted))
        (Step.check 2 check_again))
