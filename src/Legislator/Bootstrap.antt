-- ===== src/Legislator/Bootstrap.antt =====
-- src/RSL/src/legislator.cpp: a replica that starts without a configuration, `StartBootstrap`,
-- `CheckBootstrap`, `PersistMemberSet` and `SaveCheckpoint`. What the application and the disk do is
-- a parameter.
pub mod Ids
pub mod Matching
pub mod Steps
use rsl.Common.{ℕ, ◌+◌, ◌-◌, ◌%◌, ◌^◌, Bool, true, false, not, ◌&&◌, ◌||◌, List, [], ◌∷◌, ◌++◌, map}
use rsl.Common.{Option, none, some, length, ltb, ◌==◌, if◌then◌else◌}
use rsl.Common.{Outcome, ◌>>=◌, ◌>>◌, done, log_assert}
use rsl.Ballot.{no_ballot, id_eq, eq}
use rsl.Message.Encode.{CRuntime}
use rsl.Vote.{Vote, Node, new_vote}
use rsl.Membership.{MemberInfo, MemberSet, includes_id, verify}
use rsl.Legislator.{Legislator, Env, Replica, ConfigurationInfo, is_inactive}
use rsl.Legislator.Election.{other_members, includes_member, resolved}
use rsl.Legislator.Reinitialize.{start_initializing}
use rsl.Legislator.Cleanup.{Disk, Janitor, checkpoint_done}

-- `RSLResponseCode`.
pub data ResponseCode : Type 0 where
  success fast_read_stale not_primary shutting_down already_bootstrapped : ResponseCode
  bootstrap_failed invalid_parameter : ResponseCode

-- `m_stateConfiguration`, with the whole member set.
pub record StateConfiguration : Type 0 where
  pub configuration_number : ℕ
  pub initial_decree : ℕ
  pub member_set : MemberSet

-- `notices` counts the calls of `NotifyConfigurationChanged`, `saved` those of `StateSaved`.
pub record Startup : Type 0 where
  pub engine : Legislator
  pub disk : Disk
  pub state_configuration : StateConfiguration
  pub bootstrap_set : Option MemberSet
  pub last_executed : ℕ
  pub notices : ℕ
  pub saved : ℕ

-- The C library, the comparison of host names `lstrcmpi(a, b) == 0`, the application's `TrySaveState`,
-- the size of the file that is written, and whether it can be read again.
pub record Starter : Type 0 where
  pub runtime : CRuntime
  pub same_host : List ℕ → List ℕ → Bool
  pub env : Env
  pub janitor : Janitor
  pub tries_save : Bool
  pub file_size : ℕ
  pub verifies : Bool

unfoldable pub has_configuration_checkpointed : Startup → Bool
has_configuration_checkpointed s = ltb 0 (length s.state_configuration.member_set.members)

unfoldable pub is_bootstrapped : Startup → Bool
is_bootstrapped s =
    ltb 0 s.engine.max_accepted.ballot.ballot_id || ltb 1 s.engine.max_accepted.decree

-- The member set that a new one has to match.
unfoldable pub current_set : Startup → Option MemberSet
unfolding has_configuration_checkpointed
current_set s =
    if has_configuration_checkpointed s
    then some s.state_configuration.member_set
    else s.bootstrap_set

-- `MemberInfo` as the rest of the engine knows it.
abbrev pub to_node : MemberInfo → Node
to_node n = record { member_id = n.member_id; ip = n.ip; rsl_port = n.rsl_port }

abbrev pub configuration_of : StateConfiguration → ConfigurationInfo
configuration_of c = record {
  configuration_number = c.configuration_number;
  initial_decree = c.initial_decree;
  members = map to_node c.member_set.members;
}

module _ (h : Starter) where
  unfoldable pub same_place : MemberInfo → MemberInfo → Bool
  same_place c n =
      (c.ip == n.ip) && (c.rsl_port == n.rsl_port) && h.same_host c.host_name n.host_name

  -- The inner loop: the last member with the id decides.
  unfoldable pub found_in : MemberInfo → Bool → List MemberInfo → Bool
  unfolding same_place
  found_in c found [] = found
  found_in c found (n ∷ ns) =
      found_in c (if id_eq c.member_id n.member_id then same_place c n else found) ns

  unfoldable pub all_found : List MemberInfo → List MemberInfo → Bool
  unfolding found_in
  all_found [] new = true
  all_found (c ∷ cs) new =
      let rest = all_found cs new in if found_in c false new then rest else false

  unfoldable pub same_members : MemberSet → MemberSet → Bool
  unfolding all_found
  same_members current new =
      if length current.members == length new.members
      then all_found current.members new.members
      else false

  unfoldable pub match_current : Option MemberSet → MemberSet → Outcome Bool
  unfolding same_members
  match_current none new = done true
  match_current (some current) new = do
    log_assert (ltb 0 (length current.members))
    done (same_members current new)

  unfoldable pub start_bootstrap : MemberSet → Startup → Outcome (ResponseCode × Startup)
  unfolding is_bootstrapped current_set match_current
  start_bootstrap new s =
      if not (verify h.runtime s.engine.version new)
      then done (invalid_parameter, s)
      else if is_bootstrapped s
      then done (already_bootstrapped, s)
      else if not (includes_id s.engine.member_id new.members)
      then done (bootstrap_failed, s)
      else (do
        matches ← match_current (current_set s) new
        done (
            if matches
            then (success, record s { bootstrap_set = some new })
            else (bootstrap_failed, s)))

  -- `SaveCheckpoint`. Checksums and the contents of the file are left out.
  unfoldable pub save_checkpoint : Vote → Bool → Startup → Outcome (Bool × Startup)
  unfolding checkpoint_done
  save_checkpoint v save_state s = do
    log_assert (ltb 0 v.decree)
    log_assert (v.decree - 1 == s.last_executed)
    if save_state && not h.tries_save then done (false, s) else (do
      log_assert h.verifies
      r ← checkpoint_done h.janitor s.last_executed (v.decree - 1) h.file_size s.engine s.disk
      done (true, record s { engine = r.0; disk = r.1; saved = s.saved + 1 }))

  -- The state with the first configuration, and the vote that stands for it.
  unfoldable pub install_first : MemberSet → Startup → Startup
  unfolding new_vote
  install_first new s =
      let c : StateConfiguration = record {
        configuration_number = 1;
        initial_decree = 1;
        member_set = new;
      } in
      let engine = s.engine in
      record s {
        state_configuration = c;
        engine = record engine {
          configuration = configuration_of c;
          max_accepted =
              new_vote engine.version engine.member_id 1 1 no_ballot engine.primary_cookie;
        };
      }

  unfoldable pub persist_member_set : MemberSet → Startup → Outcome (Bool × Startup)
  unfolding save_checkpoint install_first
  persist_member_set new s = do
    log_assert (s.state_configuration.configuration_number == 0)
    log_assert (s.state_configuration.initial_decree == 0)
    log_assert (length s.state_configuration.member_set.members == 0)
    log_assert (s.engine.max_accepted.configuration_number == 0)
    log_assert (s.engine.max_accepted.decree == 0)
    log_assert (eq s.engine.max_accepted.ballot no_ballot)
    let s₁ = install_first new s in save_checkpoint s₁.engine.max_accepted false s₁

  unfoldable pub persist_pending : Option MemberSet → Startup → Outcome (Bool × Startup)
  unfolding persist_member_set
  persist_pending none s = done (false, s)
  persist_pending (some new) s = do
    r ← persist_member_set new s
    done (r.0, record (r.1) { bootstrap_set = none })

  -- The other members become replicas, and the replica starts to initialize.
  unfoldable pub join_configuration : ℕ → Startup → Outcome Startup
  unfolding resolved other_members includes_member
  join_configuration fuel s =
      let engine = s.engine in
      if includes_member engine.member_id engine.configuration.members
      then (do
        t ← start_initializing h.env fuel (record engine {
          replicas =
              engine.replicas
              ++ map (resolved h.env) (other_members engine.member_id engine.configuration.members);
        })
        done (record s { engine = t }))
      else done s

  unfoldable pub check_bootstrap : ℕ → Startup → Outcome Startup
  unfolding has_configuration_checkpointed persist_pending join_configuration
  check_bootstrap fuel s = do
    log_assert (is_inactive s.engine)
    r ← persist_pending (if has_configuration_checkpointed s then none else s.bootstrap_set) s
    join_configuration fuel (if r.0 then record (r.1) { notices = r.1.notices + 1 } else r.1)
