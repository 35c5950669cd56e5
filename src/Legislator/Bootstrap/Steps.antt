-- ===== src/Legislator/Bootstrap/Steps.antt =====
-- src/RSL/src/legislator.cpp: `StartBootstrap` and `CheckBootstrap` as steps of a replica, in any
-- order and between any other work of the engine that leaves the executed configuration.
use rsl.Common.{
  ℕ, ◌<◌, ◌+◌, ◌-◌, ◌==◌, ◌&&◌, ap, Bool, ◌≡◌, inl, inr, refl, sym, ◌∙◌, subst, arith, true, false,
  not, length,
}
use rsl.Common.{none, some, Bool-cases, ltb, lt→ltb, if◌then◌else◌, if-cases}
use rsl.Common.{done, Holds, Holds-bind, Holds-log_assert, Holds-all}
use rsl.Membership.{MemberSet, includes_id, verify}
use rsl.Membership.Valid.{HasDistinctIds, verify-HasDistinctIds}
use rsl.Ballot.{no_ballot, eq}
use rsl.Vote.{Vote}
use rsl.Legislator.Election.{includes_member}
use rsl.Legislator.Reinitialize.{start_initializing}
use rsl.Legislator.{Legislator, is_inactive}
use rsl.Legislator.Cleanup.{checkpoint_done}
use rsl.Legislator.Bootstrap.{
  Starter, Startup, ResponseCode, current_set, has_configuration_checkpointed, same_members,
}
use rsl.Legislator.Bootstrap.{
  match_current, is_bootstrapped, start_bootstrap, save_checkpoint, persist_member_set,
}
use rsl.Legislator.Bootstrap.{install_first, persist_pending, join_configuration, check_bootstrap}
use rsl.Legislator.Bootstrap.Matching.{
  IsNameEquality, Agree, Agree-refl, Agree-trans, same_members-Agree,
}

module _ (h : Starter) where
  pub data Step : Startup → Startup → Type 0 where
    start :
        {s t : Startup} (new : MemberSet) (r : ResponseCode)
        → start_bootstrap h new s ≡ done (r, t)
        → Step s t
    check : {s t : Startup} (fuel : ℕ) → check_bootstrap h fuel s ≡ done t → Step s t
    run : {s : Startup} (engine : Legislator) → Step s (record s { engine = engine })

  pub data Reach (s : Startup) : Startup → Type 0 where
    stay : Reach s s
    later : {t u : Startup} → Reach s t → Step t u → Reach s u

  abbrev pub IsGood : MemberSet → Type 0
  IsGood m = (0 < length m.members) × HasDistinctIds m.members

  -- The replica's member set has a member, has distinct ids, and agrees with `m`.
  pub record Follows (m : MemberSet) (s : Startup) : Type 0 where
    pub set : MemberSet
    pub current : current_set s ≡ some set
    pub good : IsGood set
    pub agree : Agree h m set

  current_set-has :
      (s : Startup)
      → has_configuration_checkpointed s ≡ true
      → current_set s ≡ some s.state_configuration.member_set
  unfolding current_set
  current_set-has s p = rw p refl

  current_set-new :
      (s : Startup) → has_configuration_checkpointed s ≡ false → current_set s ≡ s.bootstrap_set
  unfolding current_set
  current_set-new s p = rw p refl

  match_current-some :
      (current new : MemberSet)
      → IsGood current
      → match_current h (some current) new ≡ done (same_members h current new)
  unfolding match_current
  match_current-some current new g = rw (lt→ltb 0 (length current.members) g.0) refl

  -- What decides the current set.
  abbrev IsUnmoved : Startup → Startup → Type 0
  IsUnmoved s t =
      (t.state_configuration ≡ s.state_configuration) × (t.bootstrap_set ≡ s.bootstrap_set)

  save_checkpoint-IsUnmoved :
      (v : Vote) (b : Bool) (s : Startup) → Holds (λ p. IsUnmoved s p.1) (save_checkpoint h v b s)
  unfolding save_checkpoint
  save_checkpoint-IsUnmoved v b s = Holds-log_assert _ (ltb 0 v.decree) _ (λ _.
      Holds-log_assert _ (v.decree - 1 == s.last_executed) _ (λ _.
        if-cases (Holds (λ p. IsUnmoved s p.1)) (b && not h.tries_save) _ _ (λ _. (refl, refl))
          (λ _. Holds-log_assert _ h.verifies _ (λ _.
            Holds-bind (λ _. Unit {0}) (λ p. IsUnmoved s p.1)
              (checkpoint_done h.janitor s.last_executed (v.decree - 1) h.file_size s.engine s.disk)
              _ (Holds-all _ (λ _. tt)) (λ _ _. (refl, refl))))))

  module _ (names : IsNameEquality h) where
    -- A set that matches the current one may take its place.
    Follows-success :
        (m new : MemberSet) (s : Startup)
        → IsGood new
        → (f : Follows m s) → same_members h f.set new ≡ true
        → Follows m (record s { bootstrap_set = some new })
    unfolding has_configuration_checkpointed
    Follows-success m new s g f p =
        let t : Startup = record s { bootstrap_set = some new } in
        elim (Bool-cases (has_configuration_checkpointed s)) [
          | inl e ↦ record {
            set = f.set;
            current = current_set-has t e ∙ (sym (current_set-has s e) ∙ f.current);
            good = f.good;
            agree = f.agree;
          }
          | inr e ↦ record {
            set = new;
            current = current_set-new t e;
            good = g;
            agree =
                Agree-trans h names m f.set new f.agree
                  (same_members-Agree h names f.set new f.good.1 g.1 p);
          }
        ]

    verify-IsGood :
        (version : ℕ) (new : MemberSet) → verify h.runtime version new ≡ true → IsGood new
    verify-IsGood version new v =
        let (some_member, ids, usable) = (verify-HasDistinctIds h.runtime version new).0 v in
        (some_member, ids)

    start_bootstrap-Follows :
        (m new : MemberSet) (s : Startup)
        → Follows m s
        → Holds (λ p. Follows m p.1) (start_bootstrap h new s)
    unfolding start_bootstrap
    start_bootstrap-Follows m new s f =
        if-cases (Holds (λ p. Follows m p.1)) (not (verify h.runtime s.engine.version new)) _ _
          (λ _. f)
          (λ v.
            if-cases (Holds (λ p. Follows m p.1)) (is_bootstrapped s) _ _ (λ _. f)
              (λ _.
                if-cases (Holds (λ p. Follows m p.1))
                  (not (includes_id s.engine.member_id new.members)) _ _ (λ _. f)
                  (λ _.
                    let good = verify-IsGood s.engine.version new (ground arith) in
                    rw (f.current, match_current-some f.set new f.good)
                      (elim (Bool-cases (same_members h f.set new)) [
                        | inl e ↦ rw e (Follows-success m new s good f e)
                        | inr e ↦ rw e f
                      ]))))

    -- The engine's own state does not matter.
    Follows-engine :
        (m : MemberSet) (s : Startup) (t : Legislator)
        → Follows m s
        → Follows m (record s { engine = t })
    unfolding current_set has_configuration_checkpointed
    Follows-engine m s t f = record {
      set = f.set;
      current = f.current;
      good = f.good;
      agree = f.agree;
    }

    Follows-notified :
        (m : MemberSet) (b : Bool) (s : Startup)
        → Follows m s
        → Follows m (if b then record s { notices = s.notices + 1 } else s)
    unfolding current_set has_configuration_checkpointed
    Follows-notified m true s f = record {
      set = f.set;
      current = f.current;
      good = f.good;
      agree = f.agree;
    }
    Follows-notified m false s f = f

    -- The pending set becomes the configuration's.
    Follows-install :
        (m : MemberSet) (s t : Startup)
        → has_configuration_checkpointed s ≡ false
        → (f : Follows m s) → IsUnmoved (install_first h f.set s) t
        → Follows m (record t { bootstrap_set = none })
    unfolding has_configuration_checkpointed install_first
    Follows-install m s t n f u = record {
      set = f.set;
      current =
          current_set-has (record t { bootstrap_set = none })
            (ap (λ c. ltb 0 (length c.member_set.members)) u.0
              ∙ lt→ltb 0 (length f.set.members) f.good.0)
          ∙ ap (λ c. some c.member_set) u.0;
      good = f.good;
      agree = f.agree;
    }

    persist_member_set-IsUnmoved :
        (new : MemberSet) (s : Startup)
        → Holds (λ p. IsUnmoved (install_first h new s) p.1) (persist_member_set h new s)
    unfolding persist_member_set
    persist_member_set-IsUnmoved new s =
        let s₁ = install_first h new s in
        Holds-log_assert _ (s.state_configuration.configuration_number == 0) _ (λ _.
          Holds-log_assert _ (s.state_configuration.initial_decree == 0) _ (λ _.
            Holds-log_assert _ (length s.state_configuration.member_set.members == 0) _ (λ _.
              Holds-log_assert _ (s.engine.max_accepted.configuration_number == 0) _ (λ _.
                Holds-log_assert _ (s.engine.max_accepted.decree == 0) _ (λ _.
                  Holds-log_assert _ (eq s.engine.max_accepted.ballot no_ballot) _
                    (λ _. save_checkpoint-IsUnmoved s₁.engine.max_accepted false s₁))))))

    persist_pending-Follows :
        (m : MemberSet) (s : Startup)
        → Follows m s
        → Holds
            (λ p. Follows m p.1)
            (persist_pending h
              (if has_configuration_checkpointed s then none else s.bootstrap_set)
              s)
    unfolding persist_pending
    persist_pending-Follows m s f =
        if-cases (λ o. Holds (λ p. Follows m p.1) (persist_pending h o s))
          (has_configuration_checkpointed s) none s.bootstrap_set (λ _. f)
          (λ e.
            subst (λ o. Holds (λ p. Follows m p.1) (persist_pending h o s))
              (sym f.current ∙ current_set-new s e)
              (Holds-bind (λ p. IsUnmoved (install_first h f.set s) p.1) (λ p. Follows m p.1)
                (persist_member_set h f.set s) _ (persist_member_set-IsUnmoved f.set s)
                (λ p u. Follows-install m s p.1 e f u)))

    join_configuration-Follows :
        (m : MemberSet) (fuel : ℕ) (s : Startup)
        → Follows m s
        → Holds (Follows m) (join_configuration h fuel s)
    unfolding join_configuration
    join_configuration-Follows m fuel s f =
        if-cases (Holds (Follows m))
          (includes_member s.engine.member_id s.engine.configuration.members) _ _
          (λ _.
            Holds-bind (λ _. Unit {0}) (Follows m) (start_initializing h.env fuel _) _
              (Holds-all _ (λ _. tt)) (λ t _. Follows-engine m s t f))
          (λ _. f)

    check_bootstrap-Follows :
        (m : MemberSet) (fuel : ℕ) (s : Startup)
        → Follows m s
        → Holds (Follows m) (check_bootstrap h fuel s)
    unfolding check_bootstrap
    check_bootstrap-Follows m fuel s f = Holds-log_assert _ (is_inactive s.engine) _ (λ _.
        Holds-bind (λ p. Follows m p.1) (Follows m) _ _ (persist_pending-Follows m s f)
          (λ p k. join_configuration-Follows m fuel _ (Follows-notified m p.0 p.1 k)))

    -- Where the comparison of host names is an equivalence, and the replica's member set has a member
    -- and distinct ids: whatever calls of `StartBootstrap` and `CheckBootstrap` the replica completes
    -- from there, and whatever the engine does between them short of executing a reconfiguration, the
    -- replica still has a member set, with distinct ids and as many members as the first one, and in
    -- whatever order they stand, each member of either set has one in the other with the same id, the
    -- same address and port, and a host name that compares equal.
    pub Reach-Follows :
        (m : MemberSet) (s t : Startup)
        → current_set s ≡ some m
        → IsGood m
        → Reach s t
        → Follows m t
    Reach-Follows m s t c g stay = record {
      set = m;
      current = c;
      good = g;
      agree = Agree-refl h names m;
    }
    Reach-Follows m s u c g (later {t} r (start new code p)) =
        subst (Holds (λ q. Follows m q.1)) p
          (start_bootstrap-Follows m new t (Reach-Follows m s t c g r))
    Reach-Follows m s u c g (later {t} r (check fuel p)) =
        subst (Holds (Follows m)) p (check_bootstrap-Follows m fuel t (Reach-Follows m s t c g r))
    Reach-Follows m s u c g (later {t} r (run engine)) =
        Follows-engine m t engine (Reach-Follows m s t c g r)
