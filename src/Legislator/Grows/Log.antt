-- ===== src/Legislator/Grows/Log.antt =====
-- src/RSL/src/legislator.cpp: writing to the log lowers no counter.
use rsl.Common.{ℕ, ◌+◌, ◌-◌, ◌%◌, ◌^◌, ◌<◌, ◌≡◌, refl, ◌∙◌, subst, sym, arith, true, false}
use rsl.Common.{
  Outcome, done, Holds, Holds-map, Holds-bind, Holds-log_assert, Holds-into, ◌>>=◌, if-cases,
}
use rsl.Common.{not, ◌&&◌, ◌||◌, if◌then◌else◌, List, [], ◌∷◌, Option, none, some, leb, ltb}
use rsl.Ballot.{BallotNumber, gt, ge, eq}
use rsl.Ballot.Le.{Le-refl, Le-trans, Upto, Upto-refl, gt-Le}
use rsl.Ballot.Order.{gt-lt}
use rsl.Ballot.Places.{is_same_decree-same, is_next_decree-Upto}
use rsl.Message.{is_same_decree}
use rsl.Message.Bodies.{PrepareMsg, prepare_len}
use rsl.Vote.{Vote, marshal_len}
use rsl.LogFile.{LogFile, LogRecord, write_message, add_message, add_vote, prepare_record}
use rsl.ExecuteQueue.{enqueue}
use mathlib.Core.List.{reverse}
use rsl.Legislator.{Legislator, Env, paxos_configuration, am_primary, is_inactive}
use rsl.Legislator.Log
use rsl.Legislator.Grows.{
  Room, Room-less, Grows, Grows-refl, Grows-trans, Step, Step-bind, Costs, view,
}

-- A state with the same view is no step.
pub Step-same : (k : ℕ) (s : Legislator) → Room k (view s) → Step k s s
Step-same k s r = (Grows-refl (view s), r)

-- What keeps the view.
abbrev pub Keeps : Legislator → Outcome Legislator → Type 0
Keeps s m = Holds (λ t. view t ≡ view s) m

pub Keeps-Step :
    (k : ℕ) (s : Legislator) (m : Outcome Legislator)
    → Room k (view s)
    → Keeps s m
    → Holds (Step k s) m
Keeps-Step k s m r h =
    Holds-map (λ t. view t ≡ view s) (Step k s) m h
      (λ t same. subst (λ w. Grows (view s) w × Room k w) (sym same) (Step-same k s r))

-- From a state with the same view.
pub Step-from :
    (k : ℕ) (s t : Legislator) (m : Outcome Legislator)
    → view t ≡ view s
    → Holds (Step k t) m
    → Holds (Step k s) m
Step-from k s t m same h = subst (λ w. Holds (λ u. Grows w (view u) × Room k (view u)) m) same h

module _ (e : Env) where
  pub set_max_ballot-Step :
      (k : ℕ) (b : BallotNumber) (s : Legislator)
      → Room k (view s)
      → b.ballot_id + k < 2 ^ 32
      → Step k s (Log.set_max_ballot e b s)
  unfolding Log.set_max_ballot
  set_max_ballot-Step k b s r h =
      if-cases (Step k s) (gt b s.max_ballot) _ s
        (λ g. (
          record {
            member = refl;
            promised = gt-Le b s.max_ballot g;
            accepted = Upto-refl s.max_accepted.decree s.max_accepted.ballot;
            configuration = omega arith;
            defunct = omega arith;
          },
          record {
            ballot_id = h;
            seen_id = r.seen_id;
            decree = r.decree;
            number = r.number;
            bootstrapped = r.bootstrapped;
            below = Le-trans s.max_accepted.ballot s.max_ballot b r.below (gt-Le b s.max_ballot g);
          },
        ))
        (λ _. Step-same k s r)

  pub write_back-view : (x : LogRecord) (s : Legislator) → Keeps s (Log.write_back x s)
  unfolding Log.write_back
  write_back-view x s =
      Holds-into (λ t. view t ≡ view s) (Log.with_back (λ f. done (write_message x f)) s.log_files)
        (λ files. done (record s { log_files = files })) (λ files. refl)

  pub add_message_to_log-view : (len : ℕ) (s : Legislator) → Keeps s (Log.add_message_to_log len s)
  unfolding Log.add_message_to_log
  add_message_to_log-view len s =
      Holds-into (λ t. view t ≡ view s) (Log.with_back (λ f. done (add_message len f)) s.log_files)
        (λ files. done (record s { log_files = files })) (λ files. refl)

  pub add_vote_to_log-view :
      (decree len : ℕ) (s : Legislator) → Keeps s (Log.add_vote_to_log decree len s)
  unfolding Log.add_vote_to_log
  add_vote_to_log-view decree len s =
      Holds-into (λ t. view t ≡ view s) (Log.with_back (add_vote decree len) s.log_files)
        (λ files. done (record s { log_files = files })) (λ files. refl)

  pub add_to_execution_queue-view :
      (v : Vote) (s : Legislator) → Keeps s (Log.add_to_execution_queue e v s)
  unfolding Log.add_to_execution_queue
  add_to_execution_queue-view v s =
      Holds-into (λ t. view t ≡ view s)
        (enqueue e.in_memory_execution_queue_size (reverse s.log_files) v
          (v.has_user_cookie || am_primary s) s.execute_q)
        (λ q. done (record s {
          execute_q = q;
          version = if ltb s.version v.version then v.version else s.version;
        }))
        (λ q. refl)

  pub log_prepare-Step :
      (k : ℕ) (m : PrepareMsg) (s : Legislator)
      → Room k (view s)
      → m.ballot.ballot_id + k < 2 ^ 32
      → Holds (Step k s) (Log.log_prepare e m s)
  unfolding Log.log_prepare
  log_prepare-Step k m s r h = Holds-log_assert (Step k s) (ge m.ballot s.max_ballot) _ (λ _.
      if-cases (Holds (Step k s)) (eq m.ballot s.max_ballot) (done s) _ (λ _. Step-same k s r)
        (λ _.
          Step-bind k k s (Log.write_back (prepare_record m.header) s) _
            (Keeps-Step k s _ r (write_back-view (prepare_record m.header) s))
            (λ t st.
              let su = set_max_ballot-Step k m.ballot t st.1 h in
              Holds-map (Step k (Log.set_max_ballot e m.ballot t)) (Step k t) _
                (Keeps-Step k (Log.set_max_ballot e m.ballot t) _ su.1
                  (add_message_to_log-view (prepare_len m) (Log.set_max_ballot e m.ballot t)))
                (λ u sv. (Grows-trans su.0 sv.0, sv.1)))))

  pub write_vote-Step :
      (k : ℕ) (v : Vote) (logs : List LogFile) (s : Legislator)
      → Room k (view s)
      → Holds (λ p. view p.1 ≡ view s) (Log.write_vote e v logs s)
  unfolding Log.write_vote
  write_vote-Step k v [] s r = tt
  write_vote-Step k v (log ∷ logs) s r =
      if-cases (Holds (λ p. view p.1 ≡ view s)) (Log.switches_log e v log s) _ _ (λ _. refl)
        (λ _. refl)

  pub ask_checkpoint-view :
      (logs : List LogFile) (s : Legislator) → view (Log.ask_checkpoint e logs s) ≡ view s
  unfolding Log.ask_checkpoint
  ask_checkpoint-view [] s = refl
  ask_checkpoint-view (log ∷ logs) s = ground arith

  push_log-view : (o : Option LogFile) (s : Legislator) → view (Log.push_log e o s) ≡ view s
  unfolding Log.push_log
  push_log-view none s = refl
  push_log-view (some log) s = refl

  module _ (again : Legislator → Outcome Legislator) where
    -- A configuration older than the one in force does not initialize the replica again.
    pub update_defunct_info-Step :
        (k n : ℕ) (s : Legislator)
        → Room k (view s)
        → n < paxos_configuration s
        → Holds
            (λ t. Step k s t × (t.max_accepted ≡ s.max_accepted))
            (Log.update_defunct_info e again n s)
    unfolding Log.update_defunct_info
    update_defunct_info-Step k n s r h =
        if-cases (Holds (λ t. Step k s t × (t.max_accepted ≡ s.max_accepted)))
          (leb n s.highest_defunct) (done s) _ (λ _. (Step-same k s r, refl))
          (λ over.
            let current : leb (paxos_configuration s) n ≡ false = ground arith in
            rw current (
              (
                record {
                  member = refl;
                  promised = Le-refl s.max_ballot;
                  accepted = Upto-refl s.max_accepted.decree s.max_accepted.ballot;
                  configuration = omega arith;
                  defunct = ground arith;
                },
                record {
                  ballot_id = r.ballot_id;
                  seen_id = r.seen_id;
                  decree = r.decree;
                  number = r.number;
                  bootstrapped = r.bootstrapped;
                  below = r.below;
                },
              ),
              refl,
            ))

    -- The vote put in the place of the last accepted one, and its ballot promised.
    accept-Step :
        (k : ℕ) (v : Vote) (s : Legislator)
        → Room k (view s)
        → v.decree + k < 2 ^ 64
        → v.ballot.ballot_id + k < 2 ^ 32
        → Upto s.max_accepted.decree s.max_accepted.ballot v.decree v.ballot
        → Step k s (Log.set_max_ballot e v.ballot (record s { max_accepted = v }))
    unfolding Log.set_max_ballot
    accept-Step k v s r hd hb up =
        if-cases (Step k s) (gt v.ballot s.max_ballot) _ (record s { max_accepted = v })
          (λ g. (
            record {
              member = refl;
              promised = gt-Le v.ballot s.max_ballot g;
              accepted = up;
              configuration = omega arith;
              defunct = omega arith;
            },
            record {
              ballot_id = hb;
              seen_id = r.seen_id;
              decree = hd;
              number = r.number;
              bootstrapped = r.bootstrapped;
              below = Le-refl v.ballot;
            },
          ))
          (λ g. (
            record {
              member = refl;
              promised = Le-refl s.max_ballot;
              accepted = up;
              configuration = omega arith;
              defunct = omega arith;
            },
            record {
              ballot_id = r.ballot_id;
              seen_id = r.seen_id;
              decree = hd;
              number = r.number;
              bootstrapped = r.bootstrapped;
              below = sym (gt-lt v.ballot s.max_ballot) ∙ g;
            },
          ))

    -- What `log_vote` does after it has written the vote.
    after_write-Step :
        (k : ℕ) (v : Vote) (s : Legislator)
        → Room k (view s)
        → v.decree + k < 2 ^ 64
        → v.ballot.ballot_id + k < 2 ^ 32
        → Upto s.max_accepted.decree s.max_accepted.ballot v.decree v.ballot
        → Holds (Step k s) (
            Log.add_vote_to_log v.decree
              (marshal_len v)
              (Log.set_max_ballot e v.ballot (record s { max_accepted = v }))
            >>= λ t. done (Log.ask_checkpoint e t.log_files t))
    after_write-Step k v s r hd hb up =
        let s₁ = record s { max_accepted = v } in
        let st = accept-Step k v s r hd hb up in
        Step-bind k k s
          (Log.add_vote_to_log v.decree (marshal_len v) (Log.set_max_ballot e v.ballot s₁))
          (λ t. done (Log.ask_checkpoint e t.log_files t))
          (Holds-map (Step k (Log.set_max_ballot e v.ballot s₁)) (Step k s) _
            (Keeps-Step k (Log.set_max_ballot e v.ballot s₁) _ st.1
              (add_vote_to_log-view v.decree (marshal_len v) (Log.set_max_ballot e v.ballot s₁)))
            (λ u sv. (Grows-trans st.0 sv.0, sv.1)))
          (λ t st.
            subst (λ w. Grows (view t) w × Room k w) (sym (ask_checkpoint-view t.log_files t))
              (Step-same k t st.1))

    pushed-Step :
        (k : ℕ) (v : Vote) (log : Option LogFile) (s : Legislator)
        → Room k (view s)
        → v.decree + k < 2 ^ 64
        → v.ballot.ballot_id + k < 2 ^ 32
        → Upto s.max_accepted.decree s.max_accepted.ballot v.decree v.ballot
        → Holds (Step k s) (
            Log.add_vote_to_log v.decree
              (marshal_len v)
              (Log.set_max_ballot e v.ballot (record (Log.push_log e log s) { max_accepted = v }))
            >>= λ u. done (Log.ask_checkpoint e u.log_files u))
    unfolding Log.push_log
    pushed-Step k v none s r hd hb up = after_write-Step k v s r hd hb up
    pushed-Step k v (some file) s r hd hb up =
        after_write-Step k v (record s { log_files = file ∷ s.log_files }) r hd hb up

    finish_vote-Step :
        (k : ℕ) (v : Vote) (log : Option LogFile) (s : Legislator)
        → Room k (view s)
        → v.decree + k < 2 ^ 64
        → v.ballot.ballot_id + k < 2 ^ 32
        → v.configuration_number ≡ paxos_configuration s
        → Upto s.max_accepted.decree s.max_accepted.ballot v.decree v.ballot
        → Holds (Step k s) (Log.finish_vote e again v log s)
    unfolding Log.finish_vote
    finish_vote-Step k v log s r hd hb hc up =
        Holds-bind (λ t. Step k s t × (t.max_accepted ≡ s.max_accepted)) (Step k s) _ _
          (update_defunct_info-Step k ((v.configuration_number + (2 ^ 32 - 1)) % 2 ^ 32) s r
            (omega (arith, hc, r.bootstrapped, r.number)))
          (λ t (st, same).
            Holds-map (Step k t) (Step k s) _
              (pushed-Step k v (Log.file_to_push e log s.log_files t.log_files) t st.1 hd hb
                (rw same up))
              (λ u su. (Grows-trans st.0 su.0, su.1)))

    -- The vote that was accepted last, once more.
    accepted_again-Step :
        (k : ℕ) (v : Vote) (s : Legislator)
        → Room k (view s)
        → is_same_decree s.max_accepted.decree s.max_accepted.ballot v.decree v.ballot ≡ true
        → Step k s (record s { max_accepted = v })
    accepted_again-Step k v s r same =
        let (at, on) =
          is_same_decree-same s.max_accepted.decree v.decree s.max_accepted.ballot v.ballot same in
        (
          record {
            member = refl;
            promised = Le-refl s.max_ballot;
            accepted = rw (at, on) (Upto-refl s.max_accepted.decree s.max_accepted.ballot);
            configuration = omega arith;
            defunct = omega arith;
          },
          record {
            ballot_id = r.ballot_id;
            seen_id = r.seen_id;
            decree = rw at r.decree;
            number = r.number;
            bootstrapped = r.bootstrapped;
            below = rw on r.below;
          },
        )

    -- A vote that the replica logs: for its configuration, with a ballot id that leaves room.
    pub log_vote-Step :
        (k : ℕ) (v : Vote) (s : Legislator)
        → Room (k + 1) (view s)
        → v.ballot.ballot_id + k < 2 ^ 32
        → v.configuration_number ≡ paxos_configuration s
        → Holds (Step k s) (Log.log_vote e again v s)
    unfolding Log.log_vote
    log_vote-Step k v s r hb hc =
        let r₀ : Room k (view s) = Room-less k (k + 1) (view s) (omega arith) r in
        if-cases (Holds (Step k s))
          (is_same_decree s.max_accepted.decree s.max_accepted.ballot v.decree v.ballot)
          (done (record s { max_accepted = v })) _ (λ same. accepted_again-Step k v s r₀ same)
          (λ _. Holds-log_assert (Step k s) _ _ (λ nx.
            let (near, up) =
              is_next_decree-Upto v.decree s.max_accepted.decree v.ballot s.max_accepted.ballot
                (omega (arith, r.decree)) nx in
            Holds-bind (λ p. view p.1 ≡ view s) (Step k s) (Log.write_vote e v s.log_files s) _
              (write_vote-Step k v s.log_files s r₀)
              (λ (log, s₁) same.
                subst
                  (λ w.
                    Room k w
                    → v.configuration_number ≡ w.configuration
                    → Upto w.decree w.ballot v.decree v.ballot
                    → Holds (λ t. Grows w (view t) × Room k (view t))
                        (Log.finish_vote e again v log s₁))
                  same
                  (λ r₁ hc₁ up₁.
                    finish_vote-Step k v log s₁ r₁ (omega (arith, near, r.decree)) hb hc₁ up₁)
                  r₀ hc up)))

  -- A notice of defunct configurations, which can initialize the replica.
  pub defunct-Step :
      (again : Legislator → Outcome Legislator) (c : ℕ) (costs : Costs c again) (k n : ℕ)
      (s : Legislator)
      → Room (k + c) (view s)
      → Holds (Step k s) (Log.update_defunct_info e again n s)
  unfolding Log.update_defunct_info
  defunct-Step again c costs k n s r =
      let less : Room k (view s) = Room-less k (k + c) (view s) (omega arith) r in
      if-cases (Holds (Step k s)) (leb n s.highest_defunct) (done s) _ (λ _. Step-same k s less)
        (λ over.
          if-cases (Holds (Step k s)) (leb (paxos_configuration s) n && not (is_inactive s))
            (again s) (done (record s { highest_defunct = n })) (λ _. costs k s r)
            (λ _. (
              record {
                member = refl;
                promised = Le-refl s.max_ballot;
                accepted = Upto-refl s.max_accepted.decree s.max_accepted.ballot;
                configuration = omega arith;
                defunct = ground arith;
              },
              record {
                ballot_id = less.ballot_id;
                seen_id = less.seen_id;
                decree = less.decree;
                number = less.number;
                bootstrapped = less.bootstrapped;
                below = less.below;
              },
            )))
