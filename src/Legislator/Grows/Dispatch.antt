-- ===== src/Legislator/Grows/Dispatch.antt =====
-- src/RSL/src/legislator.cpp: the dispatch of a message lowers no counter.
use rsl.Common.{ℕ, ◌+◌, ◌^◌, ◌<◌, sym, subst, arith, leb}
use rsl.Common.{Outcome, done, Holds, Holds-map, if-cases}
use rsl.Legislator.{Legislator, Env}
use rsl.Legislator.Send
use rsl.Legislator.Handlers
use rsl.Legislator.Main
use rsl.Legislator.Main.{Incoming, header_of, defunct_configuration, vote_accepted, prepare_msg}
use rsl.Legislator.Main.{prepare_accepted_msg, not_accepted, reconfiguration_decision, unknown}
use rsl.Legislator.Main.{status_response_msg, join_msg, join_request}
use rsl.Legislator.Grows.{Room, Room-less, Step, Costs, Grows, Grows-trans, view}
use rsl.Legislator.Grows.Log.{Step-same, Keeps-Step, defunct-Step}
use rsl.Legislator.Grows.Election.{log_reconfiguration_decision-Step}
use rsl.Legislator.Grows.Handlers.{handle_vote_accepted-Step, handle_prepare-Step}
use rsl.Legislator.Grows.Handlers.{handle_prepare_accepted-Step, handle_not_accepted-Step}
use rsl.Legislator.Grows.Votes.{verify_message-Step, send_defunct_configuration_message-view}
use rsl.Legislator.Grows.Learn.{LearnsWithin}
use rsl.Legislator.Grows.Status.{handle_status_response-Step, handle_join-Step}
use rsl.Legislator.Grows.Status.{handle_join_request-view}

module _ (e : Env) (again : Legislator → Outcome Legislator) (c : ℕ) (costs : Costs c again) (n : ℕ)
    (w : LearnsWithin c n (c + n + 3) e) where
  dispatch-Step :
      (i : Incoming) (s : Legislator)
      → Room (c + n + 3) (view s)
      → (header_of i).ballot.ballot_id + (c + n + 3) < 2 ^ 32
      → Holds (Step 0 s) (Main.dispatch e again i s)
  unfolding Main.dispatch
  dispatch-Step (defunct_configuration m) s r h =
      Step-same 0 s (Room-less 0 (c + n + 3) (view s) (omega arith) r)
  dispatch-Step (vote_accepted m) s r h =
      handle_vote_accepted-Step e again c costs 0 m s
        (Room-less (0 + c + 1) (c + n + 3) (view s) (omega arith) r)
  dispatch-Step (prepare_msg m) s r h =
      handle_prepare-Step e again c costs 0 m s
        (Room-less (0 + c) (c + n + 3) (view s) (omega arith) r) (omega arith)
  dispatch-Step (prepare_accepted_msg m v) s r h =
      handle_prepare_accepted-Step e again c costs 0 m v s
        (Room-less (0 + c + 2) (c + n + 3) (view s) (omega arith) r)
  dispatch-Step (not_accepted m) s r h =
      handle_not_accepted-Step e again c costs 0 m s
        (Room-less (0 + c) (c + n + 3) (view s) (omega arith) r) (omega arith)
  dispatch-Step (reconfiguration_decision m) s r h =
      log_reconfiguration_decision-Step e again c costs 0 m s
        (Room-less (0 + c + 1) (c + n + 3) (view s) (omega arith) r)
  dispatch-Step (status_response_msg m) s r h =
      handle_status_response-Step e again c costs 0 n (c + n + 3) m s w
        (Room-less (0 + c + n + 3) (c + n + 3) (view s) (omega arith) r) (omega arith)
  dispatch-Step (join_msg m) s r h =
      Step-same 0 s (Room-less 0 (c + n + 3) (view s) (omega arith) r)
  dispatch-Step (join_request m) s r h =
      Step-same 0 s (Room-less 0 (c + n + 3) (view s) (omega arith) r)
  dispatch-Step (unknown m) s r h = Step-same 0 s (Room-less 0 (c + n + 3) (view s) (omega arith) r)

  verify_and_dispatch-Step :
      (i : Incoming) (s : Legislator)
      → Room (c + n + 3) (view s)
      → (header_of i).ballot.ballot_id + (c + n + 3) < 2 ^ 32
      → Holds (Step 0 s) (Main.verify_and_dispatch e again i s)
  unfolding Main.verify_and_dispatch
  verify_and_dispatch-Step i s r h =
      let m = header_of i in
      let t = (Handlers.verify_message m s).1 in
      let st = verify_message-Step (c + n + 3) m s r h in
      if-cases (Holds (Step 0 s)) (Handlers.verify_message m s).0 (Main.dispatch e again i t)
        (done t)
        (λ _.
          Holds-map (Step 0 t) (Step 0 s) (Main.dispatch e again i t) (dispatch-Step i t st.1 h)
            (λ u su. (Grows-trans st.0 su.0, su.1)))
        (λ _. (st.0, Room-less 0 (c + n + 3) (view t) (omega arith) st.1))

  route-Step :
      (i : Incoming) (s : Legislator)
      → Room (c + n + 3) (view s)
      → (header_of i).ballot.ballot_id + (c + n + 3) < 2 ^ 32
      → Holds (Step 0 s) (Main.route e again i s)
  unfolding Main.route
  route-Step (defunct_configuration m) s r h =
      Step-same 0 s (Room-less 0 (c + n + 3) (view s) (omega arith) r)
  route-Step (join_msg m) s r h =
      handle_join-Step e again c costs 0 n (c + n + 3) m s w
        (Room-less (0 + n) (c + n + 3) (view s) (omega arith) r) (omega arith)
  route-Step (join_request m) s r h =
      Keeps-Step 0 s _ (Room-less 0 (c + n + 3) (view s) (omega arith) r)
        (handle_join_request-view e m s)
  route-Step (vote_accepted m) s r h = verify_and_dispatch-Step (vote_accepted m) s r h
  route-Step (prepare_msg m) s r h = verify_and_dispatch-Step (prepare_msg m) s r h
  route-Step (prepare_accepted_msg m v) s r h =
      verify_and_dispatch-Step (prepare_accepted_msg m v) s r h
  route-Step (not_accepted m) s r h = verify_and_dispatch-Step (not_accepted m) s r h
  route-Step (status_response_msg m) s r h = verify_and_dispatch-Step (status_response_msg m) s r h
  route-Step (reconfiguration_decision m) s r h =
      verify_and_dispatch-Step (reconfiguration_decision m) s r h
  route-Step (unknown m) s r h = verify_and_dispatch-Step (unknown m) s r h

  handle_current-Step :
      (i : Incoming) (s : Legislator)
      → Room (c + n + 3) (view s)
      → (header_of i).ballot.ballot_id + (c + n + 3) < 2 ^ 32
      → Holds (Step 0 s) (Main.handle_current e again i s)
  unfolding Main.handle_current
  handle_current-Step i s r h =
      let m = header_of i in
      if-cases (Holds (Step 0 s)) (leb m.configuration_number s.highest_defunct)
        (done (Send.send_defunct_configuration_message m.remote_ip m.remote_port m.as_client s)) _
        (λ _.
          subst (λ w. Grows (view s) w × Room 0 w)
            (sym (send_defunct_configuration_message-view m.remote_ip m.remote_port m.as_client s))
            (Step-same 0 s (Room-less 0 (c + n + 3) (view s) (omega arith) r)))
        (λ _. route-Step i s r h)

  pub handle_message-Step :
      (i : Incoming) (s : Legislator)
      → Room (c + n + 3) (view s)
      → (header_of i).ballot.ballot_id + (c + n + 3) < 2 ^ 32
      → Holds (Step 0 s) (Main.handle_message e again i s)
  unfolding Main.handle_message
  handle_message-Step (defunct_configuration m) s r h =
      defunct-Step e again c costs 0 m.configuration_number s
        (Room-less (0 + c) (c + n + 3) (view s) (omega arith) r)
  handle_message-Step (vote_accepted m) s r h = handle_current-Step (vote_accepted m) s r h
  handle_message-Step (prepare_msg m) s r h = handle_current-Step (prepare_msg m) s r h
  handle_message-Step (prepare_accepted_msg m v) s r h =
      handle_current-Step (prepare_accepted_msg m v) s r h
  handle_message-Step (not_accepted m) s r h = handle_current-Step (not_accepted m) s r h
  handle_message-Step (status_response_msg m) s r h =
      handle_current-Step (status_response_msg m) s r h
  handle_message-Step (reconfiguration_decision m) s r h =
      handle_current-Step (reconfiguration_decision m) s r h
  handle_message-Step (unknown m) s r h = handle_current-Step (unknown m) s r h
  handle_message-Step (join_msg m) s r h = handle_current-Step (join_msg m) s r h
  handle_message-Step (join_request m) s r h = handle_current-Step (join_request m) s r h
