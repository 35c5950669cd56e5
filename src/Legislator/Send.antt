-- ===== src/Legislator/Send.antt =====
-- src/RSL/src/legislator.cpp: what the engine hands to the network library. A send is taken to be
-- accepted by the library; what becomes of it is not modelled.
use rsl.Common.{ℕ, ◌+◌, ◌-◌, ◌*◌, Bool, true, false, not, ◌&&◌, ◌||◌, List, [], ◌∷◌}
use rsl.Common.{Option, none, some, ltb, ◌==◌, if◌then◌else◌}
use rsl.Ballot.{MemberId, BallotNumber, no_ballot}
use rsl.Message.{Message, MsgId, msg_code, init_message}
use rsl.Legislator.{Legislator, Env, Replica, Packet, plain, Sent, to_replica, to_address}

module _ (e : Env) where
  -- The test of `SendRequestToReplica`: a healthy replica with a known address, or a failed one that
  -- was not tried for a while.
  unfoldable pub should_send : Replica → Bool
  should_send r =
      let timeout : ℕ =
        (if ltb (3 * e.send_timeout) (30 * e.hrtime_second)
          then 3 * e.send_timeout
          else 30 * e.hrtime_second) in
      (r.status == 1 || r.status == 0 && ltb timeout (e.now - r.failed_at)) && not (r.ip == 0)

  -- The requests that `SendRequestToAll` sends, newest first, over those sent before, and the
  -- replicas with the request among their outstanding ones.
  unfoldable pub request_all : Packet → List Replica → List Sent → List Replica × List Sent
  unfolding should_send
  request_all p [] sent = ([], sent)
  request_all p (r ∷ rs) sent =
      let go = ltb r.num_outstanding e.max_outstanding_per_replica && should_send r in
      let (rest, out) = request_all p rs (if go then to_replica r.member_id p ∷ sent else sent) in
      ((if go then record r { num_outstanding = r.num_outstanding + 1 } else r) ∷ rest, out)

  unfoldable pub send_request_to_all : Packet → Legislator → Legislator
  unfolding request_all
  send_request_to_all p s =
      let (replicas, sent) = request_all p s.replicas s.sent in
      record s { replicas = replicas; sent = sent }

unfoldable pub send_response : ℕ → ℕ → Packet → Legislator → Legislator
send_response ip port p s = record s { sent = to_address ip port false p ∷ s.sent }

-- The first replica at the address, with one more request outstanding, and its member id.
unfoldable pub count_outstanding : ℕ → ℕ → List Replica → List Replica × Option MemberId
count_outstanding ip port [] = ([], none)
count_outstanding ip port (r ∷ rs) =
    let (rest, found) = count_outstanding ip port rs in
    if r.ip == ip && r.rsl_port == port
    then (record r { num_outstanding = r.num_outstanding + 1 } ∷ rs, some r.member_id)
    else (r ∷ rest, found)

unfoldable pub send_message_to_ip_port : ℕ → ℕ → Bool → Packet → Legislator → Legislator
unfolding count_outstanding
send_message_to_ip_port ip port as_client p s =
    if as_client
    then (let (replicas, found) = count_outstanding ip port s.replicas in
        record s {
          replicas = replicas;
          sent =
              elim found [ none ↦ to_address ip port true p | some id ↦ to_replica id p ] ∷ s.sent;
        })
    else record s { sent = to_address ip port false p ∷ s.sent }

-- A message of the engine's own, with the fields that every message has.
unfoldable pub own_message : MsgId → ℕ → ℕ → BallotNumber → ℕ → Legislator → Message
own_message msg decree configuration_number ballot payload s =
    init_message s.version (msg_code msg) s.member_id decree configuration_number ballot payload

unfoldable pub send_defunct_configuration_message : ℕ → ℕ → Bool → Legislator → Legislator
unfolding own_message send_message_to_ip_port
send_defunct_configuration_message ip port as_client s =
    send_message_to_ip_port ip port as_client
      (plain (own_message MsgId.defunct_configuration 0 s.highest_defunct no_ballot 0 s)) s

unfoldable pub send_join_request_message : ℕ → ℕ → ℕ → Bool → Legislator → Legislator
unfolding own_message send_message_to_ip_port
send_join_request_message configuration_number ip port as_client s =
    send_message_to_ip_port ip port as_client
      (plain (own_message MsgId.join_request 0 configuration_number no_ballot 0 s)) s
