-- ===== src/Message/BodiesRoundTrip.antt =====
-- `UnMarshal` of the message kinds of src/RSL/src/message.cpp takes back what `Marshal` wrote.
use rsl.Common.{ℕ, ◌+◌, ◌≤◌, ◌<◌, ◌^◌, ◌≡◌, refl, true, arith}
use rsl.Common.{List, [], ◌∷◌, ◌++◌, length, leb, lt→ltb, ==_eq, if◌then◌else◌, done}
use rsl.Common.{Bool-cases, inl, inr}
use rsl.Marshal.Reads.{Reads, Reads-bind, Reads-last, Reads-check, Reads-return, Reads-data}
use rsl.Marshal.Reads.{Reads-uint16, Reads-uint32, Reads-uint64}
use rsl.Message.{MsgId, msg_code, base_size, ballot_base_size, member_id_base_size}
use rsl.Message.Encode.{CRuntime}
use rsl.Message.RoundTrip.{IsWire, IsWireId, received, marshal_message_round_trip}
use rsl.Message.RoundTrip.{marshal_ballot_round_trip}
use rsl.Message.Bodies.{PrimaryCookie, marshal_cookie, cookie_len, PrepareMsg, prepare_len}
use rsl.Message.Bodies.{marshal_prepare, JoinMessage, join_len, marshal_join}
use rsl.Message.Bodies.{StatusResponse, status_response_len, marshal_status_response}
use rsl.Message.BodiesDecode.{cookie_data, un_marshal_cookie, un_marshal_prepare_cookie}
use rsl.Message.BodiesDecode.{un_marshal_prepare, un_marshal_join, un_marshal_status_response}

pub Reads-cookie :
    (cookie : PrimaryCookie)
    → length cookie < 2 ^ 32
    → Reads (un_marshal_cookie true) (marshal_cookie cookie) cookie
unfolding un_marshal_cookie marshal_cookie cookie_data
Reads-cookie [] h = Reads-bind _ (Reads-uint32 0 (omega arith)) (Reads-return [])
Reads-cookie (x ∷ xs) h =
    Reads-bind _ (Reads-uint32 (length (x ∷ xs)) h)
      (rw (lt→ltb 0 (length (x ∷ xs)) (omega arith)) (Reads-data (x ∷ xs) _ refl))

base-le : (v : ℕ) → base_size v < 300
unfolding base_size ballot_base_size member_id_base_size
base-le v = ground arith

Reads-prepare_cookie :
    (version : ℕ) (cookie old : PrimaryCookie)
    → length cookie + 1000 < 2 ^ 32
    → Reads
        (un_marshal_prepare_cookie version old)
        (if leb 2 version then marshal_cookie cookie else [])
        (if leb 2 version then cookie else old)
unfolding un_marshal_prepare_cookie
Reads-prepare_cookie version cookie old h = elim (Bool-cases (leb 2 version)) [
  | inl new ↦ rw new (Reads-cookie cookie (omega arith))
  | inr before ↦ rw before (Reads-return old)
]

prepare_bounds :
    (m : PrepareMsg)
    → length m.primary_cookie + 1000 < 2 ^ 32
    → (base_size m.version ≤ prepare_len m) × (prepare_len m < 2 ^ 32)
unfolding prepare_len cookie_len
prepare_bounds m h = ground (arith, base-le m.version)

join_bounds : (m : JoinMessage) → (base_size m.version ≤ join_len m) × (join_len m < 2 ^ 32)
unfolding join_len
join_bounds m = (omega arith, omega (arith, base-le m.version))

-- The numbers of a status response are in the ranges of their types.
pub record FitsStatus (m : StatusResponse) : Type 0 where
  pub query_decree : m.query_decree < 2 ^ 64
  pub query_id : m.query_ballot.ballot_id < 2 ^ 32
  pub last_received_ago : m.last_received_ago < 2 ^ 64
  pub min_decree_in_log : m.min_decree_in_log < 2 ^ 64
  pub checkpointed_decree : m.checkpointed_decree < 2 ^ 64
  pub checkpoint_size : m.checkpoint_size < 2 ^ 64
  pub max_id : m.max_ballot.ballot_id < 2 ^ 32
  pub state : m.state < 2 ^ 32

ballot-le : (v : ℕ) → ballot_base_size v < 100
unfolding ballot_base_size member_id_base_size
ballot-le v = ground arith

status_response_bounds :
    (m : StatusResponse)
    → (base_size m.version ≤ status_response_len m) × (status_response_len m < 2 ^ 32)
unfolding status_response_len
status_response_bounds m = (omega arith, omega (arith, base-le m.version, ballot-le m.version))

module _ (c : CRuntime) where
  -- A prepare message with fields in their ranges and ids that its version can send comes back as
  -- `Marshal` wrote it. From version 2 on that includes the cookie; version 1 has none, and the
  -- receiver keeps the cookie that it had.
  pub marshal_prepare_round_trip :
      (self m : PrepareMsg)
      → IsWire c m.header
      → m.msg_id ≡ msg_code MsgId.prepare
      → length m.primary_cookie + 1000 < 2 ^ 32
      → (bytes : List ℕ) × (marshal_prepare c m ≡ done bytes)
        × Reads (un_marshal_prepare c self) bytes (record {
          header = received self.header (prepare_len m) m.header;
          primary_cookie = if leb 2 m.version then m.primary_cookie else self.primary_cookie;
        })
  unfolding marshal_prepare un_marshal_prepare received
  marshal_prepare_round_trip self m w kind small =
      let (header, p, r) =
        marshal_message_round_trip c self.header m.header (prepare_len m) w
          (prepare_bounds m small).0 (prepare_bounds m small).1 in
      (
        header ++ (if leb 2 m.version then marshal_cookie m.primary_cookie else []),
        rw p,
        Reads-bind _ r (
            Reads-check _ (==_eq _ _ kind) (
              Reads-last _
                (Reads-prepare_cookie m.version m.primary_cookie self.primary_cookie small)
                (Reads-return _))),
      )

  -- A join message with fields in their ranges and ids that its version can send comes back as
  -- `Marshal` wrote it.
  pub marshal_join_round_trip :
      (self m : JoinMessage)
      → IsWire c m.header
      → m.msg_id ≡ msg_code MsgId.join
      → m.learn_port < 2 ^ 16
      → m.min_decree_in_log < 2 ^ 64
      → m.checkpointed_decree < 2 ^ 64
      → m.checkpoint_size < 2 ^ 64
      → (bytes : List ℕ) × (marshal_join c m ≡ done bytes)
        × Reads
            (un_marshal_join c self)
            bytes
            (record m { header = received self.header (join_len m) m.header })
  unfolding marshal_join un_marshal_join received
  marshal_join_round_trip self m w kind hp hd hc hs =
      let (header, p, r) =
        marshal_message_round_trip c self.header m.header (join_len m) w (join_bounds m).0
          (join_bounds m).1 in
      (
        _,
        rw p,
        Reads-bind _ r (
            Reads-check _ (==_eq _ _ kind) (
              Reads-bind _ (Reads-uint16 m.learn_port hp) (
                Reads-bind _ (Reads-uint64 m.min_decree_in_log hd) (
                  Reads-bind _ (Reads-uint64 m.checkpointed_decree hc)
                    (Reads-last _ (Reads-uint64 m.checkpoint_size hs) (Reads-return _)))))),
      )

  -- A status response with fields in their ranges and ids that its version can send comes back as
  -- `Marshal` wrote it, with both of its ballots.
  pub marshal_status_response_round_trip :
      (self m : StatusResponse)
      → IsWire c m.header
      → m.msg_id ≡ msg_code MsgId.status_response
      → FitsStatus m
      → IsWireId c m.version m.query_ballot.member_id
      → IsWireId c m.version m.max_ballot.member_id
      → (bytes : List ℕ) × (marshal_status_response c m ≡ done bytes)
        × Reads
            (un_marshal_status_response c self)
            bytes
            (record m { header = received self.header (status_response_len m) m.header })
  unfolding marshal_status_response un_marshal_status_response received
  marshal_status_response_round_trip self m w kind f wq wm =
      let (header, p, r) =
        marshal_message_round_trip c self.header m.header (status_response_len m) w
          (status_response_bounds m).0 (status_response_bounds m).1 in
      let (query, q, rq) = marshal_ballot_round_trip c m.version m.query_ballot f.query_id wq in
      let (top, t, rt) = marshal_ballot_round_trip c m.version m.max_ballot f.max_id wm in
      (
        _,
        rw (p, q, t),
        Reads-bind _ r (
            Reads-check _ (==_eq _ _ kind) (
              Reads-bind _ (Reads-uint64 m.query_decree f.query_decree) (
                Reads-bind _ rq (
                  Reads-bind _ (Reads-uint64 m.last_received_ago f.last_received_ago) (
                    Reads-bind _ (Reads-uint64 m.min_decree_in_log f.min_decree_in_log) (
                      Reads-bind _ (Reads-uint64 m.checkpointed_decree f.checkpointed_decree) (
                        Reads-bind _ (Reads-uint64 m.checkpoint_size f.checkpoint_size) (
                          Reads-bind _ rt
                            (Reads-last _ (Reads-uint32 m.state f.state) (Reads-return _)))))))))),
      )
