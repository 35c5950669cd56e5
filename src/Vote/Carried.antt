-- ===== src/Vote/Carried.antt =====
-- src/RSL/src/message.cpp: `UnMarshal` of `PrepareAccepted` and `BootstrapMsg`, which takes back what
-- `Marshal` wrote.
use rsl.Common.{ℕ, ◌+◌, ◌^◌, ◌<◌, ◌≤◌, ◌≡◌, refl, arith, All, List, ◌++◌, length, ◌==◌, ==_eq, done}
use rsl.Marshal.{Read, ◌>>=◌, ◌>>◌, return, guard}
use rsl.Marshal.Reads.{Reads, Reads-bind, Reads-last, Reads-check, Reads-return}
use rsl.Message.{Message, MsgId, msg_code, base_size}
use rsl.Message.Encode.{CRuntime}
use rsl.Message.Decode.{un_marshal_message}
use rsl.Message.RoundTrip.{IsWire, received, marshal_message_round_trip}
use rsl.Membership.{member_set_len, max_cookie_length}
use rsl.Membership.Decode.{un_marshal_member_set}
use rsl.Membership.RoundTrip.{IsWireMember, received_members, marshal_member_set_round_trip}
use rsl.Vote.Encode.{marshal_reconfiguration, vote_body, marshal_vote}
use rsl.Vote.Decode.{un_marshal_vote}
use rsl.Vote.Whole.{IsWireVote, received_vote, marshal_vote_round_trip, length-marshal_vote}
use rsl.Vote.Carriers.{PrepareAcceptedMsg, BootstrapMsg, marshal_prepare_accepted}
use rsl.Vote.Carriers.{marshal_bootstrap}

module _ (c : CRuntime) where
  -- The vote is unmarshaled into a new one, whose header is `fresh`.
  unfoldable pub un_marshal_prepare_accepted : Message → Message → Read PrepareAcceptedMsg
  unfolding un_marshal_vote
  un_marshal_prepare_accepted self fresh = do
    header ← un_marshal_message c self
    guard (header.msg_id == msg_code MsgId.prepare_accepted)
    vote ← un_marshal_vote c fresh
    return (record { header = header; vote = vote })

  unfoldable pub un_marshal_bootstrap : Message → Read BootstrapMsg
  unfolding un_marshal_member_set
  un_marshal_bootstrap self = do
    header ← un_marshal_message c self
    guard (header.msg_id == msg_code MsgId.bootstrap)
    set ← un_marshal_member_set c header.version
    return (record { header = header; member_set = set })

  -- A promise with its vote, where header and vote can be sent and the whole takes less than 4 GB less one byte,
  -- comes back as `Marshal` wrote it, the vote with what its own version carries.
  pub marshal_prepare_accepted_round_trip :
      (self fresh : Message) (m : PrepareAcceptedMsg) (members : List ℕ)
      → IsWire c m.header
      → m.msg_id ≡ msg_code MsgId.prepare_accepted
      → IsWireVote c m.vote
      → marshal_reconfiguration c m.vote.version m.vote.reconfiguration ≡ done members
      → base_size m.vote.version + length (vote_body c m.vote members) + base_size m.version + 1
        < 2 ^ 32
      → (vote bytes : List ℕ) × (marshal_vote c m.vote ≡ done vote)
        × (marshal_prepare_accepted c m ≡ done bytes)
        × Reads (un_marshal_prepare_accepted self fresh) bytes (record {
          header = received self (length vote + base_size m.version) m.header;
          vote = received_vote c (received fresh (length vote) m.vote.header) m.vote;
        })
  unfolding marshal_prepare_accepted un_marshal_prepare_accepted received
  marshal_prepare_accepted_round_trip self fresh m members w kind v e small =
      let (vote, p, r) = marshal_vote_round_trip c fresh m.vote members v e (omega arith) in
      let len = length-marshal_vote c m.vote members vote v e (omega arith) p in
      let (header, q, t) =
        marshal_message_round_trip c self m.header (length vote + base_size m.version) w
          (omega arith) (omega (arith, len, small)) in
      (
        vote,
        header ++ vote,
        p,
        rw (p, q) refl,
        Reads-bind _ t (Reads-check _ (==_eq _ _ kind) (Reads-last _ r (Reads-return _))),
      )

  -- A bootstrap message with fields in their ranges and a member set that its version can send, comes
  -- back as `Marshal` wrote it.
  pub marshal_bootstrap_round_trip :
      (self : Message) (m : BootstrapMsg)
      → IsWire c m.header
      → m.msg_id ≡ msg_code MsgId.bootstrap
      → All (IsWireMember c m.version) m.member_set.members
      → length m.member_set.members < 2 ^ 16
      → length m.member_set.cookie ≤ max_cookie_length
      → base_size m.version + member_set_len c m.version m.member_set < 2 ^ 32
      → (bytes : List ℕ) × (marshal_bootstrap c m ≡ done bytes)
        × Reads (un_marshal_bootstrap self) bytes (record {
          header =
              received self
                (base_size m.version + member_set_len c m.version m.member_set)
                m.header;
          member_set = record m.member_set {
            members = received_members c m.version m.member_set.members;
          };
        })
  unfolding marshal_bootstrap un_marshal_bootstrap received
  marshal_bootstrap_round_trip self m w kind members few cookie whole =
      let (set, p, r) = marshal_member_set_round_trip c m.version m.member_set members few cookie in
      let (header, q, t) =
        marshal_message_round_trip c self m.header
          (base_size m.version + member_set_len c m.version m.member_set) w (omega arith) whole in
      (
        header ++ set,
        rw (q, p) refl,
        Reads-bind _ t (Reads-check _ (==_eq _ _ kind) (Reads-last _ r (Reads-return _))),
      )
