-- ===== src/Message.antt =====
-- src/RSL/src/message.h and message.cpp: protocol versions, message ids, the fields that every
-- message has, and the tests that compare a message's decree and ballot with a replica's.
pub mod Classify
pub mod Encode
pub mod Decode
pub mod RoundTrip
pub mod Bodies
pub mod BodiesDecode
pub mod CookieFault
pub mod BodiesRoundTrip
pub mod Sizes
pub mod Safe
use rsl.Common.{ℕ, ◌+◌, ◌%◌, ◌^◌, Bool, true, false, ◌||◌, ◌&&◌, ◌==◌, ltb, leb, if◌then◌else◌}
use rsl.Ballot.{MemberId, BallotNumber, no_ballot, member_id_size, lt, gt, ge, eq}

-- `RSLProtocolVersion_1` to `_6`, the UInt16 that goes first in every message.
unfoldable pub is_version_valid : ℕ → Bool
is_version_valid v = v == 1 || v == 2 || v == 3 || v == 4 || v == 5 || v == 6

-- The message ids of message.h.
pub data MsgId : Type 0 where
  vote vote_accepted prepare prepare_accepted not_accepted status_query status_response : MsgId
  reconfiguration_decision defunct_configuration join join_request bootstrap : MsgId

unfoldable pub msg_code : MsgId → ℕ
msg_code MsgId.vote = 1
msg_code MsgId.vote_accepted = 2
msg_code MsgId.prepare = 3
msg_code MsgId.prepare_accepted = 4
msg_code MsgId.not_accepted = 5
msg_code MsgId.status_query = 6
msg_code MsgId.status_response = 7
msg_code MsgId.reconfiguration_decision = 10
msg_code MsgId.defunct_configuration = 11
msg_code MsgId.join = 12
msg_code MsgId.join_request = 13
msg_code MsgId.bootstrap = 14

-- `s_MessageMagic`.
abbrev pub message_magic : ℕ
message_magic = 0xf00dface

-- The fields of `Message`. `msg_id` is a number, since a received message may hold any.
pub record Message : Type 0 where
  pub version : ℕ
  pub un_marshal_len : ℕ
  pub checksum : ℕ
  pub magic : ℕ
  pub msg_id : ℕ
  pub member_id : MemberId
  pub decree : ℕ
  pub configuration_number : ℕ
  pub ballot : BallotNumber
  pub payload : ℕ
  pub remote_ip : ℕ
  pub remote_port : ℕ
  pub as_client : Bool

unfoldable pub init_message : ℕ → ℕ → MemberId → ℕ → ℕ → BallotNumber → ℕ → Message
init_message version msg member_id decree configuration_number ballot payload = record {
  version = version;
  un_marshal_len = 0;
  checksum = 0;
  magic = message_magic;
  msg_id = msg;
  member_id = member_id;
  decree = decree;
  configuration_number = configuration_number;
  ballot = ballot;
  payload = payload;
  remote_ip = 0;
  remote_port = 0;
  as_client = false;
}

-- The UInt64 `decree + 1`.
abbrev pub next : ℕ → ℕ
next d = (d + 1) % 2 ^ 64

-- A message's decree `d` and ballot `b` against the decree and ballot that a replica is at.
module _ (d : ℕ) (b : BallotNumber) (cur_decree : ℕ) (cur_ballot : BallotNumber) where
  unfoldable pub is_lower_decree : Bool
  is_lower_decree = ltb d cur_decree || lt b cur_ballot

  unfoldable pub is_higher_decree : Bool
  is_higher_decree = ltb cur_decree d && ge b cur_ballot || d == cur_decree && gt b cur_ballot

  unfoldable pub is_next_decree : Bool
  is_next_decree = d == cur_decree && ge b cur_ballot || d == next cur_decree && eq b cur_ballot

  unfoldable pub is_same_decree : Bool
  is_same_decree = d == cur_decree && eq b cur_ballot

-- Sizes on the wire.
unfoldable pub member_id_base_size : ℕ → ℕ
member_id_base_size version = if leb version 3 then 8 else member_id_size

unfoldable pub ballot_base_size : ℕ → ℕ
unfolding member_id_base_size
ballot_base_size version = 4 + member_id_base_size version

unfoldable pub base_size : ℕ → ℕ
unfolding member_id_base_size ballot_base_size
base_size version =
    2
    + 4
    + 8
    + 4
    + 2
    + member_id_base_size version
    + 8
    + ballot_base_size version
    + (if leb 3 version then 4 else 0)
    + (if leb 6 version then 8 else 0)
