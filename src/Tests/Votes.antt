-- ===== src/Tests/Votes.antt =====
-- Votes, member sets and the messages that carry them.
use rsl.Common.{
  ℕ, List, [], ◌∷◌, ◌≡◌, ◌≤◌, ◌<◌, ◌+◌, ◌^◌, refl, true, length, arith, done, All, ◌↔◌, none,
}
use rsl.Ballot.{id_eq}
use rsl.Marshal.{write_uint8, write_uint32}
use rsl.Marshal.Reads.{Reads}
use rsl.Message.Bodies.{marshal_cookie}
use rsl.Message.{Message, MsgId, base_size, msg_code, is_version_valid}
use rsl.Message.Encode.{marshal_message, parse_member_id}
use rsl.Message.Decode.{un_marshal_message}
use rsl.Message.RoundTrip.{IsWire, IsWireId, received, marshal_message_round_trip}
use rsl.Message.Sizes.{length-marshal_message}
use rsl.Membership.{MemberInfo, MemberSet, marshal_member_set, member_set_len, verify}
use rsl.Membership.Decode.{un_marshal_member_set}
use rsl.Membership.RoundTrip.{IsWireMember, received_members, marshal_member_set_round_trip}
use rsl.Membership.Valid.{HasDistinctIds, IsUsable, verify-HasDistinctIds}
use rsl.Vote.Encode.{VoteMsg, marshal_reconfiguration, vote_body, marshal_vote}
use rsl.Vote.Decode.{un_marshal_vote}
use rsl.Vote.Whole.{IsWireVote, received_vote, marshal_vote_round_trip}
use rsl.Vote.Carriers.{
  PrepareAcceptedMsg, BootstrapMsg, marshal_prepare_accepted, marshal_bootstrap,
}
use rsl.Vote.Carried.{un_marshal_prepare_accepted, un_marshal_bootstrap}
use rsl.Vote.Carried.{marshal_prepare_accepted_round_trip, marshal_bootstrap_round_trip}
use rsl.Tests.Data.{one_digit, id_2, id_3, message_of}

abbrev member_2 : MemberInfo
member_2 = record {
  member_id = id_2;
  host_name = 104 ∷ 50 ∷ [];
  ip = 2;
  rsl_port = 20000;
  rsl_learn_port = 20001;
  app_port = 0;
}

abbrev pub two_members : MemberSet
two_members = record {
  members = member_2 ∷ record member_2 { member_id = id_3; ip = 3 } ∷ [];
  cookie = 9 ∷ [];
}

id_2-IsWireId_6 : IsWireId one_digit 6 id_2
unfolding parse_member_id
id_2-IsWireId_6 = record {
  no_nul = (omega arith, tt);
  room = omega arith;
  number = 2;
  parsed = λ h. refl;
  in_range = omega arith;
  printed = λ h. refl;
}

id_3-IsWireId_6 : IsWireId one_digit 6 id_3
unfolding parse_member_id
id_3-IsWireId_6 = record {
  no_nul = (omega arith, tt);
  room = omega arith;
  number = 3;
  parsed = λ h. refl;
  in_range = omega arith;
  printed = λ h. refl;
}

two_members-IsWireMember : All (IsWireMember one_digit 6) two_members.members
two_members-IsWireMember = (
  record {
    id = id_2-IsWireId_6;
    ip = omega arith;
    rsl_port = omega arith;
    rsl_learn_port = omega arith;
    app_port = omega arith;
    host_name = omega arith;
  },
  (
    record {
      id = id_3-IsWireId_6;
      ip = omega arith;
      rsl_port = omega arith;
      rsl_learn_port = omega arith;
      app_port = omega arith;
      host_name = omega arith;
    },
    tt,
  ),
)

marshal_member_set_round_trip_example :
    (bytes : List ℕ) × (marshal_member_set one_digit 6 two_members ≡ done bytes)
    × Reads
        (un_marshal_member_set one_digit 6)
        bytes
        (record two_members { members = received_members one_digit 6 two_members.members })
marshal_member_set_round_trip_example =
    marshal_member_set_round_trip one_digit 6 two_members two_members-IsWireMember (omega arith)
      (omega arith)

verify-HasDistinctIds_example : (verify one_digit 3 two_members ≡ true) ↔ (
    (0 < length two_members.members)
    × HasDistinctIds two_members.members
    × All (IsUsable one_digit 3) two_members.members)
verify-HasDistinctIds_example = verify-HasDistinctIds one_digit 3 two_members

verified : verify one_digit 3 two_members ≡ true
unfolding verify id_eq
verified = refl

abbrev message_6 : MsgId → Message
message_6 msg = message_of 6 msg

message_6-IsWire : (msg : MsgId) → msg_code msg < 2 ^ 16 → IsWire one_digit (message_of 6 msg)
unfolding is_version_valid
message_6-IsWire msg h = record {
  version = refl;
  checksum = omega arith;
  magic = refl;
  msg_id = h;
  member_id = id_3-IsWireId_6;
  decree = omega arith;
  configuration_number = omega arith;
  ballot_id = omega arith;
  ballot_member = id_3-IsWireId_6;
  payload = omega arith;
}

vote-IsWire : IsWire one_digit (message_of 6 MsgId.vote)
unfolding msg_code
vote-IsWire = message_6-IsWire MsgId.vote (omega arith)

-- A vote of two requests.
abbrev vote_msg : VoteMsg
vote_msg = record {
  header = message_of 6 MsgId.vote;
  primary_cookie = 7 ∷ [];
  reconfiguration = none;
  relinquish_primary = true;
  requests = (1 ∷ []) ∷ (2 ∷ 3 ∷ []) ∷ [];
}

no_members : marshal_reconfiguration one_digit 6 none ≡ done (0 ∷ [])
unfolding marshal_reconfiguration write_uint8
no_members = refl

vote_msg-IsWireVote : IsWireVote one_digit vote_msg
vote_msg-IsWireVote = record {
  header = vote-IsWire;
  kind = refl;
  cookie = omega arith;
  set = tt;
  requests = ((omega arith, omega arith), ((omega arith, omega arith), tt));
  alone = λ h. cc;
}

vote_msg-fits :
    base_size 6 + length (vote_body one_digit vote_msg (0 ∷ [])) + base_size 6 + 1 < 2 ^ 32
unfolding base_size vote_body marshal_cookie write_uint32 write_uint8
vote_msg-fits = omega arith

marshal_vote_round_trip_example :
    (bytes : List ℕ) × (marshal_vote one_digit vote_msg ≡ done bytes)
    × Reads (un_marshal_vote one_digit (message_of 6 MsgId.vote)) bytes (
        received_vote one_digit
          (received (message_of 6 MsgId.vote) (length bytes) (message_of 6 MsgId.vote))
          vote_msg)
marshal_vote_round_trip_example =
    marshal_vote_round_trip one_digit (message_of 6 MsgId.vote) vote_msg (0 ∷ [])
      vote_msg-IsWireVote no_members (omega (arith, vote_msg-fits))

accepted-IsWire : IsWire one_digit (message_of 6 MsgId.prepare_accepted)
unfolding msg_code
accepted-IsWire = message_6-IsWire MsgId.prepare_accepted (omega arith)

abbrev accepted_msg : PrepareAcceptedMsg
accepted_msg = record { header = message_of 6 MsgId.prepare_accepted; vote = vote_msg }

marshal_prepare_accepted_round_trip_example :
    (vote bytes : List ℕ) × (marshal_vote one_digit vote_msg ≡ done vote)
    × (marshal_prepare_accepted one_digit accepted_msg ≡ done bytes)
    × Reads
        (un_marshal_prepare_accepted one_digit accepted_msg.header vote_msg.header)
        bytes
        (record {
          header = received accepted_msg.header (length vote + base_size 6) accepted_msg.header;
          vote =
              received_vote one_digit
                (received vote_msg.header (length vote) vote_msg.header)
                vote_msg;
        })
marshal_prepare_accepted_round_trip_example =
    marshal_prepare_accepted_round_trip one_digit accepted_msg.header vote_msg.header accepted_msg
      (0 ∷ []) accepted-IsWire refl vote_msg-IsWireVote no_members vote_msg-fits

bootstrap-IsWire : IsWire one_digit (message_of 6 MsgId.bootstrap)
unfolding msg_code
bootstrap-IsWire = message_6-IsWire MsgId.bootstrap (omega arith)

abbrev bootstrap_msg : BootstrapMsg
bootstrap_msg = record { header = message_of 6 MsgId.bootstrap; member_set = two_members }

bootstrap_msg-fits : base_size 6 + member_set_len one_digit 6 two_members < 2 ^ 32
unfolding base_size member_set_len
bootstrap_msg-fits = omega arith

marshal_bootstrap_round_trip_example :
    (bytes : List ℕ) × (marshal_bootstrap one_digit bootstrap_msg ≡ done bytes)
    × Reads (un_marshal_bootstrap one_digit bootstrap_msg.header) bytes (record {
      header =
          received bootstrap_msg.header
            (base_size 6 + member_set_len one_digit 6 two_members)
            bootstrap_msg.header;
      member_set = record two_members {
        members = received_members one_digit 6 two_members.members;
      };
    })
marshal_bootstrap_round_trip_example =
    marshal_bootstrap_round_trip one_digit bootstrap_msg.header bootstrap_msg bootstrap-IsWire refl
      two_members-IsWireMember (omega arith) (omega arith) bootstrap_msg-fits

fits_200 : base_size 6 ≤ 200
unfolding base_size
fits_200 = omega arith

vote_written :
    (bytes : List ℕ) × (marshal_message one_digit 200 (message_of 6 MsgId.vote) ≡ done bytes)
    × Reads
        (un_marshal_message one_digit (message_of 6 MsgId.vote))
        bytes
        (received (message_of 6 MsgId.vote) 200 (message_of 6 MsgId.vote))
vote_written =
    marshal_message_round_trip one_digit (message_of 6 MsgId.vote) (message_of 6 MsgId.vote) 200
      vote-IsWire fits_200 (omega arith)

length-marshal_message_example : length (vote_written.0) ≡ base_size 6
length-marshal_message_example =
    length-marshal_message one_digit (message_of 6 MsgId.vote) 200 (vote_written.0) vote-IsWire
      (vote_written.1)
