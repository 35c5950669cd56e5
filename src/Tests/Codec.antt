-- ===== src/Tests/Codec.antt =====
-- The codec on concrete messages.
use rsl.Common.{ℕ, List, [], ◌∷◌, ◌++◌, ◌≡◌, ◌≤◌, ◌<◌, ◌-◌, ◌^◌, refl, true, false, arith, done}
use rsl.Ballot.{no_ballot}
use rsl.Ballot.Order.{lt_trans}
use rsl.Ballot.{lt, eq}
use rsl.Marshal.{Reader, fault, write_uint32}
use rsl.Marshal.Reads.{Reads, At}
use rsl.Marshal.Safe.{EndsInside}
use rsl.Message.Safe.{un_marshal-EndsInside}
use rsl.Message.{
  MsgId, base_size, msg_code, is_version_valid, is_lower_decree, is_next_decree, is_higher_decree,
}
use rsl.Message.Classify.{missed_votes, next-not_lower}
use rsl.Message.Encode.{marshal_message, parse_member_id}
use rsl.Message.Decode.{un_marshal_message}
use rsl.Message.RoundTrip.{IsWire, IsWireId, received, marshal_message_round_trip}
use rsl.Message.Bodies.{
  marshal_prepare, marshal_join, marshal_status_response, prepare_len, join_len,
  status_response_len,
}
use rsl.Message.BodiesDecode.{
  un_marshal_prepare, un_marshal_join, un_marshal_status_response, un_marshal_cookie,
}
use rsl.Message.BodiesRoundTrip.{FitsStatus, marshal_prepare_round_trip, marshal_join_round_trip}
use rsl.Message.BodiesRoundTrip.{marshal_status_response_round_trip}
use rsl.Message.CookieFault.{un_marshal_cookie_fault}
use rsl.Tests.Data.{
  one_digit, id_2, id_3, ballot_1, ballot_2, message_of, prepare_msg_2, join_msg, status_msg,
}

id_2-IsWireId : IsWireId one_digit 3 id_2
unfolding parse_member_id
id_2-IsWireId = record {
  no_nul = (omega arith, tt);
  room = omega arith;
  number = 2;
  parsed = λ h. refl;
  in_range = omega arith;
  printed = λ h. refl;
}

id_3-IsWireId : IsWireId one_digit 3 id_3
unfolding parse_member_id
id_3-IsWireId = record {
  no_nul = (omega arith, tt);
  room = omega arith;
  number = 3;
  parsed = λ h. refl;
  in_range = omega arith;
  printed = λ h. refl;
}

message-IsWire : (msg : MsgId) → msg_code msg < 2 ^ 16 → IsWire one_digit (message_of 3 msg)
unfolding is_version_valid
message-IsWire msg h = record {
  version = refl;
  checksum = omega arith;
  magic = refl;
  msg_id = h;
  member_id = id_3-IsWireId;
  decree = omega arith;
  configuration_number = omega arith;
  ballot_id = omega arith;
  ballot_member = id_3-IsWireId;
  payload = omega arith;
}

prepare-IsWire : IsWire one_digit (message_of 3 MsgId.prepare)
unfolding msg_code
prepare-IsWire = message-IsWire MsgId.prepare (omega arith)

join-IsWire : IsWire one_digit (message_of 3 MsgId.join)
unfolding msg_code
join-IsWire = message-IsWire MsgId.join (omega arith)

status_response-IsWire : IsWire one_digit (message_of 3 MsgId.status_response)
unfolding msg_code
status_response-IsWire = message-IsWire MsgId.status_response (omega arith)

base_size-fits : base_size 3 ≤ 100
unfolding base_size
base_size-fits = omega arith

marshal_message_round_trip_example :
    (bytes : List ℕ) × (marshal_message one_digit 100 (message_of 3 MsgId.prepare) ≡ done bytes)
    × Reads
        (un_marshal_message one_digit (message_of 3 MsgId.join))
        bytes
        (received (message_of 3 MsgId.join) 100 (message_of 3 MsgId.prepare))
marshal_message_round_trip_example =
    marshal_message_round_trip one_digit (message_of 3 MsgId.join) (message_of 3 MsgId.prepare) 100
      prepare-IsWire base_size-fits (omega arith)

marshal_prepare_round_trip_example :
    (bytes : List ℕ) × (marshal_prepare one_digit prepare_msg_2 ≡ done bytes)
    × Reads (un_marshal_prepare one_digit prepare_msg_2) bytes (record {
      header =
          received prepare_msg_2.header (prepare_len prepare_msg_2) (message_of 3 MsgId.prepare);
      primary_cookie = 7 ∷ 8 ∷ [];
    })
marshal_prepare_round_trip_example =
    marshal_prepare_round_trip one_digit prepare_msg_2 prepare_msg_2 prepare-IsWire refl
      (omega arith)

marshal_join_round_trip_example :
    (bytes : List ℕ) × (marshal_join one_digit join_msg ≡ done bytes)
    × Reads
        (un_marshal_join one_digit join_msg)
        bytes
        (record join_msg { header = received join_msg.header (join_len join_msg) join_msg.header })
marshal_join_round_trip_example =
    marshal_join_round_trip one_digit join_msg join_msg join-IsWire refl (omega arith) (omega arith)
      (omega arith) (omega arith)

status-FitsStatus : FitsStatus status_msg
status-FitsStatus = record {
  query_decree = omega arith;
  query_id = omega arith;
  last_received_ago = omega arith;
  min_decree_in_log = omega arith;
  checkpointed_decree = omega arith;
  checkpoint_size = omega arith;
  max_id = omega arith;
  state = omega arith;
}

marshal_status_response_round_trip_example :
    (bytes : List ℕ) × (marshal_status_response one_digit status_msg ≡ done bytes)
    × Reads (un_marshal_status_response one_digit status_msg) bytes (record status_msg {
      header = received status_msg.header (status_response_len status_msg) status_msg.header;
    })
marshal_status_response_round_trip_example =
    marshal_status_response_round_trip one_digit status_msg status_msg status_response-IsWire refl
      status-FitsStatus id_2-IsWireId id_3-IsWireId

-- A ballot and a decree two ahead.
not_lower_12 : is_lower_decree 12 ballot_2 10 ballot_1 ≡ false
unfolding is_lower_decree lt
not_lower_12 = refl

not_next_12 : is_next_decree 12 ballot_2 10 ballot_1 ≡ false
unfolding is_next_decree
not_next_12 = refl

missed_votes_example : (is_higher_decree 12 ballot_2 10 ballot_1 ≡ true) × (10 < 12)
missed_votes_example = missed_votes 12 ballot_2 10 ballot_1 not_lower_12 not_next_12

is_next_11 : is_next_decree 11 ballot_1 10 ballot_1 ≡ true
unfolding is_next_decree eq
is_next_11 = refl

next-not_lower_example : is_lower_decree 11 ballot_1 10 ballot_1 ≡ false
next-not_lower_example = next-not_lower 11 ballot_1 10 ballot_1 (omega arith) is_next_11

lt_0_1 : lt no_ballot ballot_1 ≡ true
unfolding lt
lt_0_1 = refl

lt_1_2 : lt ballot_1 ballot_2 ≡ true
unfolding lt
lt_1_2 = refl

lt_trans_example : lt no_ballot ballot_2 ≡ true
lt_trans_example = lt_trans no_ballot ballot_1 ballot_2 lt_0_1 lt_1_2

-- Four bytes, read from the second on; a cookie of 4 bytes, and one whose length makes the read pointer wrap.
abbrev short_reader : Reader
short_reader = record { bytes = 1 ∷ 2 ∷ 3 ∷ 4 ∷ []; read_ptr = 1; overshoot = false }

un_marshal-EndsInside_example :
    EndsInside short_reader.bytes
      (un_marshal_message one_digit (message_of 6 MsgId.join) short_reader)
    × EndsInside short_reader.bytes (un_marshal_join one_digit join_msg short_reader)
    × EndsInside short_reader.bytes (un_marshal_status_response one_digit status_msg short_reader)
un_marshal-EndsInside_example =
    un_marshal-EndsInside one_digit (message_of 6 MsgId.join) join_msg status_msg short_reader.bytes
      short_reader (omega arith) (record { same = refl; inside = omega arith })

abbrev wrapping_length : ℕ
wrapping_length = 2 ^ 32 - 1

abbrev wrapping_reader : Reader
wrapping_reader = record {
  bytes = write_uint32 wrapping_length ++ [];
  read_ptr = 0;
  overshoot = false;
}

wrapping-At : At wrapping_reader (write_uint32 wrapping_length ++ [])
unfolding write_uint32
wrapping-At = record { no_overshoot = refl; ahead = refl; fits = refl; short = omega arith }

un_marshal_cookie_fault_example : un_marshal_cookie true wrapping_reader ≡ fault
un_marshal_cookie_fault_example =
    un_marshal_cookie_fault wrapping_reader wrapping_length [] wrapping-At (omega arith)
      (omega arith)
