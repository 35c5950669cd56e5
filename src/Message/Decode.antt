-- ===== src/Message/Decode.antt =====
-- src/RSL/src/message.cpp: `UnMarshal` of member ids, ballots and the fields that every message has.
use rsl.Common.{ℕ, false, List, [], ◌∷◌, length, Option, none, some}
use rsl.Common.{◌==◌, ltb, leb, if◌then◌else◌}
use rsl.Ballot.{MemberId, BallotNumber, member_id_size}
use rsl.Marshal.{Read, ◌>>=◌, ◌>>◌, return, guard, read_uint16, read_uint32, read_uint64, read_data}
use rsl.Message.{Message, is_version_valid, message_magic, base_size}
use rsl.Message.Encode.{CRuntime}

-- `StringCbLengthA` of a buffer: the characters before the first NUL, if there is one.
unfoldable pub c_string : List ℕ → Option (List ℕ)
c_string [] = none
c_string (b ∷ bs) =
    let rest = c_string bs in
    if b == 0 then some [] else elim rest [ none ↦ none | some s ↦ some (b ∷ s) ]

unfoldable pub return_string : Option (List ℕ) → Read MemberId
return_string none = guard false >> return []
return_string (some s) = return s

unfoldable pub un_marshal_configuration : ℕ → Read ℕ
un_marshal_configuration version = if leb 3 version then read_uint32 else return 1

unfoldable pub un_marshal_payload : ℕ → Read ℕ
un_marshal_payload version = if leb 6 version then read_uint64 else return 0

module _ (c : CRuntime) where
  unfoldable pub print_member_id : ℕ → Read MemberId
  print_member_id value =
      if value == 0
      then return []
      else (guard (ltb (length (c.print_u64 value)) member_id_size) >> return (c.print_u64 value))

  unfoldable pub un_marshal_member_id : ℕ → Read MemberId
  un_marshal_member_id version =
      if leb version 3
      then (read_uint64 >>= print_member_id)
      else (do bs ← read_data member_id_size; return_string (c_string bs))

  unfoldable pub un_marshal_ballot : ℕ → Read BallotNumber
  un_marshal_ballot version = do
    n ← read_uint32
    id ← un_marshal_member_id version
    return (record { ballot_id = n; member_id = id })

  -- `Message::UnMarshal` into `self`, whose fields that are not marshaled stay.
  unfoldable pub un_marshal_message : Message → Read Message
  un_marshal_message self = do
    version ← read_uint16
    guard (is_version_valid version)
    len ← read_uint32
    checksum ← read_uint64
    magic ← read_uint32
    msg_id ← read_uint16
    member_id ← un_marshal_member_id version
    decree ← read_uint64
    configuration_number ← un_marshal_configuration version
    ballot ← un_marshal_ballot version
    payload ← un_marshal_payload version
    guard (leb (base_size version) len)
    guard (magic == message_magic)
    return (record self {
      version = version;
      un_marshal_len = len;
      checksum = checksum;
      magic = magic;
      msg_id = msg_id;
      member_id = member_id;
      decree = decree;
      configuration_number = configuration_number;
      ballot = ballot;
      payload = payload;
    })
