-- ===== src/Message/Encode.antt =====
-- src/RSL/src/message.cpp: `Marshal` of member ids, ballots and the fields that every message has,
-- as the bytes that it appends. The C library's number conversions are parameters, and so are the
-- bytes that `StringCbCopyA` leaves unwritten behind a member id's NUL, which version 4 and later
-- send.
use rsl.Common.{ℕ, zero, suc, ◌-◌, not, List, [], ◌∷◌, ◌++◌, length, ◌==◌, leb, if◌then◌else◌}
use rsl.Common.{Outcome, done, assert_failed, ◌>>=◌, ◌>>◌, log_assert}
use rsl.Ballot.{MemberId, BallotNumber, member_id_size}
use rsl.Marshal.{write_uint16, write_uint32, write_uint64, write_data}
use rsl.Message.{Message}

pub record CRuntime : Type 0 where
  -- `_strtoui64`: the number, and what stands behind it.
  pub strtoui64 : List ℕ → ℕ × List ℕ
  -- `%I64u`.
  pub print_u64 : ℕ → List ℕ
  -- The byte at a place that nothing has written.
  pub stale : ℕ → ℕ

-- The fields in the order of the wire, around the bytes of the member id and the ballot.
unfoldable pub layout : ℕ → Message → List ℕ → List ℕ → List ℕ
layout marshal_len m id ballot =
    write_uint16 m.version
    ++ (write_uint32 marshal_len
        ++ (write_uint64 m.checksum
            ++ (write_uint32 m.magic
                ++ (write_uint16 m.msg_id
                    ++ (id
                        ++ (write_uint64 m.decree
                            ++ ((if leb 3 m.version
                                  then write_uint32 m.configuration_number
                                  else [])
                                ++ (ballot
                                    ++ (if leb 6 m.version
                                        then write_uint64 m.payload
                                        else [])))))))))

module _ (c : CRuntime) where
  unfoldable pub at_end : ℕ × List ℕ → Outcome ℕ
  at_end (value, []) = done value
  at_end (value, x ∷ xs) = assert_failed

  -- `RSLNode::ParseMemberIdAsUInt64` of rsl.cpp.
  unfoldable pub parse_member_id : MemberId → Outcome ℕ
  unfolding at_end
  parse_member_id [] = done 0
  parse_member_id (x ∷ xs) = at_end (c.strtoui64 (x ∷ xs))

  unfoldable pub stale_bytes : ℕ → List ℕ
  stale_bytes zero = []
  stale_bytes (suc n) = c.stale n ∷ stale_bytes n

  -- The 64 bytes of `m_value`.
  unfoldable pub value_bytes : MemberId → List ℕ
  unfolding stale_bytes
  value_bytes id = id ++ (0 ∷ stale_bytes (member_id_size - 1 - length id))

  unfoldable pub marshal_member_id : MemberId → ℕ → Outcome (List ℕ)
  unfolding parse_member_id value_bytes
  marshal_member_id id version =
      if leb version 3
      then (do value ← parse_member_id id; done (write_uint64 value))
      else done (write_data (value_bytes id))

  unfoldable pub marshal_ballot : BallotNumber → ℕ → Outcome (List ℕ)
  unfolding marshal_member_id
  marshal_ballot b version = do
    id ← marshal_member_id b.member_id version
    done (write_uint32 b.ballot_id ++ id)

  -- `Message::Marshal`, where the virtual `GetMarshalLen()` gives `marshal_len`.
  unfoldable pub marshal_message : ℕ → Message → Outcome (List ℕ)
  unfolding marshal_member_id marshal_ballot
  marshal_message marshal_len m = do
    log_assert (not (m.version == 0))
    id ← marshal_member_id m.member_id m.version
    ballot ← marshal_ballot m.ballot m.version
    done (layout marshal_len m id ballot)
