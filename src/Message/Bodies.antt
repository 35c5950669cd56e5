-- ===== src/Message/Bodies.antt =====
-- src/RSL/src/message.cpp: `PrimaryCookie`, `PrepareMsg`, `JoinMessage` and `StatusResponse`, with
-- their `GetMarshalLen` and `Marshal`.
use rsl.Common.{ℕ, ◌+◌, List, [], ◌++◌, length, leb, if◌then◌else◌, Outcome, ◌>>=◌, done}
use rsl.Ballot.{BallotNumber}
use rsl.Marshal.{write_uint16, write_uint32, write_uint64, write_data}
use rsl.Message.{Message, base_size, ballot_base_size}
use rsl.Message.Encode.{CRuntime, marshal_ballot, marshal_message}

-- The bytes of `m_data`; `m_len` is their number.
abbrev pub PrimaryCookie : Type 0
PrimaryCookie = List ℕ

unfoldable pub marshal_cookie : PrimaryCookie → List ℕ
marshal_cookie cookie = write_uint32 (length cookie) ++ write_data cookie

unfoldable pub cookie_len : PrimaryCookie → ℕ
cookie_len cookie = length cookie + 4

pub record PrepareMsg : Type 0 where
  pub header : Message
  pub open header use *
  pub primary_cookie : PrimaryCookie

unfoldable pub prepare_len : PrepareMsg → ℕ
unfolding cookie_len
prepare_len m = (if leb 2 m.version then cookie_len m.primary_cookie else 0) + base_size m.version

pub record JoinMessage : Type 0 where
  pub header : Message
  pub open header use *
  pub learn_port : ℕ
  pub min_decree_in_log : ℕ
  pub checkpointed_decree : ℕ
  pub checkpoint_size : ℕ

unfoldable pub join_len : JoinMessage → ℕ
join_len m = base_size m.version + 2 + 8 + 8 + 8

pub record StatusResponse : Type 0 where
  pub header : Message
  pub open header use *
  pub query_decree : ℕ
  pub query_ballot : BallotNumber
  -- An Int64, as its UInt64 bit pattern.
  pub last_received_ago : ℕ
  pub min_decree_in_log : ℕ
  pub checkpointed_decree : ℕ
  pub checkpoint_size : ℕ
  pub max_ballot : BallotNumber
  pub state : ℕ

unfoldable pub status_response_len : StatusResponse → ℕ
status_response_len m =
    8
    + ballot_base_size m.version
    + 8
    + 8
    + 8
    + 8
    + ballot_base_size m.version
    + 4
    + base_size m.version

module _ (c : CRuntime) where
  unfoldable pub marshal_prepare : PrepareMsg → Outcome (List ℕ)
  unfolding prepare_len marshal_cookie
  marshal_prepare m = do
    header ← marshal_message c (prepare_len m) m.header
    done (header ++ (if leb 2 m.version then marshal_cookie m.primary_cookie else []))

  unfoldable pub marshal_join : JoinMessage → Outcome (List ℕ)
  unfolding join_len
  marshal_join m = do
    header ← marshal_message c (join_len m) m.header
    done (
        header
        ++ (write_uint16 m.learn_port
            ++ (write_uint64 m.min_decree_in_log
                ++ (write_uint64 m.checkpointed_decree ++ write_uint64 m.checkpoint_size))))

  unfoldable pub marshal_status_response : StatusResponse → Outcome (List ℕ)
  unfolding status_response_len
  marshal_status_response m = do
    header ← marshal_message c (status_response_len m) m.header
    query_ballot ← marshal_ballot c m.query_ballot m.version
    max_ballot ← marshal_ballot c m.max_ballot m.version
    done (
        header
        ++ (write_uint64 m.query_decree
            ++ (query_ballot
                ++ (write_uint64 m.last_received_ago
                    ++ (write_uint64 m.min_decree_in_log
                        ++ (write_uint64 m.checkpointed_decree
                            ++ (write_uint64 m.checkpoint_size
                                ++ (max_ballot ++ write_uint32 m.state))))))))
