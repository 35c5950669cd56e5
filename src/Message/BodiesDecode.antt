-- ===== src/Message/BodiesDecode.antt =====
-- src/RSL/src/message.cpp: `UnMarshal` of `PrimaryCookie`, `PrepareMsg`, `JoinMessage` and
-- `StatusResponse`.
use rsl.Common.{ℕ, Bool, true, false, [], ◌==◌, ltb, leb, if◌then◌else◌}
use rsl.Marshal.{Read, ◌>>=◌, ◌>>◌, return, guard, read_uint16, read_uint32, read_uint64, read_data}
use rsl.Marshal.{peek_data_pointer, forward_read_pointer}
use rsl.Message.{MsgId, msg_code}
use rsl.Message.Encode.{CRuntime}
use rsl.Message.Decode.{un_marshal_ballot, un_marshal_message}
use rsl.Message.Bodies.{PrimaryCookie, PrepareMsg, JoinMessage, StatusResponse}

-- The data of a cookie: copied, or pointed at in the buffer.
unfoldable pub cookie_data : Bool → ℕ → Read PrimaryCookie
cookie_data true len = read_data len
cookie_data false len = do bytes ← peek_data_pointer len; forward_read_pointer len; return bytes

unfoldable pub un_marshal_cookie : Bool → Read PrimaryCookie
un_marshal_cookie copy = do len ← read_uint32; if ltb 0 len then cookie_data copy len else return []

unfoldable pub un_marshal_prepare_cookie : ℕ → PrimaryCookie → Read PrimaryCookie
un_marshal_prepare_cookie version old = if leb 2 version then un_marshal_cookie true else return old

module _ (c : CRuntime) where
  unfoldable pub un_marshal_prepare : PrepareMsg → Read PrepareMsg
  un_marshal_prepare self = do
    header ← un_marshal_message c self.header
    guard (header.msg_id == msg_code MsgId.prepare)
    cookie ← un_marshal_prepare_cookie header.version self.primary_cookie
    return (record { header = header; primary_cookie = cookie })

  unfoldable pub un_marshal_join : JoinMessage → Read JoinMessage
  un_marshal_join self = do
    header ← un_marshal_message c self.header
    guard (header.msg_id == msg_code MsgId.join)
    learn_port ← read_uint16
    min_decree_in_log ← read_uint64
    checkpointed_decree ← read_uint64
    checkpoint_size ← read_uint64
    return (record {
      header = header;
      learn_port = learn_port;
      min_decree_in_log = min_decree_in_log;
      checkpointed_decree = checkpointed_decree;
      checkpoint_size = checkpoint_size;
    })

  unfoldable pub un_marshal_status_response : StatusResponse → Read StatusResponse
  un_marshal_status_response self = do
    header ← un_marshal_message c self.header
    guard (header.msg_id == msg_code MsgId.status_response)
    query_decree ← read_uint64
    query_ballot ← un_marshal_ballot c header.version
    last_received_ago ← read_uint64
    min_decree_in_log ← read_uint64
    checkpointed_decree ← read_uint64
    checkpoint_size ← read_uint64
    max_ballot ← un_marshal_ballot c header.version
    state ← read_uint32
    return (record {
      header = header;
      query_decree = query_decree;
      query_ballot = query_ballot;
      last_received_ago = last_received_ago;
      min_decree_in_log = min_decree_in_log;
      checkpointed_decree = checkpointed_decree;
      checkpoint_size = checkpoint_size;
      max_ballot = max_ballot;
      state = state;
    })
