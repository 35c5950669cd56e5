-- ===== src/Message/Safe.antt =====
-- src/RSL/src/message.cpp: `UnMarshal` of messages without a cookie reads received bytes only.
use rsl.Common.{
  ℕ, ◌<◌, ◌+◌, ◌^◌, arith, List, Option, none, some, false, length, ltb, leb, ◌==◌, [],
}
use rsl.Ballot.{member_id_size}
use rsl.Marshal.{
  Reader, ◌>>=◌, ◌>>◌, return, guard, read_uint16, read_uint32, read_uint64, read_data,
}
use rsl.Marshal.Safe.{
  IsSafe, IsSafe-bind, IsSafe-return, IsSafe-guard, IsSafe-if, IsSafe-data, IsSafe-uint16,
}
use rsl.Marshal.Safe.{IsSafe-uint32, IsSafe-uint64, IsInside, EndsInside}
use rsl.Message.{Message, MsgId, msg_code, is_version_valid, message_magic, base_size}
use rsl.Message.Encode.{CRuntime}
use rsl.Message.Bodies.{JoinMessage, StatusResponse}
use rsl.Message.Decode.{
  c_string, return_string, un_marshal_configuration, un_marshal_payload, print_member_id,
}
use rsl.Message.Decode.{un_marshal_member_id, un_marshal_ballot, un_marshal_message}
use rsl.Message.BodiesDecode.{un_marshal_join, un_marshal_status_response}

IsSafe-string : (o : Option (List ℕ)) → IsSafe (return_string o)
unfolding return_string ◌>>◌
IsSafe-string none = IsSafe-bind (guard false) _ (IsSafe-guard false) (λ u. IsSafe-return [])
IsSafe-string (some s) = IsSafe-return s

IsSafe-configuration : (version : ℕ) → IsSafe (un_marshal_configuration version)
unfolding un_marshal_configuration
IsSafe-configuration version =
    IsSafe-if (leb 3 version) read_uint32 (return 1) IsSafe-uint32 (IsSafe-return 1)

IsSafe-payload : (version : ℕ) → IsSafe (un_marshal_payload version)
unfolding un_marshal_payload
IsSafe-payload version =
    IsSafe-if (leb 6 version) read_uint64 (return 0) IsSafe-uint64 (IsSafe-return 0)

module _ (c : CRuntime) where
  IsSafe-print : (value : ℕ) → IsSafe (print_member_id c value)
  unfolding print_member_id ◌>>◌
  IsSafe-print value =
      let b = ltb (length (c.print_u64 value)) member_id_size in
      IsSafe-if (value == 0) (return []) (guard b >>= λ u. return (c.print_u64 value))
        (IsSafe-return [])
        (IsSafe-bind (guard b) (λ u. return (c.print_u64 value)) (IsSafe-guard b)
          (λ u. IsSafe-return (c.print_u64 value)))

  IsSafe-member_id : (version : ℕ) → IsSafe (un_marshal_member_id c version)
  unfolding un_marshal_member_id
  IsSafe-member_id version =
      IsSafe-if (leb version 3) (read_uint64 >>= print_member_id c)
        (read_data member_id_size >>= λ bs. return_string (c_string bs))
        (IsSafe-bind read_uint64 (print_member_id c) IsSafe-uint64 IsSafe-print)
        (IsSafe-bind (read_data member_id_size) (λ bs. return_string (c_string bs))
          (IsSafe-data member_id_size (omega arith)) (λ bs. IsSafe-string (c_string bs)))

  IsSafe-ballot : (version : ℕ) → IsSafe (un_marshal_ballot c version)
  unfolding un_marshal_ballot
  IsSafe-ballot version = IsSafe-bind read_uint32 _ IsSafe-uint32 (λ n.
      IsSafe-bind (un_marshal_member_id c version) _ (IsSafe-member_id version)
        (λ id. IsSafe-return _))

  IsSafe-message : (self : Message) → IsSafe (un_marshal_message c self)
  unfolding un_marshal_message ◌>>◌
  IsSafe-message self = IsSafe-bind read_uint16 _ IsSafe-uint16 (λ version.
      IsSafe-bind (guard (is_version_valid version)) _ (IsSafe-guard (is_version_valid version))
        (λ _. IsSafe-bind read_uint32 _ IsSafe-uint32 (λ len.
          IsSafe-bind read_uint64 _ IsSafe-uint64 (λ checksum.
            IsSafe-bind read_uint32 _ IsSafe-uint32 (λ magic.
              IsSafe-bind read_uint16 _ IsSafe-uint16 (λ msg_id.
                IsSafe-bind (un_marshal_member_id c version) _ (IsSafe-member_id version) (λ id.
                  IsSafe-bind read_uint64 _ IsSafe-uint64 (λ decree.
                    IsSafe-bind (un_marshal_configuration version) _ (IsSafe-configuration version)
                      (λ n.
                        IsSafe-bind (un_marshal_ballot c version) _ (IsSafe-ballot version)
                          (λ ballot.
                            IsSafe-bind (un_marshal_payload version) _ (IsSafe-payload version)
                              (λ payload.
                                IsSafe-bind (guard (leb (base_size version) len)) _
                                  (IsSafe-guard (leb (base_size version) len))
                                  (λ _.
                                    IsSafe-bind (guard (magic == message_magic)) _
                                      (IsSafe-guard (magic == message_magic))
                                      (λ _. IsSafe-return _)))))))))))))

  IsSafe-join : (self : JoinMessage) → IsSafe (un_marshal_join c self)
  unfolding un_marshal_join ◌>>◌
  IsSafe-join self =
      IsSafe-bind (un_marshal_message c self.header) _ (IsSafe-message self.header) (λ header.
        IsSafe-bind (guard (header.msg_id == msg_code MsgId.join)) _
          (IsSafe-guard (header.msg_id == msg_code MsgId.join))
          (λ _. IsSafe-bind read_uint16 _ IsSafe-uint16 (λ port.
            IsSafe-bind read_uint64 _ IsSafe-uint64 (λ a.
              IsSafe-bind read_uint64 _ IsSafe-uint64
                (λ b. IsSafe-bind read_uint64 _ IsSafe-uint64 (λ d. IsSafe-return _))))))

  IsSafe-status_response : (self : StatusResponse) → IsSafe (un_marshal_status_response c self)
  unfolding un_marshal_status_response ◌>>◌
  IsSafe-status_response self =
      IsSafe-bind (un_marshal_message c self.header) _ (IsSafe-message self.header) (λ header.
        IsSafe-bind (guard (header.msg_id == msg_code MsgId.status_response)) _
          (IsSafe-guard (header.msg_id == msg_code MsgId.status_response))
          (λ _. IsSafe-bind read_uint64 _ IsSafe-uint64 (λ decree.
            IsSafe-bind (un_marshal_ballot c header.version) _ (IsSafe-ballot header.version)
              (λ ballot. IsSafe-bind read_uint64 _ IsSafe-uint64 (λ ago.
                IsSafe-bind read_uint64 _ IsSafe-uint64 (λ low.
                  IsSafe-bind read_uint64 _ IsSafe-uint64 (λ done_to.
                    IsSafe-bind read_uint64 _ IsSafe-uint64 (λ size.
                      IsSafe-bind (un_marshal_ballot c header.version) _
                        (IsSafe-ballot header.version)
                        (λ max_ballot.
                          IsSafe-bind read_uint32 _ IsSafe-uint32
                            (λ state. IsSafe-return _))))))))))

  -- Whatever bytes a message consists of, as long as they are fewer than 2^32 - 64 and the read starts
  -- within them: `UnMarshal` of a message's header, of a join message and of a status response reads
  -- no memory behind them and fails no assertion. It ends with a value or with `false`, and the read
  -- pointer stays within the bytes.
  pub un_marshal-EndsInside :
      (message : Message) (join : JoinMessage) (response : StatusResponse) (bytes : List ℕ)
      (r : Reader)
      → length bytes + 64 < 2 ^ 32
      → IsInside bytes r
      → EndsInside bytes (un_marshal_message c message r)
        × EndsInside bytes (un_marshal_join c join r)
        × EndsInside bytes (un_marshal_status_response c response r)
  un_marshal-EndsInside message join response bytes r small i = (
    IsSafe-message message bytes r small i,
    IsSafe-join join bytes r small i,
    IsSafe-status_response response bytes r small i,
  )
