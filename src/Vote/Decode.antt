-- ===== src/Vote/Decode.antt =====
-- src/RSL/src/message.cpp: `Vote::UnMarshal`, which copies the whole vote into one buffer and reads on
-- in that.
use rsl.Common.{ℕ, zero, suc, Bool, false, not, List, [], ◌∷◌}
use rsl.Common.{length, leb, ◌==◌, if◌then◌else◌, Option, none, some}
use rsl.Marshal.{Read, got, failed, fault, asserted, ◌>>=◌, ◌>>◌, return, guard}
use rsl.Marshal.{check, set_read_pointer, forward_read_pointer, test_read_remaining, read_data}
use rsl.Marshal.{peek_data_pointer, read_uint8, read_uint32}
use rsl.Message.{Message, MsgId, msg_code, base_size}
use rsl.Message.Encode.{CRuntime}
use rsl.Message.Decode.{un_marshal_message}
use rsl.Message.Bodies.{PrimaryCookie}
use rsl.Message.BodiesDecode.{un_marshal_cookie}
use rsl.Membership.{MemberSet}
use rsl.Membership.Decode.{un_marshal_member_set}
use rsl.Vote.Encode.{VoteMsg, is_some}

module _ (c : CRuntime) where
  unfoldable pub un_marshal_vote_cookie : ℕ → Read PrimaryCookie
  un_marshal_vote_cookie version = if leb 2 version then un_marshal_cookie false else return []

  unfoldable pub un_marshal_members_of : ℕ → ℕ → Read (Option MemberSet)
  unfolding un_marshal_member_set
  un_marshal_members_of version b =
      if b == 0 then return none else (do s ← un_marshal_member_set c version; return (some s))

  unfoldable pub un_marshal_reconfiguration : ℕ → Read (Option MemberSet)
  unfolding un_marshal_members_of
  un_marshal_reconfiguration version =
      if leb 3 version then (read_uint8 >>= un_marshal_members_of version) else return none

  unfoldable pub un_marshal_relinquish : ℕ → Read Bool
  un_marshal_relinquish version =
      if leb 5 version then (do b ← read_uint8; return (not (b == 0))) else return false

  -- One request: its length, and the bytes that are pointed at in the buffer.
  unfoldable pub un_marshal_request : Bool → Read (List ℕ)
  un_marshal_request is_reconfiguration = do
    check (not is_reconfiguration)
    len ← read_uint32
    guard (not (len == 0))
    bytes ← peek_data_pointer len
    forward_read_pointer len
    return bytes

  -- While a byte is left. Each request takes five bytes at least, so that the number of bytes is fuel
  -- enough.
  unfoldable pub un_marshal_requests : ℕ → Bool → Read (List (List ℕ))
  unfolding un_marshal_request test_read_remaining
  un_marshal_requests zero is_reconfiguration r = got [] r
  un_marshal_requests (suc fuel) is_reconfiguration r =
      let (more, r₁) = test_read_remaining 1 r in
      let next : Read (List (List ℕ)) =
        (un_marshal_request is_reconfiguration >>= λ q.
        un_marshal_requests fuel is_reconfiguration >>= λ qs. return (q ∷ qs)) in
      if more then next r₁ else got [] r₁

  -- The buffer's contents behind the header.
  unfoldable pub parse_vote : ℕ → Message → Read VoteMsg
  unfolding un_marshal_vote_cookie un_marshal_reconfiguration un_marshal_relinquish
      un_marshal_requests
  parse_vote fuel header = do
    forward_read_pointer (base_size header.version)
    cookie ← un_marshal_vote_cookie header.version
    reconfiguration ← un_marshal_reconfiguration header.version
    relinquish ← un_marshal_relinquish header.version
    requests ← un_marshal_requests fuel (is_some reconfiguration)
    return (record {
      header = header;
      primary_cookie = cookie;
      reconfiguration = reconfiguration;
      relinquish_primary = relinquish;
      requests = requests;
    })

  -- A read inside of a buffer of its own.
  unfoldable pub within : {A : Type 0} → Read A → List ℕ → Read A
  within m bytes r = elim (m (record { bytes = bytes; read_ptr = 0; overshoot = false })) [
    | got a r₁ ↦ got a r
    | failed r₁ ↦ failed r
    | fault ↦ fault
    | asserted ↦ asserted
  ]

  -- The message at the read pointer, which stays.
  unfoldable pub peek_message : Message → Read Message
  peek_message self r = elim (un_marshal_message c self r) [
    | got m r₁ ↦ got m (set_read_pointer r.read_ptr r₁)
    | failed r₁ ↦ failed r₁
    | fault ↦ fault
    | asserted ↦ asserted
  ]

  unfoldable pub un_marshal_vote : Message → Read VoteMsg
  unfolding peek_message within parse_vote
  un_marshal_vote self = do
    header ← peek_message self
    guard (header.msg_id == msg_code MsgId.vote)
    bytes ← read_data header.un_marshal_len
    within (parse_vote (length bytes) header) bytes
