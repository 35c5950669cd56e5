-- ===== src/Vote.antt =====
-- The `Vote` of src/RSL/src/message.h as the engine handles it: the fields of a message, what it
-- proposes, and what its marshaled buffers hold. `has_user_cookie` says that its first request
-- came from this replica's application (`m_requests.head->m_cookie != NULL`).
pub mod Encode
pub mod Decode
pub mod RoundTrip
pub mod Whole
pub mod Carriers
pub mod Carried
use rsl.Common.{ℕ, ◌+◌, Bool, false, not, ◌||◌, List, [], leb, if◌then◌else◌}
use rsl.Ballot.{MemberId, BallotNumber}
use rsl.Message.{Message, MsgId, msg_code, init_message, base_size}
use rsl.Message.Bodies.{PrimaryCookie, cookie_len}

-- The part of an `RSLNode` that the engine reads.
pub record Node : Type 0 where
  pub member_id : MemberId
  pub ip : ℕ
  pub rsl_port : ℕ

-- `requests_len` and `members_len` are the marshaled sizes of the requests and of the new members.
pub record Vote : Type 0 where
  pub header : Message
  pub open header use *
  pub is_reconfiguration : Bool
  pub members_in_new_configuration : List Node
  pub members_len : ℕ
  pub primary_cookie : PrimaryCookie
  pub requests_len : ℕ
  pub has_user_cookie : Bool
  pub relinquish_primary : Bool
  pub received_at : ℕ

-- What `Vote::Init` and `Vote::AddRequest` put into the buffers.
unfoldable pub marshal_len : Vote → ℕ
marshal_len v =
    base_size v.version
    + (if leb 2 v.version then cookie_len v.primary_cookie else 0)
    + (if leb 3 v.version then (if v.is_reconfiguration then 1 + v.members_len else 1) else 0)
    + (if leb 5 v.version then 1 else 0)
    + v.requests_len

-- `Vote(version, memberId, decree, configurationNumber, ballot, cookie)`: a vote with no request.
unfoldable pub new_vote : ℕ → MemberId → ℕ → ℕ → BallotNumber → PrimaryCookie → Vote
new_vote version member_id decree configuration_number ballot cookie = record {
  header =
      init_message version (msg_code MsgId.vote) member_id decree configuration_number ballot 0;
  is_reconfiguration = false;
  members_in_new_configuration = [];
  members_len = 0;
  primary_cookie = cookie;
  requests_len = 0;
  has_user_cookie = false;
  relinquish_primary = false;
  received_at = 0;
}

-- `LogAssert(!m_isReconfiguration || m_version >= 3)` of `Vote::Init`.
unfoldable pub can_init : ℕ → Vote → Bool
can_init version other = not other.is_reconfiguration || leb 3 version

-- `Vote(version, other, cookie)`: the same proposal under a new header and cookie. It does not
-- relinquish the primary, whatever `other` does.
unfoldable pub copy_vote : ℕ → Vote → PrimaryCookie → Vote
copy_vote version other cookie = record other {
  header =
      init_message version (msg_code MsgId.vote) other.member_id other.decree
        other.configuration_number other.ballot 0;
  primary_cookie = cookie;
  relinquish_primary = false;
  received_at = 0;
}
