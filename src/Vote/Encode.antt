-- ===== src/Vote/Encode.antt =====
-- src/RSL/src/message.cpp: a `Vote` as it is sent and logged. What `Vote::Init` and
-- `Vote::AddRequest` put into the buffers behind the header is their contents one after the other;
-- how the buffers are cut is not modelled.
use rsl.Common.{ℕ, ◌+◌, Bool, true, false, not, ◌||◌, List, [], ◌∷◌, ◌++◌}
use rsl.Common.{
  length, leb, if◌then◌else◌, Option, none, some, Outcome, ◌>>=◌, ◌>>◌, done, log_assert,
}
use rsl.Marshal.{write_uint8, write_uint32, write_data}
use rsl.Message.{Message, base_size}
use rsl.Message.Encode.{CRuntime, marshal_message}
use rsl.Message.Bodies.{PrimaryCookie, marshal_cookie}
use rsl.Membership.{MemberSet, marshal_member_set}

-- `reconfiguration` is `m_membersInNewConfiguration` where `m_isReconfiguration` is set.
pub record VoteMsg : Type 0 where
  pub header : Message
  pub open header use *
  pub primary_cookie : PrimaryCookie
  pub reconfiguration : Option MemberSet
  pub relinquish_primary : Bool
  pub requests : List (List ℕ)

abbrev pub is_some : Option MemberSet → Bool
is_some none = false
is_some (some s) = true

unfoldable pub flag : Bool → ℕ
flag true = 1
flag false = 0

unfoldable pub marshal_requests : List (List ℕ) → List ℕ
marshal_requests [] = []
marshal_requests (q ∷ qs) = (write_uint32 (length q) ++ write_data q) ++ marshal_requests qs

module _ (c : CRuntime) where
  unfoldable pub marshal_reconfiguration : ℕ → Option MemberSet → Outcome (List ℕ)
  unfolding marshal_member_set
  marshal_reconfiguration version none = done (write_uint8 0)
  marshal_reconfiguration version (some s) = do
    bytes ← marshal_member_set c version s
    done (write_uint8 1 ++ bytes)

  -- What stands behind the header, with the members of a reconfiguration marshaled.
  unfoldable pub vote_body : VoteMsg → List ℕ → List ℕ
  unfolding marshal_requests flag
  vote_body v members =
      (if leb 2 v.version then marshal_cookie v.primary_cookie else [])
      ++ ((if leb 3 v.version then members else [])
          ++ ((if leb 5 v.version then write_uint8 (flag v.relinquish_primary) else [])
              ++ marshal_requests v.requests))

  -- A reconfiguration needs version 3.
  unfoldable pub marshal_vote : VoteMsg → Outcome (List ℕ)
  unfolding marshal_reconfiguration vote_body
  marshal_vote v = do
    log_assert (not (is_some v.reconfiguration) || leb 3 v.version)
    members ← marshal_reconfiguration v.version v.reconfiguration
    header ← marshal_message c (base_size v.version + length (vote_body v members)) v.header
    done (header ++ vote_body v members)
