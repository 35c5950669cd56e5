-- ===== src/Vote/Carriers.antt =====
-- src/RSL/src/message.cpp: the `Marshal` of the messages that carry a vote or a member set,
-- `PrepareAccepted` and `BootstrapMsg`.
use rsl.Common.{ℕ, ◌+◌, List, ◌++◌, length, Outcome, ◌>>=◌, done}
use rsl.Message.{Message, base_size}
use rsl.Message.Encode.{CRuntime, marshal_message}
use rsl.Membership.{MemberSet, marshal_member_set, member_set_len}
use rsl.Vote.Encode.{VoteMsg, marshal_vote}

pub record PrepareAcceptedMsg : Type 0 where
  pub header : Message
  pub open header use *
  pub vote : VoteMsg

pub record BootstrapMsg : Type 0 where
  pub header : Message
  pub open header use *
  pub member_set : MemberSet

module _ (c : CRuntime) where
  -- The vote's length is that of what it marshals.
  unfoldable pub marshal_prepare_accepted : PrepareAcceptedMsg → Outcome (List ℕ)
  unfolding marshal_vote
  marshal_prepare_accepted m = do
    vote ← marshal_vote c m.vote
    header ← marshal_message c (length vote + base_size m.version) m.header
    done (header ++ vote)

  unfoldable pub marshal_bootstrap : BootstrapMsg → Outcome (List ℕ)
  unfolding marshal_member_set member_set_len
  marshal_bootstrap m = do
    header ←
        marshal_message c (base_size m.version + member_set_len c m.version m.member_set) m.header
    set ← marshal_member_set c m.version m.member_set
    done (header ++ set)
