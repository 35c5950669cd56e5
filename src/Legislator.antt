-- ===== src/Legislator.antt =====
-- src/RSL/src/legislator.h: the state of the engine's main thread. Every handler of a message is a
-- function from a state to the state that it leaves, in an environment that holds the time and the
-- answers of the application. Threads that share the state take locks around whole handlers, or
-- queue their work to the main thread.
pub mod Send
pub mod Log
pub mod Election
pub mod Reinitialize
pub mod Handlers
pub mod Votes
pub mod Learn
pub mod Status
pub mod Resend
pub mod Restore
pub mod Cleanup
pub mod Execute
pub mod Bootstrap
pub mod Grows
pub mod Main
pub mod Ends
pub mod Promise
pub mod Guards
pub mod Caught
pub mod Quorum
pub mod Responses
use rsl.Common.{ℕ, ◌+◌, ◌-◌, ◌/◌, ◌^◌, Bool, true, false, List, [], ◌∷◌, Option, none, length, ◌==◌}
use rsl.Ballot.{MemberId, BallotNumber}
use rsl.Message.{Message}
use rsl.Message.Bodies.{PrimaryCookie, PrepareMsg, JoinMessage, StatusResponse}
use rsl.Vote.{Vote, Node}
use rsl.LogFile.{LogFile}
use rsl.StatusMap.{StatusMap}
use rsl.ExecuteQueue.{ExecuteQueue}

-- `Legislator::State`.
pub data Phase : Type 0 where
  paxos_inactive stable_primary stable_secondary preparing initializing : Phase

-- Another member of the configuration.
pub record Replica : Type 0 where
  pub node : Node
  pub open node use *
  pub num_outstanding : ℕ
  pub status : ℕ
  pub failed_at : ℕ
  pub last_request_voted_at : ℕ
  pub last_request_voted_decree : ℕ
  pub last_vote_payload : ℕ
  pub connected : Bool
  pub consecutive_failures : ℕ
  pub last_request_sent_at : ℕ

pub record ConfigurationInfo : Type 0 where
  pub configuration_number : ℕ
  pub initial_decree : ℕ
  pub members : List Node

pub data Packet : Type 0 where
  plain : Message → Packet
  join : JoinMessage → Packet
  status_response : StatusResponse → Packet
  prepare : PrepareMsg → Packet
  prepare_accepted : Message → Vote → Packet
  vote : Vote → Packet

-- A message handed to the network library: to a replica, or to an address.
pub data Sent : Type 0 where
  to_replica : MemberId → Packet → Sent
  to_address : ℕ → ℕ → Bool → Packet → Sent

-- `sent` and `log_files` have their newest element first. Times are in the units of the clock.
pub record Legislator : Type 0 where
  pub member_id : MemberId
  pub version : ℕ
  pub state : Phase
  pub replicas : List Replica
  pub configuration : ConfigurationInfo
  pub highest_defunct : ℕ
  pub max_ballot : BallotNumber
  pub max_seen_ballot : BallotNumber
  pub max_accepted : Vote
  pub outstanding : Option Vote
  pub old_freshest : Option Vote
  pub response_map : List MemberId
  pub status_map : StatusMap
  pub last_prepare : Option PrepareMsg
  pub primary_cookie : PrimaryCookie
  pub vote_payload : ℕ
  pub next_election_time : ℕ
  pub action_timeout : ℕ
  pub prepare_timeout : ℕ
  pub cp_timeout : ℕ
  pub last_time_join_messages_sent : ℕ
  pub next_checkpoint_time : ℕ
  pub max_log_len : ℕ
  pub checkpointed_decree : ℕ
  pub checkpoint_size : ℕ
  pub save_checkpoint_at : ℕ
  pub copy_checkpoint_at : ℕ
  pub must_checkpoint : Bool
  pub is_saving_checkpoint : Bool
  pub is_transitioning : Bool
  pub force_reelection : Bool
  pub relinquish_primary : Bool
  pub is_primary : Bool
  pub log_files : List LogFile
  pub execute_q : ExecuteQueue
  pub vote_cache : List Vote
  pub recv_msg_q : List Message
  pub sent : List Sent

-- The messages of a log that can be learned.
pub data Logged : Type 0 where
  logged_vote : Vote → Logged
  logged_prepare : PrepareMsg → Logged
  logged_decision : Message → Logged

-- A message read from a learn server, and the votes that were received meanwhile.
pub record Fetched : Type 0 where
  pub logged : Logged
  pub received : List Vote

-- `LearnCheckpointCopyResult::Outcome`.
pub data CopyResult : Type 0 where
  success invalid_argument create_failed connect_failed header_rejected : CopyResult
  header_write_failed read_failed body_write_failed flush_failed verification_failed : CopyResult

-- The clock, the configuration parameters of rslconfig.h, and what the application answers.
pub record Env : Type 0 where
  pub now : ℕ
  pub hrtime_second : ℕ
  pub heart_beat_interval : ℕ
  pub election_delay : ℕ
  pub new_leader_grace_period : ℕ
  pub initialize_retry_interval : ℕ
  pub send_timeout : ℕ
  pub max_outstanding_per_replica : ℕ
  pub in_memory_execution_queue_size : ℕ
  pub allow_primary_promotion_while_catching_up : Bool
  pub use_global_accept_messages_flag : Bool
  -- What `Randomize` makes of `MaxLogLen` when a log file is switched.
  pub randomized_log_len : ℕ
  -- `m_acceptMessages`, and the application's `AcceptMessageFromReplica` and `CanBecomePrimary`.
  pub accept_messages : Bool
  pub accept_message_from_replica : MemberId → PrimaryCookie → Bool
  pub can_become_primary : Option PrimaryCookie
  -- What the application's `ResolveNode` makes of a member's address.
  pub resolve : Node → Node
  pub hrtime_msecond : ℕ
  pub max_cache_length : ℕ
  pub receive_timeout : ℕ
  pub vote_retry_interval : ℕ
  pub prepare_retry_interval : ℕ
  pub vote_max_outstanding_interval : ℕ
  pub join_messages_interval : ℕ
  pub cp_query_retry_interval : ℕ
  pub rsl_learn_port : ℕ
  -- `rand()`, and whether the thread that copies a checkpoint is running.
  pub rand : ℕ
  pub copy_thread_running : Bool
  -- What a member's learn server sends, if it can be reached, and how copying its checkpoint ends.
  pub fetched_votes : MemberId → Option (List Fetched)
  pub copied : MemberId → CopyResult

-- `_I64_MAX`.
abbrev pub never : ℕ
never = 2 ^ 63 - 1

unfoldable pub am_primary : Legislator → Bool
am_primary s = elim s.state [
  | paxos_inactive ↦ false
  | stable_primary ↦ true
  | stable_secondary ↦ false
  | preparing ↦ false
  | initializing ↦ false
]

unfoldable pub is_inactive : Legislator → Bool
is_inactive s = elim s.state [
  | paxos_inactive ↦ true
  | stable_primary ↦ false
  | stable_secondary ↦ false
  | preparing ↦ false
  | initializing ↦ false
]

unfoldable pub is_preparing : Legislator → Bool
is_preparing s = elim s.state [
  | paxos_inactive ↦ false
  | stable_primary ↦ false
  | stable_secondary ↦ false
  | preparing ↦ true
  | initializing ↦ false
]

unfoldable pub is_initializing : Legislator → Bool
is_initializing s = elim s.state [
  | paxos_inactive ↦ false
  | stable_primary ↦ false
  | stable_secondary ↦ false
  | preparing ↦ false
  | initializing ↦ true
]

-- `PaxosConfiguration()`.
abbrev pub paxos_configuration : Legislator → ℕ
paxos_configuration s = s.configuration.configuration_number

-- A majority of the members: the replicas, and this one.
unfoldable pub quorum_size : Legislator → ℕ
quorum_size s = (length s.replicas + 1) / 2 + 1
