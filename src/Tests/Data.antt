-- ===== src/Tests/Data.antt =====
-- The data of the tests: a configuration of three members, the replica that is modelled, and the
-- messages and votes that reach it.
use rsl.Common.{ℕ, [], ◌∷◌, ◌-◌, ◌+◌, none, some, true, false}
use rsl.Ballot.{MemberId, BallotNumber}
use rsl.Message.{Message, MsgId, msg_code, message_magic}
use rsl.Message.Encode.{CRuntime}
use rsl.Message.Bodies.{PrepareMsg, JoinMessage, StatusResponse}
use rsl.Vote.{Vote, Node}
use rsl.LogFile.{LogFile}
use rsl.ExecuteQueue.{ExecuteQueue}
use rsl.StatusMap.{empty_map}
use rsl.Legislator.{Legislator, Env, Replica, stable_secondary, never, connect_failed}

-- Number conversions that are right for one digit.
abbrev pub one_digit : CRuntime
one_digit = record {
  strtoui64 = λ s. elim s [ [] ↦ (0, []) | x ∷ xs ↦ (x - 48, xs) ];
  print_u64 = λ n. (48 + n) ∷ [];
  stale = λ n. 205;
}

-- The member ids "1", "2" and "3".
abbrev pub id_1 : MemberId
id_1 = 49 ∷ []

abbrev pub id_2 : MemberId
id_2 = 50 ∷ []

abbrev pub id_3 : MemberId
id_3 = 51 ∷ []

abbrev pub ballot_1 : BallotNumber
ballot_1 = record { ballot_id = 1; member_id = id_2 }

abbrev pub ballot_2 : BallotNumber
ballot_2 = record { ballot_id = 2; member_id = id_3 }

abbrev pub message_of : ℕ → MsgId → Message
message_of version msg = record {
  version = version;
  un_marshal_len = 0;
  checksum = 0;
  magic = message_magic;
  msg_id = msg_code msg;
  member_id = id_3;
  decree = 10;
  configuration_number = 1;
  ballot = ballot_2;
  payload = 0;
  remote_ip = 3;
  remote_port = 20000;
  as_client = false;
}

abbrev pub prepare_msg_2 : PrepareMsg
prepare_msg_2 = record { header = message_of 3 MsgId.prepare; primary_cookie = 7 ∷ 8 ∷ [] }

abbrev pub join_msg : JoinMessage
join_msg = record {
  header = message_of 3 MsgId.join;
  learn_port = 20001;
  min_decree_in_log = 5;
  checkpointed_decree = 4;
  checkpoint_size = 1000;
}

abbrev pub status_msg : StatusResponse
status_msg = record {
  header = message_of 3 MsgId.status_response;
  query_decree = 10;
  query_ballot = ballot_1;
  last_received_ago = 3;
  min_decree_in_log = 5;
  checkpointed_decree = 4;
  checkpoint_size = 1000;
  max_ballot = ballot_2;
  state = 2;
}

abbrev pub vote_at : ℕ → Vote
vote_at decree = record {
  header = record (message_of 6 MsgId.vote) {
    decree = decree;
    ballot = ballot_1;
    member_id = id_2;
    remote_ip = 2;
  };
  is_reconfiguration = false;
  members_in_new_configuration = [];
  members_len = 0;
  primary_cookie = [];
  requests_len = 100;
  has_user_cookie = false;
  relinquish_primary = false;
  received_at = 0;
}

-- A log file with the votes of the decrees 9 and 10.
abbrev pub log_9_10 : LogFile
log_9_10 = record { decree_offsets = 512 ∷ 0 ∷ []; data_len = 1024; min_decree = 9; records = [] }

-- Up to decree 8 everything is executed, and 9 is in memory.
abbrev pub queue_9 : ExecuteQueue
queue_9 = record {
  to_execute = vote_at 9 ∷ [];
  size = 200;
  last_passed = 9;
  last_inserted = 9;
  io_wait = false;
}

abbrev pub node_of : MemberId → ℕ → Node
node_of id ip = record { member_id = id; ip = ip; rsl_port = 20000 }

abbrev pub replica_of : MemberId → ℕ → Replica
replica_of id ip = record {
  node = node_of id ip;
  num_outstanding = 0;
  status = 1;
  failed_at = 0;
  last_request_voted_at = 0;
  last_request_voted_decree = 0;
  last_vote_payload = 0;
  connected = true;
  consecutive_failures = 0;
  last_request_sent_at = 0;
}

abbrev pub env : Env
env = record {
  now = 1000;
  hrtime_second = 10;
  heart_beat_interval = 50;
  election_delay = 100;
  new_leader_grace_period = 200;
  initialize_retry_interval = 20;
  send_timeout = 5;
  max_outstanding_per_replica = 10;
  in_memory_execution_queue_size = 100000000;
  allow_primary_promotion_while_catching_up = false;
  use_global_accept_messages_flag = true;
  randomized_log_len = 1000000;
  accept_messages = true;
  accept_message_from_replica = λ id cookie. true;
  can_become_primary = some [];
  resolve = λ n. n;
  hrtime_msecond = 1;
  max_cache_length = 1000000;
  receive_timeout = 5;
  vote_retry_interval = 20;
  prepare_retry_interval = 20;
  vote_max_outstanding_interval = 300;
  join_messages_interval = 50;
  cp_query_retry_interval = 60;
  rsl_learn_port = 20001;
  rand = 7;
  copy_thread_running = false;
  fetched_votes = λ id. none;
  copied = λ id. connect_failed;
}

-- Member "1", a secondary that follows "2" and has accepted decree 10.
abbrev pub secondary : Legislator
secondary = record {
  member_id = id_1;
  version = 6;
  state = stable_secondary;
  replicas = replica_of id_2 2 ∷ replica_of id_3 3 ∷ [];
  configuration = record {
    configuration_number = 1;
    initial_decree = 1;
    members = node_of id_1 1 ∷ node_of id_2 2 ∷ node_of id_3 3 ∷ [];
  };
  highest_defunct = 0;
  max_ballot = ballot_1;
  max_seen_ballot = ballot_1;
  max_accepted = vote_at 10;
  outstanding = none;
  old_freshest = none;
  response_map = [];
  status_map = empty_map;
  last_prepare = none;
  primary_cookie = [];
  vote_payload = 0;
  next_election_time = 1100;
  action_timeout = never;
  prepare_timeout = 0;
  cp_timeout = never;
  last_time_join_messages_sent = 0;
  next_checkpoint_time = never;
  max_log_len = 1000000;
  checkpointed_decree = 0;
  checkpoint_size = 0;
  save_checkpoint_at = 0;
  copy_checkpoint_at = 0;
  must_checkpoint = false;
  is_saving_checkpoint = false;
  is_transitioning = false;
  force_reelection = false;
  relinquish_primary = false;
  is_primary = false;
  log_files = log_9_10 ∷ [];
  execute_q = queue_9;
  vote_cache = [];
  recv_msg_q = [];
  sent = [];
}
