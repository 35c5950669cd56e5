-- ===== src/Lib.antt =====
-- RSL, the replicated state library: a replica's engine agrees with the other members of its
-- configuration on a sequence of votes, one for each decree, by Multi-Paxos, logs what it promises
-- and accepts, and hands the votes that passed to a queue for execution. This library models the
-- core of the C++ code: the messages and their codec, the index of a log file, the execute queue,
-- and the engine's main thread.
--
-- Files, and the code that each models (paths from the root of the repository):
-- - Ballot: `MemberId` and `BallotNumber` of src/RSL/src/message.cpp, their operators and order.
-- - Marshal: `MarshalData` of src/common/src/marshal.cpp. Writes are the bytes that they append;
--   reads run on a `Reader` and end in a value, a failure, or a read past the valid bytes.
-- - Message, and below it Encode, Decode, Bodies and BodiesDecode: the message classes of
--   src/RSL/src/message.cpp with `Marshal`, `UnMarshal` and `GetMarshalLen`, and the decree tests.
-- - Membership, and below it Decode: `MemberSet` of src/RSL/src/rsl.cpp with its codec and `Verify`.
-- - Vote: the fields, constructors and length of `Vote`. Below it Encode and Decode are its codec, and
--   Carriers and Carried the codec of the messages that carry a vote or a member set.
-- - LogFile: the index of `LogFile` in src/RSL/src/logfile.cpp.
-- - StatusMap: `StatusMap` of src/RSL/src/legislator.cpp, the answers to a status query.
-- - ExecuteQueue: `ExecuteQueue` of src/RSL/src/legislator.cpp, with `VoteQueue` of legislator.h.
-- - Legislator: the state of `Legislator`, src/RSL/src/legislator.h. Below it stand Send (what is
--   handed to the network library), Log (`LogVote`, `LogPrepare`, `SetMaxBallot`), Election
--   (`StartPreparing`, `SendNextVote`, `ChangePaxosConfiguration`), Reinitialize
--   (`StartInitializing`), Handlers and Votes (the message handlers and `HandleNewVotes`), Learn
--   (`LearnVotes` and the votes that the receive thread queues), Status (the handlers of status
--   queries, status responses and joins), Resend (`ReSendRequest`, `ProcessSend`), Main
--   (`HandleMessage` and the steps of `MainLoop`), and Restore (the replay of a log file in
--   `RestoreState`, with `ExecuteVote`) with Files (the log files that are replayed, and the state
--   that is left for the engine), Cleanup (`CheckpointDone` and `CleanupLogsAndCheckpoint`),
--   Execute (`ExecuteLoop`), and Bootstrap (`StartBootstrap`, `CheckBootstrap`, `SaveCheckpoint`), all of src/RSL/src/legislator.cpp.
-- - CheckpointStream, and below it Reader: `RSLCheckpointStreamWriter` and
--   `RSLCheckpointStreamReader` of src/RSL/src/rsl.cpp.
-- - Common: the names, tests, lists and outcomes that the others share. Tests: concrete runs.
--
-- How the code is read. A method of the engine is a function from the state to an `Outcome`: the
-- state that it leaves, a failed `LogAssert`, the process's `ShutDown`, or, in the model only, a
-- recursion that ran out of fuel. The clock, the configuration parameters and the application's
-- answers are the record `Env`; the conversions of the C runtime are the record `CRuntime`. Messages
-- that are sent are collected in the field `sent`. UInt32 and UInt64 arithmetic keeps its
-- wrap-around.
--
-- Fuel. `StartInitializing` calls itself only through a replica that is alone in its configuration
-- or through a notice of defunct configurations; `again` is that call in the handlers, and
-- `start_initializing` bounds its depth. A second call is made only for a last accepted vote that is
-- a reconfiguration, and the vote that stands at the start of a new configuration is none, so a
-- depth of two is enough. Invariants are stated for every depth.
--
-- What other threads and machines do is an argument: the votes that a learn server sends, the votes
-- that arrive meanwhile, the outcome of copying a checkpoint, and the replica that is drawn at random
-- for a checkpoint's copy are fields of `Env`.
--
-- Fuel is given to `write` too, one for each byte; a turn of that loop writes a byte at least.
--
-- Not modelled: sockets, disks, threads and locks; the side of learning that serves files; the header
-- of a checkpoint, and choosing one, copying one, and the failure for logs that are missing before the
-- replay; checksums of messages and votes, and the fingerprint itself (src/common/src), whose law is a
-- hypothesis; that a host name is resolved again after `ResolveNode` failed; the callbacks of
-- `CheckNotifyStatus`; the heart beats that the application's thread sends; statistics; and the managed and Rust sources.
-- `CheckBootstrap` is a step of its own in Bootstrap, not an event of `MainLoop` in Main.
pub mod Common
pub mod Ballot
pub mod Marshal
pub mod Message
pub mod Membership
pub mod Vote
pub mod LogFile
pub mod StatusMap
pub mod ExecuteQueue
pub mod CheckpointStream
pub mod Legislator
pub mod Tests
