-- ===== src/Lib.antt =====
-- async-raft (openraft): the data and the state transitions of the Raft consensus engine in openraft/src.
--
-- A node keeps a RaftState: its vote with a lease, the ids of its logs, the committed log id, the memberships,
-- the snapshot and the writes under way. The engine changes it in handlers, plain functions that push commands
-- for an asynchronous runtime. A leader keeps the progress of every node and commits what a quorum has.
--
-- Which file models which part (paths are those of the repository):
--   Vote, Vote/StdOrder, Vote/AdvOrder - openraft/src/vote: leader ids, votes and both of their orders.
--   Quorum, Quorum/* - openraft/src/quorum: majorities, joint quorums, coherent quorum sets.
--   LogId - openraft/src/log_id.
--   LogIdList, LogIdList/* - openraft/src/engine/log_id_list.rs: a list of key log ids; Lookup gives its
--     meaning as a map from indexes to leaders, the other files what each operation does to that map.
--     Loading reads the list from the storage, by a loop with a number of rounds; InEffect, Bisection,
--     Rounds and KeyLogIds are its proofs.
--   Membership, Membership/* - openraft/src/membership and change_members.rs: the voters and nodes, and
--     every change of them. Membership/State - openraft/src/raft_state/membership_state.
--   Progress, Progress/* - openraft/src/progress/mod.rs: VecProgress. Votes has the specification, MoveUp and
--     InOrder the order of the vector, Scan the search for the granted value, Granted the invariant, Settle,
--     Voter and Updates what an update does to it, Disorder the updates out of order.
--   ProgressEntry, ProgressEntry/* - openraft/src/progress/entry, progress/inflight and log_id_range.rs.
--   IoState - openraft/src/raft_state/io_state.rs and io_state; Leased - openraft/src/utime.rs.
--   RaftState, RaftState/* - openraft/src/raft_state/mod.rs and log_state_reader.rs.
--   Candidate, Candidate/Election - openraft/src/proposer/candidate.rs; Leader, Leader/* - leader.rs.
--   Handler - openraft/src/engine/command.rs and the log, snapshot and server state handlers of
--     engine/handler. Following, Following/* - its following_handler.
--   Replication, Replication/* - its replication_handler; LeaderHandler, LeaderHandler/* - its leader_handler. Both work on
--     a Leading, the node together with its leader.
--   Engine - openraft/src/engine/engine_impl.rs: a node with its roles. Engine/Voting - the vote_handler and
--     the establish_handler; Engine/Electing - elections and initializing; Engine/Requests - the other
--     operations of the engine. Engine/Same and Engine/Ahead relate the states before and after; Followed,
--     Led, Elected and Requested show it for each operation, Ballots what a vote does, Appending what the
--     entries of a leader do, Searches, NewLeader and Established how a candidate
--     becomes the leader.
--   RaftCore - openraft/src/core/raft_core.rs: RaftCore/Dispatch has handle_api_msg and handle_notification,
--     RaftCore/Commands the queue of commands; Handled, Stepped, Conditions and Queue are proofs, RaftCore/Runs has
--     runs of any messages, notifications and rounds of commands, in any order. RaftCore/Reads has
--     handle_check_is_leader_request, Waiting and Confirmed its proofs; RaftCore/Loop has runtime_loop with the shares of
--     openraft/src/core/balancer.rs, Balance and Rounds are its proofs.
--   SnapshotTransport, SnapshotTransport/* - openraft/src/network/snapshot_transport.rs and install_snapshot
--     of openraft/src/raft/mod.rs. Prefixes is about bytes, Receiving and Arriving about one request,
--     Sending and Delivery about the loop of the sender.
--   StorageHelper, StorageHelper/* - openraft/src/storage/helper.rs: what a node does with its logs when it
--     starts. Slices is about parts of a log, Memberships and Reapplied about the two loops, LogIds about
--     the key log ids of a log of which a part is purged. InitialState has get_initial_state over a record of
--     the calls of a storage; Points, IdEnds, LoadedIds, LoadedMemberships, Recovered, Cleaned and Started lead to the
--     state that it builds.
--   MemStore, MemStore/* - stores/memstore/src/lib.rs: the log store, and in Machine the state machine. Rows,
--     Cuts, Calls, Past and Runs are about the log, Applied about the state machine; Serves makes the two a
--     storage of StorageHelper/InitialState.
--   Base, Base/* - shared helpers: Boolean tests, lists, the interface Ord of total orders, sorted sets and
--     maps (BTreeSet and BTreeMap). Scenarios, Scenarios/* - concrete runs.
--
-- How the code is rendered. Methods with a mutable self take and return the state. A BTreeSet is a list that
-- is kept sorted, a BTreeMap a sorted association list. Node ids, terms, instants and durations are
-- numbers; the application's node is a parameter N. Where the code adds to a u64 the model wraps around
-- (add64), as it does where calc_mid and assign_log_ids subtract (sub64), and theorems that need the result have a bound as a hypothesis. Loops are structural recursions;
-- scan of Progress takes the number of rounds, which settle sets to what is left of the voters. The binary
-- search of the standard library is rendered by its result on an ascending list. Debug assertions are no
-- part of the model: what they state is a hypothesis where it is needed. A panic is the result panicked.
-- A call of the clock is an argument: Times and Moments name the places where the code reads it. Whether a
-- call of the log store succeeds is an argument of a round of commands; what goes to the store, the state
-- machine and other nodes is a list of effects. The loop that sends a snapshot, which retries for ever, has
-- a list of rounds: what happens to each request. Loops over the storage take a number of rounds, and the
-- theorems say how many are enough.
--
-- What is not modelled: the tasks around the core, that is the replication streams, the state machine
-- worker, the timers and the network; how the core is shut down; the traits of the storage, and their
-- tests; what is sent back to callers; formatting, metrics and serialization.
pub mod Base
pub mod Vote
pub mod Quorum
pub mod LogId
pub mod LogIdList
pub mod Membership
pub mod Progress
pub mod ProgressEntry
pub mod IoState
pub mod Leased
pub mod RaftState
pub mod Candidate
pub mod Handler
pub mod Leader
pub mod Following
pub mod Replication
pub mod LeaderHandler
pub mod Engine
pub mod RaftCore
pub mod SnapshotTransport
pub mod MemStore
pub mod StorageHelper
pub mod Scenarios
