-- ===== src/RaftCore.antt =====
-- openraft/src/core/raft_core.rs: how the core turns the messages of the application and of other nodes,
-- and the notifications of its tasks, into calls of the engine. What is sent back to callers is no part
-- of the model. Children: the dispatch of messages, running commands, and proofs.
pub mod Dispatch
pub mod Commands
pub mod Handled
pub mod Conditions
pub mod Queue
pub mod Stepped
pub mod Runs
pub mod Loop
pub mod Balance
pub mod Rounds
pub mod Confirmed
pub mod Reads
pub mod Waiting
use async_raft.Base.{
  ℕ, ◌+◌, Bool, true, false, not, ◌&&◌, ◌||◌, List, [], ◌∷◌, Option, none, some, if◌then◌else◌,
  ◌==◌, leb, length, Checked, done, panicked, ◌>>=◌, unwrap,
}
use async_raft.Base.Order.{◌≤?◌, ◌<?◌, ◌=?◌, option_ord, nat_ord}
use async_raft.Base.Sets.{keys}
use async_raft.Vote.{
  Vote, CommittedVote, NonCommittedVote, leader_id_ord, VoteStatus, into_vote_status,
}
use async_raft.Vote.AdvOrder.{vote_ord}
use async_raft.LogId.{LogId, log_id_ord}
use async_raft.Membership.{Membership, ChangeMembers, Result, ok, err, is_voter, voter_ids}
use async_raft.Membership.State.{Eq, apply, log_id}
use async_raft.IoState.{
  IoState, IoId, IoProgress, vote_io, log_io, flush, update_applied, update_snapshot,
}
use async_raft.Leased.{disable_lease, is_expired}
use async_raft.Leader.{Leader}
use async_raft.RaftState.{
  RaftState, ServerState, leader, follower, SnapshotMeta, last_log_id, effective_membership,
}
use async_raft.RaftState
use async_raft.Handler.{Entry, trigger_snapshot, respond, log_flushed}
use async_raft.Replication.{
  ReplicationResult, allow_next_revert, update_progress, update_leader_clock, update_local_progress,
}
use async_raft.LeaderHandler.{leader_append_entries, send_heartbeat}
use async_raft.Engine.{Engine, Times, with_state, emit, leading, with_leading, blank}
use async_raft.Engine.Voting.{update_vote}
use async_raft.Engine.Electing.{
  VoteRequest, VoteResponse, InitializeError, elect, initialize, handle_vote_req, handle_vote_resp,
}
use async_raft.Engine.Requests.{
  handle_append_entries, handle_commit_entries, handle_install_full_snapshot,
  handle_begin_receiving_snapshot, leader_step_down, finish_building_snapshot, trigger_purge_log,
  trigger_transfer_leader,
}

-- The settings that the core reads; times are numbers.
pub record Settings : Type 0 where
  pub enable_elect : Bool
  pub enable_heartbeat : Bool
  pub heartbeat_interval : ℕ
  pub election_timeout : ℕ
  pub smaller_log_timeout : ℕ

-- `replications` holds the nodes that have a replication stream.
pub record Core (N : Type 0) : Type 0 where
  pub engine : Engine N
  pub settings : Settings
  pub replications : List ℕ

-- What `C::now()` answers at each place of one call.
pub record Moments : Type 0 where
  pub now : ℕ
  pub checked : ℕ
  pub started : ℕ
  pub times : Times
  pub after : ℕ

-- `ReplicationSessionId`.
pub record Session : Type 0 where
  pub committed_vote : CommittedVote
  pub membership_log_id : Option LogId

pub data RaftMsg (N : Type 0) : Type 0 where
  append_entries : Vote → Option LogId → List (Entry N) → Option LogId → RaftMsg N
  request_vote : VoteRequest → RaftMsg N
  begin_receiving_snapshot : RaftMsg N
  install_full_snapshot : Vote → SnapshotMeta N → RaftMsg N
  client_write : RaftMsg N
  initialize_with : List (ℕ × N) → RaftMsg N
  change_members : ChangeMembers N → Bool → RaftMsg N
  handle_transfer_leader : Vote → ℕ → RaftMsg N
  external_elect : RaftMsg N
  external_heartbeat : RaftMsg N
  external_snapshot : RaftMsg N
  external_purge_log : ℕ → RaftMsg N
  external_transfer_leader : ℕ → RaftMsg N
  external_allow_next_revert : ℕ → Bool → RaftMsg N

pub data Notification (N : Type 0) : Type 0 where
  vote_response : ℕ → VoteResponse → NonCommittedVote → Notification N
  higher_vote : Vote → CommittedVote → Notification N
  tick : Notification N
  storage_error : Notification N
  local_io : IoId → Notification N
  replication_progress : Session → ℕ → ReplicationResult → Notification N
  heartbeat_progress : Session → ℕ → ℕ → Notification N
  snapshot_built : SnapshotMeta N → Notification N
  snapshot_installed : IoId → Option (SnapshotMeta N) → Notification N
  applied_upto : LogId → Notification N

abbrev pub flush_io : IoId → IoState → IoState
flush_io io s = record s { io_progress = flush s.io_progress io }

abbrev pub vote_matches : Option Leader → CommittedVote → Bool
vote_matches none v = false
vote_matches (some l) v = v.leader_id =? l.committed_vote.leader_id

abbrev pub is_leader_state : ServerState → Bool
is_leader_state leader = true
is_leader_state _ = false

module _ {N : Type 0} where
  abbrev pub with_engine : Core N → Engine N → Core N
  with_engine c e = record c { engine = e }

  abbrev pub map_io : Engine N → (IoState → IoState) → Engine N
  map_io e f = with_state e (record e.node.state { io_state = f e.node.state.io_state })

  -- `send_heartbeat`, unless the leadership is being transferred.
  abbrev pub heartbeat_of : Engine N → Leader → Option ℕ → Engine N
  heartbeat_of e l (some to) = e
  heartbeat_of e l none = with_leading e (send_heartbeat (leading e l))

  abbrev pub heartbeat_as : Engine N → Option Leader → Engine N
  heartbeat_as e none = e
  heartbeat_as e (some l) = heartbeat_of e l l.transfer_to

  unfoldable pub heartbeat : Engine N → Engine N
  heartbeat e = heartbeat_as e e.leader

  -- `write_entry` of a leader that is not transferring its leadership.
  unfoldable pub write_unless : Engine N → Entry N → Leader → Option ℕ → Checked (Engine N)
  write_unless e entry l (some to) = done e
  write_unless e entry l none = do
    l' ← leader_append_entries (leading e l) (entry ∷ [])
    _ ← unwrap (last_log_id l'.node.state)
    done (with_leading e l')

  unfoldable pub write_as : Engine N → Entry N → Option Leader → Checked (Engine N)
  write_as e entry none = done e
  write_as e entry (some l) = write_unless e entry l l.transfer_to

  unfoldable pub write_entry : Engine N → Entry N → Checked (Engine N)
  write_entry e entry = write_as e entry e.leader

  -- `change_membership`, once the change is applied.
  unfoldable pub write_membership : Engine N → Result (Membership N) → Checked (Engine N)
  write_membership e (err error) = done e
  write_membership e (ok m) = write_entry e (record blank { membership = some m })

  unfoldable pub change_membership : Engine N → ChangeMembers N → Bool → Checked (Engine N)
  change_membership e c retain = write_membership e (apply e.node.state.membership_state c retain)

  -- `handle_initialize`: the answer waits until the first log is flushed.
  abbrev pub answer_initialize : Engine N × Option (InitializeError N) → Engine N
  answer_initialize (e, none) = emit e (respond (some (log_flushed (last_log_id e.node.state))))
  answer_initialize (e, some error) = emit e (respond none)

  unfoldable pub handle_initialize : Engine N → Moments → List (ℕ × N) → Checked (Engine N)
  handle_initialize e m nodes = do
    let members : Membership N = record { configs = keys nodes ∷ []; nodes = nodes }
    r ← initialize e m.started m.times (record blank { membership = some members })
    done (answer_initialize r)

  -- `does_candidate_vote_match`, `does_leader_vote_match` and `does_replication_session_match`.
  abbrev pub candidate_matches : Engine N → NonCommittedVote → Bool
  candidate_matches e v = elim e.candidate [
    | none ↦ false
    | some c ↦ v.leader_id =? c.vote.leader_id
  ]

  abbrev pub session_matches : Engine N → Session → Bool
  session_matches e s =
      vote_matches e.leader s.committed_vote
      && (s.membership_log_id =? log_id e.node.state.membership_state.effective)

  -- Whether a node that is a voter is due to start an election.
  unfoldable pub election_due : Core N → ℕ → Bool
  election_due c now =
      let e = c.engine in
      let timeout =
        if e.seen_greater_log
        then c.settings.election_timeout + c.settings.smaller_log_timeout
        else c.settings.election_timeout in
      (length e.node.state.membership_state.effective.voter_ids == 1)
      || is_expired e.node.state.vote now timeout

  unfoldable pub may_elect : Core N → ℕ → Bool
  may_elect c now =
      let s = c.engine.node.state in
      not (is_leader_state s.server_state)
      && (is_voter (effective_membership s) c.engine.node.config.id
          && (c.settings.enable_elect && election_due c now))

  unfoldable pub handle_tick_election : Core N → Moments → Checked (Engine N)
  handle_tick_election c m =
      if may_elect c m.checked
      then elect (record c.engine { seen_greater_log = false }) m.started m.times
      else done c.engine
