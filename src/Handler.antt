-- ===== src/Handler.antt =====
-- openraft/src/engine: the commands that the handlers push (command.rs), and the handlers
-- log_handler, snapshot_handler and server_state_handler. The commands carry what the handlers decide;
-- responses and the data of a snapshot are left out.
use async_raft.Base.{
  ℕ, ◌-◌, Bool, true, false, List, [], ◌∷◌, ◌++◌, Option, none, some, if◌then◌else◌, ltb, leb,
  add64,
}
use async_raft.Base.Order.{◌≤?◌, option_ord, nat_ord}
use async_raft.Vote.{Vote, CommittedVote}
use async_raft.LogId.{LogId, log_id_ord, next_index}
use async_raft.LogIdList.{ref_at}
use async_raft.Membership.{Membership}
use async_raft.IoState.{IoId, io_id_ord, set_building_snapshot}
use async_raft.ProgressEntry.{Inflight, ProgressEntry}
use async_raft.RaftState.{
  RaftState, SnapshotMeta, purge_log, last_purged_log_id, calc_server_state, with_index,
}

pub record Entry (N : Type 0) : Type 0 where
  pub log_id : LogId
  pub membership : Option (Membership N)

-- When a command may run.
pub data Condition : Type 0 where
  io_flushed : IoId → Condition
  log_flushed : Option LogId → Condition
  applied_to : Option LogId → Condition
  of_snapshot : Option LogId → Condition

-- The commands to the state machine that the handlers send.
pub data SmCommand (N : Type 0) : Type 0 where
  build_snapshot : SmCommand N
  begin_receiving : SmCommand N
  install_of : SnapshotMeta N → IoId → SmCommand N

pub data Command (N : Type 0) : Type 0 where
  update_io_progress : Option Condition → IoId → Command N
  append_input_entries : CommittedVote → List (Entry N) → Command N
  replicate_committed : Option LogId → Command N
  broadcast_heartbeat : CommittedVote → Option LogId → Option LogId → Command N
  save_committed : LogId → Command N
  apply_of : Option LogId → LogId → Command N
  replicate : ℕ → Inflight → Command N
  broadcast_transfer_leader : Vote → ℕ → Option LogId → Command N
  rebuild_replication_streams : List (ℕ × ProgressEntry) → Command N
  save_vote : Vote → Command N
  send_vote : Vote → Option LogId → Command N
  purge_of : LogId → Command N
  truncate_log : LogId → Command N
  state_machine : SmCommand N → Command N
  respond : Option Condition → Command N

-- `RejectAppendEntries::ByConflictingLogId`: what is there, and what was expected.
pub data Answer : Type 0 where
  accepted : Answer
  conflicting : Option LogId → LogId → Answer

-- The part of `EngineConfig` that is read here; `none` is `SnapshotPolicy::Never`.
pub record Config : Type 0 where
  pub id : ℕ
  pub logs_since_last : Option ℕ
  pub max_in_snapshot_log_to_keep : ℕ
  pub purge_batch_size : ℕ
  pub max_payload_entries : ℕ
  pub allow_log_reversion : Bool
  pub leader_lease : ℕ

-- A node: its state and the commands it has pushed.
pub record Node (N : Type 0) : Type 0 where
  pub config : Config
  pub state : RaftState N
  pub output : List (Command N)

module _ {N : Type 0} where
  abbrev pub push : Node N → Command N → Node N
  push n c = record n { output = n.output ++ c ∷ [] }

  abbrev pub log_ids_of : List (Entry N) → List LogId
  log_ids_of [] = []
  log_ids_of (e ∷ es) = e.log_id ∷ log_ids_of es

  -- `ServerStateHandler::update_server_state_if_changed`.
  unfoldable pub update_server_state : Node N → Node N
  update_server_state n = record n {
    state = record n.state { server_state = calc_server_state n.state n.config.id };
  }

  -- `LogHandler`.
  unfoldable pub purge_if_needed : Node N → Node N
  unfolding last_purged_log_id
  purge_if_needed n = elim n.state.purge_upto [
    | none ↦ n
    | some upto ↦
        if some upto ≤? last_purged_log_id n.state
        then n
        else push (record n { state = purge_log n.state upto }) (purge_of upto)
  ]

  abbrev pub update_purge_upto : Node N → LogId → Node N
  update_purge_upto n upto = record n { state = record n.state { purge_upto = some upto } }

  unfoldable pub calc_purge_upto : Node N → Option LogId
  unfolding last_purged_log_id add64
  calc_purge_upto n =
      let purge_end =
        next_index n.state.snapshot_meta.last_log_id - n.config.max_in_snapshot_log_to_keep in
      let purged_next = next_index (last_purged_log_id n.state) in
      if ltb purge_end (add64 purged_next n.config.purge_batch_size)
      then none
      else with_index (ref_at n.state.log_ids (purge_end - 1)) (purge_end - 1)

  unfoldable pub schedule_policy_based_purge : Node N → Node N
  unfolding calc_purge_upto
  schedule_policy_based_purge n = elim (calc_purge_upto n) [
    | none ↦ n
    | some l ↦ record n { state = record n.state { purge_upto = some l } }
  ]

  -- `SnapshotHandler`.
  unfoldable pub trigger_snapshot : Node N → Node N × Bool
  trigger_snapshot n =
      let building = record n {
        state = record n.state { io_state = set_building_snapshot n.state.io_state true };
      } in
      if n.state.io_state.building_snapshot
      then (n, false)
      else (push building (state_machine build_snapshot), true)

  unfoldable pub update_snapshot : Node N → SnapshotMeta N → Node N × Bool
  update_snapshot n meta =
      if meta.last_log_id ≤? n.state.snapshot_meta.last_log_id
      then (n, false)
      else (record n { state = record n.state { snapshot_meta = meta } }, true)

  unfoldable pub should_snapshot : Node N → Bool
  unfolding add64
  should_snapshot n = elim n.config.logs_since_last [
    | none ↦ false
    | some threshold ↦
        leb (add64 (next_index n.state.snapshot_meta.last_log_id) threshold)
          (next_index n.state.committed)
  ]
