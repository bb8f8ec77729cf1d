-- ===== src/Engine/Requests.antt =====
-- openraft/src/engine/engine_impl.rs: what a leader sends to this node, and snapshots, purges and the
-- transfer of the leadership.
use async_raft.Base.{
  ℕ, Bool, true, false, Option, none, some, if◌then◌else◌, ltb, List, Checked, done, ◌>>=◌, unwrap,
}
use async_raft.Base.Order.{◌≤?◌, option_ord, nat_ord}
use async_raft.Vote.{Vote, to_committed}
use async_raft.LogId.{LogId, log_id_ord, next_index}
use async_raft.Membership.State.{Eq, log_id}
use async_raft.IoState.{set_building_snapshot}
use async_raft.Leader.{Leader}
use async_raft.RaftState.{SnapshotMeta, get_log_id}
use async_raft.Handler.{
  Node, Entry, Answer, accepted, conflicting, io_flushed, respond, purge_if_needed, update_snapshot,
  schedule_policy_based_purge, update_purge_upto, state_machine, begin_receiving,
}
use async_raft.Replication.{try_purge_log}
use async_raft.LeaderHandler.{transfer_leader}
use async_raft.Following.{ensure_log_consecutive, append_entries, commit_entries}
use async_raft.Following.Install.{install_full_snapshot}
use async_raft.Engine.{Engine, Times, with_state, emit, leading, with_leading}
use async_raft.Engine.Voting.{
  VoteResult, granted, by_vote, update_vote, accept_vote, update_internal_server_state,
}

-- `Result<(), RejectAppendEntries>`.
pub data AppendResult : Type 0 where
  appended : AppendResult
  rejected_by_vote : Vote → AppendResult
  rejected_by_log : Option LogId → LogId → AppendResult

abbrev pub is_ok : AppendResult → Bool
is_ok appended = true
is_ok _ = false

module _ {N : Type 0} where
  abbrev pub append_answered :
      Engine N → Option LogId → List (Entry N) → Node N × Answer → Engine N × AppendResult
  append_answered e prev es (n, conflicting local expected) =
      (record e { node = n }, rejected_by_log local expected)
  append_answered e prev es (n, accepted) = (
    record e { node = append_entries (to_committed e.node.state.vote.data_of) n prev es },
    appended,
  )

  abbrev pub append_voted :
      Option LogId → List (Entry N) → Engine N × VoteResult → Engine N × AppendResult
  append_voted prev es (e, by_vote v) = (e, rejected_by_vote v)
  append_voted prev es (e, granted) = append_answered e prev es (ensure_log_consecutive e.node prev)

  -- `append_entries` of the engine; the leader's vote is that of the node once it is accepted.
  unfoldable pub append_to_log :
      Engine N → Times → Vote → Option LogId → List (Entry N) → Checked (Engine N × AppendResult)
  append_to_log e t vote prev es = do r ← update_vote e t vote; done (append_voted prev es r)

  -- The answer of `handle_append_entries`; an accepted one waits until the logs are flushed.
  unfoldable pub answer_append : Engine N → AppendResult → Checked (Engine N)
  answer_append e appended = do
    io ← unwrap e.node.state.io_state.io_progress.accepted
    done (emit e (respond (some (io_flushed io))))
  answer_append e _ = done (emit e (respond none))

  -- `handle_append_entries`; `answers` says whether there is a channel for the answer.
  unfoldable pub handle_append_entries :
      Engine N → Times → Vote → Option LogId → List (Entry N) → Bool → Checked (Engine N × Bool)
  handle_append_entries e t vote prev es answers = do
    r ← append_to_log e t vote prev es
    e' ← if answers then answer_append r.0 r.1 else done r.0
    done (e', is_ok r.1)

  abbrev pub handle_commit_entries : Engine N → Option LogId → Engine N
  handle_commit_entries e leader_committed = record e {
    node = commit_entries e.node leader_committed;
  }

  unfoldable pub install_accepted : ⦃q : Eq N⦄ → SnapshotMeta N → Engine N × Bool → Engine N
  install_accepted meta (e, false) = e
  install_accepted meta (e, true) =
      let (n, cond) = install_full_snapshot (to_committed e.node.state.vote.data_of) e.node meta in
      emit (record e { node = n }) (respond cond)

  unfoldable pub handle_install_full_snapshot :
      ⦃q : Eq N⦄ → Engine N → Times → Vote → SnapshotMeta N → Checked (Engine N)
  handle_install_full_snapshot e t vote meta = do
    r ← accept_vote e t vote
    done (install_accepted meta r)

  abbrev pub handle_begin_receiving_snapshot : Engine N → Engine N
  handle_begin_receiving_snapshot e = emit e (state_machine begin_receiving)

  -- `leader_step_down`, once the effective membership is committed.
  unfoldable pub leader_step_down : Engine N → ℕ → Checked (Engine N)
  leader_step_down e now =
      if log_id e.node.state.membership_state.effective ≤? e.node.state.committed
      then update_internal_server_state e now
      else done e

  -- `try_purge_log`: a leader does not purge what a replication reads.
  unfoldable pub purge_as : Engine N → Option Leader → Engine N
  purge_as e (some l) = with_leading e (try_purge_log (leading e l))
  purge_as e none = record e { node = purge_if_needed e.node }

  abbrev pub purge_unused : Engine N → Engine N
  purge_unused e = purge_as e e.leader

  unfoldable pub finish_building_snapshot : Engine N → SnapshotMeta N → Engine N
  finish_building_snapshot e meta =
      let s = e.node.state in
      let built = record s { io_state = set_building_snapshot s.io_state false } in
      let (n, updated) = update_snapshot (with_state e built).node meta in
      if updated
      then purge_unused (record e { node = schedule_policy_based_purge n })
      else record e { node = n }

  -- `trigger_purge_log`, by the last log id of the snapshot.
  unfoldable pub purge_inside : Engine N → ℕ → Option LogId → Checked (Engine N)
  purge_inside e index none = done e
  purge_inside e index (some last) =
      let s = e.node.state in
      let upto = if ltb last.index index then last.index else index in
      let purged : Checked (Engine N) = (do
        l ← unwrap (get_log_id s upto)
        done (purge_unused (record e { node = update_purge_upto e.node l }))) in
      if ltb index (next_index s.purge_upto) then done e else purged

  unfoldable pub trigger_purge_log : Engine N → ℕ → Checked (Engine N)
  trigger_purge_log e index = purge_inside e index e.node.state.snapshot_meta.last_log_id

  -- `trigger_transfer_leader`.
  unfoldable pub transfer_as : Engine N → ℕ → Option Leader → Engine N
  transfer_as e to none = e
  transfer_as e to (some l) = with_leading e (transfer_leader (leading e l) to)

  abbrev pub trigger_transfer_leader : Engine N → ℕ → Engine N
  trigger_transfer_leader e to = transfer_as e to e.leader
