-- ===== src/Following/Install.antt =====
-- openraft/src/engine/handler/following_handler/mod.rs: installing a snapshot.
use async_raft.Base.{Option, none, some, if◌then◌else◌}
use async_raft.Base.Order.{◌≤?◌, ◌=?◌, option_ord, nat_ord}
use async_raft.Vote.{CommittedVote}
use async_raft.LogId.{LogId, log_id_ord, next_index}
use async_raft.Membership.State.{
  MembershipState, StoredMembership, EffectiveMembership, Eq, new_from_stored,
}
use async_raft.Membership.State
use async_raft.IoState.{io_id_ord, new_log_io}
use async_raft.RaftState.{SnapshotMeta, accept_io, get_log_id}
use async_raft.Handler.{
  Node, Condition, push, update_server_state, purge_if_needed, update_snapshot, install_of,
  state_machine, of_snapshot,
}
use async_raft.Following.{truncate_logs}

module _ {N : Type 0} where
  -- A log that conflicts with the last one of the snapshot is truncated after what is committed.
  unfoldable pub matching_log : Node N → LogId → Node N
  unfolding truncate_logs get_log_id
  matching_log n last = elim (get_log_id n.state last.index) [
    | none ↦ n
    | some local ↦ if local =? last then n else truncate_logs n (next_index n.state.committed)
  ]

module _ {N : Type 0} ⦃q : Eq N⦄ where
  unfoldable pub update_committed_membership : Node N → EffectiveMembership N → Node N
  unfolding update_server_state
  update_committed_membership n m = update_server_state (record n {
    state = record n.state {
      membership_state = (State.update_committed n.state.membership_state m).0;
    };
  })

  -- The body of `install_full_snapshot` for a snapshot that is newer than what is committed and than
  -- the last snapshot; `installing` is what precedes the purge.
  unfoldable pub installing : CommittedVote → Node N → SnapshotMeta N → LogId → Node N
  unfolding update_committed_membership accept_io
  installing v n meta last =
      let io = new_log_io v (some last) in
      let committed = record n {
        state = record (accept_io n.state io).0 { committed = some last };
      } in
      let updated =
        push (update_committed_membership committed (new_from_stored meta.last_membership))
          (state_machine (install_of meta io)) in
      record updated { state = record updated.state { purge_upto = some last } }

  unfoldable pub install_newer : CommittedVote → Node N → SnapshotMeta N → LogId → Node N
  unfolding installing purge_if_needed matching_log
  install_newer v n meta last = purge_if_needed (installing v (matching_log n last) meta last)

  -- `install_full_snapshot`, by the last log id of the snapshot.
  unfoldable pub install_at :
      CommittedVote → Node N → SnapshotMeta N → Option LogId → Node N × Option Condition
  install_at v n meta none = (n, none)
  install_at v n meta (some last) =
      let (n', updated) = update_snapshot n meta in
      if some last ≤? n.state.committed
      then (n, none)
      else if updated
      then (install_newer v n' meta last, some (of_snapshot (some last)))
      else (n', none)

  unfoldable pub install_full_snapshot :
      CommittedVote → Node N → SnapshotMeta N → Node N × Option Condition
  unfolding install_at
  install_full_snapshot v n meta = install_at v n meta meta.last_log_id
