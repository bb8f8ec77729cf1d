-- ===== src/Following.antt =====
-- openraft/src/engine/handler/following_handler: what a follower does with the entries and the commits
-- of its leader. Children: installing a snapshot, and proofs.
pub mod Install
pub mod Append
pub mod LogMatching
pub mod CommitBound
use async_raft.Base.{
  ℕ, zero, suc, ◌+◌, ◌-◌, Bool, true, false, not, ◌&&◌, ◌||◌, List, [], ◌∷◌, ◌++◌, map, Option,
  none, some, if◌then◌else◌, ltb, leb, ◌==◌, add64, head?, get_last?, length, get_elem?, drop,
}
use async_raft.Base.Order.{◌≤?◌, ◌<?◌, ◌=?◌, option_ord, nat_ord, max_of, min_of}
use async_raft.Vote.{Vote, CommittedVote}
use async_raft.LogId.{LogId, log_id_ord, next_index}
use async_raft.LogIdList.{extend, truncate, ref_at}
use async_raft.LogIdList
use async_raft.Membership.{Membership}
use async_raft.Membership.State.{
  MembershipState, StoredMembership, EffectiveMembership, Eq, new_from_stored,
}
use async_raft.Membership.State
use async_raft.IoState.{IoId, io_id_ord, new_log_io, set_building_snapshot, last_log_id}
use async_raft.ProgressEntry.{Inflight, ProgressEntry}
use async_raft.RaftState.{
  RaftState, SnapshotMeta, accept_io, first_conflicting_index, get_log_id, has_log_id,
  update_committed, purge_log, last_purged_log_id, calc_server_state, with_index,
}
use async_raft.Handler.{
  Entry, Condition, SmCommand, Command, Answer, Config, Node, push, log_ids_of, update_server_state,
  purge_if_needed, calc_purge_upto, schedule_policy_based_purge, trigger_snapshot, update_snapshot,
  should_snapshot, io_flushed, log_flushed, applied_to, of_snapshot, build_snapshot, install_of,
  update_io_progress, append_input_entries, replicate_committed, broadcast_heartbeat,
  save_committed, apply_of, replicate, broadcast_transfer_leader, rebuild_replication_streams,
  save_vote, send_vote, purge_of, truncate_log, state_machine, respond, accepted, conflicting,
}

module _ {N : Type 0} where
  -- `truncate_logs`.
  unfoldable pub truncate_logs : Node N → ℕ → Node N
  unfolding get_log_id truncate State.truncate update_server_state
  truncate_logs n since = elim (get_log_id n.state since) [
    | none ↦ n
    | some since_log_id ↦
        let (membership', changed) = State.truncate n.state.membership_state since in
        let state' = record n.state {
          log_ids = truncate n.state.log_ids since;
          membership_state = membership';
        } in
        let n' = push (record n { state = state' }) (truncate_log since_log_id) in
        elim changed [ none ↦ n' | some m ↦ update_server_state n' ]
  ]

  unfoldable pub ensure_log_consecutive : Node N → Option LogId → Node N × Answer
  unfolding truncate_logs has_log_id
  ensure_log_consecutive n none = (n, accepted)
  ensure_log_consecutive n (some prev) =
      if has_log_id n.state prev
      then (n, accepted)
      else (truncate_logs n prev.index, conflicting (get_log_id n.state prev.index) prev)

  -- `last_two_memberships`: the last two, in the order of the log.
  unfoldable pub last_two_memberships : List (Entry N) → List (StoredMembership N)
  last_two_memberships [] = []
  last_two_memberships (e ∷ es) =
      let rest = last_two_memberships es in
      elim e.membership [
        | none ↦ rest
        | some m ↦
            if ltb (length rest) 2
            then record { log_id = some e.log_id; membership = m } ∷ rest
            else rest
      ]

  unfoldable pub append_all : MembershipState N → List (StoredMembership N) → MembershipState N
  unfolding new_from_stored
  append_all s [] = s
  append_all s (m ∷ ms) = append_all (State.append s (new_from_stored m)) ms

  unfoldable pub append_membership : Node N → List (Entry N) → Node N
  unfolding last_two_memberships append_all update_server_state
  append_membership n es = elim (last_two_memberships es) [
    | [] ↦ n
    | m ∷ ms ↦ update_server_state (record n {
      state = record n.state { membership_state = append_all n.state.membership_state (m ∷ ms) };
    })
  ]

  unfoldable pub do_append_entries : CommittedVote → Node N → List (Entry N) → Node N
  unfolding extend append_membership
  do_append_entries v n es =
      let extended = record n {
        state = record n.state { log_ids = extend n.state.log_ids (log_ids_of es) };
      } in
      push (append_membership extended es) (append_input_entries v es)

  -- The end of `append_entries` when the node has all entries.
  unfoldable pub update_progress : Node N → IoId → Option IoId → Node N
  update_progress n to_submit prev_accepted =
      if some to_submit ≤? prev_accepted
      then n
      else push n (
          update_io_progress (elim prev_accepted [ none ↦ none | some x ↦ some (io_flushed x) ])
            to_submit)

  -- The rest of `append_entries`, by the first entry that the node does not have.
  unfoldable pub append_since :
      CommittedVote → Node N → IoId → Option IoId → List (Entry N) → ℕ → Option (Entry N) → Node N
  unfolding do_append_entries truncate_logs update_progress
  append_since v n io prev_accepted es since (some e) =
      do_append_entries v (truncate_logs n e.log_id.index) (drop since es)
  append_since v n io prev_accepted es since none = update_progress n io prev_accepted

  unfoldable pub append_entries : CommittedVote → Node N → Option LogId → List (Entry N) → Node N
  unfolding append_since first_conflicting_index accept_io
  append_entries v n prev_log_id es =
      let last_log_id = max_of prev_log_id (get_last? (log_ids_of es)) in
      let io = new_log_io v last_log_id in
      let (state', prev_accepted) = accept_io n.state io in
      let since = first_conflicting_index state' (log_ids_of es) in
      append_since v (record n { state = state' }) io prev_accepted es since (get_elem? es since)

  -- The commands of `commit_entries` once the committed log id has changed.
  unfoldable pub save_and_apply : Node N → Option (Option LogId) → Option LogId → Node N
  unfolding should_snapshot trigger_snapshot
  save_and_apply n (some prev) (some c) =
      let m = push (push n (save_committed c)) (apply_of prev c) in
      if should_snapshot m then (trigger_snapshot m).0 else m
  save_and_apply n _ _ = n

  unfoldable pub commit_entries : Node N → Option LogId → Node N
  unfolding update_committed save_and_apply
  commit_entries n leader_committed =
      let accepted : Option LogId = elim n.state.io_state.io_progress.accepted [
        | none ↦ none
        | some x ↦ last_log_id x
      ] in
      let committed = min_of accepted leader_committed in
      let (state', changed) = update_committed n.state committed in
      save_and_apply (record n { state = state' }) changed committed
