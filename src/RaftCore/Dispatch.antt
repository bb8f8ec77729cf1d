-- ===== src/RaftCore/Dispatch.antt =====
-- openraft/src/core/raft_core.rs: `handle_api_msg` and `handle_notification`.
use async_raft.Base.{
  ℕ, ◌+◌, Bool, true, Option, none, some, if◌then◌else◌, ◌==◌, leb, Checked, done, panicked, ◌>>=◌,
}
use async_raft.Base.Order.{◌≤?◌, ◌=?◌, option_ord}
use async_raft.Vote.{Vote}
use async_raft.Vote.AdvOrder.{vote_ord}
use async_raft.LogId.{LogId, log_id_ord}
use async_raft.Membership.{is_voter}
use async_raft.Membership.State.{Eq, log_id}
use async_raft.IoState.{new_io, IoId, vote_io, log_io, update_applied, update_snapshot}
use async_raft.Leased.{disable_lease}
use async_raft.Leader.{Leader}
use async_raft.RaftState.{SnapshotMeta, effective_membership}
use async_raft.Handler.{push, respond, io_flushed, trigger_snapshot}
use async_raft.Replication.{
  Leading, allow_next_revert, update_progress, update_leader_clock, update_local_progress,
}
use async_raft.Engine.{Engine, with_state, leading, with_leading, blank}
use async_raft.Engine.Voting.{update_vote}
use async_raft.Engine.Electing.{elect, handle_vote_req, handle_vote_resp}
use async_raft.Engine.Requests.{
  handle_append_entries, handle_commit_entries, handle_install_full_snapshot,
  handle_begin_receiving_snapshot, leader_step_down, finish_building_snapshot, trigger_purge_log,
  trigger_transfer_leader,
}
use async_raft.RaftCore.{
  Core, Moments, RaftMsg, append_entries, request_vote, begin_receiving_snapshot,
  install_full_snapshot, client_write, initialize_with, change_members, handle_transfer_leader,
  external_elect, external_heartbeat, external_snapshot, external_purge_log,
  external_transfer_leader, external_allow_next_revert, Notification, vote_response, higher_vote,
  tick, storage_error, local_io, replication_progress, heartbeat_progress, snapshot_built,
  snapshot_installed, applied_upto, map_io, flush_io, heartbeat, write_entry, change_membership,
  handle_initialize, candidate_matches, vote_matches, session_matches, handle_tick_election,
}

module _ {N : Type 0} where
  -- `handle_append_entries_request`: a commit follows if the entries are accepted.
  unfoldable pub commit_after : Engine N × Bool → Option LogId → Engine N
  commit_after (e, accepted) committed = if accepted then handle_commit_entries e committed else e

  -- What a leader does, if there is one; the handler of replications is unreachable without it.
  abbrev pub as_leader :
      Engine N → Option Leader → (Leading N → Checked (Leading N)) → Checked (Engine N)
  as_leader e none f = panicked
  as_leader e (some l) f = do l' ← f (leading e l); done (with_leading e l')

  -- The part of `Tick` for the heartbeats.
  abbrev pub next_heartbeat : Engine N → ℕ → Option Leader → Engine N
  next_heartbeat e at none = e
  next_heartbeat e at (some l) = record e { leader = some (record l { next_heartbeat = at }) }

  abbrev pub heartbeat_at : Core N → Engine N → Moments → Option Leader → Engine N
  heartbeat_at c e m none = e
  heartbeat_at c e m (some l) =
      let sent = if c.settings.enable_heartbeat then heartbeat e else e in
      if leb l.next_heartbeat m.now
      then next_heartbeat sent (m.after + c.settings.heartbeat_interval) sent.leader
      else e

  unfoldable pub tick_heartbeat : Core N → Engine N → Moments → Engine N
  tick_heartbeat c e m = heartbeat_at c e m e.leader

  -- A leader steps down once the membership in effect is applied.
  unfoldable pub step_down_applied : Engine N → ℕ → Checked (Engine N)
  step_down_applied e now =
      let s = e.node.state in
      if log_id s.membership_state.effective ≤? s.io_state.applied
      then leader_step_down e now
      else done e

  unfoldable pub handle_tick : Core N → Moments → Checked (Engine N)
  handle_tick c m = do
    e ← handle_tick_election c m
    step_down_applied (tick_heartbeat c e m) m.times.led

  -- `LocalIO`: the logs that are flushed count for the leader that wrote them.
  unfoldable pub handle_local_io : Engine N → IoId → Checked (Engine N)
  handle_local_io e (vote_io v) = done (map_io e (flush_io (vote_io v)))
  handle_local_io e (log_io l) =
      let flushed = map_io e (flush_io (log_io l)) in
      if vote_matches e.leader l.committed_vote
      then as_leader flushed e.leader (λ x. update_local_progress x l.log_id)
      else done flushed

  -- A snapshot that the state machine has installed.
  abbrev pub installed_io : Engine N → IoId → Option (SnapshotMeta N) → Engine N
  installed_io e io none = map_io e (flush_io io)
  installed_io e io (some meta) =
      map_io (map_io e (flush_io io))
        (λ s. update_snapshot (update_applied s meta.last_log_id) meta.last_log_id)

  -- A request to transfer the leadership, from the leader of this node.
  unfoldable pub transfer_from : Engine N → Moments → Vote → ℕ → Checked (Engine N)
  transfer_from e m v to =
      let s = e.node.state in
      let e' = with_state e (record s { vote = disable_lease s.vote }) in
      if s.vote.data_of =? v
      then if e.node.config.id == to then elect e' m.started m.times else done e'
      else done e

  abbrev pub allow_as : Engine N → ℕ → Bool → Option Leader → Engine N
  allow_as e to allow none = e
  allow_as e to allow (some l) = with_leading e (allow_next_revert (leading e l) to allow).0

  unfoldable pub allow_revert : Engine N → ℕ → Bool → Engine N
  allow_revert e to allow = allow_as e to allow e.leader

  unfoldable pub elect_voter : Engine N → Moments → Checked (Engine N)
  elect_voter e m =
      if is_voter (effective_membership e.node.state) e.node.config.id
      then elect e m.started m.times
      else done e

  -- The answer to a ballot waits for the vote to be flushed.
  abbrev pub answer_ballot : Engine N → Engine N
  answer_ballot e = record e {
    node = push e.node (respond (some (io_flushed (new_io e.node.state.vote.data_of))));
  }

module _ {N : Type 0} ⦃q : Eq N⦄ where
  -- `handle_api_msg`; entries come with the log id that their leader has committed.
  unfoldable pub handle_api_msg : Core N → Moments → RaftMsg N → Checked (Engine N)
  handle_api_msg c m (append_entries v prev es committed) = do
    r ← handle_append_entries c.engine m.times v prev es true
    done (commit_after r committed)
  handle_api_msg c m (request_vote req) = do
    r ← handle_vote_req c.engine m.now m.times req
    done (answer_ballot r.0)
  handle_api_msg c m begin_receiving_snapshot = done (handle_begin_receiving_snapshot c.engine)
  handle_api_msg c m (install_full_snapshot v meta) =
      handle_install_full_snapshot c.engine m.times v meta
  handle_api_msg c m client_write = write_entry c.engine blank
  handle_api_msg c m (initialize_with nodes) = handle_initialize c.engine m nodes
  handle_api_msg c m (change_members change retain) = change_membership c.engine change retain
  handle_api_msg c m (handle_transfer_leader v to) = transfer_from c.engine m v to
  handle_api_msg c m external_elect = elect_voter c.engine m
  handle_api_msg c m external_heartbeat = done (heartbeat c.engine)
  handle_api_msg c m external_snapshot =
      done (record c.engine { node = (trigger_snapshot c.engine.node).0 })
  handle_api_msg c m (external_purge_log upto) = trigger_purge_log c.engine upto
  handle_api_msg c m (external_transfer_leader to) = done (trigger_transfer_leader c.engine to)
  handle_api_msg c m (external_allow_next_revert to allow) = done (allow_revert c.engine to allow)

module _ {N : Type 0} where
  -- `handle_notification`; none is a fatal error of the storage.
  unfoldable pub handle_notification :
      Core N → Moments → Notification N → Checked (Option (Engine N))
  handle_notification c m storage_error = done none
  handle_notification c m (vote_response target resp v) =
      let counted : Checked (Option (Engine N)) = (do
        e ← handle_vote_resp c.engine m.started m.times target resp
        done (some e)) in
      if candidate_matches c.engine v then counted else done (some c.engine)
  handle_notification c m (higher_vote higher v) =
      let updated : Checked (Option (Engine N)) = (do
        r ← update_vote c.engine m.times higher
        done (some r.0)) in
      if vote_matches c.engine.leader v then updated else done (some c.engine)
  handle_notification c m tick = do e ← handle_tick c m; done (some e)
  handle_notification c m (local_io io) = do e ← handle_local_io c.engine io; done (some e)
  handle_notification c m (replication_progress session target result) =
      let progressed : Checked (Option (Engine N)) = (do
        e ← as_leader c.engine c.engine.leader (λ l. update_progress l target result)
        done (some e)) in
      if session_matches c.engine session then progressed else done (some c.engine)
  handle_notification c m (heartbeat_progress session sending_time target) =
      let progressed : Checked (Option (Engine N)) = (do
        e ← as_leader c.engine c.engine.leader (λ l. update_leader_clock l target sending_time)
        done (some e)) in
      if session_matches c.engine session then progressed else done (some c.engine)
  handle_notification c m (snapshot_built meta) = done (
      some
        (map_io (finish_building_snapshot c.engine meta) (λ s. update_snapshot s meta.last_log_id)))
  handle_notification c m (snapshot_installed io meta) = done (some (installed_io c.engine io meta))
  handle_notification c m (applied_upto last) =
      done (some (map_io c.engine (λ s. update_applied s (some last))))
