-- ===== src/RaftCore/Stepped.antt =====
-- `handle_api_msg` and `handle_notification` of openraft/src/core/raft_core.rs take no vote and no commit
-- back.
use async_raft.Base.{true, Option, none, some, Ensures, Ensures-bind, Ensures-if}
use async_raft.Base.Order.{option_ord}
use async_raft.Vote.AdvOrder.{vote_ord}
use async_raft.LogId.{log_id_ord}
use async_raft.Membership.State.{Eq}
use async_raft.Handler.{trigger_snapshot}
use async_raft.Replication.{update_progress, update_leader_clock}
use async_raft.Engine.{Engine, blank}
use async_raft.Engine.Voting.{update_vote}
use async_raft.Engine.Electing.{handle_vote_req, handle_vote_resp}
use async_raft.Engine.Requests.{handle_append_entries}
use async_raft.Engine.Ahead.{Ahead-refl, Ahead-trans, Same-Ahead, update_vote-Ahead}
use async_raft.Engine.Followed.{trigger_snapshot-Same}
use async_raft.Engine.Led.{update_progress-Ahead, update_leader_clock-Ahead}
use async_raft.Engine.Elected.{Onward, handle_vote_req-Ahead, handle_vote_resp-Ahead}
use async_raft.Engine.Requested.{
  handle_append_entries-Ahead, finish_building_snapshot-Ahead, trigger_purge_log-Ahead,
  trigger_transfer_leader-Ahead, handle_install_full_snapshot-Ahead,
}
use async_raft.RaftCore.{
  Core, Moments, RaftMsg, append_entries, request_vote, begin_receiving_snapshot,
  install_full_snapshot, client_write, initialize_with, change_members, handle_transfer_leader,
  external_elect, external_heartbeat, external_snapshot, external_purge_log,
  external_transfer_leader, external_allow_next_revert, Notification, vote_response, higher_vote,
  tick, storage_error, local_io, replication_progress, heartbeat_progress, snapshot_built,
  snapshot_installed, applied_upto, heartbeat, write_entry, change_membership, candidate_matches,
  vote_matches, session_matches,
}
use async_raft.RaftCore.Dispatch.{
  commit_after, allow_revert, handle_api_msg, handle_notification, handle_tick, handle_local_io,
}
use async_raft.RaftCore.Handled.{
  heartbeat_as-Ahead, write_as-Ahead, write_membership-Ahead, handle_initialize-Ahead,
  handle_tick-Ahead, as_leader-Ahead, handle_local_io-Ahead, transfer_from-Ahead, allow_as-Ahead,
  elect_voter-Ahead, installed_io-Ahead, commit_after-Ahead,
}

module _ {N : Type 0} where
  abbrev pub Later : Core N → Option (Engine N) → Type 0
  Later c none = Unit
  Later c (some e) = Onward c.engine e

  pub handle_notification-Ahead :
      (c : Core N) (m : Moments) (n : Notification N)
      → Ensures (handle_notification c m n) (Later c)
  unfolding handle_notification
  handle_notification-Ahead c m storage_error = tt
  handle_notification-Ahead c m (vote_response target resp v) =
      Ensures-if (candidate_matches c.engine v) _ _ (Later c)
        (λ _.
          Ensures-bind (handle_vote_resp c.engine m.started m.times target resp) _ (Onward c.engine)
            (Later c) (handle_vote_resp-Ahead c.engine m.started m.times target resp) (λ e a. a))
        (λ _. Ahead-refl c.engine.node.state)
  handle_notification-Ahead c m (higher_vote higher v) =
      Ensures-if (vote_matches c.engine.leader v) _ _ (Later c)
        (λ _.
          Ensures-bind (update_vote c.engine m.times higher) _ (λ r. Onward c.engine r.0) (Later c)
            (update_vote-Ahead c.engine m.times higher) (λ r a. a))
        (λ _. Ahead-refl c.engine.node.state)
  handle_notification-Ahead c m tick =
      Ensures-bind (handle_tick c m) _ (Onward c.engine) (Later c) (handle_tick-Ahead c m)
        (λ e a. a)
  handle_notification-Ahead c m (local_io io) =
      Ensures-bind (handle_local_io c.engine io) _ (Onward c.engine) (Later c)
        (handle_local_io-Ahead c.engine io) (λ e a. a)
  handle_notification-Ahead c m (replication_progress session target result) =
      Ensures-if (session_matches c.engine session) _ _ (Later c)
        (λ _.
          Ensures-bind _ _ (Onward c.engine) (Later c)
            (as_leader-Ahead c.engine c.engine.leader (λ l. update_progress l target result)
              (λ l. update_progress-Ahead l target result))
            (λ e a. a))
        (λ _. Ahead-refl c.engine.node.state)
  handle_notification-Ahead c m (heartbeat_progress session sending_time target) =
      Ensures-if (session_matches c.engine session) _ _ (Later c)
        (λ _.
          Ensures-bind _ _ (Onward c.engine) (Later c)
            (as_leader-Ahead c.engine c.engine.leader
              (λ l. update_leader_clock l target sending_time)
              (λ l. update_leader_clock-Ahead l target sending_time))
            (λ e a. a))
        (λ _. Ahead-refl c.engine.node.state)
  handle_notification-Ahead c m (snapshot_built meta) = finish_building_snapshot-Ahead c.engine meta
  handle_notification-Ahead c m (snapshot_installed io meta) = installed_io-Ahead c.engine io meta
  handle_notification-Ahead c m (applied_upto last) = Ahead-refl c.engine.node.state

module _ {N : Type 0} ⦃q : Eq N⦄ where
  pub handle_api_msg-Ahead :
      (c : Core N) (m : Moments) (msg : RaftMsg N)
      → Ensures (handle_api_msg c m msg) (Onward c.engine)
  unfolding handle_api_msg write_entry change_membership heartbeat allow_revert
  handle_api_msg-Ahead c m (append_entries v prev es committed) =
      Ensures-bind (handle_append_entries c.engine m.times v prev es true) _
        (λ r. Onward c.engine r.0) (Onward c.engine)
        (handle_append_entries-Ahead c.engine m.times v prev es true)
        (λ r a.
          Ahead-trans c.engine.node.state r.0.node.state (commit_after r committed).node.state a
            (commit_after-Ahead r committed))
  handle_api_msg-Ahead c m (request_vote req) =
      Ensures-bind (handle_vote_req c.engine m.now m.times req) _ (λ r. Onward c.engine r.0)
        (Onward c.engine) (handle_vote_req-Ahead c.engine m.now m.times req) (λ r a. a)
  handle_api_msg-Ahead c m begin_receiving_snapshot = Ahead-refl c.engine.node.state
  handle_api_msg-Ahead c m (install_full_snapshot v meta) =
      handle_install_full_snapshot-Ahead c.engine m.times v meta
  handle_api_msg-Ahead c m client_write = write_as-Ahead c.engine blank c.engine.leader
  handle_api_msg-Ahead c m (initialize_with nodes) = handle_initialize-Ahead c.engine m nodes
  handle_api_msg-Ahead c m (change_members change retain) = write_membership-Ahead c.engine _
  handle_api_msg-Ahead c m (handle_transfer_leader v to) = transfer_from-Ahead c.engine m v to
  handle_api_msg-Ahead c m external_elect = elect_voter-Ahead c.engine m
  handle_api_msg-Ahead c m external_heartbeat = heartbeat_as-Ahead c.engine c.engine.leader
  handle_api_msg-Ahead c m external_snapshot =
      Same-Ahead c.engine.node.state (trigger_snapshot c.engine.node).0.state
        (trigger_snapshot-Same c.engine.node)
  handle_api_msg-Ahead c m (external_purge_log upto) = trigger_purge_log-Ahead c.engine upto
  handle_api_msg-Ahead c m (external_transfer_leader to) = trigger_transfer_leader-Ahead c.engine to
  handle_api_msg-Ahead c m (external_allow_next_revert to allow) =
      allow_as-Ahead c.engine to allow c.engine.leader
