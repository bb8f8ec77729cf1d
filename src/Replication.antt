-- ===== src/Replication.antt =====
-- openraft/src/engine/handler/replication_handler: the leader's view of the logs of the other nodes,
-- what it commits and what it sends. Debug assertions are no part of the model; `unwrap`, `expect` and
-- `unreachable!` are panics. Children: proofs.
pub mod Commit
pub mod Kept
pub mod Quorum
pub mod Sends
use async_raft.Base.{
  ℕ, Bool, true, false, ◌||◌, List, [], ◌∷◌, Option, none, some, if◌then◌else◌, ◌==◌, Checked, done,
  panicked, ◌>>=◌, unwrap,
}
use async_raft.Base.Order.{◌≤?◌, option_ord, nat_ord}
use async_raft.LogId.{LogId, log_id_ord, next_index, is_same_leader}
use async_raft.Membership.{Membership, learner_ids}
use async_raft.Membership.State.{new_effective}
use async_raft.Membership.State
use async_raft.Progress.{
  VecProgress, Found, found, not_found, update, increase_to, try_get, write_mut, upgrade_quorum_set,
}
use async_raft.ProgressEntry.{
  ProgressEntry, LogState, Inflight, nothing, logs_of, snapshot_of, logs, empty, next_send,
  is_log_range_inflight,
}
use async_raft.ProgressEntry
use async_raft.RaftState.{
  RaftState, last_log_id, get_log_id, last_purged_log_id, update_committed, effective_membership,
}
use async_raft.Handler.{
  Node, push, purge_if_needed, should_snapshot, trigger_snapshot, replicate_committed,
  save_committed, apply_of, rebuild_replication_streams, replicate,
}
use async_raft.Leader.{Leader, matching_of, clock_of}

-- What the handlers of a leader work on: the node with its output, and the leader.
pub record Leading (N : Type 0) : Type 0 where
  pub node : Node N
  pub lead : Leader

-- The result of a replication: what matches, what conflicts, or an error of the network.
pub data ReplicationResult : Type 0 where
  matching : Option LogId → ReplicationResult
  conflicting_at : LogId → ReplicationResult
  failed : ReplicationResult

-- A node that is not in the progress.
pub data NodeNotFound : Type 0 where
  node_not_found : ℕ → NodeNotFound

-- The inflight data of all nodes but one is forgotten; those nodes with their entries.
unfoldable pub reset_inflight : ℕ → List (ℕ × ProgressEntry) → List (ℕ × ProgressEntry)
reset_inflight me [] = []
reset_inflight me ((id, e) ∷ xs) =
    (if id == me then (id, e) else (id, record e { inflight = nothing })) ∷ reset_inflight me xs

unfoldable pub targets_of : ℕ → List (ℕ × ProgressEntry) → List (ℕ × ProgressEntry)
targets_of me [] = []
targets_of me ((id, e) ∷ xs) =
    let rest = targets_of me xs in if id == me then rest else (id, e) ∷ rest

-- The loop of `try_purge_log`: a replication is sending logs that are to be purged.
unfoldable pub in_use : LogId → List (ℕ × ProgressEntry) → Bool
in_use upto [] = false
in_use upto ((id, e) ∷ xs) = is_log_range_inflight e upto || in_use upto xs

module _ {N : Type 0} where
  -- `RaftState` as a `LogStateReader`.
  abbrev pub log_state : RaftState N → LogState
  log_state s = record {
    last_log_id = last_log_id s;
    purge_upto = s.purge_upto;
    snapshot_last_log_id = s.snapshot_meta.last_log_id;
    get_log_id = get_log_id s;
  }

  unfoldable pub send_to_target : Node N → ℕ → Inflight → Checked (Node N)
  send_to_target n target nothing = panicked
  send_to_target n target (logs_of r) = done (push n (replicate target (logs_of r)))
  send_to_target n target (snapshot_of l) = done (push n (replicate target (snapshot_of l)))

  -- The loop of `initiate_replication` over the elements of the progress.
  unfoldable pub send_each :
      Node N → List (ℕ × ProgressEntry) → Checked (Node N × List (ℕ × ProgressEntry))
  send_each n [] = done (n, [])
  send_each n ((id, e) ∷ xs) =
      let (e', ready) = next_send e (log_state n.state) n.config.max_payload_entries in
      let unsent : ProgressEntry → Checked (Node N × List (ℕ × ProgressEntry)) =
        λ x. (do (n', xs') ← send_each n xs; done (n', (id, x) ∷ xs')) in
      let sent : Checked (Node N × List (ℕ × ProgressEntry)) = (do
        n' ← send_to_target n id e'.inflight
        (n'', xs') ← send_each n' xs
        done (n'', (id, e') ∷ xs')) in
      if id == n.config.id then unsent e else if ready then sent else unsent e'

  abbrev pub with_vector : Leading N → List (ℕ × ProgressEntry) → Leading N
  with_vector l xs = record l {
    lead = record l.lead { progress = record l.lead.progress { vector = xs } };
  }

  unfoldable pub initiate_replication : Leading N → Checked (Leading N)
  initiate_replication l = do
    (n, xs) ← send_each l.node l.lead.progress.vector
    done (record (with_vector l xs) { node = n })

  unfoldable pub rebuild_streams : Leading N → Leading N
  rebuild_streams l =
      let me = l.node.config.id in
      let xs = reset_inflight me l.lead.progress.vector in
      record (with_vector l xs) {
        node = push l.node (rebuild_replication_streams (targets_of me xs));
      }

  unfoldable pub rebuild_progresses : Leading N → Leading N
  rebuild_progresses l =
      let m = effective_membership l.node.state in
      let end = next_index (last_log_id l.node.state) in
      record l {
        lead = record l.lead {
          progress =
              upgrade_quorum_set matching_of l.lead.progress m.configs (learner_ids m) (empty end);
          clock_progress =
              upgrade_quorum_set clock_of l.lead.clock_progress m.configs (learner_ids m) none;
        };
      }

  unfoldable pub append_membership : Leading N → LogId → Membership N → Checked (Leading N)
  append_membership l log_id m =
      let state' = record l.node.state {
        membership_state =
            State.append l.node.state.membership_state (new_effective (some log_id) m);
      } in
      initiate_replication (
        rebuild_streams (rebuild_progresses (record l { node = record l.node { state = state' } })))

  -- `update_leader_clock`, of a node in the progress.
  abbrev pub with_clock :
      Leading N → VecProgress (Option ℕ) (Option ℕ) × Found (Option ℕ) → Checked (Leading N)
  with_clock l (p, found granted) = done (record l { lead = record l.lead { clock_progress = p } })
  with_clock l (p, not_found granted) = panicked

  unfoldable pub update_leader_clock : Leading N → ℕ → ℕ → Checked (Leading N)
  update_leader_clock l id t = with_clock l (increase_to clock_of l.lead.clock_progress id (some t))

  -- The commands once the committed log id has changed.
  unfoldable pub published : Node N → Option LogId → LogId → Node N
  published n prev c =
      let m =
        push (push (push n (replicate_committed (some c))) (save_committed c)) (apply_of prev c) in
      if should_snapshot m then (trigger_snapshot m).0 else m

  unfoldable pub publish_committed : Node N → Option LogId → Checked (Node N)
  publish_committed n prev = do c ← unwrap n.state.committed; done (published n prev c)

  -- Whether the leader of the vote proposed the log; no log at all passes.
  abbrev pub own : RaftState N → Option LogId → Bool
  own s none = true
  own s (some c) = is_same_leader s.vote.data_of c.leader_id

  -- What follows `RaftState::update_committed`.
  abbrev pub after_commit : Node N → RaftState N × Option (Option LogId) → Checked (Node N)
  after_commit n (s, none) = done (record n { state = s })
  after_commit n (s, some prev) = publish_committed (record n { state = s }) prev

  unfoldable pub try_commit_quorum_accepted : Node N → Option LogId → Checked (Node N)
  try_commit_quorum_accepted n granted =
      if own n.state granted then after_commit n (update_committed n.state granted) else done n

  -- `update_with` of the progress with an entry that may panic, then the commit.
  unfoldable pub update_matching : Leading N → ℕ → Option LogId → Checked (Leading N)
  update_matching l id log_id = do
    e ← unwrap (try_get l.lead.progress.vector id)
    e' ← ProgressEntry.update_matching e log_id
    let progress' = (update matching_of l.lead.progress id e').0
    n ← try_commit_quorum_accepted l.node progress'.granted
    done (record { node = n; lead = record l.lead { progress = progress' } })

  unfoldable pub update_conflicting : Leading N → ℕ → LogId → Checked (Leading N)
  update_conflicting l id conflict = do
    e ← unwrap (try_get l.lead.progress.vector id)
    e' ← ProgressEntry.update_conflicting l.node.config.allow_log_reversion e conflict.index
    done (with_vector l (write_mut l.lead.progress.vector id e'))

  -- `allow_next_revert`: `Err` where the node is not found.
  unfoldable pub allow_next_revert : Leading N → ℕ → Bool → Leading N × Option NodeNotFound
  allow_next_revert l id allow = elim (try_get l.lead.progress.vector id) [
    | none ↦ (l, some (node_not_found id))
    | some e ↦ (
      with_vector l
          (write_mut l.lead.progress.vector id (record e { allow_log_reversion = allow })),
      none,
    )
  ]

  -- A purge that is pending is done if no replication uses its logs.
  unfoldable pub try_purge_log : Leading N → Leading N
  try_purge_log l = elim l.node.state.purge_upto [
    | none ↦ l
    | some upto ↦
        if some upto ≤? last_purged_log_id l.node.state
        then l
        else if in_use upto l.lead.progress.vector
        then l
        else record l { node = purge_if_needed l.node }
  ]

  -- `update_progress`: what a replication answers.
  unfoldable pub apply_result : Leading N → ℕ → ReplicationResult → Checked (Leading N)
  apply_result l id (matching m) = update_matching l id m
  apply_result l id (conflicting_at c) = update_conflicting l id c
  apply_result l id failed = do
    e ← unwrap (try_get l.lead.progress.vector id)
    done (with_vector l (write_mut l.lead.progress.vector id (record e { inflight = nothing })))

  unfoldable pub update_progress : Leading N → ℕ → ReplicationResult → Checked (Leading N)
  update_progress l id result = do l' ← apply_result l id result; done (try_purge_log l')

  -- `update_local_progress`, by the entry of the node itself; a leader may be no member any more.
  unfoldable pub match_own : Leading N → LogId → Option ProgressEntry → Checked (Leading N)
  match_own l upto none = done l
  match_own l upto (some e) =
      let me = l.node.config.id in
      let e' = record e { inflight = logs none (some upto) } in
      if some upto ≤? e.matching
      then done l
      else update_matching (with_vector l (write_mut l.lead.progress.vector me e')) me (some upto)

  unfoldable pub update_local_progress : Leading N → Option LogId → Checked (Leading N)
  update_local_progress l none = done l
  update_local_progress l (some upto) =
      match_own l upto (try_get l.lead.progress.vector l.node.config.id)
