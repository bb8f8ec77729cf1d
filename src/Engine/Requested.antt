-- ===== src/Engine/Requested.antt =====
-- Requests of a leader, snapshots and purges take no vote and no commit back:
-- openraft/src/engine/engine_impl.rs.
use async_raft.Base.{
  ℕ, Bool, true, false, List, Option, none, some, if◌then◌else◌, ltb, done, unwrap, Ensures,
  Ensures-bind, Ensures-any, Ensures-map, Ensures-if, if-cases,
}
use async_raft.Base.Order.{◌≤?◌, option_ord}
use async_raft.Vote.{Vote, to_committed}
use async_raft.LogId.{LogId, log_id_ord, next_index}
use async_raft.Membership.State.{Eq, log_id}
use async_raft.IoState.{set_building_snapshot}
use async_raft.Leader.{Leader}
use async_raft.RaftState.{SnapshotMeta, get_log_id}
use async_raft.Handler.{
  Node, Entry, Answer, accepted, conflicting, purge_if_needed, update_snapshot,
  schedule_policy_based_purge, update_purge_upto,
}
use async_raft.Following.{ensure_log_consecutive, append_entries}
use async_raft.Engine.{Engine, Times, with_state, leading}
use async_raft.Engine.Voting.{
  VoteResult, granted, by_vote, update_vote, accept_vote, answer_vote, update_internal_server_state,
}
use async_raft.Engine.Requests.{
  AppendResult, appended, rejected_by_vote, rejected_by_log, append_answered, append_voted,
  append_to_log, answer_append, handle_append_entries, install_accepted,
  handle_install_full_snapshot, leader_step_down, purge_as, purge_unused, finish_building_snapshot,
  purge_inside, transfer_as, trigger_purge_log, trigger_transfer_leader,
}
use async_raft.Engine.Same.{Same, Same-trans, update_internal_server_state-Same}
use async_raft.Engine.Ahead.{Ahead-refl, Ahead-trans, Same-Ahead, update_vote-Ahead}
use async_raft.Engine.Followed.{
  ensure_log_consecutive-Same, append_entries-Same, install_full_snapshot-Ahead, schedule-Same,
  update_snapshot-Same, purge_if_needed-Same,
}
use async_raft.Engine.Led.{try_purge_log-Ahead, transfer_leader-Ahead}
use async_raft.Engine.Elected.{Onward}

module _ {N : Type 0} where
  append_answered-Ahead :
      (e : Engine N) (prev : Option LogId) (es : List (Entry N)) (r : Node N × Answer)
      → Same e.node.state r.0.state
      → Onward e (append_answered e prev es r).0
  append_answered-Ahead e prev es (n, conflicting local expected) s =
      Same-Ahead e.node.state n.state s
  append_answered-Ahead e prev es (n, accepted) s =
      let v = to_committed e.node.state.vote.data_of in
      Same-Ahead e.node.state (append_entries v n prev es).state (
        Same-trans e.node.state n.state (append_entries v n prev es).state s
          (append_entries-Same v n prev es))

  append_voted-Ahead :
      (prev : Option LogId) (es : List (Entry N)) (r : Engine N × VoteResult)
      → Onward r.0 (append_voted prev es r).0
  append_voted-Ahead prev es (e, by_vote v) = Ahead-refl e.node.state
  append_voted-Ahead prev es (e, granted) =
      append_answered-Ahead e prev es (ensure_log_consecutive e.node prev)
        (ensure_log_consecutive-Same e.node prev)

  append_to_log-Ahead :
      (e : Engine N) (t : Times) (v : Vote) (prev : Option LogId) (es : List (Entry N))
      → Ensures (append_to_log e t v prev es) (λ r. Onward e r.0)
  unfolding append_to_log
  append_to_log-Ahead e t v prev es =
      Ensures-bind (update_vote e t v) _ (λ r. Onward e r.0) (λ r. Onward e r.0)
        (update_vote-Ahead e t v)
        (λ r a.
          Ahead-trans e.node.state r.0.node.state (append_voted prev es r).0.node.state a
            (append_voted-Ahead prev es r))

  answer_append-Ahead : (e : Engine N) (r : AppendResult) → Ensures (answer_append e r) (Onward e)
  unfolding answer_append
  answer_append-Ahead e appended =
      Ensures-any (unwrap e.node.state.io_state.io_progress.accepted) _ (Onward e)
        (λ io. Ahead-refl e.node.state)
  answer_append-Ahead e (rejected_by_vote v) = Ahead-refl e.node.state
  answer_append-Ahead e (rejected_by_log l x) = Ahead-refl e.node.state

  pub handle_append_entries-Ahead :
      (e : Engine N) (t : Times) (v : Vote) (prev : Option LogId) (es : List (Entry N))
      (answers : Bool)
      → Ensures (handle_append_entries e t v prev es answers) (λ r. Onward e r.0)
  unfolding handle_append_entries
  handle_append_entries-Ahead e t v prev es answers =
      let P = λ (r : Engine N × Bool). Onward e r.0 in
      Ensures-bind (append_to_log e t v prev es) _ (λ r. Onward e r.0) P
        (append_to_log-Ahead e t v prev es)
        (λ r a.
          Ensures-bind (if answers then answer_append r.0 r.1 else done r.0) _ (Onward e) P
            (Ensures-if answers _ _ (Onward e)
              (λ _.
                Ensures-map (answer_append r.0 r.1) (Onward r.0) (Onward e)
                  (answer_append-Ahead r.0 r.1)
                  (λ x b. Ahead-trans e.node.state r.0.node.state x.node.state a b))
              (λ _. a))
            (λ x b. b))

  pub leader_step_down-Ahead :
      (e : Engine N) (now : ℕ) → Ensures (leader_step_down e now) (Onward e)
  unfolding leader_step_down
  leader_step_down-Ahead e now =
      Ensures-if (log_id e.node.state.membership_state.effective ≤? e.node.state.committed) _ _
        (Onward e)
        (λ _.
          Ensures-map (update_internal_server_state e now) _ (Onward e)
            (update_internal_server_state-Same e now) (λ e'. Same-Ahead e.node.state e'.node.state))
        (λ _. Ahead-refl e.node.state)

  purge_as-Ahead : (e : Engine N) (o : Option Leader) → Onward e (purge_as e o)
  unfolding purge_as
  purge_as-Ahead e (some l) = try_purge_log-Ahead (leading e l)
  purge_as-Ahead e none =
      Same-Ahead e.node.state (purge_if_needed e.node).state (purge_if_needed-Same e.node)

  pub finish_building_snapshot-Ahead :
      (e : Engine N) (meta : SnapshotMeta N) → Onward e (finish_building_snapshot e meta)
  unfolding finish_building_snapshot
  finish_building_snapshot-Ahead e meta =
      let s = e.node.state in
      let built = record s { io_state = set_building_snapshot s.io_state false } in
      let (n, updated) = update_snapshot (with_state e built).node meta in
      let first = Same-Ahead s n.state (update_snapshot-Same (with_state e built).node meta) in
      let m = schedule_policy_based_purge n in
      if-cases (Onward e) updated
        (λ _. Ahead-trans s n.state (purge_unused (record e { node = m })).node.state first (
          Ahead-trans n.state m.state (purge_unused (record e { node = m })).node.state
            (Same-Ahead n.state m.state (schedule-Same n))
            (purge_as-Ahead (record e { node = m }) e.leader)))
        (λ _. first)

  purge_inside-Ahead :
      (e : Engine N) (index : ℕ) (o : Option LogId) → Ensures (purge_inside e index o) (Onward e)
  unfolding purge_inside
  purge_inside-Ahead e index none = Ahead-refl e.node.state
  purge_inside-Ahead e index (some last) =
      Ensures-if (ltb index (next_index e.node.state.purge_upto)) _ _ (Onward e)
        (λ _. Ahead-refl e.node.state)
        (λ _.
          Ensures-any (unwrap (get_log_id e.node.state _)) _ (Onward e)
            (λ l. purge_as-Ahead (record e { node = update_purge_upto e.node l }) e.leader))

  pub trigger_purge_log-Ahead :
      (e : Engine N) (index : ℕ) → Ensures (trigger_purge_log e index) (Onward e)
  unfolding trigger_purge_log
  trigger_purge_log-Ahead e index =
      purge_inside-Ahead e index e.node.state.snapshot_meta.last_log_id

  transfer_as-Ahead : (e : Engine N) (to : ℕ) (o : Option Leader) → Onward e (transfer_as e to o)
  unfolding transfer_as
  transfer_as-Ahead e to none = Ahead-refl e.node.state
  transfer_as-Ahead e to (some l) = transfer_leader-Ahead (leading e l) to

  pub trigger_transfer_leader-Ahead :
      (e : Engine N) (to : ℕ) → Onward e (trigger_transfer_leader e to)
  trigger_transfer_leader-Ahead e to = transfer_as-Ahead e to e.leader

  answer_vote-Ahead : (r : Engine N × VoteResult) → Onward r.0 (answer_vote r).0
  answer_vote-Ahead (e, granted) = Ahead-refl e.node.state
  answer_vote-Ahead (e, by_vote v) = Ahead-refl e.node.state

module _ {N : Type 0} ⦃q : Eq N⦄ where
  install_accepted-Ahead :
      (meta : SnapshotMeta N) (r : Engine N × Bool) → Onward r.0 (install_accepted meta r)
  unfolding install_accepted
  install_accepted-Ahead meta (e, false) = Ahead-refl e.node.state
  install_accepted-Ahead meta (e, true) =
      install_full_snapshot-Ahead (to_committed e.node.state.vote.data_of) e.node meta

  pub handle_install_full_snapshot-Ahead :
      (e : Engine N) (t : Times) (v : Vote) (meta : SnapshotMeta N)
      → Ensures (handle_install_full_snapshot e t v meta) (Onward e)
  unfolding handle_install_full_snapshot accept_vote
  handle_install_full_snapshot-Ahead e t v meta =
      Ensures-bind (accept_vote e t v) _ (λ r. Onward e r.0) (Onward e)
        (Ensures-bind (update_vote e t v) _ (λ r. Onward e r.0) (λ r. Onward e r.0)
          (update_vote-Ahead e t v)
          (λ r a.
            Ahead-trans e.node.state r.0.node.state (answer_vote r).0.node.state a
              (answer_vote-Ahead r)))
        (λ r a.
          Ahead-trans e.node.state r.0.node.state (install_accepted meta r).node.state a
            (install_accepted-Ahead meta r))
