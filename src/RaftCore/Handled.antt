-- ===== src/RaftCore/Handled.antt =====
-- The parts of the dispatch take no vote and no commit back: openraft/src/core/raft_core.rs.
use async_raft.Base.{
  ℕ, ◌+◌, Bool, false, List, [], ◌∷◌, Option, none, some, if◌then◌else◌, ◌==◌, leb, Checked, unwrap,
  Ensures, Ensures-bind, Ensures-any, Ensures-map, Ensures-if, if-cases, arith,
}
use async_raft.Base.Order.{◌≤?◌, ◌=?◌, option_ord}
use async_raft.Vote.{Vote}
use async_raft.Vote.AdvOrder.{vote_ord}
use async_raft.LogId.{LogId, log_id_ord}
use async_raft.Membership.{Membership, Result, ok, err, is_voter}
use async_raft.Membership.State.{log_id}
use async_raft.IoState.{IoId, vote_io, log_io}
use async_raft.Leased.{disable_lease}
use async_raft.Leader.{Leader}
use async_raft.RaftState.{SnapshotMeta, effective_membership, last_log_id}
use async_raft.Handler.{Entry}
use async_raft.Replication.{Leading, allow_next_revert}
use async_raft.LeaderHandler.{leader_append_entries}
use async_raft.Engine.{Engine, with_state, leading}
use async_raft.Engine.Electing.{InitializeError, initialize}
use async_raft.Engine.Requests.{leader_step_down}
use async_raft.Engine.Same.{Same, leader_append_entries-Same}
use async_raft.Engine.Ahead.{Ahead, Ahead-refl, Ahead-trans, Same-Ahead}
use async_raft.Engine.Followed.{commit_entries-Ahead}
use async_raft.Engine.Led.{update_local_progress-Ahead}
use async_raft.Engine.Elected.{Onward, elect-Ahead, initialize-Ahead}
use async_raft.Engine.Requested.{leader_step_down-Ahead}
use async_raft.RaftCore.{
  Core, Moments, map_io, flush_io, heartbeat, heartbeat_as, heartbeat_of, write_unless, write_as,
  write_entry, write_membership, answer_initialize, handle_initialize, vote_matches, may_elect,
  handle_tick_election,
}
use async_raft.RaftCore.Dispatch.{
  commit_after, as_leader, next_heartbeat, heartbeat_at, tick_heartbeat, step_down_applied,
  handle_tick, handle_local_io, installed_io, transfer_from, allow_as, elect_voter,
}

module _ {N : Type 0} where
  heartbeat_of-Ahead : (e : Engine N) (l : Leader) (o : Option ℕ) → Onward e (heartbeat_of e l o)
  heartbeat_of-Ahead e l none = Ahead-refl e.node.state
  heartbeat_of-Ahead e l (some to) = Ahead-refl e.node.state

  pub heartbeat_as-Ahead : (e : Engine N) (o : Option Leader) → Onward e (heartbeat_as e o)
  heartbeat_as-Ahead e none = Ahead-refl e.node.state
  heartbeat_as-Ahead e (some l) = heartbeat_of-Ahead e l l.transfer_to

  write_unless-Ahead :
      (e : Engine N) (entry : Entry N) (l : Leader) (o : Option ℕ)
      → Ensures (write_unless e entry l o) (Onward e)
  unfolding write_unless
  write_unless-Ahead e entry l (some to) = Ahead-refl e.node.state
  write_unless-Ahead e entry l none =
      Ensures-bind (leader_append_entries (leading e l) (entry ∷ [])) _
        (λ x. Same e.node.state x.node.state) (Onward e)
        (leader_append_entries-Same (leading e l) (entry ∷ []))
        (λ x s.
          Ensures-any (unwrap (last_log_id x.node.state)) _ (Onward e)
            (λ _. Same-Ahead e.node.state x.node.state s))

  pub write_as-Ahead :
      (e : Engine N) (entry : Entry N) (o : Option Leader) → Ensures (write_as e entry o) (Onward e)
  unfolding write_as
  write_as-Ahead e entry none = Ahead-refl e.node.state
  write_as-Ahead e entry (some l) = write_unless-Ahead e entry l l.transfer_to

  pub write_membership-Ahead :
      (e : Engine N) (r : Result (Membership N)) → Ensures (write_membership e r) (Onward e)
  unfolding write_membership write_entry
  write_membership-Ahead e (err error) = Ahead-refl e.node.state
  write_membership-Ahead e (ok m) = write_as-Ahead e _ e.leader

  answer_initialize-Ahead :
      (r : Engine N × Option (InitializeError N)) → Onward r.0 (answer_initialize r)
  answer_initialize-Ahead (e, none) = Ahead-refl e.node.state
  answer_initialize-Ahead (e, some error) = Ahead-refl e.node.state

  pub handle_initialize-Ahead :
      (e : Engine N) (m : Moments) (nodes : List (ℕ × N))
      → Ensures (handle_initialize e m nodes) (Onward e)
  unfolding handle_initialize
  handle_initialize-Ahead e m nodes =
      Ensures-bind (initialize e m.started m.times _) _ (λ r. Onward e r.0) (Onward e)
        (initialize-Ahead e m.started m.times _)
        (λ r a.
          Ahead-trans e.node.state r.0.node.state (answer_initialize r).node.state a
            (answer_initialize-Ahead r))

  next_heartbeat-Ahead :
      (e : Engine N) (at : ℕ) (o : Option Leader) → Onward e (next_heartbeat e at o)
  next_heartbeat-Ahead e at none = Ahead-refl e.node.state
  next_heartbeat-Ahead e at (some l) = Ahead-refl e.node.state

  heartbeat_at-Ahead :
      (c : Core N) (e : Engine N) (m : Moments) (o : Option Leader)
      → Onward e (heartbeat_at c e m o)
  unfolding heartbeat
  heartbeat_at-Ahead c e m none = Ahead-refl e.node.state
  heartbeat_at-Ahead c e m (some l) =
      let sent = if c.settings.enable_heartbeat then heartbeat e else e in
      let at = m.after + c.settings.heartbeat_interval in
      if-cases (Onward e) (leb l.next_heartbeat m.now)
        (λ _.
          Ahead-trans e.node.state sent.node.state (next_heartbeat sent at sent.leader).node.state
            (if-cases (Onward e) c.settings.enable_heartbeat (λ _. heartbeat_as-Ahead e e.leader)
              (λ _. Ahead-refl e.node.state))
            (next_heartbeat-Ahead sent at sent.leader))
        (λ _. Ahead-refl e.node.state)

  handle_tick_election-Ahead :
      (c : Core N) (m : Moments) → Ensures (handle_tick_election c m) (Onward c.engine)
  unfolding handle_tick_election
  handle_tick_election-Ahead c m =
      Ensures-if (may_elect c m.checked) _ _ (Onward c.engine)
        (λ _. elect-Ahead (record c.engine { seen_greater_log = false }) m.started m.times)
        (λ _. Ahead-refl c.engine.node.state)

  pub handle_tick-Ahead : (c : Core N) (m : Moments) → Ensures (handle_tick c m) (Onward c.engine)
  unfolding handle_tick tick_heartbeat step_down_applied
  handle_tick-Ahead c m =
      let s = c.engine.node.state in
      Ensures-bind (handle_tick_election c m) _ (Onward c.engine) (Onward c.engine)
        (handle_tick_election-Ahead c m)
        (λ e a.
          let e' = heartbeat_at c e m e.leader in
          let b = Ahead-trans s e.node.state e'.node.state a (heartbeat_at-Ahead c e m e.leader) in
          Ensures-if
            (log_id e'.node.state.membership_state.effective ≤? e'.node.state.io_state.applied) _ _
            (Onward c.engine)
            (λ _.
              Ensures-map (leader_step_down e' m.times.led) (Onward e') (Onward c.engine)
                (leader_step_down-Ahead e' m.times.led)
                (λ x d. Ahead-trans s e'.node.state x.node.state b d))
            (λ _. b))

  pub as_leader-Ahead :
      (e : Engine N) (o : Option Leader) (f : Leading N → Checked (Leading N))
      → ((l : Leading N) → Ensures (f l) (λ l'. Ahead l.node.state l'.node.state))
      → Ensures (as_leader e o f) (Onward e)
  as_leader-Ahead e none f h = tt
  as_leader-Ahead e (some l) f h =
      Ensures-bind (f (leading e l)) _ (λ l'. Ahead e.node.state l'.node.state) (Onward e)
        (h (leading e l)) (λ l' a. a)

  pub handle_local_io-Ahead : (e : Engine N) (io : IoId) → Ensures (handle_local_io e io) (Onward e)
  unfolding handle_local_io
  handle_local_io-Ahead e (vote_io v) = Ahead-refl e.node.state
  handle_local_io-Ahead e (log_io l) =
      Ensures-if (vote_matches e.leader l.committed_vote) _ _ (Onward e)
        (λ _.
          as_leader-Ahead (map_io e (flush_io (log_io l))) e.leader _
            (λ x. update_local_progress-Ahead x l.log_id))
        (λ _. Ahead-refl e.node.state)

  pub transfer_from-Ahead :
      (e : Engine N) (m : Moments) (v : Vote) (to : ℕ) → Ensures (transfer_from e m v to) (Onward e)
  unfolding transfer_from disable_lease
  transfer_from-Ahead e m v to =
      let s = e.node.state in
      let e' = with_state e (record s { vote = disable_lease s.vote }) in
      Ensures-if (s.vote.data_of =? v) _ _ (Onward e)
        (λ _.
          Ensures-if (e.node.config.id == to) _ _ (Onward e) (λ _. elect-Ahead e' m.started m.times)
            (λ _. Ahead-refl s))
        (λ _. Ahead-refl s)

  pub allow_as-Ahead :
      (e : Engine N) (to : ℕ) (allow : Bool) (o : Option Leader) → Onward e (allow_as e to allow o)
  unfolding allow_next_revert
  allow_as-Ahead e to allow none = Ahead-refl e.node.state
  allow_as-Ahead e to allow (some l) = ground (arith, Ahead-refl e.node.state)

  pub elect_voter-Ahead : (e : Engine N) (m : Moments) → Ensures (elect_voter e m) (Onward e)
  unfolding elect_voter
  elect_voter-Ahead e m =
      Ensures-if (is_voter (effective_membership e.node.state) e.node.config.id) _ _ (Onward e)
        (λ _. elect-Ahead e m.started m.times) (λ _. Ahead-refl e.node.state)

  pub installed_io-Ahead :
      (e : Engine N) (io : IoId) (o : Option (SnapshotMeta N)) → Onward e (installed_io e io o)
  installed_io-Ahead e io none = Ahead-refl e.node.state
  installed_io-Ahead e io (some meta) = Ahead-refl e.node.state

  pub commit_after-Ahead :
      (r : Engine N × Bool) (committed : Option LogId) → Onward r.0 (commit_after r committed)
  unfolding commit_after
  commit_after-Ahead (e, accepted) committed =
      if-cases (Onward e) accepted (λ _. commit_entries-Ahead e.node committed)
        (λ _. Ahead-refl e.node.state)
