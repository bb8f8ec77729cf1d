-- ===== src/Engine/Led.antt =====
-- What a leader does with the answers of the other nodes takes no vote and no commit back:
-- openraft/src/engine/handler/replication_handler and leader_handler.
use async_raft.Base.{
  ℕ, ◌≡◌, Bool, true, ◌&&◌, Option, none, some, if◌then◌else◌, unwrap, Ensures, Ensures-bind,
  Ensures-any, Ensures-if, arith,
}
use async_raft.Base.Order.{◌≤?◌, ◌<?◌, option_ord, nat_ord, le?_refl, lt?→le?}
use async_raft.Vote.{Vote}
use async_raft.Vote.AdvOrder.{vote_ord}
use async_raft.LogId.{LogId, log_id_ord}
use async_raft.Leased.{disable_lease}
use async_raft.Progress.{VecProgress, Found, try_get, increase_to, found, not_found, update}
use async_raft.ProgressEntry.{ProgressEntry}
use async_raft.ProgressEntry
use async_raft.Handler.{Node, purge_if_needed}
use async_raft.Leader.{clock_of, matching_of}
use async_raft.Replication.{
  Leading, ReplicationResult, matching, conflicting_at, failed, own, try_commit_quorum_accepted,
  update_matching, update_conflicting, try_purge_log, apply_result, update_progress,
  update_local_progress, update_leader_clock, with_clock, match_own,
}
use async_raft.Replication.Commit.{try_commit_quorum_accepted_lem}
use async_raft.LeaderHandler.{transfer_leader}
use async_raft.Engine.Ahead.{Ahead, Ahead-refl, Ahead-trans, Same-Ahead}
use async_raft.Engine.Followed.{purge_if_needed-Same}

-- A log id that is committed only if it is greater.
committed_le :
    (mine : Bool) (a b : Option LogId) → (a ≤? (if mine && (a <? b) then b else a)) ≡ true
committed_le mine a b =
    ground (arith, le?_refl {A = Option LogId} a, lt?→le? {A = Option LogId} a b)

module _ {N : Type 0} where
  abbrev Forward : Leading N → Leading N → Type 0
  Forward l l' = Ahead l.node.state l'.node.state

  commit-Ahead :
      (n : Node N) (granted : Option LogId)
      → Ensures (try_commit_quorum_accepted n granted) (λ n'. Ahead n.state n'.state)
  commit-Ahead n granted =
      let (n', e, c, same) = try_commit_quorum_accepted_lem n granted in
      rw e (
        rw (same.vote) (le?_refl {A = Vote} n.state.vote.data_of),
        rw c (committed_le (own n.state granted) n.state.committed granted),
      )

  update_matching-Ahead :
      (l : Leading N) (id : ℕ) (m : Option LogId) → Ensures (update_matching l id m) (Forward l)
  unfolding update_matching
  update_matching-Ahead l id m =
      Ensures-any (unwrap (try_get l.lead.progress.vector id)) _ (Forward l) (λ e.
        Ensures-any (ProgressEntry.update_matching e m) _ (Forward l) (λ e'.
          let granted = (update matching_of l.lead.progress id e').0.granted in
          Ensures-bind (try_commit_quorum_accepted l.node granted) _
            (λ n'. Ahead l.node.state n'.state) (Forward l) (commit-Ahead l.node granted)
            (λ n' a. a)))

  apply_result-Ahead :
      (l : Leading N) (id : ℕ) (r : ReplicationResult) → Ensures (apply_result l id r) (Forward l)
  unfolding apply_result update_conflicting
  apply_result-Ahead l id (matching m) = update_matching-Ahead l id m
  apply_result-Ahead l id (conflicting_at c) =
      Ensures-any (unwrap (try_get l.lead.progress.vector id)) _ (Forward l) (λ e.
        Ensures-any (ProgressEntry.update_conflicting l.node.config.allow_log_reversion e c.index) _
          (Forward l) (λ e'. Ahead-refl l.node.state))
  apply_result-Ahead l id failed =
      Ensures-any (unwrap (try_get l.lead.progress.vector id)) _ (Forward l)
        (λ e. Ahead-refl l.node.state)

  pub try_purge_log-Ahead : (l : Leading N) → Forward l (try_purge_log l)
  unfolding try_purge_log
  try_purge_log-Ahead l = ground (
    arith,
    Same-Ahead l.node.state (purge_if_needed l.node).state (purge_if_needed-Same l.node),
    Ahead-refl l.node.state,
  )

  pub update_progress-Ahead :
      (l : Leading N) (id : ℕ) (r : ReplicationResult)
      → Ensures (update_progress l id r) (Forward l)
  unfolding update_progress
  update_progress-Ahead l id r =
      Ensures-bind (apply_result l id r) _ (Forward l) (Forward l) (apply_result-Ahead l id r)
        (λ l' a.
          Ahead-trans l.node.state l'.node.state (try_purge_log l').node.state a
            (try_purge_log-Ahead l'))

  match_own-Ahead :
      (l : Leading N) (upto : LogId) (o : Option ProgressEntry)
      → Ensures (match_own l upto o) (Forward l)
  unfolding match_own
  match_own-Ahead l upto none = Ahead-refl l.node.state
  match_own-Ahead l upto (some e) =
      Ensures-if (some upto ≤? e.matching) _ _ (Forward l) (λ _. Ahead-refl l.node.state)
        (λ _. update_matching-Ahead _ l.node.config.id (some upto))

  with_clock-Ahead :
      (l : Leading N) (r : VecProgress (Option ℕ) (Option ℕ) × Found (Option ℕ))
      → Ensures (with_clock l r) (Forward l)
  with_clock-Ahead l (p, found granted) = Ahead-refl l.node.state
  with_clock-Ahead l (p, not_found granted) = tt

  pub update_local_progress-Ahead :
      (l : Leading N) (upto : Option LogId) → Ensures (update_local_progress l upto) (Forward l)
  unfolding update_local_progress
  update_local_progress-Ahead l none = Ahead-refl l.node.state
  update_local_progress-Ahead l (some upto) =
      match_own-Ahead l upto (try_get l.lead.progress.vector l.node.config.id)

  pub update_leader_clock-Ahead :
      (l : Leading N) (id t : ℕ) → Ensures (update_leader_clock l id t) (Forward l)
  unfolding update_leader_clock
  update_leader_clock-Ahead l id t =
      with_clock-Ahead l (increase_to clock_of l.lead.clock_progress id (some t))

  pub transfer_leader-Ahead : (l : Leading N) (to : ℕ) → Forward l (transfer_leader l to)
  unfolding transfer_leader disable_lease
  transfer_leader-Ahead l to = Ahead-refl l.node.state
