-- ===== src/Following/CommitBound.antt =====
-- `commit_entries` of a follower (following_handler/mod.rs) and the state it leaves.
use async_raft.Base.{
  ◌≡◌, refl, ◌∙◌, Bool, true, Option, none, some, arith, Bool-cases, if-cases, inl, inr,
}
use async_raft.Base.Order.{Ord, option_ord, ◌≤?◌, le?_refl, le?_trans, le?_total, max_of, min_of}
use async_raft.LogId.{LogId, log_id_ord}
use async_raft.IoState.{IoId, last_log_id}
use async_raft.RaftState.{RaftState, update_committed, last_purged_log_id}
use async_raft.RaftState
use async_raft.RaftState.Commit.{IsValid, update_committed-IsValid}
use async_raft.Handler.{Node, trigger_snapshot, should_snapshot, push, save_committed, apply_of}
use async_raft.Following.{commit_entries, save_and_apply}

-- The last log that a node has accepted.
abbrev pub accepted_log : Option IoId → Option LogId
accepted_log none = none
accepted_log (some x) = last_log_id x

min_le :
    {A : Type 0} ⦃o : Ord A⦄ (a b : A) → ((min_of a b ≤? a) ≡ true) × ((min_of a b ≤? b) ≡ true)
min_le {A} a b = elim (Bool-cases (a ≤? b)) [
  | inl t ↦ rw t (le?_refl {A = A} a, t)
  | inr f ↦ rw f (le?_total {A = A} a b f, le?_refl {A = A} b)
]

module _ {N : Type 0} where
  snapshot-IsValid : (n : Node N) → IsValid n.state → IsValid (trigger_snapshot n).0.state
  unfolding trigger_snapshot last_purged_log_id
  snapshot-IsValid n v =
      if-cases (λ (r : Node N × Bool). IsValid r.0.state) n.state.io_state.building_snapshot
        (λ _. v)
        (λ _. record {
          from_zero = v.from_zero;
          from_purged = v.from_purged;
          purged = v.purged;
          purge = v.purge;
          snapshot = v.snapshot;
          committed = v.committed;
          membership = v.membership;
          io = record {
            flushed = v.io.flushed;
            submitted = v.io.submitted;
            applied = v.io.applied;
            purged = v.io.purged;
          };
        })

  save-IsValid :
      (n : Node N) (old : Option (Option LogId)) (c : Option LogId)
      → IsValid n.state
      → IsValid (save_and_apply n old c).state
        × ((save_and_apply n old c).state.committed ≡ n.state.committed)
  unfolding save_and_apply trigger_snapshot
  save-IsValid n (some prev) (some c) v =
      let m = push (push n (save_committed c)) (apply_of prev c) in
      if-cases (λ (r : Node N). IsValid r.state × (r.state.committed ≡ n.state.committed))
        (should_snapshot m) (λ _. (snapshot-IsValid m v, ground arith)) (λ _. (v, refl))
  save-IsValid n none c v = (v, refl)
  save-IsValid n (some prev) none v = (v, refl)

  -- A node whose last log is at or after the last log it accepted from the leader stays valid when it
  -- is told what the leader has committed, and the committed log id becomes the greater of the old one
  -- and the smaller of the accepted and the leader's: no log is committed that was not accepted.
  pub commit_entries-IsValid :
      (n : Node N) (c : Option LogId)
      → IsValid n.state
      → (accepted_log n.state.io_state.io_progress.accepted ≤? RaftState.last_log_id n.state) ≡ true
      → let n' = commit_entries n c in
        IsValid n'.state
        × (n'.state.committed
            ≡ max_of n.state.committed
                (min_of (accepted_log n.state.io_state.io_progress.accepted) c))
  unfolding commit_entries
  commit_entries-IsValid n c v h =
      let l = accepted_log n.state.io_state.io_progress.accepted in
      let le =
        le?_trans {A = Option LogId} (min_of l c) l (RaftState.last_log_id n.state) (min_le l c).0
          h in
      let (valid, max, old) = update_committed-IsValid n.state (min_of l c) v le in
      let s' = update_committed n.state (min_of l c) in
      let (w, e) = save-IsValid (record n { state = s'.0 }) s'.1 (min_of l c) valid in (w, e ∙ max)
