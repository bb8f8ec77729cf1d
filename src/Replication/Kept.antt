-- ===== src/Replication/Kept.antt =====
-- Sending leaves the state of the leader's node as it is: `initiate_replication` and what uses it, of
-- openraft/src/engine/handler/replication_handler.
use async_raft.Base.{
  ℕ, ◌≡◌, refl, ◌∙◌, List, [], ◌∷◌, some, done, Ensures, Ensures-bind, Ensures-if, ◌==◌,
}
use async_raft.LogId.{LogId}
use async_raft.Membership.{Membership}
use async_raft.Membership.State.{new_effective}
use async_raft.Membership.State
use async_raft.ProgressEntry.{ProgressEntry, Inflight, nothing, logs_of, snapshot_of, next_send}
use async_raft.Handler.{Node}
use async_raft.Replication.{
  Leading, send_to_target, send_each, initiate_replication, append_membership, rebuild_streams,
  rebuild_progresses, log_state,
}

module _ {N : Type 0} where
  -- The node has the same configuration and the same state.
  abbrev pub Still : Node N → Node N → Type 0
  Still n n' = (n'.config ≡ n.config) × (n'.state ≡ n.state)

  Still-trans : (a b c : Node N) → Still a b → Still b c → Still a c
  Still-trans a b c (p, q) (r, s) = (r ∙ p, s ∙ q)

  send_to_target-Still :
      (n : Node N) (id : ℕ) (i : Inflight) → Ensures (send_to_target n id i) (Still n)
  unfolding send_to_target
  send_to_target-Still n id nothing = tt
  send_to_target-Still n id (logs_of r) = (refl, refl)
  send_to_target-Still n id (snapshot_of l) = (refl, refl)

  send_each-Still :
      (n : Node N) (xs : List (ℕ × ProgressEntry)) → Ensures (send_each n xs) (λ r. Still n r.0)
  unfolding send_each
  send_each-Still n [] = (refl, refl)
  send_each-Still n ((id, e) ∷ xs) =
      let rest = send_each-Still n xs in
      let unsent = λ (x : ProgressEntry).
        Ensures-bind (send_each n xs) (λ r. done (r.0, (id, x) ∷ r.1)) (λ r. Still n r.0)
          (λ r. Still n r.0) rest (λ r s. s) in
      let next = next_send e (log_state n.state) n.config.max_payload_entries in
      Ensures-if (id == n.config.id) _ _ (λ r. Still n r.0) (λ _. unsent e)
        (λ _.
          Ensures-if next.1 _ _ (λ r. Still n r.0)
            (λ _.
              Ensures-bind (send_to_target n id next.0.inflight) _ (Still n) (λ r. Still n r.0)
                (send_to_target-Still n id next.0.inflight)
                (λ n' s.
                  Ensures-bind (send_each n' xs) _ (λ r. Still n' r.0) (λ r. Still n r.0)
                    (send_each-Still n' xs) (λ r s'. Still-trans n n' r.0 s s')))
            (λ _. unsent next.0))

  pub initiate_replication-Still :
      (l : Leading N) → Ensures (initiate_replication l) (λ l'. Still l.node l'.node)
  unfolding initiate_replication
  initiate_replication-Still l =
      Ensures-bind (send_each l.node l.lead.progress.vector) _ (λ r. Still l.node r.0)
        (λ l'. Still l.node l'.node) (send_each-Still l.node l.lead.progress.vector) (λ r s. s)

  -- A new membership changes the memberships of the state only.
  pub append_membership-Still :
      (l : Leading N) (id : LogId) (m : Membership N)
      → Ensures (append_membership l id m) (λ l'.
        Still
          (record l.node {
            state = record l.node.state {
              membership_state =
                  State.append l.node.state.membership_state (new_effective (some id) m);
            };
          })
          l'.node)
  unfolding append_membership rebuild_progresses rebuild_streams
  append_membership-Still l id m = initiate_replication-Still _
