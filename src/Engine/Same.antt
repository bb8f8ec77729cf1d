-- ===== src/Engine/Same.antt =====
-- A change of role keeps the vote and what is committed: `become_leader`, `become_following` and
-- `leader_append_entries` (openraft/src/engine/handler/vote_handler and leader_handler).
use async_raft.Base.{
  ℕ, ◌≡◌, refl, ◌∙◌, ap, List, [], ◌∷◌, Option, none, some, Ensures, Ensures-bind, Ensures-map,
  Ensures-if, arith,
}
use async_raft.Base.Order.{◌<?◌, ◌=?◌, option_ord}
use async_raft.Vote.{leader_id_ord}
use async_raft.LogId.{LogId, log_id_ord}
use async_raft.Membership.{Membership}
use async_raft.IoState.{IoId}
use async_raft.Leader.{Leader}
use async_raft.RaftState.{RaftState, accept_io, is_leader, is_leading}
use async_raft.Handler.{Node, Entry, update_server_state}
use async_raft.Replication.{Leading, initiate_replication, append_membership, rebuild_streams}
use async_raft.Replication.Kept.{Still, initiate_replication-Still, append_membership-Still}
use async_raft.LeaderHandler.{leader_append_entries, replicate_proposed, propose, membership_entry}
use async_raft.Engine.{Engine, leading, blank}
use async_raft.Engine.Voting.{
  new_leader, start_leader, enter, propose_blank, lead_after, become_leader, become_following,
  update_internal_server_state,
}

module _ {N : Type 0} where
  -- The same vote, whatever its lease, and the same committed log id.
  abbrev pub Same : RaftState N → RaftState N → Type 0
  Same s s' = (s'.vote.data_of ≡ s.vote.data_of) × (s'.committed ≡ s.committed)

  pub Same-trans : (a b c : RaftState N) → Same a b → Same b c → Same a c
  Same-trans a b c (p, q) (r, s) = (r ∙ p, s ∙ q)

  pub Still-Same : (n n' : Node N) → Still n n' → Same n.state n'.state
  Still-Same n n' (c, s) =
      (ap (λ (t : RaftState N). t.vote.data_of) s, ap (λ (t : RaftState N). t.committed) s)

  pub accept_io-Same : (s : RaftState N) (io : IoId) → Same s (accept_io s io).0
  unfolding accept_io
  accept_io-Same s io = ground arith

  propose-Same :
      (l : Leading N) (es : List (Entry N)) → Same l.node.state (propose l es).0.node.state
  unfolding propose
  propose-Same l es = accept_io-Same _ _

  initiate-Same :
      (l : Leading N) → Ensures (initiate_replication l) (λ l'. Same l.node.state l'.node.state)
  initiate-Same l =
      Ensures-map (initiate_replication l) (λ l'. Still l.node l'.node) _
        (initiate_replication-Still l) (λ l'. Still-Same l.node l'.node)

  append_membership-Same :
      (l : Leading N) (id : LogId) (m : Membership N)
      → Ensures (append_membership l id m) (λ l'. Same l.node.state l'.node.state)
  append_membership-Same l id m =
      Ensures-map (append_membership l id m) _ _ (append_membership-Still l id m) (λ l' (c, s).
        (ap (λ (t : RaftState N). t.vote.data_of) s, ap (λ (t : RaftState N). t.committed) s))

  replicate_proposed-Same :
      (l : Leading N) (m : Option (LogId × Membership N))
      → Ensures (replicate_proposed l m) (λ l'. Same l.node.state l'.node.state)
  unfolding replicate_proposed
  replicate_proposed-Same l none = initiate-Same l
  replicate_proposed-Same l (some (id, m)) =
      Ensures-bind (append_membership l id m) _ (λ l'. Same l.node.state l'.node.state)
        (λ l'. Same l.node.state l'.node.state) (append_membership-Same l id m)
        (λ l' s.
          Ensures-map (initiate_replication l') _ _ (initiate-Same l')
            (λ l'' s'. Same-trans l.node.state l'.node.state l''.node.state s s'))

  pub leader_append_entries-Same :
      (l : Leading N) (es : List (Entry N))
      → Ensures (leader_append_entries l es) (λ l'. Same l.node.state l'.node.state)
  unfolding leader_append_entries
  leader_append_entries-Same l [] = (refl, refl)
  leader_append_entries-Same l (e ∷ es) =
      let (l', es') = propose l (e ∷ es) in
      Ensures-map (replicate_proposed l' (membership_entry es')) _ _
        (replicate_proposed-Same l' (membership_entry es'))
        (λ l''. Same-trans l.node.state l'.node.state l''.node.state (propose-Same l (e ∷ es)))

  propose_blank-Same :
      (l : Leading N) → Ensures (propose_blank l) (λ l'. Same l.node.state l'.node.state)
  unfolding propose_blank
  propose_blank-Same l =
      Ensures-if (l.lead.last_log_id <? l.lead.noop_log_id) _ _ _
        (λ _. leader_append_entries-Same l (blank ∷ [])) (λ _. initiate-Same l)

  start_leader-Same :
      (e : Engine N) (l : Leader)
      → Ensures (start_leader e l) (λ e'. Same e.node.state e'.node.state)
  unfolding start_leader enter rebuild_streams update_server_state
  start_leader-Same e l =
      let l' = rebuild_streams (leading (enter e l) l) in
      Ensures-bind (propose_blank l') _ (λ l''. Same e.node.state l''.node.state)
        (λ e'. Same e.node.state e'.node.state)
        (Ensures-map (propose_blank l') _ _ (propose_blank-Same l') (λ l''.
          Same-trans e.node.state l'.node.state l''.node.state (accept_io-Same e.node.state _)))
        (λ l'' s. s)

  lead_after-Same :
      (e : Engine N) (now : ℕ) (o : Option Leader)
      → Ensures (lead_after e now o) (λ e'. Same e.node.state e'.node.state)
  unfolding lead_after update_server_state
  lead_after-Same e now none = start_leader-Same e (new_leader e.node.state now)
  lead_after-Same e now (some l) =
      Ensures-if (l.committed_vote.leader_id =? e.node.state.vote.data_of.leader_id) _ _ _
        (λ _. (refl, refl)) (λ _. start_leader-Same e (new_leader e.node.state now))

  pub update_internal_server_state-Same :
      (e : Engine N) (now : ℕ)
      → Ensures (update_internal_server_state e now) (λ e'. Same e.node.state e'.node.state)
  unfolding update_internal_server_state become_leader become_following update_server_state
  update_internal_server_state-Same e now =
      Ensures-if (is_leader e.node.state e.node.config.id) _ _
        (λ e'. Same e.node.state e'.node.state) (λ _. lead_after-Same e now e.leader)
        (λ _.
          Ensures-if (is_leading e.node.state e.node.config.id) _ _
            (λ e'. Same e.node.state e'.node.state) (λ _. (refl, refl)) (λ _. (refl, refl)))
