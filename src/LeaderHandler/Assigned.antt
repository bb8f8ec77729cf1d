-- ===== src/LeaderHandler/Assigned.antt =====
-- The log ids that a leader gives to what it proposes: `leader_append_entries` of
-- openraft/src/engine/handler/leader_handler.
use async_raft.Base.{
  ℕ, suc, ◌+◌, ◌<◌, ◌^◌, ◌≡◌, refl, ap, ◌∙◌, ◌++◌, List, [], ◌∷◌, none, some, All, last_of, length,
  subst, arith, add64, add64_lem, Option, some_inj, Bool-cases, inl, inr, ltb, leb, ◌&&◌, true,
}
use async_raft.Vote.{LeaderId, leader_id_ord}
use async_raft.Base.Order.{◌≤?◌, le?_refl}
use async_raft.LogId.{LogId, next_index}
use async_raft.LogIdList.{extend_from_same_leader}
use async_raft.IoState.{new_log_io, IoId}
use async_raft.RaftState.{RaftState, accept_io}
use async_raft.Leader.{assign_log_ids, assign}
use async_raft.Leader.Assign.{assign_log_ids_lem}
use async_raft.LogIdList.Extend.{Consecutive}
use async_raft.RaftState.Extended.{with_logs, Consecutive-last, All-last}
use async_raft.Handler.{Entry, log_ids_of, append_input_entries}
use async_raft.Replication.{Leading}
use async_raft.LeaderHandler.{propose, membership_entry}

log_id_eq :
    (x : LogId) (d : LeaderId) (i : ℕ)
    → x.leader_id ≡ d
    → x.index ≡ i
    → x ≡ record { leader_id = d; index = i }
log_id_eq x d i h k =
    ap (λ y. record { leader_id = y; index = x.index }) h
    ∙ ap (λ j. record { leader_id = d; index = j }) k

pub with_logs-NotAfter :
    (old : Option LeaderId) (last end : LogId) (i : ℕ) (x : LeaderId)
    → ((d : LeaderId) → old ≡ some d → (d ≤? end.leader_id) ≡ true)
    → with_logs old last end i ≡ some x
    → (x ≤? end.leader_id) ≡ true
with_logs-NotAfter old last end i x top h =
    elim (Bool-cases (ltb last.index i && leb i end.index)) [
      | inl new ↦
          let own : end.leader_id ≡ x = some_inj (rw new at h) in
          subst (λ d. (d ≤? end.leader_id) ≡ true) own (le?_refl {A = LeaderId} end.leader_id)
      | inr before ↦ top x (rw before at h)
    ]

module _ {N : Type 0} where
  -- What is as before but for the logs and what is accepted.
  pub record Grown (s s' : RaftState N) : Type 0 where
    pub vote : s'.vote ≡ s.vote
    pub committed : s'.committed ≡ s.committed
    pub membership : s'.membership_state ≡ s.membership_state
    pub server_state : s'.server_state ≡ s.server_state
    pub purge_upto : s'.purge_upto ≡ s.purge_upto

  pub accept_io-Grown :
      (s : RaftState N) (io : IoId)
      → Grown s (accept_io s io).0 × ((accept_io s io).0.log_ids ≡ s.log_ids)
  unfolding accept_io
  accept_io-Grown s io = (
    record {
      vote = ground arith;
      committed = ground arith;
      membership = ground arith;
      server_state = ground arith;
      purge_upto = ground arith;
    },
    ground arith,
  )

  -- The log id that a leader gives to the `count`-th log after its last one.
  abbrev pub own_log : Leading N → LogId → ℕ → LogId
  own_log l last count = record {
    leader_id = l.lead.committed_vote.leader_id;
    index = last.index + count;
  }

  -- What a leader proposes, before it is sent.
  pub propose_lem :
      (l : Leading N) (e : Entry N) (es : List (Entry N))
      → let (l', es') = propose l (e ∷ es) in
        (es' ≡ (assign_log_ids l.lead (e ∷ es)).1)
        × (l'.lead ≡ record l.lead { last_log_id = (assign_log_ids l.lead (e ∷ es)).0.last_log_id })
        × (l'.node.state.log_ids ≡ extend_from_same_leader l.node.state.log_ids (log_ids_of es'))
        × Grown l.node.state l'.node.state
        × (l'.node.config ≡ l.node.config)
        × (l'.node.output ≡ l.node.output ++ append_input_entries l.lead.committed_vote es' ∷ [])
  unfolding propose assign_log_ids
  propose_lem l e es =
      let (lead', es') = assign_log_ids l.lead (e ∷ es) in
      let (kept, ids) =
        accept_io-Grown
          (record l.node.state {
            log_ids = extend_from_same_leader l.node.state.log_ids (log_ids_of es');
          })
          (new_log_io lead'.committed_vote lead'.last_log_id) in
      (
        refl,
        refl,
        ids,
        record {
          vote = kept.vote;
          committed = kept.committed;
          membership = kept.membership;
          server_state = kept.server_state;
          purge_upto = kept.purge_upto;
        },
        refl,
        refl,
      )

  pub no_membership :
      (d : LeaderId) (m : ℕ) (es : List (Entry N))
      → All (λ e. e.membership ≡ none) es
      → membership_entry (assign d m es).0 ≡ none
  unfolding membership_entry assign
  no_membership d m [] a = refl
  no_membership d m (e ∷ es) (h, a) = rw (no_membership d (add64 m 1) es a, h) refl

  pub length-assign :
      (d : LeaderId) (m : ℕ) (es : List (Entry N))
      → length (log_ids_of (assign d m es).0) ≡ length es
  unfolding assign
  length-assign d m [] = refl
  length-assign d m (e ∷ es) = ap suc (length-assign d (add64 m 1) es)

  -- The log ids that a leader gives: the first one, the others, and the last one.
  pub assigned :
      (l : Leading N) (last : LogId) (e : Entry N) (es : List (Entry N))
      → l.lead.last_log_id ≡ some last
      → last.index + 1 + length (e ∷ es) < 2 ^ 64
      → let r = assign_log_ids l.lead (e ∷ es) in
        (n : LogId) × (ns : List LogId) × (log_ids_of r.1 ≡ n ∷ ns)
        × Consecutive (suc last.index) (n ∷ ns)
        × All (λ x. x.leader_id ≡ l.lead.committed_vote.leader_id) (n ∷ ns)
        × (r.0.last_log_id ≡ some (own_log l last (length (e ∷ es))))
        × (last_of n ns ≡ own_log l last (length (e ∷ es)))
  unfolding assign_log_ids
  assigned l last e es h b =
      let d = l.lead.committed_vote.leader_id in
      let next : next_index l.lead.last_log_id ≡ suc last.index =
        rw h (add64_lem last.index 1 (omega (arith, b)) ∙ omega arith) in
      let (c, all, top) = assign_log_ids_lem l.lead e es (rw next (omega (arith, b))) in
      let n : LogId = record { leader_id = d; index = next_index l.lead.last_log_id } in
      let ns = log_ids_of (assign d (add64 (next_index l.lead.last_log_id) 1) es).0 in
      let c' : Consecutive (suc last.index) (n ∷ ns) = subst (λ m. Consecutive m (n ∷ ns)) next c in
      let size = length-assign d (add64 (next_index l.lead.last_log_id) 1) es in
      let end : last_of n ns ≡ own_log l last (length (e ∷ es)) =
        log_id_eq (last_of n ns) d (last.index + length (e ∷ es)) (All-last d n ns all)
          (Consecutive-last (suc last.index) n ns c' ∙ omega (arith, size)) in
      (n, ns, refl, c', all, top ∙ ap some end, end)
