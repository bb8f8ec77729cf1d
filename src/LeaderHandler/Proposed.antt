-- ===== src/LeaderHandler/Proposed.antt =====
-- A leader proposes logs: `leader_append_entries` of openraft/src/engine/handler/leader_handler.
use async_raft.Base.{
  ℕ, suc, ◌+◌, ◌<◌, ◌^◌, ◌≡◌, refl, ap, sym, ◌∙◌, ◌++◌, List, [], ◌∷◌, none, some, All, last_of,
  done, length, subst, arith, add64_lem,
}
use async_raft.LogIdList.Extend.{Consecutive}
use mathlib.Core.List.{append_assoc}
use async_raft.Vote.{CommittedVote, leader_id_ord}
use async_raft.LogIdList.Lookup.{leader_at}
use async_raft.LogId.{LogId, next_index}
use async_raft.LogIdList.{extend_from_same_leader}
use async_raft.RaftState.{last_log_id}
use async_raft.RaftState.Whole.{IsWhole, NotAfter, whole-Served}
use async_raft.Progress.InOrder.{All-map}
use async_raft.Leader.{assign_log_ids}
use async_raft.RaftState.Extended.{with_logs, IsExtended, extend-IsExtended}
use async_raft.Handler.{Entry, log_ids_of, append_input_entries}
use async_raft.Replication.{Leading, log_state}
use async_raft.Replication.Sends.{AreSearched, sends, initiate_replication-total}
use async_raft.LeaderHandler.{propose, membership_entry, replicate_proposed, leader_append_entries}
use async_raft.LeaderHandler.Assigned.{
  with_logs-NotAfter, Grown, own_log, propose_lem, no_membership, assigned, length-assign,
}

module _ {N : Type 0} where
  -- A leader that can send its log: it is whole and ends where the leader takes it to end, none of it is
  -- by a later leader, and the searches for the matching logs end inside it.
  pub record IsReady (l : Leading N) (a : LogId) (ks : List LogId) : Type 0 where
    pub last : l.lead.last_log_id ≡ some (last_of a ks)
    pub whole : IsWhole l.node.state a ks
    pub top : NotAfter l.lead.committed_vote.leader_id (a ∷ ks)
    pub searched : AreSearched (suc (last_of a ks).index) l.lead.progress.vector

  -- The logs of a leader after it has appended some.
  pub record Appended (l l' : Leading N) (a : LogId) (ks : List LogId) (count : ℕ) : Type 0 where
    pub log : List LogId
    pub ready : IsReady l' a log
    pub end : last_of a log ≡ own_log l (last_of a ks) count
    pub leaders :
        (i : ℕ)
        → leader_at (a ∷ log) i
          ≡ with_logs (leader_at (a ∷ ks) i) (last_of a ks) (own_log l (last_of a ks) count) i
    pub grown : Grown l.node.state l'.node.state
    pub committed_vote : l'.lead.committed_vote ≡ l.lead.committed_vote
    -- The entries that are written: as many as proposed, with the leader's own consecutive log ids.
    pub entries : List (Entry N)
    pub size : length (log_ids_of entries) ≡ count
    pub consecutive : Consecutive (suc (last_of a ks).index) (log_ids_of entries)
    pub own : All (λ x. x.leader_id ≡ l.lead.committed_vote.leader_id) (log_ids_of entries)
    -- The write, then a replication to each other node that something is to be sent to.
    pub sent :
        l'.node.output
        ≡ l.node.output
          ++ append_input_entries l.lead.committed_vote entries
            ∷ sends l.node.config (log_state l'.node.state) l.lead.progress.vector

  -- A leader that is ready appends entries without memberships to its log, without a panic, and it is
  -- ready again. They get its own consecutive log ids right after its last log, and no other log changes;
  -- the vote and what is committed stay. The commands that are pushed are the write of these entries,
  -- then one replication, of the logs or of a snapshot, to each other node for which `next_send`, with
  -- the new log, finds something to send, in the order of the progress. The indexes do not overflow.
  pub leader_append_entries_lem :
      (l : Leading N) (a : LogId) (ks : List LogId) (e : Entry N) (es : List (Entry N))
      → All (λ x. x.membership ≡ none) (e ∷ es)
      → IsReady l a ks
      → (last_of a ks).index + 1 + length (e ∷ es) + l.node.config.max_payload_entries < 2 ^ 64
      → (l' : Leading N) × (leader_append_entries l (e ∷ es) ≡ done l')
        × Appended l l' a ks (length (e ∷ es))
  unfolding leader_append_entries replicate_proposed assign_log_ids
  leader_append_entries_lem l a ks e es free r room =
      let end = own_log l (last_of a ks) (length (e ∷ es)) in
      let l1 = (propose l (e ∷ es)).0 in
      let (entries, lead, ids, grown, config, pushed) = propose_lem l e es in
      let (n, ns, shape, c, all, lead_last, ns_last) =
        assigned l (last_of a ks) e es r.last (omega (arith, room)) in
      let new_ids : log_ids_of (propose l (e ∷ es)).1 ≡ n ∷ ns = ap log_ids_of entries ∙ shape in
      let same_leader = All-map (n ∷ ns) (λ x k. k ∙ sym (all.0)) all in
      let extended : IsExtended l1.node.state a ks end =
        subst (IsExtended l1.node.state a ks) ns_last (
          extend-IsExtended l.node.state l1.node.state a ks n ns r.whole
            (ids
              ∙ ap (λ t. extend_from_same_leader t (log_ids_of (propose l (e ∷ es)).1))
                  (r.whole.parts)
              ∙ ap (λ x. extend_from_same_leader (a ∷ ks) (log_ids_of x)) entries
              ∙ ap (extend_from_same_leader (a ∷ ks)) shape)
            (grown.purge_upto) c same_leader
            (subst (λ d. NotAfter d (a ∷ ks)) (sym (all.0)) r.top)) in
      let (ks', w', last, leaders) = extended in
      let next : next_index (last_log_id l1.node.state) ≡ end.index + 1 =
        rw (w'.parts, last) (add64_lem end.index 1 (omega (arith, room))) in
      let (l', sent, (same_config, same), lead', searched, output) =
        initiate_replication-total l1
          (
            whole-Served l1.node.state a ks' w' (rw last (omega (arith, room))),
            rw config (omega (arith, next, room)),
          )
          (rw lead (
            All-map l.lead.progress.vector (λ x (p, q). (p, omega (arith, q, next))) r.searched)) in
      let none_there =
        ap membership_entry entries
        ∙ no_membership l.lead.committed_vote.leader_id (next_index l.lead.last_log_id) (e ∷ es)
            free in
      let d = l.lead.committed_vote.leader_id in
      let vote : l'.lead.committed_vote ≡ l.lead.committed_vote = rw (lead', lead) refl in
      let none_after : NotAfter d (a ∷ ks') = λ i x k.
        with_logs-NotAfter (leader_at (a ∷ ks) i) (last_of a ks) end i x (r.top i)
          (sym (leaders i) ∙ k) in
      (
        l',
        rw none_there sent,
        record {
          log = ks';
          ready = record {
            last = rw (lead', lead) lead_last ∙ ap some (sym last);
            whole = subst (λ st. IsWhole st a ks') (sym same) w';
            top =
                subst (λ (v : CommittedVote). NotAfter v.leader_id (a ∷ ks')) (sym vote) none_after;
            searched =
                subst (λ m. AreSearched m l'.lead.progress.vector) (next ∙ rw last (omega arith))
                  searched;
          };
          end = last;
          leaders = leaders;
          grown = rw same grown;
          committed_vote = vote;
          entries = (propose l (e ∷ es)).1;
          size = rw entries (
              length-assign l.lead.committed_vote.leader_id (next_index l.lead.last_log_id)
                (e ∷ es));
          consecutive = subst (Consecutive (suc (last_of a ks).index)) (sym new_ids) c;
          own = subst (All (λ x. x.leader_id ≡ l.lead.committed_vote.leader_id)) (sym new_ids) all;
          sent =
              output
              ∙ rw (pushed, config, lead, same)
                  (append_assoc l.node.output
                    (append_input_entries l.lead.committed_vote (propose l (e ∷ es)).1 ∷ [])
                    (sends l.node.config (log_state l1.node.state) l.lead.progress.vector));
        },
      )
