-- ===== src/Engine/NewLeader.antt =====
-- What makes a node with a granted vote lead: the vote and establish handlers of openraft/src/engine/handler,
-- and the end of `establish_leader` of openraft/src/engine/engine_impl.rs.
use async_raft.Base.{
  ℕ, suc, ◌+◌, ◌<◌, ◌^◌, ◌≡◌, refl, sym, ap, subst, ◌∙◌, true, List, [], ◌∷◌, none, some, All,
  last_of, done, arith,
}
use async_raft.Base.Order.{◌<?◌, ◌=?◌, option_ord, lt?→le?, =?_refl}
use async_raft.Vote.{Vote, CommittedVote, LeaderId, leader_id_ord, committed_vote, to_committed}
use async_raft.Vote.AdvOrder.{vote_ord, vote_ge_lem}
use async_raft.LogId.{LogId, log_id_ord}
use async_raft.IoState.{new_log_io}
use async_raft.Membership.{contains}
use async_raft.Leader.{Leader}
use async_raft.RaftState.{
  RaftState, ServerState, accept_io, is_leader, is_leading, effective_membership,
}
use async_raft.RaftState.Extended.{with_logs}
use async_raft.LogIdList.Lookup.{leader_at}
use async_raft.RaftState.Whole.{IsWhole, NotAfter}
use async_raft.Replication.Sends.{IsSearched}
use async_raft.LeaderHandler.Assigned.{accept_io-Grown}
use async_raft.LeaderHandler.Proposed.{leader_append_entries_lem, IsReady}
use async_raft.Engine.{Engine, Times, with_state, leading, with_leading, blank}
use async_raft.Engine.Ahead.{grant_vote_lem}
use async_raft.Engine.Voting.{
  granted, grant_vote, update_vote, update_internal_server_state, become_leader, lead_after,
  refresh,
}
use async_raft.Engine.Electing.{lead_with}
use async_raft.Engine.Searches.{first_of}

module _ {N : Type 0} where
  -- What a vote of its own leaves to a node.
  pub record Led (e e' : Engine N) : Type 0 where
    pub log_ids : e'.node.state.log_ids ≡ e.node.state.log_ids
    pub purge_upto : e'.node.state.purge_upto ≡ e.node.state.purge_upto
    pub membership : e'.node.state.membership_state ≡ e.node.state.membership_state
    pub config : e'.node.config ≡ e.node.config
    pub candidate : e'.candidate ≡ e.candidate
    pub leader : e'.leader ≡ e.leader

  pub grant_vote-Led : (e : Engine N) (now : ℕ) (v : Vote) → Led e (grant_vote e now v)
  unfolding grant_vote accept_io
  grant_vote-Led e now v = record {
    log_ids = ground arith;
    purge_upto = ground arith;
    membership = ground arith;
    config = ground arith;
    candidate = ground arith;
    leader = ground arith;
  }

  pub own-is_leader :
      (s : RaftState N) (id : ℕ) (v : CommittedVote)
      → s.vote.data_of ≡ committed_vote v
      → v.leader_id.node_id ≡ id
      → contains (effective_membership s) id ≡ true
      → is_leader s id ≡ true
  unfolding is_leader is_leading
  own-is_leader s id v e own member =
      let committed : s.vote.data_of.committed ≡ true = ap (λ (w : Vote). w.committed) e in
      let node : s.vote.data_of.leader_id.node_id ≡ v.leader_id.node_id =
        ap (λ (w : Vote). w.leader_id.node_id) e in
      ground (arith, member, committed, node, own)

  -- The leader that there is stays it, with its committed vote.
  stay_leader :
      (g : Engine N) (now : ℕ) (l : Leader)
      → g.leader ≡ some l
      → g.node.state.vote.data_of ≡ committed_vote l.committed_vote
      → l.committed_vote.leader_id.node_id ≡ g.node.config.id
      → contains (effective_membership g.node.state) g.node.config.id ≡ true
      → update_internal_server_state g now ≡ done (refresh (record g { leader = some l }))
  unfolding update_internal_server_state become_leader lead_after
  stay_leader g now l h v own member =
      let s = g.node.state in
      let id = l.committed_vote.leader_id in
      let leads = own-is_leader s g.node.config.id l.committed_vote v own member in
      let same : (id =? s.vote.data_of.leader_id) ≡ true =
        subst (λ (w : Vote). (id =? w.leader_id) ≡ true) (sym v) (=?_refl {A = LeaderId} id) in
      rw (leads, h, same)
        (ap
          (λ (w : Vote).
            done
              (refresh (record g { leader = some (record l { committed_vote = to_committed w }) })))
          v)

  -- The committed vote of the leader that there is.
  pub update_vote-own :
      (e : Engine N) (t : Times) (l : Leader)
      → e.leader ≡ some l
      → (e.node.state.vote.data_of <? committed_vote l.committed_vote) ≡ true
      → l.committed_vote.leader_id.node_id ≡ e.node.config.id
      → contains (effective_membership e.node.state) e.node.config.id ≡ true
      → let given = grant_vote e t.voted (committed_vote l.committed_vote) in
        update_vote e t (committed_vote l.committed_vote)
        ≡ done (refresh (record given { leader = some l }), granted)
  unfolding update_vote
  update_vote-own e t l h lt own member =
      let v = committed_vote l.committed_vote in
      let old = e.node.state.vote.data_of in
      let given = grant_vote e t.voted v in
      let ge = vote_ge_lem v old ∙ lt?→le? {A = Vote} old v lt in
      let q = grant_vote-Led e t.voted v in
      let led =
        stay_leader given t.led l (q.leader ∙ h) (grant_vote_lem e t.voted v ge).0
          (rw (q.config) own) (rw (q.config, q.membership) member) in
      rw (ge, led) refl

  -- The node leads by its committed vote, and has a first log of its own.
  pub record IsLeading (s : RaftState N) (e' : Engine N) (v : Vote) (a : LogId) (ks : List LogId)
      : Type 0 where
    pub lead : Leader
    pub leader : e'.leader ≡ some lead
    pub of_candidate : lead.committed_vote.leader_id ≡ v.leader_id
    pub log : List LogId
    pub ready : IsReady (leading e' lead) a log
    pub end : last_of a log ≡ first_of v (last_of a ks)
    pub leaders :
        (i : ℕ)
        → leader_at (a ∷ log) i
          ≡ with_logs (leader_at (a ∷ ks) i) (last_of a ks) (first_of v (last_of a ks)) i
    pub vote : e'.node.state.vote.data_of ≡ record v { committed = true }
    pub committed : e'.node.state.committed ≡ s.committed
    pub server_state : e'.node.state.server_state ≡ ServerState.leader
    pub candidate : e'.candidate ≡ none

  pub lead_with-IsLeading :
      (s : RaftState N) (g : Engine N) (v : Vote) (l0 l : Leader) (a : LogId) (ks : List LogId)
      → g.leader ≡ some l
      → g.candidate ≡ none
      → g.node.state.vote.data_of ≡ record v { committed = true }
      → g.node.state.committed ≡ s.committed
      → g.node.state.server_state ≡ ServerState.leader
      → l.committed_vote.leader_id ≡ v.leader_id
      → l.last_log_id ≡ some (last_of a ks)
      → IsWhole g.node.state a ks
      → NotAfter v.leader_id (a ∷ ks)
      → (last_of a ks).index + 2 + g.node.config.max_payload_entries < 2 ^ 64
      → All (λ x. IsSearched (suc (last_of a ks).index) x.1) l.progress.vector
      → (e' : Engine N) × (lead_with g l0 ≡ done e') × IsLeading s e' v a ks
  unfolding lead_with
  lead_with-IsLeading s g v l0 l a ks h none_left vote committed server of_candidate last w top room
        searched =
      let io = new_log_io l0.committed_vote l0.last_log_id in
      let (kept, ids) = accept_io-Grown g.node.state io in
      let accepted = with_state g (accept_io g.node.state io).0 in
      let whole : IsWhole accepted.node.state a ks = record {
        parts = ids ∙ w.parts;
        ascending = w.ascending;
        first = λ i p. w.first i (rw (kept.purge_upto) at p);
        rising = w.rising;
      } in
      let (l', done_it, appended) =
        leader_append_entries_lem (leading accepted l) a ks blank [] (refl, tt)
          (record { last = last; whole = whole; top = rw of_candidate top; searched = searched })
          (omega (arith, room)) in
      let grown = appended.grown in
      let first : LeaderId → LogId =
        λ d. record { leader_id = d; index = (last_of a ks).index + 1 } in
      let own = ap first of_candidate in
      (
        with_leading accepted l',
        rw (h, done_it) refl,
        record {
          lead = l'.lead;
          leader = refl;
          of_candidate =
              ap (λ (x : CommittedVote). x.leader_id) (appended.committed_vote) ∙ of_candidate;
          log = appended.log;
          ready = appended.ready;
          end = appended.end ∙ own;
          leaders = λ i.
              appended.leaders i
              ∙ ap (λ x. with_logs (leader_at (a ∷ ks) i) (last_of a ks) x i) own;
          vote = rw (grown.vote, kept.vote) vote;
          committed = grown.committed ∙ kept.committed ∙ committed;
          server_state = grown.server_state ∙ kept.server_state ∙ server;
          candidate = none_left;
        },
      )
