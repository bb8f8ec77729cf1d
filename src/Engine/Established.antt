-- ===== src/Engine/Established.antt =====
-- A candidate that a quorum has granted becomes the leader: `establish_leader` and `handle_vote_resp` of
-- openraft/src/engine/engine_impl.rs.
use async_raft.Base.{
  ℕ, suc, ◌+◌, ◌<◌, ◌^◌, ◌≡◌, refl, subst, ◌∙◌, Bool, true, false, List, ◌∷◌, none, some, All,
  last_of, Checked, Ensures, Ensures-done, done, panicked, arith, add64_lem,
}
use async_raft.Base.Order.{◌<?◌, ◌=?◌, option_ord, lt?→le?, eq→=?}
use async_raft.Vote.{Vote, leader_id_ord, committed_vote}
use async_raft.Vote.AdvOrder.{vote_ord, bool_ord, vote_ge_lem}
use async_raft.LogId.{LogId, log_id_ord}
use async_raft.Membership.{contains}
use async_raft.Progress.{VecProgress, Found, found, not_found, update}
use async_raft.Candidate.{Candidate, grant_by, self}
use async_raft.Leader.{Leader, into_leader, first_own, matching_of}
use async_raft.Leader
use async_raft.RaftState.{is_leader, calc_server_state, effective_membership}
use async_raft.RaftState.Whole.{IsWhole, NotAfter}
use async_raft.Handler.{update_server_state}
use async_raft.Replication.{rebuild_streams}
use async_raft.Replication.Sends.{IsSearched}
use async_raft.Engine.{Engine, Times, leading, with_leading}
use async_raft.Engine.Ahead.{grant_vote_lem}
use async_raft.Engine.Voting.{grant_vote, refresh}
use async_raft.Engine.Electing.{
  VoteResponse, establish_if, establish_leader, count_vote, vote_resp_of, handle_vote_resp,
}
use async_raft.Engine.Searches.{
  reset_inflight-IsSearched, new_leader-IsSearched, commit-greater, establish-new,
}
use async_raft.Engine.NewLeader.{
  grant_vote-Led, update_vote-own, IsLeading, lead_with-IsLeading, own-is_leader,
}

-- A candidate keeps all but its progress when a node grants its vote.
counted :
    (c : Candidate) (p : VecProgress Bool Bool) (r : Found Bool)
    → Ensures
        (elim r as (λ _. Checked (Candidate × Bool)) [
          | found b ↦ done (record c { progress = p }, b)
          | not_found b ↦ panicked
        ])
        (λ x. (x.0.vote ≡ c.vote) × (x.0.last_log_id ≡ c.last_log_id))
counted c p (found b) = (refl, refl)
counted c p (not_found b) = tt

granted_by-done :
    (c c' : Candidate) (target : ℕ) (b : Bool)
    → grant_by c target ≡ done (c', b)
    → (c'.vote ≡ c.vote) × (c'.last_log_id ≡ c.last_log_id)
unfolding grant_by
granted_by-done c c' target b h =
    let (p, r) = update self c.progress target true in
    Ensures-done (grant_by c target) (λ x. (x.0.vote ≡ c.vote) × (x.0.last_log_id ≡ c.last_log_id))
      (counted c p r) h

module _ {N : Type 0} where
  establish_if-IsLeading :
      (e : Engine N) (now : ℕ) (t : Times) (c : Candidate) (a : LogId) (ks : List LogId)
      → e.candidate ≡ none
      → c.vote ≡ e.node.state.vote.data_of
      → c.vote.committed ≡ false
      → c.vote.leader_id.node_id ≡ e.node.config.id
      → contains (effective_membership e.node.state) e.node.config.id ≡ true
      → c.last_log_id ≡ some (last_of a ks)
      → IsWhole e.node.state a ks
      → NotAfter c.vote.leader_id (a ∷ ks)
      → (last_of a ks).index + 2 + e.node.config.max_payload_entries < 2 ^ 64
      → (e' : Engine N) × (establish_if e t (some (into_leader now c)) ≡ done e')
        × IsLeading e.node.state e' c.vote a ks
  unfolding establish_if rebuild_streams into_leader Leader.new update_server_state
      calc_server_state
  establish_if-IsLeading e now t c a ks free own pending mine member last w top room =
      let l0 = into_leader now c in
      let e2 = with_leading e (rebuild_streams (leading e l0)) in
      let l2 = (rebuild_streams (leading e l0)).lead in
      let v = committed_vote l0.committed_vote in
      let old = e.node.state.vote.data_of in
      let lt : (old <? v) ≡ true =
        subst (λ (x : Vote). (x <? v) ≡ true) own (commit-greater c.vote pending) in
      let given = grant_vote e2 t.voted v in
      let q = grant_vote-Led e2 t.voted v in
      let (vote, committed) =
        grant_vote_lem e2 t.voted v (vote_ge_lem v old ∙ lt?→le? {A = Vote} old v lt) in
      let g = refresh (record given { leader = some l2 }) in
      let led : is_leader given.node.state given.node.config.id ≡ true =
        own-is_leader given.node.state given.node.config.id l0.committed_vote vote
          (rw (q.config) mine) (rw (q.config, q.membership) member) in
      let whole : IsWhole g.node.state a ks = record {
        parts = q.log_ids ∙ w.parts;
        ascending = w.ascending;
        first = λ i p. w.first i (rw (q.purge_upto) at p);
        rising = w.rising;
      } in
      let end = add64_lem (last_of a ks).index 1 (omega (arith, room)) in
      let searched =
        reset_inflight-IsSearched (suc (last_of a ks).index) e.node.config.id l0.progress.vector (
          subst (λ n. All (λ x. IsSearched n x.1) l0.progress.vector) (end ∙ omega arith)
            (new_leader-IsSearched now c (last_of a ks) last)) in
      let (e', done_it, leads) =
        lead_with-IsLeading e.node.state g c.vote l0 l2 a ks refl (q.candidate ∙ free) vote
          committed (rw led refl) refl (rw last refl) whole top (rw (q.config) room) searched in
      (e', rw (update_vote-own e2 t l2 refl lt mine member) done_it, leads)

  -- The answer that completes a quorum makes the candidate the leader, without a panic: the vote is
  -- committed, the first log of the leader is proposed right after the last one, the other logs and what
  -- is committed stay, and the leader is ready to append more. The candidate is a member, its vote is
  -- that of the node and greater than that of the leader that there is, if any; the log of the node is
  -- whole, it has no log of a later leader, and the indexes do not overflow.
  pub handle_vote_resp-leads :
      (e : Engine N) (now : ℕ) (t : Times) (target : ℕ) (resp : VoteResponse) (c c' : Candidate)
      (a : LogId) (ks : List LogId)
      → e.candidate ≡ some c
      → resp.vote_granted ≡ true
      → resp.vote ≡ c.vote
      → grant_by c target ≡ done (c', true)
      → ((l : Leader) → e.leader ≡ some l → (committed_vote l.committed_vote <? c.vote) ≡ true)
      → c.vote ≡ e.node.state.vote.data_of
      → c.vote.committed ≡ false
      → c.vote.leader_id.node_id ≡ e.node.config.id
      → contains (effective_membership e.node.state) e.node.config.id ≡ true
      → c.last_log_id ≡ some (last_of a ks)
      → IsWhole e.node.state a ks
      → NotAfter c.vote.leader_id (a ∷ ks)
      → (last_of a ks).index + 2 + e.node.config.max_payload_entries < 2 ^ 64
      → (e' : Engine N) × (handle_vote_resp e now t target resp ≡ done e')
        × IsLeading e.node.state e' c.vote a ks
  unfolding handle_vote_resp vote_resp_of count_vote establish_leader
  handle_vote_resp-leads e now t target resp c c' a ks h yes_vote for_it quorum greater own pending
        mine member last w top room =
      let (vote, has_last) = granted_by-done c c' target true quorum in
      let (e', done_it, leads) =
        establish_if-IsLeading (record e { candidate = none }) now t c' a ks refl (vote ∙ own)
          (rw vote pending) (rw vote mine) member (has_last ∙ last) w (rw vote top) room in
      let same : (resp.vote =? c.vote) ≡ true = eq→=? {A = Vote} resp.vote c.vote for_it in
      (
        e',
        rw (h, yes_vote, same, quorum, establish-new now e.leader c' (rw vote greater)) done_it,
        rw vote at leads,
      )
