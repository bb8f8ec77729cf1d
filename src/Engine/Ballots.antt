-- ===== src/Engine/Ballots.antt =====
-- Requests for votes, and the start of an election: `handle_vote_req` and `elect` of
-- openraft/src/engine/engine_impl.rs. A vote that is not committed makes no leader.
use async_raft.Base.{
  ℕ, ◌+◌, ◌<◌, ◌≡◌, refl, ◌∙◌, ap, Bool, true, false, not, ◌&&◌, [], ◌∷◌, ◌++◌, if◌then◌else◌, done,
  arith, Bool-cases, inl, inr, u64_mod, add64_lem,
}
use async_raft.Base.Order.{◌≤?◌, ◌<?◌, option_ord, lt?→le?}
use mathlib.Core.List.{append_assoc}
use async_raft.Vote.{Vote, next_term}
use async_raft.Vote.AdvOrder.{vote_ord, vote_ge_lem, vote_gt_lem}
use async_raft.LogId.{log_id_ord}
use async_raft.Leased.{Leased, is_expired}
use async_raft.Membership.{contains}
use async_raft.RaftState.{
  RaftState, last_log_id, is_leader, is_leading, accept_io, effective_membership,
}
use async_raft.Handler.{save_vote, send_vote, update_server_state}
use async_raft.Engine.{Engine, Times, new_candidate, emit}
use async_raft.Engine.Voting.{
  granted, by_vote, grant_vote, update_vote, update_internal_server_state, become_following,
  refresh,
}
use async_raft.Engine.Electing.{VoteRequest, handle_vote_req, respond_vote, elect, send_ballot}
use async_raft.Engine.Ahead.{grant_vote_lem}

module _ {N : Type 0} where
  -- The role after a vote that is not committed: the leader and the candidate are given up, unless the
  -- vote is for this node.
  abbrev follow : Engine N → Engine N
  follow e = if is_leading e.node.state e.node.config.id then e else become_following e

  not_leader :
      (e : Engine N) (now : ℕ)
      → e.node.state.vote.data_of.committed ≡ false
      → update_internal_server_state e now ≡ done (follow e)
  unfolding update_internal_server_state is_leader
  not_leader e now h = ground (arith, h)

  follow-state :
      (e : Engine N)
      → ((follow e).node.state.vote ≡ e.node.state.vote)
        × ((follow e).node.state.committed ≡ e.node.state.committed)
        × ((follow e).node.output ≡ e.node.output)
  unfolding become_following update_server_state
  follow-state e = ground arith

  update_vote-ballot :
      (e : Engine N) (t : Times) (v : Vote)
      → v.committed ≡ false
      → (e.node.state.vote.data_of ≤? v) ≡ true
      → update_vote e t v ≡ done (follow (grant_vote e t.voted v), granted)
  unfolding update_vote
  update_vote-ballot e t v c le =
      let ge = vote_ge_lem v e.node.state.vote.data_of ∙ le in
      let given = grant_vote e t.voted v in
      rw
        (
          ge,
          not_leader given t.led
              (ap (λ (w : Vote). w.committed) (grant_vote_lem e t.voted v ge).0 ∙ c),
        )
        refl

  update_vote-rejected :
      (e : Engine N) (t : Times) (v : Vote)
      → (e.node.state.vote.data_of ≤? v) ≡ false
      → update_vote e t v ≡ done (e, by_vote e.node.state.vote.data_of)
  unfolding update_vote
  update_vote-rejected e t v lt = rw (vote_ge_lem v e.node.state.vote.data_of, lt) refl

  -- No lease of a leader is running.
  abbrev pub lease_free : RaftState N → ℕ → Bool
  lease_free s now = not (s.vote.data_of.committed && not (is_expired s.vote now 0))

  -- What a vote needs: no running lease of a leader, a log that is not behind, a vote that is at least
  -- that of the node.
  abbrev pub may_vote : RaftState N → ℕ → VoteRequest → Bool
  may_vote s now req =
      lease_free s now && ((last_log_id s ≤? req.last_log_id) && (s.vote.data_of ≤? req.vote))

  -- A request for a vote that is not committed is always answered. It is granted exactly if no lease
  -- of a leader is running, the log of the candidate is not behind and its vote is at least that of the
  -- node. Then the node has that vote, else it is unchanged; what is committed stays.
  pub handle_vote_req_lem :
      (e : Engine N) (now : ℕ) (t : Times) (req : VoteRequest)
      → req.vote.committed ≡ false
      → let s = e.node.state in
        (e' : Engine N) × (handle_vote_req e now t req
          ≡ done (respond_vote e' (may_vote s now req)))
        × (e'.node.state.vote.data_of ≡ (if may_vote s now req then req.vote else s.vote.data_of))
        × (e'.node.state.committed ≡ s.committed)
        × (may_vote s now req ≡ false → e' ≡ e)
  unfolding handle_vote_req
  handle_vote_req_lem e now t req c =
      let s = e.node.state in
      elim (Bool-cases (s.vote.data_of.committed && not (is_expired s.vote now 0))) [
        | inl leased ↦ (e, rw leased refl, rw leased refl, refl, λ _. refl)
        | inr free ↦ elim (Bool-cases (last_log_id s ≤? req.last_log_id)) [
          | inr behind ↦ (e, rw (free, behind) refl, rw (free, behind) refl, refl, λ _. refl)
          | inl log ↦ elim (Bool-cases (s.vote.data_of ≤? req.vote)) [
            | inr less ↦ (
              e,
              rw (free, log, less, update_vote-rejected e t req.vote less) refl,
              rw (free, log, less) refl,
              refl,
              λ _. refl,
            )
            | inl le ↦
                let given = grant_vote e t.voted req.vote in
                let (vote, committed, _) = follow-state given in
                let (v, k) =
                  grant_vote_lem e t.voted req.vote (vote_ge_lem req.vote s.vote.data_of ∙ le) in
                (
                  follow given,
                  rw (free, log, le, update_vote-ballot e t req.vote c le) refl,
                  rw (free, log, le) (ap (λ (l : Leased Vote). l.data_of) vote ∙ v),
                  committed ∙ k,
                  λ no. absurd (ground (arith, no, free, log, le)),
                )
          ]
        ]
      ]

  -- The vote by which a node starts an election.
  abbrev pub next_ballot : Engine N → Vote
  next_ballot e = record {
    leader_id = record {
      term = next_term e.node.state.vote.data_of.leader_id.term;
      node_id = e.node.config.id;
    };
    committed = false;
  }

  next_ballot-greater :
      (e : Engine N)
      → e.node.state.vote.data_of.leader_id.term + 1 < u64_mod
      → (e.node.state.vote.data_of <? next_ballot e) ≡ true
  unfolding next_term
  next_ballot-greater e b = ground (arith, add64_lem e.node.state.vote.data_of.leader_id.term 1 b)

  -- A greater vote is saved.
  grant_vote-greater :
      (e : Engine N) (now : ℕ) (v : Vote)
      → (e.node.state.vote.data_of <? v) ≡ true
      → let e' = grant_vote e now v in
        (e'.node.output ≡ e.node.output ++ save_vote v ∷ [])
        × (e'.candidate ≡ e.candidate)
        × (e'.node.config ≡ e.node.config)
        × (effective_membership e'.node.state ≡ effective_membership e.node.state)
  unfolding grant_vote accept_io
  grant_vote-greater e now v h =
      let gt = vote_gt_lem v e.node.state.vote.data_of ∙ h in rw gt (refl, refl, refl, ground arith)

  elected-candidate :
      (e : Engine N)
      → contains (effective_membership e.node.state) e.node.config.id ≡ true
      → e.node.state.vote.data_of.leader_id.node_id ≡ e.node.config.id
      → follow e ≡ e
  unfolding is_leading
  elected-candidate e m own = ground (arith, m, own)

  -- If the term can grow, an election always starts: the node has a vote for itself in the next term,
  -- greater than the one before; the vote is saved before it is sent, with the last log id of the
  -- node; what is committed stays. A member is then a candidate for that vote.
  pub elect_lem :
      (e : Engine N) (now : ℕ) (t : Times)
      → e.node.state.vote.data_of.leader_id.term + 1 < u64_mod
      → let v = next_ballot e in
        (e' : Engine N) × (elect e now t ≡ done e')
        × (e'.node.state.vote.data_of ≡ v)
        × ((e.node.state.vote.data_of <? v) ≡ true)
        × (e'.node.state.committed ≡ e.node.state.committed)
        × (e'.node.output
            ≡ e.node.output ++ save_vote v ∷ send_vote v (last_log_id e.node.state) ∷ [])
        × (contains (effective_membership e.node.state) e.node.config.id ≡ true
            → e'.candidate ≡ (new_candidate e now v).candidate)
  unfolding elect send_ballot new_candidate update_server_state
  elect_lem e now t b =
      let v = next_ballot e in
      let gt = next_ballot-greater e b in
      let le = lt?→le? {A = Vote} e.node.state.vote.data_of v gt in
      let c = new_candidate e now v in
      let given = grant_vote c t.voted v in
      let (vote, committed, output) = follow-state given in
      let (w, k) = grant_vote_lem c t.voted v (vote_ge_lem v e.node.state.vote.data_of ∙ le) in
      let (saved, kept, config, members) = grant_vote-greater c t.voted v gt in
      (
        refresh (emit (follow given) (send_vote v (last_log_id e.node.state))),
        rw (update_vote-ballot c t v refl le) refl,
        ap (λ (l : Leased Vote). l.data_of) vote ∙ w,
        gt,
        committed ∙ k,
        rw (output, saved) (simp append_assoc),
        λ m.
            ap (λ (x : Engine N). x.candidate)
              (elected-candidate given (rw (members, config) m) (rw (w, config) refl))
            ∙ kept,
      )
