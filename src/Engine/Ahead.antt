-- ===== src/Engine/Ahead.antt =====
-- No operation of the engine (openraft/src/engine/engine_impl.rs) takes a vote or a commit back: the
-- relation, and the operations on votes.
use async_raft.Base.{
  ℕ, ◌≡◌, refl, sym, ◌∙◌, true, Option, if◌then◌else◌, Ensures, Ensures-bind, Ensures-map, arith,
  if-cases, Bool-cases, inl, inr,
}
use async_raft.Base.Order.{◌≤?◌, option_ord, le?_refl, le?_trans, le?_antisymm, not_lt?→le?}
use async_raft.Vote.{Vote, vote_ge, vote_gt}
use async_raft.Vote.AdvOrder.{vote_ord, vote_ge_lem, vote_gt_lem}
use async_raft.LogId.{LogId, log_id_ord}
use async_raft.Leased.{Leased, update, touch}
use async_raft.RaftState.{RaftState}
use async_raft.Engine.{Engine, Times}
use async_raft.Engine.Voting.{
  granted, by_vote, grant_vote, update_vote, update_internal_server_state,
}
use async_raft.Engine.Same.{Same, accept_io-Same, update_internal_server_state-Same}

touch-data_of : (s : Leased Vote) (now lease : ℕ) → (touch s now lease).data_of ≡ s.data_of
unfolding touch
touch-data_of s now lease = ground arith

chosen_le : (a b : Vote) → (a ≤? (if a ≤? b then b else a)) ≡ true
chosen_le a b = elim (Bool-cases (a ≤? b)) [
  | inl e ↦ rw (e) e
  | inr e ↦ rw e (le?_refl {A = Vote} a)
]

module _ {N : Type 0} where
  -- The vote and the committed log id are at least what they were.
  abbrev pub Ahead : RaftState N → RaftState N → Type 0
  Ahead s s' = ((s.vote.data_of ≤? s'.vote.data_of) ≡ true) × ((s.committed ≤? s'.committed) ≡ true)

  pub Ahead-refl : (s : RaftState N) → Ahead s s
  Ahead-refl s = (le?_refl {A = Vote} s.vote.data_of, le?_refl {A = Option LogId} s.committed)

  pub Ahead-trans : (a b c : RaftState N) → Ahead a b → Ahead b c → Ahead a c
  Ahead-trans a b c (p, q) (r, t) = (
    le?_trans {A = Vote} a.vote.data_of b.vote.data_of c.vote.data_of p r,
    le?_trans {A = Option LogId} a.committed b.committed c.committed q t,
  )

  pub Same-Ahead : (s s' : RaftState N) → Same s s' → Ahead s s'
  Same-Ahead s s' (p, q) =
      (rw p (le?_refl {A = Vote} s.vote.data_of), rw q (le?_refl {A = Option LogId} s.committed))

  -- A vote that is at least that of the node becomes the vote of the node.
  pub grant_vote_lem :
      (e : Engine N) (now : ℕ) (v : Vote)
      → vote_ge v e.node.state.vote.data_of ≡ true
      → ((grant_vote e now v).node.state.vote.data_of ≡ v)
        × ((grant_vote e now v).node.state.committed ≡ e.node.state.committed)
  unfolding grant_vote update
  grant_vote_lem e now v h =
      let old = e.node.state.vote.data_of in
      let lease = if v.committed then e.node.config.leader_lease else 0 in
      if-cases
        (λ (x : Engine N).
          (x.node.state.vote.data_of ≡ v) × (x.node.state.committed ≡ e.node.state.committed))
        (vote_gt v old) (λ _. accept_io-Same _ _)
        (λ le. (
          touch-data_of e.node.state.vote now lease
              ∙ le?_antisymm {A = Vote} old v (sym (vote_ge_lem v old) ∙ h)
                  (not_lt?→le? {A = Vote} old v (sym (vote_gt_lem v old) ∙ le)),
          refl,
        ))

  -- The answer to a vote is granted exactly if the vote is at least that of the node, which then has
  -- it; else nothing changes. What is committed stays.
  pub update_vote_lem :
      (e : Engine N) (t : Times) (v : Vote)
      → Ensures (update_vote e t v) (λ r.
        (r.1
          ≡ (if e.node.state.vote.data_of ≤? v then granted else by_vote e.node.state.vote.data_of))
        × (r.0.node.state.vote.data_of
            ≡ (if e.node.state.vote.data_of ≤? v then v else e.node.state.vote.data_of))
        × (r.0.node.state.committed ≡ e.node.state.committed))
  unfolding update_vote
  update_vote_lem e t v =
      let old = e.node.state.vote.data_of in
      let ge = vote_ge_lem v old in
      let given = grant_vote e t.voted v in
      elim (Bool-cases (old ≤? v)) [
        | inl le ↦
            let (a, b) = grant_vote_lem e t.voted v (ge ∙ le) in
            rw (ge, le)
              (Ensures-bind (update_internal_server_state given t.led) _
                (λ e'. Same given.node.state e'.node.state) _
                (update_internal_server_state-Same given t.led) (λ e' (p, q). (refl, p ∙ a, q ∙ b)))
        | inr lt ↦ rw (ge, lt) (refl, refl, refl)
      ]

  pub update_vote-Ahead :
      (e : Engine N) (t : Times) (v : Vote)
      → Ensures (update_vote e t v) (λ r. Ahead e.node.state r.0.node.state)
  update_vote-Ahead e t v =
      let old = e.node.state.vote.data_of in
      Ensures-map (update_vote e t v) _ _ (update_vote_lem e t v) (λ r (p, q, c).
        (rw q (chosen_le old v), rw c (le?_refl {A = Option LogId} e.node.state.committed)))
