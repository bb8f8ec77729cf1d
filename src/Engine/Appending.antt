-- ===== src/Engine/Appending.antt =====
-- A leader on another node sends entries: `append_entries` of openraft/src/engine/engine_impl.rs.
use async_raft.Base.{
  ℕ, ◌≡◌, ◌≢◌, refl, sym, ap, ◌∙◌, true, false, List, Option, none, some, if◌then◌else◌, done,
  arith, Bool-cases, inl, inr, true-false,
}
use async_raft.Base.Order.{◌≤?◌}
use async_raft.Vote.{Vote, to_committed}
use async_raft.Vote.AdvOrder.{vote_ord, vote_ge_lem}
use async_raft.LogId.{LogId}
use async_raft.Leased.{Leased}
use async_raft.RaftState.{RaftState, is_leader, is_leading, accept_io, has_log_id, get_log_id}
use async_raft.Handler.{Config, Entry, update_server_state}
use async_raft.Following.{ensure_log_consecutive}
use async_raft.Engine.{Engine, Times}
use async_raft.Engine.Voting.{
  granted, grant_vote, update_vote, update_internal_server_state, become_following,
}
use async_raft.Engine.Requests.{
  AppendResult, appended, rejected_by_vote, rejected_by_log, append_voted, append_to_log,
}
use async_raft.Engine.Ahead.{grant_vote_lem}
use async_raft.Engine.Followed.{truncate_logs-Same, append_entries-Same}

module _ {N : Type 0} where
  -- The node as a follower of the sender of a vote.
  abbrev follower_of : Engine N → ℕ → Vote → Engine N
  follower_of e now v = become_following (grant_vote e now v)

  -- The answer, by the log before the request.
  abbrev pub log_answer : RaftState N → Option LogId → AppendResult
  log_answer s none = appended
  log_answer s (some prev) =
      if has_log_id s prev then appended else rejected_by_log (get_log_id s prev.index) prev

  abbrev pub append_answer : RaftState N → Vote → Option LogId → AppendResult
  append_answer s v prev =
      if s.vote.data_of ≤? v then log_answer s prev else rejected_by_vote s.vote.data_of

  of_another :
      (e : Engine N) (now : ℕ)
      → e.node.state.vote.data_of.leader_id.node_id ≢ e.node.config.id
      → update_internal_server_state e now ≡ done (become_following e)
  unfolding update_internal_server_state is_leader is_leading
  of_another e now h = ground (arith, h)

  grant_vote-config :
      (e : Engine N) (now : ℕ) (v : Vote) → (grant_vote e now v).node.config ≡ e.node.config
  unfolding grant_vote
  grant_vote-config e now v = ground arith

  follower-logs :
      (e : Engine N) (now : ℕ) (v : Vote)
      → ((follower_of e now v).node.state.log_ids ≡ e.node.state.log_ids)
        × ((follower_of e now v).node.state.committed ≡ e.node.state.committed)
        × ((follower_of e now v).node.state.vote ≡ (grant_vote e now v).node.state.vote)
  unfolding become_following update_server_state grant_vote accept_io
  follower-logs e now v = ground arith

  follower-roles :
      (e : Engine N) (now : ℕ) (v : Vote)
      → ((follower_of e now v).leader ≡ none) × ((follower_of e now v).candidate ≡ none)
  unfolding become_following
  follower-roles e now v = (refl, refl)

  log_answer-cong :
      (s s' : RaftState N) (prev : Option LogId)
      → s'.log_ids ≡ s.log_ids
      → s'.committed ≡ s.committed
      → log_answer s' prev ≡ log_answer s prev
  unfolding has_log_id get_log_id
  log_answer-cong s s' none l c = refl
  log_answer-cong s s' (some prev) l c = rw (l, c) refl

  append_voted_lem :
      (prev : Option LogId) (es : List (Entry N)) (e : Engine N)
      → let r = append_voted prev es (e, granted) in
        (r.1 ≡ log_answer e.node.state prev)
        × (r.0.leader ≡ e.leader)
        × (r.0.candidate ≡ e.candidate)
        × (r.0.node.state.vote.data_of ≡ e.node.state.vote.data_of)
        × (r.0.node.state.committed ≡ e.node.state.committed)
  unfolding ensure_log_consecutive
  append_voted_lem none es e =
      let (v, c) = append_entries-Same (to_committed e.node.state.vote.data_of) e.node none es in
      (refl, refl, refl, v, c)
  append_voted_lem (some prev) es e = elim (Bool-cases (has_log_id e.node.state prev)) [
    | inl has ↦
        let (v, c) =
          append_entries-Same (to_committed e.node.state.vote.data_of) e.node (some prev) es in
        rw has (refl, refl, refl, v, c)
    | inr misses ↦
        let (v, c) = truncate_logs-Same e.node prev.index in rw misses (refl, refl, refl, v, c)
  ]

  -- Entries that the leader on another node sends are always answered. They are rejected by the vote of
  -- this node exactly if that is greater, and then nothing changes. Otherwise this node has the vote of
  -- the leader and is neither a leader nor a candidate any more; the entries are accepted exactly if
  -- this node has the log before them, else its log at that index is the answer. What is committed
  -- stays.
  pub append_to_log_lem :
      (e : Engine N) (t : Times) (v : Vote) (prev : Option LogId) (es : List (Entry N))
      → v.leader_id.node_id ≢ e.node.config.id
      → let s = e.node.state in
        (e' : Engine N) × (append_to_log e t v prev es ≡ done (e', append_answer s v prev))
        × (e'.node.state.vote.data_of ≡ (if s.vote.data_of ≤? v then v else s.vote.data_of))
        × (e'.node.state.committed ≡ s.committed)
        × ((s.vote.data_of ≤? v) ≡ true → (e'.leader ≡ none) × (e'.candidate ≡ none))
        × ((s.vote.data_of ≤? v) ≡ false → e' ≡ e)
  unfolding append_to_log update_vote
  append_to_log_lem e t v prev es other =
      let s = e.node.state in
      let ge = vote_ge_lem v s.vote.data_of in
      elim (Bool-cases (s.vote.data_of ≤? v)) [
        | inr lt ↦
            (e, rw (ge, lt) refl, rw lt refl, refl, λ le. absurd (true-false le lt), λ _. refl)
        | inl le ↦
            let given = grant_vote e t.voted v in
            let f = follower_of e t.voted v in
            let (has, kept) = grant_vote_lem e t.voted v (ge ∙ le) in
            let follows = of_another given t.led (λ q. other (
              sym (ap (λ (w : Vote). w.leader_id.node_id) has)
              ∙ q
              ∙ ap (λ (c : Config). c.id) (grant_vote-config e t.voted v))) in
            let (logs, committed, vote) = follower-logs e t.voted v in
            let (l, c) = follower-roles e t.voted v in
            let (answer, l', c', vote', committed') = append_voted_lem prev es f in
            (
              (append_voted prev es (f, granted)).0,
              rw (ge, le, follows)
                  (ap (λ r. done ((append_voted prev es (f, granted)).0, r))
                    (answer ∙ log_answer-cong s f.node.state prev logs committed)),
              rw le (vote' ∙ ap (λ (x : Leased Vote). x.data_of) vote ∙ has),
              committed' ∙ committed,
              λ _. (l' ∙ l, c' ∙ c),
              λ lt. absurd (true-false le lt),
            )
      ]
