-- ===== src/Engine/Followed.antt =====
-- What a follower does keeps the vote, and takes no commit back:
-- openraft/src/engine/handler/following_handler, log_handler and snapshot_handler.
use async_raft.Base.{
  ℕ, ◌≡◌, refl, ◌∙◌, false, List, Option, none, some, arith, Bool-cases, inl, inr, get_elem?,
  get_last?, if-cases, drop,
}
use async_raft.Base.Order.{◌≤?◌, ◌<?◌, option_ord, le?_refl, lt?→le?, max_of, min_of, le?_total}
use async_raft.Vote.{Vote, CommittedVote}
use async_raft.Vote.AdvOrder.{vote_ord}
use async_raft.LogId.{LogId, log_id_ord, next_index}
use async_raft.Membership.State.{Eq}
use async_raft.IoState.{IoId, new_log_io, last_log_id}
use async_raft.RaftState.{
  RaftState, SnapshotMeta, has_log_id, first_conflicting_index, update_committed, accept_io,
  purge_log,
}
use async_raft.Handler.{
  Node, Entry, Answer, Condition, update_server_state, purge_if_needed, schedule_policy_based_purge,
  trigger_snapshot, update_snapshot, log_ids_of,
}
use async_raft.Following.{
  truncate_logs, ensure_log_consecutive, append_membership, do_append_entries, update_progress,
  append_since, append_entries, save_and_apply, commit_entries,
}
use async_raft.Following.Install.{
  matching_log, update_committed_membership, installing, install_newer, install_at,
  install_full_snapshot,
}
use async_raft.Engine.Same.{Same, Same-trans, accept_io-Same}
use async_raft.Engine.Ahead.{Ahead, Ahead-refl, Ahead-trans, Same-Ahead}

module _ {N : Type 0} where
  abbrev Kept : Node N → Node N → Type 0
  Kept n n' = Same n.state n'.state

  pub truncate_logs-Same : (n : Node N) (since : ℕ) → Kept n (truncate_logs n since)
  unfolding truncate_logs update_server_state
  truncate_logs-Same n since = ground arith

  append_membership-Same : (n : Node N) (es : List (Entry N)) → Kept n (append_membership n es)
  unfolding append_membership update_server_state
  append_membership-Same n es = ground arith

  pub do_append_entries-Same :
      (v : CommittedVote) (n : Node N) (es : List (Entry N)) → Kept n (do_append_entries v n es)
  unfolding do_append_entries
  do_append_entries-Same v n es = append_membership-Same _ es

  pub ensure_log_consecutive-Same :
      (n : Node N) (prev : Option LogId) → Kept n (ensure_log_consecutive n prev).0
  unfolding ensure_log_consecutive
  ensure_log_consecutive-Same n none = (refl, refl)
  ensure_log_consecutive-Same n (some prev) =
      if-cases (λ (r : Node N × Answer). Kept n r.0) (has_log_id n.state prev) (λ _. (refl, refl))
        (λ _. truncate_logs-Same n prev.index)

  append_since-Same :
      (v : CommittedVote) (n : Node N) (io : IoId) (prev : Option IoId) (es : List (Entry N))
      (since : ℕ) (e : Option (Entry N))
      → Kept n (append_since v n io prev es since e)
  unfolding append_since update_progress
  append_since-Same v n io prev es since none = ground arith
  append_since-Same v n io prev es since (some e) =
      let m = truncate_logs n e.log_id.index in
      Same-trans n.state m.state (do_append_entries v m (drop since es)).state
        (truncate_logs-Same n e.log_id.index) (do_append_entries-Same v m (drop since es))

  pub append_entries-Same :
      (v : CommittedVote) (n : Node N) (prev : Option LogId) (es : List (Entry N))
      → Kept n (append_entries v n prev es)
  unfolding append_entries
  append_entries-Same v n prev es =
      let io = new_log_io v (max_of prev (get_last? (log_ids_of es))) in
      let (state', prev_accepted) = accept_io n.state io in
      let m = record n { state = state' } in
      let since = first_conflicting_index state' (log_ids_of es) in
      let e = get_elem? es since in
      Same-trans n.state state' (append_since v m io prev_accepted es since e).state
        (accept_io-Same n.state io) (append_since-Same v m io prev_accepted es since e)

  save_and_apply-Same :
      (n : Node N) (prev : Option (Option LogId)) (c : Option LogId)
      → Kept n (save_and_apply n prev c)
  unfolding save_and_apply trigger_snapshot
  save_and_apply-Same n none c = (refl, refl)
  save_and_apply-Same n (some prev) none = (refl, refl)
  save_and_apply-Same n (some prev) (some c) = ground arith

  update_committed-Ahead : (s : RaftState N) (c : Option LogId) → Ahead s (update_committed s c).0
  unfolding update_committed
  update_committed-Ahead s c = elim (Bool-cases (s.committed <? c)) [
    | inl h ↦ rw h (le?_refl {A = Vote} s.vote.data_of, lt?→le? {A = Option LogId} s.committed c h)
    | inr h ↦ rw h (Ahead-refl s)
  ]

  pub commit_entries-Ahead :
      (n : Node N) (leader_committed : Option LogId)
      → Ahead n.state (commit_entries n leader_committed).state
  unfolding commit_entries
  commit_entries-Ahead n leader_committed =
      let accepted : Option LogId = elim n.state.io_state.io_progress.accepted [
        | none ↦ none
        | some x ↦ last_log_id x
      ] in
      let c = min_of accepted leader_committed in
      let (state', changed) = update_committed n.state c in
      let m = record n { state = state' } in
      Ahead-trans n.state state' (save_and_apply m changed c).state
        (update_committed-Ahead n.state c)
        (Same-Ahead state' (save_and_apply m changed c).state (save_and_apply-Same m changed c))

  pub purge_if_needed-Same : (n : Node N) → Kept n (purge_if_needed n)
  unfolding purge_if_needed purge_log
  purge_if_needed-Same n = ground arith

  pub schedule-Same : (n : Node N) → Kept n (schedule_policy_based_purge n)
  unfolding schedule_policy_based_purge
  schedule-Same n = ground arith

  pub update_snapshot-Same :
      (n : Node N) (meta : SnapshotMeta N) → Kept n (update_snapshot n meta).0
  unfolding update_snapshot
  update_snapshot-Same n meta = ground arith

  matching_log-Same : (n : Node N) (last : LogId) → Kept n (matching_log n last)
  unfolding matching_log
  matching_log-Same n last = ground (arith, truncate_logs-Same n (next_index n.state.committed))

  pub trigger_snapshot-Same : (n : Node N) → Kept n (trigger_snapshot n).0
  unfolding trigger_snapshot
  trigger_snapshot-Same n = ground arith

module _ {N : Type 0} ⦃q : Eq N⦄ where
  installing_lem :
      (v : CommittedVote) (n : Node N) (meta : SnapshotMeta N) (last : LogId)
      → ((installing v n meta last).state.vote.data_of ≡ n.state.vote.data_of)
        × ((installing v n meta last).state.committed ≡ some last)
  unfolding installing update_committed_membership update_server_state
  installing_lem v n meta last = ((accept_io-Same n.state _).0, refl)

  install_newer-Ahead :
      (v : CommittedVote) (n : Node N) (meta : SnapshotMeta N) (last : LogId)
      → (some last ≤? n.state.committed) ≡ false
      → Ahead n.state (install_newer v n meta last).state
  unfolding install_newer
  install_newer-Ahead v n meta last h =
      let m = matching_log n last in
      let (vote, kept) = matching_log-Same n last in
      let (vote', committed) = installing_lem v m meta last in
      let (vote'', committed') = purge_if_needed-Same (installing v m meta last) in
      (
        rw (vote'' ∙ vote' ∙ vote) (le?_refl {A = Vote} n.state.vote.data_of),
        rw (committed' ∙ committed) (le?_total {A = Option LogId} (some last) n.state.committed h),
      )

  install_at-Ahead :
      (v : CommittedVote) (n : Node N) (meta : SnapshotMeta N) (o : Option LogId)
      → Ahead n.state (install_at v n meta o).0.state
  unfolding install_at
  install_at-Ahead v n meta none = Ahead-refl n.state
  install_at-Ahead v n meta (some last) =
      let (n', updated) = update_snapshot n meta in
      let same = update_snapshot-Same n meta in
      let R = λ (r : Node N × Option Condition). Ahead n.state r.0.state in
      if-cases R (some last ≤? n.state.committed) (λ _. Ahead-refl n.state)
        (λ newer.
          if-cases R updated
            (λ _.
              Ahead-trans n.state n'.state (install_newer v n' meta last).state
                (Same-Ahead n.state n'.state same)
                (install_newer-Ahead v n' meta last (rw (same.1) newer)))
            (λ _. Same-Ahead n.state n'.state same))

  pub install_full_snapshot-Ahead :
      (v : CommittedVote) (n : Node N) (meta : SnapshotMeta N)
      → Ahead n.state (install_full_snapshot v n meta).0.state
  unfolding install_full_snapshot
  install_full_snapshot-Ahead v n meta = install_at-Ahead v n meta meta.last_log_id
