-- ===== src/Following/LogMatching.antt =====
-- The log of a follower after `append_entries`.
use async_raft.Base.{
  ℕ, suc, ◌≤◌, ◌<◌, ◌≡◌, refl, sym, ap, ◌∙◌, subst, inl, inr, List, [], ◌∷◌, Option, none, some,
  if◌then◌else◌, ltb, arith, last_of, get_last?, drop, get_elem?, Option-cases, if-cases,
}
use async_raft.Base.Order.{max_of, option_ord, ◌<?◌}
use async_raft.Vote.{CommittedVote, LeaderId}
use async_raft.LogId.{LogId, log_id_ord, next_index}
use async_raft.LogIdList.{ref_at, extend}
use async_raft.LogIdList.Lookup.{Ascending}
use async_raft.LogIdList.Extend.{Consecutive, given, ref_at-extend}
use async_raft.IoState.{IoId, IoState, new_log_io, io_id_ord, accept}
use async_raft.RaftState.{RaftState, first_conflicting_index, has_log_id, accept_io}
use async_raft.RaftState.Lookup.{FirstMissing, first_conflicting_index-FirstMissing}
use async_raft.Handler.{Entry, Node, log_ids_of}
use async_raft.Following.{append_entries, do_append_entries, truncate_logs, append_since}
use async_raft.Following.Append.{
  do_append-log_ids, progress-state, accept-log_ids, dropped, truncated, first-le,
}

-- The leaders of the log once the entries from the first conflicting one on replace what is there.
abbrev pub replaced :
    {N : Type 0}
    → (ℕ → Option LeaderId)
    → List (Entry N)
    → ℕ
    → Option (Entry N)
    → ℕ
    → Option LeaderId
replaced old es since none i = old i
replaced old es since (some e) i =
    given (if ltb i e.log_id.index then old i else none) (log_ids_of (drop since es)) i

module _ {N : Type 0} where
  -- The state after the write is accepted has the same log.
  append-conflict :
      (v : CommittedVote) (n : Node N) (a : LogId) (ks : List LogId) (m : ℕ) (es : List (Entry N))
      (e : Entry N) (since i : ℕ)
      → n.state.log_ids ≡ a ∷ ks
      → Ascending (a ∷ ks)
      → a.index < m
      → e.log_id.index ≤ suc (last_of a ks).index
      → Consecutive m (log_ids_of es)
      → get_elem? es since ≡ some e
      → ref_at
          (do_append_entries v (truncate_logs n e.log_id.index) (drop since es)).state.log_ids
          i
        ≡ replaced (ref_at (a ∷ ks)) es since (some e) i
  append-conflict v n a ks m es e since i p asc h l c g =
      let (rest, q, cons, low) = dropped m es since e c g in
      let (ks', t, asc', last, at) = truncated n a ks e.log_id.index p asc (omega arith) l in
      let old = if ltb i e.log_id.index then ref_at (a ∷ ks) i else none in
      ap (λ k. ref_at k i) (do_append-log_ids v (truncate_logs n e.log_id.index) (drop since es))
      ∙ ap (λ k. ref_at (extend k (log_ids_of (drop since es))) i) t
      ∙ ap (λ k. ref_at (extend (a ∷ ks') k) i) q
      ∙ ref_at-extend a ks' e.log_id rest i asc'
          (subst (λ k. Consecutive k (e.log_id ∷ rest)) (omega (arith, last)) cons)
      ∙ ap (λ o. given o (e.log_id ∷ rest) i) (at i)
      ∙ ap (λ k. given old k i) (sym q)

  io-first :
      (s : RaftState N) (x : IoState) (es : List LogId)
      → first_conflicting_index (record s { io_state = x }) es ≡ first_conflicting_index s es
  unfolding first_conflicting_index
  io-first s x [] = refl
  io-first s x (e ∷ es) = ap (λ (r : ℕ). if has_log_id s e then suc r else 0) (io-first s x es)

  accept-first :
      (s : RaftState N) (io : IoId) (es : List LogId)
      → first_conflicting_index (accept_io s io).0 es ≡ first_conflicting_index s es
  unfolding accept_io
  accept-first s io es =
      if-cases (λ (t : RaftState N). first_conflicting_index t es ≡ first_conflicting_index s es)
        (s.io_state.io_progress.accepted <? some io)
        (λ _. io-first s (record s.io_state { io_progress = accept s.io_state.io_progress io }) es)
        (λ _. refl)

  after :
      (v : CommittedVote) (n : Node N) (io : IoId) (old : Option IoId) (a : LogId) (ks : List LogId)
      (m : ℕ) (es : List (Entry N)) (since i : ℕ)
      → n.state.log_ids ≡ a ∷ ks
      → Ascending (a ∷ ks)
      → a.index < m
      → Consecutive m (log_ids_of es)
      → ((e : Entry N) → get_elem? es since ≡ some e → e.log_id.index ≤ suc (last_of a ks).index)
      → ref_at (append_since v n io old es since (get_elem? es since)).state.log_ids i
        ≡ replaced (ref_at (a ∷ ks)) es since (get_elem? es since) i
  unfolding append_since
  after v n io old a ks m es since i p asc l c h = elim (Option-cases (get_elem? es since)) [
    | inl g ↦ rw g (ap (λ s. ref_at s.log_ids i) (progress-state n io old) ∙ ap (λ k. ref_at k i) p)
    | inr (e, g) ↦ rw g (append-conflict v n a ks m es e since i p asc l (h e g) c g)
  ]

  -- A follower with a non-empty ascending log, whose committed log is not after its last one, is sent
  -- consecutive entries that start after its first log and at most right after its last one. It has a log
  -- id if the index is committed, or if its log at the index is by the same leader. Before the first
  -- sent log id that it does not have, each index keeps its leader; from there on the log consists of
  -- the sent entries only. If it has all of them, the log does not change.
  pub append_entries-ref_at :
      (v : CommittedVote) (n : Node N) (prev : Option LogId) (a : LogId) (ks : List LogId) (m : ℕ)
      (es : List (Entry N))
      → n.state.log_ids ≡ a ∷ ks
      → Ascending (a ∷ ks)
      → next_index n.state.committed ≤ suc (last_of a ks).index
      → a.index < m
      → m ≤ suc (last_of a ks).index
      → Consecutive m (log_ids_of es)
      → (since : ℕ) × FirstMissing n.state (log_ids_of es) since
        × ((i : ℕ)
            → ref_at (append_entries v n prev es).state.log_ids i
              ≡ replaced (ref_at (a ∷ ks)) es since (get_elem? es since) i)
  unfolding append_entries
  append_entries-ref_at v n prev a ks m es p asc h l k c =
      let last = max_of prev (get_last? (log_ids_of es)) in
      let io = new_log_io v last in
      let s' = (accept_io n.state io).0 in
      let old = (accept_io n.state io).1 in
      let n' : Node N = record n { state = s' } in
      let same = accept-first n.state io (log_ids_of es) in
      let ids = (accept-log_ids n.state io).0 in
      let since = first_conflicting_index n.state (log_ids_of es) in
      (
        since,
        first_conflicting_index-FirstMissing n.state (log_ids_of es),
        λ i.
            ap (λ x. ref_at (append_since v n' io old es x (get_elem? es x)).state.log_ids i) same
            ∙ after v n' io old a ks m es since i (ids ∙ p) asc l c
                (λ e g. first-le n.state a ks m es e p asc h k c g),
      )
