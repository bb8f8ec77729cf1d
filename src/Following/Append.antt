-- ===== src/Following/Append.antt =====
-- What `append_entries` does to the log of a follower.
use async_raft.Base.{
  some_inj, none-some, ℕ, zero, suc, ◌+◌, ◌≤◌, ◌<◌, ◌≡◌, refl, sym, ap, ◌∙◌, subst, inl, inr, true,
  List, [], ◌∷◌, Option, none, some, if◌then◌else◌, ltb, arith, last_of, drop, get_elem?, dec_lt,
  Bool-cases,
}
use async_raft.Base.Order.{option_ord}
use async_raft.Vote.{CommittedVote}
use async_raft.LogId.{LogId, log_id_ord, next_index}
use async_raft.LogIdList.{ref_at, truncate, extend}
use async_raft.LogIdList.Lookup.{Ascending, ref_at_lem}
use async_raft.LogIdList.Refinement.{ref_at-truncate}
use async_raft.LogIdList.Extend.{Consecutive}
use async_raft.LogIdList.Shape.{leader_from-some, leader_from-none, truncate-shape}
use async_raft.IoState.{IoId}
use async_raft.RaftState.{RaftState, get_log_id, first_conflicting_index, has_log_id, accept_io}
use async_raft.RaftState.Lookup.{has_log_id_lem}
use async_raft.Handler.{Entry, Node, log_ids_of, update_server_state}
use async_raft.Following.{do_append_entries, truncate_logs, append_membership, update_progress}

same_below :
    (a : LogId) (ks : List LogId) (at i : ℕ)
    → Ascending (a ∷ ks)
    → (last_of a ks).index < at
    → ref_at (a ∷ ks) i ≡ (if ltb i at then ref_at (a ∷ ks) i else none)
same_below a ks at i s t = elim (dec_lt i at) [
  | yes l ↦ ground arith
  | no l ↦ ground (arith, ref_at_lem (a ∷ ks) i, leader_from-none none a ks i s)
]

module _ {N : Type 0} where
  membership-log_ids :
      (n : Node N) (es : List (Entry N)) → (append_membership n es).state.log_ids ≡ n.state.log_ids
  unfolding append_membership update_server_state
  membership-log_ids n es = ground arith

  pub do_append-log_ids :
      (v : CommittedVote) (n : Node N) (es : List (Entry N))
      → (do_append_entries v n es).state.log_ids ≡ extend n.state.log_ids (log_ids_of es)
  unfolding do_append_entries
  do_append-log_ids v n es = membership-log_ids _ es

  pub progress-state :
      (n : Node N) (io : IoId) (old : Option IoId) → (update_progress n io old).state ≡ n.state
  unfolding update_progress
  progress-state n io old = ground arith

  pub accept-log_ids :
      (s : RaftState N) (io : IoId)
      → ((accept_io s io).0.log_ids ≡ s.log_ids) × ((accept_io s io).0.committed ≡ s.committed)
  unfolding accept_io
  accept-log_ids s io = (ground arith, ground arith)

  truncate_logs-log_ids :
      (n : Node N) (at : ℕ)
      → (truncate_logs n at).state.log_ids ≡ elim (ref_at n.state.log_ids at) [
        | none ↦ n.state.log_ids
        | some d ↦ truncate n.state.log_ids at
      ]
  unfolding truncate_logs get_log_id update_server_state
  truncate_logs-log_ids n at = ground arith

  -- The entries from a position on.
  pub dropped :
      (m : ℕ) (es : List (Entry N)) (i : ℕ) (e : Entry N)
      → Consecutive m (log_ids_of es)
      → get_elem? es i ≡ some e
      → (rest : List LogId) × (log_ids_of (drop i es) ≡ e.log_id ∷ rest)
        × Consecutive e.log_id.index (e.log_id ∷ rest)
        × (m ≤ e.log_id.index)
  dropped m [] i e c h = absurd cc
  dropped m (x ∷ es) zero e c h =
      let same : x ≡ e = some_inj h in
      (
        log_ids_of es,
        ap (λ (d : Entry N). d.log_id ∷ log_ids_of es) same,
        (
          refl,
          subst (λ k. Consecutive (suc k) (log_ids_of es))
              (sym c.0 ∙ ap (λ (d : Entry N). d.log_id.index) same) c.1,
        ),
        omega (arith, c.0, ap (λ (d : Entry N). d.log_id.index) same),
      )
  dropped m (x ∷ es) (suc i) e c h =
      let (rest, p, q, r) = dropped (suc m) es i e c.1 h in (rest, p, q, omega arith)

  -- The log before the entries from the first conflicting one on are appended: it ends right before.
  pub truncated :
      (n : Node N) (a : LogId) (ks : List LogId) (at : ℕ)
      → n.state.log_ids ≡ a ∷ ks
      → Ascending (a ∷ ks)
      → a.index < at
      → at ≤ suc (last_of a ks).index
      → (ks' : List LogId) × ((truncate_logs n at).state.log_ids ≡ a ∷ ks')
        × Ascending (a ∷ ks')
        × ((last_of a ks').index + 1 ≡ at)
        × ((i : ℕ) → ref_at (a ∷ ks') i ≡ (if ltb i at then ref_at (a ∷ ks) i else none))
  truncated n a ks at e s h l = elim (dec_lt (last_of a ks).index at) [
    | yes t ↦
        let out : ref_at n.state.log_ids at ≡ none =
          rw e (ref_at_lem (a ∷ ks) at ∙ leader_from-none none a ks at s t) in
        (
          ks,
          truncate_logs-log_ids n at ∙ ground (arith, out, e),
          s,
          omega arith,
          λ i. same_below a ks at i s t,
        )
    | no t ↦
        let (d, p) = leader_from-some none a ks at s (omega arith) (omega arith) in
        let out : ref_at n.state.log_ids at ≡ some d = rw e (ref_at_lem (a ∷ ks) at ∙ p) in
        let (ks', q, asc, last) = truncate-shape a ks at s h (omega arith) in
        (
          ks',
          truncate_logs-log_ids n at ∙ ground (arith, out) ∙ ap (λ k. truncate k at) e ∙ q,
          asc,
          last,
          λ i. ap (λ k. ref_at k i) (sym q) ∙ ref_at-truncate (a ∷ ks) at i s,
        )
  ]

  -- A log id that the node has is not after its last log.
  pub has-le-last :
      (s : RaftState N) (a : LogId) (ks : List LogId) (l : LogId)
      → s.log_ids ≡ a ∷ ks
      → Ascending (a ∷ ks)
      → next_index s.committed ≤ suc (last_of a ks).index
      → has_log_id s l ≡ true
      → l.index ≤ (last_of a ks).index
  has-le-last s a ks l e asc h t = elim (dec_lt l.index (next_index s.committed)) [
    | yes b ↦ omega arith
    | no b ↦ elim (dec_lt (last_of a ks).index l.index) [
      | no g ↦ omega arith
      | yes g ↦
          let at = ((has_log_id_lem s l).1 (omega arith)).0 t in
          let gone : ref_at s.log_ids l.index ≡ none =
            rw e (ref_at_lem (a ∷ ks) l.index ∙ leader_from-none none a ks l.index asc g) in
          absurd (none-some (sym gone ∙ at))
    ]
  ]

  pub first-le :
      (s : RaftState N) (a : LogId) (ks : List LogId) (m : ℕ) (es : List (Entry N)) (e : Entry N)
      → s.log_ids ≡ a ∷ ks
      → Ascending (a ∷ ks)
      → next_index s.committed ≤ suc (last_of a ks).index
      → m ≤ suc (last_of a ks).index
      → Consecutive m (log_ids_of es)
      → get_elem? es (first_conflicting_index s (log_ids_of es)) ≡ some e
      → e.log_id.index ≤ suc (last_of a ks).index
  unfolding first_conflicting_index
  first-le s a ks m [] e p asc h l c g = absurd cc
  first-le s a ks m (x ∷ es) e p asc h l c g = elim (Bool-cases (has_log_id s x.log_id)) [
    | inl t ↦
        first-le s a ks (suc m) es e p asc h
          (omega (arith, has-le-last s a ks x.log_id p asc h t, c.0)) c.1 (ground (arith, g, t))
    | inr f ↦
        let same : x ≡ e = some_inj (ground (arith, g, f)) in
        omega (arith, c.0, ap (λ (d : Entry N). d.log_id.index) same)
  ]
