-- ===== src/RaftState/Whole.antt =====
-- The log ids of a node (raft_state/mod.rs) as a log that a leader can send: no log is missing after what
-- is purged, and the leaders do not decrease.
use async_raft.Base.{
  ℕ, ◌+◌, ◌≤◌, ◌<◌, ◌^◌, ◌≡◌, refl, sym, ap, subst, ◌∙◌, true, List, [], ◌∷◌, Option, none, some,
  some_inj, ==_iff, get_last?, last_of, if◌then◌else◌, ltb, arith, add64_lem, dec_lt, ℕ_discrete,
}
use async_raft.Base.Order.{◌≤?◌, ◌<?◌, option_ord, le?_refl}
use async_raft.Vote.{LeaderId, leader_id_ord}
use async_raft.LogId.{LogId, log_id_ord, next_index}
use async_raft.LogIdList.{ref_at, append}
use async_raft.LogIdList.Lookup.{leader_at, leader_from, Ascending, ref_at_lem}
use async_raft.LogIdList.Edits.{with_new, Ascending-last, append-leader_from, append-Ascending}
use async_raft.LogIdList.Extend.{append-shape}
use async_raft.LogIdList.Shape.{leader_from-some, leader_from-none}
use async_raft.ProgressEntry.Sends.{Served}
use async_raft.Replication.{log_state}
use async_raft.RaftState.{RaftState, with_index, get_log_id}

-- The leaders of the logs do not decrease.
abbrev pub Rising : List LogId → Type 0
Rising ks =
    (i j : ℕ) (d f : LeaderId)
    → i < j
    → leader_at ks i ≡ some d
    → leader_at ks j ≡ some f
    → (d ≤? f) ≡ true

-- No log is by a later leader.
abbrev pub NotAfter : LeaderId → List LogId → Type 0
NotAfter top ks = (i : ℕ) (d : LeaderId) → leader_at ks i ≡ some d → (d ≤? top) ≡ true

module _ {N : Type 0} where
  pub record IsWhole (s : RaftState N) (a : LogId) (ks : List LogId) : Type 0 where
    pub parts : s.log_ids ≡ a ∷ ks
    pub ascending : Ascending (a ∷ ks)
    pub first : (i : ℕ) → next_index s.purge_upto ≤ i + 1 → a.index ≤ i
    pub rising : Rising (a ∷ ks)

leader_from-last :
    (before : Option LeaderId) (a : LogId) (ks : List LogId)
    → Ascending (a ∷ ks)
    → leader_from before (a ∷ ks) (last_of a ks).index ≡ some (last_of a ks).leader_id
leader_from-last before a [] s = ground arith
leader_from-last before a (b ∷ ks) s =
    ground (arith, leader_from-last (some a.leader_id) b ks s.1, Ascending-last b ks s.1)

-- Where the leader of an index is found: the logs after the last stored one are of its leader.
abbrev found_at : LogId → ℕ → ℕ
found_at last i = if ltb last.index i then last.index else i

found_at_mono : (last : LogId) (i j : ℕ) → i ≤ j → found_at last i ≤ found_at last j
found_at_mono last i j l = ground (arith, l)

-- The leaders before a log that is added.
old_leader :
    (a : LogId) (ks : List LogId) (n : LogId) (i : ℕ) (d : LeaderId)
    → Ascending (a ∷ ks)
    → i < n.index
    → with_new (leader_at (a ∷ ks) i) (last_of a ks) n i ≡ some d
    → leader_at (a ∷ ks) (found_at (last_of a ks) i) ≡ some d
old_leader a ks n i d s b h = ground (arith, h, leader_from-last none a ks s)

Rising-le :
    (ks : List LogId) (i j : ℕ) (d f : LeaderId)
    → Rising ks
    → i ≤ j
    → leader_at ks i ≡ some d
    → leader_at ks j ≡ some f
    → (d ≤? f) ≡ true
Rising-le ks i j d f r l h k = elim (dec_lt i j) [
  | yes less ↦ r i j d f less h k
  | no same ↦
      let e : i ≡ j = omega (arith, l, same) in
      let both : d ≡ f = some_inj (sym h ∙ ap (leader_at ks) e ∙ k) in
      subst (λ x. (d ≤? x) ≡ true) both (le?_refl {A = LeaderId} d)
]

-- A log after the last one, by a leader who is not before any other.
append-Rising :
    (a : LogId) (ks : List LogId) (n : LogId)
    → Ascending (a ∷ ks)
    → (last_of a ks).index < n.index
    → Rising (a ∷ ks)
    → NotAfter n.leader_id (a ∷ ks)
    → Rising (append (a ∷ ks) n)
append-Rising a ks n s e r top i j d f l h k =
    let old_j = sym (append-leader_from none a ks n j s e) ∙ k in
    let old_i = sym (append-leader_from none a ks n i s e) ∙ h in
    let last = last_of a ks in
    elim (ℕ_discrete j n.index) [
      | yes here ↦
          let own : n.leader_id ≡ f = some_inj (rw ((==_iff j n.index).1 here) at old_j) in
          subst (λ x. (d ≤? x) ≡ true) own
            (top (found_at last i) d (old_leader a ks n i d s (omega (arith, l, here)) old_i))
      | no other ↦ elim (dec_lt j n.index) [
        | yes early ↦
            Rising-le (a ∷ ks) (found_at last i) (found_at last j) d f r
              (found_at_mono last i j (omega (arith, l)))
              (old_leader a ks n i d s (omega (arith, l, early)) old_i)
              (old_leader a ks n j f s early old_j)
        | no late ↦
            let gone = leader_from-none none a ks j s (omega (arith, late, e)) in
            absurd (ground (arith, old_j, gone, other, late))
      ]
    ]

-- No log is after the leader of the log that is added.
pub append-NotAfter :
    (a : LogId) (ks : List LogId) (n : LogId)
    → Ascending (a ∷ ks)
    → (last_of a ks).index < n.index
    → NotAfter n.leader_id (a ∷ ks)
    → NotAfter n.leader_id (append (a ∷ ks) n)
append-NotAfter a ks n s e top i d h =
    let old = sym (append-leader_from none a ks n i s e) ∙ h in
    elim (ℕ_discrete i n.index) [
      | yes here ↦
          let own : n.leader_id ≡ d = some_inj (rw ((==_iff i n.index).1 here) at old) in
          subst (λ x. (x ≤? n.leader_id) ≡ true) own (le?_refl {A = LeaderId} n.leader_id)
      | no other ↦ elim (dec_lt i n.index) [
        | yes early ↦ top (found_at (last_of a ks) i) d (old_leader a ks n i d s early old)
        | no late ↦
            let gone = leader_from-none none a ks i s (omega (arith, late, e)) in
            absurd (ground (arith, old, gone, other, late))
      ]
    ]

module _ {N : Type 0} where
  pub append-IsWhole :
      (s s' : RaftState N) (a : LogId) (ks : List LogId) (n : LogId)
      → IsWhole s a ks
      → s'.log_ids ≡ append (a ∷ ks) n
      → s'.purge_upto ≡ s.purge_upto
      → (last_of a ks).index < n.index
      → NotAfter n.leader_id (a ∷ ks)
      → (ks' : List LogId) × IsWhole s' a ks' × (last_of a ks' ≡ n)
  append-IsWhole s s' a ks n w e p i top =
      let (ks', shape, last) = append-shape a ks n in
      (
        ks',
        record {
          parts = e ∙ shape;
          ascending = rw shape at (append-Ascending a ks n w.ascending i);
          first = λ m h. w.first m (rw p at h);
          rising = rw shape at (append-Rising a ks n w.ascending i w.rising top);
        },
        last,
      )

index_inj :
    (o : Option LeaderId) (i : ℕ) (l : LogId)
    → with_index o i ≡ some l
    → (o ≡ some l.leader_id) × (l.index ≡ i)
index_inj none i l h = absurd cc
index_inj (some d) i l h =
    let e = some_inj h in
    (ap (λ (x : LogId). some x.leader_id) e, sym (ap (λ (x : LogId). x.index) e))

later_log :
    (x y : LogId)
    → (x.leader_id ≤? y.leader_id) ≡ true
    → x.index < y.index
    → (some x <? some y) ≡ true
later_log x y h k = ground (arith, h, k)

-- A whole log can be sent.
pub whole-Served :
    {N : Type 0} (s : RaftState N) (a : LogId) (ks : List LogId)
    → IsWhole s a ks
    → (last_of a ks).index + 1 < 2 ^ 64
    → Served (log_state s)
unfolding get_log_id
whole-Served s a ks w b =
    let at : (i : ℕ) → ref_at s.log_ids i ≡ leader_at (a ∷ ks) i =
      λ i. rw (w.parts) (ref_at_lem (a ∷ ks) i) in
    let top : next_index (get_last? s.log_ids) ≡ (last_of a ks).index + 1 =
      rw (w.parts) (add64_lem (last_of a ks).index 1 b) in
    record {
      present = λ i p h.
          let (d, e) =
            leader_from-some none a ks i w.ascending (w.first i p) (omega (arith, h, top)) in
          (record { leader_id = d; index = i }, rw (at i, e) refl);
      ascending = λ i j x y l h k.
          let (d, m) = index_inj (ref_at s.log_ids i) i x h in
          let (f, n) = index_inj (ref_at s.log_ids j) j y k in
          later_log x y (w.rising i j x.leader_id y.leader_id l (sym (at i) ∙ d) (sym (at j) ∙ f))
            (omega (arith, m, n, l));
    }
