-- ===== src/LogIdList/Shape.antt =====
-- Which indexes have a leader, and the list that is left by a truncation.
use async_raft.Base.{
  ℕ, ◌+◌, ◌-◌, ◌≤◌, ◌<◌, ◌≡◌, refl, sym, List, [], ◌∷◌, Option, none, some, if◌then◌else◌, ltb,
  length, arith, last_of, if-cases, dec_lt, subst,
}
use async_raft.Vote.{LeaderId}
use async_raft.LogId.{LogId}
use async_raft.LogIdList.{search, append, truncate}
use async_raft.LogIdList.Lookup.{leader_from, Ascending}
use async_raft.LogIdList.Edits.{Ascending-last, kept, kept-bound, kept-Ascending, append-Ascending}
use async_raft.LogIdList.Extend.{append-shape}

pub leader_from-some :
    (before : Option LeaderId) (a : LogId) (ks : List LogId) (i : ℕ)
    → Ascending (a ∷ ks)
    → a.index ≤ i
    → i ≤ (last_of a ks).index
    → (d : LeaderId) × (leader_from before (a ∷ ks) i ≡ some d)
leader_from-some before a [] i s h l = (a.leader_id, ground arith)
leader_from-some before a (b ∷ ks) i s h l = elim (dec_lt i b.index) [
  | yes t ↦ (a.leader_id, ground arith)
  | no n ↦
      let (d, e) = leader_from-some (some a.leader_id) b ks i s.1 (omega arith) l in
      (d, ground (arith, e))
]

pub leader_from-none :
    (before : Option LeaderId) (a : LogId) (ks : List LogId) (i : ℕ)
    → Ascending (a ∷ ks)
    → (last_of a ks).index < i
    → leader_from before (a ∷ ks) i ≡ none
leader_from-none before a [] i s h = ground arith
leader_from-none before a (b ∷ ks) i s h =
    ground (arith, leader_from-none (some a.leader_id) b ks i s.1 h, Ascending-last b ks s.1)

search-lt :
    (a : LogId) (ks : List LogId) (at : ℕ)
    → at ≤ (last_of a ks).index
    → (search (a ∷ ks) at).1 < length (a ∷ ks)
unfolding search
search-lt a [] at h = ground arith
search-lt a (b ∷ ks) at h = ground (arith, search-lt b ks at h)

-- The rest of a list that was cut right before an index.
abbrev CutAt : LogId → ℕ → List LogId → Type 0
CutAt k at r =
    (ks' : List LogId) × (r ≡ k ∷ ks') × Ascending (k ∷ ks') × ((last_of k ks').index + 1 ≡ at)

cut : (k : LogId) (ks : List LogId) (at : ℕ) → LogId
cut k ks at = record { leader_id = (last_of k (kept at ks)).leader_id; index = at - 1 }

truncate_eq :
    (k : LogId) (ks : List LogId) (at : ℕ)
    → k.index < at
    → at ≤ (last_of k ks).index
    → truncate (k ∷ ks) at ≡ (
        if ltb (last_of k (kept at ks)).index (at - 1)
        then append (k ∷ kept at ks) (cut k ks at)
        else k ∷ kept at ks)
unfolding truncate search cut
truncate_eq k ks at h l = ground (arith, search-lt k ks at l)

pub truncate-shape :
    (k : LogId) (ks : List LogId) (at : ℕ)
    → Ascending (k ∷ ks)
    → k.index < at
    → at ≤ (last_of k ks).index
    → CutAt k at (truncate (k ∷ ks) at)
unfolding cut
truncate-shape k ks at s h l =
    let asc = kept-Ascending k ks at s in
    let bound = kept-bound k ks at h in
    let (ks', e, last) = append-shape k (kept at ks) (cut k ks at) in
    subst (CutAt k at) (sym (truncate_eq k ks at h l)) (
      if-cases (CutAt k at) (ltb (last_of k (kept at ks)).index (at - 1))
        (λ t. (
          ks',
          e,
          subst Ascending e (append-Ascending k (kept at ks) (cut k ks at) asc (ground arith)),
          ground (arith, last),
        ))
        (λ f. (kept at ks, refl, asc, ground (arith, bound))))
