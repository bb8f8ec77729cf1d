-- ===== src/LogIdList/Edits.antt =====
-- Appending, truncating and purging (log_id_list.rs), and the leader at each index.
use async_raft.Base.{
  ℕ, ◌-◌, ◌≤◌, ◌<◌, ◌≡◌, true, ◌&&◌, List, [], ◌∷◌, Option, none, some, if◌then◌else◌, ltb, leb,
  ◌==◌, length, arith, last_of, take, drop, dec_lt, ◌∙◌,
}
use async_raft.Base.Order.{=?→eq}
use async_raft.Vote.{LeaderId, leader_id_ord}
use async_raft.LogId.{LogId}
use async_raft.LogIdList.{search, append, truncate, set_first}
use async_raft.LogIdList.Lookup.{leader_from, leader_at, Ascending}

-- The leaders once a log id is added after the last one: it has its own index, and the indexes between
-- belong to the last leader.
abbrev pub with_new : Option LeaderId → LogId → LogId → ℕ → Option LeaderId
with_new old l n i =
    if i == n.index
    then some n.leader_id
    else if ltb l.index i && ltb i n.index
    then some l.leader_id
    else old

pub Ascending-last :
    (a : LogId) (ks : List LogId) → Ascending (a ∷ ks) → a.index ≤ (last_of a ks).index
Ascending-last a [] s = omega arith
Ascending-last a (b ∷ ks) s = ground (arith, Ascending-last b ks s.1)

pub append-leader_from :
    (before : Option LeaderId) (a : LogId) (ks : List LogId) (n : LogId) (i : ℕ)
    → Ascending (a ∷ ks)
    → (last_of a ks).index < n.index
    → leader_from before (append (a ∷ ks) n) i
      ≡ with_new (leader_from before (a ∷ ks) i) (last_of a ks) n i
unfolding append
append-leader_from before a [] n i s h = ground arith
append-leader_from before a (b ∷ []) n i s h =
    ground (arith, =?→eq {A = LeaderId} a.leader_id b.leader_id)
append-leader_from before a (b ∷ c ∷ ks) n i s h = ground (
  arith,
  append-leader_from (some a.leader_id) b (c ∷ ks) n i s.1 h,
  Ascending-last b (c ∷ ks) s.1,
)

pub append-Ascending :
    (a : LogId) (ks : List LogId) (n : LogId)
    → Ascending (a ∷ ks)
    → (last_of a ks).index < n.index
    → Ascending (append (a ∷ ks) n)
unfolding append
append-Ascending a [] n s h = ground arith
append-Ascending a (b ∷ []) n s h = ground arith
append-Ascending a (b ∷ c ∷ ks) n s h = ground (arith, append-Ascending b (c ∷ ks) n s.1 h)

-- The part after a first log id that `truncate` keeps.
abbrev pub kept : ℕ → List LogId → List LogId
unfolding search
kept at ks = take (search ks at).1 ks

pub kept-bound :
    (k : LogId) (ks : List LogId) (at : ℕ) → k.index < at → (last_of k (kept at ks)).index < at
unfolding search
kept-bound k [] at h = h
kept-bound k (b ∷ ks) at h = ground (arith, kept-bound b ks at)

pub kept-Ascending :
    (k : LogId) (ks : List LogId) (at : ℕ) → Ascending (k ∷ ks) → Ascending (k ∷ kept at ks)
unfolding search
kept-Ascending k [] at s = s
kept-Ascending k (b ∷ ks) at s = ground (arith, kept-Ascending b ks at s.1)

-- It has the same leaders.
kept-leader_from :
    (before : Option LeaderId) (k : LogId) (ks : List LogId) (at i : ℕ)
    → Ascending (k ∷ ks)
    → leader_from before (k ∷ kept at ks) i
      ≡ (if leb i (last_of k (kept at ks)).index then leader_from before (k ∷ ks) i else none)
unfolding search
kept-leader_from before k [] at i s = ground arith
kept-leader_from before k (b ∷ ks) at i s = ground (
  arith,
  kept-leader_from (some k.leader_id) b ks at i s.1,
  Ascending-last b (kept at ks) (kept-Ascending b ks at s.1),
)

-- Up to `at`, its last leader is the one of the whole list.
kept-gap :
    (before : Option LeaderId) (k : LogId) (ks : List LogId) (at i : ℕ)
    → Ascending (k ∷ ks)
    → (search ks at).1 < length ks
    → (last_of k (kept at ks)).index < i
    → i < at
    → leader_from before (k ∷ ks) i ≡ some (last_of k (kept at ks)).leader_id
unfolding search
kept-gap before k [] at i s p h l = absurd (omega arith)
kept-gap before k (b ∷ ks) at i s p h l = ground (
  arith,
  kept-gap (some k.leader_id) b ks at i s.1,
  Ascending-last b (kept at ks) (kept-Ascending b ks at s.1),
)

-- Nothing is left from the position on when all indexes are before it.
search-all :
    (before : Option LeaderId) (k : LogId) (ks : List LogId) (at i : ℕ)
    → (search ks at).1 ≡ length ks
    → k.index < at
    → at ≤ i
    → Ascending (k ∷ ks)
    → leader_from before (k ∷ ks) i ≡ none
unfolding search
search-all before k [] at i e h l s = ground arith
search-all before k (b ∷ ks) at i e h l s = ground (arith, search-all (some k.leader_id) b ks at i)

search-found : (ks : List LogId) (at : ℕ) → (search ks at).0 ≡ true → (search ks at).1 < length ks
unfolding search
search-found [] at e = absurd cc
search-found (k ∷ ks) at e = ground (arith, search-found ks at)

search-bound : (ks : List LogId) (at : ℕ) → (search ks at).1 ≤ length ks
unfolding search
search-bound [] at = omega arith
search-bound (k ∷ ks) at = ground (arith, search-bound ks at)

-- Truncating ascending log ids at an index leaves exactly the logs before the index, with their leaders.
pub truncate-leader_at :
    (ks : List LogId) (at i : ℕ)
    → Ascending ks
    → leader_at (truncate ks at) i ≡ (if ltb i at then leader_at ks i else none)
unfolding truncate search
truncate-leader_at [] at i s = ground arith
truncate-leader_at (k ∷ ks) at i s = ground (
  arith,
  search-found ks at,
  search-bound ks at,
  kept-bound k ks at,
  kept-leader_from none k ks at i s,
  kept-gap none k ks at i s,
  search-all none k ks at i,
  append-leader_from none k (kept at ks)
      (record { leader_id = (last_of k (kept at ks)).leader_id; index = at - 1 }) i
      (kept-Ascending k ks at s),
)

-- The part from the position of an index on.
abbrev pub from : List LogId → ℕ → List LogId
unfolding search
from ks u =
    let (found, p) = search ks u in if found then drop p ks else set_first u (drop (p - 1) ks)

from-cons :
    (k b : LogId) (ks : List LogId) (u : ℕ)
    → k.index < b.index
    → b.index ≤ u
    → from (k ∷ b ∷ ks) u ≡ from (b ∷ ks) u
unfolding search
from-cons k b ks u h l = ground arith

pub from-leader_from :
    (before old : Option LeaderId) (k : LogId) (ks : List LogId) (u i : ℕ)
    → Ascending (k ∷ ks)
    → k.index ≤ u
    → u ≤ (last_of k ks).index
    → leader_from before (from (k ∷ ks) u) i
      ≡ (if ltb i u then before else leader_from old (k ∷ ks) i)
unfolding search
from-leader_from before old k [] u i s h l = ground arith
from-leader_from before old k (b ∷ ks) u i s h l = elim (dec_lt u b.index) [
  | yes t ↦ ground arith
  | no n ↦
      let r = from-leader_from before (some k.leader_id) b ks u i s.1 (omega arith) l in
      rw (from-cons k b ks u s.0 (omega arith)) (r ∙ ground arith)
]
