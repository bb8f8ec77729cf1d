-- ===== src/LogIdList/Lookup.antt =====
-- `ref_at` of log_id_list.rs: the stored log ids as a function from an index to the leader of its log.
use async_raft.Base.{
  ℕ, ◌-◌, ◌<◌, ◌≡◌, refl, List, [], ◌∷◌, Option, none, some, if◌then◌else◌, ltb, ◌==◌, length,
  get_elem?, arith,
}
use async_raft.Vote.{LeaderId}
use async_raft.LogId.{LogId, leader_of}
use async_raft.LogIdList.{search, ref_at}

-- The leader at an index, read from the front: each log id counts up to the next one, and the last one
-- for its own index only. `before` is what holds before the first.
abbrev pub leader_from : Option LeaderId → List LogId → ℕ → Option LeaderId
leader_from before [] i = none
leader_from before (k ∷ ks) i =
    let rest = leader_from (some k.leader_id) ks i in
    if k.index == i then some k.leader_id else if ltb i k.index then before else rest

abbrev pub leader_at : List LogId → ℕ → Option LeaderId
leader_at ks i = leader_from none ks i

-- The indexes ascend.
abbrev pub Ascending : List LogId → Type 0
Ascending [] = Unit
Ascending (a ∷ []) = Unit
Ascending (a ∷ b ∷ ks) = (a.index < b.index) × Ascending (b ∷ ks)

-- `ref_at` with what holds before the first log id.
abbrev ref_from : Option LeaderId → List LogId → ℕ → Option LeaderId
unfolding search
ref_from before ks index =
    let (found, i) = search ks index in
    if found
    then leader_of (get_elem? ks i)
    else if i == length ks
    then none
    else if i == 0
    then before
    else leader_of (get_elem? ks (i - 1))

ref_from_lem :
    (before : Option LeaderId) (ks : List LogId) (i : ℕ)
    → ref_from before ks i ≡ leader_from before ks i
unfolding search
ref_from_lem before [] i = refl
ref_from_lem before (k ∷ ks) i = ground (arith, ref_from_lem (some k.leader_id) ks i)

-- The binary search finds the leader that the list stands for.
pub ref_at_lem : (ks : List LogId) (i : ℕ) → ref_at ks i ≡ leader_at ks i
unfolding ref_at
ref_at_lem ks i = ground (arith, ref_from_lem none ks i)
