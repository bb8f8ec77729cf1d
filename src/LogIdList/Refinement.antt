-- ===== src/LogIdList/Refinement.antt =====
-- The list of log_id_list.rs and the map from the indexes of the logs to their leaders.
use async_raft.Base.{
  ℕ, ◌+◌, ◌<◌, ◌^◌, ◌≡◌, List, ◌∷◌, Option, none, some, if◌then◌else◌, ltb, ◌==◌, arith, last_of,
  dec_lt, add64_lem,
}
use async_raft.Vote.{LeaderId, leader_id_ord}
use async_raft.LogId.{LogId}
use async_raft.LogIdList.{ref_at, append, truncate, purge}
use async_raft.LogIdList.Lookup.{leader_at, Ascending, ref_at_lem}
use async_raft.LogIdList.Edits.{with_new, append-leader_from, truncate-leader_at, from-leader_from}

-- A log id added after the last one of a non-empty list has its leader at its own index; the indexes in
-- between go to the leader that was the last; every other index keeps its answer.
pub ref_at-append :
    (a : LogId) (ks : List LogId) (n : LogId) (i : ℕ)
    → Ascending (a ∷ ks)
    → (last_of a ks).index < n.index
    → ref_at (append (a ∷ ks) n) i ≡ with_new (ref_at (a ∷ ks) i) (last_of a ks) n i
ref_at-append a ks n i s h =
    rw (ref_at_lem (append (a ∷ ks) n) i, ref_at_lem (a ∷ ks) i)
      (append-leader_from none a ks n i s h)

-- Truncating ascending log ids at an index leaves the logs before the index with their leaders, and no
-- other log.
pub ref_at-truncate :
    (ks : List LogId) (at i : ℕ)
    → Ascending ks
    → ref_at (truncate ks at) i ≡ (if ltb i at then ref_at ks i else none)
ref_at-truncate ks at i s =
    rw (ref_at_lem (truncate ks at) i, ref_at_lem ks i) (truncate-leader_at ks at i s)

-- The leaders once the logs are purged up to a log id: what is before it is gone.
abbrev pub without_purged : Option LeaderId → ℕ → LogId → ℕ → Option LeaderId
without_purged old last upto i =
    if ltb i upto.index
    then none
    else if ltb last upto.index
    then if i == upto.index then some upto.leader_id else none
    else old

purge-leader_at :
    (k : LogId) (ks : List LogId) (upto : LogId) (i : ℕ)
    → Ascending (k ∷ ks)
    → (last_of k ks).index + 1 < 2 ^ 64
    → leader_at (purge (k ∷ ks) upto) i
      ≡ without_purged (leader_at (k ∷ ks) i) (last_of k ks).index upto i
unfolding purge
purge-leader_at k ks upto i s h =
    let n = add64_lem (last_of k ks).index 1 h in
    elim (dec_lt (last_of k ks).index upto.index) [
      | yes l ↦ ground (arith, n)
      | no g ↦ elim (dec_lt upto.index k.index) [
        | yes l ↦ ground (arith, n)
        | no m ↦ ground (arith, n, from-leader_from none none k ks upto.index i s)
      ]
    ]

-- Purging ascending log ids, whose last index is below the greatest one of 64 bits, removes the logs
-- before the given log id and no other; a log id after the last one becomes the only one.
pub ref_at-purge :
    (k : LogId) (ks : List LogId) (upto : LogId) (i : ℕ)
    → Ascending (k ∷ ks)
    → (last_of k ks).index + 1 < 2 ^ 64
    → ref_at (purge (k ∷ ks) upto) i
      ≡ without_purged (ref_at (k ∷ ks) i) (last_of k ks).index upto i
ref_at-purge k ks upto i s h =
    rw (ref_at_lem (purge (k ∷ ks) upto) i, ref_at_lem (k ∷ ks) i) (purge-leader_at k ks upto i s h)
