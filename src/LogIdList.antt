-- ===== src/LogIdList.antt =====
-- openraft/src/engine/log_id_list.rs: the ids of all logs of a node, stored as the first id of each
-- leader and the last id. The list is read as one in ascending order of the index, for which the
-- binary search of the standard library finds the position that `search` finds from the front.
-- Children: reading the list from the storage, and proofs.
pub mod Lookup
pub mod Loading
pub mod InEffect
pub mod Bisection
pub mod Rounds
pub mod KeyLogIds
pub mod Edits
pub mod Refinement
pub mod Extend
pub mod Shape
use async_raft.Base.{
  ℕ, zero, suc, ◌+◌, ◌-◌, Bool, true, false, not, ◌&&◌, ◌||◌, List, [], ◌∷◌, ◌++◌, Option, none,
  some, if◌then◌else◌, ltb, leb, ◌==◌, length, get_elem?, take, drop, get_last?, head?,
}
use async_raft.Base.Order.{◌=?◌, option_ord}
use async_raft.Vote.{LeaderId, leader_id_ord}
use async_raft.LogId.{LogId, log_id_ord, next_index, leader_of}

-- `binary_search_by(|log_id| log_id.index().cmp(&at))`: whether the index is found, and the position of
-- the first log id that is not before it.
unfoldable pub search : List LogId → ℕ → Bool × ℕ
search [] at = (false, 0)
search (k ∷ ks) at =
    let (found, i) = search ks at in if ltb k.index at then (found, suc i) else (k.index == at, 0)

-- `append`: the last log id is replaced if the one before it has the same leader.
unfoldable pub append : List LogId → LogId → List LogId
append [] n = n ∷ []
append (a ∷ []) n = a ∷ n ∷ []
append (a ∷ b ∷ []) n = if a.leader_id =? b.leader_id then a ∷ n ∷ [] else a ∷ b ∷ n ∷ []
append (a ∷ b ∷ c ∷ ks) n = a ∷ append (b ∷ c ∷ ks) n

-- `truncate`; `at - 1` is computed for `at > 0` only, since a smaller index is left.
unfoldable pub truncate : List LogId → ℕ → List LogId
unfolding search append
truncate ks at =
    let (found, i) = search ks at in
    let ks' = take i ks in
    if not found && (i == length ks) then ks else elim (get_last? ks') [
      | none ↦ ks'
      | some last ↦
          if ltb last.index (at - 1)
          then append ks' (record { leader_id = last.leader_id; index = at - 1 })
          else ks'
    ]

-- `self.key_log_ids[0].index = upto.index()`.
abbrev pub set_first : ℕ → List LogId → List LogId
set_first i [] = []
set_first i (k ∷ ks) = record k { index = i } ∷ ks

unfoldable pub purge : List LogId → LogId → List LogId
unfolding search
purge [] upto = upto ∷ []
purge (k ∷ ks) upto =
    let (found, i) = search (k ∷ ks) upto.index in
    if leb (next_index (get_last? (k ∷ ks))) upto.index
    then upto ∷ []
    else if ltb upto.index k.index
    then k ∷ ks
    else if found
    then drop i (k ∷ ks)
    else set_first upto.index (drop (i - 1) (k ∷ ks))

-- `ref_at` and `get`: the leader of the log at the index.
unfoldable pub ref_at : List LogId → ℕ → Option LeaderId
unfolding search
ref_at ks index =
    let (found, i) = search ks index in
    if found
    then leader_of (get_elem? ks i)
    else if (i == 0) || (i == length ks)
    then none
    else leader_of (get_elem? ks (i - 1))

abbrev pub is_empty : List LogId → Bool
is_empty [] = true
is_empty (k ∷ ks) = false

-- One round of the loop of `extend`: a log id is stored if its leader is new, and if it is the last.
unfoldable pub extend_one : List LogId → LogId → Bool → List LogId
unfolding append
extend_one ks n at_end =
    let ks' = if leader_of (get_last? ks) =? some n.leader_id then ks else append ks n in
    if at_end && not (get_last? ks' =? some n) then append ks' n else ks'

unfoldable pub extend : List LogId → List LogId → List LogId
unfolding extend_one
extend ks [] = ks
extend ks (n ∷ ns) = extend (extend_one ks n (is_empty ns)) ns

-- `extend_from_same_leader`: only the two ends are stored.
unfoldable pub extend_from_same_leader : List LogId → List LogId → List LogId
unfolding append
extend_from_same_leader ks [] = ks
extend_from_same_leader ks (first ∷ ns) = elim (get_last? ns) [
  | none ↦ append ks first
  | some last ↦ if last =? first then append ks first else append (append ks first) last
]

-- `by_last_leader`: the first and the last log of the last leader.
unfoldable pub by_last_leader : List LogId → Option (LogId × LogId)
by_last_leader [] = none
by_last_leader (a ∷ []) = some (a, a)
by_last_leader (a ∷ b ∷ []) = if b.leader_id =? a.leader_id then some (a, b) else some (b, b)
by_last_leader (a ∷ b ∷ c ∷ ks) = by_last_leader (b ∷ c ∷ ks)
