-- ===== src/LogIdList/Loading.antt =====
-- `get_key_log_ids` of openraft/src/engine/log_id_list.rs: the key log ids are read from the storage by
-- bisection, with a stack of spans. The storage answers with the log id at an index, or with none for
-- an error; the loop runs for a number of rounds.
use async_raft.Base.{
  ℕ, zero, suc, ◌/◌, not, List, [], ◌∷◌, ◌++◌, Option, none, some, if◌then◌else◌, ◌==◌, get_last?,
  add64,
}
use async_raft.Base.Order.{◌<?◌, ◌=?◌, option_ord}
use async_raft.Vote.{leader_id_ord}
use async_raft.LogId.{LogId, log_id_ord, leader_of}

-- What comes of it: the log ids, an error of the storage, or too few rounds.
pub data Loaded : Type 0 where
  loaded : List LogId → Loaded
  storage_error : Loaded
  unfinished : Loaded

-- The log id is pushed if its leader is greater than the last one.
unfoldable pub push_new : List LogId → LogId → List LogId
push_new res first =
    if leader_of (get_last? res) <? some first.leader_id then res ++ first ∷ [] else res

-- The log in the middle splits the span of the first and the last one.
unfoldable pub split :
    LogId
    → LogId
    → List (LogId × LogId)
    → List LogId
    → Option LogId
    → Option (List (LogId × LogId) × List LogId)
split first last stack res none = none
split first last stack res (some mid) =
    if first.leader_id =? mid.leader_id
    then some ((mid, last) ∷ stack, push_new res first)
    else if mid.leader_id =? last.leader_id
    then some ((first, mid) ∷ stack, res)
    else some ((first, mid) ∷ (mid, last) ∷ stack, res)

-- One round of the loop, for the span from the top of the stack.
unfoldable pub visit :
    (ℕ → Option LogId)
    → LogId × LogId
    → List (LogId × LogId)
    → List LogId
    → Option (List (LogId × LogId) × List LogId)
visit get (first, last) stack res =
    if first.leader_id =? last.leader_id
    then some (stack, push_new res first)
    else if add64 first.index 1 == last.index
    then some (stack, push_new res first ++ last ∷ [])
    else split first last stack res (get (add64 first.index last.index / 2))

abbrev pub next :
    (List (LogId × LogId) → List LogId → Loaded)
    → Option (List (LogId × LogId) × List LogId)
    → Loaded
next rest none = storage_error
next rest (some (stack, res)) = rest stack res

unfoldable pub bisect : (ℕ → Option LogId) → ℕ → List (LogId × LogId) → List LogId → Loaded
bisect get rounds [] res = loaded res
bisect get zero (span ∷ stack) res = unfinished
bisect get (suc rounds) (span ∷ stack) res =
    next (λ stack' res'. bisect get rounds stack' res') (visit get span stack res)

-- The last log id is always there.
unfoldable pub with_last : LogId → Loaded → Loaded
with_last last storage_error = storage_error
with_last last unfinished = unfinished
with_last last (loaded res) =
    loaded (if not (get_last? res =? some last) then res ++ last ∷ [] else res)

unfoldable pub get_key_log_ids : (ℕ → Option LogId) → ℕ → LogId → LogId → Loaded
get_key_log_ids get rounds first last = with_last last (bisect get rounds ((first, last) ∷ []) [])
