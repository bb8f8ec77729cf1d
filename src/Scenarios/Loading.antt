-- ===== src/Scenarios/Loading.antt =====
-- A storage with the logs 2 to 9, of two leaders.
use async_raft.Base.{ℕ, ◌≤◌, ◌≡◌, List, Option, none, some, if◌then◌else◌, ltb, leb, arith}
use async_raft.Vote.{LeaderId, leader_id_ord}
use async_raft.LogId.{LogId}
use async_raft.LogIdList.{ref_at}
use async_raft.LogIdList.Lookup.{Ascending}
use async_raft.LogIdList.Loading.{loaded, get_key_log_ids}
use async_raft.LogIdList.Bisection.{stored, Stores}
use async_raft.LogIdList.KeyLogIds.{get_key_log_ids-ref_at}

abbrev leaders : ℕ → LeaderId
leaders i = record { term = if ltb i 5 then 1 else 3; node_id = 2 }

abbrev get : ℕ → Option LogId
get i = if leb i 9 then some (stored leaders i) else none

get-Stores : Stores get leaders 2 9
get-Stores = record { answers = λ i p q. ground (arith, q); grows = λ i j p q r. ground (arith, q) }

get_key_log_ids-ref_at_example :
    (ks : List LogId) × (get_key_log_ids get 15 (stored leaders 2) (stored leaders 9) ≡ loaded ks)
    × Ascending ks
    × ((i : ℕ) → 2 ≤ i → i ≤ 9 → ref_at ks i ≡ some (leaders i))
get_key_log_ids-ref_at_example =
    get_key_log_ids-ref_at get leaders 2 9 get-Stores (omega arith) 15 (omega arith) (omega arith)
