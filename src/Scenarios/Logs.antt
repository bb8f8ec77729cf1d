-- ===== src/Scenarios/Logs.antt =====
-- A log with two leaders: logs 2 to 4 by the leader of term 1, logs 5 to 7 by that of term 3.
use async_raft.Base.{ℕ, ◌≡◌, refl, List, [], ◌∷◌, none, arith, if◌then◌else◌, ltb}
use async_raft.Vote.{leader_id_ord}
use async_raft.LogId.{LogId, log_id_ord}
use async_raft.LogIdList.{truncate, purge, extend, ref_at}
use async_raft.LogIdList.Lookup.{Ascending}
use async_raft.LogIdList.Refinement.{ref_at-truncate, ref_at-purge, without_purged}
use async_raft.LogIdList.Extend.{given, ref_at-extend}

abbrev at : ℕ → ℕ → LogId
at term index = record { leader_id = record { term = term; node_id = 1 }; index = index }

abbrev rest : List LogId
rest = at 3 5 ∷ at 3 7 ∷ []

abbrev log : List LogId
log = at 1 2 ∷ rest

log-Ascending : Ascending log
log-Ascending = (omega arith, (omega arith, tt))

ref_at-truncate_example : ref_at (truncate log 4) 3 ≡ (if ltb 3 4 then ref_at log 3 else none)
ref_at-truncate_example = ref_at-truncate log 4 3 log-Ascending

ref_at-purge_example : ref_at (purge log (at 3 6)) 6 ≡ without_purged (ref_at log 6) 7 (at 3 6) 6
ref_at-purge_example = ref_at-purge (at 1 2) rest (at 3 6) 6 log-Ascending (omega arith)

abbrev news : List LogId
news = at 4 9 ∷ at 4 10 ∷ []

ref_at-extend_example :
    ref_at (extend log (at 3 8 ∷ news)) 9 ≡ given (ref_at log 9) (at 3 8 ∷ news) 9
ref_at-extend_example =
    ref_at-extend (at 1 2) rest (at 3 8) news 9 log-Ascending (refl, (refl, (refl, tt)))
