-- ===== src/Candidate.antt =====
-- openraft/src/proposer/candidate.rs: a candidate counts the nodes that granted its vote. Becoming a
-- leader (`into_leader`) is in Leader. Children: proofs.
pub mod Election
use async_raft.Base.{
  ℕ, Bool, true, false, List, [], ◌∷◌, Option, none, some, if◌then◌else◌, Checked, done, panicked,
}
use async_raft.Vote.{Vote}
use async_raft.Vote.AdvOrder.{bool_ord}
use async_raft.LogId.{LogId}
use async_raft.Progress.{VecProgress, Found, found, not_found, update}
use async_raft.Progress

pub record Candidate : Type 0 where
  pub starting_time : ℕ
  pub vote : Vote
  pub last_log_id : Option LogId
  pub progress : VecProgress Bool Bool
  pub quorum_set : List (List ℕ)
  pub learner_ids : List ℕ

abbrev pub self : Bool → Bool
self b = b

unfoldable pub new : ℕ → Vote → Option LogId → List (List ℕ) → List ℕ → Candidate
unfolding Progress.new
new starting_time vote last quorum_set learner_ids = record {
  starting_time = starting_time;
  vote = vote;
  last_log_id = last;
  progress = Progress.new self quorum_set [] false;
  quorum_set = quorum_set;
  learner_ids = learner_ids;
}

-- `grant_by`: whether a quorum has granted; a node outside the quorum set is a panic.
unfoldable pub grant_by : Candidate → ℕ → Checked (Candidate × Bool)
unfolding update
grant_by c target =
    let (progress', result) = update self c.progress target true in
    elim result [
      | found granted ↦ done (record c { progress = progress' }, granted)
      | not_found granted ↦ panicked
    ]

-- `granters`.
unfoldable pub granted_by : List (ℕ × Bool) → List ℕ
granted_by [] = []
granted_by ((id, b) ∷ xs) = let rest = granted_by xs in if b then id ∷ rest else rest

unfoldable pub granters : Candidate → List ℕ
unfolding granted_by
granters c = granted_by c.progress.vector
