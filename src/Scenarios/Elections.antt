-- ===== src/Scenarios/Elections.antt =====
-- An election among the nodes 1 to 3.
use async_raft.Base.{
  ℕ, ◌≡◌, refl, ◌↔◌, ◌⊎◌, inr, Bool, true, false, List, [], ◌∷◌, none, done, panicked, arith,
}
use async_raft.Base.Sets.{member}
use async_raft.Base.Order.{◌<?◌}
use async_raft.Vote.{Vote}
use async_raft.Vote.AdvOrder.{bool_ord}
use async_raft.Quorum.{is_coherent_with}
use async_raft.Progress.{index}
use async_raft.Progress.Votes.{HasQuorum}
use async_raft.Progress.Granted.{Inv}
use async_raft.Progress.Updates.{new-Inv}
use async_raft.Candidate.{Candidate, self, grant_by, granters}
use async_raft.Candidate
use async_raft.Candidate.Election.{grant_by-quorum, elected_meet}

abbrev voters : List ℕ
voters = 1 ∷ 2 ∷ 3 ∷ []

abbrev ballot : ℕ → Vote
ballot node = record { leader_id = record { term = 5; node_id = node }; committed = false }

abbrev starting : Candidate
starting = Candidate.new 100 (ballot 1) none (voters ∷ []) []

starting-Inv : Inv self false starting.progress
unfolding Candidate.new
starting-Inv = new-Inv self voters [] [] false

grant_by-quorum_example :
    ((grant_by starting 2 ≡ panicked) × (index starting.progress.vector 2 ≡ none))
    ⊎ ((c' : Candidate) × (elected : Bool) × (q : Inv self false c'.progress) × (grant_by starting 2
          ≡ done (c', elected))
        × (c'.vote ≡ starting.vote)
        × ((elected ≡ true) ↔ HasQuorum self c'.progress.quorum_set true q.voters))
grant_by-quorum_example = grant_by-quorum starting 2 starting-Inv

abbrev winner : ℕ → List (ℕ × Bool) → Candidate
winner node grants = record {
  starting_time = 100;
  vote = ballot node;
  last_log_id = none;
  progress = record { quorum_set = voters ∷ []; granted = true; voter_count = 3; vector = grants };
  quorum_set = voters ∷ [];
  learner_ids = [];
}

abbrev first : Candidate
first = winner 1 ((1, true) ∷ (2, true) ∷ (3, false) ∷ [])

abbrev second : Candidate
second = winner 3 ((3, true) ∷ (2, true) ∷ (1, false) ∷ [])

nothing_above : (b : Bool) → (true <? b) ≡ true → ⊥
nothing_above true e = cc
nothing_above false e = cc

first-Inv : Inv self false first.progress
first-Inv = record {
  voters = first.progress.vector;
  learners = [];
  parts = refl;
  size = refl;
  sorted = ground arith;
  reached = inr (ground arith);
  greatest = λ p l q. nothing_above p l;
}

second-Inv : Inv self false second.progress
second-Inv = record {
  voters = second.progress.vector;
  learners = [];
  parts = refl;
  size = refl;
  sorted = ground arith;
  reached = inr (ground arith);
  greatest = λ p l q. nothing_above p l;
}

elected_meet_example :
    (id : ℕ) × (member id (granters first) ≡ true) × (member id (granters second) ≡ true)
unfolding granters is_coherent_with
elected_meet_example =
    elected_meet first second first-Inv second-Inv refl refl refl (refl, (refl, tt))
      (refl, (refl, tt))
