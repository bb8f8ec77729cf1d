-- ===== src/Scenarios/Replication.antt =====
-- The progress of a leader over five voters, and of one follower.
use async_raft.Base.{
  some_inj, ℕ, ◌≡◌, refl, sym, subst, ◌⊎◌, inl, true, false, List, [], ◌∷◌, none, some, arith,
  if◌then◌else◌, leb, get_elem?, add64, done,
}
use async_raft.Base.Order.{◌≤?◌, ◌<?◌, nat_ord, option_ord}
use async_raft.Quorum.{joint_ids, is_joint_quorum}
use async_raft.LogId.{LogId, log_id_ord, next_index}
use async_raft.Progress.{VecProgress, new, update, update_with, update_at, index}
use async_raft.Progress
use async_raft.Progress.Votes.{Sorted, HasQuorum}
use async_raft.Progress.Granted.{Inv}
use async_raft.Progress.Updates.{new-Inv, update_with-Inv}
use async_raft.ProgressEntry.{
  ProgressEntry, LogState, LogIdRange, nothing, logs_of, next_send, update_matching,
}
use async_raft.ProgressEntry.Validate.{
  IsValid, Extends, AfterPurged, next_send-IsValid, update_matching-IsValid,
}

abbrev self : ℕ → ℕ
self n = n

abbrev voters : List ℕ
voters = 0 ∷ 1 ∷ 2 ∷ 3 ∷ 4 ∷ []

abbrev start : VecProgress ℕ ℕ
start = Progress.new self (voters ∷ []) (7 ∷ []) 0

abbrev to_five : ℕ → ℕ
to_five v = if leb v 5 then 5 else v

start-zero :
    (i : ℕ) (x : ℕ × ℕ)
    → index start.vector 3 ≡ some i
    → get_elem? start.vector i ≡ some x
    → (self x.1 ≤? start.granted) ≡ true
unfolding index Progress.new joint_ids
start-zero i x e g =
    let third : 3 ≡ i = some_inj e in
    let pair : (3, 0) ≡ x =
      some_inj (subst (λ j. get_elem? start.vector j ≡ some x) (sym third) g) in
    subst (λ (y : ℕ × ℕ). (self y.1 ≤? start.granted) ≡ true) pair refl

update_with-Inv_example :
    Inv self 0 (update_with self start 3 to_five).0
    × ((0 ≤? (update_with self start 3 to_five).0.granted) ≡ true)
unfolding Progress.new
update_with-Inv_example =
    update_with-Inv self 0 start 3 to_five (new-Inv self voters [] (7 ∷ []) 0) (λ v. ground arith)
      (λ i x e g h d. start-zero i x e g)

-- Two voters above the granted value, the later one of which rises past the other.
abbrev two_ahead : VecProgress ℕ ℕ
two_ahead = record {
  quorum_set = voters ∷ [];
  granted = 0;
  voter_count = 5;
  vector = (0, 5) ∷ (1, 4) ∷ (2, 0) ∷ (3, 0) ∷ (4, 0) ∷ [];
}

two_ahead-quorum : (p : ℕ) → (0 <? p) ≡ true → ¬ HasQuorum self (voters ∷ []) p two_ahead.vector
two_ahead-quorum p h q = ground arith

two_ahead-Sorted : Sorted self 0 two_ahead.vector
two_ahead-Sorted = ground arith

abbrev two_ahead-Inv : Inv self 0 two_ahead
two_ahead-Inv = record {
  voters = two_ahead.vector;
  learners = [];
  parts = refl;
  size = refl;
  sorted = two_ahead-Sorted;
  reached = inl refl;
  greatest = two_ahead-quorum;
}

-- The order that is lost makes the progress grant 6, which two of the five voters have.
granted_too_much :
    (update self (update self (update self (update self start 0 5).0 1 4).0 1 6).0 2 7).0.granted
    ≡ 6
unfolding Progress.new update joint_ids is_joint_quorum
granted_too_much = refl

abbrev at : ℕ → ℕ → LogId
at term index = record { leader_id = record { term = term; node_id = 1 }; index = index }

-- The logs up to 8, of which those up to 2 are purged.
abbrev leader_log : LogState
leader_log = record {
  last_log_id = some (at 1 8);
  purge_upto = some (at 1 2);
  snapshot_last_log_id = some (at 1 2);
  get_log_id = λ i. if leb i 8 then some (at 1 i) else none;
}

abbrev unknown : ProgressEntry
unknown = record {
  matching = none;
  inflight = nothing;
  searching_end = 9;
  allow_log_reversion = false;
}

unknown-IsValid : IsValid unknown
unknown-IsValid = record { searched = omega arith; sending = tt }

nine : next_index (some (at 1 8)) ≡ 9
unfolding add64
nine = refl

leader-Extends : Extends leader_log none
leader-Extends = record {
  bounded = λ l e. absurd cc;
  indexed = λ i l e. ground (arith, e);
  present = λ i p l m. (at 1 i, ground (arith, nine), refl);
  purged = λ h. refl;
  covered = refl;
}

next_send-IsValid_example :
    IsValid (next_send unknown leader_log 4).0
    × (((next_send unknown leader_log 4).0.inflight ≡ nothing)
        ⊎ AfterPurged leader_log (next_send unknown leader_log 4).0.inflight)
next_send-IsValid_example =
    next_send-IsValid unknown leader_log 4 unknown-IsValid leader-Extends (omega (arith, nine))
      (omega (arith, nine))

abbrev sent_range : LogIdRange
sent_range = record { prev = some (at 1 3); last = some (at 1 7) }

abbrev sending : ProgressEntry
sending = record {
  matching = some (at 1 2);
  inflight = logs_of sent_range;
  searching_end = 9;
  allow_log_reversion = false;
}

three : next_index (some (at 1 2)) ≡ 3
unfolding add64
three = refl

four : next_index (some (at 1 3)) ≡ 4
unfolding add64
four = refl

sending-IsValid : IsValid sending
sending-IsValid = record {
  searched = omega (arith, three);
  sending = (refl, refl, omega (arith, four));
}

update_matching-IsValid_example :
    (e' : ProgressEntry) × (update_matching sending (some (at 1 5)) ≡ done e')
    × IsValid e'
    × (e'.matching ≡ some (at 1 5))
update_matching-IsValid_example =
    update_matching-IsValid sending (some (at 1 5)) sent_range sending-IsValid refl refl
