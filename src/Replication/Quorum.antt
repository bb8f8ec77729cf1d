-- ===== src/Replication/Quorum.antt =====
-- What a replication that succeeds commits: `update_matching` of
-- openraft/src/engine/handler/replication_handler.
use async_raft.Base.{
  ℕ, ◌<◌, ◌≡◌, refl, ◌⊎◌, inl, inr, Bool, true, false, ◌&&◌, Option, none, some, if◌then◌else◌,
  done, arith,
}
use async_raft.Base.Order.{◌≤?◌, ◌<?◌, ◌=?◌, option_ord}
use async_raft.LogId.{LogId, log_id_ord}
use async_raft.Progress.{try_get, index, update}
use async_raft.Progress.Votes.{HasQuorum}
use async_raft.Progress.Granted.{Inv}
use async_raft.Progress.Updates.{update-Inv}
use async_raft.ProgressEntry.{ProgressEntry, ack}
use async_raft.ProgressEntry
use async_raft.Leader.{matching_of}
use async_raft.Replication.{Leading, own, update_matching}
use async_raft.Replication.Commit.{try_commit_quorum_accepted_lem}

acked-matching :
    (e e' : ProgressEntry) (m : Option LogId)
    → ProgressEntry.update_matching e m ≡ done e'
    → e'.matching ≡ m
unfolding ProgressEntry.update_matching
acked-matching e e' m h = ground (arith, h)

-- A value that is chosen by a test is either what was there, or the test holds.
chosen :
    (mine newer : Bool) (x y z : Option LogId)
    → z ≡ (if mine && newer then x else y)
    → (z ≡ y) ⊎ ((mine ≡ true) × (newer ≡ true) × (z ≡ x))
chosen true true x y z e = inr (refl, refl, e)
chosen true false x y z e = inl e
chosen false newer x y z e = inl e

not_above_none : (a : Option LogId) → (a <? none) ≡ true → ⊥
not_above_none none h = cc
not_above_none (some a) h = cc

module _ {N : Type 0} where
  -- A leader whose progress satisfies the invariant counts the answer of a node with something
  -- inflight, for a matching log that does not go back, provided that the node is a learner, the
  -- matching log is the same, or it was not above the granted one. The invariant is kept, and what is
  -- committed is either as before, or greater, proposed by this leader and matched by a quorum.
  pub update_matching-commits :
      (l : Leading N) (id : ℕ) (m : Option LogId) (e e' : ProgressEntry)
      → Inv matching_of none l.lead.progress
      → try_get l.lead.progress.vector id ≡ some e
      → ProgressEntry.update_matching e m ≡ done e'
      → (e.matching ≤? m) ≡ true
      → ((i : ℕ)
          → index l.lead.progress.vector id ≡ some i
          → i < l.lead.progress.voter_count
          → (e.matching =? m) ≡ false
          → (e.matching ≤? l.lead.progress.granted) ≡ true)
      → (l' : Leading N) × (update_matching l id m ≡ done l')
        × (q : Inv matching_of none l'.lead.progress) × ((l'.node.state.committed
              ≡ l.node.state.committed)
            ⊎ (((l.node.state.committed <? l'.node.state.committed) ≡ true)
                × (own l.node.state l'.node.state.committed ≡ true)
                × HasQuorum matching_of l'.lead.progress.quorum_set l'.node.state.committed
                    q.voters))
  unfolding update_matching
  update_matching-commits l id m e e' q t u grow below =
      let same = acked-matching e e' m u in
      let p' = (update matching_of l.lead.progress id e').0 in
      let (q', le) =
        update-Inv matching_of none l.lead.progress id e e' q t (rw same grow)
          (λ i x s d. below i x s (rw same at d)) in
      let (n', c, committed, kept) = try_commit_quorum_accepted_lem l.node p'.granted in
      (
        record { node = n'; lead = record l.lead { progress = p' } },
        rw (t, u, c) refl,
        q',
        elim (chosen (own l.node.state p'.granted) (l.node.state.committed <? p'.granted) p'.granted
            l.node.state.committed n'.state.committed committed) [
              | inl old ↦ inl old
              | inr (mine, newer, new) ↦ inr (
                rw new newer,
                rw new mine,
                elim q'.reached [
                  | inl low ↦ absurd (not_above_none l.node.state.committed (rw low at newer))
                  | inr h ↦ rw new h
                ],
              )
            ],
      )
