-- ===== src/Replication/Commit.antt =====
-- What a leader commits: `try_commit_quorum_accepted` and `update_matching` of
-- openraft/src/engine/handler/replication_handler.
use async_raft.Base.{
  ◌≡◌, refl, inl, inr, true, false, ◌&&◌, Option, none, some, if◌then◌else◌, done, arith,
  Bool-cases, ◌∙◌,
}
use async_raft.Base.Order.{◌<?◌, option_ord}
use async_raft.LogId.{LogId, log_id_ord}
use async_raft.Membership.State.{MembershipState, commit}
use async_raft.RaftState.{update_committed}
use async_raft.Handler.{Node, trigger_snapshot}
use async_raft.Replication.{own, try_commit_quorum_accepted, publish_committed, published}

newer-some : (a b : Option LogId) → (a <? b) ≡ true → (c : LogId) × (b ≡ some c)
newer-some none none h = absurd cc
newer-some (some a) none h = absurd cc
newer-some none (some c) h = (c, refl)
newer-some (some a) (some c) h = (c, refl)

module _ {N : Type 0} where
  -- What a commit leaves as it is.
  pub record SameBut (a b : Node N) : Type 0 where
    pub config : b.config ≡ a.config
    pub vote : b.state.vote ≡ a.state.vote
    pub log_ids : b.state.log_ids ≡ a.state.log_ids
    pub effective : b.state.membership_state.effective ≡ a.state.membership_state.effective

  pub SameBut-refl : (n : Node N) → SameBut n n
  SameBut-refl n = record { config = refl; vote = refl; log_ids = refl; effective = refl }

  commit-effective :
      (m : MembershipState N) (c : Option LogId) → (commit m c).effective ≡ m.effective
  unfolding commit
  commit-effective m c = ground arith

  published-SameBut :
      (n : Node N) (prev : Option LogId) (c : LogId)
      → SameBut n (published n prev c) × ((published n prev c).state.committed ≡ n.state.committed)
  unfolding published trigger_snapshot
  published-SameBut n prev c = ground arith

  publish_committed_lem :
      (n : Node N) (prev : Option LogId) (c : LogId)
      → n.state.committed ≡ some c
      → publish_committed n prev ≡ done (published n prev c)
  unfolding publish_committed
  publish_committed_lem n prev c e = ground (arith, e)

  abbrev committing : Node N → Option LogId → Node N
  committing n granted = record n {
    state = record n.state {
      committed = granted;
      membership_state = commit n.state.membership_state granted;
    };
  }

  update_committed-newer :
      (n : Node N) (granted : Option LogId)
      → (n.state.committed <? granted) ≡ true
      → update_committed n.state granted ≡ ((committing n granted).state, some n.state.committed)
  unfolding update_committed
  update_committed-newer n granted h = rw h refl

  update_committed-older :
      (n : Node N) (granted : Option LogId)
      → (n.state.committed <? granted) ≡ false
      → update_committed n.state granted ≡ (n.state, none)
  unfolding update_committed
  update_committed-older n granted h = rw h refl

  committing-SameBut :
      (n : Node N) (granted prev : Option LogId) (c : LogId)
      → SameBut n (published (committing n granted) prev c)
  committing-SameBut n granted prev c =
      let (same, kept) = published-SameBut (committing n granted) prev c in
      record {
        config = same.config;
        vote = same.vote;
        log_ids = same.log_ids;
        effective = same.effective ∙ commit-effective n.state.membership_state granted;
      }

  -- A log id granted by a quorum is committed exactly if this leader proposed it, or it is none, and it
  -- is greater than what is committed. Nothing else of the vote, the log and the memberships in effect
  -- changes, and it never panics.
  pub try_commit_quorum_accepted_lem :
      (n : Node N) (granted : Option LogId)
      → (n' : Node N) × (try_commit_quorum_accepted n granted ≡ done n')
        × (n'.state.committed ≡ (
            if own n.state granted && (n.state.committed <? granted)
            then granted
            else n.state.committed))
        × SameBut n n'
  unfolding try_commit_quorum_accepted
  try_commit_quorum_accepted_lem n granted = elim (Bool-cases (own n.state granted)) [
    | inl mine ↦ elim (Bool-cases (n.state.committed <? granted)) [
      | inl newer ↦
          let (c, e) = newer-some n.state.committed granted newer in
          let prev = n.state.committed in
          let m = committing n granted in
          (
            published m prev c,
            rw (mine, update_committed-newer n granted newer) (publish_committed_lem m prev c e),
            rw (mine, newer) (published-SameBut m prev c).1,
            committing-SameBut n granted prev c,
          )
      | inr older ↦ (
        n,
        rw (mine, update_committed-older n granted older) refl,
        rw (mine, older) refl,
        SameBut-refl n,
      )
    ]
    | inr other ↦ (n, rw other refl, rw other refl, SameBut-refl n)
  ]
