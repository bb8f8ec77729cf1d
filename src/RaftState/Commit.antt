-- ===== src/RaftState/Commit.antt =====
-- `RaftState::validate`, committing and accepting (raft_state/mod.rs).
use async_raft.Base.{
  ◌<◌, ◌≡◌, refl, true, Option, none, some, if◌then◌else◌, head?, arith, Bool-cases, inl, inr,
}
use async_raft.Base.Order.{
  Ord, option_ord, nat_ord, ◌≤?◌, ◌<?◌, le?_refl, le?_trans, lt?→le?, not_lt?→le?, max_of,
  le?_antisymm,
}
use async_raft.LogId.{LogId, log_id_ord, index_of, next_index}
use async_raft.IoState.{IoId, IoState, io_id_ord}
use async_raft.Membership.State.Invariant.{Inv, commit-Inv}
use async_raft.RaftState.{RaftState, update_committed, accept_io, last_log_id, last_purged_log_id}

-- `IOState::validate`.
pub record IoIsValid (s : IoState) : Type 0 where
  pub flushed : (s.io_progress.flushed ≤? s.io_progress.submitted) ≡ true
  pub submitted : (s.io_progress.submitted ≤? s.io_progress.accepted) ≡ true
  pub applied : (s.snapshot ≤? s.applied) ≡ true
  pub purged : (s.purged ≤? s.snapshot) ≡ true

-- What is purged is before the committed log or inside the snapshot.
abbrev pub PurgeIsSafe : Option LogId → Option LogId → Option LogId → Type 0
PurgeIsSafe none upto committed = (upto ≤? committed) ≡ true
PurgeIsSafe (some l) upto committed = (upto ≤? some l) ≡ true

safe-mono :
    (o upto a c : Option LogId) → (a ≤? c) ≡ true → PurgeIsSafe o upto a → PurgeIsSafe o upto c
safe-mono none upto a c h p = le?_trans {A = Option LogId} upto a c p h
safe-mono (some l) upto a c h p = p

max_lt : {A : Type 0} ⦃o : Ord A⦄ (a b : A) → (if a <? b then b else a) ≡ max_of a b
max_lt {A} a b =
    ground (arith, lt?→le? {A = A} a b, not_lt?→le? {A = A} a b, le?_antisymm {A = A} a b)

module _ {N : Type 0} where
  pub record IsValid (s : RaftState N) : Type 0 where
    pub from_zero : s.purged_next ≡ 0 → (index_of (head? s.log_ids) ≤? some 0) ≡ true
    pub from_purged : 0 < s.purged_next → s.purged_next ≡ next_index (head? s.log_ids)
    pub purged : (last_purged_log_id s ≤? s.purge_upto) ≡ true
    pub purge : PurgeIsSafe s.snapshot_meta.last_log_id s.purge_upto s.committed
    pub snapshot : (s.snapshot_meta.last_log_id ≤? s.committed) ≡ true
    pub committed : (s.committed ≤? last_log_id s) ≡ true
    pub membership : Inv s.membership_state
    pub io : IoIsValid s.io_state

  -- Committing up to a log of the node keeps the state valid, and the committed log id becomes the
  -- greater of the two: it never goes back. The old one is answered exactly if it changed.
  pub update_committed-IsValid :
      (s : RaftState N) (c : Option LogId)
      → IsValid s
      → (c ≤? last_log_id s) ≡ true
      → let (s', old) = update_committed s c in
        IsValid s'
        × (s'.committed ≡ max_of s.committed c)
        × (old ≡ (if s.committed <? c then some s.committed else none))
  unfolding update_committed last_purged_log_id
  update_committed-IsValid s c v h =
      let max = max_lt s.committed c in
      elim (Bool-cases (s.committed <? c)) [
        | inl t ↦
            let le = lt?→le? {A = Option LogId} s.committed c t in
            rw t (
              record {
                from_zero = v.from_zero;
                from_purged = v.from_purged;
                purged = v.purged;
                purge = safe-mono s.snapshot_meta.last_log_id s.purge_upto s.committed c le v.purge;
                snapshot =
                    le?_trans {A = Option LogId} s.snapshot_meta.last_log_id s.committed c
                      v.snapshot le;
                committed = h;
                membership = commit-Inv s.membership_state c v.membership;
                io = v.io;
              },
              rw t at max,
              refl,
            )
        | inr f ↦ rw f (v, rw f at max, refl)
      ]

  -- Accepting a write keeps the state valid; the accepted id becomes the greater of the two, and the old
  -- one is answered.
  pub accept_io-IsValid :
      (s : RaftState N) (id : IoId)
      → IsValid s
      → let (s', old) = accept_io s id in
        IsValid s'
        × ((some id ≤? s'.io_state.io_progress.accepted) ≡ true)
        × ((old ≤? s'.io_state.io_progress.accepted) ≡ true)
        × (old ≡ s.io_state.io_progress.accepted)
  unfolding accept_io last_purged_log_id
  accept_io-IsValid s id v = elim (Bool-cases (s.io_state.io_progress.accepted <? some id)) [
    | inl t ↦
        let le = lt?→le? {A = Option IoId} s.io_state.io_progress.accepted (some id) t in
        rw t (
          record {
            from_zero = v.from_zero;
            from_purged = v.from_purged;
            purged = v.purged;
            purge = v.purge;
            snapshot = v.snapshot;
            committed = v.committed;
            membership = v.membership;
            io = record {
              flushed = v.io.flushed;
              submitted =
                  le?_trans {A = Option IoId} s.io_state.io_progress.submitted
                    s.io_state.io_progress.accepted (some id) v.io.submitted le;
              applied = v.io.applied;
              purged = v.io.purged;
            };
          },
          le?_refl {A = Option IoId} (some id),
          le,
          refl,
        )
    | inr f ↦ rw f (
      v,
      not_lt?→le? {A = Option IoId} s.io_state.io_progress.accepted (some id) f,
      le?_refl {A = Option IoId} s.io_state.io_progress.accepted,
      refl,
    )
  ]
