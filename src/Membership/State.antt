-- ===== src/Membership/State.antt =====
-- The membership state of a node: stored_membership.rs and effective_membership.rs of
-- openraft/src/membership, and openraft/src/raft_state/membership_state. Debug assertions are no part
-- of the model. Children: proofs.
pub mod Invariant
use async_raft.Base.{
  ℕ, Bool, true, false, not, ◌&&◌, List, [], ◌∷◌, Option, none, some, if◌then◌else◌, ◌==◌,
}
use async_raft.Base.Sets.{list_eq}
use async_raft.Base.Order.{Ord, option_ord, nat_ord, ◌≤?◌, ◌<?◌, ◌=?◌}
use async_raft.Quorum.{joint_ids}
use async_raft.LogId.{LogId, log_id_ord, index_of}
use async_raft.Membership.{
  Membership, ChangeMembers, ChangeMembershipError, in_progress, Result, ok, err, ◌>>=◌, ◌>>◌,
  change, is_voter, contains, Membership,
}

pub record StoredMembership (N : Type 0) : Type 0 where
  pub log_id : Option LogId
  pub membership : Membership N

-- The quorum set and the voter ids are caches.
pub record EffectiveMembership (N : Type 0) : Type 0 where
  pub stored : StoredMembership N
  pub quorum_set : List (List ℕ)
  pub voter_ids : List ℕ

pub record MembershipState (N : Type 0) : Type 0 where
  pub committed : EffectiveMembership N
  pub effective : EffectiveMembership N

-- The equality of the application's nodes.
pub record Eq (N : Type 0) : Type 0 where
  pub beq : N → N → Bool

module _ {N : Type 0} where
  abbrev pub log_id : EffectiveMembership N → Option LogId
  log_id e = e.stored.log_id

  abbrev pub membership : EffectiveMembership N → Membership N
  membership e = e.stored.membership

  unfoldable pub new_effective : Option LogId → Membership N → EffectiveMembership N
  unfolding joint_ids
  new_effective id m = record {
    stored = record { log_id = id; membership = m };
    quorum_set = m.configs;
    voter_ids = joint_ids m.configs;
  }

  unfoldable pub new_from_stored : StoredMembership N → EffectiveMembership N
  unfolding new_effective
  new_from_stored s = new_effective s.log_id s.membership

  -- `MembershipState::commit`.
  unfoldable pub commit : MembershipState N → Option LogId → MembershipState N
  commit s id = if log_id s.effective ≤? id then record s { committed = s.effective } else s

  -- `MembershipState::append`.
  unfoldable pub append : MembershipState N → EffectiveMembership N → MembershipState N
  append s m = record s { committed = s.effective; effective = m }

  -- `MembershipState::truncate`: the effective membership goes back to the committed one, if its log
  -- is truncated.
  unfoldable pub truncate :
      MembershipState N → ℕ → MembershipState N × Option (EffectiveMembership N)
  truncate s since =
      if some since ≤? index_of (log_id s.effective)
      then (record s { effective = s.committed }, some s.committed)
      else (s, none)

  -- `ChangeHandler::ensure_committed` and `apply`.
  unfoldable pub ensure_committed : MembershipState N → Result (Unit {0})
  ensure_committed s =
      if log_id s.effective =? log_id s.committed
      then ok tt
      else err (in_progress (log_id s.committed) (log_id s.effective))

  unfoldable pub apply : MembershipState N → ChangeMembers N → Bool → Result (Membership N)
  unfolding ensure_committed
  apply s c retain = do ensure_committed s; change (membership s.effective) c retain

abbrev configs_eq : List (List ℕ) → List (List ℕ) → Bool
configs_eq [] [] = true
configs_eq (c ∷ cs) (d ∷ ds) = list_eq c d && configs_eq cs ds
configs_eq _ _ = false

module _ {N : Type 0} ⦃q : Eq N⦄ where
  abbrev nodes_eq : List (ℕ × N) → List (ℕ × N) → Bool
  nodes_eq [] [] = true
  nodes_eq ((k, v) ∷ m) ((j, w) ∷ n) = k == j && (q.beq v w && nodes_eq m n)
  nodes_eq _ _ = false

  abbrev membership_eq : Membership N → Membership N → Bool
  membership_eq m n = configs_eq m.configs n.configs && nodes_eq m.nodes n.nodes

  -- `MembershipState::update_committed`: the effective one is replaced by index, the committed one by
  -- log id. The answer is the effective one, if its membership changed.
  unfoldable pub update_committed :
      MembershipState N → EffectiveMembership N → MembershipState N × Option (EffectiveMembership N)
  update_committed s c =
      let newer = index_of (log_id s.effective) ≤? index_of (log_id c) in
      let changed = newer && not (membership_eq (membership c) (membership s.effective)) in
      let effective' = if newer then c else s.effective in
      let committed' = if log_id s.committed <? log_id c then c else s.committed in
      (
        record { committed = committed'; effective = effective' },
        if changed then some effective' else none,
      )
