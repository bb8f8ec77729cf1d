-- ===== src/StorageHelper/LoadedMemberships.antt =====
-- The memberships that `get_membership` of openraft/src/storage/helper.rs finds are in order.
use async_raft.Base.{
  ℕ, zero, suc, ◌+◌, ◌<◌, ◌≤◌, ◌≡◌, refl, List, [], ◌∷◌, some, Option-cases, inl, inr, arith,
  length, ltb, if◌then◌else◌,
}
use async_raft.Base.Order.{option_ord, nat_ord}
use async_raft.LogId.{log_id_ord}
use async_raft.Membership.{Membership}
use async_raft.Membership.State.{StoredMembership, EffectiveMembership, log_id, new_from_stored}
use async_raft.Membership.State.Invariant.{Inv, refl-Inv}
use async_raft.Handler.{Entry}
use async_raft.Following.{last_two_memberships}
use async_raft.StorageHelper.{membership_of}
use async_raft.StorageHelper.Slices.{slice}
use async_raft.StorageHelper.Points.{upto, Proposed, upto-le, index_of-upto-le}

module _ {N : Type 0} (log : ℕ → Entry N) (top : ℕ) (p : Proposed log top) where
  -- At most two memberships, of logs in order from an index on.
  data InOrder (i : ℕ) : List (StoredMembership N) → Type 0 where
    no_membership : InOrder i []
    one :
        (a : StoredMembership N) (x : ℕ)
        → i ≤ x
        → x < top
        → a.log_id ≡ upto log (suc x)
        → InOrder i (a ∷ [])
    two :
        (a b : StoredMembership N) (x y : ℕ)
        → i ≤ x
        → x < y
        → y < top
        → a.log_id ≡ upto log (suc x)
        → b.log_id ≡ upto log (suc y)
        → InOrder i (a ∷ b ∷ [])

  earlier : {i : ℕ} {ms : List (StoredMembership N)} → InOrder (suc i) ms → InOrder i ms
  earlier no_membership = no_membership
  earlier (one a x l b q) = one a x (omega arith) b q
  earlier (two a b x y l o c q r) = two a b x y (omega arith) o c q r

  first-InOrder :
      (i : ℕ) (m : Membership N) {ms : List (StoredMembership N)}
      → i < top
      → InOrder (suc i) ms
      → InOrder i (
          if ltb (length ms) 2
          then record { log_id = some (log i).log_id; membership = m } ∷ ms
          else ms)
  first-InOrder i m b no_membership = one _ i (omega arith) b refl
  first-InOrder i m b (one a x l c q) = two _ a i x (omega arith) (omega arith) c refl q
  first-InOrder i m b (two a c x y l o d q r) = two a c x y (omega arith) o d q r

  last_two-InOrder : (n i : ℕ) → i + n ≤ top → InOrder i (last_two_memberships (slice log i n))
  unfolding last_two_memberships
  last_two-InOrder zero i b = no_membership
  last_two-InOrder (suc n) i b =
      let rest = last_two-InOrder n (suc i) (omega (arith, b)) in
      elim (Option-cases (log i).membership) [
        | inl e ↦ rw e (earlier rest)
        | inr (m, e) ↦ rw e (first-InOrder i m (omega (arith, b)) rest)
      ]

  ordered-Inv :
      (a b : EffectiveMembership N) (x y : ℕ)
      → log_id a ≡ upto log x
      → log_id b ≡ upto log y
      → x ≤ y
      → y ≤ top
      → Inv (record { committed = a; effective = b })
  ordered-Inv a b x y q r o c = record {
    by_id = rw (q, r) (upto-le log top p x y o c);
    by_index = rw (q, r) (index_of-upto-le log top p x y o c);
  }

  membership_of-InOrder :
      (sm : StoredMembership N) (k i : ℕ) {ms : List (StoredMembership N)}
      → sm.log_id ≡ upto log k
      → k ≤ i
      → InOrder i ms
      → Inv (membership_of sm ms)
  unfolding membership_of new_from_stored
  membership_of-InOrder sm k i q o no_membership = refl-Inv (new_from_stored sm)
  membership_of-InOrder sm k i q o (one a x l b r) =
      ordered-Inv (new_from_stored sm) (new_from_stored a) k (suc x) q r (omega arith) b
  membership_of-InOrder sm k i q o (two a b x y l c d r t) =
      ordered-Inv (new_from_stored a) (new_from_stored b) (suc x) (suc y) r t (omega arith) d

  -- The memberships of the state machine and of the logs after it are in order.
  pub membership_of-Inv :
      (sm : StoredMembership N) (k i n : ℕ)
      → sm.log_id ≡ upto log k
      → k ≤ i
      → i + n ≤ top
      → Inv (membership_of sm (last_two_memberships (slice log i n)))
  membership_of-Inv sm k i n q o b = membership_of-InOrder sm k i q o (last_two-InOrder n i b)
