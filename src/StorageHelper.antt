-- ===== src/StorageHelper.antt =====
-- openraft/src/storage/helper.rs: what a node reads from its storage when it starts. The storage is a
-- parameter: `read i j` are the entries from i to before j, or none for an error, and `apply` says
-- whether the state machine succeeds. A loop has a number of rounds. Children: proofs.
pub mod Slices
pub mod Started
pub mod Memberships
pub mod Reapplied
pub mod LogIds
pub mod Cleaned
pub mod InitialState
pub mod IdEnds
pub mod LoadedIds
pub mod LoadedMemberships
pub mod Points
pub mod Recovered
use async_raft.Base.{
  ℕ, zero, suc, ◌-◌, Bool, true, false, not, List, [], ◌∷◌, ◌++◌, Option, none, some, if◌then◌else◌,
  ltb, ◌==◌, length, head?, get_last?, add64,
}
use async_raft.Base.Order.{◌=?◌, option_ord, nat_ord, max_of, min_of}
use async_raft.LogId.{LogId, next_index}
use async_raft.Membership.State.{MembershipState, StoredMembership, new_from_stored}
use async_raft.Handler.{Entry}

-- What comes of a loop: a result, an error of the storage, a log that is missing, or too few rounds.
pub data Run (A : Type 0) : Type 0 where
  finished : A → Run A
  storage_failed : Run A
  missing : ℕ → Run A
  unfinished : Run A

-- `LogState` of the storage.
pub record StoredLogs : Type 0 where
  pub last_purged_log_id : Option LogId
  pub last_log_id : Option LogId

abbrev pub chunk_size : ℕ
chunk_size = 64

module _ {N : Type 0} where
  abbrev pub index_at : Option (Entry N) → Option ℕ
  index_at none = none
  index_at (some e) = some e.log_id.index

  abbrev pub found : Entry N → List (StoredMembership N) → List (StoredMembership N)
  found e res = elim e.membership [
    | none ↦ res
    | some m ↦ record { log_id = some e.log_id; membership = m } ∷ res
  ]

  -- The loop over the entries from the last one; the answer is whether it has returned.
  abbrev pub scan_one :
      Entry N → List (StoredMembership N) × Bool → List (StoredMembership N) × Bool
  scan_one e (res, true) = (res, true)
  scan_one e (res, false) = (found e res, length (found e res) == 2)

  unfoldable pub scan :
      List (Entry N) → List (StoredMembership N) → List (StoredMembership N) × Bool
  scan [] res = (res, length res == 2)
  scan (e ∷ es) res = scan_one e (scan es res)

module _ {N : Type 0} where
  abbrev pub scanned :
      (List (StoredMembership N) → Run (List (StoredMembership N)))
      → List (StoredMembership N) × Bool
      → Run (List (StoredMembership N))
  scanned rest (res, true) = finished res
  scanned rest (res, false) = rest res

  abbrev pub scan_read :
      (List (StoredMembership N) → Run (List (StoredMembership N)))
      → List (StoredMembership N)
      → Option (List (Entry N))
      → Run (List (StoredMembership N))
  scan_read rest res none = storage_failed
  scan_read rest res (some es) = scanned rest (scan es res)

  -- `get_membership`, by the memberships in the log and the one of the state machine.
  unfoldable pub membership_of : StoredMembership N → List (StoredMembership N) → MembershipState N
  membership_of sm [] = record { committed = new_from_stored sm; effective = new_from_stored sm }
  membership_of sm (a ∷ []) = record {
    committed = new_from_stored sm;
    effective = new_from_stored a;
  }
  membership_of sm (a ∷ b ∷ ms) = record {
    committed = new_from_stored a;
    effective = new_from_stored b;
  }

  abbrev pub with_membership :
      StoredMembership N → Run (List (StoredMembership N)) → Run (MembershipState N)
  with_membership sm (finished ms) = finished (membership_of sm ms)
  with_membership sm storage_failed = storage_failed
  with_membership sm (missing i) = missing i
  with_membership sm unfinished = unfinished

module _ {N : Type 0} (read : ℕ → ℕ → Option (List (Entry N))) where
  -- The loop of `last_membership_in_log`, backwards from the end.
  unfoldable pub scan_back : ℕ → ℕ → ℕ → List (StoredMembership N) → Run (List (StoredMembership N))
  scan_back zero start end res = if ltb start end then unfinished else finished res
  scan_back (suc rounds) start end res =
      let rest : List (StoredMembership N) → Run (List (StoredMembership N)) =
        λ res'. scan_back rounds start (end - chunk_size) res' in
      if ltb start end
      then scan_read rest res (read (max_of start (end - chunk_size)) end)
      else finished res

  unfoldable pub last_membership_in_log : ℕ → StoredLogs → ℕ → Run (List (StoredMembership N))
  last_membership_in_log rounds st since =
      scan_back rounds (max_of (next_index st.last_purged_log_id) since) (next_index st.last_log_id)
        []

  unfoldable pub get_membership :
      ℕ → StoredLogs → Option LogId → StoredMembership N → Run (MembershipState N)
  get_membership rounds st last_applied sm =
      with_membership sm (last_membership_in_log rounds st (next_index last_applied))

module _ {N : Type 0} (apply : List (Entry N) → Bool) where
  -- One chunk is checked and applied.
  unfoldable pub apply_chunk :
      (List (Entry N) → Run (List (Entry N)))
      → ℕ
      → ℕ
      → Option (List (Entry N))
      → Run (List (Entry N))
  apply_chunk rest start chunk_end none = storage_failed
  apply_chunk rest start chunk_end (some es) =
      if not (index_at (head? es) =? some start)
      then missing start
      else if not (index_at (get_last? es) =? some (chunk_end - 1))
      then missing (chunk_end - 1)
      else if apply es
      then rest es
      else storage_failed

module _ {N : Type 0} (read : ℕ → ℕ → Option (List (Entry N))) (apply : List (Entry N) → Bool) where
  -- The loop of `reapply_committed`; the result is what has been applied, in this order.
  unfoldable pub reapply_committed : ℕ → ℕ → ℕ → List (Entry N) → Run (List (Entry N))
  reapply_committed zero start end applied = if ltb start end then unfinished else finished applied
  reapply_committed (suc rounds) start end applied =
      let chunk_end = min_of end (add64 start chunk_size) in
      let rest : List (Entry N) → Run (List (Entry N)) =
        λ es. reapply_committed rounds chunk_end end (applied ++ es) in
      if ltb start end
      then apply_chunk apply rest start chunk_end (read start chunk_end)
      else finished applied
