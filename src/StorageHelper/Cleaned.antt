-- ===== src/StorageHelper/Cleaned.antt =====
-- `get_initial_state` of openraft/src/storage/helper.rs: cleaning up the log, its key log ids and the
-- snapshot.
use async_raft.Base.{
  ℕ, zero, suc, ◌+◌, ◌-◌, ◌*◌, ◌<◌, ◌≤◌, ◌≡◌, refl, ap, ◌∙◌, true, false, List, [], ◌∷◌, Option,
  none, some, arith, if◌then◌else◌, ltb, dec_lt, Option-cases, inl, inr,
}
use async_raft.Base.Order.{option_ord}
use async_raft.Vote.{Vote}
use async_raft.LogId.{LogId, log_id_ord}
use async_raft.LogIdList.{ref_at}
use async_raft.LogIdList.Loading.{loaded}
use async_raft.Membership.State.{StoredMembership}
use async_raft.RaftState.{SnapshotMeta}
use async_raft.Handler.{Entry}
use async_raft.StorageHelper.{finished, StoredLogs}
use async_raft.StorageHelper.InitialState.{
  Storage, Cleaned, get_log_id, clean_up, load_snapshot, default_meta,
}
use async_raft.StorageHelper.LogIds.{load_key_log_ids}
use async_raft.StorageHelper.Slices.{slice}
use async_raft.StorageHelper.Points.{upto, upto-lt}
use async_raft.StorageHelper.IdEnds.{Ends, load-single, single-Ends}
use async_raft.StorageHelper.LoadedIds.{load-Ids}
use async_raft.StorageHelper.Recovered.{Holds, e, e_in}

module _ {N : Type 0} (st : Storage N) (log : ℕ → Entry N) (members : ℕ → StoredMembership N)
    (vote : Option Vote) (snapshot : Option (SnapshotMeta N)) (low high top applied saved : ℕ)
    (h : Holds st log members vote snapshot low high top applied saved) where
  abbrev pub end : ℕ
  end = e st log members vote snapshot low high top applied saved h

  -- The log is purged up to `first` and ends at `last`.
  pub record IsClean (rounds : ℕ) (cl : Cleaned N) (ids : List LogId) : Type 0 where
    pub first : ℕ
    pub last : ℕ
    pub purged_is : cl.last_purged_log_id ≡ upto log first
    pub last_is : cl.last_log_id ≡ upto log last
    pub loads :
        load_key_log_ids (get_log_id cl.read) rounds (upto log first) (upto log last) ≡ loaded ids
    pub ends : Ends log ids first last
    pub first_in : first ≤ end
    pub covers_end : end ≤ last
    pub last_in : last ≤ top
    pub is_max : last ≡ (if ltb high end then end else high)
    pub snapped : (s : ℕ) → low ≤ s → (high < applied → s ≡ applied) → first ≤ s
    pub purged_to_is : cl.purged_to ≡ (if ltb high end then upto log end else none)
    pub leaders :
        end ≤ high → (i : ℕ) → low ≤ i → i < high → ref_at ids i ≡ some (log i).log_id.leader_id

  abbrev logs_at : StoredLogs
  logs_at = record { last_purged_log_id = upto log low; last_log_id = upto log high }

  kept-IsClean :
      (rounds : ℕ)
      → 2 * top + 1 ≤ rounds
      → end ≤ high
      → (cl : Cleaned N) × (ids : List LogId) × (clean_up st logs_at (upto log end) ≡ finished cl)
        × IsClean rounds cl ids
  unfolding clean_up
  kept-IsClean rounds enough o =
      let inside = e_in st log members vote snapshot low high top applied saved h in
      let test = upto-lt log top h.proposed high end h.high_in inside.0 in
      let t : ltb high end ≡ false = ground (arith, o) in
      let (ids, q, ends, leaders) =
        load-Ids st.read log low high top h.entries h.proposed h.high_in (omega (arith, h.small))
          rounds h.kept (omega (arith, enough, h.high_in)) in
      (
        record {
          last_purged_log_id = upto log low;
          last_log_id = upto log high;
          purged_to = none;
          read = st.read;
        },
        ids,
        rw (test, t) refl,
        record {
          first = low;
          last = high;
          purged_is = refl;
          last_is = refl;
          loads = q;
          ends = ends;
          first_in = omega (arith, h.purged_before, inside.1);
          covers_end = o;
          last_in = h.high_in;
          is_max = rw t refl;
          snapped = λ s l k. l;
          purged_to_is = rw t refl;
          leaders = λ _. leaders;
        },
      )

  purged-IsClean :
      (rounds i : ℕ)
      → end ≡ suc i
      → high < end
      → (cl : Cleaned N) × (ids : List LogId) × (clean_up st logs_at (upto log end) ≡ finished cl)
        × IsClean rounds cl ids
  unfolding clean_up
  purged-IsClean rounds i q o =
      let inside = e_in st log members vote snapshot low high top applied saved h in
      let test = upto-lt log top h.proposed high end h.high_in inside.0 in
      let t : ltb high end ≡ true = ground (arith, o) in
      let (read, works) = h.purges i (omega (arith, q, o)) (omega (arith, q, inside.0)) in
      (
        record {
          last_purged_log_id = upto log end;
          last_log_id = upto log end;
          purged_to = upto log end;
          read = read;
        },
        (log i).log_id ∷ [],
        rw (test, t, q, works) refl,
        record {
          first = end;
          last = end;
          purged_is = refl;
          last_is = refl;
          loads = rw q (load-single log (get_log_id read) rounds i);
          ends = rw q (single-Ends log i);
          first_in = omega arith;
          covers_end = omega arith;
          last_in = inside.0;
          is_max = rw t refl;
          snapped = λ s l k. omega (arith, k (omega (arith, o, inside.2 o)), inside.2 o);
          purged_to_is = rw t refl;
          leaders = λ x. absurd (omega (arith, x, o));
        },
      )

  -- The log covers all that is applied, and its key log ids are loaded.
  pub clean_up-IsClean :
      (rounds : ℕ)
      → 2 * top + 1 ≤ rounds
      → (cl : Cleaned N) × (ids : List LogId) × (clean_up st logs_at (upto log end) ≡ finished cl)
        × IsClean rounds cl ids
  clean_up-IsClean rounds enough = elim (dec_lt high end) [
    | yes o ↦ purged-IsClean rounds (end - 1) (omega (arith, o)) o
    | no o ↦ kept-IsClean rounds enough (omega (arith, o))
  ]

  abbrev Loads : ℕ → Type 0
  Loads first =
      (meta : SnapshotMeta N) × (load_snapshot st (slice log applied (end - applied))
          (upto log first)
        ≡ finished meta)
      × (s : ℕ) × (meta.last_log_id ≡ upto log s)
      × (first ≤ s)
      × (s ≤ end)

  build_if_none : (first : ℕ) → first ≤ end → snapshot ≡ none → Loads first
  unfolding load_snapshot
  build_if_none zero o q =
      (default_meta, rw (h.snapshot_read, q) refl, 0, refl, omega arith, omega arith)
  build_if_none (suc f) o q =
      let inside = e_in st log members vote snapshot low high top applied saved h in
      let sum : applied + (end - applied) ≡ end = omega (arith, inside.1) in
      let (meta, built, last) = h.builds (end - applied) (omega (arith, sum, inside.0)) in
      (meta, rw (h.snapshot_read, q, built) refl, end, last ∙ ap (upto log) sum, o, omega arith)

  -- The snapshot has all that is purged and nothing that is not applied.
  pub load_snapshot_lem :
      (first : ℕ)
      → first ≤ end
      → ((s : ℕ) → low ≤ s → (high < applied → s ≡ applied) → first ≤ s)
      → (meta : SnapshotMeta N) × (load_snapshot st
            (slice log applied (end - applied))
            (upto log first)
          ≡ finished meta)
        × (s : ℕ) × (meta.last_log_id ≡ upto log s)
        × (first ≤ s)
        × (s ≤ end)
  unfolding load_snapshot
  load_snapshot_lem first o k = elim (Option-cases snapshot) [
    | inl q ↦ build_if_none first o q
    | inr (meta, q) ↦
        let inside = e_in st log members vote snapshot low high top applied saved h in
        let (s, last, l, a, dirty) = h.snapped meta q in
        (meta, rw (h.snapshot_read, q) refl, s, last, k s l dirty, omega (arith, a, inside.1))
  ]
