-- ===== src/MemStore/Serves.antt =====
-- The log store and the state machine of stores/memstore/src/lib.rs are a storage that a node starts from.
use async_raft.Base.{
  ℕ, zero, suc, ◌+◌, ◌-◌, ◌<◌, ◌≤◌, ◌≡◌, refl, sym, ap, ◌∙◌, true, List, ◌∷◌, Option, none, some,
  arith, Checked, done, panicked, u64_mod, map, some_inj, leb,
}
use async_raft.Base.Order.{◌≤?◌, option_ord}
use async_raft.LogId.{log_id_ord}
use async_raft.Membership.{Membership}
use async_raft.RaftState.{SnapshotMeta}
use async_raft.Handler.{Entry}
use async_raft.StorageHelper.{chunk_size}
use async_raft.StorageHelper.InitialState.{Storage}
use async_raft.StorageHelper.Slices.{Reads, slice}
use async_raft.StorageHelper.Points.{upto, Proposed, upto-le}
use async_raft.StorageHelper.Recovered.{Holds}
use async_raft.MemStore.{
  MemEntry, Payload, blank, membership, Json, MemLogStore, purge, try_get_log_entries,
  get_log_state, read_committed, range, remove_keys,
}
use async_raft.MemStore.Rows.{items}
use async_raft.MemStore.Calls.{
  entry_of, view, RoundTrips, Shows, get_log_state-Shows, try_get-Shows,
}
use async_raft.MemStore.Machine.{
  MemStoreStateMachine, MemStateMachine, MemStoreSnapshot, apply, apply_payload, build_snapshot,
  applied_state, get_current_snapshot,
}

module _ {N S D : Type 0} (json : Json (MemEntry N) S)
    (machine_json : Json (MemStoreStateMachine N) D) where
  abbrev entries : Option (List (MemEntry N)) → Option (List (Entry N))
  entries none = none
  entries (some es) = some (map entry_of es)

  -- An entry of which the protocol's part is given.
  abbrev payload_of : Option (Membership N) → Payload N
  payload_of none = blank
  payload_of (some m) = membership m

  -- What is read back has no payload of a client, so that applying it again says nothing of the status
  -- of the clients.
  abbrev pub restored : Entry N → MemEntry N
  restored e = record { log_id = e.log_id; payload = payload_of e.membership }

  abbrev purged : Checked (MemLogStore S) → Option (ℕ → ℕ → Option (List (Entry N)))
  purged panicked = none
  purged (done st) = some (λ i j. entries (try_get_log_entries json st i j))

  abbrev pub meta_of : Option (MemStoreSnapshot N D) → Option (SnapshotMeta N)
  meta_of none = none
  meta_of (some s) = some s.meta

  abbrev built_meta : Option (MemStateMachine N D × MemStoreSnapshot N D) → Option (SnapshotMeta N)
  built_meta none = none
  built_meta (some (m, s)) = some s.meta

  abbrev pub applied_to : MemStateMachine N D → List (Entry N) → MemStateMachine N D
  applied_to m es = record m { sm = (apply m.sm (map restored es)).0 }

  abbrev pub storage_of : MemLogStore S → MemStateMachine N D → Storage N
  storage_of st m = record {
    read_vote = some st.vote;
    read_committed = some (read_committed st);
    log_state = get_log_state json st;
    read = λ i j. entries (try_get_log_entries json st i j);
    purge_to = λ l. purged (purge st l);
    apply = λ es. true;
    applied_state = λ es. some (applied_state (applied_to m es));
    current_snapshot = some (meta_of (get_current_snapshot m));
    build_snapshot = λ es. built_meta (build_snapshot machine_json (applied_to m es));
  }

module _ {N S D : Type 0} (json : Json (MemEntry N) S) (code : MemEntry N → S)
    (trips : RoundTrips json code) (machine_json : Json (MemStoreStateMachine N) D)
    (machine_code : MemStoreStateMachine N → D)
    (machine_trips : RoundTrips machine_json machine_code) (log : ℕ → MemEntry N) where
  map-items : (i n : ℕ) → map entry_of (items log i n) ≡ slice (view log) i n
  map-items i zero = refl
  map-items i (suc n) = ap (λ es. view log i ∷ es) (map-items (suc i) n)

  read-Reads :
      (st : MemLogStore S) (low high : ℕ)
      → Shows json code trips st log low high
      → Reads
          (λ i j. entries json machine_json (try_get_log_entries json st i j))
          (view log)
          low
          high
  read-Reads st low high s = record {
    answers = λ i n a b.
        ap (entries json machine_json) (try_get-Shows json code trips st log low high i n s a b)
        ∙ ap some (map-items i n);
    indexed = λ i a b. s.proposed.indexed i b;
  }

  apply_step :
      (o : Option (Membership N)) (i k : ℕ) (sm : MemStoreStateMachine N)
      → sm.last_membership.log_id ≡ upto (view log) k
      → k ≤ i
      → let sm' = (apply_payload sm (log i).log_id (payload_of json machine_json o)).0 in
        (sm'.last_applied_log ≡ upto (view log) (suc i))
        × (k' : ℕ) × (k' ≤ suc i)
        × (sm'.last_membership.log_id ≡ upto (view log) k')
  apply_step none i k sm m o = (refl, k, omega (arith, o), m)
  apply_step (some c) i k sm m o = (refl, suc i, omega arith, refl)

  -- What applying the entries of the log leaves.
  apply_slice :
      (n i k : ℕ) (sm : MemStoreStateMachine N)
      → sm.last_applied_log ≡ upto (view log) i
      → sm.last_membership.log_id ≡ upto (view log) k
      → k ≤ i
      → let sm' = (apply sm (map (restored json machine_json) (slice (view log) i n))).0 in
        (sm'.last_applied_log ≡ upto (view log) (i + n))
        × (k' : ℕ) × (k' ≤ i + n)
        × (sm'.last_membership.log_id ≡ upto (view log) k')
  unfolding apply
  apply_slice zero i k sm a m o =
      let same : i ≡ i + 0 = omega arith in (a ∙ ap (upto (view log)) same, k, omega (arith, o), m)
  apply_slice (suc n) i k sm a m o =
      let next : suc i + n ≡ i + suc n = omega arith in
      let (a', k', o', m') = apply_step (view log i).membership i k sm m o in
      let sm' =
        (apply_payload sm (log i).log_id
          (payload_of json machine_json (view log i).membership)).0 in
      let (a'', k'', o'', m'') = apply_slice n (suc i) k' sm' a' m' o' in
      (a'' ∙ ap (upto (view log)) next, k'', omega (arith, o''), m'')

  meta_of-some :
      (o : Option (MemStoreSnapshot N D)) (meta : SnapshotMeta N)
      → meta_of json machine_json o ≡ some meta
      → (s : MemStoreSnapshot N D) × (o ≡ some s) × (s.meta ≡ meta)
  meta_of-some none meta h = absurd cc
  meta_of-some (some s) meta h = (s, refl, some_inj h)

  build_snapshot_lem :
      (m : MemStateMachine N D)
      → built_meta json machine_json (build_snapshot machine_json m)
        ≡ some
            (record { last_log_id = m.sm.last_applied_log; last_membership = m.sm.last_membership })
  unfolding build_snapshot
  build_snapshot_lem m = rw (machine_trips.writes m.sm, build_snapshot) refl

  purge_ahead :
      (st : MemLogStore S) (low top i : ℕ)
      → Proposed (view log) top
      → st.last_purged_log_id ≡ upto (view log) low
      → low ≤ suc i
      → i < top
      → (st' : MemLogStore S) × (purge st (log i).log_id ≡ done st')
  unfolding purge
  purge_ahead st low top i p q l h =
      let allowed : (st.last_purged_log_id ≤? some (log i).log_id) ≡ true =
        ap (λ o. o ≤? some (log i).log_id) q ∙ upto-le (view log) top p low (suc i) l h in
      let st' = record st {
        last_purged_log_id = some (log i).log_id;
        log = remove_keys (range (λ k. leb k (log i).log_id.index) st.log) st.log;
      } in
      (st', rw allowed refl)

  -- The log store has the entries of a log after the purged ones; a part of it is applied to the state
  -- machine, and its snapshot has all that is purged, nothing that is not applied, and all that is applied
  -- if the log ends before. Then they serve a node as a storage from which it can start.
  pub storage_of-Holds :
      (st : MemLogStore S) (m : MemStateMachine N D) (low high top applied member saved : ℕ)
      → Shows json code trips st log low high
      → Proposed (view log) top
      → read_committed st ≡ upto (view log) saved
      → m.sm.last_applied_log ≡ upto (view log) applied
      → m.sm.last_membership.log_id ≡ upto (view log) member
      → member ≤ applied
      → ((s : MemStoreSnapshot N D)
          → m.current_snapshot ≡ some s
          → (n : ℕ) × (s.meta.last_log_id ≡ upto (view log) n)
            × (low ≤ n)
            × (n ≤ applied)
            × (high < applied → n ≡ applied))
      → low ≤ applied
      → (applied < saved → saved ≤ high)
      → applied ≤ top
      → high ≤ top
      → top + top + chunk_size < u64_mod
      → Holds
          (storage_of json machine_json st m)
          (view log)
          (λ n.
            (applied_to json machine_json m
              (slice (view log) applied (n - applied))).sm.last_membership)
          st.vote
          (meta_of json machine_json m.current_snapshot)
          low
          high
          top
          applied
          saved
  storage_of-Holds st m low high top applied member saved s p c a b o snapped l d e f g =
      let given = λ (n : ℕ). apply_slice n applied member m.sm a b o in
      record {
        proposed = p;
        entries = read-Reads st low high s;
        vote_read = refl;
        saved_read = ap some c;
        logs_read = get_log_state-Shows json code trips st log low high s;
        works = λ es. refl;
        applies = λ n q.
            let same : n ≡ applied + n - applied = omega arith in
            let member_after = λ (j : ℕ).
              (apply m.sm (
                map (restored json machine_json) (slice (view log) applied j))).0.last_membership in
            ap (λ x. some (x, member_after n)) (given n).0
            ∙ ap (λ j. some (upto (view log) (applied + n), member_after j)) same;
        membered =
            λ n q r. let (_, k, r', at) = given (n - applied) in (k, omega (arith, q, r'), at);
        purges = λ i q r.
            let (st', done_at) =
              purge_ahead st low top i p s.purged_is (omega (arith, s.order, q)) r in
            (_, ap (purged json machine_json) done_at);
        snapshot_read = refl;
        builds = λ n q. (
          _,
          build_snapshot_lem (applied_to json machine_json m (slice (view log) applied n)),
          (given n).0,
        );
        snapped = λ meta q.
            let (snapshot, found, meta_is) = meta_of-some m.current_snapshot meta q in
            let (n, at, x, y, z) = snapped snapshot found in
            (n, ap (λ t. t.last_log_id) (sym meta_is) ∙ at, x, y, z);
        purged_before = l;
        kept = s.order;
        saved_in = d;
        applied_in = e;
        high_in = f;
        small = g;
      }
