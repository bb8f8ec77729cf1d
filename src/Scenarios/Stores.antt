-- ===== src/Scenarios/Stores.antt =====
-- A store in memory, whose serializer keeps what it is given, and a node that starts from it.
use async_raft.Base.{
  ℕ, ◌+◌, ◌-◌, ◌≤◌, ◌≡◌, inl, inr, refl, sym, ap, true, ◌<◌, some_inj, List, [], ◌∷◌, none, some,
  arith, if◌then◌else◌, ltb, ◌==◌,
}
use Prim.Native.String.{String}
use async_raft.Vote.{leader_id_ord}
use async_raft.StorageHelper.{finished}
use async_raft.StorageHelper.InitialState.{Started, get_initial_state}
use async_raft.StorageHelper.Points.{Proposed}
use async_raft.StorageHelper.Recovered.{Holds}
use async_raft.StorageHelper.Started.{IsRecovered, get_initial_state-IsRecovered}
use async_raft.StorageHelper.Slices.{slice}
use async_raft.Membership.{Membership}
use async_raft.MemStore.{
  MemEntry, normal, membership, Json, MemLogStore, empty_store, get_log_state, try_get_log_entries,
  read_committed,
}
use async_raft.MemStore.Rows.{items, rows}
use async_raft.MemStore.Calls.{RoundTrips, Shows, view}
use async_raft.MemStore.Runs.{Call, append_of, truncate_of, purge_of, Kept, Leads, run, run-reads}
use async_raft.MemStore.Machine.{
  MemStoreStateMachine, MemStateMachine, apply, status_of, default_machine,
}
use async_raft.MemStore.Applied.{latest, answers, apply-latest}
use async_raft.MemStore.Serves.{storage_of, applied_to, meta_of, storage_of-Holds}
use async_raft.Scenarios.Nodes.{at}

abbrev kept : {A : Type 0} → Json A A
kept = record { to_string = λ a. some a; from_str = λ a. some a }

kept-RoundTrips : {A : Type 0} → RoundTrips {A = A} {S = A} kept (λ a. a)
kept-RoundTrips = record { writes = λ a. refl; reads = λ a. refl }

abbrev three : Membership ℕ
three = record { configs = (1 ∷ 2 ∷ 3 ∷ []) ∷ []; nodes = (1, 1) ∷ (2, 2) ∷ (3, 3) ∷ [] }

-- The first log is a membership; those from `change` on are of the second leader.
abbrev entry : ℕ → ℕ → MemEntry ℕ
entry change i = record {
  log_id = at (if ltb i change then 1 else 2) i;
  payload =
      if i == 0
      then membership three
      else normal (record { client = "a"; serial = i; status = if ltb i 3 then "new" else "done" });
}

entry-Proposed : (change top : ℕ) → Proposed (view (entry change)) top
entry-Proposed change top = record { indexed = λ i b. refl; grows = λ i j p b. ground (arith, p) }

entry_agree : (i : ℕ) → i < 4 → entry 4 i ≡ entry 9 i
entry_agree i h = ground (arith, h)

abbrev empty : Kept ℕ
empty = record { log = entry 9; low = 0; high = 0 }

abbrev final : Kept ℕ
final = record { log = entry 4; low = 2; high = 6 }

-- Six entries of the first leader are appended, and the last two replaced by the second leader's.
abbrev calls : List (Call ℕ)
calls =
    append_of (items (entry 9) 0 6)
    ∷ truncate_of (at 1 9)
    ∷ truncate_of (at 1 4)
    ∷ append_of (items (entry 4) 4 2)
    ∷ purge_of (at 1 1)
    ∷ []

calls-Leads : Leads empty calls final
calls-Leads = (
  entry 9,
  6,
  λ i h. refl,
  entry-Proposed 9 6,
  refl,
  inr (
    omega arith,
    inl (
      4,
      omega arith,
      omega arith,
      refl,
      (
        entry 4,
        2,
        entry_agree,
        entry-Proposed 4 6,
        refl,
        inl (1, omega arith, omega arith, refl, refl),
      ),
    ),
  ),
)

-- A purge far past the last log leaves nothing.
hole-Leads : Leads final (purge_of (at 2 20) ∷ []) (record { log = entry 4; low = 21; high = 21 })
hole-Leads = inr (entry 4, 20, λ j h. refl, entry-Proposed 4 21, omega arith, refl, refl)

empty-Shows : Shows kept (λ a. a) kept-RoundTrips empty_store (entry 9) 0 0
empty-Shows = record {
  stored = refl;
  purged_is = refl;
  order = omega arith;
  proposed = entry-Proposed 9 0;
}

run-reads_example :
    (st' : MemLogStore (MemEntry ℕ)) × (run kept empty_store calls ≡ some st')
    × (get_log_state kept st'
        ≡ some (record { last_purged_log_id = some (at 1 1); last_log_id = some (at 2 5) }))
    × ((i n : ℕ)
        → 2 ≤ i
        → i + n ≤ 6
        → try_get_log_entries kept st' i (i + n) ≡ some (items (entry 4) i n))
run-reads_example =
    run-reads kept (λ a. a) kept-RoundTrips empty_store empty final calls empty-Shows calls-Leads

-- The logs 2 to 5 are left, and those before 3 are applied.
abbrev machine : MemStoreStateMachine ℕ
machine = record {
  last_applied_log = some (at 1 2);
  last_membership = record { log_id = some (at 1 0); membership = three };
  client_status = ("a", "new") ∷ [];
}

apply-latest_example :
    let (sm', responses) = apply machine (items (entry 4) 3 2) in
    (sm'.last_applied_log ≡ some (at 2 4))
    × (sm'.last_membership ≡ machine.last_membership)
    × ((k : String)
        → status_of k sm'.client_status
          ≡ latest k (items (entry 4) 3 2) (status_of k machine.client_status))
    × (responses ≡ answers (λ k. status_of k machine.client_status) (items (entry 4) 3 2))
apply-latest_example = apply-latest machine (items (entry 4) 3 2)

abbrev machine_state : MemStateMachine ℕ (MemStoreStateMachine ℕ)
machine_state = record {
  sm = machine;
  snapshot_idx = 1;
  current_snapshot = some (record {
    meta = record { last_log_id = some (at 1 1); last_membership = machine.last_membership };
    snapshot_id = (some (at 1 1), 1);
    content = machine;
  });
}

abbrev fresh : MemStateMachine ℕ (MemStoreStateMachine ℕ)
fresh = record { sm = default_machine; snapshot_idx = 0; current_snapshot = none }

abbrev store : MemLogStore (MemEntry ℕ)
store = record {
  last_purged_log_id = some (at 1 1);
  enable_saving_committed = true;
  committed = some (at 2 4);
  log = rows (λ a. a) (entry 4) 2 4;
  vote = some (record { leader_id = record { term = 2; node_id = 1 }; committed = true });
}

store-Shows : Shows kept (λ a. a) kept-RoundTrips store (entry 4) 2 6
store-Shows = record {
  stored = refl;
  purged_is = refl;
  order = omega arith;
  proposed = entry-Proposed 4 6;
}

store-Holds :
    Holds
      (storage_of kept kept store machine_state)
      (view (entry 4))
      (λ n.
        (applied_to kept kept machine_state (slice (view (entry 4)) 3 (n - 3))).sm.last_membership)
      store.vote
      (meta_of kept kept machine_state.current_snapshot)
      2
      6
      6
      3
      5
unfolding read_committed
store-Holds =
    storage_of-Holds kept (λ a. a) kept-RoundTrips kept (λ a. a) kept-RoundTrips (entry 4) store
      machine_state 2 6 6 3 1 5 store-Shows (entry-Proposed 4 6) refl refl refl (omega arith)
      (λ s q. (
        2,
        let same = some_inj (sym q) in ap (λ x. x.meta.last_log_id) same,
        omega arith,
        omega arith,
        λ h. absurd (omega arith),
      ))
      (omega arith) (λ h. omega arith) (omega arith) (omega arith) (omega arith)

get_initial_state-IsRecovered_example :
    (s : Started ℕ) × (get_initial_state 20 7 (storage_of kept kept store machine_state)
      ≡ finished s)
    × IsRecovered
        (storage_of kept kept store machine_state)
        (view (entry 4))
        (λ n.
          (applied_to kept kept machine_state
            (slice (view (entry 4)) 3 (n - 3))).sm.last_membership)
        store.vote
        (meta_of kept kept machine_state.current_snapshot)
        2
        6
        6
        3
        5
        store-Holds
        5
        s
get_initial_state-IsRecovered_example =
    get_initial_state-IsRecovered (storage_of kept kept store machine_state) (view (entry 4))
      (λ n.
        (applied_to kept kept machine_state (slice (view (entry 4)) 3 (n - 3))).sm.last_membership)
      store.vote (meta_of kept kept machine_state.current_snapshot) 2 6 6 3 5 store-Holds 20 7
      (omega arith)

-- A snapshot of the logs before 6 is installed, but only the logs 0 and 1 are there.
abbrev behind : MemLogStore (MemEntry ℕ)
behind = record empty_store { log = rows (λ a. a) (entry 4) 0 2 }

abbrev installed : MemStateMachine ℕ (MemStoreStateMachine ℕ)
installed = record {
  sm = record machine { last_applied_log = some (at 2 5) };
  snapshot_idx = 1;
  current_snapshot = some (record {
    meta = record { last_log_id = some (at 2 5); last_membership = machine.last_membership };
    snapshot_id = (some (at 2 5), 1);
    content = machine;
  });
}

behind-Shows : Shows kept (λ a. a) kept-RoundTrips behind (entry 4) 0 2
behind-Shows = record {
  stored = refl;
  purged_is = refl;
  order = omega arith;
  proposed = entry-Proposed 4 2;
}

storage_of-Holds_example :
    Holds
      (storage_of kept kept behind installed)
      (view (entry 4))
      (λ n. (applied_to kept kept installed (slice (view (entry 4)) 6 (n - 6))).sm.last_membership)
      none
      (meta_of kept kept installed.current_snapshot)
      0
      2
      6
      6
      0
unfolding read_committed
storage_of-Holds_example =
    storage_of-Holds kept (λ a. a) kept-RoundTrips kept (λ a. a) kept-RoundTrips (entry 4) behind
      installed 0 2 6 6 1 0 behind-Shows (entry-Proposed 4 6) refl refl refl (omega arith)
      (λ s q. (
        6,
        let same = some_inj (sym q) in ap (λ x. x.meta.last_log_id) same,
        omega arith,
        omega arith,
        λ h. refl,
      ))
      (omega arith) (λ h. absurd (omega arith)) (omega arith) (omega arith) (omega arith)
