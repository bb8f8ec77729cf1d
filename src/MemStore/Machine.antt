-- ===== src/MemStore/Machine.antt =====
-- The state machine of stores/memstore/src/lib.rs. The name of a snapshot is the pair of what it is written
-- from; the content is what the serializer makes of the state machine, and reading it as text does not
-- fail. What `block` delays is left out.
use async_raft.Base.{ℕ, Bool, true, false, List, [], ◌∷◌, Option, none, some, if◌then◌else◌, add64}
use Prim.Native.String.{String}
use text.Mathlib.Text as Text
use async_raft.LogId.{LogId}
use async_raft.Membership.State.{StoredMembership}
use async_raft.RaftState.{SnapshotMeta}
use async_raft.MemStore.{MemEntry, Payload, blank, normal, membership, Json}

pub record MemStoreStateMachine (N : Type 0) : Type 0 where
  pub last_applied_log : Option LogId
  pub last_membership : StoredMembership N
  pub client_status : List (String × String)

pub record MemStoreSnapshot (N D : Type 0) : Type 0 where
  pub meta : SnapshotMeta N
  pub snapshot_id : Option LogId × ℕ
  pub content : D

pub record MemStateMachine (N D : Type 0) : Type 0 where
  pub sm : MemStoreStateMachine N
  pub snapshot_idx : ℕ
  pub current_snapshot : Option (MemStoreSnapshot N D)

unfoldable pub status_of : String → List (String × String) → Option String
status_of k [] = none
status_of k ((j, v) ∷ m) = if Text.◌==◌ j k then some v else status_of k m

unfoldable pub set_status : String → String → List (String × String) → List (String × String)
set_status k v [] = (k, v) ∷ []
set_status k v ((j, w) ∷ m) =
    let rest = set_status k v m in if Text.◌==◌ j k then (k, v) ∷ m else (j, w) ∷ rest

abbrev pub default_machine : {N : Type 0} → MemStoreStateMachine N
default_machine = record {
  last_applied_log = none;
  last_membership = record { log_id = none; membership = record { configs = []; nodes = [] } };
  client_status = [];
}

module _ {N : Type 0} where
  -- One entry: the new state, and the response.
  abbrev pub apply_payload :
      MemStoreStateMachine N → LogId → Payload N → MemStoreStateMachine N × Option String
  apply_payload sm l blank = (record sm { last_applied_log = some l }, none)
  apply_payload sm l (normal r) = (
    record sm {
      last_applied_log = some l;
      client_status = set_status r.client r.status sm.client_status;
    },
    status_of r.client sm.client_status,
  )
  apply_payload sm l (membership m) = (
    record sm {
      last_applied_log = some l;
      last_membership = record { log_id = some l; membership = m };
    },
    none,
  )

  unfoldable pub apply :
      MemStoreStateMachine N → List (MemEntry N) → MemStoreStateMachine N × List (Option String)
  unfolding status_of set_status
  apply sm [] = (sm, [])
  apply sm (e ∷ es) =
      let (sm', response) = apply_payload sm e.log_id e.payload in
      let (sm'', responses) = apply sm' es in (sm'', response ∷ responses)

module _ {N D : Type 0} where
  abbrev pub applied_state : MemStateMachine N D → Option LogId × StoredMembership N
  applied_state m = (m.sm.last_applied_log, m.sm.last_membership)

  abbrev pub drop_snapshot : MemStateMachine N D → MemStateMachine N D
  drop_snapshot m = record m { current_snapshot = none }

  abbrev pub clear_state_machine : MemStateMachine N D → MemStateMachine N D
  clear_state_machine m = record m { sm = default_machine }

  abbrev pub get_current_snapshot : MemStateMachine N D → Option (MemStoreSnapshot N D)
  get_current_snapshot m = m.current_snapshot

module _ {N D : Type 0} (json : Json (MemStoreStateMachine N) D) where
  abbrev pub built : MemStateMachine N D → D → MemStateMachine N D × MemStoreSnapshot N D
  built m content =
      let index = add64 m.snapshot_idx 1 in
      let snapshot : MemStoreSnapshot N D = record {
        meta = record {
          last_log_id = m.sm.last_applied_log;
          last_membership = m.sm.last_membership;
        };
        snapshot_id = (m.sm.last_applied_log, index);
        content = content;
      } in
      (record m { snapshot_idx = index; current_snapshot = some snapshot }, snapshot)

  -- `build_snapshot`: none is an error of the serializer.
  unfoldable pub build_snapshot :
      MemStateMachine N D → Option (MemStateMachine N D × MemStoreSnapshot N D)
  unfolding add64
  build_snapshot m = elim (json.to_string m.sm) [
    | none ↦ none
    | some content ↦ some (built m content)
  ]

  -- `install_snapshot`: the answer is whether the content can be read.
  unfoldable pub install_snapshot :
      MemStateMachine N D → MemStoreSnapshot N D → MemStateMachine N D × Bool
  install_snapshot m snapshot = elim (json.from_str snapshot.content) [
    | none ↦ (m, false)
    | some sm' ↦ (record m { sm = sm'; current_snapshot = some snapshot }, true)
  ]
