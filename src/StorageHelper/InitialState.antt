-- ===== src/StorageHelper/InitialState.antt =====
-- `get_initial_state` of openraft/src/storage/helper.rs: the state of a node from what it has stored. The
-- storage is a parameter, whose calls answer with none for an error. The state machine is known by
-- the entries that it has been given since the start, in order.
use async_raft.Base.{ℕ, suc, Bool, List, [], ◌∷◌, Option, none, some, if◌then◌else◌}
use async_raft.Base.Order.{◌<?◌, option_ord}
use async_raft.Vote.{Vote, default_vote}
use async_raft.LogId.{LogId, log_id_ord, next_index}
use async_raft.IoState.{new as new_io_state}
use async_raft.Leased.{new as new_leased}
use async_raft.LogIdList.Loading.{Loaded, loaded, storage_error, unfinished}
use async_raft.Membership.State.{MembershipState, StoredMembership}
use async_raft.RaftState.{RaftState, SnapshotMeta, learner}
use async_raft.Handler.{Entry}
use async_raft.StorageHelper.{
  Run, finished, storage_failed, missing, StoredLogs, reapply_committed, get_membership,
}
use async_raft.StorageHelper.LogIds.{load_key_log_ids}

-- The first error ends the whole.
infixl 5 ◌>>=◌
abbrev pub ◌>>=◌ : {A B : Type 0} → Run A → (A → Run B) → Run B
finished a >>= f = f a
storage_failed >>= f = storage_failed
missing i >>= f = missing i
Run.unfinished >>= f = Run.unfinished

abbrev pub answer : {A : Type 0} → Option A → Run A
answer none = storage_failed
answer (some a) = finished a

abbrev pub list_of : Loaded → Run (List LogId)
list_of (loaded ks) = finished ks
list_of storage_error = storage_failed
list_of unfinished = Run.unfinished

-- `RaftLogStorage` and `RaftStateMachine`, as far as a start uses them. What `purge_to` answers with is
-- how the log reads from then on.
pub record Storage (N : Type 0) : Type 0 where
  pub read_vote : Option (Option Vote)
  pub read_committed : Option (Option LogId)
  pub log_state : Option StoredLogs
  pub read : ℕ → ℕ → Option (List (Entry N))
  pub purge_to : LogId → Option (ℕ → ℕ → Option (List (Entry N)))
  pub apply : List (Entry N) → Bool
  pub applied_state : List (Entry N) → Option (Option LogId × StoredMembership N)
  pub current_snapshot : Option (Option (SnapshotMeta N))
  pub build_snapshot : List (Entry N) → Option (SnapshotMeta N)

-- What a start leaves: the state, the entries that were applied again, and up to where logs were purged.
pub record Started (N : Type 0) : Type 0 where
  pub state : RaftState N
  pub applied : List (Entry N)
  pub purged_to : Option LogId

-- The logs after the dirty state is cleaned up.
pub record Cleaned (N : Type 0) : Type 0 where
  pub last_purged_log_id : Option LogId
  pub last_log_id : Option LogId
  pub purged_to : Option LogId
  pub read : ℕ → ℕ → Option (List (Entry N))

module _ {N : Type 0} where
  -- `RaftLogReaderExt::get_log_id`.
  abbrev first_log_id : Option (List (Entry N)) → Option LogId
  first_log_id none = none
  first_log_id (some []) = none
  first_log_id (some (e ∷ es)) = some e.log_id

  abbrev pub get_log_id : (ℕ → ℕ → Option (List (Entry N))) → ℕ → Option LogId
  get_log_id read i = first_log_id (read i (suc i))

  abbrev pub default_meta : SnapshotMeta N
  default_meta = record {
    last_log_id = none;
    last_membership = record { log_id = none; membership = record { configs = []; nodes = [] } };
  }

  -- None is not greater than any log id, so that there is one.
  abbrev purge_hole : Option LogId → Storage N → Run (Cleaned N)
  purge_hole none st = storage_failed
  purge_hole (some l) st = answer (st.purge_to l) >>= λ read. finished (record {
    last_purged_log_id = some l;
    last_log_id = some l;
    purged_to = some l;
    read = read;
  })

  -- The logs before a snapshot that was installed are purged, if the log ends before it.
  unfoldable pub clean_up : Storage N → StoredLogs → Option LogId → Run (Cleaned N)
  clean_up st logs last_applied =
      if logs.last_log_id <? last_applied
      then purge_hole last_applied st
      else finished (record {
        last_purged_log_id = logs.last_purged_log_id;
        last_log_id = logs.last_log_id;
        purged_to = none;
        read = st.read;
      })

  -- A snapshot is built if there is none and logs are purged.
  unfoldable pub load_snapshot : Storage N → List (Entry N) → Option LogId → Run (SnapshotMeta N)
  load_snapshot st applied purged = answer st.current_snapshot >>= λ current. elim current [
    | some meta ↦ finished meta
    | none ↦ elim purged [
      | none ↦ finished default_meta
      | some l ↦ answer (st.build_snapshot applied)
    ]
  ]

  unfoldable pub apply_again : ℕ → Storage N → Option LogId → Option LogId → Run (List (Entry N))
  apply_again rounds st last_applied committed =
      if last_applied <? committed
      then reapply_committed st.read st.apply rounds (next_index last_applied)
          (next_index committed) []
      else finished []

  abbrev pub initial_state :
      ℕ
      → Option Vote
      → Option LogId
      → Option LogId
      → MembershipState N
      → List LogId
      → SnapshotMeta N
      → RaftState N
  initial_state now vote last_applied purged memberships log_ids meta =
      let v : Vote = elim vote [ some w ↦ w | none ↦ default_vote ] in
      record {
        vote = new_leased now 0 v;
        committed = last_applied;
        purged_next = next_index purged;
        log_ids = log_ids;
        membership_state = memberships;
        snapshot_meta = meta;
        server_state = learner;
        io_state = new_io_state v last_applied meta.last_log_id purged;
        purge_upto = purged;
      }

  -- Each loop has the same number of rounds.
  unfoldable pub get_initial_state : ℕ → ℕ → Storage N → Run (Started N)
  get_initial_state rounds now st = do
    vote ← answer st.read_vote
    saved ← answer st.read_committed
    logs ← answer st.log_state
    before ← answer (st.applied_state [])
    let committed = if saved <? before.0 then before.0 else saved
    applied ← apply_again rounds st before.0 committed
    let last_applied = if before.0 <? committed then committed else before.0
    after ← answer (st.applied_state applied)
    memberships ← get_membership st.read rounds logs after.0 after.1
    cleaned ← clean_up st logs last_applied
    log_ids ← list_of (
        load_key_log_ids (get_log_id cleaned.read) rounds cleaned.last_purged_log_id
          cleaned.last_log_id)
    meta ← load_snapshot st applied cleaned.last_purged_log_id
    finished (record {
      state =
          initial_state now vote last_applied cleaned.last_purged_log_id memberships log_ids meta;
      applied = applied;
      purged_to = cleaned.purged_to;
    })
