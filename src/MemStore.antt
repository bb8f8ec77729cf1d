-- ===== src/MemStore.antt =====
-- stores/memstore/src/lib.rs: the log store in memory, with the entries of openraft/src/entry. The log is a
-- BTreeMap of serialized entries; the serializer is a parameter, and what `block` delays for tests is left
-- out. A lock is held during each call. Children: the state machine, and proofs.
pub mod Machine
pub mod Applied
pub mod Rows
pub mod Serves
pub mod Past
pub mod Runs
pub mod Calls
pub mod Cuts
use async_raft.Base.{
  ℕ, Bool, true, false, List, [], ◌∷◌, Option, none, some, if◌then◌else◌, ltb, leb, ◌&&◌, Checked,
  done, panicked, get_last?,
}
use async_raft.Base.Order.{◌≤?◌, option_ord}
use async_raft.Base.Sets.{insert_entry, remove}
use async_raft.Vote.{Vote}
use async_raft.LogId.{LogId, log_id_ord}
use async_raft.Membership.{Membership}
use async_raft.Handler.{Entry}
use async_raft.StorageHelper.{StoredLogs}
use Prim.Native.String.{String}

pub record ClientRequest : Type 0 where
  pub client : String
  pub serial : ℕ
  pub status : String

-- `EntryPayload` and `Entry`.
pub data Payload (N : Type 0) : Type 0 where
  blank : Payload N
  normal : ClientRequest → Payload N
  membership : Membership N → Payload N

pub record MemEntry (N : Type 0) : Type 0 where
  pub log_id : LogId
  pub payload : Payload N

-- `serde_json`: writing may fail, and reading.
pub record Json (A S : Type 0) : Type 0 where
  pub to_string : A → Option S
  pub from_str : S → Option A

pub record MemLogStore (S : Type 0) : Type 0 where
  pub last_purged_log_id : Option LogId
  pub enable_saving_committed : Bool
  pub committed : Option LogId
  pub log : List (ℕ × S)
  pub vote : Option Vote

abbrev pub empty_store : {S : Type 0} → MemLogStore S
empty_store = record {
  last_purged_log_id = none;
  enable_saving_committed = true;
  committed = none;
  log = [];
  vote = none;
}

module _ {S : Type 0} where
  -- The rows of `range`, by their keys.
  abbrev pub range : (ℕ → Bool) → List (ℕ × S) → List (ℕ × S)
  range test [] = []
  range test ((k, s) ∷ m) = let rest = range test m in if test k then (k, s) ∷ rest else rest

  abbrev pub remove_keys : List (ℕ × S) → List (ℕ × S) → List (ℕ × S)
  remove_keys [] m = m
  remove_keys ((k, s) ∷ found) m = remove_keys found (remove k m)

  abbrev pub save_vote : MemLogStore S → Vote → MemLogStore S
  save_vote st v = record st { vote = some v }

  unfoldable pub save_committed : MemLogStore S → Option LogId → MemLogStore S
  save_committed st c = if st.enable_saving_committed then record st { committed = c } else st

  unfoldable pub read_committed : MemLogStore S → Option LogId
  read_committed st = if st.enable_saving_committed then st.committed else none

  unfoldable pub truncate : MemLogStore S → LogId → MemLogStore S
  unfolding remove
  truncate st l = record st { log = remove_keys (range (leb l.index) st.log) st.log }

  -- The assertion may panic.
  unfoldable pub purge : MemLogStore S → LogId → Checked (MemLogStore S)
  unfolding remove
  purge st l =
      if st.last_purged_log_id ≤? some l
      then done (record st {
        last_purged_log_id = some l;
        log = remove_keys (range (λ k. leb k l.index) st.log) st.log;
      })
      else panicked

module _ {N S : Type 0} (json : Json (MemEntry N) S) where
  unfoldable pub decode_all : List (ℕ × S) → Option (List (MemEntry N))
  decode_all [] = some []
  decode_all ((k, s) ∷ m) = elim (json.from_str s) [
    | none ↦ none
    | some e ↦ elim (decode_all m) [ none ↦ none | some es ↦ some (e ∷ es) ]
  ]

  -- The entries from `i` to before `j`.
  unfoldable pub try_get_log_entries : MemLogStore S → ℕ → ℕ → Option (List (MemEntry N))
  unfolding decode_all
  try_get_log_entries st i j = decode_all (range (λ k. leb i k && ltb k j) st.log)

  abbrev last_or : Option LogId → Option (MemEntry N) → Option StoredLogs
  last_or purged none = none
  last_or purged (some e) =
      some (record { last_purged_log_id = purged; last_log_id = some e.log_id })

  unfoldable pub get_log_state : MemLogStore S → Option StoredLogs
  get_log_state st = elim (get_last? st.log) [
    | none ↦
        some (record {
          last_purged_log_id = st.last_purged_log_id;
          last_log_id = st.last_purged_log_id;
        })
    | some (k, s) ↦ last_or st.last_purged_log_id (json.from_str s)
  ]

  -- `append`: what is inserted before an error stays; the answer is whether all is written.
  unfoldable pub append : MemLogStore S → List (MemEntry N) → MemLogStore S × Bool
  unfolding insert_entry
  append st [] = (st, true)
  append st (e ∷ es) = elim (json.to_string e) [
    | none ↦ (st, false)
    | some s ↦ append (record st { log = insert_entry e.log_id.index s st.log }) es
  ]
