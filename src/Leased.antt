-- ===== src/Leased.antt =====
-- openraft/src/utime.rs: a value with a lease. An instant and a duration are numbers.
pub mod Lease
use async_raft.Base.{ℕ, ◌+◌, Bool, true, false, Option, none, some, if◌then◌else◌, ltb}

pub record Leased (T : Type 0) : Type 0 where
  pub data_of : T
  pub last_update : Option ℕ
  pub lease : ℕ
  pub lease_enabled : Bool

module _ {T : Type 0} where
  abbrev pub new : ℕ → ℕ → T → Leased T
  new now lease d = record {
    data_of = d;
    last_update = some now;
    lease = lease;
    lease_enabled = true;
  }

  abbrev pub without_last_update : T → Leased T
  without_last_update d = record {
    data_of = d;
    last_update = none;
    lease = 0;
    lease_enabled = true;
  }

  unfoldable pub update : Leased T → ℕ → ℕ → T → Leased T
  update s now lease d = record {
    data_of = d;
    last_update = some now;
    lease = lease;
    lease_enabled = true;
  }

  unfoldable pub disable_lease : Leased T → Leased T
  disable_lease s = record s { lease = 0; lease_enabled = false }

  unfoldable pub is_expired : Leased T → ℕ → ℕ → Bool
  is_expired s now timeout = elim s.last_update [
    | some utime ↦ ltb (utime + s.lease + timeout) now
    | none ↦ true
  ]

  unfoldable pub touch : Leased T → ℕ → ℕ → Leased T
  touch s now lease =
      let s' = record s { last_update = some now } in
      if s.lease_enabled then record s' { lease = lease } else s'
