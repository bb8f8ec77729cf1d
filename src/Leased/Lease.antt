-- ===== src/Leased/Lease.antt =====
-- When a lease expires (openraft/src/utime.rs).
use async_raft.Base.{ℕ, ◌+◌, ◌<◌, ◌≡◌, ◌↔◌, true, arith}
use async_raft.Leased.{Leased, update, disable_lease, is_expired, touch}

module _ {T : Type 0} where
  -- An updated value expires exactly when the lease and the timeout have passed since, and touching it
  -- starts the lease again. Once the lease is disabled, touching does not enable it: only the timeout
  -- counts; another update enables it.
  pub lease_lem :
      (s : Leased T) (d e : T) (t u now l m timeout : ℕ)
      → ((is_expired (update s t l d) now timeout ≡ true) ↔ (t + l + timeout < now))
        × ((is_expired (touch (update s t l d) u m) now timeout ≡ true) ↔ (u + m + timeout < now))
        × ((is_expired (touch (disable_lease s) u m) now timeout ≡ true) ↔ (u + timeout < now))
        × ((is_expired (touch (update (disable_lease s) t l e) u m) now timeout ≡ true)
            ↔ (u + m + timeout < now))
  unfolding update disable_lease is_expired touch
  lease_lem s d e t u now l m timeout = (ground arith, ground arith, ground arith, ground arith)
