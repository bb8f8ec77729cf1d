-- ===== src/MemStore/Runs.antt =====
-- Sequences of calls of the log store of stores/memstore/src/lib.rs, and the log that they stand for.
use async_raft.Base.{
  ℕ, suc, ◌+◌, ◌<◌, ◌≤◌, ◌≡◌, ◌⊎◌, inl, inr, refl, ap, ◌∙◌, subst, Bool, true, false, List, [], ◌∷◌,
  Option, none, some, Checked, done, panicked,
}
use async_raft.LogId.{LogId, log_id_ord}
use async_raft.StorageHelper.Points.{upto, Proposed}
use async_raft.MemStore.{
  MemEntry, Json, MemLogStore, append, truncate, purge, try_get_log_entries, get_log_state,
}
use async_raft.MemStore.Rows.{items}
use async_raft.Base.Order.{option_ord}
use async_raft.MemStore.Calls.{
  view, RoundTrips, Shows, truncate-Shows, purge-Shows, get_log_state-Shows, try_get-Shows,
}
use async_raft.MemStore.Past.{append-Shows, truncate-past, purge-past}

pub data Call (N : Type 0) : Type 0 where
  append_of : List (MemEntry N) → Call N
  truncate_of : LogId → Call N
  purge_of : LogId → Call N

-- A log whose entries before `low` are purged, and that ends before `high`.
pub record Kept (N : Type 0) : Type 0 where
  pub log : ℕ → MemEntry N
  pub low : ℕ
  pub high : ℕ

module _ {N : Type 0} where
  -- Calls of the log store, and the log that they lead to: entries are appended right after the last
  -- one, in an order of leaders that do not decrease; a log is truncated from one of its entries on, or
  -- from an index after the last one, which changes nothing; it is purged up to one of its entries, or
  -- up to a later log id by a leader that is not before the last one's, which leaves no entry.
  abbrev pub Leads : Kept N → List (Call N) → Kept N → Type 0
  Leads k [] k' = k ≡ k'
  Leads k (append_of es ∷ calls) k' =
      (log' : ℕ → MemEntry N) × (n : ℕ) × ((i : ℕ) → i < k.high → log' i ≡ k.log i)
      × Proposed (view log') (k.high + n)
      × (es ≡ items log' k.high n)
      × Leads (record { log = log'; low = k.low; high = k.high + n }) calls k'
  Leads k (truncate_of l ∷ calls) k' =
      ((i : ℕ) × (k.low ≤ i)
        × (i < k.high)
        × (l ≡ (k.log i).log_id)
        × Leads (record { log = k.log; low = k.low; high = i }) calls k')
      ⊎ ((k.high ≤ l.index) × Leads k calls k')
  Leads k (purge_of l ∷ calls) k' =
      ((i : ℕ) × (k.low ≤ i)
        × (i < k.high)
        × (l ≡ (k.log i).log_id)
        × Leads (record { log = k.log; low = suc i; high = k.high }) calls k')
      ⊎ ((log' : ℕ → MemEntry N) × (i : ℕ) × ((j : ℕ) → j < k.high → log' j ≡ k.log j)
          × Proposed (view log') (suc i)
          × (k.high ≤ i)
          × (l ≡ (log' i).log_id)
          × Leads (record { log = log'; low = suc i; high = suc i }) calls k')

module _ {N S : Type 0} (json : Json (MemEntry N) S) where
  abbrev written : MemLogStore S × Bool → Option (MemLogStore S)
  written (st, true) = some st
  written (st, false) = none

  abbrev checked : Checked (MemLogStore S) → Option (MemLogStore S)
  checked (done st) = some st
  checked panicked = none

  abbrev pub call : MemLogStore S → Call N → Option (MemLogStore S)
  call st (append_of es) = written (append json st es)
  call st (truncate_of l) = some (truncate st l)
  call st (purge_of l) = checked (purge st l)

  -- The calls in their order; none if one fails or panics.
  unfoldable pub run : MemLogStore S → List (Call N) → Option (MemLogStore S)
  run st [] = some st
  run st (c ∷ calls) = elim (call st c) [ none ↦ none | some st' ↦ run st' calls ]

  run-cons :
      (st st' : MemLogStore S) (c : Call N) (calls : List (Call N))
      → call st c ≡ some st'
      → run st (c ∷ calls) ≡ run st' calls
  unfolding run
  run-cons st st' c calls h = rw (h, run) refl

module _ {N S : Type 0} (json : Json (MemEntry N) S) (code : MemEntry N → S)
    (trips : RoundTrips json code) where
  pub run-Shows :
      (st : MemLogStore S) (k k' : Kept N) (calls : List (Call N))
      → Shows json code trips st k.log k.low k.high
      → Leads k calls k'
      → (st' : MemLogStore S) × (run json st calls ≡ some st')
        × Shows json code trips st' k'.log k'.low k'.high
  unfolding run
  run-Shows st k k' [] s l =
      (st, refl, subst (λ j. Shows json code trips st j.log j.low j.high) l s)
  run-Shows st k k' (append_of es ∷ calls) s (log', n, same, p, q, l) =
      let (st1, e, s1) = append-Shows json code trips st k.log log' k.low k.high n s same p in
      let (st2, f, s2) =
        run-Shows st1 (record { log = log'; low = k.low; high = k.high + n }) k' calls s1 l in
      (
        st2,
        rw q (
            run-cons json st st1 (append_of (items log' k.high n)) calls (ap (written json) e) ∙ f),
        s2,
      )
  run-Shows st k k' (truncate_of x ∷ calls) s (inl (i, a, b, q, l)) =
      let s1 = truncate-Shows json code trips st k.log k.low k.high i s a b in
      let (st2, f, s2) =
        run-Shows (truncate st (k.log i).log_id) (record { log = k.log; low = k.low; high = i }) k'
          calls s1 l in
      (
        st2,
        rw q (
            run-cons json st (truncate st (k.log i).log_id) (truncate_of (k.log i).log_id) calls
              refl
            ∙ f),
        s2,
      )
  run-Shows st k k' (purge_of x ∷ calls) s (inl (i, a, b, q, l)) =
      let (st1, e, s1) = purge-Shows json code trips st k.log k.low k.high i s a b in
      let (st2, f, s2) =
        run-Shows st1 (record { log = k.log; low = suc i; high = k.high }) k' calls s1 l in
      (
        st2,
        rw q (run-cons json st st1 (purge_of (k.log i).log_id) calls (ap (checked json) e) ∙ f),
        s2,
      )
  run-Shows st k k' (truncate_of x ∷ calls) s (inr (h, l)) =
      let same = truncate-past json code trips st k.log k.low k.high x s h in
      let (st2, f, s2) = run-Shows st k k' calls s l in
      (st2, run-cons json st st (truncate_of x) calls (ap some same) ∙ f, s2)
  run-Shows st k k' (purge_of x ∷ calls) s (inr (log', i, same, p, h, q, l)) =
      let (st1, e, s1) = purge-past json code trips st k.log log' k.low k.high i s same p h in
      let (st2, f, s2) =
        run-Shows st1 (record { log = log'; low = suc i; high = suc i }) k' calls s1 l in
      (
        st2,
        rw q (run-cons json st st1 (purge_of (log' i).log_id) calls (ap (checked json) e) ∙ f),
        s2,
      )

  -- On a store that shows a log, after any sequence of calls that append right after the last log, truncate
  -- from a log that the store has or from an index after the last one, or purge up to a log that it has
  -- or up to a log id after the last one: none of them fails, and the store answers as the log that they
  -- lead to. Its state is the purged and the last log id of that log, and a read between two of its
  -- indexes gives exactly the entries there, in order.
  pub run-reads :
      (st : MemLogStore S) (k k' : Kept N) (calls : List (Call N))
      → Shows json code trips st k.log k.low k.high
      → Leads k calls k'
      → (st' : MemLogStore S) × (run json st calls ≡ some st')
        × (get_log_state json st'
            ≡ some (record {
              last_purged_log_id = upto (view k'.log) k'.low;
              last_log_id = upto (view k'.log) k'.high;
            }))
        × ((i n : ℕ)
            → k'.low ≤ i
            → i + n ≤ k'.high
            → try_get_log_entries json st' i (i + n) ≡ some (items k'.log i n))
  run-reads st k k' calls s l =
      let (st', e, s') = run-Shows st k k' calls s l in
      (
        st',
        e,
        get_log_state-Shows json code trips st' k'.log k'.low k'.high s',
        λ i n a b. try_get-Shows json code trips st' k'.log k'.low k'.high i n s' a b,
      )
