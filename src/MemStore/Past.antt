-- ===== src/MemStore/Past.antt =====
-- The calls of the log store of stores/memstore/src/lib.rs that go past its last log: entries that are
-- appended, and a truncate or a purge from or up to an index after it.
use async_raft.Base.{
  ℕ, zero, suc, ◌+◌, ◌-◌, ◌<◌, ◌≤◌, ◌≡◌, leb, refl, sym, ap, ◌∙◌, true, [], ◌∷◌, some, arith, done,
}
use async_raft.LogId.{LogId, log_id_ord}
use async_raft.StorageHelper.Points.{upto, upto-le, Proposed}
use async_raft.MemStore.{MemEntry, Json, MemLogStore, append, truncate, purge, remove_keys, range}
use async_raft.MemStore.Rows.{items, rows}
use async_raft.Base.Order.{◌≤?◌, option_ord}
use async_raft.MemStore.Cuts.{remove_all, remove_none}
use async_raft.MemStore.Calls.{view, RoundTrips, Shows, append-items}

module _ {N S : Type 0} (json : Json (MemEntry N) S) (code : MemEntry N → S)
    (trips : RoundTrips json code) where
  rows_agree :
      (log log' : ℕ → MemEntry N) (i n : ℕ)
      → ((j : ℕ) → i ≤ j → j < i + n → log' j ≡ log j)
      → rows code log i n ≡ rows code log' i n
  rows_agree log log' i zero h = refl
  rows_agree log log' i (suc n) h = rw (h i (omega arith) (omega arith)) (
      ap (λ xs. (i, code (log i)) ∷ xs)
        (rows_agree log log' (suc i) n (λ j a b. h j (omega arith) (omega arith))))

  upto_agree :
      (log log' : ℕ → MemEntry N) (n high : ℕ)
      → n ≤ high
      → ((i : ℕ) → i < high → log' i ≡ log i)
      → upto (view log) n ≡ upto (view log') n
  upto_agree log log' zero high h same = refl
  upto_agree log log' (suc n) high h same = ap (λ e. some (MemEntry.log_id e)) (sym (same n h))

  pub append-Shows :
      (st : MemLogStore S) (log log' : ℕ → MemEntry N) (low high n : ℕ)
      → Shows json code trips st log low high
      → ((i : ℕ) → i < high → log' i ≡ log i)
      → Proposed (view log') (high + n)
      → (st' : MemLogStore S) × (append json st (items log' high n) ≡ (st', true))
        × Shows json code trips st' log' low (high + n)
  append-Shows st log log' low high n s same p =
      let at : low + (high - low) ≡ high = omega (arith, s.order) in
      let size : high - low + n ≡ high + n - low = omega (arith, s.order) in
      let stored =
        s.stored ∙ rows_agree log log' low (high - low) (λ j a b. same j (omega (arith, at, b))) in
      (
        record st { log = rows code log' low (high + n - low) },
        ap (λ j. append json st (items log' j n)) (sym at)
            ∙ append-items json code trips st log' low (high - low) n stored
                (λ i b. p.indexed i (omega (arith, at, b)))
            ∙ ap (λ m. (record st { log = rows code log' low m }, true)) size,
        record {
          stored = refl;
          purged_is = s.purged_is ∙ upto_agree log log' low high s.order same;
          order = omega (arith, s.order);
          proposed = p;
        },
      )

  pub truncate-past :
      (st : MemLogStore S) (log : ℕ → MemEntry N) (low high : ℕ) (l : LogId)
      → Shows json code trips st log low high
      → high ≤ l.index
      → truncate st l ≡ st
  unfolding truncate
  truncate-past st log low high l s h =
      let kept : remove_keys (range (leb l.index) st.log) st.log ≡ st.log =
        ap (λ m. remove_keys (range (leb l.index) m) m) s.stored
        ∙ remove_none code log l.index low (high - low) (omega (arith, s.order, h))
        ∙ sym s.stored in
      ap (λ m. record st { log = m }) kept

  pub purge-past :
      (st : MemLogStore S) (log log' : ℕ → MemEntry N) (low high i : ℕ)
      → Shows json code trips st log low high
      → ((j : ℕ) → j < high → log' j ≡ log j)
      → Proposed (view log') (suc i)
      → high ≤ i
      → (st' : MemLogStore S) × (purge st (log' i).log_id ≡ done st')
        × Shows json code trips st' log' (suc i) (suc i)
  unfolding purge
  purge-past st log log' low high i s same p h =
      let allowed : (st.last_purged_log_id ≤? some (log' i).log_id) ≡ true =
        ap (λ o. o ≤? some (log' i).log_id)
          (s.purged_is ∙ upto_agree log log' low high s.order same)
        ∙ upto-le (view log') (suc i) p low (suc i) (omega (arith, s.order)) (omega arith) in
      let index : (log' i).log_id.index ≡ i = p.indexed i (omega arith) in
      let empty : remove_keys (range (λ k. leb k (log' i).log_id.index) st.log) st.log ≡ [] =
        ap (λ m. remove_keys (range (λ k. leb k (log' i).log_id.index) m) m) s.stored
        ∙ remove_all code log (log' i).log_id.index low (high - low)
            (omega (arith, s.order, h, index)) in
      let none_left : 0 ≡ suc i - suc i = omega arith in
      (
        record st { last_purged_log_id = some (log' i).log_id; log = [] },
        rw (allowed, empty) refl,
        record {
          stored = ap (rows code log' (suc i)) none_left;
          purged_is = refl;
          order = omega arith;
          proposed = p;
        },
      )
