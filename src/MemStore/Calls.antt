-- ===== src/MemStore/Calls.antt =====
-- The calls of the log store of stores/memstore/src/lib.rs, as they are documented for RaftLogStorage:
-- what the store shows after any sequence of them.
use async_raft.Base.{
  ℕ, zero, suc, ◌+◌, ◌-◌, ◌<◌, ◌≤◌, ◌≡◌, refl, sym, ap, ◌∙◌, true, none, some, arith, done,
  get_last?, ltb, leb, ◌&&◌, dec_lt,
}
use async_raft.Base.Order.{◌≤?◌, option_ord}
use async_raft.LogId.{log_id_ord}
use async_raft.Handler.{Entry}
use async_raft.StorageHelper.Points.{upto, Proposed, upto-le}
use async_raft.MemStore.{
  MemEntry, blank, normal, membership, Json, MemLogStore, append, truncate, purge,
  try_get_log_entries, get_log_state, range, decode_all,
}
use async_raft.Base.Sets.{insert_entry}
use async_raft.MemStore.Rows.{items, rows, last-rows, insert-rows}
use async_raft.MemStore.Cuts.{remove_from, remove_upto, range_between, decode_all-rows}

-- The part of an entry that the protocol reads.
abbrev pub entry_of : {N : Type 0} → MemEntry N → Entry N
entry_of e = record {
  log_id = e.log_id;
  membership = elim e.payload [ blank ↦ none | normal r ↦ none | membership m ↦ some m ];
}

abbrev pub view : {N : Type 0} → (ℕ → MemEntry N) → ℕ → Entry N
view log i = entry_of (log i)

-- The serializer reads what it writes.
pub record RoundTrips {A S : Type 0} (json : Json A S) (code : A → S) : Type 0 where
  pub writes : (a : A) → json.to_string a ≡ some (code a)
  pub reads : (a : A) → json.from_str (code a) ≡ some a

module _ {N S : Type 0} (json : Json (MemEntry N) S) (code : MemEntry N → S)
    (trips : RoundTrips json code) where
  -- The store has the entries of `log` from `low` to before `high`; those before are purged.
  pub record Shows (st : MemLogStore S) (log : ℕ → MemEntry N) (low high : ℕ) : Type 0 where
    pub stored : st.log ≡ rows code log low (high - low)
    pub purged_is : st.last_purged_log_id ≡ upto (view log) low
    pub order : low ≤ high
    pub proposed : Proposed (view log) high

  pub append-items :
      (st : MemLogStore S) (log : ℕ → MemEntry N) (low m n : ℕ)
      → st.log ≡ rows code log low m
      → ((i : ℕ) → i < low + m + n → (log i).log_id.index ≡ i)
      → append json st (items log (low + m) n)
        ≡ (record st { log = rows code log low (m + n) }, true)
  unfolding append
  append-items st log low m zero q ids =
      let size : m ≡ m + 0 = omega arith in
      ap (λ l. (record st { log = l }, true)) (q ∙ ap (λ k. rows code log low k) size)
  append-items st log low m (suc n) q ids =
      let index = ids (low + m) (omega arith) in
      let inserted : insert_entry (log (low + m)).log_id.index (code (log (low + m))) st.log
          ≡ rows code log low (suc m) =
        ap (λ j. insert_entry j (code (log (low + m))) st.log) index
        ∙ ap (insert_entry (low + m) (code (log (low + m)))) q
        ∙ insert-rows code log low m in
      let next : suc (low + m) ≡ low + suc m = omega arith in
      let size : suc m + n ≡ m + suc n = omega arith in
      let st' = record st {
        log = insert_entry (log (low + m)).log_id.index (code (log (low + m))) st.log;
      } in
      rw (trips.writes (log (low + m))) (
        ap (λ j. append json st' (items log j n)) next
        ∙ append-items st' log low (suc m) n inserted (λ i b. ids i (omega arith))
        ∙ ap (λ k. (record st { log = rows code log low k }, true)) size)

  pub truncate-Shows :
      (st : MemLogStore S) (log : ℕ → MemEntry N) (low high i : ℕ)
      → Shows st log low high
      → low ≤ i
      → i < high
      → Shows (truncate st (log i).log_id) log low i
  unfolding truncate
  truncate-Shows st log low high i s l h =
      let size : high - low ≡ (i - low) + (high - i) = omega (arith, l, h) in
      let at : low + (i - low) ≡ i = omega (arith, l) in
      record {
        stored =
            let parts = s.stored ∙ ap (rows code log low) size in
            rw parts (
              remove_from code log (log i).log_id.index low (i - low) (high - i)
                (s.proposed.indexed i h ∙ sym at));
        purged_is = s.purged_is;
        order = l;
        proposed = record {
          indexed = λ j b. s.proposed.indexed j (omega arith);
          grows = λ j k a b. s.proposed.grows j k a (omega arith);
        };
      }

  pub purge-Shows :
      (st : MemLogStore S) (log : ℕ → MemEntry N) (low high i : ℕ)
      → Shows st log low high
      → low ≤ i
      → i < high
      → (st' : MemLogStore S) × (purge st (log i).log_id ≡ done st') × Shows st' log (suc i) high
  unfolding purge
  purge-Shows st log low high i s l h =
      let size : high - low ≡ (suc i - low) + (high - suc i) = omega (arith, l, h) in
      let at : low + (suc i - low) ≡ suc i = omega (arith, l) in
      let allowed : (st.last_purged_log_id ≤? some (log i).log_id) ≡ true =
        ap (λ o. o ≤? some (log i).log_id) (s.purged_is)
        ∙ upto-le (view log) high s.proposed low (suc i) (omega arith) h in
      let parts = s.stored ∙ ap (rows code log low) size in
      (
        record st {
          last_purged_log_id = some (log i).log_id;
          log = rows code log (suc i) (high - suc i);
        },
        rw (allowed, parts)
            (ap (λ m. done (record st { last_purged_log_id = some (log i).log_id; log = m }))
              (remove_upto code log (log i).log_id.index low (suc i - low) (high - suc i)
                  (ap suc (s.proposed.indexed i h) ∙ sym at)
                ∙ ap (λ j. rows code log j (high - suc i)) at)),
        record { stored = refl; purged_is = refl; order = h; proposed = s.proposed },
      )

  pub get_log_state-Shows :
      (st : MemLogStore S) (log : ℕ → MemEntry N) (low high : ℕ)
      → Shows st log low high
      → get_log_state json st
        ≡ some (record {
          last_purged_log_id = upto (view log) low;
          last_log_id = upto (view log) high;
        })
  unfolding get_log_state
  get_log_state-Shows st log low high s = elim (dec_lt low high) [
    | yes more ↦
        let size : high - low ≡ suc (high - low - 1) = omega (arith, more) in
        let at : suc (low + (high - low - 1)) ≡ high = omega (arith, more) in
        let i = low + (high - low - 1) in
        let last : get_last? st.log ≡ some (i, code (log i)) =
          ap get_last? (s.stored ∙ ap (rows code log low) size)
          ∙ last-rows code log low (high - low - 1) in
        rw (last, get_log_state, trips.reads (log i))
          (ap (λ o. some (record { last_purged_log_id = o; last_log_id = some (log i).log_id }))
              s.purged_is
            ∙ ap
                (λ j. some (record {
                  last_purged_log_id = upto (view log) low;
                  last_log_id = upto (view log) j;
                }))
                at)
    | no empty ↦
        let size : high - low ≡ 0 = omega (arith, empty) in
        let same : low ≡ high = omega (arith, empty, s.order) in
        let last : get_last? st.log ≡ none =
          ap get_last? (s.stored ∙ ap (rows code log low) size) in
        rw (last, get_log_state)
          (ap (λ o. some (record { last_purged_log_id = o; last_log_id = o })) s.purged_is
            ∙ ap
                (λ j. some (record {
                  last_purged_log_id = upto (view log) low;
                  last_log_id = upto (view log) j;
                }))
                same)
  ]

  pub try_get-Shows :
      (st : MemLogStore S) (log : ℕ → MemEntry N) (low high i n : ℕ)
      → Shows st log low high
      → low ≤ i
      → i + n ≤ high
      → try_get_log_entries json st i (i + n) ≡ some (items log i n)
  unfolding try_get_log_entries
  try_get-Shows st log low high i n s l h =
      let size : high - low ≡ (i - low) + (n + (high - (i + n))) = omega (arith, l, h) in
      let at : low + (i - low) ≡ i = omega (arith, l) in
      let found =
        ap (range (λ k. leb i k && ltb k (i + n))) (s.stored ∙ ap (rows code log low) size)
        ∙ range_between code log i (i + n) low (i - low) n (high - (i + n)) (sym at)
            (ap (λ j. j + n) (sym at))
        ∙ ap (λ j. rows code log j n) at in
      ap (decode_all json) found ∙ decode_all-rows json code trips.reads log i n
