-- ===== src/MemStore/Cuts.antt =====
-- What the ranges of stores/memstore/src/lib.rs read and remove, for a log of consecutive entries.
use async_raft.Base.{
  ℕ, zero, suc, ◌+◌, ◌≤◌, ◌≡◌, refl, ap, ◌∙◌, List, [], ◌++◌, some, arith, ltb, leb, ◌&&◌,
}
use mathlib.Core.List.{append-nil}
use async_raft.MemStore.{range, remove_keys, MemEntry, Json, decode_all}
use async_raft.MemStore.Rows.{
  items, rows, rows-add, range-rows_all, range-rows_none, remove_keys-rows_same,
  remove_keys-rows_before, remove_keys-rows_after, range-append, remove_keys-append,
}

module _ {A S : Type 0} (code : A → S) (log : ℕ → A) where
  abbrev all : ℕ → ℕ → List (ℕ × S)
  all i n = rows code log i n

  -- The rows from an index on.
  pub remove_from :
      (index i m n : ℕ)
      → index ≡ i + m
      → remove_keys (range (leb index) (all i (m + n))) (all i (m + n)) ≡ all i m
  remove_from index i m n h =
      let found : range (leb index) (all i m ++ all (i + m) n) ≡ all (i + m) n =
        range-append (leb index) (all i m) (all (i + m) n)
        ∙ ap (λ xs. xs ++ range (leb index) (all (i + m) n))
            (range-rows_none code log (leb index) i m (λ k a b. ground (arith, h, b)))
        ∙ range-rows_all code log (leb index) (i + m) n (λ k a b. ground (arith, h, a)) in
      rw (rows-add code log i m n, found)
        (remove_keys-append (all (i + m) n) (all i m) (all (i + m) n)
          ∙ ap (λ xs. xs ++ remove_keys (all (i + m) n) (all (i + m) n))
              (remove_keys-rows_after code log (i + m) n i m (omega arith))
          ∙ ap (λ xs. all i m ++ xs) (remove_keys-rows_same code log (i + m) n)
          ∙ append-nil (all i m))

  -- The rows up to an index.
  pub remove_upto :
      (index i m n : ℕ)
      → suc index ≡ i + m
      → remove_keys (range (λ k. leb k index) (all i (m + n))) (all i (m + n)) ≡ all (i + m) n
  remove_upto index i m n h =
      let found : range (λ k. leb k index) (all i m ++ all (i + m) n) ≡ all i m =
        range-append (λ k. leb k index) (all i m) (all (i + m) n)
        ∙ ap (λ xs. xs ++ range (λ k. leb k index) (all (i + m) n))
            (range-rows_all code log (λ k. leb k index) i m (λ k a b. ground (arith, h, b)))
        ∙ ap (λ xs. all i m ++ xs)
            (range-rows_none code log (λ k. leb k index) (i + m) n (λ k a b. ground (arith, h, a)))
        ∙ append-nil (all i m) in
      rw (rows-add code log i m n, found)
        (remove_keys-append (all i m) (all i m) (all (i + m) n)
          ∙ ap (λ xs. xs ++ remove_keys (all i m) (all (i + m) n))
              (remove_keys-rows_same code log i m)
          ∙ remove_keys-rows_before code log i m (i + m) n (omega arith))

  -- All rows are up to an index, or none is from an index on.
  pub remove_all :
      (index i n : ℕ)
      → i + n ≤ suc index
      → remove_keys (range (λ k. leb k index) (all i n)) (all i n) ≡ []
  remove_all index i n h =
      let found = range-rows_all code log (λ k. leb k index) i n (λ k a b. ground (arith, h, b)) in
      ap (λ ks. remove_keys ks (all i n)) found ∙ remove_keys-rows_same code log i n

  pub remove_none :
      (index i n : ℕ)
      → i + n ≤ index
      → remove_keys (range (leb index) (all i n)) (all i n) ≡ all i n
  remove_none index i n h =
      ap (λ ks. remove_keys ks (all i n))
        (range-rows_none code log (leb index) i n (λ k a b. ground (arith, h, b)))

  -- The rows between two indexes.
  pub range_between :
      (a b i m n q : ℕ)
      → a ≡ i + m
      → b ≡ i + m + n
      → range (λ k. leb a k && ltb k b) (all i (m + (n + q))) ≡ all (i + m) n
  range_between a b i m n q h l =
      rw (rows-add code log i m (n + q), rows-add code log (i + m) n q)
        (range-append _ (all i m) (all (i + m) n ++ all (i + m + n) q)
          ∙ ap (λ xs. xs ++ range (λ k. leb a k && ltb k b) (all (i + m) n ++ all (i + m + n) q))
              (range-rows_none code log _ i m (λ k x y. ground (arith, h, y)))
          ∙ range-append _ (all (i + m) n) (all (i + m + n) q)
          ∙ ap (λ xs. xs ++ range (λ k. leb a k && ltb k b) (all (i + m + n) q))
              (range-rows_all code log _ (i + m) n (λ k x y. ground (arith, h, l, x, y)))
          ∙ ap (λ xs. all (i + m) n ++ xs)
              (range-rows_none code log _ (i + m + n) q (λ k x y. ground (arith, l, x)))
          ∙ append-nil (all (i + m) n))

module _ {N S : Type 0} (json : Json (MemEntry N) S) (code : MemEntry N → S)
    (reads : (e : MemEntry N) → json.from_str (code e) ≡ some e) (log : ℕ → MemEntry N) where
  pub decode_all-rows : (i n : ℕ) → decode_all json (rows code log i n) ≡ some (items log i n)
  unfolding decode_all
  decode_all-rows i zero = refl
  decode_all-rows i (suc n) = rw (reads (log i), decode_all-rows (suc i) n) refl
