-- ===== src/MemStore/Rows.antt =====
-- The rows that the log of stores/memstore/src/lib.rs has for consecutive entries.
use async_raft.Base.{
  ℕ, zero, suc, ◌+◌, ◌<◌, ◌≤◌, ◌≡◌, refl, sym, ap, ◌∙◌, Bool, true, false, List, [], ◌∷◌, ◌++◌,
  some, arith, ltb, ◌==◌, get_last?,
}
use async_raft.Base.Sets.{insert_entry, remove}
use async_raft.MemStore.{range, remove_keys}

-- `n` entries from the index `i`.
abbrev pub items : {A : Type 0} → (ℕ → A) → ℕ → ℕ → List A
items log i zero = []
items log i (suc n) = log i ∷ items log (suc i) n

module _ {A S : Type 0} (code : A → S) (log : ℕ → A) where
  abbrev pub rows : ℕ → ℕ → List (ℕ × S)
  rows i zero = []
  rows i (suc n) = (i, code (log i)) ∷ rows (suc i) n

  pub rows-add : (i m n : ℕ) → rows i (m + n) ≡ rows i m ++ rows (i + m) n
  rows-add i zero n =
      let same : i ≡ i + 0 = omega arith in
      let none_more : 0 + n ≡ n = omega arith in
      ap (λ k. rows i k) none_more ∙ ap (λ j. rows j n) same
  rows-add i (suc m) n =
      let same : suc i + m ≡ i + suc m = omega arith in
      let longer : suc m + n ≡ suc (m + n) = omega arith in
      ap (λ k. rows i k) longer
      ∙ ap (λ xs. (i, code (log i)) ∷ xs)
          (rows-add (suc i) m n ∙ ap (λ j. rows (suc i) m ++ rows j n) same)

  pub last-rows : (i n : ℕ) → get_last? (rows i (suc n)) ≡ some (i + n, code (log (i + n)))
  last-rows i zero = let same : i ≡ i + 0 = omega arith in ap (λ j. some (j, code (log j))) same
  last-rows i (suc n) =
      let same : suc i + n ≡ i + suc n = omega arith in
      last-rows (suc i) n ∙ ap (λ j. some (j, code (log j))) same

  pub range-rows_all :
      (test : ℕ → Bool) (i n : ℕ)
      → ((k : ℕ) → i ≤ k → k < i + n → test k ≡ true)
      → range test (rows i n) ≡ rows i n
  range-rows_all test i zero h = refl
  range-rows_all test i (suc n) h = rw (h i (omega arith) (omega arith)) (
      ap (λ xs. (i, code (log i)) ∷ xs)
        (range-rows_all test (suc i) n (λ k a b. h k (omega arith) (omega arith))))

  pub range-rows_none :
      (test : ℕ → Bool) (i n : ℕ)
      → ((k : ℕ) → i ≤ k → k < i + n → test k ≡ false)
      → range test (rows i n) ≡ []
  range-rows_none test i zero h = refl
  range-rows_none test i (suc n) h =
      rw (h i (omega arith) (omega arith))
        (range-rows_none test (suc i) n (λ k a b. h k (omega arith) (omega arith)))

  remove-rows_other : (k i n : ℕ) → k < i → remove k (rows i n) ≡ rows i n
  unfolding remove
  remove-rows_other k i zero h = refl
  remove-rows_other k i (suc n) h =
      let t : (k == i) ≡ false = ground (arith, h) in
      rw t (ap (λ xs. (i, code (log i)) ∷ xs) (remove-rows_other k (suc i) n (omega arith)))

  remove-rows_after : (k i n : ℕ) → i + n ≤ k → remove k (rows i n) ≡ rows i n
  unfolding remove
  remove-rows_after k i zero h = refl
  remove-rows_after k i (suc n) h =
      let t : (k == i) ≡ false = ground (arith, h) in
      rw t (ap (λ xs. (i, code (log i)) ∷ xs) (remove-rows_after k (suc i) n (omega arith)))

  remove-rows_first : (i n : ℕ) → remove i (rows i (suc n)) ≡ rows (suc i) n
  unfolding remove
  remove-rows_first i n =
      let t : (i == i) ≡ true = ground arith in rw t (remove-rows_other i (suc i) n (omega arith))

  pub remove_keys-rows_same : (i n : ℕ) → remove_keys (rows i n) (rows i n) ≡ []
  remove_keys-rows_same i zero = refl
  remove_keys-rows_same i (suc n) =
      ap (remove_keys (rows (suc i) n)) (remove-rows_first i n) ∙ remove_keys-rows_same (suc i) n

  -- The removed rows come before, or after.
  pub remove_keys-rows_before :
      (j q i n : ℕ) → j + q ≤ i → remove_keys (rows j q) (rows i n) ≡ rows i n
  remove_keys-rows_before j zero i n h = refl
  remove_keys-rows_before j (suc q) i n h =
      ap (remove_keys (rows (suc j) q)) (remove-rows_other j i n (omega arith))
      ∙ remove_keys-rows_before (suc j) q i n (omega arith)

  pub remove_keys-rows_after :
      (j q i n : ℕ) → i + n ≤ j → remove_keys (rows j q) (rows i n) ≡ rows i n
  remove_keys-rows_after j zero i n h = refl
  remove_keys-rows_after j (suc q) i n h =
      ap (remove_keys (rows (suc j) q)) (remove-rows_after j i n h)
      ∙ remove_keys-rows_after (suc j) q i n (omega arith)

  pub insert-rows :
      (i n : ℕ) → insert_entry (i + n) (code (log (i + n))) (rows i n) ≡ rows i (suc n)
  unfolding insert_entry
  insert-rows i zero = let same : i + 0 ≡ i = omega arith in rw same refl
  insert-rows i (suc n) =
      let near : suc i + n ≡ i + suc n = omega arith in
      let a : (i + suc n == i) ≡ false = ground arith in
      let b : ltb (i + suc n) i ≡ false = ground arith in
      rw (a, b)
        (ap (λ xs. (i, code (log i)) ∷ xs)
          (ap (λ j. insert_entry j (code (log j)) (rows (suc i) n)) (sym near)
            ∙ insert-rows (suc i) n))

module _ {S : Type 0} where
  pub range-append :
      (test : ℕ → Bool) (xs ys : List (ℕ × S))
      → range test (xs ++ ys) ≡ range test xs ++ range test ys
  range-append test [] ys = refl
  range-append test ((k, s) ∷ xs) ys = ground (arith, range-append test xs ys)

  remove-append : (k : ℕ) (xs ys : List (ℕ × S)) → remove k (xs ++ ys) ≡ remove k xs ++ remove k ys
  unfolding remove
  remove-append k [] ys = refl
  remove-append k ((j, s) ∷ xs) ys = ground (arith, remove-append k xs ys)

  pub remove_keys-append :
      (found xs ys : List (ℕ × S))
      → remove_keys found (xs ++ ys) ≡ remove_keys found xs ++ remove_keys found ys
  remove_keys-append [] xs ys = refl
  remove_keys-append ((k, s) ∷ found) xs ys =
      ap (remove_keys found) (remove-append k xs ys)
      ∙ remove_keys-append found (remove k xs) (remove k ys)
