-- ===== src/StorageHelper/Slices.antt =====
-- The entries of a log between two indexes, as openraft/src/storage/helper.rs reads them.
use async_raft.Base.{
  ℕ, zero, suc, ◌+◌, ◌<◌, ◌≤◌, ◌≡◌, ap, ◌∙◌, List, [], ◌∷◌, ◌++◌, Option, some, arith, get_last?,
}
use async_raft.Handler.{Entry}

module _ {N : Type 0} (log : ℕ → Entry N) where
  -- `n` entries from the index `i`.
  abbrev pub slice : ℕ → ℕ → List (Entry N)
  slice i zero = []
  slice i (suc n) = log i ∷ slice (suc i) n

  pub slice-add : (i m n : ℕ) → slice i (m + n) ≡ slice i m ++ slice (i + m) n
  slice-add i zero n =
      let same : i ≡ i + 0 = omega arith in
      let none_more : 0 + n ≡ n = omega arith in
      ap (λ k. slice i k) none_more ∙ ap (λ j. slice j n) same
  slice-add i (suc m) n =
      let same : suc i + m ≡ i + suc m = omega arith in
      let longer : suc m + n ≡ suc (m + n) = omega arith in
      ap (λ k. slice i k) longer
      ∙ ap (λ xs. log i ∷ xs) (slice-add (suc i) m n ∙ ap (λ j. slice (suc i) m ++ slice j n) same)

  pub slice-last : (i n : ℕ) → get_last? (slice i (suc n)) ≡ some (log (i + n))
  slice-last i zero = let same : i ≡ i + 0 = omega arith in ap (λ j. some (log j)) same
  slice-last i (suc n) =
      let same : suc i + n ≡ i + suc n = omega arith in
      slice-last (suc i) n ∙ ap (λ j. some (log j)) same

-- A storage that has the entries of `log` between two indexes.
pub record Reads {N : Type 0} (read : ℕ → ℕ → Option (List (Entry N))) (log : ℕ → Entry N)
    (low high : ℕ) : Type 0 where
  pub answers : (i n : ℕ) → low ≤ i → i + n ≤ high → read i (i + n) ≡ some (slice log i n)
  pub indexed : (i : ℕ) → low ≤ i → i < high → (log i).log_id.index ≡ i
