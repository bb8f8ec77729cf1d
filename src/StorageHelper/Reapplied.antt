-- ===== src/StorageHelper/Reapplied.antt =====
-- `reapply_committed` of openraft/src/storage/helper.rs applies exactly the logs that it is asked to.
use async_raft.Base.{
  ℕ, zero, suc, ◌+◌, ◌-◌, ◌<◌, ◌≤◌, ◌≡◌, refl, sym, ap, ◌∙◌, Bool, true, false, List, [], ◌++◌,
  Option, some, ltb, arith, get_last?, add64, add64_lem, u64_mod, dec_lt,
}
use async_raft.Base.Order.{option_ord, nat_ord, min_of, eq→=?}
use mathlib.Core.List.{append_assoc, append-nil}
use async_raft.Handler.{Entry}
use async_raft.StorageHelper.{Run, finished, chunk_size, index_at, apply_chunk, reapply_committed}
use async_raft.StorageHelper.Slices.{Reads, slice, slice-add, slice-last}

module _ {N : Type 0} (read : ℕ → ℕ → Option (List (Entry N))) (apply : List (Entry N) → Bool)
    (log : ℕ → Entry N) (low high : ℕ) (r : Reads read log low high)
    (works : (es : List (Entry N)) → apply es ≡ true) (bound : high + chunk_size < u64_mod) where
  apply_chunk-slice :
      (rest : List (Entry N) → Run (List (Entry N))) (i n : ℕ)
      → low ≤ i
      → i + suc n ≤ high
      → apply_chunk apply rest i (i + suc n) (read i (i + suc n)) ≡ rest (slice log i (suc n))
  unfolding apply_chunk
  apply_chunk-slice rest i n l h =
      let first : index_at (some (log i)) ≡ some i = ap some (r.indexed i l (omega (arith, h))) in
      let near : i + n ≡ i + suc n - 1 = omega arith in
      let last : index_at (get_last? (slice log i (suc n))) ≡ some (i + suc n - 1) =
        ap index_at (slice-last log i n)
        ∙ ap some (r.indexed (i + n) (omega arith) (omega (arith, h)) ∙ near) in
      rw
        (
          r.answers i (suc n) l h,
          eq→=? {A = Option ℕ} (index_at (some (log i))) (some i) first,
          eq→=? {A = Option ℕ} (index_at (get_last? (slice log i (suc n)))) (some (i + suc n - 1))
              last,
          works (slice log i (suc n)),
        )
        refl

  one_chunk :
      (rounds start k end : ℕ) (done : List (Entry N))
      → low ≤ start
      → start + suc k ≤ end
      → end ≤ high
      → min_of end (add64 start chunk_size) ≡ start + suc k
      → reapply_committed read apply (suc rounds) start end done
        ≡ reapply_committed read apply rounds (start + suc k) end (done ++ slice log start (suc k))
  unfolding reapply_committed
  one_chunk rounds start k end done l h b q =
      let more : ltb start end ≡ true = ground (arith, h) in
      rw
        (
          more,
          q,
          apply_chunk-slice
              (λ es. reapply_committed read apply rounds (start + suc k) end (done ++ es)) start k l
              (omega arith),
        )
        refl

  reapplied :
      (rounds start n end : ℕ) (done : List (Entry N))
      → low ≤ start
      → start + n ≡ end
      → end ≤ high
      → n ≤ rounds
      → reapply_committed read apply rounds start end done ≡ finished (done ++ slice log start n)
  unfolding reapply_committed
  reapplied zero start zero end done l h b e =
      let stop : ltb start end ≡ false = ground (arith, h) in rw (stop, append-nil done) refl
  reapplied zero start (suc n) end done l h b e = absurd (omega arith)
  reapplied (suc rounds) start zero end done l h b e =
      let stop : ltb start end ≡ false = ground (arith, h) in rw (stop, append-nil done) refl
  reapplied (suc rounds) start (suc n) end done l h b e =
      let sum = add64_lem start chunk_size (omega (arith, bound, h, b)) in
      let rest : (k m : ℕ)
          → suc k + m ≡ suc n
          → min_of end (add64 start chunk_size) ≡ start + suc k
          → reapply_committed read apply (suc rounds) start end done
            ≡ finished (done ++ slice log start (suc n)) =
        λ k m size q.
          one_chunk rounds start k end done l (omega (arith, size, h)) b q
          ∙ reapplied rounds (start + suc k) m end (done ++ slice log start (suc k)) (omega arith)
              (omega (arith, size, h)) b (omega (arith, size))
          ∙ ap finished (
              append_assoc done (slice log start (suc k)) (slice log (start + suc k) m)
              ∙ ap (λ xs. done ++ xs)
                  (sym (slice-add log start (suc k) m) ∙ ap (λ j. slice log start j) size)) in
      elim (dec_lt n chunk_size) [
        | yes short ↦ rest n 0 (omega arith) (ground (arith, sum, h, short))
        | no long ↦ rest 63 (suc n - 64) (omega (arith, long)) (ground (arith, sum, h, long))
      ]

  -- If the storage has the logs and the state machine succeeds, then as many rounds as there are logs are
  -- enough: exactly the logs from the start to before the end are applied, each once and in order.
  pub reapply_committed_lem :
      (rounds start end : ℕ)
      → low ≤ start
      → start ≤ end
      → end ≤ high
      → end ≤ start + rounds
      → reapply_committed read apply rounds start end [] ≡ finished (slice log start (end - start))
  reapply_committed_lem rounds start end l o b e =
      reapplied rounds start (end - start) end [] l (omega (arith, o)) b (omega (arith, e))
