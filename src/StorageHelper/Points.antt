-- ===== src/StorageHelper/Points.antt =====
-- The points of a log that openraft/src/storage/helper.rs compares: the id of the last log before each.
use async_raft.Base.{
  ℕ, zero, suc, ◌<◌, ◌≤◌, ◌≡◌, refl, sym, ap, ◌∙◌, true, false, Option, none, some, ltb, arith,
  add64_lem, u64_mod, not, dec_lt,
}
use async_raft.Base.Order.{◌≤?◌, ◌<?◌, option_ord, nat_ord, le?_refl, lt?→le?, lt?_flip}
use async_raft.Vote.{leader_id_ord}
use async_raft.LogId.{LogId, log_id_ord, next_index, index_of}
use async_raft.Handler.{Entry}

module _ {N : Type 0} where
  -- The log id right before an index.
  abbrev pub upto : (ℕ → Entry N) → ℕ → Option LogId
  upto log zero = none
  upto log (suc i) = some (log i).log_id

  -- The logs before `top` have their indexes, and leaders that do not decrease.
  pub record Proposed (log : ℕ → Entry N) (top : ℕ) : Type 0 where
    pub indexed : (i : ℕ) → i < top → (log i).log_id.index ≡ i
    pub grows :
        (i j : ℕ) → i ≤ j → j < top → ((log i).log_id.leader_id ≤? (log j).log_id.leader_id) ≡ true

  module _ (log : ℕ → Entry N) (top : ℕ) (p : Proposed log top) where
    log_ids-lt : (i j : ℕ) → i < j → j < top → ((log i).log_id <? (log j).log_id) ≡ true
    log_ids-lt i j h b =
        ground (arith, p.indexed i (omega arith), p.indexed j b, p.grows i j (omega arith) b)

    upto_before : (i j : ℕ) → i < j → j ≤ top → (upto log i <? upto log j) ≡ true
    upto_before zero zero h b = elim h [ ]
    upto_before (suc i) zero h b = elim h [ ]
    upto_before zero (suc j) h b = refl
    upto_before (suc i) (suc j) h b = log_ids-lt i j (omega arith) (omega arith)

    -- The order of the log ids is that of the points.
    pub upto-le : (i j : ℕ) → i ≤ j → j ≤ top → (upto log i ≤? upto log j) ≡ true
    upto-le i j h b = elim (dec_lt i j) [
      | yes before ↦ lt?→le? {A = Option LogId} (upto log i) (upto log j) (upto_before i j before b)
      | no same ↦
          let e : i ≡ j = omega (arith, same) in rw e (le?_refl {A = Option LogId} (upto log j))
    ]

    pub index_of-upto-le :
        (i j : ℕ) → i ≤ j → j ≤ top → (index_of (upto log i) ≤? index_of (upto log j)) ≡ true
    index_of-upto-le zero zero h b = refl
    index_of-upto-le zero (suc j) h b = refl
    index_of-upto-le (suc i) zero h b = elim h [ ]
    index_of-upto-le (suc i) (suc j) h b = ground (arith, p.indexed i (omega arith), p.indexed j b)

    pub upto-lt : (i j : ℕ) → i ≤ top → j ≤ top → (upto log i <? upto log j) ≡ ltb i j
    upto-lt i j a b = elim (dec_lt i j) [
      | yes before ↦
          let test : ltb i j ≡ true = ground (arith, before) in upto_before i j before b ∙ sym test
      | no after ↦
          let test : ltb i j ≡ false = ground (arith, after) in
          lt?_flip {A = Option LogId} (upto log i) (upto log j)
          ∙ ap not (upto-le j i (omega (arith, after)) a)
          ∙ sym test
    ]

    pub next_index-upto : (i : ℕ) → i ≤ top → top < u64_mod → next_index (upto log i) ≡ i
    next_index-upto zero h b = refl
    next_index-upto (suc i) h b =
        let e = p.indexed i h in
        add64_lem (log i).log_id.index 1 (omega (arith, e, h, b)) ∙ omega (arith, e)
