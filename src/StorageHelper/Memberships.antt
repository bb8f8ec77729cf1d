-- ===== src/StorageHelper/Memberships.antt =====
-- `last_membership_in_log` of openraft/src/storage/helper.rs finds the last two memberships of the logs.
use async_raft.Base.{
  ℕ, zero, suc, ◌+◌, ◌-◌, ◌<◌, ◌≤◌, ◌≡◌, refl, sym, ap, ◌∙◌, true, false, List, [], ◌∷◌, ◌++◌,
  Option, none, some, if◌then◌else◌, ltb, ◌==◌, ==_iff, length, arith, Bool-cases, inl, inr, dec_lt,
}
use async_raft.Base.Order.{nat_ord, max_of}
use async_raft.LogId.{next_index}
use async_raft.Membership.State.{StoredMembership}
use async_raft.Handler.{Entry}
use async_raft.Following.{last_two_memberships}
use async_raft.StorageHelper.{
  finished, StoredLogs, chunk_size, found, scan_one, scan, scanned, scan_back,
  last_membership_in_log,
}
use async_raft.StorageHelper.Slices.{Reads, slice, slice-add}

module _ {N : Type 0} where
  -- The membership of an entry before what has been found, as long as there are fewer than two.
  abbrev add : Entry N → List (StoredMembership N) → List (StoredMembership N)
  add e res = elim e.membership [
    | none ↦ res
    | some m ↦
        if ltb (length res) 2 then record { log_id = some e.log_id; membership = m } ∷ res else res
  ]

  abbrev more : List (Entry N) → List (StoredMembership N) → List (StoredMembership N)
  more [] res = res
  more (e ∷ es) res = add e (more es res)

  more-last_two : (es : List (Entry N)) → last_two_memberships es ≡ more es []
  unfolding last_two_memberships
  more-last_two [] = refl
  more-last_two (e ∷ es) = ap (add e) (more-last_two es)

  more-append :
      (xs ys : List (Entry N)) (res : List (StoredMembership N))
      → more (xs ++ ys) res ≡ more xs (more ys res)
  more-append [] ys res = refl
  more-append (x ∷ xs) ys res = ap (add x) (more-append xs ys res)

  more-full :
      (es : List (Entry N)) (res : List (StoredMembership N)) → length res ≡ 2 → more es res ≡ res
  more-full [] res h = refl
  more-full (e ∷ es) res h = ground (arith, h, more-full es res h)

  length-more :
      (es : List (Entry N)) (res : List (StoredMembership N))
      → length res ≤ 2
      → length (more es res) ≤ 2
  length-more [] res h = h
  length-more (e ∷ es) res h = ground (arith, length-more es res h)

  scan_one-add :
      (e : Entry N) (res : List (StoredMembership N))
      → length res ≤ 2
      → scan_one e (res, length res == 2) ≡ (add e res, length (add e res) == 2)
  scan_one-add e res h = elim (Bool-cases (length res == 2)) [
    | inl full ↦ let same : add e res ≡ res = ground (arith, full) in rw (full, same, full) refl
    | inr free ↦
        let few : ltb (length res) 2 ≡ true = ground (arith, h, free) in
        let same : add e res ≡ found e res = ground (arith, few) in rw (free, same) refl
  ]

  scan-more :
      (es : List (Entry N)) (res : List (StoredMembership N))
      → length res < 2
      → scan es res ≡ (more es res, length (more es res) == 2)
  unfolding scan
  scan-more [] res h = refl
  scan-more (e ∷ es) res h =
      ap (scan_one e) (scan-more es res h)
      ∙ scan_one-add e (more es res) (length-more es res (omega (arith, h)))

module _ {N : Type 0} (read : ℕ → ℕ → Option (List (Entry N))) (log : ℕ → Entry N) (low high : ℕ)
    (r : Reads read log low high) where
  stops :
      (rounds start end : ℕ) (res : List (StoredMembership N))
      → end ≤ start
      → scan_back read rounds start end res ≡ finished res
  unfolding scan_back
  stops zero start end res h =
      let no_more : ltb start end ≡ false = ground (arith, h) in rw no_more refl
  stops (suc rounds) start end res h =
      let no_more : ltb start end ≡ false = ground (arith, h) in rw no_more refl

  one_step :
      (rounds start m k end : ℕ) (res : List (StoredMembership N))
      → low ≤ start
      → start + m + suc k ≡ end
      → end ≤ high
      → length res < 2
      → max_of start (end - chunk_size) ≡ start + m
      → scan_back read (suc rounds) start end res
        ≡ scanned
            (λ res'. scan_back read rounds start (end - chunk_size) res')
            (
              more (slice log (start + m) (suc k)) res,
              length (more (slice log (start + m) (suc k)) res) == 2,
            )
  unfolding scan_back
  one_step rounds start m k end res l h b few q =
      let going : ltb start end ≡ true = ground (arith, h) in
      let read_end : read (start + m) end ≡ some (slice log (start + m) (suc k)) =
        ap (λ j. read (start + m) j) (sym h)
        ∙ r.answers (start + m) (suc k) (omega (arith, l)) (omega (arith, h, b)) in
      rw (going, q, read_end, scan-more (slice log (start + m) (suc k)) res few) refl

  whole :
      (rounds start m k n end : ℕ) (res : List (StoredMembership N))
      → low ≤ start
      → start + suc n ≡ end
      → end ≤ high
      → length res < 2
      → m + suc k ≡ suc n
      → max_of start (end - chunk_size) ≡ start + m
      → ((res' : List (StoredMembership N))
          → length res' < 2
          → scan_back read rounds start (end - chunk_size) res'
            ≡ finished (more (slice log start m) res'))
      → scan_back read (suc rounds) start end res ≡ finished (more (slice log start (suc n)) res)
  whole rounds start m k n end res l h b few size q rest =
      let res' = more (slice log (start + m) (suc k)) res in
      let total : more (slice log start (suc n)) res ≡ more (slice log start m) res' =
        ap (λ j. more (slice log start j) res) (sym size)
        ∙ ap (λ xs. more xs res) (slice-add log start m (suc k))
        ∙ more-append (slice log start m) (slice log (start + m) (suc k)) res in
      let step = one_step rounds start m k end res l (omega (arith, h, size)) b few q in
      elim (Bool-cases (length res' == 2)) [
        | inl full ↦
            step
            ∙ rw full (
                ap finished (
                  sym
                    (total ∙ more-full (slice log start m) res' ((==_iff (length res') 2).0 full))))
        | inr free ↦
            let bounded = length-more (slice log (start + m) (suc k)) res (omega (arith, few)) in
            let lt : length res' < 2 = ground (arith, free, bounded) in
            step ∙ rw free (rest res' lt ∙ ap finished (sym total))
      ]

  finds :
      (rounds start n end : ℕ) (res : List (StoredMembership N))
      → low ≤ start
      → start + n ≡ end
      → end ≤ high
      → n ≤ rounds
      → length res < 2
      → scan_back read rounds start end res ≡ finished (more (slice log start n) res)
  finds rounds start zero end res l h b e few = stops rounds start end res (omega (arith, h))
  finds zero start (suc n) end res l h b e few = absurd (omega arith)
  finds (suc rounds) start (suc n) end res l h b e few = elim (dec_lt n chunk_size) [
    | yes short ↦
        whole rounds start 0 n n end res l h b few (omega arith) (ground (arith, h, short))
          (λ res' f. stops rounds start (end - chunk_size) res' (omega (arith, h, short)))
    | no long ↦
        whole rounds start (suc n - 64) 63 n end res l h b few (omega (arith, long))
          (ground (arith, h, long))
          (λ res' f.
            finds rounds start (suc n - 64) (end - chunk_size) res' l (omega (arith, h, long))
              (omega arith) (omega (arith, long)) f)
  ]

  -- The result is the last two memberships of the stored logs from the index on, of those that are not
  -- purged, and as many rounds as the index after the last log are enough.
  pub last_membership_in_log_lem :
      (rounds : ℕ) (st : StoredLogs) (since : ℕ)
      → low ≡ next_index st.last_purged_log_id
      → high ≡ next_index st.last_log_id
      → high ≤ rounds
      → let start = max_of low since in
        last_membership_in_log read rounds st since
        ≡ finished (last_two_memberships (slice log start (high - start)))
  unfolding last_membership_in_log
  last_membership_in_log_lem rounds st since p q e =
      let start = max_of low since in
      let start_low : low ≤ start = ground arith in
      elim (dec_lt start high) [
        | yes some_left ↦
            rw (sym p, sym q, more-last_two (slice log start (high - start)))
              (finds rounds start (high - start) high [] start_low (omega (arith, some_left))
                (omega arith) (omega (arith, e)) (omega arith))
        | no none_left ↦
            let empty : high - start ≡ 0 = omega (arith, none_left) in
            rw (sym p, sym q, empty, more-last_two (slice log start 0))
              (stops rounds start high [] (omega (arith, none_left)))
      ]
