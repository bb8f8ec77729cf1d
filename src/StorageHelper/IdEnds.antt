-- ===== src/StorageHelper/IdEnds.antt =====
-- The first and the last log id of the lists that `get_key_log_ids` of openraft/src/storage/helper.rs may load.
use async_raft.Base.{
  ℕ, suc, ◌<◌, ◌≤◌, ◌≡◌, refl, sym, ap, ◌∙◌, true, List, [], ◌∷◌, ◌++◌, Option, some, arith,
  Bool-cases, inl, inr, head?, get_last?, last_of-append,
}
use async_raft.Base.Order.{◌=?◌, ◌≤?◌, option_ord, nat_ord, =?→eq, eq→=?}
use async_raft.Vote.{LeaderId, leader_id_ord}
use async_raft.LogId.{LogId, index_of, log_id_ord}
use async_raft.LogIdList.{ref_at}
use async_raft.LogIdList.Lookup.{ref_at_lem}
use async_raft.LogIdList.Loading.{
  Loaded, loaded, storage_error, unfinished, with_last, get_key_log_ids, bisect,
}
use async_raft.Handler.{Entry}
use async_raft.StorageHelper.LogIds.{add_purged, load_key_log_ids, starts-before}
use async_raft.StorageHelper.Points.{upto}

get_last?-add : (l : LogId) (ks : List LogId) → get_last? (ks ++ l ∷ []) ≡ some l
get_last?-add l [] = refl
get_last?-add l (k ∷ ks) = ap some (last_of-append k ks l)

with_last-last :
    (last : LogId) (r : Loaded) (ks : List LogId)
    → with_last last r ≡ loaded ks
    → get_last? ks ≡ some last
unfolding with_last
with_last-last last storage_error ks h = cc
with_last-last last unfinished ks h = cc
with_last-last last (loaded res) ks h = elim (Bool-cases (get_last? res =? some last)) [
  | inl same ↦
      let e : res ≡ ks = cc (rw same at h) in
      ap get_last? (sym e) ∙ =?→eq {A = Option LogId} (get_last? res) (some last) same
  | inr differs ↦
      let e : res ++ last ∷ [] ≡ ks = cc (rw differs at h) in
      ap get_last? (sym e) ∙ get_last?-add last res
]

pub get_key_log_ids-last :
    (get : ℕ → Option LogId) (rounds : ℕ) (first last : LogId) (ks : List LogId)
    → get_key_log_ids get rounds first last ≡ loaded ks
    → get_last? ks ≡ some last
unfolding get_key_log_ids
get_key_log_ids-last get rounds first last ks h =
    with_last-last last (bisect get rounds ((first, last) ∷ []) []) ks h

-- The purged log id is the first one, and the last one stays.
head?-add_purged : (p k : LogId) (ks : List LogId) → head? (add_purged p (k ∷ ks)) ≡ some p
unfolding add_purged
head?-add_purged p k [] = refl
head?-add_purged p k (l ∷ ks) = ground arith

last-add_purged :
    (p k : LogId) (ks : List LogId) → get_last? (add_purged p (k ∷ ks)) ≡ get_last? (k ∷ ks)
unfolding add_purged
last-add_purged p k [] = refl
last-add_purged p k (l ∷ ks) = ground arith

module _ {N : Type 0} (log : ℕ → Entry N) where
  -- What the list of log ids from the purged one to the last one begins and ends with.
  pub record Ends (ids : List LogId) (low high : ℕ) : Type 0 where
    pub from_zero : low ≡ 0 → (index_of (head? ids) ≤? some 0) ≡ true
    pub from_purged : 0 < low → head? ids ≡ upto log low
    pub last : get_last? ids ≡ upto log high

  -- A log that ends where it is purged.
  pub load-single :
      (get : ℕ → Option LogId) (rounds i : ℕ)
      → load_key_log_ids get rounds (upto log (suc i)) (upto log (suc i))
        ≡ loaded ((log i).log_id ∷ [])
  unfolding load_key_log_ids
  load-single get rounds i =
      let same =
        eq→=? {A = Option ℕ} (some (log i).log_id.index) (some (log i).log_id.index) refl in
      rw same refl

  pub single-Ends : (i : ℕ) → Ends ((log i).log_id ∷ []) (suc i) (suc i)
  single-Ends i = record {
    from_zero = λ h. absurd (omega arith);
    from_purged = λ h. refl;
    last = refl;
  }

  pub empty-Ends : Ends [] 0 0
  empty-Ends = record { from_zero = λ h. refl; from_purged = λ h. refl; last = refl }

  -- From the first log on, nothing is purged.
  pub whole-Ends :
      (ids : List LogId) (d : LeaderId) (high : ℕ)
      → ref_at ids 0 ≡ some d
      → get_last? ids ≡ upto log high
      → Ends ids 0 high
  whole-Ends [] d high h l = record {
    from_zero = λ _. refl;
    from_purged = λ q. absurd (omega arith);
    last = l;
  }
  whole-Ends (k ∷ ks) d high h l =
      let start : k.index ≤ 0 = starts-before k ks 0 d (sym (ref_at_lem (k ∷ ks) 0) ∙ h) in
      record {
        from_zero = λ _. ground (arith, start);
        from_purged = λ q. absurd (omega arith);
        last = l;
      }

  pub purged-Ends :
      (ids : List LogId) (low high : ℕ)
      → get_last? ids ≡ upto log (suc high)
      → Ends (add_purged (log low).log_id ids) (suc low) (suc high)
  purged-Ends [] low high l = absurd cc
  purged-Ends (k ∷ ks) low high l = record {
    from_zero = λ h. absurd (omega arith);
    from_purged = λ h. head?-add_purged (log low).log_id k ks;
    last = last-add_purged (log low).log_id k ks ∙ l;
  }
