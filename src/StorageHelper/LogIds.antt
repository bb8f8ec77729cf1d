-- ===== src/StorageHelper/LogIds.antt =====
-- `get_key_log_ids` of openraft/src/storage/helper.rs: the key log ids of a log of which a part is purged.
use async_raft.Base.{
  ℕ, suc, ◌+◌, ◌-◌, ◌*◌, ◌<◌, ◌≤◌, ◌≡◌, refl, sym, ◌∙◌, false, List, [], ◌∷◌, Option, none, some,
  if◌then◌else◌, arith, Bool-cases, inl, inr, u64_mod, add64_lem,
}
use async_raft.Base.Order.{◌=?◌, option_ord, nat_ord, =?→eq}
use async_raft.Vote.{LeaderId, leader_id_ord}
use async_raft.LogId.{LogId, next_index, index_of}
use async_raft.LogIdList.{ref_at}
use async_raft.LogIdList.Lookup.{leader_from, leader_at, Ascending, ref_at_lem}
use async_raft.LogIdList.Loading.{Loaded, loaded, storage_error, get_key_log_ids}
use async_raft.LogIdList.Bisection.{stored, Stores}
use async_raft.LogIdList.KeyLogIds.{get_key_log_ids-ref_at}

-- The purged log id takes the place of the first one if they have the same leader.
unfoldable pub add_purged : LogId → List LogId → List LogId
add_purged p [] = []
add_purged p (k ∷ []) = p ∷ k ∷ []
add_purged p (k ∷ l ∷ ks) = if p.leader_id =? k.leader_id then p ∷ l ∷ ks else p ∷ k ∷ l ∷ ks

abbrev pub with_purged : Option LogId → Loaded → Loaded
with_purged (some p) (loaded ks) = loaded (add_purged p ks)
with_purged _ result = result

unfoldable pub load_from : (ℕ → Option LogId) → ℕ → Option LogId → LogId → Option LogId → Loaded
load_from get rounds purged last none = storage_error
load_from get rounds purged last (some first) =
    with_purged purged (get_key_log_ids get rounds first last)

unfoldable pub load_key_log_ids : (ℕ → Option LogId) → ℕ → Option LogId → Option LogId → Loaded
load_key_log_ids get rounds purged none = loaded []
load_key_log_ids get rounds purged (some last) =
    if index_of purged =? some last.index
    then loaded (last ∷ [])
    else load_from get rounds purged last (get (next_index purged))

-- The purged log id before a list that starts right after it.
purged-first :
    (p k : LogId) (ks : List LogId) (i : ℕ)
    → k.index ≤ i
    → p.index < i
    → leader_from none (p ∷ k ∷ ks) i ≡ leader_from none (k ∷ ks) i
purged-first p k ks i h l = ground (arith, h, l)

purged-replaces :
    (p k l : LogId) (ks : List LogId) (i : ℕ)
    → Ascending (k ∷ l ∷ ks)
    → p.leader_id ≡ k.leader_id
    → k.index ≤ i
    → p.index < i
    → leader_from none (p ∷ l ∷ ks) i ≡ leader_from none (k ∷ l ∷ ks) i
purged-replaces p k l ks i (asc, _) e h b = rw e (ground (arith, asc, h, b))

pub starts-before :
    (k : LogId) (ks : List LogId) (i : ℕ) (d : LeaderId)
    → leader_from none (k ∷ ks) i ≡ some d
    → k.index ≤ i
starts-before k ks i d h = ground (arith, h)

-- After the purged log id the list stands for the same leaders.
add_purged-after :
    (p : LogId) (ks : List LogId) (i a : ℕ) (d : LeaderId)
    → Ascending ks
    → leader_at ks a ≡ some d
    → a ≤ i
    → p.index < a
    → leader_at (add_purged p ks) i ≡ leader_at ks i
unfolding add_purged
add_purged-after p [] i a d s h l b = refl
add_purged-after p (k ∷ []) i a d s h l b =
    let before = starts-before k [] a d h in
    purged-first p k [] i (omega (arith, before)) (omega arith)
add_purged-after p (k ∷ c ∷ ks) i a d s h l b =
    let before = starts-before k (c ∷ ks) a d h in
    elim (Bool-cases (p.leader_id =? k.leader_id)) [
      | inl same ↦ rw same (
          purged-replaces p k c ks i s (=?→eq {A = LeaderId} p.leader_id k.leader_id same)
            (omega (arith, before)) (omega arith))
      | inr other ↦ rw other (purged-first p k (c ∷ ks) i (omega (arith, before)) (omega arith))
    ]

add_purged-own :
    (p k : LogId) (ks : List LogId) → leader_at (add_purged p (k ∷ ks)) p.index ≡ some p.leader_id
unfolding add_purged
add_purged-own p k [] = ground arith
add_purged-own p k (c ∷ ks) = ground arith

add_purged-first :
    (p : LogId) (ks : List LogId) (a : ℕ) (d : LeaderId)
    → leader_at ks a ≡ some d
    → leader_at (add_purged p ks) p.index ≡ some p.leader_id
add_purged-first p [] a d h = absurd cc
add_purged-first p (k ∷ ks) a d h = add_purged-own p k ks

module _ (get : ℕ → Option LogId) (log : ℕ → LeaderId) (a b : ℕ) (s : Stores get log a b)
    (small : b + b < u64_mod) where
  -- A log that is stored after a purged log id is loaded, by enough rounds: the result has the leader of
  -- the purged log id at its index, and the leader of the stored log at every index after it.
  pub load_key_log_ids-ref_at :
      (rounds : ℕ) (p : LogId)
      → suc p.index ≡ a
      → a ≤ b
      → 2 * (b - a) + 1 ≤ rounds
      → (ks : List LogId) × (load_key_log_ids get rounds (some p) (some (stored log b)) ≡ loaded ks)
        × (ref_at ks p.index ≡ some p.leader_id)
        × ((i : ℕ) → a ≤ i → i ≤ b → ref_at ks i ≡ some (log i))
  unfolding load_key_log_ids load_from
  load_key_log_ids-ref_at rounds p after ab enough =
      let (ks, e, asc, covers) = get_key_log_ids-ref_at get log a b s small rounds ab enough in
      let start : next_index (some p) ≡ a =
        add64_lem p.index 1 (omega (arith, after, ab, small)) ∙ omega (arith, after) in
      let differs : (index_of (some p) =? some b) ≡ false = ground (arith, after, ab) in
      let first = sym (ref_at_lem ks a) ∙ covers a (omega arith) ab in
      (
        add_purged p ks,
        rw (differs, start, s.answers a (omega arith) ab, e) refl,
        ref_at_lem (add_purged p ks) p.index ∙ add_purged-first p ks a (log a) first,
        λ i l h.
            ref_at_lem (add_purged p ks) i
            ∙ add_purged-after p ks i a (log a) asc first l (omega (arith, after))
            ∙ sym (ref_at_lem ks i)
            ∙ covers i l h,
      )
