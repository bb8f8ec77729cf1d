-- ===== src/StorageHelper/LoadedIds.antt =====
-- The first and the last of the key log ids that `get_key_log_ids` of openraft/src/storage/helper.rs
-- loads.
use async_raft.Base.{
  ℕ, zero, suc, ◌+◌, ◌-◌, ◌*◌, ◌<◌, ◌≤◌, ◌≡◌, refl, sym, ap, ◌∙◌, subst, false, List, [], ◌∷◌,
  Option, none, some, arith, u64_mod, dec_lt, get_last?,
}
use async_raft.Base.Order.{◌=?◌, option_ord, nat_ord}
use async_raft.Vote.{LeaderId, leader_id_ord}
use async_raft.LogId.{LogId, index_of, log_id_ord, LogId-fields_eq}
use async_raft.LogIdList.{ref_at}
use async_raft.LogIdList.Loading.{loaded}
use async_raft.LogIdList.Bisection.{stored, Stores}
use async_raft.LogIdList.KeyLogIds.{get_key_log_ids-ref_at}
use async_raft.Handler.{Entry}
use async_raft.StorageHelper.LogIds.{
  add_purged, load_key_log_ids, load_from, load_key_log_ids-ref_at,
}
use async_raft.StorageHelper.InitialState.{get_log_id}
use async_raft.StorageHelper.Slices.{Reads, slice}
use async_raft.StorageHelper.Points.{upto, Proposed, next_index-upto}
use async_raft.StorageHelper.IdEnds.{
  get_key_log_ids-last, Ends, load-single, single-Ends, empty-Ends, whole-Ends, purged-Ends,
}

loaded_inj : {ks ls : List LogId} → loaded ks ≡ loaded ls → ks ≡ ls
loaded_inj e = cc

abbrev leaders_of : {N : Type 0} → (ℕ → Entry N) → ℕ → LeaderId
leaders_of log i = (log i).log_id.leader_id

-- The key log ids from a point where the log is purged to a point where it ends are loaded.
abbrev pub Ids :
    {N : Type 0} → (ℕ → ℕ → Option (List (Entry N))) → (ℕ → Entry N) → ℕ → ℕ → ℕ → Type 0
Ids read log a b rounds =
    (ids : List LogId) × (load_key_log_ids (get_log_id read) rounds (upto log a) (upto log b)
      ≡ loaded ids)
    × Ends log ids a b
    × ((i : ℕ) → a ≤ i → i < b → ref_at ids i ≡ some (leaders_of log i))

module _ {N : Type 0} (read : ℕ → ℕ → Option (List (Entry N))) (log : ℕ → Entry N)
    (low high top : ℕ) (r : Reads read log low high) (p : Proposed log top) (inside : high ≤ top)
    (small : top + top < u64_mod) where
  log_id-stored : (i : ℕ) → i < top → (log i).log_id ≡ stored (leaders_of log) i
  log_id-stored i h =
      LogId-fields_eq (log i).log_id (stored (leaders_of log) i) refl (p.indexed i h)

  get-stored : (i : ℕ) → low ≤ i → i < high → get_log_id read i ≡ some (stored (leaders_of log) i)
  get-stored i l h =
      let next : i + 1 ≡ suc i = omega arith in
      let one : read i (suc i) ≡ some (slice log i 1) =
        ap (λ j. read i j) (sym next) ∙ r.answers i 1 l (omega (arith, h)) in
      rw one (ap some (log_id-stored i (omega arith)))

  get-Stores : (h : ℕ) → suc h ≡ high → Stores (get_log_id read) (leaders_of log) low h
  get-Stores h e = record {
    answers = λ i l b. get-stored i l (omega arith);
    grows = λ i j l q b. p.grows i j q (omega (arith, e, inside, b));
  }

  before-differs :
      (i h : ℕ) → i ≤ h → h < top → (index_of (upto log i) =? some (log h).log_id.index) ≡ false
  before-differs zero h l b = refl
  before-differs (suc i) h l b = ground (arith, p.indexed i (omega arith), p.indexed h b)

  load_before :
      (rounds h : ℕ)
      → suc h ≡ high
      → low ≤ h
      → load_key_log_ids (get_log_id read) rounds (upto log low) (upto log (suc h))
        ≡ load_from
            (get_log_id read)
            rounds
            (upto log low)
            (stored (leaders_of log) h)
            (some (stored (leaders_of log) low))
  unfolding load_key_log_ids
  load_before rounds h e l =
      let b : h < top = omega (arith, e, inside) in
      rw
        (
          before-differs low h l b,
          next_index-upto log top p low (omega (arith, l, b)) (omega (arith, small, b)),
          get-stored low (omega arith) (omega (arith, l, e)),
          log_id-stored h b,
        )
        refl

  load-whole :
      (rounds h : ℕ)
      → suc h ≡ high
      → low ≡ 0
      → 2 * high + 1 ≤ rounds
      → Ids read log low (suc h) rounds
  unfolding load_from
  load-whole rounds h e z enough =
      let (ks, q, asc, covers) =
        get_key_log_ids-ref_at (get_log_id read) (leaders_of log) low h (get-Stores h e)
          (omega (arith, e, inside, small)) rounds (omega (arith, z)) (omega (arith, e, enough)) in
      let last : get_last? ks ≡ upto log (suc h) =
        get_key_log_ids-last (get_log_id read) rounds (stored (leaders_of log) low)
          (stored (leaders_of log) h) ks q
        ∙ ap some (sym (log_id-stored h (omega (arith, e, inside)))) in
      let from =
        ap
          (λ j.
            load_from (get_log_id read) rounds (upto log j) (stored (leaders_of log) h)
              (some (stored (leaders_of log) low)))
          z in
      (
        ks,
        load_before rounds h e (omega (arith, z)) ∙ from ∙ rw q refl,
        subst (λ j. Ends log ks j (suc h)) (sym z)
            (whole-Ends log ks (leaders_of log 0) (suc h)
              (covers 0 (omega (arith, z)) (omega arith)) last),
        λ i l b. covers i l (omega arith),
      )

  load-purged :
      (rounds h l : ℕ)
      → suc h ≡ high
      → suc l ≡ low
      → low ≤ h
      → 2 * high + 1 ≤ rounds
      → Ids read log (suc l) (suc h) rounds
  unfolding load_from
  load-purged rounds h l e q b enough =
      let size : 2 * (h - low) + 1 ≤ rounds = omega (arith, e, enough) in
      let few : h + h < u64_mod = omega (arith, e, inside, small) in
      let purged : LogId = (log l).log_id in
      let (ks, k, asc, _) =
        get_key_log_ids-ref_at (get_log_id read) (leaders_of log) low h (get-Stores h e) few rounds
          b size in
      let (ids, k', own, covers) =
        load_key_log_ids-ref_at (get_log_id read) (leaders_of log) low h (get-Stores h e) few rounds
          purged (ap suc (p.indexed l (omega (arith, q, b, e, inside))) ∙ q) b size in
      let last : get_last? ks ≡ upto log (suc h) =
        get_key_log_ids-last (get_log_id read) rounds (stored (leaders_of log) low)
          (stored (leaders_of log) h) ks k
        ∙ ap some (sym (log_id-stored h (omega (arith, e, inside)))) in
      let start =
        ap (λ j. load_key_log_ids (get_log_id read) rounds (upto log j) (upto log (suc h))) q in
      let from =
        ap
          (λ j.
            load_from (get_log_id read) rounds (upto log j) (stored (leaders_of log) h)
              (some (stored (leaders_of log) low)))
          (sym q) in
      let found : load_key_log_ids (get_log_id read) rounds (upto log (suc l)) (upto log (suc h))
          ≡ loaded (add_purged purged ks) =
        start ∙ load_before rounds h e b ∙ from ∙ rw k refl in
      let given =
        ap (λ o. load_key_log_ids (get_log_id read) rounds (some purged) (some o))
          (log_id-stored h (omega (arith, e, inside))) in
      let same = loaded_inj (sym (given ∙ k') ∙ found) in
      (
        add_purged purged ks,
        found,
        purged-Ends log ks l h last,
        λ i a c. ap (λ z. ref_at z i) (sym same) ∙ covers i (omega (arith, q)) (omega arith),
      )

load-empty :
    (get : ℕ → Option LogId) (rounds : ℕ) → load_key_log_ids get rounds none none ≡ loaded []
unfolding load_key_log_ids
load-empty get rounds = refl

-- The key log ids of a log are loaded, by enough rounds.
pub load-Ids :
    {N : Type 0} (read : ℕ → ℕ → Option (List (Entry N))) (log : ℕ → Entry N) (low high top : ℕ)
    (r : Reads read log low high) (p : Proposed log top) (inside : high ≤ top)
    (small : top + top < u64_mod) (rounds : ℕ)
    → low ≤ high
    → 2 * high + 1 ≤ rounds
    → Ids read log low high rounds
load-Ids read log zero zero top r p inside small rounds o enough =
    ([], load-empty (get_log_id read) rounds, empty-Ends log, λ i a b. absurd (omega arith))
load-Ids read log (suc l) zero top r p inside small rounds o enough = absurd (omega arith)
load-Ids read log zero (suc h) top r p inside small rounds o enough =
    load-whole read log zero (suc h) top r p inside small rounds h refl refl enough
load-Ids read log (suc l) (suc h) top r p inside small rounds o enough = elim (dec_lt l h) [
  | yes longer ↦
      load-purged read log (suc l) (suc h) top r p inside small rounds h l refl refl
        (omega (arith, longer)) enough
  | no one ↦
      let e : l ≡ h = omega (arith, one) in
      subst (λ j. Ids read log (suc l) (suc j) rounds) e
        (
          (log l).log_id ∷ [],
          load-single log (get_log_id read) rounds l,
          single-Ends log l,
          λ i a b. absurd (omega arith),
        )
]
