-- ===== src/LogIdList/InEffect.antt =====
-- The leader that is in effect at an index, by key log ids of which the last one may be missing: what
-- `get_key_log_ids` of openraft/src/engine/log_id_list.rs collects.
use async_raft.Base.{
  ℕ, suc, ◌<◌, ◌≤◌, ◌≡◌, refl, List, [], ◌∷◌, ◌++◌, Option, some, if◌then◌else◌, ltb, All, arith,
  last_of,
}
use async_raft.Vote.{LeaderId}
use async_raft.LogId.{LogId}
use async_raft.LogIdList.Lookup.{leader_from, Ascending}

abbrev pub in_effect : Option LeaderId → List LogId → ℕ → Option LeaderId
in_effect before [] i = before
in_effect before (k ∷ ks) i =
    let rest = in_effect (some k.leader_id) ks i in if ltb i k.index then before else rest

abbrev pub Below : ℕ → List LogId → Type 0
Below m ks = All (λ (k : LogId). k.index < m) ks

pub Below-weaken : (m n : ℕ) (ks : List LogId) → m ≤ n → Below m ks → Below n ks
Below-weaken m n [] le b = tt
Below-weaken m n (k ∷ ks) le (h, b) = (omega arith, Below-weaken m n ks le b)

pub Below-add :
    (m : ℕ) (ks : List LogId) (n : LogId) → Below m ks → n.index < m → Below m (ks ++ n ∷ [])
Below-add m [] n b h = (h, tt)
Below-add m (k ∷ ks) n (l, b) h = (l, Below-add m ks n b h)

pub Ascending-add :
    (ks : List LogId) (n : LogId) → Ascending ks → Below n.index ks → Ascending (ks ++ n ∷ [])
Ascending-add [] n s b = tt
Ascending-add (a ∷ []) n s (h, b) = (h, tt)
Ascending-add (a ∷ c ∷ ks) n (h, s) (l, b) = (h, Ascending-add (c ∷ ks) n s b)

pub Below-last : (m : ℕ) (k : LogId) (ks : List LogId) → Below m (k ∷ ks) → (last_of k ks).index < m
Below-last m k [] (h, b) = h
Below-last m k (c ∷ ks) (h, b) = Below-last m c ks b

pub last_of-Below :
    (k : LogId) (ks : List LogId) (m : ℕ)
    → Ascending (k ∷ ks)
    → (last_of k ks).index < m
    → Below m (k ∷ ks)
last_of-Below k [] m s h = (h, tt)
last_of-Below k (c ∷ ks) m (l, s) h =
    let (b, bs) = last_of-Below c ks m s h in (omega arith, (b, bs))

pub in_effect-add :
    (before : Option LeaderId) (ks : List LogId) (n : LogId) (i : ℕ)
    → Below n.index ks
    → in_effect before (ks ++ n ∷ []) i
      ≡ (if ltb i n.index then in_effect before ks i else some n.leader_id)
in_effect-add before [] n i b = refl
in_effect-add before (k ∷ ks) n i (h, b) =
    ground (arith, h, in_effect-add (some k.leader_id) ks n i b)

-- After all of the log ids the last one is in effect.
pub in_effect-last :
    (before : Option LeaderId) (k : LogId) (ks : List LogId) (i : ℕ)
    → Below (suc i) (k ∷ ks)
    → in_effect before (k ∷ ks) i ≡ some (last_of k ks).leader_id
in_effect-last before k [] i (h, b) = ground (arith, h)
in_effect-last before k (c ∷ ks) i (h, b) =
    ground (arith, h, in_effect-last (some k.leader_id) c ks i b)

-- Up to the last log id the leader in effect is the one that the list stands for.
pub leader_from-in_effect :
    (before : Option LeaderId) (k : LogId) (ks : List LogId) (i : ℕ)
    → Ascending (k ∷ ks)
    → i ≤ (last_of k ks).index
    → leader_from before (k ∷ ks) i ≡ in_effect before (k ∷ ks) i
leader_from-in_effect before k [] i s le = ground (arith, le)
leader_from-in_effect before k (c ∷ ks) i (l, s) le =
    ground (arith, l, leader_from-in_effect (some k.leader_id) c ks i s le)
