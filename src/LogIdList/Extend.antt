-- ===== src/LogIdList/Extend.antt =====
-- `extend` of log_id_list.rs with the ids of consecutive logs.
use async_raft.Base.{
  ℕ, suc, ◌<◌, ◌≡◌, refl, ap, sym, ◌∙◌, Bool, true, false, not, ◌&&◌, List, [], ◌∷◌, Option, none,
  some, if◌then◌else◌, ltb, ◌==◌, arith, last_of, get_last?, Bool-cases, inl, inr, ℕ_discrete,
}
use async_raft.Base.Order.{◌=?◌, =?→eq, =?_refl, option_ord}
use async_raft.Vote.{LeaderId, leader_id_ord}
use async_raft.LogId.{LogId, log_id_ord}
use async_raft.LogIdList.{ref_at, append, extend, extend_one}
use async_raft.LogIdList.Lookup.{leader_at, Ascending, ref_at_lem}
use async_raft.LogIdList.Edits.{with_new, append-leader_from, append-Ascending}

-- The indexes of the new logs follow each other.
abbrev pub Consecutive : ℕ → List LogId → Type 0
Consecutive m [] = Unit {0}
Consecutive m (n ∷ ns) = (n.index ≡ m) × Consecutive (suc m) ns

-- The leader that the new logs give to an index.
abbrev pub given : Option LeaderId → List LogId → ℕ → Option LeaderId
given old [] i = old
given old (n ∷ ns) i = let rest = given old ns i in if n.index == i then some n.leader_id else rest

pub append-shape :
    (a : LogId) (ks : List LogId) (n : LogId)
    → (ks' : List LogId) × (append (a ∷ ks) n ≡ a ∷ ks') × (last_of a ks' ≡ n)
unfolding append
append-shape a [] n = (n ∷ [], refl, refl)
append-shape a (b ∷ []) n = elim (Bool-cases (a.leader_id =? b.leader_id)) [
  | inl e ↦ rw e (n ∷ [], refl, refl)
  | inr e ↦ rw e (b ∷ n ∷ [], refl, refl)
]
append-shape a (b ∷ c ∷ ks) n =
    let (ks', e, l) = append-shape b (c ∷ ks) n in (b ∷ ks', ap (λ t. a ∷ t) e, l)

extend_one_lem :
    (a : LogId) (ks : List LogId) (n : LogId) (at_end : Bool)
    → (last_of a ks).index < n.index
    → extend_one (a ∷ ks) n at_end ≡ (
        if ((last_of a ks).leader_id =? n.leader_id) && not at_end
        then a ∷ ks
        else append (a ∷ ks) n)
unfolding extend_one
extend_one_lem a ks n at_end h =
    let (ks', e, l) = append-shape a ks n in
    ground (
      arith,
      e,
      l,
      ap (λ t. get_last? t) e,
      =?_refl {A = LogId} n,
      =?→eq {A = LogId} (last_of a ks) n,
    )

given-before :
    (old : Option LeaderId) (m : ℕ) (ns : List LogId) (i : ℕ)
    → Consecutive m ns
    → i < m
    → given old ns i ≡ old
given-before old m [] i c h = refl
given-before old m (n ∷ ns) i c h = ground (arith, given-before old (suc m) ns i c.1)

-- The leaders before the log `m`, where the logs after the last stored one belong to its leader.
abbrev pub covered : LogId → ℕ → Option LeaderId → ℕ → Option LeaderId
covered l m old i = if ltb l.index i && ltb i m then some l.leader_id else old

covered-given :
    (l n : LogId) (m : ℕ) (old : Option LeaderId) (ns : List LogId) (i : ℕ)
    → l.leader_id ≡ n.leader_id
    → l.index < m
    → n.index ≡ m
    → Consecutive (suc m) ns
    → given (covered l (suc m) old i) ns i ≡ given (covered l m old i) (n ∷ ns) i
covered-given l n m old ns i e h k c = elim (ℕ_discrete i m) [
  | yes t ↦ ground (arith, given-before (covered l (suc m) old i) (suc m) ns i c)
  | no f ↦
      let same : covered l (suc m) old i ≡ covered l m old i = ground arith in
      ground (arith, ap (λ o. given o ns i) same)
]

new-given :
    (l n : LogId) (m : ℕ) (old : Option LeaderId) (ns : List LogId) (i : ℕ)
    → l.index < m
    → n.index ≡ m
    → Consecutive (suc m) ns
    → given (covered n (suc m) (with_new old l n i) i) ns i ≡ given (covered l m old i) (n ∷ ns) i
new-given l n m old ns i h k c = elim (ℕ_discrete i m) [
  | yes t ↦ ground (arith, given-before (covered n (suc m) (with_new old l n i) i) (suc m) ns i c)
  | no f ↦
      let same : covered n (suc m) (with_new old l n i) i ≡ covered l m old i = ground arith in
      ground (arith, ap (λ o. given o ns i) same)
]

extend-leader_at :
    (a : LogId) (ks : List LogId) (m : ℕ) (n : LogId) (ns : List LogId) (i : ℕ)
    → Ascending (a ∷ ks)
    → (last_of a ks).index < m
    → Consecutive m (n ∷ ns)
    → leader_at (extend (a ∷ ks) (n ∷ ns)) i
      ≡ given (covered (last_of a ks) m (leader_at (a ∷ ks) i) i) (n ∷ ns) i
unfolding extend
extend-leader_at a ks m n [] i s h c =
    let e = extend_one_lem a ks n true (omega (arith, c.0)) in
    ap (λ t. leader_at t i) (e ∙ ground arith)
    ∙ append-leader_from none a ks n i s (omega (arith, c.0))
    ∙ ground (arith, c.0)
extend-leader_at a ks m n (n2 ∷ ns) i s h c =
    let l = last_of a ks in
    let one = extend_one_lem a ks n false (omega (arith, c.0)) in
    elim (Bool-cases (l.leader_id =? n.leader_id)) [
      | inl e ↦
          let stays : extend_one (a ∷ ks) n false ≡ a ∷ ks = one ∙ ground (arith, e) in
          ap (λ t. leader_at (extend t (n2 ∷ ns)) i) stays
          ∙ extend-leader_at a ks (suc m) n2 ns i s (omega arith) c.1
          ∙ covered-given l n m (leader_at (a ∷ ks) i) (n2 ∷ ns) i
              (=?→eq {A = LeaderId} l.leader_id n.leader_id e) h c.0 c.1
      | inr e ↦
          let (ks', f, g) = append-shape a ks n in
          let added : extend_one (a ∷ ks) n false ≡ a ∷ ks' = one ∙ ground (arith, e, f) in
          let asc : Ascending (a ∷ ks') =
            rw f at (append-Ascending a ks n s (omega (arith, c.0))) in
          let next = append-leader_from none a ks n i s (omega (arith, c.0)) in
          ap (λ t. leader_at (extend t (n2 ∷ ns)) i) added
          ∙ extend-leader_at a ks' (suc m) n2 ns i asc (ground (arith, g, c.0)) c.1
          ∙ ap (λ x. given (covered x (suc m) (leader_at (a ∷ ks') i) i) (n2 ∷ ns) i) g
          ∙ ap (λ o. given (covered n (suc m) o i) (n2 ∷ ns) i)
              (ap (λ t. leader_at t i) (sym f) ∙ next)
          ∙ new-given l n m (leader_at (a ∷ ks) i) (n2 ∷ ns) i h c.0 c.1
    ]

-- Extending a non-empty ascending list by the ids of at least one consecutive log, the first one right
-- after the last log, gives these logs their leaders and changes the leader of no other log, though
-- only some of the ids are stored.
pub ref_at-extend :
    (a : LogId) (ks : List LogId) (n : LogId) (ns : List LogId) (i : ℕ)
    → Ascending (a ∷ ks)
    → Consecutive (suc (last_of a ks).index) (n ∷ ns)
    → ref_at (extend (a ∷ ks) (n ∷ ns)) i ≡ given (ref_at (a ∷ ks) i) (n ∷ ns) i
ref_at-extend a ks n ns i s c =
    let m = suc (last_of a ks).index in
    let none_between : covered (last_of a ks) m (leader_at (a ∷ ks) i) i ≡ leader_at (a ∷ ks) i =
      ground arith in
    ref_at_lem (extend (a ∷ ks) (n ∷ ns)) i
    ∙ extend-leader_at a ks m n ns i s (omega arith) c
    ∙ ap (λ o. given o (n ∷ ns) i) (none_between ∙ sym (ref_at_lem (a ∷ ks) i))
