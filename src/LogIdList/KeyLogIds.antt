-- ===== src/LogIdList/KeyLogIds.antt =====
-- `get_key_log_ids` of openraft/src/engine/log_id_list.rs ends, with a list that stands for the leaders
-- of the stored logs.
use async_raft.Base.{
  ℕ, zero, suc, ◌+◌, ◌-◌, ◌*◌, ◌<◌, ◌≤◌, ◌≡◌, inl, inr, refl, sym, ap, ◌∙◌, subst, true, false,
  List, [], ◌∷◌, ◌++◌, Option, none, some, ltb, arith, last_of, last_of-append, get_last?, u64_mod,
  Bool-cases, true-false, dec_lt, some_inj,
}
use async_raft.Base.Order.{◌=?◌, option_ord, =?→eq, eq→=?}
use async_raft.Vote.{LeaderId, leader_id_ord}
use async_raft.LogId.{LogId, log_id_ord, leader_of}
use async_raft.LogIdList.{ref_at}
use async_raft.LogIdList.Lookup.{Ascending, ref_at_lem}
use async_raft.LogIdList.Loading.{loaded, push_new, visit, bisect, with_last, get_key_log_ids}
use async_raft.LogIdList.InEffect.{
  in_effect, Below, Below-weaken, Below-add, Below-last, last_of-Below, in_effect-add,
  leader_from-in_effect, Ascending-add,
}
use async_raft.LogIdList.Bisection.{stored, Stores, Good, push_new-Good, last_leader}
use async_raft.LogIdList.Rounds.{through}

same_log_id :
    (l : LogId) (d : LeaderId) (i : ℕ)
    → l.leader_id ≡ d
    → l.index ≡ i
    → l ≡ record { leader_id = d; index = i }
same_log_id l d i e q = rw (← e, ← q) refl

module _ (get : ℕ → Option LogId) (log : ℕ → LeaderId) (a b : ℕ) (s : Stores get log a b)
    (small : b + b < u64_mod) where
  covers-ref_at :
      (res : List LogId)
      → a ≤ b
      → Good get log a b res b
      → get_last? res ≡ some (stored log b)
      → (i : ℕ) → a ≤ i
      → i ≤ b
      → ref_at res i ≡ some (log i)
  covers-ref_at res ab g last i p q =
      let end : last_of g.first g.others ≡ stored log b =
        some_inj (sym (ap get_last? g.shape) ∙ last) in
      let asc : Ascending (g.first ∷ g.others) = subst Ascending g.shape g.ascending in
      let inside : i ≤ (last_of g.first g.others).index = rw end q in
      ref_at_lem res i
      ∙ rw g.shape (
          leader_from-in_effect none g.first g.others i asc inside
          ∙ sym (ap (λ l. in_effect none l i) g.shape)
          ∙ g.covers i p q)

  bisect-Good :
      (rounds : ℕ)
      → a ≤ b
      → 2 * (b - a) + 1 ≤ rounds
      → (res : List LogId) × (bisect get rounds ((stored log a, stored log b) ∷ []) [] ≡ loaded res)
        × Good get log a b res b
  unfolding bisect visit
  bisect-Good zero ab enough = absurd (omega arith)
  bisect-Good (suc rounds) ab enough = elim (dec_lt a b) [
    | yes longer ↦
        let (f, res, e, good, cost) =
          through get log a b s small (b - a) (suc rounds) a b [] [] (omega arith) longer
            (omega arith) (omega (arith, longer)) (omega arith) (inl (refl, refl)) in
        (res, e, good)
    | no one ↦
        let q : a ≡ b = omega arith in
        let pushed = push_new-Good get log a b [] a (omega arith) (inl (refl, refl)) in
        let same : (log a =? log b) ≡ true = eq→=? {A = LeaderId} (log a) (log b) (ap log q) in
        (
          push_new [] (stored log a),
          rw same refl,
          subst (λ z. Good get log a b (push_new [] (stored log a)) z) q pushed,
        )
  ]

  last_stored :
      (res : List LogId)
      → a ≤ b
      → Good get log a b res b
      → (get_last? res =? some (stored log b)) ≡ false
      → Good get log a b (res ++ stored log b ∷ []) b
  last_stored res ab g differs =
      let last : LogId = last_of g.first g.others in
      let is_last : get_last? res ≡ some last = ap get_last? g.shape in
      let leader : last.leader_id ≡ log b =
        some_inj (sym (ap leader_of is_last) ∙ last_leader get log a b res b ab g) in
      let bound : last.index < suc b =
        Below-last (suc b) g.first g.others (subst (Below (suc b)) g.shape g.below) in
      elim (dec_lt last.index b) [
        | no end ↦
            let index : last.index ≡ b = omega (arith, bound) in
            let same : last ≡ stored log b = same_log_id last (log b) b leader index in
            absurd (
              true-false
                (eq→=? {A = Option LogId} (get_last? res) (some (stored log b))
                  (is_last ∙ ap some same))
                differs)
        | yes before ↦
            let below : Below b res =
              subst (Below b) (sym g.shape)
                (last_of-Below g.first g.others b (subst Ascending g.shape g.ascending) before) in
            record {
              first = g.first;
              others = g.others ++ stored log b ∷ [];
              shape = ap (λ l. l ++ stored log b ∷ []) g.shape;
              ascending = Ascending-add res (stored log b) g.ascending below;
              below =
                  Below-add (suc b) res (stored log b)
                    (Below-weaken b (suc b) res (omega arith) below) (omega arith);
              covers = λ i p q.
                  in_effect-add none res (stored log b) i below ∙ elim (Bool-cases (ltb i b)) [
                    | inl early ↦ rw early (g.covers i p q)
                    | inr here ↦
                        let same : b ≡ i = ground (arith, here, q) in
                        rw here (ap (λ j. some (log j)) same)
                  ];
            }
      ]

  -- If the storage has the logs from the first to the last index, by leaders that do not decrease, then
  -- as many rounds as twice the distance of the indexes, and one, are enough. The result is ascending,
  -- and it has the leader of the stored log at every index from the first to the last.
  pub get_key_log_ids-ref_at :
      (rounds : ℕ)
      → a ≤ b
      → 2 * (b - a) + 1 ≤ rounds
      → (ks : List LogId) × (get_key_log_ids get rounds (stored log a) (stored log b) ≡ loaded ks)
        × Ascending ks
        × ((i : ℕ) → a ≤ i → i ≤ b → ref_at ks i ≡ some (log i))
  unfolding get_key_log_ids with_last
  get_key_log_ids-ref_at rounds ab enough =
      let (res, e, good) = bisect-Good rounds ab enough in
      elim (Bool-cases (get_last? res =? some (stored log b))) [
        | inl same ↦ (
          res,
          rw (e, same) refl,
          good.ascending,
          covers-ref_at res ab good
              (=?→eq {A = Option LogId} (get_last? res) (some (stored log b)) same),
        )
        | inr differs ↦
            let full = last_stored res ab good differs in
            (
              res ++ stored log b ∷ [],
              rw (e, differs) refl,
              full.ascending,
              covers-ref_at (res ++ stored log b ∷ []) ab full (
                  rw (good.shape) (ap some (last_of-append good.first good.others (stored log b)))),
            )
      ]
