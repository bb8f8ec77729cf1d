-- ===== src/Membership/State/Invariant.antt =====
-- The order of the committed and the effective membership (membership_state/mod.rs, change_handler.rs).
use async_raft.Base.{
  ℕ, ◌≡◌, refl, ◌↔◌, inl, inr, Bool, true, false, Option, some, if◌then◌else◌, Bool-cases,
}
use async_raft.Base.Order.{
  option_ord, nat_ord, ◌≤?◌, ◌<?◌, le?_refl, le?_trans, lt?→le?, not_lt?→le?, le?_total,
}
use async_raft.LogId.{LogId, log_id_ord, index_of}
use async_raft.Membership.State.{
  EffectiveMembership, MembershipState, log_id, commit, append, truncate, update_committed, Eq,
}

module _ {N : Type 0} where
  -- What `MembershipState::validate` checks.
  pub record Inv (s : MembershipState N) : Type 0 where
    pub by_id : (log_id s.committed ≤? log_id s.effective) ≡ true
    pub by_index : (index_of (log_id s.committed) ≤? index_of (log_id s.effective)) ≡ true

  pub refl-Inv : (e : EffectiveMembership N) → Inv (record { committed = e; effective = e })
  refl-Inv e = record {
    by_id = le?_refl {A = Option LogId} (log_id e);
    by_index = le?_refl {A = Option ℕ} (index_of (log_id e));
  }

  pub commit-Inv : (s : MembershipState N) (id : Option LogId) → Inv s → Inv (commit s id)
  unfolding commit
  commit-Inv s id v = elim (Bool-cases (log_id s.effective ≤? id)) [
    | inl e ↦ rw e (refl-Inv s.effective)
    | inr e ↦ rw e v
  ]

  append-Inv :
      (s : MembershipState N) (m : EffectiveMembership N)
      → (log_id s.effective <? log_id m) ≡ true
      → (index_of (log_id s.effective) <? index_of (log_id m)) ≡ true
      → Inv (append s m)
  unfolding append
  append-Inv s m h k = record {
    by_id = lt?→le? {A = Option LogId} (log_id s.effective) (log_id m) h;
    by_index = lt?→le? {A = Option ℕ} (index_of (log_id s.effective)) (index_of (log_id m)) k;
  }

  truncate-Inv : (s : MembershipState N) (since : ℕ) → Inv s → Inv (truncate s since).0
  unfolding truncate
  truncate-Inv s since v = elim (Bool-cases (some since ≤? index_of (log_id s.effective))) [
    | inl e ↦ rw e (refl-Inv s.committed)
    | inr e ↦ rw e v
  ]

  -- Committing, truncating, and appending a membership that is later than the effective one keep the
  -- committed membership at or before the effective one, by log id and by index.
  pub operations-Inv :
      (s : MembershipState N) (id : Option LogId) (since : ℕ) (m : EffectiveMembership N)
      → Inv s
      → Inv (commit s id)
        × Inv (truncate s since).0
        × ((log_id s.effective <? log_id m) ≡ true
            → (index_of (log_id s.effective) <? index_of (log_id m)) ≡ true
            → Inv (append s m))
  operations-Inv s id since m v = (commit-Inv s id v, truncate-Inv s since v, append-Inv s m)

  -- A membership that is appended and then truncated leaves the membership from before it in effect,
  -- which by then is the committed one.
  pub truncate-append :
      (s : MembershipState N) (m : EffectiveMembership N) (since : ℕ)
      → (some since ≤? index_of (log_id m)) ≡ true
      → (truncate (append s m) since)
        ≡ (record { committed = s.effective; effective = s.effective }, some s.effective)
  unfolding truncate append
  truncate-append s m since h = rw h

module _ {N : Type 0} (s : MembershipState N) (c : EffectiveMembership N) (v : Inv s) where
  abbrev pub agrees : Bool → Bool
  agrees newer = if newer then log_id s.committed ≤? log_id c else log_id c ≤? log_id s.effective

  choice-Inv :
      (later newer : Bool)
      → (log_id s.committed <? log_id c) ≡ later
      → (index_of (log_id s.effective) ≤? index_of (log_id c)) ≡ newer
      → Inv (record {
        committed = if later then c else s.committed;
        effective = if newer then c else s.effective;
      })
        ↔ (agrees newer ≡ true)
  choice-Inv true true t n =
      (λ _. lt?→le? {A = Option LogId} (log_id s.committed) (log_id c) t, λ _. refl-Inv c)
  choice-Inv false true t n = (
    λ i. i.by_id,
    λ h. record {
      by_id = h;
      by_index =
          le?_trans {A = Option ℕ} (index_of (log_id s.committed)) (index_of (log_id s.effective))
            (index_of (log_id c)) v.by_index n;
    },
  )
  choice-Inv true false t n = (
    λ i. i.by_id,
    λ h. record {
      by_id = h;
      by_index = le?_total {A = Option ℕ} (index_of (log_id s.effective)) (index_of (log_id c)) n;
    },
  )
  choice-Inv false false t n = (
    λ _.
        le?_trans {A = Option LogId} (log_id c) (log_id s.committed) (log_id s.effective)
          (not_lt?→le? {A = Option LogId} (log_id s.committed) (log_id c) t) v.by_id,
    λ _. v,
  )

  -- Storing a committed membership keeps the committed one at or before the effective one exactly if
  -- the new one agrees with what is known: it is not before the committed one where it replaces the
  -- effective one by its index, and not after the effective one by log id where its index is smaller.
  pub update_committed-Inv :
      ⦃q : Eq N⦄
      → Inv (update_committed s c).0
        ↔ (agrees (index_of (log_id s.effective) ≤? index_of (log_id c)) ≡ true)
  unfolding update_committed
  update_committed-Inv = choice-Inv _ _ refl refl
