-- ===== src/MemStore/Applied.antt =====
-- What applying entries does to the state machine of stores/memstore/src/lib.rs.
use async_raft.Base.{◌≡◌, refl, ap, ◌∙◌, List, [], ◌∷◌, Option, none, some, if◌then◌else◌, arith}
use Prim.Native.String.{String}
use text.Mathlib.Text as Text
use text.Mathlib.TextEquality.{eq_iff}
use mathlib.Core.Path.{fun_ext}
use async_raft.LogId.{LogId}
use async_raft.Membership.State.{StoredMembership}
use async_raft.MemStore.{MemEntry, Payload, blank, normal, membership}
use async_raft.MemStore.Machine.{MemStoreStateMachine, status_of, set_status, apply_payload, apply}

status_of-set_status :
    (k j v : String) (m : List (String × String))
    → status_of k (set_status j v m) ≡ (if Text.◌==◌ j k then some v else status_of k m)
unfolding status_of set_status
status_of-set_status k j v [] = refl
status_of-set_status k j v ((i, w) ∷ m) =
    ground (arith, eq_iff j k, eq_iff i j, eq_iff i k, status_of-set_status k j v m)

module _ {N : Type 0} where
  -- The last status that a client was given, or the one from before.
  abbrev pub latest : String → List (MemEntry N) → Option String → Option String
  latest k [] before = before
  latest k (e ∷ es) before = latest k es (elim e.payload [
    | blank ↦ before
    | normal r ↦ if Text.◌==◌ r.client k then some r.status else before
    | membership m ↦ before
  ])

  -- What each request is answered with: the status from before it.
  abbrev pub answers : (String → Option String) → List (MemEntry N) → List (Option String)
  answers before [] = []
  answers before (e ∷ es) =
      (elim e.payload [ blank ↦ none | normal r ↦ before r.client | membership m ↦ none ])
      ∷ answers (λ k. latest k (e ∷ []) (before k)) es

  abbrev pub last_id : Option LogId → List (MemEntry N) → Option LogId
  last_id before [] = before
  last_id before (e ∷ es) = last_id (some e.log_id) es

  abbrev pub last_member : StoredMembership N → List (MemEntry N) → StoredMembership N
  last_member before [] = before
  last_member before (e ∷ es) =
      last_member
        (elim e.payload [
          | blank ↦ before
          | normal r ↦ before
          | membership m ↦ record { log_id = some e.log_id; membership = m }
        ])
        es

  -- What one entry does.
  abbrev new_status : String → Payload N → Option String → Option String
  new_status k p before = elim p [
    | blank ↦ before
    | normal r ↦ if Text.◌==◌ r.client k then some r.status else before
    | membership m ↦ before
  ]

  abbrev new_member : LogId → Payload N → StoredMembership N → StoredMembership N
  new_member l p before = elim p [
    | blank ↦ before
    | normal r ↦ before
    | membership m ↦ record { log_id = some l; membership = m }
  ]

  abbrev response : Payload N → (String → Option String) → Option String
  response p before = elim p [ blank ↦ none | normal r ↦ before r.client | membership m ↦ none ]

  apply_payload_lem :
      (sm : MemStoreStateMachine N) (l : LogId) (p : Payload N)
      → let (sm', answer) = apply_payload sm l p in
        (sm'.last_applied_log ≡ some l)
        × (sm'.last_membership ≡ new_member l p sm.last_membership)
        × ((k : String)
            → status_of k sm'.client_status ≡ new_status k p (status_of k sm.client_status))
        × (answer ≡ response p (λ k. status_of k sm.client_status))
  apply_payload_lem sm l blank = (refl, refl, λ k. refl, refl)
  apply_payload_lem sm l (normal r) =
      (refl, refl, λ k. status_of-set_status k r.client r.status sm.client_status, refl)
  apply_payload_lem sm l (membership m) = (refl, refl, λ k. refl, refl)

  -- Applying entries gives each client the last status that it was given, and nobody else's; a request
  -- is answered with the client's status from before it, and every other entry with none. The last log
  -- id and the last membership are those of the last such entries.
  pub apply-latest :
      (sm : MemStoreStateMachine N) (es : List (MemEntry N))
      → let (sm', responses) = apply sm es in
        (sm'.last_applied_log ≡ last_id sm.last_applied_log es)
        × (sm'.last_membership ≡ last_member sm.last_membership es)
        × ((k : String)
            → status_of k sm'.client_status ≡ latest k es (status_of k sm.client_status))
        × (responses ≡ answers (λ k. status_of k sm.client_status) es)
  unfolding apply
  apply-latest sm [] = (refl, refl, λ k. refl, refl)
  apply-latest sm (e ∷ es) =
      let (last, member, status, answer) = apply_payload_lem sm e.log_id e.payload in
      let sm' = (apply_payload sm e.log_id e.payload).0 in
      let (lasts, members, statuses, rest) = apply-latest sm' es in
      (
        lasts ∙ ap (λ o. last_id o es) last,
        members ∙ ap (λ m. last_member m es) member,
        λ k. statuses k ∙ ap (latest k es) (status k),
        ap (λ r. r ∷ (apply sm' es).1) answer
            ∙ ap (λ rs. response e.payload (λ k. status_of k sm.client_status) ∷ rs)
                (rest ∙ ap (λ f. answers f es) (fun_ext status)),
      )
