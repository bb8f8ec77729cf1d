-- ===== src/Replication/Sends.antt =====
-- `initiate_replication` of openraft/src/engine/handler/replication_handler does not panic while the log
-- that it sends is whole.
use async_raft.Base.{
  ℕ, ◌+◌, ◌≤◌, ◌<◌, ◌^◌, ◌≡◌, refl, sym, ◌∙◌, ◌++◌, not, ◌&&◌, if◌then◌else◌, false, List, [], ◌∷◌,
  All, done, ◌==◌, Ensures-done, Bool-cases, inl, inr, true-false, arith, subst,
}
use mathlib.Core.List.{append_assoc, append-nil}
use async_raft.LogId.{next_index}
use async_raft.ProgressEntry.{
  ProgressEntry, LogState, Inflight, nothing, logs_of, snapshot_of, is_none, next_send,
}
use async_raft.ProgressEntry.Sends.{Served, next_send-sends}
use async_raft.Handler.{Node, Command, Config, replicate}
use async_raft.Replication.{Leading, send_to_target, send_each, initiate_replication, log_state}
use async_raft.Replication.Kept.{Still, initiate_replication-Still}

-- The search for the matching log of a node ends inside the log.
abbrev pub IsSearched : ℕ → ProgressEntry → Type 0
IsSearched end e = (next_index e.matching ≤ e.searching_end) × (e.searching_end ≤ end)

-- The searches of the nodes end inside the log.
abbrev pub AreSearched : ℕ → List (ℕ × ProgressEntry) → Type 0
AreSearched end = All (λ x. IsSearched end x.1)

next_send-IsSearched :
    (end : ℕ) (e : ProgressEntry) (s : LogState) (max_entries : ℕ)
    → IsSearched end e
    → IsSearched end (next_send e s max_entries).0
unfolding next_send
next_send-IsSearched end e s max_entries h = ground (arith, h)

module _ {N : Type 0} where
  -- What a leader sends is whole, and no index overflows.
  abbrev pub CanSend : Node N → Type 0
  CanSend n =
      Served (log_state n.state)
      × (next_index (log_state n.state).last_log_id + n.config.max_payload_entries < 2 ^ 64)

  -- The commands to the nodes that something is to be sent to, the node itself aside.
  abbrev pub sends : Config → LogState → List (ℕ × ProgressEntry) → List (Command N)
  sends config log [] = []
  sends config log ((id, e) ∷ xs) =
      let next = next_send e log config.max_payload_entries in
      let rest = sends config log xs in
      if not (id == config.id) && next.1 then replicate id next.0.inflight ∷ rest else rest

  send_to_target-total :
      (n : Node N) (id : ℕ) (i : Inflight)
      → is_none i ≡ false
      → (n' : Node N) × (send_to_target n id i ≡ done n')
        × Still n n'
        × (n'.output ≡ n.output ++ replicate id i ∷ [])
  unfolding send_to_target
  send_to_target-total n id nothing h = absurd (true-false refl h)
  send_to_target-total n id (logs_of r) h = (_, refl, (refl, refl), refl)
  send_to_target-total n id (snapshot_of l) h = (_, refl, (refl, refl), refl)

  send_each-total :
      (n : Node N) (xs : List (ℕ × ProgressEntry))
      → CanSend n
      → AreSearched (next_index (log_state n.state).last_log_id) xs
      → (r : Node N × List (ℕ × ProgressEntry)) × (send_each n xs ≡ done r)
        × AreSearched (next_index (log_state n.state).last_log_id) r.1
        × (r.0.output ≡ n.output ++ sends n.config (log_state n.state) xs)
  unfolding send_each
  send_each-total n [] v a = ((n, []), refl, tt, sym (append-nil n.output))
  send_each-total n ((id, e) ∷ xs) v (s, a) =
      let (r, rest, searched, output) = send_each-total n xs v a in
      let log = log_state n.state in
      let next = next_send e log n.config.max_payload_entries in
      let still =
        next_send-IsSearched (next_index log.last_log_id) e log n.config.max_payload_entries s in
      elim (Bool-cases (id == n.config.id)) [
        | inl own ↦ ((r.0, (id, e) ∷ r.1), rw (own, rest) refl, (s, searched), rw own output)
        | inr other ↦ elim (Bool-cases next.1) [
          | inr idle ↦ (
            (r.0, (id, next.0) ∷ r.1),
            rw (other, idle, rest) refl,
            (still, searched),
            rw (other, idle) output,
          )
          | inl ready ↦
              let (n', sent, (config, state), pushed) =
                send_to_target-total n id next.0.inflight
                  (next_send-sends e log n.config.max_payload_entries v.0 s.0 s.1 v.1 ready) in
              let (r', more, searched', output') =
                send_each-total n' xs (rw (config, state) v) (rw state a) in
              (
                (r'.0, (id, next.0) ∷ r'.1),
                rw (other, ready, sent, more) refl,
                (
                  still,
                  subst (λ st. AreSearched (next_index (log_state st).last_log_id) r'.1) state
                      searched',
                ),
                rw (other, ready)
                    (output'
                      ∙ rw (pushed, config, state)
                          (append_assoc n.output (replicate id next.0.inflight ∷ [])
                            (sends n.config log xs))),
              )
        ]
      ]

  -- If the log of the leader is whole after what is purged, and the searches for the matching logs end
  -- inside it, then sending to all nodes works out. Neither the state of the node nor the leader changes,
  -- but for the entries of the progress, and what is sent is pushed.
  pub initiate_replication-total :
      (l : Leading N)
      → CanSend l.node
      → AreSearched (next_index (log_state l.node.state).last_log_id) l.lead.progress.vector
      → (l' : Leading N) × (initiate_replication l ≡ done l')
        × Still l.node l'.node
        × (l'.lead ≡ record l.lead {
          progress = record l.lead.progress { vector = l'.lead.progress.vector };
        })
        × AreSearched (next_index (log_state l.node.state).last_log_id) l'.lead.progress.vector
        × (l'.node.output
            ≡ l.node.output ++ sends l.node.config (log_state l.node.state) l.lead.progress.vector)
  unfolding initiate_replication
  initiate_replication-total l v a =
      let (r, sent, searched, output) = send_each-total l.node l.lead.progress.vector v a in
      let l' : Leading N = record {
        node = r.0;
        lead = record l.lead { progress = record l.lead.progress { vector = r.1 } };
      } in
      let e : initiate_replication l ≡ done l' = rw sent refl in
      (
        l',
        e,
        Ensures-done (initiate_replication l) (λ x. Still l.node x.node)
            (initiate_replication-Still l) e,
        refl,
        searched,
        output,
      )
