-- ===== src/SnapshotTransport/Delivery.antt =====
-- The loop of `send_snapshot` ends (openraft/src/network/snapshot_transport.rs): how many answered
-- requests are enough.
use async_raft.Base.{
  ℕ, ◌+◌, ◌<◌, ◌≤◌, ◌≡◌, ◌≢◌, refl, sym, ap, ◌∙◌, ◌⊎◌, inl, inr, false, List, [], ◌∷◌, none, some,
  length, add64, u64_mod, Bool-cases, All, ==_iff, true-false, arith, none-some, subst, ltb, ltb→lt,
}
use async_raft.Vote.{Vote, vote_gt}
use async_raft.SnapshotTransport.{
  Streaming, blank, Snapshot, Visit, Answer, Receiver, install_snapshot, Sender, request, Round,
  cancelled, read_failed, lost, unanswered, answered, late, Transfer, Outcome, going, returned,
  react, round, send_snapshot,
}
use async_raft.SnapshotTransport.Prefixes.{read_lem}
use async_raft.SnapshotTransport.Receiving.{Opens, Foreign, request-next}
use async_raft.SnapshotTransport.Arriving.{
  Arrived, refused, finished, more, foreign, unopened, install_snapshot-Arrived,
}
use async_raft.SnapshotTransport.Sending.{Sound, react-last, react-more, Fits-zero}

Opens-blank : (v : Visit) → v.opened ≡ some blank → Opens v.opened
Opens-blank v e = rw e refl

module _ {N : Type 0} where
  -- A request that arrives at a node whose vote is not greater and that can receive, and is answered.
  abbrev pub Willing : Sender N → Round → Type 0
  Willing snd (answered v) = (vote_gt v.my_vote snd.vote ≡ false) × (v.opened ≡ some blank)
  Willing snd _ = ⊥

  -- The stream of the receiver is the one of this snapshot, or a new one begins.
  abbrev Steady : Snapshot N → Transfer N → Type 0
  Steady x t =
      (t.offset ≡ 0)
      ⊎ ((s : Streaming) × (t.receiver.streaming ≡ some s) × (s.snapshot_id ≡ x.snapshot_id))

  -- The sender ends, and the snapshot is the one that the receiver has installed in the meantime.
  abbrev pub Delivered : Sender N → Transfer N → Outcome N → Type 0
  Delivered snd t o =
      (w : Vote) × (t' : Transfer N) × (o ≡ returned w t')
      × (t'.receiver.installed ≡ snd.snapshot ∷ t.receiver.installed)

  record Onwards (snd : Sender N) (t : Transfer N) (o : Outcome N) : Type 0 where
    next : Transfer N
    goes : o ≡ going next
    sound : Sound snd next
    kept : next.receiver.installed ≡ t.receiver.installed
    steady : Steady snd.snapshot next
    progress : Steady snd.snapshot t → t.offset < next.offset

  not_last-before :
      (snd : Sender N) (offset : ℕ)
      → 0 < snd.chunk_size
      → offset ≤ length snd.snapshot.bytes
      → length snd.snapshot.bytes < u64_mod
      → (request snd offset).last ≡ false
      → 0 < length (request snd offset).chunk
  unfolding request
  not_last-before snd offset c le b l =
      let end = length snd.snapshot.bytes in
      let n = length (request snd offset).chunk in
      let (inside, grows) = read_lem snd.chunk_size offset snd.snapshot.bytes le in
      let (sum, _) = request-next snd offset le b in
      elim (Bool-cases (ltb offset end)) [
        | inl before ↦ grows c (ltb→lt offset end before)
        | inr at_end ↦
            let all : offset + n ≡ end = ground (arith, at_end, inside, le) in
            absurd (true-false ((==_iff (add64 offset n) end).1 (sum ∙ all)) l)
      ]

  Foreign-Steady :
      (snd : Sender N) (t : Transfer N)
      → Foreign snd.snapshot t.receiver.streaming
      → t.offset ≢ 0
      → Steady snd.snapshot t
      → ⊥
  Foreign-Steady snd t g n (inl z) = n z
  Foreign-Steady snd t g n (inr (s, e, q)) = subst (Foreign snd.snapshot) e g q

  react-Onwards :
      (snd : Sender N) (t : Transfer N) (v : Visit) (out : Receiver N × Answer)
      → Sound snd t
      → 0 < snd.chunk_size
      → length snd.snapshot.bytes < u64_mod
      → Willing snd (answered v)
      → Arrived snd t.offset v t.receiver out
      → Delivered snd t (react snd (request snd t.offset) out)
        ⊎ Onwards snd t (react snd (request snd t.offset) out)
  unfolding react request
  react-Onwards snd t v out s c b w (refused e g) = absurd (true-false g w.0)
  react-Onwards snd t v out s c b w (finished e l) =
      let r : Receiver N = record {
        streaming = none;
        installed = snd.snapshot ∷ t.receiver.installed;
      } in
      let end : Transfer N = record { offset = t.offset; receiver = r } in
      inl (v.after, end, rw e (react-last snd t.offset r v.after l), refl)
  react-Onwards snd t v out s c b w (more st p e l k) =
      let (sum, inside) = request-next snd t.offset s.inside b in
      let n = length (request snd t.offset).chunk in
      inr (record {
        next = record {
          offset = t.offset + n;
          receiver = record { streaming = some st; installed = t.receiver.installed };
        };
        goes = rw (e, react-more snd t.offset _ v.my_vote l k, sum) refl;
        sound = record { inside = inside; fits = λ q. p; installed = s.installed };
        kept = refl;
        steady = inr (st, refl, p.same);
        progress = λ q. omega (arith, not_last-before snd t.offset c s.inside b l);
      })
  react-Onwards snd t v out s c b w (foreign e g n) = inr (record {
    next = record { offset = 0; receiver = t.receiver };
    goes = rw e refl;
    sound = record {
      inside = omega arith;
      fits = Fits-zero snd.snapshot t.offset t.receiver.streaming s.fits;
      installed = s.installed;
    };
    kept = refl;
    steady = inl refl;
    progress = λ q. absurd (Foreign-Steady snd t g n q);
  })
  react-Onwards snd t v out s c b w (unopened e n) = absurd (none-some (sym n ∙ w.1))

  round-Onwards :
      (snd : Sender N) (t : Transfer N) (r : Round)
      → Sound snd t
      → 0 < snd.chunk_size
      → length snd.snapshot.bytes < u64_mod
      → Willing snd r
      → Delivered snd t (round snd t r) ⊎ Onwards snd t (round snd t r)
  unfolding round
  round-Onwards snd t (answered v) s c b w =
      react-Onwards snd t v (install_snapshot v t.receiver (request snd t.offset)) s c b w
        (install_snapshot-Arrived snd t.offset v t.receiver (Opens-blank v w.1) s.fits s.inside b)
  round-Onwards snd t cancelled s c b w = absurd w
  round-Onwards snd t read_failed s c b w = absurd w
  round-Onwards snd t lost s c b w = absurd w
  round-Onwards snd t (late offset v) s c b w = absurd w
  round-Onwards snd t (unanswered v) s c b w = absurd w

  Delivered-later :
      (snd : Sender N) (t t' : Transfer N) (o : Outcome N)
      → t'.receiver.installed ≡ t.receiver.installed
      → Delivered snd t' o
      → Delivered snd t o
  Delivered-later snd t t' o e (w, u, r, i) = (w, u, r, i ∙ ap (λ l. snd.snapshot ∷ l) e)

  Steady-Delivered :
      (snd : Sender N) (t : Transfer N) (rs : List Round)
      → Sound snd t
      → Steady snd.snapshot t
      → 0 < snd.chunk_size
      → length snd.snapshot.bytes < u64_mod
      → All (Willing snd) rs
      → length snd.snapshot.bytes < t.offset + length rs
      → Delivered snd t (send_snapshot snd t rs)
  unfolding send_snapshot
  Steady-Delivered snd t [] s q c b w enough = absurd (omega (arith, s.inside, enough))
  Steady-Delivered snd t (r ∷ rs) s q c b w enough = elim (round-Onwards snd t r s c b w.0) [
    | inl (v, u, e, i) ↦ (v, u, rw e refl, i)
    | inr o ↦
        let further = o.progress q in
        rw (o.goes) (
          Delivered-later snd t o.next (send_snapshot snd o.next rs) o.kept (
            Steady-Delivered snd o.next rs o.sound o.steady c b w.1
              (omega (arith, further, enough))))
  ]

  -- If a chunk is not empty, then as many answered requests as the snapshot has bytes, and two more,
  -- are enough: the sender ends, and the receiver has installed the snapshot. The nodes asked have a
  -- vote that is not greater than the sender's and can open a snapshot; the receiver starts from
  -- whatever an interrupted transfer of this or another snapshot left.
  pub send_snapshot-Delivered :
      (snd : Sender N) (t : Transfer N) (rs : List Round)
      → Sound snd t
      → 0 < snd.chunk_size
      → length snd.snapshot.bytes < u64_mod
      → All (Willing snd) rs
      → length snd.snapshot.bytes + 2 ≤ length rs
      → Delivered snd t (send_snapshot snd t rs)
  unfolding send_snapshot
  send_snapshot-Delivered snd t [] s c b w enough = absurd (omega (arith, enough))
  send_snapshot-Delivered snd t (r ∷ rs) s c b w enough = elim (round-Onwards snd t r s c b w.0) [
    | inl (v, u, e, i) ↦ (v, u, rw e refl, i)
    | inr o ↦ rw (o.goes) (
        Delivered-later snd t o.next (send_snapshot snd o.next rs) o.kept
          (Steady-Delivered snd o.next rs o.sound o.steady c b w.1 (omega (arith, enough))))
  ]
