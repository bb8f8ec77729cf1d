-- ===== src/SnapshotTransport/Sending.antt =====
-- The loop of `send_snapshot` (openraft/src/network/snapshot_transport.rs): whatever gets lost, the node
-- installs nothing but the snapshot, and once the requests are answered it does.
use async_raft.Base.{
  ℕ, ◌<◌, ◌≤◌, ◌≡◌, refl, ◌⊎◌, inl, inr, true, false, List, [], ◌∷◌, Option, none, some, length,
  add64, u64_mod, Bool-cases, All, arith,
}
use async_raft.Vote.{Vote, vote_gt}
use async_raft.SnapshotTransport.{
  Streaming, Snapshot, Visit, Answer, replied, Receiver, install_snapshot, Sender, request, Round,
  cancelled, read_failed, lost, unanswered, answered, late, Transfer, Outcome, going, stopped,
  returned, react, round, continue, send_snapshot,
}
use async_raft.SnapshotTransport.Receiving.{Opens, Partial, Fits, request-next}
use async_raft.SnapshotTransport.Arriving.{
  Arrived, refused, finished, more, foreign, unopened, install_snapshot-Arrived,
}

-- A snapshot that is opened for receiving is blank, and no request arrives late.
abbrev pub Opened : Round → Type 0
Opened (unanswered v) = Opens v.opened
Opened (answered v) = Opens v.opened
Opened (late offset v) = ⊥
Opened _ = Unit {0}

module _ {N : Type 0} where
  pub record Sound (snd : Sender N) (t : Transfer N) : Type 0 where
    pub inside : t.offset ≤ length snd.snapshot.bytes
    pub fits : Fits snd.snapshot t.offset t.receiver.streaming
    pub installed : All (λ (y : Snapshot N). y ≡ snd.snapshot) t.receiver.installed

  -- What holds at the end: a vote that is returned is greater than the sender's, or the snapshot has
  -- been installed.
  abbrev pub Ended : Sender N → Outcome N → Type 0
  Ended snd (going t) = Sound snd t
  Ended snd (stopped t) = Sound snd t
  Ended snd (returned w t) =
      Sound snd t
      × ((vote_gt w snd.vote ≡ true)
          ⊎ ((old : List (Snapshot N)) × (t.receiver.installed ≡ snd.snapshot ∷ old)))

  Partial-back : (x : Snapshot N) (a b : ℕ) (s : Streaming) → a ≤ b → Partial x b s → Partial x a s
  Partial-back x a b s le p = record {
    same = p.same;
    prefix = p.prefix;
    reaches = omega (arith, p.reaches);
    at = p.at;
  }

  pub Fits-zero : (x : Snapshot N) (a : ℕ) (st : Option Streaming) → Fits x a st → Fits x 0 st
  Fits-zero x a none f = tt
  Fits-zero x a (some s) f = λ e. Partial-back x 0 a s (omega arith) (f e)

  arrive-Sound :
      (snd : Sender N) (t : Transfer N) (v : Visit) (out : Receiver N × Answer)
      → Sound snd t
      → Arrived snd t.offset v t.receiver out
      → Sound snd (record t { receiver = out.0 })
  arrive-Sound snd t v out s (refused e g) = rw e s
  arrive-Sound snd t v out s (finished e l) =
      rw e (record { inside = s.inside; fits = tt; installed = (refl, s.installed) })
  arrive-Sound snd t v out s (more st p e l k) = rw e (record {
    inside = s.inside;
    fits = λ q. Partial-back snd.snapshot t.offset _ st (omega arith) p;
    installed = s.installed;
  })
  arrive-Sound snd t v out s (foreign e g n) = rw e s
  arrive-Sound snd t v out s (unopened e n) = rw e s

  pub react-last :
      (snd : Sender N) (offset : ℕ) (r : Receiver N) (w : Vote)
      → (request snd offset).last ≡ true
      → react snd (request snd offset) (r, replied w)
        ≡ returned w (record { offset = offset; receiver = r })
  unfolding react request
  react-last snd offset r w last = elim (Bool-cases (vote_gt w snd.vote)) [
    | inl g ↦ rw g refl
    | inr n ↦ rw (n, last) refl
  ]

  pub react-more :
      (snd : Sender N) (offset : ℕ) (r : Receiver N) (w : Vote)
      → (request snd offset).last ≡ false
      → vote_gt w snd.vote ≡ false
      → react snd (request snd offset) (r, replied w)
        ≡ going (record { offset = add64 offset (length (request snd offset).chunk); receiver = r })
  unfolding react request
  react-more snd offset r w l g = rw (g, l) refl

  react-Ended :
      (snd : Sender N) (t : Transfer N) (v : Visit) (out : Receiver N × Answer)
      → Sound snd t
      → length snd.snapshot.bytes < u64_mod
      → Arrived snd t.offset v t.receiver out
      → Ended snd (react snd (request snd t.offset) out)
  unfolding react request
  react-Ended snd t v out s b (refused e g) = rw (e, g) (s, inl g)
  react-Ended snd t v out s b (finished e l) =
      rw (e, react-last snd t.offset _ v.after l)
        (
          record { inside = s.inside; fits = tt; installed = (refl, s.installed) },
          inr (t.receiver.installed, refl),
        )
  react-Ended snd t v out s b (more st p e l k) =
      let (sum, inside) = request-next snd t.offset s.inside b in
      rw (e, react-more snd t.offset _ v.my_vote l k, sum)
        (record { inside = inside; fits = λ q. p; installed = s.installed })
  react-Ended snd t v out s b (foreign e g n) = rw e (record {
    inside = omega arith;
    fits = Fits-zero snd.snapshot t.offset t.receiver.streaming s.fits;
    installed = s.installed;
  })
  react-Ended snd t v out s b (unopened e n) = rw e s

  round-Ended :
      (snd : Sender N) (t : Transfer N) (r : Round)
      → Sound snd t
      → length snd.snapshot.bytes < u64_mod
      → Opened r
      → Ended snd (round snd t r)
  unfolding round
  round-Ended snd t cancelled s b o = s
  round-Ended snd t read_failed s b o = s
  round-Ended snd t lost s b o = s
  round-Ended snd t (unanswered v) s b o =
      arrive-Sound snd t v (install_snapshot v t.receiver (request snd t.offset)) s
        (install_snapshot-Arrived snd t.offset v t.receiver o s.fits s.inside b)
  round-Ended snd t (answered v) s b o =
      react-Ended snd t v (install_snapshot v t.receiver (request snd t.offset)) s b
        (install_snapshot-Arrived snd t.offset v t.receiver o s.fits s.inside b)
  round-Ended snd t (late offset v) s b o = absurd o

  continue-Ended :
      (snd : Sender N) (rest : Transfer N → Outcome N) (o : Outcome N)
      → Ended snd o
      → ((t : Transfer N) → Sound snd t → Ended snd (rest t))
      → Ended snd (continue rest o)
  continue-Ended snd rest (going t) e h = h t e
  continue-Ended snd rest (stopped t) e h = e
  continue-Ended snd rest (returned w t) e h = e

  -- Whatever gets lost of the requests and their answers, provided that a request reaches the receiver
  -- before the next one is sent or never, the receiver never installs anything but the snapshot that is
  -- sent: its name, its meta data and all of its bytes. If the sender ends with a vote that is not
  -- greater than its own, then the snapshot has been installed. What is received to begin with is a
  -- prefix of the snapshot, or another one, and what is opened is blank.
  pub send_snapshot-Ended :
      (snd : Sender N) (t : Transfer N) (rs : List Round)
      → Sound snd t
      → length snd.snapshot.bytes < u64_mod
      → All Opened rs
      → Ended snd (send_snapshot snd t rs)
  unfolding send_snapshot
  send_snapshot-Ended snd t [] s b o = s
  send_snapshot-Ended snd t (r ∷ rs) s b o =
      continue-Ended snd (λ t'. send_snapshot snd t' rs) (round snd t r)
        (round-Ended snd t r s b o.0) (λ t' s'. send_snapshot-Ended snd t' rs s' b o.1)
