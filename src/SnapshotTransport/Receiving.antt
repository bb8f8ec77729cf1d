-- ===== src/SnapshotTransport/Receiving.antt =====
-- A request that arrives at the receiver (`receive_snapshot` of
-- openraft/src/network/snapshot_transport.rs, `install_snapshot` of openraft/src/raft/mod.rs).
use async_raft.Base.{
  ℕ, zero, suc, ◌+◌, ◌<◌, ◌≤◌, ◌≡◌, ◌≢◌, refl, sym, ◌∙◌, inl, inr, false, Option, none, some,
  if◌then◌else◌, ◌==◌, length, take, drop, add64, add64_lem, u64_mod, ==_iff, Bool-cases,
  true-false, arith,
}
use async_raft.Vote.AdvOrder.{vote_ord}
use async_raft.SnapshotTransport.{
  Cursor, blank, Streaming, Snapshot, Received, received, mismatch, fatal, receive, write_all,
  receive_chunk, begin, restart, receive_snapshot, Sender, request,
}
use async_raft.SnapshotTransport.Prefixes.{
  IsPrefix, take-IsPrefix, IsPrefix-whole, written_lem, read_lem,
}

-- `begin_receiving_snapshot` fails, or opens a blank snapshot.
abbrev pub Opens : Option Cursor → Type 0
Opens none = Unit {0}
Opens (some c) = c ≡ blank

module _ {N : Type 0} where
  -- A stream of the snapshot that has what comes before the offset, and nothing else.
  pub record Partial (x : Snapshot N) (offset : ℕ) (s : Streaming) : Type 0 where
    pub same : s.snapshot_id ≡ x.snapshot_id
    pub prefix : IsPrefix s.snapshot_data.bytes x.bytes
    pub reaches : offset ≤ length s.snapshot_data.bytes
    pub at : s.snapshot_data.at ≡ s.offset

  abbrev pub Fits : Snapshot N → ℕ → Option Streaming → Type 0
  Fits x offset none = Unit {0}
  Fits x offset (some s) = s.snapshot_id ≡ x.snapshot_id → Partial x offset s

  -- No stream of the snapshot.
  abbrev pub Foreign : Snapshot N → Option Streaming → Type 0
  Foreign x none = Unit {0}
  Foreign x (some s) = s.snapshot_id ≢ x.snapshot_id

  pub request-next :
      (snd : Sender N) (offset : ℕ)
      → offset ≤ length snd.snapshot.bytes
      → length snd.snapshot.bytes < u64_mod
      → (add64 offset (length (request snd offset).chunk)
          ≡ offset + length (request snd offset).chunk)
        × (offset + length (request snd offset).chunk ≤ length snd.snapshot.bytes)
  unfolding request
  request-next snd offset le b =
      let (inside, _) = read_lem snd.chunk_size offset snd.snapshot.bytes le in
      (
        add64_lem offset (length (take snd.chunk_size (drop offset snd.snapshot.bytes)))
            (omega (arith, inside, b)),
        inside,
      )

  pub receive-Partial :
      (snd : Sender N) (offset : ℕ) (s : Streaming)
      → Partial snd.snapshot offset s
      → let req = request snd offset in
        Partial snd.snapshot (offset + length req.chunk) (receive s req)
  unfolding receive write_all request
  receive-Partial snd offset s p =
      let chunk = take snd.chunk_size (drop offset snd.snapshot.bytes) in
      let (prefix, reaches) =
        written_lem s.snapshot_data.bytes offset chunk snd.snapshot.bytes p.prefix p.reaches
          (take-IsPrefix snd.chunk_size (drop offset snd.snapshot.bytes)) in
      elim (Bool-cases (offset == s.offset)) [
        | inl e ↦
            let here : s.snapshot_data.at ≡ offset = p.at ∙ sym ((==_iff offset s.offset).0 e) in
            record {
              same = p.same;
              prefix = rw (e, here) prefix;
              reaches = rw (e, here) reaches;
              at = rw (e, here) refl;
            }
        | inr e ↦ record {
          same = p.same;
          prefix = rw e prefix;
          reaches = rw e reaches;
          at = rw e refl;
        }
      ]

  -- The last chunk completes the snapshot.
  pub receive_chunk_lem :
      (snd : Sender N) (offset : ℕ) (s : Streaming)
      → Partial snd.snapshot offset s
      → offset ≤ length snd.snapshot.bytes
      → length snd.snapshot.bytes < u64_mod
      → let req = request snd offset in
        receive_chunk s req ≡ (
          if req.last
          then (none, received (some snd.snapshot))
          else (some (receive s req), received none))
  unfolding receive_chunk request receive
  receive_chunk_lem snd offset s p le b =
      let req = request snd offset in
      let x = snd.snapshot in
      let (sum, _) = request-next snd offset le b in
      let p' = receive-Partial snd offset s p in
      elim (Bool-cases req.last) [
        | inr more ↦ rw more refl
        | inl last ↦
            let end : offset + length req.chunk ≡ length x.bytes =
              sym sum ∙ (==_iff (add64 offset (length req.chunk)) (length x.bytes)).0 last in
            let whole : (receive s req).snapshot_data.bytes ≡ x.bytes =
              IsPrefix-whole (receive s req).snapshot_data.bytes x.bytes p'.prefix
                (omega (arith, end, p'.reaches)) in
            rw (last, whole) refl
      ]

  -- What an accepted request does to the stream.
  pub data Streamed (snd : Sender N) (offset : ℕ) (st : Option Streaming) (opened : Option Cursor)
      (out : Option Streaming × Received N) : Type 0 where
    written :
        (s : Streaming)
        → Partial snd.snapshot offset s
        → out ≡ receive_chunk s (request snd offset)
        → Streamed snd offset st opened out
    rejected :
        out ≡ (st, mismatch offset)
        → Foreign snd.snapshot st
        → offset ≢ 0
        → Streamed snd offset st opened out
    not_opened : out ≡ (st, fatal) → opened ≡ none → Streamed snd offset st opened out

  begin-Streamed :
      (snd : Sender N) (st : Option Streaming) (opened : Option Cursor)
      → Opens opened
      → Streamed snd 0 st opened (begin st opened (request snd 0))
  unfolding begin request
  begin-Streamed snd st none o = not_opened refl refl
  begin-Streamed snd st (some c) o =
      written (record { offset = 0; snapshot_id = snd.snapshot.snapshot_id; snapshot_data = c })
        (record { same = refl; prefix = rw o tt; reaches = rw o (omega arith); at = rw o refl })
        refl

  restart-Streamed :
      (snd : Sender N) (offset : ℕ) (st : Option Streaming) (opened : Option Cursor)
      → Opens opened
      → Foreign snd.snapshot st
      → Streamed snd offset st opened (restart st opened (request snd offset))
  unfolding restart request
  restart-Streamed snd zero st opened o f = begin-Streamed snd st opened o
  restart-Streamed snd (suc offset) st opened o f =
      let differs : (suc offset == 0) ≡ false = ground arith in
      rejected (rw differs refl) f (λ e. omega (arith, e))

  pub receive_snapshot-Streamed :
      (snd : Sender N) (offset : ℕ) (st : Option Streaming) (opened : Option Cursor)
      → Opens opened
      → Fits snd.snapshot offset st
      → Streamed snd offset st opened (receive_snapshot st opened (request snd offset))
  unfolding receive_snapshot request
  receive_snapshot-Streamed snd offset none opened o f =
      restart-Streamed snd offset none opened o tt
  receive_snapshot-Streamed snd offset (some s) opened o f =
      elim (Bool-cases (s.snapshot_id == snd.snapshot.snapshot_id)) [
        | inl e ↦ written s (f ((==_iff s.snapshot_id snd.snapshot.snapshot_id).0 e)) (rw e refl)
        | inr e ↦ rw e (
            restart-Streamed snd offset (some s) opened o
              (λ q. true-false ((==_iff s.snapshot_id snd.snapshot.snapshot_id).1 q) e))
      ]
