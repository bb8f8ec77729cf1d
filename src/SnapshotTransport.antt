-- ===== src/SnapshotTransport.antt =====
-- openraft/src/network/snapshot_transport.rs: sending a snapshot in chunks, and `install_snapshot` of
-- openraft/src/raft/mod.rs, which receives them. The snapshot data is a `Cursor` over bytes, as in the
-- repository's memory store; the buffer that a chunk is read to is filled as far as there is data.
-- Children: proofs.
pub mod Prefixes
pub mod Receiving
pub mod Arriving
pub mod Sending
pub mod Delivery
use async_raft.Base.{
  ℕ, zero, suc, Bool, true, false, List, [], ◌∷◌, Option, none, some, if◌then◌else◌, ◌==◌, length,
  take, drop, add64,
}
use async_raft.Vote.{Vote, vote_ge, vote_gt}
use async_raft.RaftState.{SnapshotMeta}

-- `Cursor<Vec<u8>>` of the standard library: `write_all` overwrites, fills a gap with zeros, extends.
pub record Cursor : Type 0 where
  pub bytes : List ℕ
  pub at : ℕ

unfoldable pub lay : List ℕ → List ℕ → List ℕ
lay [] bs = bs
lay (d ∷ ds) [] = d ∷ lay ds []
lay (d ∷ ds) (b ∷ bs) = d ∷ lay ds bs

unfoldable pub overwrite : List ℕ → ℕ → List ℕ → List ℕ
overwrite bs zero ds = lay ds bs
overwrite [] (suc at) ds = 0 ∷ overwrite [] at ds
overwrite (b ∷ bs) (suc at) ds = b ∷ overwrite bs at ds

-- Nothing is written of an empty buffer, also past the end.
unfoldable pub written : List ℕ → ℕ → List ℕ → List ℕ
written bs at [] = bs
written bs at (d ∷ ds) = overwrite bs at (d ∷ ds)

unfoldable pub write_all : Cursor → List ℕ → Cursor
write_all c ds = record { bytes = written c.bytes c.at ds; at = add64 c.at (length ds) }

abbrev pub blank : Cursor
blank = record { bytes = []; at = 0 }

-- `Streaming`; the name of a snapshot is a number.
pub record Streaming : Type 0 where
  pub offset : ℕ
  pub snapshot_id : ℕ
  pub snapshot_data : Cursor

-- `InstallSnapshotRequest`, with the name of the snapshot.
pub record Request (N : Type 0) : Type 0 where
  pub vote : Vote
  pub snapshot_id : ℕ
  pub meta : SnapshotMeta N
  pub offset : ℕ
  pub chunk : List ℕ
  pub last : Bool

pub record Snapshot (N : Type 0) : Type 0 where
  pub snapshot_id : ℕ
  pub meta : SnapshotMeta N
  pub bytes : List ℕ

-- The result of `receive_snapshot`: a snapshot that is finished or not, or an error.
pub data Received (N : Type 0) : Type 0 where
  received : Option (Snapshot N) → Received N
  mismatch : ℕ → Received N
  fatal : Received N

-- What a node has when a request arrives: its vote before, its vote once a snapshot is installed, and
-- what `begin_receiving_snapshot` opens.
pub record Visit : Type 0 where
  pub my_vote : Vote
  pub after : Vote
  pub opened : Option Cursor

pub data Answer : Type 0 where
  replied : Vote → Answer
  mismatched : Answer
  failed : Answer

-- The receiver with the snapshots that it has handed to `install_full_snapshot`, the last one first.
pub record Receiver (N : Type 0) : Type 0 where
  pub streaming : Option Streaming
  pub installed : List (Snapshot N)

-- What is sent, and the size of a chunk.
pub record Sender (N : Type 0) : Type 0 where
  pub vote : Vote
  pub snapshot : Snapshot N
  pub chunk_size : ℕ

-- What befalls one round of the loop: it is cancelled, reading fails, the request gets lost, it
-- arrives and the answer is an error or gets lost, or it arrives and is answered. Besides, a request
-- from some offset that has timed out may arrive late.
pub data Round : Type 0 where
  cancelled : Round
  read_failed : Round
  lost : Round
  unanswered : Visit → Round
  answered : Visit → Round
  late : ℕ → Visit → Round

pub record Transfer (N : Type 0) : Type 0 where
  pub offset : ℕ
  pub receiver : Receiver N

pub data Outcome (N : Type 0) : Type 0 where
  going : Transfer N → Outcome N
  stopped : Transfer N → Outcome N
  returned : Vote → Transfer N → Outcome N

module _ {N : Type 0} where
  -- `Streaming::receive`.
  unfoldable pub receive : Streaming → Request N → Streaming
  receive s req =
      let sought =
        if req.offset == s.offset
        then s.snapshot_data
        else record s.snapshot_data { at = req.offset } in
      record s {
        offset = add64 req.offset (length req.chunk);
        snapshot_data = write_all sought req.chunk;
      }

  unfoldable pub receive_chunk : Streaming → Request N → Option Streaming × Received N
  receive_chunk s req =
      let s' = receive s req in
      if req.last
      then (
        none,
        received (
            some (record {
              snapshot_id = req.snapshot_id;
              meta = req.meta;
              bytes = s'.snapshot_data.bytes;
            })),
      )
      else (some s', received none)

  -- A new stream begins at the offset 0, with what `begin_receiving_snapshot` opens, none for an error.
  unfoldable pub begin :
      Option Streaming → Option Cursor → Request N → Option Streaming × Received N
  begin s none req = (s, fatal)
  begin s (some c) req =
      receive_chunk (record { offset = 0; snapshot_id = req.snapshot_id; snapshot_data = c }) req

  unfoldable pub restart :
      Option Streaming → Option Cursor → Request N → Option Streaming × Received N
  restart s opened req = if req.offset == 0 then begin s opened req else (s, mismatch req.offset)

  unfoldable pub receive_snapshot :
      Option Streaming → Option Cursor → Request N → Option Streaming × Received N
  receive_snapshot none opened req = restart none opened req
  receive_snapshot (some s) opened req =
      if s.snapshot_id == req.snapshot_id then receive_chunk s req else restart (some s) opened req

  abbrev pub install_finished :
      Visit → List (Snapshot N) → Option Streaming × Received N → Receiver N × Answer
  install_finished v old (s, received none) =
      (record { streaming = s; installed = old }, replied v.my_vote)
  install_finished v old (s, received (some snapshot)) =
      (record { streaming = s; installed = snapshot ∷ old }, replied v.after)
  install_finished v old (s, mismatch got) = (record { streaming = s; installed = old }, mismatched)
  install_finished v old (s, fatal) = (record { streaming = s; installed = old }, failed)

  -- `install_snapshot`.
  unfoldable pub install_snapshot : Visit → Receiver N → Request N → Receiver N × Answer
  install_snapshot v r req =
      if vote_ge req.vote v.my_vote
      then install_finished v r.installed (receive_snapshot r.streaming v.opened req)
      else (r, replied v.my_vote)

  unfoldable pub request : Sender N → ℕ → Request N
  request s offset =
      let chunk = take s.chunk_size (drop offset s.snapshot.bytes) in
      record {
        vote = s.vote;
        snapshot_id = s.snapshot.snapshot_id;
        meta = s.snapshot.meta;
        offset = offset;
        chunk = chunk;
        last = add64 offset (length chunk) == length s.snapshot.bytes;
      }

  -- What the sender makes of an answer.
  unfoldable pub react : Sender N → Request N → Receiver N × Answer → Outcome N
  react s req (r, replied vote) =
      let t : Transfer N = record { offset = req.offset; receiver = r } in
      if vote_gt vote s.vote
      then returned vote t
      else if req.last
      then returned vote t
      else going (record t { offset = add64 req.offset (length req.chunk) })
  react s req (r, mismatched) = going (record { offset = 0; receiver = r })
  react s req (r, failed) = going (record { offset = req.offset; receiver = r })

  unfoldable pub round : Sender N → Transfer N → Round → Outcome N
  round s t cancelled = stopped t
  round s t read_failed = stopped t
  round s t lost = going t
  round s t (unanswered v) =
      going (record t { receiver = (install_snapshot v t.receiver (request s t.offset)).0 })
  round s t (answered v) =
      let req = request s t.offset in react s req (install_snapshot v t.receiver req)
  round s t (late offset v) =
      going (record t { receiver = (install_snapshot v t.receiver (request s offset)).0 })

  abbrev pub continue : (Transfer N → Outcome N) → Outcome N → Outcome N
  continue rest (going t) = rest t
  continue rest (stopped t) = stopped t
  continue rest (returned v t) = returned v t

  -- The loop of `send_snapshot`, for a number of rounds.
  unfoldable pub send_snapshot : Sender N → Transfer N → List Round → Outcome N
  send_snapshot s t [] = going t
  send_snapshot s t (r ∷ rs) = continue (λ t'. send_snapshot s t' rs) (round s t r)
