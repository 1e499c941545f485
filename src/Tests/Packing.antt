-- ===== src/Tests/Packing.antt =====
-- A file of ten bytes, in the log in chunks of four, split into blobs of at most six.
use tgwebdav.Base.{
  ℕ, ◌+◌, ◌≡◌, ◌≤◌, ◌⊎◌, refl, true, false, Option, none, some, List, [], ◌∷◌, arith, All, length,
  drop, map, ◌==◌, if◌then◌else◌,
}
use tgwebdav.Base.Int.{pos, ◌+ℤ◌}
use tgwebdav.Model.{Uuid, Bytes, Node, buffered, Extent, Blob, stored_blob}
use tgwebdav.Packer.{
  Track, BlobJob, Split, split_loop, fail_track, finalize, finalize_body, land, is_ready_track,
}
use tgwebdav.Packer.Finalize.{IsRecorded, finalize-IsRecorded}
use tgwebdav.Packer.Protocol.{
  Progress, Step, Reaches, start, emit_piece, plan, check_ready, Reaches-at_most_once,
  Reaches-exactly_once, Reaches-complete,
}
use tgwebdav.Packer.Pieces.{reader_at, split_loop-drain, split_loop-failed}
use tgwebdav.Repository.Blobs.{add_refcounts, add_delta}
use tgwebdav.Repository.Extents.{create_batch, insert_extents}
use tgwebdav.WebdavFs.Moves.{bump_deltas}
use tgwebdav.Repository.Leases.{
  mark_stored_if_owner, mark_stored_in, is_owned, release_lease, free_lease,
}
use tgwebdav.Repository.Order.{order_by}
use tgwebdav.Repository.WalChunks.{chunks_in, assemble, window, range_of, read_range, delete_chunks}
use tgwebdav.Store.{Result, ok, err, World, ◌>>=◌, attempt, query, with_tx, new_id}
use tgwebdav.WebdavFs.Reader.{read}
use tgwebdav.WebdavFs.Reader.Drain.{drain, drain-content}
use tgwebdav.WebdavFs.Reader.Tiles.{Tiles, Given, read-Given}
use tgwebdav.Tests.Files.{env, file, world, tables, chunk}

abbrev content : Bytes
content = 1 ∷ 2 ∷ 3 ∷ 4 ∷ 5 ∷ 6 ∷ 7 ∷ 8 ∷ 9 ∷ 10 ∷ []

abbrev waiting : Node
waiting = record file { state = buffered; size = 10 }

abbrev logged : World
logged = record world {
  db = record tables {
    nodes = record { node = waiting; lease_owner = 5; lease_until = some 99 } ∷ [];
    wal_chunks =
        chunk 7 0 (1 ∷ 2 ∷ 3 ∷ 4 ∷ [])
        ∷ chunk 7 1 (5 ∷ 6 ∷ 7 ∷ 8 ∷ [])
        ∷ chunk 7 2 (9 ∷ 10 ∷ [])
        ∷ [];
  };
}

abbrev fresh : Track
fresh = record { node = waiting; remaining = 0; planned = false; failed = false; extents = [] }

program : Unit {0}
unfolding split_loop fail_track release_lease free_lease read_range range_of window chunks_in
    order_by assemble ◌>>=◌ attempt query new_id finalize finalize_body with_tx mark_stored_if_owner
    mark_stored_in is_owned create_batch insert_extents add_refcounts add_delta delete_chunks ◌+ℤ◌
    bump_deltas
program = tt

abbrev no_split : Result (Split env 5) → Split env 5
no_split (ok s) = s
no_split (err e) = (fresh, [], false)

abbrev cut : Split env 5
cut = no_split (split_loop env 5 6 10 3 fresh 0 0 logged).0

cut_done : (split_loop env 5 6 10 3 fresh 0 0 logged).0 ≡ ok cut
unfolding program
cut_done = refl

abbrev blobs : Uuid → Option Bytes
blobs id =
    if id == 100
    then some (1 ∷ 2 ∷ 3 ∷ 4 ∷ 5 ∷ 6 ∷ [])
    else if id == 102
    then some (7 ∷ 8 ∷ 9 ∷ 10 ∷ [])
    else none

split_loop-drain_example :
    All (λ (j : BlobJob). length j.bytes ≤ 6) cut.1
    × (cut.0.remaining ≡ 0 + length cut.1)
    × (drain blobs 3 11 (reader_at cut.0.extents 10 2) ≡ (drop 2 content, ok tt))
unfolding program
split_loop-drain_example =
    split_loop-drain env 5 6 3 fresh content logged cut blobs 2 3 (omega arith) (omega arith)
      (refl, refl) ((refl, refl, (refl, refl, (refl, (omega arith, omega arith), tt))), refl)
      cut_done refl (refl, (refl, tt)) (omega arith)

-- the first read fails
abbrev faulty : World
faulty = record logged { faults = true ∷ [] }

abbrev broken : Split env 5
broken = no_split (split_loop env 5 6 10 3 fresh 0 0 faulty).0

broken_done : (split_loop env 5 6 10 3 fresh 0 0 faulty).0 ≡ ok broken
unfolding program
broken_done = refl

split_loop-failed_example : broken.0.failed ≡ true
unfolding program
split_loop-failed_example =
    split_loop-failed env 5 6 3 fresh content faulty broken (omega arith) (omega arith) refl
      ((refl, refl, (refl, refl, (refl, (omega arith, omega arith), tt))), refl) broken_done refl

abbrev extents : List Extent
extents =
    record {
      id = 1;
      node_id = 7;
      seq = 0;
      file_offset = 0;
      length = 6;
      blob_id = 100;
      blob_offset = 0;
    }
    ∷ record {
      id = 2;
      node_id = 7;
      seq = 1;
      file_offset = 6;
      length = 4;
      blob_id = 102;
      blob_offset = 0;
    }
    ∷ []

extents-Tiles : Tiles blobs 0 extents content
extents-Tiles = (
  refl,
  omega arith,
  omega arith,
  (1 ∷ 2 ∷ 3 ∷ 4 ∷ 5 ∷ 6 ∷ [], refl, omega arith, refl),
  (refl, omega arith, omega arith, (7 ∷ 8 ∷ 9 ∷ 10 ∷ [], refl, omega arith, refl), refl),
)

read-Given_example :
    Given blobs (reader_at extents 10 5) 3 content (read blobs (reader_at extents 10 5) 3)
read-Given_example =
    read-Given blobs (reader_at extents 10 5) 3 content extents-Tiles refl (omega arith) (λ e. cc e)

drain-content_example : drain blobs 3 6 (reader_at extents 10 5) ≡ (drop 5 content, ok tt)
drain-content_example =
    drain-content blobs (reader_at extents 10 5) 3 6 content (omega arith) extents-Tiles refl
      (λ e. cc e) (omega arith)

abbrev blob : ℕ → ℕ → Blob
blob id size = record {
  id = id;
  channel_id = 3;
  message_id = id;
  message_seq = id;
  size = size;
  content_hash = [];
  state = stored_blob;
  refcount = pos 0;
  created_at = 0;
  sealed_at = none;
}

abbrev uploaded : World
uploaded = record logged { db = record logged.db { blobs = blob 100 6 ∷ blob 102 4 ∷ [] } }

abbrev planned : Track
planned = record fresh { planned = true; extents = extents }

finalize-IsRecorded_example :
    ((finalize env 5 planned uploaded).1.db ≡ uploaded.db)
    ⊎ IsRecorded 5 planned uploaded.db (finalize env 5 planned uploaded).1.db
finalize-IsRecorded_example = finalize-IsRecorded env 5 planned uploaded refl (refl, (refl, tt))

-- It is recorded: one extent on each blob.
counted :
    map (λ (b : Blob). b.refcount) (finalize env 5 planned uploaded).1.db.blobs ≡ pos 1 ∷ pos 1 ∷ []
unfolding program
counted = refl

abbrev an_extent : Extent
an_extent = record {
  id = 1;
  node_id = 7;
  seq = 0;
  file_offset = 0;
  length = 6;
  blob_id = 100;
  blob_offset = 0;
}

-- Two jobs, both stored.
abbrev sent : Progress
sent = plan true (emit_piece (emit_piece (start waiting) an_extent) an_extent)

abbrev half : Progress
half = check_ready true (record sent { track = land sent.track; outstanding = 1 })

abbrev whole : Progress
whole = check_ready true (record half { track = land half.track; outstanding = 0 })

whole-Reaches : Reaches (start waiting) whole
unfolding land is_ready_track
whole-Reaches =
    Reaches.then_step _ half _
      (Reaches.then_step _ sent _
        (Reaches.then_step _ (emit_piece (emit_piece (start waiting) an_extent) an_extent) _
          (Reaches.then_step _ (emit_piece (start waiting) an_extent) _
            (Reaches.then_step _ (start waiting) _ (Reaches.here _)
              (Step.emitted (start waiting) an_extent refl))
            (Step.emitted (emit_piece (start waiting) an_extent) an_extent refl))
          (Step.planned_all _ true refl))
        (Step.landed sent true 1 refl))
      (Step.landed half true 0 refl)

Reaches-at_most_once_example :
    (whole.finalize_calls + whole.release_calls ≤ 1) × (whole.finalized + whole.released ≤ 1)
Reaches-at_most_once_example = Reaches-at_most_once waiting whole whole-Reaches

Reaches-exactly_once_example :
    (whole.finalize_calls + whole.release_calls ≡ 1)
    × (whole.finalized ≤ whole.finalize_calls)
    × (whole.released ≤ whole.release_calls)
Reaches-exactly_once_example = Reaches-exactly_once waiting whole whole-Reaches refl refl

Reaches-complete_example :
    (whole.outstanding ≡ 0)
    × (whole.lost ≡ 0)
    × (whole.track.planned ≡ true)
    × (whole.track.failed ≡ false)
unfolding land is_ready_track
Reaches-complete_example = Reaches-complete waiting whole whole-Reaches refl
