-- ===== src/Packer.antt =====
-- internal/service/wal.go: the packer, which moves buffered files into blobs.
--
-- `owner` is the worker's lease owner. A job stands for what goes down the channel `jobs`. The picked
-- upload channel is an argument, `none` where PickForUpload answers with an error.
pub mod Pieces
pub mod Finalize
pub mod Protocol
use tgwebdav.Base.{
  ℕ, zero, suc, ◌+◌, ◌-◌, Bool, true, false, not, ◌&&◌, Option, none, some, List, [], ◌∷◌, ◌++◌,
  ltb, ◌==◌, if◌then◌else◌, length, min,
}
use tgwebdav.Model.{Uuid, Bytes, Node, Extent}
use tgwebdav.Repository.Blobs.{add_refcounts}
use tgwebdav.Repository.Extents.{create_batch}
use tgwebdav.Repository.Leases.{release_lease, mark_stored_if_owner}
use tgwebdav.Repository.WalChunks.{read_range, delete_chunks}
use tgwebdav.Store.{
  Error, Result, ok, err, Exec, pure, raise, ◌>>=◌, ◌>>◌, attempt, with_tx, new_id,
}
use tgwebdav.WebdavFs.Env.{Env}
use tgwebdav.WebdavFs.Moves.{bump}

-- track
pub record Track : Type 0 where
  pub node : Node
  pub remaining : ℕ
  pub planned : Bool
  pub failed : Bool
  pub extents : List Extent

-- blobJob; `track` is the node of its one track
pub record BlobJob : Type 0 where
  pub blob_id : Uuid
  pub bytes : Bytes
  pub channel : Uuid
  pub track : Uuid

-- uploadWorker, under the mutex: a blob of the track is stored. `remaining` counts the blobs that are
-- not, so it is not zero.
unfoldable pub land : Track → Track
land t = record t { remaining = t.remaining - 1 }

-- `t.planned && t.remaining == 0 && !t.failed`
unfoldable pub is_ready_track : Track → Bool
is_ready_track t = t.planned && (t.remaining == 0 && not t.failed)

module _ (env : Env) (owner : ℕ) where
  abbrev pub ignore : Result (Unit {0}) → Exec (Unit {0})
  ignore r = pure tt

  -- failTrack
  unfoldable pub fail_track : Track → Exec Track
  fail_track t = (if t.failed then pure tt else attempt (release_lease t.node.id) ignore) >>= λ _.
      pure (record t { failed = true })

  -- the extent and the job of one piece
  abbrev pub piece_extent : Track → Uuid → Uuid → ℕ → ℕ → Bytes → Extent
  piece_extent t id blob_id seq off bytes = record {
    id = id;
    node_id = t.node.id;
    seq = seq;
    file_offset = off;
    length = length bytes;
    blob_id = blob_id;
    blob_offset = 0;
  }

  abbrev pub planned_piece : Track → Extent → Track
  planned_piece t e = record t { extents = t.extents ++ e ∷ []; remaining = suc t.remaining }

  -- what splitting leaves: the track, the jobs it sent, and whether it got to the end
  abbrev pub Split : Type 0
  Split = Track × List BlobJob × Bool

  abbrev pub after_piece :
      Uuid → Track → ℕ → ℕ → (Track → ℕ → ℕ → Exec Split) → Result Bytes → Exec Split
  after_piece channel t off seq again (err e) = fail_track t >>= λ t'. pure (t', [], false)
  after_piece channel t off seq again (ok bytes) = do
    blob_id ← new_id env.uuids
    id ← new_id env.uuids
    rest ←
        again (planned_piece t (piece_extent t id blob_id seq off bytes)) (off + length bytes)
          (suc seq)
    let job : BlobJob = record {
      blob_id = blob_id;
      bytes = bytes;
      channel = channel;
      track = t.node.id;
    }
    pure (rest.0, job ∷ rest.1, rest.2)

  -- The loop of splitLarge. A round reads at least a byte of a file whose WAL is whole, so its size is
  -- fuel enough; the code has no bound, and without fuel the answer is that the end was not reached.
  unfoldable pub split_loop : ℕ → ℕ → Uuid → Track → ℕ → ℕ → Exec Split
  split_loop blob_max zero channel t off seq = pure (t, [], not (ltb off t.node.size))
  split_loop blob_max (suc fuel) channel t off seq =
      let again = split_loop blob_max fuel channel in
      if ltb off t.node.size
      then attempt (read_range env.chunk_size t.node.id off (min blob_max (t.node.size - off)))
          (after_piece channel t off seq again)
      else pure (t, [], true)

  -- finalize, whose errors are only logged
  abbrev pub record_extents : List Extent → Exec (Unit {0})
  record_extents [] = pure tt
  record_extents (e ∷ es) = create_batch (e ∷ es) >> bump env (e ∷ es)

  abbrev pub store_if : Bool → Track → Exec (Unit {0})
  store_if false t = pure tt
  store_if true t = record_extents t.extents >> delete_chunks t.node.id

  unfoldable pub finalize_body : Track → Exec (Unit {0})
  finalize_body t = mark_stored_if_owner t.node.id owner >>= λ owned. store_if owned t

  unfoldable pub finalize : Track → Exec (Unit {0})
  unfolding finalize_body
  finalize t = attempt (with_tx (finalize_body t)) ignore

  abbrev pub finalize_ready : Track → List BlobJob → Exec (Track × List BlobJob)
  finalize_ready t jobs =
      let t' = record t { planned = true } in
      if is_ready_track t' then (finalize t' >>= λ _. pure (t', jobs)) else pure (t', jobs)

  -- splitLarge
  unfoldable pub split_large : Option Uuid → ℕ → Track → Exec (Track × List BlobJob)
  unfolding split_loop finalize
  split_large none blob_max t = fail_track t >>= λ t'. pure (t', [])
  split_large (some channel) blob_max t = split_loop blob_max t.node.size channel t 0 0 >>= λ s.
      if s.2 then finalize_ready s.0 s.1 else pure (s.0, s.1)

  abbrev pub keep_if : Bool → Node → Exec (Unit {0})
  keep_if false node = pure tt
  keep_if true node = delete_chunks node.id

  -- finalizeEmpty
  unfoldable pub finalize_empty : Node → Exec (Unit {0})
  finalize_empty node = with_tx (mark_stored_if_owner node.id owner >>= λ owned. keep_if owned node)
