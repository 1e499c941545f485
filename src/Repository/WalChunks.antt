-- ===== src/Repository/WalChunks.antt =====
-- internal/repository/wal.go and the queries of db/query/wal.sql.
use tgwebdav.Base.{
  Bool, true, false, ℕ, ◌+◌, ◌-◌, ◌*◌, ◌/◌, ◌&&◌, ◌||◌, List, [], ◌∷◌, ◌++◌, ltb, leb, ◌==◌,
  if◌then◌else◌, length, slice, keep, some_by, sum_by, not,
}
use tgwebdav.Model.{Uuid, Bytes, WalChunk}
use tgwebdav.Repository.Order.{order_by}
use tgwebdav.Store.{Result, ok, err, already_exists, storage, Db, Exec, NodeRow, query, pure}

-- The unique keys of `wal_chunks`.
unfoldable pub is_taken : WalChunk → List WalChunk → Bool
is_taken c rows =
    some_by (λ (r : WalChunk). r.id == c.id || (r.node_id == c.node_id && r.seq == c.seq)) rows

-- The foreign key to `nodes`.
unfoldable pub has_node : Uuid → List NodeRow → Bool
has_node id rows = some_by (λ (r : NodeRow). r.node.id == id) rows

abbrev pub insert_chunk_if : Bool → Bool → WalChunk → Db → Result (Unit {0}) × Db
insert_chunk_if true known c d = (err already_exists, d)
insert_chunk_if false true c d = (ok tt, record d { wal_chunks = d.wal_chunks ++ c ∷ [] })
insert_chunk_if false false c d = (err storage, d)

unfoldable pub insert_chunk : WalChunk → Db → Result (Unit {0}) × Db
unfolding is_taken has_node
insert_chunk c d = insert_chunk_if (is_taken c d.wal_chunks) (has_node c.node_id d.nodes) c d

-- WALRepository.AppendChunk
unfoldable pub append_chunk : WalChunk → Exec (Unit {0})
append_chunk c = query (insert_chunk c)

-- ListWALChunksByNodeSeqRange
unfoldable pub chunks_in : Uuid → ℕ → ℕ → List WalChunk → List WalChunk
chunks_in node_id first last rows =
    order_by (λ (c : WalChunk). c.seq)
      (keep (λ (c : WalChunk). c.node_id == node_id && (leb first c.seq && leb c.seq last)) rows)

-- the loop `assembled = append(assembled, row.Data...)`
unfoldable pub assemble : List WalChunk → Bytes
assemble [] = []
assemble (c ∷ cs) = c.bytes ++ assemble cs

-- The window `from:to` of what was assembled, its end clamped to what is there.
unfoldable pub window : Bytes → ℕ → ℕ → Bytes
window assembled from end =
    let to = if ltb (length assembled) end then length assembled else end in
    if leb to from then [] else slice from to assembled

-- WALRepository.ReadRange. A negative offset or length is not a number here; the code answers
-- it with no bytes.
module _ (chunk_size : ℕ) where
  unfoldable pub range_of : Uuid → ℕ → ℕ → List WalChunk → Bytes
  unfolding window
  range_of node_id offset len rows =
      let first = offset / chunk_size in
      let last = (offset + len - 1) / chunk_size in
      let base = first * chunk_size in
      if len == 0
      then []
      else window (assemble (chunks_in node_id first last rows)) (offset - base)
          (offset + len - base)

  -- no statement is sent for an empty window
  unfoldable pub read_range : Uuid → ℕ → ℕ → Exec Bytes
  read_range node_id offset len =
      if len == 0 then pure [] else query (λ d. (ok (range_of node_id offset len d.wal_chunks), d))

-- WALRepository.SizeByNode
unfoldable pub size_by_node : Uuid → List WalChunk → ℕ
size_by_node node_id rows =
    sum_by (λ (c : WalChunk). length c.bytes) (keep (λ (c : WalChunk). c.node_id == node_id) rows)

-- WALRepository.DeleteByNode
unfoldable pub without_chunks_of : Uuid → List WalChunk → List WalChunk
without_chunks_of node_id rows = keep (λ (c : WalChunk). not (c.node_id == node_id)) rows

unfoldable pub delete_chunks : Uuid → Exec (Unit {0})
delete_chunks node_id =
    query (λ d. (ok tt, record d { wal_chunks = without_chunks_of node_id d.wal_chunks }))
