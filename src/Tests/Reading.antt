-- ===== src/Tests/Reading.antt =====
-- A file read from its log, by slices that do not match its chunks.
use tgwebdav.Base.{◌≡◌, ◌⊎◌, refl, some, [], ◌∷◌, arith, drop}
use tgwebdav.Repository.Order.{order_by, insert_by}
use tgwebdav.Repository.WalChunks.{chunks_in, assemble, window, range_of, read_range}
use tgwebdav.Store.{storage, ok, err, World, ◌>>=◌, attempt, query}
use tgwebdav.Tests.Files.{chunk, tables, world}
use tgwebdav.WebdavFs.LogReader.{refill, read_log, drain_log, logged, reader_at, drain_log-content}

-- Five bytes in chunks of two, beside another file's chunk.
abbrev buffered : World
buffered = record world {
  db = record tables {
    wal_chunks =
        chunk 7 0 (1 ∷ 2 ∷ [])
        ∷ chunk 8 0 (9 ∷ 9 ∷ [])
        ∷ chunk 7 1 (3 ∷ 4 ∷ [])
        ∷ chunk 7 2 (5 ∷ [])
        ∷ [];
  };
}

read_to_end : (drain_log 2 3 9 (reader_at 7 5 1) buffered).0 ≡ ok (some (2 ∷ 3 ∷ 4 ∷ 5 ∷ []))
unfolding drain_log read_log refill read_range range_of chunks_in order_by insert_by window assemble
    ◌>>=◌ attempt query
read_to_end = refl

drain_log-content_example :
    (((drain_log 2 3 9 (reader_at 7 5 1) buffered).0 ≡ ok (some (drop 1 (logged 2 7 buffered))))
      ⊎ ((drain_log 2 3 9 (reader_at 7 5 1) buffered).0 ≡ err storage))
    × ((drain_log 2 3 9 (reader_at 7 5 1) buffered).1.db ≡ buffered.db)
unfolding assemble
drain_log-content_example =
    drain_log-content 2 (omega arith) buffered 7
      (refl, refl, (refl, refl, (refl, (omega arith, omega arith), tt))) 1 3 9 (omega arith)
      (omega arith)
