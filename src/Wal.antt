-- ===== src/Wal.antt =====
-- The write-ahead log of a file's content: the chunks that a writer leaves in `wal_chunks`
-- (internal/service/webdavfs/file.go) and the windows that readers fetch from them
-- (internal/repository/wal.go).
pub mod Windows
