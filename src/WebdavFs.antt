-- ===== src/WebdavFs.antt =====
-- internal/service/webdavfs: the filesystem that the WebDAV handler serves.
pub mod Env
pub mod Paths
pub mod Tree
pub mod Moves
pub mod Balance
pub mod Subtree
pub mod Removal
pub mod Delete
pub mod DeleteAll
pub mod Deleted
pub mod Truncate
pub mod Sharing
pub mod Writer
pub mod Reader
pub mod LogReader
