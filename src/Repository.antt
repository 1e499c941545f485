-- ===== src/Repository.antt =====
-- internal/repository over db/schema.sql: each method is one statement, with the constraints, the
-- foreign keys and the cascades that the schema declares for the tables of `Db`.
pub mod Nodes
pub mod Extents
pub mod Blobs
pub mod WalChunks
pub mod Leases
pub mod Order
pub mod Rows
pub mod Users
pub mod Tokens
pub mod Channels
pub mod Bots
pub mod Memberships
pub mod BotFiles
pub mod Events
