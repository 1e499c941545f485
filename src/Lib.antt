-- ===== src/Lib.antt =====
-- The storage core of tgwebdav, a WebDAV server that keeps file contents in Telegram channels.
--
-- A PUT is buffered into a write-ahead log in Postgres as numbered chunks; a packer later moves
-- buffered files into blobs, each an upload to a channel, and leaves extents that say which range of a
-- file lies where in which blob; blobs count the extents on them. Reads take the log or the blobs,
-- the latter through a cache on disk.
--
-- Model: the domain types (internal/model). Identifiers, instants, digests and labels are numbers,
-- names and contents lists of bytes, sizes natural numbers.
-- Store: tables, transactions (internal/database/tx.go) and actions. A service method is a function
-- from a world to a result and a world; a schedule in the world says which calls of the server fail,
-- and the theorems hold for every schedule. After a statement that fails in a transaction, the later ones
-- and the commit fail. Store/Rules: the program logic that the proofs use.
-- Repository: the statements of internal/repository and internal/repository/sqlc as functions on
-- tables, with their unique keys, foreign keys and cascades. Rows: lemmas on tables as lists of rows.
-- Wal: the chunks of a file and WALRepository.ReadRange.
-- WebdavFs: internal/service/webdavfs. Env holds what comes from other packages (uuid.New, SHA-256,
-- mime types, Unicode normal form); Paths is normalize with the parts of Go's path package that it
-- uses; Writer is writeFile of file.go, Reader
-- its extentReader and LogReader its walReader; Tree is fs.go; Moves is Rename and copy.go; Balance,
-- Truncate, Sharing, Removal, Delete and DeleteAll are about the reference counts; Subtree and Deleted about the trees that the
-- rows form, each path its parent's with one more name.
-- Packer: splitLarge and finalize of internal/service/wal.go. Pieces is about the extents that
-- splitting plans, Finalize about the transaction that records them,
-- Protocol about the track that the builder and the workers share: it counts the calls of finalize and
-- ReleaseLease, and apart from them those that take effect.
-- BlobCache: internal/service/cache/blobcache.go.
-- BlobReader: ReadBlob of internal/service/blob.go, over the cache and Telegram. The client's answers are a
-- schedule in the world, as the faults are: what is proved holds for every one. Attempts has the rules,
-- Genuine is about the integrity of what is read, GivenUp about lost messages, Usable and
-- Candidates about the bots. Store/Always and Store/Reads: program logics for the whole world, and for
-- actions that only read.
-- Services: the availability of channels, shared by internal/service/bot.go and channel.go; Bots and
-- Channels are the two services, Maintenance is reap and evict of maintenance.go. Served and
-- Availability are about re-evaluation, Picks and Rounds about the choices for an upload, Retention and Reaping
-- about what housekeeping takes. A settings' threshold is an argument; GetMe and GetChat are answers
-- of the schedule. Chat ids are kept without their sign: the program makes only negative ones.
-- Accounts: Auth and Users are internal/service/auth.go and user.go, Middleware is auth.go of
-- internal/handler/http/middleware, Limits is internal/service/limits.go; Verified and Bearer are about
-- who is let in. Hashing of passwords, SHA-256 and the token buckets of golang.org/x/time are arguments.
-- Tests: runs at small inputs.
--
-- Loops: the loop of Write has the length of the buffer as fuel, the loop that copies a log the size
-- of the file, as has the loop of splitLarge, and eviction and the sweep have the number of entries;
-- each round takes at least one away. The
-- depth to which Copy follows directories is an argument.
--
-- Not modelled: the seeking and the directory listing of file.go, the packing of small
-- files and the uploads of internal/service/wal.go, read-ahead, the timers of maintenance.go, the
-- format of password hashes. Left out: the Telegram client, the HTTP
-- handlers, statistics and events, generated code and the command line, which hold no state of the
-- core. Go's int64 sizes are natural numbers here: the program never makes one negative, save where
-- the comments say so, and no content nears 2 ^ 63 bytes.
pub mod Base
pub mod Model
pub mod Store
pub mod Repository
pub mod Wal
pub mod WebdavFs
pub mod BlobCache
pub mod Packer
pub mod BlobReader
pub mod Accounts
pub mod Services
pub mod Tests
