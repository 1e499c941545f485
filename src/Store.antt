-- ===== src/Store.antt =====
-- The database as the repositories see it (internal/repository), transactions (internal/database/tx.go)
-- and the actions that the services build from repository calls.
--
-- A table is the list of its rows. A call may fail for a reason of its own (the connection, the
-- server): the world holds a schedule of such faults, one for each call still to be made, and what is
-- proved holds for every schedule. `time.Now()` gives one instant within one operation.
pub mod Rules
pub mod Always
pub mod Reads
use tgwebdav.Base.{ℕ, suc, Bool, true, false, Option, List, [], ◌∷◌, ◌==◌, ◌&&◌, ◌||◌, some_by}
use tgwebdav.BlobCache.{Cache}
use tgwebdav.Model.{
  Uuid, Instant, Bytes, Node, Extent, WalChunk, Blob, User, ApiToken, Channel, BotChannel,
  BlobBotFile, TgSendResult, Event,
}

-- The errors that the program tells apart with `errors.Is`; wrapping with `%w` keeps them.
pub data Error : Type 0 where
  not_found already_exists : Error  -- repository/errors.go
  not_exist exist permission invalid closed eof unexpected_eof : Error  -- os, io
  quota_exceeded : Error  -- webdavfs/errors.go
  unauthorized forbidden no_bot blob_unavailable : Error  -- service/errors.go
  message_not_found tg_forbidden : Error  -- client/telegram
  rate_limited : ℕ → Error  -- telegram.RateLimitError, with its RetryAfter
  blob_corrupt : Error  -- service/blob.go
  panicked : Error  -- a run-time panic
  storage : Error  -- any other failure of a call

pub data Result {ℓ} (A : Type ℓ) : Type ℓ where
  ok : A → Result A
  err : Error → Result A

-- A row of `nodes`: the columns that the repository maps to model.Node, and the packer's lease.
pub record NodeRow : Type 0 where
  pub node : Node
  pub lease_owner : ℕ
  pub lease_until : Option Instant

-- A row of `bots`: the token is kept encrypted, beside its digest.
pub record BotRow : Type 0 where
  pub id : Uuid
  pub username : Bytes
  pub token_sha : Bytes
  pub token_enc : Bytes
  pub enabled : Bool
  pub unavailable_until : Option Instant
  pub created_at : Instant

-- What Telegram answers to one call: the bytes of a file, a message sent, a bot's name, a chat's title
-- and whether the bot is a member, or a failure.
pub data Reply : Type 0 where
  gave : Bytes → Reply
  sent : TgSendResult → Reply
  named : Bytes → Reply
  chat : Bytes → Bool → Reply
  failed : Error → Reply

-- A call of the Telegram client: the bot and what it asks for.
pub data Call : Type 0 where
  download : Uuid → Bytes → Call
  forward_message : Uuid → ℕ → ℕ → ℕ → Call
  delete_message : Uuid → ℕ → ℕ → Call
  get_me : Uuid → Call
  get_chat : Uuid → ℕ → Call

pub record Db : Type 0 where
  pub users : List User
  pub api_tokens : List ApiToken
  pub channels : List Channel
  pub bots : List BotRow
  pub bot_channels : List BotChannel
  pub blob_bot_files : List BlobBotFile
  pub events : List Event
  pub nodes : List NodeRow
  pub extents : List Extent
  pub wal_chunks : List WalChunk
  pub blobs : List Blob

pub record World : Type 0 where
  pub db : Db
  pub faults : List Bool
  -- whether the context carries a transaction
  pub in_tx : Bool
  -- whether a statement has failed in that transaction: the server then refuses the later ones
  pub tx_aborted : Bool
  -- how many identifiers `uuid.New` has given
  pub drawn : ℕ
  pub now : Instant
  -- FileSystem.rootReady, in the process's memory: the users whose root is known to exist
  pub root_ready : List Uuid
  -- the disk cache of blobs
  pub cache : Cache
  -- AuthService.vc, in the process's memory: when a verified key expires
  pub verified : List (Bytes × Instant)
  -- BotService.rr, ChannelService.rr, in the process's memory
  pub bot_rr : ℕ
  pub channel_rr : ℕ
  -- what Telegram answers to the calls still to be made
  pub replies : List Reply
  -- the calls made, newest first
  pub calls : List Call

abbrev pub Exec : Type 0 → Type 0
Exec A = World → Result A × World

module _ {A : Type 0} where
  abbrev pub pure : A → Exec A
  pure a w = (ok a, w)

  abbrev pub raise : Error → Exec A
  raise e w = (err e, w)

module _ {A B : Type 0} where
  abbrev pub continue : Result A → (A → Exec B) → Exec B
  continue (ok a) f w = f a w
  continue (err e) f w = (err e, w)

  infixl 10 ◌>>=◌ ◌>>◌
  unfoldable pub ◌>>=◌ : Exec A → (A → Exec B) → Exec B
  ◌>>=◌ m f w = let (r, w') = m w in continue r f w'

  abbrev pub ◌>>◌ : Exec A → Exec B → Exec B
  m >> n = m >>= λ _. n

  -- Go's `if err != nil { … }`: the handler sees the outcome, good or bad.
  unfoldable pub attempt : Exec A → (Result A → Exec B) → Exec B
  attempt m f w = let (r, w') = m w in f r w'

-- Whether the next call fails for a reason of its own, and the schedule after it.
abbrev pub next_fault : List Bool → Bool × List Bool
next_fault [] = (false, [])
next_fault (b ∷ rest) = (b, rest)

-- An error of the server. Finding no row is none, and the transaction goes on.
abbrev pub is_refusal : {A : Type 0} → Result A → Bool
is_refusal (ok a) = false
is_refusal (err not_found) = false
is_refusal (err e) = true

-- Whether the next statement fails whatever it asks for.
abbrev pub is_refused : World → Bool
is_refused w = (w.in_tx && w.tx_aborted) || (next_fault w.faults).0

-- Whether a commit fails: the server rolls an aborted transaction back.
abbrev pub is_lost : World → Bool
is_lost w = w.tx_aborted || (next_fault w.faults).0

module _ {A : Type 0} where
  abbrev pub answer : Bool → List Bool → (Db → Result A × Db) → Exec A
  answer true rest q w = (err storage, record w { faults = rest; tx_aborted = true })
  answer false rest q w = (
    (q w.db).0,
    record w { db = (q w.db).1; faults = rest; tx_aborted = is_refusal (q w.db).0 || w.tx_aborted },
  )

  -- One statement sent to the server.
  unfoldable pub query : (Db → Result A × Db) → Exec A
  query q w = answer (is_refused w) (next_fault w.faults).1 q w

  abbrev pub commit : Bool → List Bool → Db → A → Exec A
  commit true rest before a w =
      (err storage, record w { db = before; faults = rest; in_tx = false })
  commit false rest before a w = (ok a, record w { faults = rest; in_tx = false })

  -- The end of a transaction that began at the tables `before`. A commit is a call, too.
  abbrev pub end_tx : Db → Result A → Exec A
  end_tx before (ok a) w = commit (is_lost w) (next_fault w.faults).1 before a w
  end_tx before (err e) w = (err e, record w { db = before; in_tx = false })

  abbrev pub begin_tx : Bool → Bool → List Bool → Exec A → Exec A
  begin_tx true fault rest m w = m w
  begin_tx false true rest m w = (err storage, record w { faults = rest })
  begin_tx false false rest m w =
      let (r, w') = m (record w { faults = rest; in_tx = true; tx_aborted = false }) in
      end_tx w.db r w'

  -- TxManager.WithTx: a call within a transaction joins it; otherwise an error rolls back to the
  -- tables as they were.
  unfoldable pub with_tx : Exec A → Exec A
  with_tx m w = begin_tx w.in_tx (next_fault w.faults).0 (next_fault w.faults).1 m w

-- `if test { return err }`
unfoldable pub fail_if : Bool → Error → Exec (Unit {0})
fail_if true e = raise e
fail_if false e = pure tt

-- `uuid.New()`, whose values are the stream `uuids`.
unfoldable pub new_id : (ℕ → Uuid) → Exec Uuid
new_id uuids w = (ok (uuids w.drawn), record w { drawn = suc w.drawn })

-- `time.Now()`
unfoldable pub get_now : Exec Instant
get_now w = (ok w.now, w)

-- `rootReady.Load`, `rootReady.Store`
unfoldable pub is_ready : Uuid → Exec Bool
is_ready user w = (ok (some_by (λ k. k == user) w.root_ready), w)

unfoldable pub mark_ready : Uuid → Exec (Unit {0})
mark_ready user w = (ok tt, record w { root_ready = user ∷ w.root_ready })

-- A call of the Telegram client, and the next answer of the schedule. A schedule that has run out
-- answers no more.
abbrev pub next_reply : List Reply → Reply
next_reply [] = failed storage
next_reply (r ∷ rs) = r

abbrev pub later_replies : List Reply → List Reply
later_replies [] = []
later_replies (r ∷ rs) = rs

unfoldable pub call : Call → Exec Reply
call c w =
    (ok (next_reply w.replies), record w { replies = later_replies w.replies; calls = c ∷ w.calls })

-- A call whose failure is only logged.
unfoldable pub ignore : {A : Type 0} → Exec A → Exec (Unit {0})
unfolding attempt
ignore m = attempt m (λ _. pure tt)
