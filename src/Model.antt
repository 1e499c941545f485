-- ===== src/Model.antt =====
-- The domain types of internal/model. Identifiers (uuid.UUID), instants (time.Time) and the digests
-- and labels that the program only passes on are numbers, 0 for the empty string; texts and contents
-- are lists of bytes.
use tgwebdav.Base.{ℕ, Bool, true, false, not, ◌&&◌, ◌==◌, Option, none, some, List, ltb}
use tgwebdav.Base.Int.{ℤ}

abbrev pub Uuid : Type 0
Uuid = ℕ

abbrev pub Instant : Type 0
Instant = ℕ

abbrev pub Bytes : Type 0
Bytes = List ℕ

-- node.go: NodeState
pub data NodeState : Type 0 where
  writing buffered stored : NodeState

-- blob.go: BlobState
pub data BlobState : Type 0 where
  open_blob sealed uploading stored_blob unavailable perm_unavailable : BlobState

-- BlobState.Readable
unfoldable pub is_readable : BlobState → Bool
is_readable stored_blob = true
is_readable _ = false

-- node.go: Node
pub record Node : Type 0 where
  pub id : Uuid
  pub user_id : Uuid
  pub parent_id : Option Uuid
  pub name : Bytes
  pub path : Bytes
  pub is_dir : Bool
  pub size : ℕ
  pub content_hash : ℕ
  pub etag : ℕ
  pub content_type : ℕ
  pub state : NodeState
  pub created_at : Instant
  pub modified_at : Instant

-- extent.go: Extent
pub record Extent : Type 0 where
  pub id : Uuid
  pub node_id : Uuid
  pub seq : ℕ
  pub file_offset : ℕ
  pub length : ℕ
  pub blob_id : Uuid
  pub blob_offset : ℕ

-- wal.go: WALChunk
pub record WalChunk : Type 0 where
  pub id : Uuid
  pub node_id : Uuid
  pub seq : ℕ
  pub bytes : Bytes
  pub created_at : Instant

-- wal.go: WALChunkSize, 1 MiB. The proofs take the chunk size as a parameter and need only that it is
-- not zero; this is the value that the program gives it.
abbrev pub wal_chunk_size : ℕ
wal_chunk_size = 1048576

-- blob.go: Blob
pub record Blob : Type 0 where
  pub id : Uuid
  pub channel_id : Uuid
  pub message_id : ℕ
  pub message_seq : ℕ
  pub size : ℕ
  pub content_hash : Bytes
  pub state : BlobState
  pub refcount : ℤ
  pub created_at : Instant
  pub sealed_at : Option Instant

-- user.go: User
pub record User : Type 0 where
  pub id : Uuid
  pub login : Bytes
  pub password_hash : Bytes
  pub is_admin : Bool
  pub quota_bytes : ℕ
  pub bandwidth_bps : ℕ
  pub rate_per_min : ℕ
  pub created_at : Instant

-- bot.go: Bot
pub record Bot : Type 0 where
  pub id : Uuid
  pub username : Bytes
  pub token : Bytes
  pub enabled : Bool
  pub unavailable_until : Option Instant
  pub created_at : Instant

-- Bot.Available
unfoldable pub is_available : Bot → Instant → Bool
is_available b now =
    b.enabled && elim b.unavailable_until [ none ↦ true | some until ↦ not (ltb now until) ]

-- user.go, token.go: APIToken
pub record ApiToken : Type 0 where
  pub id : Uuid
  pub user_id : Uuid
  pub token_hash : Bytes
  pub name : Bytes
  pub created_at : Instant
  pub last_used_at : Option Instant

-- principal.go: Principal; both pointers are set wherever the program builds one
pub record Principal : Type 0 where
  pub acting : User
  pub auth : User

-- Principal.IsAdmin, Principal.Impersonating
unfoldable pub is_admin_principal : Principal → Bool
is_admin_principal p = p.auth.is_admin

unfoldable pub is_impersonating : Principal → Bool
is_impersonating p = not (p.acting.id == p.auth.id)

-- channel.go: Channel; `tg_chat_id` without its sign, which the program always makes negative
pub record Channel : Type 0 where
  pub id : Uuid
  pub tg_chat_id : ℕ
  pub title : Bytes
  pub message_counter : ℕ
  pub eviction_threshold : ℕ
  pub available : Bool
  pub created_at : Instant

-- botchannel.go: BotChannel
pub record BotChannel : Type 0 where
  pub bot_id : Uuid
  pub channel_id : Uuid
  pub member : Bool
  pub checked_at : Instant

-- blobbotfile.go: BlobBotFile
pub record BlobBotFile : Type 0 where
  pub blob_id : Uuid
  pub bot_id : Uuid
  pub file_id : Bytes
  pub file_unique_id : Bytes
  pub fetched_at : Instant

-- telegram.go: TGSendResult
pub record TgSendResult : Type 0 where
  pub message_id : ℕ
  pub file_id : Bytes
  pub file_unique_id : Bytes

-- event.go: the kinds of events
pub data EventKind : Type 0 where
  event_blob_unavailable event_blob_perm_deleted event_blob_corrupt event_blob_reaped : EventKind
  event_cascade_delete event_bot_disabled event_bot_unavailable event_channel_evicted : EventKind
  event_channel_disabled event_upload_failed : EventKind

-- event.go: Event, without its text; `ref` is the id that the text of the code's `Ref` spells
pub record Event : Type 0 where
  pub id : Uuid
  pub ts : Instant
  pub kind : EventKind
  pub ref : Uuid
