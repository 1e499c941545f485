-- ===== src/BlobReader.antt =====
-- internal/service/blob.go: BlobReader, which brings the bytes of a blob from the cache or from Telegram.
--
-- The statistics that the code counts, its log lines and the read-ahead are left out. A failure that
-- the code only logs is `ignore`d.
pub mod Attempts
pub mod Genuine
pub mod GivenUp
pub mod Usable
pub mod Candidates
use tgwebdav.Base.{
  ℕ, ◌+◌, Bool, true, false, not, ◌&&◌, ◌||◌, Option, none, some, List, [], ◌∷◌, ◌++◌, ◌==◌, length,
  bytes_eq, if◌then◌else◌, keep, some_by,
}
use tgwebdav.BlobCache.{Cache, get, put}
use tgwebdav.Model.{
  Uuid, Instant, Bytes, Blob, perm_unavailable, is_readable, Bot, is_available, Channel, BotChannel,
  BlobBotFile, TgSendResult, event_blob_corrupt, event_blob_perm_deleted, event_cascade_delete,
  event_bot_unavailable,
}
use tgwebdav.Repository.Blobs.{get_blob, set_state}
use tgwebdav.Repository.BotFiles.{list_by_blob, upsert_file, delete_by_blob}
use tgwebdav.Repository.Bots.{Cipher, list_by_ids, set_unavailable_until}
use tgwebdav.Repository.Channels.{get_channel}
use tgwebdav.Repository.Events.{log}
use tgwebdav.Repository.Extents.{list_nodes_solely_on_blob}
use tgwebdav.Repository.Memberships.{list_by_channel, upsert}
use tgwebdav.Repository.Nodes.{delete_node}
use tgwebdav.Store.{
  Error, Result, ok, err, message_not_found, tg_forbidden, rate_limited, blob_corrupt,
  blob_unavailable, storage, Reply, gave, sent, named, chat, failed, Call, download,
  forward_message, delete_message, Exec, pure, raise, ◌>>=◌, ◌>>◌, attempt, ignore, next_fault,
  with_tx, fail_if, get_now, call,
}

pub record ReaderEnv : Type 0 where
  pub uuids : ℕ → Uuid
  pub key : Option Cipher
  pub sha256 : Bytes → Bytes
  -- whether the file system lets a file of the cache be removed
  pub can_remove : Uuid → Bool

-- candidate; the file_id is empty where none is known
pub record Candidate : Type 0 where
  pub bot : Bot
  pub file_id : Bytes

-- What came of one candidate: tryCandidate's `(data, gone, err)`.
pub data Outcome : Type 0 where
  got : Bytes → Outcome
  message_gone : Outcome
  lost : Error → Outcome

-- telegram.Client, by the answers that it gives
abbrev pub file_reply : Reply → Exec Bytes
file_reply (gave bytes) = pure bytes
file_reply (sent m) = raise storage
file_reply (named n) = raise storage
file_reply (chat t m) = raise storage
file_reply (failed e) = raise e

abbrev pub send_reply : Reply → Exec TgSendResult
send_reply (gave bytes) = raise storage
send_reply (sent m) = pure m
send_reply (named n) = raise storage
send_reply (chat t m) = raise storage
send_reply (failed e) = raise e

abbrev pub done_reply : Reply → Exec (Unit {0})
done_reply (gave bytes) = pure tt
done_reply (sent m) = pure tt
done_reply (named n) = pure tt
done_reply (chat t m) = pure tt
done_reply (failed e) = raise e

unfoldable pub download_file : Bot → Bytes → Exec Bytes
download_file bot file_id = call (download bot.id file_id) >>= file_reply

unfoldable pub forward : Bot → ℕ → ℕ → ℕ → Exec TgSendResult
forward bot to from message = call (forward_message bot.id to from message) >>= send_reply

unfoldable pub delete_copy : Bot → ℕ → ℕ → Exec (Unit {0})
delete_copy bot room message = call (delete_message bot.id room message) >>= done_reply

-- the members' ids, each once
unfoldable pub member_ids : List Uuid → List BotChannel → List Uuid
member_ids seen [] = []
member_ids seen (m ∷ ms) =
    let new = m.bot_id ∷ member_ids (m.bot_id ∷ seen) ms in
    let rest = member_ids seen ms in
    if not m.member || some_by (λ k. k == m.bot_id) seen then rest else new

-- a lookup in a map that was filled from a list, where a later entry replaces an earlier one
abbrev pub bot_in : Uuid → List Bot → Option Bot
bot_in id [] = none
bot_in id (b ∷ bs) =
    let rest = bot_in id bs in
    elim rest [ some c ↦ some c | none ↦ if b.id == id then some b else none ]

abbrev pub file_in : Uuid → List BlobBotFile → Option Bytes
file_in id [] = none
file_in id (f ∷ fs) =
    let rest = file_in id fs in
    elim rest [ some g ↦ some g | none ↦ if f.bot_id == id then some f.file_id else none ]

abbrev pub if_usable : Instant → Option Bot → List Bot → List Bot
if_usable now none rest = rest
if_usable now (some b) rest = if is_available b now then b ∷ rest else rest

-- `order`, with the bots that `usable` holds
unfoldable pub usable_bots : Instant → List Bot → List Uuid → List Bot
unfolding is_available
usable_bots now loaded [] = []
usable_bots now loaded (id ∷ ids) = if_usable now (bot_in id loaded) (usable_bots now loaded ids)

abbrev pub cached_next : Option Bytes → Bot → List Candidate → List Candidate
cached_next none b rest = rest
cached_next (some file_id) b rest = record { bot = b; file_id = file_id } ∷ rest

-- "1. Fast path"
unfoldable pub fast : List BlobBotFile → List Bot → List Candidate
fast files [] = []
fast files (b ∷ bs) = cached_next (file_in b.id files) b (fast files bs)

-- `added`, after the first loop
unfoldable pub added_by_fast : List Candidate → List Uuid
added_by_fast [] = []
added_by_fast (c ∷ cs) = c.bot.id ∷ added_by_fast cs

-- "2. Remaining usable member bots"
unfoldable pub remaining : List Uuid → List Bot → List Candidate
remaining added [] = []
remaining added (b ∷ bs) =
    let rest = remaining added bs in
    let new = record { bot = b; file_id = [] } ∷ remaining (b.id ∷ added) bs in
    if some_by (λ k. k == b.id) added then rest else new

unfoldable pub arrange : List BlobBotFile → List Bot → List Candidate
unfolding fast added_by_fast remaining
arrange files bots = fast files bots ++ remaining (added_by_fast (fast files bots)) bots

module _ (env : ReaderEnv) where
  -- candidates
  unfoldable pub candidates : Blob → Exec (List Candidate)
  unfolding member_ids usable_bots arrange
  candidates blob = do
    now ← get_now
    links ← list_by_channel blob.channel_id
    loaded ← list_by_ids env.key (member_ids [] links)
    files ← list_by_blob blob.id
    pure (arrange files (usable_bots now loaded (member_ids [] links)))

  -- verifyIntegrity
  unfoldable pub is_intact : Blob → Bytes → Bool
  is_intact blob bytes =
      length blob.content_hash == 0 || bytes_eq (env.sha256 bytes) blob.content_hash

  unfoldable pub verify_integrity : Blob → Bytes → Exec (Unit {0})
  unfolding is_intact
  verify_integrity blob bytes =
      if is_intact blob bytes
      then pure tt
      else (ignore (log env.uuids event_blob_corrupt blob.id) >> raise blob_corrupt)

  -- deleteStaleFileID
  unfoldable pub delete_stale : Blob → Exec (Unit {0})
  delete_stale blob = ignore (delete_by_blob blob.id)

  -- parkBot
  unfoldable pub park_bot : Bot → ℕ → Exec (Unit {0})
  park_bot bot retry_after = do
    now ← get_now
    ignore (set_unavailable_until bot.id (some (now + retry_after)))
    ignore (log env.uuids event_bot_unavailable bot.id)

  -- recordNonMember
  unfoldable pub record_non_member : Bot → Channel → Exec (Unit {0})
  record_non_member bot channel = do
    now ← get_now
    ignore (
        upsert
          (record { bot_id = bot.id; channel_id = channel.id; member = false; checked_at = now }))

  -- bestEffortDelete
  unfoldable pub best_effort_delete : Bot → ℕ → ℕ → Exec (Unit {0})
  best_effort_delete bot room message =
      if message == 0 then pure tt else ignore (delete_copy bot room message)

  -- the cases that a failed call of the client has in common
  unfoldable pub give_up : Bot → Channel → Error → Exec Outcome
  unfolding park_bot record_non_member
  give_up bot channel (rate_limited retry_after) =
      park_bot bot retry_after >> pure (lost (rate_limited retry_after))
  give_up bot channel tg_forbidden = record_non_member bot channel >> pure (lost tg_forbidden)
  give_up bot channel e = pure (lost e)

  abbrev pub if_verified : Blob → Bot → TgSendResult → Bytes → Result (Unit {0}) → Exec Outcome
  if_verified blob bot res bytes (err e) = pure (lost e)
  if_verified blob bot res bytes (ok _) = do
    now ← get_now
    ignore (
        upsert_file (record {
          blob_id = blob.id;
          bot_id = bot.id;
          file_id = res.file_id;
          file_unique_id = res.file_unique_id;
          fetched_at = now;
        }))
    pure (got bytes)

  abbrev pub recovered : Blob → Channel → Bot → TgSendResult → Result Bytes → Exec Outcome
  recovered blob channel bot res (err e) =
      best_effort_delete bot channel.tg_chat_id res.message_id >> give_up bot channel e
  recovered blob channel bot res (ok bytes) =
      best_effort_delete bot channel.tg_chat_id res.message_id
      >> attempt (verify_integrity blob bytes) (if_verified blob bot res bytes)

  abbrev pub forwarded : Blob → Channel → Bot → Result TgSendResult → Exec Outcome
  forwarded blob channel bot (ok res) =
      attempt (download_file bot res.file_id) (recovered blob channel bot res)
  forwarded blob channel bot (err message_not_found) = pure message_gone
  forwarded blob channel bot (err e) = give_up bot channel e

  -- forward-recovery
  unfoldable pub recover : Blob → Channel → Bot → Exec Outcome
  unfolding give_up verify_integrity best_effort_delete
  recover blob channel bot =
      attempt (forward bot channel.tg_chat_id channel.tg_chat_id blob.message_id)
        (forwarded blob channel bot)

  abbrev pub if_fresh : Blob → Channel → Bot → Bytes → Result (Unit {0}) → Exec Outcome
  if_fresh blob channel bot bytes (ok _) = pure (got bytes)
  if_fresh blob channel bot bytes (err e) = delete_stale blob >> recover blob channel bot

  abbrev pub from_cached : Blob → Channel → Bot → Result Bytes → Exec Outcome
  from_cached blob channel bot (ok bytes) =
      attempt (verify_integrity blob bytes) (if_fresh blob channel bot bytes)
  from_cached blob channel bot (err message_not_found) =
      delete_stale blob >> recover blob channel bot
  from_cached blob channel bot (err e) = give_up bot channel e

  -- tryCandidate
  unfoldable pub try_candidate : Blob → Channel → Candidate → Exec Outcome
  unfolding recover delete_stale give_up verify_integrity
  try_candidate blob channel c =
      if length c.file_id == 0
      then recover blob channel c.bot
      else attempt (download_file c.bot c.file_id) (from_cached blob channel c.bot)

  -- the loop of markPermUnavailable
  unfoldable pub delete_nodes : List Uuid → Exec (Unit {0})
  delete_nodes [] = pure tt
  delete_nodes (id ∷ ids) = do
    delete_node id
    log env.uuids event_cascade_delete id
    delete_nodes ids

  -- markPermUnavailable
  unfoldable pub perm_body : Blob → Exec (Unit {0})
  unfolding delete_nodes
  perm_body blob = do
    set_state blob.id perm_unavailable
    log env.uuids event_blob_perm_deleted blob.id
    ids ← list_nodes_solely_on_blob blob.id
    delete_nodes ids

  unfoldable pub mark_perm_unavailable : Blob → Exec (Unit {0})
  unfolding perm_body
  mark_perm_unavailable blob = ignore (with_tx (perm_body blob))

  -- cache.Get
  abbrev pub cache_get : Uuid → Exec (Option Bytes)
  cache_get id w = (
    ok (get env.can_remove w.cache id w.now).1,
    record w { cache = (get env.can_remove w.cache id w.now).0 },
  )

  -- cache.Put, which fails where the next call of the schedule does
  abbrev pub cache_put : Uuid → Bytes → Exec (Unit {0})
  cache_put id bytes w = (
    ok tt,
    record w {
      cache = (put env.can_remove (not (next_fault w.faults).0) w.cache id bytes w.now).0;
      faults = (next_fault w.faults).1;
    },
  )

  abbrev pub after_try : Blob → Bool → (Bool → Exec Bytes) → Outcome → Exec Bytes
  after_try blob gone again (got bytes) = cache_put blob.id bytes >> pure bytes
  after_try blob gone again message_gone = again true
  after_try blob gone again (lost e) = again gone

  -- the loop of ReadBlob over the candidates, and what follows it
  unfoldable pub try_all : Blob → Channel → Bool → List Candidate → Exec Bytes
  unfolding try_candidate mark_perm_unavailable
  try_all blob channel gone [] =
      if gone
      then (mark_perm_unavailable blob >> raise blob_unavailable)
      else raise blob_unavailable
  try_all blob channel gone (c ∷ cs) =
      try_candidate blob channel c >>= after_try blob gone (λ g. try_all blob channel g cs)

  abbrev pub from_telegram : Blob → Exec Bytes
  from_telegram blob = do
    channel ← get_channel blob.channel_id
    cs ← candidates blob
    fail_if (length cs == 0) blob_unavailable
    try_all blob channel false cs

  abbrev pub if_cached : Blob → Option Bytes → Exec Bytes
  if_cached blob (some bytes) = pure bytes
  if_cached blob none = from_telegram blob

  -- ReadBlob
  unfoldable pub read_blob : Uuid → Exec Bytes
  unfolding candidates try_all
  read_blob id = do
    blob ← get_blob id
    fail_if (not (is_readable blob.state)) blob_unavailable
    cached ← cache_get id
    if_cached blob cached
