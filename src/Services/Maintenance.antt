-- ===== src/Services/Maintenance.antt =====
-- The housekeeping of internal/service/maintenance.go: `reap` and `evict`, as one run of each with a
-- context that is not cancelled. Its timers and log lines are left out.
use tgwebdav.Base.{ℕ, ◌+◌, ◌-◌, Option, some, List, [], ◌∷◌, ltb, if◌then◌else◌}
use tgwebdav.Model.{Uuid, Bot, Blob, Channel, event_blob_reaped, event_channel_evicted}
use tgwebdav.BlobReader.{delete_copy}
use tgwebdav.Repository.Blobs.{list_collectable, delete_blob, evict_older_than}
use tgwebdav.Repository.Bots.{Cipher, set_unavailable_until}
use tgwebdav.Repository.Channels.{get_channel, list_channels}
use tgwebdav.Repository.Events.{log}
use tgwebdav.Services.Bots.{pick_for_upload}
use tgwebdav.Store.{
  message_not_found, rate_limited, Result, ok, err, Exec, pure, ◌>>=◌, ◌>>◌, attempt, ignore,
  get_now,
}

-- reapBatch
abbrev pub reap_batch : ℕ
reap_batch = 50

module _ (key : Option Cipher) (uuids : ℕ → Uuid) where
  -- The row is dropped, and the loop goes on with `rest`.
  unfoldable pub drop_row : Blob → Exec (Unit {0}) → Exec (Unit {0})
  drop_row b rest =
      attempt (delete_blob b.id)
        (λ r. elim r [ ok _ ↦ ignore (log uuids event_blob_reaped b.id) >> rest | err e ↦ rest ])

  -- what follows DeleteMessage
  unfoldable pub after_delete : Blob → Bot → Exec (Unit {0}) → Result (Unit {0}) → Exec (Unit {0})
  unfolding drop_row
  after_delete b bot rest (ok t) = drop_row b rest
  after_delete b bot rest (err message_not_found) = drop_row b rest
  after_delete b bot rest (err (rate_limited retry)) = do
    now ← get_now
    ignore (set_unavailable_until bot.id (some (now + retry)))
  after_delete b bot rest (err e) = rest

  abbrev pub with_bot : Blob → Channel → Exec (Unit {0}) → Result Bot → Exec (Unit {0})
  with_bot b ch rest (err e) = rest
  with_bot b ch rest (ok bot) =
      attempt (delete_copy bot ch.tg_chat_id b.message_id) (after_delete b bot rest)

  abbrev pub with_channel : Blob → Exec (Unit {0}) → Result Channel → Exec (Unit {0})
  with_channel b rest (err e) = rest
  with_channel b rest (ok ch) = attempt (pick_for_upload key b.channel_id) (with_bot b ch rest)

  -- the loop of reap
  unfoldable pub reap_each : List Blob → Exec (Unit {0})
  unfolding after_delete
  reap_each [] = pure tt
  reap_each (b ∷ bs) = attempt (get_channel b.channel_id) (with_channel b (reap_each bs))

  abbrev pub reap_listed : Result (List Blob) → Exec (Unit {0})
  reap_listed (err e) = pure tt
  reap_listed (ok bs) = reap_each bs

  -- reap
  unfoldable pub reap : Exec (Unit {0})
  unfolding reap_each
  reap = attempt (list_collectable reap_batch) reap_listed

module _ (uuids : ℕ → Uuid) where
  abbrev pub after_evict : Uuid → Exec (Unit {0}) → Result ℕ → Exec (Unit {0})
  after_evict id rest (err e) = rest
  after_evict id rest (ok n) =
      (if ltb 0 n then ignore (log uuids event_channel_evicted id) else pure tt) >> rest

  -- the loop of evict; on ℕ, a window that is not positive is zero
  unfoldable pub evict_each : List Channel → Exec (Unit {0})
  evict_each [] = pure tt
  evict_each (c ∷ cs) =
      let rest = evict_each cs in
      let min_seq = c.message_counter - c.eviction_threshold in
      if ltb 0 min_seq
      then attempt (evict_older_than c.id min_seq) (after_evict c.id rest)
      else rest

  abbrev pub evict_listed : Result (List Channel) → Exec (Unit {0})
  evict_listed (err e) = pure tt
  evict_listed (ok cs) = evict_each cs

  -- evict
  unfoldable pub evict : Exec (Unit {0})
  unfolding evict_each
  evict = attempt list_channels evict_listed
