-- ===== src/Repository/Blobs.antt =====
-- internal/repository/blob.go and the queries of db/query/blob.sql.
use tgwebdav.Base.{
  ℕ, Bool, true, false, not, ◌&&◌, List, [], ◌∷◌, ◌++◌, map, ltb, ◌==◌, if◌then◌else◌, keep,
  some_by, find_first, length, take, ◌+◌, Option, none, some,
}
use tgwebdav.Base.Int.{ℤ, pos, ◌+ℤ◌, lebℤ}
use tgwebdav.Model.{
  Uuid, Instant, BlobState, open_blob, sealed, uploading, stored_blob, unavailable,
  perm_unavailable, Blob, Channel, BlobBotFile, Extent,
}
use tgwebdav.Repository.Order.{order_by}
use tgwebdav.Store.{Result, ok, err, not_found, already_exists, storage, Db, Exec, query}

unfoldable pub state_eq : BlobState → BlobState → Bool
state_eq open_blob open_blob = true
state_eq sealed sealed = true
state_eq uploading uploading = true
state_eq stored_blob stored_blob = true
state_eq unavailable unavailable = true
state_eq perm_unavailable perm_unavailable = true
state_eq _ _ = false

-- `deltas map[uuid.UUID]int64`: for an id that is no key, 0.
abbrev pub Deltas : Type 0
Deltas = Uuid → ℤ

unfoldable pub add_delta : Deltas → Blob → Blob
add_delta deltas b = record b { refcount = b.refcount +ℤ deltas b.id }

-- AddBlobRefcounts
unfoldable pub add_refcounts : Deltas → Exec (Unit {0})
unfolding add_delta
add_refcounts deltas = query (λ d. (ok tt, record d { blobs = map (add_delta deltas) d.blobs }))

-- CreateBlob; the id is unique, and the channel must be there
unfoldable pub insert_blob : Blob → Db → Result (Unit {0}) × Db
insert_blob b d =
    if some_by (λ (r : Blob). r.id == b.id) d.blobs
    then (err already_exists, d)
    else if some_by (λ (c : Channel). c.id == b.channel_id) d.channels
    then (ok tt, record d { blobs = d.blobs ++ b ∷ [] })
    else (err storage, d)

unfoldable pub create_blob : Blob → Exec (Unit {0})
create_blob b = query (insert_blob b)

abbrev pub update_where : (Blob → Bool) → (Blob → Blob) → List Blob → List Blob
update_where p f [] = []
update_where p f (b ∷ bs) = let rest = update_where p f bs in if p b then f b ∷ rest else b ∷ rest

-- SetBlobState
unfoldable pub set_state_in : Uuid → BlobState → Db → Result (Unit {0}) × Db
set_state_in id s d =
    if some_by (λ (b : Blob). b.id == id) d.blobs
    then (
      ok tt,
      record d { blobs = update_where (λ b. b.id == id) (λ b. record b { state = s }) d.blobs },
    )
    else (err not_found, d)

unfoldable pub set_state : Uuid → BlobState → Exec (Unit {0})
set_state id s = query (set_state_in id s)

-- MarkChannelBlobsUnavailable: every blob of the channel that is not perm_unavailable.
unfoldable pub channel_lost : Uuid → List Blob → List Blob
unfolding state_eq
channel_lost channel_id bs =
    update_where (λ b. b.channel_id == channel_id && not (state_eq b.state perm_unavailable))
      (λ b. record b { state = unavailable }) bs

-- MarkChannelBlobsAvailable: every blob of the channel that is unavailable.
unfoldable pub channel_back : Uuid → List Blob → List Blob
unfolding state_eq
channel_back channel_id bs =
    update_where (λ b. b.channel_id == channel_id && state_eq b.state unavailable)
      (λ b. record b { state = stored_blob }) bs

-- EvictBlobsOlderThan
unfoldable pub evict_older : Uuid → ℕ → List Blob → List Blob
unfolding state_eq
evict_older channel_id min_seq bs =
    update_where
      (λ b.
        b.channel_id == channel_id
        && (ltb b.message_seq min_seq && not (state_eq b.state perm_unavailable)))
      (λ b. record b { state = unavailable }) bs

-- ListCollectableBlobs, without its order and limit: stored, unreferenced and ten minutes old.
unfoldable pub is_collectable : Instant → ℕ → Blob → Bool
unfolding state_eq
is_collectable now grace b =
    state_eq b.state stored_blob && (lebℤ b.refcount (pos 0) && ltb (b.created_at + grace) now)

-- DeleteBlob; `extents.blob_id` restricts it, `blob_bot_files.blob_id` cascades
unfoldable pub delete_blob_from : Uuid → Db → Result (Unit {0}) × Db
delete_blob_from id d =
    if some_by (λ (e : Extent). e.blob_id == id) d.extents
    then (err storage, d)
    else if some_by (λ (b : Blob). b.id == id) d.blobs
    then (
      ok tt,
      record d {
        blobs = keep (λ (b : Blob). not (b.id == id)) d.blobs;
        blob_bot_files = keep (λ (f : BlobBotFile). not (f.blob_id == id)) d.blob_bot_files;
      },
    )
    else (err not_found, d)

abbrev pub found_blob : Option Blob → Result Blob
found_blob none = err not_found
found_blob (some b) = ok b

-- GetBlobByID
unfoldable pub find_blob : Uuid → List Blob → Result Blob
find_blob id bs = found_blob (find_first (λ (b : Blob). b.id == id) bs)

unfoldable pub get_blob : Uuid → Exec Blob
get_blob id = query (λ d. (find_blob id d.blobs, d))

-- MarkChannelUnavailable, MarkChannelAvailable
unfoldable pub mark_channel_unavailable : Uuid → Exec (Unit {0})
unfolding channel_lost
mark_channel_unavailable id = query (λ d. (ok tt, record d { blobs = channel_lost id d.blobs }))

unfoldable pub mark_channel_available : Uuid → Exec (Unit {0})
unfolding channel_back
mark_channel_available id = query (λ d. (ok tt, record d { blobs = channel_back id d.blobs }))

-- whether EvictBlobsOlderThan changes a row
unfoldable pub is_older : Uuid → ℕ → Blob → Bool
unfolding state_eq
is_older channel_id min_seq b =
    b.channel_id == channel_id
    && (ltb b.message_seq min_seq && not (state_eq b.state perm_unavailable))

-- EvictOlderThan, with how many rows it changed
unfoldable pub evict_older_than : Uuid → ℕ → Exec ℕ
unfolding evict_older is_older
evict_older_than id min_seq = query (λ d. (
  ok (length (keep (is_older id min_seq) d.blobs)),
  record d { blobs = evict_older id min_seq d.blobs },
))

-- ten minutes, in nanoseconds
abbrev pub collectable_age : ℕ
collectable_age = 600000000000

-- ListCollectableBlobs; the server's clock is the program's here
unfoldable pub collectable : Instant → ℕ → List Blob → List Blob
unfolding is_collectable
collectable now limit bs =
    take limit
      (order_by (λ (b : Blob). b.created_at) (keep (is_collectable now collectable_age) bs))

-- ListCollectable
unfoldable pub list_collectable : ℕ → Exec (List Blob)
unfolding collectable
list_collectable limit w = query (λ d. (ok (collectable w.now limit d.blobs), d)) w

-- Delete
unfoldable pub delete_blob : Uuid → Exec (Unit {0})
delete_blob id = query (delete_blob_from id)
