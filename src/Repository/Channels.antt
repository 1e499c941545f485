-- ===== src/Repository/Channels.antt =====
-- internal/repository/channel.go and the queries of db/query/channel.sql.
use tgwebdav.Base.{
  ℕ, ◌+◌, Bool, not, ◌&&◌, ◌||◌, Option, none, some, List, [], ◌∷◌, ◌++◌, ◌==◌, if◌then◌else◌, keep,
  some_by, find_first, update_by,
}
use tgwebdav.Model.{Uuid, Blob, Channel, BotChannel}
use tgwebdav.Repository.Order.{order_by}
use tgwebdav.Store.{Result, ok, err, not_found, already_exists, storage, Db, Exec, query}

abbrev pub channel_is : Uuid → Channel → Bool
channel_is id c = c.id == id

abbrev pub has_chat : ℕ → Channel → Bool
has_chat chat c = c.tg_chat_id == chat

-- CreateChannel; the id and the chat are unique
unfoldable pub insert_channel : Channel → Db → Result (Unit {0}) × Db
insert_channel c d =
    if some_by (λ r. channel_is c.id r || has_chat c.tg_chat_id r) d.channels
    then (err already_exists, d)
    else (ok tt, record d { channels = d.channels ++ c ∷ [] })

-- UpdateChannel
unfoldable pub update_channel_in : Channel → Db → Result (Unit {0}) × Db
update_channel_in c d =
    if not (some_by (channel_is c.id) d.channels)
    then (err not_found, d)
    else if some_by (λ r. not (channel_is c.id r) && has_chat c.tg_chat_id r) d.channels
    then (err already_exists, d)
    else (
      ok tt,
      record d {
        channels =
            update_by (channel_is c.id) (λ old. record c { created_at = old.created_at })
              d.channels;
      },
    )

-- DeleteChannel: `blobs.channel_id` restricts it, `bot_channel.channel_id` cascades
unfoldable pub delete_channel_from : Uuid → Db → Result (Unit {0}) × Db
delete_channel_from id d =
    if some_by (λ (b : Blob). b.channel_id == id) d.blobs
    then (err storage, d)
    else if some_by (channel_is id) d.channels
    then (
      ok tt,
      record d {
        channels = keep (λ c. not (channel_is id c)) d.channels;
        bot_channels = keep (λ (m : BotChannel). not (m.channel_id == id)) d.bot_channels;
      },
    )
    else (err not_found, d)

abbrev pub found_channel : Option Channel → Result Channel
found_channel none = err not_found
found_channel (some c) = ok c

-- GetChannelByID, GetChannelByChatID
unfoldable pub find_channel : Uuid → List Channel → Result Channel
find_channel id cs = found_channel (find_first (channel_is id) cs)

unfoldable pub find_chat : ℕ → List Channel → Result Channel
find_chat chat cs = found_channel (find_first (has_chat chat) cs)

abbrev pub counted : ℕ → Channel → Channel
counted delta c = record c { message_counter = c.message_counter + delta }

abbrev pub increment : Option Channel → ℕ → Db → Result ℕ × Db
increment none delta d = (err not_found, d)
increment (some c) delta d = (
  ok (c.message_counter + delta),
  record d { channels = update_by (channel_is c.id) (counted delta) d.channels },
)

-- IncrementChannelCounter
unfoldable pub increment_in : Uuid → ℕ → Db → Result ℕ × Db
increment_in id delta d = increment (find_first (channel_is id) d.channels) delta d

-- SetChannelAvailable
unfoldable pub set_available_in : Uuid → Bool → Db → Result (Unit {0}) × Db
set_available_in id available d =
    if some_by (channel_is id) d.channels
    then (
      ok tt,
      record d {
        channels = update_by (channel_is id) (λ c. record c { available = available }) d.channels;
      },
    )
    else (err not_found, d)

-- Create, Update, Delete, GetByID, GetByChatID, List, IncrementCounter, SetAvailable
unfoldable pub create_channel : Channel → Exec (Unit {0})
create_channel c = query (insert_channel c)

unfoldable pub update_channel : Channel → Exec (Unit {0})
update_channel c = query (update_channel_in c)

unfoldable pub delete_channel : Uuid → Exec (Unit {0})
delete_channel id = query (delete_channel_from id)

unfoldable pub get_channel : Uuid → Exec Channel
get_channel id = query (λ d. (find_channel id d.channels, d))

unfoldable pub get_by_chat_id : ℕ → Exec Channel
get_by_chat_id chat = query (λ d. (find_chat chat d.channels, d))

unfoldable pub list_channels : Exec (List Channel)
list_channels = query (λ d. (ok (order_by (λ (c : Channel). c.created_at) d.channels), d))

unfoldable pub increment_counter : Uuid → ℕ → Exec ℕ
increment_counter id delta = query (increment_in id delta)

unfoldable pub set_available : Uuid → Bool → Exec (Unit {0})
set_available id available = query (set_available_in id available)
