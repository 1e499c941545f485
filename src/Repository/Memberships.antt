-- ===== src/Repository/Memberships.antt =====
-- internal/repository/botchannel.go and the queries of db/query/bot_channel.sql: which bots are
-- members of which channels.
use tgwebdav.Base.{
  Bool, not, ◌&&◌, Option, none, some, List, [], ◌∷◌, ◌++◌, ◌==◌, if◌then◌else◌, keep, some_by,
  find_first, update_by,
}
use tgwebdav.Model.{Uuid, Channel, BotChannel}
use tgwebdav.Store.{Result, ok, err, not_found, storage, Db, Exec, BotRow, query}

abbrev pub links : Uuid → Uuid → BotChannel → Bool
links bot channel m = m.bot_id == bot && m.channel_id == channel

-- UpsertBotChannel, on the table
unfoldable pub upsert_row : BotChannel → List BotChannel → List BotChannel
upsert_row m rows =
    if some_by (links m.bot_id m.channel_id) rows
    then update_by (links m.bot_id m.channel_id) (λ _. m) rows
    else rows ++ m ∷ []

-- UpsertBotChannel; the bot and the channel must be there
unfoldable pub upsert_in : BotChannel → Db → Result (Unit {0}) × Db
unfolding upsert_row
upsert_in m d =
    if some_by (λ (b : BotRow). b.id == m.bot_id) d.bots
      && some_by (λ (c : Channel). c.id == m.channel_id) d.channels
    then (ok tt, record d { bot_channels = upsert_row m d.bot_channels })
    else (err storage, d)

abbrev pub found_link : Option BotChannel → Result BotChannel
found_link none = err not_found
found_link (some m) = ok m

-- Upsert, Get, ListByChannel, ListByBot, DeleteByBot, DeleteByChannel
unfoldable pub upsert : BotChannel → Exec (Unit {0})
upsert m = query (upsert_in m)

unfoldable pub get_link : Uuid → Uuid → Exec BotChannel
get_link bot channel = query (λ d. (found_link (find_first (links bot channel) d.bot_channels), d))

abbrev pub links_of_channel : Uuid → List BotChannel → List BotChannel
links_of_channel channel rows = keep (λ (m : BotChannel). m.channel_id == channel) rows

abbrev pub links_of_bot : Uuid → List BotChannel → List BotChannel
links_of_bot bot rows = keep (λ (m : BotChannel). m.bot_id == bot) rows

unfoldable pub list_by_channel : Uuid → Exec (List BotChannel)
list_by_channel channel = query (λ d. (ok (links_of_channel channel d.bot_channels), d))

unfoldable pub list_by_bot : Uuid → Exec (List BotChannel)
list_by_bot bot = query (λ d. (ok (links_of_bot bot d.bot_channels), d))

unfoldable pub unlink_bot : Uuid → Exec (Unit {0})
unlink_bot bot = query (λ d. (
  ok tt,
  record d { bot_channels = keep (λ (m : BotChannel). not (m.bot_id == bot)) d.bot_channels },
))

unfoldable pub unlink_channel : Uuid → Exec (Unit {0})
unlink_channel channel = query (λ d. (
  ok tt,
  record d {
    bot_channels = keep (λ (m : BotChannel). not (m.channel_id == channel)) d.bot_channels;
  },
))
