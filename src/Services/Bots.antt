-- ===== src/Services/Bots.antt =====
-- BotService of internal/service/bot.go, without its log lines.
use tgwebdav.Base.{
  ℕ, suc, ◌%◌, Bool, true, not, ◌&&◌, Option, List, [], ◌∷◌, ◌==◌, keep, some_by, length,
  if◌then◌else◌,
}
use tgwebdav.Model.{Uuid, Bytes, Bot, is_available, Channel, BotChannel, event_bot_disabled}
use tgwebdav.Repository.Bots.{
  Cipher, create_bot, update_bot, delete_bot, get_bot, get_by_username, list_bots,
}
use tgwebdav.Repository.Channels.{list_channels}
use tgwebdav.Repository.Events.{log}
use tgwebdav.Repository.Memberships.{list_by_channel}
use tgwebdav.Services.{
  reevaluate_availability, ask_chat, record_membership, pick_index, element_at, word_limit,
}
use tgwebdav.Store.{
  storage, not_found, no_bot, Result, ok, err, Exec, Reply, gave, sent, named, chat, failed, get_me,
  call, pure, raise, ◌>>=◌, ◌>>◌, attempt, new_id, get_now,
}

-- the username that GetMe answers
unfoldable pub name_reply : Reply → Exec Bytes
name_reply (named n) = pure n
name_reply (failed e) = raise e
name_reply (gave bytes) = raise storage
name_reply (sent m) = raise storage
name_reply (chat title member) = raise storage

-- `s.rr.Add(1)-1`
unfoldable pub next_bot_turn : Exec ℕ
next_bot_turn w = (ok w.bot_rr, record w { bot_rr = suc w.bot_rr % word_limit })

module _ (key : Option Cipher) (uuids : ℕ → Uuid) where
  -- The token's bot in the table: an old one of that name takes the new token, a new one is created.
  unfoldable pub save_bot : Bot → Result Bot → Exec Bot
  save_bot bot (ok existing) =
      let fresh : Bot = record existing { token = bot.token; enabled = true } in
      update_bot key fresh >> pure fresh
  save_bot bot (err not_found) = create_bot key bot >> pure bot
  save_bot bot (err e) = raise e

  -- the loop of Add, and the inner loop of RefreshMembership
  unfoldable pub check_channels : Bot → List Channel → Exec (Unit {0})
  unfolding ask_chat record_membership
  check_channels bot [] = pure tt
  check_channels bot (ch ∷ chs) = ask_chat bot ch.tg_chat_id >>= λ answer.
      record_membership bot ch answer.1 >> check_channels bot chs

  -- Add
  unfoldable pub add_bot : Bytes → Exec Bot
  unfolding name_reply save_bot check_channels reevaluate_availability
  add_bot token = do
    id ← new_id uuids
    reply ← call (get_me id)
    username ← name_reply reply
    now ← get_now
    let asked : Bot = record {
      id = id;
      username = username;
      token = token;
      enabled = true;
      unavailable_until = Option.none;
      created_at = now;
    }
    bot ← attempt (get_by_username key username) (save_bot asked)
    chs ← list_channels
    _ ← check_channels bot chs
    _ ← reevaluate_availability key
    pure bot

  -- Remove
  unfoldable pub remove_bot : Uuid → Exec (Unit {0})
  unfolding reevaluate_availability
  remove_bot id = do
    _ ← delete_bot id
    _ ← reevaluate_availability key
    log uuids event_bot_disabled id

  -- SetEnabled
  unfoldable pub set_enabled : Uuid → Bool → Exec (Unit {0})
  unfolding reevaluate_availability
  set_enabled id enabled = do
    bot ← get_bot key id
    let changed : Bot = record bot { enabled = enabled }
    _ ← update_bot key changed
    _ ← reevaluate_availability key
    if enabled then pure tt else log uuids event_bot_disabled id

  -- the outer loop of RefreshMembership
  unfoldable pub check_bots : List Bot → List Channel → Exec (Unit {0})
  unfolding check_channels
  check_bots [] chs = pure tt
  check_bots (b ∷ bs) chs = check_channels b chs >> check_bots bs chs

  -- RefreshMembership
  unfoldable pub refresh_membership : Exec (Unit {0})
  unfolding check_bots reevaluate_availability
  refresh_membership = do
    bs ← list_bots key
    chs ← list_channels
    _ ← check_bots bs chs
    reevaluate_availability key

module _ (key : Option Cipher) where
  -- the bots that eligibleBots keeps, of those listed
  abbrev pub member_of : List BotChannel → Uuid → Bool
  member_of members id = some_by (λ (m : BotChannel). m.bot_id == id && m.member) members

  unfoldable pub eligible_among : ℕ → List BotChannel → List Bot → List Bot
  eligible_among now members bots = keep (λ b. member_of members b.id && is_available b now) bots

  -- eligibleBots
  unfoldable pub eligible_bots : Uuid → Exec (List Bot)
  unfolding eligible_among
  eligible_bots channel_id = do
    members ← list_by_channel channel_id
    if not (some_by (λ (m : BotChannel). m.member) members)
        then pure []
        else (do bots ← list_bots key; now ← get_now; pure (eligible_among now members bots))

  -- the rest of PickForUpload
  unfoldable pub take_turn : List Bot → Exec Bot
  unfolding next_bot_turn pick_index
  take_turn [] = raise no_bot
  take_turn (b ∷ bs) = do
    turn ← next_bot_turn
    element_at (b ∷ bs) (pick_index turn (length (b ∷ bs)))

  -- PickForUpload
  unfoldable pub pick_for_upload : Uuid → Exec Bot
  unfolding eligible_bots take_turn
  pick_for_upload channel_id = do eligible ← eligible_bots channel_id; take_turn eligible
