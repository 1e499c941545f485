-- ===== src/Services.antt =====
-- The availability of channels and the bots that serve them, shared by the services of
-- internal/service/bot.go and channel.go. The child modules hold the services themselves: Bots
-- (bot.go), Channels (channel.go), Maintenance (maintenance.go), and what is proved of them:
-- Served and Availability (re-evaluation), Picks and Rounds (round robin), Retention (eviction), Reaping.
pub mod Bots
pub mod Channels
pub mod Maintenance
pub mod Served
pub mod Availability
pub mod Picks
pub mod Rounds
pub mod Retention
pub mod Reaping
use tgwebdav.Base.{
  ℕ, Bool, true, false, ◌&&◌, Option, none, some, List, [], ◌∷◌, ◌-◌, ◌%◌, ◌==◌, ltb, get_elem?,
  if◌then◌else◌, some_by,
}
use tgwebdav.Model.{Uuid, Bytes, Bot, Channel, BotChannel}
use tgwebdav.Repository.Blobs.{mark_channel_available, mark_channel_unavailable}
use tgwebdav.Repository.Bots.{Cipher, list_bots}
use tgwebdav.Repository.Channels.{list_channels, set_available}
use tgwebdav.Repository.Memberships.{list_by_channel, upsert}
use tgwebdav.Store.{
  Error, storage, panicked, no_bot, Exec, Reply, gave, sent, named, chat, failed, get_chat, call,
  pure, raise, ◌>>=◌, ◌>>◌, with_tx, get_now,
}

abbrev pub bot_has : Uuid → Bot → Bool
bot_has id b = b.id == id

-- `lo.Associate` on the bots' ids, read at one id: the last bot of that id counts, and a missing key
-- is false.
unfoldable pub associate : (Bot → Bool) → List Bot → Uuid → Bool
associate f [] id = false
associate f (b ∷ bs) id =
    let rest = associate f bs id in if some_by (bot_has id) bs then rest else (b.id == id && f b)

-- The test of channelHasEnabledMember and channelHasUsableMember.
abbrev pub counts : (Uuid → Bool) → BotChannel → Bool
counts ready m = m.member && ready m.bot_id

-- channelHasEnabledMember, channelHasUsableMember
unfoldable pub has_ready_member : (Uuid → Bool) → Uuid → Exec Bool
has_ready_member ready id = do members ← list_by_channel id; pure (some_by (counts ready) members)

abbrev pub mark_blobs : Uuid → Bool → Exec (Unit {0})
mark_blobs id available =
    if available then mark_channel_available id else mark_channel_unavailable id

-- applyChannelAvailability, without its log line
unfoldable pub apply_channel_availability : Channel → Bool → Exec (Unit {0})
apply_channel_availability ch available =
    with_tx (do _ ← set_available ch.id available; mark_blobs ch.id available)

-- the loop of reevaluateAvailability
unfoldable pub reevaluate_each : (Uuid → Bool) → List Channel → Exec (Unit {0})
unfolding has_ready_member apply_channel_availability
reevaluate_each enabled [] = pure tt
reevaluate_each enabled (ch ∷ chs) = has_ready_member enabled ch.id >>= λ available.
    apply_channel_availability ch available >> reevaluate_each enabled chs

-- reevaluateAvailability
unfoldable pub reevaluate_availability : Option Cipher → Exec (Unit {0})
unfolding reevaluate_each associate
reevaluate_availability key = do
  chs ← list_channels
  bs ← list_bots key
  reevaluate_each (associate (λ b. b.enabled) bs) chs

-- the title and the membership that GetChat answers
unfoldable pub chat_reply : Reply → Exec (Bytes × Bool)
chat_reply (chat title member) = pure (title, member)
chat_reply (failed e) = raise e
chat_reply (gave bytes) = raise storage
chat_reply (sent m) = raise storage
chat_reply (named n) = raise storage

-- One `GetChat` of the membership loops; the other part of their body is `record_membership`.
unfoldable pub ask_chat : Bot → ℕ → Exec (Bytes × Bool)
unfolding chat_reply
ask_chat bot chat_id = call (get_chat bot.id chat_id) >>= chat_reply

unfoldable pub record_membership : Bot → Channel → Bool → Exec (Unit {0})
record_membership bot ch member = do
  now ← get_now
  upsert (record { bot_id = bot.id; channel_id = ch.id; member = member; checked_at = now })

-- 2 ^ 63 and 2 ^ 64
abbrev pub int_limit : ℕ
int_limit = 9223372036854775808

abbrev pub word_limit : ℕ
word_limit = 18446744073709551616

-- `int(counter) % length` for a 64-bit counter: from 2 ^ 63 on the conversion is negative, and so is
-- a remainder that is not zero.
unfoldable pub pick_index : ℕ → ℕ → Option ℕ
pick_index counter length =
    if ltb counter int_limit
    then some (counter % length)
    else if ((word_limit - counter) % length) == 0
    then some 0
    else none

module _ {A : Type 0} where
  abbrev pub found_or_panic : Option A → Exec A
  found_or_panic none = raise panicked
  found_or_panic (some x) = pure x

  -- `eligible[idx]`; a negative index panics
  abbrev pub element_at : List A → Option ℕ → Exec A
  element_at xs none = raise panicked
  element_at xs (some i) = found_or_panic (get_elem? xs i)
