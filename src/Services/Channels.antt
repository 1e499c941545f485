-- ===== src/Services/Channels.antt =====
-- ChannelService of internal/service/channel.go, without its log lines.
use tgwebdav.Base.{
  ℕ, suc, zero, ◌%◌, ◌+◌, ◌*◌, Bool, true, false, not, ◌&&◌, Option, List, [], ◌∷◌, ltb, leb,
  length, bytes_eq, if◌then◌else◌,
}
use tgwebdav.Base.Int.{ℤ, pos, negsuc}
use tgwebdav.Model.{Uuid, Bytes, Bot, is_available, Channel, event_channel_disabled}
use tgwebdav.Repository.Blobs.{mark_channel_unavailable}
use tgwebdav.Repository.Bots.{Cipher, list_bots}
use tgwebdav.Repository.Channels.{
  create_channel, update_channel, get_channel, get_by_chat_id, list_channels, set_available,
}
use tgwebdav.Repository.Events.{log}
use tgwebdav.Services.{
  associate, has_ready_member, reevaluate_availability, ask_chat, record_membership, pick_index,
  element_at, int_limit, word_limit,
}
use tgwebdav.Store.{
  storage, not_found, no_bot, Result, ok, err, Exec, pure, raise, ◌>>=◌, ◌>>◌, attempt, with_tx,
  new_id, get_now,
}

-- The power of ten above a number's decimal digits: an int64 has at most 19 of them.
unfoldable pub shift_over : ℕ → ℕ → ℕ → ℕ
shift_over n zero scale = scale
shift_over n (suc fuel) scale =
    let more = shift_over n fuel (10 * scale) in if ltb n scale then scale else more

-- "-100" and the digits after it, as the number after the minus sign
abbrev pub with_prefix : ℕ → ℕ
with_prefix n = 100 * shift_over n 20 10 + n

-- chatIDFromBareID: no digit may follow a second minus sign, and the number must be an int64
unfoldable pub chat_id_from_bare_id : ℤ → Result ℕ
unfolding shift_over
chat_id_from_bare_id (pos n) =
    if leb (with_prefix n) int_limit then ok (with_prefix n) else err storage
chat_id_from_bare_id (negsuc n) = err storage

-- `s.rr.Add(1)-1`
unfoldable pub next_channel_turn : Exec ℕ
next_channel_turn w = (ok w.channel_rr, record w { channel_rr = suc w.channel_rr % word_limit })

-- `default_threshold` is what the settings give, or why they cannot be read.
module _ (key : Option Cipher) (uuids : ℕ → Uuid) (default_threshold : Result ℕ) where
  abbrev create_with : ℕ → Result ℕ → Exec Channel
  create_with chat_id (err e) = raise e
  create_with chat_id (ok threshold) = do
    id ← new_id uuids
    now ← get_now
    let fresh : Channel = record {
      id = id;
      tg_chat_id = chat_id;
      title = [];
      message_counter = 0;
      eviction_threshold = threshold;
      available = true;
      created_at = now;
    }
    _ ← create_channel fresh
    pure fresh

  unfoldable pub find_or_create : ℕ → Result Channel → Exec Channel
  find_or_create chat_id (ok c) = pure c
  find_or_create chat_id (err not_found) = create_with chat_id default_threshold
  find_or_create chat_id (err e) = raise e

  -- The title of the first bot that can see it.
  unfoldable pub note_title : Channel → Bytes → Bool → Exec Channel
  note_title c title member =
      let titled : Channel = record c { title = title } in
      if member && (not (bytes_eq title []) && bytes_eq c.title [])
      then (update_channel titled >> pure titled)
      else pure c

  -- the loop of Add, with the channel as it stands after it
  unfoldable pub check_members : Channel → List Bot → Exec Channel
  unfolding ask_chat note_title record_membership
  check_members c [] = pure c
  check_members c (b ∷ bs) = ask_chat b c.tg_chat_id >>= λ answer.
      note_title c answer.0 answer.1 >>= λ c'.
      record_membership b c' answer.1 >> check_members c' bs

  abbrev checked_id : Result ℕ → Exec ℕ
  checked_id (ok id) = pure id
  checked_id (err e) = raise e

  -- Add
  unfoldable pub add_channel : ℤ → Exec Channel
  unfolding chat_id_from_bare_id find_or_create check_members reevaluate_availability
  add_channel bare_id = do
    chat_id ← checked_id (chat_id_from_bare_id bare_id)
    found ← attempt (get_by_chat_id chat_id) (find_or_create chat_id)
    bots ← list_bots key
    channel ← check_members found bots
    _ ← reevaluate_availability key
    pure channel

-- Remove
unfoldable pub remove_channel : (ℕ → Uuid) → Uuid → Exec (Unit {0})
remove_channel uuids id = do
  _ ← with_tx (do _ ← set_available id false; mark_channel_unavailable id)
  log uuids event_channel_disabled id

-- SetEvictionThreshold
unfoldable pub set_eviction_threshold : Uuid → ℕ → Exec (Unit {0})
set_eviction_threshold id threshold = do
  channel ← get_channel id
  let changed : Channel = record channel { eviction_threshold = threshold }
  update_channel changed

abbrev pub cons_if : Bool → Channel → List Channel → List Channel
cons_if true c cs = c ∷ cs
cons_if false c cs = cs

-- the loop of eligibleChannels
unfoldable pub eligible_each : (Uuid → Bool) → List Channel → Exec (List Channel)
unfolding has_ready_member
eligible_each usable [] = pure []
eligible_each usable (ch ∷ chs) =
    let rest = eligible_each usable chs in
    if not ch.available
    then rest
    else (has_ready_member usable ch.id >>= λ has_member.
        rest >>= λ cs. pure (cons_if has_member ch cs))

module _ (key : Option Cipher) where
  -- eligibleChannels
  unfoldable pub eligible_channels : Exec (List Channel)
  unfolding eligible_each associate
  eligible_channels = do
    chs ← list_channels
    bots ← list_bots key
    now ← get_now
    eligible_each (associate (λ b. is_available b now) bots) chs

  -- the rest of PickForUpload
  unfoldable pub take_channel_turn : List Channel → Exec Channel
  unfolding next_channel_turn pick_index
  take_channel_turn [] = raise no_bot
  take_channel_turn (c ∷ cs) = do
    turn ← next_channel_turn
    element_at (c ∷ cs) (pick_index turn (length (c ∷ cs)))

  -- PickForUpload
  unfoldable pub pick_channel : Exec Channel
  unfolding eligible_channels take_channel_turn
  pick_channel = do eligible ← eligible_channels; take_channel_turn eligible
