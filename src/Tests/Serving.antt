-- ===== src/Tests/Serving.antt =====
-- Bots and channels at work: availability, picks for upload, eviction and reaping.
use tgwebdav.Base.{
  ℕ, ◌<◌, leb→le, List, ◌+◌, ◌≡◌, refl, true, false, none, some, [], ◌∷◌, Has, inl, inr,
}
use tgwebdav.Base.Int.{pos, negsuc}
use tgwebdav.Model.{Blob, Bot, Channel, is_available, unavailable}
use tgwebdav.Repository.Blobs.{
  mark_channel_unavailable, mark_channel_available, channel_lost, channel_back, state_eq,
  collectable_age, is_collectable,
}
use tgwebdav.Repository.Bots.{list_bots, hydrate_all, hydrate, decrypt_token}
use tgwebdav.Repository.Channels.{list_channels, set_available, set_available_in}
use tgwebdav.Repository.Memberships.{list_by_channel, links_of_channel}
use tgwebdav.Repository.Order.{order_by, insert_by}
use tgwebdav.Services.Availability.{IsSettledBlob, reevaluate-available, reevaluate-blobs}
use tgwebdav.Services.Bots.{
  member_of, eligible_among, eligible_bots, take_turn, next_bot_turn, pick_for_upload,
}
use tgwebdav.Services.Channels.{
  chat_id_from_bare_id, shift_over, eligible_each, eligible_channels, take_channel_turn,
  next_channel_turn, pick_channel,
}
use tgwebdav.Services.Maintenance.{evict, reap}
use tgwebdav.Services.Picks.{pick_for_upload-is_available, pick_channel-pick_for_upload}
use tgwebdav.Services.Rounds.{after_turns, take_turn-after_turns}
use tgwebdav.Services.Reaping.{reap-spares}
use tgwebdav.Services.Retention.{AreEvicted, evict-AreEvicted}
use tgwebdav.Services.{int_limit}
use tgwebdav.Services.Served.{is_served}
use tgwebdav.Services.{
  associate, has_ready_member, apply_channel_availability, reevaluate_each, reevaluate_availability,
  pick_index,
}
use tgwebdav.Store.{no_bot, storage, ok, err, World, ◌>>=◌, query, with_tx, get_now}
use tgwebdav.Tests.Blobs.{cipher, kept, online}

-- The channel was removed, and its one blob is unavailable.
abbrev gone : Channel
gone = record {
  id = 9;
  tg_chat_id = 90;
  title = [];
  message_counter = 12;
  eviction_threshold = 2;
  available = false;
  created_at = 0;
}

abbrev lost : Blob
lost = record kept { state = unavailable }

abbrev disabled : World
disabled = record online { db = record online.db { channels = gone ∷ []; blobs = lost ∷ [] } }

program : Unit {0}
unfolding reevaluate_availability reevaluate_each apply_channel_availability has_ready_member
    associate list_channels list_bots hydrate_all hydrate decrypt_token order_by insert_by
    set_available set_available_in list_by_channel mark_channel_available mark_channel_unavailable
    channel_back channel_lost state_eq ◌>>=◌ query with_tx get_now is_available eligible_among
    eligible_bots take_turn next_bot_turn pick_for_upload pick_index eligible_each eligible_channels
    take_channel_turn next_channel_turn pick_channel is_collectable
program = tt

prefixed : chat_id_from_bare_id (pos 2047) ≡ ok 1002047
unfolding chat_id_from_bare_id shift_over
prefixed = refl

prefixed_zero : chat_id_from_bare_id (pos 0) ≡ ok 1000
unfolding chat_id_from_bare_id shift_over
prefixed_zero = refl

negative : chat_id_from_bare_id (negsuc 4) ≡ err storage
unfolding chat_id_from_bare_id
negative = refl

done : (reevaluate_availability (some cipher) disabled).0 ≡ ok tt
unfolding program
done = refl

-- The removed channel serves again, and so does its blob.
back :
    Has
      (record gone { available = true })
      (reevaluate_availability (some cipher) disabled).1.db.channels
unfolding program
back = inl refl

blob_back : Has kept (reevaluate_availability (some cipher) disabled).1.db.blobs
unfolding program
blob_back = inl refl

reevaluate-available_example :
    true
    ≡ is_served
        (reevaluate_availability (some cipher) disabled).1.db.bots
        (reevaluate_availability (some cipher) disabled).1.db.bot_channels
        9
reevaluate-available_example =
    reevaluate-available (some cipher) disabled (refl, (refl, tt)) done
      (record gone { available = true }) back

reevaluate-blobs_example : IsSettledBlob true kept
reevaluate-blobs_example =
    reevaluate-blobs (some cipher) disabled (refl, (refl, tt)) done
      (record gone { available = true }) kept back blob_back refl

abbrev second : Bot
second = record {
  id = 1;
  username = [];
  token = 1 ∷ [];
  enabled = true;
  unavailable_until = none;
  created_at = 0;
}

picked : (pick_for_upload (some cipher) 9 online).0 ≡ ok second
unfolding program
picked = refl

pick_for_upload-is_available_example :
    (is_available second online.now ≡ true)
    × (member_of (some cipher) (links_of_channel 9 online.db.bot_channels) 1 ≡ true)
pick_for_upload-is_available_example =
    pick_for_upload-is_available (some cipher) online 9 second picked

abbrev serving : Channel
serving = record gone { message_counter = 0; eviction_threshold = 900000; available = true }

channel_picked : (pick_channel (some cipher) online).0 ≡ ok serving
unfolding program
channel_picked = refl

pick_channel-pick_for_upload_example :
    ¬ ((pick_for_upload (some cipher) 9 (pick_channel (some cipher) online).1).0 ≡ err no_bot)
pick_channel-pick_for_upload_example =
    pick_channel-pick_for_upload (some cipher) online serving channel_picked

abbrev first_two : List Bot
first_two = second ∷ record second { id = 2; token = 2 ∷ [] } ∷ []

take_turn-after_turns_example :
    (i : ℕ) × (i < 2)
    × ((take_turn (some cipher) first_two (after_turns (some cipher) i first_two online)).0
        ≡ ok second)
take_turn-after_turns_example =
    take_turn-after_turns (some cipher) first_two second online (inl refl) (leb→le 2 int_limit refl)

evict-AreEvicted_example :
    AreEvicted disabled.db.channels disabled.db.blobs (evict (λ n. 300 + n) disabled).1.db.blobs
evict-AreEvicted_example = evict-AreEvicted (λ n. 300 + n) disabled

-- The blob is in use: its count is positive.
in_use : is_collectable online.now collectable_age kept ≡ false
unfolding program
in_use = refl

reap-spares_example :
    ((reap (some cipher) (λ n. 300 + n) online).1.db.nodes ≡ online.db.nodes)
    × ((reap (some cipher) (λ n. 300 + n) online).1.db.extents ≡ online.db.extents)
    × Has kept (reap (some cipher) (λ n. 300 + n) online).1.db.blobs
reap-spares_example =
    reap-spares online (refl, tt) kept (inl refl) (inr in_use) (some cipher) (λ n. 300 + n)
