-- ===== src/Tests/Blobs.antt =====
-- A blob read by way of Telegram: a stale file_id, a message forwarded, its bytes checked.
use tgwebdav.Base.{
  ◌+◌, ◌≡◌, refl, Bool, true, false, not, none, some, List, [], ◌∷◌, ◌++◌, map, keep, Has,
}
use tgwebdav.BlobCache.{get, put, finish_get, finish_put, evict_locked, evict_rounds}
use tgwebdav.BlobReader.{
  ReaderEnv, member_ids, bot_in, usable_bots, fast, added_by_fast, remaining, arrange,
  download_file, forward, delete_copy, candidates, is_intact, verify_integrity, delete_stale,
  best_effort_delete, give_up, recover, try_candidate, try_all, mark_perm_unavailable, perm_body,
  delete_nodes, read_blob,
}
use tgwebdav.BlobReader.Candidates.{has_file, candidate_of, arrange-usable_bots}
use tgwebdav.BlobReader.Usable.{AreOnce, bot_ids, is_member}
use tgwebdav.BlobReader.Genuine.{hash_of, IsVouched, IsGenuine, read_blob-IsGenuine}
use tgwebdav.BlobReader.GivenUp.{read_blob-IsThere, read_blob-rows}
use tgwebdav.Model.{Uuid, Bytes, Blob, is_readable, Bot, is_available, BotChannel, BlobBotFile}
use tgwebdav.Repository.Blobs.{find_blob, get_blob, set_state, set_state_in, state_eq}
use tgwebdav.Repository.BotFiles.{
  list_by_blob, upsert_file, upsert_file_in, upsert_file_row, delete_by_blob,
}
use tgwebdav.Repository.Bots.{Cipher, list_by_ids, hydrate_all, hydrate, decrypt_token}
use tgwebdav.Repository.Channels.{find_channel, get_channel}
use tgwebdav.Repository.Memberships.{list_by_channel}
use tgwebdav.Repository.Events.{log}
use tgwebdav.Store.{
  new_id, ok, gave, sent, World, BotRow, ◌>>=◌, attempt, ignore, query, call, fail_if, get_now,
}
use tgwebdav.Tests.Files.{tables, world}
use tgwebdav.Tests.Trees.{blob}

abbrev pub cipher : Cipher
cipher = record {
  nonce_size = 1;
  nonces = λ n. n ∷ [];
  seal = λ nonce token. token;
  unseal = λ nonce sealed. some sealed;
  sha256_hex = λ token. token;
}

-- a digest that tells all contents apart
abbrev env : ReaderEnv
env = record {
  uuids = λ n. 200 + n;
  key = some cipher;
  sha256 = λ bytes. bytes;
  can_remove = λ _. true;
}

abbrev content : Bytes
content = 1 ∷ 2 ∷ 3 ∷ []

abbrev pub kept : Blob
kept = record (blob 31 1) { channel_id = 9; content_hash = content }

abbrev bot_row : Uuid → BotRow
bot_row id = record {
  id = id;
  username = [];
  token_sha = id ∷ [];
  token_enc = 0 ∷ id ∷ [];
  enabled = true;
  unavailable_until = none;
  created_at = 0;
}

abbrev link : Uuid → Bool → BotChannel
link bot member = record { bot_id = bot; channel_id = 9; member = member; checked_at = 0 }

abbrev cached_file : BlobBotFile
cached_file = record {
  blob_id = 31;
  bot_id = 2;
  file_id = 77 ∷ [];
  file_unique_id = [];
  fetched_at = 0;
}

abbrev pub online : World
online = record world {
  db = record tables {
    blobs = kept ∷ [];
    channels =
        record {
          id = 9;
          tg_chat_id = 90;
          title = [];
          message_counter = 0;
          eviction_threshold = 900000;
          available = true;
          created_at = 0;
        }
        ∷ [];
    bots = bot_row 1 ∷ bot_row 2 ∷ [];
    bot_channels = link 1 true ∷ link 2 true ∷ link 3 false ∷ [];
    blob_bot_files = cached_file ∷ [];
  };
  replies =
      gave (9 ∷ [])
      ∷ sent (record { message_id = 5; file_id = 78 ∷ []; file_unique_id = [] })
      ∷ gave content
      ∷ [];
}

program : Unit {0}
unfolding read_blob get_blob find_blob is_readable is_available get_channel find_channel candidates
    member_ids usable_bots fast added_by_fast remaining arrange list_by_channel list_by_ids
    hydrate_all hydrate decrypt_token list_by_blob try_all try_candidate recover verify_integrity
    is_intact delete_stale best_effort_delete give_up download_file forward delete_copy
    delete_by_blob upsert_file upsert_file_in upsert_file_row ◌>>=◌ attempt ignore log new_id query
    call fail_if get_now get put finish_put finish_get evict_locked evict_rounds
    mark_perm_unavailable perm_body delete_nodes set_state set_state_in state_eq
program = tt

read : (read_blob env 31 online).0 ≡ ok content
unfolding program
read = refl

read_blob-IsGenuine_example :
    IsGenuine env
      (λ k. hash_of k (read_blob env 31 online).1.db.blobs)
      (read_blob env 31 online).1.cache
    × IsVouched env (hash_of 31 online.db.blobs) (read_blob env 31 online).0
read_blob-IsGenuine_example = read_blob-IsGenuine env 31 online (λ id bytes hash h e. cc h)

read_blob-rows_example :
    ((read_blob env 31 online).1.db.blobs ≡ online.db.blobs)
    × ((read_blob env 31 online).1.db.nodes ≡ online.db.nodes)
read_blob-rows_example = read_blob-rows env 31 online content read

read_blob-IsThere_example :
    ((read_blob env 31 online).1.db.blobs ≡ online.db.blobs)
    × ((read_blob env 31 online).1.db.nodes ≡ online.db.nodes)
read_blob-IsThere_example =
    read_blob-IsThere env 31 online ((λ e. cc e), ((λ e. cc e), ((λ e. cc e), tt)))

abbrev loaded : Uuid → Bot
loaded id = record {
  id = id;
  username = [];
  token = id ∷ [];
  enabled = true;
  unavailable_until = none;
  created_at = 0;
}

abbrev links : List BotChannel
links = link 1 true ∷ link 2 true ∷ link 3 false ∷ []

abbrev bots : List Bot
bots = loaded 1 ∷ loaded 2 ∷ []

arrange-usable_bots_example :
    AreOnce (bot_ids (usable_bots 5 bots (member_ids [] links)))
    × ((b : Bot)
        → Has b (usable_bots 5 bots (member_ids [] links))
        → (is_member links b.id ≡ true) × Has b bots × (is_available b 5 ≡ true))
    × ((b : Bot)
        → is_member links b.id ≡ true
        → bot_in b.id bots ≡ some b
        → is_available b 5 ≡ true
        → Has b (usable_bots 5 bots (member_ids [] links)))
    × (arrange (cached_file ∷ []) (usable_bots 5 bots (member_ids [] links))
        ≡ map (candidate_of (cached_file ∷ [])) (
            keep
              (λ (b : Bot). has_file (cached_file ∷ []) b.id)
              (usable_bots 5 bots (member_ids [] links))
            ++ keep
                (λ (b : Bot). not (has_file (cached_file ∷ []) b.id))
                (usable_bots 5 bots (member_ids [] links))))
arrange-usable_bots_example = arrange-usable_bots 5 links bots (cached_file ∷ [])
