-- ===== src/Repository/Bots.antt =====
-- internal/repository/bot.go and the queries of db/query/bot.sql. Tokens are kept encrypted: AES-GCM and
-- SHA-256 are arguments. `open_token` answers `none` where the seal does not open.
use tgwebdav.Base.{
  ℕ, Bool, not, ◌&&◌, ◌||◌, Option, none, some, List, [], ◌∷◌, ◌++◌, ◌==◌, suc, ltb, drop, take,
  length, bytes_eq, if◌then◌else◌, keep, some_by, find_first, update_by,
}
use tgwebdav.Model.{Uuid, Instant, Bytes, Bot, BotChannel, BlobBotFile}
use tgwebdav.Repository.Order.{order_by}
use tgwebdav.Store.{
  Result, ok, err, not_found, already_exists, storage, Db, Exec, BotRow, ◌>>=◌, pure, query,
}

-- cipher.AEAD of a repository with a secret key, and crypto/rand
pub record Cipher : Type 0 where
  pub nonce_size : ℕ
  pub nonces : ℕ → Bytes
  pub seal : Bytes → Bytes → Bytes
  pub unseal : Bytes → Bytes → Option Bytes
  pub sha256_hex : Bytes → Bytes

abbrev pub bot_is : Uuid → BotRow → Bool
bot_is id b = b.id == id

abbrev pub has_sha : Bytes → BotRow → Bool
has_sha sha b = bytes_eq b.token_sha sha

-- CreateBot; the id and the digest of the token are unique
unfoldable pub insert_bot : BotRow → Db → Result (Unit {0}) × Db
insert_bot b d =
    if some_by (λ r. bot_is b.id r || has_sha b.token_sha r) d.bots
    then (err already_exists, d)
    else (ok tt, record d { bots = d.bots ++ b ∷ [] })

-- UpdateBot
unfoldable pub update_bot_in : BotRow → Db → Result (Unit {0}) × Db
update_bot_in b d =
    if not (some_by (bot_is b.id) d.bots)
    then (err not_found, d)
    else if some_by (λ r. not (bot_is b.id r) && has_sha b.token_sha r) d.bots
    then (err already_exists, d)
    else (
      ok tt,
      record d {
        bots = update_by (bot_is b.id) (λ old. record b { created_at = old.created_at }) d.bots;
      },
    )

-- DeleteBot, with the cascades of `bot_channel.bot_id` and `blob_bot_files.bot_id`
unfoldable pub delete_bot_from : Uuid → Db → Result (Unit {0}) × Db
delete_bot_from id d =
    if some_by (bot_is id) d.bots
    then (
      ok tt,
      record d {
        bots = keep (λ b. not (bot_is id b)) d.bots;
        bot_channels = keep (λ (m : BotChannel). not (m.bot_id == id)) d.bot_channels;
        blob_bot_files = keep (λ (f : BlobBotFile). not (f.bot_id == id)) d.blob_bot_files;
      },
    )
    else (err not_found, d)

-- SetBotUnavailableUntil
unfoldable pub set_unavailable_in : Uuid → Option Instant → Db → Result (Unit {0}) × Db
set_unavailable_in id until d =
    if some_by (bot_is id) d.bots
    then (
      ok tt,
      record d {
        bots = update_by (bot_is id) (λ b. record b { unavailable_until = until }) d.bots;
      },
    )
    else (err not_found, d)

unfoldable pub set_unavailable_until : Uuid → Option Instant → Exec (Unit {0})
set_unavailable_until id until = query (set_unavailable_in id until)

unfoldable pub delete_bot : Uuid → Exec (Unit {0})
delete_bot id = query (delete_bot_from id)

-- `none` for a repository without a secret key
module _ (key : Option Cipher) where
  -- encryptToken: the nonce, and the sealed token after it
  unfoldable pub encrypt_token : ℕ → Bytes → Result Bytes
  encrypt_token drawn token = elim key [
    | none ↦ err storage
    | some c ↦ ok (c.nonces drawn ++ c.seal (c.nonces drawn) token)
  ]

  abbrev pub opened : Option Bytes → Result Bytes
  opened none = err storage
  opened (some token) = ok token

  -- decryptToken
  unfoldable pub decrypt_token : Bytes → Result Bytes
  decrypt_token enc = elim key [
    | none ↦ err storage
    | some c ↦
        if ltb (length enc) c.nonce_size
        then err storage
        else opened (c.unseal (take c.nonce_size enc) (drop c.nonce_size enc))
  ]

  abbrev pub with_token : BotRow → Result Bytes → Result Bot
  with_token m (err e) = err e
  with_token m (ok token) = ok (record {
    id = m.id;
    username = m.username;
    token = token;
    enabled = m.enabled;
    unavailable_until = m.unavailable_until;
    created_at = m.created_at;
  })

  -- hydrate
  unfoldable pub hydrate : BotRow → Result Bot
  unfolding decrypt_token
  hydrate m = with_token m (decrypt_token m.token_enc)

  abbrev pub hydrate_next : Result Bot → Result (List Bot) → Result (List Bot)
  hydrate_next (err e) rest = err e
  hydrate_next (ok b) (err e) = err e
  hydrate_next (ok b) (ok bs) = ok (b ∷ bs)

  -- the loops of List and ListByIDs, which end at the first row that does not open
  unfoldable pub hydrate_all : List BotRow → Result (List Bot)
  unfolding hydrate
  hydrate_all [] = ok []
  hydrate_all (m ∷ ms) = hydrate_next (hydrate m) (hydrate_all ms)

  abbrev pub sha_of : Bytes → Bytes
  sha_of token = elim key [ none ↦ [] | some c ↦ c.sha256_hex token ]

  abbrev pub row_of_bot : Bot → Bytes → BotRow
  row_of_bot b enc = record {
    id = b.id;
    username = b.username;
    token_sha = sha_of b.token;
    token_enc = enc;
    enabled = b.enabled;
    unavailable_until = b.unavailable_until;
    created_at = b.created_at;
  }

  -- `rand.Reader`, read at the count of draws that the world keeps
  abbrev pub encrypt : Bytes → Exec Bytes
  encrypt token w = (encrypt_token w.drawn token, record w { drawn = suc w.drawn })

  -- Create, Update
  unfoldable pub create_bot : Bot → Exec (Unit {0})
  unfolding encrypt_token
  create_bot b = do enc ← encrypt b.token; query (insert_bot (row_of_bot b enc))

  unfoldable pub update_bot : Bot → Exec (Unit {0})
  unfolding encrypt_token
  update_bot b = do enc ← encrypt b.token; query (update_bot_in (row_of_bot b enc))

  abbrev pub hydrate_found : Option BotRow → Result Bot
  hydrate_found none = err not_found
  hydrate_found (some m) = hydrate m

  -- GetByID, GetByUsername, List, ListByIDs
  unfoldable pub get_bot : Uuid → Exec Bot
  get_bot id = query (λ d. (hydrate_found (find_first (bot_is id) d.bots), d))

  unfoldable pub get_by_username : Bytes → Exec Bot
  get_by_username username =
      query
        (λ d. (hydrate_found (find_first (λ (b : BotRow). bytes_eq b.username username) d.bots), d))

  unfoldable pub list_bots : Exec (List Bot)
  list_bots = query (λ d. (hydrate_all (order_by (λ (b : BotRow). b.created_at) d.bots), d))

  unfoldable pub list_by_ids : List Uuid → Exec (List Bot)
  list_by_ids [] = pure []
  list_by_ids (i ∷ ids) =
      query
        (λ d. (hydrate_all (keep (λ (b : BotRow). some_by (λ id. id == b.id) (i ∷ ids)) d.bots), d))
