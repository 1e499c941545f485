-- ===== src/BlobReader/Attempts.antt =====
-- What an attempt at a blob keeps, for any assertion on blobs, nodes and cache: each action's rule.
use tgwebdav.Base.{
  ℕ, ◌≡◌, refl, sym, ap, subst, Bool, true, false, ◌&&◌, ◌+◌, some_by, Option, some, List, [], ◌∷◌,
  ◌==◌, length, Bool-cases, inl, inr,
}
use tgwebdav.BlobCache.{Cache}
use tgwebdav.BlobReader.{
  ReaderEnv, Candidate, Outcome, got, message_gone, lost, file_reply, send_reply, done_reply,
  download_file, forward, delete_copy, candidates, is_intact, verify_integrity, delete_stale,
  park_bot, record_non_member, best_effort_delete, give_up, if_verified, recovered, forwarded,
  recover, from_cached, try_candidate, mark_perm_unavailable, cache_put, after_try, try_all,
  from_telegram, member_ids,
}
use tgwebdav.Model.{
  Uuid, Instant, Bytes, Blob, Bot, Channel, BotChannel, BlobBotFile, EventKind, TgSendResult,
}
use tgwebdav.Repository.BotFiles.{list_by_blob, upsert_file, upsert_file_in, delete_by_blob}
use tgwebdav.Repository.Bots.{list_by_ids, set_unavailable_until, set_unavailable_in}
use tgwebdav.Repository.Channels.{get_channel}
use tgwebdav.Repository.Events.{log}
use tgwebdav.Repository.Memberships.{list_by_channel, upsert, upsert_in}
use tgwebdav.Store.{
  Error, storage, message_not_found, tg_forbidden, rate_limited, NodeRow, BotRow, Result, ok, err,
  Reply, gave, sent, named, chat, failed, Call, Db, World, Exec, ◌>>=◌, attempt, query, call,
  later_replies, next_reply,
}
use tgwebdav.Store.Always.{
  Always, After, Any, Always-pure, Always-raise, Always-if, Always-query, Always-bind,
  Always-attempt, Always-ignore, Always-get_now, Always-new_id, Always-fail_if, Always-call,
}

-- `E` is about the tables that an attempt leaves alone, `C` about the cache and the answers to come,
-- and `G` holds if a message is not found.
module _ (env : ReaderEnv) (E : List Blob → List NodeRow → Type 0)
    (C : Cache → List Reply → List (Bytes × Instant) → Type 0) (G : Type 0)
    (later : (c : Cache) (rs : List Reply) (vc : List (Bytes × Instant))
      → C c rs vc
      → C c (later_replies rs) vc × (next_reply rs ≡ failed message_not_found → G)) where
  abbrev Tables : Db → Type 0
  Tables d = E d.blobs d.nodes

  abbrev Keeps : {A : Type 0} → Exec A → (A → Type 0) → Type 0
  Keeps m Q = Always Tables C m Q

  -- What an attempt may come to.
  abbrev IsFair : Blob → Outcome → Type 0
  IsFair blob (got bytes) = is_intact env blob bytes ≡ true
  IsFair blob message_gone = G
  IsFair blob (lost e) = Unit

  -- A statement that reads, or writes other tables.
  Keeps-query :
      {A : Type 0} (q : Db → Result A × Db)
      → ((d : Db) → ((q d).1.blobs ≡ d.blobs) × ((q d).1.nodes ≡ d.nodes))
      → Keeps (query q) Any
  Keeps-query q same = Always-query q (λ d h. (
    subst (λ bs. E bs (q d).1.nodes) (sym (same d).0) (subst (E d.blobs) (sym (same d).1) h),
    λ a e. tt,
  ))

  Keeps-log : (kind : EventKind) (ref : Uuid) → Keeps (log env.uuids kind ref) Any
  unfolding log
  Keeps-log kind ref =
      Always-bind Any _ _ (Always-new_id env.uuids)
        (λ id _. Always-bind Any _ _ Always-get_now (λ now _. Keeps-query _ (λ d. (refl, refl))))

  Keeps-set_unavailable :
      (id : Uuid) (until : Option Instant) → Keeps (set_unavailable_until id until) Any
  unfolding set_unavailable_until set_unavailable_in
  Keeps-set_unavailable id until = Keeps-query _ (λ d.
      elim (Bool-cases (some_by (λ (b : BotRow). b.id == id) d.bots)) [
        | inl t ↦ rw t (refl, refl)
        | inr f ↦ rw f (refl, refl)
      ])

  Keeps-upsert : (m : BotChannel) → Keeps (upsert m) Any
  unfolding upsert upsert_in
  Keeps-upsert m = Keeps-query _ (λ d.
      elim (Bool-cases (
        some_by (λ (b : BotRow). b.id == m.bot_id) d.bots
        && some_by (λ (c : Channel). c.id == m.channel_id) d.channels)) [
          | inl t ↦ rw t (refl, refl)
          | inr f ↦ rw f (refl, refl)
        ])

  Keeps-upsert_file : (f : BlobBotFile) → Keeps (upsert_file f) Any
  unfolding upsert_file upsert_file_in
  Keeps-upsert_file f = Keeps-query _ (λ d.
      elim (Bool-cases (
        some_by (λ (b : Blob). b.id == f.blob_id) d.blobs
        && some_by (λ (b : BotRow). b.id == f.bot_id) d.bots)) [
          | inl t ↦ rw t (refl, refl)
          | inr n ↦ rw n (refl, refl)
        ])

  Keeps-delete_stale : (blob : Blob) → Keeps (delete_stale env blob) Any
  unfolding delete_stale delete_by_blob
  Keeps-delete_stale blob = Always-ignore _ (Keeps-query _ (λ d. (refl, refl)))

  Keeps-park_bot : (bot : Bot) (retry : ℕ) → Keeps (park_bot env bot retry) Any
  unfolding park_bot
  Keeps-park_bot bot retry = Always-bind Any _ _ Always-get_now (λ now _.
      Always-bind Any _ _ (Always-ignore _ (Keeps-set_unavailable bot.id (some (now + retry))))
        (λ _ _. Always-ignore _ (Keeps-log _ bot.id)))

  Keeps-record_non_member :
      (bot : Bot) (channel : Channel) → Keeps (record_non_member env bot channel) Any
  unfolding record_non_member
  Keeps-record_non_member bot channel =
      Always-bind Any _ _ Always-get_now (λ now _. Always-ignore _ (Keeps-upsert _))

  Keeps-give_up :
      (blob : Blob) (bot : Bot) (channel : Channel) (e : Error)
      → Keeps (give_up env bot channel e) (IsFair blob)
  unfolding give_up
  Keeps-give_up blob bot channel (rate_limited retry) =
      Always-bind Any _ _ (Keeps-park_bot bot retry) (λ _ _. Always-pure _ tt)
  Keeps-give_up blob bot channel tg_forbidden =
      Always-bind Any _ _ (Keeps-record_non_member bot channel) (λ _ _. Always-pure _ tt)
  Keeps-give_up blob bot channel e = Always-pure _ tt

  Keeps-call : (k : Call) → Keeps (call k) (λ r. r ≡ failed message_not_found → G)
  Keeps-call k = Always-call _ k later

  Keeps-verify :
      (blob : Blob) (bytes : Bytes)
      → Keeps (verify_integrity env blob bytes) (λ _. is_intact env blob bytes ≡ true)
  unfolding verify_integrity
  Keeps-verify blob bytes =
      Always-if (is_intact env blob bytes) _ _ (λ t. Always-pure tt t)
        (λ f. Always-bind Any _ _ (Always-ignore _ (Keeps-log _ blob.id)) (λ _ _. Always-raise _))

  -- A message to forward: the handler of `message_not_found` knows what that answer means.
  Keeps-forward :
      {B : Type 0} {Q : B → Type 0} (k : Call) (f : Result TgSendResult → Exec B)
      → ((r : Result TgSendResult) → (r ≡ err message_not_found → G) → Keeps (f r) Q)
      → Keeps (attempt (call k >>= send_reply) f) Q
  unfolding attempt ◌>>=◌ call
  Keeps-forward {Q} k f h = record {
    at = λ w d c.
        let s = later w.cache w.replies w.verified c in
        go (next_reply w.replies) s.1
          (record w { replies = later_replies w.replies; calls = k ∷ w.calls }) d s.0;
  }
    where
      go :
          (r : Reply)
          → (r ≡ failed message_not_found → G)
          → (w : World) → Tables w.db
          → C w.cache w.replies w.verified
          → After Tables C (let (x, w') = send_reply r w in f x w') Q
      go (gave bytes) g w d c = (h (err storage) (λ e. cc e)).at w d c
      go (sent m) g w d c = (h (ok m) (λ e. cc e)).at w d c
      go (named n) g w d c = (h (err storage) (λ e. cc e)).at w d c
      go (chat t m) g w d c = (h (err storage) (λ e. cc e)).at w d c
      go (failed x) g w d c =
          (h (err x) (λ e. let same : x ≡ message_not_found = cc e in g (ap failed same))).at w d c

  Keeps-file_reply : (r : Reply) → Keeps (file_reply r) Any
  Keeps-file_reply (gave bytes) = Always-pure bytes tt
  Keeps-file_reply (sent m) = Always-raise storage
  Keeps-file_reply (named n) = Always-raise storage
  Keeps-file_reply (chat t m) = Always-raise storage
  Keeps-file_reply (failed e) = Always-raise e

  Keeps-done_reply : (r : Reply) → Keeps (done_reply r) Any
  Keeps-done_reply (gave bytes) = Always-pure tt tt
  Keeps-done_reply (sent m) = Always-pure tt tt
  Keeps-done_reply (named n) = Always-pure tt tt
  Keeps-done_reply (chat t m) = Always-pure tt tt
  Keeps-done_reply (failed e) = Always-raise e

  Keeps-download : (bot : Bot) (file_id : Bytes) → Keeps (download_file bot file_id) Any
  unfolding download_file
  Keeps-download bot file_id = Always-bind _ _ _ (Keeps-call _) (λ r _. Keeps-file_reply r)

  Keeps-best_effort_delete :
      (bot : Bot) (room message : ℕ) → Keeps (best_effort_delete env bot room message) Any
  unfolding best_effort_delete delete_copy
  Keeps-best_effort_delete bot room message =
      Always-if (message == 0) _ _ (λ _. Always-pure tt tt)
        (λ _. Always-ignore _ (Always-bind _ _ _ (Keeps-call _) (λ r _. Keeps-done_reply r)))

  Keeps-if_verified :
      (blob : Blob) (bot : Bot) (res : TgSendResult) (bytes : Bytes)
      → is_intact env blob bytes ≡ true
      → Keeps (if_verified env blob bot res bytes (ok tt)) (IsFair blob)
  Keeps-if_verified blob bot res bytes h = Always-bind Any _ _ Always-get_now (λ now _.
      Always-bind Any _ _ (Always-ignore _ (Keeps-upsert_file _)) (λ _ _. Always-pure _ h))

  Keeps-recovered :
      (blob : Blob) (channel : Channel) (bot : Bot) (res : TgSendResult) (r : Result Bytes)
      → Keeps (recovered env blob channel bot res r) (IsFair blob)
  Keeps-recovered blob channel bot res (err e) =
      Always-bind Any _ _ (Keeps-best_effort_delete bot _ _)
        (λ _ _. Keeps-give_up blob bot channel e)
  Keeps-recovered blob channel bot res (ok bytes) =
      Always-bind Any _ _ (Keeps-best_effort_delete bot _ _) (λ _ _.
        Always-attempt _ _ _ (Keeps-verify blob bytes)
          (λ _ h. Keeps-if_verified blob bot res bytes h) (λ e. Always-pure _ tt))

  Keeps-forwarded :
      (blob : Blob) (channel : Channel) (bot : Bot) (r : Result TgSendResult)
      → (r ≡ err message_not_found → G)
      → Keeps (forwarded env blob channel bot r) (IsFair blob)
  Keeps-forwarded blob channel bot (ok res) g =
      Always-attempt Any _ _ (Keeps-download bot res.file_id)
        (λ bytes _. Keeps-recovered blob channel bot res (ok bytes))
        (λ e. Keeps-recovered blob channel bot res (err e))
  Keeps-forwarded blob channel bot (err message_not_found) g = Always-pure _ (g refl)
  Keeps-forwarded blob channel bot (err e) g = Keeps-give_up blob bot channel e

  Keeps-recover :
      (blob : Blob) (channel : Channel) (bot : Bot)
      → Keeps (recover env blob channel bot) (IsFair blob)
  unfolding recover forward
  Keeps-recover blob channel bot = Keeps-forward _ _ (Keeps-forwarded blob channel bot)

  Keeps-from_cached :
      (blob : Blob) (channel : Channel) (bot : Bot) (r : Result Bytes)
      → Keeps (from_cached env blob channel bot r) (IsFair blob)
  Keeps-from_cached blob channel bot (ok bytes) =
      Always-attempt _ _ _ (Keeps-verify blob bytes) (λ _ h. Always-pure _ h)
        (λ e. Always-bind Any _ _ (Keeps-delete_stale blob) (λ _ _. Keeps-recover blob channel bot))
  Keeps-from_cached blob channel bot (err message_not_found) =
      Always-bind Any _ _ (Keeps-delete_stale blob) (λ _ _. Keeps-recover blob channel bot)
  Keeps-from_cached blob channel bot (err e) = Keeps-give_up blob bot channel e

  pub Keeps-try_candidate :
      (blob : Blob) (channel : Channel) (c : Candidate)
      → Keeps (try_candidate env blob channel c) (IsFair blob)
  unfolding try_candidate
  Keeps-try_candidate blob channel c =
      Always-if (length c.file_id == 0) _ _ (λ _. Keeps-recover blob channel c.bot)
        (λ _.
          Always-attempt Any _ _ (Keeps-download c.bot c.file_id)
            (λ bytes _. Keeps-from_cached blob channel c.bot (ok bytes))
            (λ e. Keeps-from_cached blob channel c.bot (err e)))

  Keeps-list_by_ids : (ids : List Uuid) → Keeps (list_by_ids env.key ids) Any
  unfolding list_by_ids
  Keeps-list_by_ids [] = Always-pure [] tt
  Keeps-list_by_ids (id ∷ ids) = Keeps-query _ (λ d. (refl, refl))

  pub Keeps-candidates : (blob : Blob) → Keeps (candidates env blob) Any
  unfolding candidates list_by_channel list_by_blob
  Keeps-candidates blob = Always-bind Any _ _ Always-get_now (λ now _.
      Always-bind Any _ _ (Keeps-query _ (λ d. (refl, refl))) (λ links _.
        Always-bind Any _ _ (Keeps-list_by_ids (member_ids [] links)) (λ loaded _.
          Always-bind Any _ _ (Keeps-query _ (λ d. (refl, refl))) (λ files _. Always-pure _ tt))))

  -- `Known` is what the assertion says of a blob that was read; what is left is to keep a checked file,
  -- and to give a blob up.
  module _ (Known : Blob → Type 0)
      (put_kept : (blob : Blob) (bytes : Bytes)
        → Known blob
        → is_intact env blob bytes ≡ true
        → Keeps (cache_put env blob.id bytes) Any)
      (perm_kept : (blob : Blob) → G → Keeps (mark_perm_unavailable env blob) Any) where
    Keeps-try_all :
        (blob : Blob)
        → Known blob
        → (channel : Channel) (gone : Bool) → (gone ≡ true → G)
        → (cs : List Candidate)
        → Keeps (try_all env blob channel gone cs) (λ bytes. is_intact env blob bytes ≡ true)
    unfolding try_all
    Keeps-try_all blob known channel gone g [] =
        Always-if gone _ _ (λ t. Always-bind Any _ _ (perm_kept blob (g t)) (λ _ _. Always-raise _))
          (λ _. Always-raise _)
    Keeps-try_all blob known channel gone g (c ∷ cs) =
        Always-bind (IsFair blob) _ _ (Keeps-try_candidate blob channel c)
          (after (λ h k. Keeps-try_all blob known channel h k cs))
      where
        after :
            ((h : Bool)
              → (h ≡ true → G)
              → Keeps (try_all env blob channel h cs) (λ bytes. is_intact env blob bytes ≡ true))
            → (o : Outcome) → IsFair blob o
            → Keeps
                (after_try env blob gone (λ h. try_all env blob channel h cs) o)
                (λ bytes. is_intact env blob bytes ≡ true)
        after again (got bytes) fair =
            Always-bind Any _ _ (put_kept blob bytes known fair) (λ _ _. Always-pure bytes fair)
        after again message_gone fair = again true (λ _. fair)
        after again (lost e) fair = again gone g

    pub Keeps-from_telegram :
        (blob : Blob)
        → Known blob
        → Keeps (from_telegram env blob) (λ bytes. is_intact env blob bytes ≡ true)
    unfolding get_channel
    Keeps-from_telegram blob known =
        Always-bind Any _ _ (Keeps-query _ (λ d. (refl, refl))) (λ channel _.
          Always-bind Any _ _ (Keeps-candidates blob) (λ cs _.
            Always-bind _ _ _ (Always-fail_if _ _)
              (λ _ _. Keeps-try_all blob known channel false (λ e. cc e) cs)))
