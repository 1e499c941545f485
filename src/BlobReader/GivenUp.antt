-- ===== src/BlobReader/GivenUp.antt =====
-- When ReadBlob gives a blob up, and what it leaves alone otherwise.
use tgwebdav.Base.{◌≡◌, refl, Bool, true, false, Option, none, some, List, [], ◌∷◌}
use tgwebdav.BlobReader.{
  ReaderEnv, Candidate, Outcome, got, message_gone, lost, candidates, try_candidate, cache_get,
  cache_put, after_try, try_all, if_cached, read_blob,
}
use tgwebdav.Model.{Uuid, Bytes, Blob, Channel}
use tgwebdav.Repository.Blobs.{get_blob}
use tgwebdav.Repository.Channels.{get_channel}
use tgwebdav.Store.{
  message_not_found, NodeRow, ok, Reply, failed, Db, World, Exec, later_replies, next_reply,
}
use tgwebdav.Store.Always.{
  Always, Any, Always-pure, Always-map, Always-query, Always-bind, Always-fail_if,
}
use tgwebdav.BlobReader.Attempts.{Keeps-from_telegram, Keeps-try_candidate, Keeps-candidates}
use tgwebdav.Store.Always.{Always-Gives}
use tgwebdav.Store.Rules.{
  Gives, Gives-bind, Gives-pure, Gives-raise, Gives-if, Gives-query, Gives-fail_if, Gives-weaken,
}
use tgwebdav.Base.{All}

-- Telegram does not say that a message is not found.
abbrev pub IsThere : Reply → Type 0
IsThere r = (r ≡ failed message_not_found) → ⊥

-- The rows of blobs and nodes are these.
abbrev Same : List Blob → List NodeRow → List Blob → List NodeRow → Type 0
Same bs ns bs' ns' = (bs' ≡ bs) × (ns' ≡ ns)

All-IsThere :
    (rs : List Reply)
    → All IsThere rs
    → All IsThere (later_replies rs) × (next_reply rs ≡ failed message_not_found → ⊥)
All-IsThere [] h = (tt, λ e. cc e)
All-IsThere (r ∷ rs) h = (h.1, h.0)

module _ (env : ReaderEnv) (bs : List Blob) (ns : List NodeRow) where
  abbrev Keeps : {A : Type 0} → Exec A → (A → Type 0) → Type 0
  Keeps m Q = Always (λ d. Same bs ns d.blobs d.nodes) (λ _ rs _. All IsThere rs) m Q

  Keeps-cache_get : (id : Uuid) → Keeps (cache_get env id) Any
  Keeps-cache_get id = record { at = λ w d c. (d, c, λ a e. tt) }

  Keeps-cache_put : (id : Uuid) (bytes : Bytes) → Keeps (cache_put env id bytes) Any
  Keeps-cache_put id bytes = record { at = λ w d c. (d, c, λ a e. tt) }

  Keeps-if_cached : (blob : Blob) (o : Option Bytes) → Keeps (if_cached env blob o) Any
  Keeps-if_cached blob (some bytes) = Always-pure bytes tt
  Keeps-if_cached blob none =
      Always-map _ Any (λ _ _. tt)
        (Keeps-from_telegram env (Same bs ns) (λ _ rs _. All IsThere rs) ⊥
          (λ _ rs _ h. All-IsThere rs h) (λ _. Unit {0}) (λ b bytes _ _. Keeps-cache_put b.id bytes)
          (λ b none'. absurd none') blob tt)

  Keeps-read_blob : (id : Uuid) → Keeps (read_blob env id) Any
  unfolding read_blob get_blob
  Keeps-read_blob id = Always-bind Any _ _ (Always-query _ (λ d h. (h, λ a e. tt))) (λ blob _.
      Always-bind _ _ _ (Always-fail_if _ _)
        (λ _ _. Always-bind Any _ _ (Keeps-cache_get id) (λ o _. Keeps-if_cached blob o)))

-- Unless Telegram answers some call with "message not found", ReadBlob leaves the rows of blobs
-- and of nodes as they are, however it ends: no other failure (a rate limit, a bot that is no
-- member, corrupt bytes, a failing call) makes it give a blob up.
pub read_blob-IsThere :
    (env : ReaderEnv) (id : Uuid) (w : World)
    → All IsThere w.replies
    → ((read_blob env id w).1.db.blobs ≡ w.db.blobs)
      × ((read_blob env id w).1.db.nodes ≡ w.db.nodes)
read_blob-IsThere env id w there =
    ((Keeps-read_blob env w.db.blobs w.db.nodes id).at w (refl, refl) there).0

module _ (env : ReaderEnv) (bs : List Blob) (ns : List NodeRow) where
  abbrev Rows : Db → Type 0
  Rows d = Same bs ns d.blobs d.nodes

  abbrev Reads : {A : Type 0} → Exec A → Type 0
  Reads m = Gives Rows m (λ _. Rows)

  Reads-try_candidate :
      (blob : Blob) (channel : Channel) (c : Candidate) → Reads (try_candidate env blob channel c)
  Reads-try_candidate blob channel c =
      Gives-weaken (λ a d h. h.0)
        (Always-Gives (
          Keeps-try_candidate env (Same bs ns) (λ _ _ _. Unit {0}) (Unit {0})
            (λ _ _ _ _. (tt, λ _. tt)) blob channel c))

  Reads-candidates : (blob : Blob) → Reads (candidates env blob)
  Reads-candidates blob =
      Gives-weaken (λ a d h. h.0)
        (Always-Gives (
          Keeps-candidates env (Same bs ns) (λ _ _ _. Unit {0}) (Unit {0})
            (λ _ _ _ _. (tt, λ _. tt)) blob))

  Reads-cache_put : (id : Uuid) (bytes : Bytes) → Reads (cache_put env id bytes)
  Reads-cache_put id bytes = record { at = λ w a d e. d }

  Reads-try_all :
      (blob : Blob) (channel : Channel) (gone : Bool) (cs : List Candidate)
      → Reads (try_all env blob channel gone cs)
  unfolding try_all
  Reads-try_all blob channel gone [] =
      Gives-if gone _ _
        (λ _. Gives-bind (λ _ _. Unit {0}) _ _ (record { at = λ w a d e. tt }) (λ _. Gives-raise _))
        (λ _. Gives-raise _)
  Reads-try_all blob channel gone (c ∷ cs) =
      Gives-bind (λ _. Rows) _ _ (Reads-try_candidate blob channel c)
        (after (λ g. Reads-try_all blob channel g cs))
    where
      after :
          ((g : Bool) → Reads (try_all env blob channel g cs))
          → (o : Outcome) → Reads (after_try env blob gone (λ g. try_all env blob channel g cs) o)
      after again (got bytes) =
          Gives-bind (λ _. Rows) _ _ (Reads-cache_put blob.id bytes)
            (λ _. Gives-pure bytes (λ d h. h))
      after again message_gone = again true
      after again (lost e) = again gone

  Reads-if_cached : (blob : Blob) (o : Option Bytes) → Reads (if_cached env blob o)
  unfolding get_channel
  Reads-if_cached blob (some bytes) = Gives-pure bytes (λ d h. h)
  Reads-if_cached blob none =
      Gives-bind (λ _. Rows) _ _ (Gives-query _ (λ d a h e. h))
        (λ channel.
          Gives-bind (λ _. Rows) _ _ (Reads-candidates blob)
            (λ cs.
              Gives-bind (λ _. Rows) _ _ (Gives-weaken (λ a d h. h.0) (Gives-fail_if _ _))
                (λ _. Reads-try_all blob channel false cs)))

  Reads-read_blob : (id : Uuid) → Reads (read_blob env id)
  unfolding read_blob get_blob
  Reads-read_blob id =
      Gives-bind (λ _. Rows) _ _ (Gives-query _ (λ d a h e. h))
        (λ blob.
          Gives-bind (λ _. Rows) _ _ (Gives-weaken (λ a d h. h.0) (Gives-fail_if _ _))
            (λ _.
              Gives-bind (λ _. Rows) _ _ (record { at = λ w a d e. d })
                (λ o. Reads-if_cached blob o)))

-- A ReadBlob that returns bytes leaves the rows of blobs and of nodes as they are, also where some
-- bot did not find the message.
pub read_blob-rows :
    (env : ReaderEnv) (id : Uuid) (w : World) (bytes : Bytes)
    → (read_blob env id w).0 ≡ ok bytes
    → ((read_blob env id w).1.db.blobs ≡ w.db.blobs)
      × ((read_blob env id w).1.db.nodes ≡ w.db.nodes)
read_blob-rows env id w bytes e =
    (Reads-read_blob env w.db.blobs w.db.nodes id).at w bytes (refl, refl) e
