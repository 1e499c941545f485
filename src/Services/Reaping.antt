-- ===== src/Services/Reaping.antt =====
-- What `reap` of internal/service/maintenance.go may take away.
use tgwebdav.Base.{
  ℕ, ◌≡◌, refl, sym, ap, ◌∙◌, Bool, true, false, not, Option, none, some, List, [], ◌∷◌, ◌==◌,
  ==_iff, get_elem?, some_by, keep, All, Has, Has-keep, Has-of_keep, Bool-cases, inl, inr, ◌⊎◌,
  if◌then◌else◌,
}
use tgwebdav.BlobReader.{delete_copy, done_reply}
use tgwebdav.Model.{Uuid, Instant, Bot, BotChannel, Blob, Extent, EventKind}
use tgwebdav.Repository.Blobs.{
  is_collectable, collectable, collectable_age, list_collectable, delete_blob, delete_blob_from,
}
use tgwebdav.Repository.Bots.{Cipher, list_bots, set_unavailable_until, set_unavailable_in}
use tgwebdav.Repository.Channels.{get_channel}
use tgwebdav.Repository.Events.{log}
use tgwebdav.Repository.Memberships.{list_by_channel}
use tgwebdav.Services.Bots.{
  next_bot_turn, eligible_among, eligible_bots, take_turn, pick_for_upload,
}
use tgwebdav.Services.Maintenance.{reap_batch, drop_row, after_delete, reap_each, reap_listed, reap}
use tgwebdav.Services.Retention.{NoMatter}
use tgwebdav.Services.{found_or_panic, element_at}
use tgwebdav.Repository.Rows.{All-Has_self, All-map, All-order_by, All-take, AreOnceBy, once-eq}
use tgwebdav.Store.{
  message_not_found, rate_limited, Result, ok, err, Reply, gave, sent, named, chat, failed, BotRow,
  NodeRow, Db, World, Exec, answer, next_fault, is_refused, query, attempt,
}
use tgwebdav.Store.Always.{
  Always, Any, Always-pure, Always-raise, Always-if, Always-query, Always-bind, Always-attempt,
  Always-ignore, Always-get_now, Always-new_id, Always-call,
}

-- an extent is stored in the blob
abbrev pub is_referenced : List Extent → Uuid → Bool
is_referenced extents id = some_by (λ (e : Extent). e.blob_id == id) extents

-- `b` is a row that must stay.
module _ (nodes : List NodeRow) (extents : List Extent) (b : Blob) where
  abbrev Stays : Db → Type 0
  Stays d = (d.nodes ≡ nodes) × (d.extents ≡ extents) × Has b d.blobs

  abbrev Keeps : {A : Type 0} → Exec A → Type 0
  Keeps m = Always Stays NoMatter m Any

  Keeps-read : {A : Type 0} (q : Db → Result A) → Keeps (query (λ d. (q d, d)))
  Keeps-read q = Always-query _ (λ d h. (h, λ a e. tt))

  Keeps-log : (uuids : ℕ → Uuid) (kind : EventKind) (ref : Uuid) → Keeps (log uuids kind ref)
  unfolding log
  Keeps-log uuids kind ref =
      Always-bind Any _ _ (Always-new_id uuids) (λ id _.
        Always-bind Any _ _ Always-get_now (λ now _. Always-query _ (λ d h. (h, λ a e. tt))))

  Keeps-element_at : {A : Type 0} (xs : List A) (i : Option ℕ) → Keeps (element_at xs i)
  Keeps-element_at xs none = Always-raise _
  Keeps-element_at {A} xs (some i) = go (get_elem? xs i)
    where
      go : (o : Option A) → Keeps (found_or_panic o)
      go none = Always-raise _
      go (some x) = Always-pure x tt

  Keeps-take_turn : (key : Option Cipher) (bots : List Bot) → Keeps (take_turn key bots)
  unfolding take_turn next_bot_turn
  Keeps-take_turn key [] = Always-raise _
  Keeps-take_turn key (x ∷ xs) =
      Always-bind Any _ _ (record { at = λ w d c. (d, c, λ a e. tt) })
        (λ turn _. Keeps-element_at (x ∷ xs) _)

  Keeps-either :
      {A : Type 0} (test : Bool) (m n : Exec A) → Keeps m → Keeps n → Keeps (if test then m else n)
  Keeps-either test m n hm hn = Always-if test m n (λ t. hm) (λ f. hn)

  Keeps-pick_for_upload : (key : Option Cipher) (id : Uuid) → Keeps (pick_for_upload key id)
  unfolding pick_for_upload eligible_bots list_by_channel list_bots
  Keeps-pick_for_upload key id =
      Always-bind Any _ _
        (Always-bind Any _ _ (Keeps-read _) (λ members _.
          Keeps-either (not (some_by (λ (m : BotChannel). m.member) members)) _ _
            (Always-pure [] tt)
            (Always-bind Any _ _ (Keeps-read _) (λ bots _.
              Always-bind Any _ _ Always-get_now
                (λ now _. Always-pure (eligible_among key now members bots) tt)))))
        (λ bots _. Keeps-take_turn key bots)

  Keeps-done_reply : (r : Reply) → Keeps (done_reply r)
  Keeps-done_reply (gave bytes) = Always-pure tt tt
  Keeps-done_reply (sent m) = Always-pure tt tt
  Keeps-done_reply (named n) = Always-pure tt tt
  Keeps-done_reply (chat t m) = Always-pure tt tt
  Keeps-done_reply (failed e) = Always-raise e

  Keeps-delete_copy : (bot : Bot) (room message : ℕ) → Keeps (delete_copy bot room message)
  unfolding delete_copy
  Keeps-delete_copy bot room message =
      Always-bind Any _ _ (Always-call Any _ (λ c rs vc k. (tt, tt))) (λ r _. Keeps-done_reply r)

  Keeps-set_unavailable :
      (id : Uuid) (until : Option Instant) → Keeps (set_unavailable_until id until)
  unfolding set_unavailable_until set_unavailable_in
  Keeps-set_unavailable id until = Always-query _ (λ d h.
      elim (Bool-cases (some_by (λ (r : BotRow). r.id == id) d.bots)) [
        | inl t ↦ rw t (h, λ a e. tt)
        | inr f ↦ rw f (h, λ a e. tt)
      ])

  -- A row that may be reaped is another one, or an extent holds it.
  abbrev Spares : Blob → Type 0
  Spares x = (b.id == x.id) ≡ true → is_referenced extents x.id ≡ true

  Keeps-delete_blob : (x : Blob) → Spares x → Keeps (delete_blob x.id)
  unfolding delete_blob delete_blob_from
  Keeps-delete_blob x spares = Always-query _ (λ d (same_nodes, same_extents, there).
      elim (Bool-cases (is_referenced d.extents x.id)) [
        | inl t ↦ rw t ((same_nodes, same_extents, there), λ a e. tt)
        | inr f ↦
            let other : (b.id == x.id) ≡ false = elim (Bool-cases (b.id == x.id)) [
              | inl t ↦
                  let held : is_referenced d.extents x.id ≡ true = rw same_extents (spares t) in
                  cc (held, f)
              | inr n ↦ n
            ] in
            elim (Bool-cases (some_by (λ (y : Blob). y.id == x.id) d.blobs)) [
              | inl t ↦
                  rw (f, t)
                    (
                      (
                        same_nodes,
                        same_extents,
                        Has-keep (λ (y : Blob). not (y.id == x.id)) b d.blobs there (rw other refl),
                      ),
                      λ a e. tt,
                    )
              | inr n ↦ rw (f, n) ((same_nodes, same_extents, there), λ a e. tt)
            ]
      ])

  module _ (key : Option Cipher) (uuids : ℕ → Uuid) where
    Keeps-drop_row :
        (x : Blob) (rest : Exec (Unit {0}))
        → Spares x
        → Keeps rest
        → Keeps (drop_row key uuids x rest)
    unfolding drop_row
    Keeps-drop_row x rest spares keeps =
        Always-attempt Any _ _ (Keeps-delete_blob x spares)
          (λ t _. Always-bind Any _ _ (Always-ignore _ (Keeps-log uuids _ x.id)) (λ _ _. keeps))
          (λ e. keeps)

    Keeps-after_delete :
        (x : Blob) (bot : Bot) (rest : Exec (Unit {0})) (r : Result (Unit {0}))
        → Spares x
        → Keeps rest
        → Keeps (after_delete key uuids x bot rest r)
    unfolding after_delete
    Keeps-after_delete x bot rest (ok t) spares keeps = Keeps-drop_row x rest spares keeps
    Keeps-after_delete x bot rest (err message_not_found) spares keeps =
        Keeps-drop_row x rest spares keeps
    Keeps-after_delete x bot rest (err (rate_limited retry)) spares keeps =
        Always-bind Any _ _ Always-get_now
          (λ now _. Always-ignore _ (Keeps-set_unavailable bot.id _))
    Keeps-after_delete x bot rest (err e) spares keeps = keeps

    Keeps-reap_each : (xs : List Blob) → All Spares xs → Keeps (reap_each key uuids xs)
    unfolding reap_each get_channel
    Keeps-reap_each [] h = Always-pure tt tt
    Keeps-reap_each (x ∷ xs) (spares, h) =
        let rest = Keeps-reap_each xs h in
        Always-attempt Any _ _ (Keeps-read _)
          (λ ch _.
            Always-attempt Any _ _ (Keeps-pick_for_upload key x.channel_id)
              (λ bot _.
                Always-attempt Any _ _ (Keeps-delete_copy bot ch.tg_chat_id x.message_id)
                  (λ t _. Keeps-after_delete x bot _ (ok t) spares rest)
                  (λ e. Keeps-after_delete x bot _ (err e) spares rest))
              (λ e. rest))
          (λ e. rest)

module _ (w : World) (once : AreOnceBy (λ (x : Blob). x.id) w.db.blobs) (b : Blob)
    (there : Has b w.db.blobs)
    (stays : (is_referenced w.db.extents b.id ≡ true)
      ⊎ (is_collectable w.now collectable_age b ≡ false)) where
  listed-Spares :
      (limit : ℕ) → All (Spares w.db.nodes w.db.extents b) (collectable w.now limit w.db.blobs)
  unfolding collectable
  listed-Spares limit =
      All-take _ limit _ (All-order_by _ _ _ (All-map _ _ _ spared (All-Has_self _)))
    where
      spared :
          (x : Blob)
          → Has x (keep (is_collectable w.now collectable_age) w.db.blobs)
          → Spares w.db.nodes w.db.extents b x
      spared x h same =
          let k = Has-of_keep (is_collectable w.now collectable_age) x w.db.blobs h in
          let ids : b.id ≡ x.id = (==_iff b.id x.id).0 same in
          elim stays [
            | inl held ↦ ap (is_referenced w.db.extents) (sym ids) ∙ held
            | inr kept ↦
                let e : b ≡ x = once-eq (λ (y : Blob). y.id) b x w.db.blobs once there k.0 ids in
                let old : is_collectable w.now collectable_age b ≡ true =
                  ap (is_collectable w.now collectable_age) e ∙ k.1 in
                cc (old, kept)
          ]

  -- From tables in which no two blobs have one id, and for a row of the blobs that an extent is
  -- stored in or that is not collectable (stored, without references and ten minutes old): after a
  -- run of reap, whatever fails and whatever Telegram answers, that row is still there, and nodes
  -- and extents are as they were.
  pub reap-spares :
      (key : Option Cipher) (uuids : ℕ → Uuid)
      → ((reap key uuids w).1.db.nodes ≡ w.db.nodes)
        × ((reap key uuids w).1.db.extents ≡ w.db.extents)
        × Has b (reap key uuids w).1.db.blobs
  unfolding reap attempt list_collectable query
  reap-spares key uuids = go (is_refused w) (next_fault w.faults).1
    where
      read : Db → Result (List Blob) × Db
      read d = (ok (collectable w.now reap_batch d.blobs), d)

      go :
          (fault : Bool) (rest : List Bool)
          → Stays w.db.nodes w.db.extents b
              (let (r, v) = answer fault rest read w in reap_listed key uuids r v).1.db
      go true rest = (refl, refl, there)
      go false rest =
          ((Keeps-reap_each w.db.nodes w.db.extents b key uuids _ (listed-Spares reap_batch)).at
            (record w { faults = rest }) (refl, refl, there) tt).0
