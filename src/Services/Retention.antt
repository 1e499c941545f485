-- ===== src/Services/Retention.antt =====
-- Which blobs `evict` of internal/service/maintenance.go may give up.
use tgwebdav.Base.{
  ℕ, ◌≡◌, ◌<◌, refl, sym, ap, ◌∙◌, subst, Bool, true, false, not, ◌&&◌, ◌+◌, ◌-◌, List, [], ◌∷◌,
  ◌==◌, ==_iff, &&_iff, ltb, ltb→lt, All, Has, Bool-cases, inl, inr, ◌⊎◌, arith,
}
use tgwebdav.BlobCache.{Cache}
use tgwebdav.Model.{Uuid, Instant, Bytes, Blob, unavailable, perm_unavailable, Channel, EventKind}
use tgwebdav.Repository.Blobs.{state_eq, evict_older, evict_older_than}
use tgwebdav.Repository.Channels.{list_channels}
use tgwebdav.Repository.Events.{log}
use tgwebdav.Repository.Order.{order_by}
use tgwebdav.Services.Maintenance.{evict_each, evict}
use tgwebdav.Repository.Rows.{All-Has_self, All-order_by}
use tgwebdav.Store.{Reply, Db, World}
use tgwebdav.Store.Always.{
  Always, Any, Always-pure, Always-if, Always-query, Always-bind, Always-attempt, Always-ignore,
  Always-get_now, Always-new_id,
}

-- The blob's message is outside its channel's window.
abbrev pub IsPast : List Channel → Blob → Type 0
IsPast channels b =
    (c : Channel) × Has c channels
    × (b.channel_id ≡ c.id)
    × (b.message_seq + c.eviction_threshold < c.message_counter)
    × (state_eq b.state perm_unavailable ≡ false)

-- The blobs before and after an eviction, row by row.
abbrev pub AreEvicted : List Channel → List Blob → List Blob → Type 0
AreEvicted channels [] [] = Unit
AreEvicted channels [] (c ∷ cs) = ⊥
AreEvicted channels (b ∷ bs) [] = ⊥
AreEvicted channels (b ∷ bs) (c ∷ cs) =
    ((c ≡ b) ⊎ ((c ≡ record b { state = unavailable }) × IsPast channels b))
    × AreEvicted channels bs cs

module _ (channels : List Channel) where
  AreEvicted-refl : (bs : List Blob) → AreEvicted channels bs bs
  AreEvicted-refl [] = tt
  AreEvicted-refl (b ∷ bs) = (inl refl, AreEvicted-refl bs)

  AreEvicted-evict_older :
      (ch : Channel)
      → Has ch channels
      → (before now : List Blob) → AreEvicted channels before now
      → AreEvicted channels before
          (evict_older ch.id (ch.message_counter - ch.eviction_threshold) now)
  unfolding evict_older
  AreEvicted-evict_older ch there [] [] h = tt
  AreEvicted-evict_older ch there [] (c ∷ cs) h = elim h [ ]
  AreEvicted-evict_older ch there (b ∷ bs) [] h = elim h [ ]
  AreEvicted-evict_older ch there (b ∷ bs) (c ∷ cs) h =
      let rest = AreEvicted-evict_older ch there bs cs h.1 in
      elim (Bool-cases (
        c.channel_id == ch.id
        && (ltb c.message_seq (ch.message_counter - ch.eviction_threshold)
            && not (state_eq c.state perm_unavailable)))) [
              | inl t ↦ rw t (hit h.0 t, rest)
              | inr n ↦ rw n (h.0, rest)
            ]
    where
      not_true : (x : Bool) → not x ≡ true → x ≡ false
      not_true true e = cc e
      not_true false e = refl

      hit :
          (c ≡ b) ⊎ ((c ≡ record b { state = unavailable }) × IsPast channels b)
          → (c.channel_id == ch.id
              && (ltb c.message_seq (ch.message_counter - ch.eviction_threshold)
                  && not (state_eq c.state perm_unavailable)))
            ≡ true
          → (record c { state = unavailable } ≡ b)
            ⊎ ((record c { state = unavailable } ≡ record b { state = unavailable })
                × IsPast channels b)
      hit (inr (e, past)) t = inr (ap (λ (x : Blob). record x { state = unavailable }) e, past)
      hit (inl e) t =
          let one = (&&_iff _ _).0 t in
          let two = (&&_iff _ _).0 one.1 in
          inr (
            ap (λ (x : Blob). record x { state = unavailable }) e,
            (
              ch,
              there,
              ap (λ (x : Blob). x.channel_id) (sym e) ∙ (==_iff c.channel_id ch.id).0 one.0,
              past (ap (λ (x : Blob). x.message_seq) e) (ltb→lt _ _ two.0),
              ap (λ (x : Blob). state_eq x.state perm_unavailable) (sym e)
                  ∙ not_true (state_eq c.state perm_unavailable) two.1,
            ),
          )
        where
          past :
              c.message_seq ≡ b.message_seq
              → c.message_seq < ch.message_counter - ch.eviction_threshold
              → b.message_seq + ch.eviction_threshold < ch.message_counter
          past e l = omega arith

-- nothing is said of the cache, the answers and the keys
abbrev pub NoMatter : Cache → List Reply → List (Bytes × Instant) → Type 0
NoMatter c rs vc = Unit

module _ (uuids : ℕ → Uuid) (channels : List Channel) (blobs : List Blob) where
  abbrev EvictedTo : Db → Type 0
  EvictedTo d = (d.channels ≡ channels) × AreEvicted channels blobs d.blobs

  Always-log : (kind : EventKind) (ref : Uuid) → Always EvictedTo NoMatter (log uuids kind ref) Any
  unfolding log
  Always-log kind ref =
      Always-bind Any _ _ (Always-new_id uuids) (λ id _.
        Always-bind Any _ _ Always-get_now (λ now _. Always-query _ (λ d h. (h, λ a e. tt))))

  Always-evict_each :
      (cs : List Channel)
      → All (λ c. Has c channels) cs
      → Always EvictedTo NoMatter (evict_each uuids cs) Any
  unfolding evict_each evict_older_than
  Always-evict_each [] h = Always-pure tt tt
  Always-evict_each (c ∷ cs) h =
      let rest = Always-evict_each cs h.1 in
      Always-if (ltb 0 (c.message_counter - c.eviction_threshold)) _ _
        (λ t.
          Always-attempt Any _ _
            (Always-query _
              (λ d k. ((k.0, AreEvicted-evict_older channels c h.0 blobs d.blobs k.1), λ a e. tt)))
            (λ n _.
              Always-bind Any _ _
                (Always-if (ltb 0 n) _ _ (λ t. Always-ignore _ (Always-log _ c.id))
                  (λ f. Always-pure tt tt))
                (λ _ _. rest))
            (λ e. rest))
        (λ f. rest)

-- After a run of evict, whatever fails, the blobs are row by row as they were, save that some are
-- unavailable now: these were not permanently unavailable, and their message lies below their
-- channel's counter less its threshold.
pub evict-AreEvicted :
    (uuids : ℕ → Uuid) (w : World) → AreEvicted w.db.channels w.db.blobs (evict uuids w).1.db.blobs
unfolding evict list_channels
evict-AreEvicted uuids w =
    ((Always-attempt {D = EvictedTo uuids w.db.channels w.db.blobs}
        (λ cs. All (λ c. Has c w.db.channels) cs) _ _
        (Always-query _ (λ d h. (
          h,
          λ cs e.
              let given : order_by (λ (c : Channel). c.created_at) d.channels ≡ cs = cc e in
              subst (All (λ c. Has c w.db.channels)) given
                (rw h.0 (All-order_by _ _ w.db.channels (All-Has_self w.db.channels))),
        )))
        (λ cs all. Always-evict_each uuids w.db.channels w.db.blobs cs all)
        (λ e. Always-pure tt tt)).at
      w (refl, AreEvicted-refl w.db.channels w.db.blobs) tt).0.1
