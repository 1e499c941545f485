-- ===== src/Services/Availability.antt =====
-- What reevaluateAvailability (internal/service/bot.go) leaves behind it.
use tgwebdav.Base.{
  ◌≡◌, refl, sym, ap, ◌∙◌, Bool, true, false, not, ◌&&◌, ◌||◌, Option, List, [], ◌∷◌, ◌==◌, ==_iff,
  ==_refl, some_by, update_by, All, Has, Bool-cases, inl, inr, if◌then◌else◌, or_true,
}
use tgwebdav.Model.{Uuid, Blob, stored_blob, unavailable, perm_unavailable, Channel, BotChannel}
use tgwebdav.Repository.Blobs.{
  state_eq, channel_lost, channel_back, mark_channel_available, mark_channel_unavailable,
}
use tgwebdav.Repository.Bots.{Cipher, list_bots, hydrate_all}
use tgwebdav.Repository.Channels.{channel_is, list_channels, set_available, set_available_in}
use tgwebdav.Repository.Memberships.{list_by_channel, links_of_channel}
use tgwebdav.Repository.Order.{order_by}
use tgwebdav.Services.Served.{is_enabled_in, is_served, associate-is_enabled_in, some_by-is_served}
use tgwebdav.Services.{
  counts, has_ready_member, mark_blobs, apply_channel_availability, reevaluate_each,
  reevaluate_availability,
}
use tgwebdav.Repository.Rows.{
  ==_comm_false, All-Has, All-everywhere, All-update_by, AreOnceBy, some_by-order_by,
  some_by-update_by, update_where-update_by,
}
use tgwebdav.Store.Rules.{
  Gives-from, Gives, Gives-bind, Gives-pure, Gives-query, Gives-with_tx, Gives-weaken, Gives-pre,
}
use tgwebdav.Store.{ok, BotRow, Db, World}

-- A blob of a channel that is served, or not, as re-evaluation leaves it.
abbrev pub IsSettledBlob : Bool → Blob → Type 0
IsSettledBlob true b = state_eq b.state unavailable ≡ false
IsSettledBlob false b = (state_eq b.state unavailable || state_eq b.state perm_unavailable) ≡ true

-- The channel's flag says whether it is served, and its blobs agree.
unfoldable pub IsSettled : Bool → Uuid → Db → Type 0
IsSettled served id d =
    All (λ (c : Channel). c.id ≡ id → c.available ≡ served) d.channels
    × All (λ (b : Blob). b.channel_id ≡ id → IsSettledBlob served b) d.blobs

set_flag : Uuid → Bool → List Channel → List Channel
set_flag id v cs = update_by (channel_is id) (λ c. record c { available = v }) cs

blobs_after : Uuid → Bool → List Blob → List Blob
unfolding channel_back channel_lost
blobs_after id v bs = if v then channel_back id bs else channel_lost id bs

-- A row that an update of channel `id` reaches is not of another channel.
other_channel :
    (id k c : Uuid) (rest : Bool) → (id == k) ≡ false → c ≡ k → (c == id && rest) ≡ true → ⊥
other_channel id k c rest n e h =
    let other : (k == id) ≡ false = ==_comm_false id k n in
    let here : (k == id && rest) ≡ true = rw (← e) h in cc (rw other at here)

in_channel : (id c : Uuid) (rest : Bool) → c ≡ id → (c == id && rest) ≡ false → rest ≡ false
in_channel id c rest e h = rw (e, ==_refl id) at h

module _ (id : Uuid) where
  blobs_after-IsSettledBlob :
      (v : Bool) (bs : List Blob)
      → All (λ (b : Blob). b.channel_id ≡ id → IsSettledBlob v b) (blobs_after id v bs)
  unfolding blobs_after channel_back channel_lost state_eq
  blobs_after-IsSettledBlob true bs =
      rw
        (update_where-update_by (λ (b : Blob). b.channel_id == id && state_eq b.state unavailable)
          (λ (b : Blob). record b { state = stored_blob }) bs)
        (All-update_by (λ _. Unit {0}) _ _ _ bs (λ b u t e. refl)
          (λ b u n e. in_channel id b.channel_id (state_eq b.state unavailable) e n)
          (All-everywhere _ bs (λ _. tt)))
  blobs_after-IsSettledBlob false bs =
      rw
        (update_where-update_by
          (λ (b : Blob). b.channel_id == id && not (state_eq b.state perm_unavailable))
          (λ (b : Blob). record b { state = unavailable }) bs)
        (All-update_by (λ _. Unit {0}) _ _ _ bs (λ b u t e. refl)
          (λ b u n e.
            perm _ _ (in_channel id b.channel_id (not (state_eq b.state perm_unavailable)) e n))
          (All-everywhere _ bs (λ _. tt)))
    where
      perm : (lost gone : Bool) → not gone ≡ false → (lost || gone) ≡ true
      perm true gone h = refl
      perm false true h = refl
      perm false false h = cc h

  blobs_after-other :
      (v : Bool) (k : Uuid) (w : Bool) (bs : List Blob)
      → (id == k) ≡ false
      → All (λ (b : Blob). b.channel_id ≡ k → IsSettledBlob w b) bs
      → All (λ (b : Blob). b.channel_id ≡ k → IsSettledBlob w b) (blobs_after id v bs)
  unfolding blobs_after channel_back channel_lost
  blobs_after-other true k w bs n h =
      rw
        (update_where-update_by (λ (b : Blob). b.channel_id == id && state_eq b.state unavailable)
          (λ (b : Blob). record b { state = stored_blob }) bs)
        (All-update_by (λ (b : Blob). b.channel_id ≡ k → IsSettledBlob w b) _ _ _ bs
          (λ b g t e. elim (other_channel id k b.channel_id _ n e t) [ ]) (λ b g m e. g e) h)
  blobs_after-other false k w bs n h =
      rw
        (update_where-update_by
          (λ (b : Blob). b.channel_id == id && not (state_eq b.state perm_unavailable))
          (λ (b : Blob). record b { state = unavailable }) bs)
        (All-update_by (λ (b : Blob). b.channel_id ≡ k → IsSettledBlob w b) _ _ _ bs
          (λ b g t e. elim (other_channel id k b.channel_id _ n e t) [ ]) (λ b g m e. g e) h)

  -- What one round of the loop does to the tables.
  abbrev settle : Bool → Db → Db
  settle v d = record d { channels = set_flag id v d.channels; blobs = blobs_after id v d.blobs }

  settle-IsSettled : (v : Bool) (d : Db) → IsSettled v id (settle v d)
  unfolding IsSettled set_flag
  settle-IsSettled v d = (
    All-update_by (λ _. Unit {0}) _ _ _ d.channels (λ c u t e. refl)
        (λ c u n e. cc (n, ==_refl id, ap (λ x. x == id) e))
        (All-everywhere _ d.channels (λ _. tt)),
    blobs_after-IsSettledBlob v d.blobs,
  )

  settle-other :
      (v : Bool) (k : Uuid) (w : Bool) (d : Db)
      → (id == k) ≡ false
      → IsSettled w k d
      → IsSettled w k (settle v d)
  unfolding IsSettled set_flag
  settle-other v k w d n (on_channels, on_blobs) = (
    All-update_by (λ (c : Channel). c.id ≡ k → c.available ≡ w) _ _ _ d.channels
        (λ c g t e. cc (t, ==_comm_false id k n, ap (λ x. x == id) e)) (λ c g m e. g e) on_channels,
    blobs_after-other v k w d.blobs n on_blobs,
  )

-- `rows` and `links` are the tables that the loop only reads, `all` the channels listed.
module _ (rows : List BotRow) (links : List BotChannel) (all : List Channel) where
  -- The rounds for `rest` are still to be made.
  abbrev IsAt : List Channel → Db → Type 0
  IsAt rest d =
      (d.bots ≡ rows)
      × (d.bot_channels ≡ links)
      × ((k : Uuid) → some_by (channel_is k) d.channels ≡ some_by (channel_is k) all)
      × ((k : Uuid)
          → some_by (channel_is k) all ≡ true
          → some_by (channel_is k) rest ≡ false
          → IsSettled (is_served rows links k) k d)

  IsAt-settle :
      (ch : Channel) (chs : List Channel) (v : Bool) (d : Db)
      → v ≡ is_served rows links ch.id
      → IsAt (ch ∷ chs) d
      → IsAt chs (settle ch.id v d)
  unfolding set_flag
  IsAt-settle ch chs v d e (same_rows, same_links, listed, done) = (
    same_rows,
    same_links,
    λ k. some_by-update_by (channel_is k) _ _ d.channels (λ c. refl) ∙ listed k,
    λ k here later. elim (Bool-cases (ch.id == k)) [
      | inl t ↦
          let same : ch.id ≡ k = (==_iff ch.id k).0 t in
          rw (← same, ← e) (settle-IsSettled ch.id v d)
      | inr n ↦ settle-other ch.id v k _ d n (done k here (rw (n, later) refl))
    ],
  )

  Gives-has_ready_member :
      (ready : Uuid → Bool) (rest : List Channel) (id : Uuid)
      → ((k : Uuid) → ready k ≡ is_enabled_in rows k)
      → Gives
          (IsAt rest)
          (has_ready_member ready id)
          (λ v d. IsAt rest d × (v ≡ is_served rows links id))
  unfolding has_ready_member list_by_channel
  Gives-has_ready_member ready rest id same =
      Gives-bind (λ ms d. IsAt rest d × (ms ≡ links_of_channel id links)) _ _
        (Gives-query _ (λ d ms h e.
          let given : links_of_channel id d.bot_channels ≡ ms = cc e in
          (h, sym given ∙ ap (links_of_channel id) h.1)))
        (λ ms. Gives-pure _ (λ d h.
          (h.0, ap (some_by (counts ready)) h.1 ∙ some_by-is_served ready rows links id same)))

  Gives-mark_blobs :
      (P : Db → Type 0) (id : Uuid) (v : Bool)
      → Gives P (mark_blobs id v) (λ _ d.
        (before : Db) × P before × (d ≡ record before { blobs = blobs_after id v before.blobs }))
  unfolding mark_channel_available mark_channel_unavailable blobs_after
  Gives-mark_blobs P id true = Gives-query _ (λ d t h e. (d, h, refl))
  Gives-mark_blobs P id false = Gives-query _ (λ d t h e. (d, h, refl))

  Gives-apply :
      (ch : Channel) (chs : List Channel) (v : Bool)
      → Gives
          (λ d. IsAt (ch ∷ chs) d × (v ≡ is_served rows links ch.id))
          (apply_channel_availability ch v)
          (λ _ d. IsAt chs d)
  unfolding apply_channel_availability set_available set_available_in set_flag
  Gives-apply ch chs v = Gives-with_tx _ (
      Gives-bind
        (λ _ d.
          (before : Db) × (IsAt (ch ∷ chs) before × (v ≡ is_served rows links ch.id))
          × (d ≡ record before { channels = set_flag ch.id v before.channels }))
        _ _
        (Gives-query _ (λ d t h e. elim (Bool-cases (some_by (channel_is ch.id) d.channels)) [
          | inl there ↦ rw there (d, h, refl)
          | inr n ↦ cc (rw n at e)
        ]))
        (λ _.
          Gives-weaken
            (λ _ d (mid, (before, (at, e), step), last).
              let both : d ≡ settle ch.id v before =
                last ∙ ap (λ (x : Db). record x { blobs = blobs_after ch.id v x.blobs }) step in
              rw both (IsAt-settle ch chs v before e at))
            (Gives-mark_blobs _ ch.id v)))

  Gives-reevaluate_each :
      (ready : Uuid → Bool)
      → ((k : Uuid) → ready k ≡ is_enabled_in rows k)
      → (chs : List Channel) → Gives (IsAt chs) (reevaluate_each ready chs) (λ _ d. IsAt [] d)
  unfolding reevaluate_each
  Gives-reevaluate_each ready same [] = Gives-pure tt (λ d h. h)
  Gives-reevaluate_each ready same (ch ∷ chs) =
      Gives-bind _ _ _ (Gives-has_ready_member ready (ch ∷ chs) ch.id same)
        (λ v. Gives-bind _ _ _ (Gives-apply ch chs v) (λ _. Gives-reevaluate_each ready same chs))

-- Every channel of the tables is settled.
unfoldable AreSettled : Db → Type 0
AreSettled d =
    (k : Uuid)
    → some_by (channel_is k) d.channels ≡ true
    → IsSettled (is_served d.bots d.bot_channels k) k d

reevaluate_availability-AreSettled :
    (key : Option Cipher)
    → Gives
        (λ d. AreOnceBy (λ (r : BotRow). r.id) d.bots)
        (reevaluate_availability key)
        (λ _ d. AreSettled d)
unfolding reevaluate_availability list_channels list_bots AreSettled IsSettled
reevaluate_availability-AreSettled key = Gives-from (λ start once.
    Gives-bind
      (λ chs d. (d ≡ start) × (chs ≡ order_by (λ (c : Channel). c.created_at) start.channels)) _ _
      (Gives-query _ (λ d chs h e.
        let given : order_by (λ (c : Channel). c.created_at) d.channels ≡ chs = cc e in
        (h, sym given ∙ ap (λ (x : Db). order_by (λ (c : Channel). c.created_at) x.channels) h)))
      (λ chs.
        Gives-bind
          (λ bs d.
            (d ≡ start)
            × (chs ≡ order_by (λ (c : Channel). c.created_at) start.channels)
            × (hydrate_all key (order_by (λ (r : BotRow). r.created_at) start.bots) ≡ ok bs))
          _ _
          (Gives-query _ (λ d bs h e. (
            h.0,
            h.1,
            ap (λ (x : Db). hydrate_all key (order_by (λ (r : BotRow). r.created_at) x.bots))
                  (sym h.0)
                ∙ e,
          )))
          (λ bs. Gives-from (λ d (here, sorted, loaded).
            Gives-weaken
              (λ _ after (rows, links, listed, done) k there.
                rw (rows, links) (done k (sym (listed k) ∙ there) refl))
              (Gives-pre (λ before same. at_start chs before (same ∙ here) sorted)
                (Gives-reevaluate_each start.bots start.bot_channels chs _
                  (λ k. associate-is_enabled_in key start.bots bs k once loaded) chs))))))
  where
    at_start :
        {start : Db} (chs : List Channel) (d : Db)
        → d ≡ start
        → chs ≡ order_by (λ (c : Channel). c.created_at) start.channels
        → IsAt start.bots start.bot_channels chs chs d
    at_start {start} chs d same sorted = (
      ap (λ (x : Db). x.bots) same,
      ap (λ (x : Db). x.bot_channels) same,
      λ k.
          ap (λ (x : Db). some_by (channel_is k) x.channels) same
          ∙ sym (some_by-order_by (λ (c : Channel). c.created_at) (channel_is k) start.channels)
          ∙ ap (some_by (channel_is k)) (sym sorted),
      λ k here none_left. cc (here, none_left),
    )

some_by-Has : (c : Channel) (cs : List Channel) → Has c cs → some_by (channel_is c.id) cs ≡ true
some_by-Has c [] m = elim m [ ]
some_by-Has c (x ∷ xs) (inl e) = rw (← e, ==_refl c.id) refl
some_by-Has c (x ∷ xs) (inr m) = rw (some_by-Has c xs m) (or_true (x.id == c.id))

module _ (key : Option Cipher) (w : World) (once : AreOnceBy (λ (r : BotRow). r.id) w.db.bots)
    (done : (reevaluate_availability key w).0 ≡ ok tt) where
  abbrev after : Db
  after = (reevaluate_availability key w).1.db

  settled :
      (k : Uuid)
      → some_by (channel_is k) after.channels ≡ true
      → IsSettled (is_served after.bots after.bot_channels k) k after
  unfolding AreSettled
  settled k there = (reevaluate_availability-AreSettled key).at w tt once done k there

  -- If re-evaluation reports success, from tables in which no two bots have one id, then every
  -- channel's flag says whether an enabled bot is recorded as a member of it, whatever the flag
  -- was before: so it also brings back a channel that ChannelService.Remove has disabled.
  pub reevaluate-available :
      (c : Channel)
      → Has c after.channels
      → c.available ≡ is_served after.bots after.bot_channels c.id
  unfolding IsSettled
  reevaluate-available c there =
      All-Has _ c after.channels (settled c.id (some_by-Has c after.channels there)).0 there refl

  -- Under the same conditions, after it no blob of an available channel is unavailable (so evicted
  -- blobs are stored again), and every blob of any other channel is unavailable or permanently
  -- unavailable.
  pub reevaluate-blobs :
      (c : Channel) (b : Blob)
      → Has c after.channels
      → Has b after.blobs
      → b.channel_id ≡ c.id
      → IsSettledBlob c.available b
  unfolding IsSettled
  reevaluate-blobs c b c_there b_there of_c =
      rw (reevaluate-available c c_there) (
        All-Has _ b after.blobs (settled c.id (some_by-Has c after.channels c_there)).1 b_there
          of_c)
