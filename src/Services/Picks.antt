-- ===== src/Services/Picks.antt =====
-- Which bot and which channel PickForUpload of internal/service/bot.go and channel.go may give.
use tgwebdav.Base.{
  ℕ, ◌≡◌, ◌⊎◌, refl, sym, ap, ◌∙◌, subst, Bool, true, false, not, ◌&&◌, Option, none, some, List,
  [], ◌∷◌, ◌==◌, ==_iff, &&_iff, get_elem?, some_by, Has, Has-of_keep, Has-keep, All, Bool-cases,
  inl, inr,
}
use tgwebdav.Model.{Uuid, Instant, Bot, is_available, Channel, BotChannel}
use tgwebdav.Repository.Bots.{Cipher, list_bots, hydrate_all}
use tgwebdav.Repository.Channels.{list_channels}
use tgwebdav.Repository.Memberships.{links_of_channel, list_by_channel}
use tgwebdav.Repository.Order.{order_by}
use tgwebdav.Services.Bots.{
  next_bot_turn, member_of, eligible_among, eligible_bots, take_turn, pick_for_upload,
}
use tgwebdav.Services.Channels.{
  next_channel_turn, cons_if, eligible_each, eligible_channels, take_channel_turn, pick_channel,
}
use tgwebdav.Services.{associate, bot_has, counts, has_ready_member, found_or_panic, element_at}
use tgwebdav.Repository.Rows.{All-Has, some_by-found, some_by_of_Has}
use tgwebdav.Store.{Error, storage, panicked, no_bot, Result, ok, err, BotRow, Db, World}
use tgwebdav.Store.Reads.{
  Reads, Reads-pure, Reads-raise, Reads-if, Reads-query, Reads-bind, Reads-map, Reads-get_now,
}

module _ {d : Db} {n : Instant} {E : Error → Type 0} where
  Reads-element_at :
      {A : Type 0} (xs : List A) (i : Option ℕ)
      → E panicked
      → Reads d n (element_at xs i) (λ x. Has x xs) E
  Reads-element_at xs none h = Reads-raise panicked h
  Reads-element_at {A} xs (some i) h = go (get_elem? xs i) (Has-get_elem? xs i)
    where
      Has-get_elem? : (ys : List A) (k : ℕ) (x : A) → get_elem? ys k ≡ some x → Has x ys
      Has-get_elem? [] k x e = cc e
      Has-get_elem? (y ∷ ys) ℕ.zero x e = inl (let same : y ≡ x = cc e in sym same)
      Has-get_elem? (y ∷ ys) (ℕ.suc k) x e = inr (Has-get_elem? ys k x e)

      go :
          (o : Option A)
          → ((x : A) → o ≡ some x → Has x xs)
          → Reads d n (found_or_panic o) (λ x. Has x xs) E
      go none at = Reads-raise panicked h
      go (some x) at = Reads-pure x (at x refl)

module _ (key : Option Cipher) (d : Db) (n : Instant) (id : Uuid) where
  abbrev listed : Result (List Bot)
  listed = hydrate_all key (order_by (λ (r : BotRow). r.created_at) d.bots)

  abbrev members : List BotChannel
  members = links_of_channel id d.bot_channels

  -- A list that eligibleBots may give.
  abbrev AreEligible : List Bot → Type 0
  AreEligible bots =
      ((bots ≡ []) × (some_by (λ (m : BotChannel). m.member) members ≡ false))
      ⊎ ((all : List Bot) × (listed ≡ ok all) × (bots ≡ eligible_among key n members all))

  Reads-eligible_bots :
      (E : Error → Type 0)
      → E storage
      → ((e : Error) → listed ≡ err e → E e)
      → Reads d n (eligible_bots key id) AreEligible E
  unfolding eligible_bots list_by_channel list_bots
  Reads-eligible_bots E fault bad =
      Reads-bind (λ ms. ms ≡ members) _ _
        (Reads-query _ fault (λ ms e. let same : members ≡ ms = cc e in sym same) (λ x e. cc e))
        (λ ms same.
          Reads-if (not (some_by (λ (m : BotChannel). m.member) ms)) _ _
            (λ t.
              Reads-pure []
                (inl (refl, ap (some_by (λ (m : BotChannel). m.member)) (sym same) ∙ not_true _ t)))
            (λ f.
              Reads-bind (λ all. listed ≡ ok all) _ _ (Reads-query _ fault (λ all e. e) bad)
                (λ all loaded.
                  Reads-bind (λ a. a ≡ n) _ _ Reads-get_now
                    (λ a at.
                      Reads-pure (eligible_among key a ms all)
                        (inr (all, loaded, rw (at, same) refl))))))
    where
      not_true : (x : Bool) → not x ≡ true → x ≡ false
      not_true true e = cc e
      not_true false e = refl

  Reads-take_turn :
      (bots : List Bot) (E : Error → Type 0)
      → E panicked
      → (bots ≡ [] → E no_bot)
      → Reads d n (take_turn key bots) (λ b. Has b bots) E
  unfolding take_turn next_bot_turn
  Reads-take_turn [] E panics empty = Reads-raise no_bot (empty refl)
  Reads-take_turn (b ∷ bs) E panics empty =
      Reads-bind (λ _. Unit {0}) _ _ (record { at = λ w s t. (s, t, λ a e. tt, λ x e. cc e) })
        (λ turn _. Reads-element_at (b ∷ bs) _ panics)

-- An id that the map holds true is a bot's, which passes the test.
associate-found :
    (f : Bot → Bool) (bs : List Bot) (id : Uuid)
    → associate f bs id ≡ true
    → (b : Bot) × Has b bs × (b.id ≡ id) × (f b ≡ true)
unfolding associate
associate-found f [] id h = cc h
associate-found f (b ∷ bs) id h = elim (Bool-cases (some_by (bot_has id) bs)) [
  | inl t ↦
      let (c, there, same, passes) = associate-found f bs id (rw t at h) in
      (c, inr there, same, passes)
  | inr n ↦
      let both = (&&_iff (b.id == id) (f b)).0 (rw n at h) in
      (b, inl refl, (==_iff b.id id).0 both.0, both.1)
]

module _ (key : Option Cipher) (d : Db) (n : Instant) where
  -- A bot that PickForUpload may take for the channel.
  abbrev IsUsable : Uuid → Bot → Type 0
  IsUsable id b =
      (is_available b n ≡ true) × (member_of key (links_of_channel id d.bot_channels) b.id ≡ true)

  Reads-pick_for_upload :
      (id : Uuid) → Reads d n (pick_for_upload key id) (IsUsable id) (λ _. Unit {0})
  unfolding pick_for_upload eligible_among
  Reads-pick_for_upload id =
      Reads-bind (AreEligible key d n id) _ _
        (Reads-eligible_bots key d n id (λ _. Unit {0}) tt (λ x e. tt))
        (λ bots eligible.
          Reads-map (usable bots eligible)
            (Reads-take_turn key d n id bots (λ _. Unit {0}) tt (λ e. tt)))
    where
      usable :
          (bots : List Bot) → AreEligible key d n id bots → (b : Bot) → Has b bots → IsUsable id b
      usable bots (inl (none_at_all, no_member)) b there = elim (rw none_at_all at there) [ ]
      usable bots (inr (all, loaded, same)) b there =
          let both = (&&_iff _ _).0 (
            (Has-of_keep
              (λ (x : Bot).
                member_of key (links_of_channel id d.bot_channels) x.id && is_available x n)
              b all (rw same at there)).1) in
          (both.1, both.0)

  -- The channel has a member among the bots that are usable now.
  abbrev HasUsableMember : Uuid → Type 0
  HasUsableMember id =
      (all : List Bot) × (listed key d n id ≡ ok all)
      × (some_by (counts (associate (λ b. is_available b n) all))
            (links_of_channel id d.bot_channels)
          ≡ true)

  eligible-nonempty :
      (id : Uuid) (bots : List Bot)
      → HasUsableMember id
      → AreEligible key d n id bots
      → bots ≡ []
      → ⊥
  unfolding eligible_among
  eligible-nonempty id bots (all, loaded, has) eligible none_left =
      let ready : Uuid → Bool = associate (λ b. is_available b n) all in
      let (m, there, counted) =
        some_by-found (counts ready) (links_of_channel id d.bot_channels) has in
      let both = (&&_iff m.member (ready m.bot_id)).0 counted in
      let (b, b_there, same, free) = associate-found (λ b. is_available b n) all m.bot_id both.1 in
      elim eligible [
        | inl (e, no_member) ↦
            let member : some_by (λ (x : BotChannel). x.member) (links_of_channel id d.bot_channels)
                ≡ true =
              some_by_of_Has (λ (x : BotChannel). x.member) m (links_of_channel id d.bot_channels)
                there both.0 in
            cc (member, no_member)
        | inr (all', loaded', e) ↦
            let same_all : all ≡ all' = cc (sym loaded ∙ loaded') in
            let linked : member_of key (links_of_channel id d.bot_channels) b.id ≡ true =
              some_by_of_Has (λ (x : BotChannel). x.bot_id == b.id && x.member) m
                (links_of_channel id d.bot_channels) there
                ((&&_iff _ _).1 ((==_iff m.bot_id b.id).1 (sym same), both.0)) in
            let kept : Has b (eligible_among key n (links_of_channel id d.bot_channels) all) =
              Has-keep
                (λ (x : Bot).
                  member_of key (links_of_channel id d.bot_channels) x.id && is_available x n)
                b all b_there ((&&_iff _ _).1 (linked, free)) in
            let nothing : eligible_among key n (links_of_channel id d.bot_channels) all ≡ [] =
              ap (eligible_among key n (links_of_channel id d.bot_channels)) same_all
              ∙ sym e
              ∙ none_left in
            elim (subst (Has b) nothing kept) [ ]
      ]

  -- From tables where the channel has a usable member, PickForUpload never reports that it has none.
  Reads-pick_for_upload_has :
      (id : Uuid)
      → HasUsableMember id
      → Reads d n (pick_for_upload key id) (λ _. Unit {0}) (λ e. ¬ (e ≡ no_bot))
  unfolding pick_for_upload
  Reads-pick_for_upload_has id (all, loaded, has) =
      Reads-bind (AreEligible key d n id) _ _
        (Reads-eligible_bots key d n id (λ e. ¬ (e ≡ no_bot)) (λ e. cc e) (λ x e. cc (loaded, e)))
        (λ bots eligible.
          Reads-map (λ b t. tt)
            (Reads-take_turn key d n id bots (λ e. ¬ (e ≡ no_bot)) (λ e. cc e)
              (λ e. elim (eligible-nonempty id bots (all, loaded, has) eligible e) [ ])))

  Reads-eligible_each :
      (usable : Uuid → Bool) (chs : List Channel)
      → Reads d n
          (eligible_each usable chs)
          (All (λ (c : Channel).
            some_by (counts usable) (links_of_channel c.id d.bot_channels) ≡ true))
          (λ _. Unit {0})
  unfolding eligible_each has_ready_member list_by_channel
  Reads-eligible_each usable [] = Reads-pure [] tt
  Reads-eligible_each usable (c ∷ cs) =
      let rest = Reads-eligible_each usable cs in
      Reads-if (not c.available) _ _ (λ t. rest)
        (λ f.
          Reads-bind (λ has. some_by (counts usable) (links_of_channel c.id d.bot_channels) ≡ has) _
            _
            (Reads-bind (λ ms. ms ≡ links_of_channel c.id d.bot_channels) _ _
              (Reads-query _ tt (λ ms e. cc e) (λ x e. tt))
              (λ ms e. Reads-pure _ (ap (some_by (counts usable)) (sym e))))
            (λ has h. Reads-bind _ _ _ rest (λ cs' all. Reads-pure _ (joined has cs' h all))))
    where
      joined :
          (has : Bool) (cs' : List Channel)
          → some_by (counts usable) (links_of_channel c.id d.bot_channels) ≡ has
          → All
              (λ (x : Channel).
                some_by (counts usable) (links_of_channel x.id d.bot_channels) ≡ true)
              cs'
          → All
              (λ (x : Channel).
                some_by (counts usable) (links_of_channel x.id d.bot_channels) ≡ true)
              (cons_if has c cs')
      joined true cs' h all = (h, all)
      joined false cs' h all = all

  Reads-pick_channel : Reads d n (pick_channel key) (λ c. HasUsableMember c.id) (λ _. Unit {0})
  unfolding pick_channel eligible_channels take_channel_turn next_channel_turn list_channels
      list_bots
  Reads-pick_channel =
      Reads-bind (All (λ (c : Channel). HasUsableMember c.id)) _ _
        (Reads-bind (λ _. Unit {0}) _ _ (Reads-query _ tt (λ chs e. tt) (λ x e. tt))
          (λ chs _.
            Reads-bind (λ all. listed key d n 0 ≡ ok all) _ _
              (Reads-query _ tt (λ all e. e) (λ x e. tt))
              (λ all loaded.
                Reads-bind (λ a. a ≡ n) _ _ Reads-get_now
                  (λ a at. rw at (
                    Reads-map (λ cs h. with_bots all loaded cs h)
                      (Reads-eligible_each (associate (λ b. is_available b n) all) chs))))))
        turn
    where
      with_bots :
          (all : List Bot)
          → listed key d n 0 ≡ ok all
          → (cs : List Channel)
          → All
              (λ (c : Channel).
                some_by
                  (counts (associate (λ b. is_available b n) all))
                  (links_of_channel c.id d.bot_channels)
                ≡ true)
              cs
          → All (λ (c : Channel). HasUsableMember c.id) cs
      with_bots all loaded [] h = tt
      with_bots all loaded (c ∷ cs) h = ((all, loaded, h.0), with_bots all loaded cs h.1)

      turn :
          (cs : List Channel)
          → All (λ (c : Channel). HasUsableMember c.id) cs
          → Reads d n (take_channel_turn key cs) (λ c. HasUsableMember c.id) (λ _. Unit {0})
      turn [] h = Reads-raise no_bot tt
      turn (c ∷ cs) h =
          Reads-bind (λ _. Unit {0}) _ _ (record { at = λ w s t. (s, t, λ a e. tt, λ x e. cc e) })
            (λ i _.
              Reads-map (λ x there. All-Has _ x (c ∷ cs) h there) (Reads-element_at (c ∷ cs) _ tt))

module _ (key : Option Cipher) (w : World) where
  -- A bot that BotService.PickForUpload gives for a channel is enabled, not parked at that
  -- instant, and recorded as a member of the channel.
  pub pick_for_upload-is_available :
      (id : Uuid) (b : Bot)
      → (pick_for_upload key id w).0 ≡ ok b
      → (is_available b w.now ≡ true)
        × (member_of key (links_of_channel id w.db.bot_channels) b.id ≡ true)
  pick_for_upload-is_available id b picked =
      ((Reads-pick_for_upload key w.db w.now id).at w refl refl).2 b picked

  -- When ChannelService.PickForUpload has given a channel, then BotService.PickForUpload for it,
  -- made next, never answers that there is no member bot, whatever calls fail.
  pub pick_channel-pick_for_upload :
      (c : Channel)
      → (pick_channel key w).0 ≡ ok c
      → ¬ ((pick_for_upload key c.id (pick_channel key w).1).0 ≡ err no_bot)
  pick_channel-pick_for_upload c picked failed =
      let (same, time, good, bad) = (Reads-pick_channel key w.db w.now).at w refl refl in
      ((Reads-pick_for_upload_has key w.db w.now c.id (good c picked)).at (pick_channel key w).1
          same time).3
        no_bot failed refl
