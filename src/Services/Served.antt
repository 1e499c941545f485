-- ===== src/Services/Served.antt =====
-- What re-evaluation is to find out (internal/service/bot.go: channelHasEnabledMember and the map of
-- enabled bots), as tests on the tables.
use tgwebdav.Base.{
  ◌≡◌, refl, sym, ap, ◌∙◌, Bool, true, false, ◌&&◌, ◌||◌, Option, List, [], ◌∷◌, ◌==◌, ==_iff, keep,
  some_by, Bool-cases, inl, inr,
}
use tgwebdav.Model.{Uuid, Bytes, Bot, BotChannel}
use tgwebdav.Repository.Bots.{Cipher, hydrate, hydrate_all, hydrate_next, decrypt_token, with_token}
use tgwebdav.Repository.Order.{order_by}
use tgwebdav.Services.{associate, bot_has, counts}
use tgwebdav.Repository.Rows.{
  AreOnceBy, AreOnceBy-order_by, or_false, some_by-keep, some_by-order_by,
}
use tgwebdav.Store.{Result, ok, err, BotRow}

-- an enabled bot of that id is in the table
unfoldable pub is_enabled_in : List BotRow → Uuid → Bool
is_enabled_in rows id = some_by (λ (r : BotRow). r.id == id && r.enabled) rows

-- an enabled bot is recorded as a member of the channel
unfoldable pub is_served : List BotRow → List BotChannel → Uuid → Bool
is_served rows links id =
    some_by (λ (m : BotChannel). m.channel_id == id && (m.member && is_enabled_in rows m.bot_id))
      links

module _ (key : Option Cipher) where
  hydrated_as :
      (r : BotRow) (b : Bot) → hydrate key r ≡ ok b → (b.id ≡ r.id) × (b.enabled ≡ r.enabled)
  unfolding hydrate
  hydrated_as r b h = go (decrypt_token key r.token_enc) h
    where
      bot_of : Result Bot → Bot
      bot_of (ok x) = x
      bot_of (err e) = b

      go : (t : Result Bytes) → with_token key r t ≡ ok b → (b.id ≡ r.id) × (b.enabled ≡ r.enabled)
      go (err e) h = cc h
      go (ok t) h = (sym (ap (λ x. (bot_of x).id) h), sym (ap (λ x. (bot_of x).enabled) h))

  -- A test of the id and the flag has the same answer on the bots as on their rows.
  pub some_by-hydrate_all :
      (g : Uuid → Bool → Bool) (rows : List BotRow) (bs : List Bot)
      → hydrate_all key rows ≡ ok bs
      → some_by (λ (b : Bot). g b.id b.enabled) bs ≡ some_by (λ (r : BotRow). g r.id r.enabled) rows
  unfolding hydrate_all
  some_by-hydrate_all g [] bs h = go bs h
    where
      go : (bs : List Bot) → ok [] ≡ ok bs → some_by (λ (b : Bot). g b.id b.enabled) bs ≡ false
      go [] h = refl
      go (b ∷ bs) h = cc h
  some_by-hydrate_all g (r ∷ rs) bs h =
      go (hydrate key r) (hydrate_all key rs) bs (hydrated_as r) (some_by-hydrate_all g rs) h
    where
      go :
          (one : Result Bot) (rest : Result (List Bot)) (bs : List Bot)
          → ((b : Bot) → one ≡ ok b → (b.id ≡ r.id) × (b.enabled ≡ r.enabled))
          → ((cs : List Bot)
              → rest ≡ ok cs
              → some_by (λ (b : Bot). g b.id b.enabled) cs
                ≡ some_by (λ (x : BotRow). g x.id x.enabled) rs)
          → hydrate_next key one rest ≡ ok bs
          → some_by (λ (b : Bot). g b.id b.enabled) bs
            ≡ (g r.id r.enabled || some_by (λ (x : BotRow). g x.id x.enabled) rs)
      go (err e) rest bs one_as again h = cc h
      go (ok b) (err e) bs one_as again h = cc h
      go (ok b) (ok cs) [] one_as again h = cc h
      go (ok b) (ok cs) (x ∷ xs) one_as again h =
          let same_b : b ≡ x = cc h in
          let same_cs : cs ≡ xs = cc h in
          let k = one_as b refl in rw (← same_b, ← same_cs, k.0, k.1, again cs refl) refl

  AreOnceBy-hydrate_all :
      (rows : List BotRow) (bs : List Bot)
      → hydrate_all key rows ≡ ok bs
      → AreOnceBy (λ (r : BotRow). r.id) rows
      → AreOnceBy (λ (b : Bot). b.id) bs
  unfolding hydrate_all
  AreOnceBy-hydrate_all [] [] h once = tt
  AreOnceBy-hydrate_all [] (b ∷ bs) h once = cc h
  AreOnceBy-hydrate_all (r ∷ rs) bs h once =
      go (hydrate key r) (hydrate_all key rs) bs (hydrated_as r)
        (λ cs e. some_by-hydrate_all (λ i f. i == r.id) rs cs e)
        (λ cs e. AreOnceBy-hydrate_all rs cs e once.1) h
    where
      go :
          (one : Result Bot) (rest : Result (List Bot)) (bs : List Bot)
          → ((b : Bot) → one ≡ ok b → (b.id ≡ r.id) × (b.enabled ≡ r.enabled))
          → ((cs : List Bot)
              → rest ≡ ok cs
              → some_by (λ (b : Bot). b.id == r.id) cs ≡ some_by (λ (x : BotRow). x.id == r.id) rs)
          → ((cs : List Bot) → rest ≡ ok cs → AreOnceBy (λ (b : Bot). b.id) cs)
          → hydrate_next key one rest ≡ ok bs
          → AreOnceBy (λ (b : Bot). b.id) bs
      go (err e) rest bs one_as new again h = cc h
      go (ok b) (err e) bs one_as new again h = cc h
      go (ok b) (ok cs) [] one_as new again h = cc h
      go (ok b) (ok cs) (x ∷ xs) one_as new again h =
          let same_b : b ≡ x = cc h in
          let same_cs : cs ≡ xs = cc h in
          let k = one_as b refl in
          rw (← same_b, ← same_cs, k.0) (new cs refl ∙ once.0, again cs refl)

-- What `lo.Associate` gives for an id, where the ids are distinct.
pub associate_lem :
    (f : Bot → Bool) (bs : List Bot) (id : Uuid)
    → AreOnceBy (λ (b : Bot). b.id) bs
    → associate f bs id ≡ some_by (λ b. b.id == id && f b) bs
unfolding associate
associate_lem f [] id once = refl
associate_lem f (b ∷ bs) id once = elim (Bool-cases (some_by (bot_has id) bs)) [
  | inl t ↦ rw t (associate_lem f bs id once.1 ∙ later t)
  | inr n ↦ rw (n, no_later bs n) (sym (or_nothing _))
]
  where
    or_nothing : (a : Bool) → (a || false) ≡ a
    or_nothing true = refl
    or_nothing false = refl

    no_later :
        (cs : List Bot)
        → some_by (bot_has id) cs ≡ false
        → some_by (λ c. c.id == id && f c) cs ≡ false
    no_later [] n = refl
    no_later (c ∷ cs) n =
        let parts = or_false (c.id == id) (some_by (bot_has id) cs) n in
        rw (parts.0, no_later cs parts.1) refl

    later :
        some_by (bot_has id) bs ≡ true
        → some_by (λ c. c.id == id && f c) bs
          ≡ (b.id == id && f b || some_by (λ c. c.id == id && f c) bs)
    later t = elim (Bool-cases (b.id == id)) [
      | inl e ↦
          let same : b.id ≡ id = (==_iff b.id id).0 e in
          let n : some_by (bot_has id) bs ≡ false = rw (← same) once.0 in cc (t, n)
      | inr e ↦ rw e refl
    ]

module _ (key : Option Cipher) where
  -- The map of enabled bots, built from the rows as List gives them.
  pub associate-is_enabled_in :
      (rows : List BotRow) (bs : List Bot) (id : Uuid)
      → AreOnceBy (λ (r : BotRow). r.id) rows
      → hydrate_all key (order_by (λ (r : BotRow). r.created_at) rows) ≡ ok bs
      → associate (λ (b : Bot). b.enabled) bs id ≡ is_enabled_in rows id
  unfolding is_enabled_in
  associate-is_enabled_in rows bs id once h =
      associate_lem (λ (b : Bot). b.enabled) bs id
        (AreOnceBy-hydrate_all key _ bs h (AreOnceBy-order_by _ _ rows once))
      ∙ some_by-hydrate_all key (λ i f. i == id && f) _ bs h
      ∙ some_by-order_by _ (λ (r : BotRow). r.id == id && r.enabled) rows

-- The test of channelHasEnabledMember, made with that map.
pub some_by-is_served :
    (ready : Uuid → Bool) (rows : List BotRow) (links : List BotChannel) (id : Uuid)
    → ((k : Uuid) → ready k ≡ is_enabled_in rows k)
    → some_by (counts ready) (keep (λ (m : BotChannel). m.channel_id == id) links)
      ≡ is_served rows links id
unfolding is_served
some_by-is_served ready rows links id same =
    some_by-keep (counts ready) (λ (m : BotChannel). m.channel_id == id) links ∙ go links
  where
    go :
        (ms : List BotChannel)
        → some_by (λ (m : BotChannel). m.channel_id == id && (m.member && ready m.bot_id)) ms
          ≡ some_by
              (λ (m : BotChannel). m.channel_id == id && (m.member && is_enabled_in rows m.bot_id))
              ms
    go [] = refl
    go (m ∷ ms) = rw (same m.bot_id, go ms) refl
