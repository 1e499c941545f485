-- ===== src/BlobReader/Usable.antt =====
-- Which bots ReadBlob (internal/service/blob.go) may ask: the usable members, each once.
use tgwebdav.Base.{
  ◌≡◌, ◌⊎◌, refl, sym, ap, ◌∙◌, subst, Bool, true, false, not, ◌&&◌, ◌||◌, Option, none, some, List,
  [], ◌∷◌, map, ◌==◌, ==_iff, ==_refl, if◌then◌else◌, or_true, and_false, some_by, Has, Bool-cases,
  Option-cases, inl, inr,
}
use tgwebdav.BlobReader.{member_ids, bot_in, if_usable, usable_bots}
use tgwebdav.Model.{Uuid, Instant, Bot, is_available, BotChannel}

abbrev pub occurs : Uuid → List Uuid → Bool
occurs id ids = some_by (λ k. k == id) ids

abbrev pub AreOnce : List Uuid → Type 0
AreOnce [] = Unit
AreOnce (id ∷ ids) = (occurs id ids ≡ false) × AreOnce ids

abbrev pub bot_ids : List Bot → List Uuid
bot_ids bots = map (λ (b : Bot). b.id) bots

abbrev pub is_member : List BotChannel → Uuid → Bool
is_member links id = some_by (λ (m : BotChannel). m.bot_id == id && m.member) links

member_ids-seen :
    (k : Uuid) (links : List BotChannel) (seen : List Uuid)
    → occurs k seen ≡ true
    → occurs k (member_ids seen links) ≡ false
unfolding member_ids
member_ids-seen k [] seen h = refl
member_ids-seen k (m ∷ ms) seen h =
    elim (Bool-cases (not m.member || some_by (λ j. j == m.bot_id) seen)) [
      | inl t ↦ rw t (member_ids-seen k ms seen h)
      | inr f ↦
          let later : occurs k (member_ids (m.bot_id ∷ seen) ms) ≡ false =
            member_ids-seen k ms (m.bot_id ∷ seen) (rw h (or_true (m.bot_id == k))) in
          let other : (m.bot_id == k) ≡ false = elim (Bool-cases (m.bot_id == k)) [
            | inl same ↦
                let e : k ≡ m.bot_id = sym ((==_iff m.bot_id k).0 same) in
                let seen' : some_by (λ j. j == m.bot_id) seen ≡ true = rw (← e) h in
                let both : (not m.member || some_by (λ j. j == m.bot_id) seen) ≡ true =
                  rw seen' (or_true (not m.member)) in
                cc (f, both)
            | inr n ↦ n
          ] in
          rw (f, other) later
    ]

pub member_ids-AreOnce :
    (links : List BotChannel) (seen : List Uuid) → AreOnce (member_ids seen links)
unfolding member_ids
member_ids-AreOnce [] seen = tt
member_ids-AreOnce (m ∷ ms) seen =
    elim (Bool-cases (not m.member || some_by (λ j. j == m.bot_id) seen)) [
      | inl t ↦ rw t (member_ids-AreOnce ms seen)
      | inr f ↦ rw f (
        member_ids-seen m.bot_id ms (m.bot_id ∷ seen) (rw (==_refl m.bot_id) refl),
        member_ids-AreOnce ms (m.bot_id ∷ seen),
      )
    ]

-- What is listed is a member, and a member that was not seen is listed.
pub member_ids-is_member :
    (links : List BotChannel) (seen : List Uuid) (k : Uuid)
    → occurs k (member_ids seen links) ≡ (is_member links k && not (occurs k seen))
unfolding member_ids
member_ids-is_member [] seen k = refl
member_ids-is_member (m ∷ ms) seen k =
    go m.member (some_by (λ j. j == m.bot_id) seen)
      (λ t. ap (λ i. occurs i seen) (sym ((==_iff m.bot_id k).0 t)))
      (member_ids-is_member ms seen k) (member_ids-is_member ms (m.bot_id ∷ seen) k)
  where
    go :
        (member old : Bool)
        → ((m.bot_id == k) ≡ true → occurs k seen ≡ old)
        → occurs k (member_ids seen ms) ≡ (is_member ms k && not (occurs k seen))
        → occurs k (member_ids (m.bot_id ∷ seen) ms)
          ≡ (is_member ms k && not (m.bot_id == k || occurs k seen))
        → occurs k (
            if not member || old
            then member_ids seen ms
            else (m.bot_id ∷ member_ids (m.bot_id ∷ seen) ms))
          ≡ (((m.bot_id == k && member) || is_member ms k) && not (occurs k seen))
    go false old e r1 r2 = elim (Bool-cases (m.bot_id == k)) [ inl t ↦ rw t r1 | inr f ↦ rw f r1 ]
    go true true e r1 r2 = elim (Bool-cases (m.bot_id == k)) [
      | inl t ↦ rw (t, r1, e t) (and_false (is_member ms k))
      | inr f ↦ rw f r1
    ]
    go true false e r1 r2 = elim (Bool-cases (m.bot_id == k)) [
      | inl t ↦ rw (t, e t) refl
      | inr f ↦ rw f (rw f at r2)
    ]

pub bot_in-Has :
    (id : Uuid) (bots : List Bot) (b : Bot) → bot_in id bots ≡ some b → Has b bots × (b.id ≡ id)
bot_in-Has id [] b h = cc h
bot_in-Has id (x ∷ xs) b h = elim (Option-cases (bot_in id xs)) [
  | inl e ↦ elim (Bool-cases (x.id == id)) [
    | inl t ↦
        let same : some x ≡ some b = rw (e, t) at h in
        let s : x ≡ b = cc same in (inl (sym s), rw (← s) ((==_iff x.id id).0 t))
    | inr f ↦ cc (rw (e, f) at h)
  ]
  | inr (c, e) ↦
      let same : some c ≡ some b = rw e at h in
      let s : c ≡ b = cc same in let k = bot_in-Has id xs b (e ∙ ap some s) in (inr k.0, k.1)
]

-- `usable_bots` picks from the ids, and keeps each at most once.
usable_bots-occurs :
    (now : Instant) (loaded : List Bot) (ids : List Uuid) (k : Uuid)
    → occurs k ids ≡ false
    → occurs k (bot_ids (usable_bots now loaded ids)) ≡ false
unfolding usable_bots
usable_bots-occurs now loaded [] k h = refl
usable_bots-occurs now loaded (id ∷ ids) k h =
    go (bot_in id loaded) (λ b e. (bot_in-Has id loaded b e).1) (Bool-cases (id == k))
      (usable_bots-occurs now loaded ids k)
  where
    go :
        (o : Option Bot)
        → ((b : Bot) → o ≡ some b → b.id ≡ id)
        → (((id == k) ≡ true) ⊎ ((id == k) ≡ false))
        → (occurs k ids ≡ false → occurs k (bot_ids (usable_bots now loaded ids)) ≡ false)
        → occurs k (bot_ids (if_usable now o (usable_bots now loaded ids))) ≡ false
    go o same (inl t) again = cc (rw t at h)
    go none same (inr f) again = again (rw f at h)
    go (some b) same (inr f) again = elim (Bool-cases (is_available b now)) [
      | inl t ↦ rw (t, same b refl, f) (again (rw f at h))
      | inr u ↦ rw u (again (rw f at h))
    ]

pub usable_bots-AreOnce :
    (now : Instant) (loaded : List Bot) (ids : List Uuid)
    → AreOnce ids
    → AreOnce (bot_ids (usable_bots now loaded ids))
unfolding usable_bots
usable_bots-AreOnce now loaded [] h = tt
usable_bots-AreOnce now loaded (id ∷ ids) h =
    go (bot_in id loaded) (λ b e. (bot_in-Has id loaded b e).1)
      (usable_bots-AreOnce now loaded ids h.1)
  where
    go :
        (o : Option Bot)
        → ((b : Bot) → o ≡ some b → b.id ≡ id)
        → AreOnce (bot_ids (usable_bots now loaded ids))
        → AreOnce (bot_ids (if_usable now o (usable_bots now loaded ids)))
    go none same again = again
    go (some b) same again = elim (Bool-cases (is_available b now)) [
      | inl t ↦ rw (t, same b refl) (usable_bots-occurs now loaded ids id h.0, again)
      | inr u ↦ rw u again
    ]

-- A bot is usable exactly if it is listed, was loaded, and may be used now.
pub usable_bots-Has :
    (now : Instant) (loaded : List Bot) (ids : List Uuid) (b : Bot)
    → Has b (usable_bots now loaded ids)
    → (occurs b.id ids ≡ true) × Has b loaded × (is_available b now ≡ true)
unfolding usable_bots
usable_bots-Has now loaded [] b m = elim m [ ]
usable_bots-Has now loaded (id ∷ ids) b m =
    go (bot_in id loaded) (λ x e. bot_in-Has id loaded x e) (usable_bots-Has now loaded ids b) m
  where
    wider :
        (occurs b.id ids ≡ true) × Has b loaded × (is_available b now ≡ true)
        → (occurs b.id (id ∷ ids) ≡ true) × Has b loaded × (is_available b now ≡ true)
    wider (o, h, a) = (rw o (or_true (id == b.id)), h, a)

    picked :
        (x : Bot)
        → Has x loaded × (x.id ≡ id)
        → is_available x now ≡ true
        → (Has b (usable_bots now loaded ids)
            → (occurs b.id ids ≡ true) × Has b loaded × (is_available b now ≡ true))
        → Has b (x ∷ usable_bots now loaded ids)
        → (occurs b.id (id ∷ ids) ≡ true) × Has b loaded × (is_available b now ≡ true)
    picked x (h, same) t again (inl e) =
        let i : id ≡ b.id = sym same ∙ ap (λ (y : Bot). y.id) (sym e) in
        (
          rw (i, ==_refl b.id) refl,
          subst (λ y. Has y loaded) (sym e) h,
          subst (λ y. is_available y now ≡ true) (sym e) t,
        )
    picked x k t again (inr n) = wider (again n)

    go :
        (o : Option Bot)
        → ((x : Bot) → o ≡ some x → Has x loaded × (x.id ≡ id))
        → (Has b (usable_bots now loaded ids)
            → (occurs b.id ids ≡ true) × Has b loaded × (is_available b now ≡ true))
        → Has b (if_usable now o (usable_bots now loaded ids))
        → (occurs b.id (id ∷ ids) ≡ true) × Has b loaded × (is_available b now ≡ true)
    go none same again n = wider (again n)
    go (some x) same again n = elim (Bool-cases (is_available x now)) [
      | inl t ↦ picked x (same x refl) t again (rw t at n)
      | inr u ↦ wider (again (rw u at n))
    ]

pub Has-usable_bots :
    (now : Instant) (loaded : List Bot) (ids : List Uuid) (b : Bot)
    → occurs b.id ids ≡ true
    → bot_in b.id loaded ≡ some b
    → is_available b now ≡ true
    → Has b (usable_bots now loaded ids)
unfolding usable_bots
Has-usable_bots now loaded [] b m e a = cc m
Has-usable_bots now loaded (id ∷ ids) b m e a = elim (Bool-cases (id == b.id)) [
  | inl t ↦
      let i : bot_in id loaded ≡ some b = ap (λ k. bot_in k loaded) ((==_iff id b.id).0 t) ∙ e in
      rw (i, a) (inl refl)
  | inr f ↦ skip (bot_in id loaded) (Has-usable_bots now loaded ids b (rw f at m) e a)
]
  where
    skip :
        (o : Option Bot)
        → Has b (usable_bots now loaded ids)
        → Has b (if_usable now o (usable_bots now loaded ids))
    skip none h = h
    skip (some x) h = elim (Bool-cases (is_available x now)) [
      | inl t ↦ rw t (inr h)
      | inr u ↦ rw u h
    ]
