-- ===== src/BlobReader/Candidates.antt =====
-- In which order ReadBlob (internal/service/blob.go) asks the usable bots.
use tgwebdav.Base.{
  ◌≡◌, ◌⊎◌, refl, sym, ap, ◌∙◌, subst, Bool, true, false, not, ◌&&◌, ◌||◌, Option, none, some, List,
  [], ◌∷◌, ◌++◌, map, ◌==◌, ==_iff, ==_refl, &&_iff, if◌then◌else◌, or_true, and_false, keep, Has,
  All, Bool-cases, Option-cases, inl, inr, arith,
}
use mathlib.Core.List.{map-append}
use tgwebdav.BlobReader.{
  Candidate, member_ids, bot_in, file_in, usable_bots, cached_next, fast, added_by_fast, remaining,
  arrange,
}
use tgwebdav.Model.{Uuid, Instant, Bytes, Bot, is_available, BotChannel, BlobBotFile}
use tgwebdav.BlobReader.Usable.{
  occurs, AreOnce, bot_ids, is_member, member_ids-AreOnce, member_ids-is_member,
  usable_bots-AreOnce, usable_bots-Has, Has-usable_bots,
}

abbrev pub is_known : Option Bytes → Bool
is_known none = false
is_known (some f) = true

-- whether a file_id is known for the bot
abbrev pub has_file : List BlobBotFile → Uuid → Bool
has_file files id = is_known (file_in id files)

abbrev file_or_empty : Option Bytes → Bytes
file_or_empty none = []
file_or_empty (some f) = f

-- a bot with the file_id that is known for it, or none
abbrev pub candidate_of : List BlobBotFile → Bot → Candidate
candidate_of files b = record { bot = b; file_id = file_or_empty (file_in b.id files) }

has_file-none :
    (files : List BlobBotFile) (id : Uuid) → file_in id files ≡ none → has_file files id ≡ false
has_file-none files id e = ap is_known e

has_file-some :
    (files : List BlobBotFile) (id : Uuid) (f : Bytes)
    → file_in id files ≡ some f
    → has_file files id ≡ true
has_file-some files id f e = ap is_known e

fast-keep :
    (files : List BlobBotFile) (bots : List Bot)
    → fast files bots ≡ map (candidate_of files) (keep (λ (b : Bot). has_file files b.id) bots)
unfolding fast
fast-keep files [] = refl
fast-keep files (b ∷ bs) = elim (Option-cases (file_in b.id files)) [
  | inl e ↦
      let no_file = has_file-none files b.id e in
      ap (λ o. cached_next o b (fast files bs)) e
      ∙ fast-keep files bs
      ∙ ap
          (λ t. map (candidate_of files) (
            if t
            then (b ∷ keep (λ (c : Bot). has_file files c.id) bs)
            else keep (λ (c : Bot). has_file files c.id) bs))
          (sym no_file)
  | inr (f, e) ↦
      let known = has_file-some files b.id f e in
      ap (λ o. cached_next o b (fast files bs)) e
      ∙ ap (λ rest. record { bot = b; file_id = f } ∷ rest) (fast-keep files bs)
      ∙ ap
          (λ o.
            record { bot = b; file_id = file_or_empty o }
            ∷ map (candidate_of files) (keep (λ (c : Bot). has_file files c.id) bs))
          (sym e)
      ∙ ap
          (λ t. map (candidate_of files) (
            if t
            then (b ∷ keep (λ (c : Bot). has_file files c.id) bs)
            else keep (λ (c : Bot). has_file files c.id) bs))
          (sym known)
]

added_by_fast-has_file :
    (files : List BlobBotFile) (bots : List Bot) (k : Uuid)
    → occurs k (added_by_fast (fast files bots)) ≡ (occurs k (bot_ids bots) && has_file files k)
unfolding fast added_by_fast
added_by_fast-has_file files [] k = refl
added_by_fast-has_file files (b ∷ bs) k = elim (Bool-cases (b.id == k)) [
  | inl t ↦
      subst
        (λ j.
          occurs j (added_by_fast (cached_next (file_in b.id files) b (fast files bs)))
          ≡ ((b.id == j || occurs j (bot_ids bs)) && has_file files j))
        ((==_iff b.id k).0 t)
        (here (Option-cases (file_in b.id files)) (added_by_fast-has_file files bs b.id))
  | inr f ↦ elim (Option-cases (file_in b.id files)) [
    | inl e ↦ rw (e, f) (added_by_fast-has_file files bs k)
    | inr (x, e) ↦ rw (e, f) (added_by_fast-has_file files bs k)
  ]
]
  where
    here :
        ((file_in b.id files ≡ none) ⊎ ((x : Bytes) × (file_in b.id files ≡ some x)))
        → occurs b.id (added_by_fast (fast files bs))
          ≡ (occurs b.id (bot_ids bs) && has_file files b.id)
        → occurs b.id (added_by_fast (cached_next (file_in b.id files) b (fast files bs)))
          ≡ ((b.id == b.id || occurs b.id (bot_ids bs)) && has_file files b.id)
    here (inl e) again =
        let no_file = has_file-none files b.id e in
        ap (λ o. occurs b.id (added_by_fast (cached_next o b (fast files bs)))) e
        ∙ again
        ∙ ap (λ t. occurs b.id (bot_ids bs) && t) no_file
        ∙ and_false (occurs b.id (bot_ids bs))
        ∙ sym (and_false (b.id == b.id || occurs b.id (bot_ids bs)))
        ∙ ap (λ t. (b.id == b.id || occurs b.id (bot_ids bs)) && t) (sym no_file)
    here (inr (x, e)) again =
        let known = has_file-some files b.id x e in
        ap (λ o. occurs b.id (added_by_fast (cached_next o b (fast files bs)))) e
        ∙ ap (λ t. t || occurs b.id (added_by_fast (fast files bs))) (==_refl b.id)
        ∙ ap (λ t. (t || occurs b.id (bot_ids bs)) && true) (sym (==_refl b.id))
        ∙ ap (λ t. (b.id == b.id || occurs b.id (bot_ids bs)) && t) (sym known)

remaining-keep :
    (files : List BlobBotFile) (bots : List Bot) (added : List Uuid)
    → AreOnce (bot_ids bots)
    → All (λ (b : Bot). occurs b.id added ≡ has_file files b.id) bots
    → remaining added bots
      ≡ map (candidate_of files) (keep (λ (b : Bot). not (has_file files b.id)) bots)
unfolding remaining
remaining-keep files [] added once h = refl
remaining-keep files (b ∷ bs) added once h =
    go (Option-cases (file_in b.id files)) (remaining-keep files bs added once.1 h.1)
      (remaining-keep files bs (b.id ∷ added) once.1 (grown bs once.0 h.1))
  where
    grown :
        (cs : List Bot)
        → occurs b.id (bot_ids cs) ≡ false
        → All (λ (c : Bot). occurs c.id added ≡ has_file files c.id) cs
        → All (λ (c : Bot). occurs c.id (b.id ∷ added) ≡ has_file files c.id) cs
    grown [] o k = tt
    grown (c ∷ cs) o k =
        let other : (b.id == c.id) ≡ false = ground (arith, o) in
        let rest : occurs b.id (bot_ids cs) ≡ false = ground (arith, o) in
        (rw other k.0, grown cs rest k.1)

    go :
        ((file_in b.id files ≡ none) ⊎ ((x : Bytes) × (file_in b.id files ≡ some x)))
        → remaining added bs
          ≡ map (candidate_of files) (keep (λ (c : Bot). not (has_file files c.id)) bs)
        → remaining (b.id ∷ added) bs
          ≡ map (candidate_of files) (keep (λ (c : Bot). not (has_file files c.id)) bs)
        → (if occurs b.id added
            then remaining added bs
            else (record { bot = b; file_id = [] } ∷ remaining (b.id ∷ added) bs))
          ≡ map (candidate_of files) (keep (λ (c : Bot). not (has_file files c.id)) (b ∷ bs))
    go (inl e) old new =
        let no_file = has_file-none files b.id e in
        let rest = map (candidate_of files) (keep (λ (c : Bot). not (has_file files c.id)) bs) in
        ap
          (λ t.
            if t
            then remaining added bs
            else (record { bot = b; file_id = [] } ∷ remaining (b.id ∷ added) bs))
          (h.0 ∙ no_file)
        ∙ ap (λ r. record { bot = b; file_id = [] } ∷ r) new
        ∙ ap (λ o. record { bot = b; file_id = file_or_empty o } ∷ rest) (sym e)
        ∙ ap
            (λ t. map (candidate_of files) (
              if not t
              then (b ∷ keep (λ (c : Bot). not (has_file files c.id)) bs)
              else keep (λ (c : Bot). not (has_file files c.id)) bs))
            (sym no_file)
    go (inr (x, e)) old new =
        let known = has_file-some files b.id x e in
        ap
          (λ t.
            if t
            then remaining added bs
            else (record { bot = b; file_id = [] } ∷ remaining (b.id ∷ added) bs))
          (h.0 ∙ known)
        ∙ old
        ∙ ap
            (λ t. map (candidate_of files) (
              if not t
              then (b ∷ keep (λ (c : Bot). not (has_file files c.id)) bs)
              else keep (λ (c : Bot). not (has_file files c.id)) bs))
            (sym known)

All-occur :
    (files : List BlobBotFile) (bots rest : List Bot)
    → ((k : Uuid) → occurs k (bot_ids rest) ≡ true → occurs k (bot_ids bots) ≡ true)
    → All (λ (b : Bot). occurs b.id (added_by_fast (fast files bots)) ≡ has_file files b.id) rest
All-occur files bots [] h = tt
All-occur files bots (b ∷ bs) h = (
  added_by_fast-has_file files bots b.id ∙ rw (h b.id (rw (==_refl b.id) refl)) refl,
  All-occur files bots bs (λ k m. h k (rw m (or_true (b.id == k)))),
)

-- The candidates for a blob, from the channel's membership rows, the bots and file_ids loaded: each bot
-- stands there once; it is a member, was loaded and may be used now; every such bot stands there; and
-- those with a known file_id come first, in the members' order, then the others, in the same order.
pub arrange-usable_bots :
    (now : Instant) (links : List BotChannel) (loaded : List Bot) (files : List BlobBotFile)
    → AreOnce (bot_ids (usable_bots now loaded (member_ids [] links)))
      × ((b : Bot)
          → Has b (usable_bots now loaded (member_ids [] links))
          → (is_member links b.id ≡ true) × Has b loaded × (is_available b now ≡ true))
      × ((b : Bot)
          → is_member links b.id ≡ true
          → bot_in b.id loaded ≡ some b
          → is_available b now ≡ true
          → Has b (usable_bots now loaded (member_ids [] links)))
      × (arrange files (usable_bots now loaded (member_ids [] links))
          ≡ map (candidate_of files) (
              keep (λ (b : Bot). has_file files b.id) (usable_bots now loaded (member_ids [] links))
              ++ keep
                  (λ (b : Bot). not (has_file files b.id))
                  (usable_bots now loaded (member_ids [] links))))
unfolding arrange
arrange-usable_bots now links loaded files =
    let bots = usable_bots now loaded (member_ids [] links) in
    let once = usable_bots-AreOnce now loaded (member_ids [] links) (member_ids-AreOnce links []) in
    (
      once,
      λ b m.
          let (o, h, a) = usable_bots-Has now loaded (member_ids [] links) b m in
          (((&&_iff _ _).0 (sym (member_ids-is_member links [] b.id) ∙ o)).0, h, a),
      λ b m e a.
          Has-usable_bots now loaded (member_ids [] links) b
            (member_ids-is_member links [] b.id ∙ rw m refl) e a,
      rw
          (
            remaining-keep files bots (added_by_fast (fast files bots)) once
                (All-occur files bots bots (λ k m. m)),
            fast-keep files bots,
          )
          (sym (map-append (candidate_of files) _ _)),
    )
