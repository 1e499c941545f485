-- ===== src/BlobCache/Eviction.antt =====
-- Put and the eviction of the least recently used blobs.
use tgwebdav.Base.{
  ℕ, zero, suc, ◌-◌, ◌≤◌, ◌<◌, ◌≡◌, ◌⊎◌, refl, ap, sym, ◌∙◌, subst, Bool, true, false, Option, none,
  some, List, [], ◌∷◌, arith, ltb, leb, ◌==◌, ==_iff, ==_refl, Bool-cases, Option-cases, inl, inr,
  length, take, sum_by, take-take, length-take, take_of_length-le, min, leb→le, ltb→lt,
}
use tgwebdav.Model.{Uuid, Instant, Bytes}
use tgwebdav.BlobCache.{
  Entry, Cache, entry_of, without, back, write_file, remove_locked, evict_rounds, evict_locked,
  enter, put, finish_put, rename_into_place, get, finish_get,
}
use tgwebdav.BlobCache.Entries.{
  Differs, Distinct, size_of, without-back, back-entry_of, back-none, sum-without, take-Distinct,
  Differs-without_self, Distinct-without, entry_of-none,
}

-- No blob has two entries, and `total` is the sum of the sizes.
abbrev pub IsValid : Cache → Type 0
IsValid c = Distinct c.lru × (c.total ≡ sum_by size_of c.lru)

module _ (can_remove : Uuid → Bool) where
  -- Removing the entry at the back leaves all before it.
  pub remove-back :
      (c : Cache) (e : Entry)
      → IsValid c
      → back c.lru ≡ some e
      → IsValid (remove_locked can_remove c e)
        × ((remove_locked can_remove c e).lru ≡ take (length c.lru - 1) c.lru)
        × ((remove_locked can_remove c e).max_bytes ≡ c.max_bytes)
  unfolding remove_locked
  remove-back c e v b =
      let cut = without-back c.lru e v.0 b in
      let weight = (sum-without e.id c.lru e v.0 (back-entry_of c.lru e v.0 b)).0 in
      (
        (
          subst Distinct (sym cut) (take-Distinct (length c.lru - 1) c.lru v.0),
          omega (arith, weight, v.1),
        ),
        cut,
        refl,
      )

  -- The files of the blobs that still have entries are untouched.
  abbrev pub Kept : Cache → Cache → Type 0
  Kept c d = (k : Uuid) → Differs k d.lru ⊎ (d.disk k ≡ c.disk k)

  take-Differs : (id : Uuid) (n : ℕ) (es : List Entry) → Differs id es → Differs id (take n es)
  take-Differs id zero es h = tt
  take-Differs id (suc n) [] h = tt
  take-Differs id (suc n) (x ∷ es) h = (h.0, take-Differs id n es h.1)

  removed-kept :
      (c : Cache) (e : Entry) (k : Uuid)
      → Differs k (remove_locked can_remove c e).lru
        ⊎ ((remove_locked can_remove c e).disk k ≡ c.disk k)
  unfolding remove_locked
  removed-kept c e k = elim (Bool-cases (k == e.id)) [
    | inl t ↦
        let same : k ≡ e.id = (==_iff k e.id).0 t in
        inl
          (subst (λ i. Differs i (without e.id c.lru)) (sym same) (Differs-without_self e.id c.lru))
    | inr f ↦ elim (Bool-cases (can_remove e.id)) [
      | inl u ↦ inr (rw (u, f) refl)
      | inr u ↦ inr (rw u refl)
    ]
  ]

  -- What the loop leaves: a valid cache within the bound whose list is the longest prefix that fits.
  abbrev pub Fitted : Cache → Cache → Type 0
  Fitted c d =
      IsValid d
      × (d.max_bytes ≡ c.max_bytes)
      × (d.total ≤ c.max_bytes)
      × (d.lru ≡ take (length d.lru) c.lru)
      × ((k : ℕ)
          → length d.lru < k
          → k ≤ length c.lru
          → c.max_bytes < sum_by size_of (take k c.lru))
      × Kept c d

  length_zero : (es : List Entry) → length es ≤ 0 → es ≡ []
  length_zero [] h = refl
  length_zero (e ∷ es) h = absurd (omega arith)

  fits : (c : Cache) → IsValid c → c.total ≤ c.max_bytes → Fitted c c
  fits c v h = (
    v,
    refl,
    h,
    sym (take_of_length-le (length c.lru) c.lru (omega arith)),
    λ k a b. absurd (omega arith),
    λ k. inr refl,
  )

  emptied : (c : Cache) → IsValid c → c.lru ≡ [] → c.total ≤ c.max_bytes
  emptied c v e = omega (arith, v.1, ap (sum_by size_of) e)

  -- A round and what the rest of the loop leaves.
  one_more :
      (c c' d : Cache)
      → IsValid c
      → c.max_bytes < c.total
      → c'.lru ≡ take (length c.lru - 1) c.lru
      → c'.max_bytes ≡ c.max_bytes
      → Kept c c'
      → Fitted c' d
      → Fitted c d
  one_more c c' d v over cut same kept (valid, bound, small, prefix, longest, rest) =
      (valid, bound ∙ same, omega (arith, same), shorter, longer, both)
    where
      size : length c'.lru ≡ min (length c.lru - 1) (length c.lru)
      size = ap (length {A = Entry}) cut ∙ length-take (length c.lru - 1) c.lru

      count : length d.lru ≤ length c'.lru
      count = omega (arith, ap (length {A = Entry}) prefix, length-take (length d.lru) c'.lru)

      within : (k : ℕ) → k ≤ length c.lru - 1 → take k c'.lru ≡ take k c.lru
      within k h = ap (take k) cut ∙ take-take k (length c.lru - 1) c.lru h

      shorter : d.lru ≡ take (length d.lru) c.lru
      shorter = prefix ∙ within (length d.lru) (omega (arith, count, size))

      both : Kept c d
      both k = elim (rest k) [
        | inl gone ↦ inl gone
        | inr same' ↦ elim (kept k) [
          | inl gone ↦
              inl (subst (Differs k) (sym prefix) (take-Differs k (length d.lru) c'.lru gone))
          | inr same'' ↦ inr (same' ∙ same'')
        ]
      ]

      longer :
          (k : ℕ)
          → length d.lru < k
          → k ≤ length c.lru
          → c.max_bytes < sum_by size_of (take k c.lru)
      longer k a b = elim (Bool-cases (leb k (length c.lru - 1))) [
        | inl t ↦
            let low = leb→le _ _ t in
            let more = longest k a (omega (arith, size)) in
            omega (arith, more, same, ap (sum_by size_of) (within k low))
        | inr f ↦
            let all = take_of_length-le k c.lru (ground (arith, f)) in
            omega (arith, v.1, ap (sum_by size_of) all)
      ]

  evict_rounds-Fitted :
      (n : ℕ) (c : Cache) → length c.lru ≤ n → IsValid c → Fitted c (evict_rounds can_remove n c)
  unfolding evict_rounds
  evict_rounds-Fitted zero c h v = fits c v (emptied c v (length_zero c.lru h))
  evict_rounds-Fitted (suc n) c h v = elim (Bool-cases (ltb c.max_bytes c.total)) [
    | inl t ↦ rw t (elim (Option-cases (back c.lru)) [
      | inl e ↦ rw e (fits c v (emptied c v (back-none c.lru e)))
      | inr (e, b) ↦
          let (valid, cut, same) = remove-back c e v b in
          let shrunk : length (remove_locked can_remove c e).lru ≤ n =
            omega (arith, ap (length {A = Entry}) cut, length-take (length c.lru - 1) c.lru) in
          rw b (
            one_more c (remove_locked can_remove c e)
              (evict_rounds can_remove n (remove_locked can_remove c e)) v (ltb→lt _ _ t) cut same
              (removed-kept c e)
              (evict_rounds-Fitted n (remove_locked can_remove c e) shrunk valid))
    ])
    | inr f ↦ rw f (fits c v (ground (arith, f)))
  ]

  -- Eviction of a valid cache with a bound leaves a valid cache within the bound: its entries are the
  -- longest run of most recently used ones that fits, in their order, and their files are untouched.
  pub evict_locked-Fitted :
      (c : Cache) → 0 < c.max_bytes → IsValid c → Fitted c (evict_locked can_remove c)
  unfolding evict_locked
  evict_locked-Fitted c h v =
      let set : (c.max_bytes == 0) ≡ false = ground arith in
      rw set (evict_rounds-Fitted (length c.lru) c (omega arith) v)

  -- The cache before eviction, with the new content's entry in front.
  abbrev Entered : Cache → Uuid → Bytes → Cache → Type 0
  Entered c id bytes d =
      IsValid d
      × (d.max_bytes ≡ c.max_bytes)
      × (d.disk id ≡ some bytes)
      × ((e : Entry) × (rest : List Entry) × (d.lru ≡ e ∷ rest)
          × (e.id ≡ id)
          × (e.size ≡ length bytes))

  enter-Entered :
      (c : Cache) (o : Option Entry) (id : Uuid) (bytes : Bytes) (now : Instant)
      → IsValid c
      → entry_of id c.lru ≡ o
      → Entered c id bytes
          (enter can_remove o (record c { disk = write_file id (some bytes) c.disk }) id bytes now)
  enter-Entered c none id bytes now v h = (
    (((entry_of-none id c.lru h, v.0), omega (arith, v.1))),
    refl,
    rw (==_refl id) refl,
    (_, _, refl, refl, refl),
  )
  enter-Entered c (some e) id bytes now v h =
      let own = (sum-without id c.lru e v.0 h).1 in
      let there : entry_of e.id c.lru ≡ some e =
        subst (λ k. entry_of k c.lru ≡ some e) (sym own) h in
      let weight = (sum-without e.id c.lru e v.0 there).0 in
      (
        (
          (Differs-without_self e.id c.lru, Distinct-without e.id c.lru v.0),
          omega (arith, weight, v.1),
        ),
        refl,
        rw (==_refl id) refl,
        (_, _, refl, own, refl),
      )

  -- What eviction leaves of a cache whose front entry fits is still found under its id.
  read_back :
      (c d : Cache) (id : Uuid) (bytes : Bytes) (now : Instant)
      → Entered c id bytes d
      → length bytes ≤ c.max_bytes
      → (f : Cache) → Fitted d f
      → (get can_remove f id now).1 ≡ some bytes
  unfolding get finish_get
  read_back c d id bytes now (valid, bound, file, (e, rest, list, own, size)) fit f fitted =
      let (_, _, _, prefix, longest, kept) = fitted in
      let front : take 1 d.lru ≡ e ∷ [] = ap (take 1) list in
      let weight : sum_by size_of (take 1 d.lru) ≡ e.size =
        ap (sum_by size_of) front ∙ omega arith in
      let count : length d.lru ≡ suc (length rest) = ap (length {A = Entry}) list in
      let some' : 1 ≤ length f.lru = elim (Bool-cases (leb 1 (length f.lru))) [
        | inl t ↦ leb→le _ _ t
        | inr t ↦
            let few : length f.lru < 1 = ground (arith, t) in
            absurd (omega (arith, longest 1 few (omega (arith, count)), weight, size, bound))
      ] in
      let n = length f.lru - 1 in
      let long : length f.lru ≡ suc n = omega arith in
      let top : f.lru ≡ e ∷ take n rest =
        prefix ∙ ap (λ k. take k d.lru) long ∙ ap (take (suc n)) list in
      let hit : entry_of id f.lru ≡ some e =
        ap (entry_of id) top ∙ head_found e (take n rest) (ap (λ i. i == id) own ∙ ==_refl id) in
      let content : f.disk id ≡ some bytes = elim (kept id) [
        | inl gone ↦
            let apart : (e.id == id) ≡ false = (subst (Differs id) top gone).0 in
            absurd (ground (arith, apart, own))
        | inr same ↦ same ∙ file
      ] in
      rw (hit, content) refl
    where
      head_found :
          (e : Entry) (es : List Entry) → (e.id == id) ≡ true → entry_of id (e ∷ es) ≡ some e
      head_found e es h = rw h refl

  -- A `Put` whose file is written, into a valid cache with a bound, of bytes that fit by themselves,
  -- leaves the cache valid and within the bound, and they are what `Get` then returns for the id.
  pub put-get :
      (c : Cache) (id : Uuid) (bytes : Bytes) (now later : Instant)
      → 0 < c.max_bytes
      → IsValid c
      → length bytes ≤ c.max_bytes
      → IsValid (put can_remove true c id bytes now).0
        × ((put can_remove true c id bytes now).0.total ≤ c.max_bytes)
        × ((get can_remove (put can_remove true c id bytes now).0 id later).1 ≡ some bytes)
  unfolding put finish_put
  put-get c id bytes now later h v fit =
      let d : Cache =
        enter can_remove (entry_of id c.lru) (rename_into_place can_remove c id bytes) id bytes
          now in
      let entered : Entered c id bytes d =
        enter-Entered c (entry_of id c.lru) id bytes now v refl in
      let fitted = evict_locked-Fitted d (omega (arith, entered.1)) entered.0 in
      (
        fitted.0,
        omega (arith, fitted.2, entered.1),
        read_back c d id bytes later entered fit (evict_locked can_remove d) fitted,
      )
