-- ===== src/BlobCache/Idle.antt =====
-- The order of the entries, and the janitor's sweep that relies on it.
use mathlib.Core.List.{append-nil}
use tgwebdav.Base.{
  ℕ, zero, suc, ◌-◌, ◌≤◌, ◌≡◌, refl, ap, sym, ◌∙◌, subst, Bool, true, not, some, List, [], ◌∷◌,
  ◌++◌, arith, ltb, Bool-cases, Option-cases, inl, inr, length, take, keep, All, keep_of_All,
  keep-append, length-take,
}
use tgwebdav.Model.{Uuid, Instant}
use tgwebdav.BlobCache.{Entry, Cache, back, remove_locked, sweep_rounds, sweep_idle}
use tgwebdav.BlobCache.Entries.{back-none}
use tgwebdav.BlobCache.Eviction.{IsValid, remove-back}

-- Everything was last used at a time or before.
abbrev pub UsedBy : Instant → List Entry → Type 0
UsedBy t es = All (λ (e : Entry). e.last_access ≤ t) es

-- The most recently used first.
abbrev pub IsOrdered : List Entry → Type 0
IsOrdered [] = Unit
IsOrdered (e ∷ es) = UsedBy e.last_access es × IsOrdered es

abbrev pub is_fresh : Instant → Entry → Bool
is_fresh cutoff e = not (ltb e.last_access cutoff)

pub UsedBy-take : (t : Instant) (n : ℕ) (es : List Entry) → UsedBy t es → UsedBy t (take n es)
UsedBy-take t zero es h = tt
UsedBy-take t (suc n) [] h = tt
UsedBy-take t (suc n) (e ∷ es) h = (h.0, UsedBy-take t n es h.1)

pub IsOrdered-take : (n : ℕ) (es : List Entry) → IsOrdered es → IsOrdered (take n es)
IsOrdered-take zero es h = tt
IsOrdered-take (suc n) [] h = tt
IsOrdered-take (suc n) (e ∷ es) h = (UsedBy-take e.last_access n es h.0, IsOrdered-take n es h.1)

-- The entry at the back ends the list.
back_last :
    (es : List Entry) (e : Entry) → back es ≡ some e → es ≡ take (length es - 1) es ++ e ∷ []
back_last [] e h = cc
back_last (x ∷ []) e h = cc h
back_last (x ∷ y ∷ es) e h =
    let n : suc (suc (length es)) - 1 ≡ suc (length es) = omega arith in
    let m : suc (length es) - 1 ≡ length es = omega arith in
    rw n (ap (◌∷◌ x) (back_last (y ∷ es) e h ∙ ap (λ k. take k (y ∷ es) ++ e ∷ []) m))

back-UsedBy :
    (t : Instant) (es : List Entry) (e : Entry) → UsedBy t es → back es ≡ some e → e.last_access ≤ t
back-UsedBy t [] e u b = cc
back-UsedBy t (x ∷ []) e u b =
    let there : x ≡ e = cc b in subst (λ (z : Entry). z.last_access ≤ t) there u.0
back-UsedBy t (x ∷ y ∷ es) e u b = back-UsedBy t (y ∷ es) e u.1 b

-- It is the least recently used: if it is fresh, all are.
All-is_fresh :
    (cutoff : Instant) (es : List Entry) (e : Entry)
    → IsOrdered es
    → back es ≡ some e
    → cutoff ≤ e.last_access
    → All (λ x. is_fresh cutoff x ≡ true) es
All-is_fresh cutoff [] e o b h = tt
All-is_fresh cutoff (x ∷ []) e o b h =
    let there : e ≡ x = cc b in
    let late : cutoff ≤ x.last_access = subst (λ (z : Entry). cutoff ≤ z.last_access) there h in
    (ground arith, tt)
All-is_fresh cutoff (x ∷ y ∷ es) e o b h =
    let late = back-UsedBy x.last_access (y ∷ es) e o.0 b in
    (ground arith, All-is_fresh cutoff (y ∷ es) e o.1 b h)

module _ (can_remove : Uuid → Bool) where
  sweep_rounds-keep :
      (n : ℕ) (cutoff : Instant) (c : Cache)
      → length c.lru ≤ n
      → IsValid c
      → IsOrdered c.lru
      → IsValid (sweep_rounds can_remove n cutoff c)
        × ((sweep_rounds can_remove n cutoff c).lru ≡ keep (is_fresh cutoff) c.lru)
        × ((sweep_rounds can_remove n cutoff c).max_bytes ≡ c.max_bytes)
  unfolding sweep_rounds
  sweep_rounds-keep zero cutoff c h v o = (v, none_left c.lru h, refl)
    where
      none_left : (es : List Entry) → length es ≤ 0 → es ≡ keep (is_fresh cutoff) es
      none_left [] h = refl
      none_left (e ∷ es) h = absurd (omega arith)
  sweep_rounds-keep (suc n) cutoff c h v o = elim (Option-cases (back c.lru)) [
    | inl e ↦
        let empty = back-none c.lru e in
        rw e (v, empty ∙ ap (keep (is_fresh cutoff)) (sym empty), refl)
    | inr (e, b) ↦ elim (Bool-cases (ltb e.last_access cutoff)) [
      | inl t ↦
          let (valid, cut, same) = remove-back can_remove c e v b in
          let shrunk : length (remove_locked can_remove c e).lru ≤ n =
            omega (arith, ap (length {A = Entry}) cut, length-take (length c.lru - 1) c.lru) in
          let order = subst IsOrdered (sym cut) (IsOrdered-take (length c.lru - 1) c.lru o) in
          let (valid', rest, same') =
            sweep_rounds-keep n cutoff (remove_locked can_remove c e) shrunk valid order in
          rw (b, t) (valid', rest ∙ dropped c e b t cut, same' ∙ same)
      | inr f ↦
          rw (b, f)
            (
              v,
              sym (keep_of_All _ c.lru (All-is_fresh cutoff c.lru e o b (ground (arith, f)))),
              refl,
            )
    ]
  ]
    where
      dropped :
          (c : Cache) (e : Entry)
          → back c.lru ≡ some e
          → ltb e.last_access cutoff ≡ true
          → (remove_locked can_remove c e).lru ≡ take (length c.lru - 1) c.lru
          → keep (is_fresh cutoff) (remove_locked can_remove c e).lru ≡ keep (is_fresh cutoff) c.lru
      dropped c e b t cut =
          let p = is_fresh cutoff in
          let before = take (length c.lru - 1) c.lru in
          let old : keep p (e ∷ []) ≡ [] = rw t refl in
          ap (keep p) cut
          ∙ sym (append-nil (keep p before))
          ∙ ap (λ es. keep p before ++ es) (sym old)
          ∙ sym (keep-append p before (e ∷ []))
          ∙ ap (keep p) (sym (back_last c.lru e b))

  -- On a valid cache in the order of use, the janitor's sweep, which walks from the back and stops at
  -- the first entry that is not idle, removes exactly the entries that are idle, and leaves a valid
  -- cache.
  pub sweep_idle-keep :
      (c : Cache) (now : Instant)
      → IsValid c
      → IsOrdered c.lru
      → IsValid (sweep_idle can_remove c now)
        × ((sweep_idle can_remove c now).lru ≡ keep (is_fresh (now - c.idle_ttl)) c.lru)
        × ((sweep_idle can_remove c now).max_bytes ≡ c.max_bytes)
  unfolding sweep_idle
  sweep_idle-keep c now v o =
      sweep_rounds-keep (length c.lru) (now - c.idle_ttl) c (omega arith) v o
