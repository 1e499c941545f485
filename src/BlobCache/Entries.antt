-- ===== src/BlobCache/Entries.antt =====
-- The list of entries: what removing one of them leaves.
use tgwebdav.Base.{
  ℕ, zero, suc, ◌+◌, ◌-◌, ◌≡◌, refl, ap, sym, ◌∙◌, subst, false, none, some, List, [], ◌∷◌, arith,
  ◌==◌, ==_iff, ==_refl, Bool-cases, inl, inr, length, take, sum_by, All,
}
use tgwebdav.Model.{Uuid}
use tgwebdav.BlobCache.{Entry, entry_of, without, back}

abbrev pub Differs : Uuid → List Entry → Type 0
Differs id es = All (λ (e : Entry). (e.id == id) ≡ false) es

abbrev pub Distinct : List Entry → Type 0
Distinct [] = Unit
Distinct (e ∷ es) = Differs e.id es × Distinct es

abbrev pub size_of : Entry → ℕ
size_of e = e.size

pub without-Differs : (id : Uuid) (es : List Entry) → Differs id es → without id es ≡ es
without-Differs id [] h = refl
without-Differs id (e ∷ es) h = rw h.0 (ap (◌∷◌ e) (without-Differs id es h.1))

pub Differs-without : (id k : Uuid) (es : List Entry) → Differs id es → Differs id (without k es)
Differs-without id k [] h = tt
Differs-without id k (e ∷ es) h = elim (Bool-cases (e.id == k)) [
  | inl t ↦ rw t (Differs-without id k es h.1)
  | inr f ↦ rw f (h.0, Differs-without id k es h.1)
]

pub Differs-without_self : (id : Uuid) (es : List Entry) → Differs id (without id es)
Differs-without_self id [] = tt
Differs-without_self id (e ∷ es) = elim (Bool-cases (e.id == id)) [
  | inl t ↦ rw t (Differs-without_self id es)
  | inr f ↦ rw f (f, Differs-without_self id es)
]

pub Distinct-without : (k : Uuid) (es : List Entry) → Distinct es → Distinct (without k es)
Distinct-without k [] h = tt
Distinct-without k (e ∷ es) h = elim (Bool-cases (e.id == k)) [
  | inl t ↦ rw t (Distinct-without k es h.1)
  | inr f ↦ rw f (Differs-without e.id k es h.0, Distinct-without k es h.1)
]

pub entry_of-none : (id : Uuid) (es : List Entry) → entry_of id es ≡ none → Differs id es
entry_of-none id [] h = tt
entry_of-none id (e ∷ es) h = elim (Bool-cases (e.id == id)) [
  | inl t ↦ cc (rw t at h)
  | inr f ↦ (f, entry_of-none id es (rw f at h))
]

-- Removing an entry that is there takes its size off.
pub sum-without :
    (id : Uuid) (es : List Entry) (e : Entry)
    → Distinct es
    → entry_of id es ≡ some e
    → (sum_by size_of (without id es) + e.size ≡ sum_by size_of es) × (e.id ≡ id)
sum-without id [] e d h = cc
sum-without id (x ∷ es) e d h = elim (Bool-cases (x.id == id)) [
  | inl t ↦
      let there : some x ≡ some e = rw t at h in
      let same : x ≡ e = cc there in
      let own : x.id ≡ id = (==_iff x.id id).0 t in
      let weight : x.size ≡ e.size = ap size_of same in
      rw (t, without-Differs id es (subst (λ k. Differs k es) own d.0))
        (omega (arith, weight), sym (ap (λ (y : Entry). y.id) same) ∙ own)
  | inr f ↦ let ih = sum-without id es e d.1 (rw f at h) in rw f (omega (arith, ih.0), ih.1)
]

-- The entry at the back has its own id, so it differs from all before it.
pub back-Differs :
    (x : Entry) (es : List Entry) (e : Entry)
    → Differs x.id es
    → back es ≡ some e
    → (x.id == e.id) ≡ false
back-Differs x [] e d h = cc
back-Differs x (y ∷ []) e d h =
    let there : y ≡ e = cc h in
    let k : (e.id == x.id) ≡ false = subst (λ (z : Entry). (z.id == x.id) ≡ false) there d.0 in
    ground (arith, k)
back-Differs x (y ∷ z ∷ es) e d h = back-Differs x (z ∷ es) e d.1 h

-- The entry at the back is removed by its id alone.
pub without-back :
    (es : List Entry) (e : Entry)
    → Distinct es
    → back es ≡ some e
    → without e.id es ≡ take (length es - 1) es
without-back [] e d h = cc
without-back (x ∷ []) e d h =
    let there : e ≡ x = cc h in rw (ap (λ (z : Entry). z.id) there, ==_refl x.id) refl
without-back (x ∷ y ∷ es) e d h =
    let n : suc (suc (length es)) - 1 ≡ suc (length es) = omega arith in
    let m : suc (length es) - 1 ≡ length es = omega arith in
    rw (back-Differs x (y ∷ es) e d.0 h, n)
      (ap (◌∷◌ x) (without-back (y ∷ es) e d.1 h ∙ ap (λ k. take k (y ∷ es)) m))

pub back-entry_of :
    (es : List Entry) (e : Entry) → Distinct es → back es ≡ some e → entry_of e.id es ≡ some e
back-entry_of [] e d h = cc
back-entry_of (x ∷ []) e d h =
    let there : x ≡ e = cc h in
    subst (λ (z : Entry). entry_of z.id (x ∷ []) ≡ some z) there (rw (==_refl x.id) refl)
back-entry_of (x ∷ y ∷ es) e d h =
    rw (back-Differs x (y ∷ es) e d.0 h) (back-entry_of (y ∷ es) e d.1 h)

pub back-none : (es : List Entry) → back es ≡ none → es ≡ []
back-none [] h = refl
back-none (x ∷ []) h = cc
back-none (x ∷ y ∷ es) h = cc (back-none (y ∷ es) h)

pub take-Distinct : (n : ℕ) (es : List Entry) → Distinct es → Distinct (take n es)
take-Distinct zero es d = tt
take-Distinct (suc n) [] d = tt
take-Distinct (suc n) (e ∷ es) d = (first n es d.0, take-Distinct n es d.1)
  where
    first : (n : ℕ) (es : List Entry) → Differs e.id es → Differs e.id (take n es)
    first zero es h = tt
    first (suc n) [] h = tt
    first (suc n) (x ∷ es) h = (h.0, first n es h.1)
