-- ===== src/Repository/Nodes/Closure.antt =====
-- What the cascade of a delete takes: a row goes exactly if its parent does, or it is the deleted one.
use tgwebdav.Base.{
  or_true, ℕ, zero, suc, ◌≤◌, ◌<◌, ◌≡◌, ◌⊎◌, refl, ap, sym, ◌∙◌, Bool, true, false, not, ◌||◌,
  Option, none, some, List, [], ◌∷◌, ◌++◌, map, arith, leb, leb→le, ◌==◌, ==_iff, ==_refl,
  Bool-cases, inl, inr, length, keep, Has, Has-keep, Has-of_keep, length-keep-not,
}
use tgwebdav.Model.{Uuid}
use tgwebdav.Repository.Nodes.Cascade.{is_in, parent_in, doomed}
use tgwebdav.Store.{NodeRow}

abbrev id_of : NodeRow → Uuid
id_of r = r.node.id

pub is_in-append : (k : Uuid) (xs ys : List Uuid) → is_in k (xs ++ ys) ≡ (is_in k xs || is_in k ys)
unfolding is_in
is_in-append k [] ys = refl
is_in-append k (x ∷ xs) ys = rw (is_in-append k xs ys) (or_assoc (x == k) (is_in k xs) (is_in k ys))
  where
    or_assoc : (a b c : Bool) → (a || (b || c)) ≡ ((a || b) || c)
    or_assoc true b c = refl
    or_assoc false b c = refl

parent_in-append :
    (r : NodeRow) (xs ys : List Uuid) → parent_in (xs ++ ys) r ≡ (parent_in xs r || parent_in ys r)
unfolding parent_in
parent_in-append r xs ys = go r.node.parent_id
  where
    go :
        (o : Option Uuid)
        → elim o [ none ↦ false | some p ↦ is_in p (xs ++ ys) ] ≡ (
            elim o [ none ↦ false | some p ↦ is_in p xs ]
            || elim o [ none ↦ false | some p ↦ is_in p ys ])
    go none = refl
    go (some p) = is_in-append p xs ys

is_in-map :
    (r : NodeRow) (rows : List NodeRow) → Has r rows → is_in r.node.id (map id_of rows) ≡ true
unfolding is_in
is_in-map r [] h = elim h [ ]
is_in-map r (x ∷ rows) (inl e) =
    let own : (x.node.id == r.node.id) ≡ true = rw (ap id_of e) (==_refl x.node.id) in rw own refl
is_in-map r (x ∷ rows) (inr h) = rw (is_in-map r rows h) (or_true (x.node.id == r.node.id))

is_in_of_map :
    (k : Uuid) (rows : List NodeRow)
    → is_in k (map id_of rows) ≡ true
    → (r : NodeRow) × Has r rows × (r.node.id ≡ k)
unfolding is_in
is_in_of_map k [] h = cc h
is_in_of_map k (x ∷ rows) h = elim (Bool-cases (x.node.id == k)) [
  | inl t ↦ (x, inl refl, (==_iff x.node.id k).0 t)
  | inr f ↦ let (r, m, e) = is_in_of_map k rows (rw f at h) in (r, inr m, e)
]

pub doomed-start :
    (n : ℕ) (ids : List Uuid) (rows : List NodeRow) (k : Uuid)
    → is_in k ids ≡ true
    → is_in k (doomed n ids rows) ≡ true
unfolding doomed
doomed-start zero ids rows k h = h
doomed-start (suc n) ids rows k h =
    is_in-append k ids _
    ∙ ap
        (λ b.
          b
          || is_in k (
              doomed n (map id_of (keep (parent_in ids) rows))
                (keep (λ r. not (parent_in ids r)) rows)))
        h

none_in : (r : NodeRow) (D : List Uuid) → ((k : Uuid) → is_in k D ≡ false) → parent_in D r ≡ false
unfolding parent_in
none_in r D h = go r.node.parent_id
  where
    go : (o : Option Uuid) → elim o [ none ↦ false | some p ↦ is_in p D ] ≡ false
    go none = refl
    go (some p) = h p

keep_no_parent : (rows : List NodeRow) → keep (parent_in []) rows ≡ []
unfolding is_in
keep_no_parent [] = refl
keep_no_parent (r ∷ rows) = rw (none_in r [] (λ k. refl)) (keep_no_parent rows)

doomed-none : (n : ℕ) (rows : List NodeRow) (k : Uuid) → is_in k (doomed n [] rows) ≡ false
unfolding doomed is_in
doomed-none zero rows k = refl
doomed-none (suc n) rows k =
    rw (keep_no_parent rows) (doomed-none n (keep (λ r. not (parent_in [] r)) rows) k)

empty_of_length : (xs : List NodeRow) → length xs ≤ 0 → xs ≡ []
empty_of_length [] h = refl
empty_of_length (x ∷ xs) h = absurd (omega arith)

-- Every child of a row that goes, goes.
pub doomed-closed :
    (n : ℕ) (ids : List Uuid) (rows : List NodeRow) (r : NodeRow)
    → length rows < n
    → Has r rows
    → parent_in (doomed n ids rows) r ≡ true
    → is_in r.node.id (doomed n ids rows) ≡ true
unfolding doomed
doomed-closed zero ids rows r short m h = absurd (omega arith)
doomed-closed (suc n) ids rows r short m h =
    let ids' = map id_of (keep (parent_in ids) rows) in
    let rest = keep (λ x. not (parent_in ids x)) rows in
    let D = doomed n ids' rest in
    let later : is_in r.node.id D ≡ true = elim (Bool-cases (parent_in ids r)) [
      | inl t ↦
          doomed-start n ids' rest r.node.id (is_in-map r _ (Has-keep (parent_in ids) r rows m t))
      | inr f ↦
          let below : parent_in D r ≡ true =
            ap (λ b. b || parent_in D r) (sym f) ∙ sym (parent_in-append r ids D) ∙ h in
          let stays : Has r rest = Has-keep (λ x. not (parent_in ids x)) r rows m (ap not f) in
          elim (Bool-cases (leb (length (keep (parent_in ids) rows)) 0)) [
            | inl z ↦
                let nothing : ids' ≡ [] = ap (map id_of) (empty_of_length _ (leb→le _ _ z)) in
                let all : (k : Uuid) → is_in k D ≡ false =
                  λ k. ap (λ i. is_in k (doomed n i rest)) nothing ∙ doomed-none n rest k in
                cc (below, none_in r D all)
            | inr some' ↦
                let fewer : length rest < n =
                  ground (arith, some', length-keep-not (parent_in ids) rows) in
                doomed-closed n ids' rest r fewer stays below
          ]
    ] in
    is_in-append r.node.id ids D
    ∙ ap (λ b. is_in r.node.id ids || b) later
    ∙ or_true (is_in r.node.id ids)

-- What goes was deleted, or its parent goes.
pub doomed-cause :
    (n : ℕ) (ids : List Uuid) (rows : List NodeRow) (k : Uuid)
    → is_in k (doomed n ids rows) ≡ true
    → (is_in k ids ≡ true)
      ⊎ ((r : NodeRow) × Has r rows × (r.node.id ≡ k) × (parent_in (doomed n ids rows) r ≡ true))
unfolding doomed
doomed-cause zero ids rows k h = inl h
doomed-cause (suc n) ids rows k h =
    let ids' = map id_of (keep (parent_in ids) rows) in
    let rest = keep (λ x. not (parent_in ids x)) rows in
    let D = doomed n ids' rest in
    elim (Bool-cases (is_in k ids)) [
      | inl t ↦ inl t
      | inr f ↦
          let below : is_in k D ≡ true =
            ap (λ b. b || is_in k D) (sym f) ∙ sym (is_in-append k ids D) ∙ h in
          elim (doomed-cause n ids' rest k below) [
            | inl first ↦
                let (r, m, e) = is_in_of_map k (keep (parent_in ids) rows) first in
                let (m', t) = Has-of_keep (parent_in ids) r rows m in
                inr (r, m', e, parent_in-append r ids D ∙ ap (λ b. b || parent_in D r) t)
            | inr (r, m, e, t) ↦
                let (m', _) = Has-of_keep (λ x. not (parent_in ids x)) r rows m in
                inr (
                  r,
                  m',
                  e,
                  parent_in-append r ids D
                      ∙ ap (λ b. parent_in ids r || b) t
                      ∙ or_true (parent_in ids r),
                )
          ]
    ]
