-- ===== src/WebdavFs/Balance.antt =====
-- Reference counts: each blob counts the extents that lie on it.
use tgwebdav.Base.{
  ℕ, suc, ◌+◌, ◌≡◌, refl, ap, sym, ◌∙◌, true, false, List, [], ◌∷◌, ◌++◌, map, arith, leb, ◌==◌,
  Bool-cases, inl, inr, if◌then◌else◌, if_true, if_false, length, length-append, keep, keep-append,
  All,
}
use tgwebdav.Base.Int.{ℤ, pos, ◌+ℤ◌, ◌-ℤ◌}
use tgwebdav.Model.{Uuid, Extent, Blob}
use tgwebdav.Repository.Blobs.{Deltas, add_delta}
use tgwebdav.Repository.Extents.{of_node, without_extents_of, copied}
use tgwebdav.Repository.Order.{insert_by, order_by}
use tgwebdav.Store.{Db}
use tgwebdav.WebdavFs.Env.{Env}
use tgwebdav.WebdavFs.Moves.{one_more, bump_deltas}
use tgwebdav.WebdavFs.Tree.{less_one, release_deltas}

-- how many of the extents lie on a blob
abbrev pub refs : Uuid → List Extent → ℕ
refs blob es = length (keep (λ (e : Extent). e.blob_id == blob) es)

abbrev pub IsBalanced : Db → Type 0
IsBalanced d = All (λ (b : Blob). b.refcount ≡ pos (refs b.id d.extents)) d.blobs

pub refs-append : (k : Uuid) (xs ys : List Extent) → refs k (xs ++ ys) ≡ refs k xs + refs k ys
refs-append k xs ys =
    ap (length {A = Extent}) (keep-append (λ (e : Extent). e.blob_id == k) xs ys)
    ∙ length-append _ _

refs_cons :
    (k : Uuid) (e : Extent) (es : List Extent)
    → refs k (e ∷ es) ≡ (if e.blob_id == k then 1 else 0) + refs k es
refs_cons k e es = elim (Bool-cases (e.blob_id == k)) [
  | inl t ↦ rw t (omega arith)
  | inr f ↦ rw f (omega arith)
]

refs-insert_by :
    (key : Extent → ℕ) (k : Uuid) (e : Extent) (es : List Extent)
    → refs k (insert_by key e es) ≡ refs k (e ∷ es)
unfolding insert_by
refs-insert_by key k e [] = refl
refs-insert_by key k e (x ∷ xs) = elim (Bool-cases (leb (key e) (key x))) [
  | inl t ↦ rw t refl
  | inr f ↦ rw f (
      omega (
        arith,
        refs_cons k x (insert_by key e xs),
        refs_cons k x xs,
        refs_cons k e xs,
        refs_cons k e (x ∷ xs),
        refs-insert_by key k e xs,
      ))
]

-- ListByNode lists every extent of the node.
pub refs-order_by :
    (key : Extent → ℕ) (k : Uuid) (es : List Extent) → refs k (order_by key es) ≡ refs k es
unfolding order_by
refs-order_by key k [] = refl
refs-order_by key k (e ∷ es) =
    refs-insert_by key k e (order_by key es)
    ∙ omega (arith, refs_cons k e (order_by key es), refs_cons k e es, refs-order_by key k es)

-- The extents of a node and the others are all.
pub refs_split :
    (k node : Uuid) (es : List Extent)
    → refs k (without_extents_of node es) + refs k (of_node node es) ≡ refs k es
unfolding without_extents_of
refs_split k node [] = refl
refs_split k node (e ∷ es) = elim (Bool-cases (e.node_id == node)) [
  | inl t ↦
      rw t (omega (arith, refs_split k node es, refs_cons k e es, refs_cons k e (of_node node es)))
  | inr f ↦ rw f (
      omega
        (arith, refs_split k node es, refs_cons k e es, refs_cons k e (without_extents_of node es)))
]

pub refs-copied :
    (fresh : Uuid → Uuid) (k dst : Uuid) (es : List Extent)
    → refs k (map (copied fresh dst) es) ≡ refs k es
unfolding copied
refs-copied fresh k dst [] = refl
refs-copied fresh k dst (e ∷ es) =
    refs_cons k (copied fresh dst e) (map (copied fresh dst) es)
    ∙ omega (arith, refs_cons k e es, refs-copied fresh k dst es)

minus_more : (a : ℤ) (n : ℕ) → (a -ℤ pos 1) -ℤ pos n ≡ a -ℤ pos (suc n)
unfolding ◌-ℤ◌
minus_more a n = ground arith

plus_more : (a : ℤ) (n : ℕ) → (a +ℤ pos 1) +ℤ pos n ≡ a +ℤ pos (suc n)
unfolding ◌+ℤ◌
plus_more a n = ground arith

minus_zero : (a : ℤ) → a -ℤ pos 0 ≡ a
unfolding ◌-ℤ◌
minus_zero a = ground arith

plus_zero : (a : ℤ) → a +ℤ pos 0 ≡ a
unfolding ◌+ℤ◌
plus_zero a = ground arith

pub paid : (a n : ℕ) → pos (a + n) +ℤ (pos 0 -ℤ pos n) ≡ pos a
unfolding ◌+ℤ◌ ◌-ℤ◌
paid a n = ground arith

pub refs_hit :
    (k : Uuid) (e : Extent) (es : List Extent)
    → (k == e.blob_id) ≡ true
    → refs k (e ∷ es) ≡ suc (refs k es)
refs_hit k e es t = let same : (e.blob_id == k) ≡ true = ground (arith, t) in rw same refl

pub refs_miss :
    (k : Uuid) (e : Extent) (es : List Extent)
    → (k == e.blob_id) ≡ false
    → refs k (e ∷ es) ≡ refs k es
refs_miss k e es f = let other : (e.blob_id == k) ≡ false = ground (arith, f) in rw other refl

module _ (env : Env) where
  -- `deltas[e.BlobID]--` over all extents takes off what each blob had from them.
  pub release_deltas-refs :
      (deltas : Deltas) (es : List Extent) (k : Uuid)
      → release_deltas env deltas es k ≡ deltas k -ℤ pos (refs k es)
  unfolding release_deltas
  release_deltas-refs deltas [] k = sym (minus_zero (deltas k))
  release_deltas-refs deltas (e ∷ es) k = elim (Bool-cases (k == e.blob_id)) [
    | inl t ↦
        release_deltas-refs (less_one env deltas e.blob_id) es k
        ∙ ap (λ d. d -ℤ pos (refs k es)) (if_true (k == e.blob_id) (deltas k -ℤ pos 1) (deltas k) t)
        ∙ minus_more (deltas k) (refs k es)
        ∙ ap (λ n. deltas k -ℤ pos n) (sym (refs_hit k e es t))
    | inr f ↦
        release_deltas-refs (less_one env deltas e.blob_id) es k
        ∙ ap (λ d. d -ℤ pos (refs k es))
            (if_false (k == e.blob_id) (deltas k -ℤ pos 1) (deltas k) f)
        ∙ ap (λ n. deltas k -ℤ pos n) (sym (refs_miss k e es f))
  ]

  pub bump_deltas-refs :
      (deltas : Deltas) (es : List Extent) (k : Uuid)
      → bump_deltas env deltas es k ≡ deltas k +ℤ pos (refs k es)
  unfolding bump_deltas
  bump_deltas-refs deltas [] k = sym (plus_zero (deltas k))
  bump_deltas-refs deltas (e ∷ es) k = elim (Bool-cases (k == e.blob_id)) [
    | inl t ↦
        bump_deltas-refs (one_more env deltas e.blob_id) es k
        ∙ ap (λ d. d +ℤ pos (refs k es)) (if_true (k == e.blob_id) (deltas k +ℤ pos 1) (deltas k) t)
        ∙ plus_more (deltas k) (refs k es)
        ∙ ap (λ n. deltas k +ℤ pos n) (sym (refs_hit k e es t))
    | inr f ↦
        bump_deltas-refs (one_more env deltas e.blob_id) es k
        ∙ ap (λ d. d +ℤ pos (refs k es))
            (if_false (k == e.blob_id) (deltas k +ℤ pos 1) (deltas k) f)
        ∙ ap (λ n. deltas k +ℤ pos n) (sym (refs_miss k e es f))
  ]

-- What AddRefcounts makes of counts that match one list of extents.
pub add_delta-refs :
    (deltas : Deltas) (before after : List Extent)
    → ((k : Uuid) → pos (refs k before) +ℤ deltas k ≡ pos (refs k after))
    → (bs : List Blob) → All (λ (b : Blob). b.refcount ≡ pos (refs b.id before)) bs
    → All (λ (b : Blob). b.refcount ≡ pos (refs b.id after)) (map (add_delta deltas) bs)
unfolding add_delta
add_delta-refs deltas before after h [] p = tt
add_delta-refs deltas before after h (b ∷ bs) p =
    (ap (λ r. r +ℤ deltas b.id) p.0 ∙ h b.id, add_delta-refs deltas before after h bs p.1)

pub All-refs :
    (xs ys : List Extent)
    → ((k : Uuid) → refs k xs ≡ refs k ys)
    → (bs : List Blob) → All (λ (b : Blob). b.refcount ≡ pos (refs b.id xs)) bs
    → All (λ (b : Blob). b.refcount ≡ pos (refs b.id ys)) bs
All-refs xs ys h [] p = tt
All-refs xs ys h (b ∷ bs) p = (p.0 ∙ ap pos (h b.id), All-refs xs ys h bs p.1)
