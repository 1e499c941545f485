-- ===== src/WebdavFs/Removal.antt =====
-- Releasing the extents of several files, one after the other.
use tgwebdav.Base.{
  ℕ, ◌+◌, ◌≡◌, ap, ◌∙◌, true, false, not, List, [], ◌∷◌, arith, ◌==◌, ==_iff, Bool-cases, inl, inr,
  if◌then◌else◌, keep, All,
}
use tgwebdav.Base.Int.{pos, ◌+ℤ◌}
use tgwebdav.Model.{Uuid, Node, Extent, Blob}
use tgwebdav.Repository.Blobs.{add_refcounts}
use tgwebdav.Repository.Extents.{of_node, extents_of, list_by_node}
use tgwebdav.Repository.Nodes.Cascade.{is_in}
use tgwebdav.Store.{Db}
use tgwebdav.Store.Rules.{Gives, Gives-pure, Gives-bind, Gives-query}
use tgwebdav.WebdavFs.Balance.{
  refs, refs-order_by, release_deltas-refs, add_delta-refs, All-refs, paid, refs_hit, refs_miss,
}
use tgwebdav.WebdavFs.Env.{Env}
use tgwebdav.WebdavFs.Tree.{release, release_extents, no_deltas, release_deltas, release_files}

-- the extents that are not on one of the nodes
abbrev pub left : List Uuid → List Extent → List Extent
left ids es = keep (λ (e : Extent). not (is_in e.node_id ids)) es

refs_cons' :
    (k : Uuid) (e : Extent) (xs ys : List Extent) (n : ℕ)
    → refs k xs ≡ refs k ys + n
    → refs k (e ∷ xs) ≡ refs k (e ∷ ys) + n
refs_cons' k e xs ys n h = elim (Bool-cases (k == e.blob_id)) [
  | inl t ↦ omega (arith, h, refs_hit k e xs t, refs_hit k e ys t)
  | inr f ↦ omega (arith, h, refs_miss k e xs f, refs_miss k e ys f)
]

refs_more :
    (k : Uuid) (e : Extent) (xs ys zs : List Extent)
    → refs k xs ≡ refs k ys + refs k zs
    → refs k (e ∷ xs) ≡ refs k ys + refs k (e ∷ zs)
refs_more k e xs ys zs h = elim (Bool-cases (k == e.blob_id)) [
  | inl t ↦ omega (arith, h, refs_hit k e xs t, refs_hit k e zs t)
  | inr f ↦ omega (arith, h, refs_miss k e xs f, refs_miss k e zs f)
]

-- One more node takes its own extents.
left_split :
    (k node : Uuid) (ids : List Uuid) (es : List Extent)
    → is_in node ids ≡ false
    → refs k (left ids es) ≡ refs k (left (node ∷ ids) es) + refs k (of_node node es)
unfolding is_in
left_split k node ids [] h = omega arith
left_split k node ids (e ∷ es) h = elim (Bool-cases (e.node_id == node)) [
  | inl t ↦
      let own : e.node_id ≡ node = (==_iff e.node_id node).0 t in
      let back : (node == e.node_id) ≡ true = ground (arith, own) in
      let out : is_in e.node_id ids ≡ false = ap (λ i. is_in i ids) own ∙ h in
      rw (t, back, out) (refs_more k e _ _ _ (left_split k node ids es h))
  | inr f ↦
      let back : (node == e.node_id) ≡ false = ground (arith, f) in
      elim (Bool-cases (is_in e.node_id ids)) [
        | inl u ↦ rw (f, back, u) (left_split k node ids es h)
        | inr u ↦ rw (f, back, u) (refs_cons' k e _ _ _ (left_split k node ids es h))
      ]
]

-- No two nodes have the same id, and none is among those released.
abbrev pub AreOther : List Uuid → List Node → Type 0
AreOther ids [] = Unit
AreOther ids (n ∷ ns) = (is_in n.id ids ≡ false) × AreOther (n.id ∷ ids) ns

-- the nodes whose extents a delete releases
abbrev pub released : List Uuid → List Node → List Uuid
released ids [] = ids
released ids (n ∷ ns) = if n.is_dir then released ids ns else released (n.id ∷ ids) ns

AreOther-fewer :
    (a b : List Uuid) (ns : List Node)
    → ((k : Uuid) → is_in k b ≡ false → is_in k a ≡ false)
    → AreOther b ns
    → AreOther a ns
unfolding is_in
AreOther-fewer a b [] h o = tt
AreOther-fewer a b (n ∷ ns) h o =
    (h n.id o.0, AreOther-fewer (n.id ∷ a) (n.id ∷ b) ns (λ k f. both k f) o.1)
  where
    both : (k : Uuid) → is_in k (n.id ∷ b) ≡ false → is_in k (n.id ∷ a) ≡ false
    both k f = elim (Bool-cases (n.id == k)) [
      | inl t ↦ cc (rw t at f)
      | inr g ↦ rw g (h k (rw g at f))
    ]

module _ (env : Env) (before : Db) where
  -- Some nodes' extents are not counted any more; the rows are as they were.
  abbrev pub IsLess : List Uuid → Db → Type 0
  IsLess ids d =
      All (λ (b : Blob). b.refcount ≡ pos (refs b.id (left ids before.extents))) d.blobs
      × (d.extents ≡ before.extents)
      × (d.nodes ≡ before.nodes)

  Listing : List Uuid → Uuid → List Extent → Db → Type 0
  Listing ids node es d =
      IsLess ids d × ((k : Uuid) → refs k es ≡ refs k (of_node node before.extents))

  list-Gives :
      (ids : List Uuid) (node : Uuid) → Gives (IsLess ids) (list_by_node node) (Listing ids node)
  unfolding Listing list_by_node extents_of
  list-Gives ids node = Gives-query _ (λ d es s e. (
    s,
    λ k.
        let same : es ≡ extents_of node d.extents = cc e in
        ap (refs k) same
        ∙ refs-order_by (λ (x : Extent). x.seq) k (of_node node d.extents)
        ∙ ap (λ xs. refs k (of_node node xs)) s.1,
  ))

  release-Gives :
      (ids : List Uuid) (node : Uuid) (es : List Extent)
      → is_in node ids ≡ false
      → Gives (Listing ids node es) (release env es) (λ _. IsLess (node ∷ ids))
  unfolding Listing add_refcounts
  release-Gives ids node [] f = Gives-pure tt (λ d p. (
    All-refs (left ids before.extents) (left (node ∷ ids) before.extents)
        (λ k. omega (arith, left_split k node ids before.extents f, p.1 k)) d.blobs p.0.0,
    p.0.1,
    p.0.2,
  ))
  release-Gives ids node (e ∷ es) f = Gives-query _ (λ d u p _.
      let deltas = release_deltas env (no_deltas env) (e ∷ es) in
      let fewer = left (node ∷ ids) before.extents in
      (
        add_delta-refs deltas (left ids before.extents) fewer
            (λ k.
              let n = refs k (e ∷ es) in
              let all : refs k (left ids before.extents) ≡ refs k fewer + n =
                omega (arith, left_split k node ids before.extents f, p.1 k) in
              ap (λ z. z +ℤ deltas k) (ap pos all)
              ∙ ap (λ z. pos (refs k fewer + n) +ℤ z)
                  (release_deltas-refs env (no_deltas env) (e ∷ es) k)
              ∙ paid (refs k fewer) n)
            d.blobs p.0.0,
        p.0.1,
        p.0.2,
      ))

  pub release_files-Gives :
      (ids : List Uuid) (ns : List Node)
      → AreOther ids ns
      → Gives (IsLess ids) (release_files env ns) (λ _. IsLess (released ids ns))
  unfolding release_files release_extents is_in
  release_files-Gives ids [] o = Gives-pure tt (λ d p. p)
  release_files-Gives ids (n ∷ ns) o = elim (Bool-cases n.is_dir) [
    | inl t ↦
        rw t
          (release_files-Gives ids ns (AreOther-fewer ids (n.id ∷ ids) ns (λ k f. weaker k f) o.1))
    | inr f ↦ rw f (
        Gives-bind (λ _. IsLess (n.id ∷ ids)) _ _
          (Gives-bind (Listing ids n.id) _ _ (list-Gives ids n.id)
            (λ es. release-Gives ids n.id es o.0))
          (λ _. release_files-Gives (n.id ∷ ids) ns o.1))
  ]
    where
      weaker : (k : Uuid) → is_in k (n.id ∷ ids) ≡ false → is_in k ids ≡ false
      weaker k f = elim (Bool-cases (n.id == k)) [ inl t ↦ cc (rw t at f) | inr g ↦ rw g at f ]
