-- ===== src/WebdavFs/Truncate.antt =====
-- Overwriting a file and copying a stored one, against the reference counts.
use tgwebdav.Base.{
  ℕ, ◌+◌, ◌≡◌, refl, ap, sym, ◌∙◌, Bool, false, not, List, [], ◌∷◌, arith, ◌==◌, Bool-cases, inl,
  inr, keep, All,
}
use tgwebdav.Base.Int.{pos, ◌+ℤ◌}
use tgwebdav.Model.{Uuid, Node, writing, Extent, Blob, WalChunk}
use tgwebdav.Repository.Blobs.{add_refcounts}
use tgwebdav.Repository.Extents.{
  of_node, extents_of, list_by_node, without_extents_of, delete_by_node,
}
use tgwebdav.Repository.Nodes.{find_by_id, get_by_id, update_node, update_in, update_row}
use tgwebdav.Repository.Nodes.Lookup.{find_by_id-id, find_by_id-update, update_in-ok}
use tgwebdav.Repository.WalChunks.{delete_chunks, without_chunks_of}
use tgwebdav.Store.{ok, Db, World}
use tgwebdav.Store.Rules.{
  Gives, Gives-pure, Gives-bind, Gives-query, Gives-get_now, Gives-with_tx, Gives-weaken,
  Keeps-with_tx,
}
use tgwebdav.WebdavFs.Balance.{
  refs, IsBalanced, refs_split, refs-order_by, release_deltas-refs, add_delta-refs, All-refs, paid,
}
use tgwebdav.WebdavFs.Env.{Env}
use tgwebdav.WebdavFs.Tree.{
  release, release_extents, no_deltas, release_deltas, emptied, truncate_body, truncate_node,
}

-- The counts once the extents of a node are not counted any more.
abbrev pub IsReleased : Uuid → Db → Type 0
IsReleased id d =
    All (λ (b : Blob). b.refcount ≡ pos (refs b.id (without_extents_of id d.extents))) d.blobs

-- A file that has no content and is being written.
abbrev pub IsEmptied : Uuid → Db → Type 0
IsEmptied id d =
    (of_node id d.extents ≡ [])
    × (keep (λ (c : WalChunk). c.node_id == id) d.wal_chunks ≡ [])
    × (n : Node) × (find_by_id id d.nodes ≡ ok n)
    × (n.size ≡ 0)
    × (n.state ≡ writing)

pub none_left {ℓ} :
    {A : Type ℓ} (p : A → Bool) (xs : List A) → keep p (keep (λ x. not (p x)) xs) ≡ []
none_left p [] = refl
none_left p (x ∷ xs) = elim (Bool-cases (p x)) [
  | inl t ↦ rw t (none_left p xs)
  | inr f ↦ rw (f, f) (none_left p xs)
]

module _ (env : Env) where
  Listed : Uuid → List Extent → Db → Type 0
  Listed id es d = IsBalanced d × (es ≡ extents_of id d.extents)

  listed-refs :
      (id : Uuid) (es : List Extent) (d : Db) (k : Uuid)
      → es ≡ extents_of id d.extents
      → refs k es ≡ refs k (of_node id d.extents)
  unfolding extents_of
  listed-refs id es d k e =
      ap (refs k) e ∙ refs-order_by (λ (x : Extent). x.seq) k (of_node id d.extents)

  release-Gives :
      (id : Uuid) (es : List Extent) → Gives (Listed id es) (release env es) (λ _. IsReleased id)
  unfolding Listed add_refcounts
  release-Gives id [] = Gives-pure tt (λ d p.
      All-refs d.extents (without_extents_of id d.extents)
        (λ k. omega (arith, refs_split k id d.extents, listed-refs id [] d k p.1)) d.blobs p.0)
  release-Gives id (e ∷ es) = Gives-query _ (λ d u p _.
      let deltas = release_deltas env (no_deltas env) (e ∷ es) in
      add_delta-refs deltas d.extents (without_extents_of id d.extents)
        (λ k.
          let n = refs k (e ∷ es) in
          let a = refs k (without_extents_of id d.extents) in
          let all : refs k d.extents ≡ a + n =
            omega (arith, refs_split k id d.extents, listed-refs id (e ∷ es) d k p.1) in
          ap (λ z. z +ℤ deltas k) (ap pos all)
          ∙ ap (λ z. pos (a + n) +ℤ z) (release_deltas-refs env (no_deltas env) (e ∷ es) k)
          ∙ paid a n)
        d.blobs p.0)

  list_by_node-Gives : (id : Uuid) → Gives IsBalanced (list_by_node id) (Listed id)
  unfolding Listed list_by_node
  list_by_node-Gives id = Gives-query _ (λ d es p e. (p, cc e))

  pub release_extents-Gives :
      (id : Uuid) → Gives IsBalanced (release_extents env id) (λ _. IsReleased id)
  unfolding release_extents
  release_extents-Gives id =
      Gives-bind (Listed id) (list_by_node id) (release env) (list_by_node-Gives id)
        (release-Gives id)

  Bare : Uuid → Db → Type 0
  Bare id d =
      IsBalanced d
      × (of_node id d.extents ≡ [])
      × (keep (λ (c : WalChunk). c.node_id == id) d.wal_chunks ≡ [])

  truncate_body-Gives :
      (node : Node)
      → Gives IsBalanced (truncate_body env node) (λ _ d. IsBalanced d × IsEmptied node.id d)
  unfolding Bare truncate_body delete_by_node delete_chunks without_extents_of without_chunks_of
      get_by_id update_node update_row
  truncate_body-Gives node =
      Gives-bind (λ _. IsReleased node.id) _ _ (release_extents-Gives node.id)
        (λ _.
          Gives-bind (λ _ d. IsBalanced d × (of_node node.id d.extents ≡ [])) _ _
            (Gives-query _ (λ d u p e. (p, none_left _ d.extents)))
            (λ _.
              Gives-bind (λ _. Bare node.id) _ _
                (Gives-query _ (λ d u p e. (p.0, p.1, none_left _ d.wal_chunks)))
                (λ _.
                  Gives-bind (λ n d. Bare node.id d × (n.id ≡ node.id)) _ _
                    (Gives-query _ (λ d n p e. (p, find_by_id-id node.id d.nodes n e)))
                    (λ n.
                      Gives-bind (λ _ d. Bare node.id d × (n.id ≡ node.id)) _ _ Gives-get_now
                        (λ now. Gives-query _ (λ d u p e. written now n d p.0 p.1 e))))))
    where
      written :
          (now : ℕ) (n : Node) (d : Db)
          → Bare node.id d
          → n.id ≡ node.id
          → (update_in (emptied env now n) d).0 ≡ ok tt
          → IsBalanced (update_in (emptied env now n) d).1
            × IsEmptied node.id (update_in (emptied env now n) d).1
      written now n d p own e =
          let (old, found', new) = update_in-ok (emptied env now n) d e in
          let (r, there) = find_by_id-update (emptied env now n) d e in
          let there' =
            ap (λ i. find_by_id i (update_in (emptied env now n) d).1.nodes) (sym own) ∙ there in
          (
            rw new p.0,
            (rw new p.1, rw new p.2, (update_row (emptied env now n) r).node, there', refl, refl),
          )

-- Outside a transaction, overwriting a file leaves every blob's count equal to the number of extents
-- on it if it was before, whatever fails on the way.
pub truncate_node-IsBalanced :
    (env : Env) (node : Node) (w : World)
    → w.in_tx ≡ false
    → IsBalanced w.db
    → IsBalanced (truncate_node env node w).1.db
unfolding truncate_node
truncate_node-IsBalanced env node w outside b =
    ((Keeps-with_tx (truncate_body env node)
        (Gives-weaken (λ _ d p. p.0) (truncate_body-Gives env node))).at
      w outside b).0

-- When overwriting a file reports success, from tables in which every blob's count is the number of
-- extents on it, the file has no extents and no chunks left, is empty and in the writing state.
pub truncate_node-IsEmptied :
    (env : Env) (node : Node) (w : World)
    → IsBalanced w.db
    → (truncate_node env node w).0 ≡ ok tt
    → IsEmptied node.id (truncate_node env node w).1.db
unfolding truncate_node
truncate_node-IsEmptied env node w b e =
    ((Gives-with_tx (truncate_body env node) (truncate_body-Gives env node)).at w tt b e).1
