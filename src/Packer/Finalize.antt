-- ===== src/Packer/Finalize.antt =====
-- What finalize leaves in the tables.
use mathlib.Core.List.{append-nil}
use tgwebdav.Base.{
  ℕ, ◌+◌, ◌≡◌, ◌⊎◌, refl, ap, sym, ◌∙◌, subst, Bool, true, false, List, [], ◌∷◌, ◌++◌, arith, ◌==◌,
  Bool-cases, inl, inr, keep, some_by, All,
}
use tgwebdav.Base.Int.{pos, ◌+ℤ◌, +ℤ-pos}
use tgwebdav.Model.{Extent, Blob, WalChunk}
use tgwebdav.Packer.{Track, record_extents, store_if, finalize_body, finalize}
use tgwebdav.Repository.Blobs.{add_refcounts}
use tgwebdav.Repository.Extents.{insert_extents, create_batch, every, is_anchored}
use tgwebdav.Repository.Leases.{
  is_owned, update_rows, stored_row, mark_stored_in, mark_stored_if_owner,
}
use tgwebdav.Repository.WalChunks.{delete_chunks, without_chunks_of}
use tgwebdav.Store.{ok, Db, World, attempt}
use tgwebdav.Store.Rules.{Gives, Gives-pure, Gives-bind, Gives-query, with_tx_settles}
use tgwebdav.WebdavFs.Balance.{refs, IsBalanced, refs-append, bump_deltas-refs, add_delta-refs}
use tgwebdav.WebdavFs.Env.{Env}
use tgwebdav.WebdavFs.Moves.{bump_deltas}
use tgwebdav.WebdavFs.Tree.{no_deltas}
use tgwebdav.WebdavFs.Truncate.{none_left}

-- The tables after a file was recorded: its extents stand beside the others and are counted, its
-- chunks are gone, and the row that this worker had leased, and none but such rows, is stored and free.
pub record IsRecorded (owner : ℕ) (t : Track) (before after : Db) : Type 0 where
  pub balanced : IsBalanced after
  pub recorded : after.extents ≡ before.extents ++ t.extents
  pub consumed : keep (λ (c : WalChunk). c.node_id == t.node.id) after.wal_chunks ≡ []
  pub leased : some_by (is_owned t.node.id owner) before.nodes ≡ true
  pub freed : after.nodes ≡ update_rows (is_owned t.node.id owner) stored_row before.nodes

module _ (env : Env) (owner : ℕ) (t : Track) (before : Db) (b₀ : IsBalanced before) where
  Marked : Db → Type 0
  Marked d =
      (some_by (is_owned t.node.id owner) before.nodes ≡ true)
      × (d.nodes ≡ update_rows (is_owned t.node.id owner) stored_row before.nodes)

  Owned : Db → Type 0
  Owned d = IsBalanced d × (d.extents ≡ before.extents) × Marked d

  Asked : Bool → Db → Type 0
  Asked true d = Owned d
  Asked false d = d ≡ before

  Added : Db → Type 0
  Added d =
      All (λ (b : Blob). b.refcount ≡ pos (refs b.id before.extents)) d.blobs
      × (d.extents ≡ before.extents ++ t.extents)
      × Marked d

  Counted : Db → Type 0
  Counted d = IsBalanced d × (d.extents ≡ before.extents ++ t.extents) × Marked d

  asked :
      (d : Db) (a : Bool)
      → d ≡ before
      → (mark_stored_in t.node.id owner d).0 ≡ ok a
      → Asked a (mark_stored_in t.node.id owner d).1
  unfolding mark_stored_in Asked Owned Marked
  asked d true p e = elim (Bool-cases (some_by (is_owned t.node.id owner) d.nodes)) [
    | inl y ↦ rw y (
      subst IsBalanced (sym p) b₀,
      ap (λ (x : Db). x.extents) p,
      (
        ap (λ (x : Db). some_by (is_owned t.node.id owner) x.nodes) (sym p) ∙ y,
        ap (λ (x : Db). update_rows (is_owned t.node.id owner) stored_row x.nodes) p,
      ),
    )
    | inr f ↦ cc (rw f at e)
  ]
  asked d false p e = elim (Bool-cases (some_by (is_owned t.node.id owner) d.nodes)) [
    | inl y ↦ cc (rw y at e)
    | inr f ↦ rw f p
  ]

  mark-Gives : Gives (λ d. d ≡ before) (mark_stored_if_owner t.node.id owner) Asked
  unfolding mark_stored_if_owner
  mark-Gives = Gives-query _ (λ d a p e. asked d a p e)

  zero_plus : (n : ℕ) → 0 + n ≡ n
  zero_plus n = omega arith

  count-Gives :
      (es : List Extent) → es ≡ t.extents → Gives Owned (record_extents env owner es) (λ _. Counted)
  unfolding Owned Added Counted Marked create_batch insert_extents add_refcounts
  count-Gives [] h =
      Gives-pure tt
        (λ d p. (p.0, p.1 ∙ sym (append-nil before.extents) ∙ ap (λ x. before.extents ++ x) h, p.2))
  count-Gives (e ∷ es) h =
      Gives-bind (λ _. Added) _ _
        (Gives-query _ (λ d u p k. elim (Bool-cases (every (is_anchored d) (e ∷ es))) [
          | inl y ↦ rw y (
            subst (λ xs. All (λ (b : Blob). b.refcount ≡ pos (refs b.id xs)) d.blobs) p.1 p.0,
            ap (λ xs. xs ++ e ∷ es) p.1 ∙ ap (λ xs. before.extents ++ xs) h,
            p.2,
          )
          | inr f ↦ cc (rw f at k)
        ]))
        (λ _. Gives-query _ (λ d u p _.
          let deltas = bump_deltas env (no_deltas env) (e ∷ es) in
          (
            add_delta-refs deltas before.extents d.extents
                (λ k.
                  let n = refs k (e ∷ es) in
                  let all : refs k before.extents + n ≡ refs k d.extents =
                    sym (refs-append k before.extents (e ∷ es))
                    ∙ ap (λ xs. refs k (before.extents ++ xs)) h
                    ∙ ap (refs k) (sym p.1) in
                  ap (λ z. pos (refs k before.extents) +ℤ z)
                    (bump_deltas-refs env (no_deltas env) (e ∷ es) k
                      ∙ +ℤ-pos 0 n
                      ∙ ap pos (zero_plus n))
                  ∙ +ℤ-pos (refs k before.extents) n
                  ∙ ap pos all)
                d.blobs p.0,
            p.1,
            p.2,
          )))

  store-Gives :
      (a : Bool)
      → Gives (Asked a) (store_if env owner a t) (λ _ d. (d ≡ before) ⊎ IsRecorded owner t before d)
  unfolding Asked Counted Marked delete_chunks without_chunks_of
  store-Gives false = Gives-pure tt (λ d p. inl p)
  store-Gives true =
      Gives-bind (λ _. Counted) _ _ (count-Gives t.extents refl)
        (λ _. Gives-query _ (λ d u p _. inr (record {
          balanced = p.0;
          recorded = p.1;
          consumed = none_left _ d.wal_chunks;
          leased = p.2.0;
          freed = p.2.1;
        })))

  body-Gives :
      Gives
        (λ d. d ≡ before)
        (finalize_body env owner t)
        (λ _ d. (d ≡ before) ⊎ IsRecorded owner t before d)
  unfolding finalize_body
  body-Gives = Gives-bind Asked _ _ mark-Gives store-Gives

-- Outside a transaction, from tables in which every blob's count is the number of extents on it,
-- finalizing a file either leaves the tables as they were or records the file completely, whatever
-- fails on the way, and it records it only if the file is still buffered and leased by this worker.
pub finalize-IsRecorded :
    (env : Env) (owner : ℕ) (t : Track) (w : World)
    → w.in_tx ≡ false
    → IsBalanced w.db
    → ((finalize env owner t w).1.db ≡ w.db) ⊎ IsRecorded owner t w.db (finalize env owner t w).1.db
unfolding finalize attempt
finalize-IsRecorded env owner t w outside b =
    elim (with_tx_settles (finalize_body env owner t) (body-Gives env owner t w.db b) w outside
      refl) [ inl same ↦ inl same | inr (inl same) ↦ inl same | inr (inr recorded) ↦ inr recorded ]
