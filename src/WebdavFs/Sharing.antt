-- ===== src/WebdavFs/Sharing.antt =====
-- COPY of a stored file: the copy lies on the same blobs.
use tgwebdav.Base.{
  ℕ, ◌+◌, ◌≡◌, refl, sym, ap, ◌∙◌, ◌&&◌, subst, Bool, true, false, Option, List, [], ◌∷◌, ◌++◌, map,
  arith, All, Bool-cases, inl, inr,
}
use tgwebdav.Base.Int.{pos, ◌+ℤ◌, +ℤ-pos}
use tgwebdav.Model.{Uuid, Bytes, Node, NodeState, stored, writing, buffered, Extent, Blob}
use tgwebdav.Repository.Blobs.{add_refcounts}
use tgwebdav.Repository.Extents.{
  of_node, extents_of, list_by_node, copied, copy_extents, copy_for_node,
}
use tgwebdav.Repository.Nodes.{
  create_node, insert_node, insert_node_if, clashes, has_parent, has_owner, row_for,
}
use tgwebdav.Repository.WalChunks.{has_node}
use tgwebdav.Store.{ok, Db, World, NodeRow, attempt}
use tgwebdav.Store.Rules.{
  Gives, Gives-pure, Gives-raise, Gives-bind, Gives-query, Gives-get_now, Gives-new_id,
  Gives-attempt_ok, Gives-weaken, Gives-pre, Gives-from,
}
use tgwebdav.WebdavFs.Balance.{
  refs, IsBalanced, refs-order_by, refs-append, refs-copied, bump_deltas-refs, add_delta-refs,
  All-refs,
}
use tgwebdav.WebdavFs.Env.{Env}
use tgwebdav.WebdavFs.Moves.{
  bump, bump_deltas, share_extents, copy_file, copy_of, copied_state, copy_content,
}
use tgwebdav.WebdavFs.Tree.{no_deltas, to_fs_err, fs_error}

module _ (env : Env) (before : List Extent) where
  Starts : List NodeRow → Db → Type 0
  Starts nodes d = IsBalanced d × (d.extents ≡ before) × (d.nodes ≡ nodes)

  -- The copy's extents stand beside those of the source.
  abbrev pub IsShared : Uuid → Uuid → Db → Type 0
  IsShared src id d =
      IsBalanced d × (d.extents ≡ before ++ map (copied env.fresh id) (of_node src before))

  Listed : List NodeRow → Uuid → List Extent → Db → Type 0
  Listed nodes src es d = Starts nodes d × ((k : Uuid) → refs k es ≡ refs k (of_node src before))

  -- The rows are copied and not counted yet.
  Uncounted : List NodeRow → Uuid → Uuid → List Extent → Db → Type 0
  Uncounted nodes src id es d =
      All (λ (b : Blob). b.refcount ≡ pos (refs b.id before)) d.blobs
      × (d.extents ≡ before ++ map (copied env.fresh id) (of_node src before))
      × ((k : Uuid) → refs k es ≡ refs k (of_node src before))
      × (d.nodes ≡ nodes)

  -- The end: the copy's extents stand, and nothing else has touched the rows of nodes.
  Shared : List NodeRow → Uuid → Uuid → Db → Type 0
  Shared nodes src id d = IsShared src id d × (d.nodes ≡ nodes)

  zero_plus : (n : ℕ) → 0 + n ≡ n
  zero_plus n = omega arith

  more_refs :
      (src id k : Uuid)
      → refs k (before ++ map (copied env.fresh id) (of_node src before))
        ≡ refs k before + refs k (of_node src before)
  more_refs src id k =
      refs-append k before _
      ∙ ap (λ n. refs k before + n) (refs-copied env.fresh k id (of_node src before))

  -- A new row stands at the end of the table, and its id was not there.
  create-Gives :
      (nodes : List NodeRow) (n : Node)
      → Gives
          (Starts nodes)
          (attempt (create_node n) to_fs_err)
          (λ _ d. Starts (nodes ++ row_for n ∷ []) d × (clashes n nodes ≡ false))
  unfolding Starts create_node insert_node to_fs_err
  create-Gives nodes n =
      Gives-attempt_ok (λ _ d. Starts (nodes ++ row_for n ∷ []) d × (clashes n nodes ≡ false)) _ _
        (Gives-query _ (λ d u s e.
          inserted d (clashes n d.nodes)
            (has_parent n.parent_id d.nodes && has_owner n.user_id d.users) s
            (ap (clashes n) (sym s.2)) e))
        (λ u. Gives-pure u (λ d s. s)) (λ e. Gives-raise (fs_error e))
    where
      inserted :
          (d : Db) (taken known : Bool)
          → Starts nodes d
          → clashes n nodes ≡ taken
          → {u : Unit {0}} → (insert_node_if taken known n d).0 ≡ ok u
          → Starts (nodes ++ row_for n ∷ []) (insert_node_if taken known n d).1
            × (clashes n nodes ≡ false)
      inserted d true known s c e = cc e
      inserted d false true s c e = ((s.0, s.1, ap (λ rows. rows ++ row_for n ∷ []) s.2), c)
      inserted d false false s c e = cc e

  list-Gives :
      (nodes : List NodeRow) (src : Uuid)
      → Gives (Starts nodes) (list_by_node src) (Listed nodes src)
  unfolding Starts Listed list_by_node extents_of
  list-Gives nodes src = Gives-query _ (λ d es s e. (
    s,
    λ k.
        let same : es ≡ extents_of src d.extents = cc e in
        ap (refs k) same
        ∙ refs-order_by (λ (x : Extent). x.seq) k (of_node src d.extents)
        ∙ ap (λ xs. refs k (of_node src xs)) s.1,
  ))

  copy-Gives :
      (nodes : List NodeRow) (src id : Uuid) (es : List Extent)
      → Gives
          (Listed nodes src es)
          (copy_for_node env.fresh src id)
          (λ _. Uncounted nodes src id es)
  unfolding Starts Listed Uncounted copy_for_node copy_extents has_node
  copy-Gives nodes src id es = Gives-query _ (λ d u l e. elim (Bool-cases (has_node id d.nodes)) [
    | inl t ↦ rw t (
      subst (λ xs. All (λ (b : Blob). b.refcount ≡ pos (refs b.id xs)) d.blobs) l.0.1 l.0.0,
      ap (λ xs. xs ++ map (copied env.fresh id) (of_node src xs)) l.0.1,
      l.1,
      l.0.2,
    )
    | inr f ↦ cc (rw f at e)
  ])

  bump-Gives :
      (nodes : List NodeRow) (src id : Uuid) (es : List Extent)
      → Gives (Uncounted nodes src id es) (bump env es) (λ _. Shared nodes src id)
  unfolding Uncounted Shared add_refcounts
  bump-Gives nodes src id [] = Gives-pure tt (λ d u. (
    (
      All-refs before d.extents (λ k. omega (arith, more_refs src id k, u.2 k, ap (refs k) u.1))
          d.blobs u.0,
      u.1,
    ),
    u.3,
  ))
  bump-Gives nodes src id (e ∷ es) = Gives-query _ (λ d u l _.
      let deltas = bump_deltas env (no_deltas env) (e ∷ es) in
      (
        (
          add_delta-refs deltas before d.extents
              (λ k.
                let n = refs k (e ∷ es) in
                let all : refs k before + n ≡ refs k d.extents =
                  omega (arith, more_refs src id k, l.2 k, ap (refs k) l.1) in
                ap (λ z. pos (refs k before) +ℤ z)
                  (bump_deltas-refs env (no_deltas env) (e ∷ es) k
                    ∙ +ℤ-pos 0 n
                    ∙ ap pos (zero_plus n))
                ∙ +ℤ-pos (refs k before) n
                ∙ ap pos all)
              d.blobs l.0,
          l.1,
        ),
        l.3,
      ))

  share_extents-Gives :
      (nodes : List NodeRow) (src id : Uuid)
      → Gives (Starts nodes) (share_extents env src id) (λ _. Shared nodes src id)
  unfolding share_extents
  share_extents-Gives nodes src id = Gives-bind (Listed nodes src) _ _ (list-Gives nodes src) (λ es.
      Gives-bind (λ _. Uncounted nodes src id es) _ _ (copy-Gives nodes src id es)
        (λ _. bump-Gives nodes src id es))

  content-Gives :
      (nodes : List NodeRow) (s : NodeState) (src : Node) (id : Uuid)
      → s ≡ stored
      → Gives (Starts nodes) (copy_content env s src id) (λ _. Shared nodes src.id id)
  content-Gives nodes stored src id e = share_extents-Gives nodes src.id id
  content-Gives nodes writing src id e = cc e
  content-Gives nodes buffered src id e = cc e

  -- The copy's own row is new, at the destination, and describes the source's content.
  abbrev pub IsCopy : List NodeRow → Uuid → Node → Bytes → Option Uuid → Node → Type 0
  IsCopy nodes user src dst parent copy =
      (clashes copy nodes ≡ false)
      × (copy.user_id ≡ user)
      × (copy.path ≡ dst)
      × (copy.parent_id ≡ parent)
      × (copy.state ≡ stored)
      × (copy.size ≡ src.size)
      × (copy.content_hash ≡ src.content_hash)

  copy_file-Gives :
      (nodes : List NodeRow) (user : Uuid) (src : Node) (dst : Bytes) (parent : Option Uuid)
      → src.state ≡ stored
      → Gives (Starts nodes) (copy_file env user src dst parent) (λ _ d.
        (copy : Node) × IsCopy nodes user src dst parent copy
        × Shared (nodes ++ row_for copy ∷ []) src.id copy.id d)
  unfolding copy_file
  copy_file-Gives nodes user src dst parent e =
      Gives-bind (λ _. Starts nodes) _ _ Gives-get_now
        (λ now.
          Gives-bind (λ _. Starts nodes) _ _ (Gives-new_id env.uuids)
            (λ id.
              let copy = copy_of env id user parent dst (copied_state env src.state) now src in
              Gives-bind _ _ _ (create-Gives nodes copy) (λ _. Gives-from (λ d₀ (s, new).
                Gives-weaken
                  (λ _ d p. (copy, (new, refl, refl, refl, ap (copied_state env) e, refl, refl), p))
                  (Gives-pre (λ d same. rw same s)
                    (content-Gives (nodes ++ row_for copy ∷ []) src.state src id e))))))

-- From tables in which every blob's count is the number of extents on it, copying a stored file,
-- when it reports success, adds one row of nodes: of a new id and at the destination, where the
-- user had none, with the source's size and hash and stored; it adds for that row one extent
-- beside each of the source's, over the same range of the file and of the same blob, takes no row
-- and no extent away and changes none; and every blob's count is again the number of extents on
-- it.
pub copy_file-IsShared :
    (env : Env) (user : Uuid) (src : Node) (dst : Bytes) (parent : Option Uuid) (w : World)
    → src.state ≡ stored
    → IsBalanced w.db
    → (copy_file env user src dst parent w).0 ≡ ok tt
    → (copy : Node) × IsCopy env w.db.extents w.db.nodes user src dst parent copy
      × IsShared env w.db.extents src.id copy.id (copy_file env user src dst parent w).1.db
      × ((copy_file env user src dst parent w).1.db.nodes ≡ w.db.nodes ++ row_for copy ∷ [])
unfolding Starts Shared
copy_file-IsShared env user src dst parent w s b e =
    let (copy, is_copy, (shared, rows)) =
      (copy_file-Gives env w.db.extents w.db.nodes user src dst parent s).at w tt (b, refl, refl)
        e in
    (copy, is_copy, shared, rows)
