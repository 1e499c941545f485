-- ===== src/WebdavFs/Delete.antt =====
-- DELETE against the reference counts: what it releases is what the cascade takes.
use tgwebdav.Base.{
  or_true, suc, ◌<◌, ◌≡◌, refl, ap, sym, ◌∙◌, subst, Bool, true, false, not, ◌&&◌, ◌||◌, List, [],
  ◌∷◌, map, arith, ◌==◌, ==_iff, ==_refl, &&_iff, Bool-cases, inl, inr, length, keep, some_by,
  bytes_eq, bytes_eq_refl, Has, Has-keep, Has-of_keep, All,
}
use tgwebdav.Base.Int.{pos}
use tgwebdav.Model.{Uuid, Node, Extent, Blob}
use tgwebdav.Repository.Nodes.{
  subtree_rows, list_subtree, node_of, delete_node, delete_from, cascade,
}
use tgwebdav.Repository.Nodes.Cascade.{is_in, doomed}
use tgwebdav.Repository.Nodes.Like.{like-escape_like}
use tgwebdav.Store.{Db, NodeRow}
use tgwebdav.Store.Rules.{Gives, Gives-bind, Gives-query}
use tgwebdav.WebdavFs.Balance.{refs, IsBalanced}
use tgwebdav.WebdavFs.Env.{Env}
use tgwebdav.WebdavFs.Subtree.{IsTree, AreDistinct, same_row, same_test}
use tgwebdav.WebdavFs.Subtree.Below.{gone, is_below, gone-is_below}
use tgwebdav.WebdavFs.Tree.{release_files, subtree_or, remove_subtree, root_path}
use tgwebdav.WebdavFs.Removal.{left, AreOther, released, IsLess, release_files-Gives}

released-is_in :
    (k : Uuid) (ids : List Uuid) (ns : List Node)
    → is_in k (released ids ns)
      ≡ (is_in k ids || some_by (λ (n : Node). not n.is_dir && n.id == k) ns)
unfolding is_in
released-is_in k ids [] = or_false (is_in k ids)
  where
    or_false : (b : Bool) → b ≡ (b || false)
    or_false true = refl
    or_false false = refl
released-is_in k ids (n ∷ ns) = elim (Bool-cases n.is_dir) [
  | inl t ↦ rw t (released-is_in k ids ns)
  | inr f ↦ rw f (
      released-is_in k (n.id ∷ ids) ns
      ∙ turn (n.id == k) (is_in k ids) (some_by (λ (m : Node). not m.is_dir && m.id == k) ns))
]
  where
    turn : (a b c : Bool) → ((a || b) || c) ≡ (b || (a || c))
    turn true true c = refl
    turn true false c = refl
    turn false true c = refl
    turn false false c = refl

some_of_map :
    (f : Node → Bool) (rows : List NodeRow)
    → some_by f (map node_of rows) ≡ true
    → (r : NodeRow) × Has r rows × (f r.node ≡ true)
some_of_map f [] h = cc h
some_of_map f (x ∷ rows) h = elim (Bool-cases (f x.node)) [
  | inl t ↦ (x, inl refl, t)
  | inr g ↦ let (r, m, e) = some_of_map f rows (rw g at h) in (r, inr m, e)
]

some_by-map :
    (f : Node → Bool) (rows : List NodeRow) (r : NodeRow)
    → Has r rows
    → f r.node ≡ true
    → some_by f (map node_of rows) ≡ true
some_by-map f [] r m h = elim m [ ]
some_by-map f (x ∷ rows) r (inl e) h =
    let t : f x.node ≡ true = ap (λ (y : NodeRow). f y.node) (sym e) ∙ h in rw t refl
some_by-map f (x ∷ rows) r (inr m) h = rw (some_by-map f rows r m h) (or_true (f x.node))

pub keep_same :
    {A : Type 0} (f g : A → Bool) (xs : List A)
    → ((x : A) → Has x xs → f x ≡ g x)
    → keep f xs ≡ keep g xs
keep_same f g [] h = refl
keep_same f g (x ∷ xs) h = elim (Bool-cases (f x)) [
  | inl t ↦
      let u : g x ≡ true = sym (h x (inl refl)) ∙ t in
      rw (t, u) (ap (◌∷◌ x) (keep_same f g xs (λ y m. h y (inr m))))
  | inr t ↦
      let u : g x ≡ false = sym (h x (inl refl)) ∙ t in
      rw (t, u) (keep_same f g xs (λ y m. h y (inr m)))
]

AreOther-keep :
    (q : NodeRow → Bool) (ids : List Uuid) (rows : List NodeRow)
    → All (λ (r : NodeRow). is_in r.node.id ids ≡ false) rows
    → AreDistinct rows
    → AreOther ids (map node_of (keep q rows))
unfolding is_in
AreOther-keep q ids [] h d = tt
AreOther-keep q ids (r ∷ rows) h d = elim (Bool-cases (q r)) [
  | inl t ↦ rw t (h.0, AreOther-keep q (r.node.id ∷ ids) rows (both rows h.1 d.0) d.1)
  | inr f ↦ rw f (AreOther-keep q ids rows h.1 d.1)
]
  where
    both :
        (xs : List NodeRow)
        → All (λ (x : NodeRow). is_in x.node.id ids ≡ false) xs
        → All (λ (x : NodeRow). (x.node.id == r.node.id) ≡ false) xs
        → All (λ (x : NodeRow). is_in x.node.id (r.node.id ∷ ids) ≡ false) xs
    both [] h d = tt
    both (x ∷ xs) h d =
        let other : (r.node.id == x.node.id) ≡ false = ground (arith, d.0) in
        (rw other h.0, both xs h.1 d.1)

none_yet : (rows : List NodeRow) → All (λ (r : NodeRow). is_in r.node.id [] ≡ false) rows
unfolding is_in
none_yet [] = tt
none_yet (r ∷ rows) = (refl, none_yet rows)

module _ (env : Env) (before : Db) (tree : IsTree before) (top : NodeRow)
    (known : Has top before.nodes) (below : (top.node.path ≡ root_path) → ⊥)
    (absolute : 0 < length top.node.path) where
  -- the files that ListSubtree lists
  abbrev listed : List Node
  listed = map node_of (subtree_rows top.node.user_id top.node.path before.nodes)

  abbrev below_top : NodeRow → Bool
  below_top r = is_below before tree top known below absolute r

  listed_lem : listed ≡ map node_of (keep below_top before.nodes)
  unfolding subtree_rows
  listed_lem = ap (map node_of) (
      keep_same _ below_top before.nodes (λ r m.
        ap (λ b. r.node.user_id == top.node.user_id && (bytes_eq r.node.path top.node.path || b))
          (like-escape_like top.node.path r.node.path)))

  top_below : below_top top ≡ true
  top_below = rw (==_refl top.node.user_id, bytes_eq_refl top.node.path) refl

  not_empty : subtree_or env top.node listed ≡ listed
  not_empty =
      ap (subtree_or env top.node) listed_lem
      ∙ go (keep below_top before.nodes) (Has-keep below_top top before.nodes known top_below)
      ∙ sym listed_lem
    where
      go :
          (rows : List NodeRow)
          → Has top rows
          → subtree_or env top.node (map node_of rows) ≡ map node_of rows
      go [] m = elim m [ ]
      go (r ∷ rows) m = refl

  listed-AreOther : AreOther [] listed
  listed-AreOther =
      subst (AreOther []) (sym listed_lem)
        (AreOther-keep below_top [] before.nodes (none_yet before.nodes) tree.distinct)

  abbrev taken : List Uuid
  taken = gone before tree top known below absolute

  -- An extent's file is released exactly if it goes.
  same_files :
      (e : Extent)
      → Has e before.extents
      → is_in e.node_id taken ≡ is_in e.node_id (released [] listed)
  unfolding is_in
  same_files e m =
      let (r, mr, id, file) = tree.on_files e m in
      let f : Node → Bool = λ n. not n.is_dir && n.id == e.node_id in
      let chosen : f r.node ≡ true = rw (file, id) (==_refl e.node_id) in
      let both : some_by f (map node_of (keep below_top before.nodes)) ≡ below_top r =
        same_test _ _
          (λ h.
            let (s, ms, t) = some_of_map f (keep below_top before.nodes) h in
            let (ms', b) = Has-of_keep below_top s before.nodes ms in
            let id' : s.node.id ≡ e.node_id = (==_iff s.node.id e.node_id).0 ((&&_iff _ _).0 t).1 in
            let same = same_row before tree s r ms' mr (id' ∙ sym id) in
            ap below_top (sym same) ∙ b)
          (λ b.
            some_by-map f (keep below_top before.nodes) r (Has-keep below_top r before.nodes mr b)
              chosen) in
      ap (λ k. is_in k taken) (sym id)
      ∙ gone-is_below before tree top known below absolute r mr
      ∙ sym both
      ∙ ap (some_by f) (sym listed_lem)
      ∙ sym (released-is_in e.node_id [] listed)

  same_left : left taken before.extents ≡ left (released [] listed) before.extents
  same_left = keep_same _ _ before.extents (λ e m. ap not (same_files e m))

  delete-Gives :
      Gives (IsLess env before (released [] listed)) (delete_node top.node.id) (λ _. IsBalanced)
  unfolding delete_node delete_from cascade
  delete-Gives = Gives-query _ (λ d u p e.
      elim (Bool-cases (some_by (λ (r : NodeRow). r.node.id == top.node.id) d.nodes)) [
        | inl t ↦
            let ids : doomed (suc (length d.nodes)) (top.node.id ∷ []) d.nodes ≡ taken =
              ap (λ rows. doomed (suc (length rows)) (top.node.id ∷ []) rows) p.2 in
            let same : left (doomed (suc (length d.nodes)) (top.node.id ∷ []) d.nodes) d.extents
                ≡ left (released [] listed) before.extents =
              ap (λ i. left i d.extents) ids ∙ ap (left taken) p.1 ∙ same_left in
            rw t (
              subst (λ xs. All (λ (b : Blob). b.refcount ≡ pos (refs b.id xs)) d.blobs) (sym same)
                p.0)
        | inr f ↦ cc (rw f at e)
      ])

  list-Gives :
      Gives
        (λ d. d ≡ before)
        (list_subtree top.node.user_id top.node.path)
        (λ ns d. (d ≡ before) × (ns ≡ listed))
  unfolding list_subtree
  list-Gives = Gives-query _ (λ d ns p e.
      let same : map node_of (subtree_rows top.node.user_id top.node.path d.nodes) ≡ ns = cc e in
      (
        p,
        sym same
            ∙ ap (λ (x : Db). map node_of (subtree_rows top.node.user_id top.node.path x.nodes)) p,
      ))

  left_none : (es : List Extent) → left [] es ≡ es
  unfolding is_in
  left_none [] = refl
  left_none (e ∷ es) = ap (◌∷◌ e) (left_none es)

  start-IsLess : (d : Db) → IsBalanced before → d ≡ before → IsLess env before [] d
  start-IsLess d b e = (
    subst (λ xs. All (λ (x : Blob). x.refcount ≡ pos (refs x.id xs)) d.blobs)
        (sym (left_none before.extents))
        (subst (λ (x : Db). All (λ (y : Blob). y.refcount ≡ pos (refs y.id before.extents)) x.blobs)
          (sym e) b),
    ap (λ (x : Db). x.extents) e,
    ap (λ (x : Db). x.nodes) e,
  )

  pub remove_subtree-Gives :
      IsBalanced before
      → Gives
          (λ d. d ≡ before)
          (remove_subtree env top.node.user_id top.node.path top.node)
          (λ _. IsBalanced)
  unfolding remove_subtree
  remove_subtree-Gives b =
      Gives-bind (λ ns d. (d ≡ before) × (ns ≡ listed)) _ _ list-Gives
        (λ ns. record {
          at = λ w a p e.
              let same : subtree_or env top.node ns ≡ listed =
                ap (subtree_or env top.node) p.1 ∙ not_empty in
              (Gives-bind {P = IsLess env before []} {Q = λ _. IsBalanced}
                  (λ _. IsLess env before (released [] listed)) _ _
                  (subst
                    (λ xs.
                      Gives (IsLess env before []) (release_files env xs)
                        (λ _. IsLess env before (released [] listed)))
                    (sym same) (release_files-Gives env before [] listed listed-AreOther))
                  (λ _. delete-Gives)).at
                w a (start-IsLess w.db b p.0) e;
        })
