-- ===== src/Tests/Removal.antt =====
-- A directory with a file in it, removed.
use tgwebdav.Base.{
  ◌≡◌, refl, ap, sym, ◌∙◌, Bool, true, false, Option, none, some, [], ◌∷◌, inl, inr, arith,
  bytes_eq, bytes_eq_refl, Has, keep, not,
}
use tgwebdav.Model.{Uuid, Node, stored, Extent}
use tgwebdav.Base.Int.{◌+ℤ◌, ◌-ℤ◌}
use tgwebdav.Repository.Blobs.{add_delta, add_refcounts}
use tgwebdav.Repository.Extents.{list_by_node, extents_of}
use tgwebdav.Repository.Order.{order_by}
use tgwebdav.Repository.Nodes.{
  subtree_rows, list_subtree, delete_node, delete_from, cascade, get_by_path, find_by_path, is_at,
}
use tgwebdav.Repository.Nodes.Like.{like, escape_like}
use tgwebdav.Repository.Nodes.Cascade.{is_in, parent_in, doomed}
use tgwebdav.Store.{ok, Db, World, NodeRow, ◌>>=◌, attempt, query, with_tx, fail_if}
use tgwebdav.WebdavFs.Paths.{elements, push, resolve, clean, normalize}
use tgwebdav.WebdavFs.Deleted.{delete_from-subtree_rows}
use tgwebdav.WebdavFs.Balance.{IsBalanced}
use tgwebdav.WebdavFs.DeleteAll.{remove_all-IsBalanced}
use tgwebdav.WebdavFs.Subtree.{IsTree}
use tgwebdav.WebdavFs.Tree.{
  release_deltas, release_extents, release_files, remove_subtree, to_fs_err, remove_all, root_path,
}
use tgwebdav.Tests.Files.{env, file, owner, world, tables}
use tgwebdav.Tests.Trees.{blob, extent}

abbrev row : Node → NodeRow
row node = record { node = node; lease_owner = 0; lease_until = none }

abbrev root : NodeRow
root = row (record file { id = 5; name = []; path = b'/' ∷ []; is_dir = true; state = stored })

abbrev folder : NodeRow
folder = row (record file {
  id = 6;
  parent_id = some 5;
  name = b'd' ∷ [];
  path = b'/' ∷ b'd' ∷ [];
  is_dir = true;
  state = stored;
})

abbrev leaf : NodeRow
leaf = row (record file {
  id = 7;
  parent_id = some 6;
  name = b'a' ∷ [];
  path = b'/' ∷ b'd' ∷ b'/' ∷ b'a' ∷ [];
  size = 4;
  state = stored;
})

abbrev filled : Db
filled = record tables {
  nodes = root ∷ folder ∷ leaf ∷ [];
  extents = extent 7 0 31 ∷ extent 7 1 31 ∷ [];
  blobs = blob 31 2 ∷ [];
}

clash :
    (x y r s : NodeRow)
    → r ≡ x
    → s ≡ y
    → bytes_eq x.node.path y.node.path ≡ false
    → r.node.path ≡ s.node.path
    → r ≡ s
clash x y r s i j other e =
    let path : y.node.path ≡ x.node.path =
      ap (λ (z : NodeRow). z.node.path) (sym j) ∙ sym e ∙ ap (λ (z : NodeRow). z.node.path) i in
    let yes : bytes_eq x.node.path y.node.path ≡ true =
      ap (bytes_eq x.node.path) path ∙ bytes_eq_refl x.node.path in
    cc (yes, other)

filled-one_path :
    (r s : NodeRow) → Has r filled.nodes → Has s filled.nodes → r.node.path ≡ s.node.path → r ≡ s
filled-one_path r s (inl i) (inl j) e = i ∙ sym j
filled-one_path r s (inl i) (inr (inl j)) e = clash root folder r s i j refl e
filled-one_path r s (inl i) (inr (inr (inl j))) e = clash root leaf r s i j refl e
filled-one_path r s (inr (inl i)) (inl j) e = clash folder root r s i j refl e
filled-one_path r s (inr (inl i)) (inr (inl j)) e = i ∙ sym j
filled-one_path r s (inr (inl i)) (inr (inr (inl j))) e = clash folder leaf r s i j refl e
filled-one_path r s (inr (inr (inl i))) (inl j) e = clash leaf root r s i j refl e
filled-one_path r s (inr (inr (inl i))) (inr (inl j)) e = clash leaf folder r s i j refl e
filled-one_path r s (inr (inr (inl i))) (inr (inr (inl j))) e = i ∙ sym j
filled-one_path r s (inl i) (inr (inr (inr n))) e = elim n [ ]
filled-one_path r s (inr (inl i)) (inr (inr (inr n))) e = elim n [ ]
filled-one_path r s (inr (inr (inl i))) (inr (inr (inr n))) e = elim n [ ]
filled-one_path r s (inr (inr (inr n))) k e = elim n [ ]

abbrev parent : NodeRow → Option Uuid
parent r = r.node.parent_id

filled-rooted_at :
    (r : NodeRow) → Has r filled.nodes → r.node.parent_id ≡ none → r.node.path ≡ root_path
filled-rooted_at r (inl i) e = ap (λ (z : NodeRow). z.node.path) i
filled-rooted_at r (inr (inl i)) e = cc (sym (ap parent i) ∙ e)
filled-rooted_at r (inr (inr (inl i))) e = cc (sym (ap parent i) ∙ e)
filled-rooted_at r (inr (inr (inr n))) e = elim n [ ]

filled-IsTree : IsTree filled
filled-IsTree = record {
  distinct = ((refl, (refl, tt)), ((refl, tt), (tt, tt)));
  one_path = λ r s m k u e. filled-one_path r s m k e;
  rooted_at = filled-rooted_at;
  placed = λ r p m e. elim m [
    | inl i ↦ cc (sym (ap parent i) ∙ e)
    | inr (inl i) ↦
        let id : some 5 ≡ some p = sym (ap parent i) ∙ e in
        (
          root,
          inl refl,
          (cc id),
          ap (λ (z : NodeRow). z.node.user_id) (sym i),
          b'd' ∷ [],
          refl,
          omega arith,
          ap (λ (z : NodeRow). z.node.path) i,
        )
    | inr (inr (inl i)) ↦
        let id : some 6 ≡ some p = sym (ap parent i) ∙ e in
        (
          folder,
          inr (inl refl),
          (cc id),
          ap (λ (z : NodeRow). z.node.user_id) (sym i),
          b'a' ∷ [],
          refl,
          omega arith,
          ap (λ (z : NodeRow). z.node.path) i,
        )
    | inr (inr (inr n)) ↦ elim n [ ]
  ];
  on_files = λ e m. elim m [
    | inl i ↦ (leaf, inr (inr (inl refl)), ap (λ (x : Extent). x.node_id) (sym i), refl)
    | inr (inl i) ↦ (leaf, inr (inr (inl refl)), ap (λ (x : Extent). x.node_id) (sym i), refl)
    | inr (inr n) ↦ elim n [ ]
  ];
}

abbrev before : World
before = record world { db = filled }

remove_all-IsBalanced_example : IsBalanced (remove_all env (some owner) (b'd' ∷ []) before).1.db
remove_all-IsBalanced_example =
    remove_all-IsBalanced env owner (b'd' ∷ []) before refl filled-IsTree (refl, tt)

delete_from-subtree_rows_example :
    (p : NodeRow → Bool) × (subtree_rows 1 (b'/' ∷ b'd' ∷ []) filled.nodes ≡ keep p filled.nodes)
    × ((delete_from 6 filled).0 ≡ ok tt)
    × ((delete_from 6 filled).1.nodes ≡ keep (λ r. not (p r)) filled.nodes)
delete_from-subtree_rows_example =
    delete_from-subtree_rows filled folder filled-IsTree (inr (inl refl)) (λ e. cc e)

program : Unit {0}
unfolding remove_all remove_subtree release_files release_extents release_deltas list_by_node
    extents_of order_by add_refcounts add_delta ◌+ℤ◌ ◌-ℤ◌ ◌>>=◌ attempt query with_tx fail_if
    get_by_path find_by_path is_at list_subtree subtree_rows like escape_like delete_node
    delete_from cascade doomed parent_in is_in normalize clean resolve push elements to_fs_err
program = tt

removed :
    ((remove_all env (some owner) (b'd' ∷ []) before).1.db.nodes ≡ root ∷ [])
    × ((remove_all env (some owner) (b'd' ∷ []) before).1.db.blobs ≡ blob 31 0 ∷ [])
unfolding program
removed = (refl, refl)
