-- ===== src/WebdavFs/Deleted.antt =====
-- What DELETE of a node takes, beside what ListSubtree lists.
use tgwebdav.Base.{
  or_true, ◌≡◌, refl, ap, sym, ◌∙◌, Bool, true, not, ◌&&◌, ◌||◌, List, [], ◌∷◌, inl, inr, ◌==◌,
  ==_refl, bytes_eq, keep, some_by, Has,
}
use tgwebdav.Repository.Nodes.{subtree_rows, delete_from, cascade}
use tgwebdav.Repository.Nodes.Like.{like-escape_like}
use tgwebdav.Store.{Db, NodeRow, ok}
use tgwebdav.WebdavFs.Delete.{keep_same}
use tgwebdav.WebdavFs.DeleteAll.{not_empty_path}
use tgwebdav.WebdavFs.Subtree.{IsTree}
use tgwebdav.WebdavFs.Subtree.Below.{is_below, gone-is_below}
use tgwebdav.WebdavFs.Tree.{root_path}

some_by-Has :
    (f : NodeRow → Bool) (rows : List NodeRow) (r : NodeRow)
    → Has r rows
    → f r ≡ true
    → some_by f rows ≡ true
some_by-Has f [] r m h = elim m [ ]
some_by-Has f (x ∷ rows) r (inl e) h = let t : f x ≡ true = ap f (sym e) ∙ h in rw t refl
some_by-Has f (x ∷ rows) r (inr m) h = rw (some_by-Has f rows r m h) (or_true (f x))

-- From rows that form trees, for a node other than a root: the rows that ListSubtree selects at its
-- owner and path and the rows that deleting the node leaves, both in the table's order, are the table
-- divided by one test, and the delete reports success. So the delete, with the cascade of
-- `parent_id`, takes exactly the rows that ListSubtree selects.
pub delete_from-subtree_rows :
    (d : Db) (top : NodeRow)
    → IsTree d
    → Has top d.nodes
    → (top.node.path ≡ root_path → ⊥)
    → (p : NodeRow → Bool) × (subtree_rows top.node.user_id top.node.path d.nodes ≡ keep p d.nodes)
      × ((delete_from top.node.id d).0 ≡ ok tt)
      × ((delete_from top.node.id d).1.nodes ≡ keep (λ r. not (p r)) d.nodes)
unfolding subtree_rows delete_from cascade
delete_from-subtree_rows d top tree known below =
    let absolute = not_empty_path d tree top known in
    let there : some_by (λ (r : NodeRow). r.node.id == top.node.id) d.nodes ≡ true =
      some_by-Has _ d.nodes top known (==_refl top.node.id) in
    (
      is_below d tree top known below absolute,
      keep_same _ (is_below d tree top known below absolute) d.nodes (λ r m.
          ap (λ b. r.node.user_id == top.node.user_id && (bytes_eq r.node.path top.node.path || b))
            (like-escape_like top.node.path r.node.path)),
      rw there refl,
      rw there (
          keep_same _ _ d.nodes
            (λ r m. ap not (gone-is_below d tree top known below absolute r m))),
    )
