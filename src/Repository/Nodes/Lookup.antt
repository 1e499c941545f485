-- ===== src/Repository/Nodes/Lookup.antt =====
-- Finding a row of `nodes` by its id, before and after an update.
use tgwebdav.Base.{
  ap, sym, ◌∙◌, ◌≡◌, refl, Bool, true, false, Option, none, some, List, [], ◌∷◌, arith, ◌==◌,
  Bool-cases, inl, inr,
}
use tgwebdav.Model.{Uuid, Node}
use tgwebdav.Repository.Nodes.{
  row_of, update_row, replace_node, find_by_id, found, update_if, update_found, update_in,
  path_taken, has_parent,
}
use tgwebdav.Store.{ok, Db, NodeRow}

pub row_of-id :
    (id : Uuid) (rows : List NodeRow) (r : NodeRow) → row_of id rows ≡ some r → r.node.id ≡ id
row_of-id id [] r h = cc
row_of-id id (x ∷ rows) r h = elim (Bool-cases (x.node.id == id)) [
  | inl e ↦ ground (arith, e)
  | inr n ↦ row_of-id id rows r (rw n at h)
]

-- The row that an update writes is the row that is found after it.
pub row_of-replace_node :
    (n : Node) (rows : List NodeRow) (r : NodeRow)
    → row_of n.id rows ≡ some r
    → row_of n.id (replace_node n rows) ≡ some (update_row n r)
unfolding replace_node update_row
row_of-replace_node n [] r h = cc
row_of-replace_node n (x ∷ rows) r h = elim (Bool-cases (x.node.id == n.id)) [
  | inl e ↦
      let first : some x ≡ some r = rw e at h in
      let same : x ≡ r = cc first in rw (e, e) (ap (λ (y : NodeRow). some (update_row n y)) same)
  | inr f ↦ rw (f, f) (row_of-replace_node n rows r (rw f at h))
]

-- What a successful UpdateNode wrote.
pub update_in-ok :
    (n : Node) (d : Db)
    → (update_in n d).0 ≡ ok tt
    → (r : NodeRow) × (row_of n.id d.nodes ≡ some r)
      × ((update_in n d).1 ≡ record d { nodes = replace_node n d.nodes })
unfolding update_in update_found
update_in-ok n d h = go (row_of n.id d.nodes) refl h
  where
    go :
        (o : Option NodeRow)
        → row_of n.id d.nodes ≡ o
        → (update_found o n d).0 ≡ ok tt
        → (r : NodeRow) × (o ≡ some r)
          × ((update_found o n d).1 ≡ record d { nodes = replace_node n d.nodes })
    go none e k = cc
    go (some r) e k =
        (r, refl, step (path_taken r.node.user_id n d.nodes) (has_parent n.parent_id d.nodes) k)
      where
        step :
            (taken known : Bool)
            → (update_if taken known n d).0 ≡ ok tt
            → (update_if taken known n d).1 ≡ record d { nodes = replace_node n d.nodes }
        step true known k = cc
        step false true k = refl
        step false false k = cc

pub find_by_id-id :
    (id : Uuid) (rows : List NodeRow) (n : Node) → find_by_id id rows ≡ ok n → n.id ≡ id
unfolding find_by_id
find_by_id-id id rows n h = go (row_of id rows) refl h
  where
    go : (o : Option NodeRow) → row_of id rows ≡ o → found o ≡ ok n → n.id ≡ id
    go none e k = cc
    go (some r) e k =
        let same : r.node ≡ n = cc in ap (λ (m : Node). m.id) (sym same) ∙ row_of-id id rows r e

-- A row that was updated is found with its new columns.
pub find_by_id-update :
    (n : Node) (d : Db)
    → (update_in n d).0 ≡ ok tt
    → (r : NodeRow) × (find_by_id n.id (update_in n d).1.nodes ≡ ok (update_row n r).node)
unfolding find_by_id
find_by_id-update n d h =
    let (r, old, new) = update_in-ok n d h in
    (r, rw new (ap found (row_of-replace_node n d.nodes r old)))
