-- ===== src/Repository/Extents.antt =====
-- internal/repository/extent.go and the queries of db/query/extent.sql.
use tgwebdav.Base.{
  Bool, true, not, ◌&&◌, ◌||◌, List, [], ◌∷◌, ◌++◌, map, ◌==◌, if◌then◌else◌, keep, some_by,
}
use tgwebdav.Model.{Uuid, Extent, Blob}
use tgwebdav.Repository.Order.{order_by}
use tgwebdav.Store.{Result, ok, err, storage, Db, Exec, NodeRow, query, pure}

-- the foreign keys to `nodes` and `blobs`
unfoldable pub is_anchored : Db → Extent → Bool
is_anchored d e =
    some_by (λ (r : NodeRow). r.node.id == e.node_id) d.nodes
    && some_by (λ (b : Blob). b.id == e.blob_id) d.blobs

abbrev pub every : (Extent → Bool) → List Extent → Bool
every p [] = true
every p (e ∷ es) = p e && every p es

-- CreateExtents: one COPY, all rows or none. Their primary keys come from `uuid.New`.
unfoldable pub insert_extents : List Extent → Db → Result (Unit {0}) × Db
unfolding is_anchored
insert_extents es d =
    if every (is_anchored d) es
    then (ok tt, record d { extents = d.extents ++ es })
    else (err storage, d)

-- CreateBatch; no statement is sent for no rows
unfoldable pub create_batch : List Extent → Exec (Unit {0})
create_batch [] = pure tt
create_batch (e ∷ es) = query (insert_extents (e ∷ es))

abbrev pub of_node : Uuid → List Extent → List Extent
of_node node_id es = keep (λ (e : Extent). e.node_id == node_id) es

-- ListExtentsByNode
unfoldable pub extents_of : Uuid → List Extent → List Extent
extents_of node_id es = order_by (λ (e : Extent). e.seq) (of_node node_id es)

unfoldable pub list_by_node : Uuid → Exec (List Extent)
list_by_node node_id = query (λ d. (ok (extents_of node_id d.extents), d))

-- DeleteExtentsByNode
unfoldable pub without_extents_of : Uuid → List Extent → List Extent
without_extents_of node_id es = keep (λ (e : Extent). not (e.node_id == node_id)) es

unfoldable pub delete_by_node : Uuid → Exec (Unit {0})
delete_by_node node_id =
    query (λ d. (ok tt, record d { extents = without_extents_of node_id d.extents }))

-- CopyExtentsForNode; the new rows' ids are the server's (gen_random_uuid), read off `fresh`
unfoldable pub copied : (Uuid → Uuid) → Uuid → Extent → Extent
copied fresh dst e = record e { id = fresh e.id; node_id = dst }

unfoldable pub copy_extents : (Uuid → Uuid) → Uuid → Uuid → Db → Result (Unit {0}) × Db
unfolding copied
copy_extents fresh src dst d =
    if some_by (λ (r : NodeRow). r.node.id == dst) d.nodes
    then (ok tt, record d { extents = d.extents ++ map (copied fresh dst) (of_node src d.extents) })
    else (err storage, d)

unfoldable pub copy_for_node : (Uuid → Uuid) → Uuid → Uuid → Exec (Unit {0})
copy_for_node fresh src dst = query (copy_extents fresh src dst)

-- the distinct `node_id`s, in table order
abbrev pub owners : List Uuid → List Extent → List Uuid
owners seen [] = []
owners seen (e ∷ es) =
    let rest = owners seen es in
    let new = e.node_id ∷ owners (e.node_id ∷ seen) es in
    if some_by (λ k. k == e.node_id) seen then rest else new

-- ListNodesSolelyOnBlob
unfoldable pub solely_on : Uuid → List Extent → List Uuid
solely_on blob es =
    keep (λ id. every (λ e. not (e.node_id == id) || e.blob_id == blob) es) (owners [] es)

unfoldable pub list_nodes_solely_on_blob : Uuid → Exec (List Uuid)
list_nodes_solely_on_blob blob = query (λ d. (ok (solely_on blob d.extents), d))
