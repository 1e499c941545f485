-- ===== src/Repository/Leases.antt =====
-- The packer's lease on a node: ReleaseLease and MarkStoredIfOwner of internal/repository/node.go.
use tgwebdav.Base.{ℕ, Bool, true, false, ◌&&◌, none, List, [], ◌∷◌, ◌==◌, if◌then◌else◌, some_by}
use tgwebdav.Model.{Uuid, NodeState, writing, buffered, stored}
use tgwebdav.Store.{Result, ok, err, not_found, Db, Exec, NodeRow, query}

unfoldable pub is_buffered : NodeState → Bool
is_buffered buffered = true
is_buffered writing = false
is_buffered stored = false

abbrev pub update_rows : (NodeRow → Bool) → (NodeRow → NodeRow) → List NodeRow → List NodeRow
update_rows p f [] = []
update_rows p f (r ∷ rs) = let rest = update_rows p f rs in if p r then f r ∷ rest else r ∷ rest

abbrev pub without_lease : NodeRow → NodeRow
without_lease r = record r { lease_owner = 0; lease_until = none }

-- ReleaseLease
unfoldable pub free_lease : Uuid → Db → Result (Unit {0}) × Db
free_lease id d =
    if some_by (λ (r : NodeRow). r.node.id == id) d.nodes
    then (ok tt, record d { nodes = update_rows (λ r. r.node.id == id) without_lease d.nodes })
    else (err not_found, d)

unfoldable pub release_lease : Uuid → Exec (Unit {0})
release_lease id = query (free_lease id)

-- still buffered, and leased by the owner
unfoldable pub is_owned : Uuid → ℕ → NodeRow → Bool
unfolding is_buffered
is_owned id owner r = r.node.id == id && (is_buffered r.node.state && r.lease_owner == owner)

abbrev pub stored_row : NodeRow → NodeRow
stored_row r = without_lease (record r { node = record r.node { state = stored } })

-- MarkStoredIfOwner
unfoldable pub mark_stored_in : Uuid → ℕ → Db → Result Bool × Db
unfolding is_owned
mark_stored_in id owner d =
    if some_by (is_owned id owner) d.nodes
    then (ok true, record d { nodes = update_rows (is_owned id owner) stored_row d.nodes })
    else (ok false, d)

unfoldable pub mark_stored_if_owner : Uuid → ℕ → Exec Bool
mark_stored_if_owner id owner = query (mark_stored_in id owner)
