-- ===== src/Repository/Nodes.antt =====
-- internal/repository/node.go and the queries of db/query/node.sql.
pub mod Like
pub mod Cascade
pub mod Lookup
pub mod Closure
use tgwebdav.Base.{
  ℕ, suc, ◌+◌, Bool, true, false, not, ◌&&◌, ◌||◌, Option, none, some, List, [], ◌∷◌, ◌++◌, map,
  ltb, ◌==◌, bytes_eq, if◌then◌else◌, length, take, keep, find_first, some_by, sum_by,
}
use tgwebdav.Model.{
  Uuid, Instant, Bytes, NodeState, writing, buffered, stored, User, Node, Extent, WalChunk,
}
use tgwebdav.Repository.Nodes.Cascade.{doomed, is_in}
use tgwebdav.Repository.Nodes.Like.{like, escape_like}
use tgwebdav.Repository.Order.{order_by}
use tgwebdav.Store.{
  Result, ok, err, not_found, already_exists, storage, Db, World, Exec, NodeRow, query, attempt,
  pure,
}

abbrev pub row_id : NodeRow → Uuid
row_id r = r.node.id

-- UNIQUE (user_id, path)
unfoldable pub is_at : Uuid → Bytes → NodeRow → Bool
is_at user_id path r = r.node.user_id == user_id && bytes_eq r.node.path path

-- REFERENCES nodes(id)
unfoldable pub has_parent : Option Uuid → List NodeRow → Bool
has_parent none rows = true
has_parent (some p) rows = some_by (λ (r : NodeRow). r.node.id == p) rows

-- REFERENCES users(id)
abbrev pub has_owner : Uuid → List User → Bool
has_owner user_id users = some_by (λ (u : User). u.id == user_id) users

unfoldable pub clashes : Node → List NodeRow → Bool
unfolding is_at
clashes n rows = some_by (λ (r : NodeRow). r.node.id == n.id || is_at n.user_id n.path r) rows

abbrev pub row_for : Node → NodeRow
row_for n = record { node = n; lease_owner = 0; lease_until = none }

abbrev pub insert_node_if : Bool → Bool → Node → Db → Result (Unit {0}) × Db
insert_node_if true known n d = (err already_exists, d)
insert_node_if false true n d = (ok tt, record d { nodes = d.nodes ++ row_for n ∷ [] })
insert_node_if false false n d = (err storage, d)

-- CreateNode
unfoldable pub insert_node : Node → Db → Result (Unit {0}) × Db
unfolding clashes has_parent
insert_node n d =
    insert_node_if (clashes n d.nodes)
      (has_parent n.parent_id d.nodes && has_owner n.user_id d.users) n d

-- UpdateNode: the columns that the statement sets; owner, creation time and lease stay.
unfoldable pub update_row : Node → NodeRow → NodeRow
update_row n r = record r {
  node = record n { id = r.node.id; user_id = r.node.user_id; created_at = r.node.created_at };
}

unfoldable pub replace_node : Node → List NodeRow → List NodeRow
unfolding update_row
replace_node n [] = []
replace_node n (r ∷ rows) =
    let rest = replace_node n rows in if r.node.id == n.id then update_row n r ∷ rest else r ∷ rest

-- another row of the owner at the new path
unfoldable pub path_taken : Uuid → Node → List NodeRow → Bool
unfolding is_at
path_taken owner n rows =
    some_by (λ (r : NodeRow). not (r.node.id == n.id) && is_at owner n.path r) rows

abbrev pub update_if : Bool → Bool → Node → Db → Result (Unit {0}) × Db
update_if true known n d = (err already_exists, d)
update_if false true n d = (ok tt, record d { nodes = replace_node n d.nodes })
update_if false false n d = (err storage, d)

unfoldable pub update_found : Option NodeRow → Node → Db → Result (Unit {0}) × Db
unfolding has_parent path_taken
update_found none n d = (err not_found, d)
update_found (some old) n d =
    update_if (path_taken old.node.user_id n d.nodes) (has_parent n.parent_id d.nodes) n d

abbrev pub row_of : Uuid → List NodeRow → Option NodeRow
row_of id rows = find_first (λ (r : NodeRow). r.node.id == id) rows

unfoldable pub update_in : Node → Db → Result (Unit {0}) × Db
unfolding update_found replace_node
update_in n d = update_found (row_of n.id d.nodes) n d

-- DeleteNode, with the cascades of `parent_id`, `extents.node_id` and `wal_chunks.node_id`.
unfoldable pub cascade : List Uuid → Db → Db
unfolding is_in
cascade ids d = record d {
  nodes = keep (λ (r : NodeRow). not (is_in r.node.id ids)) d.nodes;
  extents = keep (λ (e : Extent). not (is_in e.node_id ids)) d.extents;
  wal_chunks = keep (λ (c : WalChunk). not (is_in c.node_id ids)) d.wal_chunks;
}

abbrev pub delete_if : Bool → List Uuid → Db → Result (Unit {0}) × Db
delete_if true ids d = (ok tt, cascade ids d)
delete_if false ids d = (err not_found, d)

unfoldable pub delete_from : Uuid → Db → Result (Unit {0}) × Db
unfolding cascade doomed
delete_from id d =
    delete_if (some_by (λ (r : NodeRow). r.node.id == id) d.nodes)
      (doomed (suc (length d.nodes)) (id ∷ []) d.nodes) d

abbrev pub found : Option NodeRow → Result Node
found none = err not_found
found (some r) = ok r.node

-- GetNodeByID, GetNodeByPath
unfoldable pub find_by_id : Uuid → List NodeRow → Result Node
find_by_id id rows = found (row_of id rows)

unfoldable pub find_by_path : Uuid → Bytes → List NodeRow → Result Node
unfolding is_at
find_by_path user_id path rows = found (find_first (is_at user_id path) rows)

abbrev pub node_of : NodeRow → Node
node_of r = r.node

-- ListSubtree. The code only reads each row by itself, so `ORDER BY path` is not modelled.
unfoldable pub subtree_rows : Uuid → Bytes → List NodeRow → List NodeRow
unfolding like escape_like
subtree_rows user_id prefix rows =
    keep
      (λ (r : NodeRow).
        r.node.user_id == user_id
        && (bytes_eq r.node.path prefix
            || like (escape_like prefix ++ b'/' ∷ b'%' ∷ []) r.node.path))
      rows

abbrev pub is_child : Uuid → Uuid → NodeRow → Bool
is_child user_id parent_id r =
    r.node.user_id == user_id && elim r.node.parent_id [ none ↦ false | some p ↦ p == parent_id ]

-- ListChildren; the order by name is not modelled either.
unfoldable pub children_rows : Uuid → Uuid → List NodeRow → List NodeRow
children_rows user_id parent_id rows = keep (is_child user_id parent_id) rows

-- SumSizeByUser
unfoldable pub size_by_user : Uuid → List NodeRow → ℕ
size_by_user user_id rows =
    sum_by (λ (r : NodeRow). r.node.size)
      (keep (λ (r : NodeRow). r.node.user_id == user_id && not r.node.is_dir) rows)

-- NodeRepository's methods
unfoldable pub create_node : Node → Exec (Unit {0})
create_node n = query (insert_node n)

unfoldable pub update_node : Node → Exec (Unit {0})
update_node n = query (update_in n)

unfoldable pub delete_node : Uuid → Exec (Unit {0})
delete_node id = query (delete_from id)

unfoldable pub get_by_id : Uuid → Exec Node
get_by_id id = query (λ d. (find_by_id id d.nodes, d))

unfoldable pub get_by_path : Uuid → Bytes → Exec Node
get_by_path user_id path = query (λ d. (find_by_path user_id path d.nodes, d))

unfoldable pub list_subtree : Uuid → Bytes → Exec (List Node)
list_subtree user_id prefix =
    query (λ d. (ok (map node_of (subtree_rows user_id prefix d.nodes)), d))

unfoldable pub list_children : Uuid → Uuid → Exec (List Node)
list_children user_id parent_id =
    query (λ d. (ok (map node_of (children_rows user_id parent_id d.nodes)), d))

unfoldable pub sum_size_by_user : Uuid → Exec ℕ
sum_size_by_user user_id = query (λ d. (ok (size_by_user user_id d.nodes), d))
