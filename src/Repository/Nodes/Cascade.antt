-- ===== src/Repository/Nodes/Cascade.antt =====
-- ON DELETE CASCADE over `parent_id`: the ids that go with a deleted row.
use tgwebdav.Base.{ℕ, zero, suc, Bool, false, not, none, some, List, ◌++◌, map, ◌==◌, keep, some_by}
use tgwebdav.Model.{Uuid}
use tgwebdav.Store.{NodeRow}

unfoldable pub is_in : Uuid → List Uuid → Bool
is_in id ids = some_by (λ k. k == id) ids

unfoldable pub parent_in : List Uuid → NodeRow → Bool
unfolding is_in
parent_in ids r = elim r.node.parent_id [ none ↦ false | some p ↦ is_in p ids ]

-- A round deletes the rows whose parent went in the round before. Each round takes rows away, so
-- there are no more rounds than rows.
unfoldable pub doomed : ℕ → List Uuid → List NodeRow → List Uuid
unfolding parent_in
doomed zero ids rows = ids
doomed (suc rounds) ids rows =
    ids
    ++ doomed rounds (map (λ (r : NodeRow). r.node.id) (keep (parent_in ids) rows))
        (keep (λ r. not (parent_in ids r)) rows)
