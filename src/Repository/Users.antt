-- ===== src/Repository/Users.antt =====
-- internal/repository/user.go and the queries of db/query/user.sql.
use tgwebdav.Base.{
  ℕ, Bool, not, ◌&&◌, ◌||◌, Option, none, some, List, [], ◌∷◌, ◌++◌, map, ◌==◌, bytes_eq,
  if◌then◌else◌, keep, some_by, find_first, update_by, length, suc,
}
use tgwebdav.Model.{Uuid, Bytes, User, ApiToken}
use tgwebdav.Repository.Nodes.{cascade}
use tgwebdav.Repository.Nodes.Cascade.{doomed}
use tgwebdav.Repository.Order.{order_by}
use tgwebdav.Store.{Result, ok, err, not_found, already_exists, Db, Exec, NodeRow, query}

abbrev pub user_is : Uuid → User → Bool
user_is id u = u.id == id

abbrev pub has_login : Bytes → User → Bool
has_login login u = bytes_eq u.login login

-- CreateUser; the id and the login are unique
unfoldable pub insert_user : User → Db → Result (Unit {0}) × Db
insert_user u d =
    if some_by (λ r. user_is u.id r || has_login u.login r) d.users
    then (err already_exists, d)
    else (ok tt, record d { users = d.users ++ u ∷ [] })

-- The columns that UpdateUser sets.
unfoldable pub update_user_row : User → User → User
update_user_row u old = record u { created_at = old.created_at }

-- UpdateUser
unfoldable pub update_user_in : User → Db → Result (Unit {0}) × Db
unfolding update_user_row
update_user_in u d =
    if not (some_by (user_is u.id) d.users)
    then (err not_found, d)
    else if some_by (λ r. not (user_is u.id r) && has_login u.login r) d.users
    then (err already_exists, d)
    else (ok tt, record d { users = update_by (user_is u.id) (update_user_row u) d.users })

abbrev pub ids_of : Uuid → List NodeRow → List Uuid
ids_of user rows =
    map (λ (r : NodeRow). r.node.id) (keep (λ (r : NodeRow). r.node.user_id == user) rows)

-- DeleteUser, with the cascades of `api_tokens.user_id` and `nodes.user_id`
unfoldable pub delete_user_from : Uuid → Db → Result (Unit {0}) × Db
unfolding cascade doomed
delete_user_from id d =
    if some_by (user_is id) d.users
    then (
      ok tt,
      cascade (doomed (suc (length d.nodes)) (ids_of id d.nodes) d.nodes) (record d {
        users = keep (λ u. not (user_is id u)) d.users;
        api_tokens = keep (λ (t : ApiToken). not (t.user_id == id)) d.api_tokens;
      }),
    )
    else (err not_found, d)

abbrev pub found_user : Option User → Result User
found_user none = err not_found
found_user (some u) = ok u

-- GetUserByID, GetUserByLogin
unfoldable pub find_user : Uuid → List User → Result User
find_user id us = found_user (find_first (user_is id) us)

unfoldable pub find_login : Bytes → List User → Result User
find_login login us = found_user (find_first (has_login login) us)

-- Create, Update, Delete, GetByID, GetByLogin, List, Count
unfoldable pub create_user : User → Exec (Unit {0})
create_user u = query (insert_user u)

unfoldable pub update_user : User → Exec (Unit {0})
update_user u = query (update_user_in u)

unfoldable pub delete_user : Uuid → Exec (Unit {0})
delete_user id = query (delete_user_from id)

unfoldable pub get_user : Uuid → Exec User
get_user id = query (λ d. (find_user id d.users, d))

unfoldable pub get_by_login : Bytes → Exec User
get_by_login login = query (λ d. (find_login login d.users, d))

unfoldable pub list_users : Exec (List User)
list_users = query (λ d. (ok (order_by (λ (u : User). u.created_at) d.users), d))

unfoldable pub count_users : Exec ℕ
count_users = query (λ d. (ok (length d.users), d))
