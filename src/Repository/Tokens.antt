-- ===== src/Repository/Tokens.antt =====
-- internal/repository/token.go and the queries of db/query/token.sql.
use tgwebdav.Base.{
  Bool, not, ◌||◌, Option, none, some, List, [], ◌∷◌, ◌++◌, ◌==◌, bytes_eq, if◌then◌else◌, keep,
  some_by, find_first, update_by,
}
use tgwebdav.Model.{Uuid, Instant, Bytes, User, ApiToken}
use tgwebdav.Repository.Order.{order_desc}
use tgwebdav.Store.{Result, ok, err, not_found, already_exists, storage, Db, Exec, query}

abbrev pub token_is : Uuid → ApiToken → Bool
token_is id t = t.id == id

abbrev pub has_hash : Bytes → ApiToken → Bool
has_hash hash t = bytes_eq t.token_hash hash

-- CreateAPIToken: the id and the hash are unique, the owner is a user
unfoldable pub insert_token : ApiToken → Db → Result (Unit {0}) × Db
insert_token t d =
    if some_by (λ r. token_is t.id r || has_hash t.token_hash r) d.api_tokens
    then (err already_exists, d)
    else if some_by (λ (u : User). u.id == t.user_id) d.users
    then (ok tt, record d { api_tokens = d.api_tokens ++ t ∷ [] })
    else (err storage, d)

abbrev pub found_token : Option ApiToken → Result ApiToken
found_token none = err not_found
found_token (some t) = ok t

-- GetAPITokenByHash
unfoldable pub find_hash : Bytes → List ApiToken → Result ApiToken
find_hash hash ts = found_token (find_first (has_hash hash) ts)

-- ListAPITokensByUser
unfoldable pub tokens_of : Uuid → List ApiToken → List ApiToken
tokens_of user ts =
    order_desc (λ (t : ApiToken). t.created_at) (keep (λ (t : ApiToken). t.user_id == user) ts)

-- DeleteAPIToken
unfoldable pub delete_token_from : Uuid → Db → Result (Unit {0}) × Db
delete_token_from id d =
    if some_by (token_is id) d.api_tokens
    then (ok tt, record d { api_tokens = keep (λ t. not (token_is id t)) d.api_tokens })
    else (err not_found, d)

-- TouchAPITokenLastUsed
unfoldable pub touch_in : Uuid → Instant → Db → Result (Unit {0}) × Db
touch_in id at d =
    if some_by (token_is id) d.api_tokens
    then (
      ok tt,
      record d {
        api_tokens =
            update_by (token_is id) (λ t. record t { last_used_at = some at }) d.api_tokens;
      },
    )
    else (err not_found, d)

-- Create, GetByHash, ListByUser, Delete, TouchLastUsed
unfoldable pub create_token_row : ApiToken → Exec (Unit {0})
create_token_row t = query (insert_token t)

unfoldable pub get_by_hash : Bytes → Exec ApiToken
get_by_hash hash = query (λ d. (find_hash hash d.api_tokens, d))

unfoldable pub list_by_user : Uuid → Exec (List ApiToken)
list_by_user user = query (λ d. (ok (tokens_of user d.api_tokens), d))

unfoldable pub delete_token_row : Uuid → Exec (Unit {0})
delete_token_row id = query (delete_token_from id)

unfoldable pub touch_last_used : Uuid → Instant → Exec (Unit {0})
touch_last_used id at = query (touch_in id at)
