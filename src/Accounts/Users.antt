-- ===== src/Accounts/Users.antt =====
-- internal/service/user.go: UserService.
--
-- HashPassword of password.go and `crypto/rand` are arguments: `salted` is the hash of a password under
-- the salt that a draw gives, `random_hex` the token that a draw gives. Either may fail.
use tgwebdav.Base.{ℕ, suc, Bool, not, Option, none, some, List, ◌==◌, some_by}
use tgwebdav.Model.{Uuid, Bytes, User, ApiToken}
use tgwebdav.Repository.Tokens.{create_token_row, list_by_user, delete_token_row}
use tgwebdav.Repository.Users.{create_user, update_user, delete_user, get_user, list_users}
use tgwebdav.Store.{ok, err, not_found, storage, Exec, pure, ◌>>=◌, ◌>>◌, fail_if, new_id, get_now}

pub record UserEnv : Type 0 where
  pub uuids : ℕ → Uuid
  pub salted : ℕ → Bytes → Option Bytes
  pub random_hex : ℕ → Option Bytes
  pub sha256_hex : Bytes → Bytes

-- CreateUserParams
pub record CreateUserParams : Type 0 where
  pub login : Bytes
  pub password : Bytes
  pub is_admin : Bool
  pub quota_bytes : ℕ
  pub bandwidth_bps : ℕ
  pub rate_per_min : ℕ

-- a draw of `crypto/rand`, and what is made of it
unfoldable pub draw : (ℕ → Option Bytes) → Exec Bytes
draw f w =
    (elim (f w.drawn) [ none ↦ err storage | some x ↦ ok x ], record w { drawn = suc w.drawn })

module _ (env : UserEnv) where
  -- Create
  unfoldable pub create : CreateUserParams → Exec User
  create p = do
    hash ← draw (λ n. env.salted n p.password)
    id ← new_id env.uuids
    now ← get_now
    let u : User = record {
      id = id;
      login = p.login;
      password_hash = hash;
      is_admin = p.is_admin;
      quota_bytes = p.quota_bytes;
      bandwidth_bps = p.bandwidth_bps;
      rate_per_min = p.rate_per_min;
      created_at = now;
    }
    create_user u
    pure u

  -- SetPassword
  unfoldable pub set_password : Uuid → Bytes → Exec (Unit {0})
  set_password id new_password = do
    u ← get_user id
    hash ← draw (λ n. env.salted n new_password)
    update_user (record u { password_hash = hash })

  -- ListTokens
  unfoldable pub list_tokens : Uuid → Exec (List ApiToken)
  list_tokens user_id = get_user user_id >> list_by_user user_id

  -- CreateToken; the plaintext, and the row
  unfoldable pub create_token : Uuid → Bytes → Exec (Bytes × ApiToken)
  create_token user_id name = do
    _ ← get_user user_id
    plaintext ← draw env.random_hex
    id ← new_id env.uuids
    now ← get_now
    let tok : ApiToken = record {
      id = id;
      user_id = user_id;
      token_hash = env.sha256_hex plaintext;
      name = name;
      created_at = now;
      last_used_at = none;
    }
    create_token_row tok
    pure (plaintext, tok)

-- List, Get, Delete
unfoldable pub list : Exec (List User)
list = list_users

unfoldable pub get : Uuid → Exec User
get id = get_user id

unfoldable pub delete : Uuid → Exec (Unit {0})
delete id = delete_user id

-- DeleteToken
unfoldable pub delete_token : Uuid → Uuid → Exec (Unit {0})
delete_token user_id token_id = do
  tokens ← list_by_user user_id
  fail_if (not (some_by (λ (t : ApiToken). t.id == token_id) tokens)) not_found
  delete_token_row token_id
