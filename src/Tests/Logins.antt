-- ===== src/Tests/Logins.antt =====
-- Logins, a token, and a throttled read.
use tgwebdav.Base.{
  List, Bool, ℕ, ◌+◌, ◌≤◌, ◌≡◌, refl, true, false, ltb, if◌then◌else◌, Option, none, some, [], ◌∷◌,
  length, length-take, take, ◌-◌, bytes_eq, arith,
}
use tgwebdav.Accounts.Auth.{AuthEnv, cut, authenticate_basic, authenticate_bearer}
use tgwebdav.Accounts.Bearer.{create_token-authenticate_bearer, admin_auth-is_admin}
use tgwebdav.Accounts.Limits.{
  RateLimiter, Bucket, bucket_of, allow, sweep, throttled_read, throttled_read_bounds, allow-others,
}
use tgwebdav.Accounts.Middleware.{
  Request, served, admin_auth, authenticate_admin, bearer_token, trim_space,
}
use tgwebdav.Accounts.Users.{UserEnv, create_token, draw}
use tgwebdav.Accounts.Verified.{IsSound, IsGranted, authenticate_basic-IsGranted}
use tgwebdav.Model.{Uuid, Bytes, User, ApiToken, Principal, is_admin_principal}
use tgwebdav.Repository.Tokens.{
  get_by_hash, find_hash, touch_last_used, create_token_row, insert_token,
}
use tgwebdav.Repository.Users.{get_user, find_user}
use tgwebdav.Store.{Error, ok, World, ◌>>=◌, attempt, ignore, query, get_now, new_id}
use tgwebdav.Tests.Files.{owner, tables, world}

-- a digest that tells all texts apart, and passwords kept as they are
abbrev auth : AuthEnv
auth = record {
  sha256_hex = λ text. text;
  verify_password = λ hash password. some (bytes_eq hash password);
}

abbrev admin : User
admin = record owner { id = 2; login = b'r' ∷ []; password_hash = b's' ∷ []; is_admin = true }

abbrev staffed : World
staffed = record world { db = record tables { users = owner ∷ admin ∷ [] } }

-- "r/u", the administrator as the user
abbrev as_owner : Bytes
as_owner = b'r' ∷ b'/' ∷ b'u' ∷ []

authenticate_basic-IsGranted_example :
    IsSound auth (authenticate_basic auth as_owner (b's' ∷ []) staffed).1.verified
    × ((p : Principal)
        → (authenticate_basic auth as_owner (b's' ∷ []) staffed).0 ≡ ok p
        → IsGranted auth staffed.db.users as_owner (b's' ∷ []) (cut as_owner) p)
authenticate_basic-IsGranted_example =
    authenticate_basic-IsGranted auth as_owner (b's' ∷ []) staffed (λ x y e. e)
      (((refl, tt), tt), (((refl, tt), (refl, tt)), tt)) tt

abbrev tokens : UserEnv
tokens = record {
  uuids = λ n. 300 + n;
  salted = λ n password. some password;
  random_hex = λ n. some (b't' ∷ n ∷ []);
  sha256_hex = λ text. text;
}

abbrev made_token : ApiToken
made_token = record {
  id = 301;
  user_id = 2;
  token_hash = b't' ∷ 0 ∷ [];
  name = [];
  created_at = 5;
  last_used_at = none;
}

program : Unit {0}
unfolding create_token draw get_user find_user create_token_row insert_token ◌>>=◌ attempt ignore
    query get_now new_id admin_auth authenticate_admin bearer_token trim_space authenticate_bearer
    get_by_hash find_hash touch_last_used is_admin_principal
program = tt

made : (create_token tokens 2 [] staffed).0 ≡ ok (b't' ∷ 0 ∷ [], made_token)
unfolding program
made = refl

outside : (create_token tokens 2 [] staffed).1.in_tx ≡ false
unfolding program
outside = refl

calm : (create_token tokens 2 [] staffed).1.faults ≡ []
unfolding program
calm = refl

create_token-authenticate_bearer_example :
    (u : User) × (find_user 2 (create_token tokens 2 [] staffed).1.db.users ≡ ok u)
    × ((authenticate_bearer auth (b't' ∷ 0 ∷ []) (create_token tokens 2 [] staffed).1).0 ≡ ok u)
create_token-authenticate_bearer_example =
    create_token-authenticate_bearer tokens auth 2 [] staffed (b't' ∷ 0 ∷ []) made_token
      (create_token tokens 2 [] staffed).1 refl made refl outside calm

-- "bearer  t"
abbrev request : Request
request = record {
  authorization = b'b' ∷ b'e' ∷ b'a' ∷ b'r' ∷ b'e' ∷ b'r' ∷ 32 ∷ 32 ∷ b't' ∷ [];
  basic = none;
}

abbrev enrolled : World
enrolled = record staffed {
  db = record staffed.db { api_tokens = record made_token { token_hash = b't' ∷ [] } ∷ [] };
}

let_in :
    (admin_auth auth request enrolled).0 ≡ ok (served (record { acting = admin; auth = admin }))
unfolding program
let_in = refl

admin_auth-is_admin_example : (admin.is_admin ≡ true) × (admin ≡ admin)
admin_auth-is_admin_example =
    admin_auth-is_admin auth request enrolled (record { acting = admin; auth = admin }) let_in

-- a reader of a body of four bytes
abbrev body : ℕ → Bytes × Option Error
body n = (take n (0 ∷ 0 ∷ 0 ∷ 0 ∷ []), none)

abbrev patient : ℕ → Option Error
patient n = none

throttled_read_bounds_example :
    (length (throttled_read 3 body patient 8).bytes ≤ 8)
    × (length (throttled_read 3 body patient 8).bytes ≤ 3)
    × ((throttled_read 3 body patient 8).waited ≡ (
        if ltb 0 (length (throttled_read 3 body patient 8).bytes)
        then some (length (throttled_read 3 body patient 8).bytes)
        else none))
throttled_read_bounds_example =
    throttled_read_bounds 3 body patient 8
      (λ n. omega (arith, length-take {A = ℕ} n (0 ∷ 0 ∷ 0 ∷ 0 ∷ [])))

-- a limiter that counts down and never refills
abbrev counting : RateLimiter
counting = record {
  Tokens = ℕ;
  new = λ rate burst. burst;
  allow = λ now left. if ltb 0 left then (true, left - 1) else (false, 0);
}

abbrev bucket : Uuid → ℕ → Bucket counting
bucket user left = record { user = user; limiter = left; rate_per_min = 60; last_seen = 3 }

abbrev buckets : List (Bucket counting)
buckets = bucket 2 9 ∷ bucket 1 4 ∷ []

allow-others_example :
    (bucket_of counting 2 (allow counting buckets 1 60 5).1 ≡ bucket_of counting 2 buckets)
    × (b : Bucket counting) × (bucket_of counting 1 (allow counting buckets 1 60 5).1 ≡ some b)
    × (bucket_of counting 1 (sweep counting (allow counting buckets 1 60 5).1 600000000006) ≡ none)
    × (b.rate_per_min ≡ 60)
    × (◌≡◌ {A = Bool × ℕ} ((allow counting buckets 1 60 5).0, b.limiter) (true, 3))
allow-others_example = allow-others counting buckets 1 2 60 5 600000000006 (omega arith) refl
