-- ===== src/Accounts/Middleware.antt =====
-- internal/handler/http/middleware/auth.go: what a request's credentials come to.
--
-- A request is its Authorization header and what `r.BasicAuth()`, of net/http, reads there. A response is
-- the principal for which the next handler runs, or the status that the middleware writes.
-- strings.EqualFold is compared on ASCII, as the prefix is.
use tgwebdav.Base.{
  ℕ, ◌+◌, Bool, true, false, ◌&&◌, ◌||◌, not, Option, none, some, [], ◌∷◌, ◌==◌, ltb, leb, length,
  take, drop, if◌then◌else◌,
}
use tgwebdav.Accounts.Auth.{AuthEnv, authenticate_basic, authenticate_bearer}
use tgwebdav.Model.{Bytes, User, Principal, is_admin_principal}
use tgwebdav.Store.{Result, ok, err, unauthorized, forbidden, Exec, pure, raise, attempt}

pub record Request : Type 0 where
  pub authorization : Bytes
  pub basic : Option (Bytes × Bytes)

pub data Response : Type 0 where
  served : Principal → Response
  unauthorized_401 : Response
  forbidden_403 : Response

abbrev pub lower : ℕ → ℕ
lower b = if leb b'A' b && leb b b'Z' then b + 32 else b

abbrev pub equal_fold : Bytes → Bytes → Bool
equal_fold [] [] = true
equal_fold [] (_ ∷ _) = false
equal_fold (_ ∷ _) [] = false
equal_fold (a ∷ xs) (b ∷ ys) = lower a == lower b && equal_fold xs ys

abbrev pub is_space : ℕ → Bool
is_space b = b == 32 || (leb 9 b && leb b 13)

abbrev pub trim_left : Bytes → Bytes
trim_left [] = []
trim_left (b ∷ bs) = let rest = trim_left bs in if is_space b then rest else b ∷ bs

-- drops the spaces at the end
abbrev pub trim_right : Bytes → Bytes
trim_right [] = []
trim_right (b ∷ bs) =
    let rest = trim_right bs in if is_space b && length rest == 0 then [] else b ∷ rest

-- strings.TrimSpace, of ASCII
unfoldable pub trim_space : Bytes → Bytes
trim_space bs = trim_right (trim_left bs)

abbrev pub bearer_prefix : Bytes
bearer_prefix = b'B' ∷ b'e' ∷ b'a' ∷ b'r' ∷ b'e' ∷ b'r' ∷ 32 ∷ []

abbrev pub if_any : Bytes → Option Bytes
if_any [] = none
if_any (b ∷ bs) = some (b ∷ bs)

-- bearerToken
unfoldable pub bearer_token : Bytes → Option Bytes
unfolding trim_space
bearer_token header =
    if ltb (length header) 7 || not (equal_fold (take 7 header) bearer_prefix)
    then none
    else if_any (trim_space (drop 7 header))

module _ (env : AuthEnv) where
  abbrev pub basic_answer : Result Principal → Exec Response
  basic_answer (ok p) = pure (served p)
  basic_answer (err forbidden) = pure forbidden_403
  basic_answer (err e) = pure unauthorized_401

  abbrev pub basic_with : Option (Bytes × Bytes) → Exec Response
  basic_with none = pure unauthorized_401
  basic_with (some (username, password)) =
      attempt (authenticate_basic env username password) basic_answer

  -- BasicAuth
  unfoldable pub basic_auth : Request → Exec Response
  basic_auth r = basic_with r.basic

  abbrev pub bearer_admin : Result User → Exec User
  bearer_admin (err e) = raise unauthorized
  bearer_admin (ok user) = if not user.is_admin then raise forbidden else pure user

  abbrev pub basic_admin : Result Principal → Exec User
  basic_admin (err forbidden) = raise forbidden
  basic_admin (err e) = raise unauthorized
  basic_admin (ok p) = if not (is_admin_principal p) then raise forbidden else pure p.auth

  abbrev pub admin_with : Option Bytes → Option (Bytes × Bytes) → Exec User
  admin_with (some token) basic = attempt (authenticate_bearer env token) bearer_admin
  admin_with none (some (username, password)) =
      attempt (authenticate_basic env username password) basic_admin
  admin_with none none = raise unauthorized

  -- authenticateAdmin
  unfoldable pub authenticate_admin : Request → Exec User
  unfolding bearer_token is_admin_principal
  authenticate_admin r = admin_with (bearer_token r.authorization) r.basic

  abbrev pub admin_answer : Result User → Exec Response
  admin_answer (ok user) = pure (served (record { acting = user; auth = user }))
  admin_answer (err forbidden) = pure forbidden_403
  admin_answer (err e) = pure unauthorized_401

  -- AdminAuth
  unfoldable pub admin_auth : Request → Exec Response
  unfolding authenticate_admin
  admin_auth r = attempt (authenticate_admin r) admin_answer
