-- ===== src/Accounts/Auth.antt =====
-- internal/service/auth.go: AuthService.
--
-- SHA-256 in hexadecimal and VerifyPassword of password.go, which runs argon2id, are arguments; the latter
-- answers `none` where the stored hash is malformed. The verification of a decoy, whose result the code
-- discards, is left out. Durations are in nanoseconds.
use tgwebdav.Base.{
  ℕ, ◌+◌, Bool, true, false, not, Option, none, some, List, [], ◌∷◌, ◌++◌, ◌==◌, ltb, length,
  bytes_eq, if◌then◌else◌, keep, find_first,
}
use tgwebdav.Model.{Instant, Bytes, User, Principal}
use tgwebdav.Repository.Tokens.{get_by_hash, touch_last_used}
use tgwebdav.Repository.Users.{get_by_login, get_user}
use tgwebdav.Store.{
  Result, ok, err, not_found, unauthorized, forbidden, World, Exec, pure, raise, ◌>>=◌, ◌>>◌,
  attempt, ignore, fail_if, get_now,
}

pub record AuthEnv : Type 0 where
  pub sha256_hex : Bytes → Bytes
  pub verify_password : Bytes → Bytes → Option Bool

-- verifyCacheTTL
abbrev pub verify_cache_ttl : ℕ
verify_cache_ttl = 30000000000

-- strings.Cut(username, "/")
unfoldable pub cut : Bytes → Option (Bytes × Bytes)
cut [] = none
cut (b ∷ bs) =
    let rest = cut bs in
    if b == b'/' then some ([], bs) else elim rest [ none ↦ none | some (l, r) ↦ some (b ∷ l, r) ]

-- the entry of a key in `vc`
abbrev pub entry_for : Bytes → List (Bytes × Instant) → Option (Bytes × Instant)
entry_for key vc = find_first (λ (e : Bytes × Instant). bytes_eq e.0 key) vc

-- `delete(s.vc, key)`
abbrev pub dropped : Bytes → List (Bytes × Instant) → List (Bytes × Instant)
dropped key vc = keep (λ (e : Bytes × Instant). not (bytes_eq e.0 key)) vc

abbrev pub still_valid : Option (Bytes × Instant) → Bytes → World → Result Bool × World
still_valid none key w = (ok false, w)
still_valid (some e) key w =
    if ltb e.1 w.now
    then (ok false, record w { verified = dropped key w.verified })
    else (ok true, w)

-- verifiedRecently
unfoldable pub verified_recently : Bytes → Exec Bool
verified_recently key w = still_valid (entry_for key w.verified) key w

-- markVerified
unfoldable pub mark_verified : Bytes → Exec (Unit {0})
mark_verified key w =
    let kept =
      if ltb 4096 (length w.verified)
      then keep (λ (e : Bytes × Instant). not (ltb e.1 w.now)) w.verified
      else w.verified in
    (ok tt, record w { verified = (key, w.now + verify_cache_ttl) ∷ dropped key kept })

module _ (env : AuthEnv) where
  -- the text that verifyCacheKey digests
  abbrev pub key_text : Bytes → Bytes → Bytes → Bytes
  key_text login hash password = login ++ 0 ∷ (hash ++ 0 ∷ password)

  -- verifyCacheKey
  unfoldable pub verify_cache_key : Bytes → Bytes → Bytes → Bytes
  verify_cache_key login hash password = env.sha256_hex (key_text login hash password)

  abbrev pub if_correct : User → Bytes → Option Bool → Exec User
  if_correct user key none = raise unauthorized
  if_correct user key (some false) = raise unauthorized
  if_correct user key (some true) = mark_verified key >> pure user

  abbrev pub check : User → Bytes → Bytes → Bool → Exec User
  check user key password true = pure user
  check user key password false =
      if_correct user key (env.verify_password user.password_hash password)

  abbrev pub verify_found : Bytes → Bytes → Result User → Exec User
  verify_found login password (err not_found) = raise unauthorized
  verify_found login password (err e) = raise e
  verify_found login password (ok user) = do
    recent ← verified_recently (verify_cache_key login user.password_hash password)
    check user (verify_cache_key login user.password_hash password) password recent

  -- lookupAndVerify
  unfoldable pub lookup_and_verify : Bytes → Bytes → Exec User
  unfolding verify_cache_key verified_recently mark_verified
  lookup_and_verify login password = attempt (get_by_login login) (verify_found login password)

  abbrev pub as_target : User → Result User → Exec Principal
  as_target admin (err not_found) = raise unauthorized
  as_target admin (err e) = raise e
  as_target admin (ok target) = pure (record { acting = target; auth = admin })

  -- authenticateImpersonation
  unfoldable pub authenticate_impersonation : Bytes → Bytes → Bytes → Exec Principal
  unfolding lookup_and_verify
  authenticate_impersonation admin_login target_login password = do
    admin ← lookup_and_verify admin_login password
    fail_if (not admin.is_admin) forbidden
    attempt (get_by_login target_login) (as_target admin)

  abbrev pub authenticate_cut : Option (Bytes × Bytes) → Bytes → Bytes → Exec Principal
  authenticate_cut (some (admin, target)) username password =
      authenticate_impersonation admin target password
  authenticate_cut none username password = do
    user ← lookup_and_verify username password
    pure (record { acting = user; auth = user })

  -- AuthenticateBasic
  unfoldable pub authenticate_basic : Bytes → Bytes → Exec Principal
  unfolding cut lookup_and_verify authenticate_impersonation
  authenticate_basic username password = authenticate_cut (cut username) username password

  -- `errors.Is(err, repository.ErrNotFound)` turned into ErrUnauthorized
  abbrev pub or_unauthorized : {A : Type 0} → Result A → Exec A
  or_unauthorized (ok a) = pure a
  or_unauthorized (err not_found) = raise unauthorized
  or_unauthorized (err e) = raise e

  -- AuthenticateBearer
  unfoldable pub authenticate_bearer : Bytes → Exec User
  authenticate_bearer token = do
    tok ← attempt (get_by_hash (env.sha256_hex token)) or_unauthorized
    user ← attempt (get_user tok.user_id) or_unauthorized
    now ← get_now
    ignore (touch_last_used tok.id now)
    pure user
