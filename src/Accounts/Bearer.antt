-- ===== src/Accounts/Bearer.antt =====
-- Bearer tokens from their creation to their use, and whom the Management API lets in.
use tgwebdav.Base.{
  ℕ, ◌≡◌, refl, ap, sym, ◌∙◌, subst, Bool, true, false, not, ◌||◌, Option, none, some, List, [],
  ◌∷◌, ◌++◌, ◌==◌, bytes_eq, bytes_eq_refl, some_by, find_first, Bool-cases, inl, inr,
}
use tgwebdav.Accounts.Auth.{AuthEnv, authenticate_bearer}
use tgwebdav.Accounts.Middleware.{
  Request, Response, served, unauthorized_401, forbidden_403, bearer_admin, basic_admin, admin_with,
  authenticate_admin, admin_answer, admin_auth, bearer_token,
}
use tgwebdav.Accounts.Users.{UserEnv, create_token, draw}
use tgwebdav.Model.{Uuid, Bytes, User, ApiToken, Principal, is_admin_principal}
use tgwebdav.Repository.Tokens.{
  token_is, has_hash, insert_token, found_token, find_hash, create_token_row, get_by_hash,
  touch_last_used,
}
use tgwebdav.Repository.Users.{find_user, get_user}
use tgwebdav.Store.{
  Error, Result, ok, err, forbidden, Db, World, Exec, ◌>>=◌, attempt, query, ignore, get_now,
}
use tgwebdav.Store.Always.{Always, Any, Always-pure, Always-raise, Always-if, Always-attempt}
use tgwebdav.Store.Rules.{Gives, Gives-bind, Gives-pure, Gives-query, Gives-new_id, Gives-get_now}

module _ (env : UserEnv) (user_id : Uuid) where
  abbrev HasUser : Db → Type 0
  HasUser d = (u : User) × (find_user user_id d.users ≡ ok u)

  Gives-draw : (f : ℕ → Option Bytes) → Gives HasUser (draw f) (λ _. HasUser)
  unfolding draw
  Gives-draw f = record { at = λ w a p e. p }

  -- the row that the hash finds is the one that was created
  abbrev Holds : Bytes × ApiToken → Db → Type 0
  Holds (plaintext, tok) d =
      HasUser d
      × (find_hash (env.sha256_hex plaintext) d.api_tokens ≡ ok tok)
      × (tok.user_id ≡ user_id)

  find_first-append :
      (h : Bytes) (t : ApiToken) (ts : List ApiToken) (id : Uuid)
      → bytes_eq t.token_hash h ≡ true
      → some_by (λ r. token_is id r || has_hash h r) ts ≡ false
      → find_first (has_hash h) (ts ++ t ∷ []) ≡ some t
  find_first-append h t [] id same none_there = rw same refl
  find_first-append h t (x ∷ xs) id same none_there =
      let here : has_hash h x ≡ false = left (token_is id x) (has_hash h x) _ none_there in
      rw here
        (find_first-append h t xs id same (right (token_is id x || has_hash h x) _ none_there))
    where
      left : (a b c : Bool) → ((a || b) || c) ≡ false → b ≡ false
      left true b c e = cc e
      left false true c e = cc e
      left false false c e = refl

      right : (a c : Bool) → (a || c) ≡ false → c ≡ false
      right true c e = cc e
      right false c e = e

  Gives-create_row :
      (plaintext : Bytes) (tok : ApiToken)
      → tok.user_id ≡ user_id
      → tok.token_hash ≡ env.sha256_hex plaintext
      → Gives HasUser (create_token_row tok) (λ _. Holds (plaintext, tok))
  unfolding create_token_row insert_token find_hash
  Gives-create_row plaintext tok mine hashed = Gives-query _ (λ d a p e.
      elim (Bool-cases
        (some_by (λ r. token_is tok.id r || has_hash tok.token_hash r) d.api_tokens)) [
          | inl t ↦ cc (rw t at e)
          | inr f ↦ elim (Bool-cases (some_by (λ (u : User). u.id == tok.user_id) d.users)) [
            | inl owner ↦
                rw (f, owner)
                  (
                    p,
                    ap found_token (
                        find_first-append (env.sha256_hex plaintext) tok d.api_tokens tok.id
                          (ap (λ h. bytes_eq h (env.sha256_hex plaintext)) hashed
                            ∙ bytes_eq_refl (env.sha256_hex plaintext))
                          (ap (λ h. some_by (λ r. token_is tok.id r || has_hash h r) d.api_tokens)
                              (sym hashed)
                            ∙ f)),
                    mine,
                  )
            | inr n ↦ cc (rw (f, n) at e)
          ]
        ])

  Gives-create_token : (name : Bytes) → Gives (λ _. Unit {0}) (create_token env user_id name) Holds
  unfolding create_token get_user
  Gives-create_token name =
      Gives-bind (λ _. HasUser) _ _ (Gives-query _ (λ d u p e. (u, e)))
        (λ _.
          Gives-bind (λ _. HasUser) _ _ (Gives-draw env.random_hex)
            (λ plaintext.
              Gives-bind (λ _. HasUser) _ _ (Gives-new_id env.uuids)
                (λ id.
                  Gives-bind (λ _. HasUser) _ _ Gives-get_now
                    (λ now.
                      let tok : ApiToken = record {
                        id = id;
                        user_id = user_id;
                        token_hash = env.sha256_hex plaintext;
                        name = name;
                        created_at = now;
                        last_used_at = none;
                      } in
                      Gives-bind (λ _. Holds (plaintext, tok)) _ _
                        (Gives-create_row plaintext tok refl refl)
                        (λ _. Gives-pure (plaintext, tok) (λ d h. h))))))

authenticates :
    (auth : AuthEnv) (token : Bytes) (tok : ApiToken) (u : User) (w : World)
    → w.in_tx ≡ false
    → w.faults ≡ []
    → find_hash (auth.sha256_hex token) w.db.api_tokens ≡ ok tok
    → find_user tok.user_id w.db.users ≡ ok u
    → (authenticate_bearer auth token w).0 ≡ ok u
unfolding authenticate_bearer ◌>>=◌ attempt query ignore get_by_hash get_user touch_last_used
    get_now
authenticates auth token tok u w outside calm hash owner = rw (calm, outside, hash, owner) refl

-- A token that CreateToken returned authenticates its owner, a user of the table, outside a transaction,
-- while the tables are as CreateToken left them and no call fails, where both services digest alike.
pub create_token-authenticate_bearer :
    (env : UserEnv) (auth : AuthEnv) (user_id : Uuid) (name : Bytes) (w : World) (plaintext : Bytes)
    (tok : ApiToken) (w' : World)
    → auth.sha256_hex ≡ env.sha256_hex
    → (create_token env user_id name w).0 ≡ ok (plaintext, tok)
    → w'.db ≡ (create_token env user_id name w).1.db
    → w'.in_tx ≡ false
    → w'.faults ≡ []
    → (u : User) × (find_user user_id w'.db.users ≡ ok u)
      × ((authenticate_bearer auth plaintext w').0 ≡ ok u)
create_token-authenticate_bearer env auth user_id name w plaintext tok w' alike made kept outside
      calm =
    let h = (Gives-create_token env user_id name).at w (plaintext, tok) tt made in
    let (known, found, mine) = subst (Holds env user_id (plaintext, tok)) (sym kept) h in
    let (u, owner) = known in
    (
      u,
      owner,
      authenticates auth plaintext tok u w' outside calm
          (ap (λ f. find_hash (f plaintext) w'.db.api_tokens) alike ∙ found)
          (ap (λ k. find_user k w'.db.users) mine ∙ owner),
    )

module _ (env : AuthEnv) where
  abbrev Ok : {A : Type 0} → Exec A → (A → Type 0) → Type 0
  Ok m Q = Always (λ _. Unit {0}) (λ _ _ _. Unit {0}) m Q

  abbrev IsAdmin : User → Type 0
  IsAdmin u = u.is_admin ≡ true

  -- An action of which nothing is asked.
  free : {A : Type 0} (m : Exec A) → Ok m Any
  free m = record { at = λ w d c. (tt, tt, λ a e. tt) }

  not-not : (b : Bool) → not b ≡ false → b ≡ true
  not-not true h = refl
  not-not false h = cc h

  Ok-bearer : (r : Result User) → Ok (bearer_admin env r) IsAdmin
  Ok-bearer (err e) = Always-raise _
  Ok-bearer (ok u) =
      Always-if (not u.is_admin) _ _ (λ _. Always-raise _)
        (λ f. Always-pure u (not-not u.is_admin f))

  Ok-basic : (r : Result Principal) → Ok (basic_admin env r) IsAdmin
  unfolding is_admin_principal
  Ok-basic (err forbidden) = Always-raise _
  Ok-basic (err e) = Always-raise _
  Ok-basic (ok p) =
      Always-if (not p.auth.is_admin) _ _ (λ _. Always-raise _)
        (λ f. Always-pure p.auth (not-not p.auth.is_admin f))

  Ok-with :
      (token : Option Bytes) (basic : Option (Bytes × Bytes))
      → Ok (admin_with env token basic) IsAdmin
  Ok-with (some token) basic =
      Always-attempt Any _ _ (free _) (λ u _. Ok-bearer (ok u)) (λ e. Ok-bearer (err e))
  Ok-with none (some (username, password)) =
      Always-attempt Any _ _ (free _) (λ p _. Ok-basic (ok p)) (λ e. Ok-basic (err e))
  Ok-with none none = Always-raise _

  abbrev IsServed : Response → Type 0
  IsServed (served p) = IsAdmin p.auth × (p.acting ≡ p.auth)
  IsServed unauthorized_401 = Unit
  IsServed forbidden_403 = Unit

  Ok-answer : (e : Error) → Ok (admin_answer env (err e)) IsServed
  Ok-answer forbidden = Always-pure _ tt
  Ok-answer e = Always-pure _ tt

  Ok-admin_auth : (r : Request) → Ok (admin_auth env r) IsServed
  unfolding admin_auth authenticate_admin
  Ok-admin_auth r =
      Always-attempt IsAdmin _ _ (Ok-with (bearer_token r.authorization) r.basic)
        (λ u h. Always-pure _ (h, refl)) Ok-answer

-- Whatever the credentials, the caches and the failures: the next handler of the Management API runs
-- only for an administrator, acting for themselves.
pub admin_auth-is_admin :
    (env : AuthEnv) (r : Request) (w : World) (p : Principal)
    → (admin_auth env r w).0 ≡ ok (served p)
    → (p.auth.is_admin ≡ true) × (p.acting ≡ p.auth)
admin_auth-is_admin env r w p h = ((Ok-admin_auth env r).at w tt tt).2 (served p) h
