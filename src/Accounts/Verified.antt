-- ===== src/Accounts/Verified.antt =====
-- Whom AuthenticateBasic lets in, cached verifications included.
use tgwebdav.Base.{
  ℕ, ◌≡◌, refl, ap, sym, ◌∙◌, subst, Bool, true, false, not, ◌==◌, Option, none, some, List, [],
  ◌∷◌, ◌++◌, ltb, length, bytes_eq, bytes_eq→eq, find_first, find_first-test, All, All-keep,
  Bool-cases, Option-cases, inl, inr, arith, if_elim,
}
use tgwebdav.BlobCache.{Cache}
use tgwebdav.Accounts.Auth.{
  AuthEnv, cut, entry_for, still_valid, verified_recently, mark_verified, verify_cache_key,
  if_correct, check, verify_found, lookup_and_verify, as_target, authenticate_impersonation,
  authenticate_cut, authenticate_basic,
}
use tgwebdav.Model.{Instant, Bytes, User, Principal}
use tgwebdav.Repository.Users.{has_login, find_login, get_by_login}
use tgwebdav.Store.{Error, Result, ok, err, not_found, Db, World, Exec, Reply}
use tgwebdav.Store.Always.{
  Always, After, Any, Always-pure, Always-raise, Always-query, Always-bind, Always-attempt,
  Always-fail_if,
}

-- a text that the database can hold: no byte is 0
abbrev pub IsText : Bytes → Type 0
IsText bs = All (λ b. (b == 0) ≡ false) bs

abbrev pub AreTexts : List User → Type 0
AreTexts us = All (λ (u : User). IsText u.login × IsText u.password_hash) us

-- A text, a 0 and what follows can be told apart.
cut_text : (a b x y : Bytes) → IsText a → IsText b → a ++ 0 ∷ x ≡ b ++ 0 ∷ y → (a ≡ b) × (x ≡ y)
cut_text [] [] x y s t e = (refl, cc e)
cut_text [] (b ∷ bs) x y s t e = let z : ◌≡◌ {A = ℕ} 0 b = cc e in absurd (ground (arith, t, z))
cut_text (a ∷ as') [] x y s t e = let z : ◌≡◌ {A = ℕ} a 0 = cc e in absurd (ground (arith, s, z))
cut_text (a ∷ as') (b ∷ bs) x y s t e =
    let k = cut_text as' bs x y s.1 t.1 (cc e) in
    let z : ◌≡◌ {A = ℕ} a b = cc e in (cc (z, k.0), k.1)

module _ (env : AuthEnv) where
  -- A password was verified against a stored hash under this key.
  abbrev pub IsEarned : Bytes → Type 0
  IsEarned key =
      (login : Bytes) × (hash : Bytes) × (password : Bytes) × IsText login
      × IsText hash
      × (key ≡ verify_cache_key env login hash password)
      × (env.verify_password hash password ≡ some true)

  -- Every entry of the verification cache was earned.
  abbrev pub IsSound : List (Bytes × Instant) → Type 0
  IsSound vc = All (λ (e : Bytes × Instant). IsEarned e.0) vc

  -- The user with this login, whose stored hash the password matches.
  abbrev pub Matches : List User → Bytes → Bytes → User → Type 0
  Matches us login password u =
      (find_login login us ≡ ok u) × (env.verify_password u.password_hash password ≡ some true)

  -- Whom a user name, cut at its first slash, stands for.
  abbrev pub IsGranted : List User → Bytes → Bytes → Option (Bytes × Bytes) → Principal → Type 0
  IsGranted us username password none p = Matches us username password p.auth × (p.acting ≡ p.auth)
  IsGranted us username password (some (admin, target)) p =
      Matches us admin password p.auth
      × (p.auth.is_admin ≡ true)
      × (find_login target us ≡ ok p.acting)

  module _ (distinct : (x y : Bytes) → env.sha256_hex x ≡ env.sha256_hex y → x ≡ y) (us : List User)
      (texts : AreTexts us) where
    abbrev Users : Db → Type 0
    Users d = d.users ≡ us

    abbrev Cached : Cache → List Reply → List (Bytes × Instant) → Type 0
    Cached c rs vc = IsSound vc

    abbrev Keeps : {A : Type 0} → Exec A → (A → Type 0) → Type 0
    Keeps m Q = Always Users Cached m Q

    -- A key that a login, a hash and a password have was earned by this hash and this password.
    earned_by :
        (login hash password : Bytes)
        → IsText login
        → IsText hash
        → IsEarned (verify_cache_key env login hash password)
        → env.verify_password hash password ≡ some true
    unfolding verify_cache_key
    earned_by login hash password tl th (l, h, p, sl, sh, same, good) =
        let text = distinct _ _ same in
        let outer = cut_text login l (hash ++ 0 ∷ password) (h ++ 0 ∷ p) tl sl text in
        let inner = cut_text hash h password p th sh outer.1 in
        ap (λ x. env.verify_password x password) inner.0 ∙ ap (env.verify_password h) inner.1 ∙ good

    All-found :
        (P : Bytes × Instant → Type 0) (vc : List (Bytes × Instant)) (q : Bytes × Instant → Bool)
        (e : Bytes × Instant)
        → All P vc
        → find_first q vc ≡ some e
        → P e
    All-found P [] q e h f = cc f
    All-found P (x ∷ xs) q e h f = elim (Bool-cases (q x)) [
      | inl t ↦ let same : some x ≡ some e = rw t at f in let s : x ≡ e = cc same in subst P s h.0
      | inr n ↦ All-found P xs q e h.1 (rw n at f)
    ]

    Keeps-verified_recently :
        (key : Bytes) → Keeps (verified_recently key) (λ b. b ≡ true → IsEarned key)
    unfolding verified_recently
    Keeps-verified_recently key = record {
      at = λ w d c. go (entry_for key w.verified) w d c (λ e f. (
        All-found (λ x. IsEarned x.0) w.verified (λ x. bytes_eq x.0 key) e c f,
        bytes_eq→eq e.0 key
            (find_first-test (λ (x : Bytes × Instant). bytes_eq x.0 key) w.verified e f),
      ));
    }
      where
        go :
            (o : Option (Bytes × Instant)) (w : World)
            → Users w.db
            → IsSound w.verified
            → ((e : Bytes × Instant) → o ≡ some e → IsEarned e.0 × (e.0 ≡ key))
            → After Users Cached (still_valid o key w) (λ b. b ≡ true → IsEarned key)
        go none w d c h = (d, c, λ a e t. cc (e, t))
        go (some x) w d c h = elim (Bool-cases (ltb x.1 w.now)) [
          | inl t ↦ rw t (
            d,
            All-keep (λ y. IsEarned y.0) (λ y. not (bytes_eq y.0 key)) w.verified c,
            λ a e u. cc (e, u),
          )
          | inr f ↦ rw f (d, c, λ a e u. subst IsEarned (h x refl).1 (h x refl).0)
        ]

    Keeps-mark_verified : (key : Bytes) → IsEarned key → Keeps (mark_verified key) Any
    unfolding mark_verified
    Keeps-mark_verified key earned = record {
      at = λ w d c. (
        d,
        (
          earned,
          All-keep (λ y. IsEarned y.0) (λ y. not (bytes_eq y.0 key)) _
              (if_elim IsSound (ltb 4096 (length w.verified)) _ _
                (λ _. All-keep (λ y. IsEarned y.0) (λ y. not (ltb y.1 w.now)) w.verified c)
                (λ _. c)),
        ),
        λ a e. tt,
      );
    }

    All-Has :
        (P : User → Type 0) (vs : List User) (p : User → Bool) (u : User)
        → All P vs
        → find_first p vs ≡ some u
        → P u
    All-Has P [] p u h f = cc f
    All-Has P (x ∷ xs) p u h f = elim (Bool-cases (p x)) [
      | inl t ↦ let same : some x ≡ some u = rw t at f in let s : x ≡ u = cc same in subst P s h.0
      | inr n ↦ All-Has P xs p u h.1 (rw n at f)
    ]

    -- A user that was found by a login has that login, and texts.
    found_texts :
        (login : Bytes) (u : User)
        → find_login login us ≡ ok u
        → (u.login ≡ login) × IsText u.login × IsText u.password_hash
    unfolding find_login
    found_texts login u h = elim (Option-cases (find_first (has_login login) us)) [
      | inl e ↦ cc (rw e at h)
      | inr (x, e) ↦
          let there : ok x ≡ ok u = rw e at h in
          let s : x ≡ u = cc there in
          let f : find_first (has_login login) us ≡ some u = e ∙ ap some s in
          let (tl, th) =
            All-Has (λ v. IsText v.login × IsText v.password_hash) us (has_login login) u texts f in
          (bytes_eq→eq u.login login (find_first-test (has_login login) us u f), tl, th)
    ]

    Keeps-get_by_login :
        (login : Bytes) → Keeps (get_by_login login) (λ u. find_login login us ≡ ok u)
    unfolding get_by_login
    Keeps-get_by_login login = Always-query _ (λ d h. (h, λ u e. ap (find_login login) (sym h) ∙ e))

    Keeps-if_correct :
        (login password : Bytes) (u : User)
        → find_login login us ≡ ok u
        → IsText login
        → IsText u.password_hash
        → (o : Option Bool) → env.verify_password u.password_hash password ≡ o
        → Keeps
            (if_correct env u (verify_cache_key env login u.password_hash password) o)
            (Matches us login password)
    Keeps-if_correct login password u f tl th none e = Always-raise _
    Keeps-if_correct login password u f tl th (some false) e = Always-raise _
    Keeps-if_correct login password u f tl th (some true) e =
        Always-bind Any _ _
          (Keeps-mark_verified _ (login, u.password_hash, password, tl, th, refl, e))
          (λ _ _. Always-pure u (f, e))

    Keeps-check :
        (login password : Bytes) (u : User)
        → find_login login us ≡ ok u
        → IsText login
        → IsText u.password_hash
        → (b : Bool) → (b ≡ true → IsEarned (verify_cache_key env login u.password_hash password))
        → Keeps
            (check env u (verify_cache_key env login u.password_hash password) password b)
            (Matches us login password)
    Keeps-check login password u f tl th true h =
        Always-pure u (f, earned_by login u.password_hash password tl th (h refl))
    Keeps-check login password u f tl th false h = Keeps-if_correct login password u f tl th _ refl

    Keeps-verify_failed :
        (login password : Bytes) (e : Error)
        → Keeps (verify_found env login password (err e)) (Matches us login password)
    Keeps-verify_failed login password not_found = Always-raise _
    Keeps-verify_failed login password e = Always-raise _

    Keeps-lookup :
        (login password : Bytes)
        → Keeps (lookup_and_verify env login password) (Matches us login password)
    unfolding lookup_and_verify
    Keeps-lookup login password =
        Always-attempt _ _ _ (Keeps-get_by_login login)
          (λ u f.
            let (same, tl, th) = found_texts login u f in
            Always-bind _ _ _
              (Keeps-verified_recently (verify_cache_key env login u.password_hash password))
              (λ b h. Keeps-check login password u f (subst IsText same tl) th b h))
          (Keeps-verify_failed login password)

    Keeps-target :
        (admin : User) (r : Result User) (target : Bytes)
        → ((u : User) → r ≡ ok u → find_login target us ≡ ok u)
        → Keeps
            (as_target env admin r)
            (λ p. (p.auth ≡ admin) × (find_login target us ≡ ok p.acting))
    Keeps-target admin (ok u) target h = Always-pure _ (refl, h u refl)
    Keeps-target admin (err not_found) target h = Always-raise _
    Keeps-target admin (err e) target h = Always-raise _

    Keeps-cut :
        (o : Option (Bytes × Bytes)) (username password : Bytes)
        → Keeps (authenticate_cut env o username password) (IsGranted us username password o)
    unfolding authenticate_impersonation
    Keeps-cut none username password =
        Always-bind _ _ _ (Keeps-lookup username password) (λ u h. Always-pure _ (h, refl))
    Keeps-cut (some (admin, target)) username password =
        Always-bind _ _ _ (Keeps-lookup admin password) (λ u h.
          Always-bind _ _ _ (Always-fail_if _ _) (λ _ n.
            Always-attempt (λ v. find_login target us ≡ ok v) _ _ (Keeps-get_by_login target)
              (λ v f. Always-pure _ (h, yes_admin u.is_admin n, f)) (granted u)))
      where
        yes_admin : (b : Bool) → not b ≡ false → b ≡ true
        yes_admin true n = refl
        yes_admin false n = cc n

        granted :
            (u : User) (e : Error)
            → Keeps
                (as_target env u (err e))
                (IsGranted us username password (some (admin, target)))
        granted u not_found = Always-raise _
        granted u e = Always-raise _

-- Where no two keys have the same digest, and with users whose logins and hashes are texts without a byte
-- 0, as the database's are: if every cached verification was earned by a password that matched, so it is
-- after AuthenticateBasic, whatever fails. A principal that it returns for a user name without a slash is
-- the user of that login, acting for themselves, and their stored hash matches the password; for one with
-- a slash, the authenticated one is the user of the part before it, whose stored hash matches, an
-- administrator, and the acting one the user of the part after it.
pub authenticate_basic-IsGranted :
    (env : AuthEnv) (username password : Bytes) (w : World)
    → ((x y : Bytes) → env.sha256_hex x ≡ env.sha256_hex y → x ≡ y)
    → AreTexts w.db.users
    → IsSound env w.verified
    → IsSound env (authenticate_basic env username password w).1.verified
      × ((p : Principal)
          → (authenticate_basic env username password w).0 ≡ ok p
          → IsGranted env w.db.users username password (cut username) p)
unfolding authenticate_basic
authenticate_basic-IsGranted env username password w distinct texts sound =
    let k =
      (Keeps-cut env distinct w.db.users texts (cut username) username password).at w refl sound in
    (k.1, k.2)
