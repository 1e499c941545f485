-- ===== src/Store/Always.antt =====
-- A program logic for what an action keeps of the whole world, whatever comes of it: an assertion about
-- the tables and one about the cache, Telegram's answers
-- and the passwords that were verified.
use tgwebdav.Base.{ℕ, ◌≡◌, refl, Bool, true, false, List, if◌then◌else◌}
use tgwebdav.BlobCache.{Cache}
use tgwebdav.Model.{Uuid, Instant, Bytes}
use tgwebdav.Store.Rules.{Gives}
use tgwebdav.Store.{
  Error, Result, ok, err, Db, World, Exec, Reply, Call, pure, raise, continue, ◌>>=◌, attempt,
  ignore, next_fault, is_refused, is_lost, answer, query, commit, end_tx, begin_tx, with_tx, new_id,
  get_now, fail_if, call, next_reply, later_replies,
}

module _ (D : Db → Type 0) (C : Cache → List Reply → List (Bytes × Instant) → Type 0) where
  -- Both assertions hold of the world, and the result is as `Q` says if it is no error.
  abbrev pub After : {A : Type 0} → Result A × World → (A → Type 0) → Type 0
  After {A} (r, w) Q = D w.db × C w.cache w.replies w.verified × ((a : A) → r ≡ ok a → Q a)

  pub record Always {A : Type 0} (m : Exec A) (Q : A → Type 0) : Type 0 where
    pub at : (w : World) → D w.db → C w.cache w.replies w.verified → After (m w) Q

module _ {A : Type 0} {D : Db → Type 0} {C : Cache → List Reply → List (Bytes × Instant) → Type 0}
    {Q : A → Type 0} where
  pub Always-pure : (a : A) → Q a → Always D C (pure a) Q
  Always-pure a q = record { at = λ w d c. (d, c, λ b e. let same : a ≡ b = cc in rw (← same) q) }

  pub Always-raise : (e : Error) → Always D C (raise {A = A} e) Q
  Always-raise e = record { at = λ w d c. (d, c, λ b h. cc) }

  pub Always-if :
      (b : Bool) (m n : Exec A)
      → (b ≡ true → Always D C m Q)
      → (b ≡ false → Always D C n Q)
      → Always D C (if b then m else n) Q
  Always-if true m n hm hn = hm refl
  Always-if false m n hm hn = hn refl

  pub Always-query :
      (q : Db → Result A × Db)
      → ((d : Db) → D d → D (q d).1 × ((a : A) → (q d).0 ≡ ok a → Q a))
      → Always D C (query q) Q
  unfolding query
  Always-query q h = record { at = λ w d c. go (is_refused w) (next_fault w.faults).1 w d c }
    where
      go :
          (fault : Bool) (rest : List Bool) (w : World)
          → D w.db
          → C w.cache w.replies w.verified
          → After D C (answer fault rest q w) Q
      go true rest w d c = (d, c, λ a e. cc)
      go false rest w d c = let k = h w.db d in (k.0, c, k.1)

  -- An error rolls the tables back, and leaves the cache as it is.
  pub Always-with_tx : (m : Exec A) → Always D C m Q → Always D C (with_tx m) Q
  unfolding with_tx
  Always-with_tx m g = record {
    at = λ w d c. begin w.in_tx (next_fault w.faults).0 (next_fault w.faults).1 w d c;
  }
    where
      committed :
          (fault : Bool) (rest : List Bool) (before : Db) (b : A) (w : World)
          → D before
          → D w.db
          → C w.cache w.replies w.verified
          → Q b
          → After D C (commit fault rest before b w) Q
      committed true rest before b w p d c q = (p, c, λ a e. cc)
      committed false rest before b w p d c q =
          (d, c, λ a e. let same : b ≡ a = cc in rw (← same) q)

      ended :
          (before : Db) (r : Result A) (w : World)
          → D before
          → After D C (r, w) Q
          → After D C (end_tx before r w) Q
      ended before (ok b) w p h =
          committed (is_lost w) (next_fault w.faults).1 before b w p h.0 h.1 (h.2 b refl)
      ended before (err x) w p h = (p, h.1, λ a e. cc)

      begin :
          (in_tx fault : Bool) (rest : List Bool) (w : World)
          → D w.db
          → C w.cache w.replies w.verified
          → After D C (begin_tx in_tx fault rest m w) Q
      begin true fault rest w d c = g.at w d c
      begin false true rest w d c = (d, c, λ a e. cc)
      begin false false rest w d c =
          let w' = record w { faults = rest; in_tx = true; tx_aborted = false } in
          ended w.db (m w').0 (m w').1 d (g.at w' d c)

module _ {A B : Type 0} {D : Db → Type 0} {C : Cache → List Reply → List (Bytes × Instant) → Type 0}
    {Q : B → Type 0} where
  pub Always-bind :
      (R : A → Type 0) (m : Exec A) (f : A → Exec B)
      → Always D C m R
      → ((a : A) → R a → Always D C (f a) Q)
      → Always D C (m >>= f) Q
  unfolding ◌>>=◌
  Always-bind R m f hm hf = record { at = λ w d c. go (m w).0 (m w).1 (hm.at w d c) }
    where
      go : (r : Result A) (w : World) → After D C (r, w) R → After D C (continue r f w) Q
      go (ok a) w h = (hf a (h.2 a refl)).at w h.0 h.1
      go (err x) w h = (h.0, h.1, λ b e. cc)

  pub Always-attempt :
      (R : A → Type 0) (m : Exec A) (f : Result A → Exec B)
      → Always D C m R
      → ((a : A) → R a → Always D C (f (ok a)) Q)
      → ((e : Error) → Always D C (f (err e)) Q)
      → Always D C (attempt m f) Q
  unfolding attempt
  Always-attempt R m f hm good bad = record { at = λ w d c. go (m w).0 (m w).1 (hm.at w d c) }
    where
      go : (r : Result A) (w : World) → After D C (r, w) R → After D C (f r w) Q
      go (ok a) w h = (good a (h.2 a refl)).at w h.0 h.1
      go (err x) w h = (bad x).at w h.0 h.1

module _ {A : Type 0} {D : Db → Type 0}
    {C : Cache → List Reply → List (Bytes × Instant) → Type 0} where
  pub Always-map :
      (R : A → Type 0) (S : A → Type 0) {m : Exec A}
      → ((a : A) → R a → S a)
      → Always D C m R
      → Always D C m S
  Always-map R S h g = record {
    at = λ w d c. let k = g.at w d c in (k.0, k.1, λ a e. h a (k.2 a e));
  }

-- nothing is said of the result
abbrev pub Any : {A : Type 0} → A → Type 0
Any a = Unit {0}

module _ {D : Db → Type 0} {C : Cache → List Reply → List (Bytes × Instant) → Type 0} where
  pub Always-ignore : {A : Type 0} (m : Exec A) → Always D C m Any → Always D C (ignore m) Any
  unfolding ignore
  Always-ignore m h =
      Always-attempt Any m (λ _. pure tt) h (λ a r. Always-pure tt tt) (λ e. Always-pure tt tt)

  pub Always-get_now : Always D C get_now Any
  unfolding get_now
  Always-get_now = record { at = λ w d c. (d, c, λ a e. tt) }

  pub Always-new_id : (uuids : ℕ → Uuid) → Always D C (new_id uuids) Any
  unfolding new_id
  Always-new_id uuids = record { at = λ w d c. (d, c, λ a e. tt) }

  pub Always-fail_if : (b : Bool) (e : Error) → Always D C (fail_if b e) (λ _. b ≡ false)
  unfolding fail_if
  Always-fail_if true e = Always-raise e
  Always-fail_if false e = Always-pure tt refl

  pub Always-call :
      (Q : Reply → Type 0) (k : Call)
      → ((c : Cache) (rs : List Reply) (vc : List (Bytes × Instant))
          → C c rs vc
          → C c (later_replies rs) vc × Q (next_reply rs))
      → Always D C (call k) Q
  unfolding call
  Always-call Q k h = record {
    at = λ w d c.
        let s = h w.cache w.replies w.verified c in
        (d, s.0, λ a e. let same : next_reply w.replies ≡ a = cc in rw (← same) s.1);
  }

module _ {A : Type 0} {D : Db → Type 0} {Q : A → Type 0} where
  -- An action that keeps the tables' assertion keeps it where it succeeds.
  pub Always-Gives : {m : Exec A} → Always D (λ _ _ _. Unit {0}) m Q → Gives D m (λ a d. D d × Q a)
  Always-Gives g = record { at = λ w a d e. let k = g.at w d tt in (k.0, k.2 a e) }
