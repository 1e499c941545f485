-- ===== src/Store/Rules.antt =====
-- A program logic for actions: assertions about the tables, one rule for each way to build an action.
use tgwebdav.Base.{ℕ, ◌≡◌, ◌⊎◌, inl, inr, refl, Bool, true, false, List, if◌then◌else◌}
use tgwebdav.Model.{Uuid}
use tgwebdav.Store.{
  fail_if, storage, Error, Result, ok, err, Db, World, Exec, pure, raise, continue, ◌>>=◌, attempt,
  next_fault, is_refused, is_lost, answer, query, commit, end_tx, begin_tx, with_tx, new_id,
  get_now, is_ready, mark_ready,
}

pub bind_of_ok :
    {A B : Type 0} (m : Exec A) (f : A → Exec B) (w : World) (a : A)
    → (m w).0 ≡ ok a
    → (m >>= f) w ≡ f a (m w).1
unfolding ◌>>=◌
bind_of_ok m f w a e = rw e

-- If `m` succeeds from tables with `P`, what it returns and the tables after it satisfy `Q`.
pub record Gives {A : Type 0} (P : Db → Type 0) (m : Exec A) (Q : A → Db → Type 0) : Type 0 where
  pub at : (w : World) (a : A) → P w.db → (m w).0 ≡ ok a → Q a (m w).1.db

-- Outside a transaction, whatever comes of `m`, good or bad, the tables satisfy `P` after it if they
-- did before, and no transaction is left open.
pub record Keeps {A : Type 0} (P : Db → Type 0) (m : Exec A) : Type 0 where
  pub at : (w : World) → w.in_tx ≡ false → P w.db → P (m w).1.db × ((m w).1.in_tx ≡ false)

module _ {A : Type 0} {P : Db → Type 0} {Q : A → Db → Type 0} where
  pub Gives-pure : (a : A) → ((d : Db) → P d → Q a d) → Gives P (pure a) Q
  Gives-pure a h = record { at = λ w b p e. go w b p e }
    where
      go : (w : World) (b : A) → P w.db → ok a ≡ ok b → Q b w.db
      go w b p e = let same : a ≡ b = cc in rw (← same) (h w.db p)

  pub Gives-raise : (e : Error) → Gives P (raise {A = A} e) Q
  Gives-raise e = record { at = λ w b p h. cc }

  pub Gives-if :
      (b : Bool) (m n : Exec A)
      → (b ≡ true → Gives P m Q)
      → (b ≡ false → Gives P n Q)
      → Gives P (if b then m else n) Q
  Gives-if true m n gm gn = gm refl
  Gives-if false m n gm gn = gn refl

  -- A statement: what it does to the tables.
  pub Gives-query :
      (q : Db → Result A × Db)
      → ((d : Db) (a : A) → P d → (q d).0 ≡ ok a → Q a (q d).1)
      → Gives P (query q) Q
  unfolding query
  Gives-query q h = record { at = λ w a p e. go (is_refused w) (next_fault w.faults).1 w a p e }
    where
      go :
          (fault : Bool) (rest : List Bool) (w : World) (a : A)
          → P w.db
          → (answer fault rest q w).0 ≡ ok a
          → Q a (answer fault rest q w).1.db
      go true rest w a p e = cc
      go false rest w a p e = h w.db a p e

  pub Gives-with_tx : (m : Exec A) → Gives P m Q → Gives P (with_tx m) Q
  unfolding with_tx
  Gives-with_tx m g = record {
    at = λ w a p e. begin w.in_tx (next_fault w.faults).0 (next_fault w.faults).1 w a p e;
  }
    where
      committed :
          (fault : Bool) (rest : List Bool) (before : Db) (b : A) (w : World) (a : A)
          → Q b w.db
          → (commit fault rest before b w).0 ≡ ok a
          → Q a (commit fault rest before b w).1.db
      committed true rest before b w a q e = cc
      committed false rest before b w a q e = let same : b ≡ a = cc in rw (← same) q

      ended :
          (before : Db) (r : Result A) (w : World) (a : A)
          → ((b : A) → r ≡ ok b → Q b w.db)
          → (end_tx before r w).0 ≡ ok a
          → Q a (end_tx before r w).1.db
      ended before (ok b) w a q e =
          committed (is_lost w) (next_fault w.faults).1 before b w a (q b refl) e
      ended before (err x) w a q e = cc

      begin :
          (in_tx fault : Bool) (rest : List Bool) (w : World) (a : A)
          → P w.db
          → (begin_tx in_tx fault rest m w).0 ≡ ok a
          → Q a (begin_tx in_tx fault rest m w).1.db
      begin true fault rest w a p e = g.at w a p e
      begin false true rest w a p e = cc
      begin false false rest w a p e =
          let w' = record w { faults = rest; in_tx = true; tx_aborted = false } in
          ended w.db (m w').0 (m w').1 a (λ b f. g.at w' b p f) e

  pub Gives-weaken :
      {R : A → Db → Type 0} {m : Exec A}
      → ((a : A) (d : Db) → R a d → Q a d)
      → Gives P m R
      → Gives P m Q
  Gives-weaken h g = record { at = λ w a p e. h a (_) (g.at w a p e) }

  pub Gives-pre :
      {R : Db → Type 0} {m : Exec A} → ((d : Db) → R d → P d) → Gives P m Q → Gives R m Q
  Gives-pre h g = record { at = λ w a p e. g.at w a (h _ p) e }

module _ {A : Type 0} {P : Db → Type 0} {Q : A → Db → Type 0} where
  -- To name the tables at the start.
  pub Gives-from : {m : Exec A} → ((d : Db) → P d → Gives (λ e. e ≡ d) m Q) → Gives P m Q
  Gives-from h = record { at = λ w a p e. (h w.db p).at w a refl e }

module _ {A B : Type 0} {P : Db → Type 0} {Q : B → Db → Type 0} where
  pub Gives-bind :
      (R : A → Db → Type 0) (m : Exec A) (f : A → Exec B)
      → Gives P m R
      → ((a : A) → Gives (R a) (f a) Q)
      → Gives P (m >>= f) Q
  unfolding ◌>>=◌
  Gives-bind R m f gm gf = record { at = λ w b p e. go (m w).0 (m w).1 b (λ a h. gm.at w a p h) e }
    where
      go :
          (r : Result A) (w : World) (b : B)
          → ((a : A) → r ≡ ok a → R a w.db)
          → (continue r f w).0 ≡ ok b
          → Q b (continue r f w).1.db
      go (ok a) w b h e = (gf a).at w b (h a refl) e
      go (err x) w b h e = cc

  pub Gives-attempt :
      (R : Result A → Db → Type 0) (m : Exec A) (f : Result A → Exec B)
      → ((w : World) → P w.db → R (m w).0 (m w).1.db)
      → ((r : Result A) → Gives (R r) (f r) Q)
      → Gives P (attempt m f) Q
  unfolding attempt
  Gives-attempt R m f hm gf = record { at = λ w b p e. (gf (m w).0).at (m w).1 b (hm w p) e }

module _ {A B : Type 0} {P : Db → Type 0} {Q : B → Db → Type 0} where
  -- The handler of an error knows nothing of the tables.
  pub Gives-attempt_ok :
      (R : A → Db → Type 0) (m : Exec A) (f : Result A → Exec B)
      → Gives P m R
      → ((a : A) → Gives (R a) (f (ok a)) Q)
      → ((e : Error) → Gives (λ _. Unit {0}) (f (err e)) Q)
      → Gives P (attempt m f) Q
  unfolding attempt
  Gives-attempt_ok R m f gm good bad = record {
    at = λ w b p e. go (m w).0 (m w).1 b (λ a h. gm.at w a p h) e;
  }
    where
      go :
          (r : Result A) (w : World) (b : B)
          → ((a : A) → r ≡ ok a → R a w.db)
          → (f r w).0 ≡ ok b
          → Q b (f r w).1.db
      go (ok a) w b h e = (good a).at w b (h a refl) e
      go (err x) w b h e = (bad x).at w b tt e

-- Whatever comes of `m` from tables with `P`, the outcome and the tables after it satisfy `Q`.
pub record Ends {A : Type 0} (P : Db → Type 0) (m : Exec A) (Q : Result A → Db → Type 0)
    : Type 0 where
  pub at : (w : World) → P w.db → Q (m w).0 (m w).1.db

module _ {A : Type 0} {P : Db → Type 0} {Q : Result A → Db → Type 0} where
  pub Ends-query :
      (q : Db → Result A × Db)
      → ((d : Db) → P d → Q (q d).0 (q d).1)
      → ((d : Db) → P d → Q (err storage) d)
      → Ends P (query q) Q
  unfolding query
  Ends-query q h f = record { at = λ w p. go (is_refused w) (next_fault w.faults).1 w p }
    where
      go :
          (fault : Bool) (rest : List Bool) (w : World)
          → P w.db
          → Q (answer fault rest q w).0 (answer fault rest q w).1.db
      go true rest w p = f w.db p
      go false rest w p = h w.db p

  pub Ends-pure : (a : A) → ((d : Db) → P d → Q (ok a) d) → Ends P (pure a) Q
  Ends-pure a h = record { at = λ w p. h w.db p }

module _ {P : Db → Type 0} where
  pub Ends-new_id : (uuids : ℕ → Uuid) → Ends P (new_id uuids) (λ _. P)
  unfolding new_id
  Ends-new_id uuids = record { at = λ w p. p }

  pub Ends-get_now : Ends P get_now (λ _. P)
  unfolding get_now
  Ends-get_now = record { at = λ w p. p }

module _ {A B : Type 0} {P : Db → Type 0} where
  pub Ends-bind :
      (R : Result A → Db → Type 0) {Q : Result B → Db → Type 0} (m : Exec A) (f : A → Exec B)
      → Ends P m R
      → ((a : A) → Ends (R (ok a)) (f a) Q)
      → ((e : Error) (d : Db) → R (err e) d → Q (err e) d)
      → Ends P (m >>= f) Q
  unfolding ◌>>=◌
  Ends-bind R {Q} m f em ef bad = record { at = λ w p. go (m w).0 (m w).1 (em.at w p) }
    where
      go : (r : Result A) (w : World) → R r w.db → Q (continue r f w).0 (continue r f w).1.db
      go (ok a) w h = (ef a).at w h
      go (err e) w h = bad e w.db h

  pub Gives-attempt_Ends :
      (R : Result A → Db → Type 0) {Q : B → Db → Type 0} (m : Exec A) (f : Result A → Exec B)
      → Ends P m R
      → ((r : Result A) → Gives (R r) (f r) Q)
      → Gives P (attempt m f) Q
  Gives-attempt_Ends R m f em gf = Gives-attempt R m f em.at gf

module _ {A : Type 0} {P : Db → Type 0} where
  pub Keeps-pure : (a : A) → Keeps P (pure a)
  Keeps-pure a = record { at = λ w i p. (p, i) }

  pub Keeps-raise : (e : Error) → Keeps P (raise {A = A} e)
  Keeps-raise e = record { at = λ w i p. (p, i) }

  pub Keeps-if :
      (test : Bool) (hit miss : Exec A)
      → (test ≡ false → Keeps P miss)
      → (test ≡ true → Keeps P hit)
      → Keeps P (if test then hit else miss)
  Keeps-if true hit miss on_miss on_hit = on_hit refl
  Keeps-if false hit miss on_miss on_hit = on_miss refl

  pub Keeps-query : (q : Db → Result A × Db) → ((d : Db) → P d → P (q d).1) → Keeps P (query q)
  unfolding query
  Keeps-query q h = record { at = λ w i p. go (is_refused w) (next_fault w.faults).1 w i p }
    where
      go :
          (fault : Bool) (rest : List Bool) (w : World)
          → w.in_tx ≡ false
          → P w.db
          → P (answer fault rest q w).1.db × ((answer fault rest q w).1.in_tx ≡ false)
      go true rest w i p = (p, i)
      go false rest w i p = (h w.db p, i)

  -- All or nothing: it is enough that a run without an error ends in `P`.
  pub Keeps-with_tx : (m : Exec A) → Gives P m (λ _. P) → Keeps P (with_tx m)
  unfolding with_tx
  Keeps-with_tx m g = record {
    at = λ w i p. begin w.in_tx (next_fault w.faults).0 (next_fault w.faults).1 w i i p;
  }
    where
      committed :
          (fault : Bool) (rest : List Bool) (before : Db) (b : A) (w : World)
          → P before
          → P w.db
          → P (commit fault rest before b w).1.db × ((commit fault rest before b w).1.in_tx ≡ false)
      committed true rest before b w p q = (p, refl)
      committed false rest before b w p q = (q, refl)

      ended :
          (before : Db) (r : Result A) (w : World)
          → P before
          → ((b : A) → r ≡ ok b → P w.db)
          → P (end_tx before r w).1.db × ((end_tx before r w).1.in_tx ≡ false)
      ended before (ok b) w p q =
          committed (is_lost w) (next_fault w.faults).1 before b w p (q b refl)
      ended before (err x) w p q = (p, refl)

      begin :
          (in_tx fault : Bool) (rest : List Bool) (w : World)
          → in_tx ≡ false
          → w.in_tx ≡ false
          → P w.db
          → P (begin_tx in_tx fault rest m w).1.db
            × ((begin_tx in_tx fault rest m w).1.in_tx ≡ false)
      begin true fault rest w i j p = cc
      begin false true rest w i j p = (p, j)
      begin false false rest w i j p =
          let w' = record w { faults = rest; in_tx = true; tx_aborted = false } in
          ended w.db (m w').0 (m w').1 p (λ b f. g.at w' b p f)

module _ {A : Type 0} {P : Db → Type 0} {Q : Db → Type 0} where
  -- Outside a transaction, either nothing has happened or all of it.
  pub with_tx_settles :
      (m : Exec A)
      → Gives P m (λ _. Q)
      → (w : World) → w.in_tx ≡ false
      → P w.db
      → P (with_tx m w).1.db ⊎ Q (with_tx m w).1.db
  unfolding with_tx
  with_tx_settles m g w outside p =
      begin w.in_tx (next_fault w.faults).0 (next_fault w.faults).1 outside
    where
      closed_by :
          (fault : Bool) (rest : List Bool) (a : A) (v : World)
          → Q v.db
          → P (commit fault rest w.db a v).1.db ⊎ Q (commit fault rest w.db a v).1.db
      closed_by true rest a v q = inl p
      closed_by false rest a v q = inr q

      ended :
          (r : Result A) (v : World)
          → ((a : A) → r ≡ ok a → Q v.db)
          → P (end_tx w.db r v).1.db ⊎ Q (end_tx w.db r v).1.db
      ended (ok a) v q = closed_by (is_lost v) (next_fault v.faults).1 a v (q a refl)
      ended (err e) v q = inl p

      begin :
          (in_tx fault : Bool) (rest : List Bool)
          → in_tx ≡ false
          → P (begin_tx in_tx fault rest m w).1.db ⊎ Q (begin_tx in_tx fault rest m w).1.db
      begin true fault rest i = cc i
      begin false true rest i = inl p
      begin false false rest i =
          let v = record w { faults = rest; in_tx = true; tx_aborted = false } in
          ended (m v).0 (m v).1 (λ a e. g.at v a p e)

module _ {A B : Type 0} {P : Db → Type 0} where
  pub Keeps-bind :
      (first : Exec A)
      → Keeps P first
      → (rest : A → Exec B) → ((a : A) → Keeps P (rest a))
      → Keeps P (first >>= rest)
  unfolding ◌>>=◌
  Keeps-bind first one rest others = record {
    at = λ w outside p. next (first w).0 (first w).1 (one.at w outside p);
  }
    where
      next :
          (r : Result A) (w : World)
          → P w.db × (w.in_tx ≡ false)
          → P (continue r rest w).1.db × ((continue r rest w).1.in_tx ≡ false)
      next (ok a) w (p, outside) = (others a).at w outside p
      next (err e) w h = h

  pub Keeps-attempt :
      (m : Exec A) (f : Result A → Exec B)
      → Keeps P m
      → ((r : Result A) → Keeps P (f r))
      → Keeps P (attempt m f)
  unfolding attempt
  Keeps-attempt m f km kf = record {
    at = λ w i p. let h = km.at w i p in (kf (m w).0).at (m w).1 h.1 h.0;
  }

module _ {P : Db → Type 0} where
  pub Keeps-new_id : (uuids : ℕ → Uuid) → Keeps P (new_id uuids)
  unfolding new_id
  Keeps-new_id uuids = record { at = λ w i p. (p, i) }

  pub Keeps-get_now : Keeps P get_now
  unfolding get_now
  Keeps-get_now = record { at = λ w i p. (p, i) }

  pub Keeps-is_ready : (user : Uuid) → Keeps P (is_ready user)
  unfolding is_ready
  Keeps-is_ready user = record { at = λ w i p. (p, i) }

  pub Keeps-mark_ready : (user : Uuid) → Keeps P (mark_ready user)
  unfolding mark_ready
  Keeps-mark_ready user = record { at = λ w i p. (p, i) }

  pub Gives-new_id : (uuids : ℕ → Uuid) → Gives P (new_id uuids) (λ _. P)
  unfolding new_id
  Gives-new_id uuids = record { at = λ w a p e. p }

  pub Gives-get_now : Gives P get_now (λ _. P)
  unfolding get_now
  Gives-get_now = record { at = λ w a p e. p }

  pub Gives-fail_if : (b : Bool) (e : Error) → Gives P (fail_if b e) (λ _ d. P d × (b ≡ false))
  unfolding fail_if
  Gives-fail_if true e = Gives-raise e
  Gives-fail_if false e = Gives-pure tt (λ d p. (p, refl))

pub ruleset keeps_rules =
    (Keeps-pure, Keeps-raise, Keeps-if, Keeps-bind, Keeps-attempt, Keeps-new_id, Keeps-get_now)
