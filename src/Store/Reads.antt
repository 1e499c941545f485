-- ===== src/Store/Reads.antt =====
-- A program logic for actions that only read the tables: what they return, and how they may fail.
use tgwebdav.Base.{◌≡◌, refl, sym, ap, ◌∙◌, Bool, true, false, List, if◌then◌else◌}
use tgwebdav.Model.{Instant}
use tgwebdav.Store.{
  attempt, Error, storage, Result, ok, err, Db, World, Exec, pure, raise, continue, ◌>>=◌,
  next_fault, is_refused, answer, query, get_now,
}

-- From the tables `d` at the instant `n`, `m` changes neither; what it returns satisfies `Q`, and an
-- error of it satisfies `E`.
pub record Reads {A : Type 0} (d : Db) (n : Instant) (m : Exec A) (Q : A → Type 0)
    (E : Error → Type 0) : Type 0 where
  pub at :
      (w : World)
      → w.db ≡ d
      → w.now ≡ n
      → ((m w).1.db ≡ d)
        × ((m w).1.now ≡ n)
        × ((a : A) → (m w).0 ≡ ok a → Q a)
        × ((e : Error) → (m w).0 ≡ err e → E e)

module _ {A : Type 0} {d : Db} {n : Instant} {Q : A → Type 0} {E : Error → Type 0} where
  pub Reads-pure : (a : A) → Q a → Reads d n (pure a) Q E
  Reads-pure a q = record {
    at = λ w s t. (s, t, λ b e. let same : a ≡ b = cc e in rw (← same) q, λ x e. cc e);
  }

  pub Reads-raise : (x : Error) → E x → Reads d n (raise {A = A} x) Q E
  Reads-raise x h = record {
    at = λ w s t. (s, t, λ b e. cc e, λ y e. let same : x ≡ y = cc e in rw (← same) h);
  }

  pub Reads-if :
      (b : Bool) (p q : Exec A)
      → (b ≡ true → Reads d n p Q E)
      → (b ≡ false → Reads d n q Q E)
      → Reads d n (if b then p else q) Q E
  Reads-if true p q hp hq = hp refl
  Reads-if false p q hp hq = hq refl

  -- A statement that only reads, and what it reads in `d`.
  pub Reads-query :
      (q : Db → Result A)
      → E storage
      → ((a : A) → q d ≡ ok a → Q a)
      → ((e : Error) → q d ≡ err e → E e)
      → Reads d n (query (λ x. (q x, x))) Q E
  unfolding query
  Reads-query q fault good bad = record {
    at = λ w s t. go (is_refused w) (next_fault w.faults).1 w s t;
  }
    where
      go :
          (failed : Bool) (rest : List Bool) (w : World)
          → w.db ≡ d
          → w.now ≡ n
          → ((answer failed rest (λ x. (q x, x)) w).1.db ≡ d)
            × ((answer failed rest (λ x. (q x, x)) w).1.now ≡ n)
            × ((a : A) → (answer failed rest (λ x. (q x, x)) w).0 ≡ ok a → Q a)
            × ((e : Error) → (answer failed rest (λ x. (q x, x)) w).0 ≡ err e → E e)
      go true rest w s t =
          (s, t, λ a e. cc e, λ y e. let same : storage ≡ y = cc e in rw (← same) fault)
      go false rest w s t =
          (s, t, λ a e. good a (ap q (sym s) ∙ e), λ x e. bad x (ap q (sym s) ∙ e))

module _ {A B : Type 0} {d : Db} {n : Instant} {Q : B → Type 0} {E : Error → Type 0} where
  pub Reads-bind :
      (R : A → Type 0) (m : Exec A) (f : A → Exec B)
      → Reads d n m R E
      → ((a : A) → R a → Reads d n (f a) Q E)
      → Reads d n (m >>= f) Q E
  unfolding ◌>>=◌
  Reads-bind R m f hm hf = record { at = λ w s t. go (m w).0 (m w).1 (hm.at w s t) }
    where
      go :
          (r : Result A) (w : World)
          → (w.db ≡ d) × (w.now ≡ n) × ((a : A) → r ≡ ok a → R a) × ((e : Error) → r ≡ err e → E e)
          → ((continue r f w).1.db ≡ d)
            × ((continue r f w).1.now ≡ n)
            × ((b : B) → (continue r f w).0 ≡ ok b → Q b)
            × ((e : Error) → (continue r f w).0 ≡ err e → E e)
      go (ok a) w (s, t, good, bad) = (hf a (good a refl)).at w s t
      go (err x) w (s, t, good, bad) =
          (s, t, λ b e. cc e, λ y e. let same : x ≡ y = cc e in rw (← same) (bad x refl))

module _ {A B : Type 0} {d : Db} {n : Instant} {Q : B → Type 0} {E : Error → Type 0} where
  pub Reads-attempt :
      (R : A → Type 0) (F : Error → Type 0) (m : Exec A) (f : Result A → Exec B)
      → Reads d n m R F
      → ((a : A) → R a → Reads d n (f (ok a)) Q E)
      → ((e : Error) → F e → Reads d n (f (err e)) Q E)
      → Reads d n (attempt m f) Q E
  unfolding attempt
  Reads-attempt R F m f hm good bad = record { at = λ w s t. go (m w).0 (m w).1 (hm.at w s t) }
    where
      go :
          (r : Result A) (w : World)
          → (w.db ≡ d) × (w.now ≡ n) × ((a : A) → r ≡ ok a → R a) × ((e : Error) → r ≡ err e → F e)
          → ((f r w).1.db ≡ d)
            × ((f r w).1.now ≡ n)
            × ((b : B) → (f r w).0 ≡ ok b → Q b)
            × ((e : Error) → (f r w).0 ≡ err e → E e)
      go (ok a) w (s, t, some_a, some_e) = (good a (some_a a refl)).at w s t
      go (err x) w (s, t, some_a, some_e) = (bad x (some_e x refl)).at w s t

module _ {A : Type 0} {d : Db} {n : Instant} {E : Error → Type 0} where
  pub Reads-fail :
      {Q : A → Type 0} {F : Error → Type 0} {m : Exec A}
      → ((e : Error) → F e → E e)
      → Reads d n m Q F
      → Reads d n m Q E
  Reads-fail h g = record {
    at = λ w s t. let (s', t', good, bad) = g.at w s t in (s', t', good, λ x e. h x (bad x e));
  }

  pub Reads-map :
      {Q R : A → Type 0} {m : Exec A} → ((a : A) → Q a → R a) → Reads d n m Q E → Reads d n m R E
  Reads-map h g = record {
    at = λ w s t. let (s', t', good, bad) = g.at w s t in (s', t', λ a e. h a (good a e), bad);
  }

module _ {d : Db} {n : Instant} {E : Error → Type 0} where
  pub Reads-get_now : Reads d n get_now (λ a. a ≡ n) E
  unfolding get_now
  Reads-get_now = record {
    at = λ w s t. (s, t, λ a e. let same : w.now ≡ a = cc e in sym same ∙ t, λ x e. cc e);
  }
