-- ===== src/Repository/Rows.antt =====
-- Tables as lists of rows: ordered, updated, searched, with keys that stand once.
use tgwebdav.Base.{
  ◌≤◌, leb→le, All-keep, if◌then◌else◌, ℕ, ◌≡◌, refl, sym, ap, ◌∙◌, Bool, true, false, ◌&&◌, ◌||◌,
  List, [], ◌∷◌, ◌==◌, ==_refl, leb, take, keep, some_by, update_by, All, Has, Bool-cases, inl, inr,
  arith, or_true,
}
use tgwebdav.Model.{Blob}
use tgwebdav.Repository.Blobs.{update_where}
use tgwebdav.Repository.Order.{insert_by, order_by}

pub or_swap : (a b c : Bool) → (a || (b || c)) ≡ (b || (a || c))
or_swap true true c = refl
or_swap true false c = refl
or_swap false true c = refl
or_swap false false c = refl

pub ==_comm_false : (a b : ℕ) → (a == b) ≡ false → (b == a) ≡ false
==_comm_false a b h = ground arith

pub or_false : (a b : Bool) → (a || b) ≡ false → (a ≡ false) × (b ≡ false)
or_false true b h = cc h
or_false false b h = (refl, h)

module _ {A : Type 0} where
  pub some_by-keep :
      (p q : A → Bool) (xs : List A) → some_by p (keep q xs) ≡ some_by (λ x. q x && p x) xs
  some_by-keep p q [] = refl
  some_by-keep p q (x ∷ xs) = elim (Bool-cases (q x)) [
    | inl t ↦ rw (t, some_by-keep p q xs) refl
    | inr f ↦ rw (f, some_by-keep p q xs) refl
  ]

  -- each key stands at most once
  abbrev pub AreOnceBy : (A → ℕ) → List A → Type 0
  AreOnceBy key [] = Unit
  AreOnceBy key (x ∷ xs) = (some_by (λ y. key y == key x) xs ≡ false) × AreOnceBy key xs

  pub some_by-insert_by :
      (k : A → ℕ) (p : A → Bool) (x : A) (ys : List A)
      → some_by p (insert_by k x ys) ≡ (p x || some_by p ys)
  unfolding insert_by
  some_by-insert_by k p x [] = refl
  some_by-insert_by k p x (y ∷ ys) = elim (Bool-cases (leb (k x) (k y))) [
    | inl t ↦ rw t refl
    | inr f ↦ rw (f, some_by-insert_by k p x ys) (or_swap (p y) (p x) (some_by p ys))
  ]

  pub some_by-order_by :
      (k : A → ℕ) (p : A → Bool) (xs : List A) → some_by p (order_by k xs) ≡ some_by p xs
  unfolding order_by
  some_by-order_by k p [] = refl
  some_by-order_by k p (x ∷ xs) =
      some_by-insert_by k p x (order_by k xs) ∙ ap (λ b. p x || b) (some_by-order_by k p xs)

  pub AreOnceBy-insert_by :
      (key k : A → ℕ) (x : A) (ys : List A)
      → some_by (λ y. key y == key x) ys ≡ false
      → AreOnceBy key ys
      → AreOnceBy key (insert_by k x ys)
  unfolding insert_by
  AreOnceBy-insert_by key k x [] new once = (refl, tt)
  AreOnceBy-insert_by key k x (y ∷ ys) new once =
      let parts = or_false _ _ new in
      elim (Bool-cases (leb (k x) (k y))) [
        | inl t ↦ rw t (new, once)
        | inr f ↦ rw f (
          some_by-insert_by k (λ z. key z == key y) x ys
              ∙ (rw (==_comm_false (key y) (key x) parts.0) once.0),
          AreOnceBy-insert_by key k x ys parts.1 once.1,
        )
      ]

  pub AreOnceBy-order_by :
      (key k : A → ℕ) (xs : List A) → AreOnceBy key xs → AreOnceBy key (order_by k xs)
  unfolding order_by
  AreOnceBy-order_by key k [] once = tt
  AreOnceBy-order_by key k (x ∷ xs) once =
      AreOnceBy-insert_by key k x (order_by k xs)
        (some_by-order_by k (λ y. key y == key x) xs ∙ once.0) (AreOnceBy-order_by key k xs once.1)

  pub All-everywhere : (P : A → Type 0) (xs : List A) → ((x : A) → P x) → All P xs
  All-everywhere P [] h = tt
  All-everywhere P (x ∷ xs) h = (h x, All-everywhere P xs h)

  pub All-update_by :
      (P Q : A → Type 0) (p : A → Bool) (f : A → A) (xs : List A)
      → ((x : A) → P x → p x ≡ true → Q (f x))
      → ((x : A) → P x → p x ≡ false → Q x)
      → All P xs
      → All Q (update_by p f xs)
  All-update_by P Q p f [] hit miss h = tt
  All-update_by P Q p f (x ∷ xs) hit miss h =
      let rest = All-update_by P Q p f xs hit miss h.1 in
      elim (Bool-cases (p x)) [
        | inl t ↦ rw t (hit x h.0 t, rest)
        | inr n ↦ rw n (miss x h.0 n, rest)
      ]

  pub some_by-update_by :
      (q p : A → Bool) (f : A → A) (xs : List A)
      → ((x : A) → q (f x) ≡ q x)
      → some_by q (update_by p f xs) ≡ some_by q xs
  some_by-update_by q p f [] same = refl
  some_by-update_by q p f (x ∷ xs) same = elim (Bool-cases (p x)) [
    | inl t ↦ rw (t, same x, some_by-update_by q p f xs same) refl
    | inr n ↦ rw (n, some_by-update_by q p f xs same) refl
  ]

pub update_where-update_by :
    (p : Blob → Bool) (f : Blob → Blob) (bs : List Blob) → update_where p f bs ≡ update_by p f bs
update_where-update_by p f [] = refl
update_where-update_by p f (b ∷ bs) = rw (update_where-update_by p f bs) refl

module _ {A : Type 0} where
  pub All-Has : (P : A → Type 0) (x : A) (xs : List A) → All P xs → Has x xs → P x
  All-Has P x [] h m = elim m [ ]
  All-Has P x (y ∷ ys) h (inl e) = rw e h.0
  All-Has P x (y ∷ ys) h (inr m) = All-Has P x ys h.1 m

  pub some_by-found :
      (p : A → Bool) (xs : List A) → some_by p xs ≡ true → (x : A) × Has x xs × (p x ≡ true)
  some_by-found p [] h = cc h
  some_by-found p (x ∷ xs) h = elim (Bool-cases (p x)) [
    | inl t ↦ (x, inl refl, t)
    | inr f ↦ let (y, there, t) = some_by-found p xs (rw f at h) in (y, inr there, t)
  ]

  pub some_by_of_Has :
      (p : A → Bool) (x : A) (xs : List A) → Has x xs → p x ≡ true → some_by p xs ≡ true
  some_by_of_Has p x [] m t = elim m [ ]
  some_by_of_Has p x (y ∷ ys) (inl e) t = rw (← e, t) refl
  some_by_of_Has p x (y ∷ ys) (inr m) t = rw (some_by_of_Has p x ys m t) (or_true (p y))

  pub All-insert_by :
      (P : A → Type 0) (k : A → ℕ) (x : A) (ys : List A) → P x → All P ys → All P (insert_by k x ys)
  unfolding insert_by
  All-insert_by P k x [] p h = (p, tt)
  All-insert_by P k x (y ∷ ys) p h = elim (Bool-cases (leb (k x) (k y))) [
    | inl t ↦ rw t (p, h)
    | inr f ↦ rw f (h.0, All-insert_by P k x ys p h.1)
  ]

  pub All-order_by : (P : A → Type 0) (k : A → ℕ) (xs : List A) → All P xs → All P (order_by k xs)
  unfolding order_by
  All-order_by P k [] h = tt
  All-order_by P k (x ∷ xs) h = All-insert_by P k x (order_by k xs) h.0 (All-order_by P k xs h.1)

  pub All-map : (P Q : A → Type 0) (xs : List A) → ((x : A) → P x → Q x) → All P xs → All Q xs
  All-map P Q [] f h = tt
  All-map P Q (x ∷ xs) f h = (f x h.0, All-map P Q xs f h.1)

  pub All-Has_self : (xs : List A) → All (λ x. Has x xs) xs
  All-Has_self [] = tt
  All-Has_self (x ∷ xs) =
      (inl refl, All-map (λ y. Has y xs) (λ y. Has y (x ∷ xs)) xs (λ y m. inr m) (All-Has_self xs))

  pub All-take : (P : A → Type 0) (n : ℕ) (xs : List A) → All P xs → All P (take n xs)
  All-take P ℕ.zero xs h = tt
  All-take P (ℕ.suc n) [] h = tt
  All-take P (ℕ.suc n) (x ∷ xs) h = (h.0, All-take P n xs h.1)

  pub some_by-key :
      (key : A → ℕ) (k : ℕ) (y : A) (xs : List A)
      → key y ≡ k
      → Has y xs
      → some_by (λ t. key t == k) xs ≡ true
  some_by-key key k y [] e h = elim h [ ]
  some_by-key key k y (x ∷ xs) e (inl same) = rw (← same, e, ==_refl k) refl
  some_by-key key k y (x ∷ xs) e (inr h) = rw (some_by-key key k y xs e h) (or_true (key x == k))

  pub once-eq :
      (key : A → ℕ) (x y : A) (xs : List A)
      → AreOnceBy key xs
      → Has x xs
      → Has y xs
      → key x ≡ key y
      → x ≡ y
  once-eq key x y [] once hx hy e = elim hx [ ]
  once-eq key x y (z ∷ zs) once (inl ex) (inl ey) e = ex ∙ sym ey
  once-eq key x y (z ∷ zs) once (inl ex) (inr hy) e =
      cc (once.0, some_by-key key (key z) y zs (sym e ∙ ap key ex) hy)
  once-eq key x y (z ∷ zs) once (inr hx) (inl ey) e =
      cc (once.0, some_by-key key (key z) x zs (e ∙ ap key ey) hx)
  once-eq key x y (z ∷ zs) once (inr hx) (inr hy) e = once-eq key x y zs once.1 hx hy e

module _ {A : Type 0} (key : A → ℕ) where
  abbrev IsSorted : List A → Type 0
  IsSorted [] = Unit
  IsSorted (x ∷ xs) = All (λ y. key x ≤ key y) xs × IsSorted xs

  insert_by-first :
      (x : A) (ys : List A) → All (λ y. key x ≤ key y) ys → insert_by key x ys ≡ x ∷ ys
  unfolding insert_by
  insert_by-first x [] h = refl
  insert_by-first x (y ∷ ys) h = ground arith

  insert_by-IsSorted : (x : A) (ys : List A) → IsSorted ys → IsSorted (insert_by key x ys)
  unfolding insert_by
  insert_by-IsSorted x [] h = (tt, tt)
  insert_by-IsSorted x (y ∷ ys) h = elim (Bool-cases (leb (key x) (key y))) [
    | inl t ↦
        let le : key x ≤ key y = leb→le (key x) (key y) t in
        rw t ((le, All-map _ _ ys (λ z k. through le k) h.0), h)
    | inr f ↦ rw f (
      All-insert_by (λ z. key y ≤ key z) key x ys (ground (arith, f)) h.0,
      insert_by-IsSorted x ys h.1,
    )
  ]
    where
      through : {a b c : ℕ} → a ≤ b → b ≤ c → a ≤ c
      through h k = omega arith

  order_by-IsSorted : (xs : List A) → IsSorted (order_by key xs)
  unfolding order_by
  order_by-IsSorted [] = tt
  order_by-IsSorted (x ∷ xs) = insert_by-IsSorted x (order_by key xs) (order_by-IsSorted xs)

  keep-insert_by :
      (p : A → Bool) (x : A) (ys : List A)
      → IsSorted ys
      → keep p (insert_by key x ys) ≡ (if p x then insert_by key x (keep p ys) else keep p ys)
  unfolding insert_by
  keep-insert_by p x [] h = elim (Bool-cases (p x)) [ inl t ↦ rw t refl | inr f ↦ rw f refl ]
  keep-insert_by p x (y ∷ ys) h = elim (Bool-cases (leb (key x) (key y))) [
    | inl t ↦
        let le : key x ≤ key y = leb→le (key x) (key y) t in
        let all : All (λ z. key x ≤ key z) (y ∷ ys) =
          (le, All-map _ _ ys (λ z k. through le k) h.0) in
        elim (Bool-cases (p x)) [
          | inl px ↦
              rw (t, px) (sym (insert_by-first x (keep p (y ∷ ys)) (All-keep _ p (y ∷ ys) all)))
          | inr nx ↦ rw (t, nx) refl
        ]
    | inr f ↦ elim (Bool-cases (p y)) [
      | inl py ↦ elim (Bool-cases (p x)) [
        | inl px ↦ rw (f, py, px) (rw f (ap (λ zs. y ∷ zs) (rw px at (keep-insert_by p x ys h.1))))
        | inr nx ↦ rw (f, py, nx) (ap (λ zs. y ∷ zs) (rw nx at (keep-insert_by p x ys h.1)))
      ]
      | inr ny ↦ rw (f, ny) (keep-insert_by p x ys h.1)
    ]
  ]
    where
      through : {a b c : ℕ} → a ≤ b → b ≤ c → a ≤ c
      through h k = omega arith

  -- Selecting rows and ordering them may change places.
  pub keep-order_by :
      (p : A → Bool) (xs : List A) → keep p (order_by key xs) ≡ order_by key (keep p xs)
  unfolding order_by
  keep-order_by p [] = refl
  keep-order_by p (x ∷ xs) =
      keep-insert_by p x (order_by key xs) (order_by-IsSorted xs)
      ∙ (let rest = keep-order_by p xs in
          elim (Bool-cases (p x)) [ inl t ↦ rw t (ap (insert_by key x) rest) | inr f ↦ rw f rest ])
