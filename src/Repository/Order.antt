-- ===== src/Repository/Order.antt =====
-- `ORDER BY`: rows by a numeric column, ties in table order.
use tgwebdav.Base.{
  ℕ, ◌<◌, ◌≡◌, refl, Bool, List, [], ◌∷◌, arith, leb, All, keep, if◌then◌else◌, Bool-cases, inl,
  inr, All-keep,
}

module _ {A : Type 0} (key : A → ℕ) where
  unfoldable pub insert_by : A → List A → List A
  insert_by x [] = x ∷ []
  insert_by x (y ∷ ys) =
      let rest = insert_by x ys in if leb (key x) (key y) then x ∷ y ∷ ys else y ∷ rest

  unfoldable pub order_by : List A → List A
  unfolding insert_by
  order_by [] = []
  order_by (x ∷ xs) = insert_by x (order_by xs)

  -- Each row's key is below the keys of the rows after it.
  abbrev pub Ascending : List A → Type 0
  Ascending [] = Unit
  Ascending (x ∷ xs) = All (λ y. key x < key y) xs × Ascending xs

  insert_by-least : (x : A) (xs : List A) → All (λ y. key x < key y) xs → insert_by x xs ≡ x ∷ xs
  unfolding insert_by
  insert_by-least x [] h = refl
  insert_by-least x (y ∷ ys) h = ground arith

  -- Rows that stand in order stay as they are.
  pub order_by-Ascending : (xs : List A) → Ascending xs → order_by xs ≡ xs
  unfolding order_by
  order_by-Ascending [] h = refl
  order_by-Ascending (x ∷ xs) h = rw (order_by-Ascending xs h.1) (insert_by-least x xs h.0)

  -- A selection of rows in order is in order.
  pub keep-Ascending : (p : A → Bool) (xs : List A) → Ascending xs → Ascending (keep p xs)
  keep-Ascending p [] h = tt
  keep-Ascending p (x ∷ xs) h = elim (Bool-cases (p x)) [
    | inl t ↦ rw t (All-keep (λ y. key x < key y) p xs h.0, keep-Ascending p xs h.1)
    | inr f ↦ rw f (keep-Ascending p xs h.1)
  ]

-- `ORDER BY … DESC`
module _ {A : Type 0} (key : A → ℕ) where
  unfoldable pub insert_desc : A → List A → List A
  insert_desc x [] = x ∷ []
  insert_desc x (y ∷ ys) =
      let rest = insert_desc x ys in if leb (key y) (key x) then x ∷ y ∷ ys else y ∷ rest

  unfoldable pub order_desc : List A → List A
  unfolding insert_desc
  order_desc [] = []
  order_desc (x ∷ xs) = insert_desc x (order_desc xs)
