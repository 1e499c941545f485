-- ===== src/Base/Lists.antt =====
-- Lists measured, cut and indexed by native numbers: Go's `len`, `s[:n]`, `s[n:]`, `s[i]`.
use Prim.Native.Nat.{ℕ, zero, suc, ◌+◌, ◌-◌, ◌≤◌, min}
use mathlib.Core.Bool.{Bool, true, false, ◌||◌, ◌&&◌}
use mathlib.Core.List.{List, [], ◌∷◌, ◌++◌}
use mathlib.Core.Option.{Option, none, some}
use mathlib.Core.Path.{◌≡◌, refl, ap, ◌∙◌, subst}
use native.Mathlib.Omega.{arith}
use mathlib.Core.Logic.{inl, inr}
use tgwebdav.Base.Tests.{Bool-cases, if◌then◌else◌, ◌==◌, ==_refl}

module _ {ℓ} {A : Type ℓ} where
  abbrev pub length : List A → ℕ
  length [] = 0
  length (x ∷ xs) = suc (length xs)

  abbrev pub get_elem? : List A → ℕ → Option A
  get_elem? [] i = none
  get_elem? (x ∷ xs) zero = some x
  get_elem? (x ∷ xs) (suc i) = get_elem? xs i

  abbrev pub take : ℕ → List A → List A
  take zero xs = []
  take (suc n) [] = []
  take (suc n) (x ∷ xs) = x ∷ take n xs

  abbrev pub drop : ℕ → List A → List A
  drop zero xs = xs
  drop (suc n) [] = []
  drop (suc n) (x ∷ xs) = drop n xs

  -- `s[a:b]`
  abbrev pub slice : ℕ → ℕ → List A → List A
  slice a b xs = take (b - a) (drop a xs)

  -- `lo.Filter`
  abbrev pub keep : (A → Bool) → List A → List A
  keep p [] = []
  keep p (x ∷ xs) = let rest = keep p xs in if p x then x ∷ rest else rest

  -- the first element that passes a test, as a loop with an early return finds it
  abbrev pub find_first : (A → Bool) → List A → Option A
  find_first p [] = none
  find_first p (x ∷ xs) = let rest = find_first p xs in if p x then some x else rest

  -- `lo.SomeBy`
  abbrev pub some_by : (A → Bool) → List A → Bool
  some_by p [] = false
  some_by p (x ∷ xs) = p x || some_by p xs

  abbrev pub sum_by : (A → ℕ) → List A → ℕ
  sum_by f [] = 0
  sum_by f (x ∷ xs) = f x + sum_by f xs

  -- `UPDATE … WHERE p`
  abbrev pub update_by : (A → Bool) → (A → A) → List A → List A
  update_by p f [] = []
  update_by p f (x ∷ xs) = let rest = update_by p f xs in if p x then f x ∷ rest else x ∷ rest

  abbrev pub All {κ} : (A → Type κ) → List A → Type κ
  All P [] = Unit
  All P (x ∷ xs) = P x × All P xs

module _ {ℓ} {A : Type ℓ} where
  pub length-append : (xs ys : List A) → length (xs ++ ys) ≡ length xs + length ys
  length-append [] ys = omega arith
  length-append (x ∷ xs) ys = omega (arith, length-append xs ys)

  pub length-take : (n : ℕ) (xs : List A) → length (take n xs) ≡ min n (length xs)
  length-take zero xs = omega arith
  length-take (suc n) [] = omega arith
  length-take (suc n) (x ∷ xs) = omega (arith, length-take n xs)

  pub length-drop : (n : ℕ) (xs : List A) → length (drop n xs) ≡ length xs - n
  length-drop zero xs = omega arith
  length-drop (suc n) [] = omega arith
  length-drop (suc n) (x ∷ xs) = omega (arith, length-drop n xs)

  pub take-append-drop : (n : ℕ) (xs : List A) → take n xs ++ drop n xs ≡ xs
  take-append-drop zero xs = refl
  take-append-drop (suc n) [] = refl
  take-append-drop (suc n) (x ∷ xs) = ap (◌∷◌ x) (take-append-drop n xs)

  pub take_of_length-le : (k : ℕ) (ys : List A) → length ys ≤ k → take k ys ≡ ys
  take_of_length-le zero (y ∷ ys) few = absurd (omega arith)
  take_of_length-le (suc k) (y ∷ ys) few = rw (take_of_length-le k ys (omega arith)) refl
  take_of_length-le zero [] few = refl
  take_of_length-le (suc k) [] few = refl

  pub drop_of_length-le : (n : ℕ) (xs : List A) → length xs ≤ n → drop n xs ≡ []
  drop_of_length-le zero [] h = refl
  drop_of_length-le zero (x ∷ xs) h = absurd (omega arith)
  drop_of_length-le (suc n) [] h = refl
  drop_of_length-le (suc n) (x ∷ xs) h = drop_of_length-le n xs (omega arith)

  pub take-append_left : (n : ℕ) (xs ys : List A) → n ≤ length xs → take n (xs ++ ys) ≡ take n xs
  take-append_left zero xs ys h = refl
  take-append_left (suc n) [] ys h = absurd (omega arith)
  take-append_left (suc n) (x ∷ xs) ys h = ap (◌∷◌ x) (take-append_left n xs ys (omega arith))

  pub drop-append_left :
      (n : ℕ) (xs ys : List A) → n ≤ length xs → drop n (xs ++ ys) ≡ drop n xs ++ ys
  drop-append_left zero xs ys h = refl
  drop-append_left (suc n) [] ys h = absurd (omega arith)
  drop-append_left (suc n) (x ∷ xs) ys h = drop-append_left n xs ys (omega arith)

  pub take-append_exact : (xs ys : List A) → take (length xs) (xs ++ ys) ≡ xs
  take-append_exact [] ys = refl
  take-append_exact (x ∷ xs) ys = ap (◌∷◌ x) (take-append_exact xs ys)

  pub drop-append_exact : (xs ys : List A) → drop (length xs) (xs ++ ys) ≡ ys
  drop-append_exact [] ys = refl
  drop-append_exact (x ∷ xs) ys = drop-append_exact xs ys

  pub drop-drop : (m n : ℕ) (xs : List A) → drop m (drop n xs) ≡ drop (n + m) xs
  drop-drop m zero xs = let e : m ≡ zero + m = omega arith in ap (λ k. drop k xs) e
  drop-drop m (suc n) [] =
      cc (drop_of_length-le (suc n + m) [] (omega arith), drop_of_length-le m [] (omega arith))
  drop-drop m (suc n) (x ∷ xs) =
      let e : suc n + m ≡ suc (n + m) = omega arith in
      cc (drop-drop m n xs, ap (λ k. drop k (x ∷ xs)) e)

  pub take-take : (m n : ℕ) (xs : List A) → m ≤ n → take m (take n xs) ≡ take m xs
  take-take zero n xs h = refl
  take-take (suc m) zero xs h = absurd (omega arith)
  take-take (suc m) (suc n) [] h = refl
  take-take (suc m) (suc n) (x ∷ xs) h = ap (◌∷◌ x) (take-take m n xs (omega arith))

  -- A prefix grows by the piece that follows it.
  pub take-add : (m n : ℕ) (xs : List A) → take (m + n) xs ≡ take m xs ++ take n (drop m xs)
  take-add zero n xs = let e : zero + n ≡ n = omega arith in ap (λ k. take k xs) e
  take-add (suc m) n [] =
      cc (take_of_length-le (suc m + n) [] (omega arith), take_of_length-le n [] (omega arith))
  take-add (suc m) n (x ∷ xs) =
      let e : suc m + n ≡ suc (m + n) = omega arith in
      cc (take-add m n xs, ap (λ k. take k (x ∷ xs)) e)

  pub sum_by-append : (f : A → ℕ) (xs ys : List A) → sum_by f (xs ++ ys) ≡ sum_by f xs + sum_by f ys
  sum_by-append f [] ys = omega arith
  sum_by-append f (x ∷ xs) ys = omega (arith, sum_by-append f xs ys)

  pub drop-take : (m n : ℕ) (xs : List A) → drop m (take n xs) ≡ take (n - m) (drop m xs)
  drop-take zero n xs = let e : n ≡ n - zero = omega arith in ap (λ k. take k xs) e
  drop-take (suc m) zero xs =
      let e : zero ≡ zero - suc m = omega arith in ap (λ k. take k (drop (suc m) xs)) e
  drop-take (suc m) (suc n) [] = cc (take_of_length-le (suc n - suc m) [] (omega arith))
  drop-take (suc m) (suc n) (x ∷ xs) =
      let e : n - m ≡ suc n - suc m = omega arith in
      drop-take m n xs ∙ ap (λ k. take k (drop m xs)) e

  pub take-append_add :
      (xs ys : List A) (n k : ℕ) → n ≡ length xs + k → take n (xs ++ ys) ≡ xs ++ take k ys
  take-append_add [] ys n k e = let e' : n ≡ k = omega arith in ap (λ j. take j ys) e'
  take-append_add (x ∷ xs) ys zero k e = absurd (omega arith)
  take-append_add (x ∷ xs) ys (suc n) k e = ap (◌∷◌ x) (take-append_add xs ys n k (omega arith))

  pub drop-append_add :
      (xs ys : List A) (n k : ℕ) → n ≡ length xs + k → drop n (xs ++ ys) ≡ drop k ys
  drop-append_add [] ys n k e = let e' : n ≡ k = omega arith in ap (λ j. drop j ys) e'
  drop-append_add (x ∷ xs) ys zero k e = absurd (omega arith)
  drop-append_add (x ∷ xs) ys (suc n) k e = drop-append_add xs ys n k (omega arith)

module _ {ℓ} {A : Type ℓ} where
  pub All-keep {κ} : (P : A → Type κ) (p : A → Bool) (xs : List A) → All P xs → All P (keep p xs)
  All-keep P p [] h = tt
  All-keep P p (x ∷ xs) h = elim (Bool-cases (p x)) [
    | inl t ↦ rw t (h.0, All-keep P p xs h.1)
    | inr f ↦ rw f (All-keep P p xs h.1)
  ]

  pub keep-keep : (p q : A → Bool) (xs : List A) → keep p (keep q xs) ≡ keep (λ x. q x && p x) xs
  keep-keep p q [] = refl
  keep-keep p q (x ∷ xs) = elim (Bool-cases (q x)) [
    | inl t ↦ rw (t, keep-keep p q xs)
    | inr f ↦ rw (f, keep-keep p q xs)
  ]

  pub keep_of_All : (p : A → Bool) (xs : List A) → All (λ x. p x ≡ true) xs → keep p xs ≡ xs
  keep_of_All p [] h = refl
  keep_of_All p (x ∷ xs) h = rw (h.0, keep_of_All p xs h.1)

  pub keep-append : (p : A → Bool) (xs ys : List A) → keep p (xs ++ ys) ≡ keep p xs ++ keep p ys
  keep-append p [] ys = refl
  keep-append p (x ∷ xs) ys = elim (Bool-cases (p x)) [
    | inl t ↦ rw (t, keep-append p xs ys)
    | inr f ↦ rw (f, keep-append p xs ys)
  ]

-- equality of texts
abbrev pub bytes_eq : List ℕ → List ℕ → Bool
bytes_eq [] [] = true
bytes_eq [] (_ ∷ _) = false
bytes_eq (_ ∷ _) [] = false
bytes_eq (a ∷ xs) (b ∷ ys) = a == b && bytes_eq xs ys

pub bytes_eq→eq : (xs ys : List ℕ) → bytes_eq xs ys ≡ true → xs ≡ ys
bytes_eq→eq [] [] h = refl
bytes_eq→eq [] (b ∷ ys) h = cc
bytes_eq→eq (a ∷ xs) [] h = cc
bytes_eq→eq (a ∷ xs) (b ∷ ys) h = ground (arith, bytes_eq→eq xs ys)

pub bytes_eq_refl : (xs : List ℕ) → bytes_eq xs xs ≡ true
bytes_eq_refl [] = refl
bytes_eq_refl (a ∷ xs) = rw (==_refl a) (bytes_eq_refl xs)

pub find_first-test {ℓ} :
    {A : Type ℓ} (p : A → Bool) (xs : List A) (x : A) → find_first p xs ≡ some x → p x ≡ true
find_first-test p [] x h = cc h
find_first-test p (y ∷ ys) x h = elim (Bool-cases (p y)) [
  | inl t ↦
      let same : some y ≡ some x = rw t at h in
      let e : y ≡ x = cc same in subst (λ z. p z ≡ true) e t
  | inr f ↦ find_first-test p ys x (rw f at h)
]
