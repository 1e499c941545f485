-- ===== src/Base/Members.antt =====
-- Membership in a list.
use Prim.Native.Nat.{◌+◌}
use mathlib.Core.Bool.{Bool, true, not}
use mathlib.Core.List.{List, [], ◌∷◌}
use mathlib.Core.Logic.{◌⊎◌, inl, inr}
use mathlib.Core.Path.{◌≡◌, ap, ◌∙◌, sym}
use native.Mathlib.Omega.{arith}
use tgwebdav.Base.Lists.{length, keep}
use tgwebdav.Base.Tests.{Bool-cases}

-- an element of a list
abbrev pub Has : {A : Type 0} → A → List A → Type 0
Has x [] = ⊥
Has x (y ∷ ys) = (x ≡ y) ⊎ Has x ys

module _ {A : Type 0} where
  pub Has-keep : (p : A → Bool) (x : A) (ys : List A) → Has x ys → p x ≡ true → Has x (keep p ys)
  Has-keep p x [] m h = elim m [ ]
  Has-keep p x (y ∷ ys) (inl e) h = let k : p y ≡ true = ap p (sym e) ∙ h in rw k (inl e)
  Has-keep p x (y ∷ ys) (inr m) h = elim (Bool-cases (p y)) [
    | inl t ↦ rw t (inr (Has-keep p x ys m h))
    | inr f ↦ rw f (Has-keep p x ys m h)
  ]

  pub Has-of_keep :
      (p : A → Bool) (x : A) (ys : List A) → Has x (keep p ys) → Has x ys × (p x ≡ true)
  Has-of_keep p x [] m = elim m [ ]
  Has-of_keep p x (y ∷ ys) m = elim (Bool-cases (p y)) [
    | inl t ↦ kept t (Has-of_keep p x ys) (rw t at m)
    | inr f ↦ let r = Has-of_keep p x ys (rw f at m) in (inr r.0, r.1)
  ]
    where
      kept :
          p y ≡ true
          → (Has x (keep p ys) → Has x ys × (p x ≡ true))
          → Has x (y ∷ keep p ys)
          → Has x (y ∷ ys) × (p x ≡ true)
      kept t again (inl e) = (inl e, ap p e ∙ t)
      kept t again (inr k) = let r = again k in (inr r.0, r.1)

  pub length-keep-not :
      (p : A → Bool) (xs : List A)
      → length (keep p xs) + length (keep (λ x. not (p x)) xs) ≡ length xs
  length-keep-not p [] = omega arith
  length-keep-not p (x ∷ xs) = elim (Bool-cases (p x)) [
    | inl t ↦ rw t (omega (arith, length-keep-not p xs))
    | inr f ↦ rw f (omega (arith, length-keep-not p xs))
  ]
