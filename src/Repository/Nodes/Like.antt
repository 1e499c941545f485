-- ===== src/Repository/Nodes/Like.antt =====
-- escapeLike of internal/repository/node.go, and `LIKE … ESCAPE '\'` as the query uses it.
use tgwebdav.Base.{
  ℕ, ◌≡◌, refl, ap, ◌∙◌, Bool, true, false, ◌&&◌, ◌||◌, [], ◌∷◌, ◌++◌, ◌==◌, if◌then◌else◌, arith,
  Bool-cases, inl, inr,
}
use tgwebdav.Model.{Bytes}

abbrev is_special : ℕ → Bool
is_special b = b == b'\\' || (b == b'%' || b == b'_')

-- strings.NewReplacer(`\`, `\\`, `%`, `\%`, `_`, `\_`)
unfoldable pub escape_byte : ℕ → Bytes
escape_byte b = if is_special b then b'\\' ∷ b ∷ [] else b ∷ []

unfoldable pub escape_like : Bytes → Bytes
unfolding escape_byte
escape_like [] = []
escape_like (b ∷ bs) = escape_byte b ++ escape_like bs

abbrev is_nil : Bytes → Bool
is_nil [] = true
is_nil (_ ∷ _) = false

-- whether some end of the text passes
abbrev any_end : (Bytes → Bool) → Bytes → Bool
any_end f [] = f []
any_end f (b ∷ bs) = f (b ∷ bs) || any_end f bs

abbrev one : (ℕ → Bool) → (Bytes → Bool) → Bytes → Bool
one p f [] = false
one p f (b ∷ bs) = p b && f bs

-- `%` stands for any text, `_` for one character, `\` makes the next one stand for itself.
unfoldable pub like : Bytes → Bytes → Bool
like [] = is_nil
like (p ∷ []) =
    if p == b'%'
    then any_end is_nil
    else if p == b'_'
    then one (λ _. true) is_nil
    else one (λ b. b == p) is_nil
like (p ∷ q ∷ ps) =
    let rest = like (q ∷ ps) in
    let after = like ps in
    if p == b'%'
    then any_end rest
    else if p == b'_'
    then one (λ _. true) rest
    else if p == b'\\'
    then one (λ b. b == q) after
    else one (λ b. b == p) rest

-- `strings.HasPrefix(text, prefix)`
unfoldable pub has_prefix : Bytes → Bytes → Bool
has_prefix text [] = true
has_prefix [] (_ ∷ _) = false
has_prefix (b ∷ bs) (p ∷ ps) = b == p && has_prefix bs ps

any_end-true : (t : Bytes) → any_end is_nil t ≡ true
any_end-true [] = refl
any_end-true (b ∷ bs) = any_end-true bs

not_special :
    (p : ℕ)
    → is_special p ≡ false
    → ((p == b'\\') ≡ false) × ((p == b'%') ≡ false) × ((p == b'_') ≡ false)
not_special p h = ground arith

like_literal :
    (p : ℕ) (ps t : Bytes) → is_special p ≡ false → like (p ∷ ps) t ≡ one (λ b. b == p) (like ps) t
unfolding like
like_literal p [] t h = let f = not_special p h in rw (f.1, f.2)
like_literal p (q ∷ ps) t h = let f = not_special p h in rw (f.1, f.2, f.0)

like_escaped : (q : ℕ) (ps t : Bytes) → like (b'\\' ∷ q ∷ ps) t ≡ one (λ b. b == q) (like ps) t
unfolding like
like_escaped q ps t = refl

-- The pattern that ListSubtree builds matches exactly the texts below the prefix, whatever
-- wildcards the prefix contains.
pub like-escape_like :
    (prefix text : Bytes)
    → like (escape_like prefix ++ b'/' ∷ b'%' ∷ []) text ≡ has_prefix text (prefix ++ b'/' ∷ [])
unfolding escape_like has_prefix like
like-escape_like [] [] = refl
like-escape_like [] (t ∷ text) = ap (λ b. t == b'/' && b) (any_end-true text)
like-escape_like (p ∷ prefix) text = elim (Bool-cases (is_special p)) [
  | inl s ↦ rw s (
      like_escaped p (escape_like prefix ++ b'/' ∷ b'%' ∷ []) text
      ∙ tail (like-escape_like prefix) text)
  | inr n ↦ rw n (
      like_literal p (escape_like prefix ++ b'/' ∷ b'%' ∷ []) text n
      ∙ tail (like-escape_like prefix) text)
]
  where
    tail :
        ((bs : Bytes)
          → like (escape_like prefix ++ b'/' ∷ b'%' ∷ []) bs ≡ has_prefix bs (prefix ++ b'/' ∷ []))
        → (t : Bytes)
        → one (λ b. b == p) (like (escape_like prefix ++ b'/' ∷ b'%' ∷ [])) t
          ≡ has_prefix t (p ∷ prefix ++ b'/' ∷ [])
    tail ih [] = refl
    tail ih (b ∷ bs) = ap (λ r. b == p && r) (ih bs)
