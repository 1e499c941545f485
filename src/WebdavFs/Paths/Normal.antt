-- ===== src/WebdavFs/Paths/Normal.antt =====
-- What the normal form of a path guarantees.
use mathlib.Core.List.{append_assoc}
use tgwebdav.Base.{
  ℕ, ◌≡◌, refl, ap, ◌∙◌, true, false, List, [], ◌∷◌, ◌++◌, arith, bytes_eq, All, Bool-cases, inl,
  inr,
}
use tgwebdav.Model.{Bytes}
use tgwebdav.WebdavFs.Env.{Env}
use tgwebdav.WebdavFs.Paths.{
  is_slash, elements, add_to_first, dot, dot_dot, pop, push, resolve, text_of, rooted, is_rooted,
  clean, trim_left, normalize, has_slash, split_dir, split_file, dir, base,
}

-- A name that may stand between two slashes of a normal path.
abbrev pub IsName : Bytes → Type 0
IsName e =
    (has_slash e ≡ false)
    × (bytes_eq e [] ≡ false)
    × (bytes_eq e dot ≡ false)
    × (bytes_eq e dot_dot ≡ false)

abbrev pub HasNoSlash : Bytes → Type 0
HasNoSlash e = has_slash e ≡ false

elements-HasNoSlash : (p : Bytes) → All HasNoSlash (elements p)
unfolding elements
elements-HasNoSlash [] = (refl, tt)
elements-HasNoSlash (b ∷ bs) = elim (Bool-cases (is_slash b)) [
  | inl t ↦ rw t (refl, elements-HasNoSlash bs)
  | inr f ↦ rw f (longer b (elements bs) f (elements-HasNoSlash bs))
]
  where
    longer :
        (b : ℕ) (es : List Bytes)
        → is_slash b ≡ false
        → All HasNoSlash es
        → All HasNoSlash (add_to_first b es)
    longer b [] f h = (rw f refl, tt)
    longer b (e ∷ es) f h = (rw f h.0, h.1)

pop-IsName : (stack : List Bytes) → All IsName stack → All IsName (pop stack)
pop-IsName [] h = tt
pop-IsName (e ∷ es) h = h.1

push-IsName :
    (stack : List Bytes) (e : Bytes) → HasNoSlash e → All IsName stack → All IsName (push stack e)
unfolding push
push-IsName stack e s h = elim (Bool-cases (bytes_eq e [])) [
  | inl t ↦ rw t h
  | inr f ↦ elim (Bool-cases (bytes_eq e dot)) [
    | inl t ↦ rw (f, t) h
    | inr g ↦ elim (Bool-cases (bytes_eq e dot_dot)) [
      | inl t ↦ rw (f, g, t) (pop-IsName stack h)
      | inr k ↦ rw (f, g, k) ((s, f, g, k), h)
    ]
  ]
]

resolve-IsName :
    (stack es : List Bytes) → All HasNoSlash es → All IsName stack → All IsName (resolve stack es)
unfolding resolve
resolve-IsName stack [] s h = h
resolve-IsName stack (e ∷ es) s h = resolve-IsName (push stack e) es s.1 (push-IsName stack e s.0 h)

elements-head : (p : Bytes) → (e : Bytes) × (rest : List Bytes) × (elements p ≡ e ∷ rest)
unfolding elements
elements-head [] = ([], [], refl)
elements-head (b ∷ bs) = elim (Bool-cases (is_slash b)) [
  | inl t ↦ rw t ([], elements bs, refl)
  | inr f ↦ let (e, rest, h) = elements-head bs in rw (f, h) (b ∷ e, rest, refl)
]

-- A slash separates the elements.
elements_join : (p q : Bytes) → elements (p ++ b'/' ∷ q) ≡ elements p ++ elements q
unfolding elements
elements_join [] q = refl
elements_join (b ∷ bs) q = elim (Bool-cases (is_slash b)) [
  | inl t ↦ rw (t, elements_join bs q) refl
  | inr f ↦ let (e, rest, h) = elements-head bs in rw (f, elements_join bs q, h) refl
]

elements_name : (e : Bytes) → HasNoSlash e → elements e ≡ e ∷ []
unfolding elements
elements_name [] h = refl
elements_name (b ∷ bs) h = elim (Bool-cases (is_slash b)) [
  | inl t ↦ cc (rw t at h)
  | inr f ↦ rw (f, elements_name bs (rw f at h)) refl
]

resolve-append :
    (stack es fs : List Bytes) → resolve stack (es ++ fs) ≡ resolve (resolve stack es) fs
unfolding resolve
resolve-append stack [] fs = refl
resolve-append stack (e ∷ es) fs = resolve-append (push stack e) es fs

push_name : (stack : List Bytes) (e : Bytes) → IsName e → push stack e ≡ e ∷ stack
unfolding push
push_name stack e h = rw (h.1, h.2, h.3) refl

resolve_text : (es : List Bytes) → All IsName es → resolve [] (elements (text_of es)) ≡ es
unfolding resolve elements push
resolve_text [] h = refl
resolve_text (e ∷ es) h =
    ap (resolve [])
      (elements_join (text_of es) e ∙ ap (λ r. elements (text_of es) ++ r) (elements_name e h.0.0))
    ∙ resolve-append [] (elements (text_of es)) (e ∷ [])
    ∙ ap (λ s. push s e) (resolve_text es h.1)
    ∙ push_name es e h.0

-- The text of some elements and a slash starts with one.
text_of-is_rooted : (es : List Bytes) (p : Bytes) → is_rooted (text_of es ++ b'/' ∷ p) ≡ true
text_of-is_rooted [] p = refl
text_of-is_rooted (e ∷ es) p =
    ap is_rooted (append_assoc (text_of es) (b'/' ∷ e) (b'/' ∷ p)) ∙ text_of-is_rooted es _

clean_of_is_rooted : (p : Bytes) → is_rooted p ≡ true → clean p ≡ rooted (resolve [] (elements p))
unfolding clean
clean_of_is_rooted p h = rw h refl

clean-rooted : (es : List Bytes) → All IsName es → clean (rooted es) ≡ rooted es
unfolding clean resolve elements push
clean-rooted [] h = refl
clean-rooted (e ∷ es) h =
    clean_of_is_rooted (text_of (e ∷ es)) (text_of-is_rooted es e)
    ∙ ap rooted (resolve_text (e ∷ es) h)

-- The slashes at the start of a name are no elements of it.
resolve-trim_left :
    (p : Bytes) → resolve [] (elements (b'/' ∷ trim_left p)) ≡ resolve [] (elements p)
unfolding resolve elements push
resolve-trim_left [] = refl
resolve-trim_left (b ∷ bs) = elim (Bool-cases (is_slash b)) [
  | inl t ↦ rw t (resolve-trim_left bs)
  | inr f ↦ rw f (rw f refl)
]

-- Whatever name a request gives, its normal form is the root or a path of names, none of which is
-- empty, "." or "..", or holds a slash; these names are what the elements of its Unicode normal
-- form C come to, each ".." taking the one before it away and the root staying the root; and
-- cleaning it again changes nothing.
pub normalize-IsName :
    (env : Env) (name : Bytes)
    → (es : List Bytes) × (normalize env name ≡ rooted es)
      × All IsName es
      × (es ≡ resolve [] (elements (env.nfc name)))
      × (clean (normalize env name) ≡ normalize env name)
unfolding normalize clean
normalize-IsName env name =
    let text = b'/' ∷ trim_left (env.nfc name) in
    let es = resolve [] (elements text) in
    let names = resolve-IsName [] (elements text) (elements-HasNoSlash text) tt in
    (es, refl, names, resolve-trim_left (env.nfc name), clean-rooted es names)

has_slash_in : (p q : Bytes) → has_slash (p ++ b'/' ∷ q) ≡ true
has_slash_in [] q = refl
has_slash_in (b ∷ bs) q = rw (has_slash_in bs q) (grind arith)

split_at :
    (p e : Bytes)
    → HasNoSlash e
    → (split_dir (p ++ b'/' ∷ e) ≡ p ++ b'/' ∷ []) × (split_file (p ++ b'/' ∷ e) ≡ e)
unfolding split_dir split_file
split_at [] e h = rw h (refl, refl)
split_at (b ∷ bs) e h = let (d, f) = split_at bs e h in rw (has_slash_in bs e) (ap (◌∷◌ b) d, f)

-- Of a normal path other than the root, path.Dir is the normal path of all names but the last, and
-- path.Base is the last name.
pub dir-base :
    (e : Bytes) (es : List Bytes)
    → All IsName (e ∷ es)
    → (dir (rooted (e ∷ es)) ≡ rooted es) × (base (rooted (e ∷ es)) ≡ e)
unfolding dir base clean push resolve elements
dir-base e es h =
    let (d, f) = split_at (text_of es) e h.0.0 in
    (
      ap clean d
          ∙ clean_of_is_rooted (text_of es ++ b'/' ∷ []) (text_of-is_rooted es [])
          ∙ ap (λ r. rooted (resolve [] r)) (elements_join (text_of es) [])
          ∙ ap rooted (resolve-append [] (elements (text_of es)) ([] ∷ []))
          ∙ ap (λ s. rooted (push s [])) (resolve_text es h.1),
      f,
    )
