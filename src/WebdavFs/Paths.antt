-- ===== src/WebdavFs/Paths.antt =====
-- normalize, pathHasPrefix and the parts of Go's `path` that internal/service/webdavfs uses.
--
-- A path is also the stack of its elements, the last one first, as `path.Clean` builds it.
pub mod Normal
use tgwebdav.Base.{
  ℕ, Bool, true, false, not, ◌&&◌, ◌||◌, List, [], ◌∷◌, ◌++◌, ltb, ◌==◌, bytes_eq, if◌then◌else◌,
  length, take, drop,
}
use tgwebdav.Model.{Bytes}
use tgwebdav.Repository.Nodes.Like.{has_prefix}
use tgwebdav.WebdavFs.Env.{Env}

abbrev pub is_slash : ℕ → Bool
is_slash b = b == b'/'

-- The texts between slashes.
abbrev pub add_to_first : ℕ → List Bytes → List Bytes
add_to_first b [] = (b ∷ []) ∷ []
add_to_first b (e ∷ es) = (b ∷ e) ∷ es

unfoldable pub elements : Bytes → List Bytes
elements [] = [] ∷ []
elements (b ∷ bs) = let rest = elements bs in if is_slash b then [] ∷ rest else add_to_first b rest

abbrev pub dot : Bytes
dot = b'.' ∷ []

abbrev pub dot_dot : Bytes
dot_dot = b'.' ∷ b'.' ∷ []

abbrev pub pop : List Bytes → List Bytes
pop [] = []
pop (e ∷ es) = es

-- One element of `path.Clean` on a rooted path: "" and "." are dropped, ".." drops the one before it.
unfoldable pub push : List Bytes → Bytes → List Bytes
push stack e =
    if bytes_eq e []
    then stack
    else if bytes_eq e dot
    then stack
    else if bytes_eq e dot_dot
    then pop stack
    else e ∷ stack

unfoldable pub resolve : List Bytes → List Bytes → List Bytes
unfolding push
resolve stack [] = stack
resolve stack (e ∷ es) = resolve (push stack e) es

abbrev pub text_of : List Bytes → Bytes
text_of [] = []
text_of (e ∷ es) = text_of es ++ b'/' ∷ e

-- the path with these elements
abbrev pub rooted : List Bytes → Bytes
rooted [] = b'/' ∷ []
rooted (e ∷ es) = text_of (e ∷ es)

-- One element of `path.Clean` on a path without a slash at its start: ".." stays where nothing but ".."
-- is before it.
abbrev pub pop_or_climb : List Bytes → List Bytes
pop_or_climb [] = dot_dot ∷ []
pop_or_climb (e ∷ es) = if bytes_eq e dot_dot then dot_dot ∷ e ∷ es else es

unfoldable pub push_relative : List Bytes → Bytes → List Bytes
push_relative stack e =
    if bytes_eq e []
    then stack
    else if bytes_eq e dot
    then stack
    else if bytes_eq e dot_dot
    then pop_or_climb stack
    else e ∷ stack

unfoldable pub resolve_relative : List Bytes → List Bytes → List Bytes
unfolding push_relative
resolve_relative stack [] = stack
resolve_relative stack (e ∷ es) = resolve_relative (push_relative stack e) es

-- the path of these elements without a slash at its start, "." for none
abbrev pub relative : List Bytes → Bytes
relative [] = dot
relative (e ∷ []) = e
relative (e ∷ es) = relative es ++ b'/' ∷ e

abbrev pub is_rooted : Bytes → Bool
is_rooted [] = false
is_rooted (b ∷ bs) = is_slash b

-- path.Clean
unfoldable pub clean : Bytes → Bytes
unfolding elements resolve resolve_relative
clean p =
    if is_rooted p
    then rooted (resolve [] (elements p))
    else relative (resolve_relative [] (elements p))

abbrev pub trim_left : Bytes → Bytes
trim_left [] = []
trim_left (b ∷ bs) = let rest = trim_left bs in if is_slash b then rest else b ∷ bs

-- normalize
unfoldable pub normalize : Env → Bytes → Bytes
unfolding clean
normalize env name = clean (b'/' ∷ trim_left (env.nfc name))

-- `p[:i+1]` and `p[i+1:]` for the last slash `i`: path.Split
abbrev pub has_slash : Bytes → Bool
has_slash [] = false
has_slash (b ∷ bs) = is_slash b || has_slash bs

unfoldable pub split_dir : Bytes → Bytes
split_dir [] = []
split_dir (b ∷ bs) =
    let rest = split_dir bs in if has_slash bs then b ∷ rest else if is_slash b then b ∷ [] else []

unfoldable pub split_file : Bytes → Bytes
split_file [] = []
split_file (b ∷ bs) =
    let rest = split_file bs in if has_slash bs then rest else if is_slash b then bs else b ∷ bs

-- path.Dir
unfoldable pub dir : Bytes → Bytes
unfolding split_dir clean
dir p = clean (split_dir p)

-- path.Base of a path without a trailing slash
unfoldable pub base : Bytes → Bytes
unfolding split_file
base p = split_file p

-- pathHasPrefix
unfoldable pub path_has_prefix : Bytes → Bytes → Bool
path_has_prefix child parent =
    bytes_eq child parent
    || (ltb (length parent) (length child)
        && (bytes_eq (take (length parent) child) parent
            && has_prefix (drop (length parent) child) (b'/' ∷ [])))

-- strings.HasPrefix(dst+"/", src+"/")
unfoldable pub is_within : Bytes → Bytes → Bool
is_within dst src = has_prefix (dst ++ b'/' ∷ []) (src ++ b'/' ∷ [])

-- strings.TrimPrefix
unfoldable pub trim_prefix : Bytes → Bytes → Bytes
trim_prefix p prefix = if has_prefix p prefix then drop (length prefix) p else p
