-- ===== src/WebdavFs/Subtree.antt =====
-- The tree that the nodes form.
pub mod Below
use tgwebdav.Base.{
  or_true, and_false, ℕ, zero, suc, ◌<◌, ◌≡◌, refl, ap, sym, ◌∙◌, subst, Bool, true, false, ◌&&◌,
  ◌||◌, none, some, List, [], ◌∷◌, ◌++◌, arith, ◌==◌, ==_iff, ==_refl, &&_iff, Bool-cases,
  Option-cases, inl, inr, if◌then◌else◌, length, length-append, bytes_eq, bytes_eq→eq,
  bytes_eq_refl, Has, All,
}
use tgwebdav.Model.{Uuid, Bytes, Extent}
use tgwebdav.Repository.Nodes.Cascade.{is_in, parent_in, doomed}
use tgwebdav.Repository.Nodes.Closure.{doomed-start, doomed-closed, doomed-cause}
use tgwebdav.Repository.Nodes.Like.{has_prefix}
use tgwebdav.Store.{Db, NodeRow}
use tgwebdav.WebdavFs.Paths.{has_slash}
use tgwebdav.WebdavFs.Tree.{root_path}

-- at a path or below it
abbrev pub inside : Bytes → Bytes → Bool
inside top path = bytes_eq path top || has_prefix path (top ++ b'/' ∷ [])

pub same_test : (a b : Bool) → (a ≡ true → b ≡ true) → (b ≡ true → a ≡ true) → a ≡ b
same_test true b f g = sym (f refl)
same_test false true f g = g refl
same_test false false f g = refl

no_slash-prefix : (e top : Bytes) → has_slash e ≡ false → has_prefix e (top ++ b'/' ∷ []) ≡ false
unfolding has_prefix
no_slash-prefix [] [] h = refl
no_slash-prefix [] (q ∷ qs) h = refl
no_slash-prefix (b ∷ e) [] h = ground (arith, h)
no_slash-prefix (b ∷ e) (q ∷ qs) h =
    let k : has_slash e ≡ false = ground (arith, h) in
    rw (no_slash-prefix e qs k) (and_false (b == q))

-- A child is inside exactly if it is the top or its parent is inside.
pub inside_child :
    (text top name : Bytes)
    → has_slash name ≡ false
    → has_prefix (text ++ b'/' ∷ name) (top ++ b'/' ∷ []) ≡ inside top text
unfolding has_prefix
inside_child [] [] name h = refl
inside_child [] (q ∷ qs) name h = rw (no_slash-prefix name qs h) (and_false (b'/' == q))
inside_child (t ∷ ts) [] name h = refl
inside_child (t ∷ ts) (q ∷ qs) name h =
    rw (inside_child ts qs name h)
      (spread (t == q) (bytes_eq ts qs) (has_prefix ts (qs ++ b'/' ∷ [])))
  where
    spread : (a b c : Bool) → (a && (b || c)) ≡ ((a && b) || (a && c))
    spread true b c = refl
    spread false b c = refl

-- the path of a child: `dstPath + "/" + child.Name`, or below the root
abbrev pub stem : Bytes → Bytes
stem path = if bytes_eq path root_path then [] else path

-- No two rows have the same id.
abbrev pub AreDistinct : List NodeRow → Type 0
AreDistinct [] = Unit
AreDistinct (r ∷ rows) =
    All (λ (s : NodeRow). (s.node.id == r.node.id) ≡ false) rows × AreDistinct rows

pub All-Has :
    (P : NodeRow → Type 0) (rows : List NodeRow) (r : NodeRow) → All P rows → Has r rows → P r
All-Has P [] r h m = elim m [ ]
All-Has P (x ∷ rows) r h (inl e) = subst P (sym e) h.0
All-Has P (x ∷ rows) r h (inr m) = All-Has P rows r h.1 m

unique_row :
    (rows : List NodeRow) (r s : NodeRow)
    → AreDistinct rows
    → Has r rows
    → Has s rows
    → r.node.id ≡ s.node.id
    → r ≡ s
unique_row [] r s h m k e = elim m [ ]
unique_row (x ∷ rows) r s h (inl i) (inl j) e = i ∙ sym j
unique_row (x ∷ rows) r s h (inl i) (inr k) e =
    let other : (s.node.id == x.node.id) ≡ false = All-Has _ rows s h.0 k in
    let id : s.node.id ≡ x.node.id = sym e ∙ ap (λ (y : NodeRow). y.node.id) i in
    absurd (ground (arith, other, id))
unique_row (x ∷ rows) r s h (inr m) (inl j) e =
    let other : (r.node.id == x.node.id) ≡ false = All-Has _ rows r h.0 m in
    let id : r.node.id ≡ x.node.id = e ∙ ap (λ (y : NodeRow). y.node.id) j in
    absurd (ground (arith, other, id))
unique_row (x ∷ rows) r s h (inr m) (inr k) e = unique_row rows r s h.1 m k e

-- The rows form trees: ids are unique, an owner has one row at a path, a row without a parent is a
-- root, any other is its parent's path, a slash and a name, and only files have extents.
pub record IsTree (d : Db) : Type 0 where
  pub distinct : AreDistinct d.nodes
  pub one_path :
      (r s : NodeRow)
      → Has r d.nodes
      → Has s d.nodes
      → r.node.user_id ≡ s.node.user_id
      → r.node.path ≡ s.node.path
      → r ≡ s
  pub rooted_at : (r : NodeRow) → Has r d.nodes → r.node.parent_id ≡ none → r.node.path ≡ root_path
  pub placed :
      (r : NodeRow) (p : Uuid)
      → Has r d.nodes
      → r.node.parent_id ≡ some p
      → (s : NodeRow) × Has s d.nodes
        × (s.node.id ≡ p)
        × (s.node.user_id ≡ r.node.user_id)
        × (name : Bytes) × (has_slash name ≡ false)
        × (0 < length name)
        × (r.node.path ≡ stem s.node.path ++ b'/' ∷ name)
  pub on_files :
      (e : Extent)
      → Has e d.extents
      → (r : NodeRow) × Has r d.nodes × (r.node.id ≡ e.node_id) × (r.node.is_dir ≡ false)

pub same_row :
    (d : Db) (tree : IsTree d) (r s : NodeRow)
    → Has r d.nodes
    → Has s d.nodes
    → r.node.id ≡ s.node.id
    → r ≡ s
same_row d tree r s = unique_row d.nodes r s tree.distinct
