-- ===== src/WebdavFs/Subtree/Below.antt =====
-- A delete takes the rows at its node or below it.
use tgwebdav.Base.{
  or_true, and_false, ℕ, zero, suc, ◌<◌, ◌≡◌, refl, ap, sym, ◌∙◌, subst, Bool, true, false, ◌&&◌,
  ◌||◌, none, some, List, [], ◌∷◌, ◌++◌, arith, ◌==◌, ==_iff, ==_refl, &&_iff, Bool-cases,
  Option-cases, inl, inr, length, length-append, bytes_eq, bytes_eq→eq, bytes_eq_refl, Has,
}
use tgwebdav.Model.{Uuid, Bytes}
use tgwebdav.Repository.Nodes.Cascade.{is_in, parent_in, doomed}
use tgwebdav.Repository.Nodes.Closure.{doomed-start, doomed-closed, doomed-cause}
use tgwebdav.Repository.Nodes.Like.{has_prefix}
use tgwebdav.Store.{Db, NodeRow}
use tgwebdav.WebdavFs.Paths.{has_slash}
use tgwebdav.WebdavFs.Tree.{root_path}
use tgwebdav.WebdavFs.Subtree.{inside, same_test, inside_child, stem, IsTree, same_row}

module _ (d : Db) (tree : IsTree d) (top : NodeRow) (known : Has top d.nodes)
    (below : (top.node.path ≡ root_path) → ⊥) (absolute : 0 < length top.node.path) where
  abbrev pub gone : List Uuid
  gone = doomed (suc (length d.nodes)) (top.node.id ∷ []) d.nodes

  abbrev pub is_below : NodeRow → Bool
  is_below r = r.node.user_id == top.node.user_id && inside top.node.path r.node.path

  inside_root : (q : Bytes) → 0 < length q → (q ≡ root_path → ⊥) → inside q root_path ≡ false
  unfolding has_prefix
  inside_root [] l h = absurd (omega arith)
  inside_root (q ∷ []) l h = elim (Bool-cases (b'/' == q)) [
    | inl t ↦ let e : b'/' ≡ q = (==_iff b'/' q).0 t in absurd (h (ap (λ b. b ∷ []) (sym e)))
    | inr f ↦ rw f refl
  ]
  inside_root (q ∷ p ∷ qs) l h = rw (and_false (b'/' == q)) refl

  inside-stem : (path : Bytes) → inside top.node.path (stem path) ≡ inside top.node.path path
  unfolding has_prefix
  inside-stem path = elim (Bool-cases (bytes_eq path root_path)) [
    | inl t ↦
        let e : path ≡ root_path = bytes_eq→eq path root_path t in
        rw t (
          nothing top.node.path absolute
          ∙ sym (ap (inside top.node.path) e ∙ inside_root top.node.path absolute below))
    | inr f ↦ rw f refl
  ]
    where
      nothing : (q : Bytes) → 0 < length q → inside q [] ≡ false
      nothing [] l = absurd (omega arith)
      nothing (q ∷ qs) l = refl

  -- A row is in the subtree exactly if it is at its top, or its parent is in the subtree.
  inside_step :
      (path parent name : Bytes)
      → has_slash name ≡ false
      → path ≡ stem parent ++ b'/' ∷ name
      → inside top.node.path path ≡ (bytes_eq path top.node.path || inside top.node.path parent)
  inside_step path parent name h e =
      ap (λ b. bytes_eq path top.node.path || b)
        (ap (λ t. has_prefix t (top.node.path ++ b'/' ∷ [])) e
          ∙ inside_child (stem parent) top.node.path name h
          ∙ inside-stem parent)

  shorter :
      (path parent name : Bytes)
      → 0 < length name
      → path ≡ stem parent ++ b'/' ∷ name
      → length parent < length path
  shorter path parent name l e = elim (Bool-cases (bytes_eq parent root_path)) [
    | inl t ↦
        let r : length parent ≡ 1 = ap (length {A = ℕ}) (bytes_eq→eq parent root_path t) in
        omega (arith, r, ap (length {A = ℕ}) e, length-append (stem parent) (b'/' ∷ name))
    | inr f ↦
        let s : stem parent ≡ parent = rw f refl in
        omega (
          arith,
          ap (length {A = ℕ}) e,
          ap (length {A = ℕ}) s,
          length-append (stem parent) (b'/' ∷ name),
        )
  ]

  parent_in-some :
      (r : NodeRow) (p : Uuid) (ids : List Uuid)
      → r.node.parent_id ≡ some p
      → parent_in ids r ≡ is_in p ids
  unfolding parent_in
  parent_in-some r p ids e = rw e refl

  parent_in-none :
      (r : NodeRow) (ids : List Uuid) → r.node.parent_id ≡ none → parent_in ids r ≡ false
  unfolding parent_in
  parent_in-none r ids e = rw e refl

  below_lem :
      (r : NodeRow)
      → r.node.user_id ≡ top.node.user_id
      → inside top.node.path r.node.path ≡ true
      → is_below r ≡ true
  below_lem r u i = rw (u, ==_refl top.node.user_id) i

  goes :
      (n : ℕ) (r : NodeRow)
      → Has r d.nodes
      → length r.node.path < n
      → is_in r.node.id gone ≡ true
      → is_below r ≡ true
  unfolding is_in
  goes zero r m short h = absurd (omega arith)
  goes (suc n) r m short h =
      elim (doomed-cause (suc (length d.nodes)) (top.node.id ∷ []) d.nodes r.node.id h) [
        | inl first ↦ at_top first
        | inr (s, ms, e, t) ↦
            let same : s ≡ r = same_row d tree s r ms m e in
            climb (subst (λ x. parent_in gone x ≡ true) same t) (goes n)
      ]
    where
      at_top : is_in r.node.id (top.node.id ∷ []) ≡ true → is_below r ≡ true
      at_top first =
          let id : top.node.id ≡ r.node.id = ground (arith, first) in
          let same : top ≡ r = same_row d tree top r known m id in
          subst (λ x. is_below x ≡ true) same
            (below_lem top refl (rw (bytes_eq_refl top.node.path) refl))

      climb :
          parent_in gone r ≡ true
          → ((s : NodeRow)
              → Has s d.nodes
              → length s.node.path < n
              → is_in s.node.id gone ≡ true
              → is_below s ≡ true)
          → is_below r ≡ true
      climb t again = elim (Option-cases r.node.parent_id) [
        | inl e ↦ cc (t, parent_in-none r gone e)
        | inr (p, e) ↦
            let (s, ms, id, user, name, clean, long, path) = tree.placed r p m e in
            let up : is_in s.node.id gone ≡ true =
              ap (λ k. is_in k gone) id ∙ sym (parent_in-some r p gone e) ∙ t in
            let less = shorter r.node.path s.node.path name long path in
            let b = (&&_iff _ _).0 (again s ms (omega (arith, less)) up) in
            below_lem r (sym user ∙ (==_iff s.node.user_id top.node.user_id).0 b.0) (
              inside_step r.node.path s.node.path name clean path
              ∙ ap (λ x. bytes_eq r.node.path top.node.path || x) b.1
              ∙ or_true (bytes_eq r.node.path top.node.path))
      ]

  stays :
      (n : ℕ) (r : NodeRow)
      → Has r d.nodes
      → length r.node.path < n
      → is_below r ≡ true
      → is_in r.node.id gone ≡ true
  unfolding is_in
  stays zero r m short h = absurd (omega arith)
  stays (suc n) r m short h =
      let (u, i) = (&&_iff _ _).0 h in
      let user : r.node.user_id ≡ top.node.user_id = (==_iff r.node.user_id top.node.user_id).0 u in
      elim (Bool-cases (bytes_eq r.node.path top.node.path)) [
        | inl t ↦
            let same : r ≡ top =
              tree.one_path r top m known user (bytes_eq→eq r.node.path top.node.path t) in
            doomed-start (suc (length d.nodes)) (top.node.id ∷ []) d.nodes r.node.id
              (rw (ap (λ (x : NodeRow). x.node.id) same, ==_refl top.node.id) refl)
        | inr f ↦ under user i f (stays n)
      ]
    where
      under :
          r.node.user_id ≡ top.node.user_id
          → inside top.node.path r.node.path ≡ true
          → bytes_eq r.node.path top.node.path ≡ false
          → ((s : NodeRow)
              → Has s d.nodes
              → length s.node.path < n
              → is_below s ≡ true
              → is_in s.node.id gone ≡ true)
          → is_in r.node.id gone ≡ true
      under user i f again = elim (Option-cases r.node.parent_id) [
        | inl e ↦
            let no_one =
              ap (inside top.node.path) (tree.rooted_at r m e)
              ∙ inside_root top.node.path absolute below in
            cc (i, no_one)
        | inr (p, e) ↦
            let (s, ms, id, user', name, clean, long, path) = tree.placed r p m e in
            let less = shorter r.node.path s.node.path name long path in
            let up : inside top.node.path s.node.path ≡ true =
              ap (λ b. b || inside top.node.path s.node.path) (sym f)
              ∙ sym (inside_step r.node.path s.node.path name clean path)
              ∙ i in
            let up' = again s ms (omega (arith, less)) (below_lem s (user' ∙ user) up) in
            doomed-closed (suc (length d.nodes)) (top.node.id ∷ []) d.nodes r (omega arith) m
              (parent_in-some r p gone e ∙ ap (λ k. is_in k gone) (sym id) ∙ up')
      ]

  -- Deleting a node other than the root takes exactly the rows of its owner at its path or below.
  pub gone-is_below : (r : NodeRow) → Has r d.nodes → is_in r.node.id gone ≡ is_below r
  gone-is_below r m =
      same_test (is_in r.node.id gone) (is_below r)
        (goes (suc (length r.node.path)) r m (omega arith))
        (stays (suc (length r.node.path)) r m (omega arith))
