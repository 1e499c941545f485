-- ===== src/WebdavFs/DeleteAll.antt =====
-- RemoveAll as a whole.
use tgwebdav.Base.{
  ◌||◌, ℕ, ◌<◌, ◌≡◌, refl, ap, sym, ◌∙◌, subst, Bool, true, false, ==_iff, &&_iff, some, List, [],
  ◌∷◌, arith, Bool-cases, Option-cases, inl, inr, length, length-append, find_first, bytes_eq,
  bytes_eq→eq, bytes_eq_refl, Has,
}
use tgwebdav.Model.{Uuid, Bytes, Node, User}
use tgwebdav.Repository.Nodes.{is_at, find_by_path, get_by_path}
use tgwebdav.Store.{
  Result, ok, err, storage, Db, World, Exec, NodeRow, fail_if, ◌>>=◌, attempt, next_fault,
  is_refused, is_refusal, answer, query, with_tx,
}
use tgwebdav.Store.Rules.{Gives, with_tx_settles}
use tgwebdav.WebdavFs.Balance.{IsBalanced}
use tgwebdav.WebdavFs.Delete.{remove_subtree-Gives}
use tgwebdav.WebdavFs.Env.{Env}
use tgwebdav.WebdavFs.Paths.{normalize}
use tgwebdav.WebdavFs.Subtree.{IsTree, stem}
use tgwebdav.WebdavFs.Tree.{root_path, to_fs_err, remove_subtree, remove_all}

find_first-Has :
    (p : NodeRow → Bool) (rows : List NodeRow) (r : NodeRow)
    → find_first p rows ≡ some r
    → Has r rows × (p r ≡ true)
find_first-Has p [] r h = cc h
find_first-Has p (x ∷ rows) r h = elim (Bool-cases (p x)) [
  | inl t ↦
      let first : some x ≡ some r = rw t at h in
      let same : x ≡ r = cc first in (inl (sym same), ap p (sym same) ∙ t)
  | inr f ↦ let k = find_first-Has p rows r (rw f at h) in (inr k.0, k.1)
]

-- The row that GetByPath found.
found_row :
    (user : Uuid) (p : Bytes) (rows : List NodeRow) (n : Node)
    → find_by_path user p rows ≡ ok n
    → (r : NodeRow) × Has r rows × (r.node ≡ n) × (n.user_id ≡ user) × (n.path ≡ p)
unfolding find_by_path is_at
found_row user p rows n h = elim (Option-cases (find_first (is_at user p) rows)) [
  | inl e ↦ cc (rw e at h)
  | inr (r, e) ↦
      let there : ok r.node ≡ ok n = rw e at h in
      let same : r.node ≡ n = cc there in
      let (m, t) = find_first-Has (is_at user p) rows r e in
      let (u, q) = (&&_iff _ _).0 t in
      (
        r,
        m,
        same,
        ap (λ (x : Node). x.user_id) (sym same) ∙ (==_iff r.node.user_id user).0 u,
        ap (λ (x : Node). x.path) (sym same) ∙ bytes_eq→eq r.node.path p q,
      )
]

pub not_empty_path : (d : Db) → IsTree d → (r : NodeRow) → Has r d.nodes → 0 < length r.node.path
not_empty_path d tree r m = elim (Option-cases r.node.parent_id) [
  | inl e ↦ omega (arith, ap (length {A = ℕ}) (tree.rooted_at r m e))
  | inr (p, e) ↦
      let (s, ms, id, user, name, clean, long, path) = tree.placed r p m e in
      omega (arith, ap (length {A = ℕ}) path, length-append (stem s.node.path) (b'/' ∷ name))
]

removed-IsBalanced :
    (env : Env) (user : Uuid) (p : Bytes) (n : Node) (w : World)
    → w.in_tx ≡ false
    → IsTree w.db
    → IsBalanced w.db
    → bytes_eq p root_path ≡ false
    → find_by_path user p w.db.nodes ≡ ok n
    → IsBalanced (with_tx (remove_subtree env user p n) w).1.db
removed-IsBalanced env user p n w outside tree b other h =
    let (r, m, same, owner, path) = found_row user p w.db.nodes n h in
    let below : (r.node.path ≡ root_path) → ⊥ = λ e.
      let at : p ≡ root_path = sym path ∙ ap (λ (x : Node). x.path) (sym same) ∙ e in
      let yes' : bytes_eq p root_path ≡ true =
        ap (λ x. bytes_eq x root_path) at ∙ bytes_eq_refl root_path in
      cc (yes', other) in
    let g = remove_subtree-Gives env w.db tree r m below (not_empty_path w.db tree r m) b in
    let same_run : remove_subtree env r.node.user_id r.node.path r.node
        ≡ remove_subtree env user p n =
      ap (λ (x : Node). remove_subtree env x.user_id x.path x) same
      ∙ ap (λ u. remove_subtree env u n.path n) owner
      ∙ ap (λ q. remove_subtree env user q n) path in
    elim (with_tx_settles (remove_subtree env user p n)
      (subst (λ (x : Exec (Unit {0})). Gives (λ d. d ≡ w.db) x (λ _. IsBalanced)) same_run g) w
      outside refl) [ inl nothing ↦ subst IsBalanced (sym nothing) b | inr all ↦ all ]

-- What RemoveAll does with the answer of GetByPath.
abbrev with_answer : Env → Uuid → Bytes → Result Node → Exec (Unit {0})
with_answer env user p r = to_fs_err r >>= λ node. with_tx (remove_subtree env user p node)

answered :
    (env : Env) (user : Uuid) (p : Bytes) (r : Result Node) (w : World)
    → w.in_tx ≡ false
    → IsTree w.db
    → IsBalanced w.db
    → bytes_eq p root_path ≡ false
    → ((n : Node) → r ≡ ok n → find_by_path user p w.db.nodes ≡ ok n)
    → IsBalanced (with_answer env user p r w).1.db
unfolding to_fs_err ◌>>=◌
answered env user p (ok n) w outside tree b other h =
    removed-IsBalanced env user p n w outside tree b other (h n refl)
answered env user p (err e) w outside tree b other h = b

found_or_not :
    (env : Env) (user : Uuid) (p : Bytes) (fault : Bool) (rest : List Bool) (w : World)
    → w.in_tx ≡ false
    → IsTree w.db
    → IsBalanced w.db
    → bytes_eq p root_path ≡ false
    → IsBalanced
        ((λ (v : World).
            let (r, v') = answer fault rest (λ d. (find_by_path user p d.nodes, d)) v in
            with_answer env user p r v')
          w).1.db
found_or_not env user p true rest w outside tree b other =
    answered env user p (err storage) (record w { faults = rest; tx_aborted = true }) outside tree b
      other (λ n h. cc h)
found_or_not env user p false rest w outside tree b other =
    answered env user p (find_by_path user p w.db.nodes)
      (record w {
        faults = rest;
        tx_aborted = is_refusal (find_by_path user p w.db.nodes) || w.tx_aborted;
      })
      outside tree b other (λ n h. h)

-- Outside a transaction, from rows that form trees and tables in which every blob's count is the
-- number of extents on it: after RemoveAll by a user, of whatever name, every blob's count is again
-- the number of extents on it, whether RemoveAll succeeds, is refused or fails at any call.
pub remove_all-IsBalanced :
    (env : Env) (user : User) (name : Bytes) (w : World)
    → w.in_tx ≡ false
    → IsTree w.db
    → IsBalanced w.db
    → IsBalanced (remove_all env (some user) name w).1.db
unfolding remove_all to_fs_err ◌>>=◌ attempt query get_by_path fail_if
remove_all-IsBalanced env user name w outside tree b =
    elim (Bool-cases (bytes_eq (normalize env name) root_path)) [
      | inl t ↦ rw t b
      | inr f ↦ rw f (
          found_or_not env user.id (normalize env name) (is_refused w) (next_fault w.faults).1 w
            outside tree b f)
    ]
