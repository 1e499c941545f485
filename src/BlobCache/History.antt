-- ===== src/BlobCache/History.antt =====
-- All histories of the cache: each critical section is a step, so that readers, writers and the
-- janitor may interleave in any way.
use tgwebdav.Base.{
  ◌-◌, ◌≤◌, ◌<◌, ◌≡◌, refl, ap, sym, subst, Bool, Option, none, some, List, [], ◌∷◌, arith, ◌==◌,
  Bool-cases, Option-cases, inl, inr, keep, sum_by, All-keep,
}
use tgwebdav.Model.{Uuid, Instant, Bytes}
use tgwebdav.BlobCache.{
  Entry, Cache, entry_of, remove_locked, enter, finish_put, rename_into_place, if_current,
  finish_get, touch, remove, sweep_idle,
}
use tgwebdav.BlobCache.Entries.{
  size_of, sum-without, Differs-without_self, Distinct-without, entry_of-none,
}
use tgwebdav.BlobCache.Eviction.{IsValid, evict_locked-Fitted}
use tgwebdav.BlobCache.Idle.{
  UsedBy, IsOrdered, is_fresh, UsedBy-take, IsOrdered-take, sweep_idle-keep,
}

-- The steps: the file of a `Put` coming into place; its critical section; the end of a `Get` that had
-- found an entry and read the file, or failed to; `Remove`; a tick of the janitor, which has read the
-- clock before it takes the lock, at the instant given.
pub data Op : Type 0 where
  rename_op : Uuid → Bytes → Op
  put_op : Uuid → Bytes → Op
  end_get_op : Entry → Option Bytes → Op
  remove_op : Uuid → Op
  sweep_op : Instant → Op

module _ (can_remove : Uuid → Bool) where
  unfoldable pub step : Cache → Op → Instant → Cache
  unfolding finish_put finish_get remove sweep_idle
  step c (rename_op id bytes) now = rename_into_place can_remove c id bytes
  step c (put_op id bytes) now = finish_put can_remove c id bytes now
  step c (end_get_op e read) now = (finish_get can_remove c e read now).0
  step c (remove_op id) now = remove can_remove c id
  step c (sweep_op read_at) now = sweep_idle can_remove c read_at

  -- The steps one after the other, each at its time.
  unfoldable pub run : Cache → List (Op × Instant) → Cache
  unfolding step
  run c [] = c
  run c ((o, now) ∷ rest) = run (step c o now) rest

  -- The clock does not run backwards.
  abbrev pub IsTimed : Instant → List (Op × Instant) → Type 0
  IsTimed t [] = Unit
  IsTimed t ((o, now) ∷ rest) = (t ≤ now) × IsTimed now rest

  -- The cache in order at a time.
  abbrev pub IsSound : Instant → Cache → Type 0
  IsSound t c =
      IsValid c × IsOrdered c.lru × UsedBy t c.lru × (c.total ≤ c.max_bytes) × (0 < c.max_bytes)

  UsedBy-later : (t u : Instant) (es : List Entry) → t ≤ u → UsedBy t es → UsedBy u es
  UsedBy-later t u [] h k = tt
  UsedBy-later t u (e ∷ es) h k = (omega (arith, k.0), UsedBy-later t u es h k.1)

  IsOrdered-keep : (p : Entry → Bool) (es : List Entry) → IsOrdered es → IsOrdered (keep p es)
  IsOrdered-keep p [] h = tt
  IsOrdered-keep p (e ∷ es) h = elim (Bool-cases (p e)) [
    | inl t ↦ rw t (All-keep _ p es h.0, IsOrdered-keep p es h.1)
    | inr f ↦ rw f (IsOrdered-keep p es h.1)
  ]

  sum_by-keep :
      (p : Entry → Bool) (es : List Entry) → sum_by size_of (keep p es) ≤ sum_by size_of es
  sum_by-keep p [] = omega arith
  sum_by-keep p (e ∷ es) = elim (Bool-cases (p e)) [
    | inl t ↦ rw t (omega (arith, sum_by-keep p es))
    | inr f ↦ rw f (omega (arith, sum_by-keep p es))
  ]

  later-IsSound : (t u : Instant) (c : Cache) → t ≤ u → IsSound t c → IsSound u c
  later-IsSound t u c h (v, o, used, bound, positive) =
      (v, o, UsedBy-later t u c.lru h used, bound, positive)

  remove_locked-IsSound :
      (t : Instant) (c : Cache) (e : Entry)
      → IsSound t c
      → entry_of e.id c.lru ≡ some e
      → IsSound t (remove_locked can_remove c e)
  unfolding remove_locked
  remove_locked-IsSound t c e (v, o, used, bound, positive) h =
      let weight = (sum-without e.id c.lru e v.0 h).0 in
      (
        (Distinct-without e.id c.lru v.0, omega (arith, weight, v.1)),
        IsOrdered-keep _ c.lru o,
        All-keep _ _ c.lru used,
        omega arith,
        positive,
      )

  own_entry :
      (id : Uuid) (c : Cache) (e : Entry)
      → IsValid c
      → entry_of id c.lru ≡ some e
      → entry_of e.id c.lru ≡ some e
  own_entry id c e v h =
      subst (λ k. entry_of k c.lru ≡ some e) (sym (sum-without id c.lru e v.0 h).1) h

  touch-IsSound :
      (t : Instant) (c : Cache) (e : Entry)
      → IsSound t c
      → entry_of e.id c.lru ≡ some e
      → IsSound t (touch can_remove c e t)
  touch-IsSound t c e (v, o, used, bound, positive) h =
      let weight = (sum-without e.id c.lru e v.0 h).0 in
      let earlier = All-keep _ _ c.lru used in
      (
        (
          (Differs-without_self e.id c.lru, Distinct-without e.id c.lru v.0),
          omega (arith, weight, v.1),
        ),
        (earlier, IsOrdered-keep _ c.lru o),
        (omega arith, earlier),
        bound,
        positive,
      )

  entered :
      (t : Instant) (c : Cache) (o : Option Entry) (id : Uuid) (bytes : Bytes)
      → IsSound t c
      → entry_of id c.lru ≡ o
      → IsValid (enter can_remove o c id bytes t)
        × IsOrdered (enter can_remove o c id bytes t).lru
        × UsedBy t (enter can_remove o c id bytes t).lru
        × ((enter can_remove o c id bytes t).max_bytes ≡ c.max_bytes)
  entered t c none id bytes (v, o, used, bound, positive) h =
      (((entry_of-none id c.lru h, v.0), omega (arith, v.1)), (used, o), (omega arith, used), refl)
  entered t c (some e) id bytes (v, o, used, bound, positive) h =
      let own = (sum-without id c.lru e v.0 h).1 in
      let there : entry_of e.id c.lru ≡ some e =
        subst (λ k. entry_of k c.lru ≡ some e) (sym own) h in
      let weight = (sum-without e.id c.lru e v.0 there).0 in
      let earlier = All-keep _ _ c.lru used in
      (
        (
          (Differs-without_self e.id c.lru, Distinct-without e.id c.lru v.0),
          omega (arith, weight, v.1),
        ),
        (earlier, IsOrdered-keep _ c.lru o),
        (omega arith, earlier),
        refl,
      )

  finish_put-IsSound :
      (t : Instant) (c : Cache) (id : Uuid) (bytes : Bytes)
      → IsSound t c
      → IsSound t (finish_put can_remove c id bytes t)
  unfolding finish_put
  finish_put-IsSound t c id bytes s =
      let d : Cache = enter can_remove (entry_of id c.lru) c id bytes t in
      let (valid, order, used, same) = entered t c (entry_of id c.lru) id bytes s refl in
      let (valid', bound, small, prefix, _, _) =
        evict_locked-Fitted can_remove d (omega (arith, same, s.4)) valid in
      (
        valid',
        subst IsOrdered (sym prefix) (IsOrdered-take _ d.lru order),
        subst (UsedBy t) (sym prefix) (UsedBy-take t _ d.lru used),
        omega (arith, small, bound),
        omega (arith, bound, same, s.4),
      )

  found-IsSound :
      (t : Instant) (c : Cache) (o : Option Entry) (e : Entry) (act : Entry → Cache)
      → entry_of e.id c.lru ≡ o
      → IsSound t c
      → ((cur : Entry) → entry_of cur.id c.lru ≡ some cur → IsSound t (act cur))
      → IsSound t (if_current can_remove o e act c)
  found-IsSound t c none e act h s k = s
  found-IsSound t c (some cur) e act h s k = elim (Bool-cases (cur.ref == e.ref)) [
    | inl u ↦ rw u (k cur (own_entry e.id c cur s.0 h))
    | inr u ↦ rw u s
  ]

  end_get-IsSound :
      (t : Instant) (c : Cache) (e : Entry) (read : Option Bytes)
      → IsSound t c
      → IsSound t (finish_get can_remove c e read t).0
  unfolding finish_get
  end_get-IsSound t c e none s =
      found-IsSound t c (entry_of e.id c.lru) e (remove_locked can_remove c) refl s
        (λ cur h. remove_locked-IsSound t c cur s h)
  end_get-IsSound t c e (some bytes) s =
      found-IsSound t c (entry_of e.id c.lru) e (λ cur. touch can_remove c cur t) refl s
        (λ cur h. touch-IsSound t c cur s h)

  remove-IsSound :
      (t : Instant) (c : Cache) (id : Uuid) → IsSound t c → IsSound t (remove can_remove c id)
  unfolding remove
  remove-IsSound t c id s = elim (Option-cases (entry_of id c.lru)) [
    | inl h ↦ rw (remove, h) s
    | inr (e, h) ↦ rw (remove, h) (remove_locked-IsSound t c e s (own_entry id c e s.0 h))
  ]

  sweep-IsSound :
      (t read_at : Instant) (c : Cache) → IsSound t c → IsSound t (sweep_idle can_remove c read_at)
  sweep-IsSound t read_at c (v, o, used, bound, positive) =
      let (valid, fresh, same) = sweep_idle-keep can_remove c read_at v o in
      let p = is_fresh (read_at - c.idle_ttl) in
      (
        valid,
        subst IsOrdered (sym fresh) (IsOrdered-keep p c.lru o),
        subst (UsedBy t) (sym fresh) (All-keep _ p c.lru used),
        omega (arith, valid.1, v.1, ap (sum_by size_of) fresh, sum_by-keep p c.lru),
        omega (arith, same),
      )

  step-IsSound : (t : Instant) (c : Cache) (o : Op) → IsSound t c → IsSound t (step c o t)
  unfolding step
  step-IsSound t c (rename_op id bytes) s = s
  step-IsSound t c (put_op id bytes) s = finish_put-IsSound t c id bytes s
  step-IsSound t c (end_get_op e read) s = end_get-IsSound t c e read s
  step-IsSound t c (remove_op id) s = remove-IsSound t c id s
  step-IsSound t c (sweep_op read_at) s = sweep-IsSound t read_at c s

  -- Whatever steps readers, writers and the janitor take, in any interleaving and with any failures
  -- of the file system, while the clock does not run backwards: the cache stays valid and within its
  -- bound, and its entries stay in the order of use.
  pub run-IsSound :
      (t : Instant) (c : Cache) (ops : List (Op × Instant))
      → IsTimed t ops
      → IsSound t c
      → (u : Instant) × IsSound u (run c ops)
  unfolding run
  run-IsSound t c [] timed s = (t, s)
  run-IsSound t c ((o, now) ∷ rest) timed s =
      run-IsSound now (step c o now) rest timed.1
        (step-IsSound now c o (later-IsSound t now c timed.0 s))
