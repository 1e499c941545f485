-- ===== src/BlobCache/Files.antt =====
-- What the operations of the cache do to the files on disk: `Put` writes one, nothing else appears.
use tgwebdav.Base.{
  ℕ, zero, suc, ◌≡◌, ◌⊎◌, Bool, true, false, Option, none, some, ltb, ◌==◌, ==_iff, length,
  Bool-cases, inl, inr,
}
use tgwebdav.BlobCache.{
  Cache, Entry, entry_of, back, remove_locked, evict_next, evict_rounds, evict_locked, enter,
  finish_put, rename_into_place, put, if_current, finish_get, get_from, get, touch,
}
use tgwebdav.Model.{Uuid, Instant, Bytes}

-- The files of `c` were files of `d`, with the same bytes.
abbrev pub IsSub : Cache → Cache → Type 0
IsSub c d = (k : Uuid) (bytes : Bytes) → c.disk k ≡ some bytes → d.disk k ≡ some bytes

module _ (can_remove : Uuid → Bool) where
  remove_locked-IsSub : (c : Cache) (e : Entry) → IsSub (remove_locked can_remove c e) c
  unfolding remove_locked
  remove_locked-IsSub c e k bytes h = elim (Bool-cases (can_remove e.id)) [
    | inl t ↦ elim (Bool-cases (k == e.id)) [
      | inl same ↦ cc (rw (t, same) at h)
      | inr other ↦ rw (t, other) at h
    ]
    | inr f ↦ rw f at h
  ]

  evict_rounds-IsSub : (n : ℕ) (c : Cache) → IsSub (evict_rounds can_remove n c) c
  unfolding evict_rounds
  evict_rounds-IsSub zero c = λ k bytes h. h
  evict_rounds-IsSub (suc n) c = next (ltb c.max_bytes c.total) (back c.lru) (evict_rounds-IsSub n)
    where
      next :
          (over : Bool) (o : Option Entry)
          → ((d : Cache) → IsSub (evict_rounds can_remove n d) d)
          → IsSub (evict_next can_remove over o (evict_rounds can_remove n) c) c
      next true (some e) again k bytes h =
          remove_locked-IsSub c e k bytes (again (remove_locked can_remove c e) k bytes h)
      next true none again k bytes h = h
      next false o again k bytes h = h

  evict_locked-IsSub : (c : Cache) → IsSub (evict_locked can_remove c) c
  unfolding evict_locked
  evict_locked-IsSub c k bytes h = elim (Bool-cases (c.max_bytes == 0)) [
    | inl t ↦ rw t at h
    | inr f ↦ evict_rounds-IsSub (length c.lru) c k bytes (rw f at h)
  ]

  finish_put-IsSub :
      (c : Cache) (id : Uuid) (bytes : Bytes) (now : Instant)
      → IsSub (finish_put can_remove c id bytes now) c
  unfolding finish_put
  finish_put-IsSub c id bytes now k x h =
      entered (entry_of id c.lru)
        (evict_locked-IsSub (enter can_remove (entry_of id c.lru) c id bytes now) k x h)
    where
      entered :
          (o : Option Entry)
          → (enter can_remove o c id bytes now).disk k ≡ some x
          → c.disk k ≡ some x
      entered none e = e
      entered (some f) e = e

  -- A file after `Put` is the one that it wrote, or was there before.
  pub put-written :
      (wrote : Bool) (c : Cache) (id : Uuid) (bytes : Bytes) (now : Instant) (k : Uuid) (x : Bytes)
      → (put can_remove wrote c id bytes now).0.disk k ≡ some x
      → ((k ≡ id) × (x ≡ bytes)) ⊎ (c.disk k ≡ some x)
  unfolding put
  put-written false c id bytes now k x h = inr h
  put-written true c id bytes now k x h = elim (Bool-cases (k == id)) [
    | inl t ↦
        let e : some bytes ≡ some x =
          rw t at (finish_put-IsSub (rename_into_place can_remove c id bytes) id bytes now k x h) in
        inl ((==_iff k id).0 t, cc e)
    | inr f ↦
        inr
          (rw f at (finish_put-IsSub (rename_into_place can_remove c id bytes) id bytes now k x h))
  ]

  finish_get-IsSub :
      (c : Cache) (e : Entry) (o : Option Bytes) (now : Instant)
      → IsSub (finish_get can_remove c e o now).0 c
  unfolding finish_get
  finish_get-IsSub c e none now = current (entry_of e.id c.lru)
    where
      current :
          (o : Option Entry) → IsSub (if_current can_remove o e (remove_locked can_remove c) c) c
      current none k x h = h
      current (some cur) k x h = elim (Bool-cases (cur.ref == e.ref)) [
        | inl t ↦ remove_locked-IsSub c cur k x (rw t at h)
        | inr f ↦ rw f at h
      ]
  finish_get-IsSub c e (some bytes) now = current (entry_of e.id c.lru)
    where
      current :
          (o : Option Entry)
          → IsSub (if_current can_remove o e (λ cur. touch can_remove c cur now) c) c
      current none k x h = h
      current (some cur) k x h = elim (Bool-cases (cur.ref == e.ref)) [
        | inl t ↦ rw t at h
        | inr f ↦ rw f at h
      ]

  -- `Get` brings no file, and gives what the file of its entry holds.
  pub get-IsSub : (c : Cache) (id : Uuid) (now : Instant) → IsSub (get can_remove c id now).0 c
  unfolding get
  get-IsSub c id now = from (entry_of id c.lru)
    where
      from : (o : Option Entry) → IsSub (get_from can_remove o c id now).0 c
      from none k x h = h
      from (some e) k x h = finish_get-IsSub c e (c.disk id) now k x h

  pub get-disk :
      (c : Cache) (id : Uuid) (now : Instant) (bytes : Bytes)
      → (get can_remove c id now).1 ≡ some bytes
      → c.disk id ≡ some bytes
  unfolding get
  get-disk c id now bytes h = from (entry_of id c.lru) h
    where
      finished :
          (e : Entry) (o : Option Bytes)
          → (finish_get can_remove c e o now).1 ≡ some bytes
          → o ≡ some bytes
      finished e none k = cc k
      finished e (some b) k = k

      from :
          (o : Option Entry)
          → (get_from can_remove o c id now).1 ≡ some bytes
          → c.disk id ≡ some bytes
      from none k = cc k
      from (some e) k = finished e (c.disk id) k
