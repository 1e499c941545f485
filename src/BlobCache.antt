-- ===== src/BlobCache.antt =====
-- internal/service/cache/blobcache.go: the disk cache of whole blobs.
--
-- The map `index` and the list `lru` hold the same entries, and every operation changes both
-- together: one list, most recently used first, stands for them. An entry is a pointer in the code:
-- `ref` is its identity. `disk` is what reading a blob's file gives. A bound of 0 stands for the
-- code's non-positive `maxBytes`. Whether the file system lets a file be removed or written is an
-- argument.
pub mod Entries
pub mod Eviction
pub mod Idle
pub mod History
pub mod Files
use tgwebdav.Base.{
  ℕ, zero, suc, ◌+◌, ◌-◌, ◌<◌, Bool, true, false, not, Option, none, some, List, [], ◌∷◌, ltb, ◌==◌,
  if◌then◌else◌, length, keep, find_first, sum_by,
}
use tgwebdav.Model.{Uuid, Instant, Bytes}

pub record Entry : Type 0 where
  pub ref : ℕ
  pub id : Uuid
  pub size : ℕ
  pub last_access : Instant

pub record Cache : Type 0 where
  pub max_bytes : ℕ
  pub idle_ttl : ℕ
  pub lru : List Entry
  pub total : ℕ
  pub disk : Uuid → Option Bytes
  pub next_ref : ℕ

abbrev pub entry_of : Uuid → List Entry → Option Entry
entry_of id es = find_first (λ (e : Entry). e.id == id) es

-- `lru.Remove` and `delete(index, id)`
abbrev pub without : Uuid → List Entry → List Entry
without id es = keep (λ (e : Entry). not (e.id == id)) es

-- `lru.Back()`
abbrev pub back : List Entry → Option Entry
back [] = none
back (e ∷ []) = some e
back (e ∷ f ∷ es) = back (f ∷ es)

abbrev pub write_file : Uuid → Option Bytes → (Uuid → Option Bytes) → Uuid → Option Bytes
write_file id bytes disk k = if k == id then bytes else disk k

-- Stats, Has
unfoldable pub stats : Cache → ℕ × ℕ
stats c = (c.total, length c.lru)

unfoldable pub has : Cache → Uuid → Bool
has c id = elim (entry_of id c.lru) [ none ↦ false | some _ ↦ true ]

module _ (can_remove : Uuid → Bool) where
  -- removeLocked. `total` is clamped at 0, as subtraction is here.
  unfoldable pub remove_locked : Cache → Entry → Cache
  remove_locked c e = record c {
    disk = if can_remove e.id then write_file e.id none c.disk else c.disk;
    lru = without e.id c.lru;
    total = c.total - e.size;
  }

  abbrev pub evict_next : Bool → Option Entry → (Cache → Cache) → Cache → Cache
  evict_next true (some e) again c = again (remove_locked c e)
  evict_next true none again c = c
  evict_next false o again c = c

  -- The loop of evictLocked; each round removes an entry, so there are no more rounds than entries.
  unfoldable pub evict_rounds : ℕ → Cache → Cache
  evict_rounds zero c = c
  evict_rounds (suc n) c = evict_next (ltb c.max_bytes c.total) (back c.lru) (evict_rounds n) c

  unfoldable pub evict_locked : Cache → Cache
  unfolding evict_rounds remove_locked
  evict_locked c = if c.max_bytes == 0 then c else evict_rounds (length c.lru) c

  -- The file was written and renamed into place: the bookkeeping of `Put`.
  abbrev pub enter : Option Entry → Cache → Uuid → Bytes → Instant → Cache
  enter (some e) c id bytes now = record c {
    total = c.total + length bytes - e.size;
    lru = record e { size = length bytes; last_access = now } ∷ without e.id c.lru;
  }
  enter none c id bytes now = record c {
    total = c.total + length bytes;
    lru = record { ref = c.next_ref; id = id; size = length bytes; last_access = now } ∷ c.lru;
    next_ref = suc c.next_ref;
  }

  -- the critical section of `Put`
  unfoldable pub finish_put : Cache → Uuid → Bytes → Instant → Cache
  unfolding evict_locked
  finish_put c id bytes now = evict_locked (enter (entry_of id c.lru) c id bytes now)

  -- `os.Rename(tmpName, path)`, before it
  abbrev pub rename_into_place : Cache → Uuid → Bytes → Cache
  rename_into_place c id bytes = record c { disk = write_file id (some bytes) c.disk }

  -- Put, with nothing in between; `wrote` is whether the temporary file could be created, written,
  -- closed and renamed.
  unfoldable pub put : Bool → Cache → Uuid → Bytes → Instant → Cache × Bool
  unfolding finish_put
  put false c id bytes now = (c, false)
  put true c id bytes now = (finish_put (rename_into_place c id bytes) id bytes now, true)

  abbrev pub touch : Cache → Entry → Instant → Cache
  touch c e now = record c { lru = record e { last_access = now } ∷ without e.id c.lru }

  -- `cur, ok := c.index[id]; ok && cur == e`: the entry, which may have a new size by now, if it is
  -- the one that was looked up.
  abbrev pub if_current : Option Entry → Entry → (Entry → Cache) → Cache → Cache
  if_current none e act c = c
  if_current (some cur) e act c = if cur.ref == e.ref then act cur else c

  -- The second critical section of `Get`: the cache may have changed since `e` was looked up.
  unfoldable pub finish_get : Cache → Entry → Option Bytes → Instant → Cache × Option Bytes
  unfolding remove_locked
  finish_get c e none now = (if_current (entry_of e.id c.lru) e (remove_locked c) c, none)
  finish_get c e (some bytes) now =
      (if_current (entry_of e.id c.lru) e (λ cur. touch c cur now) c, some bytes)

  abbrev pub get_from : Option Entry → Cache → Uuid → Instant → Cache × Option Bytes
  get_from none c id now = (c, none)
  get_from (some e) c id now = finish_get c e (c.disk id) now

  -- Get, with nothing in between.
  unfoldable pub get : Cache → Uuid → Instant → Cache × Option Bytes
  unfolding finish_get
  get c id now = get_from (entry_of id c.lru) c id now

  -- Remove
  unfoldable pub remove : Cache → Uuid → Cache
  unfolding remove_locked
  remove c id = elim (entry_of id c.lru) [ none ↦ c | some e ↦ remove_locked c e ]

  abbrev pub sweep_next : Instant → Option Entry → (Cache → Cache) → Cache → Cache
  sweep_next cutoff none again c = c
  sweep_next cutoff (some e) again c =
      let rest = again (remove_locked c e) in if ltb e.last_access cutoff then rest else c

  -- sweepIdle walks from the back and stops at the first entry that is not idle.
  unfoldable pub sweep_rounds : ℕ → Instant → Cache → Cache
  sweep_rounds zero cutoff c = c
  sweep_rounds (suc n) cutoff c = sweep_next cutoff (back c.lru) (sweep_rounds n cutoff) c

  unfoldable pub sweep_idle : Cache → Instant → Cache
  unfolding sweep_rounds remove_locked
  sweep_idle c now = sweep_rounds (length c.lru) (now - c.idle_ttl) c
