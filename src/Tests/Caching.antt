-- ===== src/Tests/Caching.antt =====
-- The blob cache with room for ten bytes.
use tgwebdav.Base.{ℕ, ◌≤◌, ◌≡◌, refl, Bool, true, none, some, List, [], ◌∷◌, arith, keep}
use tgwebdav.Model.{Uuid, Instant}
use tgwebdav.BlobCache.{
  Entry, Cache, put, finish_put, get, remove, sweep_idle, evict_locked, evict_rounds, remove_locked,
  finish_get,
}
use tgwebdav.BlobCache.Eviction.{IsValid, Fitted, evict_locked-Fitted, put-get}
use tgwebdav.BlobCache.History.{
  Op, rename_op, put_op, end_get_op, remove_op, sweep_op, step, run, IsSound, run-IsSound,
}
use tgwebdav.BlobCache.Idle.{is_fresh, sweep_idle-keep}

abbrev anything : Uuid → Bool
anything id = true

abbrev entry : ℕ → ℕ → ℕ → Entry
entry id size used = record { ref = id; id = id; size = size; last_access = used }

abbrev empty : Cache
empty = record {
  max_bytes = 10;
  idle_ttl = 5;
  lru = [];
  total = 0;
  disk = λ id. none;
  next_ref = 1;
}

abbrev loaded : Cache
loaded = record empty {
  lru = entry 2 4 9 ∷ entry 1 3 7 ∷ entry 3 2 1 ∷ [];
  total = 9;
  disk = λ id. some [];
  next_ref = 4;
}

abbrev overfull : Cache
overfull = record loaded { max_bytes = 5 }

program : Unit {0}
unfolding put finish_put get remove sweep_idle evict_locked evict_rounds remove_locked finish_get
    step run
program = tt

-- Six more bytes push out the two entries at the back.
pushed :
    (put anything true loaded 7 (1 ∷ 2 ∷ 3 ∷ 4 ∷ 5 ∷ 6 ∷ []) 12).0.lru
    ≡ record (entry 7 6 12) { ref = 4 } ∷ entry 2 4 9 ∷ []
unfolding program
pushed = refl

-- One that was touched at 9 is kept at 13, the two older ones go.
swept : (sweep_idle anything loaded 13).lru ≡ entry 2 4 9 ∷ []
unfolding program
swept = refl

loaded-IsValid : IsValid loaded
loaded-IsValid = (((refl, (refl, tt)), ((refl, tt), (tt, tt))), refl)

evict_locked-Fitted_example : Fitted anything overfull (evict_locked anything overfull)
evict_locked-Fitted_example = evict_locked-Fitted anything overfull (omega arith) loaded-IsValid

put-get_example :
    IsValid (put anything true loaded 7 (1 ∷ 2 ∷ []) 12).0
    × ((put anything true loaded 7 (1 ∷ 2 ∷ []) 12).0.total ≤ 10)
    × ((get anything (put anything true loaded 7 (1 ∷ 2 ∷ []) 12).0 7 13).1 ≡ some (1 ∷ 2 ∷ []))
put-get_example =
    put-get anything loaded 7 (1 ∷ 2 ∷ []) 12 13 (omega arith) loaded-IsValid (omega arith)

sweep_idle-keep_example :
    IsValid (sweep_idle anything loaded 13)
    × ((sweep_idle anything loaded 13).lru ≡ keep (is_fresh 8) loaded.lru)
    × ((sweep_idle anything loaded 13).max_bytes ≡ 10)
sweep_idle-keep_example =
    sweep_idle-keep anything loaded 13 loaded-IsValid
      ((omega arith, (omega arith, tt)), ((omega arith, tt), (tt, tt)))

abbrev session : List (Op × Instant)
session =
    (rename_op 7 (1 ∷ 2 ∷ []), 10)
    ∷ (put_op 7 (1 ∷ 2 ∷ []), 10)
    ∷ (end_get_op (entry 2 4 9) (some []), 11)
    ∷ (end_get_op (entry 1 3 7) none, 11)
    ∷ (sweep_op 12, 13)
    ∷ (remove_op 7, 14)
    ∷ []

session_end : (run anything loaded session).lru ≡ entry 2 4 11 ∷ []
unfolding program
session_end = refl

run-IsSound_example : (u : Instant) × IsSound anything u (run anything loaded session)
run-IsSound_example =
    run-IsSound anything 9 loaded session
      (omega arith, (omega arith, (omega arith, (omega arith, (omega arith, (omega arith, tt))))))
      (
        loaded-IsValid,
        ((omega arith, (omega arith, tt)), ((omega arith, tt), (tt, tt))),
        (omega arith, (omega arith, (omega arith, tt))),
        omega arith,
        omega arith,
      )
