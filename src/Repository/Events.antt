-- ===== src/Repository/Events.antt =====
-- EventRepository.Log of internal/repository/event.go.
use tgwebdav.Base.{ℕ, List, [], ◌∷◌, ◌++◌}
use tgwebdav.Model.{Uuid, EventKind, Event}
use tgwebdav.Store.{ok, Exec, ◌>>=◌, query, new_id, get_now}

-- LogEvent
abbrev pub insert_event : Event → List Event → List Event
insert_event e es = es ++ e ∷ []

module _ (uuids : ℕ → Uuid) where
  -- Log
  unfoldable pub log : EventKind → Uuid → Exec (Unit {0})
  log kind ref = do
    id ← new_id uuids
    now ← get_now
    query (λ d. (
      ok tt,
      record d {
        events = insert_event (record { id = id; ts = now; kind = kind; ref = ref }) d.events;
      },
    ))
