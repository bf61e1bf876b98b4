-- ===== src/Registry/Memory.antt =====
-- registry/memory.go: the in-memory registry. A method that holds the mutex is one step; the clock
-- is an argument. `notify` runs after the mutex is released, on the watchers that it then finds.
pub mod Instances
pub mod Invariant
pub mod Reach
pub mod Lookup
pub mod Removal
pub mod Watchers
mod Tests
use grodyia.Prelude.{
  ℕ, suc, ◌-◌, String, Bool, true, false, ◌&&◌, ◌||◌, not, List, [], ◌∷◌, ◌++◌, Option, none, some,
  if◌then◌else◌, Dict, lookup, insert, string_eq, ◌==◌, nat_eq, keep, length, ltb,
}
use grodyia.Prelude.Int.{ℤ, pos, negsuc, sub_ℕ, ltb_ℤ}
use grodyia.Registry.{
  Service, Event, EventType, create, delete_event, update, Error, not_found, watcher_stopped,
  Result, ok, err,
}

abbrev pub memory_watcher_buffer_size : ℕ
memory_watcher_buffer_size = 1024

-- A watcher that was ever created: `events` is the content of its channel, oldest first, `stopped`
-- says that `done` is closed, and `registered` that the registry's map of watchers has it.
pub record Watcher : Type 0 where
  pub id : ℕ
  pub events : List Event
  pub stopped : Bool
  pub service : String
  pub registered : Bool

-- `cleanups` counts the goroutines in `cleanup`.
pub record MemoryRegistry : Type 0 where
  pub watch_service : String  -- opts.WatcherOption.Service
  pub services : Dict String (List Service)
  pub watchers : List Watcher
  pub next_id : ℕ
  pub running : Bool
  pub cleanups : ℕ

unfoldable pub new_memory_registry : String → MemoryRegistry
new_memory_registry watched = record {
  watch_service = watched;
  services = [];
  watchers = [];
  next_id = 0;
  running = false;
  cleanups = 0;
}

unfoldable pub connect : MemoryRegistry → MemoryRegistry
connect r = if r.running then r else record r { running = true; cleanups = suc r.cleanups }

-- `w.once.Do(func() { close(w.done) })` on a watcher that the map has, and its removal.
unfoldable pub stop_registered : Watcher → Watcher
stop_registered w = if w.registered then record w { stopped = true; registered = false } else w

abbrev pub each_watcher : (Watcher → Watcher) → List Watcher → List Watcher
each_watcher f [] = []
each_watcher f (w ∷ ws) = f w ∷ each_watcher f ws

unfoldable pub close : MemoryRegistry → MemoryRegistry
unfolding stop_registered
close r =
    if r.running
    then record r {
      running = false;
      services = [];
      watchers = each_watcher stop_registered r.watchers;
    }
    else r

-- `services[name]`, the empty slice for a missing key.
abbrev pub instances : Dict String (List Service) → String → List Service
instances m name = elim (lookup name m) [ none ↦ [] | some l ↦ l ]

abbrev pub has_id : String → List Service → Bool
has_id id [] = false
has_id id (svc ∷ rest) = svc.id == id || has_id id rest

-- The loop of `Register`: the first entry with the id is replaced.
unfoldable pub replace : Service → List Service → List Service
replace s [] = []
replace s (svc ∷ rest) = if svc.id == s.id then s ∷ rest else svc ∷ replace s rest

-- `append(services[:i], services[i+1:]...)` at the first entry with the id.
unfoldable pub remove : String → List Service → List Service
remove id [] = []
remove id (svc ∷ rest) = if svc.id == id then rest else svc ∷ remove id rest

-- `select { case w.events <- event: default: }` of `notify`.
unfoldable pub offer : Event → Watcher → Watcher
offer event w =
    if w.registered && (w.service == "" || w.service == event.service.name)
    then (if ltb (length w.events) memory_watcher_buffer_size
        then record w { events = w.events ++ event ∷ [] }
        else w)
    else w

unfoldable pub notify : Event → MemoryRegistry → MemoryRegistry
notify event r = record r { watchers = each_watcher (offer event) r.watchers }

-- The part of `Register` under the mutex, and the event that it leaves for `notify`.
unfoldable pub register_locked : Service → ℕ → ℕ → MemoryRegistry → MemoryRegistry × Event
unfolding replace
register_locked svc now stamp r =
    let s = record svc { last_seen = now; healthy = true } in
    let old = instances r.services s.name in
    if has_id s.id old
    then (
      record r { services = insert s.name (replace s old) r.services },
      record { type = update; service = s; timestamp = stamp },
    )
    else (
      record r { services = insert s.name (old ++ s ∷ []) r.services },
      record { type = create; service = s; timestamp = stamp },
    )

unfoldable pub register : Service → ℕ → ℕ → MemoryRegistry → MemoryRegistry
unfolding register_locked notify
register svc now stamp r = let (r', event) = register_locked svc now stamp r in notify event r'

unfoldable pub deregister_locked : Service → ℕ → MemoryRegistry → MemoryRegistry × Option Event
unfolding remove
deregister_locked s stamp r =
    let old = instances r.services s.name in
    if has_id s.id old
    then (
      record r { services = insert s.name (remove s.id old) r.services },
      some (record { type = delete_event; service = s; timestamp = stamp }),
    )
    else (r, none)

notify_some : Option Event → MemoryRegistry → MemoryRegistry
unfolding notify
notify_some none r = r
notify_some (some event) r = notify event r

unfoldable pub deregister : Service → ℕ → MemoryRegistry → MemoryRegistry
unfolding deregister_locked notify_some
deregister s stamp r = let (r', event) = deregister_locked s stamp r in notify_some event r'

-- `s.TTL == 0 || now.Sub(s.LastSeen) < s.TTL`
abbrev pub is_zero : ℤ → Bool
is_zero (pos n) = n == 0
is_zero (negsuc n) = false

abbrev pub unexpired : ℕ → Service → Bool
unexpired now s = is_zero s.ttl || ltb_ℤ (sub_ℕ now s.last_seen) s.ttl

abbrev pub is_live : ℕ → Service → Bool
is_live now s = s.healthy && unexpired now s

unfoldable pub non_empty : List Service → Result (List Service)
non_empty [] = err not_found
non_empty (s ∷ rest) = ok (s ∷ rest)

-- The early return on a missing or empty entry gives the same error as an empty result.
unfoldable pub get_service : String → ℕ → MemoryRegistry → Result (List Service)
unfolding non_empty
get_service name now r = elim (lookup name r.services) [
  | none ↦ err not_found
  | some l ↦ non_empty (keep (is_live now) l)
]

list_entries : ℕ → Dict String (List Service) → List Service
list_entries now [] = []
list_entries now ((name, l) ∷ rest) = keep (is_live now) l ++ list_entries now rest

unfoldable pub list_services : ℕ → MemoryRegistry → List Service
unfolding list_entries
list_services now r = list_entries now r.services

unfoldable pub watch : MemoryRegistry → MemoryRegistry × ℕ
watch r =
    let id = suc r.next_id in
    let w : Watcher = record {
      id = id;
      events = [];
      stopped = false;
      service = r.watch_service;
      registered = true;
    } in
    (record r { next_id = id; watchers = r.watchers ++ w ∷ [] }, id)

-- One round of the loop over the services in `cleanup`: names left without services are deleted.
unfoldable pub sweep : ℕ → Dict String (List Service) → Dict String (List Service)
sweep now [] = []
sweep now ((name, l) ∷ rest) =
    let swept = sweep now rest in
    let active = keep (unexpired now) l in
    if ltb 0 (length active) then (name, active) ∷ swept else swept

unfoldable pub expired_events : ℕ → List Service → List Event
expired_events now [] = []
expired_events now (s ∷ rest) =
    let events = expired_events now rest in
    if unexpired now s
    then events
    else record { type = delete_event; service = s; timestamp = now } ∷ events

unfoldable pub all_expired : ℕ → Dict String (List Service) → List Event
unfolding expired_events
all_expired now [] = []
all_expired now ((name, l) ∷ rest) = expired_events now l ++ all_expired now rest

unfoldable pub notify_all : List Event → MemoryRegistry → MemoryRegistry
unfolding notify
notify_all [] r = r
notify_all (e ∷ rest) r = notify_all rest (notify e r)

-- A tick of the ticker of one goroutine in `cleanup`.
unfoldable pub cleanup : ℕ → MemoryRegistry → MemoryRegistry
unfolding sweep all_expired notify_all
cleanup now r =
    if r.running
    then notify_all (all_expired now r.services) (record r { services = sweep now r.services })
    else record r { cleanups = r.cleanups - 1 }

-- `Next`: where an event waits and the watcher is stopped, Go takes either branch, here by
-- `prefer_done`; `none` where the call blocks.
next_from : List Event → Watcher → Bool → Option (Watcher × Result Event)
next_from [] w prefer_done = if w.stopped then some (w, err watcher_stopped) else none
next_from (e ∷ rest) w prefer_done =
    if w.stopped && prefer_done
    then some (w, err watcher_stopped)
    else some (record w { events = rest }, ok e)

unfoldable pub next : Watcher → Bool → Option (Watcher × Result Event)
unfolding next_from
next w prefer_done = next_from w.events w prefer_done

unfoldable pub stop_id : ℕ → Watcher → Watcher
stop_id id w = if w.id == id then record w { stopped = true; registered = false } else w

-- `memoryWatcher.Stop`
unfoldable pub stop : ℕ → MemoryRegistry → MemoryRegistry
unfolding stop_id
stop id r = record r { watchers = each_watcher (stop_id id) r.watchers }
