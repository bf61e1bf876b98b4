-- ===== src/Registry/Watchers.antt =====
-- registry/consul.go, registry/etcd.go and registry/nacos.go: the watchers of a registry over the network,
-- and the cache that it keeps. A watcher that runs its own loop against the server is that loop's part of
-- the model. Nacos has watchers of its own.
use grodyia.Prelude.{
  ℕ, String, Bool, ◌&&◌, ◌||◌, Option, none, some, List, [], ◌∷◌, ◌++◌, if◌then◌else◌, Dict, insert,
  string_eq, nat_eq, ◌==◌, length, ltb,
}
use grodyia.Registry.{Service, Event}
use grodyia.Registry.Memory.{instances, has_id, replace, remove}

-- `failed` is an error of the server, which the methods wrap.
pub data NetworkError : Type 0 where
  not_connected not_found failed : NetworkError

pub data Outcome {ℓ} (A : Type ℓ) : Type ℓ where
  done : A → Outcome A
  error : NetworkError → Outcome A

-- The capacity of `events`.
abbrev pub watcher_buffer_size : ℕ
watcher_buffer_size = 100

-- `service` is empty for a watcher of all services.
pub record Watcher : Type 0 where
  pub id : ℕ
  pub events : List Event
  pub service : String

-- `select { case w.events <- event: default: }`
unfoldable pub send_event : Event → Watcher → Watcher
send_event event w =
    if ltb (length w.events) watcher_buffer_size
    then record w { events = w.events ++ event ∷ [] }
    else w

unfoldable pub offer : Event → Watcher → Watcher
unfolding send_event
offer event w = if w.service == "" || w.service == event.service.name then send_event event w else w

-- `notify`
unfoldable pub notify : Event → List Watcher → List Watcher
unfolding offer
notify event [] = []
notify event (w ∷ ws) = offer event w ∷ notify event ws

-- `delete(r.watchers, w.id)`
unfoldable pub delete_watcher : ℕ → List Watcher → List Watcher
delete_watcher id [] = []
delete_watcher id (w ∷ ws) =
    let rest = delete_watcher id ws in if w.id == id then rest else w ∷ rest

-- The local cache after `Register` and after `Deregister`.
unfoldable pub cache_put : Service → Dict String (List Service) → Dict String (List Service)
unfolding replace
cache_put s services =
    let old = instances services s.name in
    insert s.name (if has_id s.id old then replace s old else old ++ s ∷ []) services

unfoldable pub cache_remove : Service → Dict String (List Service) → Dict String (List Service)
unfolding remove
cache_remove s services =
    let old = instances services s.name in
    if has_id s.id old then insert s.name (remove s.id old) services else services

-- `Next` of a watcher whose channel has waiting events, and whose `done` is closed or not; where both are
-- ready Go takes either, here by `prefer_done`. `none` where the call blocks.
unfoldable pub next : List Event → Bool → Bool → Option (List Event × Option Event)
next [] stopped prefer_done = if stopped then some ([], none) else none
next (e ∷ rest) stopped prefer_done =
    if stopped && prefer_done then some (e ∷ rest, none) else some (rest, some e)
