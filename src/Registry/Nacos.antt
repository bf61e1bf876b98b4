-- ===== src/Registry/Nacos.antt =====
-- registry/nacos.go: the registry on a Nacos server. What the server answers is an argument of each
-- operation, and the requests that it accepted or was sent are kept in `calls`, the latest first. A method
-- that holds the mutex is one step, and so are Close, Stop and GetService, whose parts no other call splits.
-- Services are values: no caller changes a list that it was given. `Next` is that of every watcher over the
-- network. The addresses, credentials and
-- directories of the client, OnEvent and the log are left out.
pub mod Calls
pub mod Steps
pub mod Requests
pub mod Released
pub mod Cached
mod Tests
use grodyia.Prelude.{
  ◌≡◌, refl, ap, ◌↔◌, arith, eq_iff, ℕ, suc, ◌-◌, ◌^◌, String, Bool, true, false, ◌&&◌, ◌||◌, not,
  List, [], ◌∷◌, ◌++◌, map, Option, none, some, if◌then◌else◌, Dict, insert, string_eq, nat_eq,
  ◌==◌, Comparable, length, ltb,
}
use grodyia.Prelude.Int.{ℤ, pos, negsuc}
use grodyia.Registry.{Service, Event, create, delete_event, update}
use grodyia.Registry.Memory.{instances, remove}
use grodyia.Registry.Address.{parse_addr, format_addr}
pub use grodyia.Registry.Watchers.{NetworkError, not_connected, failed, Outcome, done, error}
use grodyia.Registry.Watchers.{watcher_buffer_size, cache_put, cache_remove}

-- The fields read of a `model.Instance`.
pub record Instance : Type 0 where
  pub id : String
  pub ip : String
  pub port : ℕ
  pub healthy : Bool
  pub metadata : Dict String String

-- What names an instance in `RegisterInstanceParam` and in `DeregisterInstanceParam`.
pub record Place : Type 0 where
  pub service : String
  pub ip : String
  pub port : ℕ

-- A request to the server. Of a registration and of a subscription, only one that was accepted counts.
pub data Call : Type 0 where
  register_call deregister_call : Place → Call
  subscribe_call unsubscribe_call : String → Call
  close_call : Call

-- `mapped` says that the map `watchers` has it, `stopped` that `done` is closed. A watcher outlives
-- its entry, since its caller still holds it.
pub record NacosWatcher : Type 0 where
  pub id : ℕ
  pub events : List Event
  pub service : String
  pub subscribed : Bool
  pub mapped : Bool
  pub stopped : Bool

-- `connected` says that `client` is not nil. `watchers` has every watcher made.
pub record NacosRegistry : Type 0 where
  pub watch_service : String  -- opts.WatcherOption.Service
  pub connected : Bool
  pub services : Dict String (List Service)
  pub watchers : List NacosWatcher
  pub next_id : ℕ
  pub running : Bool
  pub registered : List Service
  pub calls : List Call

unfoldable pub new_registry : String → NacosRegistry
new_registry watched = record {
  watch_service = watched;
  connected = false;
  services = [];
  watchers = [];
  next_id = 0;
  running = false;
  registered = [];
  calls = [];
}

-- `made`: NewNamingClient gave a client.
unfoldable pub connect : Bool → NacosRegistry → NacosRegistry × Outcome (Unit {0})
connect made r =
    if r.running
    then (r, done tt)
    else if made
    then (record r { connected = true; running = true }, done tt)
    else (r, error failed)

-- `uint64(port)`
unfoldable pub to_uint64 : ℤ → ℕ
to_uint64 (pos n) = n
to_uint64 (negsuc n) = 2 ^ 64 - suc n

-- The instance that a service is registered and deregistered as.
unfoldable pub place : Service → Place
unfolding parse_addr to_uint64
place s =
    let (address, port) = parse_addr s.address (pos 80) in
    record { service = s.name; ip = address; port = to_uint64 port }

-- `select { case w.events <- event: default: }`
unfoldable pub send_event : Event → NacosWatcher → NacosWatcher
send_event event w =
    if ltb (length w.events) watcher_buffer_size
    then record w { events = w.events ++ event ∷ [] }
    else w

-- `notify`
unfoldable pub notify : Event → List NacosWatcher → List NacosWatcher
unfolding send_event
notify event [] = []
notify event (w ∷ ws) =
    let rest = notify event ws in
    let sent = send_event event w in
    if w.mapped && (w.service == "" || w.service == event.service.name)
    then sent ∷ rest
    else w ∷ rest

-- `Register` once the server has accepted.
unfoldable pub register_accepted : Service → ℕ → ℕ → NacosRegistry → NacosRegistry
unfolding place cache_put notify
register_accepted svc now stamp r =
    let s = record svc { last_seen = now; healthy = true } in
    record r {
      registered = r.registered ++ s ∷ [];
      services = cache_put s r.services;
      watchers = notify (record { type = create; service = s; timestamp = stamp }) r.watchers;
      calls = register_call (place svc) ∷ r.calls;
    }

-- `answer`: `none` for an error, and else the flag `success`.
unfoldable pub register :
    Service → ℕ → ℕ → Option Bool → NacosRegistry → NacosRegistry × Outcome (Unit {0})
unfolding register_accepted
register svc now stamp none r = (r, error (if r.connected then failed else not_connected))
register svc now stamp (some success) r =
    if not r.connected
    then (r, error not_connected)
    else if not success
    then (r, error failed)
    else (register_accepted svc now stamp r, done tt)

-- The requests after `deregisterInstance`.
unfoldable pub deregister_instance : Bool → Service → List Call → List Call
unfolding place
deregister_instance connected s calls =
    if connected then deregister_call (place s) ∷ calls else calls

-- `Deregister` after `deregisterInstance`.
unfoldable pub deregister_accepted : Service → ℕ → NacosRegistry → NacosRegistry
unfolding deregister_instance cache_remove notify remove
deregister_accepted s stamp r = record r {
  registered = remove s.id r.registered;
  services = cache_remove s r.services;
  watchers = notify (record { type = delete_event; service = s; timestamp = stamp }) r.watchers;
  calls = deregister_instance r.connected s r.calls;
}

-- `accepted`: DeregisterInstance gave no error; without a client it is not called.
unfoldable pub deregister : Service → ℕ → Bool → NacosRegistry → NacosRegistry × Outcome (Unit {0})
unfolding deregister_accepted deregister_instance
deregister s stamp accepted r =
    if r.connected && not accepted
    then (record r { calls = deregister_instance r.connected s r.calls }, error failed)
    else (deregister_accepted s stamp r, done tt)

-- Close's loop over the services.
unfoldable pub deregister_each : Bool → List Service → List Call → List Call
unfolding deregister_instance
deregister_each connected [] calls = calls
deregister_each connected (s ∷ rest) calls =
    deregister_each connected rest (deregister_instance connected s calls)

-- The requests after a watcher's Unsubscribe, where it has subscribed.
unfoldable pub unsubscribe : Bool → NacosWatcher → List Call → List Call
unsubscribe connected w calls =
    if w.subscribed && connected && not (w.service == "")
    then unsubscribe_call w.service ∷ calls
    else calls

-- Close's loop over the watchers of the map.
unfoldable pub unsubscribe_each : Bool → List NacosWatcher → List Call → List Call
unfolding unsubscribe
unsubscribe_each connected [] calls = calls
unsubscribe_each connected (w ∷ rest) calls =
    unsubscribe_each connected rest (if w.mapped then unsubscribe connected w calls else calls)

-- The watcher without its entry, and its `done` closed.
unfoldable pub retire : NacosWatcher → NacosWatcher
retire w = record w { mapped = false; stopped = true }

retire_each : List NacosWatcher → List NacosWatcher
unfolding retire
retire_each [] = []
retire_each (w ∷ ws) = (if w.mapped then retire w else w) ∷ retire_each ws

-- `Close` of a running registry.
unfoldable pub closed : NacosRegistry → NacosRegistry
unfolding deregister_each unsubscribe_each retire_each
closed r =
    let deregistered = deregister_each r.connected r.registered r.calls in
    let ended = unsubscribe_each r.connected r.watchers deregistered in
    record r {
      running = false;
      registered = [];
      watchers = retire_each r.watchers;
      calls = if r.connected then close_call ∷ ended else ended;
    }

unfoldable pub close : NacosRegistry → NacosRegistry
unfolding closed
close r = if not r.running then r else closed r

-- A service of an instance; the fields that the source does not set are zero.
unfoldable pub to_service : String → Instance → Service
unfolding format_addr
to_service name i = record {
  name = name;
  version = "";
  id = i.id;
  address = format_addr i.ip (pos i.port);
  metadata = i.metadata;
  endpoints = [];
  ttl = pos 0;
  last_seen = 0;
  healthy = i.healthy;
}

-- `instancesToServices`
unfoldable pub instances_to_services : String → List Instance → List Service
unfolding to_service
instances_to_services name l = map (to_service name) l

-- The fallback to the cache after an error of the server.
unfoldable pub from_cache : List Service → Outcome (List Service)
from_cache [] = error failed
from_cache (s ∷ rest) = done (s ∷ rest)

-- `answer`: what SelectInstances returned, or none for its error.
unfoldable pub get_service :
    String → Option (List Instance) → NacosRegistry → NacosRegistry × Outcome (List Service)
unfolding instances_to_services from_cache
get_service name none r =
    (r, if r.connected then from_cache (instances r.services name) else error not_connected)
get_service name (some l) r =
    let found = instances_to_services name l in
    if not r.connected
    then (r, error not_connected)
    else (record r { services = insert name found r.services }, done found)

unfoldable pub all_cached : Dict String (List Service) → List Service
all_cached [] = []
all_cached ((name, l) ∷ rest) = l ++ all_cached rest

unfoldable pub list_services : NacosRegistry → List Service
unfolding all_cached
list_services r = all_cached r.services

-- The watcher of `Watch`, once Subscribe has been called where it is.
unfoldable pub new_watcher : Bool → NacosRegistry → NacosWatcher
new_watcher accepted r = record {
  id = suc r.next_id;
  events = [];
  service = r.watch_service;
  subscribed = not (r.watch_service == "") && accepted;
  mapped = true;
  stopped = false;
}

-- The registry after `Watch`, with a client.
unfoldable pub watch_added : Bool → NacosRegistry → NacosRegistry
unfolding new_watcher
watch_added accepted r =
    let w = new_watcher accepted r in
    record r {
      next_id = suc r.next_id;
      watchers = r.watchers ++ w ∷ [];
      calls = if w.subscribed then subscribe_call w.service ∷ r.calls else r.calls;
    }

-- `accepted`: Subscribe gave no error. The result is the watcher's id.
unfoldable pub watch : Bool → NacosRegistry → NacosRegistry × Outcome ℕ
unfolding watch_added
watch accepted r =
    if not r.connected
    then (r, error not_connected)
    else if not (r.watch_service == "") && not accepted
    then (watch_added accepted r, error failed)
    else (watch_added accepted r, done (suc r.next_id))

-- The callback of a subscription, on instances without an error.
unfoldable pub callback : String → List Instance → ℕ → NacosWatcher → NacosWatcher
unfolding to_service send_event
callback name [] stamp w = w
callback name (i ∷ rest) stamp w =
    callback name rest stamp
      (send_event (record { type = update; service = to_service name i; timestamp = stamp }) w)

-- A change of the watcher with the id.
unfoldable pub at_watcher :
    ℕ → (NacosWatcher → NacosWatcher) → List NacosWatcher → List NacosWatcher
at_watcher id f [] = []
at_watcher id f (w ∷ ws) =
    let rest = at_watcher id f ws in if w.id == id then f w ∷ ws else w ∷ rest

-- The callback of the watcher with the id. Without a subscription the client has none.
unfoldable pub deliver : ℕ → List Instance → ℕ → NacosRegistry → NacosRegistry
unfolding at_watcher callback
deliver id found stamp r = record r {
  watchers = at_watcher id (callback r.watch_service found stamp) r.watchers;
}

-- The requests after the Unsubscribe of the watcher with the id.
unfoldable pub unsubscribe_at : Bool → ℕ → List NacosWatcher → List Call → List Call
unfolding unsubscribe
unsubscribe_at connected id [] calls = calls
unsubscribe_at connected id (w ∷ ws) calls =
    let rest = unsubscribe_at connected id ws calls in
    if w.id == id then unsubscribe connected w calls else rest

-- `Stop` of the watcher with the id.
unfoldable pub stop : ℕ → NacosRegistry → NacosRegistry
unfolding at_watcher unsubscribe_at retire
stop id r = record r {
  watchers = at_watcher id retire r.watchers;
  calls = unsubscribe_at r.connected id r.watchers r.calls;
}
