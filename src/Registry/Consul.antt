-- ===== src/Registry/Consul.antt =====
-- registry/consul.go: the registry on a Consul agent. What the agent answers is an argument of each
-- operation: `none` for an error. A method that holds the mutex is one step, and so are the parts of
-- GetService around its call. Services are values: no caller changes a list that it was given.
-- The addresses, TLS and credentials of the client, the TTL of the check and the log are left out.
pub mod Steps
pub mod Invariant
pub mod Fallback
pub mod Alive
pub mod Watching
mod Tests
use Prim.Native.String.{◌++◌ as append}
use grodyia.Prelude.{
  ℕ, suc, ◌+◌, String, Bool, true, false, ◌&&◌, ◌||◌, not, List, [], ◌∷◌, ◌++◌, map, Option, none,
  some, if◌then◌else◌, Dict, insert, string_eq, nat_eq, ◌==◌, length, ltb,
}
use grodyia.Prelude.Int.{ℤ, pos}
use grodyia.Registry.{Service, Event, create, delete_event, update}
use grodyia.Registry.Memory.{instances, remove}
use grodyia.Registry.Address.{parse_addr, format_addr}
pub use grodyia.Registry.Watchers.{
  NetworkError, not_connected, not_found, failed, Outcome, done, error,
}
use grodyia.Registry.Watchers.{Watcher, send_event, notify, delete_watcher, cache_put, cache_remove}

-- What Consul says of one service: `api.AgentServiceRegistration`, and the fields read of a `ServiceEntry`.
pub record Entry : Type 0 where
  pub id : String
  pub name : String
  pub address : String
  pub port : ℤ
  pub tags : List String
  pub meta : Dict String String

-- `connected` says that `client` is not nil, `stopped` that `stopCh` is closed. `loops` counts the
-- goroutines in healthCheckLoop.
pub record ConsulRegistry : Type 0 where
  pub watch_service : String  -- opts.WatcherOption.Service
  pub prefix : String
  pub services : Dict String (List Service)
  pub watchers : List Watcher
  pub next_id : ℕ
  pub connected : Bool
  pub running : Bool
  pub stopped : Bool
  pub registered : List Service
  pub loops : ℕ

-- The prefix that `newConsulRegistry` builds of Group and Namespace.
unfoldable pub build_prefix : String → String → String
build_prefix group space =
    if space == "" then group else if group == "" then space else append group (append "/" space)

unfoldable pub new_registry : String → String → String → ConsulRegistry
unfolding build_prefix
new_registry group space watched = record {
  watch_service = watched;
  prefix = build_prefix group space;
  services = [];
  watchers = [];
  next_id = 0;
  connected = false;
  running = false;
  stopped = false;
  registered = [];
  loops = 0;
}

-- `serviceName` and `serviceID`
unfoldable pub service_name : ConsulRegistry → String → String
service_name r name = if r.prefix == "" then name else append r.prefix (append "/" name)

unfoldable pub service_id : ConsulRegistry → String → String
service_id r id = if r.prefix == "" then id else append r.prefix (append "/" id)

-- `reachable`: the client was made and the agent answered.
unfoldable pub connect : Bool → ConsulRegistry → ConsulRegistry × Outcome (Unit {0})
connect reachable r =
    if r.running
    then (r, done tt)
    else if reachable
    then (record r { connected = true; running = true; loops = suc r.loops }, done tt)
    else (r, error failed)

-- `deregisterService`: the ids that the agent is asked to deregister.
unfoldable pub deregister_calls : ConsulRegistry → Service → List String
unfolding service_id
deregister_calls r s = if r.connected then service_id r s.id ∷ [] else []

deregister_each : ConsulRegistry → List Service → List String
unfolding deregister_calls
deregister_each r [] = []
deregister_each r (s ∷ rest) = deregister_calls r s ++ deregister_each r rest

-- The registry after `Close` and the ids it deregisters; `none` for the panic of closing `stopCh` twice.
unfoldable pub close : ConsulRegistry → Option (ConsulRegistry × List String)
unfolding deregister_each
close r =
    if not r.running
    then some (r, [])
    else if r.stopped
    then none
    else some (
      record r { running = false; stopped = true; registered = []; watchers = [] },
      deregister_each r r.registered,
    )

-- What `Register` sends to the agent.
unfoldable pub registration : Service → ConsulRegistry → Entry
unfolding service_id service_name parse_addr
registration s r =
    let (address, port) = parse_addr s.address (pos 80) in
    record {
      id = service_id r s.id;
      name = service_name r s.name;
      address = address;
      port = port;
      tags = s.version ∷ [];
      meta = s.metadata;
    }

-- `accepted`: ServiceRegister gave no error. An error of PassTTL is only logged.
unfoldable pub register : Service → ℕ → ℕ → Bool → ConsulRegistry → ConsulRegistry × Outcome Entry
unfolding registration cache_put notify
register svc now stamp accepted r =
    if not r.connected
    then (r, error not_connected)
    else if not accepted
    then (r, error failed)
    else (let s = record svc { last_seen = now; healthy = true } in
        (
          record r {
            registered = r.registered ++ s ∷ [];
            services = cache_put s r.services;
            watchers = notify (record { type = create; service = s; timestamp = stamp }) r.watchers;
          },
          done (registration svc r),
        ))

-- `accepted`: ServiceDeregister gave no error; without a client it is not called.
unfoldable pub deregister :
    Service → ℕ → Bool → ConsulRegistry → ConsulRegistry × Outcome (List String)
unfolding deregister_calls cache_remove notify remove
deregister s stamp accepted r = if r.connected && not accepted then (r, error failed) else (
  record r {
    registered = remove s.id r.registered;
    services = cache_remove s r.services;
    watchers = notify (record { type = delete_event; service = s; timestamp = stamp }) r.watchers;
  },
  done (deregister_calls r s),
)

version_of : List String → String
version_of [] = ""
version_of (tag ∷ rest) = tag

-- A service of an entry; the fields that the source does not set are zero.
unfoldable pub to_service : Entry → Service
unfolding version_of format_addr
to_service e = record {
  name = e.name;
  version = version_of e.tags;
  id = e.id;
  address = format_addr e.address e.port;
  metadata = e.meta;
  endpoints = [];
  ttl = pos 0;
  last_seen = 0;
  healthy = true;
}

-- The fallback to the cache after an error of the agent.
unfoldable pub from_cache : List Service → Outcome (List Service)
from_cache [] = error failed
from_cache (s ∷ rest) = done (s ∷ rest)

-- `GetService` on the answer of the agent for `serviceName(name)`.
get_answered :
    String → Option (List Entry) → ConsulRegistry → ConsulRegistry × Outcome (List Service)
unfolding to_service from_cache
get_answered name none r = (r, from_cache (instances r.services name))
get_answered name (some []) r = (r, error not_found)
get_answered name (some (e ∷ es)) r =
    let found = map to_service (e ∷ es) in
    (record r { services = insert name found r.services }, done found)

unfoldable pub get_service :
    String → Option (List Entry) → ConsulRegistry → ConsulRegistry × Outcome (List Service)
unfolding get_answered
get_service name answer r =
    if r.connected then get_answered name answer r else (r, error not_connected)

all_cached : Dict String (List Service) → List Service
all_cached [] = []
all_cached ((name, l) ∷ rest) = l ++ all_cached rest

found_services : Outcome (List Service) → List Service
found_services (done l) = l
found_services (error e) = []

-- The loop of `ListServices` over the names that the catalog has, each with the agent's answer.
list_names : List (String × Option (List Entry)) → ConsulRegistry → ConsulRegistry × List Service
unfolding get_service found_services
list_names [] r = (r, [])
list_names ((name, answer) ∷ rest) r =
    let (r', found) = get_service name answer r in
    let after = if name == "consul" then r else r' in
    let (r'', others) = list_names rest after in
    (r'', if name == "consul" then others else found_services found ++ others)

list_answered :
    Option (List (String × Option (List Entry))) → ConsulRegistry → ConsulRegistry × List Service
unfolding all_cached list_names
list_answered none r = (r, all_cached r.services)
list_answered (some names) r = list_names names r

unfoldable pub list_services :
    Option (List (String × Option (List Entry)))
    → ConsulRegistry
    → ConsulRegistry × Outcome (List Service)
unfolding list_answered
list_services catalog r =
    if r.connected
    then (let (r', l) = list_answered catalog r in (r', done l))
    else (r, error not_connected)

unfoldable pub watch : ConsulRegistry → ConsulRegistry × Outcome ℕ
watch r =
    let id = suc r.next_id in
    let w : Watcher = record { id = id; events = []; service = r.watch_service } in
    if r.connected
    then (record r { next_id = id; watchers = r.watchers ++ w ∷ [] }, done id)
    else (r, error not_connected)

-- `Stop` of the watcher with the id, as far as the registry sees it.
unfoldable pub stop : ℕ → ConsulRegistry → ConsulRegistry
unfolding delete_watcher
stop id r = record r { watchers = delete_watcher id r.watchers }

-- A tick of one healthCheckLoop: the checks that it passes, or none where the loop ends.
unfoldable pub health_tick : ConsulRegistry → Option (List String)
unfolding service_id
health_tick r =
    if r.stopped then none else some (map (λ s. append "service:" (service_id r s.id)) r.registered)

send_updates : List Entry → ℕ → Watcher → Watcher
unfolding to_service send_event
send_updates [] stamp w = w
send_updates (e ∷ rest) stamp w =
    send_updates rest stamp
      (send_event (record { type = update; service = to_service e; timestamp = stamp }) w)

-- A round of a watcher's own loop on the agent's answer and its index: `lastIndex` and the watcher after it.
unfoldable pub watch_round : Option (List Entry × ℕ) → ℕ → ℕ → Watcher → ℕ × Watcher
unfolding send_updates
watch_round none stamp last_index w = (last_index, w)
watch_round (some (entries, index)) stamp last_index w =
    if ltb last_index index then (index, send_updates entries stamp w) else (last_index, w)

-- Rounds of the loop one after the other, each with the agent's answer and the time.
unfoldable pub watch_rounds : List (Option (List Entry × ℕ) × ℕ) → ℕ → Watcher → ℕ × Watcher
unfolding watch_round
watch_rounds [] last_index w = (last_index, w)
watch_rounds ((answer, stamp) ∷ rest) last_index w =
    let (last_index', w') = watch_round answer stamp last_index w in
    watch_rounds rest last_index' w'
