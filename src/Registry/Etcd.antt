-- ===== src/Registry/Etcd.antt =====
-- registry/etcd.go: the registry on etcd. What the server answers is an argument of each operation, and so
-- is what encoding/json decodes. A method that holds the mutex is one step, and so are the parts of
-- GetService around its call. The endpoints, the credentials, the callback OnEvent, the goroutine that
-- reads the answers to KeepAlive, and the log are left out.
pub mod Ledger
pub mod Leases
pub mod Keys
mod Tests
use Prim.Native.Char.{code}
use Prim.Native.String.{◌∷◌ as push, [] as empty, ◌++◌ as append}
use grodyia.Prelude.{
  ℕ, suc, ◌+◌, String, Bool, true, false, ◌&&◌, ◌||◌, not, List, [], ◌∷◌, ◌++◌, map, Option, none,
  some, if◌then◌else◌, Dict, lookup, insert, delete, string_eq, nat_eq, ◌==◌, length, ltb,
}
use grodyia.Prelude.Int.{pos}
use grodyia.Prelude.Text.{split_on}
use grodyia.Registry.{Service, Event, EventType, create, delete_event, update}
use grodyia.Registry.Memory.{instances}
use grodyia.Registry.Watchers.{
  NetworkError, not_connected, not_found, failed, Outcome, done, error, Watcher, send_event, notify,
  delete_watcher, cache_put, cache_remove,
}

-- `connected` says that `client` is not nil, `stopped` that `stopCh` is closed; `registered` has the
-- lease of each key.
pub record EtcdRegistry : Type 0 where
  pub watch_service : String
  pub prefix : String
  pub services : Dict String (List Service)
  pub watchers : List Watcher
  pub next_id : ℕ
  pub connected : Bool
  pub running : Bool
  pub stopped : Bool
  pub registered : Dict String ℕ

unfoldable pub new_registry : String → String → String → EtcdRegistry
new_registry group space watched = record {
  watch_service = watched;
  prefix = append "/grodyia" (append "/" (append group (append "/" space)));
  services = [];
  watchers = [];
  next_id = 0;
  connected = false;
  running = false;
  stopped = false;
  registered = [];
}

unfoldable pub service_key : EtcdRegistry → String → String → String
service_key r name id = append r.prefix (append "/" (append name (append "/" id)))

unfoldable pub connect : Bool → EtcdRegistry → EtcdRegistry × Outcome (Unit {0})
connect made r =
    if r.running
    then (r, done tt)
    else if made
    then (record r { connected = true; running = true }, done tt)
    else (r, error failed)

unfoldable pub leases : Dict String ℕ → List ℕ
leases [] = []
leases ((key, lease) ∷ rest) = lease ∷ leases rest

-- The registry after `Close` and the leases it revokes; `none` for the panic of closing `stopCh` twice.
unfoldable pub close : EtcdRegistry → Option (EtcdRegistry × List ℕ)
unfolding leases
close r =
    if not r.running
    then some (r, [])
    else if r.stopped
    then none
    else some (
      record r { running = false; stopped = true; registered = []; watchers = [] },
      leases r.registered,
    )

-- `Register` once the lease is granted and kept alive.
keep_registered : Service → ℕ → ℕ → ℕ → EtcdRegistry → EtcdRegistry
unfolding cache_put notify
keep_registered svc now stamp lease r =
    let s = record svc { last_seen = now; healthy = true } in
    record r {
      registered = insert (service_key r s.name s.id) lease r.registered;
      services = cache_put s r.services;
      watchers = notify (record { type = create; service = s; timestamp = stamp }) r.watchers;
    }

-- `granted` is the lease that Grant gives; `put` and `kept` say that Put and KeepAlive gave no error.
unfoldable pub register :
    Service → ℕ → ℕ → Option ℕ → Bool → Bool → EtcdRegistry → EtcdRegistry × Outcome ℕ
unfolding keep_registered
register svc now stamp none put kept r =
    if r.connected then (r, error failed) else (r, error not_connected)
register svc now stamp (some lease) put kept r =
    if not r.connected
    then (r, error not_connected)
    else if not put
    then (r, error failed)
    else if not kept
    then (r, error failed)
    else (keep_registered svc now stamp lease r, done lease)

found_lease : Option ℕ → List ℕ
found_lease none = []
found_lease (some lease) = lease ∷ []

-- The registry, its error, and the lease that it revokes if the key has one. `deleted`: Delete gave no
-- error; an error leaves the lease revoked.
unfoldable pub deregister :
    Service → ℕ → Bool → EtcdRegistry → EtcdRegistry × Outcome (Unit {0}) × List ℕ
unfolding found_lease cache_remove notify
deregister s stamp deleted r =
    let key = service_key r s.name s.id in
    let revoked = record r { registered = delete key r.registered } in
    let gone = found_lease (lookup key r.registered) in
    if not r.connected
    then (r, error not_connected, [])
    else if not deleted
    then (revoked, error failed, gone)
    else (
      record revoked {
        services = cache_remove s r.services;
        watchers =
            notify (record { type = delete_event; service = s; timestamp = stamp }) r.watchers;
      },
      done tt,
      gone,
    )

-- What `json.Unmarshal` made of a value, and whether it gave no error.
abbrev pub Decoded : Type 0
Decoded = Service × Bool

decoded : List Decoded → List Service
decoded [] = []
decoded ((s, good) ∷ rest) = let others = decoded rest in if good then s ∷ others else others

get_answered : String → Option (List Decoded) → EtcdRegistry → EtcdRegistry × Outcome (List Service)
unfolding decoded
get_answered name none r = (r, error failed)
get_answered name (some []) r = (r, error not_found)
get_answered name (some (kv ∷ kvs)) r =
    (record r { services = insert name (decoded (kv ∷ kvs)) r.services }, done (decoded (kv ∷ kvs)))

unfoldable pub get_service :
    String → Option (List Decoded) → EtcdRegistry → EtcdRegistry × Outcome (List Service)
unfolding get_answered
get_service name answer r =
    if r.connected then get_answered name answer r else (r, error not_connected)

list_answered : Option (List Decoded) → Outcome (List Service)
unfolding decoded
list_answered none = error failed
list_answered (some kvs) = done (decoded kvs)

unfoldable pub list_services : Option (List Decoded) → EtcdRegistry → Outcome (List Service)
unfolding list_answered
list_services answer r = if r.connected then list_answered answer else error not_connected

unfoldable pub watch : EtcdRegistry → EtcdRegistry × Outcome ℕ
watch r =
    let id = suc r.next_id in
    let w : Watcher = record { id = id; events = []; service = r.watch_service } in
    if r.connected
    then (record r { next_id = id; watchers = r.watchers ++ w ∷ [] }, done id)
    else (r, error not_connected)

-- The loop over the services found when a watcher starts.
unfoldable pub load_cache : List Decoded → EtcdRegistry → EtcdRegistry
load_cache [] r = r
load_cache ((s, good) ∷ rest) r =
    let added = record r {
      services = insert s.name (instances r.services s.name ++ s ∷ []) r.services;
    } in
    load_cache rest (if good then added else r)

unfoldable pub stop : ℕ → EtcdRegistry → EtcdRegistry
unfolding delete_watcher
stop id r = record r { watchers = delete_watcher id r.watchers }

-- An event of etcd's watch channel.
pub data Change : Type 0 where
  created modified removed : Change

pub record KeyEvent : Type 0 where
  pub key : String
  pub value : Decoded
  pub change : Change

event_type : Change → EventType
event_type created = create
event_type modified = update
event_type removed = delete_event

-- `strings.TrimPrefix`: the rest after the prefix, if the text has it.
after_prefix : String → String → Option String
after_prefix empty s = some s
after_prefix (push c p) empty = none
after_prefix (push c p) (push d s) =
    let rest = after_prefix p s in if code c == code d then rest else none

trimmed : Option String → String → String
trimmed none s = s
trimmed (some rest) s = rest

unfoldable pub trim_prefix : String → String → String
unfolding after_prefix trimmed
trim_prefix prefix s = trimmed (after_prefix prefix s) s

named_by : List String → Service → Service
named_by [] s = s
named_by (name ∷ []) s = s
named_by (name ∷ id ∷ rest) s = record s { name = name; id = id }

-- The service of an event; a value that does not decode, as that of a removed key, is named by the key.
unfoldable pub event_service : String → KeyEvent → Service
unfolding trim_prefix named_by split_on
event_service prefix e =
    let (s, good) = e.value in
    let parts = split_on 47 (trim_prefix (append prefix "/") e.key) in
    if good then s else named_by parts s

-- An event in the loop of a watcher.
unfoldable pub watch_event : String → ℕ → KeyEvent → Watcher → Watcher
unfolding event_service event_type send_event
watch_event prefix stamp e w =
    send_event
      (record { type = event_type e.change; service = event_service prefix e; timestamp = stamp }) w
