-- ===== src/Registry/Consul/Invariant.antt =====
-- registry/consul.go: what holds after any sequence of calls that has not panicked.
use grodyia.Prelude.{
  lookup, ℕ, suc, ◌≤◌, ◌<◌, ◌≡◌, refl, String, string_eq, ◌==◌, Bool, true, false, List, [], ◌∷◌,
  ◌++◌, Option, none, some, if◌then◌else◌, length, length-append, arith,
}
use grodyia.Registry.{Service, Event, create, delete_event}
use grodyia.Registry.Watchers.{
  Watcher, watcher_buffer_size, send_event, offer, notify, delete_watcher, cache_remove,
}
use grodyia.Registry.Memory.{remove}
use grodyia.Registry.Consul.{
  ConsulRegistry, Entry, new_registry, connect, close, register, deregister, get_service,
  get_answered, list_services, list_answered, list_names, watch, stop,
}
use grodyia.Registry.Consul.Steps.{
  Step, connect_step, close_step, register_step, deregister_step, get_step, list_step, watch_step,
  stop_step, step, run, Safe, run-Safe, Safe-some,
}

-- The ids ascend above `low` up to `high`, and no channel holds more than its capacity.
abbrev pub Between : ℕ → ℕ → List Watcher → Type 0
Between low high [] = low ≤ high
Between low high (w ∷ ws) =
    (low < w.id) × (length w.events ≤ watcher_buffer_size) × Between w.id high ws

offer_keeps :
    (event : Event) (w : Watcher)
    → length w.events ≤ watcher_buffer_size
    → ((offer event w).id ≡ w.id) × (length (offer event w).events ≤ watcher_buffer_size)
unfolding offer send_event
offer_keeps event w h = ground (arith, length-append w.events (event ∷ []))

notify-Between :
    (event : Event) (low high : ℕ) (ws : List Watcher)
    → Between low high ws
    → Between low high (notify event ws)
unfolding notify
notify-Between event low high [] b = b
notify-Between event low high (w ∷ ws) (above, held, rest) =
    let ih = notify-Between event w.id high ws rest in
    let kept = offer_keeps event w held in ground (arith, ih, kept)

Between-lower :
    (low lower high : ℕ) (ws : List Watcher)
    → lower ≤ low
    → Between low high ws
    → Between lower high ws
Between-lower low lower high [] l b = omega arith
Between-lower low lower high (w ∷ ws) l (above, held, rest) = (omega arith, held, rest)

delete-Between :
    (id low high : ℕ) (ws : List Watcher)
    → Between low high ws
    → Between low high (delete_watcher id ws)
unfolding delete_watcher
delete-Between id low high [] b = b
delete-Between id low high (w ∷ ws) (above, held, rest) =
    let ih = delete-Between id w.id high ws rest in
    let lower = Between-lower w.id low high (delete_watcher id ws) (omega arith) ih in
    ground (arith, ih, lower)

append-Between :
    (low high : ℕ) (ws : List Watcher) (w : Watcher)
    → w.id ≡ suc high
    → w.events ≡ []
    → Between low high ws
    → Between low (suc high) (ws ++ w ∷ [])
append-Between low high [] w new empty b = ground arith
append-Between low high (x ∷ ws) w new empty (above, held, rest) =
    (above, held, append-Between x.id high ws w new empty rest)

pub record Inv (r : ConsulRegistry) : Type 0 where
  pub has_client : r.running ≡ true → r.connected ≡ true
  pub one_loop : r.stopped ≡ false → r.loops ≡ (if r.running then 1 else 0)
  pub closed : r.connected ≡ true → r.running ≡ false → r.stopped ≡ true
  pub unused :
      r.connected ≡ false
      → (r.registered ≡ []) × (r.services ≡ []) × (r.watchers ≡ []) × (r.stopped ≡ false)
  pub distinct : Between 0 r.next_id r.watchers

register-Inv :
    (s : Service) (now stamp : ℕ) (accepted : Bool) (r : ConsulRegistry)
    → Inv r
    → Inv (register s now stamp accepted r).0
unfolding register
register-Inv s now stamp accepted r h =
    let kept = record s { last_seen = now; healthy = true } in
    ground (
      arith,
      notify-Between (record { type = create; service = kept; timestamp = stamp }) 0 r.next_id
          r.watchers h.distinct,
    )

cache_remove-nil : (s : Service) → cache_remove s [] ≡ []
unfolding cache_remove lookup
cache_remove-nil s = refl

remove-nil : (id : String) → remove id [] ≡ []
unfolding remove
remove-nil id = refl

notify-nil : (e : Event) → notify e [] ≡ []
unfolding notify
notify-nil e = refl

deregister-Inv :
    (s : Service) (stamp : ℕ) (accepted : Bool) (r : ConsulRegistry)
    → Inv r
    → Inv (deregister s stamp accepted r).0
unfolding deregister
deregister-Inv s stamp accepted r h =
    let e : Event = record { type = delete_event; service = s; timestamp = stamp } in
    ground (
      arith,
      notify-Between e 0 r.next_id r.watchers h.distinct,
      cache_remove-nil s,
      remove-nil s.id,
      notify-nil e,
    )

get-Inv :
    (name : String) (answer : Option (List Entry)) (r : ConsulRegistry)
    → Inv r
    → Inv (get_service name answer r).0
unfolding get_service get_answered
get-Inv name none r h = ground arith
get-Inv name (some []) r h = ground arith
get-Inv name (some (e ∷ es)) r h = ground arith

names-Inv :
    (names : List (String × Option (List Entry))) (r : ConsulRegistry)
    → Inv r
    → Inv (list_names names r).0
unfolding list_names
names-Inv [] r h = h
names-Inv ((name, answer) ∷ rest) r h =
    let after = if name == "consul" then r else (get_service name answer r).0 in
    let kept : Inv after = ground (arith, get-Inv name answer r h) in names-Inv rest after kept

list-Inv :
    (catalog : Option (List (String × Option (List Entry)))) (r : ConsulRegistry)
    → Inv r
    → Inv (list_services catalog r).0
unfolding list_services list_answered
list-Inv none r h = ground arith
list-Inv (some names) r h = ground (arith, names-Inv names r h)

watch-Inv : (r : ConsulRegistry) → Inv r → Inv (watch r).0
unfolding watch
watch-Inv r h =
    let w : Watcher = record { id = suc r.next_id; events = []; service = r.watch_service } in
    ground (arith, append-Between 0 r.next_id r.watchers w refl refl h.distinct)

stop-Inv : (id : ℕ) (r : ConsulRegistry) → Inv r → Inv (stop id r)
unfolding stop delete_watcher
stop-Inv id r h = ground (arith, delete-Between id 0 r.next_id r.watchers h.distinct)

close-Inv : (r : ConsulRegistry) → Inv r → Safe Inv (step close_step r)
unfolding step close
close-Inv r h = ground arith

connect-Inv : (reachable : Bool) (r : ConsulRegistry) → Inv r → Inv (connect reachable r).0
unfolding connect
connect-Inv reachable r h = ground arith

step-Inv : (s : Step) (r : ConsulRegistry) → Inv r → Safe Inv (step s r)
unfolding step
step-Inv (connect_step reachable) r h = connect-Inv reachable r h
step-Inv close_step r h = close-Inv r h
step-Inv (register_step s now stamp accepted) r h = register-Inv s now stamp accepted r h
step-Inv (deregister_step s stamp accepted) r h = deregister-Inv s stamp accepted r h
step-Inv (get_step name answer) r h = get-Inv name answer r h
step-Inv (list_step catalog) r h = list-Inv catalog r h
step-Inv watch_step r h = watch-Inv r h
step-Inv (stop_step id) r h = stop-Inv id r h

new-Inv : (group space watched : String) → Inv (new_registry group space watched)
unfolding new_registry
new-Inv group space watched = ground arith

new-Safe :
    (group space watched : String) (ss : List Step)
    → Safe Inv (run ss (new_registry group space watched))
new-Safe group space watched ss =
    run-Safe Inv step-Inv ss (new_registry group space watched) (new-Inv group space watched)

-- After any calls on a new registry, none of which panicked: a running registry has a client; until the
-- first Close there is one health check loop exactly while the registry runs; a client without a running
-- registry means that Close has been called; a registry without a client holds no service, no cached list
-- and no watcher; and the watchers' ids ascend, up to the last one given, none of their channels holding
-- more events than its capacity.
pub run-new_registry-Inv :
    (group space watched : String) (ss : List Step) (r : ConsulRegistry)
    → run ss (new_registry group space watched) ≡ some r
    → Inv r
run-new_registry-Inv group space watched ss r e =
    Safe-some Inv (run ss (new_registry group space watched)) r (new-Safe group space watched ss) e

reopened :
    (r : ConsulRegistry)
    → Inv r
    → r.connected ≡ true
    → r.running ≡ false
    → close (connect true r).0 ≡ none
unfolding close connect
reopened r h c n = let was_closed = h.closed c n in ground arith

-- After any calls on a new registry that did not panic: if it has a client and does not run, then
-- connecting it again, with success, makes the next Close panic.
pub close-connect :
    (group space watched : String) (ss : List Step) (r : ConsulRegistry)
    → run ss (new_registry group space watched) ≡ some r
    → r.connected ≡ true
    → r.running ≡ false
    → close (connect true r).0 ≡ none
close-connect group space watched ss r e c n =
    reopened r (run-new_registry-Inv group space watched ss r e) c n
