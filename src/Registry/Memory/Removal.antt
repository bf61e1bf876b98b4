-- ===== src/Registry/Memory/Removal.antt =====
-- `Deregister` and `Close` of registry/memory.go.
use grodyia.Keyed.{ne→beq}
use grodyia.Prelude.{
  ℕ, ◌≡◌, ◌≢◌, ◌∙◌, refl, ap, String, true, false, List, [], ◌∷◌, none, some, if◌then◌else◌,
  string_eq, All, eq_iff, arith, if_cases, lookup,
}
use grodyia.Registry.{Service, delete_event, not_found, err}
use grodyia.Registry.Memory.{
  MemoryRegistry, Watcher, instances, has_id, remove, deregister_locked, get_service, close,
  connect, each_watcher, stop_registered,
}
use grodyia.Registry.Memory.Instances.{has_id-remove_self, has_id-remove_other}
use grodyia.Registry.Memory.Invariant.{Inv, instances-Group}
use grodyia.Registry.Memory.Lookup.{instances-insert}

instances-deregister :
    (s : Service) (stamp : ℕ) (r : MemoryRegistry)
    → let old = instances r.services s.name in
      instances (deregister_locked s stamp r).0.services s.name
      ≡ (if has_id s.id old then remove s.id old else old)
unfolding deregister_locked
instances-deregister s stamp r = ground (
  arith,
  instances-insert s.name s.name (remove s.id (instances r.services s.name)) r.services,
  eq_iff s.name s.name,
)

-- After `Deregister` no instance of the name has the id and the other ids of the name are there as
-- before; other names keep their instances. A Delete event is sent exactly if the id was there.
pub deregister_locked_lem :
    (s : Service) (stamp : ℕ) (r : MemoryRegistry)
    → Inv r
    → let (q, event) = deregister_locked s stamp r in
      let old = instances r.services s.name in
      (has_id s.id (instances q.services s.name) ≡ false)
      × ((id : String) → s.id ≢ id → has_id id (instances q.services s.name) ≡ has_id id old)
      × ((other : String)
          → s.name ≢ other
          → instances q.services other ≡ instances r.services other)
      × (has_id s.id old ≡ true
          → event ≡ some (record { type = delete_event; service = s; timestamp = stamp }))
      × (has_id s.id old ≡ false → (event ≡ none) × (q ≡ r))
unfolding deregister_locked
deregister_locked_lem s stamp r h =
    let old = instances r.services s.name in
    let new = instances-deregister s stamp r in
    let distinct = (instances-Group r.services s.name h.groups).distinct in
    (
      ap (has_id s.id) new
          ∙ if_cases (λ l. has_id s.id l ≡ false) (has_id s.id old) (remove s.id old) old
              (λ _. has_id-remove_self s.id old distinct) (λ n. n),
      λ id n.
          ap (has_id id) new
          ∙ if_cases (λ l. has_id id l ≡ has_id id old) (has_id s.id old) (remove s.id old) old
              (λ _. has_id-remove_other s.id id old n) (λ _. refl),
      λ other n. ground (
        arith,
        instances-insert s.name other (remove s.id old) r.services,
        ne→beq s.name other n,
      ),
      λ y. rw y,
      λ n. (rw n, rw n),
    )

each_watcher_unregistered :
    (ws : List Watcher) → All (λ w. w.registered ≡ false) (each_watcher stop_registered ws)
unfolding stop_registered
each_watcher_unregistered [] = tt
each_watcher_unregistered (w ∷ ws) = (ground arith, each_watcher_unregistered ws)

-- Closing a running registry forgets every service, so that `GetService` fails for every name, and
-- every watcher that it had; a registry that is not running is left as it is. After `Connect` the
-- registry runs, with the services and watchers that it had.
pub close_lem :
    (r : MemoryRegistry)
    → (r.running ≡ true
        → ((close r).running ≡ false)
          × ((name : String) (now : ℕ) → get_service name now (close r) ≡ err not_found)
          × All (λ w. w.registered ≡ false) (close r).watchers)
      × (r.running ≡ false → close r ≡ r)
      × ((connect r).running ≡ true)
      × ((connect r).services ≡ r.services)
      × ((connect r).watchers ≡ r.watchers)
unfolding close connect get_service lookup
close_lem r = (
  (λ h. (ground arith, λ name now. ground arith, rw h (each_watcher_unregistered r.watchers))),
  (λ h. ground arith),
  ground arith,
  ground arith,
  ground arith,
)
