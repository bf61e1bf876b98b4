-- ===== src/Registry/Memory/Lookup.antt =====
-- What `GetService` of registry/memory.go finds after the other calls.
use grodyia.Prelude.{
  sym, subst, ap, ℕ, ◌+◌, ◌≡◌, ◌≢◌, ◌∙◌, refl, String, true, false, List, [], ◌∷◌, ◌++◌, none,
  if◌then◌else◌, string_eq, ◌==◌, keep, All, All-keep_self, length, length-append, eq_iff, arith,
  if_cases, Dict, lookup, insert, lookup-insert, DistinctKeys,
}
use grodyia.Keyed.{ne→beq}
use grodyia.Registry.{Service, Event, create, update, Error, not_found, ok, err}
use grodyia.Registry.Memory.{
  MemoryRegistry, instances, has_id, replace, is_live, unexpired, sweep, register, register_locked,
  get_service, non_empty, cleanup, notify, notify_all, all_expired,
}
use grodyia.Registry.Memory.Instances.{
  Has, append-Has, replace-Has, keep-Has, IsPart, keep-IsPart, in_service, keep-in_service,
}
use grodyia.Registry.Memory.Invariant.{Inv}

-- `GetService`, written without the map's two ways to be empty.
get_service_lem :
    (name : String) (now : ℕ) (r : MemoryRegistry)
    → get_service name now r ≡ non_empty (keep (is_live now) (instances r.services name))
unfolding get_service
get_service_lem name now r = ground arith

non_empty-ok : (xs l : List Service) → non_empty xs ≡ ok l → (xs ≡ l) × (l ≢ [])
unfolding non_empty
non_empty-ok [] l h = cc
non_empty-ok (x ∷ xs) l h = (ground arith, λ e. ground arith)

non_empty-err : (xs : List Service) (e : Error) → non_empty xs ≡ err e → (xs ≡ []) × (e ≡ not_found)
unfolding non_empty
non_empty-err [] e h = (refl, ground arith)
non_empty-err (x ∷ xs) e h = cc

-- A list that `GetService` returns is not empty, is a part of the list stored under the name, in its order and
-- none more often than it is stored, holds no instance that is unhealthy or expired, and holds every stored
-- instance of the name that is neither; an error is `ErrNotFound`, and then no stored instance of the name
-- is healthy and not expired.
pub get_service_result :
    (name : String) (now : ℕ) (r : MemoryRegistry)
    → ((l : List Service)
        → get_service name now r ≡ ok l
        → (l ≢ [])
          × IsPart l (instances r.services name)
          × All (λ s. in_service now s ≡ true) l
          × ((s : Service) → in_service now s ≡ true → Has s (instances r.services name) → Has s l))
      × ((e : Error)
          → get_service name now r ≡ err e
          → (e ≡ not_found)
            × ((s : Service) → in_service now s ≡ true → ¬ Has s (instances r.services name)))
get_service_result name now r =
    let stored = instances r.services name in
    let live = keep (in_service now) stored in
    let found = get_service_lem name now r ∙ ap non_empty (keep-in_service now stored) in
    (
      (λ l h.
          let (same, ne) = non_empty-ok live l (sym found ∙ h) in
          (
            ne,
            subst (λ k. IsPart k stored) same (keep-IsPart (in_service now) stored),
            subst (All (λ s. in_service now s ≡ true)) same (All-keep_self (in_service now) stored),
            λ s t m. subst (Has s) same (keep-Has (in_service now) s stored t m),
          )),
      (λ e h.
          let (none_live, kind) = non_empty-err live e (sym found ∙ h) in
          (kind, λ s t m. subst (Has s) none_live (keep-Has (in_service now) s stored t m))),
    )

services-notify_all :
    (events : List Event) (r : MemoryRegistry) → (notify_all events r).services ≡ r.services
unfolding notify_all
services-notify_all [] r = refl
services-notify_all (e ∷ rest) r = services-notify_all rest (notify e r)

services-cleanup :
    (now : ℕ) (r : MemoryRegistry)
    → (cleanup now r).services ≡ (if r.running then sweep now r.services else r.services)
unfolding cleanup
services-cleanup now r = ground (
  arith,
  services-notify_all (all_expired now r.services) (record r { services = sweep now r.services }),
)

keep-keep :
    (now : ℕ) (l : List Service)
    → keep (is_live now) (keep (unexpired now) l) ≡ keep (is_live now) l
keep-keep now [] = refl
keep-keep now (s ∷ l) = ground (arith, keep-keep now l)

sweep_missing' :
    (now : ℕ) (name : String) (m : Dict String (List Service))
    → lookup name m ≡ none
    → lookup name (sweep now m) ≡ none
unfolding sweep lookup
sweep_missing' now name [] h = refl
sweep_missing' now name ((j, l) ∷ m) h = ground (arith, sweep_missing' now name m)

instances-sweep :
    (now : ℕ) (name : String) (m : Dict String (List Service))
    → DistinctKeys m
    → instances (sweep now m) name ≡ keep (unexpired now) (instances m name)
unfolding sweep lookup
instances-sweep now name [] d = refl
instances-sweep now name ((j, l) ∷ m) d =
    ground (arith, instances-sweep now name m d.1, sweep_missing' now name m, eq_iff j name)

-- A tick of `cleanup` does not change what `GetService` answers at that instant, for any name.
pub get_service-cleanup :
    (name : String) (now : ℕ) (r : MemoryRegistry)
    → Inv r
    → get_service name now (cleanup now r) ≡ get_service name now r
get_service-cleanup name now r h =
    let shown =
      λ (m : Dict String (List Service)). non_empty (keep (is_live now) (instances m name)) in
    get_service_lem name now (cleanup now r)
    ∙ ap shown (services-cleanup now r)
    ∙ if_cases (λ m. shown m ≡ shown r.services) r.running (sweep now r.services) r.services
        (λ _.
          ap (λ l. non_empty (keep (is_live now) l)) (instances-sweep now name r.services h.keys)
          ∙ ap non_empty (keep-keep now (instances r.services name)))
        (λ _. refl)
    ∙ sym (get_service_lem name now r)

services-register :
    (svc : Service) (now stamp : ℕ) (r : MemoryRegistry)
    → (register svc now stamp r).services ≡ (register_locked svc now stamp r).0.services
unfolding register
services-register svc now stamp r = refl

pub instances-insert :
    (k j : String) (l : List Service) (m : Dict String (List Service))
    → instances (insert k l m) j ≡ (if k == j then l else instances m j)
instances-insert k j l m = ground (arith, lookup-insert k j l m)

length-replace : (s : Service) (l : List Service) → length (replace s l) ≡ length l
unfolding replace
length-replace s [] = refl
length-replace s (x ∷ l) = ground (arith, length-replace s l)

instances-register :
    (svc : Service) (now stamp : ℕ) (r : MemoryRegistry)
    → let s = record svc { last_seen = now; healthy = true } in
      let old = instances r.services svc.name in
      instances (register_locked svc now stamp r).0.services svc.name
      ≡ (if has_id svc.id old then replace s old else old ++ s ∷ [])
unfolding register_locked
instances-register svc now stamp r =
    let s = record svc { last_seen = now; healthy = true } in
    let old = instances r.services svc.name in
    ground (
      arith,
      instances-insert svc.name svc.name (replace s old) r.services,
      instances-insert svc.name svc.name (old ++ s ∷ []) r.services,
      eq_iff svc.name svc.name,
    )

-- `Register` sends an Update if an instance of the name has the id already, and then the number of
-- instances stays; otherwise it sends a Create and the number grows by one. Either way the service,
-- marked healthy and seen now, is among the instances of its name, and no other name changes.
pub register_locked_lem :
    (svc : Service) (now stamp : ℕ) (r : MemoryRegistry)
    → let (q, event) = register_locked svc now stamp r in
      let s = record svc { last_seen = now; healthy = true } in
      let old = instances r.services svc.name in
      let new = instances q.services svc.name in
      (has_id svc.id old ≡ true → (event.type ≡ update) × (length new ≡ length old))
      × (has_id svc.id old ≡ false → (event.type ≡ create) × (length new ≡ length old + 1))
      × (event.service ≡ s)
      × Has s new
      × ((other : String)
          → svc.name ≢ other
          → instances q.services other ≡ instances r.services other)
unfolding register_locked
register_locked_lem svc now stamp r =
    let s = record svc { last_seen = now; healthy = true } in
    let old = instances r.services svc.name in
    let new = instances-register svc now stamp r in
    (
      λ h. (rw h, ap length (new ∙ rw h) ∙ length-replace s old),
      λ h. (rw h, ap length (new ∙ rw h) ∙ length-append old (s ∷ [])),
      ground arith,
      subst (Has s) (sym new)
          (if_cases (Has s) (has_id svc.id old) _ _ (replace-Has s old) (λ _. append-Has s old)),
      λ other n. ground (
        arith,
        instances-insert svc.name other (replace s old) r.services,
        instances-insert svc.name other (old ++ s ∷ []) r.services,
        ne→beq svc.name other n,
      ),
    )
