-- ===== src/Registry/Consul/Fallback.antt =====
-- registry/consul.go: the cache that GetService falls back on when the agent fails.
use grodyia.Prelude.{
  Bool-cases, inl, inr, ◌≡◌, ◌≢◌, refl, String, string_eq, true, List, [], ◌∷◌, Option, none, some,
  map, insert, lookup-insert, eq_iff, arith,
}
use grodyia.Registry.{Service}
use grodyia.Registry.Memory.{instances, has_id}
use grodyia.Registry.Watchers.{cache_put, cache_remove}
use grodyia.Registry.Consul.{
  ConsulRegistry, Entry, done, connect, close, register, deregister, to_service, from_cache,
  get_service, get_answered, list_services, list_answered, watch, stop,
}
use grodyia.Registry.Consul.Steps.{
  Step, connect_step, close_step, register_step, deregister_step, get_step, list_step, watch_step,
  stop_step, step, run, Safe, Safe-some, and_then-Safe,
}

-- The call does not change what is cached of the name: a registration or a deregistration of another
-- name, or a GetService of another name or one that fails.
abbrev pub Elsewhere : String → Step → Type 0
Elsewhere name (connect_step reachable) = Unit {0}
Elsewhere name close_step = Unit {0}
Elsewhere name (register_step s now stamp accepted) = s.name ≢ name
Elsewhere name (deregister_step s stamp accepted) = s.name ≢ name
Elsewhere name (get_step other answer) = other ≢ name
Elsewhere name (list_step catalog) = catalog ≡ none
Elsewhere name watch_step = Unit {0}
Elsewhere name (stop_step id) = Unit {0}

abbrev pub AllElsewhere : String → List Step → Type 0
AllElsewhere name [] = Unit {0}
AllElsewhere name (s ∷ ss) = Elsewhere name s × AllElsewhere name ss

instances-insert_other :
    (name other : String) (l : List Service) (m : List (String × List Service))
    → other ≢ name
    → instances (insert other l m) name ≡ instances m name
instances-insert_other name other l m n =
    ground (arith, lookup-insert other name l m, eq_iff other name)

abbrev pub Cached : String → List Service → ConsulRegistry → Type 0
Cached name l r = (r.connected ≡ true) × (instances r.services name ≡ l)

cache_put_other :
    (name : String) (s : Service) (m : List (String × List Service))
    → s.name ≢ name
    → instances (cache_put s m) name ≡ instances m name
unfolding cache_put
cache_put_other name s m n = instances-insert_other name s.name _ m n

cache_remove_other :
    (name : String) (s : Service) (m : List (String × List Service))
    → s.name ≢ name
    → instances (cache_remove s m) name ≡ instances m name
unfolding cache_remove
cache_remove_other name s m n =
    let other = λ (l : List Service). instances-insert_other name s.name l m n in
    elim (Bool-cases (has_id s.id (instances m s.name))) [
      | inl y ↦ rw y (other _)
      | inr y ↦ rw y refl
    ]

get-Cached :
    (name other : String) (answer : Option (List Entry)) (l : List Service) (r : ConsulRegistry)
    → other ≢ name
    → Cached name l r
    → Cached name l (get_service other answer r).0
unfolding get_service get_answered
get-Cached name other none l r n c = ground arith
get-Cached name other (some []) l r n c = ground arith
get-Cached name other (some (e ∷ es)) l r n c =
    ground (arith, instances-insert_other name other (map to_service (e ∷ es)) r.services n)

list-Cached :
    (name : String) (catalog : Option (List (String × Option (List Entry)))) (l : List Service)
    (r : ConsulRegistry)
    → catalog ≡ none
    → Cached name l r
    → Cached name l (list_services catalog r).0
unfolding list_services list_answered
list-Cached name none l r n c = ground arith
list-Cached name (some names) l r n c = cc

close-Cached :
    (name : String) (l : List Service) (r : ConsulRegistry)
    → Cached name l r
    → Safe (Cached name l) (step close_step r)
unfolding step close
close-Cached name l r c = ground arith

step-Cached :
    (name : String) (l : List Service) (s : Step) (r : ConsulRegistry)
    → Elsewhere name s
    → Cached name l r
    → Safe (Cached name l) (step s r)
unfolding step connect register deregister watch stop
step-Cached name l (connect_step reachable) r n c = ground arith
step-Cached name l close_step r n c = close-Cached name l r c
step-Cached name l (register_step s now stamp accepted) r n c =
    ground (arith, cache_put_other name (record s { last_seen = now; healthy = true }) r.services n)
step-Cached name l (deregister_step s stamp accepted) r n c =
    ground (arith, cache_remove_other name s r.services n)
step-Cached name l (get_step other answer) r n c = get-Cached name other answer l r n c
step-Cached name l (list_step catalog) r n c = list-Cached name catalog l r n c
step-Cached name l watch_step r n c = ground arith
step-Cached name l (stop_step id) r n c = c

run-Cached :
    (name : String) (l : List Service) (ss : List Step) (r : ConsulRegistry)
    → AllElsewhere name ss
    → Cached name l r
    → Safe (Cached name l) (run ss r)
unfolding run
run-Cached name l [] r n c = c
run-Cached name l (s ∷ ss) r (n, ns) c =
    and_then-Safe (Cached name l) (Cached name l) (step s r) (run ss)
      (λ r'. run-Cached name l ss r' ns) (step-Cached name l s r n c)

from_cache-more : (s : Service) (l : List Service) → from_cache (s ∷ l) ≡ done (s ∷ l)
unfolding from_cache
from_cache-more s l = refl

get_service-fails :
    (name : String) (e : Entry) (es : List Entry) (r : ConsulRegistry)
    → Cached name (map to_service (e ∷ es)) r
    → get_service name none r ≡ (r, done (map to_service (e ∷ es)))
unfolding get_service get_answered
get_service-fails name e es r (c, same) =
    rw (c, same, from_cache-more (to_service e) (map to_service es)) refl

get_service-found :
    (name : String) (e : Entry) (es : List Entry) (r : ConsulRegistry)
    → r.connected ≡ true
    → ((get_service name (some (e ∷ es)) r).1 ≡ done (map to_service (e ∷ es)))
      × Cached name (map to_service (e ∷ es)) (get_service name (some (e ∷ es)) r).0
unfolding get_service get_answered
get_service-found name e es r c =
    ground (arith, lookup-insert name name (map to_service (e ∷ es)) r.services, eq_iff name name)

-- A GetService to which the agent answers with services returns them; and after any further calls that
-- do not change what is cached of the name, a Close included, if none of them panics, a GetService of the
-- name during an error of the agent returns that same list and changes nothing.
pub get_service-fallback :
    (name : String) (e : Entry) (es : List Entry) (ss : List Step) (r r' : ConsulRegistry)
    → r.connected ≡ true
    → AllElsewhere name ss
    → run ss (get_service name (some (e ∷ es)) r).0 ≡ some r'
    → ((get_service name (some (e ∷ es)) r).1 ≡ done (map to_service (e ∷ es)))
      × (get_service name none r' ≡ (r', done (map to_service (e ∷ es))))
get_service-fallback name e es ss r r' c n ran =
    let found = map to_service (e ∷ es) in
    let (same, cached) = get_service-found name e es r c in
    let after = (get_service name (some (e ∷ es)) r).0 in
    let kept =
      Safe-some (Cached name found) (run ss after) r' (run-Cached name found ss after n cached)
        ran in
    (same, get_service-fails name e es r' kept)
