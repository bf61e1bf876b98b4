-- ===== src/Registry/Nacos/Cached.antt =====
-- registry/nacos.go: GetService on what GetService has cached.
use grodyia.Prelude.{
  ◌≡◌, ◌≢◌, refl, ap, ◌∙◌, arith, String, Bool, true, List, [], ◌∷◌, Option, none, some, not, ◌&&◌,
  length, insert, lookup-insert, string_eq, ==-refl, eq_iff, All, if_cases, ℕ, suc,
}
use grodyia.Registry.{Service}
use grodyia.Registry.Memory.{instances, remove}
use grodyia.Registry.Watchers.{cache_put, cache_remove}
use grodyia.Registry.Nacos.{
  NacosRegistry, Instance, Outcome, done, error, failed, from_cache, get_service,
  instances_to_services, connect, close, closed, register, register_accepted, deregister,
  deregister_accepted, watch, watch_added, stop, deliver,
}
use grodyia.Registry.Nacos.Steps.{
  Step, connect_step, close_step, register_step, deregister_step, get_step, watch_step, stop_step,
  deliver_step, step, run,
}

-- The call does not put another list under the name.
abbrev pub Spares : String → Step → Type 0
Spares name (connect_step made) = Unit
Spares name close_step = Unit
Spares name (register_step s now stamp answer) = s.name ≢ name
Spares name (deregister_step s stamp accepted) = s.name ≢ name
Spares name (get_step asked none) = Unit
Spares name (get_step asked (some l)) = asked ≢ name
Spares name (watch_step accepted) = Unit
Spares name (stop_step id) = Unit
Spares name (deliver_step id found stamp) = Unit

-- What is cached of the name, and the client, stay.
record Same (name : String) (q r : NacosRegistry) : Type 0 where
  cached : instances q.services name ≡ instances r.services name
  client : r.connected ≡ true → q.connected ≡ true

Same-self : (name : String) (r : NacosRegistry) → Same name r r
Same-self name r = record { cached = refl; client = λ c. c }

insert-instances :
    (k name : String) (l : List Service) (r : NacosRegistry)
    → k ≢ name
    → instances (insert k l r.services) name ≡ instances r.services name
insert-instances k name l r n = ground (arith, lookup-insert k name l r.services, eq_iff k name)

cache_put-instances :
    (s : Service) (name : String) (r : NacosRegistry)
    → s.name ≢ name
    → instances (cache_put s r.services) name ≡ instances r.services name
unfolding cache_put
cache_put-instances s name r n = insert-instances s.name name _ r n

cache_remove-instances :
    (s : Service) (name : String) (r : NacosRegistry)
    → s.name ≢ name
    → instances (cache_remove s r.services) name ≡ instances r.services name
unfolding cache_remove
cache_remove-instances s name r n =
    ground (arith, insert-instances s.name name (remove s.id (instances r.services s.name)) r n)

register-Same :
    (s : Service) (now stamp : ℕ) (answer : Option Bool) (name : String) (r : NacosRegistry)
    → s.name ≢ name
    → Same name (register s now stamp answer r).0 r
unfolding register register_accepted
register-Same s now stamp none name r n = Same-self name r
register-Same s now stamp (some success) name r n =
    let kept : Same name (register_accepted s now stamp r) r = record {
      cached = cache_put-instances (record s { last_seen = now; healthy = true }) name r n;
      client = λ c. c;
    } in
    if_cases (λ (out : NacosRegistry × Outcome (Unit {0})). Same name out.0 r) (not r.connected) _ _
      (λ e. Same-self name r)
      (λ e.
        if_cases (λ (out : NacosRegistry × Outcome (Unit {0})). Same name out.0 r) (not success) _ _
          (λ e. Same-self name r) (λ e. kept))

deregister-Same :
    (s : Service) (stamp : ℕ) (accepted : Bool) (name : String) (r : NacosRegistry)
    → s.name ≢ name
    → Same name (deregister s stamp accepted r).0 r
unfolding deregister deregister_accepted
deregister-Same s stamp accepted name r n =
    if_cases (λ (out : NacosRegistry × Outcome (Unit {0})). Same name out.0 r)
      (r.connected && not accepted) _ _ (λ e. record { cached = refl; client = λ c. c })
      (λ e. record { cached = cache_remove-instances s name r n; client = λ c. c })

step-Same : (name : String) (s : Step) (r : NacosRegistry) → Spares name s → Same name (step s r) r
unfolding step connect close closed get_service watch watch_added stop deliver
step-Same name (connect_step made) r n = record { cached = ground arith; client = ground arith }
step-Same name close_step r n = record { cached = ground arith; client = ground arith }
step-Same name (register_step s now stamp answer) r n = register-Same s now stamp answer name r n
step-Same name (deregister_step s stamp accepted) r n = deregister-Same s stamp accepted name r n
step-Same name (get_step asked none) r n = Same-self name r
step-Same name (get_step asked (some l)) r n = record {
  cached = ground (arith, insert-instances asked name (instances_to_services asked l) r n);
  client = ground arith;
}
step-Same name (watch_step accepted) r n = record { cached = ground arith; client = ground arith }
step-Same name (stop_step id) r n = record { cached = refl; client = λ c. c }
step-Same name (deliver_step id found stamp) r n = record { cached = refl; client = λ c. c }

run-Same :
    (name : String) (ss : List Step) (r : NacosRegistry)
    → All (Spares name) ss
    → Same name (run ss r) r
unfolding run
run-Same name [] r a = Same-self name r
run-Same name (s ∷ ss) r a =
    let first = step-Same name s r a.0 in
    let rest = run-Same name ss (step s r) a.1 in
    record { cached = rest.cached ∙ first.cached; client = λ c. rest.client (first.client c) }

length-instances_to_services :
    (name : String) (l : List Instance) → length (instances_to_services name l) ≡ length l
unfolding instances_to_services
length-instances_to_services name [] = refl
length-instances_to_services name (i ∷ l) = ap suc (length-instances_to_services name l)

get_service_answered :
    (name : String) (l : List Instance) (r : NacosRegistry)
    → r.connected ≡ true
    → get_service name (some l) r ≡ (
      record r { services = insert name (instances_to_services name l) r.services },
      done (instances_to_services name l),
    )
unfolding get_service
get_service_answered name l r c = ground arith

get_service_failed :
    (name : String) (l : List Service) (r : NacosRegistry)
    → r.connected ≡ true
    → instances r.services name ≡ l
    → (get_service name none r).1 ≡ from_cache l
unfolding get_service
get_service_failed name l r c e = rw (c, e) refl

from_cache-some :
    (name : String) (l : List Instance)
    → l ≢ []
    → from_cache (instances_to_services name l) ≡ done (instances_to_services name l)
unfolding from_cache instances_to_services
from_cache-some name [] n = absurd (n refl)
from_cache-some name (i ∷ l) n = refl

-- With a client: GetService gives one service for each of the server's instances; and after any calls that
-- do not register, deregister or find instances of that name, a Close included, a GetService of the name
-- that the server fails gives the same services again, or the error where there were none.
pub get_service-run :
    (name : String) (l : List Instance) (ss : List Step) (r : NacosRegistry)
    → r.connected ≡ true
    → All (Spares name) ss
    → let q = run ss (get_service name (some l) r).0 in
      (found : List Service) × ((get_service name (some l) r).1 ≡ done found)
      × (length found ≡ length l)
      × (l ≢ [] → (get_service name none q).1 ≡ done found)
      × (l ≡ [] → (get_service name none q).1 ≡ error failed)
unfolding from_cache instances_to_services
get_service-run name l ss r c a =
    let found = instances_to_services name l in
    let after = record r { services = insert name found r.services } in
    let same = run-Same name ss after a in
    let stored : instances after.services name ≡ found =
      ground (arith, lookup-insert name name found r.services, ==-refl name) in
    let shown =
      get_service_failed name found (run ss after) (same.client c) (same.cached ∙ stored) in
    rw (get_service_answered name l r c) (
      found,
      refl,
      length-instances_to_services name l,
      (λ n. shown ∙ from_cache-some name l n),
      (λ n. shown ∙ ap (λ k. from_cache (instances_to_services name k)) n ∙ refl),
    )
