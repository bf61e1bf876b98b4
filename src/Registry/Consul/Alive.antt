-- ===== src/Registry/Consul/Alive.antt =====
-- registry/consul.go: what keeps a registered service alive in Consul, and what ends it.
use Prim.Native.String.{◌++◌ as append}
use grodyia.Prelude.{
  Bool-cases, inl, inr, ◌⊎◌, ◌≡◌, ◌≢◌, refl, ap, subst, ℕ, String, string_eq, ◌==◌, true, false,
  List, [], ◌∷◌, Option, none, some, if◌then◌else◌, map, eq_iff, arith,
}
use grodyia.Registry.{Service}
use grodyia.Registry.Memory.{has_id}
use grodyia.Registry.Memory.Instances.{has_id-remove_other, has_id-append}
use grodyia.Registry.Consul.{
  ConsulRegistry, Entry, service_id, connect, close, deregister_each, deregister_calls, register,
  deregister, get_service, get_answered, list_services, list_answered, list_names, watch, stop,
  health_tick,
}
use grodyia.Registry.Consul.Steps.{
  Step, connect_step, close_step, register_step, deregister_step, get_step, list_step, watch_step,
  stop_step, step, run, Safe, and_then-Safe, Safe-some,
}

-- The call neither closes the registry nor deregisters the id.
abbrev pub Keeps : String → Step → Type 0
Keeps id (connect_step reachable) = Unit {0}
Keeps id close_step = ⊥
Keeps id (register_step s now stamp accepted) = Unit {0}
Keeps id (deregister_step s stamp accepted) = s.id ≢ id
Keeps id (get_step name answer) = Unit {0}
Keeps id (list_step catalog) = Unit {0}
Keeps id watch_step = Unit {0}
Keeps id (stop_step i) = Unit {0}

abbrev pub AllKeep : String → List Step → Type 0
AllKeep id [] = Unit {0}
AllKeep id (s ∷ ss) = Keeps id s × AllKeep id ss

-- A running registry with the prefix, whose list of registered services has the id.
pub record Alive (prefix id : String) (r : ConsulRegistry) : Type 0 where
  pub runs : (r.running ≡ true) × (r.connected ≡ true) × (r.stopped ≡ false)
  pub prefixed : r.prefix ≡ prefix
  pub listed : has_id id r.registered ≡ true

get-Alive :
    (p id name : String) (answer : Option (List Entry)) (r : ConsulRegistry)
    → Alive p id r
    → Alive p id (get_service name answer r).0
unfolding get_service get_answered
get-Alive p id name none r a = ground arith
get-Alive p id name (some []) r a = ground arith
get-Alive p id name (some (e ∷ es)) r a = ground arith

names-Alive :
    (p id : String) (names : List (String × Option (List Entry))) (r : ConsulRegistry)
    → Alive p id r
    → Alive p id (list_names names r).0
unfolding list_names
names-Alive p id [] r a = a
names-Alive p id ((name, answer) ∷ rest) r a =
    let after = if name == "consul" then r else (get_service name answer r).0 in
    let kept : Alive p id after = ground (arith, get-Alive p id name answer r a) in
    names-Alive p id rest after kept

list-Alive :
    (p id : String) (catalog : Option (List (String × Option (List Entry)))) (r : ConsulRegistry)
    → Alive p id r
    → Alive p id (list_services catalog r).0
unfolding list_services list_answered
list-Alive p id none r a = ground arith
list-Alive p id (some names) r a = ground (arith, names-Alive p id names r a)

step-Alive :
    (p id : String) (s : Step) (r : ConsulRegistry)
    → Keeps id s
    → Alive p id r
    → Safe (Alive p id) (step s r)
unfolding step connect register deregister watch stop
step-Alive p id (connect_step reachable) r k a = ground arith
step-Alive p id close_step r k a = elim k [ ]
step-Alive p id (register_step s now stamp accepted) r k a =
    ground
      (arith, has_id-append id r.registered (record s { last_seen = now; healthy = true } ∷ []))
step-Alive p id (deregister_step s stamp accepted) r k a =
    ground (arith, has_id-remove_other s.id id r.registered k)
step-Alive p id (get_step name answer) r k a = get-Alive p id name answer r a
step-Alive p id (list_step catalog) r k a = list-Alive p id catalog r a
step-Alive p id watch_step r k a = ground arith
step-Alive p id (stop_step i) r k a = record {
  runs = a.runs;
  prefixed = a.prefixed;
  listed = a.listed;
}

run-Alive :
    (p id : String) (ss : List Step) (r : ConsulRegistry)
    → AllKeep id ss
    → Alive p id r
    → Safe (Alive p id) (run ss r)
unfolding run
run-Alive p id [] r k a = a
run-Alive p id (s ∷ ss) r (k, ks) a =
    and_then-Safe (Alive p id) (Alive p id) (step s r) (run ss) (λ r'. run-Alive p id ss r' ks)
      (step-Alive p id s r k a)

abbrev pub Listed : String → List String → Type 0
Listed a [] = ⊥
Listed a (x ∷ xs) = (x ≡ a) ⊎ Listed a xs

-- The tick of the loop passes the check.
abbrev pub Passes : String → Option (List String) → Type 0
Passes check none = ⊥
Passes check (some checks) = Listed check checks

-- The Close does not panic and deregisters the id.
abbrev pub Deregisters : String → Option (ConsulRegistry × List String) → Type 0
Deregisters id none = ⊥
Deregisters id (some (r, ids)) = Listed id ids

checks-Listed :
    (id : String) (r : ConsulRegistry) (l : List Service)
    → has_id id l ≡ true
    → Listed
        (append "service:" (service_id r id))
        (map (λ s. append "service:" (service_id r s.id)) l)
checks-Listed id r [] h = cc
checks-Listed id r (s ∷ l) h = elim (Bool-cases (s.id == id)) [
  | inl y ↦ inl (ap (λ (i : String). append "service:" (service_id r i)) ((eq_iff s.id id).0 y))
  | inr n ↦ inr (checks-Listed id r l (ground arith))
]

each-Listed :
    (id : String) (r : ConsulRegistry) (l : List Service)
    → r.connected ≡ true
    → has_id id l ≡ true
    → Listed (service_id r id) (deregister_each r l)
unfolding deregister_each deregister_calls
each-Listed id r [] c h = cc
each-Listed id r (s ∷ l) c h = rw c (elim (Bool-cases (s.id == id)) [
  | inl y ↦ inl (ap (service_id r) ((eq_iff s.id id).0 y))
  | inr n ↦ inr (each-Listed id r l c (ground arith))
])

same_service_id :
    (id : String) (q r : ConsulRegistry) → r.prefix ≡ q.prefix → service_id r id ≡ service_id q id
unfolding service_id
same_service_id id q r h = rw h refl

tick-Passes :
    (id : String) (r : ConsulRegistry)
    → Alive r.prefix id r
    → Passes (append "service:" (service_id r id)) (health_tick r)
unfolding health_tick
tick-Passes id r a = rw a.runs.2 (checks-Listed id r r.registered a.listed)

close-Deregisters :
    (id : String) (r : ConsulRegistry)
    → Alive r.prefix id r
    → Deregisters (service_id r id) (close r)
unfolding close
close-Deregisters id r a = rw (a.runs.0, a.runs.2) (each-Listed id r r.registered a.runs.1 a.listed)

Alive-ends :
    (id : String) (q r : ConsulRegistry)
    → Alive q.prefix id r
    → Passes (append "service:" (service_id q id)) (health_tick r)
      × Deregisters (service_id q id) (close r)
Alive-ends id q r a =
    let own : Alive r.prefix id r = record { runs = a.runs; prefixed = refl; listed = a.listed } in
    let same = same_service_id id q r a.prefixed in
    (
      subst (λ i. Passes (append "service:" i) (health_tick r)) same (tick-Passes id r own),
      subst (λ i. Deregisters i (close r)) same (close-Deregisters id r own),
    )

register-Alive :
    (s : Service) (now stamp : ℕ) (r : ConsulRegistry)
    → r.running ≡ true
    → r.connected ≡ true
    → r.stopped ≡ false
    → Alive r.prefix s.id (register s now stamp true r).0
unfolding register
register-Alive s now stamp r u c n = ground (
  arith,
  has_id-append s.id r.registered (record s { last_seen = now; healthy = true } ∷ []),
  eq_iff s.id s.id,
)

-- A service that the agent accepts at a running registry that was never closed: after any further calls
-- that neither close the registry nor deregister the service's id, the tick of the health check loop
-- passes its check, and a Close deregisters it and does not panic.
pub register-Passes :
    (s : Service) (now stamp : ℕ) (ss : List Step) (r r' : ConsulRegistry)
    → r.running ≡ true
    → r.connected ≡ true
    → r.stopped ≡ false
    → AllKeep s.id ss
    → run ss (register s now stamp true r).0 ≡ some r'
    → Passes (append "service:" (service_id r s.id)) (health_tick r')
      × Deregisters (service_id r s.id) (close r')
register-Passes s now stamp ss r r' u c n k ran =
    let start = (register s now stamp true r).0 in
    let alive = run-Alive r.prefix s.id ss start k (register-Alive s now stamp r u c n) in
    Alive-ends s.id r r' (Safe-some (Alive r.prefix s.id) (run ss start) r' alive ran)
