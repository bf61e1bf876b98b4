-- ===== src/Registry/Consul/Steps.antt =====
-- Any sequence of calls on a registry of registry/consul.go, each with the agent's answer to it.
use grodyia.Prelude.{◌≡◌, subst, ℕ, String, Bool, List, [], ◌∷◌, Option, none, some}
use grodyia.Registry.{Service}
use grodyia.Registry.Consul.{
  ConsulRegistry, Entry, connect, close, register, deregister, get_service, list_services, watch,
  stop,
}

pub data Step : Type 0 where
  connect_step : Bool → Step
  close_step : Step
  register_step : Service → ℕ → ℕ → Bool → Step
  deregister_step : Service → ℕ → Bool → Step
  get_step : String → Option (List Entry) → Step
  list_step : Option (List (String × Option (List Entry))) → Step
  watch_step : Step
  stop_step : ℕ → Step

after_close : Option (ConsulRegistry × List String) → Option ConsulRegistry
after_close none = none
after_close (some (r, calls)) = some r

-- `none` where the call panics.
unfoldable pub step : Step → ConsulRegistry → Option ConsulRegistry
unfolding connect close register deregister get_service list_services watch stop after_close
step (connect_step reachable) r = some (connect reachable r).0
step close_step r = after_close (close r)
step (register_step s now stamp accepted) r = some (register s now stamp accepted r).0
step (deregister_step s stamp accepted) r = some (deregister s stamp accepted r).0
step (get_step name answer) r = some (get_service name answer r).0
step (list_step catalog) r = some (list_services catalog r).0
step watch_step r = some (watch r).0
step (stop_step id) r = some (stop id r)

abbrev pub and_then :
    Option ConsulRegistry → (ConsulRegistry → Option ConsulRegistry) → Option ConsulRegistry
and_then none f = none
and_then (some r) f = f r

unfoldable pub run : List Step → ConsulRegistry → Option ConsulRegistry
unfolding step
run [] r = some r
run (s ∷ ss) r = and_then (step s r) (run ss)

-- `P` holds of the registry, unless the run has panicked.
abbrev pub Safe : (ConsulRegistry → Type 0) → Option ConsulRegistry → Type 0
Safe P none = Unit {0}
Safe P (some r) = P r

pub and_then-Safe :
    (P Q : ConsulRegistry → Type 0) (o : Option ConsulRegistry)
    (f : ConsulRegistry → Option ConsulRegistry)
    → ((r : ConsulRegistry) → P r → Safe Q (f r))
    → Safe P o
    → Safe Q (and_then o f)
and_then-Safe P Q none f h s = tt
and_then-Safe P Q (some r) f h s = h r s

pub run-Safe :
    (P : ConsulRegistry → Type 0)
    → ((s : Step) (r : ConsulRegistry) → P r → Safe P (step s r))
    → (ss : List Step) (r : ConsulRegistry) → P r
    → Safe P (run ss r)
unfolding run
run-Safe P h [] r p = p
run-Safe P h (s ∷ ss) r p = and_then-Safe P P (step s r) (run ss) (run-Safe P h ss) (h s r p)

pub Safe-some :
    (P : ConsulRegistry → Type 0) (o : Option ConsulRegistry) (r : ConsulRegistry)
    → Safe P o
    → o ≡ some r
    → P r
Safe-some P none r s e = cc
Safe-some P (some q) r s e = subst (Safe P) e s
