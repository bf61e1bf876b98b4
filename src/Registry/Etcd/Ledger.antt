-- ===== src/Registry/Etcd/Ledger.antt =====
-- registry/etcd.go: any sequence of calls, each with the server's answers, and what it makes of the leases.
use grodyia.Prelude.{
  ◌++◌, nat_eq, ℕ, String, string_eq, Bool, true, false, ◌&&◌, not, List, [], ◌∷◌, Option, none,
  some, if◌then◌else◌, lookup,
}
use grodyia.Registry.{Service}
use grodyia.Registry.Etcd.{
  EtcdRegistry, Decoded, new_registry, service_key, connect, close, register, deregister,
  get_service, watch, load_cache, stop,
}

pub data Step : Type 0 where
  connect_step : Bool → Step
  close_step : Step
  register_step : Service → ℕ → ℕ → Option ℕ → Bool → Bool → Step
  deregister_step : Service → ℕ → Bool → Step
  get_step : String → Option (List Decoded) → Step
  watch_step : Step
  load_step : List Decoded → Step
  stop_step : ℕ → Step

-- The registry, and four lists that the program does not keep: the leases granted, those that Close or
-- Deregister asked to revoke, those of a Register that failed after its grant, and those that a key had
-- when it was registered again.
pub record Ledger : Type 0 where
  pub registry : EtcdRegistry
  pub granted : List ℕ
  pub revoked : List ℕ
  pub abandoned : List ℕ
  pub replaced : List ℕ

-- The leases, if the call comes to the point.
abbrev pub is_some : {A : Type 0} → Option A → Bool
is_some none = false
is_some (some x) = true

abbrev pub taken : Bool → Option ℕ → List ℕ
taken b none = []
taken b (some lease) = if b then lease ∷ [] else []

unfoldable pub after_close : Ledger → Option (EtcdRegistry × List ℕ) → Option Ledger
after_close l none = none
after_close l (some (r, gone)) = some (record l { registry = r; revoked = gone ++ l.revoked })

-- `none` where the call panics.
unfoldable pub step : Step → Ledger → Option Ledger
unfolding connect close register deregister get_service watch load_cache stop after_close
step (connect_step made) l = some (record l { registry = (connect made l.registry).0 })
step close_step l = after_close l (close l.registry)
step (register_step s now stamp granted put kept) l =
    let r = l.registry in
    let good = is_some granted && put && kept in
    let old = lookup (service_key r s.name s.id) r.registered in
    some (record {
      registry = (register s now stamp granted put kept r).0;
      granted = taken r.connected granted ++ l.granted;
      revoked = l.revoked;
      abandoned = taken (r.connected && not (put && kept)) granted ++ l.abandoned;
      replaced = taken (r.connected && good) old ++ l.replaced;
    })
step (deregister_step s stamp deleted) l =
    let (r, out, gone) = deregister s stamp deleted l.registry in
    some (record l { registry = r; revoked = gone ++ l.revoked })
step (get_step name answer) l =
    some (record l { registry = (get_service name answer l.registry).0 })
step watch_step l = some (record l { registry = (watch l.registry).0 })
step (load_step found) l = some (record l { registry = load_cache found l.registry })
step (stop_step id) l = some (record l { registry = stop id l.registry })

abbrev pub and_then : Option Ledger → (Ledger → Option Ledger) → Option Ledger
and_then none f = none
and_then (some l) f = f l

unfoldable pub run : List Step → Ledger → Option Ledger
unfolding step
run [] l = some l
run (s ∷ ss) l = and_then (step s l) (run ss)

unfoldable pub fresh : String → String → String → Ledger
unfolding new_registry
fresh group space watched = record {
  registry = new_registry group space watched;
  granted = [];
  revoked = [];
  abandoned = [];
  replaced = [];
}
