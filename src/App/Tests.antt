-- ===== src/App/Tests.antt =====
-- Applications with a registry and two transports, and the theorems at them.
use grodyia.Prelude.{lookup, ℕ, ◌≡◌, refl, true, false, [], ◌∷◌, none, some, reverse, All, ◌↔◌}
use grodyia.Prelude.Int.{pos}
use grodyia.Events.{Options, new_bus, publish_async}
use grodyia.App.{
  App, Transport, start, stop, transport_error, start_body, after_hooks, has_registry,
}
use grodyia.App.Trace.{ups, stops, closes, connects, Reads}
use grodyia.App.Rollback.{start_rollback, start_success}
use grodyia.App.Shutdown.{Dead, run, starts, run-stop, stop_lem}

abbrev options : Options
options = record { buffer_size = pos 2; async = true; worker_count = pos 1 }

abbrev grpc : Transport
grpc = record { id = 1; start_err = none; stop_err = none }

abbrev http : Transport
http = record { id = 2; start_err = none; stop_err = some 7 }

abbrev broken : Transport
broken = record { id = 3; start_err = some 9; stop_err = none }

abbrev app : App ℕ ℕ
app = record {
  registry = some (record { connect_err = none });
  event_bus = new_bus options;
  transports = grpc ∷ http ∷ [];
  log_err = none;
  start_payload = 0;
  context_done = false;
  running = false;
  starting = false;
  before_start = record { id = 5; hook_err = none } ∷ [];
  after_start = [];
  before_stop = [];
  after_stop = [];
}

abbrev broken_app : App ℕ ℕ
broken_app = record app { transports = grpc ∷ http ∷ broken ∷ [] }

start_rollback_example :
    (stops (start broken_app 4).1 ≡ reverse (ups (start broken_app 4).1))
    × (closes (start broken_app 4).1 ≡ connects (start broken_app 4).1)
    × ((start broken_app 4).0.running ≡ false)
    × ((start broken_app 4).0.starting ≡ false)
unfolding start start_body after_hooks new_bus publish_async lookup
start_rollback_example = start_rollback broken_app 4 (transport_error 9) refl

start_success_run :
    (ups (start app 4).1 ≡ 1 ∷ 2 ∷ [])
    × (stops (start app 4).1 ≡ [])
    × (closes (start app 4).1 ≡ 0)
    × ((start app 4).0.running ≡ true)
unfolding start start_body after_hooks new_bus publish_async lookup
start_success_run = start_success app 4 refl refl refl

run-stop_example : Dead (run (stop (record app { running = true })).0 (starts 5 ∷ starts 6 ∷ []))
run-stop_example = run-stop (record app { running = true }) (starts 5 ∷ starts 6 ∷ []) refl

stop_lem_run :
    let a = record app { running = true } in
    let (b, calls, err) = stop a in
    Reads calls [] (1 ∷ 2 ∷ []) 0 1
    × ((err ≡ none) ↔ All (λ t. t.stop_err ≡ none) a.transports)
    × (b.running ≡ false)
unfolding has_registry
stop_lem_run = stop_lem (record app { running = true }) refl
