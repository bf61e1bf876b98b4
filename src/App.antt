-- ===== src/App.antt =====
-- grodyia.go: the lifecycle of the application. What the application calls, transports, registry and
-- hooks, is a parameter: a value says how each of its calls ends. The event bus is that of
-- Events.antt. `Start` and `Stop` return, with the new application, the calls that they made, in
-- order. Hooks do not change the application, and calls of `Start` and `Stop` do not overlap.
pub mod Trace
pub mod Rollback
pub mod Shutdown
mod Tests
use grodyia.Prelude.{
  ℕ, Bool, true, false, ◌||◌, List, [], ◌∷◌, ◌++◌, reverse, Option, none, some, if◌then◌else◌,
}
use grodyia.Events.{Bus, Sent, sent, refused, blocked, publish_async, close}

-- `none` is a nil error.
pub record Transport : Type 0 where
  pub id : ℕ
  pub start_err : Option ℕ
  pub stop_err : Option ℕ

pub record Hook : Type 0 where
  pub id : ℕ
  pub hook_err : Option ℕ

-- The errors of `Register`, `Watch` and `Close` are logged and dropped.
pub record RegistryClient : Type 0 where
  pub connect_err : Option ℕ

-- `context_done` says that `a.cancel` was called. `log_err` is the error of `logger.New`, and
-- `start_payload` the value published at the start.
pub record App (H D : Type 0) : Type 0 where
  pub registry : Option RegistryClient
  pub event_bus : Bus H D
  pub transports : List Transport
  pub log_err : Option ℕ
  pub start_payload : D
  pub context_done : Bool
  pub running : Bool
  pub starting : Bool
  pub before_start : List Hook
  pub after_start : List Hook
  pub before_stop : List Hook
  pub after_stop : List Hook

-- `Connect` and a transport's `Start` come with their errors.
pub data Action : Type 0 where
  init_log watch_registry close_registry cancel_context close_bus publish_started : Action
  run_hook stop_transport register_transport : ℕ → Action
  start_transport : ℕ → Option ℕ → Action
  connect_registry : Option ℕ → Action

pub data StartError : Type 0 where
  logger_error hook_error transport_error : ℕ → StartError
  publish_error : StartError

-- `waits` is a `Start` that has not returned: its `Publish` waits for room in the bus's channel.
pub data Outcome : Type 0 where
  started_up waits : Outcome
  failed : StartError → Outcome

-- How far the body of `Start` came: its calls, `startedTransports`, `registryConnected` and its end.
pub record Progress : Type 0 where
  pub calls : List Action
  pub started : List Transport
  pub connected : Bool
  pub outcome : Outcome

-- The loop over `beforeStart`, which ends at the first error.
unfoldable pub run_before : List Hook → List Action × Option ℕ
run_before [] = ([], none)
run_before (h ∷ rest) =
    let (calls, err) = run_before rest in
    elim h.hook_err [ none ↦ (run_hook h.id ∷ calls, err) | some e ↦ (run_hook h.id ∷ [], some e) ]

-- A loop over hooks whose errors are logged.
unfoldable pub run_hooks : List Hook → List Action
run_hooks [] = []
run_hooks (h ∷ rest) = run_hook h.id ∷ run_hooks rest

-- The loop over the transports: the calls, those started, and the error that ended it.
unfoldable pub start_transports : Bool → List Transport → List Action × List Transport × Option ℕ
start_transports registered [] = ([], [], none)
start_transports registered (t ∷ rest) =
    let (calls, started, err) = start_transports registered rest in
    let registration = if registered then register_transport t.id ∷ [] else [] in
    elim t.start_err [
      | none ↦ (start_transport t.id none ∷ registration ++ calls, t ∷ started, err)
      | some e ↦ (start_transport t.id (some e) ∷ [], [], some e)
    ]

unfoldable pub stop_all : List Transport → List Action
stop_all [] = []
stop_all (t ∷ rest) = stop_transport t.id ∷ stop_all rest

unfoldable pub connect_ok : Option RegistryClient → Bool
connect_ok none = false
connect_ok (some r) = elim r.connect_err [ none ↦ true | some e ↦ false ]

unfoldable pub connecting : Option RegistryClient → List Action
connecting none = []
connecting (some r) = connect_registry r.connect_err ∷ []

-- `if a.registry != nil`
unfoldable pub on_registry : Option RegistryClient → Action → List Action
on_registry none call = []
on_registry (some r) call = call ∷ []

unfoldable pub has_registry : Option RegistryClient → Bool
has_registry none = false
has_registry (some r) = true

-- The calls of the `defer`: on an error the started transports are stopped, the last one first, and
-- the registry is closed if it was connected.
unfoldable pub rollback : Progress → List Action
unfolding stop_all
rollback p = elim p.outcome [
  | started_up ↦ []
  | waits ↦ []
  | failed e ↦ stop_all (reverse p.started) ++ (if p.connected then close_registry ∷ [] else [])
]

unfoldable pub last_stop_err : List Transport → Option ℕ → Option ℕ
last_stop_err [] err = err
last_stop_err (t ∷ rest) err = last_stop_err rest (elim t.stop_err [ none ↦ err | some e ↦ some e ])

module _ {H D : Type 0} where
  -- `New`, with the event bus that it makes.
  unfoldable pub new : Option RegistryClient → Bus H D → Option ℕ → D → App H D
  new registry event_bus log_err start_payload = record {
    registry = registry;
    event_bus = event_bus;
    transports = [];
    log_err = log_err;
    start_payload = start_payload;
    context_done = false;
    running = false;
    starting = false;
    before_start = [];
    after_start = [];
    before_stop = [];
    after_stop = [];
  }

  -- `Start` from `Publish` on, whose result is the argument of type `Sent`.
  unfoldable pub publish_and_finish :
      App H D → Sent → List Action → List Transport → Bool → Progress
  unfolding run_hooks
  publish_and_finish a sent calls started connected = record {
    calls = calls ++ publish_started ∷ run_hooks a.after_start;
    started = started;
    connected = connected;
    outcome = started_up;
  }
  publish_and_finish a refused calls started connected = record {
    calls = calls ++ publish_started ∷ [];
    started = started;
    connected = connected;
    outcome = failed publish_error;
  }
  publish_and_finish a blocked calls started connected = record {
    calls = calls ++ publish_started ∷ [];
    started = started;
    connected = connected;
    outcome = waits;
  }

  -- `Start` after the hooks, whose calls are `before`.
  unfoldable pub after_hooks : App H D → Sent → List Action → Progress
  unfolding start_transports connect_ok connecting publish_and_finish on_registry has_registry
  after_hooks a sending before =
      let connected = connect_ok a.registry in
      let (starts, started, err) = start_transports (has_registry a.registry) a.transports in
      let calls = init_log ∷ before ++ connecting a.registry ++ starts in
      elim err [
        | some e ↦ record {
          calls = calls;
          started = started;
          connected = connected;
          outcome = failed (transport_error e);
        }
        | none ↦
            publish_and_finish a sending (calls ++ on_registry a.registry watch_registry) started
              connected
      ]

  -- The body of `Start` under its `defer`.
  unfoldable pub start_body : App H D → Sent → Progress
  unfolding run_before after_hooks
  start_body a sending =
      let (before, hook_failed) = run_before a.before_start in
      elim a.log_err [
        | some e ↦ record {
          calls = init_log ∷ [];
          started = [];
          connected = false;
          outcome = failed (logger_error e);
        }
        | none ↦ elim hook_failed [
          | some e ↦ record {
            calls = init_log ∷ before;
            started = [];
            connected = false;
            outcome = failed (hook_error e);
          }
          | none ↦ after_hooks a sending before
        ]
      ]

  -- What `Publish` changes in the bus, where `Start` comes to it.
  abbrev pub bus_after : Outcome → Bus H D → Bus H D → Bus H D
  bus_after started_up old bus = bus
  bus_after waits old bus = bus
  bus_after (failed publish_error) old bus = bus
  bus_after (failed e) old bus = old

  -- `Start` at the time `now`.
  unfoldable pub start : App H D → ℕ → App H D × List Action × Outcome
  unfolding start_body rollback
  start a now =
      let (bus, sending) = publish_async false a.event_bus "app.started" a.start_payload now in
      let p = start_body a sending in
      if a.running || a.starting then (a, [], started_up) else (
        record a {
          event_bus = bus_after p.outcome a.event_bus bus;
          running = elim p.outcome [ started_up ↦ true | waits ↦ false | failed e ↦ false ];
          starting = elim p.outcome [ started_up ↦ false | waits ↦ true | failed e ↦ false ];
        },
        p.calls ++ rollback p,
        p.outcome,
      )

  -- `Stop`
  unfoldable pub stop : App H D → App H D × List Action × Option ℕ
  unfolding last_stop_err run_hooks stop_all on_registry
  stop a =
      if a.running
      then (
        record a { running = false; context_done = true; event_bus = close a.event_bus },
        cancel_context
            ∷ (run_hooks a.before_stop
                ++ (on_registry a.registry close_registry
                    ++ (stop_all a.transports ++ close_bus ∷ run_hooks a.after_stop))),
        last_stop_err a.transports none,
      )
      else (a, [], none)

  -- `Bind`
  unfoldable pub bind : App H D → List Transport → App H D
  bind a ts = record a { transports = a.transports ++ ts }
