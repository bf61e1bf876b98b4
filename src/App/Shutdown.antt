-- ===== src/App/Shutdown.antt =====
-- grodyia.go: what `Stop` does, and that a stopped application stays stopped.
use grodyia.Prelude.{
  ℕ, ◌≡◌, ◌≢◌, ◌↔◌, String, true, false, List, [], ◌∷◌, Option, none, some, arith, All,
  if◌then◌else◌, append-nil,
}
use grodyia.Events.{Bus, close, publish_async, refused}
use grodyia.App.Trace.{
  Reads, ids, Reads-append, run_hooks-Reads, stop_all-Reads, Quiet-after, Quiet-before, Quiet,
  collect, count, up_of, stop_of, connect_of, close_of,
}
use grodyia.App.{
  on_registry, RegistryClient, has_registry, App, Action, cancel_context, close_bus, close_registry,
  started_up, Transport, start, stop, start_body, after_hooks, publish_and_finish, last_stop_err,
}

pub data Call : Type 0 where
  starts : ℕ → Call
  stops : Call

closing-Reads :
    (r : Option RegistryClient)
    → Reads (on_registry r close_registry) [] [] 0 (if has_registry r then 1 else 0)
unfolding on_registry has_registry collect count up_of stop_of connect_of close_of
closing-Reads none = ground arith
closing-Reads (some r) = ground arith

Quiet-cancel :
    {calls : List Action} {u s : List ℕ} {n m : ℕ}
    → Reads calls u s n m
    → Reads (cancel_context ∷ calls) u s n m
unfolding collect count up_of stop_of connect_of close_of
Quiet-cancel h = ground arith

Quiet-close_bus : {calls : List Action} → Quiet calls → Quiet (close_bus ∷ calls)
unfolding collect count up_of stop_of connect_of close_of
Quiet-close_bus h = ground arith

last_stop_err-none :
    (ts : List Transport) (err : Option ℕ)
    → (last_stop_err ts err ≡ none) ↔ ((err ≡ none) × All (λ t. t.stop_err ≡ none) ts)
unfolding last_stop_err
last_stop_err-none [] err = ground arith
last_stop_err-none (t ∷ ts) err =
    ground (arith, last_stop_err-none ts err, last_stop_err-none ts t.stop_err)

module _ {H D : Type 0} where
  unfoldable pub step : App H D → Call → App H D
  step a (starts now) = (start a now).0
  step a stops = (stop a).0

  unfoldable pub run : App H D → List Call → App H D
  run a [] = a
  run a (c ∷ cs) = run (step a c) cs

  -- A stopped application: it does not run, and its bus and its context are done with.
  pub record Dead (a : App H D) : Type 0 where
    pub idle : a.running ≡ false
    pub closed : a.event_bus.closed ≡ true
    pub cancelled : a.context_done ≡ true

  refuses :
      (b : Bus H D) (topic : String) (payload : D) (now : ℕ)
      → b.closed ≡ true
      → publish_async false b topic payload now ≡ (b, refused)
  unfolding publish_async
  refuses b topic payload now h = ground arith

  body_refused : (a : App H D) → (start_body a refused).outcome ≢ started_up
  unfolding start_body after_hooks publish_and_finish
  body_refused a = ground arith

  start-Dead : (a : App H D) (now : ℕ) → Dead a → Dead (start a now).0
  unfolding start
  start-Dead a now h =
      ground (arith, refuses a.event_bus "app.started" a.start_payload now, body_refused a)

  stop-Dead : (a : App H D) → Dead a → Dead (stop a).0
  unfolding stop
  stop-Dead a h = ground arith

  stop_kills : (a : App H D) → a.running ≡ true → Dead (stop a).0
  unfolding stop close
  stop_kills a h = ground arith

  run-Dead : (a : App H D) (cs : List Call) → Dead a → Dead (run a cs)
  unfolding run step
  run-Dead a [] h = h
  run-Dead a (starts now ∷ cs) h = run-Dead (start a now).0 cs (start-Dead a now h)
  run-Dead a (stops ∷ cs) h = run-Dead (stop a).0 cs (stop-Dead a h)

  -- An application that has been stopped never runs again, whatever calls of `Start` and `Stop`
  -- follow: its bus stays closed and its context cancelled.
  pub run-stop : (a : App H D) (cs : List Call) → a.running ≡ true → Dead (run (stop a).0 cs)
  run-stop a cs h = run-Dead (stop a).0 cs (stop_kills a h)

  -- `Stop` on a running application stops each of its transports once, in the order in which they were
  -- bound, whether or not one of them fails, and closes a registry once; it returns nil exactly if every
  -- transport stopped without an error, and the application no longer runs.
  pub stop_lem :
      (a : App H D)
      → a.running ≡ true
      → let (b, calls, err) = stop a in
        Reads calls [] (ids a.transports) 0 (if has_registry a.registry then 1 else 0)
        × ((err ≡ none) ↔ All (λ t. t.stop_err ≡ none) a.transports)
        × (b.running ≡ false)
  unfolding stop
  stop_lem a h = ground (
    arith,
    append-nil (ids a.transports),
    last_stop_err-none a.transports none,
    Quiet-cancel (
        Quiet-before (run_hooks-Reads a.before_stop) (
          Reads-append (closing-Reads a.registry) (
            Quiet-after (stop_all-Reads a.transports)
              (Quiet-close_bus (run_hooks-Reads a.after_stop))))),
  )
