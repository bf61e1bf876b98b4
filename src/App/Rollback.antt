-- ===== src/App/Rollback.antt =====
-- grodyia.go: what a call of `Start` has started when it ends, and what it undoes when it fails.
use grodyia.Prelude.{
  ℕ, ◌≡◌, refl, Bool, true, false, List, [], ◌∷◌, ◌++◌, reverse, Option, none, arith, append-nil,
}
use mathlib.Mathlib.Data.List.Basic.{map-reverse_aux}
use grodyia.Events.{Sent, sent, refused, blocked, publish_async}
use grodyia.App.{
  App, Action, init_log, started_up, failed, StartError, Progress, Transport, run_before,
  start_transports, connect_ok, connecting, has_registry, rollback, publish_and_finish, after_hooks,
  start_body, start, RegistryClient,
}
use grodyia.App.Trace.{
  close-Reads, ups, stops, connects, closes, ids, Reads, as_number, Quiet, Quiet-after,
  Quiet-before, Quiet-init_log, Quiet-publish_started, Quiet-nil, Reads-append, run_before-Reads,
  run_hooks-Reads, start_transports-Reads, stop_all-Reads, on_registry-Reads, connecting-Reads,
}

-- The readings of the calls of the body of `Start`: it stops and closes nothing.
abbrev Fine : Progress → Type 0
Fine p = Reads p.calls (ids p.started) [] (as_number p.connected) 0

rollback-Reads :
    (p : Progress) (e : StartError)
    → p.outcome ≡ failed e
    → Reads (rollback p) [] (reverse (ids p.started)) 0 (as_number p.connected)
unfolding rollback
rollback-Reads p e h = ground (
  arith,
  stop_all-Reads (reverse p.started),
  map-reverse_aux (λ t. t.id) p.started [],
  close-Reads p.connected,
  Reads-append (stop_all-Reads (reverse p.started)) (close-Reads p.connected),
  append-nil (ids (reverse p.started)),
)

-- The calls up to the loop over the transports.
starting-Reads :
    (r : Option RegistryClient) (ts : List Transport) (before : List Action)
    → Quiet before
    → let (calls, started, err) = start_transports (has_registry r) ts in
      Reads
        (init_log ∷ before ++ connecting r ++ calls)
        (ids started)
        []
        (as_number (connect_ok r))
        0
starting-Reads r ts before h = ground (
  arith,
  Reads-append (Quiet-before (Quiet-init_log h) (connecting-Reads r))
      (start_transports-Reads (has_registry r) ts),
)

rolled_back :
    (p : Progress) (e : StartError)
    → Fine p
    → p.outcome ≡ failed e
    → (stops (p.calls ++ rollback p) ≡ reverse (ups (p.calls ++ rollback p)))
      × (closes (p.calls ++ rollback p) ≡ connects (p.calls ++ rollback p))
rolled_back p e f h =
    ground (arith, append-nil (ids p.started), Reads-append f (rollback-Reads p e h))

unrolled : (p : Progress) → p.outcome ≡ started_up → p.calls ++ rollback p ≡ p.calls
unfolding rollback
unrolled p h = ground (arith, append-nil p.calls)

all_started :
    (registered : Bool) (ts : List Transport)
    → let (calls, started, err) = start_transports registered ts in err ≡ none → started ≡ ts
unfolding start_transports
all_started registered [] h = refl
all_started registered (t ∷ rest) h = ground (arith, all_started registered rest)

module _ {H D : Type 0} where
  publish_and_finish-Fine :
      (a : App H D) (sending : Sent) (calls : List Action) (started : List Transport)
      (connected : Bool)
      → Reads calls (ids started) [] (as_number connected) 0
      → Fine (publish_and_finish a sending calls started connected)
  unfolding publish_and_finish
  publish_and_finish-Fine a sent calls started connected h =
      Quiet-after h (Quiet-publish_started (run_hooks-Reads a.after_start))
  publish_and_finish-Fine a refused calls started connected h =
      Quiet-after h (Quiet-publish_started Quiet-nil)
  publish_and_finish-Fine a blocked calls started connected h =
      Quiet-after h (Quiet-publish_started Quiet-nil)

  after_hooks-Fine :
      (a : App H D) (sending : Sent) (before : List Action)
      → Reads before [] [] 0 0
      → Fine (after_hooks a sending before)
  unfolding after_hooks
  after_hooks-Fine a sending before h = ground (
    arith,
    starting-Reads a.registry a.transports before h,
    publish_and_finish-Fine a sending _ _ _ (
        Quiet-after (starting-Reads a.registry a.transports before h)
          (on_registry-Reads a.registry)),
  )

  start_body-Fine : (a : App H D) (sending : Sent) → Fine (start_body a sending)
  unfolding start_body
  start_body-Fine a sending = ground (
    arith,
    run_before-Reads a.before_start,
    after_hooks-Fine a sending (run_before a.before_start).0 (run_before-Reads a.before_start),
    Quiet-init_log Quiet-nil,
    Quiet-init_log (run_before-Reads a.before_start),
  )

  -- When a call of `Start` returns an error, the transports that it started are stopped once each, the
  -- last one first, the registry is closed exactly if it was connected, and the application is neither
  -- running nor starting.
  pub start_rollback :
      (a : App H D) (now : ℕ) (e : StartError)
      → let (b, calls, outcome) = start a now in
        outcome ≡ failed e
        → (stops calls ≡ reverse (ups calls))
          × (closes calls ≡ connects calls)
          × (b.running ≡ false)
          × (b.starting ≡ false)
  unfolding start
  start_rollback a now e h =
      let sending = (publish_async false a.event_bus "app.started" a.start_payload now).1 in
      ground (arith, rolled_back (start_body a sending) e (start_body-Fine a sending))

  body_started :
      (a : App H D) (sending : Sent)
      → (start_body a sending).outcome ≡ started_up
      → (start_body a sending).started ≡ a.transports
  unfolding start_body after_hooks publish_and_finish
  body_started a sending h = ground (arith, all_started (has_registry a.registry) a.transports)

  -- When a call of `Start` on an application that neither runs nor starts returns nil, it started every
  -- transport once, in the order in which they were bound, it stopped none and did not close the
  -- registry, and the application runs.
  pub start_success :
      (a : App H D) (now : ℕ)
      → a.running ≡ false
      → a.starting ≡ false
      → let (b, calls, outcome) = start a now in
        outcome ≡ started_up
        → (ups calls ≡ ids a.transports)
          × (stops calls ≡ [])
          × (closes calls ≡ 0)
          × (b.running ≡ true)
  unfolding start
  start_success a now r s h =
      let sending = (publish_async false a.event_bus "app.started" a.start_payload now).1 in
      ground
        (arith, start_body-Fine a sending, unrolled (start_body a sending), body_started a sending)
