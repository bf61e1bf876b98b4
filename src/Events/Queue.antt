-- ===== src/Events/Queue.antt =====
-- The channel and the workers of the asynchronous bus of events/events.go, over any interleaving of
-- publishers, workers, subscribers and `Close`.
use grodyia.Prelude.{
  ◌≤◌, ◌≡◌, ◌∙◌, refl, sym, subst₂, AllEntries, String, Bool, true, List, [], ◌∷◌, ◌++◌,
  append_assoc, Option, none, some, length, length-append, arith,
}
use grodyia.Events.{
  Subscription, Job, Bus, Options, new_bus, subscribe, unsubscribe, close, Sent, sent, refused,
  blocked, enqueue, worker,
}
use grodyia.Events.Subscribers.{
  Inv, Numbered, subscribe-Inv, unsubscribe-Inv, close-Inv, new_bus-Inv,
}

-- The bus with two records that the program does not keep: the jobs whose `enqueue` returned nil and
-- the jobs that workers took, each in order.
pub record World (H D : Type 0) : Type 0 where
  pub bus : Bus H D
  pub accepted : List (Job H D)
  pub taken : List (Job H D)

pub data Step (H D : Type 0) : Type 0 where
  enqueues : Bool → Job H D → Step H D
  works : Bool → Step H D
  closes : Step H D
  subscribes : String → H → Step H D
  unsubscribes : Subscription H → Step H D

module _ {H D : Type 0} where
  accept : Sent → Job H D → List (Job H D) → List (Job H D)
  accept sent job jobs = jobs ++ job ∷ []
  accept refused job jobs = jobs
  accept blocked job jobs = jobs

  take_job : Option (Job H D) → List (Job H D) → List (Job H D)
  take_job none jobs = jobs
  take_job (some job) jobs = jobs ++ job ∷ []

  subscribed : Option (Bus H D × Subscription H) → Bus H D → Bus H D
  subscribed none b = b
  subscribed (some (c, s)) b = c

  unfoldable pub step : World H D → Step H D → World H D
  unfolding accept take_job subscribed
  step w (enqueues prefer_done job) =
      let (b, outcome) = enqueue prefer_done w.bus job in
      record w { bus = b; accepted = accept outcome job w.accepted }
  step w (works prefer_done) =
      let (b, job) = worker prefer_done w.bus in record w { bus = b; taken = take_job job w.taken }
  step w closes = record w { bus = close w.bus }
  step w (subscribes topic handler) = record w {
    bus = subscribed (subscribe w.bus topic handler) w.bus;
  }
  step w (unsubscribes s) = record w { bus = unsubscribe w.bus s }

  unfoldable pub run : World H D → List (Step H D) → World H D
  run w [] = w
  run w (s ∷ ss) = run (step w s) ss

  abbrev pub start : Options → World H D
  start o = record { bus = new_bus o; accepted = []; taken = [] }

  -- The channel holds what was accepted and not yet taken, within its capacity.
  pub record Balanced (w : World H D) : Type 0 where
    pub fifo : w.accepted ≡ w.taken ++ w.bus.jobs
    pub bounded : length w.bus.jobs ≤ w.bus.buffer_size
    pub few_workers : w.bus.workers ≤ w.bus.worker_count
    pub done_closed : w.bus.done ≡ true → w.bus.closed ≡ true

  enqueue-Balanced :
      (w : World H D) (prefer_done : Bool) (job : Job H D)
      → Balanced w
      → Balanced (step w (enqueues prefer_done job))
  unfolding step enqueue
  enqueue-Balanced w prefer_done job h =
      ground
        (arith, append_assoc w.taken w.bus.jobs (job ∷ []), length-append w.bus.jobs (job ∷ []))

  worker-Balanced :
      (w : World H D) (prefer_done : Bool) (jobs : List (Job H D))
      → w.bus.jobs ≡ jobs
      → Balanced w
      → Balanced (step w (works prefer_done))
  unfolding step worker
  worker-Balanced w prefer_done [] e h = ground arith
  worker-Balanced w prefer_done (job ∷ jobs) e h =
      ground (arith, append_assoc w.taken (job ∷ []) jobs)

  -- The steps that are neither `enqueue` nor a worker's leave the channel alone.
  subscribe-Balanced :
      (w : World H D) (topic : String) (handler : H)
      → Balanced w
      → Balanced (step w (subscribes topic handler))
  unfolding step subscribe
  subscribe-Balanced w topic handler h = ground arith

  close-Balanced : (w : World H D) → Balanced w → Balanced (step w closes)
  unfolding step close
  close-Balanced w h = ground arith

  unsubscribe-Balanced :
      (w : World H D) (s : Subscription H) → Balanced w → Balanced (step w (unsubscribes s))
  unfolding step unsubscribe
  unsubscribe-Balanced w s h = ground arith

  step-Balanced : (w : World H D) (s : Step H D) → Balanced w → Balanced (step w s)
  step-Balanced w (enqueues p job) h = enqueue-Balanced w p job h
  step-Balanced w (works p) h = worker-Balanced w p w.bus.jobs refl h
  step-Balanced w closes h = close-Balanced w h
  step-Balanced w (subscribes topic handler) h = subscribe-Balanced w topic handler h
  step-Balanced w (unsubscribes s) h = unsubscribe-Balanced w s h

  run-Balanced : (w : World H D) (ss : List (Step H D)) → Balanced w → Balanced (run w ss)
  unfolding run
  run-Balanced w [] h = h
  run-Balanced w (s ∷ ss) h = run-Balanced (step w s) ss (step-Balanced w s h)

  start-Balanced : (o : Options) → Balanced (start o)
  unfolding new_bus
  start-Balanced o = ground arith

  -- After any interleaving on a new bus the jobs that workers took, followed by those in the channel,
  -- are the jobs whose `enqueue` returned nil, in that order: none is lost, doubled or overtaken.
  -- The channel keeps its capacity, and no more workers run than configured.
  pub run-start-Balanced : (o : Options) (ss : List (Step H D)) → Balanced (run (start o) ss)
  run-start-Balanced o ss = run-Balanced (start o) ss (start-Balanced o)

  same-Inv :
      (b c : Bus H D)
      → (b.next_id ≡ c.next_id) × (b.subscribers ≡ c.subscribers) × (c.closed ≡ b.closed)
      → Inv b
      → Inv c
  same-Inv b c (n, m, o) h = record {
    numbered = subst₂ (λ k d. AllEntries (Numbered k) d) n m h.numbered;
    closed_empty = λ e. sym m ∙ h.closed_empty (sym o ∙ e);
  }

  enqueue_same :
      (p : Bool) (b : Bus H D) (job : Job H D)
      → let c = (enqueue p b job).0 in
        (b.next_id ≡ c.next_id) × (b.subscribers ≡ c.subscribers) × (c.closed ≡ b.closed)
  unfolding enqueue
  enqueue_same p b job = ground arith

  worker_same :
      (p : Bool) (b : Bus H D) (jobs : List (Job H D))
      → b.jobs ≡ jobs
      → let c = (worker p b).0 in
        (b.next_id ≡ c.next_id) × (b.subscribers ≡ c.subscribers) × (c.closed ≡ b.closed)
  unfolding worker
  worker_same p b [] e = ground arith
  worker_same p b (job ∷ jobs) e = ground arith

  subscribed-Inv :
      (b : Bus H D) (topic : String) (handler : H) (r : Option (Bus H D × Subscription H))
      → subscribe b topic handler ≡ r
      → Inv b
      → Inv (subscribed r b)
  unfolding subscribed
  subscribed-Inv b topic handler none e h = h
  subscribed-Inv b topic handler (some (c, s)) e h = subscribe-Inv b c topic handler s h e

  step-Inv : (w : World H D) (s : Step H D) → Inv w.bus → Inv (step w s).bus
  unfolding step
  step-Inv w (enqueues p job) h = same-Inv w.bus _ (enqueue_same p w.bus job) h
  step-Inv w (works p) h = same-Inv w.bus _ (worker_same p w.bus w.bus.jobs refl) h
  step-Inv w closes h = close-Inv w.bus h
  step-Inv w (subscribes topic handler) h = subscribed-Inv w.bus topic handler _ refl h
  step-Inv w (unsubscribes s) h = unsubscribe-Inv w.bus s h

  run-Inv : (w : World H D) (ss : List (Step H D)) → Inv w.bus → Inv (run w ss).bus
  unfolding run
  run-Inv w [] h = h
  run-Inv w (s ∷ ss) h = run-Inv (step w s) ss (step-Inv w s h)

  -- After any interleaving on a new bus every subscription stands under its topic with an id already
  -- given out, and a closed bus has none.
  pub run-start-Inv : (o : Options) (ss : List (Step H D)) → Inv (run (start o) ss).bus
  run-start-Inv o ss = run-Inv (start o) ss (new_bus-Inv o)
