-- ===== src/Events.antt =====
-- events/events.go and events/options.go: the event bus. `H` is the type of the handlers, `D` that of
-- the payloads. A section under the mutex is one step; where a `select` has two ways to go, an
-- argument says which one Go's scheduler takes. Contexts are not modelled, the bus never reads them.
pub mod Subscribers
pub mod Delivery
pub mod Queue
mod Tests
use grodyia.Prelude.{
  ℕ, zero, suc, ◌+◌, ◌-◌, String, Bool, true, false, ◌&&◌, ◌||◌, not, List, [], ◌∷◌, ◌++◌, Option,
  none, some, if◌then◌else◌, Dict, lookup, insert, string_eq, ◌==◌, nat_eq, length, ltb,
}
use grodyia.Prelude.Int.{ℤ, pos, negsuc}

-- `kind` is the field `Type`.
pub record Event (D : Type 0) : Type 0 where
  pub topic : String
  pub kind : String
  pub payload : D
  pub timestamp : ℕ
  pub metadata : Dict String String

pub record Subscription (H : Type 0) : Type 0 where
  pub topic : String
  pub handler : H
  pub id : ℕ

pub record Job (H D : Type 0) : Type 0 where
  pub handler : H
  pub event : Event D

pub record Options : Type 0 where
  pub buffer_size : ℤ
  pub async : Bool
  pub worker_count : ℤ

-- `jobs` is the content of the channel, oldest first; `done` says that `b.done` is closed; `workers`
-- counts the goroutines in `worker`, and `started` says that `startOnce` has run.
pub record Bus (H D : Type 0) : Type 0 where
  pub async : Bool
  pub buffer_size : ℕ
  pub worker_count : ℕ
  pub subscribers : Dict String (List (Subscription H))
  pub closed : Bool
  pub next_id : ℕ
  pub jobs : List (Job H D)
  pub done : Bool
  pub workers : ℕ
  pub started : Bool

-- `processors` is `runtime.GOMAXPROCS(0)`.
unfoldable pub default_options : ℕ → Options
default_options processors = record {
  buffer_size = pos 100;
  async = true;
  worker_count = pos processors;
}

-- `if n <= 0 { n = 1 }`
unfoldable pub at_least_one : ℤ → ℕ
at_least_one (pos zero) = 1
at_least_one (pos (suc n)) = suc n
at_least_one (negsuc n) = 1

-- `append(subs[:i], subs[i+1:]...)` at the first entry with the id.
unfoldable pub drop_id : {H : Type 0} → ℕ → List (Subscription H) → List (Subscription H)
drop_id id [] = []
drop_id id (s ∷ rest) = if s.id == id then rest else s ∷ drop_id id rest

unfoldable pub new_event : {D : Type 0} → String → D → ℕ → Event D
new_event topic payload now = record {
  topic = topic;
  kind = "";
  payload = payload;
  timestamp = now;
  metadata = [];
}

unfoldable pub with_type : {D : Type 0} → Event D → String → Event D
with_type e kind = record e { kind = kind }

unfoldable pub with_metadata : {D : Type 0} → Event D → String → String → Event D
with_metadata e key value = record e { metadata = insert key value e.metadata }

pub data Published (E : Type 0) : Type 0 where
  bus_closed : Published E
  published : Published E
  failed : E → Published E

published_of : {E : Type 0} → Option E → Published E
published_of none = published
published_of (some x) = failed x

pub data Sent : Type 0 where
  sent refused blocked : Sent

module _ {H D : Type 0} where
  unfoldable pub new_bus : Options → Bus H D
  unfolding at_least_one
  new_bus o = record {
    async = o.async;
    buffer_size = at_least_one o.buffer_size;
    worker_count = at_least_one o.worker_count;
    subscribers = [];
    closed = false;
    next_id = 0;
    jobs = [];
    done = false;
    workers = 0;
    started = false;
  }

  -- `b.subscribers[topic]`, the empty slice for a missing key.
  abbrev pub subs_of : Bus H D → String → List (Subscription H)
  subs_of b topic = elim (lookup topic b.subscribers) [ none ↦ [] | some l ↦ l ]

  -- `none` is `ErrBusClosed`.
  unfoldable pub subscribe : Bus H D → String → H → Option (Bus H D × Subscription H)
  subscribe b topic handler =
      let sub : Subscription H = record { topic = topic; handler = handler; id = suc b.next_id } in
      if b.closed
      then none
      else some (
        record b {
          next_id = suc b.next_id;
          subscribers = insert topic (subs_of b topic ++ sub ∷ []) b.subscribers;
        },
        sub,
      )

  unsubscribe_in : Option (List (Subscription H)) → Bus H D → Subscription H → Bus H D
  unfolding drop_id
  unsubscribe_in none b sub = b
  unsubscribe_in (some subs) b sub = record b {
    subscribers = insert sub.topic (drop_id sub.id subs) b.subscribers;
  }

  unfoldable pub unsubscribe : Bus H D → Subscription H → Bus H D
  unfolding unsubscribe_in
  unsubscribe b sub = unsubscribe_in (lookup sub.topic b.subscribers) b sub

  -- `Close`, up to `b.workerWG.Wait()`, which waits until no worker is left.
  unfoldable pub close : Bus H D → Bus H D
  close b =
      if b.closed then b else record b { closed = true; subscribers = []; done = b.async || b.done }

  -- The subscriptions that `Publish` copies: those of the topic, then those of "*".
  unfoldable pub targets : Bus H D → String → List (Subscription H)
  targets b topic = subs_of b topic ++ subs_of b "*"

  -- The loops of a synchronous `Publish`: the calls made, in order, and the error that ended them.
  unfoldable pub call_all :
      {E : Type 0}
      → (H → Event D → Option E)
      → Event D
      → List (Subscription H)
      → List (Subscription H) × Option E
  call_all run e [] = ([], none)
  call_all run e (s ∷ rest) =
      let (called, err) = call_all run e rest in
      elim (run s.handler e) [ none ↦ (s ∷ called, err) | some x ↦ (s ∷ [], some x) ]

  -- `Publish` on a synchronous bus, with the subscriptions whose handlers were called.
  unfoldable pub publish_sync :
      {E : Type 0}
      → (H → Event D → Option E)
      → Bus H D
      → String
      → D
      → ℕ
      → List (Subscription H) × Published E
  unfolding targets call_all published_of new_event
  publish_sync run b topic payload now =
      let (called, err) = call_all run (new_event topic payload now) (targets b topic) in
      if b.closed then ([], bus_closed) else (called, published_of err)

  unfoldable pub start_workers : Bus H D → Bus H D
  start_workers b = if b.started then b else record b { started = true; workers = b.worker_count }

  -- `enqueue`: with `done` closed and room in the channel either case of the `select` may be taken.
  unfoldable pub enqueue : Bool → Bus H D → Job H D → Bus H D × Sent
  unfolding start_workers
  enqueue prefer_done bus job =
      let b = start_workers bus in
      let room = ltb (length b.jobs) b.buffer_size in
      if b.done && (prefer_done || not room)
      then (b, refused)
      else if room
      then (record b { jobs = b.jobs ++ job ∷ [] }, sent)
      else (b, blocked)

  -- A round of the loop of one worker: the job that it takes from the channel to run.
  worker_on : List (Job H D) → Bool → Bus H D → Bus H D × Option (Job H D)
  worker_on [] prefer_done b = (if b.done then record b { workers = b.workers - 1 } else b, none)
  worker_on (job ∷ rest) prefer_done b =
      if b.done && prefer_done
      then (record b { workers = b.workers - 1 }, none)
      else (record b { jobs = rest }, some job)

  unfoldable pub worker : Bool → Bus H D → Bus H D × Option (Job H D)
  unfolding worker_on
  worker prefer_done b = if ltb 0 b.workers then worker_on b.jobs prefer_done b else (b, none)

  -- The jobs that an asynchronous `Publish` hands to `enqueue`, in order.
  unfoldable pub jobs_for : Event D → List (Subscription H) → List (Job H D)
  jobs_for e [] = []
  jobs_for e (s ∷ rest) = record { handler = s.handler; event = e } ∷ jobs_for e rest

  -- `Publish` on an asynchronous bus while nothing else runs: it ends where a job is not sent.
  unfoldable pub enqueue_all : Bool → Bus H D → List (Job H D) → Bus H D × Sent
  unfolding enqueue
  enqueue_all prefer_done b [] = (b, sent)
  enqueue_all prefer_done b (job ∷ rest) =
      let (b', outcome) = enqueue prefer_done b job in
      let later = enqueue_all prefer_done b' rest in
      elim outcome [ sent ↦ later | refused ↦ (b', refused) | blocked ↦ (b', blocked) ]

  unfoldable pub publish_async : Bool → Bus H D → String → D → ℕ → Bus H D × Sent
  unfolding targets jobs_for enqueue_all new_event
  publish_async prefer_done b topic payload now =
      if b.closed
      then (b, refused)
      else enqueue_all prefer_done b (jobs_for (new_event topic payload now) (targets b topic))
