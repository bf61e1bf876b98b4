-- ===== src/Events/Tests.antt =====
-- The event bus on concrete inputs: handlers and payloads are numbers, and handler 9 fails.
use grodyia.Prelude.{
  ℕ, ◌≡◌, refl, true, false, List, [], ◌∷◌, Option, none, some, string_eq, lookup, insert, arith,
  ◌==◌, nat_eq, if◌then◌else◌, All,
}
use grodyia.Prelude.Int.{pos}
use grodyia.Events.{
  Event, Subscription, Job, Bus, Options, sent, failed, subs_of, targets, subscribe, unsubscribe,
  call_all, publish_sync, publish_async, new_event, new_bus, worker, close, enqueue,
}
use grodyia.Events.Subscribers.{Inv, subscribe_lem, unsubscribe-subscribe}
use grodyia.Events.Delivery.{call_all_lem, publish_async_lem}
use grodyia.Events.Queue.{
  Step, enqueues, works, closes, subscribes, start, run, step, Balanced, run-start-Balanced,
  run-start-Inv,
}

abbrev handle : ℕ → Event ℕ → Option ℕ
handle h e = if h == 9 then some e.payload else none

abbrev login : ℕ → ℕ → Subscription ℕ
login h id = record { topic = "login"; handler = h; id = id }

abbrev every : Subscription ℕ
every = record { topic = "*"; handler = 5; id = 3 }

abbrev bus : Bus ℕ ℕ
bus = record {
  async = true;
  buffer_size = 4;
  worker_count = 2;
  subscribers = ("login", login 1 1 ∷ login 9 2 ∷ []) ∷ ("*", every ∷ []) ∷ [];
  closed = false;
  next_id = 3;
  jobs = [];
  done = false;
  workers = 0;
  started = false;
}

bus-Inv : Inv bus
bus-Inv = record {
  numbered = (
    record { each = ((refl, omega arith), ((refl, omega arith), tt)) },
    (record { each = ((refl, omega arith), tt) }, tt),
  );
  closed_empty = λ e. cc;
}

-- The handler that fails keeps the wildcard subscriber from the event.
sync_stops : publish_sync handle bus "login" 7 0 ≡ (login 1 1 ∷ login 9 2 ∷ [], failed 7)
unfolding publish_sync lookup
sync_stops = refl

first_failure : All (λ s. handle s.handler (new_event "t" 7 0) ≡ none) (login 1 1 ∷ [])
unfolding call_all
first_failure = ((call_all_lem handle (new_event "t" 7 0) (login 1 1 ∷ [])).0 refl).1

publish_async_lem_run : (publish_async true bus "login" 7 0).1 ≡ sent
unfolding targets lookup
publish_async_lem_run = ((publish_async_lem true bus "login" 7 0).0 refl refl (omega arith)).0

subscribe_lem_run : subscribe (record bus { closed = true }) "login" 4 ≡ none
subscribe_lem_run = (subscribe_lem (record bus { closed = true }) "login" 4).0 refl

abbrev logout : Subscription ℕ
logout = record { topic = "logout"; handler = 4; id = 4 }

abbrev subscribed_bus : Bus ℕ ℕ
subscribed_bus = record bus {
  next_id = 4;
  subscribers =
      ("login", login 1 1 ∷ login 9 2 ∷ []) ∷ ("*", every ∷ []) ∷ ("logout", logout ∷ []) ∷ [];
}

unsubscribe-subscribe_example : subs_of (unsubscribe subscribed_bus logout) "logout" ≡ []
unfolding subscribe lookup insert
unsubscribe-subscribe_example =
    unsubscribe-subscribe bus subscribed_bus "logout" 4 logout "logout" bus-Inv refl

abbrev small : Options
small = record { buffer_size = pos 1; async = true; worker_count = pos 0 }

abbrev job : ℕ → Job ℕ ℕ
job n = record {
  handler = n;
  event = record { topic = "t"; kind = ""; payload = 0; timestamp = 0; metadata = [] };
}

-- A second job waits for room, which a worker makes; after `Close` a job can still be accepted.
abbrev story : List (Step ℕ ℕ)
story =
    enqueues false (job 1)
    ∷ enqueues false (job 2)
    ∷ works false
    ∷ enqueues false (job 2)
    ∷ closes
    ∷ works false
    ∷ enqueues false (job 3)
    ∷ []

story_taken : (run (start small) story).taken ≡ job 1 ∷ job 2 ∷ []
unfolding run step worker close enqueue new_bus
story_taken = refl

run-start-Balanced_example : Balanced (run (start small) story)
run-start-Balanced_example = run-start-Balanced small story

small_bus : Inv (run {H = ℕ} {D = ℕ} (start small) (subscribes "login" 4 ∷ closes ∷ [])).bus
small_bus = run-start-Inv small (subscribes "login" 4 ∷ closes ∷ [])
