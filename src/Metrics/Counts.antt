-- ===== src/Metrics/Counts.antt =====
-- middleware/metrics.go: the metrics after any requests and connections.
use grodyia.Prelude.{
  ◌≡◌, refl, ℕ, suc, ◌+◌, ◌%◌, ◌&&◌, String, string_eq, ◌==◌, Bool, true, false, List, [], ◌∷◌,
  if◌then◌else◌, length, arith, eq_iff, lookup, insert, lookup-insert,
}
use grodyia.Metrics.{
  word, add64, Metrics, LatencyHistogram, new_metrics, get_counter, get_histogram, count_one,
  observe, record_request, connection_opened, connection_closed,
}
use grodyia.Metrics.Buckets.{observe_all}

pub data Step : Type 0 where
  request : String → ℕ → Bool → Step
  opened closed : Step

unfoldable pub step : Step → Metrics → Metrics
unfolding record_request connection_opened connection_closed
step (request method ms failed) m = record_request method ms failed m
step opened m = connection_opened m
step closed m = connection_closed m

-- The metrics after the steps, the newest first.
unfoldable pub run : List Step → Metrics
unfolding step
run [] = new_metrics
run (s ∷ ss) = step s (run ss)

-- The latencies of the method's requests, and how many of them failed.
abbrev pub latencies : String → List Step → List ℕ
latencies method [] = []
latencies method (request other ms failed ∷ ss) =
    if other == method then ms ∷ latencies method ss else latencies method ss
latencies method (opened ∷ ss) = latencies method ss
latencies method (closed ∷ ss) = latencies method ss

abbrev pub failures : String → List Step → ℕ
failures method [] = 0
failures method (request other ms failed ∷ ss) =
    failures method ss + (if other == method && failed then 1 else 0)
failures method (opened ∷ ss) = failures method ss
failures method (closed ∷ ss) = failures method ss

-- Connections opened, and connections closed.
abbrev pub opens : List Step → ℕ
opens [] = 0
opens (request method ms failed ∷ ss) = opens ss
opens (opened ∷ ss) = suc (opens ss)
opens (closed ∷ ss) = opens ss

abbrev pub closes : List Step → ℕ
closes [] = 0
closes (request method ms failed ∷ ss) = closes ss
closes (opened ∷ ss) = closes ss
closes (closed ∷ ss) = suc (closes ss)

count_one-get :
    (key method : String) (counters : List (String × ℕ))
    → get_counter method (count_one key counters) ≡ (
        if key == method
        then add64 (get_counter method counters) 1
        else get_counter method counters)
unfolding count_one
count_one-get key method counters = ground (
  arith,
  lookup-insert key method (add64 (get_counter key counters) 1) counters,
  eq_iff key method,
)

record Counted (method : String) (ss : List Step) (m : Metrics) : Type 0 where
  requests : get_counter method m.requests_total ≡ length (latencies method ss) % word
  errors : get_counter method m.errors_total ≡ failures method ss % word
  latency : get_histogram method m.requests_latency ≡ observe_all (latencies method ss)
  active : (m.active_connections + closes ss) % word ≡ opens ss % word

new-Counted : (method : String) → Counted method [] new_metrics
unfolding new_metrics observe_all lookup
new-Counted method = record { requests = refl; errors = refl; latency = refl; active = refl }

errors_after :
    (method other : String) (failed : Bool) (counters : List (String × ℕ)) (n : ℕ)
    → get_counter method counters ≡ n % word
    → get_counter method (if failed then count_one other counters else counters)
      ≡ (n + (if other == method && failed then 1 else 0)) % word
errors_after method other true counters n h = ground (arith, count_one-get other method counters)
errors_after method other false counters n h = ground arith

requests_after :
    (method other : String) (counters : List (String × ℕ)) (obs : List ℕ) (ms : ℕ)
    → get_counter method counters ≡ length obs % word
    → get_counter method (count_one other counters)
      ≡ length (if other == method then ms ∷ obs else obs) % word
requests_after method other counters obs ms h = ground (arith, count_one-get other method counters)

latency_after :
    (method other : String) (hs : List (String × LatencyHistogram)) (obs : List ℕ) (ms : ℕ)
    → get_histogram method hs ≡ observe_all obs
    → get_histogram method (insert other (observe ms (get_histogram other hs)) hs)
      ≡ observe_all (if other == method then ms ∷ obs else obs)
unfolding observe_all
latency_after method other hs obs ms h = ground (
  arith,
  lookup-insert other method (observe ms (get_histogram other hs)) hs,
  eq_iff other method,
)

step-Counted :
    (method : String) (s : Step) (ss : List Step) (m : Metrics)
    → Counted method ss m
    → Counted method (s ∷ ss) (step s m)
unfolding step record_request connection_opened connection_closed
step-Counted method (request other ms failed) ss m h = record {
  requests = requests_after method other m.requests_total (latencies method ss) ms h.requests;
  errors = errors_after method other failed m.errors_total (failures method ss) h.errors;
  latency = latency_after method other m.requests_latency (latencies method ss) ms h.latency;
  active = h.active;
}
step-Counted method opened ss m h = record {
  requests = h.requests;
  errors = h.errors;
  latency = h.latency;
  active = let e = h.active in omega arith;
}
step-Counted method closed ss m h = record {
  requests = h.requests;
  errors = h.errors;
  latency = h.latency;
  active = let e = h.active in omega arith;
}

run-Counted : (method : String) (ss : List Step) → Counted method ss (run ss)
unfolding run
run-Counted method [] = new-Counted method
run-Counted method (s ∷ ss) = step-Counted method s ss (run ss) (run-Counted method ss)

-- After any requests and changes of connections, the newest first, for every method: its counter of
-- requests is the number of its requests, its counter of errors the number of those that failed, and its
-- histogram the one that has observed the latencies of its requests alone; and the active connections
-- are those opened less those closed; all modulo 2 ^ 64.
pub run_lem :
    (method : String) (ss : List Step)
    → (get_counter method (run ss).requests_total ≡ length (latencies method ss) % word)
      × (get_counter method (run ss).errors_total ≡ failures method ss % word)
      × (get_histogram method (run ss).requests_latency ≡ observe_all (latencies method ss))
      × (((run ss).active_connections + closes ss) % word ≡ opens ss % word)
run_lem method ss = let h = run-Counted method ss in (h.requests, h.errors, h.latency, h.active)
