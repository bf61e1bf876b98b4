-- ===== src/Metrics/Tests.antt =====
-- Requests of two methods, and the theorems at them.
use grodyia.Prelude.{◌≡◌, refl, ℕ, ◌+◌, ◌*◌, ◌%◌, true, false, List, [], ◌∷◌, length}
use grodyia.Metrics.{
  word, default_buckets, get_counter, get_histogram, cumulatives, observe, new_latency_histogram,
  empty_buckets, bump,
}
use grodyia.Metrics.Buckets.{total, at_most_each, observe_all, observe_all_lem}
use grodyia.Metrics.Counts.{
  Step, request, opened, closed, run, latencies, failures, opens, closes, run_lem,
}

abbrev observed : List ℕ
observed = 3 ∷ 20000 ∷ 1 ∷ 10 ∷ []

lines :
    cumulatives 0 (observe_all observed).buckets
    ≡ 1 ∷ 2 ∷ 3 ∷ 3 ∷ 3 ∷ 3 ∷ 3 ∷ 3 ∷ 3 ∷ 3 ∷ 3 ∷ 3 ∷ 4 ∷ []
unfolding observe_all observe new_latency_histogram empty_buckets bump cumulatives
lines = refl

observe_all_lem_example :
    ((observe_all observed).count ≡ length observed % word)
    × ((observe_all observed).sum ≡ (total observed * 1000) % word)
    × (cumulatives 0 (observe_all observed).buckets ≡ at_most_each 0 default_buckets observed)
observe_all_lem_example = observe_all_lem observed

abbrev steps : List Step
steps = closed ∷ request "/a" 7 true ∷ request "/b" 9 false ∷ opened ∷ request "/a" 2 false ∷ []

run_lem_example :
    (get_counter "/a" (run steps).requests_total ≡ length (latencies "/a" steps) % word)
    × (get_counter "/a" (run steps).errors_total ≡ failures "/a" steps % word)
    × (get_histogram "/a" (run steps).requests_latency ≡ observe_all (latencies "/a" steps))
    × (((run steps).active_connections + closes steps) % word ≡ opens steps % word)
run_lem_example = run_lem "/a" steps
