-- ===== src/Metrics.antt =====
-- middleware/metrics.go: the counters and the latency histogram of each method. A counter's pointer
-- that getCounter returns is followed at once, so that a counter is its value under its key; uint64
-- values wrap. Latencies are in whole milliseconds, as RecordRequest gives them to Observe.
pub mod Buckets
pub mod Counts
mod Tests
use grodyia.Prelude.{
  ℕ, ◌+◌, ◌-◌, ◌*◌, ◌%◌, ◌^◌, String, string_eq, Bool, true, false, List, [], ◌∷◌, ◌++◌, map,
  Option, none, some, if◌then◌else◌, leb, Dict, lookup, insert,
}

abbrev pub word : ℕ
word = 2 ^ 64

-- `AddUint64`
abbrev pub add64 : ℕ → ℕ → ℕ
add64 a b = (a + b) % word

abbrev pub default_buckets : List ℕ
default_buckets = 1 ∷ 5 ∷ 10 ∷ 25 ∷ 50 ∷ 100 ∷ 250 ∷ 500 ∷ 1000 ∷ 2500 ∷ 5000 ∷ 10000 ∷ []

-- `sum` is in microseconds; the last bucket is that of +Inf.
pub record LatencyHistogram : Type 0 where
  pub count : ℕ
  pub sum : ℕ
  pub buckets : List ℕ

-- One bucket for each bound, and one more.
unfoldable pub empty_buckets : List ℕ → List ℕ
empty_buckets [] = 0 ∷ []
empty_buckets (bound ∷ bounds) = 0 ∷ empty_buckets bounds

unfoldable pub new_latency_histogram : LatencyHistogram
unfolding empty_buckets
new_latency_histogram = record { count = 0; sum = 0; buckets = empty_buckets default_buckets }

-- The loop of `Observe`, which adds to the first bucket whose bound the duration does not exceed.
unfoldable pub bump : ℕ → List ℕ → List ℕ → List ℕ
bump ms bounds [] = []
bump ms [] (b ∷ buckets) = add64 b 1 ∷ buckets
bump ms (bound ∷ bounds) (b ∷ buckets) =
    let rest = bump ms bounds buckets in if leb ms bound then add64 b 1 ∷ buckets else b ∷ rest

unfoldable pub observe : ℕ → LatencyHistogram → LatencyHistogram
unfolding bump
observe ms h = record {
  count = add64 h.count 1;
  sum = add64 h.sum (ms * 1000);
  buckets = bump ms default_buckets h.buckets;
}

-- `active_connections` is an int64, here its bits.
pub record Metrics : Type 0 where
  pub requests_total : Dict String ℕ
  pub requests_latency : Dict String LatencyHistogram
  pub errors_total : Dict String ℕ
  pub active_connections : ℕ

unfoldable pub new_metrics : Metrics
new_metrics = record {
  requests_total = [];
  requests_latency = [];
  errors_total = [];
  active_connections = 0;
}

-- `getCounter` creates a counter of 0.
abbrev pub counter_or_zero : Option ℕ → ℕ
counter_or_zero none = 0
counter_or_zero (some n) = n

abbrev pub get_counter : String → Dict String ℕ → ℕ
get_counter key counters = counter_or_zero (lookup key counters)

abbrev pub histogram_or_new : Option LatencyHistogram → LatencyHistogram
histogram_or_new none = new_latency_histogram
histogram_or_new (some h) = h

abbrev pub get_histogram : String → Dict String LatencyHistogram → LatencyHistogram
get_histogram key latencies = histogram_or_new (lookup key latencies)

unfoldable pub count_one : String → Dict String ℕ → Dict String ℕ
count_one key counters = insert key (add64 (get_counter key counters) 1) counters

unfoldable pub record_request : String → ℕ → Bool → Metrics → Metrics
unfolding count_one observe
record_request method ms failed m = record m {
  requests_total = count_one method m.requests_total;
  requests_latency =
      insert method (observe ms (get_histogram method m.requests_latency)) m.requests_latency;
  errors_total = if failed then count_one method m.errors_total else m.errors_total;
}

unfoldable pub connection_opened : Metrics → Metrics
connection_opened m = record m { active_connections = add64 m.active_connections 1 }

unfoldable pub connection_closed : Metrics → Metrics
connection_closed m = record m { active_connections = add64 m.active_connections (word - 1) }

-- The interceptors: `outcome` is what the handler returned after `ms`, none for no error.
unfoldable pub intercept :
    {R E : Type 0} → String → ℕ → R × Option E → Metrics → Metrics × R × Option E
unfolding record_request
intercept method ms (resp, none) m = (record_request method ms false m, resp, none)
intercept method ms (resp, some e) m = (record_request method ms true m, resp, some e)

-- The loop of ToPrometheusFormat over the buckets of a histogram.
unfoldable pub cumulatives : ℕ → List ℕ → List ℕ
cumulatives cumulative [] = []
cumulatives cumulative (b ∷ buckets) = add64 cumulative b ∷ cumulatives (add64 cumulative b) buckets
