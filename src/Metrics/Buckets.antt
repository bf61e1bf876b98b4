-- ===== src/Metrics/Buckets.antt =====
-- middleware/metrics.go: the buckets of a histogram after any observations.
use grodyia.Prelude.{
  ◌≡◌, ◌≤◌, refl, ap, ◌∙◌, ℕ, ◌+◌, ◌*◌, ◌%◌, not, List, [], ◌∷◌, leb, keep, length, arith, inl, inr,
  Bool-cases,
}
use grodyia.Metrics.{
  word, add64, default_buckets, LatencyHistogram, empty_buckets, new_latency_histogram, bump,
  observe, cumulatives,
}

-- How many of the latencies are at most the bound.
abbrev pub at_most : ℕ → List ℕ → ℕ
at_most bound obs = length (keep (λ ms. leb ms bound) obs)

above : ℕ → List ℕ → List ℕ
above bound obs = keep (λ ms. not (leb ms bound)) obs

-- What the buckets should be: each counts what no bucket before it counts.
expected : List ℕ → List ℕ → List ℕ
expected [] obs = length obs % word ∷ []
expected (bound ∷ bounds) obs = at_most bound obs % word ∷ expected bounds (above bound obs)

add64_mod : (n m : ℕ) → add64 (n % word) m ≡ (n + m) % word
add64_mod n m = omega arith

bump-expected :
    (ms : ℕ) (bounds obs : List ℕ)
    → bump ms bounds (expected bounds obs) ≡ expected bounds (ms ∷ obs)
unfolding bump expected above
bump-expected ms [] obs =
    ap (λ b. b ∷ []) (add64_mod (length obs) 1 ∙ ap (λ n. n % word) (omega arith))
bump-expected ms (bound ∷ bounds) obs = elim (Bool-cases (leb ms bound)) [
  | inl y ↦ rw y (
      ap (λ b. b ∷ expected bounds (keep (λ ms'. not (leb ms' bound)) obs))
        (add64_mod (at_most bound obs) 1 ∙ ap (λ n. n % word) (omega arith)))
  | inr n ↦ rw n (
      ap (◌∷◌ (at_most bound obs % word))
        (bump-expected ms bounds (keep (λ ms'. not (leb ms' bound)) obs)))
]

-- The latencies between two bounds make up the difference of what is at most either.
at_most-above :
    (low high : ℕ) (obs : List ℕ)
    → low ≤ high
    → at_most low obs + at_most high (above low obs) ≡ at_most high obs
unfolding above
at_most-above low high [] le = refl
at_most-above low high (ms ∷ obs) le = ground (arith, at_most-above low high obs le)

length-above :
    (bound : ℕ) (obs : List ℕ) → at_most bound obs + length (above bound obs) ≡ length obs
unfolding above
length-above bound [] = refl
length-above bound (ms ∷ obs) = ground (arith, length-above bound obs)

-- The bounds ascend from `low` on.
abbrev pub Ascending : ℕ → List ℕ → Type 0
Ascending low [] = Unit {0}
Ascending low (bound ∷ bounds) = (low ≤ bound) × Ascending bound bounds

-- How many latencies are at most each of the bounds, and how many there are, modulo 2 ^ 64.
abbrev pub at_most_each : ℕ → List ℕ → List ℕ → List ℕ
at_most_each n [] obs = (n + length obs) % word ∷ []
at_most_each n (bound ∷ bounds) obs = (n + at_most bound obs) % word ∷ at_most_each n bounds obs

mod_mod : (a b c : ℕ) → ((a + b) % word + c) % word ≡ (a + (b + c)) % word
mod_mod a b c = omega arith

Ascending-lower :
    (low high : ℕ) (bounds : List ℕ) → low ≤ high → Ascending high bounds → Ascending low bounds
Ascending-lower low high [] le a = tt
Ascending-lower low high (bound ∷ bounds) le (up, rest) = (omega arith, rest)

mod_sum : (n a b c : ℕ) → a + b ≡ c → ((n + a % word) % word + b) % word ≡ (n + c) % word
mod_sum n a b c e = omega arith

at_most_each-above :
    (n low : ℕ) (bounds obs : List ℕ)
    → Ascending low bounds
    → at_most_each ((n + at_most low obs % word) % word) bounds (above low obs)
      ≡ at_most_each n bounds obs
at_most_each-above n low [] obs a =
    ap (λ k. k ∷ [])
      (mod_sum n (at_most low obs) (length (above low obs)) (length obs) (length-above low obs))
at_most_each-above n low (bound ∷ bounds) obs (up, rest) =
    let head =
      mod_sum n (at_most low obs) (at_most bound (above low obs)) (at_most bound obs)
        (at_most-above low bound obs up) in
    rw (head, at_most_each-above n low bounds obs (Ascending-lower low bound bounds up rest)) refl

cumulatives-expected :
    (n : ℕ) (bounds obs : List ℕ)
    → Ascending 0 bounds
    → cumulatives n (expected bounds obs) ≡ at_most_each n bounds obs
unfolding cumulatives expected
cumulatives-expected n [] obs a = ap (λ k. k ∷ []) (omega arith)
cumulatives-expected n (bound ∷ bounds) obs (up, rest) =
    let head : (n + at_most bound obs % word) % word ≡ (n + at_most bound obs) % word =
      omega arith in
    let ih =
      cumulatives-expected ((n + at_most bound obs % word) % word) bounds (above bound obs)
        (Ascending-lower 0 bound bounds up rest) in
    ap (◌∷◌ ((n + at_most bound obs % word) % word))
      (ih ∙ at_most_each-above n bound bounds obs rest)
    ∙ ap (λ k. k ∷ at_most_each n bounds obs) head

unfoldable pub observe_all : List ℕ → LatencyHistogram
observe_all [] = new_latency_histogram
observe_all (ms ∷ obs) = observe ms (observe_all obs)

abbrev pub total : List ℕ → ℕ
total [] = 0
total (ms ∷ obs) = ms + total obs

default_buckets-Ascending : Ascending 0 default_buckets
default_buckets-Ascending = ground arith

expected-nil : (bounds : List ℕ) → empty_buckets bounds ≡ expected bounds []
unfolding empty_buckets expected above
expected-nil [] = refl
expected-nil (bound ∷ bounds) = ap (◌∷◌ 0) (expected-nil bounds)

-- The fields of the histogram after the observations, the newest first.
record Holds (obs : List ℕ) (h : LatencyHistogram) : Type 0 where
  count : h.count ≡ length obs % word
  sum : h.sum ≡ (total obs * 1000) % word
  buckets : h.buckets ≡ expected default_buckets obs

new-Holds : Holds [] new_latency_histogram
unfolding new_latency_histogram
new-Holds = record { count = refl; sum = refl; buckets = expected-nil default_buckets }

observe-Holds :
    (ms : ℕ) (obs : List ℕ) (h : LatencyHistogram) → Holds obs h → Holds (ms ∷ obs) (observe ms h)
unfolding observe
observe-Holds ms obs h k = record {
  count = let e = k.count in omega arith;
  sum = let e = k.sum in omega arith;
  buckets = ap (bump ms default_buckets) k.buckets ∙ bump-expected ms default_buckets obs;
}

observe_all-Holds : (obs : List ℕ) → Holds obs (observe_all obs)
unfolding observe_all
observe_all-Holds [] = new-Holds
observe_all-Holds (ms ∷ obs) = observe-Holds ms obs (observe_all obs) (observe_all-Holds obs)

-- After any observations, the newest first: the histogram's count is their number, and its sum their
-- sum in microseconds; and the lines that the Prometheus text has for it are, for each bound of the
-- default buckets, the number of latencies that do not exceed it, and for +Inf the number of all of
-- them; everything modulo 2 ^ 64.
pub observe_all_lem :
    (obs : List ℕ)
    → ((observe_all obs).count ≡ length obs % word)
      × ((observe_all obs).sum ≡ (total obs * 1000) % word)
      × (cumulatives 0 (observe_all obs).buckets ≡ at_most_each 0 default_buckets obs)
observe_all_lem obs =
    let h = observe_all-Holds obs in
    (
      h.count,
      h.sum,
      ap (cumulatives 0) h.buckets
          ∙ cumulatives-expected 0 default_buckets obs default_buckets-Ascending,
    )
