-- ===== src/Limiter/Tests.antt =====
-- The rate limiter on concrete inputs, over fixed-point numbers.
use grodyia.Prelude.{
  ℕ, ◌≡◌, refl, true, false, [], ◌∷◌, none, some, arith, any, List, if◌then◌else◌, lookup,
  string_eq, eq_iff,
}
use grodyia.Limiter.{
  RateLimiter, Wake, done, timer, refill, allow, allow_all, wait, PerMethod, per_method_limited,
}
use grodyia.Limiter.Bucket.{
  IsCapped, allow-IsCapped, allow_all_instant, repeat, per_method_limited_other,
}
use grodyia.Limiter.Waiting.{wait_outcome, first_done, given_up, asked}
use grodyia.Limiter.Fixed.{fixed, fixed_idle}

-- Ten tokens a second, a burst of two.
abbrev limiter : RateLimiter fixed
limiter = record { rate = 10_000_000_000; burst = 2; tokens = 2_000_000_000; last_update = 0 }

-- Two at once, a third refused, and one more after a tenth of a second.
limiter_run :
    (allow_all fixed limiter (0 ∷ 0 ∷ 0 ∷ 100_000_000 ∷ 100_000_000 ∷ [])).1
    ≡ true ∷ true ∷ false ∷ true ∷ false ∷ []
unfolding allow_all allow refill
limiter_run = refl

within_capacity : IsCapped fixed (allow fixed limiter 5_000_000_000).0
within_capacity = (allow-IsCapped fixed limiter 5_000_000_000).0

allow_all_instant_example : (allow_all fixed limiter (repeat 3 0)).1 ≡ true ∷ true ∷ false ∷ []
allow_all_instant_example =
    allow_all_instant fixed 10_000_000_000 (fixed_idle 10_000_000_000) limiter 2 3 0 refl refl
      (omega arith) (omega arith) refl

abbrev drained : RateLimiter fixed
drained = record limiter { tokens = 0 }

abbrev wakes : List (Wake fixed)
wakes = timer 10_000_000 ∷ done 7 ∷ timer 900_000_000 ∷ []

wait_outcome_example :
    let times : List ℕ = 0 ∷ 10_000_000 ∷ [] in
    let answers = (allow_all fixed drained times).1 in
    ((wait fixed drained 0 wakes).1
      ≡ (if any (λ b. b) answers then some none else given_up fixed (first_done fixed wakes)))
    × ((wait fixed drained 0 wakes).0 ≡ (allow_all fixed drained (asked fixed times answers)).0)
wait_outcome_example = wait_outcome fixed drained 0 wakes

-- The context is done before there is a token, and after.
waited :
    ((wait fixed drained 0 (timer 10_000_000 ∷ done 7 ∷ [])).1 ≡ some (some 7))
    × ((wait fixed drained 0 (timer 100_000_000 ∷ done 7 ∷ [])).1 ≡ some none)
unfolding wait allow refill
waited = (refl, refl)

abbrev table : PerMethod fixed
table = record { limiters = ("/a", limiter) ∷ []; rate = 10_000_000_000; burst = 2 }

per_method_limited_other_run :
    lookup "/a" (per_method_limited fixed {R = ℕ} 1 table "/b" 4).0.limiters ≡ some limiter
unfolding lookup
per_method_limited_other_run =
    per_method_limited_other fixed 1 table "/b" "/a" 4 (λ e. cc ((eq_iff "/b" "/a").1 e))
