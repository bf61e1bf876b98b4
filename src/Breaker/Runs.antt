-- ===== src/Breaker/Runs.antt =====
-- Runs of equal calls of middleware/circuitbreaker.go: how many failures open a circuit and how
-- many successes close it again.
use grodyia.Prelude.{ℕ, ◌+◌, ◌≤◌, ◌<◌, ◌≡◌, refl, List, [], ◌∷◌, length, arith}
use grodyia.Prelude.Int.{pos}
use grodyia.Breaker.{closed, open_state, half_open, Breaker, Call, succeeds, fails, step, run}

abbrev pub all_fail : List ℕ → List Call
all_fail [] = []
all_fail (t ∷ ts) = fails t ∷ all_fail ts

abbrev pub all_succeed : List ℕ → List Call
all_succeed [] = []
all_succeed (t ∷ ts) = succeeds t ∷ all_succeed ts

fails_open : (cb : Breaker) (ts : List ℕ) → cb.state ≡ open_state → run cb (all_fail ts) ≡ cb
unfolding run step
fails_open cb [] h = refl
fails_open cb (t ∷ ts) h = ground (arith, fails_open cb ts h)

-- A closed breaker that has seen `failures` failures in a row, below its threshold, is open after
-- the further failures at the times `ts` if and only if these bring it to the threshold, and is
-- closed with all of them counted otherwise.
pub failures-open :
    (cb : Breaker) (ts : List ℕ) (t : ℕ)
    → cb.config.failure_threshold ≡ pos t
    → cb.state ≡ closed
    → cb.failures < t
    → (t ≤ cb.failures + length ts → (run cb (all_fail ts)).state ≡ open_state)
      × (cb.failures + length ts < t
          → ((run cb (all_fail ts)).state ≡ closed)
            × ((run cb (all_fail ts)).failures ≡ cb.failures + length ts))
unfolding run step
failures-open cb [] t e c h = ground arith
failures-open cb (s ∷ ts) t e c h =
    ground (arith, failures-open (step cb (fails s)) ts t, fails_open (step cb (fails s)) ts)

succeeds_closed :
    (cb : Breaker) (ts : List ℕ) → cb.state ≡ closed → (run cb (all_succeed ts)).state ≡ closed
unfolding run step
succeeds_closed cb [] h = h
succeeds_closed cb (t ∷ ts) h = ground (arith, succeeds_closed (step cb (succeeds t)) ts)

-- A half-open breaker that has seen `successes` successes, below its threshold, is closed after the
-- further successes at the times `ts` if and only if these bring it to the threshold, and is still
-- half-open otherwise.
pub successes-close :
    (cb : Breaker) (ts : List ℕ) (t : ℕ)
    → cb.config.success_threshold ≡ pos t
    → cb.state ≡ half_open
    → cb.successes < t
    → (t ≤ cb.successes + length ts → (run cb (all_succeed ts)).state ≡ closed)
      × (cb.successes + length ts < t
          → ((run cb (all_succeed ts)).state ≡ half_open)
            × ((run cb (all_succeed ts)).successes ≡ cb.successes + length ts))
unfolding run step
successes-close cb [] t e c h = ground arith
successes-close cb (s ∷ ts) t e c h =
    ground (
      arith,
      successes-close (step cb (succeeds s)) ts t,
      succeeds_closed (step cb (succeeds s)) ts,
    )

-- A failure in the half-open state reopens the circuit at once, whatever the successes so far.
pub half_open_failure :
    (cb : Breaker) (now : ℕ)
    → cb.state ≡ half_open
    → ((step cb (fails now)).state ≡ open_state)
      × ((step cb (fails now)).successes ≡ 0)
      × ((step cb (fails now)).last_state_change ≡ now)
unfolding step
half_open_failure cb now h = ground arith
