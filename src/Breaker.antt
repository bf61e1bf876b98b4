-- ===== src/Breaker.antt =====
-- middleware/circuitbreaker.go: the circuit breaker, its calls and the per-method table.
-- A method that mutates `*CircuitBreaker` returns the new record; the clock is an argument of
-- each call that reads it, in nanoseconds. A call that holds the mutex is one step.
pub mod Machine
pub mod Runs
pub mod PerMethod
pub mod Guarded
mod Tests
use grodyia.Prelude.{
  ℕ, suc, ◌≡◌, refl, Bool, true, false, List, [], ◌∷◌, ◌++◌, Option, none, some, if◌then◌else◌, not,
  String,
}
use grodyia.Prelude.Int.{ℤ, pos, negsuc, sub_ℕ, leb_ℤ}

pub data CircuitState : Type 0 where
  closed open_state half_open : CircuitState

-- `String`; the `default` case of the switch has no value of this type.
pub state_name : CircuitState → String
state_name closed = "closed"
state_name open_state = "open"
state_name half_open = "half-open"

-- `on_state_change` says whether the callback is set.
pub record Config : Type 0 where
  pub failure_threshold : ℤ
  pub success_threshold : ℤ
  pub timeout : ℤ
  pub on_state_change : Bool

-- `notified` lists the calls of `OnStateChange` that were started, the latest first.
pub record Breaker : Type 0 where
  pub config : Config
  pub state : CircuitState
  pub failures : ℕ
  pub successes : ℕ
  pub last_state_change : ℕ
  pub notified : List (CircuitState × CircuitState)

unfoldable pub default_config : Config
default_config = record {
  failure_threshold = pos 5;
  success_threshold = pos 3;
  timeout = pos 30_000_000_000;
  on_state_change = false;
}

unfoldable pub new_circuit_breaker : Config → ℕ → Breaker
new_circuit_breaker c now = record {
  config = c;
  state = closed;
  failures = 0;
  successes = 0;
  last_state_change = now;
  notified = [];
}

unfoldable pub set_state : Breaker → CircuitState → ℕ → Breaker
set_state cb new_state now = record cb {
  state = new_state;
  last_state_change = now;
  failures = 0;
  successes = 0;
  notified = if cb.config.on_state_change then (cb.state, new_state) ∷ cb.notified else cb.notified;
}

-- `time.Since(cb.lastStateChange) >= cb.config.Timeout`
abbrev pub timed_out : Breaker → ℕ → Bool
timed_out cb now = leb_ℤ cb.config.timeout (sub_ℕ now cb.last_state_change)

allow_in : CircuitState → Breaker → ℕ → Breaker × Bool
unfolding set_state
allow_in closed cb now = (cb, true)
allow_in open_state cb now =
    if timed_out cb now then (set_state cb half_open now, true) else (cb, false)
allow_in half_open cb now = (cb, true)

unfoldable pub allow : Breaker → ℕ → Breaker × Bool
unfolding allow_in
allow cb now = allow_in cb.state cb now

success_in : CircuitState → Breaker → ℕ → Breaker
unfolding set_state
success_in closed cb now = record cb { failures = 0 }
success_in open_state cb now = cb
success_in half_open cb now =
    let counted = record cb { successes = suc cb.successes } in
    if leb_ℤ cb.config.success_threshold (pos (suc cb.successes))
    then set_state counted closed now
    else counted

unfoldable pub record_success : Breaker → ℕ → Breaker
unfolding success_in
record_success cb now = success_in cb.state cb now

failure_in : CircuitState → Breaker → ℕ → Breaker
unfolding set_state
failure_in closed cb now =
    let counted = record cb { failures = suc cb.failures } in
    if leb_ℤ cb.config.failure_threshold (pos (suc cb.failures))
    then set_state counted open_state now
    else counted
failure_in open_state cb now = cb
failure_in half_open cb now = set_state cb open_state now

unfoldable pub record_failure : Breaker → ℕ → Breaker
unfolding failure_in
record_failure cb now = failure_in cb.state cb now

-- The steps that the goroutines sharing a breaker take, in any interleaving.
pub data Call : Type 0 where
  allows succeeds fails : ℕ → Call

unfoldable pub step : Breaker → Call → Breaker
unfolding allow record_success record_failure
step cb (allows now) = (allow cb now).0
step cb (succeeds now) = record_success cb now
step cb (fails now) = record_failure cb now

unfoldable pub run : Breaker → List Call → Breaker
run cb [] = cb
run cb (c ∷ cs) = run (step cb c) cs

-- An error as `isCircuitBreakerError` sees it: `status.FromError` finds a code, or does not.
pub data Code : Type 0 where
  unavailable deadline_exceeded aborted internal resource_exhausted other : Code

pub data Error : Type 0 where
  circuit_open : Error
  status : Code → Error
  plain : ℕ → Error

trips : Code → Bool
trips unavailable = true
trips deadline_exceeded = true
trips aborted = true
trips internal = true
trips resource_exhausted = false
trips other = false

unfoldable pub is_circuit_breaker_error : Option Error → Bool
unfolding trips
is_circuit_breaker_error none = false
is_circuit_breaker_error (some circuit_open) = true
is_circuit_breaker_error (some (status c)) = trips c
is_circuit_breaker_error (some (plain _)) = true

unfoldable pub settle : Breaker → Bool → ℕ → Breaker
settle cb counted now = if counted then record_failure cb now else cb

-- `after` is what other goroutines do to the breaker while the call runs.
module _ {ℓ} {R : Type ℓ} (call : R × Option Error) (after : Breaker → Breaker)
    (start end : ℕ) where
  execute_result : R × Option Error → Breaker → Breaker × R × Option Error
  execute_result (resp, some e) cb = (record_failure cb end, resp, some e)
  execute_result (resp, none) cb = (record_success cb end, resp, none)

  -- `Execute`; `refused` is the zero value that accompanies `ErrCircuitOpen`.
  unfoldable pub execute : R → Breaker → Breaker × R × Option Error
  unfolding execute_result
  execute refused cb =
      let (cb', allowed) = allow cb start in
      if allowed then execute_result call (after cb') else (cb', refused, some circuit_open)

  unfoldable pub intercept_result : R × Option Error → Breaker → Breaker × R × Option Error
  unfolding settle
  intercept_result (resp, some e) cb =
      (settle cb (is_circuit_breaker_error (some e)) end, resp, some e)
  intercept_result (resp, none) cb = (record_success cb end, resp, none)

  -- `UnaryClientCircuitBreaker` and `UnaryServerCircuitBreaker`: only some errors count.
  unfoldable pub intercept : R → Breaker → Breaker × R × Option Error
  unfolding intercept_result
  intercept refused cb =
      let (cb', allowed) = allow cb start in
      if allowed
      then intercept_result call (after cb')
      else (cb', refused, some (status unavailable))
