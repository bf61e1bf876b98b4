-- ===== src/Breaker/Machine.antt =====
-- The state machine of middleware/circuitbreaker.go over any interleaving of its calls.
use grodyia.Prelude.{ℕ, ◌<◌, ◌≡◌, ◌≢◌, refl, ◌⊎◌, true, false, List, [], ◌∷◌, arith}
use grodyia.Prelude.Int.{pos_part}
use grodyia.Breaker.{
  CircuitState, closed, open_state, half_open, Config, Breaker, Call, allows, succeeds, fails,
  new_circuit_breaker, set_state, timed_out, allow, step, run,
}

-- What holds of a breaker between two calls.
pub record Inv (cb : Breaker) : Type 0 where
  pub closed_successes : cb.state ≡ closed → cb.successes ≡ 0
  pub open_reset : cb.state ≡ open_state → (cb.failures ≡ 0) × (cb.successes ≡ 0)
  pub half_failures : cb.state ≡ half_open → cb.failures ≡ 0
  pub failures_below : (cb.failures ≡ 0) ⊎ (cb.failures < pos_part cb.config.failure_threshold)
  pub successes_below : (cb.successes ≡ 0) ⊎ (cb.successes < pos_part cb.config.success_threshold)

pub new-Inv : (c : Config) (now : ℕ) → Inv (new_circuit_breaker c now)
unfolding new_circuit_breaker
new-Inv c now = ground arith

pub step-Inv : (cb : Breaker) (c : Call) → Inv cb → Inv (step cb c)
unfolding step
step-Inv cb (allows now) h = ground arith
step-Inv cb (succeeds now) h = ground arith
step-Inv cb (fails now) h = ground arith

pub run-Inv : (cb : Breaker) (cs : List Call) → Inv cb → Inv (run cb cs)
unfolding run
run-Inv cb [] h = h
run-Inv cb (c ∷ cs) h = run-Inv (step cb c) cs (step-Inv cb c h)

-- The edges of the breaker's diagram.
pub data Edge : CircuitState → CircuitState → Type 0 where
  stay : {s : CircuitState} → Edge s s
  trip : Edge closed open_state
  probe : Edge open_state half_open
  recover : Edge half_open closed
  reopen : Edge half_open open_state

-- Every call, in every state, follows an edge of the diagram: a closed breaker never becomes
-- half-open, and an open one is never closed without being half-open first.
pub step-Edge : (cb : Breaker) (c : Call) → Edge cb.state (step cb c).state
unfolding step
step-Edge cb (allows now) = grind (arith, stay, probe)
step-Edge cb (succeeds now) = grind (arith, stay, recover)
step-Edge cb (fails now) = grind (arith, stay, trip, reopen)

-- `notified`, read from its oldest entry, is a walk that ends in the given state.
abbrev pub Chain : List (CircuitState × CircuitState) → CircuitState → Type 0
Chain [] s = s ≡ closed
Chain ((from, to) ∷ rest) s = (to ≡ s) × Chain rest from

-- With a callback set, `OnStateChange` is told of each change, in order, with the state left and
-- the state entered: the calls form a walk from `closed` to the breaker's state.
pub step-Chain :
    (cb : Breaker) (c : Call)
    → cb.config.on_state_change ≡ true
    → Chain cb.notified cb.state
    → Chain (step cb c).notified (step cb c).state
unfolding step
step-Chain cb (allows now) h k = ground arith
step-Chain cb (succeeds now) h k = ground arith
step-Chain cb (fails now) h k = ground arith

pub step-config : (cb : Breaker) (c : Call) → (step cb c).config ≡ cb.config
unfolding step
step-config cb (allows now) = ground arith
step-config cb (succeeds now) = ground arith
step-config cb (fails now) = ground arith

run-Chain :
    (cb : Breaker) (cs : List Call)
    → cb.config.on_state_change ≡ true
    → Chain cb.notified cb.state
    → Chain (run cb cs).notified (run cb cs).state
unfolding run
run-Chain cb [] h k = k
run-Chain cb (c ∷ cs) h k =
    run-Chain (step cb c) cs (ground (arith, step-config cb c)) (step-Chain cb c h k)

-- Over any history of a new breaker whose callback is set, the calls of `OnStateChange` form a walk
-- from `closed` to the present state: none is missing, doubled or out of order.
pub run-new_circuit_breaker-Chain :
    (c : Config) (now : ℕ) (cs : List Call)
    → c.on_state_change ≡ true
    → let cb = run (new_circuit_breaker c now) cs in Chain cb.notified cb.state
unfolding new_circuit_breaker
run-new_circuit_breaker-Chain c now cs h = run-Chain _ cs h refl

-- Over any history of a new breaker the counters stay below their thresholds, `successes` is 0
-- while closed, `failures` is 0 while half-open and both are 0 while open.
pub run-new_circuit_breaker-Inv :
    (c : Config) (now : ℕ) (cs : List Call) → Inv (run (new_circuit_breaker c now) cs)
run-new_circuit_breaker-Inv c now cs = run-Inv _ cs (new-Inv c now)

-- `Allow` refuses exactly while the circuit is open and its timeout has not passed; a refusal
-- leaves the breaker alone, and an open breaker that admits a call is half-open with fresh counters.
pub allow_cases :
    (cb : Breaker) (now : ℕ)
    → ((allow cb now).1 ≡ false → (cb.state ≡ open_state) × (timed_out cb now ≡ false))
      × (cb.state ≡ open_state → timed_out cb now ≡ false → allow cb now ≡ (cb, false))
      × (cb.state ≡ open_state
          → timed_out cb now ≡ true
          → (allow cb now).1 ≡ true
            × ((allow cb now).0.state ≡ half_open)
            × ((allow cb now).0.successes ≡ 0)
            × ((allow cb now).0.last_state_change ≡ now))
      × (cb.state ≢ open_state → allow cb now ≡ (cb, true))
unfolding allow set_state
allow_cases cb now = (ground arith, ground arith, ground arith, ground arith)
