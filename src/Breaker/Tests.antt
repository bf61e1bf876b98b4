-- ===== src/Breaker/Tests.antt =====
-- The circuit breaker on concrete inputs.
use grodyia.Prelude.{ℕ, ◌≡◌, refl, true, List, [], ◌∷◌, some, lookup, string_eq, eq_iff, arith}
use grodyia.Prelude.Int.{pos}
use grodyia.Breaker.{
  closed, open_state, half_open, Config, Breaker, Call, allows, succeeds, fails, plain,
  new_circuit_breaker, allow, step, run,
}
use grodyia.Breaker.Machine.{
  Inv, Edge, Chain, step-Edge, run-new_circuit_breaker-Chain, run-new_circuit_breaker-Inv,
  allow_cases,
}
use grodyia.Breaker.Runs.{all_fail, all_succeed, failures-open, successes-close}
use grodyia.Breaker.PerMethod.{PerMethod, per_method_intercept, per_method_isolated}
use grodyia.Breaker.Guarded.{executed, executed_lem}

abbrev watched : Config
watched = record {
  failure_threshold = pos 2;
  success_threshold = pos 2;
  timeout = pos 10;
  on_state_change = true;
}

abbrev fresh : Breaker
fresh = record {
  config = watched;
  state = closed;
  failures = 0;
  successes = 0;
  last_state_change = 0;
  notified = [];
}

abbrev probing : Breaker
probing = record fresh { state = half_open; notified = (open_state, half_open) ∷ [] }

-- Two failures open it, the timeout lets a probe in, a failure reopens it.
abbrev history : List Call
history = fails 1 ∷ fails 2 ∷ allows 5 ∷ allows 12 ∷ succeeds 13 ∷ fails 14 ∷ []

history_state : (run fresh history).state ≡ open_state
unfolding run step
history_state = refl

history_notified :
    (run fresh history).notified
    ≡ (half_open, open_state) ∷ (open_state, half_open) ∷ (closed, open_state) ∷ []
unfolding run step
history_notified = refl

chained_history : let cb = run (new_circuit_breaker watched 0) history in Chain cb.notified cb.state
chained_history = run-new_circuit_breaker-Chain watched 0 history refl

run-new_circuit_breaker-Inv_example : Inv (run (new_circuit_breaker watched 0) history)
run-new_circuit_breaker-Inv_example = run-new_circuit_breaker-Inv watched 0 history

step-Edge_run : Edge half_open (step probing (succeeds 3)).state
step-Edge_run = step-Edge probing (succeeds 3)

allow_cases_run : allow probing 4 ≡ (probing, true)
allow_cases_run = (allow_cases probing 4).3 (λ e. cc)

failures-open_example : (run fresh (all_fail (1 ∷ 2 ∷ 3 ∷ []))).state ≡ open_state
failures-open_example =
    (failures-open fresh (1 ∷ 2 ∷ 3 ∷ []) 2 refl refl (omega arith)).0 (omega arith)

successes-close_run : (run probing (all_succeed (1 ∷ 2 ∷ []))).state ≡ closed
successes-close_run =
    (successes-close probing (1 ∷ 2 ∷ []) 2 refl refl (omega arith)).0 (omega arith)

executed_lem_run : executed (plain 7) fresh ((1, 2) ∷ (3, 4) ∷ (5, 6) ∷ []) ≡ 2
executed_lem_run =
    executed_lem (plain 7) fresh ((1, 2) ∷ (3, 4) ∷ (5, 6) ∷ []) 2 10 refl refl refl (omega arith)
      (omega arith)

abbrev one_method : PerMethod
one_method = record { breakers = ("/a", probing) ∷ []; config = watched }

per_method_isolated_run :
    lookup "/a" (per_method_intercept {R = ℕ} (0, some (plain 1)) 0 1 2 "/b" one_method).0.breakers
    ≡ some probing
unfolding lookup
per_method_isolated_run =
    per_method_isolated (0, some (plain 1)) 0 1 2 "/b" "/a" one_method
      (λ e. cc ((eq_iff "/b" "/a").1 e))
