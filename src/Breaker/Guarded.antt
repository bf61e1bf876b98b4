-- ===== src/Breaker/Guarded.antt =====
-- Calls through the breaker: `Execute` and the interceptors of middleware/circuitbreaker.go.
use grodyia.Prelude.Int.{pos}
use grodyia.Prelude.{
  ℕ, ◌+◌, ◌-◌, ◌<◌, min, List, [], ◌∷◌, All, length, if◌then◌else◌, ◌≡◌, refl, true, false, Option,
  none, some, arith,
}
use grodyia.Breaker.{
  closed, open_state, Breaker, Error, circuit_open, allow, record_success, record_failure, execute,
  intercept, is_circuit_breaker_error,
}

module _ {ℓ} {R : Type ℓ} (call : R × Option Error) (after : Breaker → Breaker) (start end : ℕ)
    (refused : R) (cb : Breaker) where
  -- `Execute` hands the function's result and error on unchanged and records one outcome, a failure
  -- exactly for an error, on the breaker as it is when the function returns; refused, it returns
  -- `ErrCircuitOpen`, runs nothing and leaves the breaker as it was.
  pub execute_lem :
      ((allow cb start).1 ≡ false
        → execute call after start end refused cb ≡ (cb, refused, some circuit_open))
      × ((allow cb start).1 ≡ true
          → call.1 ≡ none
          → execute call after start end refused cb
            ≡ (record_success (after (allow cb start).0) end, call.0, none))
      × ((e : Error)
          → (allow cb start).1 ≡ true
          → call.1 ≡ some e
          → execute call after start end refused cb
            ≡ (record_failure (after (allow cb start).0) end, call.0, some e))
  unfolding execute allow
  execute_lem = (ground arith, ground arith, λ e a h. ground arith)

  -- An interceptor hands the response and error on unchanged; an error that does not count (any
  -- status but Unavailable, DeadlineExceeded, Aborted and Internal) records neither an outcome.
  pub intercept_uncounted :
      (e : Error)
      → (allow cb start).1 ≡ true
      → call.1 ≡ some e
      → (is_circuit_breaker_error (some e) ≡ false
          → intercept call after start end refused cb ≡ (after (allow cb start).0, call.0, some e))
        × (is_circuit_breaker_error (some e) ≡ true
            → intercept call after start end refused cb
              ≡ (record_failure (after (allow cb start).0) end, call.0, some e))
  unfolding intercept
  intercept_uncounted e a h = (ground arith, ground arith)

-- `Execute` one call after another, each at its start and end times, of a function that always
-- fails with `e`; how often the function ran.
unfoldable pub executed : Error → Breaker → List (ℕ × ℕ) → ℕ
executed e cb [] = 0
executed e cb ((start, end) ∷ rest) =
    let (cb', ran, err) = execute (true, some e) (λ b. b) start end false cb in
    (if ran then 1 else 0) + executed e cb' rest

executed_open :
    (e : Error) (cb : Breaker) (times : List (ℕ × ℕ)) (timeout : ℕ)
    → cb.config.timeout ≡ pos timeout
    → cb.state ≡ open_state
    → All (λ t. t.0 < timeout) times
    → executed e cb times ≡ 0
unfolding executed execute allow
executed_open e cb [] timeout c o h = refl
executed_open e cb ((start, end) ∷ rest) timeout c o h =
    ground (arith, executed_open e cb rest timeout c o h.1)

-- A function that always fails is run by `Execute` until the failures in a row reach the threshold
-- and not once more, as long as no call starts later than the timeout.
pub executed_lem :
    (e : Error) (cb : Breaker) (times : List (ℕ × ℕ)) (threshold timeout : ℕ)
    → cb.config.failure_threshold ≡ pos threshold
    → cb.config.timeout ≡ pos timeout
    → cb.state ≡ closed
    → cb.failures < threshold
    → All (λ t. t.0 < timeout) times
    → executed e cb times ≡ min (threshold - cb.failures) (length times)
unfolding executed execute allow record_failure
executed_lem e cb [] threshold timeout f c s l h = omega arith
executed_lem e cb ((start, end) ∷ rest) threshold timeout f c s l h = ground (
  arith,
  executed_open e (record_failure cb end) rest timeout,
  executed_lem e (record_failure cb end) rest threshold timeout,
)
