-- ===== src/Breaker/PerMethod.antt =====
-- `PerMethodCircuitBreaker` of middleware/circuitbreaker.go.
use grodyia.Prelude.{
  ℕ, String, ◌≡◌, ◌≢◌, Option, some, [], if◌then◌else◌, Dict, lookup, insert, string_eq, arith,
}
use grodyia.Keyed.{fetch, fetch_other, lookup-insert_other}
use grodyia.Breaker.{
  Config, Breaker, Error, status, unavailable, new_circuit_breaker, allow, intercept_result,
}

pub record PerMethod : Type 0 where
  pub breakers : Dict String Breaker
  pub config : Config

unfoldable pub new_per_method : Config → PerMethod
new_per_method c = record { breakers = []; config = c }

-- `between` is what other goroutines do to the map between the two locks of `GetBreaker`.
unfoldable pub get_breaker :
    (Dict String Breaker → Dict String Breaker) → PerMethod → String → ℕ → PerMethod × Breaker
get_breaker between p method now =
    let (m, cb) = fetch between (new_circuit_breaker p.config now) p.breakers method in
    (record p { breakers = m }, cb)

-- A write through the pointer that `GetBreaker` returned.
unfoldable pub write : PerMethod → String → Breaker → PerMethod
write p method cb = record p { breakers = insert method cb p.breakers }

-- `UnaryClientInterceptor`, with no other goroutine in between.
unfoldable pub per_method_intercept {ℓ} :
    {R : Type ℓ} → R × Option Error → R → ℕ → ℕ → String → PerMethod → PerMethod × R × Option Error
per_method_intercept call refused start end method p =
    let (p', cb) = get_breaker (λ m. m) p method start in
    let (cb', allowed) = allow cb start in
    if allowed
    then (let (cb'', resp, err) = intercept_result call (λ b. b) start end call cb' in
        (write p' method cb'', resp, err))
    else (write p' method cb', refused, some (status unavailable))

get_breaker_other :
    (p : PerMethod) (method other : String) (now : ℕ)
    → method ≢ other
    → lookup other (get_breaker (λ m. m) p method now).0.breakers ≡ lookup other p.breakers
unfolding get_breaker
get_breaker_other p method other now h = fetch_other _ p.breakers method other h

write_other :
    (p : PerMethod) (method other : String) (cb : Breaker)
    → method ≢ other
    → lookup other (write p method cb).breakers ≡ lookup other p.breakers
unfolding write
write_other p method other cb h = lookup-insert_other cb p.breakers method other h

-- A call of one method leaves the breaker of every other method as it is.
pub per_method_isolated {ℓ} :
    {R : Type ℓ} (call : R × Option Error) (refused : R) (start end : ℕ) (method other : String)
    (p : PerMethod)
    → method ≢ other
    → lookup other (per_method_intercept call refused start end method p).0.breakers
      ≡ lookup other p.breakers
unfolding per_method_intercept
per_method_isolated call refused start end method other p h =
    let found = get_breaker (λ m. m) p method start in
    let admitted = allow found.1 start in
    ground (
      arith,
      get_breaker_other p method other start h,
      write_other found.0 method other (intercept_result call (λ b. b) start end call admitted.0).0
          h,
      write_other found.0 method other admitted.0 h,
    )
