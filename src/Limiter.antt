-- ===== src/Limiter.antt =====
-- middleware/ratelimit.go: the token bucket. `float64` is a parameter: its operations, and such laws
-- of IEEE 754 doubles as the code relies on. Times are nanoseconds on the monotonic clock.
pub mod Bucket
pub mod Waiting
mod Fixed
mod Tests
use grodyia.Prelude.{
  ℕ, suc, ◌+◌, ◌-◌, ◌≤◌, ◌^◌, ◌≡◌, Bool, true, false, List, [], ◌∷◌, Option, none, some,
  if◌then◌else◌, leb, not, Dict, lookup, insert, String, string_eq,
}
use grodyia.Keyed.{fetch}

-- The comparisons are false on NaN, so that the laws hold of every double. `max_exact` is 2 ^ 53,
-- up to which the integers are exact.
pub record Float : Type 1 where
  pub F : Type 0
  pub add : F → F → F
  pub mul : F → F → F
  pub pred : F → F  -- x - 1
  pub gt : F → F → Bool
  pub ge_one : F → Bool
  pub of_int : ℕ → F
  pub seconds : ℕ → F
  pub gt_irrefl : (x : F) → gt x x ≡ false
  pub gt-pred : (x b : F) → gt x b ≡ false → gt (pred x) b ≡ false
  pub max_exact : ℕ
  pub pred-of_int : (n : ℕ) → suc n ≤ max_exact → pred (of_int (suc n)) ≡ of_int n
  pub ge_one-of_int : (n : ℕ) → n ≤ max_exact → ge_one (of_int n) ≡ leb 1 n
  pub gt-of_int : (m n : ℕ) → m ≤ n → n ≤ max_exact → gt (of_int m) (of_int n) ≡ false

module _ (float : Float) where
  open float use {F, add, mul, pred, gt, ge_one, of_int, seconds}

  -- A burst below zero, which lets nothing through, is left out.
  pub record RateLimiter : Type 0 where
    pub rate : F
    pub burst : ℕ
    pub tokens : F
    pub last_update : ℕ

  unfoldable pub new_rate_limiter : F → ℕ → ℕ → RateLimiter
  new_rate_limiter rate burst now = record {
    rate = rate;
    burst = burst;
    tokens = of_int burst;
    last_update = now;
  }

  -- The tokens after the refill: `r.tokens += elapsed * r.rate`, cut to the burst.
  unfoldable pub refill : RateLimiter → ℕ → F
  refill r now =
      let grown = add r.tokens (mul (seconds (now - r.last_update)) r.rate) in
      if gt grown (of_int r.burst) then of_int r.burst else grown

  unfoldable pub allow : RateLimiter → ℕ → RateLimiter × Bool
  allow r now =
      let level = refill r now in
      if ge_one level
      then (record r { tokens = pred level; last_update = now }, true)
      else (record r { tokens = level; last_update = now }, false)

  -- Calls of `Allow` at the given times, and their answers.
  unfoldable pub allow_all : RateLimiter → List ℕ → RateLimiter × List Bool
  allow_all r [] = (r, [])
  allow_all r (now ∷ rest) =
      let (r', answer) = allow r now in
      let (r'', answers) = allow_all r' rest in (r'', answer ∷ answers)

  -- What ends the `select` of `Wait`: the context, with its error, or the timer, at a time.
  pub data Wake : Type 0 where
    done : ℕ → Wake
    timer : ℕ → Wake

  -- `Wait`, called at `now`, over what its `select` receives round by round; `none` while it waits.
  unfoldable pub wait : RateLimiter → ℕ → List Wake → RateLimiter × Option (Option ℕ)
  wait r now [] = let (r', allowed) = allow r now in (r', if allowed then some none else none)
  wait r now (done err ∷ rest) =
      let (r', allowed) = allow r now in (r', if allowed then some none else some (some err))
  wait r now (timer t ∷ rest) =
      let (r', allowed) = allow r now in
      let later = wait r' t rest in if allowed then (r', some none) else later

  -- A request through `UnaryServerRateLimiter`, `StreamServerRateLimiter` or `HTTPRateLimiter`
  -- (middleware/http.go): `none` is the refusal, ResourceExhausted or status 429.
  unfoldable pub limited {ℓ} : {R : Type ℓ} → R → RateLimiter → ℕ → RateLimiter × Option R
  limited response r now =
      let (r', allowed) = allow r now in (r', if allowed then some response else none)

  -- `UnaryClientRateLimiter` waits instead; outer `none` while it waits, inner on an error of `Wait`.
  answer {ℓ} : {R : Type ℓ} → R → Option (Option ℕ) → Option (Option R)
  answer response none = none
  answer response (some none) = some (some response)
  answer response (some (some err)) = some none

  unfoldable pub limited_client {ℓ} :
      {R : Type ℓ} → R → RateLimiter → ℕ → List Wake → RateLimiter × Option (Option R)
  unfolding answer
  limited_client response r now wakes =
      let (r', result) = wait r now wakes in (r', answer response result)

  pub record PerMethod : Type 0 where
    pub limiters : Dict String RateLimiter
    pub rate : F
    pub burst : ℕ

  unfoldable pub get_limiter :
      (Dict String RateLimiter → Dict String RateLimiter)
      → PerMethod
      → String
      → ℕ
      → PerMethod × RateLimiter
  get_limiter between p method now =
      let (m, r) = fetch between (new_rate_limiter p.rate p.burst now) p.limiters method in
      (record p { limiters = m }, r)

  -- `PerMethodRateLimiter.UnaryServerInterceptor`
  unfoldable pub per_method_limited {ℓ} :
      {R : Type ℓ} → R → PerMethod → String → ℕ → PerMethod × Option R
  per_method_limited response p method now =
      let (p', r) = get_limiter (λ m. m) p method now in
      let (r', result) = limited response r now in
      (record p' { limiters = insert method r' p'.limiters }, result)
