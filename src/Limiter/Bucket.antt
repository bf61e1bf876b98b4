-- ===== src/Limiter/Bucket.antt =====
-- The bucket of middleware/ratelimit.go: its cap, and how many calls it admits at once.
use grodyia.Prelude.{
  ℕ, zero, suc, ◌-◌, ◌≤◌, ◌≡◌, ◌≢◌, refl, Bool, true, false, List, [], ◌∷◌, ◌∙◌, leb, arith, lookup,
  String, string_eq,
}
use grodyia.Keyed.{fetch_other, lookup-insert_other}
use grodyia.Limiter.{
  Float, RateLimiter, new_rate_limiter, refill, allow, allow_all, PerMethod, get_limiter,
  per_method_limited,
}

module _ (float : Float) where
  open float use {F, add, mul, pred, gt, ge_one, of_int, seconds}

  -- The bucket never holds more than the burst.
  abbrev pub IsCapped : RateLimiter float → Type 0
  IsCapped r = gt r.tokens (of_int r.burst) ≡ false

  refill_capped :
      (r : RateLimiter float) (now : ℕ) → gt (refill float r now) (of_int r.burst) ≡ false
  unfolding refill
  refill_capped r now =
      let grown = add r.tokens (mul (seconds (now - r.last_update)) r.rate) in
      ground (arith, float.gt_irrefl (of_int r.burst))

  -- Whatever the bucket held and however long it stood, after any call of `Allow` it holds at most
  -- its burst; rate and burst stay, and the call is admitted exactly when the refilled bucket holds
  -- a token.
  pub allow-IsCapped :
      (r : RateLimiter float) (now : ℕ)
      → IsCapped (allow float r now).0
        × ((allow float r now).0.burst ≡ r.burst)
        × ((allow float r now).0.rate ≡ r.rate)
        × ((allow float r now).0.last_update ≡ now)
        × ((allow float r now).1 ≡ ge_one (refill float r now))
  unfolding allow
  allow-IsCapped r now = (
    ground (arith, refill_capped r now, float.gt-pred (refill float r now) (of_int r.burst)),
    ground arith,
    ground arith,
    ground arith,
    ground arith,
  )

-- The answers of a bucket of `n` tokens to `k` calls at one instant: the first `n` are admitted.
abbrev pub first_admitted : ℕ → ℕ → List Bool
first_admitted n zero = []
first_admitted zero (suc k) = false ∷ first_admitted zero k
first_admitted (suc n) (suc k) = true ∷ first_admitted n k

abbrev pub repeat : ℕ → ℕ → List ℕ
repeat zero now = []
repeat (suc k) now = now ∷ repeat k now

module _ (float : Float) (rate : float.F)
    (idle : (n : ℕ)
      → n ≤ float.max_exact
      → float.add (float.of_int n) (float.mul (float.seconds 0) rate) ≡ float.of_int n) where
  open float use {of_int, gt, ge_one}

  refill_idle :
      (r : RateLimiter float) (n : ℕ)
      → r.rate ≡ rate
      → r.tokens ≡ of_int n
      → n ≤ r.burst
      → r.burst ≤ float.max_exact
      → refill float r r.last_update ≡ of_int n
  unfolding refill
  refill_idle r n e t b m = ground (arith, idle n, float.gt-of_int n r.burst)

  allow_idle :
      (r : RateLimiter float) (n now : ℕ)
      → r.rate ≡ rate
      → r.tokens ≡ of_int n
      → n ≤ r.burst
      → r.burst ≤ float.max_exact
      → r.last_update ≡ now
      → ((allow float r now).1 ≡ leb 1 n) × ((allow float r now).0.tokens ≡ of_int (n - 1))
  unfolding allow
  allow_idle r zero now e t b m l = ground (arith, refill_idle r 0, float.ge_one-of_int 0)
  allow_idle r (suc n) now e t b m l =
      ground (arith, refill_idle r (suc n), float.ge_one-of_int (suc n), float.pred-of_int n)

  -- A bucket of `n` whole tokens, with a burst up to 2 ^ 53 and a rate that adds nothing in no
  -- time, admits the first `n` of any number of calls at one instant and refuses the others.
  pub allow_all_instant :
      (r : RateLimiter float) (n k now : ℕ)
      → r.rate ≡ rate
      → r.tokens ≡ of_int n
      → n ≤ r.burst
      → r.burst ≤ float.max_exact
      → r.last_update ≡ now
      → (allow_all float r (repeat k now)).1 ≡ first_admitted n k
  unfolding allow_all
  allow_all_instant r n zero now e t b m l = refl
  allow_all_instant r zero (suc k) now e t b m l = ground (
    arith,
    allow_idle r 0 now e t b m l,
    allow-IsCapped float r now,
    allow_all_instant (allow float r now).0 0 k now,
  )
  allow_all_instant r (suc n) (suc k) now e t b m l = ground (
    arith,
    allow_idle r (suc n) now e t b m l,
    allow-IsCapped float r now,
    allow_all_instant (allow float r now).0 n k now,
  )

module _ {ℓ} (float : Float) {R : Type ℓ} where
  -- A request for one method leaves the bucket of every other method as it is.
  pub per_method_limited_other :
      (response : R) (p : PerMethod float) (method other : String) (now : ℕ)
      → method ≢ other
      → lookup other (per_method_limited float response p method now).0.limiters
        ≡ lookup other p.limiters
  unfolding per_method_limited get_limiter
  per_method_limited_other response p method other now h =
      let fresh = new_rate_limiter float p.rate p.burst now in
      lookup-insert_other _ _ method other h ∙ fetch_other fresh p.limiters method other h
