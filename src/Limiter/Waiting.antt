-- ===== src/Limiter/Waiting.antt =====
-- `Wait` of middleware/ratelimit.go: it ends by a token or by the context.
use grodyia.Prelude.{ℕ, ◌≡◌, Bool, List, [], ◌∷◌, Option, none, some, any, if◌then◌else◌, arith}
use grodyia.Limiter.{Float, RateLimiter, allow, allow_all, Wake, done, timer, wait}

module _ (float : Float) where
  -- The error of the context, at the first round in which the context is done.
  abbrev pub first_done : List (Wake float) → Option ℕ
  first_done [] = none
  first_done (done err ∷ rest) = some err
  first_done (timer t ∷ rest) = first_done rest

  -- The times at which the timer fires before the context is done.
  abbrev pub retries : List (Wake float) → List ℕ
  retries [] = []
  retries (done err ∷ rest) = []
  retries (timer t ∷ rest) = t ∷ retries rest

  -- The result of a `Wait` that gets no token.
  abbrev pub given_up : Option ℕ → Option (Option ℕ)
  given_up none = none
  given_up (some err) = some (some err)

  -- The times up to the first true answer, which the limiter has been asked at.
  abbrev pub asked : List ℕ → List Bool → List ℕ
  asked [] answers = []
  asked (t ∷ ts) [] = []
  asked (t ∷ ts) (b ∷ bs) = if b then t ∷ [] else t ∷ asked ts bs

  -- Over any sequence of rounds, whether the context is ever done or not: `Wait` returns without an error
  -- exactly when Allow would give a token to one of the calls at its beginning and at the times when the
  -- timer fires before the context is done; else it returns the error of the context, if that is done, and
  -- else still waits. It has taken from the limiter what Allow takes at those times up to the first token.
  pub wait_outcome :
      (r : RateLimiter float) (now : ℕ) (wakes : List (Wake float))
      → let times = now ∷ retries wakes in
        let answers = (allow_all float r times).1 in
        ((wait float r now wakes).1
          ≡ (if any (λ b. b) answers then some none else given_up (first_done wakes)))
        × ((wait float r now wakes).0 ≡ (allow_all float r (asked times answers)).0)
  unfolding wait allow_all
  wait_outcome r now [] = ground arith
  wait_outcome r now (done e ∷ rest) = ground arith
  wait_outcome r now (timer t ∷ rest) = ground (arith, wait_outcome (allow float r now).0 t rest)
