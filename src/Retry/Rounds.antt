-- ===== src/Retry/Rounds.antt =====
-- client/http/client.go and client/grpc/client.go: in which round the retry loops end.
use grodyia.Prelude.{
  subst, ℕ, zero, suc, ◌+◌, ◌*◌, ◌≤◌, ◌<◌, ◌≡◌, refl, Bool, true, false, List, [], ◌∷◌, ◌++◌, arith,
  if◌then◌else◌, ltb,
}
use grodyia.Prelude.Int.{ℤ, pos}
use grodyia.Retry.{
  Attempt, answered, erred, Done, success, client_error, retries_failed, Trip, is_client_error,
  do_from, do_request, call_from, call, rounds,
}

-- The sleeps before `count` rounds from the round `i` on; the round 0 has none.
abbrev pub backoff : ℕ → ℕ → ℕ → List ℕ
backoff delay i zero = []
backoff delay i (suc count) =
    (if ltb 0 i then delay * i ∷ [] else []) ++ backoff delay (i + 1) count

module _ {D : Type 0} where
  -- An attempt after which `Do` returns.
  abbrev pub settles : Attempt D → Bool
  settles (answered d status) = true
  settles (erred status) = is_client_error status

  abbrev pub verdict : Attempt D → Done D
  verdict (answered d status) = success d status
  verdict (erred status) = client_error status

  abbrev pub answers : Attempt D → Bool
  answers (answered d status) = true
  answers (erred status) = false

  -- The loop ended in the round `k`, after every sleep before it.
  pub record Ends (delay i k : ℕ) (result : Done D) (t : Trip D) : Type 0 where
    pub returned : t.result ≡ result
    pub requested : t.requests ≡ k
    pub slept : t.sleeps ≡ backoff delay i k

  -- The round that settles.
  settled :
      (network : ℕ → Attempt D) (delay i left : ℕ) (a : Attempt D)
      → network i ≡ a
      → settles a ≡ true
      → Ends delay i 1 (verdict a) (do_from network delay i (suc left))
  unfolding do_from
  settled network delay i left (answered d status) e h = ground (arith, e, h)
  settled network delay i left (erred status) e h = ground (arith, e, h)

  -- A round that does not.
  retried :
      (network : ℕ → Attempt D) (delay i left k : ℕ) (a : Attempt D) (result : Done D)
      → network i ≡ a
      → settles a ≡ false
      → Ends delay (i + 1) k result (do_from network delay (i + 1) left)
      → Ends delay i (suc k) result (do_from network delay i (suc left))
  unfolding do_from
  retried network delay i left k (answered d status) result e h t = ground arith
  retried network delay i left k (erred status) result e h t = ground (arith, e, h)

  do_from-Ends :
      (network : ℕ → Attempt D) (delay i left k last : ℕ)
      → i + k ≡ last
      → ((j : ℕ) → i ≤ j → j < last → settles (network j) ≡ false)
      → settles (network last) ≡ true
      → k < left
      → Ends delay i (suc k) (verdict (network last)) (do_from network delay i left)
  do_from-Ends network delay i zero k last e before at h = ground arith
  do_from-Ends network delay i (suc left) zero last e before at h =
      let same : (last ≡ i) = omega (arith, e) in
      rw same (
        settled network delay i left (network i) refl
          (subst (λ j. settles (network j) ≡ true) same at))
  do_from-Ends network delay i (suc left) (suc k) last e before at h =
      retried network delay i left (suc k) (network i) _ refl
        (before i (omega arith) (omega (arith, e)))
        (do_from-Ends network delay (i + 1) left k last (omega (arith, e))
          (λ j l m. before j (omega (arith, l)) m) at (omega (arith, h)))

  do_from-gives_up :
      (network : ℕ → Attempt D) (delay i left : ℕ)
      → ((j : ℕ) → i ≤ j → j < i + left → settles (network j) ≡ false)
      → Ends delay i left retries_failed (do_from network delay i left)
  unfolding do_from
  do_from-gives_up network delay i zero before = ground arith
  do_from-gives_up network delay i (suc left) before =
      retried network delay i left left (network i) _ refl (before i (omega arith) (omega arith)) (
        do_from-gives_up network delay (i + 1) left
          (λ j l m. before j (omega (arith, l)) (omega (arith, m))))

  -- `Do` ends with the first attempt that answers or fails with a 4xx status, if one of the first
  -- `max_retries + 1` does: it returns that attempt's result, after one request for each attempt up to
  -- it and the delays before them, `delay * i` before the i-th retry.
  pub do_request_lem :
      (network : ℕ → Attempt D) (delay max_retries k : ℕ)
      → ((j : ℕ) → j < k → settles (network j) ≡ false)
      → settles (network k) ≡ true
      → k ≤ max_retries
      → Ends delay 0 (suc k) (verdict (network k)) (do_request network delay (pos max_retries))
  unfolding do_request
  do_request_lem network delay max_retries k before at h =
      do_from-Ends network delay 0 (max_retries + 1) k k (omega arith) (λ j _ m. before j m) at
        (omega (arith, h))

  -- If none of the first `max_retries + 1` attempts answers or fails with a 4xx status, `Do` makes them
  -- all, with the delays before them, and returns the error that all retries failed.
  pub do_request-gives_up :
      (network : ℕ → Attempt D) (delay max_retries : ℕ)
      → ((j : ℕ) → j ≤ max_retries → settles (network j) ≡ false)
      → Ends delay 0 (max_retries + 1) retries_failed (do_request network delay (pos max_retries))
  unfolding do_request
  do_request-gives_up network delay max_retries before =
      do_from-gives_up network delay 0 (max_retries + 1) (λ j _ m. before j (omega (arith, m)))

  -- An attempt whose error has no status.
  abbrev pub unlabelled : Attempt D → Attempt D
  unlabelled (answered d status) = answered d status
  unlabelled (erred status) = erred 0

  call_from-step :
      (network : ℕ → Attempt D) (delay i left : ℕ) (a : Attempt D)
      → network i ≡ a
      → call_from network delay (i + 1) left
        ≡ do_from (λ j. unlabelled (network j)) delay (i + 1) left
      → call_from network delay i (suc left)
        ≡ do_from (λ j. unlabelled (network j)) delay i (suc left)
  unfolding call_from do_from is_client_error
  call_from-step network delay i left (answered d status) e h = ground (arith, e)
  call_from-step network delay i left (erred status) e h = ground (arith, e, h)

  call_from-do_from :
      (network : ℕ → Attempt D) (delay i left : ℕ)
      → call_from network delay i left ≡ do_from (λ j. unlabelled (network j)) delay i left
  unfolding call_from do_from
  call_from-do_from network delay i zero = refl
  call_from-do_from network delay i (suc left) =
      call_from-step network delay i left (network i) refl
        (call_from-do_from network delay (i + 1) left)

  -- The retries of the gRPC helper `Call` are those of the HTTP client's `Do` where no error has a 4xx
  -- status: the same result, the same number of attempts and the same delays.
  pub call-do_request :
      (network : ℕ → Attempt D) (delay : ℕ) (max_retries : ℤ)
      → call network delay max_retries ≡ do_request (λ j. unlabelled (network j)) delay max_retries
  unfolding call do_request
  call-do_request network delay max_retries = call_from-do_from network delay 0 (rounds max_retries)
