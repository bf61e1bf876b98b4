-- ===== src/Retry.antt =====
-- client/http/client.go and client/grpc/client.go: the retry loops of `Do` and of `Call`. One attempt is
-- what the network does and a parameter: the result of the attempt in each round. An error comes with
-- its status, 0 for none.
pub mod Rounds
mod Tests
use grodyia.Prelude.{
  ℕ, zero, suc, ◌+◌, ◌*◌, Bool, true, false, ◌&&◌, List, [], ◌∷◌, ◌++◌, Option, none, some,
  if◌then◌else◌, leb, ltb,
}
use grodyia.Prelude.Int.{ℤ, pos, negsuc}

-- The result of `doRequest`.
pub data Attempt (D : Type 0) : Type 0 where
  answered : D → ℕ → Attempt D
  erred : ℕ → Attempt D

-- The result of `Do`: what an attempt returned, a client error, or that all retries failed.
pub data Done (D : Type 0) : Type 0 where
  success : D → ℕ → Done D
  client_error : ℕ → Done D
  retries_failed : Done D

-- What `Do` did: its result, the number of requests, and the sleep before each, in nanoseconds.
pub record Trip (D : Type 0) : Type 0 where
  pub result : Done D
  pub requests : ℕ
  pub sleeps : List ℕ

-- `statusCode >= 400 && statusCode < 500`
unfoldable pub is_client_error : ℕ → Bool
is_client_error status = leb 400 status && ltb status 500

-- How many rounds `for i := 0; i <= max_retries; i++` has.
abbrev pub rounds : ℤ → ℕ
rounds (pos n) = n + 1
rounds (negsuc n) = 0

module _ {D : Type 0} where
  -- The loop of `Do` from the round `i` on, `left` rounds at most; `network i` is the result of
  -- `doRequest` in that round.
  unfoldable pub do_from : (ℕ → Attempt D) → ℕ → ℕ → ℕ → Trip D
  unfolding is_client_error
  do_from network delay i zero = record { result = retries_failed; requests = 0; sleeps = [] }
  do_from network delay i (suc left) =
      let later = do_from network delay (i + 1) left in
      let slept = if ltb 0 i then delay * i ∷ [] else [] in
      elim (network i) [
        | answered d status ↦ record { result = success d status; requests = 1; sleeps = slept }
        | erred status ↦
            if is_client_error status
            then record { result = client_error status; requests = 1; sleeps = slept }
            else record {
              result = later.result;
              requests = later.requests + 1;
              sleeps = slept ++ later.sleeps;
            }
      ]

  -- `Do`
  unfoldable pub do_request : (ℕ → Attempt D) → ℕ → ℤ → Trip D
  unfolding do_from
  do_request network delay max_retries = do_from network delay 0 (rounds max_retries)

  -- The loop of `Call`, where any error is tried again.
  unfoldable pub call_from : (ℕ → Attempt D) → ℕ → ℕ → ℕ → Trip D
  call_from network delay i zero = record { result = retries_failed; requests = 0; sleeps = [] }
  call_from network delay i (suc left) =
      let later = call_from network delay (i + 1) left in
      let slept = if ltb 0 i then delay * i ∷ [] else [] in
      elim (network i) [
        | answered d status ↦ record { result = success d status; requests = 1; sleeps = slept }
        | erred status ↦ record {
          result = later.result;
          requests = later.requests + 1;
          sleeps = slept ++ later.sleeps;
        }
      ]

  -- `Call`
  unfoldable pub call : (ℕ → Attempt D) → ℕ → ℤ → Trip D
  unfolding call_from
  call network delay max_retries = call_from network delay 0 (rounds max_retries)
