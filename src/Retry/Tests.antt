-- ===== src/Retry/Tests.antt =====
-- A server that fails twice, and the theorems at it.
use grodyia.Prelude.{ℕ, zero, suc, ◌<◌, ◌≤◌, ◌≡◌, refl, false, [], ◌∷◌, arith}
use grodyia.Prelude.Int.{pos}
use grodyia.Retry.{
  Attempt, answered, erred, do_request, do_from, call, client_error, retries_failed,
  is_client_error,
}
use grodyia.Retry.Rounds.{
  Ends, settles, unlabelled, do_request_lem, do_request-gives_up, call-do_request,
}

-- Statuses 500, none and 404, then an answer.
abbrev flaky : ℕ → Attempt ℕ
flaky zero = erred 500
flaky (suc zero) = erred 0
flaky (suc (suc zero)) = erred 404
flaky (suc (suc (suc n))) = answered 7 200

stopped :
    do_request flaky 100 (pos 3)
    ≡ record { result = client_error 404; requests = 3; sleeps = 100 ∷ 200 ∷ [] }
unfolding do_request do_from
stopped = refl

flaky_before : (j : ℕ) → j < 2 → settles (flaky j) ≡ false
unfolding is_client_error
flaky_before zero h = refl
flaky_before (suc zero) h = refl
flaky_before (suc (suc j)) h = ground arith

down_unsettled : (j : ℕ) → j ≤ 2 → settles {D = ℕ} (erred 0) ≡ false
unfolding is_client_error
down_unsettled j h = refl

do_request_lem_example : Ends 100 0 3 (client_error 404) (do_request flaky 100 (pos 3))
unfolding is_client_error
do_request_lem_example = do_request_lem flaky 100 3 2 flaky_before refl (omega arith)

do_request-gives_up_run :
    Ends {D = ℕ} 100 0 3 retries_failed (do_request (λ j. erred 0) 100 (pos 2))
do_request-gives_up_run = do_request-gives_up (λ j. erred 0) 100 2 down_unsettled

call-do_request_run : call flaky 100 (pos 3) ≡ do_request (λ j. unlabelled (flaky j)) 100 (pos 3)
call-do_request_run = call-do_request flaky 100 (pos 3)
