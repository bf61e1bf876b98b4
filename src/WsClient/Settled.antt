-- ===== src/WsClient/Settled.antt =====
-- client/ws/client.go: what a closed client can still do.
use grodyia.Prelude.{◌+◌, ◌≡◌, ◌∙◌, refl, true, false, List, [], ◌∷◌, arith}
use grodyia.WsClient.{
  begin_close, close_done, end_close, drop_connection, begin_reconnect, may_attempt, count_attempt,
  end_reconnect, send_raw,
}
use grodyia.WsClient.Machine.{
  World, Step, calls_connect, calls_close, closes_done, drops, handles, disconnects, enters, tests,
  counts, ends, dials, redials, sends, step, run,
}

module _ {M : Type 0} where
  -- A closed client that is not connected, and of whose goroutines none is past the last look at `closed`
  -- before a `connect`.
  pub record Settled (w : World M) : Type 0 where
    pub closed : w.client.closed ≡ true
    pub disconnected : w.client.connected ≡ false
    pub no_caller : w.callers ≡ 0
    pub no_attempt : w.counting + w.dialing ≡ 0

  step-Settled :
      (w : World M) (s : Step M)
      → Settled w
      → Settled (step w s) × ((step w s).connections ≡ w.connections)
  unfolding step begin_close close_done end_close drop_connection begin_reconnect may_attempt
      count_attempt end_reconnect send_raw
  step-Settled w calls_connect h = ground arith
  step-Settled w (dials id) h = ground arith
  step-Settled w calls_close h = ground arith
  step-Settled w closes_done h = ground arith
  step-Settled w drops h = ground arith
  step-Settled w disconnects h = ground arith
  step-Settled w handles h = ground arith
  step-Settled w enters h = ground arith
  step-Settled w tests h = ground arith
  step-Settled w counts h = ground arith
  step-Settled w (redials id) h = ground arith
  step-Settled w ends h = ground arith
  step-Settled w (sends p m) h = ground arith

  -- A closed client that is not connected makes no connection any more, whatever follows, if no goroutine
  -- is between its last look at `closed` and its `connect`.
  pub run-Settled :
      (w : World M) (ss : List (Step M))
      → Settled w
      → Settled (run w ss) × ((run w ss).connections ≡ w.connections)
  unfolding run
  run-Settled w [] h = (h, refl)
  run-Settled w (s ∷ ss) h =
      let (k, e) = step-Settled w s h in let (l, f) = run-Settled (step w s) ss k in (l, f ∙ e)
