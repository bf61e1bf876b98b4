-- ===== src/WsClient/Invariant.antt =====
-- client/ws/client.go: what holds over any interleaving of the client's sections.
use grodyia.Prelude.{
  ℕ, ◌+◌, ◌≤◌, ◌<◌, ◌≡◌, ◌≢◌, Bool, true, false, List, [], ◌∷◌, Option, none, some, if◌then◌else◌,
  length, length-append, arith,
}
use grodyia.Prelude.Int.{pos, leb_ℤ, ltb_ℤ}
use grodyia.WsClient.{
  Options, new_client, connect, begin_close, close_done, end_close, drop_connection,
  begin_reconnect, may_attempt, count_attempt, end_reconnect, send_raw, send_capacity,
}
use grodyia.WsClient.Machine.{
  World, Step, calls_connect, calls_close, closes_done, drops, handles, disconnects, enters, tests,
  counts, ends, dials, redials, sends, step, run, fresh,
}

-- A positive `MaxReconnectAttempts` admits the count.
abbrev pub Within : Options → ℕ → Type 0
Within opts count =
    ltb_ℤ (pos 0) opts.max_reconnect_attempts ≡ true
    → leb_ℤ (pos count) opts.max_reconnect_attempts ≡ true

module _ {M : Type 0} where
  pub record Inv (w : World M) : Type 0 where
    pub one_loop :
        w.testing + w.counting + w.dialing + w.ending ≡ (if w.client.reconnecting then 1 else 0)
    pub attempts : Within w.client.opts w.client.reconnect_count
    pub next_attempt : 0 < w.counting → Within w.client.opts (w.client.reconnect_count + 1)
    pub closed_once : w.done_closings + w.closing ≡ (if w.client.closed then 1 else 0)
    pub done_closed : w.done_closings ≡ (if w.client.done then 1 else 0)
    pub calm : w.panicked ≡ false
    pub held : w.client.connected ≡ true → w.client.conn ≢ none
    pub counted : w.connections ≡ w.disconnects + w.drops + (if w.client.connected then 1 else 0)
    pub send_bounded : length w.client.send ≤ send_capacity

  dials-Inv : (w : World M) (id : Option ℕ) → Inv w → Inv (step w (dials id))
  unfolding step connect
  dials-Inv w none h = ground arith
  dials-Inv w (some id) h = ground arith

  redials-Inv : (w : World M) (id : Option ℕ) → Inv w → Inv (step w (redials id))
  unfolding step connect
  redials-Inv w none h = ground arith
  redials-Inv w (some id) h = ground arith

  tests-Inv : (w : World M) → Inv w → Inv (step w tests)
  unfolding step may_attempt
  tests-Inv w h = ground arith

  sends-Inv : (w : World M) (p : Bool) (m : M) → Inv w → Inv (step w (sends p m))
  unfolding step send_raw
  sends-Inv w p m h = ground (arith, length-append w.client.send (m ∷ []))

  step-Inv : (w : World M) (s : Step M) → Inv w → Inv (step w s)
  unfolding step begin_close close_done end_close drop_connection begin_reconnect count_attempt
      end_reconnect
  step-Inv w calls_connect h = ground arith
  step-Inv w (dials id) h = dials-Inv w id h
  step-Inv w calls_close h = ground arith
  step-Inv w closes_done h = ground arith
  step-Inv w drops h = ground arith
  step-Inv w disconnects h = ground arith
  step-Inv w handles h = ground arith
  step-Inv w enters h = ground arith
  step-Inv w tests h = tests-Inv w h
  step-Inv w counts h = ground arith
  step-Inv w (redials id) h = redials-Inv w id h
  step-Inv w ends h = ground arith
  step-Inv w (sends p m) h = sends-Inv w p m h

  run-Inv : (w : World M) (ss : List (Step M)) → Inv w → Inv (run w ss)
  unfolding run
  run-Inv w [] h = h
  run-Inv w (s ∷ ss) h = run-Inv (step w s) ss (step-Inv w s h)

  fresh-Inv : (opts : Options) → Inv (fresh opts)
  unfolding new_client
  fresh-Inv opts = ground arith

  -- After any interleaving on a new client: `done` is closed at most once, so that no `Close` panics; at
  -- most one goroutine is in the loop of `reconnect`; the count of attempts does not exceed a positive
  -- `MaxReconnectAttempts`; a connected client has a connection; every connection made is the present one
  -- or was dropped, by `onDisconnect` once or by `Close`; and the channel keeps its capacity.
  pub run-fresh-Inv : (opts : Options) (ss : List (Step M)) → Inv (run (fresh opts) ss)
  run-fresh-Inv opts ss = run-Inv (fresh opts) ss (fresh-Inv opts)
