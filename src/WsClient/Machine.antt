-- ===== src/WsClient/Machine.antt =====
-- client/ws/client.go: callers, read pumps and reconnection over any interleaving of their sections.
use grodyia.Prelude.{
  ℕ, ◌+◌, ◌-◌, Bool, true, false, List, [], ◌∷◌, Option, none, some, if◌then◌else◌, ltb,
}
use grodyia.WsClient.{
  Client, Options, new_client, connect, begin_close, close_done, end_close, drop_connection,
  wants_reconnect, begin_reconnect, may_attempt, count_attempt, end_reconnect, send_raw,
}

-- The client with the goroutines in each place: in `Connect` after its check, in `Close` before
-- `close(c.done)` and after it, in `handleDisconnect` after its first section, in `reconnect` before its
-- first section, and in its loop at the tests, at the count, at `connect` and at the `defer`. The last
-- five are counts of what happened: connections made, calls of `onDisconnect`, connections that `Close`
-- dropped, closings of `done`, and whether one of those panicked.
pub record World (M : Type 0) : Type 0 where
  pub client : Client M
  pub callers : ℕ
  pub closing : ℕ
  pub dropping : ℕ
  pub handling : ℕ
  pub spawned : ℕ
  pub testing : ℕ
  pub counting : ℕ
  pub dialing : ℕ
  pub ending : ℕ
  pub connections : ℕ
  pub disconnects : ℕ
  pub drops : ℕ
  pub done_closings : ℕ
  pub panicked : Bool

-- The argument of `dials` and `redials` is what `Dial` returns.
pub data Step (M : Type 0) : Type 0 where
  calls_connect calls_close closes_done drops handles disconnects enters tests counts ends : Step M
  dials redials : Option ℕ → Step M
  sends : Bool → M → Step M

module _ {M : Type 0} where
  unfoldable pub step : World M → Step M → World M
  step w calls_connect = if w.client.closed then w else record w { callers = w.callers + 1 }
  step w (dials id) =
      let (c, fresh, ok) = connect id w.client in
      if ltb 0 w.callers
      then record w {
        client = c;
        callers = w.callers - 1;
        connections = if fresh then w.connections + 1 else w.connections;
      }
      else w
  step w calls_close =
      let (c, first) = begin_close w.client in
      record w { client = c; closing = if first then w.closing + 1 else w.closing }
  step w closes_done =
      if ltb 0 w.closing
      then elim (close_done w.client) [
        | none ↦ record w { panicked = true }
        | some c ↦ record w {
          client = c;
          closing = w.closing - 1;
          dropping = w.dropping + 1;
          done_closings = w.done_closings + 1;
        }
      ]
      else w
  step w drops =
      let (c, was) = end_close w.client in
      if ltb 0 w.dropping
      then record w {
        client = c;
        dropping = w.dropping - 1;
        drops = if was then w.drops + 1 else w.drops;
      }
      else w
  step w disconnects =
      let (c, was) = drop_connection w.client in
      record w {
        client = c;
        handling = if was then w.handling + 1 else w.handling;
        disconnects = if was then w.disconnects + 1 else w.disconnects;
      }
  step w handles =
      if ltb 0 w.handling
      then record w {
        handling = w.handling - 1;
        spawned = if wants_reconnect w.client then w.spawned + 1 else w.spawned;
      }
      else w
  step w enters =
      let (c, on) = begin_reconnect w.client in
      if ltb 0 w.spawned
      then record w {
        client = c;
        spawned = w.spawned - 1;
        testing = if on then w.testing + 1 else w.testing;
      }
      else w
  step w tests =
      if ltb 0 w.testing
      then if may_attempt w.client
        then record w { testing = w.testing - 1; counting = w.counting + 1 }
        else record w { testing = w.testing - 1; ending = w.ending + 1 }
      else w
  step w counts =
      if ltb 0 w.counting
      then record w {
        client = count_attempt w.client;
        counting = w.counting - 1;
        dialing = w.dialing + 1;
      }
      else w
  step w (redials id) =
      let (c, fresh, ok) = connect id w.client in
      if ltb 0 w.dialing
      then record w {
        client = c;
        dialing = w.dialing - 1;
        testing = if ok then w.testing else w.testing + 1;
        ending = if ok then w.ending + 1 else w.ending;
        connections = if fresh then w.connections + 1 else w.connections;
      }
      else w
  step w ends =
      if ltb 0 w.ending
      then record w { client = end_reconnect w.client; ending = w.ending - 1 }
      else w
  step w (sends prefer_done m) = record w { client = (send_raw prefer_done m w.client).0 }

  unfoldable pub run : World M → List (Step M) → World M
  run w [] = w
  run w (s ∷ ss) = run (step w s) ss

  abbrev pub fresh : Options → World M
  fresh opts = record {
    client = new_client opts;
    callers = 0;
    closing = 0;
    dropping = 0;
    handling = 0;
    spawned = 0;
    testing = 0;
    counting = 0;
    dialing = 0;
    ending = 0;
    connections = 0;
    disconnects = 0;
    drops = 0;
    done_closings = 0;
    panicked = false;
  }
