-- ===== src/Outbound/Wakeup.antt =====
-- transport/ws/connection.go: senders and writers over any interleaving of their atomic steps. A goroutine
-- that sends puts a message into a channel and then calls `ensureWriter` or `tryServeWriterInline`. A
-- goroutine in `writePump` is active until a round finds nothing; it then clears the flag, looks at the one
-- queue and the other, and takes the flag back or leaves, clearing the flag once more by its `defer`.
use grodyia.Prelude.{ℕ, ◌+◌, ◌-◌, true, false, List, [], ◌∷◌, ◌++◌, length, if◌then◌else◌, ltb}
use grodyia.Prelude.Int.{ℤ}
use grodyia.Outbound.{Connection, new_connection, push_send, push_broadcast, ensure_writer, close}

-- The connection, the goroutines in each place, and two records that the program does not keep: the
-- messages that went into each channel, and those taken from it.
pub record World (M : Type 0) : Type 0 where
  pub conn : Connection M
  pub wakers : ℕ
  pub active : ℕ
  pub checking : ℕ
  pub rechecking : ℕ
  pub retrying : ℕ
  pub leaving : ℕ
  pub sent : List M
  pub broadcasted : List M
  pub taken_sent : List M
  pub taken_broadcasted : List M

pub data Step (M : Type 0) : Type 0 where
  sends broadcasts : M → Step M
  wakes takes_sent takes_broadcasted rests fails checks rechecks retries leaves closes : Step M

module _ {M : Type 0} where
  unfoldable pub take_sent : List M → World M → World M
  take_sent [] w = w
  take_sent (m ∷ rest) w = record w {
    conn = record w.conn { send = rest };
    taken_sent = w.taken_sent ++ m ∷ [];
  }

  unfoldable pub take_broadcasted : List M → World M → World M
  take_broadcasted [] w = w
  take_broadcasted (m ∷ rest) w = record w {
    conn = record w.conn { broadcast = rest };
    taken_broadcasted = w.taken_broadcasted ++ m ∷ [];
  }

  -- A sender that has found the connection open may still send after it is closed.
  unfoldable pub step : World M → Step M → World M
  unfolding take_sent take_broadcasted
  step w (sends m) =
      let (c, room) = push_send m w.conn in
      if room then record w { conn = c; wakers = w.wakers + 1; sent = w.sent ++ m ∷ [] } else w
  step w (broadcasts m) =
      let (c, room) = push_broadcast m w.conn in
      if room
      then record w { conn = c; wakers = w.wakers + 1; broadcasted = w.broadcasted ++ m ∷ [] }
      else w
  step w wakes =
      let (c, started) = ensure_writer w.conn in
      if ltb 0 w.wakers
      then record w {
        conn = c;
        wakers = w.wakers - 1;
        active = if started then w.active + 1 else w.active;
      }
      else w
  step w takes_sent = if ltb 0 w.active then take_sent w.conn.send w else w
  step w takes_broadcasted = if ltb 0 w.active then take_broadcasted w.conn.broadcast w else w
  step w rests =
      if ltb 0 w.active
      then record w {
        conn = record w.conn { writer_running = false };
        active = w.active - 1;
        checking = w.checking + 1;
      }
      else w
  step w fails =
      if ltb 0 w.active
      then record w { conn = close w.conn; active = w.active - 1; leaving = w.leaving + 1 }
      else w
  step w checks =
      if ltb 0 w.checking
      then if w.conn.closed
        then record w { checking = w.checking - 1; leaving = w.leaving + 1 }
        else if ltb 0 (length w.conn.send)
        then record w { checking = w.checking - 1; retrying = w.retrying + 1 }
        else record w { checking = w.checking - 1; rechecking = w.rechecking + 1 }
      else w
  step w rechecks =
      if ltb 0 w.rechecking
      then if ltb 0 (length w.conn.broadcast)
        then record w { rechecking = w.rechecking - 1; retrying = w.retrying + 1 }
        else record w { rechecking = w.rechecking - 1; leaving = w.leaving + 1 }
      else w
  step w retries =
      if ltb 0 w.retrying
      then if w.conn.writer_running
        then record w { retrying = w.retrying - 1; leaving = w.leaving + 1 }
        else record w {
          conn = record w.conn { writer_running = true };
          retrying = w.retrying - 1;
          active = w.active + 1;
        }
      else w
  step w leaves =
      if ltb 0 w.leaving
      then record w { conn = record w.conn { writer_running = false }; leaving = w.leaving - 1 }
      else w
  step w closes = record w { conn = close w.conn }

  unfoldable pub run : World M → List (Step M) → World M
  run w [] = w
  run w (s ∷ ss) = run (step w s) ss

  abbrev pub fresh : ℤ → ℤ → World M
  fresh send_queue_size broadcast_queue_size = record {
    conn = new_connection send_queue_size broadcast_queue_size;
    wakers = 0;
    active = 0;
    checking = 0;
    rechecking = 0;
    retrying = 0;
    leaving = 0;
    sent = [];
    broadcasted = [];
    taken_sent = [];
    taken_broadcasted = [];
  }
