-- ===== src/Outbound/Awake.antt =====
-- transport/ws/connection.go: no interleaving of senders and writers loses a message or leaves one behind.
use grodyia.Prelude.{
  Option, none, some, if_cases, ◌+◌, ◌≤◌, ◌<◌, ◌≡◌, refl, sym, ap, ◌∙◌, Bool, true, false, List, [],
  ◌∷◌, ◌++◌, arith, append_assoc, append-nil, length, length-append, if◌then◌else◌, ltb,
}
use grodyia.Prelude.Int.{ℤ}
use grodyia.Outbound.{
  send_raw, enqueue_broadcast, send_broadcast_message, try_serve_writer_inline, new_connection,
  push_send, push_broadcast, ensure_writer, close,
}
use grodyia.Outbound.Wakeup.{
  World, Step, sends, broadcasts, wakes, takes_sent, takes_broadcasted, rests, fails, checks,
  rechecks, retries, leaves, closes, take_sent, take_broadcasted, step, run, fresh,
}

abbrev pub is_none : {A : Type 0} → Option A → Bool
is_none none = true
is_none (some a) = false

module _ {M : Type 0} where
  -- While the connection is open, a set flag belongs to an active writer, and for each message in a queue
  -- there is a goroutine that will still look at the queue. The queues are bounded and lose nothing.
  pub record Awake (w : World M) : Type 0 where
    pub owned : w.conn.closed ≡ false → w.conn.writer_running ≡ true → 0 < w.active
    pub send_seen :
        w.conn.closed ≡ false
        → 0 < length w.conn.send
        → 0 < w.wakers + w.active + w.checking + w.retrying
    pub broadcast_seen :
        w.conn.closed ≡ false
        → 0 < length w.conn.broadcast
        → 0 < w.wakers + w.active + w.checking + w.rechecking + w.retrying
    pub send_bounded : length w.conn.send ≤ w.conn.send_cap
    pub broadcast_bounded : length w.conn.broadcast ≤ w.conn.broadcast_cap
    pub send_fifo : w.sent ≡ w.taken_sent ++ w.conn.send
    pub broadcast_fifo : w.broadcasted ≡ w.taken_broadcasted ++ w.conn.broadcast

  sends-Awake : (w : World M) (m : M) → Awake w → Awake (step w (sends m))
  unfolding step push_send
  sends-Awake w m h =
      ground
        (arith, append_assoc w.taken_sent w.conn.send (m ∷ []), length-append w.conn.send (m ∷ []))

  broadcasts-Awake : (w : World M) (m : M) → Awake w → Awake (step w (broadcasts m))
  unfolding step push_broadcast
  broadcasts-Awake w m h = ground (
    arith,
    append_assoc w.taken_broadcasted w.conn.broadcast (m ∷ []),
    length-append w.conn.broadcast (m ∷ []),
  )

  wakes-Awake : (w : World M) → Awake w → Awake (step w wakes)
  unfolding step ensure_writer
  wakes-Awake w h = ground arith

  take_sent-Awake : (w : World M) (q : List M) → w.conn.send ≡ q → Awake w → Awake (take_sent q w)
  unfolding take_sent
  take_sent-Awake w [] e h = h
  take_sent-Awake w (m ∷ rest) e h = ground (arith, append_assoc w.taken_sent (m ∷ []) rest)

  take_broadcasted-Awake :
      (w : World M) (q : List M) → w.conn.broadcast ≡ q → Awake w → Awake (take_broadcasted q w)
  unfolding take_broadcasted
  take_broadcasted-Awake w [] e h = h
  take_broadcasted-Awake w (m ∷ rest) e h =
      ground (arith, append_assoc w.taken_broadcasted (m ∷ []) rest)

  step-Awake : (w : World M) (s : Step M) → Awake w → Awake (step w s)
  unfolding step close
  step-Awake w (sends m) h = sends-Awake w m h
  step-Awake w (broadcasts m) h = broadcasts-Awake w m h
  step-Awake w wakes h = wakes-Awake w h
  step-Awake w takes_sent h =
      if_cases Awake (ltb 0 w.active) _ w (λ _. take_sent-Awake w w.conn.send refl h) (λ _. h)
  step-Awake w takes_broadcasted h =
      if_cases Awake (ltb 0 w.active) _ w (λ _. take_broadcasted-Awake w w.conn.broadcast refl h)
        (λ _. h)
  step-Awake w rests h = ground arith
  step-Awake w fails h = ground arith
  step-Awake w checks h = ground arith
  step-Awake w rechecks h = ground arith
  step-Awake w retries h = ground arith
  step-Awake w leaves h = ground arith
  step-Awake w closes h = ground arith

  run-Awake : (w : World M) (ss : List (Step M)) → Awake w → Awake (run w ss)
  unfolding run
  run-Awake w [] h = h
  run-Awake w (s ∷ ss) h = run-Awake (step w s) ss (step-Awake w s h)

  fresh-Awake : (x y : ℤ) → Awake (fresh x y)
  unfolding new_connection
  fresh-Awake x y = ground arith

  empty_of_length : (l : List M) → ¬ (0 < length l) → l ≡ []
  empty_of_length [] h = refl
  empty_of_length (m ∷ l) h = absurd (h (omega arith))

  -- After any interleaving of senders and writers on a new connection: while it is open, a set flag
  -- belongs to an active writer, and a queue that holds a message will be looked at by some goroutine.
  -- Each queue holds what was sent and not yet taken, in its order, within its capacity.
  pub run-fresh-Awake : (x y : ℤ) (ss : List (Step M)) → Awake (run (fresh x y) ss)
  run-fresh-Awake x y ss = run-Awake (fresh x y) ss (fresh-Awake x y)

  -- Whenever no goroutine of an open connection is between its send and `ensureWriter`, or in `writePump`
  -- other than leaving it, every message that was accepted has been taken for writing, each queue's in
  -- its order: no wakeup is lost.
  pub run-fresh-quiet :
      (x y : ℤ) (ss : List (Step M))
      → let w = run (fresh x y) ss in
        w.conn.closed ≡ false
        → w.wakers + w.active + w.checking + w.rechecking + w.retrying ≡ 0
        → (w.taken_sent ≡ w.sent) × (w.taken_broadcasted ≡ w.broadcasted)
  run-fresh-quiet x y ss o q =
      let w = run (fresh x y) ss in
      let h = run-fresh-Awake x y ss in
      let s = empty_of_length w.conn.send (λ n. omega (arith, h.send_seen o n, q)) in
      let b = empty_of_length w.conn.broadcast (λ n. omega (arith, h.broadcast_seen o n, q)) in
      (
        sym (h.send_fifo ∙ ap (λ l. w.taken_sent ++ l) s ∙ append-nil w.taken_sent),
        sym (
            h.broadcast_fifo
            ∙ ap (λ l. w.taken_broadcasted ++ l) b
            ∙ append-nil w.taken_broadcasted),
      )

  -- `SendRaw` on an open connection is the two steps of a sender with nothing in between, and
  -- `SendPrepared` and the server's broadcast likewise: the same connection, the same writer started, and
  -- an error exactly if the message was not accepted.
  pub send_raw-step :
      (w : World M) (m : M)
      → w.conn.closed ≡ false
      → w.wakers ≡ 0
      → let (c, err, started) = send_raw m w.conn in
        let (d, err', started') = enqueue_broadcast m true w.conn in
        let v = step (step w (sends m)) wakes in
        let u = step (step w (broadcasts m)) wakes in
        let (e, err'', started'') = send_broadcast_message m w.conn in
        (c ≡ v.conn)
        × (v.active ≡ (if started then w.active + 1 else w.active))
        × (v.sent ≡ (if is_none err then w.sent ++ m ∷ [] else w.sent))
        × (d ≡ u.conn)
        × (u.active ≡ (if started' then w.active + 1 else w.active))
        × (u.broadcasted ≡ (if is_none err' then w.broadcasted ++ m ∷ [] else w.broadcasted))
        × (e ≡ u.conn)
        × (is_none err'' ≡ is_none err')
        × (started'' ≡ started')
  unfolding send_broadcast_message try_serve_writer_inline send_raw enqueue_broadcast step push_send
      push_broadcast ensure_writer
  send_raw-step w m o n = ground arith
