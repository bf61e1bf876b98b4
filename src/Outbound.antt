-- ===== src/Outbound.antt =====
-- transport/ws/connection.go: the outbound side of a WebSocket connection. `M` is the type of
-- `outboundMessage`. The socket is a number of writes that still succeed; the write after those fails.
-- The channels are never closed, so the branches for a closed channel are left out. A channel is the
-- list of what it holds, oldest first, and the broadcast channel that is not yet made holds nothing.
pub mod Merge
pub mod Drain
pub mod Round
pub mod Writer
pub mod Wakeup
pub mod Awake
pub mod Pings
mod Tests
use grodyia.Prelude.{
  ℕ, zero, suc, ◌+◌, ◌-◌, ◌%◌, Bool, true, false, ◌&&◌, ◌||◌, not, List, [], ◌∷◌, ◌++◌, Option,
  none, some, if◌then◌else◌, nat_eq, ◌==◌, length, leb, ltb,
}
use grodyia.Prelude.Int.{ℤ, pos, negsuc}

abbrev pub default_send_queue_size : ℕ
default_send_queue_size = 64

abbrev pub default_broadcast_queue_size : ℕ
default_broadcast_queue_size = 32

abbrev pub default_broadcast_batch_size : ℕ
default_broadcast_batch_size = 32

abbrev pub default_direct_drain_burst : ℕ
default_direct_drain_burst = 4

abbrev pub default_direct_send_priority : ℕ
default_direct_send_priority = 1

abbrev pub broadcast_preempt_every : ℕ
broadcast_preempt_every = 8

-- `next_ping_at` is 0 before the first ping is scheduled.
pub record Connection (M : Type 0) : Type 0 where
  pub send_cap : ℕ
  pub broadcast_cap : ℕ
  pub send : List M
  pub broadcast : List M
  pub closed : Bool
  pub writer_running : Bool
  pub next_ping_at : ℕ

pub data SendError : Type 0 where
  connection_closed buffer_full : SendError

-- `if server.opts.SendQueueSize > 0`
unfoldable pub queue_size : ℕ → ℤ → ℕ
queue_size default (pos zero) = default
queue_size default (pos (suc n)) = suc n
queue_size default (negsuc n) = default

-- The socket with the queues, as the writer finds them: `left` writes succeed.
pub record Pump (M : Type 0) : Type 0 where
  pub send : List M
  pub broadcast : List M
  pub written : List M
  pub left : ℕ

-- The result of a part of the writer: whether it wrote, or its error.
pub data Wrote : Type 0 where
  nothing something failed : Wrote

module _ {M : Type 0} where
  -- `newConnection`, by the two options of the server.
  unfoldable pub new_connection : ℤ → ℤ → Connection M
  unfolding queue_size
  new_connection send_queue_size broadcast_queue_size = record {
    send_cap = queue_size default_send_queue_size send_queue_size;
    broadcast_cap = queue_size default_broadcast_queue_size broadcast_queue_size;
    send = [];
    broadcast = [];
    closed = false;
    writer_running = false;
    next_ping_at = 0;
  }

  -- The loop of `tryWriteDirectBurst`, which has written before if `wrote`.
  burst_on : List M → List M → List M → ℕ → ℕ → Wrote → Pump M × Wrote
  burst_on send broadcast written left zero wrote =
      (record { send = send; broadcast = broadcast; written = written; left = left }, wrote)
  burst_on [] broadcast written left (suc limit) wrote =
      (record { send = []; broadcast = broadcast; written = written; left = left }, wrote)
  burst_on (m ∷ send) broadcast written zero (suc limit) wrote =
      (record { send = send; broadcast = broadcast; written = written; left = 0 }, failed)
  burst_on (m ∷ send) broadcast written (suc left) (suc limit) wrote =
      burst_on send broadcast (written ++ m ∷ []) left limit something

  unfoldable pub try_write_direct_burst : ℕ → Pump M → Pump M × Wrote
  unfolding burst_on
  try_write_direct_burst limit p = burst_on p.send p.broadcast p.written p.left limit nothing

  -- A write of a broadcast message taken from its channel, whose rest is `broadcast`.
  write_broadcast_on : M → List M → List M → List M → ℕ → Pump M × Wrote
  write_broadcast_on m send broadcast written zero =
      (record { send = send; broadcast = broadcast; written = written; left = 0 }, failed)
  write_broadcast_on m send broadcast written (suc left) = (
    record { send = send; broadcast = broadcast; written = written ++ m ∷ []; left = left },
    something,
  )

  -- The next broadcast message, if there is one; `nothing` is the `default` of the `select`.
  next_broadcast_in : List M → Pump M → Pump M × Wrote
  unfolding write_broadcast_on
  next_broadcast_in [] p = (p, nothing)
  next_broadcast_in (m ∷ rest) p = write_broadcast_on m p.send rest p.written p.left

  unfoldable pub next_broadcast : Pump M → Pump M × Wrote
  unfolding next_broadcast_in
  next_broadcast p = next_broadcast_in p.broadcast p

  -- The last burst of `writeBroadcastBatch`; the batch has written.
  last_burst : Pump M → Pump M × Wrote
  unfolding try_write_direct_burst
  last_burst p =
      let (q, wrote) = try_write_direct_burst default_direct_drain_burst p in
      elim wrote [ nothing ↦ (q, something) | something ↦ (q, something) | failed ↦ (q, failed) ]

  preempt : ℕ → Pump M → Pump M × Wrote
  unfolding try_write_direct_burst
  preempt i p =
      if i % broadcast_preempt_every == 0
      then try_write_direct_burst default_direct_drain_burst p
      else (p, nothing)

  -- The rounds `i`, `i + 1`, … of the loop of `writeBroadcastBatch`, as many as the first argument.
  unfoldable pub batch_from : ℕ → ℕ → Pump M → Pump M × Wrote
  unfolding last_burst preempt next_broadcast
  batch_from zero i p = last_burst p
  batch_from (suc rounds) i p =
      let (q, before) = preempt i p in
      let (r, taken) = next_broadcast q in
      elim before [
        | failed ↦ (q, failed)
        | _ ↦ elim taken [
          | nothing ↦ last_burst r
          | something ↦ batch_from rounds (i + 1) r
          | failed ↦ (r, failed)
        ]
      ]

  -- `drainPendingWrites` from the `select` on, with `writeBroadcastBatch` for the message that it takes.
  unfoldable pub drain_broadcast : Pump M → Pump M × Wrote
  unfolding next_broadcast batch_from
  drain_broadcast p =
      let (q, first) = next_broadcast p in
      elim first [
        | nothing ↦ (q, nothing)
        | something ↦ batch_from (default_broadcast_batch_size - 1) 1 q
        | failed ↦ (q, failed)
      ]

  -- `drainPendingWrites`
  unfoldable pub drain_pending_writes : Pump M → Pump M × Wrote
  unfolding try_write_direct_burst drain_broadcast
  drain_pending_writes p =
      let (q, direct) = try_write_direct_burst default_direct_send_priority p in
      let rest = drain_broadcast q in
      elim direct [ failed ↦ (q, failed) | something ↦ (q, something) | nothing ↦ rest ]

  -- The loop of `writePump` while nobody sends: it ends when a round writes nothing or fails.
  unfoldable pub write_pump : ℕ → Pump M → Pump M × Wrote
  unfolding drain_pending_writes
  write_pump zero p = (p, something)
  write_pump (suc fuel) p =
      let (q, wrote) = drain_pending_writes p in
      elim wrote [ nothing ↦ (q, nothing) | something ↦ write_pump fuel q | failed ↦ (q, failed) ]

  -- The `select` of `Send` and `SendRaw`, and that of `enqueueBroadcast`.
  unfoldable pub push_send : M → Connection M → Connection M × Bool
  push_send m c =
      if ltb (length c.send) c.send_cap
      then (record c { send = c.send ++ m ∷ [] }, true)
      else (c, false)

  unfoldable pub push_broadcast : M → Connection M → Connection M × Bool
  push_broadcast m c =
      if ltb (length c.broadcast) c.broadcast_cap
      then (record c { broadcast = c.broadcast ++ m ∷ [] }, true)
      else (c, false)

  -- `ensureWriter`: whether it starts a writer.
  unfoldable pub ensure_writer : Connection M → Connection M × Bool
  ensure_writer c =
      if c.closed || c.writer_running
      then (c, false)
      else (record c { writer_running = true }, true)

  -- `SendRaw`: its error, and whether it started a writer.
  unfoldable pub send_raw : M → Connection M → Connection M × Option SendError × Bool
  unfolding push_send ensure_writer
  send_raw m c =
      let (pushed, room) = push_send m c in
      let (woken, started) = ensure_writer pushed in
      if c.closed
      then (c, some connection_closed, false)
      else if room
      then (woken, none, started)
      else (c, some buffer_full, false)

  -- `enqueueBroadcast`
  unfoldable pub enqueue_broadcast :
      M → Bool → Connection M → Connection M × Option SendError × Bool
  unfolding push_broadcast ensure_writer
  enqueue_broadcast m start_writer c =
      let (pushed, room) = push_broadcast m c in
      let (woken, started) = if start_writer then ensure_writer pushed else (pushed, false) in
      if c.closed
      then (c, some connection_closed, false)
      else if room
      then (woken, none, started)
      else (c, some buffer_full, false)

  -- `tryServeWriterInline`, whose caller is then the writer.
  unfoldable pub try_serve_writer_inline : Connection M → Connection M × Option SendError × Bool
  unfolding ensure_writer
  try_serve_writer_inline c =
      let (woken, started) = ensure_writer c in
      if c.closed then (c, some connection_closed, false) else (woken, none, started)

  -- `sendBroadcastMessage` of transport/ws/ws.go.
  unfoldable pub send_broadcast_message : M → Connection M → Connection M × Option SendError × Bool
  unfolding enqueue_broadcast try_serve_writer_inline
  send_broadcast_message m c =
      let (queued, err, started) = enqueue_broadcast m false c in
      elim err [ none ↦ try_serve_writer_inline queued | some e ↦ (queued, some e, false) ]

  -- `schedulePing` at the time `now`, while nobody else writes `nextPingAt`: whether it queued a ping,
  -- and whether it started a writer.
  unfoldable pub schedule_ping : M → ℕ → ℕ → Connection M → Connection M × Bool × Bool
  unfolding push_send ensure_writer
  schedule_ping ping now interval c =
      let deadline = if c.next_ping_at == 0 then now + interval else c.next_ping_at in
      let armed = record c { next_ping_at = deadline } in
      let (pushed, room) = push_send ping (record c { next_ping_at = now + interval }) in
      let (woken, started) = ensure_writer pushed in
      if interval == 0 || c.closed
      then (c, false, false)
      else if ltb now deadline
      then (armed, false, false)
      else if room
      then (woken, true, started)
      else (armed, false, false)

  -- `bumpNextPing`
  unfoldable pub bump_next_ping : ℕ → ℕ → Connection M → Connection M
  bump_next_ping now interval c =
      if interval == 0 then c else record c { next_ping_at = now + interval }

  -- `Close`, under `c.once`.
  unfoldable pub close : Connection M → Connection M
  close c = record c { closed = true }
