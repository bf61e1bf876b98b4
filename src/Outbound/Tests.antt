-- ===== src/Outbound/Tests.antt =====
-- A connection with five messages, and the theorems at it.
use grodyia.Prelude.{ℕ, ◌≡◌, ◌≢◌, refl, true, List, [], ◌∷◌, arith, if◌then◌else◌}
use grodyia.Prelude.Int.{pos}
use grodyia.Outbound.{
  Pump, something, new_connection, drain_pending_writes, write_pump, send_raw, enqueue_broadcast,
  send_broadcast_message, schedule_ping, push_send, ensure_writer, bump_next_ping,
}
use grodyia.Outbound.Round.{Round, drain-Round}
use grodyia.Outbound.Writer.{Drained, write_pump-Drained, write_pump-stops}
use grodyia.Outbound.Wakeup.{
  World, Step, sends, broadcasts, wakes, takes_sent, rests, checks, rechecks, leaves, step, run,
  fresh,
}
use grodyia.Outbound.Awake.{Awake, run-fresh-Awake, run-fresh-quiet, send_raw-step, is_none}
use grodyia.Outbound.Pings.{beat, Event, tick, pong, flush, Spaced, beats, beats-Spaced}

abbrev pump : Pump ℕ
pump = record { send = 1 ∷ 2 ∷ []; broadcast = 11 ∷ 12 ∷ 13 ∷ []; written = []; left = 5 }

-- Direct messages go first.
pump_writes : (write_pump 6 pump).0.written ≡ 1 ∷ 2 ∷ 11 ∷ 12 ∷ 13 ∷ []
unfolding write_pump drain_pending_writes
pump_writes = refl

drain-Round_example : Round pump (drain_pending_writes pump)
drain-Round_example = drain-Round pump

write_pump-Drained_example : Drained pump (write_pump 6 pump)
write_pump-Drained_example = write_pump-Drained 6 pump (omega arith) (omega arith)

pump_ended : (write_pump 3 (record pump { left = 2 })).1 ≢ something
pump_ended = write_pump-stops 3 (record pump { left = 2 }) (omega arith)

-- A writer takes the message, finds nothing more and leaves.
abbrev story : List (Step ℕ)
story = sends 7 ∷ wakes ∷ takes_sent ∷ rests ∷ checks ∷ rechecks ∷ leaves ∷ []

story-Awake : Awake (run (fresh {M = ℕ} (pos 2) (pos 1)) story)
story-Awake = run-fresh-Awake (pos 2) (pos 1) story

run-fresh-quiet_example :
    ((run (fresh {M = ℕ} (pos 2) (pos 1)) story).taken_sent
      ≡ (run (fresh {M = ℕ} (pos 2) (pos 1)) story).sent)
    × ((run (fresh {M = ℕ} (pos 2) (pos 1)) story).taken_broadcasted
        ≡ (run (fresh {M = ℕ} (pos 2) (pos 1)) story).broadcasted)
unfolding run step push_send new_connection ensure_writer
run-fresh-quiet_example = run-fresh-quiet (pos 2) (pos 1) story refl refl

-- The first writer has cleared the flag and is about to return when a second one starts; its deferred
-- store clears the flag of the second, and a third writer starts beside it.
two_writers :
    (run (fresh {M = ℕ} (pos 2) (pos 1)) (
      sends 1
      ∷ wakes
      ∷ takes_sent
      ∷ rests
      ∷ checks
      ∷ rechecks
      ∷ sends 2
      ∷ wakes
      ∷ leaves
      ∷ sends 3
      ∷ wakes
      ∷ [])).active
    ≡ 2
unfolding run step new_connection push_send ensure_writer
two_writers = refl

abbrev open_world : World ℕ
open_world = fresh (pos 2) (pos 1)

both_views :
    let w = open_world in
    let (c, err, started) = send_raw 7 w.conn in
    let (d, err', started') = enqueue_broadcast 7 true w.conn in
    let v = step (step w (sends 7)) wakes in
    let u = step (step w (broadcasts 7)) wakes in
    let (e, err'', started'') = send_broadcast_message 7 w.conn in
    (c ≡ v.conn)
    × (v.active ≡ (if started then 1 else 0))
    × (v.sent ≡ (if is_none err then 7 ∷ [] else []))
    × (d ≡ u.conn)
    × (u.active ≡ (if started' then 1 else 0))
    × (u.broadcasted ≡ (if is_none err' then 7 ∷ [] else []))
    × (e ≡ u.conn)
    × (is_none err'' ≡ is_none err')
    × (started'' ≡ started')
unfolding new_connection
both_views = send_raw-step open_world 7 refl refl

-- A pong puts the next ping off.
abbrev heartbeats : List Event
heartbeats = tick 1 ∷ tick 11 ∷ flush ∷ tick 12 ∷ pong 13 ∷ tick 22 ∷ tick 23 ∷ []

pinged_at :
    (beats {M = ℕ} 0 10
      (record { conn = new_connection (pos 2) (pos 1); pinged = [] })
      heartbeats).pinged
    ≡ 23 ∷ 11 ∷ []
unfolding beats beat schedule_ping bump_next_ping new_connection push_send ensure_writer
pinged_at = refl

beats-Spaced_example :
    Spaced 10
      (beats {M = ℕ} 0 10
        (record { conn = new_connection (pos 2) (pos 1); pinged = [] })
        heartbeats).pinged
beats-Spaced_example = beats-Spaced 0 10 (new_connection (pos 2) (pos 1)) heartbeats (omega arith)
