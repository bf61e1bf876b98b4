-- ===== src/Outbound/Pings.antt =====
-- transport/ws/connection.go: when the heartbeat queues pings.
use grodyia.Prelude.{
  subst, sym, ℕ, ◌+◌, ◌≤◌, ◌<◌, ◌≡◌, refl, Bool, true, false, List, [], ◌∷◌, arith, ◌⊎◌,
  if◌then◌else◌, nat_eq,
}
use grodyia.Outbound.{Connection, schedule_ping, bump_next_ping, push_send, ensure_writer}

-- A tick of the scheduler and a pong, or the start of `readPump`, at their times, and a writer that
-- empties the channel.
pub data Event : Type 0 where
  tick pong : ℕ → Event
  flush : Event

-- `pinged` holds the times at which pings were queued, the last one first.
pub record Beat (M : Type 0) : Type 0 where
  pub conn : Connection M
  pub pinged : List ℕ

-- Each time is at least `interval` after the one before it.
abbrev pub Spaced : ℕ → List ℕ → Type 0
Spaced interval [] = Unit
Spaced interval (t ∷ []) = Unit
Spaced interval (t ∷ s ∷ ts) = (s + interval ≤ t) × Spaced interval (s ∷ ts)

-- The times of the events do not go back before `clock`.
abbrev pub Forward : ℕ → List Event → Type 0
Forward clock [] = Unit
Forward clock (tick t ∷ es) = (clock ≤ t) × Forward t es
Forward clock (pong t ∷ es) = (clock ≤ t) × Forward t es
Forward clock (flush ∷ es) = Forward clock es

module _ {M : Type 0} (ping : M) (interval : ℕ) where
  unfoldable pub beat : Beat M → Event → Beat M
  beat b (tick t) =
      let (c, queued, started) = schedule_ping ping t interval b.conn in
      record { conn = c; pinged = if queued then t ∷ b.pinged else b.pinged }
  beat b (pong t) = record b { conn = bump_next_ping t interval b.conn }
  beat b flush = record b { conn = record b.conn { send = [] } }

  unfoldable pub beats : Beat M → List Event → Beat M
  beats b [] = b
  beats b (e ∷ es) = beats (beat b e) es

  -- No ping was queued after `clock`, and the next one is due `interval` after the last one or later.
  abbrev Due : ℕ → ℕ → List ℕ → Type 0
  Due clock next [] = Unit
  Due clock next (t ∷ ts) = (t ≤ clock) × (t + interval ≤ next)

  record Inv (clock : ℕ) (next : ℕ) (ts : List ℕ) : Type 0 where
    pub spaced : Spaced interval ts
    pub due : Due clock next ts

  -- What a tick does to the time of the next ping.
  tick_lem :
      (c : Connection M) (t : ℕ)
      → let (d, queued, started) = schedule_ping ping t interval c in
        (queued ≡ true
          → (0 < interval)
            × (c.next_ping_at ≤ t)
            × (0 < c.next_ping_at)
            × (d.next_ping_at ≡ t + interval))
        × (queued ≡ false → (d.next_ping_at ≡ c.next_ping_at) ⊎ (d.next_ping_at ≡ t + interval))
  unfolding schedule_ping push_send ensure_writer
  tick_lem c t = ground arith

  -- A tick that queued a ping, and one that did not.
  queued-Inv :
      (clock next t : ℕ) (ts : List ℕ)
      → Inv clock next ts
      → clock ≤ t
      → next ≤ t
      → Inv t (t + interval) (t ∷ ts)
  queued-Inv clock next t [] h f g = ground arith
  queued-Inv clock next t (s ∷ ts) h f g = ground arith

  quiet-Inv :
      (clock next next' t : ℕ) (ts : List ℕ)
      → Inv clock next ts
      → clock ≤ t
      → (next' ≡ next) ⊎ (next' ≡ t + interval)
      → Inv t next' ts
  quiet-Inv clock next next' t [] h f g = ground arith
  quiet-Inv clock next next' t (s ∷ ts) h f g = ground arith

  abbrev BeatInv : ℕ → Beat M → Type 0
  BeatInv clock b = Inv clock b.conn.next_ping_at b.pinged

  tick-Inv :
      (clock t : ℕ) (b : Beat M) (r : Connection M × Bool × Bool)
      → schedule_ping ping t interval b.conn ≡ r
      → BeatInv clock b
      → clock ≤ t
      → Inv t r.0.next_ping_at (if r.1 then t ∷ b.pinged else b.pinged)
  tick-Inv clock t b (c, true, started) e h f =
      let k =
        subst
          (λ r.
            r.1 ≡ true
            → (0 < interval)
              × (b.conn.next_ping_at ≤ t)
              × (0 < b.conn.next_ping_at)
              × (r.0.next_ping_at ≡ t + interval))
          e (tick_lem b.conn t).0 refl in
      subst (λ n. Inv t n (t ∷ b.pinged)) (sym k.3)
        (queued-Inv clock b.conn.next_ping_at t b.pinged h f k.1)
  tick-Inv clock t b (c, false, started) e h f =
      quiet-Inv clock b.conn.next_ping_at c.next_ping_at t b.pinged h f (
        subst
          (λ r.
            r.1 ≡ false
            → (r.0.next_ping_at ≡ b.conn.next_ping_at) ⊎ (r.0.next_ping_at ≡ t + interval))
          e (tick_lem b.conn t).1 refl)

  pong_lem :
      (c : Connection M) (t : ℕ)
      → let n = (bump_next_ping t interval c).next_ping_at in
        (n ≡ c.next_ping_at) ⊎ (n ≡ t + interval)
  unfolding bump_next_ping
  pong_lem c t = ground arith

  beats-Spaced_from :
      (clock : ℕ) (b : Beat M) (es : List Event)
      → BeatInv clock b
      → Forward clock es
      → Spaced interval (beats b es).pinged
  unfolding beats beat
  beats-Spaced_from clock b [] h f = h.spaced
  beats-Spaced_from clock b (tick t ∷ es) h f =
      beats-Spaced_from t _ es
        (tick-Inv clock t b (schedule_ping ping t interval b.conn) refl h f.0) f.1
  beats-Spaced_from clock b (pong t ∷ es) h f =
      beats-Spaced_from t _ es
        (quiet-Inv clock b.conn.next_ping_at _ t b.pinged h f.0 (pong_lem b.conn t)) f.1
  beats-Spaced_from clock b (flush ∷ es) h f = beats-Spaced_from clock _ es h f

  -- If time does not go back, then over any history of ticks, pongs and writes on a connection two pings
  -- are never queued less than `interval` apart.
  pub beats-Spaced :
      (c : Connection M) (es : List Event)
      → Forward 0 es
      → Spaced interval (beats (record { conn = c; pinged = [] }) es).pinged
  beats-Spaced c es f =
      beats-Spaced_from 0 (record { conn = c; pinged = [] }) es (record { spaced = tt; due = tt }) f
