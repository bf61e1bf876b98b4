-- ===== src/WsClient.antt =====
-- client/ws/client.go: the client's connection, its reconnection and its channel. `M` is the type of the
-- messages. A section under the mutex is one function; dialing and the socket are parameters, and a
-- connection is the number under which it was dialed.
pub mod Machine
pub mod Invariant
pub mod Settled
mod Tests
use grodyia.Prelude.{
  ℕ, suc, ◌+◌, Bool, true, false, ◌&&◌, ◌||◌, not, List, [], ◌∷◌, ◌++◌, Option, none, some,
  if◌then◌else◌, length, ltb, leb,
}
use grodyia.Prelude.Int.{ℤ, pos, leb_ℤ, ltb_ℤ}

-- The capacity of the channel made by `NewClient`.
abbrev pub send_capacity : ℕ
send_capacity = 256

pub record Options : Type 0 where
  pub auto_reconnect : Bool
  pub max_reconnect_attempts : ℤ

-- `done` says that `c.done` is closed.
pub record Client (M : Type 0) : Type 0 where
  pub opts : Options
  pub conn : Option ℕ
  pub send : List M
  pub done : Bool
  pub closed : Bool
  pub connected : Bool
  pub reconnecting : Bool
  pub reconnect_count : ℕ

pub data SendError : Type 0 where
  not_connected client_closed buffer_full : SendError

module _ {M : Type 0} where
  unfoldable pub new_client : Options → Client M
  new_client opts = record {
    opts = opts;
    conn = none;
    send = [];
    done = false;
    closed = false;
    connected = false;
    reconnecting = false;
    reconnect_count = 0;
  }

  -- `connect`, where `dialed` is the connection that `Dial` returns: the client, whether it dialed with
  -- success, and whether it returned nil.
  unfoldable pub connect : Option ℕ → Client M → Client M × Bool × Bool
  connect dialed c = if c.connected then (c, false, true) else elim dialed [
    | none ↦ (c, false, false)
    | some id ↦ (record c { conn = some id; connected = true; reconnect_count = 0 }, true, true)
  ]

  -- The first section of `Close`: whether it goes on.
  unfoldable pub begin_close : Client M → Client M × Bool
  begin_close c = if c.closed then (c, false) else (record c { closed = true }, true)

  -- `close(c.done)`, a panic if it is closed already.
  unfoldable pub close_done : Client M → Option (Client M)
  close_done c = if c.done then none else some (record c { done = true })

  -- The last section of `Close`: whether the client was connected.
  unfoldable pub end_close : Client M → Client M × Bool
  end_close c = (record c { connected = false }, c.connected)

  -- The first section of `handleDisconnect`: whether the client was connected.
  unfoldable pub drop_connection : Client M → Client M × Bool
  drop_connection c = (record c { connected = false; conn = none }, c.connected)

  -- The end of `handleDisconnect`: whether it starts `reconnect`.
  unfoldable pub wants_reconnect : Client M → Bool
  wants_reconnect c = not c.closed && c.opts.auto_reconnect

  -- The first section of `reconnect`: whether it enters the loop.
  unfoldable pub begin_reconnect : Client M → Client M × Bool
  begin_reconnect c =
      if c.reconnecting || c.closed then (c, false) else (record c { reconnecting = true }, true)

  -- The tests at the head of the loop: whether it makes another attempt.
  unfoldable pub may_attempt : Client M → Bool
  may_attempt c =
      not c.closed
      && not (
          ltb_ℤ (pos 0) c.opts.max_reconnect_attempts
          && leb_ℤ c.opts.max_reconnect_attempts (pos c.reconnect_count))

  unfoldable pub count_attempt : Client M → Client M
  count_attempt c = record c { reconnect_count = c.reconnect_count + 1 }

  unfoldable pub end_reconnect : Client M → Client M
  end_reconnect c = record c { reconnecting = false }

  -- `SendRaw`; with `done` closed and room in the channel either case of the `select` may be taken.
  unfoldable pub send_raw : Bool → M → Client M → Client M × Option SendError
  send_raw prefer_done m c =
      let room = ltb (length c.send) send_capacity in
      if not c.connected
      then (c, some not_connected)
      else if c.done && (prefer_done || not room)
      then (c, some client_closed)
      else if room
      then (record c { send = c.send ++ m ∷ [] }, none)
      else (c, some buffer_full)
