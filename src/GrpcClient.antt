-- ===== src/GrpcClient.antt =====
-- client/grpc/client.go: the connection of a gRPC client, which Reconnect, the connection monitor and Close
-- change at once. A part of a call that is atomic, one operation on an atomic flag or one section under the
-- mutex, is one step; the numbers of the state count the calls between two such parts. The options of the
-- dial, TLS and the log are left out, and `Call` is with the retry loops.
pub mod Steps
pub mod Invariant
pub mod Quiet
mod Tests
use grodyia.Prelude.{ℕ, suc, ◌+◌, Bool, true, false, ◌||◌, Option, none, some, if◌then◌else◌}

-- `conn` is the connection and whether it is still open, `leaked` counts the open connections that the
-- client has no more, `stopped` says that stopCh is closed.
pub record Client : Type 0 where
  pub conn : Option Bool
  pub leaked : ℕ
  pub closed : Bool
  pub reconnecting : Bool
  pub stopped : Bool
  pub checked : ℕ  -- Reconnect, before its CompareAndSwap
  pub won : ℕ  -- Reconnect, before it drops the connection
  pub dropped : ℕ  -- Reconnect, before it dials
  pub dialed : ℕ  -- Reconnect, before it gives the flag back
  pub marked : ℕ  -- Close, before its select
  pub stopping : ℕ  -- Close, before close(stopCh)
  pub closing : ℕ  -- Close, before it takes the mutex
  pub finished : ℕ  -- Close, returned

-- The connection is open.
unfoldable pub is_open : Option Bool → Bool
is_open none = false
is_open (some open_now) = open_now

-- `connect`: a dial that succeeds replaces the connection and does not close it.
unfoldable pub connect : Bool → Client → Client
unfolding is_open
connect reachable c =
    if reachable
    then (record c { conn = some true; leaked = if is_open c.conn then suc c.leaked else c.leaked })
    else c

-- `NewClient`, where its dial succeeds.
unfoldable pub new_client : Client
new_client = record {
  conn = some true;
  leaked = 0;
  closed = false;
  reconnecting = false;
  stopped = false;
  checked = 0;
  won = 0;
  dropped = 0;
  dialed = 0;
  marked = 0;
  stopping = 0;
  closing = 0;
  finished = 0;
}

-- `c.conn.Close()` where there is a connection; the client keeps the closed one.
unfoldable pub close_conn : Client → Client
close_conn c = elim c.conn [ none ↦ c | some open_now ↦ record c { conn = some false } ]

-- `c.conn = nil`
unfoldable pub forget_conn : Client → Client
unfolding is_open
forget_conn c = record c { conn = none; leaked = if is_open c.conn then suc c.leaked else c.leaked }

-- The section of Reconnect that closes the connection and forgets it.
unfoldable pub drop_conn : Client → Client
unfolding close_conn forget_conn
drop_conn c = forget_conn (close_conn c)

-- The states of a connection, in the order of gRPC's `connectivity`.
pub data Connectivity : Type 0 where
  idle connecting ready transient_failure shutdown : Connectivity

is_ready : Connectivity → Bool
is_ready idle = false
is_ready connecting = false
is_ready ready = true
is_ready transient_failure = false
is_ready shutdown = false

-- `IsConnected`; the state is that of the connection, where there is one.
unfoldable pub is_connected : Connectivity → Client → Bool
unfolding is_ready
is_connected state c = elim c.conn [ none ↦ false | some open_now ↦ is_ready state ]

pub data Tick : Type 0 where
  ends stays reconnects : Tick

on_state : Connectivity → Tick
on_state idle = stays
on_state connecting = stays
on_state ready = stays
on_state transient_failure = reconnects
on_state shutdown = reconnects

-- One turn of connectionMonitor; with `stopped` and a tick both ready it may also take the tick, and then
-- `closed`, which Close has set before, ends it.
unfoldable pub monitor_tick : Connectivity → Client → Tick
unfolding on_state
monitor_tick state c =
    if c.stopped || c.closed
    then ends
    else elim c.conn [ none ↦ reconnects | some open_now ↦ on_state state ]
