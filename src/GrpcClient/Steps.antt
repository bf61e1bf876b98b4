-- ===== src/GrpcClient/Steps.antt =====
-- client/grpc/client.go: the steps of Reconnect and Close, from any number of goroutines.
use grodyia.Prelude.{◌≡◌, ℕ, suc, ◌<◌, Bool, true, false}
use grodyia.GrpcClient.{Client, connect, drop_conn, close_conn}

-- One atomic part of a call.
pub data Step : Client → Client → Type 0 where
  -- `c.closed.Load()` is false: the call goes on. Where it is true Reconnect returns its error.
  reconnect_begins : (c : Client) → c.closed ≡ false → Step c (record c { checked = suc c.checked })
  -- CompareAndSwap(false, true)
  reconnect_wins :
      (c : Client) (n : ℕ)
      → c.checked ≡ suc n
      → c.reconnecting ≡ false
      → Step c (record c { checked = n; won = suc c.won; reconnecting = true })
  reconnect_loses :
      (c : Client) (n : ℕ)
      → c.checked ≡ suc n
      → c.reconnecting ≡ true
      → Step c (record c { checked = n })
  reconnect_drops :
      (c : Client) (n : ℕ)
      → c.won ≡ suc n
      → Step c (drop_conn (record c { won = n; dropped = suc c.dropped }))
  reconnect_dials :
      (c : Client) (n : ℕ) (reachable : Bool)
      → c.dropped ≡ suc n
      → Step c (connect reachable (record c { dropped = n; dialed = suc c.dialed }))
  -- The deferred `c.reconnecting.Store(false)`
  reconnect_ends :
      (c : Client) (n : ℕ)
      → c.dialed ≡ suc n
      → Step c (record c { dialed = n; reconnecting = false })
  -- `c.closed.Store(true)`
  close_begins : (c : Client) → Step c (record c { closed = true; marked = suc c.marked })
  -- The `select`: stopCh is closed already, or not.
  close_passes :
      (c : Client) (n : ℕ)
      → c.marked ≡ suc n
      → c.stopped ≡ true
      → Step c (record c { marked = n; closing = suc c.closing })
  close_chooses :
      (c : Client) (n : ℕ)
      → c.marked ≡ suc n
      → c.stopped ≡ false
      → Step c (record c { marked = n; stopping = suc c.stopping })
  -- `close(c.stopCh)`
  close_stops :
      (c : Client) (n : ℕ)
      → c.stopping ≡ suc n
      → c.stopped ≡ false
      → Step c (record c { stopping = n; stopped = true; closing = suc c.closing })
  close_ends :
      (c : Client) (n : ℕ)
      → c.closing ≡ suc n
      → Step c (close_conn (record c { closing = n; finished = suc c.finished }))

pub data Reach (b : Client) : Client → Type 0 where
  here : Reach b b
  next : {c d : Client} → Reach b c → Step c d → Reach b d

-- A call is about to close stopCh, which is closed: it panics.
abbrev pub Panics : Client → Type 0
Panics c = (0 < c.stopping) × (c.stopped ≡ true)
