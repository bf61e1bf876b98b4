-- ===== src/GrpcClient/Invariant.antt =====
-- client/grpc/client.go: one Reconnect at a time, and no connection that is lost open.
use grodyia.Prelude.{◌≡◌, arith, ℕ, suc, ◌+◌, ◌<◌, ◌≤◌, Bool, true, false, if◌then◌else◌}
use grodyia.GrpcClient.{Client, new_client, connect, drop_conn, forget_conn, close_conn, is_open}
use grodyia.GrpcClient.Steps.{
  Step, Reach, here, next, reconnect_begins, reconnect_wins, reconnect_loses, reconnect_drops,
  reconnect_dials, reconnect_ends, close_begins, close_passes, close_chooses, close_stops,
  close_ends,
}

-- Whether a step of Reconnect or Close is under way or has been taken.
pub record Inv (c : Client) : Type 0 where
  pub exclusive : c.won + c.dropped + c.dialed ≡ (if c.reconnecting then 1 else 0)
  pub emptied : 0 < c.dropped → is_open c.conn ≡ false
  pub none_lost : c.leaked ≡ 0
  pub was_marked : 0 < c.marked + c.stopping + c.closing + c.finished → c.closed ≡ true

connect-Inv :
    (reachable : Bool) (c : Client) (n : ℕ)
    → Inv c
    → c.dropped ≡ suc n
    → Inv (connect reachable (record c { dropped = n; dialed = suc c.dialed }))
unfolding connect is_open
connect-Inv true c n h e = record {
  exclusive = ground (arith, h.exclusive);
  emptied = ground (arith, h.exclusive);
  none_lost = ground (arith, h.none_lost, h.emptied);
  was_marked = ground (arith, h.was_marked);
}
connect-Inv false c n h e = record {
  exclusive = ground (arith, h.exclusive);
  emptied = ground (arith, h.exclusive);
  none_lost = h.none_lost;
  was_marked = ground (arith, h.was_marked);
}

step-Inv : {c d : Client} → Step c d → Inv c → Inv d
unfolding drop_conn forget_conn close_conn is_open
step-Inv (reconnect_begins c e) h = ground arith
step-Inv (reconnect_wins c n e f) h = ground arith
step-Inv (reconnect_loses c n e f) h = ground arith
step-Inv (reconnect_drops c n e) h = ground arith
step-Inv (reconnect_dials c n reachable e) h = connect-Inv reachable c n h e
step-Inv (reconnect_ends c n e) h = ground arith
step-Inv (close_begins c) h = ground arith
step-Inv (close_passes c n e f) h = ground arith
step-Inv (close_chooses c n e f) h = ground arith
step-Inv (close_stops c n e f) h = ground arith
step-Inv (close_ends c n e) h = ground arith

reach-Inv : {b c : Client} → Inv b → Reach b c → Inv c
reach-Inv h here = h
reach-Inv h (next r st) = step-Inv st (reach-Inv h r)

new_client-Inv : Inv new_client
unfolding new_client is_open
new_client-Inv = ground arith

-- However the calls of Reconnect and Close interleave after NewClient, from any number of goroutines and
-- whichever dials succeed: at most one Reconnect is past its CompareAndSwap; no connection that the
-- client has replaced is still open; and where a Close has begun the client is closed.
pub reach-new_client :
    (c : Client)
    → Reach new_client c
    → (c.won + c.dropped + c.dialed ≤ 1)
      × (c.leaked ≡ 0)
      × (0 < c.marked + c.stopping + c.closing + c.finished → c.closed ≡ true)
reach-new_client c r =
    let h = reach-Inv new_client-Inv r in (ground (arith, h.exclusive), h.none_lost, h.was_marked)
