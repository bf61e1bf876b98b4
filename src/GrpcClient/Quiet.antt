-- ===== src/GrpcClient/Quiet.antt =====
-- client/grpc/client.go: a closed client that nothing reconnects.
use grodyia.Prelude.{◌≡◌, arith, ℕ, suc, ◌+◌, ◌<◌, ◌≤◌, true, false}
use grodyia.GrpcClient.{Client, close_conn, is_open}
use grodyia.GrpcClient.Steps.{
  Step, Reach, here, next, reconnect_begins, reconnect_wins, reconnect_loses, reconnect_drops,
  reconnect_dials, reconnect_ends, close_begins, close_passes, close_chooses, close_stops,
  close_ends,
}

-- Close has begun, and every Reconnect that had begun before has made its dial or returned.
pub record IsQuiet (c : Client) : Type 0 where
  pub closed : c.closed ≡ true
  pub none_checked : c.checked ≡ 0
  pub none_won : c.won ≡ 0
  pub none_dropped : c.dropped ≡ 0

record Shut (finished dialed : ℕ) (c : Client) : Type 0 where
  quiet : IsQuiet c
  later : finished ≤ c.finished
  returned : dialed ≡ 0 → c.dialed ≡ 0
  shut : finished < c.finished → is_open c.conn ≡ false

close_ends-Shut :
    (f g n : ℕ) (c : Client)
    → Shut f g c
    → Shut f g (close_conn (record c { closing = n; finished = suc c.finished }))
unfolding close_conn is_open
close_ends-Shut f g n c h = ground (arith, h.later)

step-Shut : {c d : Client} (f g : ℕ) → Step c d → Shut f g c → Shut f g d
step-Shut f g (reconnect_begins c e) h = ground (arith, h.quiet)
step-Shut f g (reconnect_wins c n e k) h = ground (arith, h.quiet)
step-Shut f g (reconnect_loses c n e k) h = ground (arith, h.quiet)
step-Shut f g (reconnect_drops c n e) h = ground (arith, h.quiet)
step-Shut f g (reconnect_dials c n reachable e) h = ground (arith, h.quiet)
step-Shut f g (reconnect_ends c n e) h = ground (arith, h.quiet)
step-Shut f g (close_begins c) h = ground (arith, h.quiet)
step-Shut f g (close_passes c n e k) h = ground (arith, h.quiet)
step-Shut f g (close_chooses c n e k) h = ground (arith, h.quiet)
step-Shut f g (close_stops c n e k) h = ground (arith, h.quiet)
step-Shut f g (close_ends c n e) h = close_ends-Shut f g n c h

reach-Shut : {b c : Client} (f g : ℕ) → Shut f g b → Reach b c → Shut f g c
reach-Shut f g h here = h
reach-Shut f g h (next r st) = step-Shut f g st (reach-Shut f g h r)

-- From a client that is closed, where every Reconnect under way has made its dial: after any further steps
-- no Reconnect is under way that could still dial, and none at all if there was none; and where a Close has
-- returned among those steps, the client has no open connection.
pub reach-IsQuiet :
    (b c : Client)
    → IsQuiet b
    → Reach b c
    → (c.checked + c.won + c.dropped ≡ 0)
      × (b.dialed ≡ 0 → c.dialed ≡ 0)
      × (b.finished < c.finished → is_open c.conn ≡ false)
reach-IsQuiet b c q r =
    let h =
      reach-Shut b.finished b.dialed
        (record { quiet = q; later = omega arith; returned = λ e. e; shut = ground arith }) r in
    (ground (arith, h.quiet), h.returned, h.shut)
