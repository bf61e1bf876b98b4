-- ===== src/GrpcClient/Tests.antt =====
-- Clients on which Reconnect and Close meet, and the theorems at them.
use grodyia.Prelude.{◌≡◌, refl, arith, ◌+◌, ◌<◌, ◌≤◌, true, false, some, none}
use grodyia.GrpcClient.{
  Client, new_client, connect, drop_conn, forget_conn, close_conn, is_open, monitor_tick,
  transient_failure, ready, reconnects, ends,
}
use grodyia.GrpcClient.Steps.{
  Reach, Panics, here, next, reconnect_begins, reconnect_wins, reconnect_drops, reconnect_dials,
  close_begins, close_passes, close_chooses, close_stops, close_ends,
}
use grodyia.GrpcClient.Invariant.{reach-new_client}
use grodyia.GrpcClient.Quiet.{reach-IsQuiet}

-- Close begins and ends while a Reconnect is about to dial, and the dial succeeds.
abbrev reopened : Client
reopened = record new_client {
  conn = some true;
  closed = true;
  reconnecting = true;
  stopped = true;
  dialed = 1;
  finished = 1;
}

reopened-Reach : Reach new_client reopened
unfolding new_client drop_conn forget_conn close_conn connect is_open
reopened-Reach =
    next
      (next
        (next
          (next
            (next
              (next (next (next here (reconnect_begins _ refl)) (reconnect_wins _ 0 refl refl))
                (reconnect_drops _ 0 refl))
              (close_begins _))
            (close_chooses _ 0 refl refl))
          (close_stops _ 0 refl refl))
        (close_ends _ 0 refl))
      (reconnect_dials _ 0 true refl)

-- The closed client has an open connection that nothing closes.
reopened_live : (is_open reopened.conn ≡ true) × (reopened.closed ≡ true)
unfolding is_open
reopened_live = (refl, refl)

reach-new_client_example :
    (reopened.won + reopened.dropped + reopened.dialed ≤ 1)
    × (reopened.leaked ≡ 0)
    × (0 < reopened.marked + reopened.stopping + reopened.closing + reopened.finished
        → reopened.closed ≡ true)
reach-new_client_example = reach-new_client reopened reopened-Reach

-- Two calls of Close take the default of the select before either closes stopCh: the second panics.
abbrev closed_twice : Client
closed_twice = record new_client { closed = true; stopped = true; stopping = 1; closing = 1 }

closed_twice-Panics : Reach new_client closed_twice × Panics closed_twice
unfolding new_client
closed_twice-Panics = (
  next
      (next
        (next (next (next here (close_begins _)) (close_begins _)) (close_chooses _ 1 refl refl))
        (close_chooses _ 0 refl refl))
      (close_stops _ 1 refl refl),
  (omega arith, refl),
)

-- After the flag is given back, a second Close takes the connection down.
abbrev settled : Client
settled = record reopened { reconnecting = false; dialed = 0 }

abbrev closed_again : Client
closed_again = record settled { conn = some false; finished = 2 }

reach-IsQuiet_example :
    (closed_again.checked + closed_again.won + closed_again.dropped ≡ 0)
    × (settled.dialed ≡ 0 → closed_again.dialed ≡ 0)
    × (settled.finished < closed_again.finished → is_open closed_again.conn ≡ false)
unfolding new_client close_conn
reach-IsQuiet_example =
    reach-IsQuiet settled closed_again
      (record { closed = refl; none_checked = refl; none_won = refl; none_dropped = refl })
      (next (next (next here (close_begins _)) (close_passes _ 0 refl refl)) (close_ends _ 0 refl))

-- A lost connection is dialed again, unless the client is closed.
monitored :
    (monitor_tick transient_failure new_client ≡ reconnects)
    × (monitor_tick ready (record new_client { conn = none }) ≡ reconnects)
    × (monitor_tick transient_failure reopened ≡ ends)
unfolding monitor_tick new_client
monitored = (refl, refl, refl)
