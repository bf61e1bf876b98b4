-- ===== src/WsClient/Tests.antt =====
-- A client with two attempts, and the theorems at it.
use grodyia.Prelude.{ℕ, ◌≡◌, refl, true, List, [], ◌∷◌, none, some}
use grodyia.Prelude.Int.{pos}
use grodyia.WsClient.{
  Options, new_client, connect, begin_close, close_done, end_close, drop_connection,
  wants_reconnect, begin_reconnect, may_attempt, count_attempt, end_reconnect,
}
use grodyia.WsClient.Machine.{
  World, Step, calls_connect, calls_close, closes_done, drops, handles, disconnects, enters, tests,
  counts, ends, dials, redials, step, run, fresh,
}
use grodyia.WsClient.Invariant.{Inv, run-fresh-Inv}
use grodyia.WsClient.Settled.{Settled, run-Settled}

abbrev options : Options
options = record { auto_reconnect = true; max_reconnect_attempts = pos 2 }

-- The connection is lost, the first attempt fails and the second one succeeds.
abbrev story : List (Step ℕ)
story =
    calls_connect
    ∷ dials (some 1)
    ∷ disconnects
    ∷ disconnects
    ∷ handles
    ∷ enters
    ∷ tests
    ∷ counts
    ∷ redials none
    ∷ tests
    ∷ counts
    ∷ redials (some 2)
    ∷ ends
    ∷ []

story_ends :
    (run (fresh options) story).client
    ≡ record (new_client options) { conn = some 2; connected = true }
unfolding run step new_client connect drop_connection wants_reconnect begin_reconnect may_attempt
    count_attempt end_reconnect
story_ends = refl

run-fresh-Inv_example : Inv (run (fresh options) story)
run-fresh-Inv_example = run-fresh-Inv options story

-- A `Close` while `reconnect` sleeps: the client connects nevertheless, and stays so.
closed_connects :
    let c =
      (run {M = ℕ} (fresh options) (
        calls_connect
        ∷ dials (some 1)
        ∷ disconnects
        ∷ handles
        ∷ enters
        ∷ tests
        ∷ counts
        ∷ calls_close
        ∷ closes_done
        ∷ drops
        ∷ redials (some 2)
        ∷ ends
        ∷ [])).client in
    (c.closed ≡ true) × (c.connected ≡ true)
unfolding run step new_client connect begin_close close_done end_close drop_connection
    wants_reconnect begin_reconnect may_attempt count_attempt end_reconnect
closed_connects = (refl, refl)

abbrev closed_world : World ℕ
unfolding new_client
closed_world = record (fresh options) {
  client = record (new_client options) { closed = true; done = true };
  spawned = 1;
  done_closings = 1;
}

run-Settled_example :
    Settled (run closed_world (enters ∷ tests ∷ calls_connect ∷ dials (some 3) ∷ []))
    × ((run closed_world (enters ∷ tests ∷ calls_connect ∷ dials (some 3) ∷ [])).connections ≡ 0)
unfolding closed_world
run-Settled_example =
    run-Settled closed_world (enters ∷ tests ∷ calls_connect ∷ dials (some 3) ∷ [])
      (record { closed = refl; disconnected = refl; no_caller = refl; no_attempt = refl })
