-- ===== src/Socket/Reach.antt =====
-- transport/ws/ws.go: histories of the WebSocket server's bookkeeping.
use grodyia.Prelude.{
  lookup-nil, ℕ, ◌+◌, ◌≤◌, ◌<◌, ◌≡◌, refl, String, true, false, List, [], ◌∷◌, Option, none, some,
  arith, length, string_eq, nat_eq, ◌^◌,
}
use grodyia.Prelude.Int.{ℤ}
use grodyia.Socket.{
  Connection, Server, new_server, try_acquire_connection_slot, release_connection_slot, gather,
  snapshot_connections, next_connection_id, store_connection, get_connection, remove_connection,
  remove_found, admit, upgraded, stop,
}
use grodyia.Socket.Slots.{
  World, Step, requests, stops, upgrades, removes, Inv, step, requests-Inv, remove_found-Inv,
  fails-Inv, succeeds-Inv,
}

module _ (hash : String → ℕ) (format : ℕ → String) where
  unfoldable pub run : World → List Step → World
  run w [] = w
  run w (s ∷ ss) = run (step hash format w s) ss

  -- `FormatUint` gives different numbers different texts.
  abbrev pub Injective : Type 0
  Injective = (a b : ℕ) → a < 2 ^ 64 → b < 2 ^ 64 → format a ≡ format b → a ≡ b

  step-Inv :
      (w : World) (s : Step)
      → Injective
      → w.server.next_conn_id + 1 < 2 ^ 64
      → Inv format w
      → Inv format (step hash format w s)
  unfolding step stop remove_connection snapshot_connections
  step-Inv w requests inj b h = requests-Inv hash format w h
  step-Inv w stops inj b h = ground arith
  step-Inv w (removes id) inj b h = remove_found-Inv hash format w id _ refl h
  step-Inv w (upgrades true) inj b h = ground (arith, succeeds-Inv hash format w inj b)
  step-Inv w (upgrades false) inj b h = ground (arith, fails-Inv hash format w)

  remove_found_id :
      (o : Option Connection) (s : Server) (id : String)
      → (remove_found hash format o s id).next_conn_id ≡ s.next_conn_id
  unfolding remove_found
  remove_found_id none s id = refl
  remove_found_id (some c) s id = refl

  step_id :
      (w : World) (s : Step)
      → (step hash format w s).server.next_conn_id ≤ w.server.next_conn_id + 1
  unfolding step admit try_acquire_connection_slot stop remove_connection upgraded
      release_connection_slot next_connection_id store_connection
  step_id w requests = ground arith
  step_id w stops = ground arith
  step_id w (removes id) =
      ground (arith, remove_found_id (get_connection hash format w.server id) w.server id)
  step_id w (upgrades true) = ground arith
  step_id w (upgrades false) = ground arith

  run-Inv :
      (w : World) (ss : List Step)
      → Injective
      → w.server.next_conn_id + length ss < 2 ^ 64
      → Inv format w
      → Inv format (run w ss)
  unfolding run
  run-Inv w [] inj b h = h
  run-Inv w (s ∷ ss) inj b h =
      run-Inv (step hash format w s) ss inj (omega (arith, b, step_id w s))
        (step-Inv w s inj (omega (arith, b)) h)

  abbrev pub fresh_world : ℤ → World
  fresh_world max_connections = record { server = new_server max_connections; upgrading = 0 }

  fresh-Inv : (max_connections : ℤ) → Inv format (fresh_world max_connections)
  unfolding new_server snapshot_connections gather
  fresh-Inv max_connections = record {
    counted = refl;
    limited = ground arith;
    distinct = λ i. tt;
    issued = λ i id c l. ground (arith, l, lookup-nil {V = Connection} id);
  }

  -- If `FormatUint` is injective, then after any interleaving of fewer than 2^64 steps on a new server
  -- the count of active connections is that of the connections in the shards and the handshakes under
  -- way, it is at most a positive `MaxConnections`, and no id stands twice in a shard.
  pub run-new_server-Inv :
      (max_connections : ℤ) (ss : List Step)
      → Injective
      → length ss < 2 ^ 64
      → Inv format (run (fresh_world max_connections) ss)
  unfolding new_server
  run-new_server-Inv max_connections ss inj b =
      run-Inv (fresh_world max_connections) ss inj (omega (arith, b)) (fresh-Inv max_connections)
