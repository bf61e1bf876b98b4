-- ===== src/Socket/Slots.antt =====
-- transport/ws/ws.go: the count of active connections against the connections in the shards and the
-- handshakes under way, over any interleaving of requests, disconnections and `Stop`.
use grodyia.Prelude.{
  Bool-cases, Option-cases, inl, inr, if_cases, ℕ, ◌+◌, ◌-◌, ◌≤◌, ◌<◌, ◌≡◌, sym, String, Bool, true,
  false, Option, none, some, arith, length, Dict, lookup, insert, delete, string_eq, ◌==◌, nat_eq,
  DistinctKeys, if◌then◌else◌, ◌%◌, ◌^◌, ltb, lookup-insert, lookup-delete, insert-DistinctKeys,
  delete-DistinctKeys,
}
use grodyia.Prelude.Int.{pos, leb_ℤ}
use text.Mathlib.TextEquality.{eq_iff}
use grodyia.Socket.{
  Connection, Server, try_acquire_connection_slot, release_connection_slot, set_shard,
  snapshot_connections, shard_index, next_connection_id, store_connection, get_connection,
  remove_connection, remove_found, admit, upgraded, stop, connection_shard_count,
}
use grodyia.Socket.Shards.{Shards, stored-set_shard, length-insert_new, length-delete_present}

-- `upgrading` counts the requests between `admit` and `upgraded`, which the program does not keep.
pub record World : Type 0 where
  pub server : Server
  pub upgrading : ℕ

pub data Step : Type 0 where
  requests stops : Step
  upgrades : Bool → Step
  removes : String → Step

-- `Inv` without the limit, which no step reads.
pub record Inv (format : ℕ → String) (w : World) : Type 0 where
  pub counted : w.server.active_count ≡ w.upgrading + length (snapshot_connections w.server)
  pub limited :
      leb_ℤ w.server.max_connections (pos 0) ≡ false
      → leb_ℤ (pos w.server.active_count) w.server.max_connections ≡ true
  pub distinct : (i : ℕ) → DistinctKeys (w.server.connection_sets i)
  pub issued :
      (i : ℕ) (id : String) (c : Connection)
      → lookup id (w.server.connection_sets i) ≡ some c
      → (n : ℕ) × (n ≤ w.server.next_conn_id) × (id ≡ format n)

module _ (hash : String → ℕ) (format : ℕ → String) where
  unfoldable pub step : World → Step → World
  step w requests =
      let (s, slot) = admit hash format w.server in
      record { server = s; upgrading = if slot then w.upgrading + 1 else w.upgrading }
  step w (upgrades ok) =
      if ltb 0 w.upgrading
      then record { server = upgraded hash format ok w.server; upgrading = w.upgrading - 1 }
      else w
  step w (removes id) = record w { server = remove_connection hash format w.server id }
  step w stops = record w { server = (stop w.server).0 }

  pub requests-Inv : (w : World) → Inv format w → Inv format (step w requests)
  unfolding step admit try_acquire_connection_slot snapshot_connections
  requests-Inv w h = ground arith

  set_shard-distinct :
      (i : ℕ) (m : Dict String Connection) (sets : Shards)
      → DistinctKeys m
      → ((j : ℕ) → DistinctKeys (sets j))
      → (j : ℕ) → DistinctKeys (set_shard i m sets j)
  unfolding set_shard
  set_shard-distinct i m sets d h j =
      if_cases (λ e. DistinctKeys e) (i == j) m (sets j) (λ _. d) (λ _. h j)

  shard_index_lt : (id : String) → shard_index hash format id < connection_shard_count
  unfolding shard_index
  shard_index_lt id = omega arith

  -- A shard that holds no new keys keeps the ids issued.
  set_shard-issued :
      (i n : ℕ) (m : Dict String Connection) (sets : Shards)
      → ((id : String) (c : Connection)
          → lookup id m ≡ some c
          → (k : ℕ) × (k ≤ n) × (id ≡ format k))
      → ((j : ℕ) (id : String) (c : Connection)
          → lookup id (sets j) ≡ some c
          → (k : ℕ) × (k ≤ n) × (id ≡ format k))
      → (j : ℕ) (id : String) (c : Connection) → lookup id (set_shard i m sets j) ≡ some c
      → (k : ℕ) × (k ≤ n) × (id ≡ format k)
  unfolding set_shard
  set_shard-issued i n m sets new old j id c =
      if_cases (λ e. lookup id e ≡ some c → (k : ℕ) × (k ≤ n) × (id ≡ format k)) (i == j) m (sets j)
        (λ _. new id c) (λ _. old j id c)

  lookup-delete-some :
      (id other : String) (m : Dict String Connection) (c : Connection)
      → lookup other (delete id m) ≡ some c
      → lookup other m ≡ some c
  lookup-delete-some id other m c h = ground (arith, lookup-delete id other m)

  pub remove_found-Inv :
      (w : World) (id : String) (found : Option Connection)
      → get_connection hash format w.server id ≡ found
      → Inv format w
      → Inv format (record w { server = remove_found hash format found w.server id })
  unfolding remove_found snapshot_connections get_connection
  remove_found-Inv w id none e h = h
  remove_found-Inv w id (some c) e h =
      let i = shard_index hash format id in
      let old = w.server.connection_sets i in
      let new = delete id old in
      let counts =
        stored-set_shard connection_shard_count i new w.server.connection_sets
          (shard_index_lt id) in
      let smaller = length-delete_present id c old (h.distinct i) e in
      record {
        counted = ground (arith, counts, smaller, h.counted);
        limited = ground (arith, h.limited);
        distinct =
            set_shard-distinct i new _ (delete-DistinctKeys id old (h.distinct i)) h.distinct;
        issued =
            set_shard-issued i _ new _
              (λ other d l. h.issued i other d (lookup-delete-some id other old d l)) h.issued;
      }

  pub fails-Inv :
      (w : World)
      → 0 < w.upgrading
      → Inv format w
      → Inv format
          (record { server = upgraded hash format false w.server; upgrading = w.upgrading - 1 })
  unfolding upgraded release_connection_slot snapshot_connections
  fails-Inv w u h = ground arith

  -- The next id stands in no shard.
  fresh :
      (w : World)
      → ((a b : ℕ) → a < 2 ^ 64 → b < 2 ^ 64 → format a ≡ format b → a ≡ b)
      → w.server.next_conn_id + 1 < 2 ^ 64
      → Inv format w
      → (i : ℕ) → lookup (format (w.server.next_conn_id + 1)) (w.server.connection_sets i) ≡ none
  fresh w inj b h i =
      elim (Option-cases
        (lookup (format (w.server.next_conn_id + 1)) (w.server.connection_sets i))) [
          | inl e ↦ e
          | inr (c, e) ↦
              let (k, le, same) = h.issued i _ c e in
              ground (arith, le, inj (w.server.next_conn_id + 1) k b (omega (arith, le, b)) same)
        ]

  -- `id` is the text of a number up to `n`.
  abbrev Issued : ℕ → String → Type 0
  Issued n id = (k : ℕ) × (k ≤ n) × (id ≡ format k)

  Issued-later : (n : ℕ) (id : String) → Issued n id → Issued (n + 1) id
  Issued-later n id (k, le, same) = (k, omega (arith, le), same)

  Issued-insert :
      (n : ℕ) (c d : Connection) (other : String) (m : Dict String Connection)
      → (lookup other m ≡ some d → Issued n other)
      → lookup other (insert (format (n + 1)) c m) ≡ some d
      → Issued (n + 1) other
  Issued-insert n c d other m h l = elim (Bool-cases (format (n + 1) == other)) [
    | inl hit ↦ (n + 1, omega arith, sym ((eq_iff (format (n + 1)) other).0 hit))
    | inr miss ↦
        Issued-later n other (h (ground (arith, lookup-insert (format (n + 1)) other c m, miss, l)))
  ]

  pub succeeds-Inv :
      (w : World)
      → ((a b : ℕ) → a < 2 ^ 64 → b < 2 ^ 64 → format a ≡ format b → a ≡ b)
      → w.server.next_conn_id + 1 < 2 ^ 64
      → 0 < w.upgrading
      → Inv format w
      → Inv format
          (record { server = upgraded hash format true w.server; upgrading = w.upgrading - 1 })
  unfolding upgraded next_connection_id store_connection snapshot_connections
  succeeds-Inv w inj b u h =
      let n = w.server.next_conn_id + 1 in
      let next : (n % 2 ^ 64 ≡ n) = omega (arith, b) in
      let id = format n in
      let i = shard_index hash format id in
      let old = w.server.connection_sets i in
      let c : Connection = record { id = id } in
      let new = insert id c old in
      let counts =
        stored-set_shard connection_shard_count i new w.server.connection_sets
          (shard_index_lt id) in
      let larger = length-insert_new id c old (fresh w inj b h i) in
      rw next record {
        counted = ground (arith, counts, larger, h.counted);
        limited = h.limited;
        distinct =
            set_shard-distinct i new _ (insert-DistinctKeys id c old (h.distinct i)) h.distinct;
        issued =
            set_shard-issued i _ new _
              (λ other d l.
                Issued-insert w.server.next_conn_id c d other old (h.issued i other d) l)
              (λ j other d l. Issued-later w.server.next_conn_id other (h.issued j other d l));
      }
