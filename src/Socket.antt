-- ===== src/Socket.antt =====
-- transport/ws/ws.go: the bookkeeping of the WebSocket server. `hash` is FNV-1a and `format` is
-- `strconv.FormatUint(·, 36)`. The slice of shards is a function of the index. A section under a
-- shard's mutex, and an atomic operation, is one step. The socket itself and the heartbeat are left out.
pub mod Shards
pub mod Slots
pub mod Reach
pub mod Broadcast
mod Tests
use grodyia.Prelude.{
  any, ℕ, zero, suc, ◌+◌, ◌-◌, ◌*◌, ◌/◌, ◌%◌, ◌^◌, String, Bool, true, false, ◌&&◌, List, [], ◌∷◌,
  ◌++◌, Option, none, some, if◌then◌else◌, Dict, lookup, insert, delete, string_eq, ◌==◌, nat_eq,
  length, leb, ltb, take,
}
use grodyia.Prelude.Int.{ℤ, pos, negsuc, leb_ℤ}

abbrev pub connection_shard_count : ℕ
connection_shard_count = 32

abbrev pub parallel_broadcast_threshold : ℕ
parallel_broadcast_threshold = 256

-- The server's bookkeeping reads only the id of a connection; its queues and its socket are left out.
pub record Connection : Type 0 where
  pub id : String

-- `next_conn_id` is the uint64 `nextConnID`.
pub record Server : Type 0 where
  pub max_connections : ℤ
  pub connection_sets : ℕ → Dict String Connection
  pub active_count : ℕ
  pub next_conn_id : ℕ
  pub stopping : Bool

unfoldable pub new_server : ℤ → Server
new_server max_connections = record {
  max_connections = max_connections;
  connection_sets = λ i. [];
  active_count = 0;
  next_conn_id = 0;
  stopping = false;
}

-- The round of the loop whose `CompareAndSwap` succeeds, or that finds no slot: the count is then the
-- one loaded.
unfoldable pub try_acquire_connection_slot : Server → Server × Bool
try_acquire_connection_slot s =
    if leb_ℤ s.max_connections (pos 0)
    then (record s { active_count = s.active_count + 1 }, true)
    else if leb_ℤ s.max_connections (pos s.active_count)
    then (s, false)
    else (record s { active_count = s.active_count + 1 }, true)

unfoldable pub release_connection_slot : Server → Server
release_connection_slot s = record s { active_count = s.active_count - 1 }

-- `s.connectionSets[i].connections = m`
unfoldable pub set_shard :
    ℕ → Dict String Connection → (ℕ → Dict String Connection) → ℕ → Dict String Connection
set_shard i m sets j = if i == j then m else sets j

abbrev pub values : Dict String Connection → List Connection
values [] = []
values ((k, v) ∷ m) = v ∷ values m

-- The connections of the first `n` shards.
unfoldable pub gather : ℕ → (ℕ → Dict String Connection) → List Connection
gather zero sets = []
gather (suc n) sets = gather n sets ++ values (sets n)

unfoldable pub snapshot_connections : Server → List Connection
unfolding gather
snapshot_connections s = gather connection_shard_count s.connection_sets

module _ (hash : String → ℕ) (format : ℕ → String) where
  unfoldable pub shard_index : String → ℕ
  shard_index id = hash id % connection_shard_count

  -- `nextConnectionID`
  unfoldable pub next_connection_id : Server → Server × String
  next_connection_id s =
      let n = (s.next_conn_id + 1) % 2 ^ 64 in (record s { next_conn_id = n }, format n)

  unfoldable pub store_connection : Server → Connection → Server
  unfolding shard_index set_shard
  store_connection s c =
      let i = shard_index c.id in
      record s {
        connection_sets = set_shard i (insert c.id c (s.connection_sets i)) s.connection_sets;
      }

  unfoldable pub get_connection : Server → String → Option Connection
  unfolding shard_index
  get_connection s id = lookup id (s.connection_sets (shard_index id))

  -- `removeConnection` by what it finds under the id.
  unfoldable pub remove_found : Option Connection → Server → String → Server
  unfolding shard_index set_shard
  remove_found none s id = s
  remove_found (some c) s id =
      let i = shard_index id in
      record s {
        connection_sets = set_shard i (delete id (s.connection_sets i)) s.connection_sets;
        active_count = s.active_count - 1;
      }

  unfoldable pub remove_connection : Server → String → Server
  unfolding remove_found get_connection
  remove_connection s id = remove_found (get_connection s id) s id

  -- `handleWebSocket` up to the call of `Upgrade`: whether it comes to it.
  unfoldable pub admit : Server → Server × Bool
  unfolding try_acquire_connection_slot
  admit s = if s.stopping then (s, false) else try_acquire_connection_slot s

  -- The rest of `handleWebSocket`; the argument says whether `Upgrade` succeeded.
  unfoldable pub upgraded : Bool → Server → Server
  unfolding release_connection_slot next_connection_id store_connection
  upgraded true s = let (s', id) = next_connection_id s in store_connection s' (record { id = id })
  upgraded false s = release_connection_slot s

-- `Stop`, as far as it concerns the bookkeeping: the connections that it then closes.
unfoldable pub stop : Server → Server × List Connection
unfolding snapshot_connections
stop s = (record s { stopping = true }, snapshot_connections s)

-- `processors` is `runtime.GOMAXPROCS(0)`.
unfoldable pub broadcast_worker_count : ℕ → ℕ → ℕ
broadcast_worker_count processors connection_count =
    let workers = if ltb (processors * 4) 1 then 1 else processors * 4 in
    if leb connection_count 1
    then connection_count
    else if ltb connection_count workers
    then connection_count
    else workers

-- `conns[start:]`
unfoldable pub drop : {A : Type 0} → ℕ → List A → List A
drop zero xs = xs
drop (suc n) [] = []
drop (suc n) (x ∷ xs) = drop n xs

-- The loop of `broadcastParallel` over `start`, on fuel: the parts given to the goroutines.
unfoldable pub parts : {A : Type 0} → ℕ → ℕ → List A → List (List A)
unfolding drop
parts zero chunk_size conns = []
parts (suc fuel) chunk_size [] = []
parts (suc fuel) chunk_size (c ∷ conns) =
    take chunk_size (c ∷ conns) ∷ parts fuel chunk_size (drop chunk_size (c ∷ conns))

unfoldable pub broadcast_parts : {A : Type 0} → ℕ → List A → List (List A)
unfolding broadcast_worker_count parts
broadcast_parts processors [] = []
broadcast_parts processors (c ∷ conns) =
    let n = length (c ∷ conns) in
    let workers = broadcast_worker_count processors n in
    parts n ((n + workers - 1) / workers) (c ∷ conns)

-- What a broadcast sends to, one list for each goroutine that sends: a sequential one is one list.
unfoldable pub broadcast : ℕ → Server → List (List Connection)
unfolding broadcast_parts snapshot_connections
broadcast processors s =
    let conns = snapshot_connections s in
    if ltb (length conns) parallel_broadcast_threshold
    then conns ∷ []
    else broadcast_parts processors conns

-- The loops over `conns` that skip the ids of `excludeMap`.
unfoldable pub skip_excluded : List String → List Connection → List Connection
skip_excluded exclude_ids [] = []
skip_excluded exclude_ids (c ∷ conns) =
    let rest = skip_excluded exclude_ids conns in
    if any (λ id. id == c.id) exclude_ids then rest else c ∷ rest

unfoldable pub broadcast_except : ℕ → List String → Server → List (List Connection)
unfolding broadcast_parts snapshot_connections skip_excluded
broadcast_except processors exclude_ids s =
    let conns = snapshot_connections s in
    let filtered = skip_excluded exclude_ids conns in
    if ltb (length conns) parallel_broadcast_threshold
    then filtered ∷ []
    else broadcast_parts processors filtered
