-- ===== src/Config.antt =====
-- config/config.go: the tree of configuration values, how sources are merged into it, and the lookup of
-- dotted keys with its cache. The decoders of JSON and YAML, the sources and the resolver are not
-- under config/: what they return is an argument. A map is modelled by its value: the maps that Value has
-- handed out, which a later merge changes in place, are left out.
pub mod Merge
pub mod Values
pub mod Cache
mod Tests
use grodyia.Prelude.{
  ℕ, ◌+◌, String, Bool, true, false, ◌||◌, List, [], ◌∷◌, ◌++◌, map, Option, none, some,
  if◌then◌else◌, Dict, lookup, insert, string_eq, ◌==◌,
}
use grodyia.Prelude.Text.{split_on}

-- An `any` of the tree: nil, a scalar or list of the type `V`, or a `map[string]any`.
mutual
  pub data Node (V : Type 0) : Type 0 where
    null : Node V
    leaf : V → Node V
    table : Table V → Node V

  pub data Table (V : Type 0) : Type 0 where
    end : Table V
    entry : String → Node V → Table V → Table V

module _ {V : Type 0} where
  -- `m[key]`, which is nil for a missing key.
  unfoldable pub find : String → Table V → Node V
  find key end = null
  find key (entry k v rest) = let found = find key rest in if k == key then v else found

  -- `m[key] = value`
  unfoldable pub put : String → Node V → Table V → Table V
  put key value end = entry key value end
  put key value (entry k v rest) =
      let after = put key value rest in if k == key then entry k value rest else entry k v after

  -- `mergeMaps`, and what one round of its loop stores at the key.
  unfoldable mutual
    pub merge_node : Node V → Node V → Node V
    merge_node old null = null
    merge_node old (leaf x) = leaf x
    merge_node null (table src) = table src
    merge_node (leaf y) (table src) = table src
    merge_node (table dst) (table src) = table (merge dst src)

    pub merge : Table V → Table V → Table V
    merge dst end = dst
    merge dst (entry k v rest) = merge (put k (merge_node (find k dst) v) dst) rest

  -- The loop of `getValue` over the parts of the key.
  unfoldable pub walk : List String → Node V → Node V
  walk [] current = current
  walk (part ∷ parts) null = null
  walk (part ∷ parts) (leaf x) = null
  walk (part ∷ parts) (table t) = walk parts (find part t)

-- config/source.go: `KeyValue`, its bytes being of the type `B`.
pub record KeyValue (B : Type 0) : Type 0 where
  pub key : String
  pub value : B
  pub format : String

-- `cached` is the map of values, `observers` the observers of each key, here their numbers, and
-- `watchers` counts the sources' watchers that were started.
pub record Config (V : Type 0) : Type 0 where
  pub data_map : Table V
  pub cached : Dict String (Node V)
  pub observers : Dict String (List ℕ)
  pub watchers : ℕ

unfoldable pub new : {V : Type 0} → Config V
new = record { data_map = end; cached = []; observers = []; watchers = 0 }

-- `getValue`
unfoldable pub get_value : {V : Type 0} → String → Table V → Node V
unfolding split_on walk
get_value key data_map = walk (split_on 46 key) (table data_map)

-- `defaultDecoder`. `json` decodes into a map and gives the map after it or an error; `yaml` gives the map
-- that it has decoded, in part if there is an error, and whether there is none.
module _ {V B : Type 0} (json : B → Table V → Option (Table V)) (yaml : B → Table V × Bool) where
  merge_parsed : Table V → Option (Table V) → Table V × Bool
  unfolding merge
  merge_parsed data_map none = (data_map, false)
  merge_parsed data_map (some parsed) = (merge data_map parsed, true)

  unfoldable pub default_decoder : KeyValue B → Table V → Table V × Bool
  unfolding merge_parsed
  default_decoder kv data_map =
      let (parsed, good) = yaml kv.value in
      if kv.format == "json"
      then merge_parsed data_map (json kv.value end)
      else if kv.format == "yaml" || kv.format == "yml"
      then merge_parsed data_map (if good then some parsed else none)
      else merge_parsed data_map (if good then some parsed else json kv.value parsed)

-- `decode` is the decoder of the options: the map after it, and whether it gave no error.
module _ {V B : Type 0} (decode : KeyValue B → Table V → Table V × Bool) where
  unfoldable pub load_values : List (KeyValue B) → Table V → Table V × Bool
  load_values [] data_map = (data_map, true)
  load_values (kv ∷ rest) data_map =
      let (data_map', good) = decode kv data_map in
      let after = load_values rest data_map' in if good then after else (data_map', false)

  -- The loop of `Load` over what each source returns, `none` for an error.
  unfoldable pub load_sources : List (Option (List (KeyValue B))) → Table V → Table V × Bool
  unfolding load_values
  load_sources [] data_map = (data_map, true)
  load_sources (none ∷ rest) data_map = (data_map, false)
  load_sources (some kvs ∷ rest) data_map =
      let (data_map', good) = load_values kvs data_map in
      let after = load_sources rest data_map' in if good then after else (data_map', false)

  resolved : Option (Table V → Table V × Bool) → Table V → Table V × Bool
  resolved none data_map = (data_map, true)
  resolved (some resolve) data_map = resolve data_map

  -- `Load` leaves the cache as it is.
  unfoldable pub load :
      List (Option (List (KeyValue B)))
      → Option (Table V → Table V × Bool)
      → Config V
      → Config V × Bool
  unfolding load_sources resolved
  load sources resolver c =
      let (data_map, good) = load_sources sources c.data_map in
      let (data_map', fine) = resolved resolver data_map in
      if good
      then (record c { data_map = data_map' }, fine)
      else (record c { data_map = data_map }, false)

  -- The update under the lock in `watchSource`: errors of the decoder are ignored.
  unfoldable pub decode_each : List (KeyValue B) → Table V → Table V
  decode_each [] data_map = data_map
  decode_each (kv ∷ rest) data_map = decode_each rest (decode kv data_map).0

-- The loop of `Watch` over the sources: `none` for an error, and else whether there is a watcher.
start_watchers : List (Option Bool) → ℕ → ℕ × Bool
start_watchers [] started = (started, true)
start_watchers (none ∷ rest) started = (started, false)
start_watchers (some true ∷ rest) started = start_watchers rest (started + 1)
start_watchers (some false ∷ rest) started = start_watchers rest started

unfoldable pub observers_of : Option (List ℕ) → List ℕ
observers_of none = []
observers_of (some l) = l

module _ {V : Type 0} where
  -- The end of `Value`: nil is not stored.
  unfoldable pub store : String → Node V → Config V → Config V
  store key null c = c
  store key (leaf x) c = record c { cached = insert key (leaf x) c.cached }
  store key (table t) c = record c { cached = insert key (table t) c.cached }

  value_cached : String → Option (Node V) → Config V → Config V × Node V
  unfolding store get_value
  value_cached key (some v) c = (c, v)
  value_cached key none c = (store key (get_value key c.data_map) c, get_value key c.data_map)

  -- `Value`: `null` for the `nilValue`.
  unfoldable pub value : String → Config V → Config V × Node V
  unfolding value_cached
  value key c = value_cached key (lookup key c.cached) c

  unfoldable pub watch : String → ℕ → List (Option Bool) → Config V → Config V × Bool
  unfolding start_watchers observers_of
  watch key o sources c =
      let (started, good) = start_watchers sources c.watchers in
      let obs = observers_of (lookup key c.observers) ++ o ∷ [] in
      (record c { observers = insert key obs c.observers; watchers = started }, good)

  -- The observers called, each with its key and the value, in the order of the map's entries.
  unfoldable pub notify : Dict String (List ℕ) → Config V → Config V × List (ℕ × String × Node V)
  unfolding value
  notify [] c = (c, [])
  notify ((key, obs) ∷ rest) c =
      let (c', v) = value key c in
      let (c'', calls) = notify rest c' in (c'', map (λ o. (o, key, v)) obs ++ calls)

-- A round of `watchSource` on what the watcher's `Next` returns.
unfoldable pub watch_round :
    {V B : Type 0}
    → (KeyValue B → Table V → Table V × Bool)
    → List (KeyValue B)
    → Config V
    → Config V × List (ℕ × String × Node V)
unfolding decode_each notify
watch_round decode [] c = (c, [])
watch_round decode (kv ∷ kvs) c =
    notify c.observers
      (record c { data_map = decode_each decode (kv ∷ kvs) c.data_map; cached = [] })
