-- ===== src/Config/Tests.antt =====
-- A tree of two sources, and the theorems at it. The stand-ins for the decoders read nothing: a source's
-- bytes are the map that they decode to.
use grodyia.Prelude.{
  string_eq, ◌≡◌, inl, inr, refl, ℕ, String, Bool, true, List, [], ◌∷◌, Option, none, some, lookup,
  map, insert,
}
use grodyia.Prelude.Text.{split_on}
use grodyia.Config.{
  leaf, table, Table, end, entry, find, put, merge, walk, KeyValue, Config, new, get_value,
  default_decoder, load, load_sources, load_values, store, value, watch_round, decode_each,
}
use grodyia.Config.Merge.{Distinct, merge-leaf, merge-Apart}
use grodyia.Config.Cache.{
  Step, value_step, watch_step, round_step, run, received, watched, run-load,
}
use grodyia.Config.Values.{calls_for}

abbrev server : String → ℕ → Table ℕ
server key port = entry "server" (table (entry key (leaf port) end)) end

abbrev base : Table ℕ
base = entry "debug" (leaf 1) (server "http" 80)

abbrev override : Table ℕ
override = server "grpc" 90

abbrev json : Table ℕ → Table ℕ → Option (Table ℕ)
json bytes into = some (merge into bytes)

abbrev yaml : Table ℕ → Table ℕ × Bool
yaml bytes = (bytes, true)

abbrev decode : KeyValue (Table ℕ) → Table ℕ → Table ℕ × Bool
decode = default_decoder json yaml

abbrev file : Table ℕ → KeyValue (Table ℕ)
file m = record { key = "config.yaml"; value = m; format = "yaml" }

abbrev sources : List (Option (List (KeyValue (Table ℕ))))
sources = some (file base ∷ []) ∷ some (file override ∷ []) ∷ []

both_ports :
    let c : Config ℕ = (load decode sources none new).0 in
    (get_value "server.http" c.data_map ≡ leaf 80) × (get_value "server.grpc" c.data_map ≡ leaf 90)
unfolding load load_sources load_values default_decoder merge put find get_value walk split_on new
both_ports = (refl, refl)

merge-leaf_example : walk ("server" ∷ "grpc" ∷ []) (table (merge base override)) ≡ leaf 90
unfolding walk find Distinct
merge-leaf_example =
    merge-leaf ("server" ∷ "grpc" ∷ []) base override 90 (refl, (refl, tt, tt), tt) refl

others_untouched :
    walk ("server" ∷ "http" ∷ []) (table (merge base override))
    ≡ walk ("server" ∷ "http" ∷ []) (table base)
unfolding find Distinct
others_untouched =
    merge-Apart ("server" ∷ "http" ∷ []) base override (refl, (refl, tt, tt), tt)
      (inr (refl, inl refl))

abbrev calls : List (Step {V = ℕ} decode)
calls =
    watch_step "server.http" 7 (some true ∷ [])
    ∷ value_step "server.http"
    ∷ round_step (file (server "http" 8080) ∷ [])
    ∷ value_step "server.http"
    ∷ []

run-load_example :
    let c : Config ℕ = (load decode sources none new).0 in
    let tree = decode_each decode (received decode calls) c.data_map in
    ((run decode calls c).data_map ≡ tree)
    × ((key : String) → (value key (run decode calls c)).1 ≡ get_value key tree)
    × ((watch_round decode [] (run decode calls c)).1 ≡ [])
    × ((kv : KeyValue (Table ℕ)) (kvs : List (KeyValue (Table ℕ))) (key : String)
        → calls_for key (watch_round decode (kv ∷ kvs) (run decode calls c)).1
          ≡ map
              (λ o. (o, key, get_value key (decode_each decode (kv ∷ kvs) tree)))
              (watched decode key calls))
run-load_example = run-load decode sources none calls

-- Load again after a Value: the cache keeps the old value.
stale :
    let c : Config ℕ = (load decode (some (file (server "http" 80) ∷ []) ∷ []) none new).0 in
    let c' = (value "server.http" c).0 in
    let c'' = (load decode (some (file (server "http" 81) ∷ []) ∷ []) none c').0 in
    ((value "server.http" c'').1 ≡ leaf 80) × (get_value "server.http" c''.data_map ≡ leaf 81)
unfolding load load_sources load_values default_decoder merge put find get_value walk split_on new
    value store lookup insert
stale = (refl, refl)

-- A round of watchSource between the two halves of a Value: the old value stays in the cache.
raced :
    let c : Config ℕ = (load decode (some (file (server "http" 80) ∷ []) ∷ []) none new).0 in
    let read = get_value "server.http" c.data_map in
    let c' = (watch_round decode (file (server "http" 81) ∷ []) c).0 in
    let c'' = store "server.http" read c' in
    ((value "server.http" c'').1 ≡ leaf 80) × (get_value "server.http" c''.data_map ≡ leaf 81)
unfolding load load_sources load_values default_decoder merge put find get_value walk split_on new
    value store lookup insert watch_round decode_each
raced = (refl, refl)
