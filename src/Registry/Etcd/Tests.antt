-- ===== src/Registry/Etcd/Tests.antt =====
-- A registry of one game service, and the theorems at it.
use grodyia.Prelude.{
  ◌≡◌, refl, true, false, List, [], ◌∷◌, Option, none, some, insert, lookup, delete,
}
use grodyia.Prelude.Int.{pos}
use grodyia.Registry.{Service}
use grodyia.Registry.Memory.{remove}
use grodyia.Registry.Watchers.{cache_put, cache_remove, notify}
use grodyia.Registry.Etcd.{
  removed, new_registry, service_key, event_service, connect, register, deregister, get_service,
  watch, load_cache,
}
use grodyia.Registry.Etcd.Keys.{event_service-service_key}
use grodyia.Registry.Etcd.Ledger.{
  Step, connect_step, register_step, deregister_step, get_step, watch_step, load_step, Ledger, step,
  run, fresh,
}
use grodyia.Registry.Etcd.Leases.{Accounted, run-fresh-Accounted}

abbrev room : Service
room = record {
  name = "game";
  version = "1.0";
  id = "a";
  address = "10.0.0.7:9000";
  metadata = [];
  endpoints = [];
  ttl = pos 0;
  last_seen = 0;
  healthy = false;
}

abbrev blank : Service
blank = record room { name = ""; id = "" }

event_service-service_key_example :
    event_service (new_registry "eu" "prod" "").prefix (record {
      key = service_key (new_registry "eu" "prod" "") "game" "a";
      value = (blank, false);
      change = removed;
    })
    ≡ record blank { name = "game"; id = "a" }
event_service-service_key_example =
    event_service-service_key (new_registry "eu" "prod" "") "game" "a" blank removed
      (refl, (refl, (refl, (refl, tt)))) (refl, tt)

-- The second lease of the key replaces the first one, the third is abandoned.
abbrev calls : List Step
calls =
    connect_step true
    ∷ watch_step
    ∷ load_step ((room, true) ∷ [])
    ∷ register_step room 5 5 (some 71) true true
    ∷ register_step room 6 6 (some 72) true true
    ∷ register_step room 7 7 (some 73) true false
    ∷ get_step "game" (some ((room, true) ∷ []))
    ∷ deregister_step room 8 true
    ∷ []

ended : Option Ledger → Ledger
ended none = fresh "eu" "prod" ""
ended (some l) = l

abbrev last : Ledger
last = ended (run calls (fresh "eu" "prod" ""))

calls_finish : run calls (fresh "eu" "prod" "") ≡ some last
unfolding ended run step fresh new_registry connect register deregister get_service watch load_cache
    notify cache_put cache_remove remove insert lookup delete
calls_finish = refl

run-fresh-Accounted_example : Accounted last
run-fresh-Accounted_example = run-fresh-Accounted "eu" "prod" "" calls last calls_finish

counts :
    (last.granted ≡ 73 ∷ 72 ∷ 71 ∷ [])
    × (last.revoked ≡ 72 ∷ [])
    × (last.abandoned ≡ 73 ∷ [])
    × (last.replaced ≡ 71 ∷ [])
unfolding ended run step fresh new_registry service_key connect register deregister get_service
    watch load_cache notify cache_put cache_remove remove insert lookup delete
counts = (refl, refl, refl, refl)
