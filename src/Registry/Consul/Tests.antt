-- ===== src/Registry/Consul/Tests.antt =====
-- A registry with a prefix and a service of the game, and the theorems at them.
use grodyia.Prelude.{
  eq_iff, string_eq, ◌≡◌, refl, arith, ℕ, String, true, false, List, [], ◌∷◌, ◌++◌, Option, none,
  some, map, take, length,
}
use grodyia.Prelude.Int.{pos}
use grodyia.Registry.{Service}
use grodyia.Registry.Memory.{remove}
use grodyia.Registry.Watchers.{
  cache_put, cache_remove, notify, Watcher, watcher_buffer_size, send_event,
}
use grodyia.Registry.Consul.{
  watch, stop, deregister, ConsulRegistry, Entry, done, new_registry, build_prefix, service_id,
  service_name, registration, connect, close, register, get_service, to_service, health_tick,
  watch_round, watch_rounds,
}
use grodyia.Registry.Consul.Steps.{
  Step, connect_step, close_step, register_step, deregister_step, get_step, watch_step, stop_step,
  step, run,
}
use grodyia.Registry.Consul.Invariant.{Inv, run-new_registry-Inv, close-connect}
use grodyia.Registry.Consul.Fallback.{get_service-fallback}
use grodyia.Registry.Consul.Alive.{Passes, Deregisters, register-Passes}
use grodyia.Registry.Consul.Watching.{highest, all_updates, watch_rounds_lem}
use Prim.Native.String.{◌++◌ as append}

abbrev room : String → Service
room id = record {
  name = "game";
  version = "1.0";
  id = id;
  address = "10.0.0.7:9000";
  metadata = [];
  endpoints = [];
  ttl = pos 0;
  last_seen = 0;
  healthy = false;
}

abbrev reply : Entry
reply = record {
  id = "prod/a";
  name = "prod/game";
  address = "10.0.0.7";
  port = pos 9000;
  tags = "1.0" ∷ [];
  meta = [];
}

abbrev registry : ConsulRegistry
registry = new_registry "" "prod" "game"

abbrev opened : ConsulRegistry
opened = (connect true registry).0

registration_back : registration (room "a") opened ≡ reply
unfolding registration new_registry build_prefix connect service_id service_name
registration_back = refl

abbrev calls : List Step
calls =
    connect_step true
    ∷ watch_step
    ∷ register_step (room "a") 5 5 true
    ∷ get_step "game" none
    ∷ deregister_step (room "a") 6 true
    ∷ stop_step 1
    ∷ close_step
    ∷ []

after : Option ConsulRegistry → ConsulRegistry
after none = registry
after (some r) = r

abbrev called : ConsulRegistry
called = after (run calls registry)

calls_finish : run calls registry ≡ some called
unfolding after run step new_registry build_prefix connect close register deregister get_service
    watch stop notify cache_put cache_remove remove
calls_finish = refl

run-new_registry-Inv_example : Inv called
run-new_registry-Inv_example = run-new_registry-Inv "" "prod" "game" calls called calls_finish

-- Connect, Close, Connect, Close.
close_twice :
    run (connect_step true ∷ close_step ∷ connect_step true ∷ close_step ∷ []) registry ≡ none
unfolding run step new_registry build_prefix connect close
close_twice = refl

close-connect_run : close (connect true called).0 ≡ none
unfolding after run step new_registry build_prefix connect close register deregister get_service
    watch stop notify cache_put cache_remove remove
close-connect_run = close-connect "" "prod" "game" calls called calls_finish refl refl

abbrev later : List Step
later = register_step (record (room "b") { name = "lobby" }) 7 7 true ∷ watch_step ∷ close_step ∷ []

abbrev got : ConsulRegistry
got = (get_service "game" (some (reply ∷ [])) opened).0

later_finish : run later got ≡ some (after (run later got))
unfolding after run step new_registry build_prefix connect close register deregister get_service
    watch stop notify cache_put cache_remove remove
later_finish = refl

cached_then :
    ((get_service "game" (some (reply ∷ [])) opened).1 ≡ done (map to_service (reply ∷ [])))
    × (get_service "game" none (after (run later got))
        ≡ (after (run later got), done (map to_service (reply ∷ []))))
unfolding new_registry connect
cached_then =
    get_service-fallback "game" reply [] later opened (after (run later got)) refl
      ((λ e. cc ((eq_iff "lobby" "game").1 e)), (tt, (tt, tt))) later_finish

abbrev between : List Step
between = register_step (room "b") 7 7 true ∷ deregister_step (room "b") 8 true ∷ watch_step ∷ []

abbrev start : ConsulRegistry
start = (register (room "a") 5 5 true opened).0

between_finish : run between start ≡ some (after (run between start))
unfolding after run step new_registry build_prefix connect close register deregister get_service
    watch stop notify cache_put cache_remove remove
between_finish = refl

register-Passes_example :
    Passes (append "service:" (service_id opened "a")) (health_tick (after (run between start)))
    × Deregisters (service_id opened "a") (close (after (run between start)))
unfolding new_registry connect
register-Passes_example =
    register-Passes (room "a") 5 5 between opened (after (run between start)) refl refl refl
      (tt, ((λ e. cc ((eq_iff "b" "a").1 e)), (tt, tt))) between_finish

abbrev rounds : List (Option (List Entry × ℕ) × ℕ)
rounds =
    (none, 1)
    ∷ (some (reply ∷ reply ∷ [], 4), 2)
    ∷ (some (reply ∷ [], 4), 3)
    ∷ (some ([], 6), 4)
    ∷ []

abbrev watcher : Watcher
watcher = record { id = 1; events = []; service = "game" }

two_updates : length (watch_rounds rounds 0 watcher).1.events ≡ 2
unfolding watch_rounds watch_round send_event to_service
two_updates = refl

watch_rounds_lem_example :
    ((watch_rounds rounds 0 watcher).0 ≡ highest rounds 0)
    × ((watch_rounds rounds 0 watcher).1.events
        ≡ take watcher_buffer_size ([] ++ all_updates rounds 0))
watch_rounds_lem_example = watch_rounds_lem rounds 0 watcher (ground arith)
