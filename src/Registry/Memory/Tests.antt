-- ===== src/Registry/Memory/Tests.antt =====
-- The in-memory registry on concrete inputs.
use grodyia.Prelude.{◌≡◌, refl, true, false, List, [], ◌∷◌, string_eq, arith, lookup, insert}
use grodyia.Prelude.Int.{pos}
use grodyia.Registry.{Service, create, update, delete_event, err, not_found}
use grodyia.Registry.Memory.{
  MemoryRegistry, Watcher, instances, has_id, get_service, register, register_locked,
  deregister_locked, close, cleanup, new_memory_registry, connect, deregister, watch, offer,
}
use grodyia.Registry.Memory.Instances.{IsPart}
use grodyia.Registry.Memory.Invariant.{Inv}
use grodyia.Registry.Memory.Reach.{
  Call, connects, watches, registers, deregisters, ticks, run, step, run-new_memory_registry-Inv,
}
use grodyia.Registry.Memory.Lookup.{get_service_result, get_service-cleanup, register_locked_lem}
use grodyia.Registry.Memory.Removal.{deregister_locked_lem, close_lem}
use grodyia.Registry.Memory.Watchers.{Received, deletes, cleanup-Received, register-Received}

abbrev lobby : Service
lobby = record {
  name = "lobby";
  version = "1";
  id = "a";
  address = "10.0.0.1:80";
  metadata = [];
  endpoints = [];
  ttl = pos 30;
  last_seen = 100;
  healthy = true;
}

abbrev watcher : Watcher
watcher = record { id = 1; events = []; stopped = false; service = "lobby"; registered = true }

abbrev registry : MemoryRegistry
registry = record {
  watch_service = "lobby";
  services = ("lobby", lobby ∷ []) ∷ [];
  watchers = watcher ∷ [];
  next_id = 1;
  running = true;
  cleanups = 1;
}

registry-Inv : Inv registry
unfolding lookup
registry-Inv = record {
  keys = (refl, tt);
  groups = (record { named = ((refl, refl), tt); distinct = (refl, tt) }, tt);
  channels = (record { buffered = omega arith; numbered = omega arith; unlisted = λ e. cc }, tt);
}

abbrev history : List Call
history =
    connects
    ∷ watches
    ∷ registers lobby 100 100
    ∷ registers lobby 110 110
    ∷ ticks 150
    ∷ deregisters lobby 160
    ∷ []

-- One create, one update and the expiry reach the watcher; the late deregistration does not.
history_events :
    (run (new_memory_registry "") history).watchers
    ≡ record {
      id = 1;
      events =
          record { type = create; service = lobby; timestamp = 100 }
          ∷ record { type = update; service = record lobby { last_seen = 110 }; timestamp = 110 }
          ∷ record {
            type = delete_event;
            service = record lobby { last_seen = 110 };
            timestamp = 150;
          }
          ∷ [];
      stopped = false;
      service = "";
      registered = true;
    }
      ∷ []
unfolding run step deregister lookup cleanup register watch connect new_memory_registry insert offer
history_events = refl

run-new_memory_registry-Inv_example : Inv (run (new_memory_registry "") history)
run-new_memory_registry-Inv_example = run-new_memory_registry-Inv "" history

get_service_result_example : IsPart (lobby ∷ []) (lobby ∷ [])
unfolding get_service lookup
get_service_result_example = ((get_service_result "lobby" 120 registry).0 (lobby ∷ []) refl).1

get_service-cleanup_example :
    get_service "lobby" 120 (cleanup 120 registry) ≡ get_service "lobby" 120 registry
get_service-cleanup_example = get_service-cleanup "lobby" 120 registry registry-Inv

register_locked_lem_run : (register_locked lobby 120 120 registry).1.type ≡ update
unfolding lookup
register_locked_lem_run = ((register_locked_lem lobby 120 120 registry).0 refl).0

deregister_locked_lem_run :
    has_id "a" (instances (deregister_locked lobby 120 registry).0.services "lobby") ≡ false
deregister_locked_lem_run = (deregister_locked_lem lobby 120 registry registry-Inv).0

close_lem_run : get_service "lobby" 120 (close registry) ≡ err not_found
close_lem_run = ((close_lem registry).0 refl).1 "lobby" 120

cleanup-Received_example :
    Received (deletes 150 registry.services) (watcher ∷ []) (cleanup 150 registry).watchers
cleanup-Received_example = cleanup-Received 150 registry registry-Inv.channels refl

told_once :
    Received
      ((register_locked lobby 120 120 registry).1 ∷ [])
      (watcher ∷ [])
      (register lobby 120 120 registry).watchers
told_once = register-Received lobby 120 120 registry registry-Inv.channels
