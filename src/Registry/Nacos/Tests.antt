-- ===== src/Registry/Nacos/Tests.antt =====
-- A registry that watches the rooms of the game, and the theorems at it.
use grodyia.Prelude.{
  eq_iff, length, ◌≢◌, ◌≡◌, refl, String, true, false, List, [], ◌∷◌, none, some, string_eq,
}
use grodyia.Prelude.Int.{pos}
use grodyia.Registry.{Service}
use grodyia.Registry.Nacos.{
  done, NacosRegistry, Instance, Place, place, new_registry, connect, close, watch, get_service,
  error, failed,
}
use grodyia.Registry.Nacos.Calls.{is_registered, is_subscribed}
use grodyia.Registry.Nacos.Steps.{
  get_step, close_step, Step, connect_step, register_step, deregister_step, watch_step, stop_step,
  deliver_step, run,
}
use grodyia.Registry.Nacos.Released.{close-run}
use grodyia.Registry.Nacos.Cached.{get_service-run}

abbrev room : String → Service
room id = record {
  name = "game";
  version = "1.0";
  id = id;
  address = "10.0.0.7:9000";
  metadata = [];
  endpoints = [];
  ttl = pos 0;
  last_seen = 0;
  healthy = false;
}

abbrev spot : Place
spot = record { service = "game"; ip = "10.0.0.7"; port = 9000 }

abbrev live : Instance
live = record { id = "b"; ip = "10.0.0.8"; port = 9001; healthy = true; metadata = [] }

abbrev calls_made : List Step
calls_made =
    connect_step true
    ∷ register_step (room "a") 5 6 (some true)
    ∷ watch_step true
    ∷ watch_step false
    ∷ register_step (room "b") 7 8 (some true)
    ∷ deregister_step (room "b") 9 false
    ∷ deliver_step 1 (live ∷ []) 10
    ∷ stop_step 2
    ∷ []

abbrev used : NacosRegistry
used = run calls_made (new_registry "game")

-- A failed Deregister has been sent for the instance of both services; the subscription is still there.
still_there : (is_registered spot used.calls ≡ false) × (is_subscribed "game" used.calls ≡ true)
unfolding run new_registry is_registered is_subscribed
still_there = (refl, refl)

close-run_example :
    ((p : Place) → is_registered p (close used).calls ≡ false)
    × ((n : String) → is_subscribed n (close used).calls ≡ false)
unfolding run new_registry place
close-run_example =
    close-run (λ id. spot) "game" calls_made
      (tt, (refl, (tt, (tt, (refl, (refl, (tt, (tt, tt)))))))) refl

abbrev later_calls : List Step
later_calls = get_step "chat" (some []) ∷ get_step "game" none ∷ watch_step true ∷ close_step ∷ []

get_service-run_example :
    let q = run later_calls (get_service "game" (some (live ∷ [])) used).0 in
    (found : List Service) × ((get_service "game" (some (live ∷ [])) used).1 ≡ done found)
    × (length found ≡ 1)
    × (live ∷ [] ≢ [] → (get_service "game" none q).1 ≡ done found)
    × (live ∷ [] ≡ [] → (get_service "game" none q).1 ≡ error failed)
unfolding run new_registry
get_service-run_example =
    get_service-run "game" (live ∷ []) later_calls used refl
      ((λ e. cc ((eq_iff "chat" "game").1 e)), (tt, (tt, (tt, tt))))

-- A Subscribe that fails leaves the watcher in the map, although the caller gets no watcher to stop.
left_behind : (watch false (connect true (new_registry "game")).0) ≡ (
  record (connect true (new_registry "game")).0 {
    watchers =
        record {
          id = 1;
          events = [];
          service = "game";
          subscribed = false;
          mapped = true;
          stopped = false;
        }
        ∷ [];
    next_id = 1;
  },
  error failed,
)
unfolding watch connect new_registry
left_behind = refl
