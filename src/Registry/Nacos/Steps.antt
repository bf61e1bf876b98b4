-- ===== src/Registry/Nacos/Steps.antt =====
-- Any sequence of calls on a registry of registry/nacos.go, each with the server's answer to it.
use grodyia.Prelude.{◌≡◌, ℕ, String, Bool, List, [], ◌∷◌, Option}
use grodyia.Registry.{Service}
use grodyia.Registry.Nacos.{
  NacosRegistry, Instance, Place, place, connect, close, register, deregister, get_service, watch,
  stop, deliver,
}

pub data Step : Type 0 where
  connect_step : Bool → Step
  close_step : Step
  register_step : Service → ℕ → ℕ → Option Bool → Step
  deregister_step : Service → ℕ → Bool → Step
  get_step : String → Option (List Instance) → Step
  watch_step : Bool → Step
  stop_step : ℕ → Step
  deliver_step : ℕ → List Instance → ℕ → Step

unfoldable pub step : Step → NacosRegistry → NacosRegistry
unfolding connect close register deregister get_service watch stop deliver
step (connect_step made) r = (connect made r).0
step close_step r = close r
step (register_step s now stamp answer) r = (register s now stamp answer r).0
step (deregister_step s stamp accepted) r = (deregister s stamp accepted r).0
step (get_step name answer) r = (get_service name answer r).0
step (watch_step accepted) r = (watch accepted r).0
step (stop_step id) r = stop id r
step (deliver_step id found stamp) r = deliver id found stamp r

unfoldable pub run : List Step → NacosRegistry → NacosRegistry
unfolding step
run [] r = r
run (s ∷ ss) r = run ss (step s r)

-- Services with one id have one name and one address, which `of` says.
abbrev pub Named : (String → Place) → Step → Type 0
Named of (connect_step made) = Unit
Named of close_step = Unit
Named of (register_step s now stamp answer) = place s ≡ of s.id
Named of (deregister_step s stamp accepted) = place s ≡ of s.id
Named of (get_step name answer) = Unit
Named of (watch_step accepted) = Unit
Named of (stop_step id) = Unit
Named of (deliver_step id found stamp) = Unit
