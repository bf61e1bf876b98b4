-- ===== src/Health.antt =====
-- health/health.go: readiness states that are shared with the manager, which is asked about all of them. A
-- state is known by its place among the states that were ever created; the manager's mutex makes each
-- of its methods one step.
pub mod Ready
use Prim.Native.String.{◌++◌ as append}
use grodyia.Prelude.{
  ℕ, zero, suc, String, Bool, true, false, ◌&&◌, List, [], ◌∷◌, ◌++◌, Option, none, some,
  if◌then◌else◌, length,
}

pub record HealthState : Type 0 where
  pub name : String
  pub ready : Bool

-- The states ever created, and those that the manager has, in its order.
pub record HealthManager : Type 0 where
  pub states : List HealthState
  pub healths : List ℕ

unfoldable pub new_health_manager : HealthManager
new_health_manager = record { states = []; healths = [] }

-- `NewHealthState`: the manager does not know the state yet.
unfoldable pub new_health_state : String → HealthManager → HealthManager × ℕ
new_health_state name hm = (
  record hm { states = hm.states ++ record { name = name; ready = false } ∷ [] },
  length hm.states,
)

unfoldable pub add_health_state : ℕ → HealthManager → HealthManager
add_health_state h hm = record hm { healths = hm.healths ++ h ∷ [] }

-- `SetReady` and `SetNoReady` of a state.
unfoldable pub set_state : Bool → ℕ → List HealthState → List HealthState
set_state ready h [] = []
set_state ready zero (s ∷ rest) = record s { ready = ready } ∷ rest
set_state ready (suc h) (s ∷ rest) = s ∷ set_state ready h rest

-- `IsReady` of a state.
unfoldable pub state_ready : ℕ → List HealthState → Bool
state_ready h [] = false
state_ready zero (s ∷ rest) = s.ready
state_ready (suc h) (s ∷ rest) = state_ready h rest

-- The loop of the manager's `SetReady` and `SetNoReady`.
unfoldable pub set_each : Bool → List ℕ → List HealthState → List HealthState
unfolding set_state
set_each ready [] states = states
set_each ready (h ∷ hs) states = set_each ready hs (set_state ready h states)

unfoldable pub set_ready : HealthManager → HealthManager
unfolding set_each
set_ready hm = record hm { states = set_each true hm.healths hm.states }

unfoldable pub set_no_ready : HealthManager → HealthManager
unfolding set_each
set_no_ready hm = record hm { states = set_each false hm.healths hm.states }

all_ready : List ℕ → List HealthState → Bool
unfolding state_ready
all_ready [] states = true
all_ready (h ∷ hs) states = state_ready h states && all_ready hs states

unfoldable pub is_ready : HealthManager → Bool
unfolding all_ready
is_ready hm = all_ready hm.healths hm.states

state_name : ℕ → List HealthState → String
state_name h [] = ""
state_name zero (s ∷ rest) = s.name
state_name (suc h) (s ∷ rest) = state_name h rest

-- `verHealthInfo`
unfoldable pub info_lines : List ℕ → List HealthState → String
unfolding state_ready state_name
info_lines [] states = ""
info_lines (h ∷ hs) states =
    let line =
      append (state_name h states)
        (if state_ready h states then " is ready\n" else " is not ready\n") in
    append line (info_lines hs states)
