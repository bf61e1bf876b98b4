-- ===== src/Registry/Memory/Reach.antt =====
-- Histories of the registry of registry/memory.go: any calls, in any order.
use grodyia.Prelude.{ℕ, String, List, [], ◌∷◌}
use grodyia.Registry.{Service}
use grodyia.Registry.Memory.{
  MemoryRegistry, new_memory_registry, connect, close, register, deregister, watch, cleanup, stop,
}
use grodyia.Registry.Memory.Invariant.{
  Inv, connect-Inv, close-Inv, register-Inv, deregister-Inv, watch-Inv, cleanup-Inv, stop-Inv,
}

pub data Call : Type 0 where
  connects closes watches : Call
  registers : Service → ℕ → ℕ → Call
  deregisters : Service → ℕ → Call
  ticks : ℕ → Call
  stops : ℕ → Call

unfoldable pub step : MemoryRegistry → Call → MemoryRegistry
step r connects = connect r
step r closes = close r
step r watches = (watch r).0
step r (registers s now stamp) = register s now stamp r
step r (deregisters s stamp) = deregister s stamp r
step r (ticks now) = cleanup now r
step r (stops id) = stop id r

unfoldable pub run : MemoryRegistry → List Call → MemoryRegistry
run r [] = r
run r (c ∷ cs) = run (step r c) cs

step-Inv : (r : MemoryRegistry) (c : Call) → Inv r → Inv (step r c)
unfolding step
step-Inv r connects h = connect-Inv r h
step-Inv r closes h = close-Inv r h
step-Inv r watches h = watch-Inv r h
step-Inv r (registers s now stamp) h = register-Inv s now stamp r h
step-Inv r (deregisters s stamp) h = deregister-Inv s stamp r h
step-Inv r (ticks now) h = cleanup-Inv now r h
step-Inv r (stops id) h = stop-Inv id r h

run-Inv : (r : MemoryRegistry) (cs : List Call) → Inv r → Inv (run r cs)
unfolding run
run-Inv r [] h = h
run-Inv r (c ∷ cs) h = run-Inv (step r c) cs (step-Inv r c h)

-- After any history of a new registry no name has two entries, an entry holds only healthy
-- instances of its own name with different ids, no watcher's channel holds more than 1024 events,
-- and no stopped watcher is in the map of watchers.
pub run-new_memory_registry-Inv :
    (watched : String) (cs : List Call) → Inv (run (new_memory_registry watched) cs)
unfolding new_memory_registry
run-new_memory_registry-Inv watched cs =
    run-Inv _ cs (record { keys = tt; groups = tt; channels = tt })
