-- ===== src/Registry/Memory/Invariant.antt =====
-- What holds of the registry of registry/memory.go between two calls.
use grodyia.Prelude.{
  ℕ, suc, ◌≤◌, ◌≡◌, refl, String, Bool, true, false, List, [], ◌∷◌, ◌++◌, none, string_eq, keep,
  All, All-append, All-keep, length, length-append, arith, Bool-cases, if_cases, inl, inr, ltb,
  Dict, lookup, insert, DistinctKeys, insert-DistinctKeys, AllEntries, insert-AllEntries,
  lookup-AllEntries, Option-cases,
}
use grodyia.Registry.{Service, Event}
use grodyia.Registry.Memory.{
  MemoryRegistry, Watcher, instances, has_id, replace, remove, unexpired, sweep,
  memory_watcher_buffer_size, connect, close, register, deregister, watch, cleanup, stop,
  each_watcher, offer, notify, stop_registered, stop_id, notify_all, all_expired,
}
use grodyia.Registry.Memory.Instances.{
  DistinctIds, append-DistinctIds, replace-DistinctIds, remove-DistinctIds, keep-DistinctIds,
  replace-All, remove-All,
}

-- The instances stored under a name bear that name and are healthy, and their ids differ.
pub record Group (name : String) (l : List Service) : Type 0 where
  pub named : All (λ s. (s.name ≡ name) × (s.healthy ≡ true)) l
  pub distinct : DistinctIds l

-- A channel within its capacity, of a watcher whose id was given out; a stopped watcher is in no map.
pub record WatcherInv (next_id : ℕ) (w : Watcher) : Type 0 where
  pub buffered : length w.events ≤ memory_watcher_buffer_size
  pub numbered : w.id ≤ next_id
  pub unlisted : w.stopped ≡ true → w.registered ≡ false

pub record Inv (r : MemoryRegistry) : Type 0 where
  pub keys : DistinctKeys r.services
  pub groups : AllEntries Group r.services
  pub channels : All (WatcherInv r.next_id) r.watchers

pub instances-Group :
    (m : Dict String (List Service)) (name : String)
    → AllEntries Group m
    → Group name (instances m name)
instances-Group m name g = elim (Option-cases (lookup name m)) [
  | inl e ↦ rw (e, instances) (record { named = tt; distinct = tt })
  | inr (l, e) ↦ rw (e, instances) (lookup-AllEntries Group name l m g e)
]

each_watcher-All :
    (P Q : Watcher → Type 0) (f : Watcher → Watcher) (ws : List Watcher)
    → ((w : Watcher) → P w → Q (f w))
    → All P ws
    → All Q (each_watcher f ws)
each_watcher-All P Q f [] k h = tt
each_watcher-All P Q f (w ∷ ws) k h = (k w h.0, each_watcher-All P Q f ws k h.1)

offer-WatcherInv :
    (event : Event) (n : ℕ) (w : Watcher) → WatcherInv n w → WatcherInv n (offer event w)
unfolding offer
offer-WatcherInv event n w h = ground (arith, length-append w.events (event ∷ []))

pub notify-Inv : (event : Event) (r : MemoryRegistry) → Inv r → Inv (notify event r)
unfolding notify
notify-Inv event r h = record {
  keys = h.keys;
  groups = h.groups;
  channels =
      each_watcher-All _ _ (offer event) r.watchers (offer-WatcherInv event r.next_id) h.channels;
}

pub notify_all-Inv : (events : List Event) (r : MemoryRegistry) → Inv r → Inv (notify_all events r)
unfolding notify_all
notify_all-Inv [] r h = h
notify_all-Inv (e ∷ rest) r h = notify_all-Inv rest (notify e r) (notify-Inv e r h)

store-Inv :
    (r : MemoryRegistry) (name : String) (l : List Service)
    → Inv r
    → Group name l
    → Inv (record r { services = insert name l r.services })
store-Inv r name l h g = record {
  keys = insert-DistinctKeys name l r.services h.keys;
  groups = insert-AllEntries Group name l r.services g h.groups;
  channels = h.channels;
}

replace-Group :
    (s : Service) (l : List Service)
    → s.healthy ≡ true
    → has_id s.id l ≡ true
    → Group s.name l
    → Group s.name (replace s l)
replace-Group s l y h g = record {
  named = replace-All (λ t. (t.name ≡ s.name) × (t.healthy ≡ true)) s l (refl, y) g.named;
  distinct = replace-DistinctIds s l h g.distinct;
}

append-Group :
    (s : Service) (l : List Service)
    → s.healthy ≡ true
    → has_id s.id l ≡ false
    → Group s.name l
    → Group s.name (l ++ s ∷ [])
append-Group s l y h g = record {
  named =
      All-append (λ t. (t.name ≡ s.name) × (t.healthy ≡ true)) l (s ∷ []) g.named ((refl, y), tt);
  distinct = append-DistinctIds l s h g.distinct;
}

remove-Group : (name id : String) (l : List Service) → Group name l → Group name (remove id l)
remove-Group name id l g = record {
  named = remove-All (λ t. (t.name ≡ name) × (t.healthy ≡ true)) id l g.named;
  distinct = remove-DistinctIds id l g.distinct;
}

pub register-Inv :
    (s : Service) (now stamp : ℕ) (r : MemoryRegistry) → Inv r → Inv (register s now stamp r)
unfolding register
register-Inv svc now stamp r h =
    let s = record svc { last_seen = now; healthy = true } in
    let old = instances r.services svc.name in
    let g = instances-Group r.services svc.name h.groups in
    elim (Bool-cases (has_id s.id old)) [
      | inl y ↦
          rw y
            (notify-Inv _ _ (store-Inv r s.name (replace s old) h (replace-Group s old refl y g)))
      | inr n ↦
          rw n (notify-Inv _ _ (store-Inv r s.name (old ++ s ∷ []) h (append-Group s old refl n g)))
    ]

pub deregister-Inv :
    (s : Service) (stamp : ℕ) (r : MemoryRegistry) → Inv r → Inv (deregister s stamp r)
unfolding deregister
deregister-Inv s stamp r h =
    let old = instances r.services s.name in
    let g = instances-Group r.services s.name h.groups in
    elim (Bool-cases (has_id s.id old)) [
      | inl y ↦
          rw y (
            notify-Inv _ _
              (store-Inv r s.name (remove s.id old) h (remove-Group s.name s.id old g)))
      | inr n ↦ rw n h
    ]

sweep_missing :
    (now : ℕ) (name : String) (m : Dict String (List Service))
    → lookup name m ≡ none
    → lookup name (sweep now m) ≡ none
unfolding sweep lookup
sweep_missing now name [] h = refl
sweep_missing now name ((j, l) ∷ m) h = ground (arith, sweep_missing now name m)

sweep-DistinctKeys :
    (now : ℕ) (m : Dict String (List Service)) → DistinctKeys m → DistinctKeys (sweep now m)
unfolding sweep
sweep-DistinctKeys now [] d = tt
sweep-DistinctKeys now ((j, l) ∷ m) d =
    ground (arith, sweep-DistinctKeys now m d.1, sweep_missing now j m d.0)

keep-Group :
    (name : String) (p : Service → Bool) (l : List Service) → Group name l → Group name (keep p l)
keep-Group name p l g = record {
  named = All-keep (λ t. (t.name ≡ name) × (t.healthy ≡ true)) p l g.named;
  distinct = keep-DistinctIds p l g.distinct;
}

sweep-Groups :
    (now : ℕ) (m : Dict String (List Service)) → AllEntries Group m → AllEntries Group (sweep now m)
unfolding sweep
sweep-Groups now [] h = tt
sweep-Groups now ((j, l) ∷ m) h = elim (Bool-cases (ltb 0 (length (keep (unexpired now) l)))) [
  | inl y ↦ rw y (keep-Group j (unexpired now) l h.0, sweep-Groups now m h.1)
  | inr n ↦ rw n (sweep-Groups now m h.1)
]

pub cleanup-Inv : (now : ℕ) (r : MemoryRegistry) → Inv r → Inv (cleanup now r)
unfolding cleanup
cleanup-Inv now r h =
    if_cases Inv r.running _ _
      (λ _.
        notify_all-Inv (all_expired now r.services) (record r { services = sweep now r.services })
          (record {
            keys = sweep-DistinctKeys now r.services h.keys;
            groups = sweep-Groups now r.services h.groups;
            channels = h.channels;
          }))
      (λ _. record { keys = h.keys; groups = h.groups; channels = h.channels })

stop_registered-WatcherInv :
    (n : ℕ) (w : Watcher) → WatcherInv n w → WatcherInv n (stop_registered w)
unfolding stop_registered
stop_registered-WatcherInv n w h = ground arith

pub close-Inv : (r : MemoryRegistry) → Inv r → Inv (close r)
unfolding close
close-Inv r h =
    if_cases Inv r.running _ _
      (λ _. record {
        keys = tt;
        groups = tt;
        channels =
            each_watcher-All _ _ stop_registered r.watchers (stop_registered-WatcherInv r.next_id)
              h.channels;
      })
      (λ _. h)

stop_id-WatcherInv : (id n : ℕ) (w : Watcher) → WatcherInv n w → WatcherInv n (stop_id id w)
unfolding stop_id
stop_id-WatcherInv id n w h = ground arith

pub stop-Inv : (id : ℕ) (r : MemoryRegistry) → Inv r → Inv (stop id r)
unfolding stop
stop-Inv id r h = record {
  keys = h.keys;
  groups = h.groups;
  channels =
      each_watcher-All _ _ (stop_id id) r.watchers (stop_id-WatcherInv id r.next_id) h.channels;
}

older-WatcherInv : (n : ℕ) (ws : List Watcher) → All (WatcherInv n) ws → All (WatcherInv (suc n)) ws
older-WatcherInv n [] h = tt
older-WatcherInv n (w ∷ ws) h = (
  record {
    buffered = h.0.buffered;
    numbered = omega (arith, h.0.numbered);
    unlisted = h.0.unlisted;
  },
  older-WatcherInv n ws h.1,
)

pub watch-Inv : (r : MemoryRegistry) → Inv r → Inv (watch r).0
unfolding watch
watch-Inv r h = record {
  keys = h.keys;
  groups = h.groups;
  channels =
      All-append (WatcherInv (suc r.next_id)) r.watchers _
        (older-WatcherInv r.next_id r.watchers h.channels)
        (record { buffered = omega arith; numbered = omega arith; unlisted = λ e. cc }, tt);
}

pub connect-Inv : (r : MemoryRegistry) → Inv r → Inv (connect r)
unfolding connect
connect-Inv r h =
    if_cases Inv r.running _ _ (λ _. h)
      (λ _. record { keys = h.keys; groups = h.groups; channels = h.channels })
