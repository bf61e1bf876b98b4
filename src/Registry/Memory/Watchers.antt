-- ===== src/Registry/Memory/Watchers.antt =====
-- What the watchers of registry/memory.go receive: each channel is a bounded queue that drops the
-- newest event when it is full.
use grodyia.Prelude.{
  ℕ, ◌≤◌, ◌≡◌, ◌∙◌, refl, sym, subst, ap, Bool, true, false, ◌||◌, List, [], ◌∷◌, ◌++◌, append-nil,
  if◌then◌else◌, string_eq, ◌==◌, keep, map, Dict, String, All, take, take-offer, take-length_le,
  length, length-append, arith, ltb,
}
use grodyia.Registry.{Service, Event, delete_event}
use grodyia.Registry.Memory.{
  MemoryRegistry, Watcher, memory_watcher_buffer_size, offer, notify, notify_all, all_expired,
  expired_events, each_watcher, cleanup, sweep, register, register_locked,
}
use grodyia.Registry.Memory.Instances.{is_over, ttl_over-unexpired}
use grodyia.Registry.Memory.Invariant.{WatcherInv}

-- The watcher's filter: all services, or the one that it was created for.
abbrev pub matches : Watcher → Event → Bool
matches w event = w.service == "" || w.service == event.service.name

offer_all : List Event → Watcher → Watcher
offer_all [] w = w
offer_all (e ∷ rest) w = offer_all rest (offer e w)

offer_fields :
    (e : Event) (w : Watcher)
    → ((offer e w).service ≡ w.service) × ((offer e w).registered ≡ w.registered)
unfolding offer
offer_fields e w = ground arith

abbrev queue_offer : ℕ → List Event → Event → List Event
queue_offer size xs e = if ltb (length xs) size then xs ++ e ∷ [] else xs

offer_events :
    (e : Event) (w : Watcher)
    → w.registered ≡ true
    → (offer e w).events
      ≡ (if matches w e then queue_offer memory_watcher_buffer_size w.events e else w.events)
unfolding offer
offer_events e w h = ground arith

offer_step :
    (room : ℕ) (e : Event) (xs rest : List Event) (hit : Bool)
    → length xs ≤ room
    → take room ((if hit then queue_offer room xs e else xs) ++ rest)
      ≡ take room (xs ++ (if hit then e ∷ rest else rest))
offer_step room e xs rest true b = take-offer room xs rest e b
offer_step room e xs rest false b = refl

offer-matches : (e : Event) (w : Watcher) → matches (offer e w) ≡ matches w
offer-matches e w = ap (λ s event. s == "" || s == event.service.name) (offer_fields e w).0

offer_bound :
    (e : Event) (w : Watcher)
    → length w.events ≤ memory_watcher_buffer_size
    → length (offer e w).events ≤ memory_watcher_buffer_size
unfolding offer
offer_bound e w h = ground (arith, length-append w.events (e ∷ []))

offer_all_events :
    (events : List Event) (w : Watcher)
    → w.registered ≡ true
    → length w.events ≤ memory_watcher_buffer_size
    → (offer_all events w).events
      ≡ take memory_watcher_buffer_size (w.events ++ keep (matches w) events)
unfolding offer_all
offer_all_events [] w h b =
    rw (append-nil w.events) (sym (take-length_le memory_watcher_buffer_size w.events b))
offer_all_events (e ∷ rest) w h b =
    offer_all_events rest (offer e w) ((offer_fields e w).1 ∙ h) (offer_bound e w b)
    ∙ ap (λ p. take memory_watcher_buffer_size ((offer e w).events ++ keep p rest))
        (offer-matches e w)
    ∙ ap (λ xs. take memory_watcher_buffer_size (xs ++ keep (matches w) rest)) (offer_events e w h)
    ∙ offer_step memory_watcher_buffer_size e w.events (keep (matches w) rest) (matches w e) b

each_watcher_id : (ws : List Watcher) → each_watcher (λ w. w) ws ≡ ws
each_watcher_id [] = refl
each_watcher_id (w ∷ ws) = ap (◌∷◌ w) (each_watcher_id ws)

each_watcher_twice :
    (f g : Watcher → Watcher) (ws : List Watcher)
    → each_watcher g (each_watcher f ws) ≡ each_watcher (λ w. g (f w)) ws
each_watcher_twice f g [] = refl
each_watcher_twice f g (w ∷ ws) = ap (◌∷◌ (g (f w))) (each_watcher_twice f g ws)

watchers-notify_all :
    (events : List Event) (r : MemoryRegistry)
    → (notify_all events r).watchers ≡ each_watcher (offer_all events) r.watchers
unfolding notify_all offer_all notify
watchers-notify_all [] r = sym (each_watcher_id r.watchers)
watchers-notify_all (e ∷ rest) r =
    watchers-notify_all rest (notify e r) ∙ each_watcher_twice (offer e) (offer_all rest) r.watchers

offer_each_watcher_unregistered :
    (events : List Event) (w : Watcher) → w.registered ≡ false → offer_all events w ≡ w
unfolding offer_all offer
offer_each_watcher_unregistered [] w h = refl
offer_each_watcher_unregistered (e ∷ rest) w h =
    ap (offer_all rest) (ground arith) ∙ offer_each_watcher_unregistered rest w h

-- Watcher by watcher: one in the map has, after what its channel held, the events that pass its
-- filter in their order, cut to the channel's capacity; one that is not in the map is unchanged.
abbrev pub Received : List Event → List Watcher → List Watcher → Type 0
Received events [] [] = Unit
Received events (w ∷ ws) (v ∷ vs) =
    ((w.registered ≡ true
        → v.events ≡ take memory_watcher_buffer_size (w.events ++ keep (matches w) events))
      × (w.registered ≡ false → v ≡ w))
    × Received events ws vs
Received events _ _ = ⊥

each_watcher-Received :
    (events : List Event) (n : ℕ) (ws : List Watcher)
    → All (WatcherInv n) ws
    → Received events ws (each_watcher (offer_all events) ws)
each_watcher-Received events n [] h = tt
each_watcher-Received events n (w ∷ ws) h = (
  ((λ y. offer_all_events events w y h.0.buffered), offer_each_watcher_unregistered events w),
  each_watcher-Received events n ws h.1,
)

abbrev delete_at : ℕ → Service → Event
delete_at now s = record { type = delete_event; service = s; timestamp = now }

-- A Delete event, at `now`, for each instance of every name whose TTL is over.
abbrev pub deletes : ℕ → Dict String (List Service) → List Event
deletes now [] = []
deletes now ((name, l) ∷ rest) = map (delete_at now) (keep (is_over now) l) ++ deletes now rest

expired_events-deletes :
    (now : ℕ) (l : List Service) → expired_events now l ≡ map (delete_at now) (keep (is_over now) l)
unfolding expired_events
expired_events-deletes now [] = refl
expired_events-deletes now (s ∷ l) =
    let over = ttl_over-unexpired now s.last_seen s.ttl in
    ground (arith, over, expired_events-deletes now l)

all_expired-deletes : (now : ℕ) (m : Dict String (List Service)) → all_expired now m ≡ deletes now m
unfolding all_expired
all_expired-deletes now [] = refl
all_expired-deletes now ((name, l) ∷ m) =
    rw (expired_events-deletes now l, all_expired-deletes now m) refl

-- A tick of `cleanup` on a running registry sends every watcher in the map a Delete event, stamped with the
-- time of the tick, for each instance whose TTL is not zero and is over since it was last seen, if it passes
-- the watcher's filter, in one order, up to the capacity of its channel, and nothing else.
pub cleanup-Received :
    (now : ℕ) (r : MemoryRegistry)
    → All (WatcherInv r.next_id) r.watchers
    → r.running ≡ true
    → Received (deletes now r.services) r.watchers (cleanup now r).watchers
unfolding cleanup
cleanup-Received now r h y =
    let events = all_expired now r.services in
    let reached : (cleanup now r).watchers ≡ each_watcher (offer_all events) r.watchers =
      ground (arith, watchers-notify_all events (record r { services = sweep now r.services })) in
    subst (λ es. Received es r.watchers (cleanup now r).watchers)
      (all_expired-deletes now r.services)
      (subst (Received events r.watchers) (sym reached)
        (each_watcher-Received events r.next_id r.watchers h))

watchers-register :
    (s : Service) (now stamp : ℕ) (r : MemoryRegistry)
    → (register s now stamp r).watchers
      ≡ each_watcher (offer_all ((register_locked s now stamp r).1 ∷ [])) r.watchers
unfolding register notify offer_all
watchers-register s now stamp r =
    ap (each_watcher (offer (register_locked s now stamp r).1)) (ground arith)

-- `Register` sends its one event to every watcher in the map whose filter it passes, after what
-- the channel held, up to its capacity.
pub register-Received :
    (s : Service) (now stamp : ℕ) (r : MemoryRegistry)
    → All (WatcherInv r.next_id) r.watchers
    → Received ((register_locked s now stamp r).1 ∷ []) r.watchers (register s now stamp r).watchers
register-Received s now stamp r h =
    let events = (register_locked s now stamp r).1 ∷ [] in
    subst (Received events r.watchers) (sym (watchers-register s now stamp r))
      (each_watcher-Received events r.next_id r.watchers h)
