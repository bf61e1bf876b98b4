-- ===== src/Registry/Consul/Watching.antt =====
-- registry/consul.go: what the loop of a watcher of one service puts into its channel.
use grodyia.Prelude.{
  ◌≡◌, ◌≤◌, refl, sym, ap, ◌∙◌, ℕ, List, [], ◌∷◌, ◌++◌, Option, none, some, if◌then◌else◌, map,
  take, take-offer, take-length_le, append-nil, length, length-append, ltb, arith, inl, inr,
  Bool-cases,
}
use grodyia.Registry.{Event, update}
use grodyia.Registry.Watchers.{Watcher, watcher_buffer_size, send_event}
use grodyia.Registry.Consul.{Entry, to_service, send_updates, watch_round, watch_rounds}

abbrev pub update_of : ℕ → Entry → Event
update_of stamp e = record { type = update; service = to_service e; timestamp = stamp }

-- The highest index among the answers, and the one that the loop starts with.
abbrev pub highest : List (Option (List Entry × ℕ) × ℕ) → ℕ → ℕ
highest [] last = last
highest ((none, stamp) ∷ rest) last = highest rest last
highest ((some (entries, index), stamp) ∷ rest) last =
    highest rest (if ltb last index then index else last)

-- The updates of each answer whose index is above all the ones before it.
abbrev pub all_updates : List (Option (List Entry × ℕ) × ℕ) → ℕ → List Event
all_updates [] last = []
all_updates ((none, stamp) ∷ rest) last = all_updates rest last
all_updates ((some (entries, index), stamp) ∷ rest) last =
    if ltb last index
    then map (update_of stamp) entries ++ all_updates rest index
    else all_updates rest last

send_event_bound :
    (e : Event) (w : Watcher)
    → length w.events ≤ watcher_buffer_size
    → length (send_event e w).events ≤ watcher_buffer_size
unfolding send_event
send_event_bound e w h = ground (arith, length-append w.events (e ∷ []))

send_event-take :
    (e : Event) (w : Watcher) (rest : List Event)
    → length w.events ≤ watcher_buffer_size
    → take watcher_buffer_size ((send_event e w).events ++ rest)
      ≡ take watcher_buffer_size (w.events ++ e ∷ rest)
unfolding send_event
send_event-take e w rest h = elim (Bool-cases (ltb (length w.events) watcher_buffer_size)) [
  | inl y ↦ rw (sym (take-offer watcher_buffer_size w.events rest e h)) (rw y refl)
  | inr n ↦ rw (sym (take-offer watcher_buffer_size w.events rest e h)) (rw n refl)
]

send_updates-take :
    (entries : List Entry) (stamp : ℕ) (w : Watcher) (rest : List Event)
    → length w.events ≤ watcher_buffer_size
    → (length (send_updates entries stamp w).events ≤ watcher_buffer_size)
      × (take watcher_buffer_size ((send_updates entries stamp w).events ++ rest)
          ≡ take watcher_buffer_size (w.events ++ (map (update_of stamp) entries ++ rest)))
unfolding send_updates
send_updates-take [] stamp w rest h = (h, refl)
send_updates-take (e ∷ entries) stamp w rest h =
    let sent = send_event (update_of stamp e) w in
    let (bound, same) =
      send_updates-take entries stamp sent rest (send_event_bound (update_of stamp e) w h) in
    (bound, same ∙ send_event-take (update_of stamp e) w (map (update_of stamp) entries ++ rest) h)

watch_round-fresh :
    (entries : List Entry) (index stamp last : ℕ) (w : Watcher)
    → watch_round (some (entries, index)) stamp last w
      ≡ (if ltb last index then (index, send_updates entries stamp w) else (last, w))
unfolding watch_round
watch_round-fresh entries index stamp last w = refl

watch_rounds-cons :
    (answer : Option (List Entry × ℕ)) (stamp : ℕ) (rest : List (Option (List Entry × ℕ) × ℕ))
    (last : ℕ) (w : Watcher)
    → watch_rounds ((answer, stamp) ∷ rest) last w
      ≡ watch_rounds rest (watch_round answer stamp last w).0 (watch_round answer stamp last w).1
unfolding watch_rounds
watch_rounds-cons answer stamp rest last w = refl

-- After any rounds of the loop of a watcher, whatever the agent answers: the index that the loop waits
-- above is the highest one that it was given, and the channel, which started within its capacity, holds
-- as many as fit of the events that it started with, followed by the updates of the answers whose index
-- was higher than every one before.
pub watch_rounds_lem :
    (rounds : List (Option (List Entry × ℕ) × ℕ)) (last : ℕ) (w : Watcher)
    → length w.events ≤ watcher_buffer_size
    → ((watch_rounds rounds last w).0 ≡ highest rounds last)
      × ((watch_rounds rounds last w).1.events
          ≡ take watcher_buffer_size (w.events ++ all_updates rounds last))
unfolding watch_rounds watch_round
watch_rounds_lem [] last w h = (
  refl,
  sym (take-length_le watcher_buffer_size w.events h)
      ∙ ap (take watcher_buffer_size) (sym (append-nil w.events)),
)
watch_rounds_lem ((none, stamp) ∷ rest) last w h = watch_rounds_lem rest last w h
watch_rounds_lem ((some (entries, index), stamp) ∷ rest) last w h =
    let (bound, sent) = send_updates-take entries stamp w (all_updates rest index) h in
    let (highest', events) = watch_rounds_lem rest index (send_updates entries stamp w) bound in
    let split = watch_rounds-cons (some (entries, index)) stamp rest last w in
    let fresh = watch_round-fresh entries index stamp last w in
    elim (Bool-cases (ltb last index)) [
      | inl y ↦ rw (split, fresh, y) (highest', events ∙ sent)
      | inr n ↦ rw (split, fresh, n) (watch_rounds_lem rest last w h)
    ]
