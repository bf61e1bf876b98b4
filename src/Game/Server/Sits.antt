-- ===== src/Game/Server/Sits.antt =====
-- examples/snake_battle/main.go: a player in a room, through what changes the rooms.
use grodyia.Prelude.{
  ◌≡◌, ◌≢◌, refl, sym, ap, ◌∙◌, subst, inl, inr, arith, eq_iff, ℕ, String, string_eq, nat_eq, Bool,
  true, ◌==◌, [], ◌∷◌, Option, none, some, Bool-cases, if_cases, Dict, lookup, insert, delete,
  lookup-insert, lookup-delete, DistinctKeys, insert-DistinctKeys,
}
use grodyia.Game.{Direction}
use grodyia.Game.Room.{Room, remove_player, room_set_direction, stop, is_full, player_count}
use grodyia.Game.Room.Order.{order_of}
use grodyia.Game.Room.Spawn.{Drawn}
use grodyia.Game.Room.Members.{
  in_room, remove_player-in_room, room_set_direction-in_room, start-in_room, update-in_room,
}
use grodyia.Game.Server.{
  Player, turn_room, tick, remove_room, stop_rooms, leave_room, leave_found, find_available_room,
  start_full,
}

-- Where there is a room with the id, the player is in it.
abbrev pub Sits : String → String → Dict String Room → Type 0
Sits id room_id rooms = (r : Room) → lookup room_id rooms ≡ some r → in_room id r ≡ true

pub insert-Sits :
    (id room_id other : String) (r : Room) (rooms : Dict String Room)
    → (other ≡ room_id → in_room id r ≡ true)
    → Sits id room_id rooms
    → Sits id room_id (insert other r rooms)
insert-Sits id room_id other r rooms f h k e = elim (Bool-cases (other == room_id)) [
  | inl y ↦
      subst (λ q. in_room id q ≡ true) (ground (arith, e, lookup-insert other room_id r rooms))
        (f ((eq_iff other room_id).0 y))
  | inr n ↦ h k (ground (arith, e, lookup-insert other room_id r rooms))
]

pub delete-Sits :
    (id room_id other : String) (rooms : Dict String Room)
    → Sits id room_id rooms
    → Sits id room_id (delete other rooms)
delete-Sits id room_id other rooms h k e =
    h k (ground (arith, e, lookup-delete other room_id rooms))

pub stop_rooms-Sits :
    (id room_id : String) (rooms : Dict String Room)
    → Sits id room_id rooms
    → Sits id room_id (stop_rooms rooms)
unfolding stop_rooms stop in_room lookup
stop_rooms-Sits id room_id [] h k e = h k e
stop_rooms-Sits id room_id ((key, r) ∷ rest) h k e = elim (Bool-cases (key == room_id)) [
  | inl y ↦
      let same : stop r ≡ k = ground (arith, e) in
      subst (λ q. in_room id q ≡ true) same (h r (ground arith))
  | inr n ↦ stop_rooms-Sits id room_id rest (λ q f. h q (ground (arith, f))) k (ground (arith, e))
]

leave_found-Sits :
    (id room_id : String) (p : Player) (found : Option Room) (rooms : Dict String Room)
    → lookup p.room_id rooms ≡ found
    → id ≢ p.id
    → Sits id room_id rooms
    → Sits id room_id (leave_found p found rooms).0
unfolding leave_found remove_room stop in_room
leave_found-Sits id room_id p none rooms l n h = h
leave_found-Sits id room_id p (some r) rooms l n h =
    let after = remove_player p.id r in
    if_cases (Sits id room_id) (player_count after == 0) _ _
      (λ e. delete-Sits id room_id p.room_id rooms h)
      (λ e.
        insert-Sits id room_id p.room_id (stop after) rooms
          (λ same.
            remove_player-in_room id p.id r n (h r (ap (λ i. lookup i rooms) (sym same) ∙ l)))
          h)

pub leave_room-Sits :
    (id room_id : String) (p : Player) (rooms : Dict String Room)
    → id ≢ p.id
    → Sits id room_id rooms
    → Sits id room_id (leave_room p rooms).0
unfolding leave_room
leave_room-Sits id room_id p rooms n h =
    if_cases (λ (k : Dict String Room × String). Sits id room_id k.0) (p.room_id == "") _ _ (λ e. h)
      (λ e. leave_found-Sits id room_id p (lookup p.room_id rooms) rooms refl n h)

-- The one who leaves: only where its room is gone does it go on naming it.
leave_found-own :
    (p : Player) (found : Option Room) (rooms : Dict String Room)
    → lookup p.room_id rooms ≡ found
    → (leave_found p found rooms).1 ≢ ""
    → Sits p.id (leave_found p found rooms).1 (leave_found p found rooms).0
unfolding leave_found
leave_found-own p none rooms l n k e = cc
leave_found-own p (some r) rooms l n k e = absurd (n refl)

pub leave_room-own :
    (p : Player) (rooms : Dict String Room)
    → (leave_room p rooms).1 ≢ ""
    → Sits p.id (leave_room p rooms).1 (leave_room p rooms).0
unfolding leave_room
leave_room-own p rooms =
    if_cases (λ (k : Dict String Room × String). k.1 ≢ "" → Sits p.id k.1 k.0) (p.room_id == "") _ _
      (λ e n. absurd (n refl)) (λ e. leave_found-own p (lookup p.room_id rooms) rooms refl)

pub turn_room-Sits :
    (id room_id : String) (p : Player) (found : Option Room) (dir : Option Direction)
    (rooms : Dict String Room)
    → lookup p.room_id rooms ≡ found
    → Sits id room_id rooms
    → Sits id room_id (turn_room p found dir rooms)
unfolding turn_room
turn_room-Sits id room_id p none dir rooms l h = h
turn_room-Sits id room_id p (some r) none rooms l h = h
turn_room-Sits id room_id p (some r) (some d) rooms l h =
    insert-Sits id room_id p.room_id (room_set_direction p.id d r) rooms
      (λ same.
        room_set_direction-in_room id p.id d r (h r (ap (λ i. lookup i rooms) (sym same) ∙ l)))
      h

pub start_full-in_room :
    (draw : ℕ → ℕ × ℕ) (drawn : Drawn draw) (id : String) (r : Room)
    → in_room id (start_full draw r) ≡ in_room id r
unfolding start_full
start_full-in_room draw drawn id r =
    if_cases (λ (k : Room). in_room id k ≡ in_room id r) (is_full r) _ _
      (λ e. start-in_room draw drawn id r) (λ e. refl)

pub tick-in_room :
    (draw : ℕ → ℕ × ℕ) (drawn : Drawn draw) (id : String) (back : Bool) (r : Room)
    → in_room id r ≡ true
    → in_room id (tick draw back r) ≡ true
unfolding tick
tick-in_room draw drawn id back r h =
    if_cases (λ (k : Room). in_room id k ≡ true) r.done _ _ (λ e. h)
      (λ e. update-in_room draw drawn id (order_of back r.players) r h)

stop_rooms-lookup-none :
    (id : String) (rooms : Dict String Room)
    → lookup id rooms ≡ none
    → lookup id (stop_rooms rooms) ≡ none
unfolding stop_rooms lookup
stop_rooms-lookup-none id [] e = refl
stop_rooms-lookup-none id ((key, r) ∷ rest) e = ground (arith, e, stop_rooms-lookup-none id rest)

pub stop_rooms-DistinctKeys :
    (rooms : Dict String Room) → DistinctKeys rooms → DistinctKeys (stop_rooms rooms)
unfolding stop_rooms
stop_rooms-DistinctKeys [] d = tt
stop_rooms-DistinctKeys ((id, r) ∷ rest) d =
    (stop_rooms-lookup-none id rest d.0, stop_rooms-DistinctKeys rest d.1)

pub turn_room-DistinctKeys :
    (p : Player) (found : Option Room) (dir : Option Direction) (rooms : Dict String Room)
    → DistinctKeys rooms
    → DistinctKeys (turn_room p found dir rooms)
unfolding turn_room
turn_room-DistinctKeys p none dir rooms d = d
turn_room-DistinctKeys p (some r) none rooms d = d
turn_room-DistinctKeys p (some r) (some t) rooms d =
    insert-DistinctKeys p.room_id (room_set_direction p.id t r) rooms d

pub find_available_room-lookup :
    (id : String) (r : Room) (rooms : Dict String Room)
    → DistinctKeys rooms
    → find_available_room rooms ≡ some (id, r)
    → lookup id rooms ≡ some r
unfolding find_available_room lookup
find_available_room-lookup id r [] d e = cc
find_available_room-lookup id r ((key, room) ∷ rest) d e =
    ground (arith, e, eq_iff key id, find_available_room-lookup id r rest d.1)
