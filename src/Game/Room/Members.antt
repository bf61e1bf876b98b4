-- ===== src/Game/Room/Members.antt =====
-- examples/snake_battle/game/game.go: who is in a room stays there through what the room does by itself.
use grodyia.Prelude.{
  ◌≡◌, ◌≢◌, refl, ap, ◌∙◌, arith, eq_iff, ℕ, String, string_eq, nat_eq, Bool, true, false, List, [],
  ◌∷◌, Option, none, some, if_cases, Dict, lookup, insert, lookup-insert, lookup-delete, length,
  ==-refl,
}
use grodyia.Game.{Snake, Direction, grow, set_direction}
use grodyia.Game.Room.{
  Room, add_player, remove_player, room_set_direction, turn_found, start, update, is_playing,
  is_waiting, check_end, take_turns, take_turn, move_all, spawn_food, playing, start_snake, eat,
}
use grodyia.Game.Room.Spawn.{Drawn, spawn_food-Spawned}
use grodyia.Game.Room.Turns.{take_turn_cases}

is_some : Option Snake → Bool
is_some none = false
is_some (some s) = true

-- The player has a snake in the room.
unfoldable pub in_room : String → Room → Bool
unfolding is_some
in_room id r = is_some (lookup id r.players)

insert-is_some :
    (id other : String) (s : Snake) (players : Dict String Snake)
    → is_some (lookup id players) ≡ true
    → is_some (lookup id (insert other s players)) ≡ true
unfolding is_some
insert-is_some id other s players h = ground (arith, lookup-insert other id s players)

pub add_player-in_room :
    (id other : String) (r : Room) → in_room id r ≡ true → in_room id (add_player other r).0 ≡ true
unfolding add_player in_room
add_player-in_room id other r h =
    let s = start_snake (length r.players) in ground (arith, insert-is_some id other s r.players h)

pub add_player_self :
    (id : String) (r : Room) → (add_player id r).1 ≡ true → in_room id (add_player id r).0 ≡ true
unfolding add_player in_room is_some
add_player_self id r h =
    let s = start_snake (length r.players) in
    ground (arith, lookup-insert id id s r.players, ==-refl id)

pub remove_player-in_room :
    (id other : String) (r : Room)
    → id ≢ other
    → in_room id r ≡ true
    → in_room id (remove_player other r) ≡ true
unfolding remove_player in_room is_some
remove_player-in_room id other r n h =
    ground (arith, lookup-delete other id r.players, eq_iff other id)

turn_found-in_room :
    (id other : String) (d : Direction) (found : Option Snake) (r : Room)
    → in_room id r ≡ true
    → in_room id (turn_found other d found r) ≡ true
unfolding turn_found in_room
turn_found-in_room id other d none r h = h
turn_found-in_room id other d (some s) r h = insert-is_some id other (set_direction d s) r.players h

pub room_set_direction-in_room :
    (id other : String) (d : Direction) (r : Room)
    → in_room id r ≡ true
    → in_room id (room_set_direction other d r) ≡ true
unfolding room_set_direction
room_set_direction-in_room id other d r h =
    turn_found-in_room id other d (lookup other r.players) r h

move_all-is_some :
    (id : String) (players : Dict String Snake)
    → is_some (lookup id (move_all players)) ≡ is_some (lookup id players)
unfolding is_some move_all lookup
move_all-is_some id [] = refl
move_all-is_some id ((key, s) ∷ rest) = ground (arith, move_all-is_some id rest)

check_end-in_room : (id : String) (r : Room) → in_room id (check_end r) ≡ in_room id r
unfolding check_end in_room
check_end-in_room id r = ground arith

module _ (draw : ℕ → ℕ × ℕ) (drawn : Drawn draw) where
  spawn_food-in_room : (id : String) (r : Room) → in_room id (spawn_food draw r) ≡ in_room id r
  unfolding in_room
  spawn_food-in_room id r = ap (λ l. is_some (lookup id l)) (spawn_food-Spawned draw drawn r).kept.0

  pub start-in_room : (id : String) (r : Room) → in_room id (start draw r) ≡ in_room id r
  unfolding start in_room
  start-in_room id r =
      let begun = record r { state = playing } in
      let one = spawn_food draw begun in
      let two = spawn_food draw one in
      let fed : in_room id (spawn_food draw two) ≡ in_room id begun =
        spawn_food-in_room id two ∙ spawn_food-in_room id one ∙ spawn_food-in_room id begun in
      if_cases (λ (k : Room). in_room id k ≡ in_room id r) (is_waiting r.state) _ _ (λ e. fed)
        (λ e. refl)

  take_turn-in_room :
      (id other : String) (found : Option Snake) (r : Room)
      → in_room id r ≡ true
      → in_room id (take_turn draw other found r) ≡ true
  unfolding take_turn in_room
  take_turn-in_room id other none r h = h
  take_turn-in_room id other (some s) r h =
      let dead = record s { alive = false } in
      let fed = record r {
        players = insert other (grow s) r.players;
        foods = eat s.head r.foods;
      } in
      take_turn_cases draw drawn (λ k. in_room id k ≡ true) other s r (λ a. h)
        (λ a y. insert-is_some id other dead r.players h)
        (λ a n hit. spawn_food-in_room id fed ∙ insert-is_some id other (grow s) r.players h)
        (λ a n miss. h)

  take_turns-in_room :
      (id : String) (order : List String) (r : Room)
      → in_room id r ≡ true
      → in_room id (take_turns draw order r) ≡ true
  unfolding take_turns
  take_turns-in_room id [] r h = h
  take_turns-in_room id (o ∷ order) r h =
      take_turns-in_room id order (take_turn draw o (lookup o r.players) r)
        (take_turn-in_room id o (lookup o r.players) r h)

  pub update-in_room :
      (id : String) (order : List String) (r : Room)
      → in_room id r ≡ true
      → in_room id (update draw order r) ≡ true
  unfolding update in_room
  update-in_room id order r h =
      let moved = record r { players = move_all r.players } in
      let after = take_turns draw order moved in
      let kept = take_turns-in_room id order moved (move_all-is_some id r.players ∙ h) in
      if_cases (λ (k : Room). in_room id k ≡ true) (is_playing r.state) _ _
        (λ e. check_end-in_room id after ∙ kept) (λ e. h)
