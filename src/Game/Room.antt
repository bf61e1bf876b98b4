-- ===== src/Game/Room.antt =====
-- examples/snake_battle/game/game.go: a room. Its methods hold the mutex, so that each is one step. What
-- math/rand draws is a parameter: `draw i` is the point of the i-th pair of calls of Intn. The callbacks
-- run in goroutines of their own; the room's calls of onGameEnd are counted.
pub mod Spawn
pub mod Turns
pub mod Order
pub mod Reach
pub mod Ends
pub mod Members
mod Tests
use grodyia.Prelude.{
  ℕ, zero, suc, ◌+◌, ◌-◌, String, string_eq, nat_eq, ◌==◌, Bool, true, false, ◌&&◌, ◌||◌, not, List,
  [], ◌∷◌, ◌++◌, map, Option, none, some, if◌then◌else◌, length, ltb, leb, any, Dict, lookup,
  insert, delete,
}
use grodyia.Prelude.Int.{ℤ, pos}
use grodyia.Game.{
  Point, Snake, Direction, dir_left, dir_right, grid_width, grid_height, same_point, new_snake,
  body, move, set_direction, grow, check_self_collision, check_wall_collision,
}

pub data RoomState : Type 0 where
  waiting playing finished : RoomState

abbrev pub is_waiting : RoomState → Bool
is_waiting waiting = true
is_waiting _ = false

abbrev pub is_playing : RoomState → Bool
is_playing playing = true
is_playing _ = false

abbrev pub is_finished : RoomState → Bool
is_finished finished = true
is_finished _ = false

-- `done` says that the channel is closed, `loops` counts the goroutines that Start made, and `drawn` the
-- pairs drawn. `ended` has the winner of each call of onGameEnd, which is set, the empty text where nobody
-- won.
pub record Room : Type 0 where
  pub players : Dict String Snake
  pub foods : List Point
  pub state : RoomState
  pub done : Bool
  pub loops : ℕ
  pub drawn : ℕ
  pub ended : List String

unfoldable pub new_room : Room
new_room = record {
  players = [];
  foods = [];
  state = waiting;
  done = false;
  loops = 0;
  drawn = 0;
  ended = [];
}

unfoldable pub player_count : Room → ℕ
player_count r = length r.players

unfoldable pub is_full : Room → Bool
unfolding player_count
is_full r = leb 2 (player_count r)

start_snake : ℕ → Snake
unfolding new_snake
start_snake count =
    if count == 0 then new_snake 5 15 dir_right else new_snake (grid_width - 6) 15 dir_left

-- `AddPlayer`: a player who is in the room already gets a new snake.
unfoldable pub add_player : String → Room → Room × Bool
unfolding start_snake
add_player id r =
    if leb 2 (length r.players)
    then (r, false)
    else (record r { players = insert id (start_snake (length r.players)) r.players }, true)

unfoldable pub remove_player : String → Room → Room
remove_player id r = record r { players = delete id r.players }

turn_found : String → Direction → Option Snake → Room → Room
unfolding set_direction
turn_found id dir none r = r
turn_found id dir (some s) r = record r { players = insert id (set_direction dir s) r.players }

-- `SetDirection` of a room.
unfoldable pub room_set_direction : String → Direction → Room → Room
unfolding turn_found
room_set_direction id dir r = turn_found id dir (lookup id r.players) r

-- Whether a point lies on a snake of the room.
unfoldable pub on_snakes : Point → Dict String Snake → Bool
unfolding body
on_snakes p [] = false
on_snakes p ((id, s) ∷ rest) = any (same_point p) (body s) || on_snakes p rest

unfoldable pub stop : Room → Room
stop r = record r { done = true }

-- The number of snakes that are alive, and the last of them in the order of the map.
unfoldable pub alive_count : Dict String Snake → ℕ
alive_count [] = 0
alive_count ((id, s) ∷ rest) = alive_count rest + (if s.alive then 1 else 0)

unfoldable pub winner_id : Dict String Snake → String
winner_id [] = ""
winner_id ((id, s) ∷ rest) =
    let later = winner_id rest in if s.alive && alive_count rest == 0 then id else later

unfoldable pub move_all : Dict String Snake → Dict String Snake
unfolding move
move_all [] = []
move_all ((id, s) ∷ rest) = (id, move s) ∷ move_all rest

-- Whether the head meets another snake that is alive.
unfoldable pub hits_other : String → Point → Dict String Snake → Bool
unfolding body
hits_other id p [] = false
hits_other id p ((other, s) ∷ rest) =
    (not (other == id) && s.alive && any (same_point p) (body s)) || hits_other id p rest

-- Whether the snake dies in the loop of `update`.
unfoldable pub dies : String → Snake → Dict String Snake → Bool
unfolding check_wall_collision check_self_collision hits_other
dies id s players = check_wall_collision s || check_self_collision s || hits_other id s.head players

-- The foods without the first one at the point.
unfoldable pub eat : Point → List Point → List Point
eat p [] = []
eat p (food ∷ foods) = if same_point p food then foods else food ∷ eat p foods

-- The end of `update`.
unfoldable pub check_end : Room → Room
unfolding alive_count winner_id
check_end r =
    let count = alive_count r.players in
    let winner = if count == 1 then winner_id r.players else "" in
    if leb count 1 then record r { state = finished; ended = r.ended ++ winner ∷ [] } else r

module _ (draw : ℕ → ℕ × ℕ) where
  abbrev pub drawn_point : ℕ → Point
  drawn_point i = record { x = pos (draw i).0; y = pos (draw i).1 }

  -- The loop of `spawnFood` with so many tries left.
  unfoldable pub spawn_from : ℕ → Room → Room
  unfolding on_snakes
  spawn_from zero r = r
  spawn_from (suc tries) r =
      let p = drawn_point r.drawn in
      let next = record r { drawn = suc r.drawn } in
      let again = spawn_from tries next in
      if on_snakes p r.players || any (same_point p) r.foods
      then again
      else record next { foods = r.foods ++ p ∷ [] }

  abbrev pub max_tries : ℕ
  max_tries = 100

  unfoldable pub spawn_food : Room → Room
  unfolding spawn_from
  spawn_food r = spawn_from max_tries r

  unfoldable pub start : Room → Room
  unfolding spawn_food
  start r =
      let begun = record r { state = playing } in
      let fed = spawn_food (spawn_food (spawn_food begun)) in
      if is_waiting r.state then record fed { loops = suc r.loops } else r

  -- One snake's turn in the loop of `update`.
  unfoldable pub take_turn : String → Option Snake → Room → Room
  unfolding dies eat grow
  take_turn id none r = r
  take_turn id (some s) r =
      let dead = record r { players = insert id (record s { alive = false }) r.players } in
      let fed = record r { players = insert id (grow s) r.players; foods = eat s.head r.foods } in
      if not s.alive
      then r
      else if dies id s r.players
      then dead
      else if any (same_point s.head) r.foods
      then spawn_food fed
      else r

  -- The loop over the players, in the order in which Go visits the map.
  unfoldable pub take_turns : List String → Room → Room
  unfolding take_turn
  take_turns [] r = r
  take_turns (id ∷ order) r = take_turns order (take_turn id (lookup id r.players) r)

  unfoldable pub update : List String → Room → Room
  unfolding move_all take_turns check_end
  update order r =
      let moved = record r { players = move_all r.players } in
      if is_playing r.state then check_end (take_turns order moved) else r

-- The keys of a map, in its order and in the other one. A map of two has no further order.
unfoldable pub keys : Dict String Snake → List String
keys [] = []
keys ((id, s) ∷ rest) = id ∷ keys rest

unfoldable pub keys_back : Dict String Snake → List String
keys_back [] = []
keys_back ((id, s) ∷ rest) = keys_back rest ++ id ∷ []
