-- ===== src/Game/Server.antt =====
-- examples/snake_battle/main.go, and the RoomManager of game/game.go: the rooms and the players of the
-- server. A handler is one step, and so is each call that a room makes from its loop. The texts that
-- uuid draws and what math/rand draws are parameters. A `*Player` is its entry of the map, and a room
-- has the id that is its key. The transport, JSON and the broadcast of the game's state are left out.
pub mod Steps
pub mod Sits
pub mod Players
pub mod Seated
pub mod Rooms
mod Tests
use grodyia.Prelude.{
  ℕ, String, string_eq, nat_eq, ◌==◌, Bool, true, false, ◌&&◌, ◌||◌, not, List, [], ◌∷◌, ◌++◌, map,
  Option, none, some, if◌then◌else◌, Dict, lookup, insert, delete,
}
use grodyia.Game.{Direction, dir_up, dir_down, dir_left, dir_right}
use grodyia.Game.Room.{
  Room, new_room, add_player, remove_player, room_set_direction, player_count, is_full, is_waiting,
  start, stop, update,
}
use grodyia.Game.Room.Order.{order_of}

pub record Player : Type 0 where
  pub id : String
  pub room_id : String

-- `players` has the players by their connection.
pub record GameServer : Type 0 where
  pub rooms : Dict String Room
  pub players : Dict String Player

unfoldable pub new_game_server : GameServer
new_game_server = record { rooms = []; players = [] }

-- What a connection is sent.
pub data Message : Type 0 where
  welcome : String → Message
  room_info : String → ℕ → String → Message
  player_join : String → ℕ → Message
  game_start left : Message
  player_leave : String → Message
  failure : String → Message

abbrev pub Sent : Type 0
Sent = List (String × Message)

-- `broadcastToRoom`, to connections that are all still there.
unfoldable pub broadcast_to_room : String → Message → String → Dict String Player → Sent
broadcast_to_room room_id msg excluded [] = []
broadcast_to_room room_id msg excluded ((conn, p) ∷ rest) =
    let others = broadcast_to_room room_id msg excluded rest in
    if p.room_id == room_id && not (p.id == excluded) then (conn, msg) ∷ others else others

-- `CreateRoom`: a room that has the id already is replaced.
unfoldable pub create_room : String → Dict String Room → Dict String Room
unfolding new_room
create_room id rooms = insert id new_room rooms

-- `RemoveRoom`: nothing of the server has the room, stopped, any more.
unfoldable pub remove_room : String → Dict String Room → Dict String Room
remove_room id rooms = delete id rooms

-- `FindAvailableRoom`: the room with its id.
unfoldable pub find_available_room : Dict String Room → Option (String × Room)
unfolding is_full
find_available_room [] = none
find_available_room ((id, r) ∷ rest) =
    let later = find_available_room rest in
    if not (is_full r) && is_waiting r.state then some (id, r) else later

-- `Stop` of the manager.
unfoldable pub stop_rooms : Dict String Room → Dict String Room
unfolding stop
stop_rooms [] = []
stop_rooms ((id, r) ∷ rest) = (id, stop r) ∷ stop_rooms rest

-- `onConnect`
unfoldable pub on_connect : String → String → GameServer → GameServer × Sent
on_connect conn id g = (
  record g { players = insert conn (record { id = id; room_id = "" }) g.players },
  (conn, welcome id) ∷ [],
)

-- The rooms and the player's `RoomID` after `leaveRoom`, on the room with that id.
unfoldable pub leave_found : Player → Option Room → Dict String Room → Dict String Room × String
unfolding remove_player player_count remove_room stop
leave_found p none rooms = (rooms, p.room_id)
leave_found p (some room) rooms =
    let r = remove_player p.id room in
    (
      if player_count r == 0 then remove_room p.room_id rooms else insert p.room_id (stop r) rooms,
      "",
    )

unfoldable pub leave_room : Player → Dict String Room → Dict String Room × String
unfolding leave_found
leave_room p rooms =
    if p.room_id == "" then (rooms, "") else leave_found p (lookup p.room_id rooms) rooms

-- What `leaveRoom` tells the others; the player's own `RoomID` is still set.
unfoldable pub leave_sent : Player → Option Room → Dict String Player → Sent
unfolding remove_player player_count broadcast_to_room
leave_sent p none players = []
leave_sent p (some room) players =
    let told = broadcast_to_room p.room_id (player_leave p.id) "" players in
    if p.room_id == "" || player_count (remove_player p.id room) == 0 then [] else told

unfoldable pub disconnect_found : String → Option Player → GameServer → GameServer × Sent
unfolding leave_room leave_sent
disconnect_found conn none g = (g, [])
disconnect_found conn (some p) g =
    let others = delete conn g.players in
    (
      record { rooms = (leave_room p g.rooms).0; players = others },
      leave_sent p (lookup p.room_id g.rooms) others,
    )

-- `onDisconnect`
unfoldable pub on_disconnect : String → GameServer → GameServer × Sent
unfolding disconnect_found
on_disconnect conn g = disconnect_found conn (lookup conn g.players) g

-- `handleLeave`
unfoldable pub handle_leave : String → Player → GameServer → GameServer × Sent
unfolding leave_room leave_sent
handle_leave conn p g =
    let (rooms, room_id) = leave_room p g.rooms in
    (
      record { rooms = rooms; players = insert conn (record p { room_id = room_id }) g.players },
      leave_sent p (lookup p.room_id g.rooms) g.players ++ (conn, left) ∷ [],
    )

-- The direction of a text.
unfoldable pub direction_of : String → Option Direction
direction_of text =
    if text == "up"
    then some dir_up
    else if text == "down"
    then some dir_down
    else if text == "left"
    then some dir_left
    else if text == "right"
    then some dir_right
    else none

unfoldable pub turn_room :
    Player → Option Room → Option Direction → Dict String Room → Dict String Room
unfolding room_set_direction
turn_room p none dir rooms = rooms
turn_room p (some r) none rooms = rooms
turn_room p (some r) (some d) rooms = insert p.room_id (room_set_direction p.id d r) rooms

-- `handleDirection`, on the text of the message's data, where it has one.
unfoldable pub handle_direction : Player → Option String → GameServer → GameServer
unfolding turn_room direction_of
handle_direction p none g = g
handle_direction p (some text) g =
    let turned = turn_room p (lookup p.room_id g.rooms) (direction_of text) g.rooms in
    if p.room_id == "" then g else record g { rooms = turned }

unfoldable pub room_or_new :
    String → Option (String × Room) → Dict String Room → String × Room × Dict String Room
unfolding create_room new_room
room_or_new fresh none rooms = (fresh, new_room, create_room fresh rooms)
room_or_new fresh (some (id, r)) rooms = (id, r, rooms)

-- The room that `handleJoin` takes: its id, the room, and the rooms with it; `fresh` is the id drawn.
unfoldable pub room_for : String → Dict String Room → String × Room × Dict String Room
unfolding find_available_room room_or_new
room_for fresh rooms = room_or_new fresh (find_available_room rooms) rooms

-- What `onMessage` reads in a message: none where JSON is not, and the text of a direction where it has one.
pub data Request : Type 0 where
  malformed join leave unknown : Request
  direction : Option String → Request

module _ (draw : ℕ → ℕ × ℕ) where
  -- `room.Start()` once the room is full.
  unfoldable pub start_full : Room → Room
  unfolding is_full start
  start_full r = if is_full r then start draw r else r

  -- `handleJoin` from AddPlayer on, in the room with the id.
  unfoldable pub join_room :
      String → Player → String → Room → Dict String Room → GameServer → GameServer × Sent
  unfolding add_player start_full broadcast_to_room player_count is_full
  join_room conn p id room rooms g =
      let (r, added) = add_player p.id room in
      let players = insert conn (record p { room_id = id }) g.players in
      let told = broadcast_to_room id (player_join p.id (player_count r)) p.id players in
      let begun = if is_full r then broadcast_to_room id game_start "" players else [] in
      if added
      then (
        record { rooms = insert id (start_full r) rooms; players = players },
        (conn, room_info id (player_count r) p.id) ∷ told ++ begun,
      )
      else (record g { rooms = rooms }, (conn, failure "Room is full") ∷ [])

  -- `handleJoin`
  unfoldable pub handle_join : String → String → Player → GameServer → GameServer × Sent
  unfolding room_for join_room
  handle_join conn fresh p g =
      let (id, room, rooms) = room_for fresh g.rooms in join_room conn p id room rooms g

  unfoldable pub message_found :
      String → String → Request → Option Player → GameServer → GameServer × Sent
  unfolding handle_join handle_direction handle_leave
  message_found conn fresh malformed found g = (g, (conn, failure "Invalid message format") ∷ [])
  message_found conn fresh join none g = (g, (conn, failure "Player not found") ∷ [])
  message_found conn fresh leave none g = (g, (conn, failure "Player not found") ∷ [])
  message_found conn fresh unknown none g = (g, (conn, failure "Player not found") ∷ [])
  message_found conn fresh (direction text) none g = (g, (conn, failure "Player not found") ∷ [])
  message_found conn fresh join (some p) g = handle_join conn fresh p g
  message_found conn fresh leave (some p) g = handle_leave conn p g
  message_found conn fresh unknown (some p) g = (g, (conn, failure "Unknown message type") ∷ [])
  message_found conn fresh (direction text) (some p) g = (handle_direction p text g, [])

  -- `onMessage`; `fresh` is what uuid would draw.
  unfoldable pub on_message : String → String → Request → GameServer → GameServer × Sent
  unfolding message_found
  on_message conn fresh request g = message_found conn fresh request (lookup conn g.players) g

  -- A tick of a room's loop, which has ended where `done` is closed.
  unfoldable pub tick : Bool → Room → Room
  unfolding update order_of
  tick back r = if r.done then r else update draw (order_of back r.players) r

-- A room's call of onGameEnd removes it.
unfoldable pub end_game : String → GameServer → GameServer
unfolding remove_room
end_game id g = record g { rooms = remove_room id g.rooms }
