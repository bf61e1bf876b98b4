-- ===== src/Game/Server/Rooms.antt =====
-- examples/snake_battle/main.go: every room of the server is a sound room of game/game.go.
use grodyia.Prelude.{
  ◌≡◌, refl, subst, inl, inr, arith, ℕ, String, string_eq, Bool, ◌==◌, nat_eq, ◌&&◌, not, [], ◌∷◌,
  Option, none, some, Bool-cases, if_cases, Dict, lookup, AllEntries, insert-AllEntries,
  delete-AllEntries, lookup-AllEntries,
}
use grodyia.Game.{Direction}
use grodyia.Game.Room.{
  Room, new_room, add_player, remove_player, room_set_direction, start, stop, update, is_full,
  player_count, is_waiting,
}
use grodyia.Game.Room.Spawn.{Drawn}
use grodyia.Game.Room.Reach.{
  Inv, step, step-Inv, run, run-new_room-Inv, adds, removes, turns, starts, stops, updates,
}
use grodyia.Game.Server.{
  Request, malformed, join, leave, unknown, direction, message_found, on_message, GameServer,
  Player, Sent, new_game_server, on_connect, on_disconnect, disconnect_found, join_room,
  handle_join, handle_leave, handle_direction, turn_room, direction_of, tick, end_game, remove_room,
  stop_rooms, leave_room, leave_found, room_for, find_available_room, room_or_new, create_room,
  start_full,
}
use grodyia.Game.Server.Steps

-- Every room is sound.
abbrev pub Sound : Dict String Room → Type 0
Sound rooms = AllEntries (λ id r. Inv r) rooms

module _ (draw : ℕ → ℕ × ℕ) (drawn : Drawn draw) where
  keep_step : (s : grodyia.Game.Room.Reach.Step) (r : Room) → Inv r → Inv (step draw s r)
  keep_step = step-Inv draw drawn

  leave_found-Sound :
      (p : Player) (found : Option Room) (rooms : Dict String Room)
      → ((r : Room) → found ≡ some r → Inv r)
      → Sound rooms
      → Sound (leave_found p found rooms).0
  unfolding leave_found remove_room step
  leave_found-Sound p none rooms f h = h
  leave_found-Sound p (some r) rooms f h =
      let after = remove_player p.id r in
      if_cases Sound (player_count after == 0) _ _
        (λ e. delete-AllEntries (λ id r. Inv r) p.room_id rooms h)
        (λ e.
          insert-AllEntries (λ id r. Inv r) p.room_id (stop after) rooms
            (step-Inv draw drawn stops after (step-Inv draw drawn (removes p.id) r (f r refl))) h)

  leave_room-Sound :
      (p : Player) (rooms : Dict String Room) → Sound rooms → Sound (leave_room p rooms).0
  unfolding leave_room
  leave_room-Sound p rooms h =
      let left =
        leave_found-Sound p (lookup p.room_id rooms) rooms
          (λ r e. lookup-AllEntries (λ id r. Inv r) p.room_id r rooms h e) h in
      ground (arith, left)

  turn_room-Sound :
      (p : Player) (found : Option Room) (dir : Option Direction) (rooms : Dict String Room)
      → ((r : Room) → found ≡ some r → Inv r)
      → Sound rooms
      → Sound (turn_room p found dir rooms)
  unfolding turn_room step
  turn_room-Sound p none dir rooms f h = h
  turn_room-Sound p (some r) none rooms f h = h
  turn_room-Sound p (some r) (some d) rooms f h =
      insert-AllEntries (λ id r. Inv r) p.room_id (room_set_direction p.id d r) rooms
        (step-Inv draw drawn (turns p.id d) r (f r refl)) h

  find_available_room-Inv :
      (id : String) (r : Room) (rooms : Dict String Room)
      → Sound rooms
      → find_available_room rooms ≡ some (id, r)
      → Inv r
  unfolding find_available_room
  find_available_room-Inv id r [] h e = cc
  find_available_room-Inv id r ((key, room) ∷ rest) h e =
      elim (Bool-cases (not (is_full room) && is_waiting room.state)) [
        | inl y ↦ subst Inv (ground (arith, e)) h.0
        | inr n ↦ find_available_room-Inv id r rest h.1 (ground (arith, e))
      ]

  room_or_new-Sound :
      (fresh : String) (found : Option (String × Room)) (rooms : Dict String Room)
      → ((id : String) (r : Room) → found ≡ some (id, r) → Inv r)
      → Sound rooms
      → Inv (room_or_new fresh found rooms).1 × Sound (room_or_new fresh found rooms).2
  unfolding room_or_new create_room run
  room_or_new-Sound fresh none rooms f h =
      let new = run-new_room-Inv draw drawn [] in
      (new, insert-AllEntries (λ id r. Inv r) fresh new_room rooms new h)
  room_or_new-Sound fresh (some (id, r)) rooms f h = (f id r refl, h)

  tick-Inv : (back : Bool) (r : Room) → Inv r → Inv (tick draw back r)
  unfolding tick step
  tick-Inv back r h = if_cases Inv r.done _ _ (λ e. h) (λ e. step-Inv draw drawn (updates back) r h)

  start_full-Inv : (r : Room) → Inv r → Inv (start_full draw r)
  unfolding start_full step
  start_full-Inv r h = if_cases Inv (is_full r) _ _ (λ e. step-Inv draw drawn starts r h) (λ e. h)

  stop_rooms-Sound : (rooms : Dict String Room) → Sound rooms → Sound (stop_rooms rooms)
  unfolding stop_rooms step
  stop_rooms-Sound [] h = tt
  stop_rooms-Sound ((id, r) ∷ rest) h = (step-Inv draw drawn stops r h.0, stop_rooms-Sound rest h.1)

  join_room-Sound :
      (conn : String) (p : Player) (id : String) (room : Room) (rooms : Dict String Room)
      (g : GameServer)
      → Inv room
      → Sound rooms
      → Sound (join_room draw conn p id room rooms g).0.rooms
  unfolding join_room step
  join_room-Sound conn p id room rooms g f h =
      let r = (add_player p.id room).0 in
      let joined = start_full-Inv r (step-Inv draw drawn (adds p.id) room f) in
      if_cases (λ (out : GameServer × Sent). Sound out.0.rooms) (add_player p.id room).1 _ _
        (λ e. insert-AllEntries (λ id r. Inv r) id (start_full draw r) rooms joined h) (λ e. h)

  disconnect_found-Sound :
      (conn : String) (found : Option Player) (g : GameServer)
      → Sound g.rooms
      → Sound (disconnect_found conn found g).0.rooms
  unfolding disconnect_found
  disconnect_found-Sound conn none g h = h
  disconnect_found-Sound conn (some p) g h = leave_room-Sound p g.rooms h

  message_found-Sound :
      (conn fresh : String) (request : Request) (found : Option Player) (g : GameServer)
      → Sound g.rooms
      → Sound (message_found draw conn fresh request found g).0.rooms
  unfolding message_found handle_join handle_leave handle_direction room_for
  message_found-Sound conn fresh malformed found g h = h
  message_found-Sound conn fresh join none g h = h
  message_found-Sound conn fresh leave none g h = h
  message_found-Sound conn fresh unknown none g h = h
  message_found-Sound conn fresh (direction text) none g h = h
  message_found-Sound conn fresh join (some p) g h =
      let taken =
        room_or_new-Sound fresh (find_available_room g.rooms) g.rooms
          (λ id r e. find_available_room-Inv id r g.rooms h e) h in
      let (id, room, rooms) = room_for fresh g.rooms in
      join_room-Sound conn p id room rooms g taken.0 taken.1
  message_found-Sound conn fresh leave (some p) g h = leave_room-Sound p g.rooms h
  message_found-Sound conn fresh unknown (some p) g h = h
  message_found-Sound conn fresh (direction none) (some p) g h = h
  message_found-Sound conn fresh (direction (some text)) (some p) g h =
      let turned =
        turn_room-Sound p (lookup p.room_id g.rooms) (direction_of text) g.rooms
          (λ r e. lookup-AllEntries (λ id r. Inv r) p.room_id r g.rooms h e) h in
      if_cases (λ (k : GameServer). Sound k.rooms) (p.room_id == "") _ _ (λ e. h) (λ e. turned)

  step-Sound : {g k : GameServer} → Steps.Step draw g k → Sound g.rooms → Sound k.rooms
  unfolding on_connect on_disconnect on_message end_game remove_room
  step-Sound (Steps.connects g conn id new other) h = h
  step-Sound (Steps.disconnects g conn) h = disconnect_found-Sound conn (lookup conn g.players) g h
  step-Sound (Steps.messages g conn fresh request new) h =
      message_found-Sound conn fresh request (lookup conn g.players) g h
  step-Sound (Steps.ticks g id r back e) h =
      insert-AllEntries (λ id r. Inv r) id (tick draw back r) g.rooms
        (tick-Inv back r (lookup-AllEntries (λ id r. Inv r) id r g.rooms h e)) h
  step-Sound (Steps.ends g id) h = delete-AllEntries (λ id r. Inv r) id g.rooms h
  step-Sound (Steps.stops g) h = stop_rooms-Sound g.rooms h

  reach-Sound : {g k : GameServer} → Sound g.rooms → Steps.Reach draw g k → Sound k.rooms
  reach-Sound h Steps.here = h
  reach-Sound h (Steps.next r st) = step-Sound st (reach-Sound h r)

  -- Whatever players connect, join, turn, leave and disconnect, however the rooms' loops and calls of
  -- onGameEnd come in between, where uuid draws texts that are not in use and math/rand draws within the
  -- grid: every room that the server has satisfies what a room by itself satisfies, that is, at most two
  -- players, whose snakes are sound, foods of which no two are on one point, one loop from the start on,
  -- and one call of onGameEnd where the game is over.
  pub reach-new_game_server :
      (g : GameServer) (id : String) (r : Room)
      → Steps.Reach draw new_game_server g
      → lookup id g.rooms ≡ some r
      → Inv r
  unfolding new_game_server
  reach-new_game_server g id r path e =
      lookup-AllEntries (λ id r. Inv r) id r g.rooms (reach-Sound tt path) e
