-- ===== src/Game/Server/Tests.antt =====
-- A server with two players, and the theorems at it.
use grodyia.Prelude.{
  ◌≡◌, ◌≢◌, refl, arith, ℕ, ◌+◌, ◌%◌, String, string_eq, true, [], some, lookup, insert,
  lookup-insert, lookup-nil, sym, ◌∙◌,
}
use mathlib.Core.Option.{map as map_option}
use grodyia.Game.Room.{Room, new_room, add_player}
use grodyia.Game.Room.Spawn.{Drawn}
use grodyia.Game.Room.Members.{in_room}
use grodyia.Game.Room.Reach.{Inv}
use grodyia.Game.Server.{GameServer, Player, new_game_server, on_connect, on_message, join}
use grodyia.Game.Server.Steps.{Reach, here, next, connects, messages}
use grodyia.Game.Server.Rooms.{reach-new_game_server}
use grodyia.Game.Server.Seated.{reach-in_room}

draw : ℕ → ℕ × ℕ
draw i = ((i + 12) % 40, 3)

draw-Drawn : Drawn draw
unfolding draw
draw-Drawn i = (omega arith, omega arith)

abbrev greeted : GameServer
greeted = (on_connect "c1" "a" new_game_server).0

abbrev alone : GameServer
alone = (on_message draw "c1" "x" join greeted).0

abbrev a_in_x : Player
a_in_x = record { id = "a"; room_id = "x" }

greeted-room : (conn : String) (p : Player) → lookup conn greeted.players ≡ some p → p.room_id ≢ "x"
unfolding new_game_server on_connect
greeted-room conn p e same =
    let room_id : p.room_id ≡ "" = ground (
      arith,
      e,
      lookup-insert {V = Player} "c1" conn (record { id = "a"; room_id = "" }) [],
      lookup-nil {V = Player} conn,
    ) in
    cc (sym room_id ∙ same)

alone-Reach : Reach draw new_game_server alone
unfolding new_game_server on_connect lookup insert
alone-Reach =
    next (next here (connects new_game_server "c1" "a" refl (λ conn p e. ground (arith, e))))
      (messages greeted "c1" "x" join (refl, (λ e. cc), greeted-room))

abbrev waiting_room : Room
waiting_room = (add_player "a" new_room).0

waiting_room-Inv : Inv waiting_room
unfolding lookup on_message on_connect new_game_server insert
waiting_room-Inv = reach-new_game_server draw draw-Drawn alone "x" waiting_room alone-Reach refl

reach-in_room_example : in_room "a" waiting_room ≡ true
unfolding lookup on_message on_connect new_game_server insert
reach-in_room_example =
    reach-in_room draw draw-Drawn alone "c1" a_in_x waiting_room alone-Reach refl (λ e. cc) refl

-- A player whose game is on joins again: the server puts it into a new room, and its snake stays behind
-- in the old one, whose players it no longer hears of.
abbrev both : GameServer
both = (on_message draw "c2" "z" join (on_connect "c2" "b" alone).0).0

abbrev joined_again : GameServer
joined_again = (on_message draw "c1" "y" join both).0

left_behind :
    (map_option (in_room "a") (lookup "x" joined_again.rooms) ≡ some true)
    × (lookup "c1" joined_again.players ≡ some (record { id = "a"; room_id = "y" }))
unfolding lookup insert on_connect on_message new_game_server in_room draw
left_behind = (refl, refl)
