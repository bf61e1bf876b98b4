-- ===== src/Game/Server/Steps.antt =====
-- examples/snake_battle/main.go: the steps of the server. A connection has an id of its own, and uuid draws
-- texts that are not in use.
use grodyia.Prelude.{◌≡◌, ◌≢◌, ℕ, String, string_eq, Bool, none, some, lookup, insert}
use grodyia.Game.Room.{Room}
use grodyia.Game.Server.{
  GameServer, Player, on_connect, on_disconnect, on_message, Request, tick, end_game, stop_rooms,
}

-- No player has the id.
abbrev pub IsNewPlayer : String → GameServer → Type 0
IsNewPlayer id g = (conn : String) (p : Player) → lookup conn g.players ≡ some p → p.id ≢ id

-- No room has the id, and no player remembers one that had.
abbrev pub IsNewRoom : String → GameServer → Type 0
IsNewRoom id g =
    (lookup id g.rooms ≡ none)
    × (id ≢ "")
    × ((conn : String) (p : Player) → lookup conn g.players ≡ some p → p.room_id ≢ id)

module _ (draw : ℕ → ℕ × ℕ) where
  pub data Step : GameServer → GameServer → Type 0 where
    connects :
        (g : GameServer) (conn id : String)
        → lookup conn g.players ≡ none
        → IsNewPlayer id g
        → Step g (on_connect conn id g).0
    disconnects : (g : GameServer) (conn : String) → Step g (on_disconnect conn g).0
    messages :
        (g : GameServer) (conn fresh : String) (request : Request)
        → IsNewRoom fresh g
        → Step g (on_message draw conn fresh request g).0
    ticks :
        (g : GameServer) (id : String) (r : Room) (back : Bool)
        → lookup id g.rooms ≡ some r
        → Step g (record g { rooms = insert id (tick draw back r) g.rooms })
    ends : (g : GameServer) (id : String) → Step g (end_game id g)
    stops : (g : GameServer) → Step g (record g { rooms = stop_rooms g.rooms })

  pub data Reach (b : GameServer) : GameServer → Type 0 where
    here : Reach b b
    next : {c d : GameServer} → Reach b c → Step c d → Reach b d
