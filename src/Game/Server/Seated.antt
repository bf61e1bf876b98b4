-- ===== src/Game/Server/Seated.antt =====
-- examples/snake_battle/main.go: a player and the room that it says it is in.
use grodyia.Prelude.{
  ◌≡◌, ◌≢◌, ◌⊎◌, refl, sym, ap, ◌∙◌, subst, inl, inr, arith, eq_iff, ==-refl, ℕ, String, string_eq,
  nat_eq, true, ◌==◌, Option, none, some, Bool-cases, if_cases, Dict, lookup, insert, delete,
  lookup-insert, DistinctKeys, insert-DistinctKeys, delete-DistinctKeys,
}
use grodyia.Game.Room.{Room, new_room, add_player}
use grodyia.Game.Room.Spawn.{Drawn}
use grodyia.Game.Room.Members.{in_room, add_player-in_room, add_player_self}
use grodyia.Game.Server.{
  Request, malformed, join, leave, unknown, direction, message_found, on_message, GameServer,
  Player, Sent, new_game_server, on_connect, on_disconnect, disconnect_found, join_room,
  handle_join, handle_leave, handle_direction, turn_room, direction_of, tick, end_game, remove_room,
  stop_rooms, leave_room, room_for, find_available_room, room_or_new, create_room, start_full,
}
use grodyia.Game.Server.Steps.{IsNewPlayer, IsNewRoom}
use grodyia.Game.Server.Steps
use grodyia.Game.Server.Sits.{
  insert-Sits, delete-Sits, stop_rooms-Sits, leave_room-Sits, leave_room-own, turn_room-Sits,
  start_full-in_room, tick-in_room, stop_rooms-DistinctKeys, turn_room-DistinctKeys,
  find_available_room-lookup,
}
use grodyia.Game.Server.Players.{Inv, rooms-Inv, leave_room-DistinctKeys, others-Inv, gone-Inv}

new-Inv : Inv new_game_server
unfolding new_game_server lookup
new-Inv = record { keyed = tt; distinct = λ c d p q lp lq same. cc; seated = λ c p l n. cc }

-- A player after one has connected is that one, or was there before.
found_joined :
    (players : Dict String Player) (conn : String) (new : Player) (c : String) (q : Player)
    → lookup c (insert conn new players) ≡ some q
    → ((conn ≡ c) × (new ≡ q)) ⊎ (lookup c players ≡ some q)
found_joined players conn new c q e = elim (Bool-cases (conn == c)) [
  | inl y ↦ inl ((eq_iff conn c).0 y, ground (arith, e, lookup-insert conn c new players))
  | inr n ↦ inr (ground (arith, e, lookup-insert conn c new players))
]

connects-Inv :
    (g : GameServer) (conn id : String) → IsNewPlayer id g → Inv g → Inv (on_connect conn id g).0
unfolding on_connect
connects-Inv g conn id new h = record {
  keyed = h.keyed;
  distinct = λ c d p q lp lq same.
      let new_player : Player = record { id = id; room_id = "" } in
      elim (found_joined g.players conn new_player c p lp) [
        | inl (at, here) ↦ elim (found_joined g.players conn new_player d q lq) [
          | inl (at', here') ↦ sym at ∙ at'
          | inr before ↦ absurd (new d q before (sym same ∙ sym (ap (λ o. o.id) here)))
        ]
        | inr before ↦ elim (found_joined g.players conn new_player d q lq) [
          | inl (at, here) ↦ absurd (new c p before (same ∙ sym (ap (λ o. o.id) here)))
          | inr before' ↦ h.distinct c d p q before before' same
        ]
      ];
  seated = λ c p l n. elim (found_joined g.players conn (record { id = id; room_id = "" }) c p l) [
    | inl (at, here) ↦ absurd (n (sym (ap (λ o. o.room_id) here)))
    | inr before ↦ h.seated c p before n
  ];
}

disconnect_found-Inv :
    (g : GameServer) (conn : String) (found : Option Player)
    → lookup conn g.players ≡ found
    → Inv g
    → Inv (disconnect_found conn found g).0
unfolding disconnect_found
disconnect_found-Inv g conn none l h = h
disconnect_found-Inv g conn (some p) l h =
    gone-Inv g (leave_room p g.rooms).0 conn p l h (leave_room-DistinctKeys p g.rooms h.keyed)
      (λ id other n s. leave_room-Sits id other p g.rooms n s)

leaves-Inv :
    (g : GameServer) (conn : String) (p : Player)
    → lookup conn g.players ≡ some p
    → Inv g
    → Inv (handle_leave conn p g).0
unfolding handle_leave
leaves-Inv g conn p l h =
    others-Inv g (leave_room p g.rooms).0 conn p (leave_room p g.rooms).1 l h
      (leave_room-DistinctKeys p g.rooms h.keyed)
      (λ id other n s. leave_room-Sits id other p g.rooms n s) (leave_room-own p g.rooms)

module _ (draw : ℕ → ℕ × ℕ) (drawn : Drawn draw) where
  -- Joining a room that was found, or a new one.
  join_room-Inv :
      (g : GameServer) (conn : String) (p : Player) (id : String) (room : Room)
      (rooms : Dict String Room)
      → lookup conn g.players ≡ some p
      → lookup id rooms ≡ some room
      → DistinctKeys rooms
      → Inv (record g { rooms = rooms })
      → Inv (join_room draw conn p id room rooms g).0
  unfolding join_room
  join_room-Inv g conn p id room rooms l e d h =
      let r = (add_player p.id room).0 in
      if_cases (λ (out : GameServer × Sent). Inv out.0) (add_player p.id room).1 _ _
        (λ added.
          others-Inv (record g { rooms = rooms }) (insert id (start_full draw r) rooms) conn p id l
            h (insert-DistinctKeys id (start_full draw r) rooms d)
            (λ other other_room n s.
              insert-Sits other other_room id (start_full draw r) rooms
                (λ same.
                  start_full-in_room draw drawn other r
                  ∙ add_player-in_room other p.id room
                      (s room (ap (λ i. lookup i rooms) (sym same) ∙ e)))
                s)
            (λ n k f.
              let same : start_full draw r ≡ k =
                ground (arith, f, lookup-insert id id (start_full draw r) rooms, ==-refl id) in
              subst (λ q. in_room p.id q ≡ true) same
                (start_full-in_room draw drawn p.id r ∙ add_player_self p.id room added)))
        (λ refused. h)

  -- The rooms with a new one, which no player says it is in.
  created-Inv :
      (g : GameServer) (fresh : String)
      → IsNewRoom fresh g
      → Inv g
      → Inv (record g { rooms = create_room fresh g.rooms })
  unfolding create_room
  created-Inv g fresh new h = record {
    keyed = insert-DistinctKeys fresh new_room g.rooms h.keyed;
    distinct = h.distinct;
    seated = λ c p l n.
        insert-Sits p.id p.room_id fresh new_room g.rooms (λ same. absurd (new.2 c p l (sym same)))
          (h.seated c p l n);
  }

  join_found-Inv :
      (g : GameServer) (conn fresh : String) (p : Player) (found : Option (String × Room))
      → lookup conn g.players ≡ some p
      → IsNewRoom fresh g
      → ((id : String) (r : Room) → found ≡ some (id, r) → lookup id g.rooms ≡ some r)
      → Inv g
      → let (id, room, rooms) = room_or_new fresh found g.rooms in
        Inv (join_room draw conn p id room rooms g).0
  unfolding room_or_new create_room
  join_found-Inv g conn fresh p none l new f h =
      join_room-Inv g conn p fresh new_room (insert fresh new_room g.rooms) l
        (ground (arith, lookup-insert fresh fresh new_room g.rooms, ==-refl fresh))
        (insert-DistinctKeys fresh new_room g.rooms h.keyed) (created-Inv g fresh new h)
  join_found-Inv g conn fresh p (some (id, r)) l new f h =
      join_room-Inv g conn p id r g.rooms l (f id r refl) h.keyed h

  message_found-Inv :
      (g : GameServer) (conn fresh : String) (request : Request) (found : Option Player)
      → lookup conn g.players ≡ found
      → IsNewRoom fresh g
      → Inv g
      → Inv (message_found draw conn fresh request found g).0
  unfolding message_found handle_join handle_direction room_for
  message_found-Inv g conn fresh malformed found e new h = h
  message_found-Inv g conn fresh join none e new h = h
  message_found-Inv g conn fresh leave none e new h = h
  message_found-Inv g conn fresh unknown none e new h = h
  message_found-Inv g conn fresh (direction text) none e new h = h
  message_found-Inv g conn fresh join (some p) e new h =
      join_found-Inv g conn fresh p (find_available_room g.rooms) e new
        (λ id r f. find_available_room-lookup id r g.rooms h.keyed f) h
  message_found-Inv g conn fresh leave (some p) e new h = leaves-Inv g conn p e h
  message_found-Inv g conn fresh unknown (some p) e new h = h
  message_found-Inv g conn fresh (direction none) (some p) e new h = h
  message_found-Inv g conn fresh (direction (some text)) (some p) e new h =
      let turned = turn_room p (lookup p.room_id g.rooms) (direction_of text) g.rooms in
      if_cases (λ (k : GameServer). Inv k) (p.room_id == "") _ _ (λ y. h)
        (λ y.
          rooms-Inv g turned h
            (turn_room-DistinctKeys p (lookup p.room_id g.rooms) (direction_of text) g.rooms
              h.keyed)
            (λ id room_id s.
              turn_room-Sits id room_id p (lookup p.room_id g.rooms) (direction_of text) g.rooms
                refl s))

  step-Inv : {g k : GameServer} → Steps.Step draw g k → Inv g → Inv k
  unfolding on_disconnect on_message end_game remove_room
  step-Inv (Steps.connects g conn id none_yet new) h = connects-Inv g conn id new h
  step-Inv (Steps.disconnects g conn) h = disconnect_found-Inv g conn (lookup conn g.players) refl h
  step-Inv (Steps.messages g conn fresh request new) h =
      message_found-Inv g conn fresh request (lookup conn g.players) refl new h
  step-Inv (Steps.ticks g id r back e) h =
      rooms-Inv g (insert id (tick draw back r) g.rooms) h
        (insert-DistinctKeys id (tick draw back r) g.rooms h.keyed)
        (λ other room_id s.
          insert-Sits other room_id id (tick draw back r) g.rooms
            (λ same.
              tick-in_room draw drawn other back r
                (s r (ap (λ i. lookup i g.rooms) (sym same) ∙ e)))
            s)
  step-Inv (Steps.ends g id) h =
      rooms-Inv g (delete id g.rooms) h (delete-DistinctKeys id g.rooms h.keyed)
        (λ other room_id s. delete-Sits other room_id id g.rooms s)
  step-Inv (Steps.stops g) h =
      rooms-Inv g (stop_rooms g.rooms) h (stop_rooms-DistinctKeys g.rooms h.keyed)
        (λ other room_id s. stop_rooms-Sits other room_id g.rooms s)

  reach-Inv : {g k : GameServer} → Inv g → Steps.Reach draw g k → Inv k
  reach-Inv h Steps.here = h
  reach-Inv h (Steps.next r st) = step-Inv st (reach-Inv h r)

  -- Whatever players connect, join, turn, leave and disconnect, however the rooms' loops and calls of
  -- onGameEnd come in between, where uuid draws texts that are not in use and math/rand draws within the
  -- grid: where a player says that it is in a room, and the server has a room with that id, the player has
  -- a snake in it.
  pub reach-in_room :
      (g : GameServer) (conn : String) (p : Player) (r : Room)
      → Steps.Reach draw new_game_server g
      → lookup conn g.players ≡ some p
      → p.room_id ≢ ""
      → lookup p.room_id g.rooms ≡ some r
      → in_room p.id r ≡ true
  reach-in_room g conn p r path l n e = (reach-Inv new-Inv path).seated conn p l n r e
