-- ===== src/Game/Room/Tests.antt =====
-- A room of two players, and the theorems at it.
use grodyia.Prelude.{
  ◌≡◌, ◌≢◌, ◌⊎◌, ◌≤◌, refl, arith, ℕ, ◌+◌, ◌%◌, String, string_eq, true, false, List, [], ◌∷◌, ◌++◌,
  lookup, insert,
}
use grodyia.Prelude.Int.{pos}
use grodyia.Game.{
  Snake, dir_up, dir_left, dir_right, ahead, new_snake, move, set_direction, body, drop_last,
  check_wall_collision, check_self_collision,
}
use grodyia.Game.Body.{move-set_direction}
use grodyia.Game.Room.{
  Room, finished, playing, new_room, update, check_end, take_turns, take_turn, move_all, dies,
  hits_other, alive_count, winner_id,
}
use grodyia.Game.Room.Spawn.{Drawn}
use grodyia.Game.Room.Reach.{Step, adds, turns, starts, updates, run, Inv, run-new_room-Inv}
use grodyia.Game.Room.Ends.{IsWinner, check_end_lem, Over, run-Over}

-- Foods are drawn far from the snakes.
draw : ℕ → ℕ × ℕ
draw i = ((i + 12) % 40, 3)

draw-Drawn : Drawn draw
unfolding draw
draw-Drawn i = (omega arith, omega arith)

abbrev begin : List Step
begin = adds "a" ∷ adds "b" ∷ starts ∷ turns "a" dir_up ∷ updates false ∷ updates true ∷ []

run-new_room-Inv_example : Inv (run draw begin new_room)
run-new_room-Inv_example = run-new_room-Inv draw draw-Drawn begin

abbrev runner : Snake
runner = move (new_snake 5 15 dir_right)

straight_back : (move (set_direction dir_left runner)).head ≢ record { x = pos 5; y = pos 15 }
unfolding move new_snake ahead
straight_back = move-set_direction runner dir_left (record { x = pos 5; y = pos 15 }) refl refl

-- Two calls of SetDirection between two updates turn a snake round, into its own neck.
turned_round :
    let s = move (set_direction dir_left (set_direction dir_up runner)) in
    (s.head ≡ record { x = pos 5; y = pos 15 }) × (check_self_collision s ≡ true)
unfolding move set_direction new_snake ahead drop_last check_self_collision
turned_round = (refl, refl)

-- Two snakes whose heads will meet.
abbrev facing : Room
facing = record new_room {
  players = ("a", new_snake 18 15 dir_right) ∷ ("b", new_snake 20 15 dir_left) ∷ [];
  state = playing;
}

-- The one that Go visits first dies, and the other one wins.
head_on :
    ((update draw ("a" ∷ "b" ∷ []) facing).ended ≡ "b" ∷ [])
    × ((update draw ("b" ∷ "a" ∷ []) facing).ended ≡ "a" ∷ [])
unfolding update move_all move new_snake ahead drop_last take_turns take_turn dies hits_other body
    check_wall_collision check_self_collision check_end alive_count winner_id new_room lookup insert
head_on = (refl, refl)

abbrev over : Room
over = record facing {
  players =
      ("a", record (new_snake 18 15 dir_right) { alive = false })
      ∷ ("b", new_snake 20 15 dir_left)
      ∷ [];
}

one_left :
    ((2 ≤ alive_count over.players) × (check_end over ≡ over))
    ⊎ ((check_end over).state ≡ finished)
      × (id : String) × ((check_end over).ended ≡ over.ended ++ id ∷ [])
      × IsWinner id over.players
unfolding lookup new_room
one_left = check_end_lem over (refl, (refl, tt)) refl

ended_room : (check_end over).state ≡ finished
unfolding check_end alive_count new_snake
ended_room = refl

run-Over_example : Over (check_end over) (run draw begin (check_end over))
run-Over_example = run-Over draw begin (check_end over) ended_room
