-- ===== src/Game/Room/Reach.antt =====
-- examples/snake_battle/game/game.go: a room over any history of its methods and of the ticks of its loop.
use grodyia.Prelude.{
  ◌≡◌, ◌≤◌, inl, inr, refl, sym, ap, ◌∙◌, subst, ℕ, suc, String, string_eq, nat_eq, ◌==◌, Bool,
  true, false, List, [], ◌∷◌, Option, none, some, if◌then◌else◌, length, length-append, leb, arith,
  Bool-cases, if_cases, Dict, lookup, insert, lookup-insert, lookup-delete, DistinctKeys,
  insert-DistinctKeys, delete-DistinctKeys, length-insert-le, length-insert-some, length-delete-le,
}
use grodyia.Game.{Snake, Direction, set_direction}
use grodyia.Game.Body.{IsFit, set_direction-IsFit, new_snake-right, new_snake-left}
use grodyia.Game.Room.{
  Room, RoomState, waiting, playing, finished, is_waiting, is_playing, is_finished, new_room,
  add_player, remove_player, room_set_direction, turn_found, start, start_snake, stop, update,
  check_end, take_turns, move_all, spawn_food, alive_count,
}
use grodyia.Game.Room.Order.{
  order_of, order-DistinctIds, moved-Turns, move_all-DistinctKeys, length-move_all,
}
use grodyia.Game.Room.Spawn.{Drawn, spawn_food-Spawned, Fed, Spawned-Fed}
use grodyia.Game.Room.Turns.{take_turns-Kept, take_turns-Turns}

pub data Step : Type 0 where
  adds removes : String → Step
  turns : String → Direction → Step
  starts stops : Step
  updates : Bool → Step

pub record Inv (r : Room) : Type 0 where
  pub few : length r.players ≤ 2
  pub ids : DistinctKeys r.players
  pub fit : (id : String) (s : Snake) → lookup id r.players ≡ some s → IsFit s
  pub fed : Fed 3 r.foods
  pub unbegun : is_waiting r.state ≡ true → (r.foods ≡ []) × (r.loops ≡ 0)
  pub begun : is_waiting r.state ≡ false → r.loops ≡ 1
  pub ends_once : length r.ended ≡ (if is_finished r.state then 1 else 0)

insert-IsFit :
    (id : String) (s : Snake) (players : Dict String Snake)
    → IsFit s
    → ((other : String) (o : Snake) → lookup other players ≡ some o → IsFit o)
    → (other : String) (o : Snake) → lookup other (insert id s players) ≡ some o
    → IsFit o
insert-IsFit id s players f h other o l = elim (Bool-cases (id == other)) [
  | inl y ↦ subst IsFit (ground (arith, lookup-insert id other s players)) f
  | inr n ↦ h other o (ground (arith, lookup-insert id other s players))
]

start_snake-IsFit : (count : ℕ) → IsFit (start_snake count)
unfolding start_snake
start_snake-IsFit count =
    if_cases IsFit (count == 0) _ _ (λ e. new_snake-right) (λ e. new_snake-left)

room_left : (r : Room) → leb 2 (length r.players) ≡ false → length r.players ≤ 1
room_left r n = ground arith

not_finished : (st : RoomState) → is_waiting st ≡ true → is_finished st ≡ false
not_finished waiting e = refl
not_finished playing e = refl
not_finished finished e = cc

only_playing :
    (st : RoomState) → is_playing st ≡ true → (is_waiting st ≡ false) × (is_finished st ≡ false)
only_playing waiting e = cc
only_playing playing e = (refl, refl)
only_playing finished e = cc

check_end-Inv : (r : Room) → is_playing r.state ≡ true → Inv r → Inv (check_end r)
unfolding check_end
check_end-Inv r p h = elim (Bool-cases (leb (alive_count r.players) 1)) [
  | inr n ↦ rw n h
  | inl y ↦ rw y (record {
    few = h.few;
    ids = h.ids;
    fit = h.fit;
    fed = h.fed;
    unbegun = λ e. cc;
    begun = λ e. h.begun ((only_playing r.state p).0);
    ends_once =
        let none_yet = h.ends_once ∙ ap (λ b. if b then 1 else 0) ((only_playing r.state p).1) in
        omega (arith, length-append r.ended (_ ∷ []), none_yet);
  })
]

waiting_ends : (r : Room) → Inv r → is_waiting r.state ≡ true → length r.ended ≡ 0
waiting_ends r h y = h.ends_once ∙ ap (λ b. if b then 1 else 0) (not_finished r.state y)

adds-Inv : (id : String) (r : Room) → Inv r → Inv (add_player id r).0
unfolding add_player
adds-Inv id r h = elim (Bool-cases (leb 2 (length r.players))) [
  | inl y ↦ rw y h
  | inr n ↦
      let s = start_snake (length r.players) in
      rw n (record {
        few = omega (arith, length-insert-le id s r.players, room_left r n);
        ids = insert-DistinctKeys id s r.players h.ids;
        fit = insert-IsFit id s r.players (start_snake-IsFit (length r.players)) h.fit;
        fed = h.fed;
        unbegun = h.unbegun;
        begun = h.begun;
        ends_once = h.ends_once;
      })
]

removes-Inv : (id : String) (r : Room) → Inv r → Inv (remove_player id r)
unfolding remove_player
removes-Inv id r h = record {
  few = omega (arith, length-delete-le id r.players, h.few);
  ids = delete-DistinctKeys id r.players h.ids;
  fit = λ other o l. h.fit other o (ground (arith, lookup-delete id other r.players));
  fed = h.fed;
  unbegun = h.unbegun;
  begun = h.begun;
  ends_once = h.ends_once;
}

turn_found-Inv :
    (id : String) (d : Direction) (found : Option Snake) (r : Room)
    → lookup id r.players ≡ found
    → Inv r
    → Inv (turn_found id d found r)
unfolding turn_found
turn_found-Inv id d none r l h = h
turn_found-Inv id d (some s) r l h =
    let s' = set_direction d s in
    record {
      few = omega (arith, length-insert-some id s' s r.players l, h.few);
      ids = insert-DistinctKeys id s' r.players h.ids;
      fit = insert-IsFit id s' r.players (set_direction-IsFit d s (h.fit id s l)) h.fit;
      fed = h.fed;
      unbegun = h.unbegun;
      begun = h.begun;
      ends_once = h.ends_once;
    }

begun_foods : (n : ℕ) → Fed n []
begun_foods n = record { inside = tt; apart = tt; few = omega arith }

module _ (draw : ℕ → ℕ × ℕ) (drawn : Drawn draw) where
  starts-Inv : (r : Room) → Inv r → Inv (start draw r)
  unfolding start
  starts-Inv r h = elim (Bool-cases (is_waiting r.state)) [
    | inr n ↦ rw n h
    | inl y ↦
        let one = spawn_food draw (record r { state = playing }) in
        let two = spawn_food draw one in
        let a = spawn_food-Spawned draw drawn (record r { state = playing }) in
        let b = spawn_food-Spawned draw drawn one in
        let c = spawn_food-Spawned draw drawn two in
        let none_yet : Fed 0 r.foods = subst (Fed 0) (sym (h.unbegun y).0) (begun_foods 0) in
        let fed = spawn_food draw two in
        let same : (fed.players ≡ r.players) × (fed.state ≡ playing) × (fed.ended ≡ r.ended) = (
          c.kept.0 ∙ b.kept.0 ∙ a.kept.0,
          c.kept.1 ∙ b.kept.1 ∙ a.kept.1,
          c.kept.4 ∙ b.kept.4 ∙ a.kept.4,
        ) in
        rw y (record {
          few = rw same.0 h.few;
          ids = rw same.0 h.ids;
          fit = rw same.0 h.fit;
          fed = Spawned-Fed 2 two _ c (
              Spawned-Fed 1 one two b
                (Spawned-Fed 0 (record r { state = playing }) one a none_yet));
          unbegun = λ e. cc (sym e ∙ ap is_waiting same.1);
          begun = λ e. ap suc (h.unbegun y).1;
          ends_once = rw (same.1, same.2) (waiting_ends r h y);
        })
  ]

  -- The state after the loop over the snakes, before the end of the game is looked for.
  turned-Inv :
      (back : Bool) (r : Room)
      → is_playing r.state ≡ true
      → Inv r
      → Inv (take_turns draw (order_of back r.players) (record r { players = move_all r.players }))
  turned-Inv back r p h =
      let order = order_of back r.players in
      let moved = record r { players = move_all r.players } in
      let k = take_turns-Kept draw drawn order moved in
      let distinct = order-DistinctIds back r.players h.ids in
      let all =
        take_turns-Turns draw drawn order moved distinct (moved-Turns back r.players h.fit) in
      record {
        few = omega (arith, k.count, length-move_all r.players, h.few);
        ids = k.keys (move_all-DistinctKeys r.players h.ids);
        fit = all;
        fed = k.fed h.fed;
        unbegun = λ e. cc (sym e ∙ ap is_waiting k.same.0 ∙ (only_playing r.state p).0);
        begun = λ e. k.same.2 ∙ h.begun ((only_playing r.state p).0);
        ends_once = rw (k.same.0, k.same.3) h.ends_once;
      }

  updates-Inv : (back : Bool) (r : Room) → Inv r → Inv (update draw (order_of back r.players) r)
  unfolding update
  updates-Inv back r h = elim (Bool-cases (is_playing r.state)) [
    | inr n ↦ rw n h
    | inl y ↦
        let after =
          take_turns draw (order_of back r.players) (record r { players = move_all r.players }) in
        let k =
          take_turns-Kept draw drawn (order_of back r.players)
            (record r { players = move_all r.players }) in
        rw y (check_end-Inv after (ap is_playing k.same.0 ∙ y) (turned-Inv back r y h))
  ]

  stops-Inv : (r : Room) → Inv r → Inv (stop r)
  unfolding stop
  stops-Inv r h = record {
    few = h.few;
    ids = h.ids;
    fit = h.fit;
    fed = h.fed;
    unbegun = h.unbegun;
    begun = h.begun;
    ends_once = h.ends_once;
  }

module _ (draw : ℕ → ℕ × ℕ) where
  unfoldable pub step : Step → Room → Room
  unfolding add_player remove_player room_set_direction start stop update order_of
  step (adds id) r = (add_player id r).0
  step (removes id) r = remove_player id r
  step (turns id dir) r = room_set_direction id dir r
  step starts r = start draw r
  step stops r = stop r
  step (updates back) r = update draw (order_of back r.players) r

  unfoldable pub run : List Step → Room → Room
  unfolding step
  run [] r = r
  run (s ∷ ss) r = run ss (step s r)

module _ (draw : ℕ → ℕ × ℕ) (drawn : Drawn draw) where
  pub step-Inv : (s : Step) (r : Room) → Inv r → Inv (step draw s r)
  unfolding step room_set_direction
  step-Inv (adds id) r h = adds-Inv id r h
  step-Inv (removes id) r h = removes-Inv id r h
  step-Inv (turns id d) r h = turn_found-Inv id d (lookup id r.players) r refl h
  step-Inv starts r h = starts-Inv draw drawn r h
  step-Inv stops r h = stops-Inv draw drawn r h
  step-Inv (updates back) r h = updates-Inv draw drawn back r h

  run-Inv : (ss : List Step) (r : Room) → Inv r → Inv (run draw ss r)
  unfolding run
  run-Inv [] r h = h
  run-Inv (s ∷ ss) r h = run-Inv ss (step draw s r) (step-Inv s r h)

  new-Inv : Inv new_room
  unfolding new_room lookup
  new-Inv = record {
    few = omega arith;
    ids = tt;
    fit = λ id s l. cc;
    fed = begun_foods 3;
    unbegun = λ e. (refl, refl);
    begun = λ e. cc;
    ends_once = refl;
  }

  -- If math/rand draws within its bounds, then after any history of a new room, in whichever order each
  -- update visits the players: there are at most two players; the segments of every snake are one step
  -- apart, and there are three of them and one for every ten points, of which the last may be due; every
  -- segment of a snake that is alive lies in the grid; there are at most three foods, which lie in the grid
  -- and on different points, and none before the start; one loop was started exactly if the game was;
  -- and onGameEnd was called once if the game is finished, and else never.
  pub run-new_room-Inv : (ss : List Step) → Inv (run draw ss new_room)
  run-new_room-Inv ss = run-Inv ss new_room new-Inv
