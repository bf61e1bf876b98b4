-- ===== src/Game/Room/Ends.antt =====
-- examples/snake_battle/game/game.go: how a game ends.
use grodyia.Prelude.{
  ◌≡◌, ◌≤◌, ◌⊎◌, inl, inr, refl, ap, ◌∙◌, ℕ, String, string_eq, nat_eq, ◌==◌, true, false, List, [],
  ◌∷◌, ◌++◌, Option, none, some, if◌then◌else◌, leb, arith, Bool-cases, eq_iff, Dict, lookup,
  DistinctKeys,
}
use grodyia.Game.{Snake, Direction}
use grodyia.Game.Room.{
  Room, finished, is_waiting, is_playing, add_player, remove_player, room_set_direction, turn_found,
  start, stop, update, check_end, alive_count, winner_id,
}
use grodyia.Game.Room.Reach.{Step, adds, removes, turns, starts, stops, updates, step, run}

none_alive :
    (players : Dict String Snake) (id : String) (s : Snake)
    → alive_count players ≡ 0
    → lookup id players ≡ some s
    → s.alive ≡ false
unfolding alive_count lookup
none_alive [] id s h l = cc
none_alive ((other, o) ∷ rest) id s h l = ground (arith, none_alive rest id s)

winner_alive :
    (players : Dict String Snake)
    → alive_count players ≡ 1
    → DistinctKeys players
    → (s : Snake) × (lookup (winner_id players) players ≡ some s) × (s.alive ≡ true)
unfolding alive_count winner_id lookup
winner_alive [] h d = absurd (omega arith)
winner_alive ((id, s) ∷ rest) h (n, d) = elim (Bool-cases s.alive) [
  | inl y ↦ (s, ground (arith, eq_iff id id), y)
  | inr z ↦
      let (w, found, up) = winner_alive rest (ground arith) d in
      (w, ground (arith, eq_iff id (winner_id rest)), up)
]

winner_only :
    (players : Dict String Snake) (id : String) (s : Snake)
    → alive_count players ≡ 1
    → lookup id players ≡ some s
    → s.alive ≡ true
    → id ≡ winner_id players
unfolding alive_count winner_id lookup
winner_only [] id s h l up = cc
winner_only ((other, o) ∷ rest) id s h l up =
    ground (arith, winner_only rest id s, none_alive rest id s, eq_iff other id)

-- The winner that is reported: the one snake that is alive, if there is one, and else nobody.
abbrev pub IsWinner : String → Dict String Snake → Type 0
IsWinner id players =
    ((alive_count players ≡ 0) × (id ≡ ""))
    ⊎ ((s : Snake) × (lookup id players ≡ some s)
        × (s.alive ≡ true)
        × ((other : String) (o : Snake)
            → lookup other players ≡ some o
            → o.alive ≡ true
            → other ≡ id))

winner_lem :
    (players : Dict String Snake)
    → DistinctKeys players
    → alive_count players ≤ 1
    → IsWinner (if alive_count players == 1 then winner_id players else "") players
winner_lem players d h = elim (Bool-cases (alive_count players == 1)) [
  | inl y ↦
      let one : alive_count players ≡ 1 = ground arith in
      let (s, found, up) = winner_alive players one d in
      rw y (inr (s, found, up, λ other o l a. winner_only players other o one l a))
  | inr n ↦ rw n (inl (ground arith, refl))
]

-- The end of an update of a playing room: while two snakes or more are alive nothing changes; else the game is
-- finished and reports as its winner the one snake that is alive, or nobody if none is.
pub check_end_lem :
    (r : Room)
    → DistinctKeys r.players
    → is_playing r.state ≡ true
    → ((2 ≤ alive_count r.players) × (check_end r ≡ r))
      ⊎ ((check_end r).state ≡ finished)
        × (id : String) × ((check_end r).ended ≡ r.ended ++ id ∷ [])
        × IsWinner id r.players
unfolding check_end
check_end_lem r d p = elim (Bool-cases (leb (alive_count r.players) 1)) [
  | inr n ↦ rw n (inl (ground arith, refl))
  | inl y ↦ rw y (inr (refl, _, refl, winner_lem r.players d (ground arith)))
]

-- What a finished room keeps.
abbrev pub Over : Room → Room → Type 0
Over r r' =
    (r'.state ≡ finished) × (r'.ended ≡ r.ended) × (r'.foods ≡ r.foods) × (r'.loops ≡ r.loops)

turn_found-Over :
    (id : String) (d : Direction) (found : Option Snake) (r : Room)
    → r.state ≡ finished
    → Over r (turn_found id d found r)
unfolding turn_found
turn_found-Over id d none r f = (f, refl, refl, refl)
turn_found-Over id d (some s) r f = (f, refl, refl, refl)

module _ (draw : ℕ → ℕ × ℕ) where
  step-Over : (s : Step) (r : Room) → r.state ≡ finished → Over r (step draw s r)
  unfolding step add_player remove_player room_set_direction start stop update
  step-Over (adds id) r f = ground arith
  step-Over (removes id) r f = (f, refl, refl, refl)
  step-Over (turns id d) r f = turn_found-Over id d (lookup id r.players) r f
  step-Over starts r f = rw (ap is_waiting f) (f, refl, refl, refl)
  step-Over stops r f = (f, refl, refl, refl)
  step-Over (updates back) r f = rw (ap is_playing f) (f, refl, refl, refl)

  -- A finished game stays finished: whatever is done to the room afterwards, the state, the reported
  -- winner, the foods and the number of loops started stay as they are.
  pub run-Over : (ss : List Step) (r : Room) → r.state ≡ finished → Over r (run draw ss r)
  unfolding run
  run-Over [] r f = (f, refl, refl, refl)
  run-Over (s ∷ ss) r f =
      let now = step-Over s r f in
      let later = run-Over ss (step draw s r) now.0 in
      (later.0, later.1 ∙ now.1, later.2 ∙ now.2, later.3 ∙ now.3)
