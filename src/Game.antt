-- ===== src/Game.antt =====
-- examples/snake_battle/game/game.go: points and snakes. A coordinate is an integer, since a head may
-- leave the grid; a snake that does so moves no further, so that no coordinate overflows.
pub mod Body
pub mod Room
pub mod Server
use grodyia.Prelude.{
  ℕ, suc, ◌+◌, ◌-◌, Bool, true, false, ◌&&◌, ◌||◌, List, [], ◌∷◌, ◌++◌, if◌then◌else◌, length, ltb,
  any,
}
use grodyia.Prelude.Int.{ℤ, pos, inc, dec, sub_ℕ, beq_ℤ, ltb_ℤ, leb_ℤ}

abbrev pub grid_width : ℕ
grid_width = 40

abbrev pub grid_height : ℕ
grid_height = 30

pub data Direction : Type 0 where
  dir_up dir_down dir_left dir_right : Direction

pub record Point : Type 0 where
  pub x : ℤ
  pub y : ℤ

abbrev pub same_point : Point → Point → Bool
same_point p q = beq_ℤ p.x q.x && beq_ℤ p.y q.y

-- `Body` is never empty: it is `head`, the first segment, and `rest`. NewSnake makes three segments, and
-- Move takes one off only after it has added one.
pub record Snake : Type 0 where
  pub head : Point
  pub rest : List Point
  pub direction : Direction
  pub growing : Bool
  pub alive : Bool
  pub score : ℕ

-- The segment that NewSnake puts at the index `i`.
segment : ℕ → ℕ → Direction → ℕ → Point
segment start_x start_y dir_up i = record { x = pos start_x; y = pos (start_y + i) }
segment start_x start_y dir_down i = record { x = pos start_x; y = sub_ℕ start_y i }
segment start_x start_y dir_left i = record { x = pos (start_x + i); y = pos start_y }
segment start_x start_y dir_right i = record { x = sub_ℕ start_x i; y = pos start_y }

unfoldable pub new_snake : ℕ → ℕ → Direction → Snake
unfolding segment
new_snake start_x start_y dir = record {
  head = record { x = pos start_x; y = pos start_y };
  rest = segment start_x start_y dir 1 ∷ segment start_x start_y dir 2 ∷ [];
  direction = dir;
  growing = false;
  alive = true;
  score = 0;
}

unfoldable pub body : Snake → List Point
body s = s.head ∷ s.rest

-- `newHead` of Move.
unfoldable pub ahead : Direction → Point → Point
ahead dir_up p = record p { y = dec p.y }
ahead dir_down p = record p { y = inc p.y }
ahead dir_left p = record p { x = dec p.x }
ahead dir_right p = record p { x = inc p.x }

-- `s.Body[:len(s.Body)-1]`, without the new head.
unfoldable pub drop_last : Point → List Point → List Point
drop_last p [] = []
drop_last p (q ∷ ps) = p ∷ drop_last q ps

unfoldable pub move : Snake → Snake
unfolding ahead drop_last
move s =
    if s.alive
    then record s {
      head = ahead s.direction s.head;
      rest = if s.growing then s.head ∷ s.rest else drop_last s.head s.rest;
      growing = false;
    }
    else s

abbrev pub opposite : Direction → Direction → Bool
opposite dir_up dir_down = true
opposite dir_down dir_up = true
opposite dir_left dir_right = true
opposite dir_right dir_left = true
opposite _ _ = false

unfoldable pub set_direction : Direction → Snake → Snake
set_direction dir s = if opposite s.direction dir then s else record s { direction = dir }

unfoldable pub grow : Snake → Snake
grow s = record s { growing = true; score = s.score + 10 }

unfoldable pub check_self_collision : Snake → Bool
check_self_collision s = any (same_point s.head) s.rest

unfoldable pub check_wall_collision : Snake → Bool
check_wall_collision s =
    ltb_ℤ s.head.x (pos 0)
    || leb_ℤ (pos grid_width) s.head.x
    || ltb_ℤ s.head.y (pos 0)
    || leb_ℤ (pos grid_height) s.head.y
