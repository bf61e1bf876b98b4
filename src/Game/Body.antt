-- ===== src/Game/Body.antt =====
-- examples/snake_battle/game/game.go: the body of a snake through moves, turns and meals.
use grodyia.Prelude.{
  ◌≡◌, ◌≢◌, ◌<◌, inl, inr, refl, sym, ap, ◌∙◌, zero, suc, ◌+◌, ◌*◌, true, false, List, [], ◌∷◌,
  if◌then◌else◌, length, All, arith, Bool-cases,
}
use grodyia.Prelude.Int.{ℤ, pos, negsuc, pos_part, neg_part, gap, inc, dec}
use grodyia.Game.{
  Point, Snake, Direction, dir_up, dir_down, dir_left, dir_right, grid_width, grid_height, ahead,
  drop_last, move, grow, set_direction, opposite, new_snake, check_wall_collision,
}

-- One step apart on the grid.
abbrev pub Adjacent : Point → Point → Type 0
Adjacent p q = gap p.x q.x + gap p.y q.y ≡ 1

abbrev pub Connected : Point → List Point → Type 0
Connected p [] = Unit {0}
Connected p (q ∷ ps) = Adjacent p q × Connected q ps

abbrev pub InGrid : Point → Type 0
InGrid p =
    (neg_part p.x ≡ 0)
    × (pos_part p.x < grid_width)
    × (neg_part p.y ≡ 0)
    × (pos_part p.y < grid_height)

gap_self : (a : ℤ) → gap a a ≡ 0
gap_self a = omega arith

gap-inc : (a : ℤ) → gap (inc a) a ≡ 1
gap-inc (pos n) = omega arith
gap-inc (negsuc zero) = refl
gap-inc (negsuc (suc n)) = omega arith

gap-dec : (a : ℤ) → gap (dec a) a ≡ 1
gap-dec (pos zero) = refl
gap-dec (pos (suc n)) = omega arith
gap-dec (negsuc n) = omega arith

ahead-Adjacent : (d : Direction) (p : Point) → Adjacent (ahead d p) p
unfolding ahead
ahead-Adjacent dir_up p = omega (arith, gap-dec p.y, gap_self p.x)
ahead-Adjacent dir_down p = omega (arith, gap-inc p.y, gap_self p.x)
ahead-Adjacent dir_left p = omega (arith, gap-dec p.x, gap_self p.y)
ahead-Adjacent dir_right p = omega (arith, gap-inc p.x, gap_self p.y)

drop_last-Connected :
    (h p : Point) (ps : List Point) → Connected h (p ∷ ps) → Connected h (drop_last p ps)
unfolding drop_last
drop_last-Connected h p [] c = tt
drop_last-Connected h p (q ∷ ps) (a, c) = (a, drop_last-Connected p q ps c)

drop_last-All :
    (P : Point → Type 0) (p : Point) (ps : List Point) → P p → All P ps → All P (drop_last p ps)
unfolding drop_last
drop_last-All P p [] h a = tt
drop_last-All P p (q ∷ ps) h (hq, a) = (h, drop_last-All P q ps hq a)

length-drop_last : (p : Point) (ps : List Point) → length (drop_last p ps) ≡ length ps
unfolding drop_last
length-drop_last p [] = refl
length-drop_last p (q ∷ ps) = ap suc (length-drop_last q ps)

-- Three segments and one for every ten points, the last of which may be due; the segments one step apart.
pub record Shaped (s : Snake) : Type 0 where
  pub connected : Connected s.head s.rest
  pub sized : (length s.rest + 1 + (if s.growing then 1 else 0)) * 10 ≡ 30 + s.score

-- Between rounds: a snake that is alive is in the grid.
pub record IsFit (s : Snake) : Type 0 where
  pub shape : Shaped s
  pub inside : s.alive ≡ true → InGrid s.head × All InGrid s.rest

-- After a move: the head of a snake that is alive may have left the grid, and it has not eaten yet.
pub record Moved (s : Snake) : Type 0 where
  pub shape : Shaped s
  pub inside : s.alive ≡ true → All InGrid s.rest
  pub hungry : s.alive ≡ true → s.growing ≡ false

move-Shaped : (s : Snake) → Shaped s → Shaped (move s)
unfolding move
move-Shaped s h = ground (
  arith,
  ahead-Adjacent s.direction s.head,
  drop_last-Connected (ahead s.direction s.head) s.head s.rest,
  length-drop_last s.head s.rest,
)

pub move-Moved : (s : Snake) → IsFit s → Moved (move s)
unfolding move
move-Moved s h = record {
  shape = move-Shaped s h.shape;
  inside = let kept = h.inside in ground (arith, drop_last-All InGrid s.head s.rest);
  hungry = ground arith;
}

pub wall-InGrid : (s : Snake) → check_wall_collision s ≡ false → InGrid s.head
unfolding check_wall_collision
wall-InGrid s h = ground arith

pub Moved-IsFit : (s : Snake) → Moved s → check_wall_collision s ≡ false → IsFit s
Moved-IsFit s m h = record { shape = m.shape; inside = λ alive. (wall-InGrid s h, m.inside alive) }

pub Moved-dies : (s : Snake) → Moved s → IsFit (record s { alive = false })
Moved-dies s m = record {
  shape = record { connected = m.shape.connected; sized = m.shape.sized };
  inside = λ e. cc;
}

pub dead-IsFit : (s : Snake) → Moved s → s.alive ≡ false → IsFit s
dead-IsFit s m h = record { shape = m.shape; inside = λ e. cc }

pub grow-IsFit : (s : Snake) → Moved s → s.alive ≡ true → IsFit s → IsFit (grow s)
unfolding grow
grow-IsFit s m alive f = record {
  shape = record {
    connected = m.shape.connected;
    sized = let kept = m.hungry alive in let n = m.shape.sized in ground arith;
  };
  inside = f.inside;
}

pub set_direction-IsFit : (d : Direction) (s : Snake) → IsFit s → IsFit (set_direction d s)
unfolding set_direction
set_direction-IsFit d s f = elim (Bool-cases (opposite s.direction d)) [
  | inl y ↦ rw y f
  | inr n ↦ rw n (record {
    shape = record { connected = f.shape.connected; sized = f.shape.sized };
    inside = f.inside;
  })
]

-- The two snakes that AddPlayer makes.
pub new_snake-right : IsFit (new_snake 5 15 dir_right)
unfolding new_snake
new_snake-right = record {
  shape = record { connected = (refl, (refl, tt)); sized = refl };
  inside = λ e. omega arith;
}

pub new_snake-left : IsFit (new_snake 34 15 dir_left)
unfolding new_snake
new_snake-left = record {
  shape = record { connected = (refl, (refl, tt)); sized = refl };
  inside = λ e. omega arith;
}

inc-ne : (a : ℤ) → inc a ≢ a
inc-ne a e = omega (arith, sym (gap-inc a) ∙ ap (λ b. gap b a) e ∙ gap_self a)

dec-ne : (a : ℤ) → dec a ≢ a
dec-ne a e = omega (arith, sym (gap-dec a) ∙ ap (λ b. gap b a) e ∙ gap_self a)

inc-inc-ne : (a : ℤ) → inc (inc a) ≢ a
inc-inc-ne (pos n) e = ground arith
inc-inc-ne (negsuc zero) e = ground arith
inc-inc-ne (negsuc (suc zero)) e = ground arith
inc-inc-ne (negsuc (suc (suc n))) e = ground arith

dec-dec-ne : (a : ℤ) → dec (dec a) ≢ a
dec-dec-ne (pos zero) e = ground arith
dec-dec-ne (pos (suc zero)) e = ground arith
dec-dec-ne (pos (suc (suc n))) e = ground arith
dec-dec-ne (negsuc n) e = ground arith

-- Two steps come back to the point only if the second is opposite to the first.
ahead-ahead : (c d : Direction) (p : Point) → opposite c d ≡ false → ahead d (ahead c p) ≢ p
unfolding ahead
ahead-ahead dir_up dir_up p h e = dec-dec-ne p.y (ap (λ (q : Point). q.y) e)
ahead-ahead dir_up dir_down p h e = cc
ahead-ahead dir_up dir_left p h e = dec-ne p.x (ap (λ (q : Point). q.x) e)
ahead-ahead dir_up dir_right p h e = inc-ne p.x (ap (λ (q : Point). q.x) e)
ahead-ahead dir_down dir_up p h e = cc
ahead-ahead dir_down dir_down p h e = inc-inc-ne p.y (ap (λ (q : Point). q.y) e)
ahead-ahead dir_down dir_left p h e = dec-ne p.x (ap (λ (q : Point). q.x) e)
ahead-ahead dir_down dir_right p h e = inc-ne p.x (ap (λ (q : Point). q.x) e)
ahead-ahead dir_left dir_up p h e = dec-ne p.y (ap (λ (q : Point). q.y) e)
ahead-ahead dir_left dir_down p h e = inc-ne p.y (ap (λ (q : Point). q.y) e)
ahead-ahead dir_left dir_left p h e = dec-dec-ne p.x (ap (λ (q : Point). q.x) e)
ahead-ahead dir_left dir_right p h e = cc
ahead-ahead dir_right dir_up p h e = dec-ne p.y (ap (λ (q : Point). q.y) e)
ahead-ahead dir_right dir_down p h e = inc-ne p.y (ap (λ (q : Point). q.y) e)
ahead-ahead dir_right dir_left p h e = cc
ahead-ahead dir_right dir_right p h e = inc-inc-ne p.x (ap (λ (q : Point). q.x) e)

opposite_self : (d : Direction) → opposite d d ≡ false
opposite_self dir_up = refl
opposite_self dir_down = refl
opposite_self dir_left = refl
opposite_self dir_right = refl

turned :
    (s : Snake) (d : Direction) (neck : Point)
    → (move (set_direction d s)).head ≡ neck
    → s.alive ≡ true
    → s.head ≡ ahead s.direction neck
    → ⊥
unfolding move set_direction
turned s d neck e alive h = elim (Bool-cases (opposite s.direction d)) [
  | inl y ↦ ahead-ahead s.direction s.direction neck (opposite_self s.direction) (ground arith)
  | inr n ↦ ahead-ahead s.direction d neck n (ground arith)
]

-- A living snake whose head is one step ahead of its neck in its direction, as after a move: after one
-- call of SetDirection with any direction, its next move does not put the head onto the neck.
pub move-set_direction :
    (s : Snake) (d : Direction) (neck : Point)
    → s.alive ≡ true
    → s.head ≡ ahead s.direction neck
    → (move (set_direction d s)).head ≢ neck
move-set_direction s d neck alive h e = turned s d neck e alive h
