-- ===== src/Game/Room/Spawn.antt =====
-- examples/snake_battle/game/game.go: what spawnFood and a meal do to the foods of a room.
use grodyia.Prelude.{
  ◌≡◌, ◌≤◌, ◌<◌, ◌⊎◌, inl, inr, refl, ℕ, zero, suc, ◌+◌, true, false, ◌||◌, List, [], ◌∷◌, ◌++◌,
  length, length-append, any, All, All-append, arith, Bool-cases,
}
use grodyia.Game.{Point, same_point, grid_width, grid_height}
use grodyia.Game.Body.{InGrid}
use grodyia.Game.Room.{Room, drawn_point, spawn_from, spawn_food, eat, on_snakes}

-- No two foods lie on one point.
abbrev pub Apart : List Point → Type 0
Apart [] = Unit {0}
Apart (p ∷ ps) = (any (same_point p) ps ≡ false) × Apart ps

same_point_comm : (p q : Point) → same_point p q ≡ same_point q p
same_point_comm p q = ground arith

any-append :
    (p q : Point) (ps : List Point)
    → any (same_point p) (ps ++ q ∷ []) ≡ (any (same_point p) ps || same_point p q)
any-append p q [] = ground arith
any-append p q (r ∷ ps) = ground (arith, any-append p q ps)

append-Apart :
    (p : Point) (ps : List Point) → any (same_point p) ps ≡ false → Apart ps → Apart (ps ++ p ∷ [])
append-Apart p [] h a = (refl, tt)
append-Apart p (q ∷ ps) h (n, a) =
    ground (arith, append-Apart p ps, any-append q p ps, same_point_comm p q)

any-eat :
    (p q : Point) (ps : List Point)
    → any (same_point q) ps ≡ false
    → any (same_point q) (eat p ps) ≡ false
unfolding eat
any-eat p q [] h = refl
any-eat p q (r ∷ ps) h = ground (arith, any-eat p q ps)

pub eat-Apart : (p : Point) (ps : List Point) → Apart ps → Apart (eat p ps)
unfolding eat
eat-Apart p [] a = tt
eat-Apart p (q ∷ ps) (n, a) = ground (arith, eat-Apart p ps a, any-eat p q ps n)

pub eat-All : (P : Point → Type 0) (p : Point) (ps : List Point) → All P ps → All P (eat p ps)
unfolding eat
eat-All P p [] a = tt
eat-All P p (q ∷ ps) (h, a) = ground (arith, eat-All P p ps a)

pub length-eat :
    (p : Point) (ps : List Point) → any (same_point p) ps ≡ true → length (eat p ps) + 1 ≡ length ps
unfolding eat
length-eat p [] h = cc
length-eat p (q ∷ ps) h = ground (arith, length-eat p ps)

-- math/rand draws within the bounds that it is given.
abbrev pub Drawn : (ℕ → ℕ × ℕ) → Type 0
Drawn draw = (i : ℕ) → ((draw i).0 < grid_width) × ((draw i).1 < grid_height)

-- A spawn leaves all but the foods, and adds at most one, which lies in the grid, on no snake and on no
-- other food.
pub record Spawned (r r' : Room) : Type 0 where
  pub kept :
      (r'.players ≡ r.players)
      × (r'.state ≡ r.state)
      × (r'.done ≡ r.done)
      × (r'.loops ≡ r.loops)
      × (r'.ended ≡ r.ended)
  pub foods :
      (r'.foods ≡ r.foods)
      ⊎ ((p : Point) × (r'.foods ≡ r.foods ++ p ∷ [])
          × InGrid p
          × (on_snakes p r.players ≡ false)
          × (any (same_point p) r.foods ≡ false))

module _ (draw : ℕ → ℕ × ℕ) (drawn : Drawn draw) where
  spawn_from-Spawned : (tries : ℕ) (r : Room) → Spawned r (spawn_from draw tries r)
  unfolding spawn_from
  spawn_from-Spawned zero r = record { kept = (refl, refl, refl, refl, refl); foods = inl refl }
  spawn_from-Spawned (suc tries) r =
      let p = drawn_point draw r.drawn in
      let ih = spawn_from-Spawned tries (record r { drawn = suc r.drawn }) in
      elim (Bool-cases (on_snakes p r.players || any (same_point p) r.foods)) [
        | inl y ↦ rw y (record { kept = ih.kept; foods = ih.foods })
        | inr n ↦ rw n (record {
          kept = (refl, refl, refl, refl, refl);
          foods = inr (p, refl, (let b = drawn r.drawn in omega arith), ground arith, ground arith);
        })
      ]

  pub spawn_food-Spawned : (r : Room) → Spawned r (spawn_food draw r)
  unfolding spawn_food
  spawn_food-Spawned r = spawn_from-Spawned 100 r

-- All foods in the grid, apart, and no more than `most`.
pub record Fed (most : ℕ) (foods : List Point) : Type 0 where
  pub inside : All InGrid foods
  pub apart : Apart foods
  pub few : length foods ≤ most

pub Spawned-Fed :
    (most : ℕ) (r r' : Room) → Spawned r r' → Fed most r.foods → Fed (most + 1) r'.foods
Spawned-Fed most r r' s f = elim s.foods [
  | inl same ↦ rw same (record { inside = f.inside; apart = f.apart; few = omega (arith, f.few) })
  | inr (p, grown, inside, off, free) ↦ rw grown (record {
    inside = All-append InGrid r.foods (p ∷ []) f.inside (inside, tt);
    apart = append-Apart p r.foods free f.apart;
    few = omega (arith, f.few, length-append r.foods (p ∷ []));
  })
]
