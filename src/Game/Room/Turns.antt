-- ===== src/Game/Room/Turns.antt =====
-- examples/snake_battle/game/game.go: the loop of `update` over the snakes.
use grodyia.Prelude.{
  ◌≡◌, inl, inr, refl, sym, ap, ◌∙◌, subst, subst₂, ℕ, String, string_eq, ◌==◌, Bool, true, false,
  ◌||◌, not, List, [], ◌∷◌, Option, none, some, length, any, arith, if_cases, length-insert-some,
  Bool-cases, eq_iff, Dict, lookup, insert, DistinctKeys, insert-DistinctKeys, lookup-insert,
}
use grodyia.Game.{Point, Snake, same_point, grow, check_wall_collision}
use grodyia.Game.Body.{InGrid, IsFit, Moved, Moved-IsFit, Moved-dies, dead-IsFit, grow-IsFit}
use grodyia.Game.Room.{Room, dies, eat, take_turn, take_turns, spawn_food}
use grodyia.Game.Room.Spawn.{
  Drawn, Spawned, spawn_food-Spawned, Fed, Spawned-Fed, eat-Apart, eat-All, length-eat,
}

abbrev pub member : String → List String → Bool
member id [] = false
member id (other ∷ rest) = other == id || member id rest

abbrev pub DistinctIds : List String → Type 0
DistinctIds [] = Unit {0}
DistinctIds (id ∷ rest) = (member id rest ≡ false) × DistinctIds rest

-- A snake whose turn is still to come has moved; the others are fit.
abbrev pub Turn : Bool → Snake → Type 0
Turn true s = Moved s
Turn false s = IsFit s

abbrev pub Turns : List String → Dict String Snake → Type 0
Turns order players =
    (id : String) (s : Snake) → lookup id players ≡ some s → Turn (member id order) s

dies-wall :
    (id : String) (s : Snake) (players : Dict String Snake)
    → dies id s players ≡ false
    → check_wall_collision s ≡ false
unfolding dies
dies-wall id s players h = ground arith

-- The entries after the turn of one id, where its own is replaced by a fit snake.
insert-Turns :
    (id : String) (s : Snake) (order : List String) (players : Dict String Snake)
    → member id order ≡ false
    → IsFit s
    → Turns (id ∷ order) players
    → Turns order (insert id s players)
insert-Turns id s order players n f t other o l = elim (Bool-cases (id == other)) [
  | inl y ↦
      subst₂ Turn (sym (ap (λ i. member i order) (sym ((eq_iff id other).0 y)) ∙ n))
        (ground (arith, lookup-insert id other s players)) f
  | inr m ↦
      subst (λ b. Turn b o) (ground arith)
        (t other o (ground (arith, lookup-insert id other s players)))
]

-- No replacement: the snake of the id is fit as it is, or there is none.
skip-Turns :
    (id : String) (order : List String) (players : Dict String Snake)
    → ((s : Snake) → lookup id players ≡ some s → IsFit s)
    → member id order ≡ false
    → Turns (id ∷ order) players
    → Turns order players
skip-Turns id order players f n t other o l = elim (Bool-cases (id == other)) [
  | inl y ↦
      subst (λ b. Turn b o) (sym (ap (λ i. member i order) (sym ((eq_iff id other).0 y)) ∙ n))
        (f o (ap (λ i. lookup i players) ((eq_iff id other).0 y) ∙ l))
  | inr m ↦ subst (λ b. Turn b o) (ground arith) (t other o l)
]

-- What a turn, and the loop, leave as they are, and the foods.
pub record Kept (r r' : Room) : Type 0 where
  pub same : (r'.state ≡ r.state) × (r'.done ≡ r.done) × (r'.loops ≡ r.loops) × (r'.ended ≡ r.ended)
  pub count : length r'.players ≡ length r.players
  pub keys : DistinctKeys r.players → DistinctKeys r'.players
  pub fed : Fed 3 r.foods → Fed 3 r'.foods

Kept-trans : (r r' r'' : Room) → Kept r r' → Kept r' r'' → Kept r r''
Kept-trans r r' r'' a b = record {
  same = let s = a.same in let t = b.same in ground arith;
  count = b.count ∙ a.count;
  keys = λ k. b.keys (a.keys k);
  fed = λ f. b.fed (a.fed f);
}

Kept-self : (r : Room) → Kept r r
Kept-self r = record { same = (refl, refl, refl, refl); count = refl; keys = λ k. k; fed = λ f. f }

eat-Fed :
    (p : Point) (foods : List Point)
    → any (same_point p) foods ≡ true
    → Fed 3 foods
    → Fed 2 (eat p foods)
eat-Fed p foods hit f = record {
  inside = eat-All InGrid p foods f.inside;
  apart = eat-Apart p foods f.apart;
  few = omega (arith, length-eat p foods hit, f.few);
}

some_inj : (s o : Snake) → some s ≡ some o → s ≡ o
some_inj s o e = cc

module _ (draw : ℕ → ℕ × ℕ) (drawn : Drawn draw) where
  meal :
      (id : String) (s : Snake) (r r' : Room)
      → lookup id r.players ≡ some s
      → any (same_point s.head) r.foods ≡ true
      → Spawned (record r { players = insert id (grow s) r.players; foods = eat s.head r.foods }) r'
      → Kept r r'
  meal id s r r' l hit sp =
      let fed = record r { players = insert id (grow s) r.players; foods = eat s.head r.foods } in
      record {
        same = let k = sp.kept in ground arith;
        count = ap length sp.kept.0 ∙ length-insert-some id (grow s) s r.players l;
        keys =
            λ k. subst DistinctKeys (sym sp.kept.0) (insert-DistinctKeys id (grow s) r.players k);
        fed = λ f. Spawned-Fed 2 fed r' sp (eat-Fed s.head r.foods hit f);
      }

  -- A turn, by what the snake finds.
  pub take_turn_cases :
      (P : Room → Type 0) (id : String) (s : Snake) (r : Room)
      → (s.alive ≡ false → P r)
      → (s.alive ≡ true
          → dies id s r.players ≡ true
          → P (record r { players = insert id (record s { alive = false }) r.players }))
      → (s.alive ≡ true
          → dies id s r.players ≡ false
          → any (same_point s.head) r.foods ≡ true
          → P (
              spawn_food draw
                (record r { players = insert id (grow s) r.players; foods = eat s.head r.foods })))
      → (s.alive ≡ true
          → dies id s r.players ≡ false
          → any (same_point s.head) r.foods ≡ false
          → P r)
      → P (take_turn draw id (some s) r)
  unfolding take_turn
  take_turn_cases P id s r a b c d =
      if_cases P (not s.alive) _ _ (λ e. a (ground arith))
        (λ e.
          let alive : s.alive ≡ true = ground arith in
          if_cases P (dies id s r.players) _ _ (λ y. b alive y)
            (λ n.
              if_cases P (any (same_point s.head) r.foods) _ _ (λ hit. c alive n hit)
                (λ miss. d alive n miss)))

  take_turn-Kept :
      (id : String) (found : Option Snake) (r : Room)
      → lookup id r.players ≡ found
      → Kept r (take_turn draw id found r)
  unfolding take_turn
  take_turn-Kept id none r l = Kept-self r
  take_turn-Kept id (some s) r l =
      take_turn_cases (Kept r) id s r (λ dead. Kept-self r)
        (λ alive y. record {
          same = (refl, refl, refl, refl);
          count = length-insert-some id (record s { alive = false }) s r.players l;
          keys = insert-DistinctKeys id (record s { alive = false }) r.players;
          fed = λ f. f;
        })
        (λ alive n hit. meal id s r _ l hit (spawn_food-Spawned draw drawn _))
        (λ alive n miss. Kept-self r)

  take_turn-Turns :
      (id : String) (order : List String) (found : Option Snake) (r : Room)
      → lookup id r.players ≡ found
      → member id order ≡ false
      → Turns (id ∷ order) r.players
      → Turns order (take_turn draw id found r).players
  unfolding take_turn
  take_turn-Turns id order none r l n t = skip-Turns id order r.players (λ s e. cc) n t
  take_turn-Turns id order (some s) r l n t =
      let now : member id (id ∷ order) ≡ true = ground (arith, eq_iff id id) in
      let moved : Moved s = subst (λ b. Turn b s) now (t id s l) in
      let same = λ (o : Snake) (e : lookup id r.players ≡ some o). some_inj s o (sym l ∙ e) in
      take_turn_cases (λ r'. Turns order r'.players) id s r
        (λ dead.
          skip-Turns id order r.players (λ o e. subst IsFit (same o e) (dead-IsFit s moved dead)) n
            t)
        (λ alive y.
          insert-Turns id (record s { alive = false }) order r.players n (Moved-dies s moved) t)
        (λ alive y hit.
          let fit = grow-IsFit s moved alive (Moved-IsFit s moved (dies-wall id s r.players y)) in
          let eaten = record r {
            players = insert id (grow s) r.players;
            foods = eat s.head r.foods;
          } in
          let spawned = spawn_food-Spawned draw drawn eaten in
          subst (Turns order) (sym spawned.kept.0)
            (insert-Turns id (grow s) order r.players n fit t))
        (λ alive y miss.
          skip-Turns id order r.players
            (λ o e. subst IsFit (same o e) (Moved-IsFit s moved (dies-wall id s r.players y))) n t)

  -- The whole loop over an order without repetitions.
  pub take_turns-Kept : (order : List String) (r : Room) → Kept r (take_turns draw order r)
  unfolding take_turns
  take_turns-Kept [] r = Kept-self r
  take_turns-Kept (id ∷ order) r =
      let r' = take_turn draw id (lookup id r.players) r in
      Kept-trans r r' (take_turns draw order r') (take_turn-Kept id (lookup id r.players) r refl)
        (take_turns-Kept order r')

  pub take_turns-Turns :
      (order : List String) (r : Room)
      → DistinctIds order
      → Turns order r.players
      → Turns [] (take_turns draw order r).players
  unfolding take_turns
  take_turns-Turns [] r d t = t
  take_turns-Turns (id ∷ order) r (n, d) t =
      take_turns-Turns order (take_turn draw id (lookup id r.players) r) d
        (take_turn-Turns id order (lookup id r.players) r refl n t)
