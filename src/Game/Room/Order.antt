-- ===== src/Game/Room/Order.antt =====
-- examples/snake_battle/game/game.go: the orders in which a map of players is visited.
use grodyia.Prelude.{
  ◌≡◌, inl, inr, refl, sym, ap, subst₂, suc, String, string_eq, nat_eq, ◌==◌, Bool, true, false,
  ◌||◌, List, [], ◌∷◌, ◌++◌, none, some, if◌then◌else◌, length, arith, Bool-cases, eq_iff, Dict,
  lookup, DistinctKeys,
}
use grodyia.Game.{Snake, move}
use grodyia.Game.Body.{IsFit, move-Moved}
use grodyia.Game.Room.{move_all, keys, keys_back}
use grodyia.Game.Room.Turns.{member, DistinctIds, Turn, Turns}

pub lookup-move_all :
    (id : String) (s : Snake) (players : Dict String Snake)
    → lookup id (move_all players) ≡ some s
    → (o : Snake) × (lookup id players ≡ some o) × (s ≡ move o)
unfolding lookup move_all
lookup-move_all id s [] l = cc
lookup-move_all id s ((other, o) ∷ rest) l = elim (Bool-cases (other == id)) [
  | inl y ↦ (o, ground arith, ground arith)
  | inr n ↦
      let (p, found, same) = lookup-move_all id s rest (ground arith) in (p, ground arith, same)
]

missing-move_all :
    (id : String) (players : Dict String Snake)
    → lookup id players ≡ none
    → lookup id (move_all players) ≡ none
unfolding lookup move_all
missing-move_all id [] l = refl
missing-move_all id ((other, o) ∷ rest) l = ground (arith, missing-move_all id rest)

pub move_all-DistinctKeys :
    (players : Dict String Snake) → DistinctKeys players → DistinctKeys (move_all players)
unfolding move_all
move_all-DistinctKeys [] d = tt
move_all-DistinctKeys ((id, s) ∷ rest) (n, d) =
    (missing-move_all id rest n, move_all-DistinctKeys rest d)

pub length-move_all : (players : Dict String Snake) → length (move_all players) ≡ length players
unfolding move_all
length-move_all [] = refl
length-move_all ((id, s) ∷ rest) = ap suc (length-move_all rest)

member-append :
    (id other : String) (xs : List String)
    → member id (xs ++ other ∷ []) ≡ (member id xs || other == id)
member-append id other [] = ground arith
member-append id other (x ∷ xs) = ground (arith, member-append id other xs)

append-DistinctIds :
    (id : String) (xs : List String)
    → member id xs ≡ false
    → DistinctIds xs
    → DistinctIds (xs ++ id ∷ [])
append-DistinctIds id [] n d = (refl, tt)
append-DistinctIds id (x ∷ xs) n (m, d) =
    ground (arith, append-DistinctIds id xs, member-append x id xs, eq_iff x id, eq_iff id x)

-- The order of an update.
unfoldable pub order_of : Bool → Dict String Snake → List String
unfolding keys keys_back
order_of back players = if back then keys_back players else keys players

-- An id is in the order exactly if the map has it.
member-keys :
    (id : String) (players : Dict String Snake)
    → (lookup id players ≡ none
        → (member id (keys players) ≡ false) × (member id (keys_back players) ≡ false))
      × ((s : Snake)
          → lookup id players ≡ some s
          → (member id (keys players) ≡ true) × (member id (keys_back players) ≡ true))
unfolding lookup keys keys_back
member-keys id [] = ((λ e. (refl, refl)), (λ s e. cc))
member-keys id ((other, o) ∷ rest) =
    let ih = member-keys id rest in
    let back = member-append id other (keys_back rest) in
    elim (Bool-cases (other == id)) [
      | inl y ↦ ((λ e. ground arith), (λ s e. ground arith))
      | inr n ↦ (
        (λ e. let m = ih.0 (ground arith) in ground arith),
        (λ s e. let m = ih.1 s (ground arith) in ground arith),
      )
    ]

keys-DistinctIds :
    (players : Dict String Snake)
    → DistinctKeys players
    → DistinctIds (keys players) × DistinctIds (keys_back players)
unfolding keys keys_back
keys-DistinctIds [] d = (tt, tt)
keys-DistinctIds ((id, s) ∷ rest) (n, d) =
    let ih = keys-DistinctIds rest d in
    let m = (member-keys id rest).0 n in
    ((m.0, ih.0), append-DistinctIds id (keys_back rest) m.1 ih.1)

pub order-DistinctIds :
    (back : Bool) (players : Dict String Snake)
    → DistinctKeys players
    → DistinctIds (order_of back players)
unfolding order_of
order-DistinctIds true players d = (keys-DistinctIds players d).1
order-DistinctIds false players d = (keys-DistinctIds players d).0

member-order_of :
    (back : Bool) (id : String) (s : Snake) (players : Dict String Snake)
    → lookup id players ≡ some s
    → member id (order_of back players) ≡ true
unfolding order_of
member-order_of true id s players l = ((member-keys id players).1 s l).1
member-order_of false id s players l = ((member-keys id players).1 s l).0

-- After the moves the turn of every snake is to come.
pub moved-Turns :
    (back : Bool) (players : Dict String Snake)
    → ((id : String) (s : Snake) → lookup id players ≡ some s → IsFit s)
    → Turns (order_of back players) (move_all players)
moved-Turns back players fit id s l =
    let (o, found, same) = lookup-move_all id s players l in
    let now = member-order_of back id o players found in
    subst₂ Turn (sym now) (sym same) (move-Moved o (fit id o found))
