-- ===== src/Game/Server/Players.antt =====
-- examples/snake_battle/main.go: the players and their rooms, while one player leaves or moves.
use grodyia.Prelude.{
  ◌≡◌, ◌≢◌, refl, sym, ap, ◌∙◌, subst, inl, inr, arith, eq_iff, String, string_eq, nat_eq, false,
  ◌==◌, Option, none, some, Bool-cases, if_cases, Dict, lookup, insert, delete, lookup-insert,
  lookup-delete, DistinctKeys, insert-DistinctKeys, delete-DistinctKeys,
}
use grodyia.Game.Room.{Room, remove_player, stop, player_count}
use grodyia.Game.Server.{GameServer, Player, remove_room, leave_room, leave_found}
use grodyia.Game.Server.Sits.{Sits}

pub record Inv (g : GameServer) : Type 0 where
  pub keyed : DistinctKeys g.rooms
  pub distinct :
      (c d : String) (p q : Player)
      → lookup c g.players ≡ some p
      → lookup d g.players ≡ some q
      → p.id ≡ q.id
      → c ≡ d
  pub seated :
      (c : String) (p : Player)
      → lookup c g.players ≡ some p
      → p.room_id ≢ ""
      → Sits p.id p.room_id g.rooms

-- A step that changes only rooms.
pub rooms-Inv :
    (g : GameServer) (rooms : Dict String Room)
    → Inv g
    → DistinctKeys rooms
    → ((id room_id : String) → Sits id room_id g.rooms → Sits id room_id rooms)
    → Inv (record g { rooms = rooms })
rooms-Inv g rooms h d keep = record {
  keyed = d;
  distinct = h.distinct;
  seated = λ c p l n. keep p.id p.room_id (h.seated c p l n);
}

leave_found-DistinctKeys :
    (p : Player) (found : Option Room) (rooms : Dict String Room)
    → DistinctKeys rooms
    → DistinctKeys (leave_found p found rooms).0
unfolding leave_found remove_room
leave_found-DistinctKeys p none rooms d = d
leave_found-DistinctKeys p (some r) rooms d =
    let after = remove_player p.id r in
    if_cases (λ (k : Dict String Room). DistinctKeys k) (player_count after == 0) _ _
      (λ e. delete-DistinctKeys p.room_id rooms d)
      (λ e. insert-DistinctKeys p.room_id (stop after) rooms d)

pub leave_room-DistinctKeys :
    (p : Player) (rooms : Dict String Room)
    → DistinctKeys rooms
    → DistinctKeys (leave_room p rooms).0
unfolding leave_room
leave_room-DistinctKeys p rooms d =
    if_cases (λ (k : Dict String Room × String). DistinctKeys k.0) (p.room_id == "") _ _ (λ e. d)
      (λ e. leave_found-DistinctKeys p (lookup p.room_id rooms) rooms d)

-- A player after one of them has changed was there before, under the same id.
found_before :
    (players : Dict String Player) (conn : String) (p : Player) (room_id c : String) (q : Player)
    → lookup conn players ≡ some p
    → lookup c (insert conn (record p { room_id = room_id }) players) ≡ some q
    → (o : Player) × (lookup c players ≡ some o) × (o.id ≡ q.id)
found_before players conn p room_id c q l e =
    let changed : Player = record p { room_id = room_id } in
    elim (Bool-cases (conn == c)) [
      | inl y ↦ (
        p,
        ground (arith, l, eq_iff conn c),
        ground (arith, e, lookup-insert conn c changed players),
      )
      | inr n ↦ (q, ground (arith, e, lookup-insert conn c changed players), refl)
    ]

-- The players of two connections have two ids.
apart :
    (g : GameServer) (conn c : String) (p q : Player)
    → Inv g
    → lookup conn g.players ≡ some p
    → lookup c g.players ≡ some q
    → (conn == c) ≡ false
    → q.id ≢ p.id
apart g conn c p q h l e n same =
    let k = h.distinct c conn q p e l same in ground (arith, eq_iff conn c)

-- The other players while one of them changes.
pub others-Inv :
    (g : GameServer) (rooms : Dict String Room) (conn : String) (p : Player) (room_id : String)
    → lookup conn g.players ≡ some p
    → Inv g
    → DistinctKeys rooms
    → ((id other : String) → id ≢ p.id → Sits id other g.rooms → Sits id other rooms)
    → (room_id ≢ "" → Sits p.id room_id rooms)
    → Inv
        (record { rooms = rooms; players = insert conn (record p { room_id = room_id }) g.players })
others-Inv g rooms conn p room_id l h d keep own = record {
  keyed = d;
  distinct = λ c e q o lq lo same.
      let (q', lq', sq) = found_before g.players conn p room_id c q l lq in
      let (o', lo', so) = found_before g.players conn p room_id e o l lo in
      h.distinct c e q' o' lq' lo' (sq ∙ same ∙ sym so);
  seated = λ c q e n.
      let changed : Player = record p { room_id = room_id } in
      elim (Bool-cases (conn == c)) [
        | inl y ↦
            let same : changed ≡ q = ground (arith, e, lookup-insert conn c changed g.players) in
            subst (λ o. Sits o.id o.room_id rooms) same
              (own (λ k. n (sym (ap (λ o. o.room_id) same) ∙ k)))
        | inr k ↦
            let before : lookup c g.players ≡ some q =
              ground (arith, e, lookup-insert conn c changed g.players) in
            keep q.id q.room_id (apart g conn c p q h l before k) (h.seated c q before n)
      ];
}

pub gone-Inv :
    (g : GameServer) (rooms : Dict String Room) (conn : String) (p : Player)
    → lookup conn g.players ≡ some p
    → Inv g
    → DistinctKeys rooms
    → ((id other : String) → id ≢ p.id → Sits id other g.rooms → Sits id other rooms)
    → Inv (record { rooms = rooms; players = delete conn g.players })
gone-Inv g rooms conn p l h d keep = record {
  keyed = d;
  distinct = λ c e q o lq lo same.
      h.distinct c e q o (ground (arith, lq, lookup-delete conn c g.players))
        (ground (arith, lo, lookup-delete conn e g.players)) same;
  seated = λ c q e n.
      let before : lookup c g.players ≡ some q =
        ground (arith, e, lookup-delete conn c g.players) in
      let other : (conn == c) ≡ false = ground (arith, e, lookup-delete conn c g.players) in
      keep q.id q.room_id (apart g conn c p q h l before other) (h.seated c q before n);
}
