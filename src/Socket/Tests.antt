-- ===== src/Socket/Tests.antt =====
-- A server of two slots, and the theorems at it.
use Prim.Native.String.{◌∷◌ as push, [] as empty}
use grodyia.Prelude.{
  not, any, keep, if◌then◌else◌, ◌==◌, nat_eq, string_eq, ℕ, ◌≤◌, zero, suc, ◌≡◌, refl, sym, ap,
  ◌∙◌, String, List, [], ◌∷◌, true, false, length, arith,
}
use grodyia.Prelude.Int.{pos}
use grodyia.Socket.{
  Server, new_server, snapshot_connections, broadcast, broadcast_except, gather, set_shard,
  broadcast_worker_count, broadcast_parts,
}
use grodyia.Socket.Broadcast.{broadcast_lem, broadcast_parts_lem, flatten}
use grodyia.Socket.Slots.{Step, requests, stops, upgrades, removes, Inv}
use grodyia.Socket.Reach.{run, fresh_world, run-new_server-Inv, Injective}

-- Numbers as strokes.
tally : ℕ → String
tally zero = empty
tally (suc n) = push "I" (tally n)

strokes : String → ℕ
strokes empty = 0
strokes (push c s) = suc (strokes s)

strokes-tally : (n : ℕ) → strokes (tally n) ≡ n
unfolding strokes tally
strokes-tally zero = refl
strokes-tally (suc n) = ap suc (strokes-tally n)

tally-Injective : Injective (λ s. 5) tally
tally-Injective a b ha hb e = sym (strokes-tally a) ∙ ap strokes e ∙ strokes-tally b

-- The third request finds no slot; a failed handshake gives its slot back.
abbrev story : List Step
story =
    requests
    ∷ requests
    ∷ requests
    ∷ upgrades false
    ∷ upgrades true
    ∷ requests
    ∷ upgrades true
    ∷ removes "I"
    ∷ stops
    ∷ requests
    ∷ []

run-new_server-Inv_example :
    Inv tally (run (λ s. 5) tally (fresh_world (λ s. 5) tally (pos 2)) story)
run-new_server-Inv_example =
    run-new_server-Inv (λ s. 5) tally (pos 2) story tally-Injective (omega arith)

abbrev conns : List ℕ
conns = 1 ∷ 2 ∷ 3 ∷ 4 ∷ 5 ∷ []

five_parts : broadcast_parts 1 conns ≡ (1 ∷ 2 ∷ []) ∷ (3 ∷ 4 ∷ []) ∷ (5 ∷ []) ∷ []
unfolding broadcast_parts
five_parts = refl

broadcast_parts_lem_run :
    (flatten (broadcast_parts 1 conns) ≡ conns) × (length (broadcast_parts 1 conns) ≤ 4)
unfolding broadcast_worker_count
broadcast_parts_lem_run = broadcast_parts_lem 1 conns

abbrev two : Server
two = record (new_server (pos 0)) {
  connection_sets =
      λ i. if i == 3 then ("a", record { id = "a" }) ∷ ("b", record { id = "b" }) ∷ [] else [];
  active_count = 2;
}

broadcast_lem_example :
    (flatten (broadcast 1 two) ≡ snapshot_connections two)
    × (flatten (broadcast_except 1 ("a" ∷ []) two)
        ≡ keep (λ c. not (any (λ id. id == c.id) ("a" ∷ []))) (snapshot_connections two))
broadcast_lem_example = broadcast_lem 1 ("a" ∷ []) two

-- One of the two connections is excluded.
sent_to : broadcast_except 1 ("a" ∷ []) two ≡ (record { id = "b" } ∷ []) ∷ []
unfolding broadcast_except gather set_shard new_server
sent_to = refl
