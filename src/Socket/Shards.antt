-- ===== src/Socket/Shards.antt =====
-- transport/ws/ws.go: the shards of the connection set, counted.
use grodyia.Prelude.{
  nat_beq_iff, ℕ, zero, suc, ◌+◌, ◌≤◌, ◌<◌, ◌≡◌, refl, String, [], ◌∷◌, none, some, arith, length,
  length-append, Dict, lookup, insert, delete, string_eq, DistinctKeys,
}
use text.Mathlib.TextEquality.{eq_iff}
use grodyia.Socket.{Connection, set_shard, values, gather}

abbrev pub Shards : Type 0
Shards = ℕ → Dict String Connection

abbrev pub stored : ℕ → Shards → ℕ
stored n sets = length (gather n sets)

length-values : (m : Dict String Connection) → length (values m) ≡ length m
length-values [] = refl
length-values ((k, v) ∷ m) = ground (arith, length-values m)

stored_other :
    (n i : ℕ) (m : Dict String Connection) (sets : Shards)
    → n ≤ i
    → stored n (set_shard i m sets) ≡ stored n sets
unfolding gather set_shard
stored_other zero i m sets h = refl
stored_other (suc n) i m sets h = ground (
  arith,
  stored_other n i m sets,
  length-append (gather n sets) (values (sets n)),
  length-append (gather n (set_shard i m sets)) (values (sets n)),
)

pub stored-set_shard :
    (n i : ℕ) (m : Dict String Connection) (sets : Shards)
    → i < n
    → stored n (set_shard i m sets) + length (sets i) ≡ stored n sets + length m
unfolding gather set_shard
stored-set_shard zero i m sets h = ground arith
stored-set_shard (suc n) i m sets h = ground (
  arith,
  nat_beq_iff i n,
  stored-set_shard n i m sets,
  stored_other n i m sets,
  length-append (gather n sets) (values (sets n)),
  length-append (gather n (set_shard i m sets)) (values (set_shard i m sets n)),
  length-values (sets n),
  length-values m,
)

pub length-insert_new :
    (k : String) (v : Connection) (m : Dict String Connection)
    → lookup k m ≡ none
    → length (insert k v m) ≡ length m + 1
unfolding insert lookup
length-insert_new k v [] h = refl
length-insert_new k v ((j, w) ∷ m) h = ground (arith, length-insert_new k v m)

delete_missing : (k : String) (m : Dict String Connection) → lookup k m ≡ none → delete k m ≡ m
unfolding delete lookup
delete_missing k [] h = refl
delete_missing k ((j, w) ∷ m) h = ground (arith, delete_missing k m)

pub length-delete_present :
    (k : String) (c : Connection) (m : Dict String Connection)
    → DistinctKeys m
    → lookup k m ≡ some c
    → length (delete k m) + 1 ≡ length m
unfolding delete lookup
length-delete_present k c [] d h = ground arith
length-delete_present k c ((j, w) ∷ m) d h =
    ground (arith, length-delete_present k c m d.1, delete_missing k m, eq_iff j k)
