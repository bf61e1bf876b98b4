-- ===== src/Keyed.antt =====
-- The lookup that `GetBreaker`, `GetLimiter`, `getCounter` and `getHistogram` of middleware/ share:
-- a look under the read lock, and on a miss a second look and the creation under the write lock.
-- The maps hold pointers: an object is known by its key, and its record in the map is its content.
mod Tests
use grodyia.Prelude.{
  String, ◌≡◌, ◌≢◌, refl, Bool, false, true, Option, none, some, if◌then◌else◌, Dict, lookup,
  insert, lookup-insert, string_eq, ◌==◌, eq_iff, arith,
}

pub ne→beq : (s t : String) → s ≢ t → (s == t) ≡ false
ne→beq s t h = ground (arith, eq_iff s t)

module _ {V : Type 0} where
  -- The part under the write lock, its second look included.
  get_or_create : V → Option V → Dict String V → String → Dict String V × V
  get_or_create new (some v) m key = (m, v)
  get_or_create new none m key = (insert key new m, new)

  fetch_in :
      (Dict String V → Dict String V) → V → Option V → Dict String V → String → Dict String V × V
  unfolding get_or_create
  fetch_in between new (some v) m key = (m, v)
  fetch_in between new none m key = let m' = between m in get_or_create new (lookup key m') m' key

  -- `between` is what other goroutines do between the two locks; `new` is the value created.
  unfoldable pub fetch :
      (Dict String V → Dict String V) → V → Dict String V → String → Dict String V × V
  unfolding fetch_in
  fetch between new m key = fetch_in between new (lookup key m) m key

  -- The value returned is the one that the key has in the map afterwards, whatever other goroutines
  -- did between the two locks.
  pub fetch_current :
      (between : Dict String V → Dict String V) (new : V) (m : Dict String V) (key : String)
      → let (m', v) = fetch between new m key in lookup key m' ≡ some v
  unfolding fetch
  fetch_current between new m key =
      ground (arith, lookup-insert key key new (between m), eq_iff key key)

  -- Nothing is replaced: a key in the map before the call leaves the map as it is, and a value that
  -- another goroutine put there between the two locks, for this key or for another, is still there.
  pub fetch_keeps :
      (between : Dict String V → Dict String V) (new : V) (m : Dict String V) (key j : String)
      (old : V)
      → let m' = (fetch between new m key).0 in
        (lookup key m ≡ some old → m' ≡ m)
        × (lookup key m ≡ none → lookup j (between m) ≡ some old → lookup j m' ≡ some old)
  unfolding fetch
  fetch_keeps between new m key j old =
      (ground arith, ground (arith, lookup-insert key j new (between m), eq_iff key j))

  -- With no other goroutine in between, the other keys keep their values.
  pub fetch_other :
      (new : V) (m : Dict String V) (key other : String)
      → key ≢ other
      → lookup other (fetch (λ n. n) new m key).0 ≡ lookup other m
  unfolding fetch
  fetch_other new m key other h = ground (arith, lookup-insert key other new m, ne→beq key other h)

  pub lookup-insert_other :
      (v : V) (m : Dict String V) (key other : String)
      → key ≢ other
      → lookup other (insert key v m) ≡ lookup other m
  lookup-insert_other v m key other h =
      ground (arith, lookup-insert key other v m, ne→beq key other h)
