-- ===== src/Prelude/Maps.antt =====
-- Go's maps as association lists. The order of the entries stands for one order in which a
-- `range` loop may visit them.
use mathlib.Core.Path.{◌≡◌, refl, sym, subst, subst₂}
use mathlib.Core.Logic.{inl, inr}
use mathlib.Core.List.{List, [], ◌∷◌}
use mathlib.Core.Option.{Option, none, some}
use Prim.Native.Nat.{◌+◌, ◌≤◌}
use native.Mathlib.Omega.{arith}
use grodyia.Prelude.Lists.{length}
use grodyia.Prelude.Tests.{Comparable, ◌==◌, if◌then◌else◌, Bool-cases}

abbrev pub Dict {ℓ κ} : Type ℓ → Type κ → Type (ℓ ⊔ κ)
Dict K V = List (K × V)

module _ {ℓ κ} {K : Type ℓ} {V : Type κ} ⦃c : Comparable K⦄ where
  -- v, ok := entries[key]
  unfoldable pub lookup : K → Dict K V → Option V
  lookup key [] = none
  lookup key ((other, value) ∷ entries) = if other == key then some value else lookup key entries

  -- entries[key] = value
  unfoldable pub insert : K → V → Dict K V → Dict K V
  insert key value [] = (key, value) ∷ []
  insert key value ((other, old) ∷ entries) =
      if other == key then (other, value) ∷ entries else (other, old) ∷ insert key value entries

  -- delete(entries, key)
  unfoldable pub delete : K → Dict K V → Dict K V
  delete key [] = []
  delete key ((other, value) ∷ entries) =
      let rest = delete key entries in if other == key then rest else (other, value) ∷ rest

  pub lookup-nil : (k : K) → lookup k [] ≡ none
  unfolding lookup
  lookup-nil k = refl

  pub lookup-insert :
      (key asked : K) (value : V) (entries : Dict K V)
      → lookup asked (insert key value entries)
        ≡ (if key == asked then some value else lookup asked entries)
  unfolding insert lookup
  lookup-insert key asked value [] = refl
  lookup-insert key asked value ((other, old) ∷ entries) = ground (
    lookup-insert key asked value entries,
    c.same_iff other asked,
    c.same_iff other key,
    c.same_iff key asked,
    arith,
  )

  pub lookup-delete :
      (k j : K) (m : Dict K V) → lookup j (delete k m) ≡ (if k == j then none else lookup j m)
  unfolding lookup delete
  lookup-delete k j [] = ground arith
  lookup-delete k j ((i, w) ∷ m) =
      ground (arith, c.same_iff k j, c.same_iff i k, c.same_iff i j, lookup-delete k j m)

  -- No key has two entries.
  abbrev pub DistinctKeys : Dict K V → Type κ
  DistinctKeys [] = Unit
  DistinctKeys ((j, w) ∷ m) = (lookup j m ≡ none) × DistinctKeys m

  pub insert-DistinctKeys :
      (k : K) (v : V) (m : Dict K V) → DistinctKeys m → DistinctKeys (insert k v m)
  unfolding insert lookup
  insert-DistinctKeys k v [] d = (refl, tt)
  insert-DistinctKeys k v ((j, w) ∷ m) d =
      ground (
        arith,
        insert-DistinctKeys k v m d.1,
        lookup-insert k j v m,
        c.same_iff k j,
        c.same_iff j k,
      )

  pub delete-DistinctKeys : (k : K) (m : Dict K V) → DistinctKeys m → DistinctKeys (delete k m)
  unfolding delete
  delete-DistinctKeys k [] d = tt
  delete-DistinctKeys k ((j, w) ∷ m) d =
      ground (arith, delete-DistinctKeys k m d.1, lookup-delete k j m)

-- `P` holds of every entry.
abbrev pub AllEntries {ℓ κ ι} : {K : Type ℓ} {V : Type κ} → (K → V → Type ι) → Dict K V → Type ι
AllEntries P [] = Unit
AllEntries P ((k, v) ∷ m) = P k v × AllEntries P m

module _ {ℓ κ ι} {K : Type ℓ} {V : Type κ} ⦃c : Comparable K⦄ (P : K → V → Type ι) where
  pub insert-AllEntries :
      (k : K) (v : V) (m : Dict K V) → P k v → AllEntries P m → AllEntries P (insert k v m)
  unfolding insert
  insert-AllEntries k v [] p h = (p, tt)
  insert-AllEntries k v ((j, w) ∷ m) p h = elim (Bool-cases (j == k)) [
    | inl hit ↦ rw hit (subst (λ i. P i v) (sym ((c.same_iff j k).0 hit)) p, h.1)
    | inr miss ↦ rw miss (h.0, insert-AllEntries k v m p h.1)
  ]

  pub delete-AllEntries : (k : K) (m : Dict K V) → AllEntries P m → AllEntries P (delete k m)
  unfolding delete
  delete-AllEntries k [] h = tt
  delete-AllEntries k ((j, w) ∷ m) h = ground (arith, delete-AllEntries k m h.1)

  pub lookup-AllEntries :
      (k : K) (v : V) (m : Dict K V) → AllEntries P m → lookup k m ≡ some v → P k v
  unfolding lookup
  lookup-AllEntries k v [] h l = cc
  lookup-AllEntries k v ((j, w) ∷ m) h l = elim (Bool-cases (j == k)) [
    | inl hit ↦ subst₂ P ((c.same_iff j k).0 hit) (ground arith) h.0
    | inr miss ↦ lookup-AllEntries k v m h.1 (ground arith)
  ]

-- The number of entries.
module _ {ℓ κ} {K : Type ℓ} {V : Type κ} ⦃c : Comparable K⦄ where
  pub length-insert-some :
      (k : K) (v w : V) (m : Dict K V) → lookup k m ≡ some w → length (insert k v m) ≡ length m
  unfolding insert lookup
  length-insert-some k v w [] h = cc
  length-insert-some k v w ((j, u) ∷ m) h = ground (arith, length-insert-some k v w m)

  pub length-insert-le : (k : K) (v : V) (m : Dict K V) → length (insert k v m) ≤ length m + 1
  unfolding insert
  length-insert-le k v [] = omega arith
  length-insert-le k v ((j, u) ∷ m) = ground (arith, length-insert-le k v m)

  pub length-delete-le : (k : K) (m : Dict K V) → length (delete k m) ≤ length m
  unfolding delete
  length-delete-le k [] = omega arith
  length-delete-le k ((j, u) ∷ m) = ground (arith, length-delete-le k m)
