-- ===== src/Registry/Memory/Instances.antt =====
-- The instances of one service in registry/memory.go: a list in which no id stands twice.
use grodyia.Prelude.{
  ℕ, suc, ◌+◌, ◌&&◌, not, leb, ltb, ◌≡◌, ◌≢◌, refl, String, Bool, true, false, ◌||◌, List, [], ◌∷◌,
  ◌++◌, string_eq, keep, All, eq_iff, arith, ◌⊎◌, inl, inr, Bool-cases, if_cases,
}
use grodyia.Prelude.Int.{ℤ, pos, negsuc, sub_ℕ, ltb_ℤ}
use grodyia.Registry.{Service}
use grodyia.Registry.Memory.{has_id, replace, remove, is_live, is_zero}

abbrev pub DistinctIds : List Service → Type 0
DistinctIds [] = Unit {0}
DistinctIds (s ∷ rest) = (has_id s.id rest ≡ false) × DistinctIds rest

pub has_id-append :
    (id : String) (xs ys : List Service) → has_id id (xs ++ ys) ≡ (has_id id xs || has_id id ys)
has_id-append id [] ys = refl
has_id-append id (x ∷ xs) ys = ground (arith, has_id-append id xs ys)

has_id-replace :
    (id : String) (s : Service) (l : List Service)
    → has_id s.id l ≡ true
    → has_id id (replace s l) ≡ has_id id l
unfolding replace
has_id-replace id s [] h = refl
has_id-replace id s (x ∷ l) h =
    ground (arith, has_id-replace id s l, eq_iff x.id s.id, eq_iff s.id id, eq_iff x.id id)

has_id-remove :
    (id j : String) (l : List Service) → has_id id l ≡ false → has_id id (remove j l) ≡ false
unfolding remove
has_id-remove id j [] h = refl
has_id-remove id j (x ∷ l) h = ground (arith, has_id-remove id j l)

has_id-keep :
    (id : String) (p : Service → Bool) (l : List Service)
    → has_id id l ≡ false
    → has_id id (keep p l) ≡ false
has_id-keep id p [] h = refl
has_id-keep id p (x ∷ l) h = ground (arith, has_id-keep id p l)

pub append-DistinctIds :
    (l : List Service) (s : Service)
    → has_id s.id l ≡ false
    → DistinctIds l
    → DistinctIds (l ++ s ∷ [])
append-DistinctIds [] s n d = (refl, tt)
append-DistinctIds (x ∷ l) s n d = ground (
  arith,
  append-DistinctIds l s,
  has_id-append x.id l (s ∷ []),
  eq_iff s.id x.id,
  eq_iff x.id s.id,
)

pub replace-DistinctIds :
    (s : Service) (l : List Service)
    → has_id s.id l ≡ true
    → DistinctIds l
    → DistinctIds (replace s l)
unfolding replace
replace-DistinctIds s [] n d = tt
replace-DistinctIds s (x ∷ l) n d =
    ground
      (arith, replace-DistinctIds s l, has_id-replace x.id s l, eq_iff x.id s.id, eq_iff s.id x.id)

pub remove-DistinctIds :
    (id : String) (l : List Service) → DistinctIds l → DistinctIds (remove id l)
unfolding remove
remove-DistinctIds id [] d = tt
remove-DistinctIds id (x ∷ l) d = ground (arith, remove-DistinctIds id l, has_id-remove x.id id l)

pub keep-DistinctIds :
    (p : Service → Bool) (l : List Service) → DistinctIds l → DistinctIds (keep p l)
keep-DistinctIds p [] d = tt
keep-DistinctIds p (x ∷ l) d = ground (arith, keep-DistinctIds p l, has_id-keep x.id p l)

-- In a list without repeated ids `remove` leaves no instance with the id.
pub has_id-remove_self :
    (id : String) (l : List Service) → DistinctIds l → has_id id (remove id l) ≡ false
unfolding remove
has_id-remove_self id [] d = refl
has_id-remove_self id (x ∷ l) d = ground (arith, has_id-remove_self id l, eq_iff x.id id)

pub has_id-remove_other :
    (id j : String) (l : List Service) → id ≢ j → has_id j (remove id l) ≡ has_id j l
unfolding remove
has_id-remove_other id j [] n = refl
has_id-remove_other id j (x ∷ l) n =
    ground (arith, has_id-remove_other id j l n, eq_iff x.id id, eq_iff x.id j)

-- What holds of each instance holds after the loops of `Register` and `Deregister`.
module _ {ℓ} (P : Service → Type ℓ) where
  pub replace-All : (s : Service) (l : List Service) → P s → All P l → All P (replace s l)
  unfolding replace
  replace-All s [] p h = h
  replace-All s (x ∷ l) p h = ground (arith, replace-All s l)

  pub remove-All : (id : String) (l : List Service) → All P l → All P (remove id l)
  unfolding remove
  remove-All id [] h = h
  remove-All id (x ∷ l) h = ground (arith, remove-All id l)

-- `s` stands in the list.
abbrev pub Has : Service → List Service → Type 0
Has s [] = ⊥
Has s (x ∷ l) = (x ≡ s) ⊎ Has s l

-- `l` is a part of `m`, in its order, each instance at most as often as `m` has it.
pub data IsPart : List Service → List Service → Type 0 where
  ended : IsPart [] []
  passed : {l m : List Service} (s : Service) → IsPart l m → IsPart l (s ∷ m)
  taken : {l m : List Service} (s : Service) → IsPart l m → IsPart (s ∷ l) (s ∷ m)

pub keep-IsPart : (p : Service → Bool) (l : List Service) → IsPart (keep p l) l
keep-IsPart p [] = ended
keep-IsPart p (x ∷ l) =
    if_cases (λ k. IsPart k (x ∷ l)) (p x) _ _ (λ y. taken x (keep-IsPart p l))
      (λ n. passed x (keep-IsPart p l))

pub append-Has : (s : Service) (l : List Service) → Has s (l ++ s ∷ [])
append-Has s [] = inl refl
append-Has s (x ∷ l) = inr (append-Has s l)

pub replace-Has : (s : Service) (l : List Service) → has_id s.id l ≡ true → Has s (replace s l)
unfolding replace
replace-Has s [] h = cc
replace-Has s (x ∷ l) h = ground (arith, replace-Has s l)

pub keep-Has :
    (p : Service → Bool) (s : Service) (l : List Service) → p s ≡ true → Has s l → Has s (keep p l)
keep-Has p s [] t h = h
keep-Has p s (x ∷ l) t (inl e) = rw (e, t) (inl refl)
keep-Has p s (x ∷ l) t (inr h) = elim (Bool-cases (p x)) [
  | inl y ↦ rw y (inr (keep-Has p s l t h))
  | inr n ↦ rw n (keep-Has p s l t h)
]

-- Whether the service has a TTL, which may be negative, that is over at `now`.
abbrev pub ttl_over : ℕ → ℕ → ℤ → Bool
ttl_over now seen (pos n) = ltb 0 n && leb (seen + n) now
ttl_over now seen (negsuc n) = leb seen (now + suc n)

abbrev pub is_over : ℕ → Service → Bool
is_over now s = ttl_over now s.last_seen s.ttl

pub ttl_over-unexpired :
    (now seen : ℕ) (ttl : ℤ)
    → ttl_over now seen ttl ≡ not (is_zero ttl || ltb_ℤ (sub_ℕ now seen) ttl)
ttl_over-unexpired now seen (pos n) = ground arith
ttl_over-unexpired now seen (negsuc n) = ground arith

-- Healthy, and without a TTL that is over.
abbrev pub in_service : ℕ → Service → Bool
in_service now s = s.healthy && not (is_over now s)

pub keep-in_service : (now : ℕ) (l : List Service) → keep (is_live now) l ≡ keep (in_service now) l
keep-in_service now [] = refl
keep-in_service now (s ∷ l) =
    ground (arith, ttl_over-unexpired now s.last_seen s.ttl, keep-in_service now l)
