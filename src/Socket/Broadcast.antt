-- ===== src/Socket/Broadcast.antt =====
-- transport/ws/ws.go: how `broadcastParallel` deals the connections out to its goroutines.
use grodyia.Prelude.{
  String, string_eq, ◌==◌, Bool, true, false, not, any, keep, append-nil, if◌then◌else◌, ltb, ◌∙◌,
  refl, ap, ℕ, zero, suc, ◌+◌, ◌-◌, ◌*◌, ◌/◌, ◌≤◌, ◌<◌, ◌≡◌, List, [], ◌∷◌, ◌++◌, arith, length,
  take,
}
use native.Mathlib.Nat.{suc-mul, lt-mul-div-succ, mul-suc, mul-zero}
use grodyia.Socket.{
  Connection, Server, snapshot_connections, skip_excluded, broadcast, broadcast_except,
  broadcast_worker_count, drop, parts, broadcast_parts,
}

-- The division rounds up.
ceiling : (n w : ℕ) → 0 < w → n ≤ w * ((n + w - 1) / w)
ceiling n w p = omega (arith, p, lt-mul-div-succ (n + w - 1) p, mul-suc w ((n + w - 1) / w))

positive : (w c : ℕ) → 0 < w * c → 0 < c
positive w zero h = omega (arith, h, mul-zero w)
positive w (suc c) h = omega arith

workers_positive : (processors n : ℕ) → 0 < n → 0 < broadcast_worker_count processors n
unfolding broadcast_worker_count
workers_positive processors n h = ground arith

module _ {A : Type 0} where
  abbrev pub flatten : List (List A) → List A
  flatten [] = []
  flatten (x ∷ xs) = x ++ flatten xs

  take-drop : (n : ℕ) (xs : List A) → take n xs ++ drop n xs ≡ xs
  unfolding drop
  take-drop zero xs = refl
  take-drop (suc n) [] = refl
  take-drop (suc n) (x ∷ xs) = ap (λ l. x ∷ l) (take-drop n xs)

  length-drop : (n : ℕ) (xs : List A) → length (drop n xs) ≡ length xs - n
  unfolding drop
  length-drop zero xs = omega arith
  length-drop (suc n) [] = omega arith
  length-drop (suc n) (x ∷ xs) = ground (arith, length-drop n xs)

  -- Enough fuel: the parts hold every element once, in order.
  flatten-parts :
      (fuel chunk_size : ℕ) (xs : List A)
      → 0 < chunk_size
      → length xs ≤ fuel
      → flatten (parts fuel chunk_size xs) ≡ xs
  unfolding parts
  flatten-parts zero chunk_size [] p h = refl
  flatten-parts zero chunk_size (x ∷ xs) p h = ground arith
  flatten-parts (suc fuel) chunk_size [] p h = refl
  flatten-parts (suc fuel) chunk_size (x ∷ xs) p h =
      let rest = drop chunk_size (x ∷ xs) in
      let short = length-drop chunk_size (x ∷ xs) in
      ap (λ l. take chunk_size (x ∷ xs) ++ l)
        (flatten-parts fuel chunk_size rest p (omega (arith, short, p, h)))
      ∙ take-drop chunk_size (x ∷ xs)

  few_parts :
      (fuel chunk_size k : ℕ) (xs : List A)
      → length xs ≤ k * chunk_size
      → length (parts fuel chunk_size xs) ≤ k
  unfolding parts
  few_parts zero chunk_size k xs h = ground arith
  few_parts (suc fuel) chunk_size k [] h = ground arith
  few_parts (suc fuel) chunk_size zero (x ∷ xs) h = ground arith
  few_parts (suc fuel) chunk_size (suc k) (x ∷ xs) h =
      let short = length-drop chunk_size (x ∷ xs) in
      let rest =
        few_parts fuel chunk_size k (drop chunk_size (x ∷ xs))
          (omega (arith, short, h, suc-mul k chunk_size)) in
      omega (arith, rest)

  -- However many processors there are, the parts that `broadcastParallel` gives to its goroutines hold
  -- every connection once, in order, and they are no more than the workers counted for them.
  pub broadcast_parts_lem :
      (processors : ℕ) (conns : List A)
      → (flatten (broadcast_parts processors conns) ≡ conns)
        × (length (broadcast_parts processors conns)
            ≤ broadcast_worker_count processors (length conns))
  unfolding broadcast_parts
  broadcast_parts_lem processors [] = (refl, omega arith)
  broadcast_parts_lem processors (c ∷ conns) =
      let n = length (c ∷ conns) in
      let w = broadcast_worker_count processors n in
      let size = (n + w - 1) / w in
      let p = workers_positive processors n (omega arith) in
      let covers = ceiling n w p in
      (
        flatten-parts n size (c ∷ conns) (positive w size (omega (arith, covers))) (omega arith),
        few_parts n size w (c ∷ conns) covers,
      )

parted :
    (b : Bool) (processors : ℕ) (conns : List Connection)
    → flatten (if b then conns ∷ [] else broadcast_parts processors conns) ≡ conns
parted true processors conns = append-nil conns
parted false processors conns = (broadcast_parts_lem processors conns).0

skip_excluded_lem :
    (exclude_ids : List String) (conns : List Connection)
    → skip_excluded exclude_ids conns ≡ keep (λ c. not (any (λ id. id == c.id) exclude_ids)) conns
unfolding skip_excluded
skip_excluded_lem exclude_ids [] = refl
skip_excluded_lem exclude_ids (c ∷ conns) = ground (arith, skip_excluded_lem exclude_ids conns)

-- A broadcast sends to every connection in the shards once, in the order of the snapshot, and
-- `BroadcastExcept` to every one of them whose id is not excluded; this holds whether the sends are
-- sequential or dealt out in parallel.
pub broadcast_lem :
    (processors : ℕ) (exclude_ids : List String) (s : Server)
    → (flatten (broadcast processors s) ≡ snapshot_connections s)
      × (flatten (broadcast_except processors exclude_ids s)
          ≡ keep (λ c. not (any (λ id. id == c.id) exclude_ids)) (snapshot_connections s))
unfolding broadcast broadcast_except
broadcast_lem processors exclude_ids s = (
  parted (ltb (length (snapshot_connections s)) 256) processors (snapshot_connections s),
  parted (ltb (length (snapshot_connections s)) 256) processors
        (skip_excluded exclude_ids (snapshot_connections s))
      ∙ skip_excluded_lem exclude_ids (snapshot_connections s),
)
