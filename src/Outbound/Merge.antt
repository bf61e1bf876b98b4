-- ===== src/Outbound/Merge.antt =====
-- transport/ws/connection.go: lists that merge what was taken from the two queues of a connection.
use grodyia.Prelude.{
  ℕ, ◌+◌, ◌≤◌, ◌≡◌, refl, sym, ap, List, [], ◌∷◌, ◌++◌, length, arith, append_assoc, append-nil,
  length-append,
}
use grodyia.Outbound.{Pump}

module _ {M : Type 0} where
  -- `w` holds `d` and `b`, each in its order.
  pub data Merge : List M → List M → List M → Type 0 where
    done : Merge [] [] []
    direct : {w d b : List M} (m : M) → Merge w d b → Merge (m ∷ w) (m ∷ d) b
    broadcast : {w d b : List M} (m : M) → Merge w d b → Merge (m ∷ w) d (m ∷ b)

  pub Merge-append :
      {w d b w' d' b' : List M} → Merge w d b → Merge w' d' b' → Merge (w ++ w') (d ++ d') (b ++ b')
  Merge-append done k = k
  Merge-append (direct m h) k = direct m (Merge-append h k)
  Merge-append (broadcast m h) k = broadcast m (Merge-append h k)

  pub length-Merge : {w d b : List M} → Merge w d b → length w ≡ length d + length b
  length-Merge done = omega arith
  length-Merge (direct m h) = omega (arith, length-Merge h)
  length-Merge (broadcast m h) = omega (arith, length-Merge h)

  -- What a part of the writer did between two states: it took `d` and `b` from the fronts of the queues,
  -- at most `x` and `y` messages, and wrote a merge of them.
  pub record Moved (x y : ℕ) (p q : Pump M) : Type 0 where
    pub d : List M
    pub b : List M
    pub w : List M
    pub sent : p.send ≡ d ++ q.send
    pub broadcasted : p.broadcast ≡ b ++ q.broadcast
    pub wrote : q.written ≡ p.written ++ w
    pub merged : Merge w d b
    pub spent : p.left ≡ length w + q.left
    pub few_direct : length d ≤ x
    pub few_broadcast : length b ≤ y

  pub Moved-refl : (x y : ℕ) (p : Pump M) → Moved x y p p
  Moved-refl x y p = record {
    d = [];
    b = [];
    w = [];
    sent = refl;
    broadcasted = refl;
    wrote = sym (append-nil p.written);
    merged = done;
    spent = omega arith;
    few_direct = omega arith;
    few_broadcast = omega arith;
  }

  pub Moved-trans :
      {x y x' y' : ℕ} (p q r : Pump M)
      → Moved x y p q
      → Moved x' y' q r
      → Moved (x + x') (y + y') p r
  Moved-trans p q r h k = record {
    d = h.d ++ k.d;
    b = h.b ++ k.b;
    w = h.w ++ k.w;
    sent = ground (arith, append_assoc h.d k.d r.send);
    broadcasted = ground (arith, append_assoc h.b k.b r.broadcast);
    wrote = ground (arith, append_assoc p.written h.w k.w);
    merged = Merge-append h.merged k.merged;
    spent = omega (arith, h.spent, k.spent, length-append h.w k.w);
    few_direct = omega (arith, h.few_direct, k.few_direct, length-append h.d k.d);
    few_broadcast = omega (arith, h.few_broadcast, k.few_broadcast, length-append h.b k.b);
  }

  pub Moved-weaken :
      {x y : ℕ} (x' y' : ℕ) {p q : Pump M} → Moved x y p q → x ≤ x' → y ≤ y' → Moved x' y' p q
  Moved-weaken x' y' h k l = record {
    d = h.d;
    b = h.b;
    w = h.w;
    sent = h.sent;
    broadcasted = h.broadcasted;
    wrote = h.wrote;
    merged = h.merged;
    spent = h.spent;
    few_direct = omega (arith, h.few_direct, k);
    few_broadcast = omega (arith, h.few_broadcast, l);
  }

  abbrev pub pending : Pump M → ℕ
  pending p = length p.send + length p.broadcast

  -- What was moved is no longer pending, and was paid for by the socket.
  pub pending-Moved :
      {x y : ℕ} {p q : Pump M} (h : Moved x y p q)
      → (pending p ≡ length h.w + pending q) × (p.left ≡ length h.w + q.left)
  pending-Moved {p = p} {q = q} h = omega (
    arith,
    ap length h.sent,
    ap length h.broadcasted,
    length-append h.d q.send,
    length-append h.b q.broadcast,
    length-Merge h.merged,
    h.spent,
  )

  -- A socket with room for all that is pending keeps it.
  pub room-Moved :
      {x y : ℕ} {p q : Pump M} → Moved x y p q → pending p ≤ p.left → pending q ≤ q.left
  room-Moved h r = omega (arith, pending-Moved h, r)
