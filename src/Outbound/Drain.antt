-- ===== src/Outbound/Drain.antt =====
-- transport/ws/connection.go: what one round of the writer takes from the queues and writes.
use grodyia.Prelude.{
  ℕ, zero, suc, ◌+◌, ◌%◌, ◌≤◌, ◌≡◌, ◌≢◌, refl, ap, List, [], ◌∷◌, ◌++◌, length, arith,
  if◌then◌else◌, nat_eq, ◌==◌, Bool-cases, inl, inr,
}
use grodyia.Outbound.{
  Pump, Wrote, nothing, something, failed, burst_on, try_write_direct_burst, next_broadcast,
  next_broadcast_in, write_broadcast_on, last_burst, preempt, batch_from,
}
use grodyia.Outbound.Merge.{
  done, direct, broadcast, Moved, Moved-refl, Moved-trans, Moved-weaken, pending, room-Moved,
}

-- The direct messages that a batch may write from the round `i` on.
abbrev pub bursts : ℕ → ℕ → ℕ
bursts zero i = 4
bursts (suc rounds) i = (if i % 8 == 0 then 4 else 0) + bursts rounds (i + 1)

bursts-ge : (rounds i : ℕ) → 4 ≤ bursts rounds i
bursts-ge zero i = omega arith
bursts-ge (suc rounds) i = omega (arith, bursts-ge rounds (i + 1))

module _ {M : Type 0} where
  -- A part of the writer that does not fail moved at most `x` direct and `y` broadcast messages, and it
  -- does not fail on a socket with room for all that is pending.
  pub record Part (x y : ℕ) (p : Pump M) (r : Pump M × Wrote) : Type 0 where
    pub moved : r.1 ≢ failed → Moved x y p r.0
    pub safe : pending p ≤ p.left → r.1 ≢ failed

  burst_on-Moved :
      (s b w : List M) (left limit : ℕ) (o : Wrote)
      → let r = burst_on s b w left limit o in
        r.1 ≢ failed
        → Moved limit 0 (record { send = s; broadcast = b; written = w; left = left }) r.0
  unfolding burst_on
  burst_on-Moved s b w left zero o n = Moved-refl 0 0 _
  burst_on-Moved [] b w left (suc limit) o n = Moved-refl (suc limit) 0 _
  burst_on-Moved (m ∷ s) b w zero (suc limit) o n = absurd (n refl)
  burst_on-Moved (m ∷ s) b w (suc left) (suc limit) o n =
      let first : Moved 1 0 (record { send = m ∷ s; broadcast = b; written = w; left = suc left })
          (record { send = s; broadcast = b; written = w ++ m ∷ []; left = left }) =
        record {
          d = m ∷ [];
          b = [];
          w = m ∷ [];
          sent = refl;
          broadcasted = refl;
          wrote = refl;
          merged = direct m done;
          spent = omega arith;
          few_direct = omega arith;
          few_broadcast = omega arith;
        } in
      Moved-weaken (suc limit) 0
        (Moved-trans _ _ _ first (burst_on-Moved s b (w ++ m ∷ []) left limit something n))
        (omega arith) (omega arith)

  burst_on-safe :
      (s b w : List M) (left limit : ℕ) (o : Wrote)
      → o ≢ failed
      → length s ≤ left
      → (burst_on s b w left limit o).1 ≢ failed
  unfolding burst_on
  burst_on-safe s b w left zero o n h = n
  burst_on-safe [] b w left (suc limit) o n h = n
  burst_on-safe (m ∷ s) b w zero (suc limit) o n h = absurd (omega arith)
  burst_on-safe (m ∷ s) b w (suc left) (suc limit) o n h =
      burst_on-safe s b (w ++ m ∷ []) left limit something (λ e. cc) (omega (arith, h))

  pub burst-Part : (limit : ℕ) (p : Pump M) → Part limit 0 p (try_write_direct_burst limit p)
  unfolding try_write_direct_burst
  burst-Part limit p = record {
    moved = burst_on-Moved p.send p.broadcast p.written p.left limit nothing;
    safe = λ h.
        burst_on-safe p.send p.broadcast p.written p.left limit nothing (λ e. cc)
          (omega (arith, h));
  }

  next_in-Part : (b : List M) (p : Pump M) → p.broadcast ≡ b → Part 0 1 p (next_broadcast_in b p)
  unfolding next_broadcast_in
  next_in-Part [] p e = record { moved = λ n. Moved-refl 0 1 p; safe = λ h k. cc }
  next_in-Part (m ∷ rest) p e = taken p.left refl
    where
      taken :
          (left : ℕ) → p.left ≡ left → Part 0 1 p (write_broadcast_on m p.send rest p.written left)
      taken zero l = record {
        moved = λ n. absurd (n refl);
        safe = λ h. absurd (omega (arith, h, l, ap length e));
      }
      taken (suc left) l = record {
        moved = λ n. record {
          d = [];
          b = m ∷ [];
          w = m ∷ [];
          sent = refl;
          broadcasted = e;
          wrote = refl;
          merged = broadcast m done;
          spent = omega (arith, l);
          few_direct = omega arith;
          few_broadcast = omega arith;
        };
        safe = λ h k. cc;
      }

  pub next-Part : (p : Pump M) → Part 0 1 p (next_broadcast p)
  unfolding next_broadcast
  next-Part p = next_in-Part p.broadcast p refl

  pub Part-weaken :
      {x y : ℕ} (x' y' : ℕ) {p : Pump M} {r : Pump M × Wrote}
      → Part x y p r
      → x ≤ x'
      → y ≤ y'
      → Part x' y' p r
  Part-weaken x' y' h k l = record {
    moved = λ n. Moved-weaken x' y' (h.moved n) k l;
    safe = h.safe;
  }

  -- One part after another, which a failure cuts off.
  pub Part-then :
      {x y x' y' : ℕ} (p : Pump M) (a f : Pump M × Wrote)
      → Part x y p a
      → Part x' y' a.0 f
      → a.1 ≢ failed
      → Part (x + x') (y + y') p f
  Part-then p a f h k n = record {
    moved = λ m. Moved-trans p a.0 f.0 (h.moved n) (k.moved m);
    safe = λ r. k.safe (room-Moved (h.moved n) r);
  }

  pub Part-failed :
      {x y : ℕ} (x' y' : ℕ) (p q : Pump M) → Part x y p (q, failed) → Part x' y' p (q, failed)
  Part-failed x' y' p q h = record { moved = λ n. absurd (n refl); safe = h.safe }

  last-Part : (p : Pump M) → Part 4 0 p (last_burst p)
  unfolding last_burst
  last-Part p = ended (try_write_direct_burst 4 p) (burst-Part 4 p)
    where
      ended :
          (a : Pump M × Wrote)
          → Part 4 0 p a
          → Part 4 0 p (elim a.1 [
            | nothing ↦ (a.0, something)
            | something ↦ (a.0, something)
            | failed ↦ (a.0, failed)
          ])
      ended (q, nothing) h = record { moved = λ n. h.moved (λ e. cc); safe = λ r e. cc }
      ended (q, something) h = h
      ended (q, failed) h = h

  preempt-Part : (i : ℕ) (p : Pump M) → Part (if i % 8 == 0 then 4 else 0) 0 p (preempt i p)
  unfolding preempt
  preempt-Part i p = elim (Bool-cases (i % 8 == 0)) [
    | inl e ↦ rw e (burst-Part 4 p)
    | inr e ↦ rw e (record { moved = λ n. Moved-refl 0 0 p; safe = λ r n. cc })
  ]

  -- A round of the batch: a burst, a broadcast message and the rounds after it, or the last burst.
  round-Part :
      {c x y : ℕ} (p : Pump M) (a t f : Pump M × Wrote)
      → Part c 0 p a
      → a.1 ≢ failed
      → Part 0 1 a.0 t
      → t.1 ≢ failed
      → Part x y t.0 f
      → Part (c + x) (suc y) p f
  round-Part p a t f h n k m l =
      Part-weaken _ _ (Part-then p a f h (Part-then a.0 t f k l m) n) (omega arith) (omega arith)

  taken :
      {c x y : ℕ} (p : Pump M) (a t f : Pump M × Wrote)
      → 4 ≤ x
      → Part c 0 p a
      → a.1 ≢ failed
      → Part 0 1 a.0 t
      → Part x y t.0 f
      → Part
          (c + x)
          (suc y)
          p
          (elim t.1 [ nothing ↦ last_burst t.0 | something ↦ f | failed ↦ (t.0, failed) ])
  taken p a (r, nothing) f u h n k l =
      Part-weaken _ _ (round-Part p a (r, nothing) _ h n k (λ e. cc) (last-Part r))
        (omega (arith, u)) (omega arith)
  taken p a (r, something) f u h n k l = round-Part p a (r, something) f h n k (λ e. cc) l
  taken {c} {x} {y} p a (r, failed) f u h n k l =
      Part-failed (c + x) (suc y) p r (Part-then p a (r, failed) h k n)

  batch_round :
      {c x y : ℕ} (p : Pump M) (a t f : Pump M × Wrote)
      → 4 ≤ x
      → Part c 0 p a
      → Part 0 1 a.0 t
      → Part x y t.0 f
      → Part (c + x) (suc y) p (elim a.1 [
        | failed ↦ (a.0, failed)
        | _ ↦ elim t.1 [ nothing ↦ last_burst t.0 | something ↦ f | failed ↦ (t.0, failed) ]
      ])
  batch_round {c} {x} {y} p (q, failed) t f u h k l = Part-failed (c + x) (suc y) p q h
  batch_round {c} {x} {y} p (q, nothing) t f u h k l =
      taken {c = c} {x = x} {y = y} p (q, nothing) t f u h (λ e. cc) k l
  batch_round {c} {x} {y} p (q, something) t f u h k l =
      taken {c = c} {x = x} {y = y} p (q, something) t f u h (λ e. cc) k l

  pub batch-Part :
      (rounds i : ℕ) (p : Pump M) → Part (bursts rounds i) rounds p (batch_from rounds i p)
  unfolding batch_from
  batch-Part zero i p = last-Part p
  batch-Part (suc rounds) i p =
      let a = preempt i p in
      let t = next_broadcast a.0 in
      batch_round p a t (batch_from rounds (i + 1) t.0) (bursts-ge rounds (i + 1))
        (preempt-Part i p) (next-Part a.0) (batch-Part rounds (i + 1) t.0)
