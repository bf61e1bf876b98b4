-- ===== src/Outbound/Round.antt =====
-- transport/ws/connection.go: one round of the writer, `drainPendingWrites`, as a whole.
use grodyia.Prelude.{
  subst, ◌∙◌, ◌≤◌, ◌++◌, length, ℕ, zero, suc, ◌+◌, ◌<◌, ◌≡◌, ◌≢◌, refl, sym, List, [], ◌∷◌, arith,
  nat_eq,
}
use grodyia.Outbound.{
  Pump, Wrote, nothing, something, failed, burst_on, try_write_direct_burst, next_broadcast,
  next_broadcast_in, write_broadcast_on, last_burst, preempt, batch_from, drain_pending_writes,
  drain_broadcast,
}
use grodyia.Outbound.Merge.{pending-Moved}
use grodyia.Outbound.Drain.{
  Part, Part-weaken, Part-then, Part-failed, burst-Part, next-Part, batch-Part,
}

module _ {M : Type 0} where
  first_on :
      (s b w : List M) (left : ℕ)
      → let r = burst_on s b w left 1 nothing in
        (r.1 ≡ nothing
          → (s ≡ []) × (r.0 ≡ record { send = s; broadcast = b; written = w; left = left }))
        × (r.1 ≡ something → r.0.left + 1 ≡ left)
  unfolding burst_on
  first_on [] b w left = ground arith
  first_on (m ∷ s) b w zero = ground arith
  first_on (m ∷ s) b w (suc left) = ground arith

  -- A burst of one message.
  first_lem :
      (p : Pump M)
      → let r = try_write_direct_burst 1 p in
        (r.1 ≡ nothing → (p.send ≡ []) × (r.0 ≡ p)) × (r.1 ≡ something → r.0.left + 1 ≡ p.left)
  unfolding try_write_direct_burst
  first_lem p = first_on p.send p.broadcast p.written p.left

  write_on_lem :
      (m : M) (s b w : List M) (left : ℕ)
      → let r = write_broadcast_on m s b w left in
        (r.1 ≢ nothing) × (r.1 ≡ something → r.0.left + 1 ≡ left)
  unfolding write_broadcast_on
  write_on_lem m s b w zero = ground arith
  write_on_lem m s b w (suc left) = ground arith

  next_in_lem :
      (b : List M) (p : Pump M)
      → let r = next_broadcast_in b p in
        (r.1 ≡ nothing → (b ≡ []) × (r.0 ≡ p)) × (r.1 ≡ something → r.0.left + 1 ≡ p.left)
  unfolding next_broadcast_in
  next_in_lem [] p = ground arith
  next_in_lem (m ∷ rest) p = ground (arith, write_on_lem m p.send rest p.written p.left)

  next_lem :
      (p : Pump M)
      → let r = next_broadcast p in
        (r.1 ≡ nothing → (p.broadcast ≡ []) × (r.0 ≡ p)) × (r.1 ≡ something → r.0.left + 1 ≡ p.left)
  unfolding next_broadcast
  next_lem p = next_in_lem p.broadcast p

  last_something : (p : Pump M) → (last_burst p).1 ≢ nothing
  unfolding last_burst
  last_something p = ground arith

  batch_something : (rounds i : ℕ) (p : Pump M) → (batch_from rounds i p).1 ≢ nothing
  unfolding batch_from
  batch_something zero i p = last_something p
  batch_something (suc rounds) i p = ground (
    arith,
    last_something (next_broadcast (preempt i p).0).0,
    batch_something rounds (i + 1) (next_broadcast (preempt i p).0).0,
  )

  -- Nothing is taken from an empty queue.
  none_direct : (d s : List M) → [] ≡ d ++ s → length d ≤ 0
  none_direct [] s e = omega arith
  none_direct (m ∷ d) s e = cc

  Part-idle :
      {x y : ℕ} {p : Pump M} {r : Pump M × Wrote} → p.send ≡ [] → Part x y p r → Part 0 y p r
  Part-idle e h = record {
    moved = λ n.
        let m = h.moved n in
        record {
          d = m.d;
          b = m.b;
          w = m.w;
          sent = m.sent;
          broadcasted = m.broadcasted;
          wrote = m.wrote;
          merged = m.merged;
          spent = m.spent;
          few_direct = none_direct m.d _ (sym e ∙ m.sent);
          few_broadcast = m.few_broadcast;
        };
    safe = h.safe;
  }

  -- The two ends of a round: it moved something, or found both queues empty.
  pub record Round (p : Pump M) (r : Pump M × Wrote) : Type 0 where
    pub part : Part 16 32 p r
    pub direct : p.send ≢ [] → Part 1 0 p r
    pub batch : p.send ≡ [] → Part 0 32 p r
    pub idle : r.1 ≡ nothing → (p.send ≡ []) × (p.broadcast ≡ []) × (r.0 ≡ p)
    pub progress : r.1 ≡ something → r.0.left < p.left

  -- With no direct message, the round takes a broadcast message and its batch.
  batch_Round :
      (p : Pump M) (t : Pump M × Wrote)
      → p.send ≡ []
      → Part 0 1 p t
      → (t.1 ≡ nothing → (p.broadcast ≡ []) × (t.0 ≡ p)) × (t.1 ≡ something → t.0.left + 1 ≡ p.left)
      → Round p (elim t.1 [
        | nothing ↦ (t.0, nothing)
        | something ↦ batch_from 31 1 t.0
        | failed ↦ (t.0, failed)
      ])
  batch_Round p (q, nothing) e k l = record {
    part = Part-weaken 16 32 k (omega arith) (omega arith);
    direct = λ n. absurd (n e);
    batch = λ s. Part-weaken 0 32 k (omega arith) (omega arith);
    idle = λ n. (e, (l.0 n).0, (l.0 n).1);
    progress = λ n. cc;
  }
  batch_Round p (q, something) e k l =
      let rest = batch-Part 31 1 q in
      let whole : Part 16 32 p (batch_from 31 1 q) =
        Part-then p (q, something) (batch_from 31 1 q) k rest (λ n. cc) in
      record {
        part = whole;
        direct = λ n. absurd (n e);
        batch = λ s. Part-idle s whole;
        idle = λ n. absurd (batch_something 31 1 q n);
        progress = λ n. omega (arith, l.1 refl, pending-Moved (rest.moved (λ m. cc)));
      }
  batch_Round p (q, failed) e k l = record {
    part = Part-failed 16 32 p q k;
    direct = λ n. absurd (n e);
    batch = λ s. Part-failed 0 32 p q k;
    idle = λ n. cc;
    progress = λ n. cc;
  }

  direct_Round :
      (p : Pump M) (a f : Pump M × Wrote)
      → Part 1 0 p a
      → (a.1 ≡ nothing → (p.send ≡ []) × (a.0 ≡ p)) × (a.1 ≡ something → a.0.left + 1 ≡ p.left)
      → (p.send ≡ [] → a.0 ≡ p → Round p f)
      → Round p (elim a.1 [ failed ↦ (a.0, failed) | something ↦ (a.0, something) | nothing ↦ f ])
  direct_Round p (q, nothing) f h l k = k (l.0 refl).0 (l.0 refl).1
  direct_Round p (q, something) f h l k = record {
    part = Part-weaken 16 32 h (omega arith) (omega arith);
    direct = λ n. h;
    batch = λ s. Part-weaken 0 32 (Part-idle s h) (omega arith) (omega arith);
    idle = λ n. cc;
    progress = λ n. omega (arith, l.1 refl);
  }
  direct_Round p (q, failed) f h l k = record {
    part = Part-failed 16 32 p q h;
    direct = λ n. h;
    batch = λ s. Part-failed 0 32 p q h;
    idle = λ n. cc;
    progress = λ n. cc;
  }

  -- One round of the writer, on queues that do not grow while it runs: with a direct message pending it moves
  -- at most that one and no broadcast message; with none pending it moves a batch of at most 32 broadcast
  -- messages from the front of their queue, written in its order. It does so unless the socket fails, which
  -- it does not while it has room for all that is pending. It says that it wrote something only if it did,
  -- and that it wrote nothing only if both queues were empty, and then it changed nothing.
  pub drain-Round : (p : Pump M) → Round p (drain_pending_writes p)
  unfolding drain_pending_writes drain_broadcast
  drain-Round p =
      direct_Round p (try_write_direct_burst 1 p) (drain_broadcast (try_write_direct_burst 1 p).0)
        (burst-Part 1 p) (first_lem p)
        (λ e same.
          subst (λ q. Round p (drain_broadcast q)) (sym same)
            (batch_Round p (next_broadcast p) e (next-Part p) (next_lem p)))
