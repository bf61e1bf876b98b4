-- ===== src/Outbound/Writer.antt =====
-- transport/ws/connection.go: the writer's loop, while nobody sends.
use grodyia.Prelude.{
  ℕ, zero, suc, ◌≤◌, ◌<◌, ◌≡◌, ◌≢◌, refl, sym, ap, ◌∙◌, subst₂, append_assoc, List, [], ◌++◌, arith,
  append-nil,
}
use grodyia.Outbound.{Pump, Wrote, nothing, something, failed, drain_pending_writes, write_pump}
use grodyia.Outbound.Merge.{Merge, done, Merge-append, pending, pending-Moved, room-Moved}
use grodyia.Outbound.Round.{Round, drain-Round}

module _ {M : Type 0} where
  -- The writer ended with both queues empty; `w` is what it wrote.
  pub record Drained (p : Pump M) (r : Pump M × Wrote) : Type 0 where
    pub w : List M
    pub ended : r.1 ≡ nothing
    pub no_send : r.0.send ≡ []
    pub no_broadcast : r.0.broadcast ≡ []
    pub wrote : r.0.written ≡ p.written ++ w
    pub merged : Merge w p.send p.broadcast

  -- A round and the loop after it.
  pump_on :
      (fuel : ℕ) (p : Pump M) (a : Pump M × Wrote)
      → Round p a
      → pending p < suc fuel
      → pending p ≤ p.left
      → (pending a.0 < fuel → pending a.0 ≤ a.0.left → Drained a.0 (write_pump fuel a.0))
      → Drained p (elim a.1 [
        | nothing ↦ (a.0, nothing)
        | something ↦ write_pump fuel a.0
        | failed ↦ (a.0, failed)
      ])
  pump_on fuel p (q, nothing) h f r rest =
      let (s, b, same) = h.idle refl in
      record {
        w = [];
        ended = refl;
        no_send = ap (λ x. x.send) same ∙ s;
        no_broadcast = ap (λ x. x.broadcast) same ∙ b;
        wrote = ap (λ x. x.written) same ∙ sym (append-nil p.written);
        merged = subst₂ (Merge []) (sym s) (sym b) done;
      }
  pump_on fuel p (q, something) h f r rest =
      let m = h.part.moved (λ e. cc) in
      let k = rest (omega (arith, f, h.progress refl, pending-Moved m)) (room-Moved m r) in
      record {
        w = m.w ++ k.w;
        ended = k.ended;
        no_send = k.no_send;
        no_broadcast = k.no_broadcast;
        wrote = k.wrote ∙ ap (λ x. x ++ k.w) m.wrote ∙ append_assoc p.written m.w k.w;
        merged =
            subst₂ (Merge (m.w ++ k.w)) (sym m.sent) (sym m.broadcasted)
              (Merge-append m.merged k.merged);
      }
  pump_on fuel p (q, failed) h f r rest = absurd (h.part.safe r refl)

  -- A writer whose socket has room for all that is pending ends, after at most as many rounds as messages
  -- were pending and one more: both queues are then empty, and it wrote every message once, those of
  -- each queue in their order.
  pub write_pump-Drained :
      (fuel : ℕ) (p : Pump M)
      → pending p < fuel
      → pending p ≤ p.left
      → Drained p (write_pump fuel p)
  unfolding write_pump
  write_pump-Drained zero p f r = absurd (omega (arith, f))
  write_pump-Drained (suc fuel) p f r =
      pump_on fuel p (drain_pending_writes p) (drain-Round p) f r
        (write_pump-Drained fuel (drain_pending_writes p).0)

  stops_on :
      (fuel : ℕ) (p : Pump M) (a : Pump M × Wrote)
      → Round p a
      → p.left < suc fuel
      → (a.0.left < fuel → (write_pump fuel a.0).1 ≢ something)
      → (elim a.1 as (λ _. Pump M × Wrote) [
        | nothing ↦ (a.0, nothing)
        | something ↦ write_pump fuel a.0
        | failed ↦ (a.0, failed)
      ]).1
        ≢ something
  stops_on fuel p (q, nothing) h f rest = λ e. cc
  stops_on fuel p (q, something) h f rest = rest (omega (arith, f, h.progress refl))
  stops_on fuel p (q, failed) h f rest = λ e. cc

  -- The writer ends whatever the socket does, after at most as many rounds as writes succeed and one
  -- more: it runs out of messages or of socket, never out of fuel.
  pub write_pump-stops : (fuel : ℕ) (p : Pump M) → p.left < fuel → (write_pump fuel p).1 ≢ something
  unfolding write_pump
  write_pump-stops zero p f = absurd (omega (arith, f))
  write_pump-stops (suc fuel) p f =
      stops_on fuel p (drain_pending_writes p) (drain-Round p) f
        (write_pump-stops fuel (drain_pending_writes p).0)
