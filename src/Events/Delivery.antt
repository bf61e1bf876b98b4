-- ===== src/Events/Delivery.antt =====
-- What `Publish` of events/events.go delivers.
use grodyia.Prelude.{
  ℕ, suc, ◌+◌, ◌≤◌, ◌<◌, ◌≡◌, refl, sym, ap, String, Bool, true, false, List, [], ◌∷◌, ◌++◌,
  append-nil, append_assoc, Option, none, some, string_eq, All, length, length-append, arith,
  Option-cases, inl, inr,
}
use grodyia.Events.{
  Event, Subscription, Job, Bus, sent, refused, targets, call_all, enqueue, enqueue_all, jobs_for,
  publish_async, new_event,
}

module _ {H D E : Type 0} (run : H → Event D → Option E) where
  -- A synchronous `Publish` calls handlers one by one from the front. With no error it calls all of
  -- them, and each returned nil; with an error the handler called last returned it, each before it
  -- returned nil, and those behind it are not called.
  pub call_all_lem :
      (e : Event D) (subs : List (Subscription H))
      → ((call_all run e subs).1 ≡ none
          → ((call_all run e subs).0 ≡ subs) × All (λ s. run s.handler e ≡ none) subs)
        × ((x : E)
            → (call_all run e subs).1 ≡ some x
            → (before : List (Subscription H)) × (s : Subscription H) × (after : List
                (Subscription H))
              × (subs ≡ before ++ s ∷ after)
              × ((call_all run e subs).0 ≡ before ++ s ∷ [])
              × (run s.handler e ≡ some x)
              × All (λ t. run t.handler e ≡ none) before)
  unfolding call_all
  call_all_lem e [] = ((λ h. (refl, tt)), (λ x h. cc))
  call_all_lem e (s ∷ subs) =
      let ih = call_all_lem e subs in
      elim (Option-cases (run s.handler e)) [
        | inl o ↦ (
          (λ h. ground (arith, ih.0)),
          (λ x h.
              let (before, t, after, split, called, bad, good) = ih.1 x (ground arith) in
              (s ∷ before, t, after, ap (◌∷◌ s) split, ground arith, bad, (o, good))),
        )
        | inr (y, o) ↦
            ((λ h. ground arith), (λ x h. ([], s, subs, refl, ground arith, ground arith, tt)))
      ]

module _ {H D : Type 0} where
  length-jobs_for :
      (e : Event D) (subs : List (Subscription H)) → length (jobs_for e subs) ≡ length subs
  unfolding jobs_for
  length-jobs_for e [] = refl
  length-jobs_for e (s ∷ subs) = ap suc (length-jobs_for e subs)

  enqueue_room :
      (prefer_done : Bool) (b : Bus H D) (job : Job H D)
      → b.done ≡ false
      → length b.jobs < b.buffer_size
      → ((enqueue prefer_done b job).1 ≡ sent)
        × ((enqueue prefer_done b job).0.jobs ≡ b.jobs ++ job ∷ [])
        × ((enqueue prefer_done b job).0.done ≡ false)
        × ((enqueue prefer_done b job).0.buffer_size ≡ b.buffer_size)
        × ((enqueue prefer_done b job).0.subscribers ≡ b.subscribers)
  unfolding enqueue
  enqueue_room prefer_done b job d h = ground arith

  enqueue_all_room :
      (prefer_done : Bool) (b : Bus H D) (jobs : List (Job H D))
      → b.done ≡ false
      → length b.jobs + length jobs ≤ b.buffer_size
      → ((enqueue_all prefer_done b jobs).1 ≡ sent)
        × ((enqueue_all prefer_done b jobs).0.jobs ≡ b.jobs ++ jobs)
        × ((enqueue_all prefer_done b jobs).0.subscribers ≡ b.subscribers)
  unfolding enqueue_all
  enqueue_all_room prefer_done b [] d h = (refl, sym (append-nil b.jobs), refl)
  enqueue_all_room prefer_done b (job ∷ jobs) d h =
      let c = (enqueue prefer_done b job).0 in
      let first = enqueue_room prefer_done b job d (omega arith) in
      ground (
        arith,
        first,
        enqueue_all_room prefer_done c jobs,
        length-append b.jobs (job ∷ []),
        append_assoc b.jobs (job ∷ []) jobs,
      )

  -- On an open bus whose channel has room for them, an asynchronous `Publish` puts one job for each
  -- subscription of the topic, then one for each of "*", behind the jobs in the channel, in the order
  -- of subscription, and returns nil; the subscriptions stay. Closed, it fails and changes nothing.
  pub publish_async_lem :
      (prefer_done : Bool) (b : Bus H D) (topic : String) (payload : D) (now : ℕ)
      → (b.closed ≡ false
          → b.done ≡ false
          → length b.jobs + length (targets b topic) ≤ b.buffer_size
          → let (c, outcome) = publish_async prefer_done b topic payload now in
            (outcome ≡ sent)
            × (c.jobs ≡ b.jobs ++ jobs_for (new_event topic payload now) (targets b topic))
            × (c.subscribers ≡ b.subscribers))
        × (b.closed ≡ true → publish_async prefer_done b topic payload now ≡ (b, refused))
  unfolding publish_async
  publish_async_lem prefer_done b topic payload now =
      let jobs = jobs_for (new_event topic payload now) (targets b topic) in
      (
        (λ open_bus d room. ground (
          arith,
          enqueue_all_room prefer_done b jobs d,
          length-jobs_for (new_event topic payload now) (targets b topic),
        )),
        (λ h. ground arith),
      )
