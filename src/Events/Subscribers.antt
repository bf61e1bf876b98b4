-- ===== src/Events/Subscribers.antt =====
-- Subscribing and unsubscribing on the bus of events/events.go.
use grodyia.Keyed.{ne→beq}
use grodyia.Prelude.{
  ℕ, suc, ◌≤◌, ◌≡◌, ◌≢◌, ◌∙◌, refl, sym, ap, subst, String, true, false, List, [], ◌∷◌, ◌++◌, none,
  some, if◌then◌else◌, lookup, lookup-nil, insert, lookup-insert, string_eq, nat_eq, ◌==◌, All,
  All-append, arith, eq_iff, AllEntries, insert-AllEntries, lookup-AllEntries, Option-cases, inl,
  inr, if_cases, Dict,
}
use grodyia.Events.{
  Subscription, Bus, Options, new_bus, subs_of, subscribe, drop_id, unsubscribe, close,
}

-- Every subscription stands under its topic, with an id that was given out.
pub record Numbered {H : Type 0} (next_id : ℕ) (topic : String) (l : List (Subscription H))
    : Type 0 where
  pub each : All (λ s. (s.topic ≡ topic) × (s.id ≤ next_id)) l

module _ {H D : Type 0} where
  -- Between two calls; a closed bus has no subscriptions.
  pub record Inv (b : Bus H D) : Type 0 where
    pub numbered : AllEntries (Numbered b.next_id) b.subscribers
    pub closed_empty : b.closed ≡ true → b.subscribers ≡ []

  subs_of-insert :
      (b : Bus H D) (k j : String) (l : List (Subscription H))
      → subs_of (record b { subscribers = insert k l b.subscribers }) j
        ≡ (if k == j then l else subs_of b j)
  subs_of-insert b k j l = ground (arith, lookup-insert k j l b.subscribers)

  pub subs_of-Numbered :
      (b : Bus H D) (topic : String) → Inv b → Numbered b.next_id topic (subs_of b topic)
  subs_of-Numbered b topic h = elim (Option-cases (lookup topic b.subscribers)) [
    | inl e ↦ rw (e, subs_of) (record { each = tt })
    | inr (l, e) ↦
        rw (e, subs_of) (lookup-AllEntries (Numbered b.next_id) topic l b.subscribers h.numbered e)
  ]

  -- `Subscribe` fails exactly on a closed bus. Otherwise the new subscription comes last among those
  -- of its topic and no other topic changes.
  pub subscribe_lem :
      (b : Bus H D) (topic : String) (handler : H)
      → (b.closed ≡ true → subscribe b topic handler ≡ none)
        × (b.closed ≡ false
            → (c : Bus H D) × (s : Subscription H) × (subscribe b topic handler ≡ some (c, s))
              × (s.topic ≡ topic)
              × (s.handler ≡ handler)
              × (subs_of c topic ≡ subs_of b topic ++ s ∷ [])
              × ((other : String) → topic ≢ other → subs_of c other ≡ subs_of b other))
  unfolding subscribe
  subscribe_lem b topic handler =
      let s : Subscription H = record { topic = topic; handler = handler; id = suc b.next_id } in
      let l = subs_of b topic ++ s ∷ [] in
      (
        (λ h. rw h),
        (λ h. (
          record b { next_id = suc b.next_id; subscribers = insert topic l b.subscribers },
          s,
          rw h,
          refl,
          refl,
          ground (arith, lookup-insert topic topic l b.subscribers, eq_iff topic topic),
          λ other n.
              ground (arith, lookup-insert topic other l b.subscribers, ne→beq topic other n),
        )),
      )

drop_id_fresh :
    {H : Type 0} (n : ℕ) (topic : String) (l : List (Subscription H)) (s : Subscription H)
    → All (λ t. (t.topic ≡ topic) × (t.id ≤ n)) l
    → s.id ≡ suc n
    → drop_id (suc n) (l ++ s ∷ []) ≡ l
unfolding drop_id
drop_id_fresh n topic [] s h e = ground arith
drop_id_fresh n topic (t ∷ l) s h e = ground (arith, drop_id_fresh n topic l s h.1 e)

module _ {H D : Type 0} where
  undo :
      (b : Bus H D) (topic : String) (handler : H) (t : String)
      → Inv b
      → let s : Subscription H = record { topic = topic; handler = handler; id = suc b.next_id } in
        let c = record b {
          next_id = suc b.next_id;
          subscribers = insert topic (subs_of b topic ++ s ∷ []) b.subscribers;
        } in
        subs_of (unsubscribe c s) t ≡ subs_of b t
  unfolding unsubscribe
  undo b topic handler t h =
      let s : Subscription H = record { topic = topic; handler = handler; id = suc b.next_id } in
      let l = subs_of b topic ++ s ∷ [] in
      let m = insert topic l b.subscribers in
      ground (
        arith,
        lookup-insert topic topic l b.subscribers,
        lookup-insert topic t l b.subscribers,
        lookup-insert topic t (drop_id (suc b.next_id) l) m,
        drop_id_fresh b.next_id topic (subs_of b topic) s (subs_of-Numbered b topic h).each refl,
        eq_iff topic topic,
        eq_iff topic t,
      )

  -- Unsubscribing a subscription just made gives every topic the subscriptions that it had.
  pub unsubscribe-subscribe :
      (b c : Bus H D) (topic : String) (handler : H) (s : Subscription H) (t : String)
      → Inv b
      → subscribe b topic handler ≡ some (c, s)
      → subs_of (unsubscribe c s) t ≡ subs_of b t
  unfolding subscribe
  unsubscribe-subscribe b c topic handler s t h e = ground (arith, undo b topic handler t h)

  pub new_bus-Inv : (o : Options) → Inv (new_bus {H = H} {D = D} o)
  unfolding new_bus
  new_bus-Inv o = record { numbered = tt; closed_empty = λ e. refl }

  pub close-Inv : (b : Bus H D) → Inv b → Inv (close b)
  unfolding close
  close-Inv b h =
      if_cases Inv b.closed _ _ (λ _. h) (λ _. record { numbered = tt; closed_empty = λ e. refl })

older-Numbered :
    {H : Type 0} (n : ℕ) (m : Dict String (List (Subscription H)))
    → AllEntries (Numbered n) m
    → AllEntries (Numbered (suc n)) m
older-Numbered {H} n [] h = tt
older-Numbered {H} n ((topic, l) ∷ m) h =
    (record { each = older l h.0.each }, older-Numbered n m h.1)
  where
    older :
        (l : List (Subscription H))
        → All (λ s. (s.topic ≡ topic) × (s.id ≤ n)) l
        → All (λ s. (s.topic ≡ topic) × (s.id ≤ suc n)) l
    older [] k = tt
    older (s ∷ l) k = ((k.0.0, omega (arith, k.0.1)), older l k.1)

drop_id-All :
    {H : Type 0} (P : Subscription H → Type 0) (id : ℕ) (l : List (Subscription H))
    → All P l
    → All P (drop_id id l)
unfolding drop_id
drop_id-All P id [] h = tt
drop_id-All P id (s ∷ l) h = ground (arith, drop_id-All P id l h.1)

module _ {H D : Type 0} where
  subs_of-Older :
      (b : Bus H D) (topic : String)
      → AllEntries (Numbered (suc b.next_id)) b.subscribers
      → Numbered (suc b.next_id) topic (subs_of b topic)
  subs_of-Older b topic h = elim (Option-cases (lookup topic b.subscribers)) [
    | inl e ↦ rw (e, subs_of) (record { each = tt })
    | inr (l, e) ↦
        rw (e, subs_of) (lookup-AllEntries (Numbered (suc b.next_id)) topic l b.subscribers h e)
  ]

  pub subscribe-Inv :
      (b c : Bus H D) (topic : String) (handler : H) (s : Subscription H)
      → Inv b
      → subscribe b topic handler ≡ some (c, s)
      → Inv c
  unfolding subscribe
  subscribe-Inv b c topic handler s h e =
      let new : Subscription H = record { topic = topic; handler = handler; id = suc b.next_id } in
      let l = subs_of b topic ++ new ∷ [] in
      let c' : Bus H D = record b {
        next_id = suc b.next_id;
        subscribers = insert topic l b.subscribers;
      } in
      let olds = older-Numbered b.next_id b.subscribers h.numbered in
      let group = subs_of-Older b topic olds in
      subst Inv {x = c'} (ground arith) (record {
        numbered =
            insert-AllEntries (Numbered (suc b.next_id)) topic l b.subscribers
              (record {
                each =
                    All-append (λ t. (t.topic ≡ topic) × (t.id ≤ suc b.next_id)) (subs_of b topic)
                      (new ∷ []) group.each ((refl, omega arith), tt);
              })
              olds;
        closed_empty = λ y. ground arith;
      })

  pub unsubscribe-Inv : (b : Bus H D) (s : Subscription H) → Inv b → Inv (unsubscribe b s)
  unfolding unsubscribe
  unsubscribe-Inv b s h = elim (Option-cases (lookup s.topic b.subscribers)) [
    | inl e ↦ simp e h
    | inr (l, e) ↦
        let group = lookup-AllEntries (Numbered b.next_id) s.topic l b.subscribers h.numbered e in
        rw (e, unsubscribe)
          (record {
            numbered =
                insert-AllEntries (Numbered b.next_id) s.topic (drop_id s.id l) b.subscribers
                  (record {
                    each =
                        drop_id-All (λ t. (t.topic ≡ s.topic) × (t.id ≤ b.next_id)) s.id l
                          group.each;
                  })
                  h.numbered;
            closed_empty =
                λ y. cc (sym e ∙ ap (lookup s.topic) (h.closed_empty y) ∙ lookup-nil s.topic);
          })
  ]
