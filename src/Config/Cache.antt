-- ===== src/Config/Cache.antt =====
-- config/config.go: the cache of values, over any sequence of calls of Value and Watch and of rounds of
-- watchSource, none of which overlap, after the sources were loaded.
use grodyia.Prelude.{
  ◌≢◌, ◌==◌, if◌then◌else◌, DistinctKeys, insert-DistinctKeys, append_assoc, append-nil, Bool-cases,
  inl, inr, subst, ◌≡◌, refl, sym, ap, ◌∙◌, ℕ, String, string_eq, Bool, List, [], ◌∷◌, ◌++◌, map,
  Option, some, Dict, lookup, insert, lookup-insert, lookup-nil, eq_iff, arith,
}
use grodyia.Config.{
  observers_of, Node, Table, KeyValue, Config, new, get_value, load, value, watch, watch_round,
  decode_each,
}
use grodyia.Config.Values.{
  Coherent, ValueResult, value-Coherent, calls_for, each_called, notify-Coherent,
}

module _ {V B : Type 0} (decode : KeyValue B → Table V → Table V × Bool) where
  pub data Step : Type 0 where
    value_step : String → Step
    watch_step : String → ℕ → List (Option Bool) → Step
    round_step : List (KeyValue B) → Step

  unfoldable pub step : Step → Config V → Config V
  unfolding value watch watch_round
  step (value_step key) c = (value key c).0
  step (watch_step key o sources) c = (watch key o sources c).0
  step (round_step kvs) c = (watch_round decode kvs c).0

  unfoldable pub run : List Step → Config V → Config V
  unfolding step
  run [] c = c
  run (s ∷ ss) c = run ss (step s c)

  -- What the step received from a watcher, and all that the steps did, in order.
  abbrev pub gained : Step → List (KeyValue B)
  gained (value_step key) = []
  gained (watch_step key o sources) = []
  gained (round_step kvs) = kvs

  abbrev pub received : List Step → List (KeyValue B)
  received [] = []
  received (s ∷ ss) = gained s ++ received ss

  decode_each-append :
      (xs ys : List (KeyValue B)) (m : Table V)
      → decode_each decode (xs ++ ys) m ≡ decode_each decode ys (decode_each decode xs m)
  unfolding decode_each
  decode_each-append [] ys m = refl
  decode_each-append (x ∷ xs) ys m = decode_each-append xs ys (decode x m).0

  decode_each-none : (m : Table V) → decode_each decode [] m ≡ m
  unfolding decode_each
  decode_each-none m = refl

  empty-Coherent : (c : Config V) → c.cached ≡ [] → Coherent c
  empty-Coherent c e = λ key v l. ground (arith, lookup-nil {V = Node V} key)

  -- The observers of a key that the steps' calls of Watch add, in order.
  abbrev pub watched : String → List (Step) → List ℕ
  watched key [] = []
  watched key (value_step k ∷ ss) = watched key ss
  watched key (watch_step k o sources ∷ ss) =
      let rest = watched key ss in if k == key then o ∷ rest else rest
  watched key (round_step kvs ∷ ss) = watched key ss

  -- A round calls the observers of each key with what the new tree has.
  RoundResult : (kvs : List (KeyValue B)) (c : Config V) → Type 0
  RoundResult kvs c =
      let r = watch_round decode kvs c in
      let tree = decode_each decode kvs c.data_map in
      (kvs ≡ [] → r.1 ≡ [])
      × (kvs ≢ []
          → (key : String)
          → calls_for key r.1
            ≡ each_called key (get_value key tree) (observers_of (lookup key c.observers)))
      × (r.0.data_map ≡ tree)
      × Coherent r.0
      × (r.0.observers ≡ c.observers)

  round-Coherent :
      (kvs : List (KeyValue B)) (c : Config V)
      → DistinctKeys c.observers
      → Coherent c
      → RoundResult kvs c
  unfolding watch_round RoundResult decode_each
  round-Coherent [] c d h = ((λ e. refl), (λ n. absurd (n refl)), refl, h, refl)
  round-Coherent (kv ∷ kvs) c d h =
      let c' : Config V = record c {
        data_map = decode_each decode (kv ∷ kvs) c.data_map;
        cached = [];
      } in
      let (called, same, after, kept) = notify-Coherent c.observers c' d (empty-Coherent c' refl) in
      ((λ e. cc), (λ n. called), same, after, kept)

  -- What holds of the configuration after steps.
  record Sound (m : Table V) (obs : String → List ℕ) (c : Config V) : Type 0 where
    tree : c.data_map ≡ m
    coherent : Coherent c
    distinct : DistinctKeys c.observers
    observed : (key : String) → observers_of (lookup key c.observers) ≡ obs key

  observed-insert :
      (k key : String) (o : ℕ) (observers : Dict String (List ℕ))
      → observers_of (lookup key (insert k (observers_of (lookup k observers) ++ o ∷ []) observers))
        ≡ observers_of (lookup key observers) ++ (if k == key then o ∷ [] else [])
  unfolding observers_of
  observed-insert k key o observers =
      let now = observers_of (lookup k observers) ++ o ∷ [] in
      elim (Bool-cases (k == key)) [
        | inl y ↦
            let same = (eq_iff k key).0 y in
            let found : lookup key (insert k now observers) ≡ some now =
              ground (arith, lookup-insert k key now observers) in
            rw (found, y) (ap (λ i. observers_of (lookup i observers) ++ o ∷ []) same)
        | inr n ↦
            let found : lookup key (insert k now observers) ≡ lookup key observers =
              ground (arith, lookup-insert k key now observers) in
            rw (found, n) (sym (append-nil (observers_of (lookup key observers))))
      ]

  Sound-ext :
      {m : Table V} {obs obs' : String → List ℕ} {c : Config V}
      → ((key : String) → obs key ≡ obs' key)
      → Sound m obs c
      → Sound m obs' c
  Sound-ext e h = record {
    tree = h.tree;
    coherent = h.coherent;
    distinct = h.distinct;
    observed = λ key. h.observed key ∙ e key;
  }

  watched_then :
      (k key : String) (o : ℕ) (os rest : List ℕ)
      → (os ++ (if k == key then o ∷ [] else [])) ++ rest
        ≡ os ++ (if k == key then o ∷ rest else rest)
  watched_then k key o os rest = elim (Bool-cases (k == key)) [
    | inl y ↦ rw y (append_assoc os (o ∷ []) rest)
    | inr n ↦ rw n (append_assoc os [] rest)
  ]

  run-Sound :
      (ss : List Step) (m : Table V) (obs : String → List ℕ) (c : Config V)
      → Sound m obs c
      → Sound (decode_each decode (received ss) m) (λ key. obs key ++ watched key ss) (run ss c)
  unfolding run step watch decode_each RoundResult
  run-Sound [] m obs c h = record {
    tree = h.tree;
    coherent = h.coherent;
    distinct = h.distinct;
    observed = λ key. h.observed key ∙ sym (append-nil (obs key));
  }
  run-Sound (value_step key ∷ ss) m obs c h =
      let (found, same, after, kept) : ValueResult key c = value-Coherent key c h.coherent in
      run-Sound ss m obs (value key c).0 (record {
        tree = same ∙ h.tree;
        coherent = after;
        distinct = subst DistinctKeys (sym kept) h.distinct;
        observed = λ k. ap (λ os. observers_of (lookup k os)) kept ∙ h.observed k;
      })
  run-Sound (watch_step k o sources ∷ ss) m obs c h =
      let added = λ (key : String). if k == key then o ∷ [] else [] in
      Sound-ext (λ key. watched_then k key o (obs key) (watched key ss))
        (run-Sound ss m (λ key. obs key ++ added key) (watch k o sources c).0
          (record {
            tree = h.tree;
            coherent = h.coherent;
            distinct =
                insert-DistinctKeys k (observers_of (lookup k c.observers) ++ o ∷ []) c.observers
                  h.distinct;
            observed = λ key.
                observed-insert k key o c.observers ∙ ap (λ os. os ++ added key) (h.observed key);
          }))
  run-Sound (round_step kvs ∷ ss) m obs c h =
      let (none_called, called, same, after, kept) : RoundResult kvs c =
        round-Coherent kvs c h.distinct h.coherent in
      subst (λ t. Sound t (λ key. obs key ++ watched key ss) (run ss (watch_round decode kvs c).0))
        (sym (decode_each-append kvs (received ss) m))
        (run-Sound ss (decode_each decode kvs m) obs (watch_round decode kvs c).0 (record {
          tree = same ∙ ap (decode_each decode kvs) h.tree;
          coherent = after;
          distinct = subst DistinctKeys (sym kept) h.distinct;
          observed = λ k. ap (λ os. observers_of (lookup k os)) kept ∙ h.observed k;
        }))

  cached-load :
      (sources : List (Option (List (KeyValue B)))) (resolver : Option (Table V → Table V × Bool))
      (c : Config V)
      → (load decode sources resolver c).0.cached ≡ c.cached
  unfolding load
  cached-load sources resolver c = ground arith

  observers-load :
      (sources : List (Option (List (KeyValue B)))) (resolver : Option (Table V → Table V × Bool))
      (c : Config V)
      → (load decode sources resolver c).0.observers ≡ c.observers
  unfolding load
  observers-load sources resolver c = ground arith

  load-Sound :
      (sources : List (Option (List (KeyValue B)))) (resolver : Option (Table V → Table V × Bool))
      → let c : Config V = (load decode sources resolver new).0 in Sound c.data_map (λ key. []) c
  unfolding new load lookup observers_of
  load-Sound sources resolver =
      let c : Config V = (load decode sources resolver new).0 in
      let watching : c.observers ≡ [] = observers-load sources resolver new in
      record {
        tree = refl;
        coherent = empty-Coherent c (cached-load sources resolver new);
        distinct = subst DistinctKeys (sym watching) tt;
        observed = λ key. ap (λ os. observers_of (lookup key os)) watching;
      }

  -- After Load on a new configuration and any calls of Value and Watch and rounds of watchSource, none of
  -- which overlap: the tree is the loaded one with all that the watchers delivered decoded into it in order;
  -- Value gives of every key what `getValue` finds in that tree, so that the cache is never stale; and a
  -- further round that receives something calls, for each key, every observer that Watch was given for it,
  -- once each and in order, with what the tree after the round has of the key, and no other observer; one
  -- that receives nothing calls none.
  pub run-load :
      (sources : List (Option (List (KeyValue B)))) (resolver : Option (Table V → Table V × Bool))
      (ss : List Step)
      → let c : Config V = (load decode sources resolver new).0 in
        let tree = decode_each decode (received ss) c.data_map in
        ((run ss c).data_map ≡ tree)
        × ((key : String) → (value key (run ss c)).1 ≡ get_value key tree)
        × ((watch_round decode [] (run ss c)).1 ≡ [])
        × ((kv : KeyValue B) (kvs : List (KeyValue B)) (key : String)
            → calls_for key (watch_round decode (kv ∷ kvs) (run ss c)).1
              ≡ map
                  (λ o. (o, key, get_value key (decode_each decode (kv ∷ kvs) tree)))
                  (watched key ss))
  unfolding RoundResult
  run-load sources resolver ss =
      let c : Config V = (load decode sources resolver new).0 in
      let h = run-Sound ss c.data_map (λ key. []) c (load-Sound sources resolver) in
      (
        h.tree,
        (λ key.
            let found : ValueResult key (run ss c) = value-Coherent key (run ss c) h.coherent in
            found.0 ∙ ap (get_value key) h.tree),
        (round-Coherent [] (run ss c) h.distinct h.coherent).0 refl,
        (λ kv kvs key.
            let called =
              (round-Coherent (kv ∷ kvs) (run ss c) h.distinct h.coherent).1 (λ e. cc) key in
            called
            ∙ ap
                (λ m.
                  each_called key (get_value key (decode_each decode (kv ∷ kvs) m))
                    (observers_of (lookup key (run ss c).observers)))
                h.tree
            ∙ ap
                (each_called key (
                  get_value key
                    (decode_each decode (kv ∷ kvs) (decode_each decode (received ss) c.data_map))))
                (h.observed key)),
      )
