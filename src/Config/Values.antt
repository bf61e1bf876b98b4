-- ===== src/Config/Values.antt =====
-- config/config.go: Value and the calls of the observers, on a cache that has what the tree has.
use grodyia.Prelude.{
  keep, keep-append, append-nil, Bool-cases, inl, inr, DistinctKeys, ◌==◌, if◌then◌else◌, nat_eq,
  ◌≡◌, refl, sym, ap, ◌∙◌, ℕ, String, string_eq, List, [], ◌∷◌, ◌++◌, map, Option, none, some, Dict,
  lookup, insert, lookup-insert, eq_iff, arith,
}
use grodyia.Config.{
  observers_of, Node, null, leaf, table, Config, get_value, store, value, notify, value_cached,
}

module _ {V : Type 0} where
  -- A cached value is the one that the tree has.
  abbrev pub Coherent : Config V → Type 0
  Coherent c =
      (key : String) (v : Node V) → lookup key c.cached ≡ some v → v ≡ get_value key c.data_map

  insert-Coherent :
      (key asked : String) (v w : Node V) (c : Config V)
      → v ≡ get_value key c.data_map
      → Coherent c
      → lookup asked (insert key v c.cached) ≡ some w
      → w ≡ get_value asked c.data_map
  insert-Coherent key asked v w c e h l =
      ground (arith, lookup-insert key asked v c.cached, eq_iff key asked, h asked w)

  store-Coherent :
      (key : String) (v : Node V) (c : Config V)
      → v ≡ get_value key c.data_map
      → Coherent c
      → Coherent (store key v c)
  unfolding store
  store-Coherent key null c e h = h
  store-Coherent key (leaf x) c e h = λ asked w l. insert-Coherent key asked (leaf x) w c e h l
  store-Coherent key (table t) c e h = λ asked w l. insert-Coherent key asked (table t) w c e h l

  data_map-store :
      (key : String) (v : Node V) (c : Config V) → (store key v c).data_map ≡ c.data_map
  unfolding store
  data_map-store key null c = refl
  data_map-store key (leaf x) c = refl
  data_map-store key (table t) c = refl

  observers-store :
      (key : String) (v : Node V) (c : Config V) → (store key v c).observers ≡ c.observers
  unfolding store
  observers-store key null c = refl
  observers-store key (leaf x) c = refl
  observers-store key (table t) c = refl

  -- `Value` gives what the tree has, changes neither tree nor observers, and keeps the cache coherent.
  abbrev pub ValueResult : String → Config V → Type 0
  ValueResult key c =
      ((value key c).1 ≡ get_value key c.data_map)
      × ((value key c).0.data_map ≡ c.data_map)
      × Coherent (value key c).0
      × ((value key c).0.observers ≡ c.observers)

  cached_result :
      (key : String) (found : Option (Node V)) (c : Config V)
      → lookup key c.cached ≡ found
      → Coherent c
      → ((value_cached key found c).1 ≡ get_value key c.data_map)
        × ((value_cached key found c).0.data_map ≡ c.data_map)
        × Coherent (value_cached key found c).0
        × ((value_cached key found c).0.observers ≡ c.observers)
  unfolding value_cached
  cached_result key (some v) c l h = (h key v l, refl, h, refl)
  cached_result key none c l h = (
    refl,
    data_map-store key (get_value key c.data_map) c,
    store-Coherent key (get_value key c.data_map) c refl h,
    observers-store key (get_value key c.data_map) c,
  )

  pub value-Coherent : (key : String) (c : Config V) → Coherent c → ValueResult key c
  unfolding value
  value-Coherent key c h = cached_result key (lookup key c.cached) c refl h

  -- The calls for one key. A call is the number of the observer, the key and the value.
  abbrev pub calls_for : String → List (ℕ × String × Node V) → List (ℕ × String × Node V)
  calls_for key calls = keep (λ call. call.1 == key) calls

  -- Each of the observers is called once, in order, with the value.
  abbrev pub each_called : String → Node V → List ℕ → List (ℕ × String × Node V)
  each_called key v obs = map (λ o. (o, key, v)) obs

  each_called-calls_for :
      (k key : String) (v : Node V) (obs : List ℕ)
      → calls_for key (each_called k v obs) ≡ (if k == key then each_called k v obs else [])
  each_called-calls_for k key v [] = ground arith
  each_called-calls_for k key v (o ∷ obs) = ground (arith, each_called-calls_for k key v obs)

  -- The calls of one entry, and the later ones for the key.
  joined :
      (k key : String) (v w : Node V) (obs : List ℕ) (later : List (ℕ × String × Node V))
      (o : Option (List ℕ))
      → (k ≡ key → (v ≡ w) × (o ≡ none))
      → later ≡ each_called key w (observers_of o)
      → calls_for key (each_called k v obs) ++ later
        ≡ each_called key w (observers_of (if k == key then some obs else o))
  unfolding observers_of
  joined k key v w obs later o one e = elim (Bool-cases (k == key)) [
    | inl y ↦
        let same = (eq_iff k key).0 y in
        rw (each_called-calls_for k key v obs, y, e, (one same).1, (one same).0, same)
          (append-nil (each_called key w obs))
    | inr n ↦ rw (each_called-calls_for k key v obs, n, e) refl
  ]

  pub notify-Coherent :
      (observers : Dict String (List ℕ)) (c : Config V)
      → DistinctKeys observers
      → Coherent c
      → ((key : String)
          → calls_for key (notify observers c).1
            ≡ each_called key (get_value key c.data_map) (observers_of (lookup key observers)))
        × ((notify observers c).0.data_map ≡ c.data_map)
        × Coherent (notify observers c).0
        × ((notify observers c).0.observers ≡ c.observers)
  unfolding notify lookup observers_of
  notify-Coherent [] c d h = ((λ key. refl), refl, h, refl)
  notify-Coherent ((k, obs) ∷ rest) c d h =
      let (found, same, after, kept) : ValueResult k c = value-Coherent k c h in
      let c' = (value k c).0 in
      let (called, same', after', kept') = notify-Coherent rest c' d.1 after in
      (
        (λ key.
            keep-append (λ (call : ℕ × String × Node V). call.1 == key)
              (each_called k (value k c).1 obs) (notify rest c').1
            ∙ joined k key (value k c).1 (get_value key c.data_map) obs
                (calls_for key (notify rest c').1) (lookup key rest)
                (λ e. (
                  found ∙ ap (λ i. get_value i c.data_map) e,
                  ap (λ i. lookup i rest) (sym e) ∙ d.0,
                ))
                (called key
                  ∙ ap (λ m. each_called key (get_value key m) (observers_of (lookup key rest)))
                      same)),
        same' ∙ same,
        after',
        kept' ∙ kept,
      )
