-- ===== src/Config/Merge.antt =====
-- config/config.go: what `mergeMaps` leaves at each key. The keys of a Go map are distinct.
use grodyia.Prelude.{
  ◌≡◌, ◌⊎◌, inl, inr, refl, String, string_eq, ◌==◌, Bool, true, false, ◌||◌, List, [], ◌∷◌,
  if◌then◌else◌, eq_iff, arith, Bool-cases, ap, sym, ◌∙◌,
}
use grodyia.Config.{Node, null, leaf, table, Table, end, entry, find, put, merge_node, merge, walk}

module _ {V : Type 0} where
  abbrev pub has : String → Table V → Bool
  has key end = false
  has key (entry k v rest) = k == key || has key rest

  -- No key stands twice in the map, nor in a map below it.
  unfoldable mutual
    pub DistinctNode : Node V → Type 0
    DistinctNode null = Unit {0}
    DistinctNode (leaf x) = Unit {0}
    DistinctNode (table t) = Distinct t

    pub Distinct : Table V → Type 0
    Distinct end = Unit {0}
    Distinct (entry k v rest) = (has k rest ≡ false) × DistinctNode v × Distinct rest

  find-put :
      (key asked : String) (v : Node V) (t : Table V)
      → find asked (put key v t) ≡ (if key == asked then v else find asked t)
  unfolding find put
  find-put key asked v end = refl
  find-put key asked v (entry k w rest) =
      ground (arith, find-put key asked v rest, eq_iff k key, eq_iff k asked, eq_iff key asked)

  has-find : (key : String) (t : Table V) → has key t ≡ false → find key t ≡ null
  unfolding find
  has-find key end h = refl
  has-find key (entry k v rest) h = ground (arith, has-find key rest)

  find-merge :
      (key : String) (dst src : Table V)
      → Distinct src
      → find key (merge dst src)
        ≡ (if has key src then merge_node (find key dst) (find key src) else find key dst)
  unfolding merge find Distinct
  find-merge key dst end d = refl
  find-merge key dst (entry k v rest) (once, dv, dr) = ground (
    arith,
    find-merge key (put k (merge_node (find k dst) v) dst) rest dr,
    find-put k key (merge_node (find k dst) v) dst,
    eq_iff k key,
  )

  find-Distinct : (key : String) (t : Table V) → Distinct t → DistinctNode (find key t)
  unfolding find Distinct
  find-Distinct key end d = tt
  find-Distinct key (entry k v rest) (once, dv, dr) = ground (arith, find-Distinct key rest dr)

  merge_node-table :
      (dst src : Table V) → merge_node (table dst) (table src) ≡ table (merge dst src)
  unfolding merge
  merge_node-table dst src = refl

  merge_node-null : (old : Node V) → merge_node old null ≡ null
  unfolding merge_node
  merge_node-null old = refl

  walk-null : (path : List String) → walk {V = V} path null ≡ null
  unfolding walk
  walk-null [] = refl
  walk-null (p ∷ path) = refl

  -- Below a map that is merged the walk goes on in the node that the merge stores, or in the old one.
  walk-merge :
      (p : String) (path : List String) (dst src : Table V)
      → Distinct src
      → walk (p ∷ path) (merge_node (table dst) (table src))
        ≡ walk path (if has p src then merge_node (find p dst) (find p src) else find p dst)
  unfolding walk
  walk-merge p path dst src d =
      ap (walk (p ∷ path)) (merge_node-table dst src) ∙ ap (walk path) (find-merge p dst src d)

  merge_node-leaf :
      (path : List String) (old s : Node V) (x : V)
      → DistinctNode s
      → walk path s ≡ leaf x
      → walk path (merge_node old s) ≡ leaf x
  unfolding merge_node walk Distinct
  merge_node-leaf path null null x d h = h
  merge_node-leaf path (leaf y) null x d h = h
  merge_node-leaf path (table t) null x d h = h
  merge_node-leaf path null (leaf z) x d h = h
  merge_node-leaf path (leaf y) (leaf z) x d h = h
  merge_node-leaf path (table t) (leaf z) x d h = h
  merge_node-leaf path null (table s) x d h = h
  merge_node-leaf path (leaf y) (table s) x d h = h
  merge_node-leaf [] (table t) (table s) x d h = cc
  merge_node-leaf (p ∷ path) (table t) (table s) x d h = elim (Bool-cases (has p s)) [
    | inl y ↦
        walk-merge p path t s d
        ∙ rw y (merge_node-leaf path (find p t) (find p s) x (find-Distinct p s d) h)
    | inr n ↦ cc (sym h ∙ ap (walk path) (has-find p s n) ∙ walk-null path)
  ]

  -- A value that the merged source has at a path of keys is there after `mergeMaps`, whatever the
  -- destination has at the path or above it.
  pub merge-leaf :
      (path : List String) (dst src : Table V) (x : V)
      → Distinct src
      → walk path (table src) ≡ leaf x
      → walk path (table (merge dst src)) ≡ leaf x
  unfolding Distinct
  merge-leaf path dst src x d h =
      ap (walk path) (sym (merge_node-table dst src))
      ∙ merge_node-leaf path (table dst) (table src) x d h

  -- Along the path both have maps, up to a key that the source does not have.
  abbrev pub Apart : List String → Node V → Node V → Type 0
  Apart (p ∷ path) (table dst) (table src) =
      (has p src ≡ false) ⊎ ((has p src ≡ true) × Apart path (find p dst) (find p src))
  Apart _ _ _ = ⊥

  merge_node-Apart :
      (path : List String) (old s : Node V)
      → DistinctNode s
      → Apart path old s
      → walk path (merge_node old s) ≡ walk path old
  unfolding walk Distinct
  merge_node-Apart [] old s d a = elim a [ ]
  merge_node-Apart (p ∷ path) null s d a = elim a [ ]
  merge_node-Apart (p ∷ path) (leaf y) s d a = elim a [ ]
  merge_node-Apart (p ∷ path) (table t) null d a = elim a [ ]
  merge_node-Apart (p ∷ path) (table t) (leaf y) d a = elim a [ ]
  merge_node-Apart (p ∷ path) (table t) (table s) d (inl n) = walk-merge p path t s d ∙ rw n refl
  merge_node-Apart (p ∷ path) (table t) (table s) d (inr (y, a)) =
      walk-merge p path t s d
      ∙ rw y (merge_node-Apart path (find p t) (find p s) (find-Distinct p s d) a)

  -- What the destination has at a path of keys stays there after `mergeMaps`, if both have maps along
  -- the path up to a key that the source does not have.
  pub merge-Apart :
      (path : List String) (dst src : Table V)
      → Distinct src
      → Apart path (table dst) (table src)
      → walk path (table (merge dst src)) ≡ walk path (table dst)
  unfolding Distinct
  merge-Apart path dst src d a =
      ap (walk path) (sym (merge_node-table dst src))
      ∙ merge_node-Apart path (table dst) (table src) d a
