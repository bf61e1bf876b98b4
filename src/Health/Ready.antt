-- ===== src/Health/Ready.antt =====
-- health/health.go: what the manager's SetReady and SetNoReady do to every state that it has.
use grodyia.Prelude.{
  ◌≡◌, ◌<◌, refl, ℕ, zero, suc, Bool, true, false, List, [], ◌∷◌, length, All, arith, ap,
}
use grodyia.Health.{
  HealthState, HealthManager, set_state, state_ready, set_each, set_ready, set_no_ready, all_ready,
  is_ready,
}

length-set_state :
    (b : Bool) (h : ℕ) (states : List HealthState) → length (set_state b h states) ≡ length states
unfolding set_state
length-set_state b h [] = refl
length-set_state b zero (s ∷ rest) = refl
length-set_state b (suc h) (s ∷ rest) = ap suc (length-set_state b h rest)

state_ready-set_state :
    (b : Bool) (h : ℕ) (states : List HealthState)
    → h < length states
    → state_ready h (set_state b h states) ≡ b
unfolding set_state state_ready
state_ready-set_state b h [] l = elim l [ ]
state_ready-set_state b zero (s ∷ rest) l = refl
state_ready-set_state b (suc h) (s ∷ rest) l = state_ready-set_state b h rest (omega arith)

state_ready-keeps :
    (b : Bool) (h j : ℕ) (states : List HealthState)
    → state_ready j states ≡ b
    → j < length states
    → state_ready j (set_state b h states) ≡ b
unfolding set_state state_ready
state_ready-keeps b h j [] e l = elim l [ ]
state_ready-keeps b zero zero (s ∷ rest) e l = refl
state_ready-keeps b zero (suc j) (s ∷ rest) e l = e
state_ready-keeps b (suc h) zero (s ∷ rest) e l = e
state_ready-keeps b (suc h) (suc j) (s ∷ rest) e l = state_ready-keeps b h j rest e (omega arith)

each_keeps :
    (b : Bool) (hs : List ℕ) (j : ℕ) (states : List HealthState)
    → state_ready j states ≡ b
    → j < length states
    → state_ready j (set_each b hs states) ≡ b
unfolding set_each
each_keeps b [] j states e l = e
each_keeps b (h ∷ hs) j states e l =
    each_keeps b hs j (set_state b h states) (state_ready-keeps b h j states e l)
      (omega (arith, length-set_state b h states))

-- Every state of the list exists.
abbrev pub Known : List HealthState → List ℕ → Type 0
Known states hs = All (λ h. h < length states) hs

Known-set_state :
    (b : Bool) (h : ℕ) (hs : List ℕ) (states : List HealthState)
    → Known states hs
    → Known (set_state b h states) hs
Known-set_state b h [] states k = tt
Known-set_state b h (j ∷ hs) states (l, k) =
    (omega (arith, length-set_state b h states), Known-set_state b h hs states k)

each_sets :
    (b : Bool) (hs : List ℕ) (states : List HealthState)
    → Known states hs
    → All (λ h. state_ready h (set_each b hs states) ≡ b) hs
unfolding set_each
each_sets b [] states k = tt
each_sets b (h ∷ hs) states (l, k) =
    let after = set_state b h states in
    (
      each_keeps b hs h after (state_ready-set_state b h states l)
          (omega (arith, length-set_state b h states)),
      each_sets b hs after (Known-set_state b h hs states k),
    )

all_ready-All :
    (hs : List ℕ) (states : List HealthState)
    → All (λ h. state_ready h states ≡ true) hs
    → all_ready hs states ≡ true
unfolding all_ready
all_ready-All [] states a = refl
all_ready-All (h ∷ hs) states (e, a) = rw (e, all_ready-All hs states a) refl

-- After SetReady of a manager whose states exist, every one of them is ready, and so is the manager;
-- after SetNoReady none of them is.
pub is_ready-set_ready :
    (hm : HealthManager)
    → Known hm.states hm.healths
    → (is_ready (set_ready hm) ≡ true)
      × All (λ h. state_ready h (set_no_ready hm).states ≡ false) hm.healths
unfolding is_ready set_ready set_no_ready
is_ready-set_ready hm k = (
  all_ready-All hm.healths (set_each true hm.healths hm.states)
      (each_sets true hm.healths hm.states k),
  each_sets false hm.healths hm.states k,
)
