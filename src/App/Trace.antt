-- ===== src/App/Trace.antt =====
-- grodyia.go: readings of the calls of `Start`, what they start and stop, and those of its parts.
use grodyia.Prelude.{
  true, false, ℕ, ◌+◌, ◌≡◌, refl, sym, ap, ◌∙◌, Bool, if◌then◌else◌, List, [], ◌∷◌, ◌++◌, map,
  Option, none, some, arith, append_assoc, append-nil,
}
use grodyia.App.{
  Action, init_log, watch_registry, close_registry, publish_started, stop_transport,
  start_transport, connect_registry, Transport, Hook, run_before, run_hooks, start_transports,
  stop_all, connect_ok, connecting, on_registry, RegistryClient,
}

-- A transport whose `Start` returned nil.
unfoldable pub up_of : Action → List ℕ
up_of (start_transport id none) = id ∷ []
up_of _ = []

unfoldable pub stop_of : Action → List ℕ
stop_of (stop_transport id) = id ∷ []
stop_of _ = []

-- A `Connect` that returned nil.
unfoldable pub connect_of : Action → ℕ
connect_of (connect_registry none) = 1
connect_of _ = 0

unfoldable pub close_of : Action → ℕ
close_of close_registry = 1
close_of _ = 0

unfoldable pub collect : (Action → List ℕ) → List Action → List ℕ
collect f [] = []
collect f (x ∷ xs) = f x ++ collect f xs

unfoldable pub count : (Action → ℕ) → List Action → ℕ
count f [] = 0
count f (x ∷ xs) = f x + count f xs

abbrev pub ups : List Action → List ℕ
ups calls = collect up_of calls

abbrev pub stops : List Action → List ℕ
stops calls = collect stop_of calls

abbrev pub connects : List Action → ℕ
connects calls = count connect_of calls

abbrev pub closes : List Action → ℕ
closes calls = count close_of calls

abbrev pub ids : List Transport → List ℕ
ids ts = map (λ t. t.id) ts

collect-append :
    (f : Action → List ℕ) (xs ys : List Action)
    → collect f (xs ++ ys) ≡ collect f xs ++ collect f ys
unfolding collect
collect-append f [] ys = refl
collect-append f (x ∷ xs) ys =
    ap (λ l. f x ++ l) (collect-append f xs ys)
    ∙ sym (append_assoc (f x) (collect f xs) (collect f ys))

count-append : (f : Action → ℕ) (xs ys : List Action) → count f (xs ++ ys) ≡ count f xs + count f ys
unfolding count
count-append f [] ys = omega arith
count-append f (x ∷ xs) ys = ground (arith, count-append f xs ys)

-- The four readings of a trace.
pub record Reads (calls : List Action) (u s : List ℕ) (n m : ℕ) : Type 0 where
  pub up : ups calls ≡ u
  pub stopped : stops calls ≡ s
  pub connected : connects calls ≡ n
  pub closed : closes calls ≡ m

pub Reads-append :
    {xs ys : List Action} {u u' s s' : List ℕ} {n n' m m' : ℕ}
    → Reads xs u s n m
    → Reads ys u' s' n' m'
    → Reads (xs ++ ys) (u ++ u') (s ++ s') (n + n') (m + m')
Reads-append {xs = xs} {ys = ys} h k = ground (
  arith,
  collect-append up_of xs ys,
  collect-append stop_of xs ys,
  count-append connect_of xs ys,
  count-append close_of xs ys,
)

-- Calls that the readings do not see.
abbrev pub Quiet : List Action → Type 0
Quiet calls = Reads calls [] [] 0 0

pub Quiet-after :
    {xs ys : List Action} {u s : List ℕ} {n m : ℕ}
    → Reads xs u s n m
    → Quiet ys
    → Reads (xs ++ ys) u s n m
Quiet-after {xs = xs} {ys = ys} h k =
    ground (arith, Reads-append h k, append-nil (ups xs), append-nil (stops xs))

pub Quiet-before :
    {xs ys : List Action} {u s : List ℕ} {n m : ℕ}
    → Quiet xs
    → Reads ys u s n m
    → Reads (xs ++ ys) u s n m
Quiet-before h k = ground (arith, Reads-append h k)

pub run_before-Reads : (hs : List Hook) → Reads (run_before hs).0 [] [] 0 0
unfolding run_before collect count up_of stop_of connect_of close_of
run_before-Reads [] = ground arith
run_before-Reads (h ∷ rest) = ground (arith, run_before-Reads rest)

pub run_hooks-Reads : (hs : List Hook) → Reads (run_hooks hs) [] [] 0 0
unfolding run_hooks collect count up_of stop_of connect_of close_of
run_hooks-Reads [] = ground arith
run_hooks-Reads (h ∷ rest) = ground (arith, run_hooks-Reads rest)

pub start_transports-Reads :
    (registered : Bool) (ts : List Transport)
    → let (calls, started, err) = start_transports registered ts in Reads calls (ids started) [] 0 0
unfolding start_transports collect count up_of stop_of connect_of close_of
start_transports-Reads registered [] = ground arith
start_transports-Reads registered (t ∷ rest) =
    ground (arith, start_transports-Reads registered rest)

pub stop_all-Reads : (ts : List Transport) → Reads (stop_all ts) [] (ids ts) 0 0
unfolding stop_all collect count up_of stop_of connect_of close_of
stop_all-Reads [] = ground arith
stop_all-Reads (t ∷ rest) = ground (arith, stop_all-Reads rest)

pub on_registry-Reads : (r : Option RegistryClient) → Reads (on_registry r watch_registry) [] [] 0 0
unfolding on_registry collect count up_of stop_of connect_of close_of
on_registry-Reads none = ground arith
on_registry-Reads (some r) = ground arith

abbrev pub as_number : Bool → ℕ
as_number b = if b then 1 else 0

pub connecting-Reads :
    (r : Option RegistryClient) → Reads (connecting r) [] [] (as_number (connect_ok r)) 0
unfolding connecting connect_ok collect count up_of stop_of connect_of close_of
connecting-Reads none = ground arith
connecting-Reads (some r) = ground arith

pub Quiet-init_log : {calls : List Action} → Quiet calls → Quiet (init_log ∷ calls)
unfolding collect count up_of stop_of connect_of close_of
Quiet-init_log h = ground arith

pub Quiet-publish_started : {calls : List Action} → Quiet calls → Quiet (publish_started ∷ calls)
unfolding collect count up_of stop_of connect_of close_of
Quiet-publish_started h = ground arith

pub Quiet-nil : Quiet []
unfolding collect count
Quiet-nil = ground arith

pub close-Reads : (b : Bool) → Reads (if b then close_registry ∷ [] else []) [] [] 0 (as_number b)
unfolding collect count up_of stop_of connect_of close_of
close-Reads true = ground arith
close-Reads false = ground arith
