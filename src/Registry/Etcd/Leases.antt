-- ===== src/Registry/Etcd/Leases.antt =====
-- registry/etcd.go: what becomes of every lease, over any sequence of calls.
use grodyia.Prelude.{
  ◌++◌, ◌==◌, nat_eq, if_cases, ◌≡◌, refl, subst, ℕ, ◌+◌, String, string_eq, Bool, true, false,
  ◌&&◌, not, List, [], ◌∷◌, Option, none, some, if◌then◌else◌, Dict, lookup, insert, delete,
  DistinctKeys, insert-DistinctKeys, delete-DistinctKeys, eq_iff, arith,
}
use grodyia.Registry.{Service}
use grodyia.Registry.Etcd.{
  EtcdRegistry, Decoded, new_registry, service_key, connect, close, leases, register,
  keep_registered, deregister, found_lease, get_service, get_answered, watch, load_cache, stop,
}
use grodyia.Registry.Etcd.Ledger.{
  Step, connect_step, close_step, register_step, deregister_step, get_step, watch_step, load_step,
  stop_step, Ledger, taken, after_close, step, and_then, run, fresh,
}

-- How often the list has the lease.
abbrev pub times : ℕ → List ℕ → ℕ
times lease [] = 0
times lease (x ∷ xs) = times lease xs + (if x == lease then 1 else 0)

times-append :
    (lease : ℕ) (xs ys : List ℕ) → times lease (xs ++ ys) ≡ times lease xs + times lease ys
times-append lease [] ys = omega arith
times-append lease (x ∷ xs) ys = omega (arith, times-append lease xs ys)

times-taken :
    (x : ℕ) (b : Bool) (o : Option ℕ) (l : List ℕ)
    → times x (taken b o ++ l) ≡ (if b then times x (found_lease o) else 0) + times x l
unfolding found_lease
times-taken x b none l = ground arith
times-taken x b (some lease) l = ground arith

times-insert :
    (x : ℕ) (k : String) (v : ℕ) (m : Dict String ℕ)
    → times x (leases (insert k v m)) + times x (found_lease (lookup k m))
      ≡ times x (leases m) + (if v == x then 1 else 0)
unfolding insert lookup leases found_lease
times-insert x k v [] = ground arith
times-insert x k v ((j, w) ∷ m) = ground (arith, times-insert x k v m)

times-delete :
    (x : ℕ) (k : String) (m : Dict String ℕ)
    → DistinctKeys m
    → times x (leases (delete k m)) + times x (found_lease (lookup k m)) ≡ times x (leases m)
unfolding delete lookup leases found_lease
times-delete x k [] d = refl
times-delete x k ((j, w) ∷ m) d = ground (arith, times-delete x k m d.1, eq_iff j k)

pub record Accounted (l : Ledger) : Type 0 where
  pub distinct : DistinctKeys l.registry.registered
  pub balance :
      (lease : ℕ)
      → times lease l.granted
        ≡ times lease (leases l.registry.registered)
          + times lease l.revoked
          + times lease l.abandoned
          + times lease l.replaced
  pub unused : l.registry.connected ≡ false → l.registry.registered ≡ []

-- The balance holds after every call that does not panic.
abbrev pub SafeAccounted : Option Ledger → Type 0
SafeAccounted none = Unit {0}
SafeAccounted (some l) = Accounted l

register-Accounted :
    (s : Service) (now stamp : ℕ) (granted : Option ℕ) (put kept : Bool) (l : Ledger)
    → Accounted l
    → SafeAccounted (step (register_step s now stamp granted put kept) l)
unfolding step register keep_registered found_lease
register-Accounted s now stamp none put kept l h =
    let r = l.registry in
    let old = lookup (service_key r s.name s.id) r.registered in
    record {
      distinct = ground (arith, h.distinct);
      balance =
          λ x. ground (arith, h.balance x, times-taken x (r.connected && false) old l.replaced);
      unused = ground (arith, h.unused);
    }
register-Accounted s now stamp (some lease) put kept l h =
    let r = l.registry in
    let key = service_key r s.name s.id in
    let old = lookup key r.registered in
    record {
      distinct = ground (arith, h.distinct, insert-DistinctKeys key lease r.registered h.distinct);
      balance = λ x. ground (
        arith,
        h.balance x,
        times-insert x key lease r.registered,
        times-taken x r.connected (some lease) l.granted,
        times-taken x (r.connected && not (put && kept)) (some lease) l.abandoned,
        times-taken x (r.connected && (put && kept)) old l.replaced,
      );
      unused = ground (arith, h.unused);
    }

deregister-Accounted :
    (s : Service) (stamp : ℕ) (deleted : Bool) (l : Ledger)
    → Accounted l
    → SafeAccounted (step (deregister_step s stamp deleted) l)
unfolding step deregister
deregister-Accounted s stamp deleted l h =
    let r = l.registry in
    let key = service_key r s.name s.id in
    let old = lookup key r.registered in
    record {
      distinct = ground (arith, h.distinct, delete-DistinctKeys key r.registered h.distinct);
      balance = λ x. ground (
        arith,
        h.balance x,
        times-delete x key r.registered h.distinct,
        times-append x (found_lease old) l.revoked,
      );
      unused = ground (arith, h.unused);
    }

close-Accounted : (l : Ledger) → Accounted l → SafeAccounted (step close_step l)
unfolding step close after_close leases
close-Accounted l h =
    let r = l.registry in
    let held = leases r.registered in
    let P = λ (o : Option (EtcdRegistry × List ℕ)). SafeAccounted (after_close l o) in
    if_cases P (not r.running) _ _
      (λ e. record { distinct = h.distinct; balance = h.balance; unused = h.unused })
      (λ e.
        if_cases P r.stopped _ _ (λ e. tt)
          (λ e. record {
            distinct = tt;
            balance = λ x. omega (arith, h.balance x, times-append x held l.revoked);
            unused = λ c. refl;
          }))

registered-load_cache :
    (found : List Decoded) (r : EtcdRegistry)
    → ((load_cache found r).registered ≡ r.registered)
      × ((load_cache found r).connected ≡ r.connected)
unfolding load_cache
registered-load_cache [] r = (refl, refl)
registered-load_cache ((s, true) ∷ rest) r = registered-load_cache rest _
registered-load_cache ((s, false) ∷ rest) r = registered-load_cache rest r

registered-get_service :
    (name : String) (answer : Option (List Decoded)) (r : EtcdRegistry)
    → ((get_service name answer r).0.registered ≡ r.registered)
      × ((get_service name answer r).0.connected ≡ r.connected)
unfolding get_service get_answered
registered-get_service name none r = ground arith
registered-get_service name (some []) r = ground arith
registered-get_service name (some (kv ∷ kvs)) r = ground arith

step-Accounted : (s : Step) (l : Ledger) → Accounted l → SafeAccounted (step s l)
unfolding step connect watch stop
step-Accounted (connect_step made) l h = ground arith
step-Accounted close_step l h = close-Accounted l h
step-Accounted (register_step s now stamp granted put kept) l h =
    register-Accounted s now stamp granted put kept l h
step-Accounted (deregister_step s stamp deleted) l h = deregister-Accounted s stamp deleted l h
step-Accounted (get_step name answer) l h =
    ground (arith, registered-get_service name answer l.registry)
step-Accounted watch_step l h = ground arith
step-Accounted (load_step found) l h = ground (arith, registered-load_cache found l.registry)
step-Accounted (stop_step id) l h = ground arith

and_then-SafeAccounted :
    (o : Option Ledger) (f : Ledger → Option Ledger)
    → ((l : Ledger) → Accounted l → SafeAccounted (f l))
    → SafeAccounted o
    → SafeAccounted (and_then o f)
and_then-SafeAccounted none f h s = tt
and_then-SafeAccounted (some l) f h s = h l s

run-SafeAccounted : (ss : List Step) (l : Ledger) → Accounted l → SafeAccounted (run ss l)
unfolding run
run-SafeAccounted [] l h = h
run-SafeAccounted (s ∷ ss) l h =
    and_then-SafeAccounted (step s l) (run ss) (run-SafeAccounted ss) (step-Accounted s l h)

fresh-Accounted : (group space watched : String) → Accounted (fresh group space watched)
unfolding fresh new_registry leases
fresh-Accounted group space watched = record {
  distinct = tt;
  balance = λ x. refl;
  unused = λ e. refl;
}

Accounted-some : (o : Option Ledger) (l : Ledger) → SafeAccounted o → o ≡ some l → Accounted l
Accounted-some none l s e = cc
Accounted-some (some k) l s e = subst SafeAccounted e s

-- After any calls on a new registry, none of which panicked: for every lease, the times that etcd granted it
-- are the keys that are registered with it, the requests to revoke it, the Registers that failed after its
-- grant, and the keys that had it when they were registered again, all taken together; no key is registered
-- twice; and a registry without a client has none.
pub run-fresh-Accounted :
    (group space watched : String) (ss : List Step) (l : Ledger)
    → run ss (fresh group space watched) ≡ some l
    → Accounted l
run-fresh-Accounted group space watched ss l e =
    Accounted-some (run ss (fresh group space watched)) l
      (run-SafeAccounted ss (fresh group space watched) (fresh-Accounted group space watched)) e
