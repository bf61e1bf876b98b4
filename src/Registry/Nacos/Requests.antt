-- ===== src/Registry/Nacos/Requests.antt =====
-- registry/nacos.go: what each operation changes in the requests, and in what the registry
-- knows of them.
use grodyia.Prelude.{
  ◌≡◌, ◌≢◌, refl, ◌↔◌, arith, eq_iff, ℕ, String, Bool, true, false, ◌&&◌, ◌||◌, not, List, [], ◌∷◌,
  ◌++◌, if◌then◌else◌, string_eq, nat_eq, ◌==◌, All, ap,
}
use grodyia.Registry.{Service, Event, update}
use grodyia.Registry.Memory.{remove}
use grodyia.Registry.Nacos.{
  NacosWatcher, Instance, Place, Call, register_call, deregister_call, subscribe_call,
  unsubscribe_call, place, deregister_each, deregister_instance, unsubscribe_each, unsubscribe,
  unsubscribe_at, notify, send_event, retire, at_watcher, callback, to_service,
}
use grodyia.Registry.Nacos.Calls.{same_place, is_registered, is_subscribed}

same_place_iff : (p q : Place) → (same_place p q ≡ true) ↔ (p ≡ q)
unfolding same_place
same_place_iff p q = ground (arith, eq_iff p.service q.service, eq_iff p.ip q.ip)

-- A registered service has the place.
unfoldable pub holds : Place → List Service → Bool
unfolding same_place
holds p [] = false
holds p (s ∷ rest) = same_place (place s) p || holds p rest

-- A watcher of the map has subscribed to the service.
unfoldable pub awaits : String → List NacosWatcher → Bool
awaits n [] = false
awaits n (w ∷ rest) =
    (w.mapped && w.subscribed && not (w.service == "") && w.service == n) || awaits n rest

holds-append : (p : Place) (l k : List Service) → holds p (l ++ k) ≡ (holds p l || holds p k)
unfolding holds
holds-append p [] k = refl
holds-append p (s ∷ l) k = ground (arith, holds-append p l k)

awaits-append :
    (n : String) (l k : List NacosWatcher) → awaits n (l ++ k) ≡ (awaits n l || awaits n k)
unfolding awaits
awaits-append n [] k = refl
awaits-append n (s ∷ l) k = ground (arith, awaits-append n l k)

pub deregister_each-is_registered :
    (p : Place) (l : List Service) (calls : List Call)
    → is_registered p (deregister_each true l calls)
      ≡ (if holds p l then false else is_registered p calls)
unfolding deregister_each deregister_instance is_registered holds
deregister_each-is_registered p [] calls = refl
deregister_each-is_registered p (s ∷ rest) calls =
    ground (arith, deregister_each-is_registered p rest (deregister_call (place s) ∷ calls))

pub deregister_each-is_subscribed :
    (n : String) (l : List Service) (calls : List Call)
    → is_subscribed n (deregister_each true l calls) ≡ is_subscribed n calls
unfolding deregister_each deregister_instance is_subscribed
deregister_each-is_subscribed n [] calls = refl
deregister_each-is_subscribed n (s ∷ rest) calls =
    deregister_each-is_subscribed n rest (deregister_call (place s) ∷ calls)

pub unsubscribe_each-is_registered :
    (p : Place) (l : List NacosWatcher) (calls : List Call)
    → is_registered p (unsubscribe_each true l calls) ≡ is_registered p calls
unfolding unsubscribe_each unsubscribe is_registered
unsubscribe_each-is_registered p [] calls = refl
unsubscribe_each-is_registered p (w ∷ rest) calls = ground (
  arith,
  unsubscribe_each-is_registered p rest calls,
  unsubscribe_each-is_registered p rest (unsubscribe_call w.service ∷ calls),
)

pub unsubscribe_each-is_subscribed :
    (n : String) (l : List NacosWatcher) (calls : List Call)
    → is_subscribed n (unsubscribe_each true l calls)
      ≡ (if awaits n l then false else is_subscribed n calls)
unfolding unsubscribe_each unsubscribe is_subscribed awaits
unsubscribe_each-is_subscribed n [] calls = refl
unsubscribe_each-is_subscribed n (w ∷ rest) calls = ground (
  arith,
  unsubscribe_each-is_subscribed n rest calls,
  unsubscribe_each-is_subscribed n rest (unsubscribe_call w.service ∷ calls),
)

pub unsubscribe_at-is_registered :
    (p : Place) (c : Bool) (id : ℕ) (ws : List NacosWatcher) (calls : List Call)
    → is_registered p (unsubscribe_at c id ws calls) ≡ is_registered p calls
unfolding unsubscribe_at unsubscribe is_registered
unsubscribe_at-is_registered p c id [] calls = refl
unsubscribe_at-is_registered p c id (w ∷ ws) calls =
    ground (arith, unsubscribe_at-is_registered p c id ws calls)

pub notify-awaits :
    (n : String) (e : Event) (ws : List NacosWatcher) → awaits n (notify e ws) ≡ awaits n ws
unfolding notify send_event awaits
notify-awaits n e [] = refl
notify-awaits n e (w ∷ ws) = ground (arith, notify-awaits n e ws)

-- A watcher's fields other than its events.
abbrev Alike : NacosWatcher → NacosWatcher → Type 0
Alike v w = (v.service ≡ w.service) × (v.subscribed ≡ w.subscribed) × (v.mapped ≡ w.mapped)

callback-Alike :
    (name : String) (found : List Instance) (stamp : ℕ) (w : NacosWatcher)
    → Alike (callback name found stamp w) w
unfolding callback send_event
callback-Alike name [] stamp w = (refl, refl, refl)
callback-Alike name (i ∷ found) stamp w =
    let e : Event = record { type = update; service = to_service name i; timestamp = stamp } in
    ground (arith, callback-Alike name found stamp (send_event e w))

pub callback-awaits :
    (n name : String) (found : List Instance) (stamp id : ℕ) (ws : List NacosWatcher)
    → awaits n (at_watcher id (callback name found stamp) ws) ≡ awaits n ws
unfolding at_watcher awaits
callback-awaits n name found stamp id [] = refl
callback-awaits n name found stamp id (w ∷ ws) =
    let same = callback-Alike name found stamp w in
    ground (arith, same, callback-awaits n name found stamp id ws)

-- The other watchers still wait for what the client is still subscribed to.
pub retire-awaits :
    (n : String) (c : Bool) (id : ℕ) (ws : List NacosWatcher) (calls : List Call)
    → (c ≡ false → is_subscribed n calls ≡ false)
    → is_subscribed n (unsubscribe_at c id ws calls) ≡ true
    → (is_subscribed n calls ≡ true)
      × (awaits n ws ≡ true → awaits n (at_watcher id retire ws) ≡ true)
unfolding at_watcher awaits retire unsubscribe_at unsubscribe is_subscribed
retire-awaits n c id [] calls u h = (h, λ k. k)
retire-awaits n c id (w ∷ ws) calls u h =
    ground (arith, eq_iff w.service n, retire-awaits n c id ws calls u)

holds-remove :
    (of : String → Place) (id : String) (p : Place) (l : List Service)
    → All (λ s. place s ≡ of s.id) l
    → p ≢ of id
    → holds p l ≡ true
    → holds p (remove id l) ≡ true
unfolding holds remove
holds-remove of id p [] a other h = h
holds-remove of id p (s ∷ l) a other h =
    ground
      (arith, same_place_iff (place s) p, eq_iff s.id id, ap of, holds-remove of id p l a.1 other)

pub remove-All :
    (P : Service → Type 0) (id : String) (l : List Service) → All P l → All P (remove id l)
unfolding remove
remove-All P id [] a = a
remove-All P id (s ∷ l) a = ground (arith, remove-All P id l a.1)

pub known-register :
    (s : Service) (l : List Service) (calls : List Call)
    → ((p : Place) → is_registered p calls ≡ true → holds p l ≡ true)
    → (p : Place) → is_registered p (register_call (place s) ∷ calls) ≡ true
    → holds p (l ++ s ∷ []) ≡ true
unfolding is_registered holds
known-register s l calls known p h = ground (arith, holds-append p l (s ∷ []), known p)

pub known-deregister :
    (of : String → Place) (s : Service) (l : List Service) (calls : List Call)
    → place s ≡ of s.id
    → All (λ x. place x ≡ of x.id) l
    → ((p : Place) → is_registered p calls ≡ true → holds p l ≡ true)
    → (p : Place) → is_registered p (deregister_call (place s) ∷ calls) ≡ true
    → (holds p l ≡ true) × (holds p (remove s.id l) ≡ true)
unfolding is_registered
known-deregister of s l calls e a known p h =
    ground (arith, holds-remove of s.id p l a, known p, same_place_iff (place s) p)

pub followed-watch :
    (w : NacosWatcher) (ws : List NacosWatcher) (calls : List Call)
    → (w.subscribed ≡ true → (w.mapped ≡ true) × ((w.service == "") ≡ false))
    → ((n : String) → is_subscribed n calls ≡ true → awaits n ws ≡ true)
    → (n : String)
    → is_subscribed n (if w.subscribed then subscribe_call w.service ∷ calls else calls) ≡ true
    → awaits n (ws ++ w ∷ []) ≡ true
unfolding is_subscribed awaits
followed-watch w ws calls active followed n h =
    ground (arith, awaits-append n ws (w ∷ []), followed n)

pub notify-nil : (e : Event) → notify e [] ≡ []
unfolding notify
notify-nil e = refl

pub remove-nil : (id : String) → remove id [] ≡ []
unfolding remove
remove-nil id = refl

pub is_registered-nil : (p : Place) → is_registered p [] ≡ false
unfolding is_registered
is_registered-nil p = refl

pub is_subscribed-nil : (n : String) → is_subscribed n [] ≡ false
unfolding is_subscribed
is_subscribed-nil n = refl
