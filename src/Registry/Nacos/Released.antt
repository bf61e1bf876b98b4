-- ===== src/Registry/Nacos/Released.antt =====
-- registry/nacos.go: what Close takes back from the server.
use grodyia.Prelude.{
  ◌≡◌, refl, arith, ℕ, String, Bool, true, false, List, [], ◌∷◌, none, some, string_eq, nat_eq, All,
  All-append, sym, Dict, insert, ◌∙◌, ap,
}
use grodyia.Registry.{Service, Event, create, delete_event}
use grodyia.Registry.Nacos.{
  NacosRegistry, Instance, Place, place, new_registry, connect, close, register, deregister,
  get_service, watch, stop, deliver, register_accepted, deregister_accepted, watch_added,
  new_watcher, closed, deregister_each, deregister_instance, unsubscribe_at, at_watcher,
  instances_to_services,
}
use grodyia.Registry.Nacos.Calls.{is_registered, is_subscribed}
use grodyia.Registry.Nacos.Steps.{
  Step, connect_step, close_step, register_step, deregister_step, get_step, watch_step, stop_step,
  deliver_step, step, run, Named,
}
use grodyia.Registry.Nacos.Requests.{
  holds, awaits, deregister_each-is_registered, deregister_each-is_subscribed,
  unsubscribe_each-is_registered, unsubscribe_each-is_subscribed, unsubscribe_at-is_registered,
  notify-awaits, callback-awaits, retire-awaits, remove-All, known-register, known-deregister,
  followed-watch, notify-nil, remove-nil, is_registered-nil, is_subscribed-nil,
}

-- What the server still has of the registry, the registry knows of.
record Inv (of : String → Place) (r : NacosRegistry) : Type 0 where
  has_client : r.running ≡ true → r.connected ≡ true
  unused : r.connected ≡ false → (r.registered ≡ []) × (r.watchers ≡ []) × (r.calls ≡ [])
  agreed : All (λ s. place s ≡ of s.id) r.registered
  known : (p : Place) → is_registered p r.calls ≡ true → holds p r.registered ≡ true
  followed : (n : String) → is_subscribed n r.calls ≡ true → awaits n r.watchers ≡ true

module _ (of : String → Place) where
  new-Inv : (watched : String) → Inv of (new_registry watched)
  unfolding new_registry is_registered is_subscribed
  new-Inv watched = ground arith

  connected-Inv :
      (r : NacosRegistry) → Inv of r → Inv of (record r { connected = true; running = true })
  connected-Inv r h = record {
    has_client = λ c. refl;
    unused = ground arith;
    agreed = h.agreed;
    known = h.known;
    followed = h.followed;
  }

  cached-Inv :
      (services : Dict String (List Service)) (r : NacosRegistry)
      → Inv of r
      → Inv of (record r { services = services })
  cached-Inv services r h = record {
    has_client = h.has_client;
    unused = h.unused;
    agreed = h.agreed;
    known = h.known;
    followed = h.followed;
  }

  register_accepted-Inv :
      (s : Service) (now stamp : ℕ) (r : NacosRegistry)
      → place s ≡ of s.id
      → Inv of r
      → r.connected ≡ true
      → Inv of (register_accepted s now stamp r)
  unfolding register_accepted is_subscribed
  register_accepted-Inv svc now stamp r e h c =
      let s = record svc { last_seen = now; healthy = true } in
      let event : Event = record { type = create; service = s; timestamp = stamp } in
      record {
        has_client = h.has_client;
        unused = ground arith;
        agreed = All-append (λ x. place x ≡ of x.id) r.registered (s ∷ []) h.agreed (e, tt);
        known = known-register s r.registered r.calls h.known;
        followed = λ n k. notify-awaits n event r.watchers ∙ h.followed n k;
      }

  deregister_instance-Inv :
      (s : Service) (r : NacosRegistry)
      → place s ≡ of s.id
      → Inv of r
      → r.connected ≡ true
      → Inv of (record r { calls = deregister_instance r.connected s r.calls })
  unfolding deregister_instance is_subscribed
  deregister_instance-Inv s r e h c = rw c record {
    has_client = λ u. refl;
    unused = ground arith;
    agreed = h.agreed;
    known = λ p k. (known-deregister of s r.registered r.calls e h.agreed h.known p k).0;
    followed = h.followed;
  }

  deregister_accepted-Inv :
      (s : Service) (stamp : ℕ) (r : NacosRegistry)
      → place s ≡ of s.id
      → Inv of r
      → Inv of (deregister_accepted s stamp r)
  unfolding deregister_accepted deregister_instance is_subscribed
  deregister_accepted-Inv s stamp r e h =
      let event : Event = record { type = delete_event; service = s; timestamp = stamp } in
      record {
        has_client = h.has_client;
        unused = ground (arith, h.unused, remove-nil s.id, notify-nil event);
        agreed = remove-All (λ x. place x ≡ of x.id) s.id r.registered h.agreed;
        known = λ p k. ground (
          arith,
          h.known p,
          h.unused,
          is_registered-nil p,
          known-deregister of s r.registered r.calls e h.agreed h.known p,
        );
        followed = λ n k. ground (arith, h.followed n, notify-awaits n event r.watchers);
      }

  watch_added-Inv :
      (accepted : Bool) (r : NacosRegistry)
      → Inv of r
      → r.connected ≡ true
      → Inv of (watch_added accepted r)
  unfolding watch_added new_watcher is_registered
  watch_added-Inv accepted r h c =
      let w = new_watcher accepted r in
      record {
        has_client = h.has_client;
        unused = ground arith;
        agreed = h.agreed;
        known = λ p k. ground (arith, h.known p);
        followed = followed-watch w r.watchers r.calls (ground arith) h.followed;
      }

  stop-Inv : (id : ℕ) (r : NacosRegistry) → Inv of r → Inv of (stop id r)
  unfolding stop unsubscribe_at at_watcher
  stop-Inv id r h = record {
    has_client = h.has_client;
    unused = λ c. rw ((h.unused c).1, (h.unused c).2) ((h.unused c).0, refl, refl);
    agreed = h.agreed;
    known = λ p k.
        h.known p (sym (unsubscribe_at-is_registered p r.connected id r.watchers r.calls) ∙ k);
    followed = λ n k.
        let kept =
          retire-awaits n r.connected id r.watchers r.calls
            (λ c. ap (is_subscribed n) (h.unused c).2 ∙ is_subscribed-nil n) k in
        kept.1 (h.followed n kept.0);
  }

  deliver-Inv :
      (id : ℕ) (found : List Instance) (stamp : ℕ) (r : NacosRegistry)
      → Inv of r
      → Inv of (deliver id found stamp r)
  unfolding deliver at_watcher
  deliver-Inv id found stamp r h = record {
    has_client = h.has_client;
    unused = λ c. rw (h.unused c).1 ((h.unused c).0, refl, (h.unused c).2);
    agreed = h.agreed;
    known = h.known;
    followed = λ n k. callback-awaits n r.watch_service found stamp id r.watchers ∙ h.followed n k;
  }

  abbrev Released : NacosRegistry → Type 0
  Released r =
      ((p : Place) → is_registered p r.calls ≡ false)
      × ((n : String) → is_subscribed n r.calls ≡ false)

  closed-Released : (r : NacosRegistry) → Inv of r → r.connected ≡ true → Released (closed r)
  unfolding closed is_registered is_subscribed
  closed-Released r h c = rw c (
    λ p. ground (
      arith,
      unsubscribe_each-is_registered p r.watchers (deregister_each true r.registered r.calls),
      deregister_each-is_registered p r.registered r.calls,
      h.known p,
    ),
    λ n. ground (
      arith,
      unsubscribe_each-is_subscribed n r.watchers (deregister_each true r.registered r.calls),
      deregister_each-is_subscribed n r.registered r.calls,
      h.followed n,
    ),
  )

  closed-Inv : (r : NacosRegistry) → Inv of r → r.connected ≡ true → Inv of (closed r)
  unfolding closed
  closed-Inv r h c =
      let released = closed-Released r h c in
      record {
        has_client = λ u. c;
        unused = ground arith;
        agreed = tt;
        known = λ p k. ground (arith, released.0 p);
        followed = λ n k. ground (arith, released.1 n);
      }

  step-Inv : (s : Step) (r : NacosRegistry) → Named of s → Inv of r → Inv of (step s r)
  unfolding step connect close register deregister get_service watch
  step-Inv (connect_step made) r e h = ground (arith, connected-Inv r h)
  step-Inv close_step r e h = ground (arith, closed-Inv r h, h.has_client)
  step-Inv (register_step s now stamp none) r e h = h
  step-Inv (register_step s now stamp (some success)) r e h =
      ground (arith, register_accepted-Inv s now stamp r e h)
  step-Inv (deregister_step s stamp accepted) r e h =
      ground (arith, deregister_accepted-Inv s stamp r e h, deregister_instance-Inv s r e h)
  step-Inv (get_step name none) r e h = h
  step-Inv (get_step name (some l)) r e h =
      ground (arith, cached-Inv (insert name (instances_to_services name l) r.services) r h)
  step-Inv (watch_step accepted) r e h = ground (arith, watch_added-Inv accepted r h)
  step-Inv (stop_step id) r e h = stop-Inv id r h
  step-Inv (deliver_step id found stamp) r e h = deliver-Inv id found stamp r h

  run-Inv : (ss : List Step) (r : NacosRegistry) → All (Named of) ss → Inv of r → Inv of (run ss r)
  unfolding run
  run-Inv [] r a h = h
  run-Inv (s ∷ ss) r a h = run-Inv ss (step s r) a.1 (step-Inv s r a.0 h)

-- For services whose id tells their name and address, and any calls on a new registry after which it runs:
-- once Close has returned, the last request that it has sent about any instance is not an accepted
-- registration, and the last about the changes of any service is not an accepted subscription, whatever
-- errors the server answered with.
pub close-run :
    (of : String → Place) (watched : String) (ss : List Step)
    → All (Named of) ss
    → (run ss (new_registry watched)).running ≡ true
    → ((p : Place) → is_registered p (close (run ss (new_registry watched))).calls ≡ false)
      × ((n : String) → is_subscribed n (close (run ss (new_registry watched))).calls ≡ false)
unfolding close
close-run of watched ss named running =
    let r = run ss (new_registry watched) in
    let h = run-Inv of ss (new_registry watched) named (new-Inv of watched) in
    rw running (closed-Released of r h (h.has_client running))
