-- ===== src/Registry/Nacos/Calls.antt =====
-- registry/nacos.go: what the requests of a registry leave behind on a server.
use grodyia.Prelude.{
  String, Bool, true, false, List, [], ◌∷◌, if◌then◌else◌, string_eq, nat_eq, ◌==◌, ◌&&◌,
}
use grodyia.Registry.Nacos.{
  Place, Call, register_call, deregister_call, subscribe_call, unsubscribe_call, close_call,
}

unfoldable pub same_place : Place → Place → Bool
same_place p q = (p.service == q.service) && (p.ip == q.ip) && (p.port == q.port)

-- The last request about the place, accepted or not for a deregistration, is a registration.
unfoldable pub is_registered : Place → List Call → Bool
unfolding same_place
is_registered p [] = false
is_registered p (register_call q ∷ older) =
    let rest = is_registered p older in if same_place q p then true else rest
is_registered p (deregister_call q ∷ older) =
    let rest = is_registered p older in if same_place q p then false else rest
is_registered p (subscribe_call n ∷ older) = is_registered p older
is_registered p (unsubscribe_call n ∷ older) = is_registered p older
is_registered p (close_call ∷ older) = is_registered p older

-- The last request about changes of the service is a subscription.
unfoldable pub is_subscribed : String → List Call → Bool
is_subscribed n [] = false
is_subscribed n (register_call q ∷ older) = is_subscribed n older
is_subscribed n (deregister_call q ∷ older) = is_subscribed n older
is_subscribed n (subscribe_call m ∷ older) =
    let rest = is_subscribed n older in if m == n then true else rest
is_subscribed n (unsubscribe_call m ∷ older) =
    let rest = is_subscribed n older in if m == n then false else rest
is_subscribed n (close_call ∷ older) = is_subscribed n older
