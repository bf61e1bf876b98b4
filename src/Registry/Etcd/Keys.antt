-- ===== src/Registry/Etcd/Keys.antt =====
-- registry/etcd.go: the key of a service, and its name and id taken from the key again.
use Prim.Native.Char.{Char, code}
use Prim.Native.String.{String, ◌∷◌ as push, [] as empty, ◌++◌ as append}
use Prim.Native.String.append
use grodyia.Prelude.{◌≡◌, refl, sym, ap, ◌∙◌, nat_eq, ◌==◌, false, [], ◌∷◌, some, arith}
use grodyia.Prelude.Text.{split_on}
use grodyia.Registry.{Service}
use grodyia.Registry.Etcd.{
  EtcdRegistry, Change, service_key, after_prefix, trimmed, trim_prefix, named_by, event_service,
}

abbrev slash : Char
slash = "/"

-- The text has no "/".
abbrev pub Slashless : String → Type 0
Slashless empty = Unit {0}
Slashless (push c s) = ((code c == 47) ≡ false) × Slashless s

after_prefix-append : (p s : String) → after_prefix p (append p s) ≡ some s
unfolding after_prefix
after_prefix-append empty s = rw (append.nil s) refl
after_prefix-append (push c p) s = rw (append.cons c p s) (ground (arith, after_prefix-append p s))

split_on-Slashless :
    (a s : String) → Slashless a → split_on 47 (append a (push slash s)) ≡ a ∷ split_on 47 s
unfolding split_on
split_on-Slashless empty s h = rw (append.nil (push slash s)) refl
split_on-Slashless (push c a) s (n, h) =
    rw (append.cons c a (push slash s)) (rw (n, split_on-Slashless a s h) refl)

split_on-whole : (a : String) → Slashless a → split_on 47 a ≡ a ∷ []
unfolding split_on
split_on-whole empty h = refl
split_on-whole (push c a) (n, h) = rw (n, split_on-whole a h) refl

append-slash : (s : String) → append "/" s ≡ push slash s
append-slash s = append.cons slash empty s ∙ ap (push slash) (append.nil s)

assoc : (p s t : String) → append p (append s t) ≡ append (append p s) t
assoc empty s t = rw (append.nil (append s t), append.nil s) refl
assoc (push c p) s t =
    append.cons c p (append s t)
    ∙ ap (push c) (assoc p s t)
    ∙ sym (append.cons c (append p s) t)
    ∙ ap (λ x. append x t) (sym (append.cons c p s))

trim_prefix-service_key :
    (r : EtcdRegistry) (name id : String)
    → trim_prefix (append r.prefix "/") (service_key r name id) ≡ append name (append "/" id)
unfolding trim_prefix service_key trimmed
trim_prefix-service_key r name id =
    let rest = append name (append "/" id) in
    rw (assoc r.prefix "/" rest) (rw (after_prefix-append (append r.prefix "/") rest) refl)

parts-service_key :
    (r : EtcdRegistry) (name id : String)
    → Slashless name
    → Slashless id
    → split_on 47 (trim_prefix (append r.prefix "/") (service_key r name id)) ≡ name ∷ id ∷ []
parts-service_key r name id n i =
    ap (split_on 47) (trim_prefix-service_key r name id ∙ ap (append name) (append-slash id))
    ∙ split_on-Slashless name id n
    ∙ ap (◌∷◌ name) (split_on-whole id i)

-- If neither the name nor the id has a slash, then an event of the key that Register gives them, whose
-- value does not decode, as that of a removed key, is of a service with this name and this id, and with
-- what else was decoded.
pub event_service-service_key :
    (r : EtcdRegistry) (name id : String) (s : Service) (change : Change)
    → Slashless name
    → Slashless id
    → event_service r.prefix
        (record { key = service_key r name id; value = (s, false); change = change })
      ≡ record s { name = name; id = id }
unfolding event_service named_by
event_service-service_key r name id s change n i =
    ap (λ parts. named_by parts s) (parts-service_key r name id n i)
