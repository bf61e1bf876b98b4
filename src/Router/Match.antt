-- ===== src/Router/Match.antt =====
-- transport/http/server.go: which route `matchRoute` finds, and the parameters that it binds.
use grodyia.Prelude.{
  subst, ◌≡◌, ◌≢◌, refl, ap, String, true, false, List, [], ◌∷◌, ◌++◌, none, some, Dict, insert,
  lookup, lookup-insert, string_eq, nat_eq, length, arith, All, inl, inr, Option-cases, nat_beq_iff,
}
use text.Mathlib.TextEquality.{eq_iff}
use grodyia.Router.{
  RoutePart, Route, Router, match_parts, try_route, match_in, match_route, path_parts,
}

-- Where the route has a literal, the path has its text.
unfoldable pub Agrees : List RoutePart → List String → Type 0
Agrees [] path = Unit
Agrees (p ∷ ps) [] = Unit
Agrees (p ∷ ps) (s ∷ path) = (p.is_param ≡ false → p.value ≡ s) × Agrees ps path

pub record Serves {H : Type 0} (rt : Route H) (method : String) (path : List String) : Type 0 where
  pub method_same : rt.method ≡ method
  pub length_same : length rt.parts ≡ length path
  pub agrees : Agrees rt.parts path

-- Every parameter of the route is bound to the part of the path in its place.
unfoldable pub Bound : List RoutePart → List String → Dict String String → Type 0
Bound [] path params = Unit
Bound (p ∷ ps) [] params = Unit
Bound (p ∷ ps) (s ∷ path) params =
    (p.is_param ≡ true → lookup p.param_name params ≡ some s) × Bound ps path params

abbrev pub Unnamed : String → List RoutePart → Type 0
Unnamed name [] = Unit
Unnamed name (p ∷ ps) = (p.is_param ≡ true → p.param_name ≢ name) × Unnamed name ps

-- No two parameters share a name.
abbrev pub DistinctNames : List RoutePart → Type 0
DistinctNames [] = Unit
DistinctNames (p ∷ ps) = (p.is_param ≡ true → Unnamed p.param_name ps) × DistinctNames ps

match_parts-Agrees :
    (ps : List RoutePart) (path : List String) (params out : Dict String String)
    → match_parts ps path params ≡ some out
    → Agrees ps path
unfolding match_parts Agrees
match_parts-Agrees [] path params out h = tt
match_parts-Agrees (p ∷ ps) [] params out h = tt
match_parts-Agrees (p ∷ ps) (s ∷ path) params out h = ground (
  arith,
  eq_iff p.value s,
  match_parts-Agrees ps path params out,
  match_parts-Agrees ps path (insert p.param_name s params) out,
)

match_parts-some :
    (ps : List RoutePart) (path : List String) (params : Dict String String)
    → length ps ≡ length path
    → Agrees ps path
    → match_parts ps path params ≢ none
unfolding match_parts Agrees
match_parts-some [] path params l h = ground arith
match_parts-some (p ∷ ps) [] params l h = ground arith
match_parts-some (p ∷ ps) (s ∷ path) params l h = ground (
  arith,
  eq_iff p.value s,
  match_parts-some ps path params,
  match_parts-some ps path (insert p.param_name s params),
)

kept :
    (name : String) (ps : List RoutePart) (path : List String) (params out : Dict String String)
    → Unnamed name ps
    → match_parts ps path params ≡ some out
    → lookup name out ≡ lookup name params
unfolding match_parts
kept name [] path params out u h = ground arith
kept name (p ∷ ps) [] params out u h = ground arith
kept name (p ∷ ps) (s ∷ path) params out u h = ground (
  arith,
  eq_iff p.param_name name,
  lookup-insert p.param_name name s params,
  kept name ps path params out u.1,
  kept name ps path (insert p.param_name s params) out u.1,
)

match_parts-Bound :
    (ps : List RoutePart) (path : List String) (params out : Dict String String)
    → DistinctNames ps
    → match_parts ps path params ≡ some out
    → Bound ps path out
unfolding match_parts Bound
match_parts-Bound [] path params out d h = tt
match_parts-Bound (p ∷ ps) [] params out d h = tt
match_parts-Bound (p ∷ ps) (s ∷ path) params out d h = ground (
  arith,
  lookup-insert p.param_name p.param_name s params,
  eq_iff p.param_name p.param_name,
  kept p.param_name ps path (insert p.param_name s params) out,
  match_parts-Bound ps path params out d.1,
  match_parts-Bound ps path (insert p.param_name s params) out d.1,
)

module _ {H : Type 0} where
  try_route-Serves :
      (rt : Route H) (method : String) (path : List String) (params : Dict String String)
      → try_route rt method path ≡ some params
      → Serves rt method path
  unfolding try_route
  try_route-Serves rt method path params h = ground (
    arith,
    eq_iff rt.method method,
    nat_beq_iff (length rt.parts) (length path),
    match_parts-Agrees rt.parts path [] params,
  )

  try_route-some :
      (rt : Route H) (method : String) (path : List String)
      → Serves rt method path
      → try_route rt method path ≢ none
  unfolding try_route
  try_route-some rt method path h = ground (
    arith,
    eq_iff rt.method method,
    nat_beq_iff (length rt.parts) (length path),
    match_parts-some rt.parts path [],
  )

  -- A list of routes split at the one found.
  pub record First (rts : List (Route H)) (rt : Route H) (method : String) (path : List String)
      : Type 0 where
    pub before : List (Route H)
    pub after : List (Route H)
    pub split_at : rts ≡ before ++ rt ∷ after
    pub passed : All (λ other. ¬ Serves other method path) before
    pub serves : Serves rt method path

  skips :
      (rt : Route H) (method : String) (path : List String)
      → try_route rt method path ≡ none
      → ¬ Serves rt method path
  skips rt method path e serves = try_route-some rt method path serves e

  match_in_found :
      (rts : List (Route H)) (rt : Route H) (method : String) (path : List String)
      (params : Dict String String)
      → match_in rts method path ≡ some (rt, params)
      → First rts rt method path × (try_route rt method path ≡ some params)
  unfolding match_in
  match_in_found [] rt method path params h = ground arith
  match_in_found (q ∷ rts) rt method path params h = elim (Option-cases (try_route q method path)) [
    | inl miss ↦
        let (rest, tried) = match_in_found rts rt method path params (ground (arith, miss, h)) in
        (
          record {
            before = q ∷ rest.before;
            after = rest.after;
            split_at = ap (λ l. q ∷ l) rest.split_at;
            passed = (skips q method path miss, rest.passed);
            serves = rest.serves;
          },
          tried,
        )
    | inr (found, hit) ↦
        let same : (q ≡ rt) = ground (arith, hit, h) in
        let first : First (q ∷ rts) q method path = record {
          before = [];
          after = rts;
          split_at = refl;
          passed = tt;
          serves = try_route-Serves q method path found hit;
        } in
        (subst (λ r. First (q ∷ rts) r method path) same first, ground (arith, hit, h))
  ]

  match_in-none :
      (rts : List (Route H)) (method : String) (path : List String)
      → match_in rts method path ≡ none
      → All (λ rt. ¬ Serves rt method path) rts
  unfolding match_in
  match_in-none [] method path h = tt
  match_in-none (q ∷ rts) method path h = elim (Option-cases (try_route q method path)) [
    | inl miss ↦ (skips q method path miss, match_in-none rts method path (ground (arith, miss, h)))
    | inr (found, hit) ↦ ground (arith, hit, h)
  ]

  -- `matchRoute` returns a route exactly as follows: the first one registered that has the method, as
  -- many parts as the path and the path's text in its literals; it returns nil if there is none.
  pub match_route_lem :
      (r : Router H) (method path : String)
      → ((rt : Route H) (params : Dict String String)
          → match_route r method path ≡ some (rt, params)
          → First r.routes rt method (path_parts path))
        × (match_route r method path ≡ none
            → All (λ rt. ¬ Serves rt method (path_parts path)) r.routes)
  unfolding match_route
  match_route_lem r method path = (
    λ rt params h. (match_in_found r.routes rt method (path_parts path) params h).0,
    match_in-none r.routes method (path_parts path),
  )

  -- If no two parameters of the route that `matchRoute` returns share a name, each is bound to the part of
  -- the path in its place.
  pub match_route-Bound :
      (r : Router H) (method path : String) (rt : Route H) (params : Dict String String)
      → DistinctNames rt.parts
      → match_route r method path ≡ some (rt, params)
      → Bound rt.parts (path_parts path) params
  unfolding match_route try_route
  match_route-Bound r method path rt params d h =
      let tried = (match_in_found r.routes rt method (path_parts path) params h).1 in
      match_parts-Bound rt.parts (path_parts path) [] params d (ground (arith, tried))
