-- ===== src/Router/Tests.antt =====
-- A router of three routes, and the theorems at it.
use grodyia.Prelude.{arith, ℕ, ◌+◌, ◌*◌, ◌≡◌, refl, [], ◌∷◌, some, insert, string_eq}
use grodyia.Router.{
  Router, Route, register_route, match_route, path_parts, serve_http, wrap_handler, route_parts,
  match_in, try_route, match_parts,
}
use grodyia.Router.Match.{First, Bound, match_route_lem, match_route-Bound}
use grodyia.Router.Chain.{wrap_handler-append}

-- The handlers are numbers, the middlewares functions on them.
abbrev me : Route ℕ
unfolding route_parts
me = record {
  method = "GET";
  pattern = "/users/me";
  parts = route_parts ("users" ∷ "me" ∷ []);
  handler = 1;
}

abbrev user : Route ℕ
unfolding route_parts
user = record {
  method = "GET";
  pattern = "/users/:id/";
  parts = route_parts ("users" ∷ ":id" ∷ []);
  handler = 2;
}

abbrev router : Router ℕ
router = record { middlewares = (λ n. n + 1) ∷ (λ n. n * 10) ∷ []; routes = me ∷ user ∷ [] }

registered :
    (register_route
      (register_route (record router { routes = [] }) "GET" "/users/me" 1)
      "GET"
      "/users/:id/"
      2)
    ≡ router
unfolding register_route route_parts path_parts
registered = refl

-- The literal route comes first, and the middleware used first is outermost.
served : serve_http router "GET" "/users/me" ≡ some (11, [])
unfolding serve_http match_route match_in try_route match_parts wrap_handler path_parts route_parts
served = refl

user_found : match_route router "GET" "/users/7/" ≡ some (user, ("id", "7") ∷ [])
unfolding match_route match_in try_route match_parts path_parts route_parts insert
user_found = refl

match_route_lem_example : First (me ∷ user ∷ []) user "GET" (path_parts "/users/7/")
match_route_lem_example =
    (match_route_lem router "GET" "/users/7/").0 user (("id", "7") ∷ []) user_found

match_route-Bound_run : Bound user.parts (path_parts "/users/7/") (("id", "7") ∷ [])
unfolding route_parts
match_route-Bound_run =
    match_route-Bound router "GET" "/users/7/" user (("id", "7") ∷ []) (ground arith) user_found

wrap_handler-append_run :
    wrap_handler ((λ n. n + 1) ∷ (λ n. n * 10) ∷ []) 2 ≡ wrap_handler ((λ n. n + 1) ∷ []) 20
unfolding wrap_handler
wrap_handler-append_run = wrap_handler-append ((λ n. n + 1) ∷ []) ((λ n. n * 10) ∷ []) 2
