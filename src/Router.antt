-- ===== src/Router.antt =====
-- transport/http/server.go: the router with path parameters. `H` is the type of the handlers and `R` that
-- of what the mux falls back to; a middleware is a function on handlers.
pub mod Match
pub mod Chain
mod Tests
use Prim.Native.Char.{Char, code}
use Prim.Native.String.{◌∷◌ as push, [] as empty}
use grodyia.Prelude.{
  ℕ, zero, suc, String, Bool, true, false, ◌&&◌, List, [], ◌∷◌, ◌++◌, reverse, Option, none, some,
  if◌then◌else◌, Dict, insert, string_eq, nat_eq, ◌==◌, length,
}

pub record RoutePart : Type 0 where
  pub value : String
  pub param_name : String
  pub is_param : Bool

pub record Route (H : Type 0) : Type 0 where
  pub method : String
  pub pattern : String
  pub parts : List RoutePart
  pub handler : H

pub record Router (H : Type 0) : Type 0 where
  pub middlewares : List (H → H)
  pub routes : List (Route H)

is_slash : Char → Bool
is_slash c = code c == 47

is_empty : String → Bool
is_empty empty = true
is_empty (push c s) = false

trim_left : String → String
unfolding is_slash
trim_left empty = ""
trim_left (push c s) = let rest = trim_left s in if is_slash c then rest else push c s

trim_right : String → String
unfolding is_slash is_empty
trim_right empty = ""
trim_right (push c s) =
    let rest = trim_right s in if is_slash c && is_empty rest then "" else push c rest

to_head : Char → List String → List String
to_head c [] = push c "" ∷ []
to_head c (s ∷ rest) = push c s ∷ rest

-- `strings.Split(s, "/")`
split : String → List String
unfolding is_slash to_head
split empty = "" ∷ []
split (push c s) = let rest = split s in if is_slash c then "" ∷ rest else to_head c rest

-- `strings.Split(strings.Trim(path, "/"), "/")`
unfoldable pub path_parts : String → List String
unfolding split trim_left trim_right
path_parts path = split (trim_right (trim_left path))

-- The body of the loop of `registerRoute`: a part that begins with ":" is a parameter.
unfoldable pub route_part : String → RoutePart
route_part empty = record { value = ""; param_name = ""; is_param = false }
route_part (push c s) =
    if code c == 58
    then record { value = ""; param_name = s; is_param = true }
    else record { value = push c s; param_name = ""; is_param = false }

unfoldable pub route_parts : List String → List RoutePart
unfolding route_part
route_parts [] = []
route_parts (p ∷ ps) = route_part p ∷ route_parts ps

-- The loop of `matchRoute` over the parts of a route, with `params`; it is entered with lists of one
-- length.
unfoldable pub match_parts :
    List RoutePart → List String → Dict String String → Option (Dict String String)
match_parts [] path params = some params
match_parts (p ∷ ps) [] params = none
match_parts (p ∷ ps) (s ∷ path) params =
    let bound = match_parts ps path (insert p.param_name s params) in
    let literal = match_parts ps path params in
    if p.is_param then bound else if p.value == s then literal else none

module _ {H : Type 0} where
  unfoldable pub register_route : Router H → String → String → H → Router H
  unfolding path_parts route_parts
  register_route r method pattern h =
      let rt : Route H = record {
        method = method;
        pattern = pattern;
        parts = route_parts (path_parts pattern);
        handler = h;
      } in
      record r { routes = r.routes ++ rt ∷ [] }

  unfoldable pub try_route : Route H → String → List String → Option (Dict String String)
  unfolding match_parts
  try_route rt method path =
      if rt.method == method && length rt.parts == length path
      then match_parts rt.parts path []
      else none

  unfoldable pub match_in :
      List (Route H) → String → List String → Option (Route H × Dict String String)
  unfolding try_route
  match_in [] method path = none
  match_in (rt ∷ rts) method path =
      let later = match_in rts method path in
      elim (try_route rt method path) [ none ↦ later | some params ↦ some (rt, params) ]

  unfoldable pub match_route : Router H → String → String → Option (Route H × Dict String String)
  unfolding match_in path_parts
  match_route r method path = match_in r.routes method (path_parts path)

  -- The loops from the last middleware down to the first, given the list reversed.
  unfoldable pub wrap_back : List (H → H) → H → H
  wrap_back [] h = h
  wrap_back (m ∷ ms) h = wrap_back ms (m h)

  unfoldable pub wrap_handler : List (H → H) → H → H
  unfolding wrap_back
  wrap_handler ms h = wrap_back (reverse ms) h

  -- `ServeHTTP` up to the call of the handler: what is called, and with which parameters; `none` is
  -- the standard mux.
  unfoldable pub serve_http : Router H → String → String → Option (H × Dict String String)
  unfolding match_route wrap_handler
  serve_http r method path = elim (match_route r method path) [
    | none ↦ none
    | some found ↦ some (wrap_handler r.middlewares found.0.handler, found.1)
  ]
