-- ===== src/Router/Chain.antt =====
-- transport/http/server.go: the order in which middlewares wrap a handler.
use grodyia.Prelude.{◌≡◌, refl, ap, ◌∙◌, List, [], ◌∷◌, ◌++◌, reverse}
use mathlib.Core.List.{reverse-append, reverse-cons}
use grodyia.Router.{wrap_back, wrap_handler}

module _ {H : Type 0} where
  wrap_back-append :
      (ms ns : List (H → H)) (h : H) → wrap_back (ms ++ ns) h ≡ wrap_back ns (wrap_back ms h)
  unfolding wrap_back
  wrap_back-append [] ns h = refl
  wrap_back-append (m ∷ ms) ns h = wrap_back-append ms ns (m h)

  wrap_handler-cons :
      (m : H → H) (ms : List (H → H)) (h : H) → wrap_handler (m ∷ ms) h ≡ m (wrap_handler ms h)
  unfolding wrap_handler wrap_back
  wrap_handler-cons m ms h =
      ap (λ l. wrap_back l h) (reverse-cons m ms) ∙ wrap_back-append (reverse ms) (m ∷ []) h

  -- Middlewares wrap a handler with the first one used outermost, so those of two lists wrap it in turn:
  -- the later list goes inside, around the handler itself.
  pub wrap_handler-append :
      (ms ns : List (H → H)) (h : H)
      → wrap_handler (ms ++ ns) h ≡ wrap_handler ms (wrap_handler ns h)
  unfolding wrap_handler wrap_back
  wrap_handler-append ms ns h =
      ap (λ l. wrap_back l h) (reverse-append ms ns) ∙ wrap_back-append (reverse ns) (reverse ms) h
