-- ===== src/Keyed/Tests.antt =====
-- The shared lookup on concrete maps.
use grodyia.Prelude.{ℕ, ◌≡◌, refl, some, [], ◌∷◌, Dict, String, lookup, string_eq}
use grodyia.Keyed.{fetch, fetch_current, fetch_keeps}

-- Another goroutine stores 4 under "b" between the two locks.
abbrev race : Dict String ℕ → Dict String ℕ
race m = ("b", 4) ∷ m

fetch_current_example : lookup "b" (fetch race 9 [] "b").0 ≡ some 4
unfolding fetch lookup
fetch_current_example = fetch_current race 9 [] "b"

fetch_keeps_run : lookup "b" (fetch race 9 [] "a").0 ≡ some 4
unfolding lookup
fetch_keeps_run = (fetch_keeps race 9 [] "a" "b" 4).1 refl refl
