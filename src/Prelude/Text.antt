-- ===== src/Prelude/Text.antt =====
-- `strings.Split` at a separator of one character.
use Prim.Native.Char.{Char, code}
use Prim.Native.String.{String, ◌∷◌ as push, [] as empty}
use Prim.Native.Nat.{ℕ}
use mathlib.Core.List.{List, [], ◌∷◌}
use grodyia.Prelude.Tests.{nat_eq, ◌==◌, if◌then◌else◌}

to_head : Char → List String → List String
to_head c [] = push c "" ∷ []
to_head c (s ∷ rest) = push c s ∷ rest

unfoldable pub split_on : ℕ → String → List String
unfolding to_head
split_on separator empty = "" ∷ []
split_on separator (push c s) =
    let rest = split_on separator s in if code c == separator then "" ∷ rest else to_head c rest
