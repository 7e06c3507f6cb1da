-- ===== src/Common/Split.antt =====
-- Go's `strings.Split` and `strings.Join`, for a separator of one byte.
use Prim.Native.Char.{Char, code}
use Prim.Native.String.{String, ◌++◌}
use Prim.Native.String as Strings
use Prim.Native.Nat.{ℕ, zero, suc}
use mathlib.Core.List.{List, [], ◌∷◌}
use helm_broker.Common.Tests.{nat_eq, if◌then◌else◌}

-- A character before the first part.
before_first : Char → List String → List String
before_first c [] = Strings.◌∷◌ c Strings.[] ∷ []
before_first c (p ∷ ps) = Strings.◌∷◌ c p ∷ ps

-- `strings.Split`; the separator is given by its code.
unfoldable pub split : ℕ → String → List String
unfolding before_first
split d Strings.[] = "" ∷ []
split d (Strings.◌∷◌ c s) =
    let parts = split d s in if nat_eq (code c) d then "" ∷ parts else before_first c parts

-- `strings.Join`
unfoldable pub join : String → List String → String
join separator [] = ""
join separator (p ∷ []) = p
join separator (p ∷ q ∷ ps) = p ++ (separator ++ join separator (q ∷ ps))

-- `parts[:n]`, or all of them if they are fewer
unfoldable pub first_parts : ℕ → List String → List String
first_parts zero ps = []
first_parts (suc n) [] = []
first_parts (suc n) (p ∷ ps) = p ∷ first_parts n ps
