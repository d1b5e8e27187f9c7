-- ===== src/Base/Sorting.antt =====
-- sort_by on a list of values with names, a stable sort in the order of the names' code points.
use Prim.Native.Char.{code}
use Prim.Native.String.{String}
use mathlib.Core.Path.{◌≡◌}
use mathlib.Core.Bool.{Bool, true, false}
use mathlib.Core.List.{List, [], ◌∷◌}
use native.Mathlib.Omega.{arith}
use september.Base.Tests.{ltb, ◌==◌, if◌then◌else◌}
use september.Base.Lists.{length}
use Prim.Native.Nat.{suc}

unfoldable pub str_leb : String → String → Bool
str_leb String.[] t = true
str_leb (String.◌∷◌ c s) String.[] = false
str_leb (String.◌∷◌ c s) (String.◌∷◌ d t) =
    let later = str_leb s t in if code c == code d then later else ltb (code c) (code d)

module _ {A : Type 0} (name : A → String) where
  unfoldable pub insert_sorted : A → List A → List A
  insert_sorted a [] = a ∷ []
  insert_sorted a (b ∷ bs) =
      let rest = insert_sorted a bs in if str_leb (name a) (name b) then a ∷ b ∷ bs else b ∷ rest

  unfoldable pub sort_by_name : List A → List A
  unfolding insert_sorted
  sort_by_name [] = []
  sort_by_name (a ∷ rest) = insert_sorted a (sort_by_name rest)

  length-insert_sorted : (a : A) (rest : List A) → length (insert_sorted a rest) ≡ suc (length rest)
  unfolding insert_sorted
  length-insert_sorted a [] = omega arith
  length-insert_sorted a (b ∷ bs) = ground (arith, length-insert_sorted a bs)

  pub length-sort_by_name : (rest : List A) → length (sort_by_name rest) ≡ length rest
  unfolding sort_by_name
  length-sort_by_name [] = omega arith
  length-sort_by_name (a ∷ rest) =
      omega (arith, length-insert_sorted a (sort_by_name rest), length-sort_by_name rest)
