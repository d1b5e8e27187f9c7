-- ===== src/Base/Maps.antt =====
-- A hash map with text keys, as an association list: at most one entry is read for a key.
use Prim.Native.String.{String}
use mathlib.Core.Path.{◌≡◌, refl}
use mathlib.Core.Bool.{true, false}
use mathlib.Core.Option.{Option, none, some}
use mathlib.Core.List.{List, [], ◌∷◌}
use native.Mathlib.Omega.{arith}
use text.Mathlib.Text.{◌==◌ as str_eq}
use text.Mathlib.TextEquality.{eq_iff}
use september.Base.Tests.{if◌then◌else◌}

abbrev pub Map {ℓ} : Type ℓ → Type ℓ
Map V = List (String × V)

module _ {ℓ} {V : Type ℓ} where
  -- map.get(key)
  unfoldable pub lookup : String → Map V → Option V
  lookup key [] = none
  lookup key ((first, value) ∷ others) = elim (str_eq first key) [
    | true ↦ some value
    | false ↦ lookup key others
  ]

  -- map.insert(key, value)
  unfoldable pub insert : String → V → Map V → Map V
  insert key value [] = (key, value) ∷ []
  insert key value ((first, old) ∷ others) = elim (str_eq first key) [
    | true ↦ (key, value) ∷ others
    | false ↦ (first, old) ∷ insert key value others
  ]

  -- map.remove(key)
  unfoldable pub remove : String → Map V → Map V
  remove key [] = []
  remove key ((first, old) ∷ others) = elim (str_eq first key) [
    | true ↦ remove key others
    | false ↦ (first, old) ∷ remove key others
  ]

  -- One key is written, and all others read as before.
  pub lookup-insert :
      (key query : String) (value : V) (entries : Map V)
      → lookup query (insert key value entries)
        ≡ (if str_eq key query then some value else lookup query entries)
  unfolding lookup insert
  lookup-insert key query value [] = ground arith
  lookup-insert key query value ((first, old) ∷ others) = ground (
    arith,
    lookup-insert key query value others,
    eq_iff first query,
    eq_iff first key,
    eq_iff key query,
  )

  pub lookup-remove :
      (key query : String) (entries : Map V)
      → lookup query (remove key entries)
        ≡ (if str_eq key query then none else lookup query entries)
  unfolding lookup remove
  lookup-remove key query [] = ground arith
  lookup-remove key query ((first, old) ∷ others) = ground (
    arith,
    eq_iff key query,
    eq_iff first query,
    lookup-remove key query others,
    eq_iff first key,
  )

pub str_eq_refl : (s : String) → str_eq s s ≡ true
str_eq_refl s = (eq_iff s s).1 refl
