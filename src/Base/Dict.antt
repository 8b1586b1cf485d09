-- ===== src/Base/Dict.antt =====
-- Go's `map[string]V` as an association list: a write replaces in place, a `delete` in a `range`
-- loop is `keep_if`. A map that the code builds has each key once (`IsDistinct`); the order of
-- the list stands for the order, unspecified in Go, of a `range` loop.
pub mod Laws
use Prim.Native.String.{String}
use mathlib.Core.Path.{◌≡◌}
use mathlib.Core.Bool.{Bool}
use mathlib.Core.Option.{Option, none, some}
use mathlib.Core.List.{List, [], ◌∷◌}
use x_auth_site.Base.Tests.{if◌then◌else◌, str_eq}

abbrev pub Dict {ℓ} : Type ℓ → Type ℓ
Dict V = List (String × V)

module _ {ℓ} {V : Type ℓ} where
  unfoldable pub lookup : String → Dict V → Option V
  lookup k [] = none
  lookup k ((j, v) ∷ m) = if str_eq j k then some v else lookup k m

  unfoldable pub insert : String → V → Dict V → Dict V
  insert k v [] = (k, v) ∷ []
  insert k v ((j, w) ∷ m) = if str_eq j k then (j, v) ∷ m else (j, w) ∷ insert k v m

  unfoldable pub delete : String → Dict V → Dict V
  delete k [] = []
  delete k ((j, w) ∷ m) = if str_eq j k then delete k m else (j, w) ∷ delete k m

  unfoldable pub keep_if : (V → Bool) → Dict V → Dict V
  keep_if p [] = []
  keep_if p ((j, w) ∷ m) = if p w then (j, w) ∷ keep_if p m else keep_if p m

  -- The values that pass a test, in the order of the `range` loop.
  unfoldable pub values_where : (V → Bool) → Dict V → List V
  values_where p [] = []
  values_where p ((j, w) ∷ m) = if p w then w ∷ values_where p m else values_where p m

  abbrev pub guarded : (V → Bool) → Option V → Option V
  guarded p none = none
  guarded p (some v) = if p v then some v else none

  abbrev pub IsDistinct : Dict V → Type ℓ
  IsDistinct [] = Unit
  IsDistinct ((k, v) ∷ m) = (lookup k m ≡ none) × IsDistinct m
