-- ===== src/Base/Dict.antt =====
-- A JavaScript object or Map with text keys, as an association list in insertion order.
use Prim.Native.String.{String}
use mathlib.Core.Path.{◌≡◌, refl}
use mathlib.Core.List.{List, [], ◌∷◌}
use mathlib.Core.Option.{Option, none, some}
use native.Mathlib.Omega.{arith}
use dreamux.Base.Tests.{◌==◌, if◌then◌else◌}

module _ {ℓ} {A : Type ℓ} where
  -- `entries[key]`, `entries.get(key)`.
  unfoldable pub lookup : String → List (String × A) → Option A
  lookup key [] = none
  lookup key (entry ∷ rest) = if entry.0 == key then some entry.1 else lookup key rest

  -- `delete entries[key]`, `entries.delete(key)`.
  unfoldable pub remove : String → List (String × A) → List (String × A)
  remove key [] = []
  remove key (entry ∷ rest) = if entry.0 == key then remove key rest else entry ∷ remove key rest

  -- `entries[key] = a`, `entries.set(key, a)`, `{ ...entries, [key]: a }`: a known key keeps its
  -- place, a new one goes to the end.
  unfoldable pub insert : String → A → List (String × A) → List (String × A)
  insert key a [] = (key, a) ∷ []
  insert key a (entry ∷ rest) =
      if entry.0 == key then (key, a) ∷ rest else entry ∷ insert key a rest

  pub lookup-remove :
      (removed key : String) (entries : List (String × A))
      → lookup key (remove removed entries) ≡ (if removed == key then none else lookup key entries)
  unfolding lookup remove
  lookup-remove removed key [] = ground arith
  lookup-remove removed key (entry ∷ rest) = ground (arith, lookup-remove removed key rest)

  pub lookup-insert :
      (set key : String) (a : A) (entries : List (String × A))
      → lookup key (insert set a entries) ≡ (if set == key then some a else lookup key entries)
  unfolding lookup insert
  lookup-insert set key a [] = refl
  lookup-insert set key a (entry ∷ rest) = ground (arith, lookup-insert set key a rest)
