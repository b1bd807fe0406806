-- ===== src/Base/Lists.antt =====
-- Lists measured by native numbers, and the list operations of the source.
use Prim.Native.Nat.{ℕ, suc, ◌+◌, ◌≤◌}
use Prim.Native.String.{String}
use mathlib.Core.Path.{◌≡◌, refl}
use mathlib.Core.Logic.{◌⊎◌}
use mathlib.Core.Bool.{Bool, true, false, ◌||◌}
use mathlib.Core.List.{List, [], ◌∷◌, ◌++◌}
use mathlib.Core.Option.{Option, none, some}
use native.Mathlib.Omega.{arith}
use dreamux.Base.Tests.{◌==◌, if◌then◌else◌}

module _ {ℓ} {A : Type ℓ} where
  abbrev pub length : List A → ℕ
  length [] = 0
  length (x ∷ xs) = suc (length xs)

  pub length-append : (xs ys : List A) → length (xs ++ ys) ≡ length xs + length ys
  length-append [] ys = omega arith
  length-append (x ∷ xs) ys = omega (arith, length-append xs ys)

  pub append_nil : (xs : List A) → xs ++ [] ≡ xs
  append_nil [] = refl
  append_nil (x ∷ xs) = ground (arith, append_nil xs)

  pub append_assoc : (xs ys zs : List A) → (xs ++ ys) ++ zs ≡ xs ++ (ys ++ zs)
  append_assoc [] ys zs = refl
  append_assoc (x ∷ xs) ys zs = ground (arith, append_assoc xs ys zs)

  -- `Array.prototype.filter`.
  abbrev pub keep : (A → Bool) → List A → List A
  keep p [] = []
  keep p (x ∷ xs) = if p x then x ∷ keep p xs else keep p xs

  pub length-keep-le : (p : A → Bool) (xs : List A) → length (keep p xs) ≤ length xs
  length-keep-le p [] = omega arith
  length-keep-le p (x ∷ xs) = ground (arith, length-keep-le p xs)

  -- `Array.prototype.find`.
  abbrev pub find_first : (A → Bool) → List A → Option A
  find_first p [] = none
  find_first p (x ∷ xs) = if p x then some x else find_first p xs

  -- `Array.prototype.some`.
  abbrev pub exists : (A → Bool) → List A → Bool
  exists p [] = false
  exists p (x ∷ xs) = p x || exists p xs

module _ {ℓ} {A : Type ℓ} where
  -- A filter that drops nothing is the list.
  pub keep_full : (p : A → Bool) (xs : List A) → length (keep p xs) ≡ length xs → keep p xs ≡ xs
  keep_full p [] h = refl
  keep_full p (x ∷ xs) h = ground (arith, keep_full p xs, length-keep-le p xs)

  pub keep-keep : (p : A → Bool) (xs : List A) → keep p (keep p xs) ≡ keep p xs
  keep-keep p [] = refl
  keep-keep p (x ∷ xs) = ground (arith, keep-keep p xs)

  -- Filtering by `p` loses nothing that `q` looks for, if `q` implies `p`.
  pub keep-keep_of_imp :
      (p q : A → Bool)
      → ((x : A) → q x ≡ true → p x ≡ true)
      → (xs : List A) → keep q (keep p xs) ≡ keep q xs
  keep-keep_of_imp p q imp [] = refl
  keep-keep_of_imp p q imp (x ∷ xs) = ground (arith, imp x, keep-keep_of_imp p q imp xs)

  pub keep-keep_disjoint :
      (p q : A → Bool)
      → ((x : A) → q x ≡ true → p x ≡ false)
      → (xs : List A) → keep q (keep p xs) ≡ []
  keep-keep_disjoint p q apart [] = refl
  keep-keep_disjoint p q apart (x ∷ xs) = ground (arith, apart x, keep-keep_disjoint p q apart xs)

  pub exists-append :
      (p : A → Bool) (xs ys : List A) → exists p (xs ++ ys) ≡ exists p xs || exists p ys
  exists-append p [] ys = refl
  exists-append p (x ∷ xs) ys = ground (arith, exists-append p xs ys)

  -- A filtered list has what the list had, if the filter lets it pass.
  pub exists-keep :
      (p q : A → Bool) (xs : List A) → exists p xs ≡ false → exists p (keep q xs) ≡ false
  exists-keep p q [] h = refl
  exists-keep p q (x ∷ xs) h = ground (arith, exists-keep p q xs)

-- `Array.prototype.includes` on texts.
abbrev pub includes : String → List String → Bool
includes a [] = false
includes a (x ∷ xs) = x == a || includes a xs

pub includes-append :
    (a : String) (xs ys : List String) → includes a (xs ++ ys) ≡ includes a xs || includes a ys
includes-append a [] ys = refl
includes-append a (x ∷ xs) ys = ground (arith, includes-append a xs ys)

-- Membership, read by the tactics as a sum.
abbrev pub Elem : {A : Type 0} → A → List A → Type 0
Elem a [] = ⊥
Elem a (x ∷ xs) = (x ≡ a) ⊎ Elem a xs
