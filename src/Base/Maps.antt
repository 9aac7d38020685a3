-- ===== src/Base/Maps.antt =====
-- Go's `map[string]V` as an association list. Iteration follows the list, which is one of the orders
-- that Go may take.
use Prim.Native.String.{String}
use mathlib.Core.Path.{◌≡◌, refl}
use mathlib.Core.Option.{Option, none, some}
use mathlib.Core.List.{List, [], ◌∷◌}
use native.Mathlib.Omega.{arith}
use text.Mathlib.Text.{◌==◌ as str_eq}
use text.Mathlib.TextEquality.{eq_iff}
use nuts.Base.Tests.{if◌then◌else◌}

module _ {ℓ} {V : Type ℓ} where
  -- `delete(m, k)`
  unfoldable pub erase : String → List (String × V) → List (String × V)
  erase k [] = []
  erase k ((j, v) ∷ m) = let rest = erase k m in if str_eq j k then rest else (j, v) ∷ rest

  -- `m[k] = v`
  unfoldable pub insert : String → V → List (String × V) → List (String × V)
  insert key value [] = (key, value) ∷ []
  insert key value (entry ∷ more) =
      let rest = insert key value more in
      if str_eq entry.0 key then (key, value) ∷ more else entry ∷ rest

  -- `v, ok := m[k]`
  unfoldable pub lookup : String → List (String × V) → Option V
  lookup key [] = none
  lookup key (entry ∷ more) =
      let rest = lookup key more in if str_eq entry.0 key then some entry.1 else rest

  -- The keys of the map, in its order.
  abbrev pub keys : List (String × V) → List String
  keys [] = []
  keys ((k, v) ∷ m) = k ∷ keys m

  pub lookup-insert :
      (key other : String) (value : V) (m : List (String × V))
      → lookup other (insert key value m)
        ≡ (if str_eq key other then some value else lookup other m)
  unfolding lookup insert
  lookup-insert key other value [] = refl
  lookup-insert key other value (entry ∷ more) = ground (
    arith,
    lookup-insert key other value more,
    eq_iff key other,
    eq_iff entry.0 other,
    eq_iff entry.0 key,
  )

  pub lookup-erase :
      (k j : String) (m : List (String × V))
      → lookup j (erase k m) ≡ (if str_eq k j then none else lookup j m)
  unfolding lookup erase
  lookup-erase k j [] = ground arith
  lookup-erase k j ((i, w) ∷ m) =
      ground (arith, eq_iff k j, eq_iff i k, eq_iff i j, lookup-erase k j m)

-- `m[k]` of a `map[string][]A`: a missing key reads as the nil slice.
unfoldable pub lookup_list {ℓ} : {A : Type ℓ} → String → List (String × List A) → List A
lookup_list k m = elim (lookup k m) [ none ↦ [] | some xs ↦ xs ]
