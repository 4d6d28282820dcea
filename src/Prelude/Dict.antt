-- ===== src/Prelude/Dict.antt =====
-- A keyed object (`Record<K, V>`, `Map<K, V>`) as an association list in insertion order.
use mathlib.Core.Path.{◌≡◌, refl}
use mathlib.Core.Option.{Option, none, some}
use mathlib.Core.List.{List, [], ◌∷◌}
use native.Mathlib.Omega.{arith}
use eco_mint.Prelude.Tests.{if◌then◌else◌, HasEq, ◌==◌}

module _ {ℓ κ} {K : Type ℓ} {V : Type κ} ⦃d : HasEq K⦄ where
  unfoldable pub lookup : K → List (K × V) → Option V
  lookup key [] = none
  lookup key (entry ∷ dict) = if entry.0 == key then some entry.1 else lookup key dict

  unfoldable pub insert : K → V → List (K × V) → List (K × V)
  insert key new [] = (key, new) ∷ []
  insert key new (entry ∷ dict) =
      let rest = insert key new dict in if entry.0 == key then (key, new) ∷ dict else entry ∷ rest

  unfoldable pub remove : K → List (K × V) → List (K × V)
  remove key [] = []
  remove key (entry ∷ dict) =
      let rest = remove key dict in if entry.0 == key then rest else entry ∷ rest

  pub lookup-insert :
      (key asked : K) (new : V) (dict : List (K × V))
      → lookup asked (insert key new dict) ≡ (if key == asked then some new else lookup asked dict)
  unfolding lookup insert
  lookup-insert key asked new [] = refl
  lookup-insert key asked new (entry ∷ dict) = ground (
    arith,
    d.test_iff key asked,
    d.test_iff entry.0 key,
    d.test_iff entry.0 asked,
    lookup-insert key asked new dict,
  )

  pub lookup-remove :
      (key asked : K) (dict : List (K × V))
      → lookup asked (remove key dict) ≡ (if key == asked then none else lookup asked dict)
  unfolding lookup remove
  lookup-remove key asked [] = ground arith
  lookup-remove key asked (entry ∷ dict) = ground (
    arith,
    d.test_iff key asked,
    d.test_iff entry.0 key,
    d.test_iff entry.0 asked,
    lookup-remove key asked dict,
  )
