-- ===== src/Base/Dict.antt =====
-- Python's dicts with text keys, in insertion order.
use Prim.Native.String.{String}
use mathlib.Core.Path.{◌≡◌, refl}
use mathlib.Core.Option.{Option, none, some}
use mathlib.Core.List.{List, [], ◌∷◌}
use native.Mathlib.Omega.{arith}
use ccc_storage.Base.Tests.{str_eq, str_eq_iff, if◌then◌else◌}

abbrev pub Dict {ℓ} : Type ℓ → Type ℓ
Dict V = List (String × V)

module _ {ℓ} {V : Type ℓ} where
  -- `d.get(key)`
  unfoldable pub lookup : Dict V → String → Option V
  lookup [] key = none
  lookup ((k, v) ∷ rest) key = let later = lookup rest key in if str_eq k key then some v else later

  -- `d[key] = value`
  unfoldable pub assign : Dict V → String → V → Dict V
  assign [] key value = (key, value) ∷ []
  assign ((k, v) ∷ rest) key value =
      let later = assign rest key value in
      if str_eq k key then (k, value) ∷ rest else (k, v) ∷ later

  -- `d.pop(key, None)`, where a key stands once.
  unfoldable pub discard : Dict V → String → Dict V
  discard [] key = []
  discard ((k, v) ∷ rest) key =
      let later = discard rest key in if str_eq k key then later else (k, v) ∷ later

  -- `d.setdefault(key, value)`
  unfoldable pub set_default : Dict V → String → V → Dict V
  set_default d key value = elim (lookup d key) [ none ↦ assign d key value | some v ↦ d ]

  pub lookup-assign :
      (d : Dict V) (key : String) (value : V) (other : String)
      → lookup (assign d key value) other
        ≡ (if str_eq key other then some value else lookup d other)
  unfolding lookup assign
  lookup-assign [] key value other = refl
  lookup-assign ((k, v) ∷ rest) key value other = ground (
    arith,
    lookup-assign rest key value other,
    str_eq_iff k key,
    str_eq_iff k other,
    str_eq_iff key other,
  )

  pub lookup-discard :
      (d : Dict V) (key other : String)
      → lookup (discard d key) other ≡ (if str_eq key other then none else lookup d other)
  unfolding lookup discard
  lookup-discard [] key other = ground arith
  lookup-discard ((k, v) ∷ rest) key other = ground (
    arith,
    lookup-discard rest key other,
    str_eq_iff k key,
    str_eq_iff k other,
    str_eq_iff key other,
  )

  pub lookup-set_default :
      (d : Dict V) (key : String) (value : V) (other : String)
      → lookup (set_default d key value) other ≡ (
          if str_eq key other
          then elim (lookup d key) [ none ↦ some value | some v ↦ some v ]
          else lookup d other)
  unfolding set_default
  lookup-set_default d key value other =
      ground (arith, lookup-assign d key value other, str_eq_iff key other)
