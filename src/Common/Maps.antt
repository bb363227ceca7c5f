-- ===== src/Common/Maps.antt =====
-- A JavaScript `Map` with text keys, in insertion order: setting a present key keeps its place.
use Prim.Native.String.{String}
use mathlib.Core.Path.{◌≡◌, refl}
use mathlib.Core.Logic.{◌≢◌}
use mathlib.Core.List.{List, [], ◌∷◌}
use mathlib.Core.Option.{Option, none, some}
use text.Mathlib.Text.{◌==◌ as str_eq}
use text.Mathlib.TextEquality.{eq_iff}
use native.Mathlib.Omega.{arith}
use ambit.Common.Tests.{if◌then◌else◌}

abbrev pub Dict {ℓ} : Type ℓ → Type ℓ
Dict V = List (String × V)

module _ {ℓ} {V : Type ℓ} where
  -- `m.get(key)`
  unfoldable pub lookup : String → Dict V → Option V
  lookup key [] = none
  lookup key ((at, value) ∷ rest) = if str_eq at key then some value else lookup key rest

  -- `m.set(key, value)`
  unfoldable pub insert : String → V → Dict V → Dict V
  insert key value [] = (key, value) ∷ []
  insert key value ((at, old) ∷ rest) =
      if str_eq at key then (at, value) ∷ rest else (at, old) ∷ insert key value rest

  -- `[...m.values()]`
  abbrev pub values : Dict V → List V
  values [] = []
  values ((at, value) ∷ rest) = value ∷ values rest

  pub lookup-insert :
      (key other : String) (value : V) (m : Dict V)
      → lookup other (insert key value m)
        ≡ (if str_eq key other then some value else lookup other m)
  unfolding insert lookup
  lookup-insert key other value [] = refl
  lookup-insert key other value ((at, old) ∷ rest) =
      let ih = lookup-insert key other value rest in
      ground (eq_iff at key, eq_iff at other, eq_iff key other, ih, arith)

  pub lookup-insert_self :
      (key : String) (value : V) (m : Dict V) → lookup key (insert key value m) ≡ some value
  lookup-insert_self key value m = ground (lookup-insert key key value m, eq_iff key key, arith)

  pub lookup-insert_ne :
      (key other : String) (value : V) (m : Dict V)
      → key ≢ other
      → lookup other (insert key value m) ≡ lookup other m
  lookup-insert_ne key other value m apart =
      ground (lookup-insert key other value m, eq_iff key other, arith)
