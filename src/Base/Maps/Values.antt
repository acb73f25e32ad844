-- ===== src/Base/Maps/Values.antt =====
-- The values of a map, in one order and in every order: `range` fixes none.
use mathlib.Core.Path.{◌≡◌, refl, sym}
use mathlib.Core.Logic.{inl, inr}
use mathlib.Core.Option.{some}
use mathlib.Core.List.{List, [], ◌∷◌, Memᴰ, Permᴰ}
use mathlib.Core.List.Memᴰ
use Prim.Native.String.{String}
use native.Mathlib.Omega.{arith}
use text.Mathlib.Text.{◌==◌}
use text.Mathlib.TextEquality.{eq_iff}
use text.Mathlib.TextPositions.{eq_refl}
use agent_runtime_operator.Base.Tests.{Bool-cases, some-injective}
use agent_runtime_operator.Base.Maps.{Map, lookup, HasDistinctKeys}

module _ {ℓ} {V : Type ℓ} where
  abbrev pub values : Map V → List V
  values [] = []
  values ((k, v) ∷ m) = v ∷ values m

  -- an order in which `range` may visit the values
  abbrev pub IsRange : (Map V → List V) → Type ℓ
  IsRange order = (m : Map V) → Permᴰ (values m) (order m)

  pub lookup-values : (k : String) (v : V) (m : Map V) → lookup k m ≡ some v → Memᴰ v (values m)
  unfolding lookup
  lookup-values k v [] h = absurd (cc h)
  lookup-values k v ((j, w) ∷ m) h = elim (Bool-cases (j == k)) [
    | inl here ↦ Memᴰ.head (sym (some-injective (rw here at h)))
    | inr other ↦ Memᴰ.tail (lookup-values k v m (rw other at h))
  ]

  pub values-lookup :
      (v : V) (m : Map V)
      → HasDistinctKeys m
      → Memᴰ v (values m)
      → (k : String) × (lookup k m ≡ some v)
  unfolding lookup
  values-lookup v [] d n = absurd (Memᴰ.not-nil n)
  values-lookup v ((j, w) ∷ m) (fresh, d) n = elim (Memᴰ.cases_cons n) [
    | inl here ↦ (j, rw (eq_refl j, here) refl)
    | inr later ↦
        let (k, e) = values-lookup v m d later in (k, ground (arith, e, fresh, eq_iff j k))
  ]
