-- ===== src/Base/Maps.antt =====
-- Go's `map[string]V`: an association list with each key once. A map that is `nil` is an `Option`
-- of the field that holds it. The order of the list is no order of iteration: where the code ranges
-- over a map, its model takes the order as a parameter.
pub mod Idempotent
pub mod Values
use mathlib.Core.Path.{◌≡◌, refl}
use mathlib.Core.Option.{Option, none, some}
use mathlib.Core.List.{List, [], ◌∷◌}
use Prim.Native.String.{String}
use native.Mathlib.Omega.{arith}
use text.Mathlib.Text.{◌==◌}
use text.Mathlib.TextEquality.{eq_iff}
use text.Mathlib.TextPositions.{eq_refl}
use agent_runtime_operator.Base.Tests.{if◌then◌else◌}
use agent_runtime_operator.Base.Lists.{All}

abbrev pub Map {ℓ} : Type ℓ → Type ℓ
Map V = List (String × V)

module _ {ℓ} {V : Type ℓ} where
  -- `m[k]` with its `exists` flag
  unfoldable pub lookup : String → Map V → Option V
  lookup k [] = none
  lookup k ((j, v) ∷ m) = if j == k then some v else lookup k m

  -- `m[k] = v`
  unfoldable pub insert : String → V → Map V → Map V
  insert k v [] = (k, v) ∷ []
  insert k v ((j, w) ∷ m) = if j == k then (k, v) ∷ m else (j, w) ∷ insert k v m

  -- `delete(m, k)`
  unfoldable pub delete : String → Map V → Map V
  delete k [] = []
  delete k ((j, w) ∷ m) = if j == k then m else (j, w) ∷ delete k m

  -- `maps.Copy(dst, src)`
  unfoldable pub copy : Map V → Map V → Map V
  copy dst [] = dst
  copy dst ((k, v) ∷ src) = copy (insert k v dst) src

  -- each key stands once
  abbrev pub HasDistinctKeys : Map V → Type ℓ
  HasDistinctKeys [] = Unit
  HasDistinctKeys ((k, v) ∷ m) = (lookup k m ≡ none) × HasDistinctKeys m

  -- the first value, or else the second
  abbrev pub over : Option V → Option V → Option V
  over (some v) o = some v
  over none o = o

  pub over_assoc : (a b c : Option V) → over (over a b) c ≡ over a (over b c)
  over_assoc none b c = refl
  over_assoc (some v) b c = refl

  pub over-none : (a : Option V) → over a none ≡ a
  over-none none = refl
  over-none (some v) = refl

  pub lookup-insert :
      (j k : String) (v : V) (m : Map V)
      → lookup j (insert k v m) ≡ (if k == j then some v else lookup j m)
  unfolding lookup insert
  lookup-insert j k v [] = refl
  lookup-insert j k v ((i, w) ∷ m) =
      ground (arith, lookup-insert j k v m, eq_iff i k, eq_iff i j, eq_iff k j)

  pub insert-HasDistinctKeys :
      (k : String) (v : V) (m : Map V) → HasDistinctKeys m → HasDistinctKeys (insert k v m)
  unfolding insert lookup
  insert-HasDistinctKeys k v [] h = (refl, tt)
  insert-HasDistinctKeys k v ((j, w) ∷ m) (fresh, h) =
      ground (arith, insert-HasDistinctKeys k v m h, lookup-insert j k v m, eq_iff j k, eq_iff k j)

  pub lookup-delete :
      (j k : String) (m : Map V)
      → HasDistinctKeys m
      → lookup j (delete k m) ≡ (if k == j then none else lookup j m)
  unfolding lookup delete
  lookup-delete j k [] h = ground arith
  lookup-delete j k ((i, w) ∷ m) (fresh, h) =
      ground (arith, lookup-delete j k m h, eq_iff i k, eq_iff i j, eq_iff k j)

  pub delete-HasDistinctKeys :
      (k : String) (m : Map V) → HasDistinctKeys m → HasDistinctKeys (delete k m)
  unfolding delete
  delete-HasDistinctKeys k [] h = tt
  delete-HasDistinctKeys k ((j, w) ∷ m) (fresh, h) =
      ground (arith, delete-HasDistinctKeys k m h, lookup-delete j k m h)

  -- In the copy, the source's values come first.
  pub lookup-copy :
      (j : String) (dst src : Map V)
      → HasDistinctKeys src
      → lookup j (copy dst src) ≡ over (lookup j src) (lookup j dst)
  unfolding lookup copy
  lookup-copy j dst [] h = refl
  lookup-copy j dst ((k, v) ∷ src) (fresh, h) =
      ground (arith, lookup-copy j (insert k v dst) src h, lookup-insert j k v dst, eq_iff k j)

  pub copy-HasDistinctKeys :
      (dst src : Map V) → HasDistinctKeys dst → HasDistinctKeys (copy dst src)
  unfolding copy
  copy-HasDistinctKeys dst [] h = h
  copy-HasDistinctKeys dst ((k, v) ∷ src) h =
      copy-HasDistinctKeys (insert k v dst) src (insert-HasDistinctKeys k v dst h)

  -- `m` has every entry of `src`
  abbrev pub Holds : Map V → Map V → Type ℓ
  Holds m src = All (λ e. lookup e.0 m ≡ some e.1) src

  pub copy-Holds : (dst src : Map V) → HasDistinctKeys src → Holds (copy dst src) src
  unfolding copy
  copy-Holds dst [] h = tt
  copy-Holds dst ((k, v) ∷ src) (fresh, h) = (
    rw (lookup-copy k (insert k v dst) src h, fresh, lookup-insert k k v dst, eq_refl k),
    copy-Holds (insert k v dst) src h,
  )

  insert_present : (k : String) (v : V) (m : Map V) → lookup k m ≡ some v → insert k v m ≡ m
  unfolding insert lookup
  insert_present k v [] h = cc
  insert_present k v ((j, w) ∷ m) h = ground (arith, insert_present k v m, eq_iff j k)

  -- To copy what is there already changes nothing.
  pub copy_present : (dst src : Map V) → Holds dst src → copy dst src ≡ dst
  unfolding copy
  copy_present dst [] h = refl
  copy_present dst ((k, v) ∷ src) (here, h) =
      rw (insert_present k v dst here) (copy_present dst src h)
