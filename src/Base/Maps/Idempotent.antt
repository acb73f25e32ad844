-- ===== src/Base/Maps/Idempotent.antt =====
-- To copy the same two maps into a map a second time changes nothing.
use mathlib.Core.Path.{◌≡◌, refl, sym, ap, ap₂, ◌∙◌}
use mathlib.Core.Bool.{true}
use mathlib.Core.Option.{Option, none, some}
use mathlib.Core.List.{List, [], ◌∷◌}
use Prim.Native.String.{String}
use native.Mathlib.Omega.{arith}
use text.Mathlib.TextEquality.{eq_iff}
use text.Mathlib.TextPositions.{eq_refl}
use agent_runtime_operator.Base.Tests.{is_some}
use agent_runtime_operator.Base.Lists.{All}
use agent_runtime_operator.Base.Maps.{
  Map, lookup, insert, copy, HasDistinctKeys, over, lookup-insert, lookup-copy,
  copy-HasDistinctKeys,
}

abbrev tail_of : List String → List String
tail_of [] = []
tail_of (k ∷ ks) = ks

module _ {ℓ} {V : Type ℓ} where
  abbrev pub keys : Map V → List String
  keys [] = []
  keys ((k, v) ∷ m) = k ∷ keys m

  -- every key of `src` has a value in `m`
  abbrev pub HasKeysOf : Map V → Map V → Type 0
  HasKeysOf m src = All (λ e. is_some (lookup e.0 m) ≡ true) src

  insert-keys :
      (k : String) (v : V) (m : Map V) → is_some (lookup k m) ≡ true → keys (insert k v m) ≡ keys m
  unfolding insert lookup
  insert-keys k v [] h = cc
  insert-keys k v ((j, w) ∷ m) h = ground (arith, insert-keys k v m, eq_iff j k)

  insert-is_some :
      (j k : String) (v : V) (m : Map V)
      → is_some (lookup j m) ≡ true
      → is_some (lookup j (insert k v m)) ≡ true
  insert-is_some j k v m h = ground (arith, lookup-insert j k v m)

  HasKeysOf-insert :
      (k : String) (v : V) (m src : Map V) → HasKeysOf m src → HasKeysOf (insert k v m) src
  HasKeysOf-insert k v m [] h = tt
  HasKeysOf-insert k v m ((j, w) ∷ src) (here, h) =
      (insert-is_some j k v m here, HasKeysOf-insert k v m src h)

  -- To copy over keys that are there already does not move a key.
  copy-keys : (m src : Map V) → HasKeysOf m src → keys (copy m src) ≡ keys m
  unfolding copy
  copy-keys m [] h = refl
  copy-keys m ((k, v) ∷ src) (here, h) =
      copy-keys (insert k v m) src (HasKeysOf-insert k v m src h) ∙ insert-keys k v m here

  HasKeysOf-copy : (m src other : Map V) → HasKeysOf m other → HasKeysOf (copy m src) other
  unfolding copy
  HasKeysOf-copy m [] other h = h
  HasKeysOf-copy m ((k, v) ∷ src) other h =
      HasKeysOf-copy (insert k v m) src other (HasKeysOf-insert k v m other h)

  copy-is_some :
      (k : String) (m src : Map V)
      → is_some (lookup k m) ≡ true
      → is_some (lookup k (copy m src)) ≡ true
  unfolding copy
  copy-is_some k m [] h = h
  copy-is_some k m ((j, v) ∷ src) h = copy-is_some k (insert j v m) src (insert-is_some k j v m h)

  copy-HasKeysOf : (m src : Map V) → HasKeysOf (copy m src) src
  unfolding copy
  copy-HasKeysOf m [] = tt
  copy-HasKeysOf m ((k, v) ∷ src) = (
    copy-is_some k (insert k v m) src (ground (arith, lookup-insert k k v m, eq_refl k)),
    copy-HasKeysOf (insert k v m) src,
  )

  over_twice : (a b m : Option V) → over b (over a (over b (over a m))) ≡ over b (over a m)
  over_twice none none m = refl
  over_twice none (some v) m = refl
  over_twice (some w) none m = refl
  over_twice (some w) (some v) m = refl

  tail_same :
      (j k : String) (v w : V) (m n : Map V)
      → lookup k m ≡ none
      → lookup k n ≡ none
      → lookup j ((k, v) ∷ m) ≡ lookup j ((k, w) ∷ n)
      → lookup j m ≡ lookup j n
  unfolding lookup
  tail_same j k v w m n fresh fresh' e = ground (arith, eq_iff k j)

  lookup-head : (k : String) (v : V) (m : Map V) → lookup k ((k, v) ∷ m) ≡ some v
  unfolding lookup
  lookup-head k v m = ground (arith, eq_refl k)

  -- Maps with the same keys in the same places and the same values are equal.
  map_ext :
      (m n : Map V)
      → keys m ≡ keys n
      → HasDistinctKeys m
      → HasDistinctKeys n
      → ((k : String) → lookup k m ≡ lookup k n)
      → m ≡ n
  map_ext [] [] e d d' same = refl
  map_ext [] ((k, v) ∷ n) e d d' same = cc
  map_ext ((k, v) ∷ m) [] e d d' same = cc
  map_ext ((j, v) ∷ m) ((k, w) ∷ n) e (fresh, d) (fresh', d') same =
      let here : j ≡ k = cc in
      let value : some v ≡ some w =
        sym (lookup-head j v m)
        ∙ same j
        ∙ ap (λ i. lookup i ((k, w) ∷ n)) here
        ∙ lookup-head k w n in
      let head : (j, v) ≡ (k, w) = cc in
      let fresh_j : lookup j n ≡ none = ap (λ i. lookup i n) here ∙ fresh' in
      ap₂ (λ a b. a ∷ b) head
        (map_ext m n (ap tail_of e) d d' (λ i.
          tail_same i j v w m n fresh fresh_j
            (same i ∙ ap (λ i'. lookup i ((i', w) ∷ n)) (sym here))))

  pub copy-copy_idempotent :
      (m a b : Map V)
      → HasDistinctKeys m
      → HasDistinctKeys a
      → HasDistinctKeys b
      → copy (copy (copy (copy m a) b) a) b ≡ copy (copy m a) b
  copy-copy_idempotent m a b dm da db =
      let once = copy (copy m a) b in
      let d = copy-HasDistinctKeys (copy m a) b (copy-HasDistinctKeys m a dm) in
      map_ext (copy (copy once a) b) once
        (copy-keys (copy once a) b (HasKeysOf-copy once a b (copy-HasKeysOf (copy m a) b))
          ∙ copy-keys once a (HasKeysOf-copy (copy m a) b a (copy-HasKeysOf m a)))
        (copy-HasDistinctKeys (copy once a) b (copy-HasDistinctKeys once a d)) d
        (λ k.
          rw
            (
              lookup-copy k (copy once a) b db,
              lookup-copy k once a da,
              lookup-copy k (copy m a) b db,
              lookup-copy k m a da,
            )
            (over_twice (lookup k a) (lookup k b) (lookup k m)))
