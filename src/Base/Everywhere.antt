-- ===== src/Base/Everywhere.antt =====
-- What holds of every entry of a list or a map, after the list is rearranged or an entry is written.
use Prim.Native.String.{String}
use mathlib.Core.Path.{subst}
use mathlib.Core.Logic.{inl, inr}
use mathlib.Core.List.{List, [], ◌∷◌}
use mathlib.Core.List.{Permᴰ}
use text.Mathlib.Text.{◌==◌}
use agent_runtime_operator.Base.Tests.{Bool-cases}
use agent_runtime_operator.Base.Lists.{All}
use agent_runtime_operator.Base.Maps
use agent_runtime_operator.Base.Maps.{Map}

pub All-Permᴰ {ℓ κ} :
    {A : Type ℓ} (P : A → Type κ) {xs ys : List A} → Permᴰ xs ys → All P xs → All P ys
All-Permᴰ P Permᴰ.nil h = tt
All-Permᴰ P (Permᴰ.cons e d) (here, h) = (subst P e here, All-Permᴰ P d h)
All-Permᴰ P (Permᴰ.swap e e') (first, (second, h)) = (subst P e' second, (subst P e first, h))
All-Permᴰ P (Permᴰ.trans d d') h = All-Permᴰ P d' (All-Permᴰ P d h)

pub All-insert {ℓ κ} :
    {V : Type ℓ} (P : String × V → Type κ) (k : String) (v : V) (m : Map V)
    → P (k, v)
    → All P m
    → All P (Maps.insert k v m)
unfolding Maps.insert
All-insert P k v [] here h = (here, tt)
All-insert P k v ((j, w) ∷ m) here (first, h) = elim (Bool-cases (j == k)) [
  | inl same ↦ rw same (here, h)
  | inr other ↦ rw other (first, All-insert P k v m here h)
]
