-- ===== src/Base/Lists.antt =====
-- Lists measured by native numbers, Boolean tests on lists, and predicates of all entries.
use Prim.Native.Nat.{ℕ, suc, ◌+◌}
use mathlib.Core.Path.{◌≡◌, refl, ap}
use mathlib.Core.Bool.{Bool, true, false, ◌&&◌, ◌||◌}
use mathlib.Core.Option.{Option, none, some}
use mathlib.Core.List.{List, [], ◌∷◌, ◌++◌, Memᴰ}
use mathlib.Core.List.Memᴰ
use mathlib.Core.Logic.{inl, inr, ⊎_elim}
use agent_runtime_operator.Base.Tests.{if◌then◌else◌, Bool-cases}
use native.Mathlib.Omega.{arith}

module _ {ℓ} {A : Type ℓ} where
  abbrev pub length : List A → ℕ
  length [] = 0
  length (x ∷ xs) = suc (length xs)

  abbrev pub is_nil : List A → Bool
  is_nil [] = true
  is_nil (x ∷ xs) = false

  abbrev pub all : (A → Bool) → List A → Bool
  all p [] = true
  all p (x ∷ xs) = p x && all p xs

  abbrev pub any : (A → Bool) → List A → Bool
  any p [] = false
  any p (x ∷ xs) = p x || any p xs

  -- the first entry that passes the test
  abbrev pub find_first : (A → Bool) → List A → Option A
  find_first p [] = none
  find_first p (x ∷ xs) = elim (p x) [ true ↦ some x | false ↦ find_first p xs ]

  pub length-append : (xs ys : List A) → length (xs ++ ys) ≡ length xs + length ys
  length-append [] ys = omega arith
  length-append (x ∷ xs) ys = omega (arith, length-append xs ys)

module _ {ℓ κ} {A : Type ℓ} (P : A → Type κ) where
  abbrev pub All : List A → Type κ
  All [] = Unit
  All (x ∷ xs) = P x × All xs

  pub All-append : (xs ys : List A) → All xs → All ys → All (xs ++ ys)
  All-append [] ys _ k = k
  All-append (x ∷ xs) ys (p, h) k = (p, All-append xs ys h k)

module _ {ℓ κ} {A : Type ℓ} {B : Type κ} (p : A → Bool) (f : A → B) where
  -- a loop that appends `f x` for each entry that passes the test
  unfoldable pub collect : List A → List B
  collect [] = []
  collect (x ∷ xs) = let rest = collect xs in if p x then f x ∷ rest else rest

  pub collect-mem : (a : A) (xs : List A) → Memᴰ a xs → p a ≡ true → Memᴰ (f a) (collect xs)
  unfolding collect
  collect-mem a [] m h = absurd (Memᴰ.not-nil m)
  collect-mem a (x ∷ xs) m h = elim (Bool-cases (p x)) [
    | inl e ↦ rw e (
        ⊎_elim (λ here. Memᴰ.head (ap f here)) (λ t. Memᴰ.tail (collect-mem a xs t h))
          (Memᴰ.cases_cons m))
    | inr e ↦ rw e (⊎_elim (λ here. cc) (λ t. collect-mem a xs t h) (Memᴰ.cases_cons m))
  ]

  pub mem-collect :
      (b : B) (xs : List A) → Memᴰ b (collect xs) → (a : A) × Memᴰ a xs × (p a ≡ true) × (b ≡ f a)
  unfolding collect
  mem-collect b [] m = absurd (Memᴰ.not-nil m)
  mem-collect b (x ∷ xs) m = elim (Bool-cases (p x)) [
    | inl e ↦
        ⊎_elim (λ here. (x, Memᴰ.head refl, e, here))
          (λ t. let (a, ma, pa, q) = mem-collect b xs t in (a, Memᴰ.tail ma, pa, q))
          (Memᴰ.cases_cons (rw e at m))
    | inr e ↦ let (a, ma, pa, q) = mem-collect b xs (rw e at m) in (a, Memᴰ.tail ma, pa, q)
  ]
