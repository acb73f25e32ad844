-- ===== src/Controller/Env/Order.antt =====
-- The order of Go strings is a total order.
use Prim.Native.Nat.{ℕ, Ordering, compare as compare_ℕ}
use Prim.Native.Char.{Char, code}
use Prim.Native.String.{String, [], ◌∷◌, compare, then}
use Prim.Native.String.compare
use mathlib.Core.Path.{◌≡◌, refl}
use mathlib.Core.Bool.{true, false}
use native.Mathlib.Omega.{arith}
use text.Mathlib.Text.{is_le}
use text.Mathlib.TextEquality.{path_by_compare}
use text.Mathlib.TextPositions.{compare_refl}
use agent_runtime_operator.Base.{◌∙◌, ap, sym}
use agent_runtime_operator.Controller.Env.{str_le}

pub str_le_refl : (s : String) → str_le s s ≡ true
str_le_refl s = rw (compare_refl s)

then_trans :
    (a b c : ℕ) (o p q : Ordering)
    → (is_le o ≡ true → is_le p ≡ true → is_le q ≡ true)
    → is_le (then (compare_ℕ a b) o) ≡ true
    → is_le (then (compare_ℕ b c) p) ≡ true
    → is_le (then (compare_ℕ a c) q) ≡ true
then_trans a b c o p q ih h k = ground (arith, ih)

then_antisym :
    (a b : ℕ) (o p : Ordering)
    → (is_le o ≡ true → is_le p ≡ true → o ≡ Ordering.eq)
    → is_le (then (compare_ℕ a b) o) ≡ true
    → is_le (then (compare_ℕ b a) p) ≡ true
    → then (compare_ℕ a b) o ≡ Ordering.eq
then_antisym a b o p ih h k = ground (arith, ih)

then_total :
    (a b : ℕ) (o p : Ordering)
    → (is_le o ≡ false → is_le p ≡ true)
    → is_le (then (compare_ℕ a b) o) ≡ false
    → is_le (then (compare_ℕ b a) p) ≡ true
then_total a b o p ih h = ground (arith, ih)

-- one step of the comparison of two texts
le_cons :
    (c d : Char) (s t : String)
    → str_le (c ∷ s) (d ∷ t) ≡ is_le (then (compare_ℕ (code c) (code d)) (compare s t))
le_cons c d s t = ap is_le (compare.cons-cons c d s t)

not_cons-le-nil : (c : Char) (s : String) → str_le (c ∷ s) [] ≡ true → ⊥
not_cons-le-nil c s h = cc (ap is_le (compare.cons-nil c s))

pub str_le_trans : (s t u : String) → str_le s t ≡ true → str_le t u ≡ true → str_le s u ≡ true
str_le_trans [] t [] h k = refl
str_le_trans [] t (e ∷ u) h k = ap is_le (compare.nil-cons e u)
str_le_trans (c ∷ s) [] u h k = absurd (not_cons-le-nil c s h)
str_le_trans (c ∷ s) (d ∷ t) [] h k = absurd (not_cons-le-nil d t k)
str_le_trans (c ∷ s) (d ∷ t) (e ∷ u) h k =
    le_cons c e s u
    ∙ then_trans (code c) (code d) (code e) (compare s t) (compare t u) (compare s u)
        (str_le_trans s t u) (sym (le_cons c d s t) ∙ h) (sym (le_cons d e t u) ∙ k)

compare-eq_of_str_le :
    (s t : String) → str_le s t ≡ true → str_le t s ≡ true → compare s t ≡ Ordering.eq
compare-eq_of_str_le [] [] h k = refl
compare-eq_of_str_le [] (d ∷ t) h k = absurd (not_cons-le-nil d t k)
compare-eq_of_str_le (c ∷ s) [] h k = absurd (not_cons-le-nil c s h)
compare-eq_of_str_le (c ∷ s) (d ∷ t) h k =
    compare.cons-cons c d s t
    ∙ then_antisym (code c) (code d) (compare s t) (compare t s) (compare-eq_of_str_le s t)
        (sym (le_cons c d s t) ∙ h) (sym (le_cons d c t s) ∙ k)

pub str_le_antisym : (s t : String) → str_le s t ≡ true → str_le t s ≡ true → s ≡ t
str_le_antisym s t h k = path_by_compare s t (compare-eq_of_str_le s t h k)

pub str_le_total : (s t : String) → str_le s t ≡ false → str_le t s ≡ true
str_le_total [] [] h = refl
str_le_total [] (d ∷ t) h = cc (ap is_le (compare.nil-cons d t))
str_le_total (c ∷ s) [] h = ap is_le (compare.nil-cons c s)
str_le_total (c ∷ s) (d ∷ t) h =
    le_cons d c t s
    ∙ then_total (code c) (code d) (compare s t) (compare t s) (str_le_total s t)
        (sym (le_cons c d s t) ∙ h)
