-- ===== src/Base/Appended.antt =====
-- A text with something in front is not empty.
use Prim.Native.Char.{Char}
use Prim.Native.String.{String, [], ◌∷◌, ◌++◌}
use Prim.Native.String.compare
use mathlib.Core.Path.{◌≡◌, ap}
use mathlib.Core.Bool.{false}
use text.Mathlib.Text.{is_eq, ◌==◌}
use text.Mathlib.TextLemmas.{nil-append, cons-append}

pub cons-not_empty : (c : Char) (s : String) → (c ∷ s == "") ≡ false
cons-not_empty c s = ap is_eq (compare.cons-nil c s)

pub append-not_empty : (s t : String) → (s == "") ≡ false → (s ++ t == "") ≡ false
append-not_empty [] t h = cc h
append-not_empty (c ∷ s) t h = rw (cons-append c s t) (cons-not_empty c (s ++ t))

pub append-cons-not_empty : (s : String) (c : Char) (t : String) → (s ++ (c ∷ t) == "") ≡ false
append-cons-not_empty [] c t = rw (nil-append (c ∷ t)) (cons-not_empty c t)
append-cons-not_empty (d ∷ s) c t = rw (cons-append d s (c ∷ t)) (cons-not_empty d (s ++ (c ∷ t)))
