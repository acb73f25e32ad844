-- ===== src/Base/Trimmed.antt =====
-- What is left of a text when characters are trimmed from its ends.
use Prim.Native.Char.{Char}
use Prim.Native.String.{String, [], ◌∷◌, ◌++◌}
use mathlib.Core.Path.{◌≡◌, sym, ◌∙◌}
use mathlib.Core.Logic.{inl, inr}
use mathlib.Core.Bool.{Bool, true, false, ◌&&◌}
use native.Mathlib.Omega.{arith}
use text.Mathlib.Text.{◌==◌}
use text.Mathlib.TextLemmas.{nil-append, cons-append}
use text.Mathlib.TextPositions.{eq_refl}
use agent_runtime_operator.Base.Appended.{append-cons-not_empty}
use agent_runtime_operator.Base.Tests.{Bool-cases}
use agent_runtime_operator.Base.Text.{trim_left, trim_right}

-- every character passes the test
abbrev pub EveryChar : (Char → Bool) → String → Type 0
EveryChar q [] = Unit
EveryChar q (c ∷ s) = (q c ≡ true) × EveryChar q s

-- no character that passes the test is in front
abbrev pub StartsWithout : (Char → Bool) → String → Type 0
StartsWithout p [] = Unit
StartsWithout p (c ∷ s) = p c ≡ false

-- no character that passes the test is at the end
abbrev pub EndsWithout : (Char → Bool) → String → Type 0
EndsWithout p [] = Unit
EndsWithout p (c ∷ []) = p c ≡ false
EndsWithout p (c ∷ d ∷ s) = EndsWithout p (d ∷ s)

module _ (p : Char → Bool) where
  pub trim_left-EveryChar :
      (q : Char → Bool) (s : String) → EveryChar q s → EveryChar q (trim_left p s)
  unfolding trim_left
  trim_left-EveryChar q [] h = tt
  trim_left-EveryChar q (c ∷ s) h = ground (arith, trim_left-EveryChar q s h.1)

  pub trim_left-StartsWithout : (s : String) → StartsWithout p (trim_left p s)
  unfolding trim_left
  trim_left-StartsWithout [] = tt
  trim_left-StartsWithout (c ∷ s) = ground (arith, trim_left-StartsWithout s)

  pub trim_right-EveryChar :
      (q : Char → Bool) (s : String) → EveryChar q s → EveryChar q (trim_right p s)
  unfolding trim_right
  trim_right-EveryChar q [] h = tt
  trim_right-EveryChar q (c ∷ s) (here, h) = elim (Bool-cases (p c && (trim_right p s == []))) [
    | inl both ↦ rw both tt
    | inr kept ↦ rw kept (here, trim_right-EveryChar q s h)
  ]

  pub trim_right-StartsWithout : (s : String) → StartsWithout p s → StartsWithout p (trim_right p s)
  unfolding trim_right
  trim_right-StartsWithout [] h = tt
  trim_right-StartsWithout (c ∷ s) h = ground arith

  EndsWithout-cons :
      (c : Char) (s : String) → EndsWithout p s → (p c && (s == [])) ≡ false → EndsWithout p (c ∷ s)
  EndsWithout-cons c [] h e = ground (arith, eq_refl "")
  EndsWithout-cons c (d ∷ s) h e = h

  pub trim_right-EndsWithout : (s : String) → EndsWithout p (trim_right p s)
  unfolding trim_right
  trim_right-EndsWithout [] = tt
  trim_right-EndsWithout (c ∷ s) =
      let rest = trim_right p s in
      elim (Bool-cases (p c && (rest == []))) [
        | inl both ↦ rw both tt
        | inr kept ↦ rw kept (EndsWithout-cons c rest (trim_right-EndsWithout s) kept)
      ]

pub EveryChar-append :
    (q : Char → Bool) (s t : String) → EveryChar q s → EveryChar q t → EveryChar q (s ++ t)
EveryChar-append q [] t hs ht = rw (nil-append t) ht
EveryChar-append q (c ∷ s) t (here, hs) ht =
    rw (cons-append c s t) (here, EveryChar-append q s t hs ht)

pub EveryChar-weaken :
    (q r : Char → Bool)
    → ((c : Char) → q c ≡ true → r c ≡ true)
    → (s : String) → EveryChar q s
    → EveryChar r s
EveryChar-weaken q r implied [] h = tt
EveryChar-weaken q r implied (c ∷ s) (here, h) = (implied c here, EveryChar-weaken q r implied s h)

pub StartsWithout-append :
    (p : Char → Bool) (s t : String)
    → (s == "") ≡ false
    → StartsWithout p s
    → StartsWithout p (s ++ t)
StartsWithout-append p [] t h starts = absurd (cc (sym (eq_refl "") ∙ h))
StartsWithout-append p (c ∷ s) t h starts = rw (cons-append c s t) starts

cons-EndsWithout :
    (p : Char → Bool) (d : Char) (u : String)
    → (u == "") ≡ false
    → EndsWithout p u
    → EndsWithout p (d ∷ u)
cons-EndsWithout p d [] h ends = absurd (cc (sym (eq_refl "") ∙ h))
cons-EndsWithout p d (e ∷ u) h ends = ends

pub EndsWithout-append :
    (p : Char → Bool) (s : String) (c : Char) (t : String)
    → EndsWithout p (c ∷ t)
    → EndsWithout p (s ++ (c ∷ t))
EndsWithout-append p [] c t ends = rw (nil-append (c ∷ t)) ends
EndsWithout-append p (d ∷ s) c t ends = rw (cons-append d s (c ∷ t)) (
    cons-EndsWithout p d (s ++ (c ∷ t)) (append-cons-not_empty s c t)
      (EndsWithout-append p s c t ends))
