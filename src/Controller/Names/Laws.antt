-- ===== src/Controller/Names/Laws.antt =====
-- A sanitised name is a valid identifier, and a valid identifier stays as it is.
use Prim.Native.String.{[], ◌∷◌}
use Prim.Native.String.compare
use text.Mathlib.Text.{is_eq}
use agent_runtime_operator.Base.{
  String, ◌≡◌, refl, ap, ◌≢◌, true, false, ◌==◌, eq_iff, arith, Bool-cases, inl, inr,
}
use agent_runtime_operator.Controller.Names.{
  is_digit, is_word, replace_others, guard_first, sanitize_agent_name,
}

-- only letters, digits and underscores
abbrev pub IsWord : String → Type 0
IsWord [] = Unit
IsWord (c ∷ s) = (is_word c ≡ true) × IsWord s

-- not empty, and no digit in front
abbrev pub StartsWell : String → Type 0
StartsWell [] = ⊥
StartsWell (c ∷ s) = is_digit c ≡ false

-- an environment variable's name
abbrev pub IsIdentifier : String → Type 0
IsIdentifier s = StartsWell s × IsWord s

replace_others-IsWord : (s : String) → IsWord (replace_others s)
unfolding replace_others
replace_others-IsWord [] = tt
replace_others-IsWord (c ∷ s) = ground (arith, replace_others-IsWord s)

replace_others-of_IsWord : (s : String) → IsWord s → replace_others s ≡ s
unfolding replace_others
replace_others-of_IsWord [] h = refl
replace_others-of_IsWord (c ∷ s) (h, w) = rw (h, replace_others-of_IsWord s w)

guard_first-IsWord : (s : String) → IsWord s → IsWord (guard_first s)
unfolding guard_first
guard_first-IsWord [] h = tt
guard_first-IsWord (c ∷ s) h = ground arith

guard_first-StartsWell : (s : String) → s ≢ "" → StartsWell (guard_first s)
unfolding guard_first
guard_first-StartsWell [] h = h refl
guard_first-StartsWell (c ∷ s) h = ground arith

guard_first-of_StartsWell : (s : String) → StartsWell s → guard_first s ≡ s
unfolding guard_first
guard_first-of_StartsWell [] h = elim h [ ]
guard_first-of_StartsWell (c ∷ s) h = rw h

guard_first-ne-nil : (s : String) → guard_first s ≢ "" → s ≢ ""
unfolding guard_first
guard_first-ne-nil [] h = h
guard_first-ne-nil (c ∷ s) h = cc

-- The sanitised name is a valid identifier.
pub sanitize_agent_name-IsIdentifier : (name : String) → IsIdentifier (sanitize_agent_name name)
unfolding sanitize_agent_name
sanitize_agent_name-IsIdentifier name =
    let s = replace_others name in
    elim (Bool-cases (guard_first s == "")) [
      | inl empty ↦ rw empty (refl, (refl, (refl, (refl, (refl, (refl, tt))))))
      | inr full ↦
          let some_text : guard_first s ≢ "" = λ e. cc ((eq_iff (guard_first s) "").1 e) in
          rw full (
            guard_first-StartsWell s (guard_first-ne-nil s some_text),
            guard_first-IsWord s (replace_others-IsWord name),
          )
    ]

StartsWell-ne-nil : (s : String) → StartsWell s → (s == "") ≡ false
StartsWell-ne-nil [] h = elim h [ ]
StartsWell-ne-nil (c ∷ s) h = ap is_eq (compare.cons-nil c s)

-- A valid identifier is left as it is.
pub sanitize_agent_name_of_IsIdentifier :
    (name : String) → IsIdentifier name → sanitize_agent_name name ≡ name
unfolding sanitize_agent_name
sanitize_agent_name_of_IsIdentifier name (starts, word) = rw (
  replace_others-of_IsWord name word,
  guard_first-of_StartsWell name starts,
  StartsWell-ne-nil name starts,
)

-- So a second sanitisation changes nothing.
pub sanitize_agent_name_idempotent :
    (name : String) → sanitize_agent_name (sanitize_agent_name name) ≡ sanitize_agent_name name
sanitize_agent_name_idempotent name =
    sanitize_agent_name_of_IsIdentifier (sanitize_agent_name name)
      (sanitize_agent_name-IsIdentifier name)
