-- ===== src/Webhook/Agent/PortNames.antt =====
-- `sanitizeForPortName` and the characters that Kubernetes allows in the name of a port.
use Prim.Native.Char.{char}
use Prim.Native.String.{[], ◌∷◌}
use text.Mathlib.TextLemmas.{nil-append, cons-append}
use agent_runtime_operator.Base.{
  String, Char, ◌<>◌, ◌≡◌, refl, ap, ◌∙◌, false, ◌==◌, Bool-cases, inl, inr,
}
use agent_runtime_operator.Base.{trim_left, trim_right}
use agent_runtime_operator.Base.Trimmed.{
  EveryChar, StartsWithout, EndsWithout, trim_left-EveryChar, trim_left-StartsWithout,
  trim_right-EveryChar, trim_right-StartsWithout, trim_right-EndsWithout,
}
use agent_runtime_operator.Webhook.Agent.{
  is_hyphen, is_port_char, hyphenate, sanitize_for_port_name,
}

-- lower-case letters, digits and hyphens, none of these at an end
pub record IsPortName (s : String) : Type 0 where
  pub not_empty : (s == "") ≡ false
  pub chars : EveryChar is_port_char s
  pub starts : StartsWithout is_hyphen s
  pub ends : EndsWithout is_hyphen s

abbrev pub hyphen : Char
hyphen = char b'-' tt

pub hyphen-append : (x : String) → "-" <> x ≡ hyphen ∷ x
hyphen-append x = cons-append hyphen "" x ∙ ap (λ t. hyphen ∷ t) (nil-append x)

hyphenate-EveryChar : (s : String) → EveryChar is_port_char (hyphenate s)
unfolding hyphenate
hyphenate-EveryChar [] = tt
hyphenate-EveryChar (c ∷ s) = elim (Bool-cases (is_port_char c)) [
  | inl kept ↦ rw kept (kept, hyphenate-EveryChar s)
  | inr replaced ↦ rw (replaced, hyphen-append (hyphenate s)) (refl, hyphenate-EveryChar s)
]

-- The sanitised name is not empty, has only lower-case letters, digits and hyphens, and neither
-- starts nor ends with a hyphen.
pub sanitize_for_port_name-IsPortName :
    (to_lower : String → String) (name : String) → IsPortName (sanitize_for_port_name to_lower name)
unfolding sanitize_for_port_name
sanitize_for_port_name-IsPortName to_lower name =
    let left = trim_left is_hyphen (hyphenate (to_lower name)) in
    let result = trim_right is_hyphen left in
    elim (Bool-cases (result == "")) [
      | inl empty ↦ rw empty (record {
        not_empty = refl;
        chars = (refl, (refl, (refl, (refl, tt))));
        starts = refl;
        ends = refl;
      })
      | inr kept ↦ rw kept (record {
        not_empty = kept;
        chars = trim_right-EveryChar is_hyphen is_port_char left (
            trim_left-EveryChar is_hyphen is_port_char (hyphenate (to_lower name))
              (hyphenate-EveryChar (to_lower name)));
        starts =
            trim_right-StartsWithout is_hyphen left
              (trim_left-StartsWithout is_hyphen (hyphenate (to_lower name)));
        ends = trim_right-EndsWithout is_hyphen left;
      })
    ]
