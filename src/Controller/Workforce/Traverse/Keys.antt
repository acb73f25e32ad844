-- ===== src/Controller/Workforce/Traverse/Keys.antt =====
-- The texts `namespace/name` tell agents apart if no namespace has a slash.
use Prim.Native.Char.{char}
use text.Mathlib.TextLemmas.{nil-append, cons-append, head-eq_of_cons-eq, tail-eq_of_cons-eq}
use agent_runtime_operator.Base.{String, Char, code, ◌<>◌, ◌≡◌, refl, ap, ap₂, ◌∙◌, sym, false, eqb}
use agent_runtime_operator.Controller.Workforce.{text_key}

abbrev pub HasNoSlash : String → Type 0
HasNoSlash String.[] = Unit
HasNoSlash (String.◌∷◌ c s) = (eqb (code c) b'/' ≡ false) × HasNoSlash s

abbrev slash : Char
slash = char b'/' tt

slash-append : (x : String) → "/" <> x ≡ String.◌∷◌ slash x
slash-append x = cons-append slash "" x ∙ ap (λ t. String.◌∷◌ slash t) (nil-append x)

text_key-nil : (x : String) → text_key "" x ≡ String.◌∷◌ slash x
text_key-nil x = nil-append ("/" <> x) ∙ slash-append x

-- A text that begins with a slash is no key of a namespace without one.
slash_first :
    (c : Char) (a x y : String)
    → eqb (code c) b'/' ≡ false
    → String.◌∷◌ slash x ≡ text_key (String.◌∷◌ c a) y
    → ⊥
slash_first c a x y h e =
    let same : slash ≡ c = head-eq_of_cons-eq (e ∙ cons-append c a ("/" <> y)) in
    cc (ap (λ d. eqb (code d) b'/') same ∙ h)

pub text_key-injective :
    (a b x y : String)
    → HasNoSlash a
    → HasNoSlash b
    → text_key a x ≡ text_key b y
    → (a ≡ b) × (x ≡ y)
text_key-injective String.[] String.[] x y h k e =
    (refl, tail-eq_of_cons-eq (sym (text_key-nil x) ∙ e ∙ text_key-nil y))
text_key-injective String.[] (String.◌∷◌ d b) x y h (k, _) e =
    absurd (slash_first d b x y k (sym (text_key-nil x) ∙ e))
text_key-injective (String.◌∷◌ c a) String.[] x y (h, _) k e =
    absurd (slash_first c a y x h (sym (text_key-nil y) ∙ sym e))
text_key-injective (String.◌∷◌ c a) (String.◌∷◌ d b) x y (h, h') (k, k') e =
    let e' = sym (cons-append c a ("/" <> x)) ∙ e ∙ cons-append d b ("/" <> y) in
    let (same, rest) = text_key-injective a b x y h' k' (tail-eq_of_cons-eq e') in
    (ap₂ (λ i t. String.◌∷◌ i t) (head-eq_of_cons-eq e') same, rest)
