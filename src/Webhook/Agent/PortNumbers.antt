-- ===== src/Webhook/Agent/PortNumbers.antt =====
-- The names that `applyDefaults` gives to protocols, as names of ports.
use mathlib.Core.Path.{subst}
use Prim.Native.String.{[], ◌∷◌}
use Prim.Native.Nat.{◌^◌}
use agent_runtime_operator.Base.{
  ℕ, String, Char, ◌<>◌, ◌≡◌, refl, sym, ap, ap₂, ◌↔◌, ◌∙◌, Bool, true, ◌==◌, Bool-cases, inl, inr,
  arith, decimal, trim_left, trim_right, ◌≤◌, ◌<◌, suc, eq_iff, ◌&&◌,
}
use agent_runtime_operator.Base.Appended.{append-not_empty}
use agent_runtime_operator.Base.Digits.{
  is_digit, read_number, read_number-append, read_number-decimal, size, size-append, size-decimal,
  EveryChar-decimal, decimal-cons,
}
use agent_runtime_operator.Base.Trimmed.{
  EveryChar, EndsWithout, EveryChar-append, EveryChar-weaken, StartsWithout-append,
  EndsWithout-append,
}
use agent_runtime_operator.Api.Agent.{AgentProtocol}
use agent_runtime_operator.Webhook.Agent.{
  AgentCustomDefaulter, is_hyphen, is_port_char, hyphenate, sanitize_for_port_name,
  default_protocol,
}
use agent_runtime_operator.Webhook.Agent.PortNames.{
  IsPortName, hyphen, hyphen-append, sanitize_for_port_name-IsPortName,
}

-- a text, a hyphen and a number
abbrev numbered : String → ℕ → String
numbered s n = s <> ("-" <> decimal n)

numbered-read_number : (s : String) (n : ℕ) → read_number (numbered s n) 0 ≡ n
unfolding read_number
numbered-read_number s n =
    read_number-append s ("-" <> decimal n) 0
    ∙ read_number-append "-" (decimal n) (read_number s 0)
    ∙ read_number-decimal n

module _ (to_lower : String → String) (d : AgentCustomDefaulter) where
  default_name :
      (p : AgentProtocol)
      → p.name ≡ ""
      → (default_protocol to_lower d p).name
        ≡ numbered (sanitize_for_port_name to_lower p.type) (default_protocol to_lower d p).port
  unfolding default_protocol
  default_name p unnamed = ground (arith, (eq_iff p.name "").1 unnamed)

  -- The number at the end of the name that a protocol without one is given is its port.
  pub default_protocol-read_number :
      (p : AgentProtocol)
      → p.name ≡ ""
      → read_number (default_protocol to_lower d p).name 0 ≡ (default_protocol to_lower d p).port
  default_protocol-read_number p unnamed =
      ap (λ s. read_number s 0) (default_name p unnamed)
      ∙ numbered-read_number (sanitize_for_port_name to_lower p.type)
          (default_protocol to_lower d p).port

  -- Of two protocols of one type, both without a name, the given names are the same if and only if
  -- the ports are: the ports of an agent's Service need distinct names.
  pub default_protocol-same_iff :
      (p q : AgentProtocol)
      → p.name ≡ ""
      → q.name ≡ ""
      → p.type ≡ q.type
      → ((default_protocol to_lower d p).name ≡ (default_protocol to_lower d q).name)
        ↔ ((default_protocol to_lower d p).port ≡ (default_protocol to_lower d q).port)
  default_protocol-same_iff p q p_unnamed q_unnamed same = (
    λ names.
        sym (default_protocol-read_number p p_unnamed)
        ∙ ap (λ s. read_number s 0) names
        ∙ default_protocol-read_number q q_unnamed,
    λ ports.
        default_name p p_unnamed
        ∙ ap₂ (λ t n. numbered (sanitize_for_port_name to_lower t) n) same ports
        ∙ sym (default_name q q_unnamed),
  )

size-hyphenate : (s : String) → size (hyphenate s) ≡ size s
unfolding hyphenate
size-hyphenate [] = refl
size-hyphenate (c ∷ s) = elim (Bool-cases (is_port_char c)) [
  | inl kept ↦ rw kept (ap suc (size-hyphenate s))
  | inr replaced ↦ rw (replaced, hyphen-append (hyphenate s)) (ap suc (size-hyphenate s))
]

size-trim_left : (q : Char → Bool) (s : String) → size (trim_left q s) ≤ size s
unfolding trim_left
size-trim_left q [] = omega arith
size-trim_left q (c ∷ s) = elim (Bool-cases (q c)) [
  | inl cut ↦ rw cut (omega (arith, size-trim_left q s))
  | inr kept ↦ rw kept (omega (arith, size-trim_left q s))
]

size-trim_right : (q : Char → Bool) (s : String) → size (trim_right q s) ≤ size s
unfolding trim_right
size-trim_right q [] = omega arith
size-trim_right q (c ∷ s) = elim (Bool-cases (q c && (trim_right q s == ""))) [
  | inl cut ↦ rw cut (omega arith)
  | inr kept ↦ rw kept (omega (arith, size-trim_right q s))
]

size-sanitize_for_port_name :
    (to_lower : String → String) (name : String)
    → size (to_lower name) ≤ 9
    → size (sanitize_for_port_name to_lower name) ≤ 9
unfolding sanitize_for_port_name
size-sanitize_for_port_name to_lower name short =
    let left = trim_left is_hyphen (hyphenate (to_lower name)) in
    let result = trim_right is_hyphen left in
    elim (Bool-cases (result == "")) [
      | inl empty ↦ rw empty (omega arith)
      | inr kept ↦ rw kept (
          omega (
            arith,
            size-trim_right is_hyphen left,
            size-trim_left is_hyphen (hyphenate (to_lower name)),
            size-hyphenate (to_lower name),
          ))
    ]

digit-is_port_char : (c : Char) → is_digit c ≡ true → is_port_char c ≡ true
digit-is_port_char c h = ground (arith, h)

digits-EndsWithout : (s : String) → EveryChar is_digit s → EndsWithout is_hyphen s
digits-EndsWithout [] h = tt
digits-EndsWithout (c ∷ []) (here, _) = ground (arith, here)
digits-EndsWithout (c ∷ d ∷ s) (_, h) = digits-EndsWithout (d ∷ s) h

numbered-IsPortName : (s : String) (n : ℕ) → IsPortName s → IsPortName (numbered s n)
numbered-IsPortName s n is_name =
    let (c, t, same) = decimal-cons n in
    let digits =
      EveryChar-weaken is_digit is_port_char digit-is_port_char (decimal n) (EveryChar-decimal n) in
    let ends : EndsWithout is_hyphen (hyphen ∷ (c ∷ t)) =
      digits-EndsWithout (c ∷ t) (subst (EveryChar is_digit) same (EveryChar-decimal n)) in
    record {
      not_empty = append-not_empty s ("-" <> decimal n) is_name.not_empty;
      chars =
          EveryChar-append is_port_char s ("-" <> decimal n) is_name.chars
            (rw (hyphen-append (decimal n)) (refl, digits));
      starts = StartsWithout-append is_hyphen s ("-" <> decimal n) is_name.not_empty is_name.starts;
      ends =
          rw (hyphen-append (decimal n), same) (EndsWithout-append is_hyphen s hyphen (c ∷ t) ends);
    }

default_port_small :
    (to_lower : String → String) (d : AgentCustomDefaulter) (p : AgentProtocol)
    → p.port < 2 ^ 16
    → d.default_port < 2 ^ 16
    → (default_protocol to_lower d p).port < 10 ^ 5
unfolding default_protocol
default_port_small to_lower d p h h' = ground (arith, h, h')

-- A protocol without a name, of a type of at most nine characters in lower case, gets a name that
-- is not empty, has only lower-case letters, digits and hyphens, neither starts nor ends with
-- a hyphen, and has at most 15 characters, if its port and the default port are below 2 ^ 16.
pub default_protocol-IsPortName :
    (to_lower : String → String) (d : AgentCustomDefaulter) (p : AgentProtocol)
    → p.name ≡ ""
    → size (to_lower p.type) ≤ 9
    → p.port < 2 ^ 16
    → d.default_port < 2 ^ 16
    → IsPortName (default_protocol to_lower d p).name
      × (size (default_protocol to_lower d p).name ≤ 15)
default_protocol-IsPortName to_lower d p unnamed short port_small default_small =
    let s = sanitize_for_port_name to_lower p.type in
    let n = (default_protocol to_lower d p).port in
    rw (default_name to_lower d p unnamed) (
      numbered-IsPortName s n (sanitize_for_port_name-IsPortName to_lower p.type),
      omega (
        arith,
        size-append s ("-" <> decimal n),
        size-append "-" (decimal n),
        size-decimal 4 n (default_port_small to_lower d p port_small default_small),
        size-sanitize_for_port_name to_lower p.type short,
      ),
    )
