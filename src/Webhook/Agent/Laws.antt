-- ===== src/Webhook/Agent/Laws.antt =====
-- The defaults are complete and stable, and what the checks let through resolves.
use Prim.Native.String.compare
use text.Mathlib.Text.{is_eq}
use text.Mathlib.TextLemmas.{nil-append, cons-append}
use agent_runtime_operator.Base.{
  ℕ, String, ◌<>◌, ◌≡◌, refl, ap, ap₂, ◌≢◌, ◌⊎◌, inl, inr, true, false, Option, none, some, List,
  [], ◌∷◌, ◌==◌, eq_iff, arith, map, if◌then◌else◌, or_else, All, Bool-cases, decimal, is_some,
  is_nil, eqb, Option-cases,
}
use agent_runtime_operator.Api.Meta.{ObjectReference}
use agent_runtime_operator.Api.Agent.{AgentProtocol, SubAgent, Agent}
use agent_runtime_operator.Cluster.{ok, Reader}
use agent_runtime_operator.Controller.SubAgents.{
  agent_key, resolve_cluster_agent, resolve_sub_agent_url,
}
use agent_runtime_operator.Controller.AgentDeployment.{
  google_adk_framework, msaf_framework, default_template_image_adk, default_template_image_msaf,
  default_template_image_fallback, effective_image, resolve_effective_framework, get_template_image,
}
use agent_runtime_operator.Webhook.Agent.{
  AgentCustomDefaulter, sanitize_for_port_name, default_protocol, protocols_or_a2a, apply_defaults,
  validate_framework, validate_sub_agent,
}
use agent_runtime_operator.Webhook.Fields.{ParsedUrl}

append-hyphen-not_empty : (s t : String) → (s <> ("-" <> t) == "") ≡ false
append-hyphen-not_empty String.[] t =
    rw (nil-append ("-" <> t), cons-append) (ap is_eq (compare.cons-nil _ _))
append-hyphen-not_empty (String.◌∷◌ c s) t =
    rw (cons-append) (ap is_eq (compare.cons-nil c (s <> ("-" <> t))))

module _ (to_lower : String → String) (d : AgentCustomDefaulter) where
  default_protocol-named :
      (p : AgentProtocol) → ((default_protocol to_lower d p).name == "") ≡ false
  unfolding default_protocol
  default_protocol-named p = ground (
    arith,
    append-hyphen-not_empty (sanitize_for_port_name to_lower p.type)
        (decimal (if eqb p.port 0 then d.default_port else p.port)),
  )

  default_protocol_idempotent :
      (p : AgentProtocol)
      → default_protocol to_lower d (default_protocol to_lower d p) ≡ default_protocol to_lower d p
  unfolding default_protocol
  default_protocol_idempotent p = ground (arith, default_protocol-named p)

  protocols-cons :
      (ps : List AgentProtocol)
      → is_nil (map (default_protocol to_lower d) (protocols_or_a2a to_lower ps)) ≡ false
  protocols-cons [] = refl
  protocols-cons (p ∷ ps) = refl

  map-default_twice :
      (ps : List AgentProtocol)
      → map (default_protocol to_lower d) (map (default_protocol to_lower d) ps)
        ≡ map (default_protocol to_lower d) ps
  map-default_twice [] = refl
  map-default_twice (p ∷ ps) =
      ap₂ (λ q qs. q ∷ qs) (default_protocol_idempotent p) (map-default_twice ps)

  protocols_twice :
      (ps : List AgentProtocol)
      → map (default_protocol to_lower d) (
          protocols_or_a2a to_lower
            (map (default_protocol to_lower d) (protocols_or_a2a to_lower ps)))
        ≡ map (default_protocol to_lower d) (protocols_or_a2a to_lower ps)
  protocols_twice [] = map-default_twice (protocols_or_a2a to_lower [])
  protocols_twice (p ∷ ps) = map-default_twice (p ∷ ps)

  -- To apply the defaults a second time changes nothing.
  pub apply_defaults_idempotent :
      (agent : Agent)
      → apply_defaults to_lower d (apply_defaults to_lower d agent)
        ≡ apply_defaults to_lower d agent
  unfolding apply_defaults
  apply_defaults_idempotent agent =
      ap
        (λ ps. record agent {
          spec = record agent.spec {
            replicas = some (or_else agent.spec.replicas d.default_replicas);
            protocols = ps;
          };
        })
        (protocols_twice agent.spec.protocols)

  -- a protocol that a Deployment and a Service can expose
  abbrev pub IsExposable : AgentProtocol → Type 0
  IsExposable p = ((p.name == "") ≡ false) × (p.port ≢ 0)

  default_protocol-IsExposable :
      d.default_port ≢ 0 → (p : AgentProtocol) → IsExposable (default_protocol to_lower d p)
  default_protocol-IsExposable set p =
      (default_protocol-named p, unfold default_protocol in ground (arith, set))

  map-default-IsExposable :
      d.default_port ≢ 0
      → (ps : List AgentProtocol) → All IsExposable (map (default_protocol to_lower d) ps)
  map-default-IsExposable set [] = tt
  map-default-IsExposable set (p ∷ ps) =
      (default_protocol-IsExposable set p, map-default-IsExposable set ps)

  -- If the default port is not 0, an agent with defaults has a number of replicas and a protocol,
  -- and each of its protocols has a name and a port.
  pub apply_defaults_complete :
      (agent : Agent)
      → d.default_port ≢ 0
      → (is_some (apply_defaults to_lower d agent).spec.replicas ≡ true)
        × (is_nil (apply_defaults to_lower d agent).spec.protocols ≡ false)
        × All IsExposable (apply_defaults to_lower d agent).spec.protocols
  unfolding apply_defaults
  apply_defaults_complete agent set = (
    refl,
    protocols-cons agent.spec.protocols,
    map-default-IsExposable set (protocols_or_a2a to_lower agent.spec.protocols),
  )

effective_framework-cases :
    (agent : Agent)
    → validate_framework agent ≡ []
    → (agent.spec.image == "") ≡ true
    → (resolve_effective_framework agent none ≡ google_adk_framework)
      ⊎ (resolve_effective_framework agent none ≡ msaf_framework)
unfolding validate_framework resolve_effective_framework
effective_framework-cases agent h templated = elim (Bool-cases (agent.spec.framework == "")) [
  | inl unset ↦ inl (rw unset)
  | inr set ↦ elim (Bool-cases (agent.spec.framework == "google-adk")) [
    | inl adk ↦ inl (rw set ((eq_iff agent.spec.framework "google-adk").0 adk))
    | inr other ↦ inr (rw set ((eq_iff agent.spec.framework "msaf").0 (ground arith)))
  ]
]

template_image-ne-fallback :
    (framework : String)
    → (framework ≡ google_adk_framework) ⊎ (framework ≡ msaf_framework)
    → get_template_image framework none ≢ default_template_image_fallback
unfolding get_template_image
template_image-ne-fallback framework (inl adk) =
    rw adk (λ e. cc ((eq_iff default_template_image_adk default_template_image_fallback).1 e))
template_image-ne-fallback framework (inr msaf) =
    rw msaf (λ e. cc ((eq_iff default_template_image_msaf default_template_image_fallback).1 e))

-- If the check of the framework finds nothing and the agent's own image is not the fallback, then
-- without a configuration its container does not get the fallback image.
pub validated_framework-image :
    (agent : Agent)
    → validate_framework agent ≡ []
    → agent.spec.image ≢ default_template_image_fallback
    → effective_image agent none ≢ default_template_image_fallback
unfolding effective_image
validated_framework-image agent h own = λ e. elim (Bool-cases (agent.spec.image == "")) [
  | inl templated ↦
      template_image-ne-fallback (resolve_effective_framework agent none)
        (effective_framework-cases agent h templated) (rw templated at e)
  | inr custom ↦ own (rw custom at e)
]

-- A sub-agent that passes the check has a URL and no reference, and resolves to its URL, or it has
-- a reference with a name and resolves as the referenced agent.
pub validated_sub_agent-resolution :
    (parse : String → Option ParsedUrl) (r : Reader) (sub : SubAgent) (index : ℕ)
    (namespace : String)
    → validate_sub_agent parse sub index ≡ []
    → ((sub.agent_ref ≡ none)
        × (sub.url ≢ "")
        × (resolve_sub_agent_url r sub namespace ≡ ok sub.url))
      ⊎ ((ref : ObjectReference) × (sub.agent_ref ≡ some ref)
          × (ref.name ≢ "")
          × (sub.url ≡ "")
          × (resolve_sub_agent_url r sub namespace
              ≡ resolve_cluster_agent r (agent_key ref namespace)))
unfolding validate_sub_agent resolve_sub_agent_url
validated_sub_agent-resolution parse r sub index namespace h = elim (Option-cases sub.agent_ref) [
  | inl e ↦
      let set : sub.url ≢ "" = λ u. ground (arith, eq_iff sub.url "") in
      inl (e, set, ground (arith, eq_iff sub.url ""))
  | inr (ref, e) ↦
      let named : ref.name ≢ "" = λ n. ground (arith, eq_iff ref.name "") in
      let unset : sub.url ≡ "" = ground (arith, eq_iff sub.url "") in
      inr (ref, e, named, unset, ground (arith, eq_iff sub.url ""))
]
