-- ===== src/Controller/AiGateways.antt =====
-- internal/controller/agent_aigateway.go
pub mod Watch
use agent_runtime_operator.Base.{
  String, ◌<>◌, Bool, ◌&&◌, Option, none, some, List, [], ◌∷◌, ◌==◌, if◌then◌else◌, decimal,
}
use agent_runtime_operator.Api.Meta.{ObjectReference, NamespacedName}
use agent_runtime_operator.Api.Agent.{Agent}
use agent_runtime_operator.Api.Gateways.{AiGateway}
use agent_runtime_operator.Cluster.{Error, Result, ok, err, is_no_match_error, errorf, wrap, Reader}
use agent_runtime_operator.Controller.Util.{enqueue_if}

abbrev pub default_ai_gateway_namespace : String
default_ai_gateway_namespace = "ai-gateway"

-- the namespace of the reference, or else the agent's
abbrev pub gateway_key : ObjectReference → String → NamespacedName
gateway_key ref agent_namespace = record {
  namespace = if ref.namespace == "" then agent_namespace else ref.namespace;
  name = ref.name;
}

abbrev explicit_gateway : NamespacedName → Result AiGateway → Result (Option AiGateway)
explicit_gateway key (ok gateway) = ok (some gateway)
explicit_gateway key (err e) =
    if is_no_match_error e
    then err (errorf "AiGateway CRD is not installed in the cluster")
    else err (wrap ("failed to resolve AiGateway " <> key.namespace <> "/" <> key.name <> ": ") e)

unfoldable pub resolve_explicit_ai_gateway :
    Reader → ObjectReference → String → Result (Option AiGateway)
resolve_explicit_ai_gateway r ref agent_namespace =
    let key = gateway_key ref agent_namespace in explicit_gateway key (r.get_ai_gateway key)

abbrev default_gateway : Result (List AiGateway) → Result (Option AiGateway)
default_gateway (err e) =
    if is_no_match_error e
    then ok none
    else err
        (wrap ("failed to list AiGateways in namespace " <> default_ai_gateway_namespace <> ": ") e)
default_gateway (ok []) = ok none
default_gateway (ok (gateway ∷ rest)) = ok (some gateway)

unfoldable pub resolve_default_ai_gateway : Reader → Result (Option AiGateway)
resolve_default_ai_gateway r = default_gateway (r.list_ai_gateways default_ai_gateway_namespace)

abbrev pub choose_gateway : Reader → Option ObjectReference → String → Result (Option AiGateway)
choose_gateway r (some ref) namespace = resolve_explicit_ai_gateway r ref namespace
choose_gateway r none namespace = resolve_default_ai_gateway r

unfoldable pub resolve_ai_gateway : Reader → Agent → Result (Option AiGateway)
resolve_ai_gateway r agent = choose_gateway r agent.spec.ai_gateway_ref agent.namespace

unfoldable pub build_ai_gateway_service_url : AiGateway → String
build_ai_gateway_service_url gateway =
    "http://"
    <> gateway.name
    <> "."
    <> gateway.namespace
    <> ".svc.cluster.local.:"
    <> decimal gateway.spec.port

-- `shouldReconcile` at the end of the body of the loop
unfoldable pub uses_gateway : AiGateway → Option ObjectReference → String → Bool
uses_gateway updated (some ref) namespace =
    ref.name == updated.name && (gateway_key ref namespace).namespace == updated.namespace
uses_gateway updated none namespace = updated.namespace == default_ai_gateway_namespace

unfoldable pub find_agents_referencing_ai_gateway : Reader → AiGateway → List NamespacedName
find_agents_referencing_ai_gateway r updated = elim r.list_agents [
  | err e ↦ []
  | ok agents ↦
      enqueue_if (λ agent. uses_gateway updated agent.spec.ai_gateway_ref agent.namespace) agents
]
