-- ===== src/Controller/Reconcile/Resolvable.antt =====
-- When all that an agent refers to resolves.
use agent_runtime_operator.Base.{String, ◌≡◌, ◌≢◌, refl, Option, none, some, All}
use agent_runtime_operator.Api.Agent.{SubAgent, Agent}
use agent_runtime_operator.Api.Gateways.{AiGateway, AgentRuntimeConfiguration}
use agent_runtime_operator.Cluster.{Error, ok, Reader}
use agent_runtime_operator.Controller.SubAgents.Typed.{resolve_all_sub_agents-HasInteractionTypes}
use agent_runtime_operator.Controller.SubAgents.{resolve_sub_agent_url, resolve_all_sub_agents}
use agent_runtime_operator.Controller.SubAgents.Outcome.{resolve_all_sub_agents-none_iff}
use agent_runtime_operator.Controller.Tools.Resolved.{resolve_all_tools-none}
use agent_runtime_operator.Controller.Tools.{resolve_tool_url, resolve_all_tools}
use agent_runtime_operator.Controller.AiGateways.{resolve_ai_gateway}
use agent_runtime_operator.Controller.Template.Laws.{HasInteractionTypes}
use agent_runtime_operator.Controller.AgentDeployment.{Resolved}
use agent_runtime_operator.Controller.Reconcile.{
  get_agent_runtime_configuration, checked, resolve_dependencies,
}

-- The configuration, the gateway, every sub-agent and every tool of the agent resolve, and the
-- sub-agents have the interaction type that the schema gives them.
pub record IsResolvable (operator_namespace : String) (r : Reader) (agent : Agent)
    (config : Option AgentRuntimeConfiguration) (gateway : Option AiGateway) : Type 0 where
  pub config_found : get_agent_runtime_configuration operator_namespace r ≡ ok config
  pub sub_agents_resolve :
      All
        (λ sub. (url : String) × (resolve_sub_agent_url r sub agent.namespace ≡ ok url))
        agent.spec.sub_agents
  pub tools_resolve :
      All
        (λ tool. (url : String) × (resolve_tool_url r tool agent.namespace ≡ ok url))
        agent.spec.tools
  pub gateway_found : resolve_ai_gateway r agent ≡ ok gateway
  pub typed : All (λ (sub : SubAgent). sub.interaction_type ≢ "") agent.spec.sub_agents

checked-ok : {A : Type 0} (out : A × Option Error) → out.1 ≡ none → checked out ≡ ok out.0
checked-ok (a, none) h = refl
checked-ok (a, some e) h = absurd (cc h)

-- Then the resolution succeeds, and the resolved sub-agents have their interaction types.
pub resolve_dependencies-ok :
    (operator_namespace : String) (quote : String → String) (r : Reader) (agent : Agent)
    (config : Option AgentRuntimeConfiguration) (gateway : Option AiGateway)
    → IsResolvable operator_namespace r agent config gateway
    → (resolved : Resolved) × (resolve_dependencies operator_namespace quote r agent ≡ ok resolved)
      × HasInteractionTypes resolved.sub_agents
      × (resolved.ai_gateway ≡ gateway)
unfolding resolve_dependencies
resolve_dependencies-ok operator_namespace quote r agent config gateway is_resolvable =
    let subs = resolve_all_sub_agents quote r agent in
    let tools = resolve_all_tools quote r agent in
    let (_, from) = resolve_all_sub_agents-none_iff quote r agent in
    let subs_ok = checked-ok subs (from is_resolvable.sub_agents_resolve) in
    let tools_ok =
      checked-ok tools (resolve_all_tools-none quote r agent is_resolvable.tools_resolve) in
    (
      record { sub_agents = subs.0; tools = tools.0; ai_gateway = gateway; config = config },
      rw (is_resolvable.config_found, subs_ok, tools_ok, is_resolvable.gateway_found) refl,
      resolve_all_sub_agents-HasInteractionTypes quote r agent is_resolvable.typed,
      refl,
    )
