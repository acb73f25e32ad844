-- ===== src/Controller/Watches.antt =====
-- `SetupWithManager` of internal/controller/agent_reconciler.go: which agents are reconciled after a
-- change of which kind of resource
pub mod Changes
pub mod Complete
use agent_runtime_operator.Base.{Bool, List, [], ◌∷◌, if◌then◌else◌}
use agent_runtime_operator.Api.Meta.{NamespacedName, ObjectMeta, key_of}
use agent_runtime_operator.Api.Agent.{Agent}
use agent_runtime_operator.Api.ToolServer.{ToolServer}
use agent_runtime_operator.Api.Gateways.{ToolRoute, AiGateway, AgentRuntimeConfiguration}
use agent_runtime_operator.Cluster.{Reader}
use agent_runtime_operator.Controller.SubAgents.{find_agents_referencing_sub_agent}
use agent_runtime_operator.Controller.Tools.{
  find_agents_referencing_tool_route, find_agents_referencing_tool_server,
}
use agent_runtime_operator.Controller.AiGateways.{find_agents_referencing_ai_gateway}
use agent_runtime_operator.Controller.Reconcile.{find_all_agents_for_runtime_configuration}

-- a resource of one of the kinds of `For`, `Owns` and `Watches`, as it is after the change
pub data Event : Type 0 where
  agent_changed : Agent → Event
  deployment_changed : ObjectMeta → Event
  service_changed : ObjectMeta → Event
  tool_route_changed : ToolRoute → Event
  tool_server_changed : ToolServer → Event
  configuration_changed : AgentRuntimeConfiguration → Event
  ai_gateway_changed : AiGateway → Event

-- `is_ai_gateway_crd_installed` is what the cluster answers when the manager starts, and `owners` is
-- the handler that controller-runtime has for `Owns`.
unfoldable pub enqueued :
    (is_ai_gateway_crd_installed : Bool) (owners : ObjectMeta → List NamespacedName)
    → Reader
    → Event
    → List NamespacedName
enqueued is_ai_gateway_crd_installed owners r (agent_changed agent) =
    key_of agent.metadata ∷ find_agents_referencing_sub_agent r agent
enqueued is_ai_gateway_crd_installed owners r (deployment_changed meta) = owners meta
enqueued is_ai_gateway_crd_installed owners r (service_changed meta) = owners meta
enqueued is_ai_gateway_crd_installed owners r (tool_route_changed route) =
    find_agents_referencing_tool_route r route
enqueued is_ai_gateway_crd_installed owners r (tool_server_changed tool_server) =
    find_agents_referencing_tool_server r tool_server
enqueued is_ai_gateway_crd_installed owners r (configuration_changed config) =
    find_all_agents_for_runtime_configuration r
enqueued is_ai_gateway_crd_installed owners r (ai_gateway_changed gateway) =
    if is_ai_gateway_crd_installed then find_agents_referencing_ai_gateway r gateway else []
