-- ===== src/Controller/Tools/Watch.antt =====
-- The watches on tool routes and tool servers cover every agent whose tools can resolve differently
-- after an update.
use agent_runtime_operator.Base.{
  String, ◌≡◌, refl, false, Option, none, some, List, [], ◌∷◌, any, arith, or-eq-false_left,
  or-eq-false_right, Bool,
}
use mathlib.Core.List.{Memᴰ}
use agent_runtime_operator.Api.Meta.{ObjectReference, NamespacedName, key_of, same_key}
use agent_runtime_operator.Api.Agent.{AgentTool, ExternalUpstream, Agent}
use agent_runtime_operator.Api.ToolServer.{ToolServer}
use agent_runtime_operator.Api.Gateways.{ToolRoute}
use agent_runtime_operator.Cluster.{ok, Reader}
use agent_runtime_operator.Controller.Util.{get_namespace_with_default, enqueue_if_absent}
use agent_runtime_operator.Controller.SubAgents.{agent_key}
use agent_runtime_operator.Controller.Tools.{
  dispatch, resolve_tool_url, resolve_tool_route_url, resolve_tool_server_url, Progress,
  resolve_each, resolve_all_tools, matches_reference, find_agents_referencing_tool_route,
  find_agents_referencing_tool_server,
}

-- Both clients answer alike for every tool server, and for every tool route but the one under the key.
pub record SameRoutesExcept (k : NamespacedName) (r r' : Reader) : Type 0 where
  pub servers : (j : NamespacedName) → r.get_tool_server j ≡ r'.get_tool_server j
  pub routes :
      (j : NamespacedName) → same_key j k ≡ false → r.get_tool_route j ≡ r'.get_tool_route j

-- Both clients answer alike for every tool route, and for every tool server but the one under the key.
pub record SameServersExcept (k : NamespacedName) (r r' : Reader) : Type 0 where
  pub routes : (j : NamespacedName) → r.get_tool_route j ≡ r'.get_tool_route j
  pub servers :
      (j : NamespacedName) → same_key j k ≡ false → r.get_tool_server j ≡ r'.get_tool_server j

matches_reference-same_key :
    (ref : ObjectReference) (updated : NamespacedName) (namespace : String)
    → matches_reference (some ref) updated namespace ≡ false
    → same_key (agent_key ref namespace) updated ≡ false
unfolding matches_reference get_namespace_with_default
matches_reference-same_key ref updated namespace h = ground arith

module _ (r r' : Reader) where
  resolve_tool_route_url_same :
      (ref : ObjectReference) (namespace : String)
      → r.get_tool_route (agent_key ref namespace) ≡ r'.get_tool_route (agent_key ref namespace)
      → resolve_tool_route_url r ref namespace ≡ resolve_tool_route_url r' ref namespace
  unfolding resolve_tool_route_url
  resolve_tool_route_url_same ref namespace e = rw e

  resolve_tool_server_url_same :
      (ref : ObjectReference) (namespace : String)
      → r.get_tool_server (agent_key ref namespace) ≡ r'.get_tool_server (agent_key ref namespace)
      → resolve_tool_server_url r ref namespace ≡ resolve_tool_server_url r' ref namespace
  unfolding resolve_tool_server_url
  resolve_tool_server_url_same ref namespace e = rw e

  module _ (updated : NamespacedName) (namespace : String) where
    dispatch_same_routes :
        (route server : Option ObjectReference) (external : Option ExternalUpstream)
        → SameRoutesExcept updated r r'
        → matches_reference route updated namespace ≡ false
        → dispatch r namespace route server external ≡ dispatch r' namespace route server external
    dispatch_same_routes (some route) server external same h =
        resolve_tool_route_url_same route namespace
          (same.routes _ (matches_reference-same_key route updated namespace h))
    dispatch_same_routes none (some server) external same h =
        resolve_tool_server_url_same server namespace (same.servers _)
    dispatch_same_routes none none (some external) same h = refl
    dispatch_same_routes none none none same h = refl

    dispatch_same_servers :
        (route server : Option ObjectReference) (external : Option ExternalUpstream)
        → SameServersExcept updated r r'
        → matches_reference server updated namespace ≡ false
        → dispatch r namespace route server external ≡ dispatch r' namespace route server external
    dispatch_same_servers (some route) server external same h =
        resolve_tool_route_url_same route namespace (same.routes _)
    dispatch_same_servers none (some server) external same h =
        resolve_tool_server_url_same server namespace
          (same.servers _ (matches_reference-same_key server updated namespace h))
    dispatch_same_servers none none (some external) same h = refl
    dispatch_same_servers none none none same h = refl

  -- If no tool passes a test that the resolution depends on, the loops run alike.
  resolve_each_same :
      (p : AgentTool → Bool) (quote : String → String) (namespace : String) (tools : List AgentTool)
      (progress : Progress)
      → ((tool : AgentTool)
          → p tool ≡ false
          → resolve_tool_url r tool namespace ≡ resolve_tool_url r' tool namespace)
      → any p tools ≡ false
      → resolve_each quote r namespace tools progress
        ≡ resolve_each quote r' namespace tools progress
  unfolding resolve_each
  resolve_each_same p quote namespace [] progress step h = refl
  resolve_each_same p quote namespace (tool ∷ tools) progress step h =
      rw (step tool (or-eq-false_left _ _ h), resolve_each)
        (resolve_each_same p quote namespace tools _ step (or-eq-false_right _ _ h))

-- An agent that the watch on tool routes does not enqueue resolves its tools as before the update.
pub tool_route_watch_complete :
    (quote : String → String) (updated : ToolRoute) (agent : Agent) (agents : List Agent)
    (r r' : Reader)
    → SameRoutesExcept (key_of updated.metadata) r r'
    → r'.list_agents ≡ ok agents
    → Memᴰ agent agents
    → ¬ Memᴰ (key_of agent.metadata) (find_agents_referencing_tool_route r' updated)
    → resolve_all_tools quote r agent ≡ resolve_all_tools quote r' agent
unfolding resolve_all_tools find_agents_referencing_tool_route resolve_tool_url
tool_route_watch_complete quote updated agent agents r r' same listed m absent =
    let test = enqueue_if_absent _ agent agents m (rw listed at absent) in
    rw (
      resolve_each_same r r' _ quote agent.namespace agent.spec.tools ([], [])
        (λ tool.
          dispatch_same_routes r r' (key_of updated.metadata) agent.namespace
            tool.upstream.tool_route_ref tool.upstream.tool_server_ref tool.upstream.external same)
        test)

-- An agent that the watch on tool servers does not enqueue resolves its tools as before the update.
pub tool_server_watch_complete :
    (quote : String → String) (updated : ToolServer) (agent : Agent) (agents : List Agent)
    (r r' : Reader)
    → SameServersExcept (key_of updated.metadata) r r'
    → r'.list_agents ≡ ok agents
    → Memᴰ agent agents
    → ¬ Memᴰ (key_of agent.metadata) (find_agents_referencing_tool_server r' updated)
    → resolve_all_tools quote r agent ≡ resolve_all_tools quote r' agent
unfolding resolve_all_tools find_agents_referencing_tool_server resolve_tool_url
tool_server_watch_complete quote updated agent agents r r' same listed m absent =
    let test = enqueue_if_absent _ agent agents m (rw listed at absent) in
    rw (
      resolve_each_same r r' _ quote agent.namespace agent.spec.tools ([], [])
        (λ tool.
          dispatch_same_servers r r' (key_of updated.metadata) agent.namespace
            tool.upstream.tool_route_ref tool.upstream.tool_server_ref tool.upstream.external same)
        test)

any-false : (tools : List AgentTool) → any (λ _. false) tools ≡ false
any-false [] = refl
any-false (tool ∷ tools) = any-false tools

-- Readers that give the same routes and servers resolve the tools alike.
pub resolve_all_tools_alike :
    (quote : String → String) (r r' : Reader) (agent : Agent)
    → ((j : NamespacedName) → r.get_tool_route j ≡ r'.get_tool_route j)
    → ((j : NamespacedName) → r.get_tool_server j ≡ r'.get_tool_server j)
    → resolve_all_tools quote r agent ≡ resolve_all_tools quote r' agent
unfolding resolve_all_tools resolve_tool_url
resolve_all_tools_alike quote r r' agent routes servers = rw (
    resolve_each_same r r' (λ _. false) quote agent.namespace agent.spec.tools ([], [])
      (λ tool _.
        alike tool.upstream.tool_route_ref tool.upstream.tool_server_ref tool.upstream.external)
      (any-false agent.spec.tools))
  where
    alike :
        (route server : Option ObjectReference) (external : Option ExternalUpstream)
        → dispatch r agent.namespace route server external
          ≡ dispatch r' agent.namespace route server external
    alike (some route) server external =
        resolve_tool_route_url_same r r' route agent.namespace (routes _)
    alike none (some server) external =
        resolve_tool_server_url_same r r' server agent.namespace (servers _)
    alike none none (some external) = refl
    alike none none none = refl
