-- ===== src/Controller/Tools.antt =====
-- internal/controller/agent_tool.go
pub mod Watch
pub mod Resolved
use agent_runtime_operator.Base.{
  String, ◌<>◌, Bool, true, false, ◌&&◌, Option, none, some, List, [], ◌∷◌, ◌++◌, ◌==◌, Map,
  if◌then◌else◌, any, length, decimal, join, trim_space,
}
use agent_runtime_operator.Base.Maps
use agent_runtime_operator.Api.Meta.{ObjectReference, NamespacedName}
use agent_runtime_operator.Api.Agent.{AgentTool, ExternalUpstream, Agent}
use agent_runtime_operator.Api.ToolServer.{ToolServer}
use agent_runtime_operator.Api.Gateways.{ToolRoute}
use agent_runtime_operator.Cluster.{Error, Result, ok, err, errorf, wrap, Reader}
use agent_runtime_operator.Controller.Util.{get_namespace_with_default, enqueue_if}
use agent_runtime_operator.Controller.SubAgents.{agent_key}

pub record ResolvedTool : Type 0 where
  pub url : String
  pub propagated_headers : List String

-- The status URL of the object that was fetched, or why there is none.
abbrev pub published_url : String → String → String → String → Result String
published_url kind namespace name url =
    if url == ""
    then err (errorf (kind <> " " <> namespace <> "/" <> name <> " has no URL in its Status field"))
    else ok url

abbrev pub unresolved : String → NamespacedName → Error → Error
unresolved kind key =
    wrap ("failed to resolve " <> kind <> " " <> key.namespace <> "/" <> key.name <> ": ")

abbrev tool_route_url : NamespacedName → Result ToolRoute → Result String
tool_route_url key (err e) = err (unresolved "ToolRoute" key e)
tool_route_url key (ok route) = published_url "ToolRoute" key.namespace route.name route.status.url

unfoldable pub resolve_tool_route_url : Reader → ObjectReference → String → Result String
resolve_tool_route_url r ref parent_namespace =
    let key = agent_key ref parent_namespace in
    if ref.name == ""
    then err (errorf "toolRouteRef.name is empty")
    else tool_route_url key (r.get_tool_route key)

abbrev pub tool_server_url : NamespacedName → Result ToolServer → Result String
tool_server_url key (err e) = err (unresolved "ToolServer" key e)
tool_server_url key (ok server) =
    published_url "ToolServer" key.namespace server.name server.status.url

unfoldable pub resolve_tool_server_url : Reader → ObjectReference → String → Result String
resolve_tool_server_url r ref parent_namespace =
    let key = agent_key ref parent_namespace in
    if ref.name == ""
    then err (errorf "toolServerRef.name is empty")
    else tool_server_url key (r.get_tool_server key)

unfoldable pub external_url : ExternalUpstream → Result String
external_url external =
    let url = trim_space external.url in
    if url == "" then err (errorf "external upstream URL is empty") else ok url

-- the `switch` of `resolveToolUrl`: route, then server, then external
abbrev pub dispatch :
    Reader
    → String
    → Option ObjectReference
    → Option ObjectReference
    → Option ExternalUpstream
    → Result String
dispatch r namespace (some route) server external = resolve_tool_route_url r route namespace
dispatch r namespace none (some server) external = resolve_tool_server_url r server namespace
dispatch r namespace none none (some external) = external_url external
dispatch r namespace none none none = err (errorf "no upstream configured")

unfoldable pub resolve_tool_url : Reader → AgentTool → String → Result String
resolve_tool_url r tool parent_namespace =
    dispatch r parent_namespace tool.upstream.tool_route_ref tool.upstream.tool_server_ref
      tool.upstream.external

-- The two variables of the loop of `resolveAllTools`.
abbrev pub Progress : Type 0
Progress = Map ResolvedTool × List String

abbrev pub report : List String → Option Error
report [] = none
report (i ∷ issues) = some (
    errorf (
      "failed to resolve "
      <> decimal (length (i ∷ issues))
      <> " tool(s): "
      <> join "; " (i ∷ issues)))

-- `quote` is `%q` of the fmt package
module _ (quote : String → String) where
  abbrev pub issue : AgentTool → Error → String
  issue tool e = "tool " <> quote tool.name <> ": " <> e.message

  -- the body of the loop, after the call of `resolveToolUrl`
  pub add_result : AgentTool → Result String → Progress → Progress
  add_result tool (err e) (resolved, issues) = (resolved, issues ++ issue tool e ∷ [])
  add_result tool (ok url) (resolved, issues) = (
    Maps.insert tool.name (record { url = url; propagated_headers = tool.propagated_headers })
        resolved,
    issues,
  )

  pub resolve_each : Reader → String → List AgentTool → Progress → Progress
  resolve_each r namespace [] progress = progress
  resolve_each r namespace (tool ∷ tools) progress =
      resolve_each r namespace tools (add_result tool (resolve_tool_url r tool namespace) progress)

  -- The map comes back beside the error, as in the source.
  unfoldable pub resolve_all_tools : Reader → Agent → Map ResolvedTool × Option Error
  unfolding resolve_each add_result
  resolve_all_tools r agent =
      let (resolved, issues) = resolve_each r agent.namespace agent.spec.tools ([], []) in
      (resolved, report issues)

-- The test of the inner loops of the two watch handlers, for a reference and the changed object.
unfoldable pub matches_reference : Option ObjectReference → NamespacedName → String → Bool
matches_reference none updated namespace = false
matches_reference (some ref) updated namespace =
    ref.name == updated.name
    && (if ref.namespace == "" then namespace else ref.namespace) == updated.namespace

unfoldable pub find_agents_referencing_tool_route : Reader → ToolRoute → List NamespacedName
find_agents_referencing_tool_route r updated = elim r.list_agents [
  | err e ↦ []
  | ok agents ↦
      let key : NamespacedName = record { namespace = updated.namespace; name = updated.name } in
      enqueue_if
        (λ agent.
          any (λ tool. matches_reference tool.upstream.tool_route_ref key agent.namespace)
            agent.spec.tools)
        agents
]

unfoldable pub find_agents_referencing_tool_server : Reader → ToolServer → List NamespacedName
find_agents_referencing_tool_server r updated = elim r.list_agents [
  | err e ↦ []
  | ok agents ↦
      let key : NamespacedName = record { namespace = updated.namespace; name = updated.name } in
      enqueue_if
        (λ agent.
          any (λ tool. matches_reference tool.upstream.tool_server_ref key agent.namespace)
            agent.spec.tools)
        agents
]
