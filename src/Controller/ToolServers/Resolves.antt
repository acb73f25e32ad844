-- ===== src/Controller/ToolServers/Resolves.antt =====
-- What the agents that use a reconciled tool server find.
use agent_runtime_operator.Base.{
  String, inl, inr, eq_iff, Bool-cases, ◌≡◌, refl, ap, ◌∙◌, true, false, none, some, ◌==◌,
}
use agent_runtime_operator.Base.Appended.{append-not_empty}
use agent_runtime_operator.Api.Meta.{ObjectReference, NamespacedName}
use agent_runtime_operator.Api.Agent.{AgentTool}
use agent_runtime_operator.Api.ToolServer.{ToolServer}
use agent_runtime_operator.Cluster.{ok, Reader}
use agent_runtime_operator.Controller.SubAgents.{agent_key}
use agent_runtime_operator.Controller.Tools.{
  published_url, resolve_tool_server_url, dispatch, resolve_tool_url,
}
use agent_runtime_operator.Controller.Tools as Tools
use agent_runtime_operator.Controller.AgentDeployment.{Platform}
use agent_runtime_operator.Controller.Server.{ApiServer}
use agent_runtime_operator.Controller.Server.Laws.{IsApiServer}
use agent_runtime_operator.Controller.ToolServers.Reconcile.{reconcile}
use agent_runtime_operator.Controller.ToolServers.Outcomes.{
  server_address, IsUrlOf, tool_server-ready,
}
use agent_runtime_operator.Webhook.ToolServer.{is_over_http}

-- the tool refers to the key of a tool server, from the namespace
pub record UsesServer (key : NamespacedName) (namespace : String) (tool : AgentTool) : Type 0 where
  pub ref : ObjectReference
  pub no_route : tool.upstream.tool_route_ref ≡ none
  pub is_reference : tool.upstream.tool_server_ref ≡ some ref
  pub is_named : (ref.name == "") ≡ false
  pub is_key : agent_key ref namespace ≡ key

resolve-server :
    (r : Reader) (key : NamespacedName) (namespace : String) (tool : AgentTool) (t : ToolServer)
    → UsesServer key namespace tool
    → r.get_tool_server key ≡ ok t
    → (t.status.url == "") ≡ false
    → resolve_tool_url r tool namespace ≡ ok t.status.url
unfolding resolve_tool_url resolve_tool_server_url
resolve-server r key namespace tool t uses got set =
    ap (λ o. dispatch r namespace o tool.upstream.tool_server_ref tool.upstream.external)
      uses.no_route
    ∙ ap (λ o. dispatch r namespace none o tool.upstream.external) uses.is_reference
    ∙ rw uses.is_named (
        ap (λ k. Tools.tool_server_url k (r.get_tool_server k)) uses.is_key
        ∙ ap (Tools.tool_server_url key) got
        ∙ rw set refl)

over_http-server_address :
    (t : ToolServer)
    → is_over_http t.spec.transport_type ≡ true
    → (url : String) → IsUrlOf t url
    → url ≡ server_address t
over_http-server_address t over url (inl (_, same)) = same
over_http-server_address t over url (inr (not_http, not_sse, _)) =
    let transport = t.spec.transport_type in
    absurd (elim (Bool-cases (transport == "http")) [
      | inl http ↦ not_http ((eq_iff transport "http").0 http)
      | inr other ↦ not_sse ((eq_iff transport "sse").0 (rw other at over))
    ])

address-not_empty : (t : ToolServer) → (server_address t == "") ≡ false
address-not_empty t = append-not_empty "http://" _ refl

-- If a tool server over http or sse is there and its reconciliation reports no error, then
-- afterwards every tool that refers to it, and to no tool route, resolves to the port and the path of
-- the tool server at the name of its Service.
pub reconcile-tool_resolves :
    (api : ApiServer) (laws : IsApiServer api) (p : Platform) (key : NamespacedName)
    (t : ToolServer) (s s' : api.State)
    → (api.reader s).get_tool_server key ≡ ok t
    → is_over_http t.spec.transport_type ≡ true
    → reconcile api p key s ≡ (ok tt, s')
    → (tool : AgentTool) (namespace : String) → UsesServer key namespace tool
    → resolve_tool_url (api.reader s') tool namespace ≡ ok (server_address t)
reconcile-tool_resolves api laws p key t s s' found over h tool namespace uses =
    let (stored, got, (is_url, _)) = tool_server-ready api laws p key t s s' found h in
    let same = over_http-server_address t over stored.status.url is_url in
    let set = ap (λ u. u == "") same ∙ address-not_empty t in
    resolve-server (api.reader s') key namespace tool stored uses got set ∙ ap ok same
