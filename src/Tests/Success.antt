-- ===== src/Tests/Success.antt =====
-- The theorem on a successful reconciliation, for an agent with a sub-agent, a tool and a gateway.
use mathlib.Core.List.Permᴰ
use agent_runtime_operator.Base.{
  ◌≡◌, refl, ap, ◌∙◌, true, Option, none, some, [], ◌∷◌, arith, inl, inr, Bool-cases,
}
use agent_runtime_operator.Api.Meta.{ObjectMeta, NamespacedName, key_of, same_key}
use agent_runtime_operator.Api.Keys.{same_key_refl}
use agent_runtime_operator.Api.Agent.{SubAgent, Agent}
use agent_runtime_operator.Api.Gateways.{AiGateway}
use agent_runtime_operator.Cluster.{Error, Result, ok, err, is_not_found}
use agent_runtime_operator.Controller.Util.{get_namespace_with_default}
use agent_runtime_operator.Controller.SubAgents.{resolve_sub_agent_url}
use agent_runtime_operator.Controller.Tools.{resolve_tool_server_url, resolve_tool_url}
use agent_runtime_operator.Controller.AiGateways.{
  resolve_ai_gateway, default_ai_gateway_namespace, resolve_default_ai_gateway,
}
use agent_runtime_operator.Controller.AgentDeployment.Total.{NeverFails}
use agent_runtime_operator.Controller.Workload.{Deployment, Service}
use agent_runtime_operator.Controller.Server.Healthy.{
  Succeeds, There, ToolServerThere, IsTotal, IsHealthy,
}
use agent_runtime_operator.Controller.Status.Written.{IsReadyStatus}
use agent_runtime_operator.Controller.Reconcile.{get_agent_runtime_configuration, reconcile}
use agent_runtime_operator.Controller.Reconcile.Resolvable.{IsResolvable}
use agent_runtime_operator.Controller.Reconcile.Succeeds.{reconcile_succeeds}
use agent_runtime_operator.Api.ToolServer.{ToolServer}
use agent_runtime_operator.Controller.ToolServers.Reconcile as ToolServers
use agent_runtime_operator.Controller.ToolServers.Reconcile.{tool_server_url, tool_server_ready}
use agent_runtime_operator.Controller.ToolServers.Outcomes.{IsUrlOf, Shows}
use agent_runtime_operator.Controller.ToolServers.Succeeds.{tool_server_succeeds}
use agent_runtime_operator.Tests.Samples.{
  platform, crew, agent_of, server_of, server_tool, gateway_of, team,
}
use agent_runtime_operator.Tests.Memory.{
  Memory, reader_of, under, under-key, service_under, created_or_updated, attempted, memory_server,
  memory_server-IsApiServer,
}
use agent_runtime_operator.Tests.Running.{attempted-same, created_or_updated-same}

platform-NeverFails : NeverFails platform
platform-NeverFails = record {
  marshal_sub_agents = λ m. ("{}", refl);
  marshal_tools = λ m. ("{}", refl);
  visits = λ m. Permᴰ.refl m;
  owner = λ o m. (record m { owner_references = o.name ∷ [] }, refl);
}

attempted-Succeeds :
    (d : Deployment) (f : Deployment → Result Deployment) (s : Memory)
    → IsTotal f
    → Succeeds (attempted (f d) s)
attempted-Succeeds d f s total = let (y, e) = total d in ap (λ r. (attempted r s).0) e

created_or_updated-Succeeds :
    (svc : Service) (f : Service → Result Service) (s : Memory)
    → IsTotal f
    → Succeeds (created_or_updated (f svc) s)
created_or_updated-Succeeds svc f s total =
    let (y, e) = total svc in ap (λ r. (created_or_updated r s).0) e

absent_under :
    {A : Type 0} (k : NamespacedName) (meta : ObjectMeta) (a : A) (e : Error)
    → under k meta a ≡ err e
    → is_not_found e ≡ true
absent_under k meta a e h = elim (Bool-cases (same_key k (key_of meta))) [
  | inl same ↦ absurd (cc (rw same at h))
  | inr other ↦ ground (arith, rw other at h)
]

absent_service :
    (k : NamespacedName) (o : Option Service) (e : Error)
    → service_under k o ≡ err e
    → is_not_found e ≡ true
absent_service k none e h = ground arith
absent_service k (some svc) e h = absent_under k svc.metadata svc e h

kept :
    (s s' : Memory) (k : NamespacedName)
    → s'.agent ≡ s.agent
    → There memory_server k s
    → There memory_server k s'
kept s s' k same (a, got) = (a, ap (λ (x : Agent). under k x.metadata x) same ∙ got)

attempted-server :
    (r : Result Deployment) (s : Memory) → (attempted r s).1.tool_server ≡ s.tool_server
attempted-server (ok d) s = refl
attempted-server (err e) s = refl

created_or_updated-server :
    (r : Result Service) (s : Memory) → (created_or_updated r s).1.tool_server ≡ s.tool_server
created_or_updated-server (ok svc) s = refl
created_or_updated-server (err e) s = refl

server_kept :
    (s s' : Memory) (k : NamespacedName)
    → s'.tool_server ≡ s.tool_server
    → ToolServerThere memory_server k s
    → ToolServerThere memory_server k s'
server_kept s s' k same (t, got) = (t, ap (λ (x : ToolServer). under k x.metadata x) same ∙ got)

under-same_key :
    {A : Type 0} (k : NamespacedName) (meta : ObjectMeta) (a b : A)
    → under k meta a ≡ ok b
    → same_key k (key_of meta) ≡ true
under-same_key k meta a b got =
    let (_, key) = under-key k meta a b got in ap (same_key k) key ∙ same_key_refl k

memory_server-IsHealthy : IsHealthy memory_server
memory_server-IsHealthy = record {
  deployment_written = attempted-Succeeds;
  service_written = created_or_updated-Succeeds;
  service_read = λ k s e h. absent_service k s.service e h;
  service_deleted = λ svc s. refl;
  agent_status_written =
      λ a s (b, got). rw (under-same_key (key_of a.metadata) s.agent.metadata s.agent b got) refl;
  tool_server_status_written = λ t s (b, got).
      rw (under-same_key (key_of t.metadata) s.tool_server.metadata s.tool_server b got) refl;
  deployment_keeps_servers =
      λ d f s k there. server_kept s (attempted (f d) s).1 k (attempted-server (f d) s) there;
  service_keeps_servers = λ svc f s k there.
      server_kept s (created_or_updated (f svc) s).1 k (created_or_updated-server (f svc) s) there;
  deployment_keeps = λ d f s k there. kept s (attempted (f d) s).1 k (attempted-same (f d) s) there;
  service_keeps = λ svc f s k there.
      kept s (created_or_updated (f svc) s).1 k (created_or_updated-same (f svc) s) there;
  deletion_keeps = λ svc s k there. kept s (record s { service = none }) k refl there;
}

abbrev remote_helper : SubAgent
remote_helper = record {
  name = "helper";
  agent_ref = none;
  url = "http://helper";
  interaction_type = "tool_call";
}

abbrev caller : Agent
caller = agent_of "caller" (remote_helper ∷ []) (server_tool "files" ∷ [])

abbrev with_caller : Memory
with_caller = record {
  agent = caller;
  tool_server = server_of "files" "http://files";
  workforce = crew;
  service = none;
}

abbrev main_gateway : AiGateway
main_gateway = gateway_of "main" default_ai_gateway_namespace

caller-IsResolvable : IsResolvable "ops" (reader_of with_caller) caller none (some main_gateway)
unfolding get_agent_runtime_configuration resolve_sub_agent_url resolve_tool_url resolve_ai_gateway
    resolve_tool_server_url get_namespace_with_default resolve_default_ai_gateway
caller-IsResolvable = record {
  config_found = refl;
  sub_agents_resolve = (("http://helper", refl), tt);
  tools_resolve = (("http://files", refl), tt);
  gateway_found = refl;
  typed = (λ e. cc, tt);
}

reconcile_succeeds_example :
    (s' : Memory) × (reconcile memory_server platform "ops" (team "caller") with_caller
      ≡ (ok tt, s'))
    × ((stored : Agent) × ((reader_of s').get_agent (team "caller") ≡ ok stored)
        × IsReadyStatus caller (some main_gateway) stored.status)
reconcile_succeeds_example =
    reconcile_succeeds memory_server memory_server-IsApiServer memory_server-IsHealthy platform
      platform-NeverFails "ops" (team "caller") caller with_caller none (some main_gateway) refl
      caller-IsResolvable

tool_server_succeeds_example :
    (s' : Memory) × (ToolServers.reconcile memory_server platform (team "files") with_caller
      ≡ (ok tt, s'))
    × ((stored : ToolServer) × ((reader_of s').get_tool_server (team "files") ≡ ok stored)
        × (IsUrlOf with_caller.tool_server stored.status.url
            × Shows stored.status (tool_server_ready with_caller.tool_server)))
tool_server_succeeds_example =
    tool_server_succeeds memory_server memory_server-IsApiServer memory_server-IsHealthy platform
      platform-NeverFails (team "files") with_caller.tool_server with_caller refl
