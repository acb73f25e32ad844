-- ===== src/Tests/Running.antt =====
-- The theorems on the running operator, on the API server of `Memory`.
use agent_runtime_operator.Base.{
  String, ◌≡◌, refl, sym, ap, ◌∙◌, ◌⊎◌, inl, inr, none, some, Bool-cases, arith, decimal,
}
use agent_runtime_operator.Api.Meta.{ObjectReference, NamespacedName, key_of, same_key}
use agent_runtime_operator.Api.Keys.{same_key-eq}
use agent_runtime_operator.Api.Agent.{Agent}
use agent_runtime_operator.Api.ToolServer.{ToolServer}
use agent_runtime_operator.Api.Workforce.{AgenticWorkforce}
use agent_runtime_operator.Cluster.{Result, ok, err}
use agent_runtime_operator.Controller.Util.{get_namespace_with_default}
use agent_runtime_operator.Controller.Protocols.{build_a2a_agent_rpc_url, build_a2a_agent_card_url}
use agent_runtime_operator.Controller.SubAgents.{agent_key, resolve_sub_agent_url}
use agent_runtime_operator.Controller.AiGateways.{resolve_default_ai_gateway}
use agent_runtime_operator.Controller.Workload.{Deployment, Service}
use agent_runtime_operator.Controller.Server.Frame.{blank_status, KeepsStatuses, KeepsAgents}
use agent_runtime_operator.Controller.Status.{update_agent_status_ready}
use agent_runtime_operator.Controller.Reconcile
use agent_runtime_operator.Controller.System.{Reach, agent_reconciled, start, later}
use agent_runtime_operator.Controller.System.Kept.{IsReady, IsCoherent}
use agent_runtime_operator.Controller.System.Coherent.{
  Reach-AreCoherent, resolve_sub_agent_url-IsReady,
}
use agent_runtime_operator.Tests.Samples.{crew, helper, server_of, platform, sub_agent_of, team}
use agent_runtime_operator.Tests.Memory.{
  Memory, reader_of, under, under-key, created_or_updated, attempted, memory_server,
  memory_server-IsApiServer,
}

same_agent : (s s' : Memory) → s'.agent ≡ s.agent → KeepsStatuses memory_server s s'
same_agent s s' same k a got =
    inr (a, ap (λ (x : Agent). under k x.metadata x) (sym same) ∙ got, refl)

pub attempted-same : (r : Result Deployment) (s : Memory) → (attempted r s).1.agent ≡ s.agent
attempted-same (ok d) s = refl
attempted-same (err e) s = refl

pub created_or_updated-same :
    (r : Result Service) (s : Memory) → (created_or_updated r s).1.agent ≡ s.agent
created_or_updated-same (ok svc) s = refl
created_or_updated-same (err e) s = refl

tool_server-same :
    (t : ToolServer) (s : Memory) → (memory_server.update_tool_server_status t s).1.agent ≡ s.agent
tool_server-same t s = ground arith

workforce-same :
    (w : AgenticWorkforce) (s : Memory)
    → (memory_server.update_workforce_status w s).1.agent ≡ s.agent
workforce-same w s = ground arith

agent_written :
    (a : Agent) (s : Memory) (k : NamespacedName) (b : Agent)
    → (reader_of (memory_server.update_agent_status a s).1).get_agent k ≡ ok b
    → ((b.status ≡ blank_status)
        ⊎ ((c : Agent) × ((reader_of s).get_agent k ≡ ok c) × (b.status ≡ c.status)))
      ⊎ ((key_of a.metadata ≡ k) × (b.status ≡ a.status))
agent_written a s k b got =
    elim (Bool-cases (same_key (key_of a.metadata) (key_of s.agent.metadata))) [
      | inr other ↦ inl (inr (b, rw other at got, refl))
      | inl same ↦
          let stored = record s.agent { status = a.status } in
          let (is_stored, key) = under-key k s.agent.metadata stored b (rw same at got) in
          inr (
            same_key-eq (key_of a.metadata) (key_of s.agent.metadata) same ∙ key,
            ap (λ x. x.status) (sym is_stored),
          )
    ]

memory_server-KeepsAgents : KeepsAgents memory_server
memory_server-KeepsAgents = record {
  service_deleted = λ svc s. same_agent s (record s { service = none }) refl;
  deployment_written = λ d f s. same_agent s (attempted (f d) s).1 (attempted-same (f d) s);
  service_written =
      λ svc f s. same_agent s (created_or_updated (f svc) s).1 (created_or_updated-same (f svc) s);
  tool_server_status_written =
      λ t s. same_agent s (memory_server.update_tool_server_status t s).1 (tool_server-same t s);
  workforce_status_written =
      λ w s. same_agent s (memory_server.update_workforce_status w s).1 (workforce-same w s);
  agent_status_written = agent_written;
}

abbrev installed : Memory
installed = record {
  agent = record helper { status = blank_status };
  tool_server = server_of "files" "";
  workforce = crew;
  service = none;
}

installed-blank :
    (k : NamespacedName) (a : Agent)
    → (reader_of installed).get_agent k ≡ ok a
    → a.status ≡ blank_status
installed-blank k a got =
    let (same, _) = under-key k installed.agent.metadata installed.agent a got in
    ap (λ x. x.status) (sym same)

abbrev running : Memory
running = (Reconcile.reconcile memory_server platform "ops" (team "helper") installed).1

running-Reach : Reach memory_server "ops" running
running-Reach = later (start installed-blank) (agent_reconciled platform (team "helper"))

abbrev helper_ready : Agent
helper_ready = running.agent

abbrev helper_url : String
helper_url = "http://helper.team.svc.cluster.local:8000/.well-known/agent-card.json"

Reach-AreCoherent_example : IsCoherent running.agent.status
unfolding Reconcile.reconcile resolve_default_ai_gateway update_agent_status_ready
Reach-AreCoherent_example =
    Reach-AreCoherent memory_server memory_server-IsApiServer memory_server-KeepsAgents "ops"
      running running-Reach (team "helper") helper_ready refl

resolve_sub_agent_url-IsReady_example :
    (ref : ObjectReference) × (a : Agent) × ((sub_agent_of "helper").agent_ref ≡ some ref)
    × ((reader_of running).get_agent (agent_key ref "team") ≡ ok a)
    × (a.status.url ≡ helper_url)
    × IsReady a.status
unfolding Reconcile.reconcile resolve_default_ai_gateway update_agent_status_ready
    resolve_sub_agent_url get_namespace_with_default build_a2a_agent_card_url
    build_a2a_agent_rpc_url decimal
resolve_sub_agent_url-IsReady_example =
    resolve_sub_agent_url-IsReady memory_server memory_server-IsApiServer memory_server-KeepsAgents
      "ops" running running-Reach (sub_agent_of "helper") "team" helper_url refl refl
