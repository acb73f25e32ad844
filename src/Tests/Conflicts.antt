-- ===== src/Tests/Conflicts.antt =====
-- The theorem on an agent that is changed during its reconciliation, on the server of `Memory` with
-- versions, where a user changes the agent while its Deployment is written.
use agent_runtime_operator.Base.{
  Bool, ◌≡◌, refl, sym, ap, ◌∙◌, true, ◌&&◌, some, ◌==◌, arith, inl, inr, Bool-cases, eq_iff,
  if◌then◌else◌,
}
use agent_runtime_operator.Api.Meta.{key_of, same_key}
use agent_runtime_operator.Api.Agent.{Agent}
use agent_runtime_operator.Cluster.{conflict, Error, ok, err, is_conflict}
use agent_runtime_operator.Controller.AiGateways.{
  default_ai_gateway_namespace, resolve_default_ai_gateway,
}
use agent_runtime_operator.Controller.Server.{ApiServer}
use agent_runtime_operator.Controller.Server.Laws.{IsApiServer}
use agent_runtime_operator.Controller.Server.Versions.{IsStale, ChecksVersions}
use agent_runtime_operator.Controller.Reconcile.{reconcile_agent, reconcile}
use agent_runtime_operator.Controller.Reconcile.Stale.{reconcile-IsStale}
use agent_runtime_operator.Tests.Samples.{helper, gateway_of, platform, team}
use agent_runtime_operator.Tests.Memory.{
  Memory, reader_of, under-key, memory_server, memory_server-IsApiServer,
}
use agent_runtime_operator.Tests.Reconciliation.{with_helper}

abbrev changed : Error
changed = record { kind = conflict; message = "the object has been modified" }

abbrev edited : Agent → Agent
edited a = record a { metadata = record a.metadata { resource_version = "2" } }

abbrev is_current : Agent → Memory → Bool
is_current a s =
    same_key (key_of a.metadata) (key_of s.agent.metadata)
    && a.metadata.resource_version == s.agent.metadata.resource_version

abbrev edited_server : ApiServer
edited_server = record memory_server {
  create_or_update_deployment = λ d f s. (ok tt, record s { agent = edited s.agent });
  update_agent_status = λ a s.
      if is_current a s
      then (ok tt, record s { agent = record s.agent { status = a.status } })
      else (err changed, s);
}

written :
    (a : Agent) (s s' : Memory)
    → edited_server.update_agent_status a s ≡ (ok tt, s')
    → (stored : Agent) × ((reader_of s').get_agent (key_of a.metadata) ≡ ok stored)
      × (stored.status ≡ a.status)
written a s s' h = elim (Bool-cases (is_current a s)) [
  | inr other ↦ absurd (cc (ap (λ x. x.0) (rw other at h)))
  | inl current ↦
      let same : same_key (key_of a.metadata) (key_of s.agent.metadata) ≡ true =
        ground (arith, current) in
      let stored = record s.agent { status = a.status } in
      let after : record s { agent = stored } ≡ s' = ap (λ x. x.1) (rw current at h) in
      (stored, rw (← after) (rw same refl), refl)
]

edited_server-IsApiServer : IsApiServer edited_server
edited_server-IsApiServer = record {
  retries = memory_server-IsApiServer.retries;
  set_condition = memory_server-IsApiServer.set_condition;
  agent_key = memory_server-IsApiServer.agent_key;
  agent_status_written = written;
  tool_server_key = memory_server-IsApiServer.tool_server_key;
  tool_server_status_written = memory_server-IsApiServer.tool_server_status_written;
  workforce_key = memory_server-IsApiServer.workforce_key;
  workforce_status_written = memory_server-IsApiServer.workforce_status_written;
}

refused :
    (a : Agent) (s : Memory)
    → IsStale edited_server a s
    → (e : Error) × (edited_server.update_agent_status a s ≡ (err e, s)) × (is_conflict e ≡ true)
refused a s (stored, got, differs) = elim (Bool-cases (is_current a s)) [
  | inr other ↦ (changed, rw other refl, refl)
  | inl current ↦
      let (same, _) = under-key (key_of a.metadata) s.agent.metadata s.agent stored got in
      let version : (a.metadata.resource_version == s.agent.metadata.resource_version) ≡ true =
        ground (arith, current) in
      let equal =
        (eq_iff a.metadata.resource_version s.agent.metadata.resource_version).0 version in
      absurd (differs (ap (λ (x : Agent). x.metadata.resource_version) (sym same) ∙ sym equal))
]

edited_server-ChecksVersions : ChecksVersions edited_server
edited_server-ChecksVersions = record { stale_refused = refused }

abbrev helper_edited : Memory
helper_edited = (reconcile_agent edited_server platform "ops" helper with_helper).1

helper-IsStale : IsStale edited_server helper helper_edited
unfolding reconcile_agent resolve_default_ai_gateway
helper-IsStale = (edited helper, refl, λ e. cc)

reconcile-IsStale_example :
    (e : Error) × (reconcile edited_server platform "ops" (team "helper") with_helper
      ≡ (err e, helper_edited))
unfolding reconcile_agent resolve_default_ai_gateway
reconcile-IsStale_example =
    reconcile-IsStale edited_server edited_server-IsApiServer edited_server-ChecksVersions platform
      "ops" (team "helper") helper (some (gateway_of "main" default_ai_gateway_namespace))
      with_helper helper_edited refl refl helper-IsStale
