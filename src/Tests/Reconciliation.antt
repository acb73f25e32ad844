-- ===== src/Tests/Reconciliation.antt =====
-- The theorems on the reconciliation of an agent, on the API server of `Memory`.
use agent_runtime_operator.Base.{◌≡◌, refl, Option, none, decimal, join}
use agent_runtime_operator.Api.Agent.{Agent}
use agent_runtime_operator.Api.Gateways.{AiGateway}
use agent_runtime_operator.Cluster.{other, Error, ok, err}
use agent_runtime_operator.Controller.Util.{get_namespace_with_default}
use agent_runtime_operator.Controller.SubAgents.{resolve_sub_agent_url}
use agent_runtime_operator.Controller.AiGateways.{resolve_default_ai_gateway}
use agent_runtime_operator.Controller.Status.{
  update_agent_status_ready, update_agent_status_not_ready,
}
use agent_runtime_operator.Controller.Status.Written.{IsReadyStatus, IsNotReadyStatus}
use agent_runtime_operator.Controller.Reconcile.{reconcile_agent, not_ready, reconcile}
use agent_runtime_operator.Controller.Reconcile.Outcomes.{reconcile-ready, reconcile-not_ready}
use agent_runtime_operator.Tests.Samples.{crew, planner, helper, server_of, platform, team}
use agent_runtime_operator.Tests.Memory.{
  Memory, reader_of, memory_server, memory_server-IsApiServer,
}

abbrev pub with_helper : Memory
with_helper = record {
  agent = helper;
  tool_server = server_of "files" "";
  workforce = crew;
  service = none;
}

abbrev pub helper_stored : Memory
helper_stored = (reconcile memory_server platform "ops" (team "helper") with_helper).1

reconcile-ready_example :
    (gateway : Option AiGateway) × (t : Memory) × (reconcile_agent memory_server platform "ops"
        helper with_helper
      ≡ (ok gateway, t))
    × ((stored : Agent) × ((reader_of helper_stored).get_agent (team "helper") ≡ ok stored)
        × IsReadyStatus helper gateway stored.status)
unfolding reconcile resolve_default_ai_gateway update_agent_status_ready
reconcile-ready_example =
    reconcile-ready memory_server memory_server-IsApiServer platform "ops" (team "helper") helper
      with_helper helper_stored refl refl

abbrev pub with_planner : Memory
with_planner = record {
  agent = planner;
  tool_server = server_of "files" "";
  workforce = crew;
  service = none;
}

abbrev pub missing_helper : Error
missing_helper = record {
  kind = other;
  message =
      "failed to resolve 1 subAgent(s): subAgent \"helper\": failed to resolve cluster agent team/helper: not found";
}

abbrev pub planner_failed : Agent × Memory
planner_failed = (not_ready memory_server platform "ops" planner missing_helper with_planner).1

reconcile-not_ready_example :
    (reconcile memory_server platform "ops" (team "planner") with_planner
      ≡ (err missing_helper, planner_failed.1))
    × ((stored : Agent) × ((reader_of planner_failed.1).get_agent (team "planner") ≡ ok stored)
        × IsNotReadyStatus planner missing_helper.message stored.status)
unfolding reconcile_agent resolve_sub_agent_url get_namespace_with_default decimal join
    update_agent_status_not_ready
reconcile-not_ready_example =
    reconcile-not_ready memory_server memory_server-IsApiServer platform "ops" (team "planner")
      planner planner_failed.0 missing_helper with_planner with_planner planner_failed.1 refl refl
      refl
