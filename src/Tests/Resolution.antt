-- ===== src/Tests/Resolution.antt =====
-- The theorems on what refers to a reconciled object, on the API server of `Memory`.
use agent_runtime_operator.Base.{◌≡◌, refl, ◌⊎◌, none, some, decimal, join}
use agent_runtime_operator.Api.Agent.{AgentProtocol}
use agent_runtime_operator.Cluster.{Error, ok, err}
use agent_runtime_operator.Controller.Util.{get_namespace_with_default}
use agent_runtime_operator.Controller.Protocols.{find_a2a_protocol, build_a2a_agent_card_url}
use agent_runtime_operator.Controller.SubAgents.{resolve_sub_agent_url}
use agent_runtime_operator.Controller.Tools.{resolve_tool_url}
use agent_runtime_operator.Controller.AiGateways.{resolve_default_ai_gateway}
use agent_runtime_operator.Controller.Status.{
  update_agent_status_ready, update_agent_status_not_ready,
}
use agent_runtime_operator.Controller.Reconcile
use agent_runtime_operator.Controller.Reconcile.{reconcile_agent}
use agent_runtime_operator.Controller.Reconcile.Resolves.{
  RefersTo, reconcile-resolves, reconcile-unresolved,
}
use agent_runtime_operator.Controller.ToolServers.Reconcile as ToolServers
use agent_runtime_operator.Controller.ToolServers.Reconcile.{
  tool_server_url, update_tool_server_status_ready,
}
use agent_runtime_operator.Controller.ToolServers.Outcomes.{server_address}
use agent_runtime_operator.Controller.ToolServers.Resolves.{UsesServer, reconcile-tool_resolves}
use agent_runtime_operator.Tests.Samples.{
  helper, planner, platform, reference, server_tool, sub_agent_of, team,
}
use agent_runtime_operator.Tests.Memory.{reader_of, memory_server, memory_server-IsApiServer}
use agent_runtime_operator.Tests.Reconciliation.{
  with_helper, helper_stored, with_planner, missing_helper, planner_failed,
}
use agent_runtime_operator.Tests.Updates.{files, with_files, files_stored}

helper-RefersTo : RefersTo (team "helper") "team" (sub_agent_of "helper")
unfolding get_namespace_with_default
helper-RefersTo = record {
  ref = reference "helper";
  is_reference = refl;
  no_url = refl;
  is_key = refl;
}

planner-RefersTo : RefersTo (team "planner") "team" (sub_agent_of "planner")
unfolding get_namespace_with_default
planner-RefersTo = record {
  ref = reference "planner";
  is_reference = refl;
  no_url = refl;
  is_key = refl;
}

files-UsesServer : UsesServer (team "files") "team" (server_tool "files")
unfolding get_namespace_with_default
files-UsesServer = record {
  ref = reference "files";
  no_route = refl;
  is_reference = refl;
  is_named = refl;
  is_key = refl;
}

reconcile-resolves_example :
    ((q : AgentProtocol) × (find_a2a_protocol helper ≡ some q)
      × (resolve_sub_agent_url (reader_of helper_stored) (sub_agent_of "helper") "team"
          ≡ ok (build_a2a_agent_card_url helper)))
    ⊎ ((find_a2a_protocol helper ≡ none)
        × ((e : Error) × (resolve_sub_agent_url
                (reader_of helper_stored)
                (sub_agent_of "helper")
                "team"
              ≡ err e)))
unfolding Reconcile.reconcile resolve_default_ai_gateway update_agent_status_ready
reconcile-resolves_example =
    reconcile-resolves memory_server memory_server-IsApiServer platform "ops" (team "helper") helper
      with_helper helper_stored refl refl (sub_agent_of "helper") "team" helper-RefersTo

reconcile-unresolved_example :
    (e : Error) × (resolve_sub_agent_url
        (reader_of planner_failed.1)
        (sub_agent_of "planner")
        "team"
      ≡ err e)
unfolding reconcile_agent resolve_sub_agent_url get_namespace_with_default decimal join
    update_agent_status_not_ready
reconcile-unresolved_example =
    reconcile-unresolved memory_server memory_server-IsApiServer platform "ops" (team "planner")
      planner planner_failed.0 missing_helper with_planner with_planner planner_failed.1 refl refl
      refl (sub_agent_of "planner") "team" planner-RefersTo

reconcile-tool_resolves_example :
    resolve_tool_url (reader_of files_stored) (server_tool "files") "team"
    ≡ ok (server_address files)
unfolding ToolServers.reconcile update_tool_server_status_ready
reconcile-tool_resolves_example =
    reconcile-tool_resolves memory_server memory_server-IsApiServer platform (team "files") files
      with_files files_stored refl refl refl (server_tool "files") "team" files-UsesServer
