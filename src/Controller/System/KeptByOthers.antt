-- ===== src/Controller/System/KeptByOthers.antt =====
-- What the reconciliations of tool servers and workforces keep.
use mathlib.Core.Path.{subst}
use agent_runtime_operator.Base.{
  some-injective, ℕ, String, Bool, ◌≡◌, Option, none, some, List, Map,
}
use agent_runtime_operator.Api.Meta.{NamespacedName}
use agent_runtime_operator.Api.Workforce.{TransitiveAgent, AgenticWorkforce}
use agent_runtime_operator.Api.ToolServer.{ToolServer}
use agent_runtime_operator.Cluster.{Outcome, Result, ok, err}
use agent_runtime_operator.Controller.AgentDeployment.{Platform}
use agent_runtime_operator.Controller.Server.{ApiServer}
use agent_runtime_operator.Controller.Server.Laws.{IsApiServer}
use agent_runtime_operator.Controller.Server.Frame.{KeepsAgents}
use agent_runtime_operator.Controller.ToolServers.Reconcile as ToolServers
use agent_runtime_operator.Controller.ToolServers.Reconcile.{
  ensure_tool_server_deployment, ensure_tool_server_service, reconcile_tool_server,
  then_tool_server_service, record_tool_server_status, reconcile_found_tool_server,
  update_tool_server_status_ready, update_tool_server_status_not_ready, set_tool_server_ready,
  set_tool_server_not_ready,
}
use agent_runtime_operator.Controller.Workforce.Reconcile as Workforce
use agent_runtime_operator.Controller.Workforce.Reconcile.{
  reconcile_found_workforce, write_workforce, validate_entry_point_agents, set_workforce_status,
}
use agent_runtime_operator.Controller.Workforce.Traverse.{collect_transitive_agents_and_tools}
use agent_runtime_operator.Controller.System.Kept.{AreCoherent, statuses_kept, retried}

module _ (api : ApiServer) (laws : IsApiServer api) (keeps : KeepsAgents api) where
  module _ (p : Platform) where
    then_tool_server_service-AreCoherent :
        (t : ToolServer) (out : Outcome × api.State)
        → AreCoherent api out.1
        → AreCoherent api (then_tool_server_service api p t out).1
    unfolding ensure_tool_server_service
    then_tool_server_service-AreCoherent t (err e, s) = λ coherent. coherent
    then_tool_server_service-AreCoherent t (ok u, s) =
        statuses_kept api laws keeps s _ (keeps.service_written _ _ s)

    record_tool_server_status-AreCoherent :
        (t : ToolServer) (out : Outcome × api.State)
        → AreCoherent api out.1
        → AreCoherent api (record_tool_server_status api p t out).1
    unfolding update_tool_server_status_ready update_tool_server_status_not_ready
    record_tool_server_status-AreCoherent t (err e, s) coherent =
        retried api laws keeps (λ x. x.1)
          (update_tool_server_status_not_ready api "ReconciliationFailed" e.message)
          (λ (a, u). statuses_kept api laws keeps u _ (keeps.tool_server_status_written _ u)) (t, s)
          coherent
    record_tool_server_status-AreCoherent t (ok tt, s) coherent =
        retried api laws keeps (λ x. x.1) (update_tool_server_status_ready api)
          (λ (a, u). statuses_kept api laws keeps u _ (keeps.tool_server_status_written _ u)) (t, s)
          coherent

    reconcile_found_tool_server-AreCoherent :
        (r : Result ToolServer) (s : api.State)
        → AreCoherent api s
        → AreCoherent api (reconcile_found_tool_server api p r s).1
    unfolding reconcile_tool_server ensure_tool_server_deployment
    reconcile_found_tool_server-AreCoherent (err e) s coherent = coherent
    reconcile_found_tool_server-AreCoherent (ok t) s coherent =
        record_tool_server_status-AreCoherent t _ (
          then_tool_server_service-AreCoherent t _
            (statuses_kept api laws keeps s _ (keeps.deployment_written _ _ s) coherent))

    pub tool_server-AreCoherent :
        (key : NamespacedName) (s : api.State)
        → AreCoherent api s
        → AreCoherent api (ToolServers.reconcile api p key s).1
    unfolding ToolServers.reconcile
    tool_server-AreCoherent key s =
        reconcile_found_tool_server-AreCoherent ((api.reader s).get_tool_server key) s

  module _ (agents_order : Map TransitiveAgent → List TransitiveAgent)
      (tools_order : Map Bool → List String) (fuel : ℕ) where
    write_workforce-AreCoherent :
        (w : AgenticWorkforce) (found : Option (List TransitiveAgent × List String)) (s : api.State)
        (out : Outcome × api.State)
        → write_workforce api agents_order tools_order fuel w found s ≡ some out
        → AreCoherent api s
        → AreCoherent api out.1
    unfolding validate_entry_point_agents set_workforce_status
    write_workforce-AreCoherent w none s out h coherent = cc
    write_workforce-AreCoherent w (some (agents, tools)) s out h coherent =
        subst (λ x. AreCoherent api x.1) (some-injective h)
          (statuses_kept api laws keeps s _ (keeps.workforce_status_written _ s) coherent)

    reconcile_found_workforce-AreCoherent :
        (r : Result AgenticWorkforce) (s : api.State) (out : Outcome × api.State)
        → reconcile_found_workforce api agents_order tools_order fuel r s ≡ some out
        → AreCoherent api s
        → AreCoherent api out.1
    unfolding collect_transitive_agents_and_tools
    reconcile_found_workforce-AreCoherent (err e) s out h coherent =
        subst (λ x. AreCoherent api x.1) (some-injective h) coherent
    reconcile_found_workforce-AreCoherent (ok w) s out h coherent =
        write_workforce-AreCoherent w
          (collect_transitive_agents_and_tools (api.reader s) agents_order tools_order fuel w) s out
          h coherent

    pub workforce-AreCoherent :
        (key : NamespacedName) (s : api.State) (out : Outcome × api.State)
        → Workforce.reconcile api agents_order tools_order fuel key s ≡ some out
        → AreCoherent api s
        → AreCoherent api out.1
    unfolding Workforce.reconcile
    workforce-AreCoherent key s = reconcile_found_workforce-AreCoherent (api.get_workforce key s) s
