-- ===== src/Controller/ToolServers/Reconcile.antt =====
-- `Reconcile`, `reconcileToolServer` and the status of internal/controller/toolserver_reconciler.go
use agent_runtime_operator.Base.{String, ◌<>◌, ◌||◌, ◌==◌, if◌then◌else◌, decimal}
use agent_runtime_operator.Api.Meta.{NamespacedName, Condition, condition_true, condition_false}
use agent_runtime_operator.Api.ToolServer.{ToolServer}
use agent_runtime_operator.Cluster.{Outcome, Error, Result, ok, err, is_not_found}
use agent_runtime_operator.Controller.Util.{condition_type_ready}
use agent_runtime_operator.Controller.Workload.{new_deployment, new_service}
use agent_runtime_operator.Controller.AgentDeployment.{Platform}
use agent_runtime_operator.Controller.Server.{Call, ApiServer, write_status}
use agent_runtime_operator.Controller.ToolServers.{
  mutate_tool_server_deployment, mutate_tool_server_service,
}

-- the URL of the status: one for the transports over HTTP
unfoldable pub tool_server_url : ToolServer → String
tool_server_url t =
    if t.spec.transport_type == "http" || t.spec.transport_type == "sse"
    then "http://"
      <> (t.name
          <> ("."
              <> (t.namespace <> (".svc.cluster.local:" <> (decimal t.spec.port <> t.spec.path)))))
    else ""

abbrev pub tool_server_ready : ToolServer → Condition
tool_server_ready t = record {
  type = condition_type_ready;
  status = condition_true;
  observed_generation = t.metadata.generation;
  reason = "Reconciled";
  message = "ToolServer is ready";
}

abbrev pub tool_server_not_ready : ToolServer → String → String → Condition
tool_server_not_ready t reason message = record {
  type = condition_type_ready;
  status = condition_false;
  observed_generation = t.metadata.generation;
  reason = reason;
  message = message;
}

module _ (api : ApiServer) where
  unfoldable pub set_tool_server_ready : ToolServer → ToolServer
  unfolding tool_server_url
  set_tool_server_ready t = record t {
    status = record {
      conditions = api.set_status_condition t.status.conditions (tool_server_ready t);
      url = tool_server_url t;
    };
  }

  -- The URL stays.
  unfoldable pub set_tool_server_not_ready : String → String → ToolServer → ToolServer
  set_tool_server_not_ready reason message t = record t {
    status = record t.status {
      conditions =
          api.set_status_condition t.status.conditions (tool_server_not_ready t reason message);
    };
  }

  abbrev pub written_tool_server : ToolServer → api.State → Outcome × (ToolServer × api.State)
  written_tool_server =
      write_status "failed to update toolserver status: " api.update_tool_server_status

  unfoldable pub update_tool_server_status_ready : Call (ToolServer × api.State)
  unfolding set_tool_server_ready
  update_tool_server_status_ready (t, s) = written_tool_server (set_tool_server_ready t) s

  unfoldable pub update_tool_server_status_not_ready :
      String → String → Call (ToolServer × api.State)
  unfolding set_tool_server_not_ready
  update_tool_server_status_not_ready reason message (t, s) =
      written_tool_server (set_tool_server_not_ready reason message t) s

  module _ (p : Platform) where
    unfoldable pub ensure_tool_server_deployment : ToolServer → Call api.State
    unfolding mutate_tool_server_deployment
    ensure_tool_server_deployment t =
        api.create_or_update_deployment (new_deployment t.name t.namespace)
          (mutate_tool_server_deployment p t)

    unfoldable pub ensure_tool_server_service : ToolServer → Call api.State
    unfolding mutate_tool_server_service
    ensure_tool_server_service t =
        api.create_or_update_service (new_service t.name t.namespace)
          (mutate_tool_server_service p t)

    abbrev pub then_tool_server_service : ToolServer → Outcome × api.State → Outcome × api.State
    then_tool_server_service t (err e, s) = (err e, s)
    then_tool_server_service t (ok u, s) = ensure_tool_server_service t s

    -- There is no retry around the two calls.
    unfoldable pub reconcile_tool_server : ToolServer → Call api.State
    unfolding ensure_tool_server_deployment ensure_tool_server_service
    reconcile_tool_server t s = then_tool_server_service t (ensure_tool_server_deployment t s)

    abbrev pub tool_server_failed :
        ToolServer → Error → api.State → Outcome × (ToolServer × api.State)
    tool_server_failed t e s =
        api.retry_on_conflict (ToolServer × api.State)
          (update_tool_server_status_not_ready "ReconciliationFailed" e.message) (t, s)

    abbrev pub tool_server_succeeded : ToolServer → api.State → Outcome × (ToolServer × api.State)
    tool_server_succeeded t s =
        api.retry_on_conflict (ToolServer × api.State) update_tool_server_status_ready (t, s)

    abbrev pub record_tool_server_status : ToolServer → Outcome × api.State → Outcome × api.State
    record_tool_server_status t (err e, s) = (err e, (tool_server_failed t e s).1.1)
    record_tool_server_status t (ok u, s) =
        let (result, (_, s')) = tool_server_succeeded t s in (result, s')

    abbrev pub reconcile_found_tool_server : Result ToolServer → Call api.State
    reconcile_found_tool_server (err e) s = (if is_not_found e then ok tt else err e, s)
    reconcile_found_tool_server (ok t) s = record_tool_server_status t (reconcile_tool_server t s)

    unfoldable pub reconcile : NamespacedName → Call api.State
    unfolding reconcile_tool_server
    reconcile key s = reconcile_found_tool_server ((api.reader s).get_tool_server key) s
