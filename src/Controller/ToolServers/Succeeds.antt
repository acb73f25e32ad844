-- ===== src/Controller/ToolServers/Succeeds.antt =====
-- When the reconciliation of a tool server succeeds.
use mathlib.Core.Path.{subst}
use agent_runtime_operator.Base.{◌≡◌, sym, ap, ◌∙◌}
use agent_runtime_operator.Api.Meta.{NamespacedName}
use agent_runtime_operator.Api.ToolServer.{ToolServer}
use agent_runtime_operator.Cluster.{Outcome, ok, ◌>>=◌}
use agent_runtime_operator.Controller.Workload.{new_deployment, new_service}
use agent_runtime_operator.Controller.AgentDeployment.{Platform}
use agent_runtime_operator.Controller.AgentDeployment.Total.{NeverFails}
use agent_runtime_operator.Controller.Server.{ApiServer, wrapped}
use agent_runtime_operator.Controller.Server.Laws.{IsApiServer}
use agent_runtime_operator.Controller.Server.Healthy.{
  ToolServerThere, IsTotal, IsHealthy, retry-once,
}
use agent_runtime_operator.Controller.ToolServers.{
  update_tool_server_deployment, mutate_tool_server_deployment, update_tool_server_service,
  mutate_tool_server_service,
}
use agent_runtime_operator.Controller.ToolServers.Reconcile.{
  tool_server_ready, set_tool_server_ready, update_tool_server_status_ready,
  ensure_tool_server_deployment, ensure_tool_server_service, then_tool_server_service,
  reconcile_tool_server, record_tool_server_status, reconcile_found_tool_server, reconcile,
}
use agent_runtime_operator.Controller.ToolServers.Outcomes.{Shows, IsUrlOf, tool_server-ready}

module _ (api : ApiServer) (laws : IsApiServer api) (healthy : IsHealthy api) (p : Platform)
    (never : NeverFails p) where
  mutate_tool_server_deployment-IsTotal :
      (t : ToolServer) → IsTotal (mutate_tool_server_deployment p t)
  unfolding mutate_tool_server_deployment
  mutate_tool_server_deployment-IsTotal t d =
      let updated = update_tool_server_deployment p t d in
      let (meta, e) = never.owner t.metadata updated.metadata in
      (
        record updated { metadata = meta },
        ap (λ r. r >>= λ m. ok (record updated { metadata = m })) e,
      )

  mutate_tool_server_service-IsTotal : (t : ToolServer) → IsTotal (mutate_tool_server_service p t)
  unfolding mutate_tool_server_service
  mutate_tool_server_service-IsTotal t s =
      let updated = update_tool_server_service p t s in
      let (meta, e) = never.owner t.metadata updated.metadata in
      (
        record updated { metadata = meta },
        ap (λ r. r >>= λ m. ok (record updated { metadata = m })) e,
      )

  reconcile_tool_server-ok :
      (key : NamespacedName) (t : ToolServer) (s : api.State)
      → ToolServerThere api key s
      → (s' : api.State) × (reconcile_tool_server api p t s ≡ (ok tt, s'))
        × ToolServerThere api key s'
  unfolding reconcile_tool_server ensure_tool_server_deployment ensure_tool_server_service
  reconcile_tool_server-ok key t s there =
      let d = new_deployment t.name t.namespace in
      let f = mutate_tool_server_deployment p t in
      let svc = new_service t.name t.namespace in
      let g = mutate_tool_server_service p t in
      let u = (api.create_or_update_deployment d f s).1 in
      let deployed = healthy.deployment_written d f s (mutate_tool_server_deployment-IsTotal t) in
      let served = healthy.service_written svc g u (mutate_tool_server_service-IsTotal t) in
      let s' = (api.create_or_update_service svc g u).1 in
      (
        s',
        ap (λ (o : Outcome). then_tool_server_service api p t (o, u)) deployed
            ∙ ap (λ (o : Outcome). (o, s')) served,
        healthy.service_keeps_servers svc g u key
            (healthy.deployment_keeps_servers d f s key there),
      )

  -- If a tool server is there and no call of the server or of SetControllerReference fails, then its
  -- reconciliation reports no error, and the tool server is stored with a true Ready condition of its
  -- generation, and with a URL: for the transports http and sse the port and the path at the name of
  -- its Service, and the empty one for any other transport.
  pub tool_server_succeeds :
      (key : NamespacedName) (t : ToolServer) (s : api.State)
      → (api.reader s).get_tool_server key ≡ ok t
      → (s' : api.State) × (reconcile api p key s ≡ (ok tt, s'))
        × ((stored : ToolServer) × ((api.reader s').get_tool_server key ≡ ok stored)
            × (IsUrlOf t stored.status.url × Shows stored.status (tool_server_ready t)))
  unfolding reconcile update_tool_server_status_ready set_tool_server_ready
  tool_server_succeeds key t s found =
      let (u, reconciled, there) = reconcile_tool_server-ok key t s (t, found) in
      let update = update_tool_server_status_ready api in
      let written =
        healthy.tool_server_status_written (set_tool_server_ready api t) u
          (subst (λ k. ToolServerThere api k u) (sym (laws.tool_server_key key s t found)) there) in
      let succeeded =
        retry-once api laws update (t, u)
          (ap (wrapped "failed to update toolserver status: ") written) in
      let s' = (update (t, u)).1.1 in
      let h : reconcile api p key s ≡ (ok tt, s') =
        ap (λ x. reconcile_found_tool_server api p x s) found
        ∙ ap (record_tool_server_status api p t) reconciled
        ∙ ap (λ (x : Outcome × (ToolServer × api.State)). (x.0, x.1.1)) succeeded in
      (s', h, tool_server-ready api laws p key t s s' found h)
