-- ===== src/Controller/Reconcile/Succeeds.antt =====
-- When the reconciliation of an agent succeeds.
use mathlib.Core.Path.{subst}
use agent_runtime_operator.Base.{
  String, ◌≡◌, refl, sym, ap, ◌∙◌, true, false, Option, is_nil, if◌then◌else◌,
}
use agent_runtime_operator.Api.Meta.{NamespacedName, key_of}
use agent_runtime_operator.Api.Agent.{Agent}
use agent_runtime_operator.Api.Gateways.{AiGateway, AgentRuntimeConfiguration}
use agent_runtime_operator.Cluster.{Error, Outcome, Result, ok, err, is_not_found, ok-injective}
use agent_runtime_operator.Controller.Template.Laws.{HasInteractionTypes}
use agent_runtime_operator.Controller.Workload.{Service, new_service, new_deployment}
use agent_runtime_operator.Controller.AgentDeployment.{
  Platform, Resolved, mutate_service, mutate_deployment,
}
use agent_runtime_operator.Controller.AgentDeployment.Total.{
  NeverFails, mutate_deployment-IsTotal, mutate_service-IsTotal,
}
use agent_runtime_operator.Controller.Server.{ApiServer, wrapped}
use agent_runtime_operator.Controller.Server.Laws.{IsApiServer}
use agent_runtime_operator.Controller.Server.Healthy.{Succeeds, There, IsHealthy, retry-once}
use agent_runtime_operator.Controller.Status.{set_ready, update_agent_status_ready}
use agent_runtime_operator.Controller.Status.Written.{IsReadyStatus}
use agent_runtime_operator.Controller.Reconcile.{
  ensure_deployment, delete_found, ensure_service, return_gateway, then_service, ensure_workloads,
  reconcile_agent, record_status, reconcile_found, reconcile,
}
use agent_runtime_operator.Controller.Reconcile.Outcomes.{reconcile-ready}
use agent_runtime_operator.Controller.Reconcile.Resolvable.{IsResolvable, resolve_dependencies-ok}

-- the call succeeds, and the agent is still there
abbrev Done : (api : ApiServer) → NamespacedName → Outcome × api.State → Type 0
Done api key out = Succeeds out × There api key out.1

module _ (api : ApiServer) (laws : IsApiServer api) (healthy : IsHealthy api) (p : Platform)
    (never : NeverFails p) (operator_namespace : String) where
  ensure_deployment-Done :
      (key : NamespacedName) (resolved : Resolved) (agent : Agent) (s : api.State)
      → HasInteractionTypes resolved.sub_agents
      → There api key s
      → Done api key (ensure_deployment api p operator_namespace resolved agent s)
  unfolding ensure_deployment
  ensure_deployment-Done key resolved agent s typed there =
      let d = new_deployment agent.name agent.namespace in
      let f = mutate_deployment p agent resolved in
      (
        healthy.deployment_written d f s (mutate_deployment-IsTotal p never agent resolved typed),
        healthy.deployment_keeps d f s key there,
      )

  delete_found-Done :
      (key : NamespacedName) (r : Result Service) (s : api.State)
      → ((e : Error) → r ≡ err e → is_not_found e ≡ true)
      → There api key s
      → Done api key (delete_found api p operator_namespace r s)
  delete_found-Done key (ok svc) s readable there = (
    ap (wrapped "failed to delete Service: ") (healthy.service_deleted svc s),
    healthy.deletion_keeps svc s key there,
  )
  delete_found-Done key (err e) s readable there = (rw (readable e refl) refl, there)

  ensure_service-Done :
      (key : NamespacedName) (agent : Agent) (s : api.State)
      → There api key s
      → Done api key (ensure_service api p operator_namespace agent s)
  unfolding ensure_service
  ensure_service-Done key agent s there =
      let svc = new_service agent.name agent.namespace in
      let f = mutate_service p agent in
      elim (is_nil agent.spec.protocols)
        as (λ b. Done api key (
          if b
          then delete_found api p operator_namespace (api.get_service (key_of agent.metadata) s) s
          else api.create_or_update_service svc f s)) [
            | true ↦
                delete_found-Done key (api.get_service (key_of agent.metadata) s) s
                  (healthy.service_read (key_of agent.metadata) s) there
            | false ↦ (
              healthy.service_written svc f s (mutate_service-IsTotal p never agent),
              healthy.service_keeps svc f s key there,
            )
          ]

  reconcile_agent-ok :
      (key : NamespacedName) (agent : Agent) (s : api.State)
      (config : Option AgentRuntimeConfiguration) (gateway : Option AiGateway)
      → IsResolvable operator_namespace (api.reader s) agent config gateway
      → There api key s
      → (t : api.State) × (reconcile_agent api p operator_namespace agent s ≡ (ok gateway, t))
        × There api key t
  unfolding reconcile_agent
  reconcile_agent-ok key agent s config gateway is_resolvable there =
      let (resolved, e, typed, same) =
        resolve_dependencies-ok operator_namespace p.go.quote (api.reader s) agent config gateway
          is_resolvable in
      let deploy = ensure_deployment api p operator_namespace resolved agent in
      let (deployed, there') = ensure_deployment-Done key resolved agent s typed there in
      let serve = ensure_service api p operator_namespace agent in
      let t = (deploy s).1 in
      let (served, there'') = ensure_service-Done key agent t there' in
      (
        (serve t).1,
        ap (λ x. ensure_workloads api p operator_namespace agent x s) e
            ∙ ap (then_service api p operator_namespace agent resolved.ai_gateway)
                (retry-once api laws deploy s deployed)
            ∙ ap (return_gateway api p operator_namespace resolved.ai_gateway)
                (retry-once api laws serve t served)
            ∙ ap (λ g. (ok g, (serve t).1)) same,
        there'',
      )

  -- If an agent is there, everything that it refers to resolves, its sub-agents have an interaction
  -- type, and no call of the server or of Go's libraries fails, then its reconciliation reports no
  -- error, and the agent is stored as Ready, with the URL of its card and the gateway.
  pub reconcile_succeeds :
      (key : NamespacedName) (agent : Agent) (s : api.State)
      (config : Option AgentRuntimeConfiguration) (gateway : Option AiGateway)
      → (api.reader s).get_agent key ≡ ok agent
      → IsResolvable operator_namespace (api.reader s) agent config gateway
      → (s' : api.State) × (reconcile api p operator_namespace key s ≡ (ok tt, s'))
        × ((stored : Agent) × ((api.reader s').get_agent key ≡ ok stored)
            × IsReadyStatus agent gateway stored.status)
  unfolding reconcile update_agent_status_ready set_ready
  reconcile_succeeds key agent s config gateway found is_resolvable =
      let (t, reconciled, there) =
        reconcile_agent-ok key agent s config gateway is_resolvable (agent, found) in
      let set = set_ready api gateway agent in
      let update = update_agent_status_ready api gateway in
      let written =
        healthy.agent_status_written set t
          (subst (λ k. There api k t) (sym (laws.agent_key key s agent found)) there) in
      let succeeded =
        retry-once api laws update (agent, t)
          (ap (wrapped "failed to update agent status: ") written) in
      let s' = (update (agent, t)).1.1 in
      let h : reconcile api p operator_namespace key s ≡ (ok tt, s') =
        ap (λ x. reconcile_found api p operator_namespace x s) found
        ∙ ap (record_status api p operator_namespace agent) reconciled
        ∙ ap (λ (x : Outcome × (Agent × api.State)). (x.0, x.1.1)) succeeded in
      let (gateway', t', reconciled', (stored, got, is_ready)) =
        reconcile-ready api laws p operator_namespace key agent s s' found h in
      let same : gateway' ≡ gateway = ok-injective (ap (λ x. x.0) (sym reconciled' ∙ reconciled)) in
      (s', h, (stored, got, subst (λ g. IsReadyStatus agent g stored.status) same is_ready))
