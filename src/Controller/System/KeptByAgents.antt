-- ===== src/Controller/System/KeptByAgents.antt =====
-- What the reconciliation of an agent keeps.
use agent_runtime_operator.Base.{String, refl, inl, inr, Option, is_nil, if◌then◌else◌, true, false}
use agent_runtime_operator.Api.Meta.{NamespacedName, key_of}
use agent_runtime_operator.Api.Agent.{Agent}
use agent_runtime_operator.Api.Gateways.{AiGateway}
use agent_runtime_operator.Cluster.{Outcome, Result, ok, err}
use agent_runtime_operator.Controller.Workload.{Service, new_service}
use agent_runtime_operator.Controller.AgentDeployment.{Platform, Resolved, mutate_service}
use agent_runtime_operator.Controller.Server.{ApiServer}
use agent_runtime_operator.Controller.Server.Laws.{IsApiServer}
use agent_runtime_operator.Controller.Server.Frame.{KeepsAgents}
use agent_runtime_operator.Controller.Status.{
  ready_condition, set_ready, set_not_ready, update_agent_status_ready,
  update_agent_status_not_ready,
}
use agent_runtime_operator.Controller.Reconcile
use agent_runtime_operator.Controller.Reconcile.{
  ensure_deployment, delete_found, ensure_service, Reconciled, return_gateway, then_service,
  ensure_workloads, reconcile_agent, resolve_dependencies, not_ready, ready, record_status,
  reconcile_found,
}
use agent_runtime_operator.Controller.System.Kept.{
  IsCoherent, AreCoherent, statuses_kept, retried, status_written,
}

module _ (api : ApiServer) (laws : IsApiServer api) (keeps : KeepsAgents api) where
  set_ready-IsCoherent :
      (gateway : Option AiGateway) (a : Agent) → IsCoherent (set_ready api gateway a).status
  unfolding set_ready
  set_ready-IsCoherent gateway a =
      let (c, found, is_set) = laws.set_condition a.status.conditions (ready_condition a) refl in
      inr (c, found, is_set.status)

  set_not_ready-IsCoherent :
      (reason message : String) (a : Agent) → IsCoherent (set_not_ready api reason message a).status
  unfolding set_not_ready
  set_not_ready-IsCoherent reason message a = inl (refl, refl)

  module _ (p : Platform) (operator_namespace : String) where
    ensure_deployment-AreCoherent :
        (resolved : Resolved) (agent : Agent) (s : api.State)
        → AreCoherent api s
        → AreCoherent api (ensure_deployment api p operator_namespace resolved agent s).1
    unfolding ensure_deployment
    ensure_deployment-AreCoherent resolved agent s =
        statuses_kept api laws keeps s _ (keeps.deployment_written _ _ s)

    delete_found-AreCoherent :
        (r : Result Service) (s : api.State)
        → AreCoherent api s
        → AreCoherent api (delete_found api p operator_namespace r s).1
    delete_found-AreCoherent (ok svc) s =
        statuses_kept api laws keeps s _ (keeps.service_deleted svc s)
    delete_found-AreCoherent (err e) s = λ coherent. coherent

    ensure_service-AreCoherent :
        (agent : Agent) (s : api.State)
        → AreCoherent api s
        → AreCoherent api (ensure_service api p operator_namespace agent s).1
    unfolding ensure_service
    ensure_service-AreCoherent agent s coherent =
        elim (is_nil agent.spec.protocols)
          as (λ b.
            AreCoherent api
              (if b
                then delete_found api p operator_namespace
                    (api.get_service (key_of agent.metadata) s) s
                else api.create_or_update_service (new_service agent.name agent.namespace)
                    (mutate_service p agent) s).1) [
                      | true ↦
                          delete_found-AreCoherent (api.get_service (key_of agent.metadata) s) s
                            coherent
                      | false ↦
                          statuses_kept api laws keeps s _ (keeps.service_written _ _ s) coherent
                    ]

    then_service-AreCoherent :
        (agent : Agent) (gateway : Option AiGateway) (out : Outcome × api.State)
        → AreCoherent api out.1
        → AreCoherent api (then_service api p operator_namespace agent gateway out).1
    unfolding ensure_service
    then_service-AreCoherent agent gateway (err e, s) coherent = coherent
    then_service-AreCoherent agent gateway (ok u, s) coherent =
        return_gateway-state agent gateway _ (
          retried api laws keeps (λ t. t) (ensure_service api p operator_namespace agent)
            (ensure_service-AreCoherent agent) s coherent)
      where
        return_gateway-state :
            (agent : Agent) (gateway : Option AiGateway) (out : Outcome × api.State)
            → AreCoherent api out.1
            → AreCoherent api (return_gateway api p operator_namespace gateway out).1
        return_gateway-state agent gateway (ok u, s) coherent = coherent
        return_gateway-state agent gateway (err e, s) coherent = coherent

    ensure_workloads-AreCoherent :
        (agent : Agent) (r : Result Resolved) (s : api.State)
        → AreCoherent api s
        → AreCoherent api (ensure_workloads api p operator_namespace agent r s).1
    unfolding ensure_deployment ensure_service
    ensure_workloads-AreCoherent agent (err e) s coherent = coherent
    ensure_workloads-AreCoherent agent (ok resolved) s coherent =
        then_service-AreCoherent agent resolved.ai_gateway _ (
          retried api laws keeps (λ t. t)
            (ensure_deployment api p operator_namespace resolved agent)
            (ensure_deployment-AreCoherent resolved agent) s coherent)

    record_status-AreCoherent :
        (agent : Agent) (out : Reconciled api p operator_namespace)
        → AreCoherent api out.1
        → AreCoherent api (record_status api p operator_namespace agent out).1
    unfolding update_agent_status_ready update_agent_status_not_ready
    record_status-AreCoherent agent (err e, s) coherent =
        retried api laws keeps (λ x. x.1)
          (update_agent_status_not_ready api "ReconciliationFailed" e.message)
          (λ (a, t).
            status_written api laws keeps _ t
              (set_not_ready-IsCoherent "ReconciliationFailed" e.message a))
          (agent, s) coherent
    record_status-AreCoherent agent (ok gateway, s) coherent =
        retried api laws keeps (λ x. x.1) (update_agent_status_ready api gateway)
          (λ (a, t). status_written api laws keeps _ t (set_ready-IsCoherent gateway a)) (agent, s)
          coherent

    reconcile_found-AreCoherent :
        (r : Result Agent) (s : api.State)
        → AreCoherent api s
        → AreCoherent api (reconcile_found api p operator_namespace r s).1
    unfolding reconcile_agent
    reconcile_found-AreCoherent (err e) s coherent = coherent
    reconcile_found-AreCoherent (ok agent) s coherent =
        record_status-AreCoherent agent _ (ensure_workloads-AreCoherent agent _ s coherent)

    pub reconcile-AreCoherent :
        (key : NamespacedName) (s : api.State)
        → AreCoherent api s
        → AreCoherent api (Reconcile.reconcile api p operator_namespace key s).1
    unfolding Reconcile.reconcile
    reconcile-AreCoherent key s = reconcile_found-AreCoherent ((api.reader s).get_agent key) s
