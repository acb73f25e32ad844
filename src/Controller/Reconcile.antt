-- ===== src/Controller/Reconcile.antt =====
-- `Reconcile`, `reconcileAgent`, `getAgentRuntimeConfiguration`, and what `ensureDeployment` and
-- `ensureService` do around `CreateOrUpdate`, of internal/controller/agent_reconciler.go
pub mod Outcomes
pub mod Resolves
pub mod Resolvable
pub mod Succeeds
pub mod Stale
use agent_runtime_operator.Base.{
  String, ◌<>◌, Bool, Option, none, some, List, [], ◌∷◌, ◌==◌, ◌||◌, Map, if◌then◌else◌, is_nil,
  map,
}
use agent_runtime_operator.Api.Meta.{NamespacedName, key_of}
use agent_runtime_operator.Api.Agent.{Agent}
use agent_runtime_operator.Api.Gateways.{AiGateway, AgentRuntimeConfiguration}
use agent_runtime_operator.Cluster.{
  Outcome, Error, Result, ok, err, ◌>>=◌, is_not_found, is_no_match_error, errorf, wrap, Reader,
}
use agent_runtime_operator.Controller.Util.{enqueue_if}
use agent_runtime_operator.Controller.SubAgents.{resolve_all_sub_agents}
use agent_runtime_operator.Controller.Tools.{resolve_all_tools}
use agent_runtime_operator.Controller.AiGateways.{resolve_ai_gateway}
use agent_runtime_operator.Controller.Workload.{Service, new_deployment, new_service}
use agent_runtime_operator.Controller.AgentDeployment.{
  Platform, Resolved, mutate_deployment, mutate_service,
}
use agent_runtime_operator.Controller.Server.{Call, ApiServer, wrapped}
use agent_runtime_operator.Controller.Status.{
  update_agent_status_ready, update_agent_status_not_ready,
}

abbrev pub only_configuration :
    String → Result (List AgentRuntimeConfiguration) → Result (Option AgentRuntimeConfiguration)
only_configuration namespace (err e) =
    if is_not_found e || is_no_match_error e
    then ok none
    else err (wrap "failed to list AgentRuntimeConfiguration: " e)
only_configuration namespace (ok []) = ok none
only_configuration namespace (ok (config ∷ [])) = ok (some config)
only_configuration namespace (ok (config ∷ other ∷ more)) = err (
    errorf (
      "multiple AgentRuntimeConfiguration resources found in namespace "
      <> (namespace <> " - only one is allowed")))

-- `operator_namespace` is the environment variable POD_NAMESPACE, "" if it is not set
unfoldable pub get_agent_runtime_configuration :
    String → Reader → Result (Option AgentRuntimeConfiguration)
get_agent_runtime_configuration operator_namespace r =
    if operator_namespace == ""
    then err (
        errorf
          "POD_NAMESPACE environment variable is not set - cannot determine operator namespace")
    else only_configuration operator_namespace (r.list_configurations operator_namespace)

-- a pair of a value and an error, as Go returns it
abbrev pub checked {ℓ} : {A : Type ℓ} → A × Option Error → Result A
checked (a, none) = ok a
checked (a, some e) = err e

-- The resolutions at the head of `reconcileAgent`. They only read.
unfoldable pub resolve_dependencies : String → (String → String) → Reader → Agent → Result Resolved
unfolding get_agent_runtime_configuration resolve_all_sub_agents resolve_all_tools
    resolve_ai_gateway
resolve_dependencies operator_namespace quote r agent = do
  config ← get_agent_runtime_configuration operator_namespace r
  sub_agents ← checked (resolve_all_sub_agents quote r agent)
  tools ← checked (resolve_all_tools quote r agent)
  ai_gateway ← resolve_ai_gateway r agent
  ok (record { sub_agents = sub_agents; tools = tools; ai_gateway = ai_gateway; config = config })

-- `findAllAgentsForRuntimeConfiguration`
unfoldable pub find_all_agents_for_runtime_configuration : Reader → List NamespacedName
find_all_agents_for_runtime_configuration r = elim r.list_agents [
  | err e ↦ []
  | ok agents ↦ map (λ (a : Agent). key_of a.metadata) agents
]

module _ (api : ApiServer) (p : Platform) (operator_namespace : String) where
  unfoldable pub ensure_deployment : Resolved → Agent → Call api.State
  unfolding mutate_deployment
  ensure_deployment resolved agent =
      api.create_or_update_deployment (new_deployment agent.name agent.namespace)
        (mutate_deployment p agent resolved)

  -- the branch with no protocols
  abbrev pub delete_found : Result Service → Call api.State
  delete_found (ok service) s =
      let (result, s') = api.delete_service service s in
      (wrapped "failed to delete Service: " result, s')
  delete_found (err e) s =
      (if is_not_found e then ok tt else err (wrap "failed to get Service: " e), s)

  unfoldable pub ensure_service : Agent → Call api.State
  unfolding mutate_service
  ensure_service agent s =
      if is_nil agent.spec.protocols
      then delete_found (api.get_service (key_of agent.metadata) s) s
      else api.create_or_update_service (new_service agent.name agent.namespace)
          (mutate_service p agent) s

  abbrev pub Reconciled : Type 0
  Reconciled = Result (Option AiGateway) × api.State

  abbrev pub return_gateway : Option AiGateway → Outcome × api.State → Reconciled
  return_gateway gateway (ok u, s) = (ok gateway, s)
  return_gateway gateway (err e, s) = (err e, s)

  abbrev pub then_service : Agent → Option AiGateway → Outcome × api.State → Reconciled
  then_service agent gateway (err e, s) = (err e, s)
  then_service agent gateway (ok u, s) =
      return_gateway gateway (api.retry_on_conflict api.State (ensure_service agent) s)

  -- the writes of `reconcileAgent`
  abbrev pub ensure_workloads : Agent → Result Resolved → api.State → Reconciled
  ensure_workloads agent (err e) s = (err e, s)
  ensure_workloads agent (ok resolved) s =
      then_service agent resolved.ai_gateway
        (api.retry_on_conflict api.State (ensure_deployment resolved agent) s)

  unfoldable pub reconcile_agent : Agent → api.State → Reconciled
  unfolding resolve_dependencies ensure_deployment ensure_service
  reconcile_agent agent s =
      ensure_workloads agent
        (resolve_dependencies operator_namespace p.go.quote (api.reader s) agent) s

  abbrev pub not_ready : Agent → Error → api.State → Outcome × (Agent × api.State)
  not_ready agent e s =
      api.retry_on_conflict (Agent × api.State)
        (update_agent_status_not_ready api "ReconciliationFailed" e.message) (agent, s)

  abbrev pub ready : Agent → Option AiGateway → api.State → Outcome × (Agent × api.State)
  ready agent gateway s =
      api.retry_on_conflict (Agent × api.State) (update_agent_status_ready api gateway) (agent, s)

  -- the end of `Reconcile`: an error of the status update is logged after a failure
  abbrev pub record_status : Agent → Reconciled → Outcome × api.State
  record_status agent (err e, s) = (err e, (not_ready agent e s).1.1)
  record_status agent (ok gateway, s) =
      let (result, (_, s')) = ready agent gateway s in (result, s')

  abbrev pub reconcile_found : Result Agent → api.State → Outcome × api.State
  reconcile_found (err e) s = (if is_not_found e then ok tt else err e, s)
  reconcile_found (ok agent) s = record_status agent (reconcile_agent agent s)

  unfoldable pub reconcile : NamespacedName → api.State → Outcome × api.State
  unfolding reconcile_agent
  reconcile key s = reconcile_found ((api.reader s).get_agent key) s
