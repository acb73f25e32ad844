-- ===== src/Controller/Reconcile/Outcomes.antt =====
-- What a reconciliation of an agent leaves behind, on each of its paths.
use agent_runtime_operator.Base.{
  String, ◌≡◌, refl, sym, ap, ap₂, ◌∙◌, ◌≢◌, ◌↔◌, Option, some, List, [], ◌∷◌, ◌==◌, eq_iff, arith,
  Bool-cases, inl, inr,
}
use agent_runtime_operator.Api.Meta.{NamespacedName}
use agent_runtime_operator.Api.Agent.{Agent}
use agent_runtime_operator.Api.Gateways.{AiGateway, AgentRuntimeConfiguration}
use agent_runtime_operator.Cluster.{Outcome, Error, Result, ok, err, Reader}
use agent_runtime_operator.Controller.AgentDeployment.{Platform}
use agent_runtime_operator.Controller.Server.{ApiServer}
use agent_runtime_operator.Controller.Server.Laws.{IsApiServer}
use agent_runtime_operator.Controller.Status.Written.{
  IsReadyStatus, IsNotReadyStatus, update_agent_status_ready-written,
  update_agent_status_not_ready-written,
}
use agent_runtime_operator.Controller.Reconcile.{
  only_configuration, get_agent_runtime_configuration, resolve_dependencies, Reconciled,
  ensure_workloads, reconcile_agent, not_ready, ready, record_status, reconcile_found, reconcile,
}

only_configuration-some_iff :
    (namespace : String) (l : Result (List AgentRuntimeConfiguration))
    (config : AgentRuntimeConfiguration)
    → (only_configuration namespace l ≡ ok (some config)) ↔ (l ≡ ok (config ∷ []))
only_configuration-some_iff namespace (err e) config = (λ h. ground arith, λ h. cc)
only_configuration-some_iff namespace (ok []) config = (λ h. cc, λ h. cc)
only_configuration-some_iff namespace (ok (c ∷ [])) config = (λ h. cc, λ h. cc)
only_configuration-some_iff namespace (ok (c ∷ d ∷ more)) config = (λ h. cc, λ h. cc)

-- A configuration is used exactly if POD_NAMESPACE is set and the namespace has one configuration.
pub get_agent_runtime_configuration-some_iff :
    (namespace : String) (r : Reader) (config : AgentRuntimeConfiguration)
    → (get_agent_runtime_configuration namespace r ≡ ok (some config))
      ↔ ((namespace ≢ "") × (r.list_configurations namespace ≡ ok (config ∷ [])))
unfolding get_agent_runtime_configuration
get_agent_runtime_configuration-some_iff namespace r config = elim (Bool-cases (namespace == "")) [
  | inl unset ↦ rw unset (λ h. cc, λ (set, _). absurd (set ((eq_iff namespace "").0 unset)))
  | inr set ↦
      let (to, from) =
        only_configuration-some_iff namespace (r.list_configurations namespace) config in
      rw set (λ h. (λ e. cc (sym set ∙ (eq_iff namespace "").1 e), to h), λ (_, h). from h)
]

module _ (api : ApiServer) (laws : IsApiServer api) (p : Platform)
    (operator_namespace : String) where
  record_status-ok :
      (agent : Agent) (o : Reconciled api p operator_namespace) (s' : api.State)
      → record_status api p operator_namespace agent o ≡ (ok tt, s')
      → (gateway : Option AiGateway) × (t : api.State) × (a' : Agent) × (o ≡ (ok gateway, t))
        × (ready api p operator_namespace agent gateway t ≡ (ok tt, (a', s')))
  record_status-ok agent (err e, t) s' h = absurd (cc (ap (λ x. x.0) h))
  record_status-ok agent (ok gateway, t) s' h =
      let a' = (ready api p operator_namespace agent gateway t).1.0 in
      (
        gateway,
        t,
        a',
        refl,
        ap₂ (λ (o : Outcome) (x : api.State). (o, (a', x))) (ap (λ x. x.0) h) (ap (λ x. x.1) h),
      )

  -- If the agent is there and the reconciliation reports no error, the agent is stored as Ready,
  -- with the URL of its card, the gateway that the reconciliation has resolved, and a true Ready
  -- condition of its generation.
  pub reconcile-ready :
      (key : NamespacedName) (agent : Agent) (s s' : api.State)
      → (api.reader s).get_agent key ≡ ok agent
      → reconcile api p operator_namespace key s ≡ (ok tt, s')
      → (gateway : Option AiGateway) × (t : api.State) × (reconcile_agent api p operator_namespace
            agent s
          ≡ (ok gateway, t))
        × ((stored : Agent) × ((api.reader s').get_agent key ≡ ok stored)
            × IsReadyStatus agent gateway stored.status)
  unfolding reconcile
  reconcile-ready key agent s s' found h =
      let (gateway, t, a', reconciled, written) =
        record_status-ok agent (reconcile_agent api p operator_namespace agent s) s'
          (ap (λ x. reconcile_found api p operator_namespace x s) (sym found) ∙ h) in
      let (stored, got, is_ready) =
        update_agent_status_ready-written api laws agent a' gateway t s' written in
      (
        gateway,
        t,
        reconciled,
        (
          stored,
          ap (api.reader s').get_agent (sym (laws.agent_key key s agent found)) ∙ got,
          is_ready,
        ),
      )

  -- If the reconciliation of the agent fails, its error is returned, and if the status update then
  -- succeeds, the agent is stored as not Ready, with no URL, no gateway, and the error's message in
  -- a false Ready condition of its generation.
  pub reconcile-not_ready :
      (key : NamespacedName) (agent a' : Agent) (e : Error) (s t t' : api.State)
      → (api.reader s).get_agent key ≡ ok agent
      → reconcile_agent api p operator_namespace agent s ≡ (err e, t)
      → not_ready api p operator_namespace agent e t ≡ (ok tt, (a', t'))
      → (reconcile api p operator_namespace key s ≡ (err e, t'))
        × ((stored : Agent) × ((api.reader t').get_agent key ≡ ok stored)
            × IsNotReadyStatus agent e.message stored.status)
  unfolding reconcile
  reconcile-not_ready key agent a' e s t t' found failed written =
      let (stored, got, is_not_ready) =
        update_agent_status_not_ready-written api laws agent a' e.message t t' written in
      (
        ap (λ x. reconcile_found api p operator_namespace x s) found
            ∙ ap (record_status api p operator_namespace agent) failed
            ∙ ap (λ (x : Outcome × (Agent × api.State)). (err e, x.1.1)) written,
        (
          stored,
          ap (api.reader t').get_agent (sym (laws.agent_key key s agent found)) ∙ got,
          is_not_ready,
        ),
      )

  -- If something that the agent refers to does not resolve, nothing is written but the status: the
  -- reconciliation of the agent stops with the error and leaves the cluster as it was.
  pub reconcile_agent_fails_fast :
      (agent : Agent) (e : Error) (s : api.State)
      → resolve_dependencies operator_namespace p.go.quote (api.reader s) agent ≡ err e
      → reconcile_agent api p operator_namespace agent s ≡ (err e, s)
  unfolding reconcile_agent
  reconcile_agent_fails_fast agent e s h =
      ap (λ x. ensure_workloads api p operator_namespace agent x s) h
