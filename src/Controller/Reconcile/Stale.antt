-- ===== src/Controller/Reconcile/Stale.antt =====
-- What becomes of the status when the agent is changed while it is reconciled. The retried status
-- updates work on the agent that was read at the start.
use mathlib.Core.Path.{subst}
use agent_runtime_operator.Base.{String, ◌≡◌, ◌≢◌, refl, sym, ap, ◌∙◌, Option}
use agent_runtime_operator.Api.Meta.{NamespacedName, key_of}
use agent_runtime_operator.Api.Agent.{Agent}
use agent_runtime_operator.Api.Gateways.{AiGateway}
use agent_runtime_operator.Cluster.{Error, Outcome, ok, err, wrap}
use agent_runtime_operator.Controller.AgentDeployment.{Platform}
use agent_runtime_operator.Controller.Server.{ApiServer, wrapped, write_status}
use agent_runtime_operator.Controller.Server.Laws.{IsApiServer, Runs-err}
use agent_runtime_operator.Controller.Server.Versions.{IsStale, ChecksVersions}
use agent_runtime_operator.Controller.Status.{set_ready, update_agent_status_ready}
use agent_runtime_operator.Controller.Reconcile.{
  reconcile_agent, ready, record_status, reconcile_found, reconcile,
}

module _ (api : ApiServer) (laws : IsApiServer api) (checks : ChecksVersions api) where
  -- the metadata of the agent in memory and the cluster are as they were
  abbrev Unchanged : Agent → api.State → Agent × api.State → Type 0
  Unchanged agent s (a, t) = (a.metadata ≡ agent.metadata) × (t ≡ s)

  write_fails :
      (set : Agent → Agent)
      → ((a : Agent) → (set a).metadata ≡ a.metadata)
      → (agent : Agent) (s : api.State) → IsStale api agent s
      → (x : Agent × api.State) → Unchanged agent s x
      → (e : Error) × (y : Agent × api.State) × (write_status "failed to update agent status: "
            api.update_agent_status
            (set x.0)
            x.1
          ≡ (err e, y))
        × Unchanged agent s y
  write_fails set keeps agent s stale (a, t) (same, here) =
      let meta : (set a).metadata ≡ agent.metadata = keeps a ∙ same in
      let stale' : IsStale api (set a) s =
        subst
          (λ m.
            (stored : Agent) × ((api.reader s).get_agent (key_of m) ≡ ok stored)
            × (stored.metadata.resource_version ≢ m.resource_version))
          (sym meta) stale in
      let (e, refused, _) = checks.stale_refused (set a) s stale' in
      let refused' : api.update_agent_status (set a) t ≡ (err e, s) =
        ap (api.update_agent_status (set a)) here ∙ refused in
      (
        wrap "failed to update agent status: " e,
        (set a, s),
        ap
            (λ (o : Outcome × api.State).
              (wrapped "failed to update agent status: " o.0, (set a, o.1)))
            refused',
        (meta, refl),
      )

  module _ (p : Platform) (operator_namespace : String) where
    ready_fails :
        (agent : Agent) (gateway : Option AiGateway) (s : api.State)
        → IsStale api agent s
        → (e : Error) × (y : Agent × api.State) × (ready api p operator_namespace agent gateway s
            ≡ (err e, y))
          × Unchanged agent s y
    unfolding update_agent_status_ready set_ready
    ready_fails agent gateway s stale =
        Runs-err (Unchanged agent s) (update_agent_status_ready api gateway)
          (write_fails (set_ready api gateway) (λ a. refl) agent s stale) (agent, s)
          (ready api p operator_namespace agent gateway s)
          (laws.retries (update_agent_status_ready api gateway) (agent, s)) (refl, refl)

    -- Let the server refuse a status for an old version of an agent. If an agent has been changed by
    -- the time that its reconciliation has written the workloads, then, however often the status
    -- update is retried, the status is not written, and the reconciliation ends with an error.
    pub reconcile-IsStale :
        (key : NamespacedName) (agent : Agent) (gateway : Option AiGateway) (s t : api.State)
        → (api.reader s).get_agent key ≡ ok agent
        → reconcile_agent api p operator_namespace agent s ≡ (ok gateway, t)
        → IsStale api agent t
        → (e : Error) × (reconcile api p operator_namespace key s ≡ (err e, t))
    unfolding reconcile
    reconcile-IsStale key agent gateway s t found reconciled stale =
        let (e, y, failed, (_, same)) = ready_fails agent gateway t stale in
        (
          e,
          ap (λ x. reconcile_found api p operator_namespace x s) found
              ∙ ap (record_status api p operator_namespace agent) reconciled
              ∙ ap (λ (x : Outcome × (Agent × api.State)). (x.0, x.1.1)) failed
              ∙ ap (λ u. (err e, u)) same,
        )
