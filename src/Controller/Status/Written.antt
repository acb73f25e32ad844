-- ===== src/Controller/Status/Written.antt =====
-- What a retried status update has stored when it succeeds.
use mathlib.Core.Path.{subst}
use agent_runtime_operator.Base.{String, ◌≡◌, refl, sym, ap, ◌∙◌, Option, none, some}
use agent_runtime_operator.Api.Meta.{Condition, key_of}
use agent_runtime_operator.Api.Agent.{Agent, AgentStatus}
use agent_runtime_operator.Api.Gateways.{AiGateway}
use agent_runtime_operator.Cluster.{ok}
use agent_runtime_operator.Controller.Util.{find_ready_condition}
use agent_runtime_operator.Controller.Protocols.{build_a2a_agent_rpc_url, build_a2a_agent_card_url}
use agent_runtime_operator.Controller.Server.{ApiServer}
use agent_runtime_operator.Controller.Server.Laws.{IsSetTo, IsApiServer}
use agent_runtime_operator.Controller.Server.Retried.{write, retried}
use agent_runtime_operator.Controller.Status.{
  gateway_reference, ready_condition, not_ready_condition, set_ready, set_not_ready,
  update_agent_status_ready, update_agent_status_not_ready,
}

-- `condition` is the agent's Ready condition
abbrev pub Shows : AgentStatus → Condition → Type 0
Shows status condition =
    (found : Condition) × (find_ready_condition status.conditions ≡ some found)
    × IsSetTo condition found

pub record IsReadyStatus (agent : Agent) (gateway : Option AiGateway) (status : AgentStatus)
    : Type 0 where
  pub url : status.url ≡ build_a2a_agent_card_url agent
  pub ai_gateway_ref : status.ai_gateway_ref ≡ gateway_reference gateway
  pub condition : Shows status (ready_condition agent)

pub record IsNotReadyStatus (agent : Agent) (message : String) (status : AgentStatus) : Type 0 where
  pub url : status.url ≡ ""
  pub ai_gateway_ref : status.ai_gateway_ref ≡ none
  pub condition : Shows status (not_ready_condition agent "ReconciliationFailed" message)

-- the agent but for its status
abbrev pub IsAgent : Agent → Agent → Type 0
IsAgent agent a = a ≡ record agent { status = a.status }

module _ (api : ApiServer) (laws : IsApiServer api) where
  retried_agent :
      (set : Agent → Agent)
      → ((agent a : Agent) → IsAgent agent a → IsAgent agent (set a))
      → (agent a' : Agent) (s s' : api.State)
      → api.retry_on_conflict
          (Agent × api.State)
          (write api laws "failed to update agent status: " api.update_agent_status set)
          (agent, s)
        ≡ (ok tt, (a', s'))
      → (a : Agent) × IsAgent agent a
        × ((stored : Agent) × ((api.reader s').get_agent (key_of agent.metadata) ≡ ok stored)
            × (stored.status ≡ (set a).status))
  retried_agent set keeps agent a' s s' h =
      let (a, same, (t, ends)) =
        retried api laws "failed to update agent status: " api.update_agent_status set IsAgent keeps
          agent a' s s' refl h in
      let (stored, got, written) = laws.agent_status_written (set a) t s' ends in
      let key : key_of (set a).metadata ≡ key_of agent.metadata =
        ap (λ x. key_of x.metadata) (keeps agent a same) in
      (a, same, (stored, ap (api.reader s').get_agent (sym key) ∙ got, written))

  set_ready-IsAgent :
      (gateway : Option AiGateway) (agent a : Agent)
      → IsAgent agent a
      → IsAgent agent (set_ready api gateway a)
  unfolding set_ready
  set_ready-IsAgent gateway agent a same =
      ap (λ (x : Agent). record x { status = (set_ready api gateway a).status }) same

  set_not_ready-IsAgent :
      (message : String) (agent a : Agent)
      → IsAgent agent a
      → IsAgent agent (set_not_ready api "ReconciliationFailed" message a)
  unfolding set_not_ready
  set_not_ready-IsAgent message agent a same =
      ap
        (λ (x : Agent). record x {
          status = (set_not_ready api "ReconciliationFailed" message a).status;
        })
        same

  set_ready-IsReadyStatus :
      (gateway : Option AiGateway) (agent : Agent) (status : AgentStatus)
      → IsReadyStatus agent gateway
          (set_ready api gateway (record agent { status = status })).status
  unfolding set_ready build_a2a_agent_card_url build_a2a_agent_rpc_url
  set_ready-IsReadyStatus gateway agent status = record {
    url = refl;
    ai_gateway_ref = refl;
    condition = laws.set_condition status.conditions (ready_condition agent) refl;
  }

  set_not_ready-IsNotReadyStatus :
      (message : String) (agent : Agent) (status : AgentStatus)
      → IsNotReadyStatus agent message
          (set_not_ready api "ReconciliationFailed" message
            (record agent { status = status })).status
  unfolding set_not_ready
  set_not_ready-IsNotReadyStatus message agent status = record {
    url = refl;
    ai_gateway_ref = refl;
    condition =
        laws.set_condition status.conditions
          (not_ready_condition agent "ReconciliationFailed" message) refl;
  }

  -- the agent as stored after a successful retried update to Ready
  pub update_agent_status_ready-written :
      (agent a' : Agent) (gateway : Option AiGateway) (s s' : api.State)
      → api.retry_on_conflict (Agent × api.State) (update_agent_status_ready api gateway) (agent, s)
        ≡ (ok tt, (a', s'))
      → (stored : Agent) × ((api.reader s').get_agent (key_of agent.metadata) ≡ ok stored)
        × IsReadyStatus agent gateway stored.status
  unfolding update_agent_status_ready
  update_agent_status_ready-written agent a' gateway s s' h =
      let (a, same, (stored, got, written)) =
        retried_agent (set_ready api gateway) (set_ready-IsAgent gateway) agent a' s s' h in
      (
        stored,
        got,
        subst (IsReadyStatus agent gateway)
            (ap (λ x. (set_ready api gateway x).status) (sym same) ∙ sym written)
            (set_ready-IsReadyStatus gateway agent a.status),
      )

  pub update_agent_status_not_ready-written :
      (agent a' : Agent) (message : String) (s s' : api.State)
      → api.retry_on_conflict
          (Agent × api.State)
          (update_agent_status_not_ready api "ReconciliationFailed" message)
          (agent, s)
        ≡ (ok tt, (a', s'))
      → (stored : Agent) × ((api.reader s').get_agent (key_of agent.metadata) ≡ ok stored)
        × IsNotReadyStatus agent message stored.status
  unfolding update_agent_status_not_ready
  update_agent_status_not_ready-written agent a' message s s' h =
      let set = set_not_ready api "ReconciliationFailed" message in
      let (a, same, (stored, got, written)) =
        retried_agent set (set_not_ready-IsAgent message) agent a' s s' h in
      (
        stored,
        got,
        subst (IsNotReadyStatus agent message) (ap (λ x. (set x).status) (sym same) ∙ sym written)
            (set_not_ready-IsNotReadyStatus message agent a.status),
      )
