-- ===== src/Controller/Status.antt =====
-- internal/controller/agent_status.go. The agent in memory is part of the state, since a retried
-- update works on the agent that the one before has changed.
pub mod Written
use agent_runtime_operator.Base.{String, Option, none, some}
use agent_runtime_operator.Api.Meta.{ObjectReference, Condition, condition_true, condition_false}
use agent_runtime_operator.Api.Agent.{Agent}
use agent_runtime_operator.Api.Gateways.{AiGateway}
use agent_runtime_operator.Cluster.{Outcome}
use agent_runtime_operator.Controller.Util.{condition_type_ready}
use agent_runtime_operator.Controller.Protocols.{build_a2a_agent_card_url}
use agent_runtime_operator.Controller.Server.{Call, ApiServer, write_status}

abbrev pub gateway_reference : Option AiGateway → Option ObjectReference
gateway_reference none = none
gateway_reference (some g) =
    some (record {
      api_version = g.api_version;
      kind = g.kind;
      name = g.name;
      namespace = g.namespace;
    })

abbrev pub ready_condition : Agent → Condition
ready_condition agent = record {
  type = condition_type_ready;
  status = condition_true;
  observed_generation = agent.metadata.generation;
  reason = "Reconciled";
  message = "Agent is ready";
}

abbrev pub not_ready_condition : Agent → String → String → Condition
not_ready_condition agent reason message = record {
  type = condition_type_ready;
  status = condition_false;
  observed_generation = agent.metadata.generation;
  reason = reason;
  message = message;
}

module _ (api : ApiServer) where
  -- the assignments to the agent's status
  unfoldable pub set_ready : Option AiGateway → Agent → Agent
  set_ready ai_gateway agent = record agent {
    status = record {
      conditions = api.set_status_condition agent.status.conditions (ready_condition agent);
      url = build_a2a_agent_card_url agent;
      ai_gateway_ref = gateway_reference ai_gateway;
    };
  }

  unfoldable pub set_not_ready : String → String → Agent → Agent
  set_not_ready reason message agent = record agent {
    status = record {
      conditions =
          api.set_status_condition agent.status.conditions
            (not_ready_condition agent reason message);
      url = "";
      ai_gateway_ref = none;
    };
  }

  abbrev pub written : Agent → api.State → Outcome × (Agent × api.State)
  written = write_status "failed to update agent status: " api.update_agent_status

  unfoldable pub update_agent_status_ready : Option AiGateway → Call (Agent × api.State)
  unfolding set_ready
  update_agent_status_ready ai_gateway (agent, s) = written (set_ready ai_gateway agent) s

  unfoldable pub update_agent_status_not_ready : String → String → Call (Agent × api.State)
  unfolding set_not_ready
  update_agent_status_not_ready reason message (agent, s) =
      written (set_not_ready reason message agent) s
