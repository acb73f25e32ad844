-- ===== src/Controller/Server/Frame.antt =====
-- The documented behaviour of the API server towards the statuses of agents: only a request to the
-- status subresource of an agent writes one, and of that agent only.
use agent_runtime_operator.Base.{◌≡◌, ◌⊎◌, none, []}
use agent_runtime_operator.Api.Meta.{NamespacedName, key_of}
use agent_runtime_operator.Api.Agent.{Agent, AgentStatus}
use agent_runtime_operator.Api.ToolServer.{ToolServer}
use agent_runtime_operator.Api.Workforce.{AgenticWorkforce}
use agent_runtime_operator.Cluster.{Result, ok}
use agent_runtime_operator.Controller.Workload.{Deployment, Service}
use agent_runtime_operator.Controller.Server.{ApiServer}

abbrev pub blank_status : AgentStatus
blank_status = record { conditions = []; url = ""; ai_gateway_ref = none }

-- What others may do meanwhile: agents come without a status, go, and change in all but their
-- status.
abbrev pub KeepsStatuses : (api : ApiServer) → api.State → api.State → Type 0
KeepsStatuses api s s' =
    (k : NamespacedName) (a : Agent)
    → (api.reader s').get_agent k ≡ ok a
    → (a.status ≡ blank_status)
      ⊎ ((b : Agent) × ((api.reader s).get_agent k ≡ ok b) × (a.status ≡ b.status))

pub record KeepsAgents (api : ApiServer) : Type 0 where
  pub service_deleted :
      (svc : Service) (s : api.State) → KeepsStatuses api s (api.delete_service svc s).1
  pub deployment_written :
      (d : Deployment) (f : Deployment → Result Deployment) (s : api.State)
      → KeepsStatuses api s (api.create_or_update_deployment d f s).1
  pub service_written :
      (svc : Service) (f : Service → Result Service) (s : api.State)
      → KeepsStatuses api s (api.create_or_update_service svc f s).1
  pub tool_server_status_written :
      (t : ToolServer) (s : api.State) → KeepsStatuses api s (api.update_tool_server_status t s).1
  pub workforce_status_written :
      (w : AgenticWorkforce) (s : api.State)
      → KeepsStatuses api s (api.update_workforce_status w s).1
  pub agent_status_written :
      (a : Agent) (s : api.State) (k : NamespacedName) (b : Agent)
      → (api.reader (api.update_agent_status a s).1).get_agent k ≡ ok b
      → ((b.status ≡ blank_status)
          ⊎ ((c : Agent) × ((api.reader s).get_agent k ≡ ok c) × (b.status ≡ c.status)))
        ⊎ ((key_of a.metadata ≡ k) × (b.status ≡ a.status))
