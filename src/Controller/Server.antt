-- ===== src/Controller/Server.antt =====
-- What the reconcilers use of the API server and of the Kubernetes libraries: the client's calls,
-- `controllerutil.CreateOrUpdate`, `retry.RetryOnConflict` and `meta.SetStatusCondition`. All of it
-- is a parameter; `Laws` has the documented behaviour that the theorems rely on.
pub mod Laws
pub mod Frame
pub mod Healthy
pub mod Versions
pub mod Retried
use agent_runtime_operator.Base.{String, List}
use agent_runtime_operator.Api.Meta.{NamespacedName, Condition}
use agent_runtime_operator.Api.Agent.{Agent}
use agent_runtime_operator.Api.ToolServer.{ToolServer}
use agent_runtime_operator.Api.Workforce.{AgenticWorkforce}
use agent_runtime_operator.Cluster.{Outcome, Result, ok, err, Error, wrap, Reader}
use agent_runtime_operator.Controller.Workload.{Deployment, Service}

-- a call with no value that can fail, and that leaves a state
abbrev pub Call : Type 0 → Type 0
Call S = S → Outcome × S

pub record ApiServer : Type 1 where
  pub State : Type 0
  pub reader : State → Reader
  pub get_workforce : NamespacedName → State → Result AgenticWorkforce
  pub get_service : NamespacedName → State → Result Service
  pub delete_service : Service → Call State
  pub create_or_update_deployment : Deployment → (Deployment → Result Deployment) → Call State
  pub create_or_update_service : Service → (Service → Result Service) → Call State
  pub update_agent_status : Agent → Call State
  pub update_tool_server_status : ToolServer → Call State
  pub update_workforce_status : AgenticWorkforce → Call State
  pub retry_on_conflict : (S : Type 0) → Call S → Call S
  pub set_status_condition : List Condition → Condition → List Condition

-- `return fmt.Errorf("…: %w", err)` unless the call has succeeded
abbrev pub wrapped : String → Outcome → Outcome
wrapped prefix (ok u) = ok u
wrapped prefix (err e) = err (wrap prefix e)

-- the end of every function that updates a status: the object in memory has been changed
abbrev pub write_status : {O S : Type 0} → String → (O → Call S) → O → S → Outcome × (O × S)
write_status prefix update o s = let (result, s') = update o s in (wrapped prefix result, (o, s'))
