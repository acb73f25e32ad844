-- ===== src/Controller/System.antt =====
-- The operator as it runs: SetupWithManager of the three reconcilers in internal/controller makes the
-- manager call Reconcile for one key after another, and between two calls others change the cluster.
pub mod Coherent
pub mod Kept
pub mod KeptByAgents
pub mod KeptByOthers
use agent_runtime_operator.Base.{ℕ, String, Bool, some, List, Map, ◌≡◌}
use agent_runtime_operator.Api.Meta.{NamespacedName}
use agent_runtime_operator.Api.Agent.{Agent}
use agent_runtime_operator.Api.Workforce.{TransitiveAgent}
use agent_runtime_operator.Cluster.{Outcome, ok}
use agent_runtime_operator.Controller.AgentDeployment.{Platform}
use agent_runtime_operator.Controller.Server.{ApiServer}
use agent_runtime_operator.Controller.Server.Frame.{blank_status, KeepsStatuses}
use agent_runtime_operator.Controller.Reconcile
use agent_runtime_operator.Controller.ToolServers.Reconcile as ToolServers
use agent_runtime_operator.Controller.Workforce.Reconcile as Workforce

module _ (api : ApiServer) (operator_namespace : String) where
  -- One call of a `Reconcile`, or what others do. The orders of Go's maps, some of them in the
  -- Platform, are new for each call.
  pub data Step (s : api.State) : api.State → Type 0 where
    edited : {s' : api.State} → KeepsStatuses api s s' → Step s s'
    agent_reconciled :
        (p : Platform) (key : NamespacedName)
        → Step s (Reconcile.reconcile api p operator_namespace key s).1
    tool_server_reconciled :
        (p : Platform) (key : NamespacedName) → Step s (ToolServers.reconcile api p key s).1
    workforce_reconciled :
        (agents_order : Map TransitiveAgent → List TransitiveAgent)
        (tools_order : Map Bool → List String) (fuel : ℕ) (key : NamespacedName)
        {out : Outcome × api.State}
        → Workforce.reconcile api agents_order tools_order fuel key s ≡ some out
        → Step s out.1

  -- The operator starts in a cluster where no agent has a status yet.
  pub data Reach : api.State → Type 0 where
    start :
        {s : api.State}
        → ((k : NamespacedName) (a : Agent)
            → (api.reader s).get_agent k ≡ ok a
            → a.status ≡ blank_status)
        → Reach s
    later : {s t : api.State} → Reach s → Step s t → Reach t
