-- ===== src/Controller/Server/Healthy.antt =====
-- An API server on which every call of a reconciliation succeeds: it stores what it is given, and
-- nobody removes the agent or the tool server meanwhile.
use mathlib.Core.Path.{subst}
use agent_runtime_operator.Base.{◌≡◌, refl, ap, ◌∙◌, true}
use agent_runtime_operator.Api.Meta.{NamespacedName, key_of}
use agent_runtime_operator.Api.Agent.{Agent}
use agent_runtime_operator.Api.ToolServer.{ToolServer}
use agent_runtime_operator.Cluster.{Outcome, Result, ok, err, Error, is_not_found}
use agent_runtime_operator.Controller.Workload.{Deployment, Service}
use agent_runtime_operator.Controller.Server.{Call, ApiServer}
use agent_runtime_operator.Controller.Server.Laws.{IsApiServer, Runs, last, again}

-- the call has no error
abbrev pub Succeeds : {S : Type 0} → Outcome × S → Type 0
Succeeds out = out.0 ≡ ok tt

abbrev pub There : (api : ApiServer) → NamespacedName → api.State → Type 0
There api k s = (a : Agent) × ((api.reader s).get_agent k ≡ ok a)

abbrev pub ToolServerThere : (api : ApiServer) → NamespacedName → api.State → Type 0
ToolServerThere api k s = (t : ToolServer) × ((api.reader s).get_tool_server k ≡ ok t)

-- the update of an object never fails
abbrev pub IsTotal : {A : Type 0} → (A → Result A) → Type 0
IsTotal {A} f = (x : A) → (y : A) × (f x ≡ ok y)

pub record IsHealthy (api : ApiServer) : Type 0 where
  pub deployment_written :
      (d : Deployment) (f : Deployment → Result Deployment) (s : api.State)
      → IsTotal f
      → Succeeds (api.create_or_update_deployment d f s)
  pub service_written :
      (svc : Service) (f : Service → Result Service) (s : api.State)
      → IsTotal f
      → Succeeds (api.create_or_update_service svc f s)
  pub service_read :
      (k : NamespacedName) (s : api.State) (e : Error)
      → api.get_service k s ≡ err e
      → is_not_found e ≡ true
  pub service_deleted : (svc : Service) (s : api.State) → Succeeds (api.delete_service svc s)
  pub agent_status_written :
      (a : Agent) (s : api.State)
      → There api (key_of a.metadata) s
      → Succeeds (api.update_agent_status a s)
  pub deployment_keeps :
      (d : Deployment) (f : Deployment → Result Deployment) (s : api.State) (k : NamespacedName)
      → There api k s
      → There api k (api.create_or_update_deployment d f s).1
  pub service_keeps :
      (svc : Service) (f : Service → Result Service) (s : api.State) (k : NamespacedName)
      → There api k s
      → There api k (api.create_or_update_service svc f s).1
  pub deletion_keeps :
      (svc : Service) (s : api.State) (k : NamespacedName)
      → There api k s
      → There api k (api.delete_service svc s).1
  pub tool_server_status_written :
      (t : ToolServer) (s : api.State)
      → ToolServerThere api (key_of t.metadata) s
      → Succeeds (api.update_tool_server_status t s)
  pub deployment_keeps_servers :
      (d : Deployment) (f : Deployment → Result Deployment) (s : api.State) (k : NamespacedName)
      → ToolServerThere api k s
      → ToolServerThere api k (api.create_or_update_deployment d f s).1
  pub service_keeps_servers :
      (svc : Service) (f : Service → Result Service) (s : api.State) (k : NamespacedName)
      → ToolServerThere api k s
      → ToolServerThere api k (api.create_or_update_service svc f s).1

-- A call that succeeds is not repeated.
pub Runs-once :
    {S : Type 0} (f : Call S) (s : S) (out : Outcome × S)
    → Runs f s out
    → Succeeds (f s)
    → out ≡ f s
Runs-once f s out (last _) succeeds = refl
Runs-once f s out (again _ t e _ failed conflict rest) succeeds =
    absurd (cc (subst (λ x. x.0 ≡ ok tt) failed succeeds))

-- Then a retried call is that one call.
pub retry-once :
    (api : ApiServer) (laws : IsApiServer api) {S : Type 0} (f : Call S) (s : S)
    → Succeeds (f s)
    → api.retry_on_conflict S f s ≡ (ok tt, (f s).1)
retry-once api laws f s succeeds =
    Runs-once f s (api.retry_on_conflict _ f s) (laws.retries f s) succeeds
    ∙ ap (λ o. (o, (f s).1)) succeeds
