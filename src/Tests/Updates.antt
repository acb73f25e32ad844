-- ===== src/Tests/Updates.antt =====
-- The theorems on second updates and on tool servers, at concrete objects.
use mathlib.Core.List.{Permᴰ}
use mathlib.Core.List.Permᴰ
use agent_runtime_operator.Base.{◌≡◌, refl, none, List, Map, [], ◌∷◌}
use agent_runtime_operator.Api.Meta.{EnvVar}
use agent_runtime_operator.Controller.Env.{values}
use agent_runtime_operator.Controller.Env.Merge.{VisitsEachOnce}
use agent_runtime_operator.Controller.Template.{variable}
use agent_runtime_operator.Api.ToolServer.{ToolServer}
use agent_runtime_operator.Cluster.{conflict, Error, ok, err, ok-injective}
use agent_runtime_operator.Controller.Workload.{Deployment, Service, new_deployment, new_service}
use agent_runtime_operator.Controller.Workload.Again.{SetsOwner, owned}
use agent_runtime_operator.Controller.AgentDeployment.{update_service}
use agent_runtime_operator.Controller.Server.{ApiServer}
use agent_runtime_operator.Controller.Server.Laws.{IsApiServer}
use agent_runtime_operator.Controller.ToolServers.{
  update_tool_server_deployment, mutate_tool_server_deployment, update_tool_server_service,
}
use agent_runtime_operator.Controller.ToolServers.Reconcile
use agent_runtime_operator.Controller.ToolServers.Reconcile.{
  tool_server_url, tool_server_ready, tool_server_not_ready, update_tool_server_status_not_ready,
  update_tool_server_status_ready, reconcile_tool_server, tool_server_failed,
}
use agent_runtime_operator.Controller.ToolServers.Outcomes.{
  IsUrlOf, Shows, tool_server-ready, tool_server-not_ready,
}
use agent_runtime_operator.Controller.ToolServers.Laws.{mutate_tool_server_deployment_idempotent}
use agent_runtime_operator.Tests.Samples.{crew, planner, helper, server_of, platform, team}
use agent_runtime_operator.Tests.Memory.{
  Memory, reader_of, memory_server, memory_server-IsApiServer,
}

pub platform-SetsOwner : SetsOwner platform.set_controller_reference
platform-SetsOwner = record {
  only_owner = λ owner object object' h.
      let same : record object { owner_references = owner.name ∷ [] } ≡ object' = ok-injective h in
      rw (← same) refl;
  again = λ owner object object' h.
      let same : record object { owner_references = owner.name ∷ [] } ≡ object' = ok-injective h in
      rw (← same) refl;
}

abbrev pub files : ToolServer
files = server_of "files" "http://old"

abbrev pub files_deployment : Deployment
files_deployment =
    let d = update_tool_server_deployment platform files (new_deployment "files" "team") in
    record d { metadata = owned ("files" ∷ []) d.metadata }

-- an order that Go may visit a map in: the first two values are exchanged
abbrev pub exchanged : Map EnvVar → List EnvVar
exchanged [] = []
exchanged ((k, e) ∷ []) = e ∷ []
exchanged ((k, e) ∷ (j, f) ∷ m) = f ∷ e ∷ values m

pub values-VisitsEachOnce : VisitsEachOnce values
values-VisitsEachOnce m = Permᴰ.refl (values m)

pub exchanged-VisitsEachOnce : VisitsEachOnce exchanged
exchanged-VisitsEachOnce [] = Permᴰ.nil
exchanged-VisitsEachOnce ((k, e) ∷ []) = Permᴰ.refl (e ∷ [])
exchanged-VisitsEachOnce ((k, e) ∷ (j, f) ∷ m) = Permᴰ.swap refl refl

-- a tool server with two variables of its own
abbrev files_with_env : ToolServer
files_with_env = record files {
  spec = record files.spec { env = variable "ROOT" "/data" ∷ variable "MODE" "read" ∷ [] };
}

abbrev deployment_with_env : Deployment
deployment_with_env =
    let d = update_tool_server_deployment platform files_with_env (new_deployment "files" "team") in
    record d { metadata = owned ("files" ∷ []) d.metadata }

mutate_tool_server_deployment_idempotent_example :
    mutate_tool_server_deployment
      (record platform { env_order = exchanged })
      files_with_env
      deployment_with_env
    ≡ ok deployment_with_env
unfolding mutate_tool_server_deployment
mutate_tool_server_deployment_idempotent_example =
    mutate_tool_server_deployment_idempotent platform files_with_env exchanged
      (new_deployment "files" "team") deployment_with_env platform-SetsOwner values-VisitsEachOnce
      exchanged-VisitsEachOnce (record { labels = tt; annotations = tt }) tt refl

abbrev pub files_service : Service
files_service =
    let s = update_tool_server_service platform files (new_service "files" "team") in
    record s { metadata = owned ("files" ∷ []) s.metadata }

abbrev pub planner_service : Service
planner_service =
    let s = update_service platform planner (new_service "planner" "team") in
    record s { metadata = owned ("planner" ∷ []) s.metadata }

abbrev pub with_files : Memory
with_files = record { agent = helper; tool_server = files; workforce = crew; service = none }

abbrev pub files_stored : Memory
files_stored = (Reconcile.reconcile memory_server platform (team "files") with_files).1

tool_server-ready_example :
    (stored : ToolServer) × ((reader_of files_stored).get_tool_server (team "files") ≡ ok stored)
    × (IsUrlOf files stored.status.url × Shows stored.status (tool_server_ready files))
unfolding Reconcile.reconcile update_tool_server_status_ready
tool_server-ready_example =
    tool_server-ready memory_server memory_server-IsApiServer platform (team "files") files
      with_files files_stored refl refl

abbrev busy : Error
busy = record { kind = conflict; message = "the object has been modified" }

-- the same server, but the Deployment cannot be written
abbrev busy_server : ApiServer
busy_server = record memory_server { create_or_update_deployment = λ d f s. (err busy, s) }

busy_server-IsApiServer : IsApiServer busy_server
busy_server-IsApiServer = record {
  retries = memory_server-IsApiServer.retries;
  set_condition = memory_server-IsApiServer.set_condition;
  agent_key = memory_server-IsApiServer.agent_key;
  agent_status_written = memory_server-IsApiServer.agent_status_written;
  tool_server_key = memory_server-IsApiServer.tool_server_key;
  tool_server_status_written = memory_server-IsApiServer.tool_server_status_written;
  workforce_key = memory_server-IsApiServer.workforce_key;
  workforce_status_written = memory_server-IsApiServer.workforce_status_written;
}

abbrev files_failed : ToolServer × Memory
files_failed = (tool_server_failed busy_server platform files busy with_files).1

tool_server-not_ready_example :
    (Reconcile.reconcile busy_server platform (team "files") with_files
      ≡ (err busy, files_failed.1))
    × ((stored : ToolServer) × ((reader_of files_failed.1).get_tool_server (team "files")
          ≡ ok stored)
        × ((stored.status.url ≡ "http://old")
            × Shows stored.status
                (tool_server_not_ready files "ReconciliationFailed" busy.message)))
unfolding reconcile_tool_server update_tool_server_status_not_ready
tool_server-not_ready_example =
    tool_server-not_ready busy_server busy_server-IsApiServer platform (team "files") files
      files_failed.0 busy with_files with_files files_failed.1 refl refl refl
