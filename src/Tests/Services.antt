-- ===== src/Tests/Services.antt =====
-- The theorems on how the workloads are reached, at concrete objects.
use mathlib.Core.List.{Memᴰ}
use agent_runtime_operator.Base.{String, ◌≡◌, ◌<>◌, ◌==◌, refl, ◌⊎◌, false, none, some, [], ◌∷◌}
use agent_runtime_operator.Api.Agent.{AgentProtocol}
use agent_runtime_operator.Controller.Names.{agent_container_name}
use agent_runtime_operator.Controller.Protocols.{
  Probe, http_get, tcp_socket, find_a2a_protocol, build_a2a_agent_card_url,
  generate_readiness_probe,
}
use agent_runtime_operator.Controller.Protocols.Advertised.{
  host_url, build_a2a_agent_card_url-probe,
}
use agent_runtime_operator.Controller.Workload.{ServicePort, new_deployment, new_service}
use agent_runtime_operator.Controller.Workload.Reached.{Reaches, OwnsPods}
use agent_runtime_operator.Controller.AgentDeployment.{mutate_deployment, mutate_service}
use agent_runtime_operator.Controller.AgentDeployment.Reached.{mutate_service-Reaches}
use agent_runtime_operator.Controller.ToolServers.{
  tool_server_container_name, mutate_tool_server_deployment, mutate_tool_server_service,
}
use agent_runtime_operator.Controller.ToolServers.Reached.{mutate_tool_server_service-Reaches}
use agent_runtime_operator.Tests.Agents.{planner_deployment}
use agent_runtime_operator.Tests.Samples.{planner, platform, nothing_resolved, with_sidecar}
use agent_runtime_operator.Tests.Updates.{files, files_deployment, files_service, planner_service}

mutate_service-Reaches_example :
    Reaches agent_container_name planner_service planner_deployment
    × OwnsPods with_sidecar planner_deployment
unfolding mutate_deployment mutate_service
mutate_service-Reaches_example =
    mutate_service-Reaches platform planner nothing_resolved with_sidecar planner_deployment
      (new_service "planner" "team") planner_service refl refl

mutate_tool_server_service-Reaches_example :
    (reaches : Reaches tool_server_container_name files_service files_deployment) × ((probe : Probe)
      × (port : ServicePort) × (reaches.container.readiness_probe ≡ some probe)
      × (probe.handler ≡ tcp_socket port.target_port)
      × (files_service.ports ≡ port ∷ []))
    × OwnsPods (new_deployment "files" "team") files_deployment
unfolding mutate_tool_server_deployment mutate_tool_server_service
mutate_tool_server_service-Reaches_example =
    mutate_tool_server_service-Reaches platform files (new_deployment "files" "team")
      files_deployment (new_service "files" "team") files_service refl refl

build_a2a_agent_card_url-probe_example :
    ((find_a2a_protocol planner ≡ none)
      × (build_a2a_agent_card_url planner ≡ "")
      × (generate_readiness_probe planner ≡ none))
    ⊎ ((q : AgentProtocol) × (probe : Probe) × (path : String) × (find_a2a_protocol planner
          ≡ some q)
        × Memᴰ q planner.spec.protocols
        × (generate_readiness_probe planner ≡ some probe)
        × (probe.handler ≡ http_get path q.port)
        × (build_a2a_agent_card_url planner ≡ host_url planner q.port <> path)
        × ((build_a2a_agent_card_url planner == "") ≡ false))
build_a2a_agent_card_url-probe_example = build_a2a_agent_card_url-probe planner
