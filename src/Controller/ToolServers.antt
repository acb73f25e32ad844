-- ===== src/Controller/ToolServers.antt =====
-- internal/controller/toolserver_reconciler.go: what the functions that `CreateOrUpdate` is given do
-- to a tool server's Deployment and Service. `Reconcile` has the rest of the file.
pub mod Reconcile
pub mod Outcomes
pub mod Laws
pub mod Reached
pub mod Resolves
pub mod Succeeds
use agent_runtime_operator.Base.{
  ℕ, String, Option, none, some, List, [], ◌∷◌, Map, if◌then◌else◌, or_else,
}
use agent_runtime_operator.Api.Meta.{EnvVar}
use agent_runtime_operator.Api.ToolServer.{ToolServer}
use agent_runtime_operator.Cluster.{Result, ok, err, ◌>>=◌}
use agent_runtime_operator.Controller.Util.{app_label, build_pod_template_metadata}
use agent_runtime_operator.Controller.Env.{merge_environment_variables}
use agent_runtime_operator.Controller.Protocols.{Probe, tcp_socket}
use agent_runtime_operator.Controller.Template.{variable}
use agent_runtime_operator.Controller.Workload.{
  ContainerPort, Container, Deployment, ServicePort, Service, update_container, apply_labels,
  get_or_default_resource_requirements,
}
use agent_runtime_operator.Controller.AgentDeployment.{Platform}

abbrev pub tool_server_container_name : String
tool_server_container_name = "toolserver"

unfoldable pub default_tool_server_env_vars : ToolServer → List EnvVar
default_tool_server_env_vars t =
    variable "OTEL_SEMCONV_STABILITY_OPT_IN" "gen_ai_latest_experimental"
    ∷ variable "OTEL_SERVICE_NAME" t.name
    ∷ []

unfoldable pub build_readiness_probe : ℕ → Probe
build_readiness_probe port = record {
  handler = tcp_socket port;
  initial_delay_seconds = 10;
  period_seconds = 10;
  timeout_seconds = 3;
  success_threshold = 1;
  failure_threshold = 10;
}

abbrev pub tool_server_selector : ToolServer → Map String
tool_server_selector t = (app_label, t.name) ∷ []

abbrev pub tool_server_labels : ToolServer → Map String
tool_server_labels t =
    (app_label, t.name) ∷ ("protocol", t.spec.protocol) ∷ ("transport", t.spec.transport_type) ∷ []

abbrev pub container_port : ToolServer → ContainerPort
container_port t = record { name = "toolserver"; container_port = t.spec.port; protocol = "TCP" }

abbrev pub service_port : ToolServer → ServicePort
service_port t = record {
  name = "toolserver";
  port = t.spec.port;
  target_port = t.spec.port;
  protocol = "TCP";
}

module _ (p : Platform) (t : ToolServer) where
  -- the assignments to the tool server's container
  unfoldable pub update_tool_server_container : Container → Container
  unfolding default_tool_server_env_vars merge_environment_variables build_readiness_probe
  update_tool_server_container c = record c {
    image = t.spec.image;
    command = t.spec.command;
    args = t.spec.args;
    ports = container_port t ∷ [];
    env = merge_environment_variables p.env_order (default_tool_server_env_vars t) t.spec.env;
    env_from = t.spec.env_from;
    readiness_probe = some (build_readiness_probe t.spec.port);
    resources = get_or_default_resource_requirements t.spec.resources;
  }

  -- every assignment to the Deployment but its owner
  unfoldable pub update_tool_server_deployment : Deployment → Deployment
  unfolding update_tool_server_container
  update_tool_server_deployment d =
      let (labels, annotations) =
        build_pod_template_metadata (tool_server_selector t) t.spec.common_metadata
          t.spec.pod_metadata in
      record d {
        metadata = apply_labels d.metadata t.spec.common_metadata (tool_server_labels t);
        selector = if d.metadata.created then d.selector else some (tool_server_selector t);
        template_labels = some labels;
        template_annotations = annotations;
        replicas = some (or_else t.spec.replicas 1);
        pod = record d.pod {
          containers =
              update_container tool_server_container_name update_tool_server_container
                d.pod.containers;
          image_pull_secrets = t.spec.image_pull_secrets;
        };
      }

  unfoldable pub mutate_tool_server_deployment : Deployment → Result Deployment
  unfolding update_tool_server_deployment
  mutate_tool_server_deployment d = do
    let d' = update_tool_server_deployment d
    meta ← p.set_controller_reference t.metadata d'.metadata
    ok (record d' { metadata = meta })

  unfoldable pub update_tool_server_service : Service → Service
  update_tool_server_service s = record s {
    metadata = apply_labels s.metadata t.spec.common_metadata (tool_server_labels t);
    ports = service_port t ∷ [];
    selector = tool_server_selector t;
    type = "ClusterIP";
  }

  unfoldable pub mutate_tool_server_service : Service → Result Service
  unfolding update_tool_server_service
  mutate_tool_server_service s = do
    let s' = update_tool_server_service s
    meta ← p.set_controller_reference t.metadata s'.metadata
    ok (record s' { metadata = meta })
