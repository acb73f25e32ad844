-- ===== src/Controller/AgentDeployment.antt =====
-- `ensureDeployment` and `ensureService` of internal/controller/agent_reconciler.go: what the
-- functions that `CreateOrUpdate` is given do to a Deployment and to a Service
pub mod Laws
pub mod Idempotent
pub mod Reached
pub mod Total
use agent_runtime_operator.Base.{
  String, Option, none, some, List, [], ◌∷◌, ◌==◌, Map, map, if◌then◌else◌, or_else,
}
use agent_runtime_operator.Api.Meta.{ObjectMeta, EnvVar}
use agent_runtime_operator.Api.Agent.{AgentProtocol, Agent}
use agent_runtime_operator.Api.Gateways.{AiGateway, AgentTemplateImages, AgentRuntimeConfiguration}
use agent_runtime_operator.Cluster.{Result, ok, err, ◌>>=◌, wrap}
use agent_runtime_operator.Controller.Util.{app_label, build_pod_template_metadata}
use agent_runtime_operator.Controller.Env.{merge_environment_variables}
use agent_runtime_operator.Controller.SubAgents.{ResolvedSubAgent}
use agent_runtime_operator.Controller.Tools.{ResolvedTool}
use agent_runtime_operator.Controller.AiGateways.{build_ai_gateway_service_url}
use agent_runtime_operator.Controller.Names.{agent_container_name}
use agent_runtime_operator.Controller.Protocols.{generate_readiness_probe}
use agent_runtime_operator.Controller.Template.{Runtime, build_template_environment_vars}
use agent_runtime_operator.Controller.Workload.{
  ContainerPort, Container, Deployment, ServicePort, Service, update_container, apply_labels,
  get_or_default_resource_requirements,
}

abbrev pub google_adk_framework : String
google_adk_framework = "google-adk"

abbrev pub msaf_framework : String
msaf_framework = "msaf"

abbrev pub default_template_image_adk : String
default_template_image_adk = "ghcr.io/agentic-layer/agent-template-adk:0.8.0"

abbrev pub default_template_image_msaf : String
default_template_image_msaf = "ghcr.io/agentic-layer/agent-template-msaf:0.1.0"

abbrev pub default_template_image_fallback : String
default_template_image_fallback = "invalid"

abbrev pub configured_framework : Option AgentRuntimeConfiguration → String
configured_framework none = google_adk_framework
configured_framework (some config) =
    if config.spec.default_framework == ""
    then google_adk_framework
    else config.spec.default_framework

unfoldable pub resolve_effective_framework : Agent → Option AgentRuntimeConfiguration → String
resolve_effective_framework agent config =
    if agent.spec.framework == "" then configured_framework config else agent.spec.framework

-- the first `switch` of `getTemplateImage`, "" if it returns nothing
abbrev configured_image_of : String → Option AgentTemplateImages → String
configured_image_of framework none = ""
configured_image_of framework (some images) =
    if framework == google_adk_framework
    then images.google_adk
    else if framework == msaf_framework
    then images.msaf
    else ""

abbrev pub configured_image : String → Option AgentRuntimeConfiguration → String
configured_image framework none = ""
configured_image framework (some config) =
    configured_image_of framework config.spec.agent_template_images

unfoldable pub get_template_image : String → Option AgentRuntimeConfiguration → String
get_template_image framework config =
    let configured = configured_image framework config in
    if configured == ""
    then (if framework == google_adk_framework
        then default_template_image_adk
        else if framework == msaf_framework
        then default_template_image_msaf
        else default_template_image_fallback)
    else configured

-- the image of the agent's container
unfoldable pub effective_image : Agent → Option AgentRuntimeConfiguration → String
unfolding get_template_image resolve_effective_framework
effective_image agent config =
    if agent.spec.image == ""
    then get_template_image (resolve_effective_framework agent config) config
    else agent.spec.image

abbrev pub selector_labels : Agent → Map String
selector_labels agent = (app_label, agent.name) ∷ []

abbrev pub managed_labels : Agent → Option AgentRuntimeConfiguration → Map String
managed_labels agent config =
    (app_label, agent.name) ∷ ("framework", resolve_effective_framework agent config) ∷ []

abbrev pub container_port : AgentProtocol → ContainerPort
container_port p = record { name = p.name; container_port = p.port; protocol = "TCP" }

abbrev pub service_port : AgentProtocol → ServicePort
service_port p = record { name = p.name; port = p.port; target_port = p.port; protocol = "TCP" }

abbrev pub gateway_url : Option AiGateway → Option String
gateway_url none = none
gateway_url (some gateway) = some (build_ai_gateway_service_url gateway)

abbrev pub prefixed : Result (List EnvVar) → Result (List EnvVar)
prefixed (ok env) = ok env
prefixed (err e) = err (wrap "failed to build template environment variables: " e)

-- What the operator does not implement: the order in which Go visits `userEnvMap`, and
-- `ctrl.SetControllerReference`, on the metadata of the owner and of the object.
pub record Platform : Type 0 where
  pub go : Runtime
  pub env_order : Map EnvVar → List EnvVar
  pub set_controller_reference : ObjectMeta → ObjectMeta → Result ObjectMeta

-- What the reconciliation has resolved before it writes.
pub record Resolved : Type 0 where
  pub sub_agents : Map ResolvedSubAgent
  pub tools : Map ResolvedTool
  pub ai_gateway : Option AiGateway
  pub config : Option AgentRuntimeConfiguration

module _ (p : Platform) (agent : Agent) (resolved : Resolved) where
  -- `allEnvVars`
  unfoldable pub all_env_vars : Result (List EnvVar)
  unfolding build_template_environment_vars merge_environment_variables
  all_env_vars = do
    template ← prefixed (
        build_template_environment_vars p.go agent resolved.sub_agents resolved.tools
          (gateway_url resolved.ai_gateway))
    ok (merge_environment_variables p.env_order template agent.spec.env)

  -- the assignments to the agent's container
  unfoldable pub update_agent_container : List EnvVar → Container → Container
  update_agent_container env c = record c {
    image = effective_image agent resolved.config;
    ports = map container_port agent.spec.protocols;
    env = env;
    env_from = agent.spec.env_from;
    volume_mounts = agent.spec.volume_mounts;
    readiness_probe = generate_readiness_probe agent;
    resources = get_or_default_resource_requirements agent.spec.resources;
  }

  -- every assignment to the Deployment but its owner
  unfoldable pub update_deployment : List EnvVar → Deployment → Deployment
  unfolding update_agent_container
  update_deployment env d =
      let (labels, annotations) =
        build_pod_template_metadata (selector_labels agent) agent.spec.common_metadata
          agent.spec.pod_metadata in
      record d {
        metadata =
            apply_labels d.metadata agent.spec.common_metadata
              (managed_labels agent resolved.config);
        selector = if d.metadata.created then d.selector else some (selector_labels agent);
        template_labels = some labels;
        template_annotations = annotations;
        replicas = some (or_else agent.spec.replicas (or_else d.replicas 0));
        pod = record d.pod {
          containers =
              update_container agent_container_name (update_agent_container env) d.pod.containers;
          volumes = agent.spec.volumes;
        };
      }

  -- the function that `ensureDeployment` passes to `CreateOrUpdate`
  unfoldable pub mutate_deployment : Deployment → Result Deployment
  unfolding all_env_vars
  mutate_deployment d = do
    env ← all_env_vars
    let d' = update_deployment env d
    meta ← p.set_controller_reference agent.metadata d'.metadata
    ok (record d' { metadata = meta })

-- the function that `ensureService` passes to `CreateOrUpdate`
module _ (p : Platform) (agent : Agent) where
  unfoldable pub update_service : Service → Service
  update_service s = record s {
    metadata = apply_labels s.metadata agent.spec.common_metadata ((app_label, agent.name) ∷ []);
    ports = map service_port agent.spec.protocols;
    selector = selector_labels agent;
    type = "ClusterIP";
  }

  unfoldable pub mutate_service : Service → Result Service
  unfolding update_service
  mutate_service s = do
    let s' = update_service s
    meta ← p.set_controller_reference agent.metadata s'.metadata
    ok (record s' { metadata = meta })
