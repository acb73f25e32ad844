-- ===== src/Api/Gateways.antt =====
-- api/v1alpha1: aigateway_types.go, agentgateway_types.go, toolroute_types.go and
-- agentruntimeconfiguration_types.go
use agent_runtime_operator.Base.{ℕ, String, Option, List}
use agent_runtime_operator.Api.Meta.{
  Opaque, ObjectReference, ObjectMeta, Condition, EnvVar, EmbeddedMetadata,
}
use agent_runtime_operator.Api.Agent.{ExternalUpstream}

pub record AiModel : Type 0 where
  pub name : String
  pub provider : String

pub record AiGatewaySpec : Type 0 where
  pub ai_gateway_class_name : String
  pub port : ℕ
  pub ai_models : List AiModel
  pub env : List EnvVar
  pub env_from : List Opaque
  pub guardrails : List ObjectReference
  pub common_metadata : Option EmbeddedMetadata
  pub pod_metadata : Option EmbeddedMetadata

-- `api_version` and `kind` are the embedded TypeMeta
pub record AiGateway : Type 0 where
  pub api_version : String
  pub kind : String
  pub metadata : ObjectMeta
  pub open metadata use {name, namespace}
  pub spec : AiGatewaySpec
  pub conditions : List Condition

-- the timeout is in nanoseconds, as in Go's `time.Duration`
pub record AgentGatewaySpec : Type 0 where
  pub agent_gateway_class_name : String
  pub replicas : Option ℕ
  pub timeout : Option ℕ
  pub env : List EnvVar
  pub env_from : List Opaque
  pub common_metadata : Option EmbeddedMetadata
  pub pod_metadata : Option EmbeddedMetadata
  pub guardrails : List ObjectReference

pub record AgentGateway : Type 0 where
  pub metadata : ObjectMeta
  pub spec : AgentGatewaySpec
  pub conditions : List Condition

pub record ToolRouteUpstream : Type 0 where
  pub tool_server_ref : Option ObjectReference
  pub external : Option ExternalUpstream

pub record ToolFilter : Type 0 where
  pub allow : List String
  pub deny : List String

pub record ToolRouteSpec : Type 0 where
  pub tool_gateway_ref : Option ObjectReference
  pub upstream : ToolRouteUpstream
  pub tool_filter : Option ToolFilter

pub record ToolRouteStatus : Type 0 where
  pub url : String
  pub conditions : List Condition

pub record ToolRoute : Type 0 where
  pub metadata : ObjectMeta
  pub open metadata use {name, namespace}
  pub spec : ToolRouteSpec
  pub status : ToolRouteStatus

pub record AgentTemplateImages : Type 0 where
  pub google_adk : String
  pub msaf : String

pub record AgentRuntimeConfigurationSpec : Type 0 where
  pub default_framework : String
  pub agent_template_images : Option AgentTemplateImages

pub record AgentRuntimeConfiguration : Type 0 where
  pub metadata : ObjectMeta
  pub spec : AgentRuntimeConfigurationSpec
  pub conditions : List Condition
