-- ===== src/Api/ToolServer.antt =====
-- api/v1alpha1/toolserver_types.go
use agent_runtime_operator.Base.{ℕ, String, Option, List}
use agent_runtime_operator.Api.Meta.{
  Opaque, ObjectMeta, Condition, EnvVar, ResourceRequirements, EmbeddedMetadata,
}

pub record ToolServerSpec : Type 0 where
  pub protocol : String
  pub transport_type : String
  pub image : String
  pub image_pull_secrets : List Opaque
  pub command : List String
  pub args : List String
  pub port : ℕ
  pub path : String
  pub replicas : Option ℕ
  pub env : List EnvVar
  pub env_from : List Opaque
  pub resources : Option ResourceRequirements
  pub common_metadata : Option EmbeddedMetadata
  pub pod_metadata : Option EmbeddedMetadata

pub record ToolServerStatus : Type 0 where
  pub conditions : List Condition
  pub url : String

pub record ToolServer : Type 0 where
  pub metadata : ObjectMeta
  pub open metadata use {name, namespace}
  pub spec : ToolServerSpec
  pub status : ToolServerStatus
