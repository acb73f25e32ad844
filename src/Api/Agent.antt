-- ===== src/Api/Agent.antt =====
-- api/v1alpha1/agent_types.go, and ExternalUpstream of toolroute_types.go
use agent_runtime_operator.Base.{ℕ, String, Bool, Option, List}
use agent_runtime_operator.Api.Meta.{
  Opaque, ObjectReference, ObjectMeta, Condition, EnvVar, Volume, VolumeMount, ResourceRequirements,
  EmbeddedMetadata,
}

abbrev pub a2a_protocol : String
a2a_protocol = "A2A"

pub record AgentProtocol : Type 0 where
  pub name : String
  pub type : String
  pub port : ℕ
  pub path : String

pub record SubAgent : Type 0 where
  pub name : String
  pub agent_ref : Option ObjectReference
  pub url : String
  pub interaction_type : String

pub record ExternalUpstream : Type 0 where
  pub url : String

pub record AgentToolUpstream : Type 0 where
  pub tool_route_ref : Option ObjectReference
  pub tool_server_ref : Option ObjectReference
  pub external : Option ExternalUpstream

pub record AgentTool : Type 0 where
  pub name : String
  pub upstream : AgentToolUpstream
  pub propagated_headers : List String

pub record AgentSpec : Type 0 where
  pub framework : String
  pub replicas : Option ℕ
  pub image : String
  pub description : String
  pub instruction : String
  pub model : String
  pub sub_agents : List SubAgent
  pub tools : List AgentTool
  pub protocols : List AgentProtocol
  pub exposed : Bool
  pub ai_gateway_ref : Option ObjectReference
  pub env : List EnvVar
  pub env_from : List Opaque
  pub volume_mounts : List VolumeMount
  pub volumes : List Volume
  pub resources : Option ResourceRequirements
  pub common_metadata : Option EmbeddedMetadata
  pub pod_metadata : Option EmbeddedMetadata

pub record AgentStatus : Type 0 where
  pub conditions : List Condition
  pub url : String
  pub ai_gateway_ref : Option ObjectReference

pub record Agent : Type 0 where
  pub metadata : ObjectMeta
  pub open metadata use {name, namespace}
  pub spec : AgentSpec
  pub status : AgentStatus
