-- ===== src/Api/Workforce.antt =====
-- api/v1alpha1/agenticworkforce_types.go
use agent_runtime_operator.Base.{String, Option, List}
use agent_runtime_operator.Api.Meta.{ObjectReference, ObjectMeta, Condition}

pub record TransitiveAgent : Type 0 where
  pub name : String
  pub namespace : String
  pub url : String

-- a nil entry point is `none`
pub record AgenticWorkforceSpec : Type 0 where
  pub name : String
  pub description : String
  pub owner : String
  pub tags : List String
  pub entry_point_agents : List (Option ObjectReference)

pub record AgenticWorkforceStatus : Type 0 where
  pub conditions : List Condition
  pub transitive_agents : List TransitiveAgent
  pub transitive_tools : List String

pub record AgenticWorkforce : Type 0 where
  pub metadata : ObjectMeta
  pub open metadata use {name, namespace}
  pub spec : AgenticWorkforceSpec
  pub status : AgenticWorkforceStatus
