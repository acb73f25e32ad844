-- ===== src/Api/Meta.antt =====
-- The Kubernetes types that the custom resources and the controllers are built from (k8s.io/api and
-- k8s.io/apimachinery), and api/v1alpha1/common_types.go. Numbers are non-negative: the schema of
-- every resource demands it of ports and replicas.
use agent_runtime_operator.Base.{ℕ, String, Bool, Option, List, Map, ◌==◌, ◌&&◌}

-- The serialised form of a Kubernetes value that the operator only copies, such as a volume's
-- source or a resource list.
abbrev pub Opaque : Type 0
Opaque = String

pub record ObjectReference : Type 0 where
  pub api_version : String
  pub kind : String
  pub name : String
  pub namespace : String

pub record NamespacedName : Type 0 where
  pub namespace : String
  pub name : String

-- `labels` and `annotations` are `none` where Go's map is nil. `created` says that the creation
-- timestamp is not zero.
pub record ObjectMeta : Type 0 where
  pub name : String
  pub namespace : String
  pub labels : Option (Map String)
  pub annotations : Option (Map String)
  pub generation : ℕ
  pub resource_version : String
  pub created : Bool
  pub owner_references : List Opaque

pub data ConditionStatus : Type 0 where
  condition_true condition_false condition_unknown : ConditionStatus

pub record Condition : Type 0 where
  pub type : String
  pub status : ConditionStatus
  pub observed_generation : ℕ
  pub reason : String
  pub message : String

-- `value_from` is the rest of the entry
pub record EnvVar : Type 0 where
  pub name : String
  pub value : String
  pub value_from : Option Opaque

pub record Volume : Type 0 where
  pub name : String
  pub source : Opaque

pub record VolumeMount : Type 0 where
  pub name : String
  pub mount_path : String
  pub options : Opaque

pub record ResourceRequirements : Type 0 where
  pub requests : Map String
  pub limits : Map String

-- EmbeddedMetadata; a nil map is an empty one here, since the code only copies from it
pub record EmbeddedMetadata : Type 0 where
  pub labels : Map String
  pub annotations : Map String

-- the key under which the API server keeps an object
abbrev pub key_of : ObjectMeta → NamespacedName
key_of m = record { namespace = m.namespace; name = m.name }

abbrev pub same_key : NamespacedName → NamespacedName → Bool
same_key a b = a.namespace == b.namespace && a.name == b.name
