-- ===== src/Controller/Workload.antt =====
-- Deployments and Services as far as the operator writes them, and what the two reconcilers that
-- write them share: the container that is theirs, the labels, and the default resources.
pub mod Laws
pub mod Again
pub mod Reached
use agent_runtime_operator.Base.{
  ℕ, String, false, Option, none, some, List, [], ◌∷◌, ◌==◌, Map, if◌then◌else◌, or_else,
}
use agent_runtime_operator.Base.Maps
use agent_runtime_operator.Api.Meta.{
  Opaque, ObjectMeta, EnvVar, Volume, VolumeMount, ResourceRequirements, EmbeddedMetadata,
}
use agent_runtime_operator.Controller.Util.{apply_common_metadata}
use agent_runtime_operator.Controller.Protocols.{Probe}

pub record ContainerPort : Type 0 where
  pub name : String
  pub container_port : ℕ
  pub protocol : String

-- `rest` is what the operator neither reads nor writes
pub record Container : Type 0 where
  pub name : String
  pub image : String
  pub command : List String
  pub args : List String
  pub ports : List ContainerPort
  pub env : List EnvVar
  pub env_from : List Opaque
  pub volume_mounts : List VolumeMount
  pub readiness_probe : Option Probe
  pub resources : ResourceRequirements
  pub rest : Opaque

pub record PodSpec : Type 0 where
  pub containers : List Container
  pub volumes : List Volume
  pub image_pull_secrets : List Opaque
  pub rest : Opaque

pub record Deployment : Type 0 where
  pub metadata : ObjectMeta
  pub selector : Option (Map String)
  pub replicas : Option ℕ
  pub template_labels : Option (Map String)
  pub template_annotations : Option (Map String)
  pub pod : PodSpec

pub record ServicePort : Type 0 where
  pub name : String
  pub port : ℕ
  pub target_port : ℕ
  pub protocol : String

pub record Service : Type 0 where
  pub metadata : ObjectMeta
  pub ports : List ServicePort
  pub selector : Map String
  pub type : String

abbrev pub blank_container : String → Container
blank_container name = record {
  name = name;
  image = "";
  command = [];
  args = [];
  ports = [];
  env = [];
  env_from = [];
  volume_mounts = [];
  readiness_probe = none;
  resources = record { requests = []; limits = [] };
  rest = "";
}

-- `findContainerByName`, the new container if there is none, and the update of the one found. The
-- update does not touch the name.
unfoldable pub update_container : String → (Container → Container) → List Container → List Container
update_container name update [] = update (blank_container name) ∷ []
update_container name update (c ∷ cs) =
    if c.name == name then update c ∷ cs else c ∷ update_container name update cs

-- the labels: a map if there was none, then the user's, then the managed ones
unfoldable pub apply_labels : ObjectMeta → Option EmbeddedMetadata → Map String → ObjectMeta
unfolding apply_common_metadata
apply_labels meta common managed =
    let user =
      apply_common_metadata (record meta { labels = some (or_else meta.labels []) }) common in
    record user { labels = some (Maps.copy (or_else user.labels []) managed) }

-- `getOrDefaultResourceRequirements` and its twin for tool servers
unfoldable pub get_or_default_resource_requirements :
    Option ResourceRequirements → ResourceRequirements
get_or_default_resource_requirements (some r) = r
get_or_default_resource_requirements none = record {
  requests = ("memory", "300Mi") ∷ ("cpu", "100m") ∷ [];
  limits = ("memory", "500Mi") ∷ ("cpu", "500m") ∷ [];
}

-- the object that `CreateOrUpdate` is given
abbrev pub new_metadata : String → String → ObjectMeta
new_metadata name namespace = record {
  name = name;
  namespace = namespace;
  labels = none;
  annotations = none;
  generation = 0;
  resource_version = "";
  created = false;
  owner_references = [];
}

abbrev pub new_deployment : String → String → Deployment
new_deployment name namespace = record {
  metadata = new_metadata name namespace;
  selector = none;
  replicas = none;
  template_labels = none;
  template_annotations = none;
  pod = record { containers = []; volumes = []; image_pull_secrets = []; rest = "" };
}

abbrev pub new_service : String → String → Service
new_service name namespace = record {
  metadata = new_metadata name namespace;
  ports = [];
  selector = [];
  type = "";
}
