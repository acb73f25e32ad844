-- ===== src/Controller/Workload/Reached.antt =====
-- When a Service reaches the pods of a Deployment.
use agent_runtime_operator.Base.{
  String, ◌≡◌, sym, ◌⊎◌, inl, inr, true, Option, some, Map, map, Bool-cases, if◌then◌else◌,
}
use agent_runtime_operator.Base.Maps.{HasDistinctKeys, Holds, copy-Holds}
use agent_runtime_operator.Api.Meta.{ObjectMeta, EmbeddedMetadata}
use agent_runtime_operator.Cluster.{Result, ok, ◌>>=◌, bind-ok, ok-injective}
use agent_runtime_operator.Controller.Util.{build_pod_template_metadata}
use agent_runtime_operator.Controller.Workload.{
  ContainerPort, Container, Deployment, ServicePort, Service,
}
use agent_runtime_operator.Controller.Workload.Laws.{find_container}

-- the labels of the pods have every entry of the selector
abbrev pub Selects : Map String → Deployment → Type 0
Selects selector d =
    (labels : Map String) × (d.template_labels ≡ some labels) × Holds labels selector

-- The Service selects the pods of the Deployment, and its ports lead to those of the container that
-- has the name, under the same names.
pub record Reaches (name : String) (s : Service) (d : Deployment) : Type 0 where
  pub selects : Selects s.selector d
  pub container : Container
  pub found : find_container name d.pod.containers ≡ some container
  pub target_ports :
      map (λ (q : ServicePort). q.target_port) s.ports
      ≡ map (λ (q : ContainerPort). q.container_port) container.ports
  pub port_names :
      map (λ (q : ServicePort). q.name) s.ports
      ≡ map (λ (q : ContainerPort). q.name) container.ports

-- The Deployment has the selector that it had before it was updated, or one that selects its pods.
abbrev pub OwnsPods : Deployment → Deployment → Type 0
OwnsPods before d =
    ((before.metadata.created ≡ true) × (d.selector ≡ before.selector))
    ⊎ ((selector : Map String) × (d.selector ≡ some selector) × Selects selector d)

pub build_pod_template_metadata-Holds :
    (selector : Map String) (common pod : Option EmbeddedMetadata)
    → HasDistinctKeys selector
    → Holds (build_pod_template_metadata selector common pod).0 selector
unfolding build_pod_template_metadata
build_pod_template_metadata-Holds selector common pod distinct = copy-Holds _ selector distinct

pub selector-OwnsPods :
    (before d : Deployment) (selector : Map String)
    → d.selector ≡ (if before.metadata.created then before.selector else some selector)
    → Selects selector d
    → OwnsPods before d
selector-OwnsPods before d selector h selects = elim (Bool-cases before.metadata.created) [
  | inl created ↦ inl (created, rw created at h)
  | inr fresh ↦ inr (selector, rw fresh at h, selects)
]

-- an update that ends with the metadata that SetControllerReference returns
pub mutated {ℓ} :
    {X : Type ℓ} (r : Result ObjectMeta) (put : ObjectMeta → X) (x : X)
    → (r >>= λ m. ok (put m)) ≡ ok x
    → (m : ObjectMeta) × (x ≡ put m)
mutated r put x h = let (m, _, h') = bind-ok r (λ m. ok (put m)) h in (m, sym (ok-injective h'))
