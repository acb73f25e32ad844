-- ===== src/Controller/Util.antt =====
-- internal/controller/util.go, and the loop that the watch handlers share
pub mod Metadata
use agent_runtime_operator.Base.{
  String, ◌≡◌, Bool, false, inl, inr, Option, none, some, List, [], ◌∷◌, ◌==◌, Map, if◌then◌else◌,
  or_else, find_first, collect, collect-mem, Bool-cases,
}
use agent_runtime_operator.Base.Maps
use mathlib.Core.List.{Memᴰ}
use agent_runtime_operator.Api.Meta.{
  ObjectReference, NamespacedName, ObjectMeta, Condition, EnvVar, EmbeddedMetadata, key_of,
}
use agent_runtime_operator.Api.Agent.{Agent}

abbrev pub app_label : String
app_label = "app"

abbrev pub condition_type_ready : String
condition_type_ready = "Ready"

unfoldable pub find_env_var : List EnvVar → String → Option EnvVar
find_env_var env_vars name = find_first (λ e. e.name == name) env_vars

unfoldable pub get_namespace_with_default : ObjectReference → String → String
get_namespace_with_default ref default_namespace =
    if ref.namespace == "" then default_namespace else ref.namespace

unfoldable pub find_ready_condition : List Condition → Option Condition
find_ready_condition conditions = find_first (λ c. c.type == condition_type_ready) conditions

-- `if len(src) > 0 { if dst == nil { dst = make(…) }; maps.Copy(dst, src) }`
abbrev pub copy_into : Option (Map String) → Map String → Option (Map String)
copy_into dst [] = dst
copy_into dst (e ∷ src) = some (Maps.copy (or_else dst []) (e ∷ src))

unfoldable pub apply_common_metadata : ObjectMeta → Option EmbeddedMetadata → ObjectMeta
apply_common_metadata obj none = obj
apply_common_metadata obj (some common) = record obj {
  labels = copy_into obj.labels common.labels;
  annotations = copy_into obj.annotations common.annotations;
}

abbrev pub labels_of : Option EmbeddedMetadata → Map String
labels_of none = []
labels_of (some m) = m.labels

abbrev pub annotations_of : Option EmbeddedMetadata → Map String
annotations_of none = []
annotations_of (some m) = m.annotations

abbrev pub nil_if_empty : Map String → Option (Map String)
nil_if_empty [] = none
nil_if_empty (e ∷ m) = some (e ∷ m)

-- the labels and the annotations of the pod template
unfoldable pub build_pod_template_metadata :
    Map String
    → Option EmbeddedMetadata
    → Option EmbeddedMetadata
    → Map String × Option (Map String)
build_pod_template_metadata selector_labels common pod =
    let user = Maps.copy (Maps.copy [] (labels_of common)) (labels_of pod) in
    let pod_labels = Maps.copy user selector_labels in
    let pod_annotations = Maps.copy (Maps.copy [] (annotations_of common)) (annotations_of pod) in
    (pod_labels, nil_if_empty pod_annotations)

-- the loop `for _, agent := range agentList.Items` of a watch handler
unfoldable pub enqueue_if : (Agent → Bool) → List Agent → List NamespacedName
enqueue_if p agents = collect p (λ a. key_of a.metadata) agents

-- An agent that is not enqueued fails the test.
pub enqueue_if_absent :
    (p : Agent → Bool) (a : Agent) (agents : List Agent)
    → Memᴰ a agents
    → ¬ Memᴰ (key_of a.metadata) (enqueue_if p agents)
    → p a ≡ false
unfolding enqueue_if
enqueue_if_absent p a agents m absent = elim (Bool-cases (p a)) [
  | inl passes ↦ absurd (absent (collect-mem p (λ a. key_of a.metadata) a agents m passes))
  | inr fails ↦ fails
]
