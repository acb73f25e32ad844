-- ===== src/Controller/Workforce.antt =====
-- The entry points and the watch of internal/controller/agenticworkforce_reconciler.go
pub mod Watch
pub mod Traverse
pub mod Reconcile
use agent_runtime_operator.Base.{
  String, ◌<>◌, Bool, true, false, ◌&&◌, ◌||◌, Option, none, some, List, [], ◌∷◌, ◌==◌,
  if◌then◌else◌, any,
}
use agent_runtime_operator.Api.Meta.{ObjectReference, NamespacedName, key_of, same_key}
use agent_runtime_operator.Api.Agent.{Agent}
use agent_runtime_operator.Api.Workforce.{TransitiveAgent, AgenticWorkforce}
use agent_runtime_operator.Cluster.{Result, ok, err, Reader}
use agent_runtime_operator.Controller.Util.{get_namespace_with_default}

-- the text `namespace/name`
abbrev pub text_key : String → String → String
text_key namespace name = namespace <> ("/" <> name)

-- is this entry point the agent?
unfoldable pub is_entry : Agent → String → Option ObjectReference → Bool
is_entry agent namespace none = false
is_entry agent namespace (some ref) =
    text_key (get_namespace_with_default ref namespace) ref.name
    == text_key agent.namespace agent.name

unfoldable pub is_transitive : Agent → TransitiveAgent → Bool
is_transitive agent t = t.name == agent.name && t.namespace == agent.namespace

-- The two inner loops: does the workforce mention the agent?
unfoldable pub mentions : Agent → AgenticWorkforce → Bool
unfolding is_entry is_transitive
mentions agent w =
    any (is_entry agent w.namespace) w.spec.entry_point_agents
    || any (is_transitive agent) w.status.transitive_agents

abbrev pub contains : NamespacedName → List NamespacedName → Bool
contains k ks = any (same_key k) ks

-- The outer loop; the last argument is the set `enqueued`.
unfoldable pub enqueue_each :
    Agent → List AgenticWorkforce → List NamespacedName → List NamespacedName
unfolding mentions
enqueue_each agent [] enqueued = []
enqueue_each agent (w ∷ ws) enqueued =
    let key = key_of w.metadata in
    let without = enqueue_each agent ws enqueued in
    let with_key = enqueue_each agent ws (key ∷ enqueued) in
    if contains key enqueued then without else if mentions agent w then key ∷ with_key else without

unfoldable pub find_workforces_referencing_agent : Reader → Agent → List NamespacedName
unfolding enqueue_each
find_workforces_referencing_agent r agent = elim r.list_workforces [
  | err e ↦ []
  | ok workforces ↦ enqueue_each agent workforces []
]
