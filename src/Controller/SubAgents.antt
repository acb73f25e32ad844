-- ===== src/Controller/SubAgents.antt =====
-- internal/controller/agent_subagent.go
pub mod Watch
pub mod Outcome
pub mod Typed
use agent_runtime_operator.Base.{
  String, ◌<>◌, Bool, true, false, ◌&&◌, not, Option, none, some, List, [], ◌∷◌, ◌++◌, ◌==◌, Map,
  if◌then◌else◌, is_nil, any, length, decimal, join,
}
use agent_runtime_operator.Base.Maps
use agent_runtime_operator.Api.Meta.{ObjectReference, NamespacedName}
use agent_runtime_operator.Api.Agent.{SubAgent, Agent}
use agent_runtime_operator.Cluster.{Error, Result, ok, err, ◌>>=◌, errorf, wrap, Reader}
use agent_runtime_operator.Controller.Util.{get_namespace_with_default, enqueue_if}

pub record ResolvedSubAgent : Type 0 where
  pub url : String
  pub interaction_type : String

-- the key that a sub-agent's reference is looked up by
abbrev pub agent_key : ObjectReference → String → NamespacedName
agent_key ref parent_namespace = record {
  namespace = get_namespace_with_default ref parent_namespace;
  name = ref.name;
}

abbrev pub status_url : NamespacedName → Agent → Result String
status_url key agent =
    if agent.status.url == ""
    then err (
        errorf (
          "cluster Agent " <> key.namespace <> "/" <> key.name
          <> " has no URL in its Status field (may not be ready or have A2A protocol)"))
    else ok agent.status.url

abbrev pub fetched_url : NamespacedName → Result Agent → Result String
fetched_url key (err e) =
    err (wrap ("failed to resolve cluster agent " <> key.namespace <> "/" <> key.name <> ": ") e)
fetched_url key (ok agent) = status_url key agent

-- the cluster lookup at the end of `resolveSubAgentUrl`
unfoldable pub resolve_cluster_agent : Reader → NamespacedName → Result String
resolve_cluster_agent r key = fetched_url key (r.get_agent key)

abbrev pub resolve_agent_ref : Reader → Option ObjectReference → String → Result String
resolve_agent_ref r none parent_namespace =
    err (errorf "subAgent has neither url nor agentRef specified")
resolve_agent_ref r (some ref) parent_namespace =
    resolve_cluster_agent r (agent_key ref parent_namespace)

unfoldable pub resolve_sub_agent_url : Reader → SubAgent → String → Result String
unfolding resolve_cluster_agent
resolve_sub_agent_url r sub parent_namespace =
    if sub.url == "" then resolve_agent_ref r sub.agent_ref parent_namespace else ok sub.url

-- The two variables of the loop of `resolveAllSubAgents`.
abbrev pub Progress : Type 0
Progress = Map ResolvedSubAgent × List String

-- `quote` is `%q` of the fmt package
module _ (quote : String → String) where
  abbrev pub issue : SubAgent → Error → String
  issue sub e = "subAgent " <> quote sub.name <> ": " <> e.message

  -- the body of the loop, after the call of `resolveSubAgentUrl`
  pub add_result : SubAgent → Result String → Progress → Progress
  add_result sub (err e) (resolved, issues) = (resolved, issues ++ issue sub e ∷ [])
  add_result sub (ok url) (resolved, issues) = (
    Maps.insert sub.name (record { url = url; interaction_type = sub.interaction_type }) resolved,
    issues,
  )

  pub resolve_each : Reader → String → List SubAgent → Progress → Progress
  resolve_each r namespace [] progress = progress
  resolve_each r namespace (sub ∷ subs) progress =
      resolve_each r namespace subs
        (add_result sub (resolve_sub_agent_url r sub namespace) progress)

abbrev pub report : List String → Option Error
report [] = none
report (i ∷ issues) = some (
    errorf (
      "failed to resolve "
      <> decimal (length (i ∷ issues))
      <> " subAgent(s): "
      <> join "; " (i ∷ issues)))

-- The map comes back beside the error, as in the source.
unfoldable pub resolve_all_sub_agents :
    (String → String) → Reader → Agent → Map ResolvedSubAgent × Option Error
unfolding resolve_each add_result
resolve_all_sub_agents quote r agent =
    let (resolved, issues) = resolve_each quote r agent.namespace agent.spec.sub_agents ([], []) in
    (resolved, report issues)

-- the test of the inner loop of `findAgentsReferencingSubAgent`
unfoldable pub references_agent : Agent → String → SubAgent → Bool
references_agent updated parent_namespace sub = elim sub.agent_ref [
  | none ↦ false
  | some ref ↦
      ref.name == updated.name
      && get_namespace_with_default ref parent_namespace == updated.namespace
]

unfoldable pub find_agents_referencing_sub_agent : Reader → Agent → List NamespacedName
unfolding references_agent
find_agents_referencing_sub_agent r updated = elim r.list_agents [
  | err e ↦ []
  | ok agents ↦
      enqueue_if (λ agent. any (references_agent updated agent.namespace) agent.spec.sub_agents)
        agents
]
