-- ===== src/Controller/SubAgents/Watch.antt =====
-- The watch on agents covers every agent whose sub-agents can resolve differently after an update.
use agent_runtime_operator.Base.{
  String, ◌≡◌, refl, false, Option, none, some, List, [], ◌∷◌, arith, any, or-eq-false_left,
  or-eq-false_right,
}
use mathlib.Core.List.{Memᴰ}
use agent_runtime_operator.Api.Meta.{ObjectReference, NamespacedName, key_of, same_key}
use agent_runtime_operator.Api.Agent.{SubAgent, Agent}
use agent_runtime_operator.Cluster.{ok, Reader}
use agent_runtime_operator.Controller.Util.{enqueue_if_absent}
use agent_runtime_operator.Controller.SubAgents.{
  agent_key, resolve_agent_ref, resolve_cluster_agent, resolve_sub_agent_url, Progress,
  resolve_each, resolve_all_sub_agents, references_agent, find_agents_referencing_sub_agent,
}

-- Both clients answer alike for every agent but the one under the key.
abbrev pub SameAgentsExcept : NamespacedName → Reader → Reader → Type 0
SameAgentsExcept k r r' =
    (j : NamespacedName) → same_key j k ≡ false → r.get_agent j ≡ r'.get_agent j

module _ (updated : Agent) (r r' : Reader)
    (same : SameAgentsExcept (key_of updated.metadata) r r') where
  resolve_cluster_agent_same :
      (key : NamespacedName)
      → same_key key (key_of updated.metadata) ≡ false
      → resolve_cluster_agent r key ≡ resolve_cluster_agent r' key
  unfolding resolve_cluster_agent
  resolve_cluster_agent_same key other = rw (same key other, resolve_cluster_agent)

  resolve_agent_ref_same :
      (sub : SubAgent) (namespace : String) (ref : Option ObjectReference)
      → sub.agent_ref ≡ ref
      → references_agent updated namespace sub ≡ false
      → resolve_agent_ref r ref namespace ≡ resolve_agent_ref r' ref namespace
  unfolding references_agent
  resolve_agent_ref_same sub namespace none e h = refl
  resolve_agent_ref_same sub namespace (some ref) e h =
      resolve_cluster_agent_same (agent_key ref namespace) (ground arith)

  resolve_sub_agent_url_same :
      (sub : SubAgent) (namespace : String)
      → references_agent updated namespace sub ≡ false
      → resolve_sub_agent_url r sub namespace ≡ resolve_sub_agent_url r' sub namespace
  unfolding resolve_sub_agent_url
  resolve_sub_agent_url_same sub namespace h =
      rw (resolve_agent_ref_same sub namespace sub.agent_ref refl h)

  resolve_each_same :
      (quote : String → String) (namespace : String) (subs : List SubAgent) (progress : Progress)
      → any (references_agent updated namespace) subs ≡ false
      → resolve_each quote r namespace subs progress ≡ resolve_each quote r' namespace subs progress
  unfolding resolve_each
  resolve_each_same quote namespace [] progress h = refl
  resolve_each_same quote namespace (sub ∷ subs) progress h =
      rw (resolve_sub_agent_url_same sub namespace (or-eq-false_left _ _ h), resolve_each)
        (resolve_each_same quote namespace subs _ (or-eq-false_right _ _ h))

-- An agent that the watch on agents does not enqueue resolves its sub-agents as before the update.
pub sub_agent_watch_complete :
    (quote : String → String) (updated agent : Agent) (agents : List Agent) (r r' : Reader)
    → SameAgentsExcept (key_of updated.metadata) r r'
    → r'.list_agents ≡ ok agents
    → Memᴰ agent agents
    → ¬ Memᴰ (key_of agent.metadata) (find_agents_referencing_sub_agent r' updated)
    → resolve_all_sub_agents quote r agent ≡ resolve_all_sub_agents quote r' agent
unfolding resolve_all_sub_agents find_agents_referencing_sub_agent
sub_agent_watch_complete quote updated agent agents r r' same listed m absent =
    let test = enqueue_if_absent _ agent agents m (rw listed at absent) in
    rw (
      resolve_each_same updated r r' same quote agent.namespace agent.spec.sub_agents ([], []) test)

resolve_agent_ref_alike :
    (r r' : Reader)
    → ((j : NamespacedName) → r.get_agent j ≡ r'.get_agent j)
    → (ref : Option ObjectReference) (namespace : String)
    → resolve_agent_ref r ref namespace ≡ resolve_agent_ref r' ref namespace
unfolding resolve_cluster_agent
resolve_agent_ref_alike r r' same none namespace = refl
resolve_agent_ref_alike r r' same (some ref) namespace = rw (same (agent_key ref namespace))

module _ (r r' : Reader) (same : (j : NamespacedName) → r.get_agent j ≡ r'.get_agent j) where
  resolve_sub_agent_url_alike :
      (sub : SubAgent) (namespace : String)
      → resolve_sub_agent_url r sub namespace ≡ resolve_sub_agent_url r' sub namespace
  unfolding resolve_sub_agent_url
  resolve_sub_agent_url_alike sub namespace =
      rw (resolve_agent_ref_alike r r' same sub.agent_ref namespace)

  resolve_each_alike :
      (quote : String → String) (namespace : String) (subs : List SubAgent) (progress : Progress)
      → resolve_each quote r namespace subs progress ≡ resolve_each quote r' namespace subs progress
  unfolding resolve_each
  resolve_each_alike quote namespace [] progress = refl
  resolve_each_alike quote namespace (sub ∷ subs) progress =
      rw (resolve_sub_agent_url_alike sub namespace, resolve_each)
        (resolve_each_alike quote namespace subs _)

  -- Readers that give the same agents resolve the sub-agents alike.
  pub resolve_all_sub_agents_alike :
      (quote : String → String) (agent : Agent)
      → resolve_all_sub_agents quote r agent ≡ resolve_all_sub_agents quote r' agent
  unfolding resolve_all_sub_agents
  resolve_all_sub_agents_alike quote agent =
      rw (resolve_each_alike quote agent.namespace agent.spec.sub_agents ([], []))
