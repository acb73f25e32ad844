-- ===== src/Controller/Workforce/Traverse/Reach.antt =====
-- The agents that the entry points of a workforce lead to, and the entries of `visitedAgents` that
-- stand for them and for the remote agents they name.
use mathlib.Core.List.{Memᴰ}
use agent_runtime_operator.Base.{
  String, ◌≡◌, sym, false, ◌∙◌, ◌⊎◌, Option, none, some, List, ◌==◌, eq_iff, Bool-cases,
  some-injective, inl, inr,
}
use agent_runtime_operator.Base.Maps
use agent_runtime_operator.Base.Maps.{lookup-insert}
use agent_runtime_operator.Api.Meta.{ObjectReference, NamespacedName}
use agent_runtime_operator.Api.Agent.{SubAgent, Agent}
use agent_runtime_operator.Api.Workforce.{TransitiveAgent}
use agent_runtime_operator.Cluster.{ok, Reader}
use agent_runtime_operator.Controller.SubAgents.{agent_key}
use agent_runtime_operator.Controller.Workforce.Traverse.{Traversal, text_of, mark, record_remote}

-- The agents that the entry points lead to by references, existing or not.
pub data Reach (r : Reader) (namespace : String) (entries : List (Option ObjectReference))
    : NamespacedName → Type 0 where
  entry :
      (ref : ObjectReference)
      → Memᴰ (some ref) entries
      → Reach r namespace entries (agent_key ref namespace)
  step :
      (k : NamespacedName) (a : Agent) (sub : SubAgent) (ref : ObjectReference)
      → Reach r namespace entries k
      → r.get_agent k ≡ ok a
      → Memᴰ sub a.spec.sub_agents
      → sub.agent_ref ≡ some ref
      → Reach r namespace entries (agent_key ref a.namespace)

abbrev pub cluster_agent : NamespacedName → TransitiveAgent
cluster_agent k = record { name = k.name; namespace = k.namespace; url = "" }

abbrev pub remote_agent : SubAgent → TransitiveAgent
remote_agent sub = record { name = sub.name; namespace = ""; url = sub.url }

module _ (r : Reader) (namespace : String) (entries : List (Option ObjectReference)) where
  -- an entry for a reachable agent
  pub record IsCluster (key : String) (t : TransitiveAgent) : Type 0 where
    pub agent : NamespacedName
    pub reached : Reach r namespace entries agent
    pub keyed : key ≡ text_of agent
    pub value : t ≡ cluster_agent agent

  -- an entry for a sub-agent by URL of a reachable agent
  pub record IsRemote (key : String) (t : TransitiveAgent) : Type 0 where
    pub parent : NamespacedName
    pub found : Agent
    pub sub : SubAgent
    pub reached : Reach r namespace entries parent
    pub got : r.get_agent parent ≡ ok found
    pub member : Memᴰ sub found.spec.sub_agents
    pub no_reference : sub.agent_ref ≡ none
    pub has_url : (sub.url == "") ≡ false
    pub keyed : key ≡ sub.url
    pub value : t ≡ remote_agent sub

  abbrev pub IsSound : Traversal → Type 0
  IsSound s =
      (key : String) (t : TransitiveAgent)
      → Maps.lookup key s.visited ≡ some t
      → IsCluster key t ⊎ IsRemote key t

  pub mark-IsSound :
      (k : NamespacedName) (s : Traversal)
      → Reach r namespace entries k
      → IsSound s
      → IsSound (mark k s)
  unfolding mark
  mark-IsSound k s reached sound key t h =
      let h' = sym (lookup-insert key (text_of k) (cluster_agent k) s.visited) ∙ h in
      elim (Bool-cases (text_of k == key)) [
        | inl here ↦ inl (record {
          agent = k;
          reached = reached;
          keyed = sym ((eq_iff (text_of k) key).0 here);
          value = sym (some-injective (rw here at h'));
        })
        | inr other ↦ sound key t (rw other at h')
      ]

  pub record_remote-IsSound :
      (k : NamespacedName) (a : Agent) (sub : SubAgent) (s : Traversal)
      → Reach r namespace entries k
      → r.get_agent k ≡ ok a
      → Memᴰ sub a.spec.sub_agents
      → sub.agent_ref ≡ none
      → (sub.url == "") ≡ false
      → IsSound s
      → IsSound (record_remote sub s)
  unfolding record_remote
  record_remote-IsSound k a sub s reached got m unreferenced has_url sound key t h =
      let h' = sym (lookup-insert key sub.url (remote_agent sub) s.visited) ∙ h in
      elim (Bool-cases (sub.url == key)) [
        | inl here ↦ inr (record {
          parent = k;
          found = a;
          sub = sub;
          reached = reached;
          got = got;
          member = m;
          no_reference = unreferenced;
          has_url = has_url;
          keyed = sym ((eq_iff sub.url key).0 here);
          value = sym (some-injective (rw here at h'));
        })
        | inr other ↦ sound key t (rw other at h')
      ]
