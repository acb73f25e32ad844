-- ===== src/Controller/Workforce/Traverse/Steps.antt =====
-- What a call of `traverseAgent` does to `visitedAgents`: no key is lost, and every agent that the
-- call has added has all its references in the map when the call returns.
use mathlib.Core.List.{Memᴰ}
use agent_runtime_operator.Base.{
  String, ◌≡◌, true, false, ◌||◌, some, List, ◌==◌, arith, Bool-cases, inl, inr,
}
use agent_runtime_operator.Base.Maps.{lookup-insert}
use agent_runtime_operator.Api.Meta.{ObjectReference, NamespacedName}
use agent_runtime_operator.Api.Agent.{SubAgent, Agent}
use agent_runtime_operator.Cluster.{ok, Reader}
use agent_runtime_operator.Controller.SubAgents.{agent_key}
use agent_runtime_operator.Controller.Workforce.Traverse.{
  Traversal, text_of, is_visited, mark, record_remote,
}
use agent_runtime_operator.Controller.Workforce.Traverse.Keys.{HasNoSlash}

-- A list of keys that the traversal does not leave: it has the references of the agents under its
-- keys, no namespace has a slash, and no URL of a remote agent is the text of a key.
pub record IsUniverse (r : Reader) (universe : List NamespacedName) : Type 0 where
  pub names : (k : NamespacedName) → Memᴰ k universe → HasNoSlash k.namespace
  pub references :
      (k : NamespacedName) (a : Agent) (sub : SubAgent) (ref : ObjectReference)
      → Memᴰ k universe
      → r.get_agent k ≡ ok a
      → Memᴰ sub a.spec.sub_agents
      → sub.agent_ref ≡ some ref
      → Memᴰ (agent_key ref a.namespace) universe
  pub urls :
      (j k : NamespacedName) (a : Agent) (sub : SubAgent)
      → Memᴰ j universe
      → Memᴰ k universe
      → r.get_agent k ≡ ok a
      → Memᴰ sub a.spec.sub_agents
      → (sub.url == text_of j) ≡ false

pub is_visited-mark :
    (j : String) (k : NamespacedName) (s : Traversal)
    → is_visited j (mark k s) ≡ (text_of k == j || is_visited j s)
unfolding mark
is_visited-mark j k s = ground (
  arith,
  lookup-insert j (text_of k) (record { name = k.name; namespace = k.namespace; url = "" })
      s.visited,
)

pub is_visited-record_remote :
    (j : String) (sub : SubAgent) (s : Traversal)
    → is_visited j (record_remote sub s) ≡ (sub.url == j || is_visited j s)
unfolding record_remote
is_visited-record_remote j sub s = ground (
  arith,
  lookup-insert j sub.url (record { name = sub.name; namespace = ""; url = sub.url }) s.visited,
)

module _ (r : Reader) (universe : List NamespacedName) where
  -- the references of the agent under `k` are in the map
  abbrev pub IsFinished : NamespacedName → Traversal → Type 0
  IsFinished k s =
      (a : Agent) (sub : SubAgent) (ref : ObjectReference)
      → r.get_agent k ≡ ok a
      → Memᴰ sub a.spec.sub_agents
      → sub.agent_ref ≡ some ref
      → is_visited (text_of (agent_key ref a.namespace)) s ≡ true

  pub record Extends (s s' : Traversal) : Type 0 where
    pub kept : (k : String) → is_visited k s ≡ true → is_visited k s' ≡ true
    pub finished :
        (k : NamespacedName)
        → Memᴰ k universe
        → is_visited (text_of k) s ≡ false
        → is_visited (text_of k) s' ≡ true
        → IsFinished k s'

  pub Extends-refl : (s : Traversal) → Extends s s
  Extends-refl s = record { kept = λ k h. h; finished = λ k m new old. cc }

  pub Extends-trans : (s t u : Traversal) → Extends s t → Extends t u → Extends s u
  Extends-trans s t u st tu = record {
    kept = λ k h. tu.kept k (st.kept k h);
    finished = λ k m new there. elim (Bool-cases (is_visited (text_of k) t)) [
      | inl between ↦ λ a sub ref e in_a has_ref.
          tu.kept _ (st.finished k m new between a sub ref e in_a has_ref)
      | inr later ↦ tu.finished k m later there
    ];
  }
