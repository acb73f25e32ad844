-- ===== src/Controller/Workforce/Traverse/Listed.antt =====
-- The list of transitive agents that `collectTransitiveAgentsAndTools` returns.
use mathlib.Core.List.{Mem, Memᴰ}
use mathlib.Core.List.Permᴰ
use mathlib.Core.Logic.{∥∥₁_map}
use agent_runtime_operator.Base.{
  ℕ, ◌<◌, String, ◌≡◌, refl, sym, ap, ◌∙◌, ◌↔◌, ◌⊎◌, some, List, Map, arith, Option-cases, inl, inr,
  length, eq_iff,
}
use agent_runtime_operator.Base.Maps
use agent_runtime_operator.Base.Maps.{HasDistinctKeys, insert-HasDistinctKeys}
use agent_runtime_operator.Base.Maps.Values.{IsRange, lookup-values, values-lookup}
use agent_runtime_operator.Base.{Bool}
use agent_runtime_operator.Api.Meta.{NamespacedName}
use agent_runtime_operator.Api.Workforce.{TransitiveAgent, AgenticWorkforce}
use agent_runtime_operator.Cluster.{Reader}
use agent_runtime_operator.Controller.Workforce.Traverse.{
  Traversal, empty_traversal, text_of, mark, record_remote, traverse_entries,
  collect_transitive_agents_and_tools,
}
use agent_runtime_operator.Controller.Workforce.Traverse.Steps.{IsUniverse}
use agent_runtime_operator.Controller.Workforce.Traverse.Reach.{
  Reach, cluster_agent, remote_agent, IsCluster, IsRemote,
}
use agent_runtime_operator.Controller.Workforce.Traverse.Invariant.{traverse_entries-keeps}
use agent_runtime_operator.Controller.Workforce.Traverse.Correct.{
  HasEntries, entry_of_key, traverse_entries_correct,
}

module _ (r : Reader) (universe : List NamespacedName) (uni : IsUniverse r universe)
    (w : AgenticWorkforce) where
  abbrev pub Leads : NamespacedName → Type 0
  Leads = Reach r w.namespace w.spec.entry_point_agents

  -- an entry of the list: an agent that the entry points lead to, or a remote agent of one
  abbrev pub IsListed : TransitiveAgent → Type 0
  IsListed t =
      (key : String) × (IsCluster r w.namespace w.spec.entry_point_agents key t
        ⊎ IsRemote r w.namespace w.spec.entry_point_agents key t)

  visited-HasDistinctKeys :
      (fuel : ℕ) (s : Traversal)
      → traverse_entries r fuel w.namespace w.spec.entry_point_agents empty_traversal ≡ some s
      → HasDistinctKeys s.visited
  visited-HasDistinctKeys fuel s e =
      let entries = w.spec.entry_point_agents in
      traverse_entries-keeps r w.namespace entries (λ t. HasDistinctKeys t.visited)
        (unfold mark in
          λ k t reached d. insert-HasDistinctKeys (text_of k) (cluster_agent k) t.visited d)
        (unfold record_remote in
          λ k a sub t reached got m o u d.
            insert-HasDistinctKeys sub.url (remote_agent sub) t.visited d)
        (λ t tools d. d) fuel entries empty_traversal s (λ ref n. n) e tt

  listed-Leads : (k : NamespacedName) → IsListed (cluster_agent k) → Leads k
  listed-Leads k (key, inl c) =
      let key_of_entry : TransitiveAgent → NamespacedName =
        λ t. record { name = t.name; namespace = t.namespace } in
      let same : k ≡ c.agent = ap key_of_entry c.value in rw same c.reached
  listed-Leads k (key, inr c) =
      absurd (ground (arith, c.has_url, eq_iff c.sub.url "", sym (ap (λ t. t.url) c.value)))

  module _ (agents_order : Map TransitiveAgent → List TransitiveAgent)
      (tools_order : Map Bool → List String) (ranges : IsRange agents_order)
      (inside : HasEntries r universe uni w.namespace w.spec.entry_point_agents) (fuel : ℕ)
      (enough : length universe < fuel) where
    -- Let the universe have the entry points and all references of its agents, with no slash in a
    -- namespace and no URL that is the text of a key, and let there be more fuel than the universe
    -- has keys. In whatever order `range` visits the maps, the function returns. An agent of the
    -- universe is in the list of agents if and only if the entry points lead to it, and every entry
    -- of the list is an agent that they lead to or a remote agent, with a URL, of such an agent.
    pub collect_transitive_agents_and_tools_correct :
        (agents : List TransitiveAgent) × (tools : List String)
        × (collect_transitive_agents_and_tools r agents_order tools_order fuel w
            ≡ some (agents, tools))
        × ((k : NamespacedName) → Memᴰ k universe → Mem (cluster_agent k) agents ↔ ∥ Leads k ∥₁)
        × ((t : TransitiveAgent) → Mem t agents → ∥ IsListed t ∥₁)
    unfolding collect_transitive_agents_and_tools
    collect_transitive_agents_and_tools_correct =
        let entries = w.spec.entry_point_agents in
        let (s, e, complete, sound) =
          traverse_entries_correct r universe uni w.namespace entries inside fuel enough in
        let distinct = visited-HasDistinctKeys fuel s e in
        let is_listed : (t : TransitiveAgent) → Mem t (agents_order s.visited) → ∥ IsListed t ∥₁ =
          λ t n. ∥∥₁_map (Permᴰ.mem (Permᴰ.symm (ranges s.visited)) n) (λ d.
            let (key, found) = values-lookup t s.visited distinct d in (key, sound key t found)) in
        (
          agents_order s.visited,
          tools_order s.tools,
          rw (e, collect_transitive_agents_and_tools) refl,
          (λ k m. (
            λ n. ∥∥₁_map (is_listed (cluster_agent k) n) (listed-Leads k),
            λ reached. elim (Option-cases (Maps.lookup (text_of k) s.visited)) [
              | inl missing ↦ absurd (ground (arith, missing, (complete k m).1 reached))
              | inr (t, found) ↦
                  let (_, same) =
                    entry_of_key r universe uni w.namespace entries inside s k t m sound found in
                  Permᴰ.mem (ranges s.visited) (
                    ∣ lookup-values (text_of k) (cluster_agent k) s.visited
                      (found ∙ ap some same) ∣₁)
            ],
          )),
          is_listed,
        )
