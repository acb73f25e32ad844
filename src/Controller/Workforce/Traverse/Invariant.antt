-- ===== src/Controller/Workforce/Traverse/Invariant.antt =====
-- A property of the two maps that every step of the traversal keeps holds when it returns.
use mathlib.Core.List.{Memᴰ}
use agent_runtime_operator.Base.{
  ℕ, zero, suc, String, ◌≡◌, false, refl, sym, ap, ◌∙◌, Option, none, some, List, [], ◌∷◌, ◌==◌,
  Map, arith, Bool-cases, Option-cases, some-injective, inl, inr,
}
use agent_runtime_operator.Base.{Bool, Map}
use agent_runtime_operator.Api.Meta.{ObjectReference, NamespacedName}
use agent_runtime_operator.Api.Agent.{SubAgent, Agent}
use agent_runtime_operator.Cluster.{Error, ok, Reader, Result-cases}
use agent_runtime_operator.Controller.SubAgents.{agent_key}
use agent_runtime_operator.Controller.Workforce.Traverse.{
  Traversal, text_of, is_visited, collect_tools, mark, record_remote, Visit, maps_of,
  visit_reference, visit_sub_agent, visit_sub_agents, enter, traverse_agent, traverse_entries,
}
use agent_runtime_operator.Controller.Workforce.Traverse.Visits.{maps_of-some, succeeds-some}
use agent_runtime_operator.Controller.Workforce.Traverse.Reach.{Reach, entry, step}

module _ {ℓ} (r : Reader) (namespace : String) (entries : List (Option ObjectReference))
    (P : Traversal → Type ℓ)
    (on_mark : (k : NamespacedName) (s : Traversal)
      → Reach r namespace entries k
      → P s
      → P (mark k s))
    (on_remote : (k : NamespacedName) (a : Agent) (sub : SubAgent) (s : Traversal)
      → Reach r namespace entries k
      → r.get_agent k ≡ ok a
      → Memᴰ sub a.spec.sub_agents
      → sub.agent_ref ≡ none
      → (sub.url == "") ≡ false
      → P s
      → P (record_remote sub s))
    (on_tools : (s : Traversal) (tools : Map Bool) → P s → P (record s { tools = tools })) where
  abbrev CallKeeps : (NamespacedName → Traversal → Visit) → Type ℓ
  CallKeeps visit =
      (k : NamespacedName) (s s' : Traversal) (e : Option Error)
      → Reach r namespace entries k
      → visit k s ≡ some (s', e)
      → P s
      → P s'

  module _ (visit : NamespacedName → Traversal → Visit) (call : CallKeeps visit)
      (k : NamespacedName) (a : Agent) (reached : Reach r namespace entries k)
      (got : r.get_agent k ≡ ok a) where
    visit_sub_agent-keeps :
        (sub : SubAgent) (s s' : Traversal)
        → Memᴰ sub a.spec.sub_agents
        → visit_sub_agent visit a.namespace sub s ≡ some s'
        → P s
        → P s'
    visit_sub_agent-keeps sub s s' m h holds = elim (Option-cases sub.agent_ref) [
      | inl remote ↦
          let h' = ap (λ o. visit_reference visit a.namespace sub o s) (sym remote) ∙ h in
          elim (Bool-cases (sub.url == "")) [
            | inl unset ↦ let same : s ≡ s' = some-injective (rw unset at h') in rw (← same) holds
            | inr set ↦
                let same : record_remote sub s ≡ s' = some-injective (rw set at h') in
                rw (← same) (on_remote k a sub s reached got m remote set holds)
          ]
      | inr (ref, e) ↦
          let (error, h') =
            maps_of-some (visit (agent_key ref a.namespace) s) s'
              (ap (λ o. visit_reference visit a.namespace sub o s) (sym e) ∙ h) in
          call (agent_key ref a.namespace) s s' error (step k a sub ref reached got m e) h' holds
    ]

    visit_sub_agents-keeps :
        (subs : List SubAgent) (s s' : Traversal)
        → ((sub : SubAgent) → Memᴰ sub subs → Memᴰ sub a.spec.sub_agents)
        → visit_sub_agents visit a.namespace subs s ≡ some s'
        → P s
        → P s'
    unfolding visit_sub_agents
    visit_sub_agents-keeps [] s s' inside h holds =
        let same : s ≡ s' = some-injective h in rw (← same) holds
    visit_sub_agents-keeps (sub ∷ subs) s s' inside h holds =
        elim (Option-cases (visit_sub_agent visit a.namespace sub s)) [
          | inl out ↦ absurd (ground (arith, out))
          | inr (t, e) ↦
              visit_sub_agents-keeps subs t s' (λ x n. inside x (Memᴰ.tail n))
                (rw (e, visit_sub_agents) at h)
                (visit_sub_agent-keeps sub s t (inside sub (Memᴰ.head refl)) e holds)
        ]

  traverse_agent-keeps : (fuel : ℕ) → CallKeeps (traverse_agent r fuel)
  unfolding traverse_agent
  traverse_agent-keeps zero k s s' e reached h holds = cc
  traverse_agent-keeps (suc fuel) k s s' e reached h holds =
      elim (Bool-cases (is_visited (text_of k) s)) [
        | inl seen ↦
            let same : s ≡ s' = ap (λ p. p.0) (some-injective (rw (seen, traverse_agent) at h)) in
            rw (← same) holds
        | inr new ↦
            let h' : enter (traverse_agent r fuel) k (r.get_agent k) (mark k s) ≡ some (s', e) =
              rw (new, traverse_agent) at h in
            let marked_p = on_mark k s reached holds in
            elim (Result-cases (r.get_agent k)) [
              | inr (error, got) ↦
                  let same : mark k s ≡ s' =
                    ap (λ p. p.0)
                      (some-injective
                        (ap (λ x. enter (traverse_agent r fuel) k x (mark k s)) (sym got) ∙ h')) in
                  rw (← same) marked_p
              | inl (a, got) ↦
                  let marked = mark k s in
                  let started = record marked {
                    tools = collect_tools a.namespace a.spec.tools marked.tools;
                  } in
                  let ends =
                    succeeds-some
                      (visit_sub_agents (traverse_agent r fuel) a.namespace a.spec.sub_agents
                        started)
                      s' e (ap (λ x. enter (traverse_agent r fuel) k x marked) (sym got) ∙ h') in
                  visit_sub_agents-keeps (traverse_agent r fuel) (traverse_agent-keeps fuel) k a
                    reached got a.spec.sub_agents started s' (λ sub n. n) ends
                    (on_tools marked (collect_tools a.namespace a.spec.tools marked.tools) marked_p)
            ]
      ]

  pub traverse_entries-keeps :
      (fuel : ℕ) (refs : List (Option ObjectReference)) (s s' : Traversal)
      → ((ref : ObjectReference) → Memᴰ (some ref) refs → Memᴰ (some ref) entries)
      → traverse_entries r fuel namespace refs s ≡ some s'
      → P s
      → P s'
  unfolding traverse_entries
  traverse_entries-keeps fuel [] s s' inside h holds =
      let same : s ≡ s' = some-injective h in rw (← same) holds
  traverse_entries-keeps fuel (none ∷ refs) s s' inside h holds =
      traverse_entries-keeps fuel refs s s' (λ ref n. inside ref (Memᴰ.tail n)) h holds
  traverse_entries-keeps fuel (some ref ∷ refs) s s' inside h holds =
      elim (Option-cases (maps_of (traverse_agent r fuel (agent_key ref namespace) s))) [
        | inl out ↦ absurd (ground (arith, out))
        | inr (t, e) ↦
            let (error, e') =
              maps_of-some (traverse_agent r fuel (agent_key ref namespace) s) t e in
            traverse_entries-keeps fuel refs t s' (λ x n. inside x (Memᴰ.tail n))
              (rw (e, traverse_entries) at h)
              (traverse_agent-keeps fuel (agent_key ref namespace) s t error
                (entry ref (inside ref (Memᴰ.head refl))) e' holds)
      ]
