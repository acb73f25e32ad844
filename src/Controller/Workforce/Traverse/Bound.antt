-- ===== src/Controller/Workforce/Traverse/Bound.antt =====
-- How deep the recursion of `traverseAgent` goes: each level marks an agent that was not marked.
use mathlib.Core.List.{Memᴰ}
use mathlib.Core.List.Memᴰ
use mathlib.Core.Logic.{⊎_elim}
use agent_runtime_operator.Base.{
  ℕ, zero, suc, ◌≤◌, ◌<◌, String, ◌≡◌, refl, sym, ap, ◌∙◌, true, false, Option, none, some, List,
  [], ◌∷◌, eq_refl, arith, if◌then◌else◌, Bool-cases, Option-cases, inl, inr,
}
use agent_runtime_operator.Api.Meta.{NamespacedName}
use agent_runtime_operator.Api.Agent.{SubAgent, Agent}
use agent_runtime_operator.Cluster.{Error, ok, err, Reader, Result-cases}
use agent_runtime_operator.Controller.SubAgents.{agent_key}
use agent_runtime_operator.Controller.Workforce.Traverse.{
  Traversal, text_of, is_visited, collect_tools, mark, Visit, maps_of, succeeds, visit_reference,
  visit_sub_agent, visit_sub_agents, enter, traverse_agent,
}
use agent_runtime_operator.Controller.Workforce.Traverse.Steps.{IsUniverse, is_visited-mark}
use agent_runtime_operator.Controller.Workforce.Traverse.Visits.{
  CallExtends, visit_sub_agent-Extends, traverse_agent-Extends,
}

-- the keys that are not in the map
abbrev pub unvisited : List NamespacedName → Traversal → ℕ
unvisited [] s = 0
unvisited (k ∷ ks) s =
    let rest = unvisited ks s in if is_visited (text_of k) s then rest else suc rest

pub unvisited-le :
    (ks : List NamespacedName) (s s' : Traversal)
    → ((j : String) → is_visited j s ≡ true → is_visited j s' ≡ true)
    → unvisited ks s' ≤ unvisited ks s
unvisited-le [] s s' kept = omega arith
unvisited-le (k ∷ ks) s s' kept = ground (arith, unvisited-le ks s s' kept, kept (text_of k))

mark-kept :
    (k : NamespacedName) (s : Traversal) (j : String)
    → is_visited j s ≡ true
    → is_visited j (mark k s) ≡ true
mark-kept k s j h = ground (arith, is_visited-mark j k s)

unvisited-mark :
    (k : NamespacedName) (ks : List NamespacedName) (s : Traversal)
    → Memᴰ k ks
    → is_visited (text_of k) s ≡ false
    → unvisited ks (mark k s) < unvisited ks s
unvisited-mark k [] s m new = absurd (Memᴰ.not-nil m)
unvisited-mark k (j ∷ ks) s m new =
    let fewer = unvisited-le ks s (mark k s) (mark-kept k s) in
    let marked : is_visited (text_of k) (mark k s) ≡ true =
      ground (arith, is_visited-mark (text_of k) k s, eq_refl (text_of k)) in
    ⊎_elim
      (λ here.
        let same : k ≡ j = here in
        let new' : is_visited (text_of j) s ≡ false =
          ap (λ i. is_visited (text_of i) s) (sym same) ∙ new in
        let marked' : is_visited (text_of j) (mark k s) ≡ true =
          ap (λ i. is_visited (text_of i) (mark k s)) (sym same) ∙ marked in
        ground (arith, fewer))
      (λ later. ground (arith, unvisited-mark k ks s later new, mark-kept k s (text_of j)))
      (Memᴰ.cases_cons m)

enter-err :
    (visit : NamespacedName → Traversal → Visit) (k : NamespacedName) (error : Error)
    (s : Traversal)
    → (logged : Option Error) × (enter visit k (err error) s ≡ some (s, logged))
enter-err visit k error s = (_, refl)

module _ (r : Reader) (universe : List NamespacedName) (uni : IsUniverse r universe) where
  abbrev Ends : Visit → Type 0
  Ends v = (s : Traversal) × (e : Option Error) × (v ≡ some (s, e))

  -- the call returns if there are fewer keys to mark than fuel
  abbrev CallEnds : ℕ → (NamespacedName → Traversal → Visit) → Type 0
  CallEnds fuel visit =
      (k : NamespacedName) (s : Traversal)
      → Memᴰ k universe
      → unvisited universe s < fuel
      → Ends (visit k s)

  module _ (fuel : ℕ) (visit : NamespacedName → Traversal → Visit)
      (extends : CallExtends r universe uni visit) (ends : CallEnds fuel visit) (k : NamespacedName)
      (a : Agent) (m : Memᴰ k universe) (got : r.get_agent k ≡ ok a) where
    visit_sub_agent_ends :
        (sub : SubAgent) (s : Traversal)
        → Memᴰ sub a.spec.sub_agents
        → unvisited universe s < fuel
        → (s' : Traversal) × (visit_sub_agent visit a.namespace sub s ≡ some s')
    visit_sub_agent_ends sub s in_a enough = elim (Option-cases sub.agent_ref) [
      | inl remote ↦ (_, ap (λ o. visit_reference visit a.namespace sub o s) remote)
      | inr (ref, e) ↦
          let (s', error, h) =
            ends (agent_key ref a.namespace) s (uni.references k a sub ref m got in_a e) enough in
          (s', ap (λ o. visit_reference visit a.namespace sub o s) e ∙ ap maps_of h)
    ]

    visit_sub_agents_end :
        (subs : List SubAgent) (s : Traversal)
        → ((sub : SubAgent) → Memᴰ sub subs → Memᴰ sub a.spec.sub_agents)
        → unvisited universe s < fuel
        → (s' : Traversal) × (visit_sub_agents visit a.namespace subs s ≡ some s')
    unfolding visit_sub_agents
    visit_sub_agents_end [] s inside enough = (s, refl)
    visit_sub_agents_end (sub ∷ subs) s inside enough =
        let (t, e) = visit_sub_agent_ends sub s (inside sub (Memᴰ.head refl)) enough in
        let (step, _) =
          visit_sub_agent-Extends r universe uni visit extends k a m got sub s t
            (inside sub (Memᴰ.head refl)) e in
        let (s', e') =
          visit_sub_agents_end subs t (λ x n. inside x (Memᴰ.tail n))
            (omega (arith, unvisited-le universe s t step.kept)) in
        (s', rw (e, visit_sub_agents) e')

  pub traverse_agent_ends : (fuel : ℕ) → CallEnds fuel (traverse_agent r fuel)
  unfolding traverse_agent
  traverse_agent_ends zero k s m enough = absurd (omega arith)
  traverse_agent_ends (suc fuel) k s m enough = elim (Bool-cases (is_visited (text_of k) s)) [
    | inl seen ↦ (s, none, rw (seen, traverse_agent) refl)
    | inr new ↦
        let visit = traverse_agent r fuel in
        let fewer = unvisited-mark k universe s m new in
        elim (Result-cases (r.get_agent k)) [
          | inr (error, got) ↦
              let (logged, e) = enter-err visit k error (mark k s) in
              (
                mark k s,
                logged,
                rw (new, traverse_agent) (ap (λ x. enter visit k x (mark k s)) got ∙ e),
              )
          | inl (a, got) ↦
              let marked = mark k s in
              let started = record marked {
                tools = collect_tools a.namespace a.spec.tools marked.tools;
              } in
              let (s', e) =
                visit_sub_agents_end fuel visit (traverse_agent-Extends r universe uni fuel)
                  (traverse_agent_ends fuel) k a m got a.spec.sub_agents started (λ sub n. n)
                  (omega (arith, fewer, unvisited-le universe marked started (λ j h. h))) in
              (
                s',
                none,
                rw (new, traverse_agent) (ap (λ x. enter visit k x (mark k s)) got ∙ ap succeeds e),
              )
        ]
  ]
