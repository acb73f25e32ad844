-- ===== src/Controller/Workforce/Traverse/Visits.antt =====
-- `traverseAgent` and its loops extend `visitedAgents` in the sense of `Steps`.
use mathlib.Core.List.{Memᴰ}
use mathlib.Core.List.Memᴰ
use mathlib.Core.Logic.{⊎_elim}
use agent_runtime_operator.Base.{
  ℕ, zero, suc, ◌≡◌, refl, sym, ap, ap₂, ◌∙◌, true, Option, none, some, List, [], ◌∷◌, ◌==◌, eq_iff,
  eq_refl, arith, Bool-cases, Option-cases, some-injective, inl, inr,
}
use agent_runtime_operator.Api.Meta.{ObjectReference, NamespacedName}
use agent_runtime_operator.Api.Agent.{SubAgent, Agent}
use agent_runtime_operator.Cluster.{Error, ok, Reader, Result-cases, ok-injective}
use agent_runtime_operator.Controller.SubAgents.{agent_key}
use agent_runtime_operator.Controller.Workforce.Traverse.{
  Traversal, text_of, is_visited, collect_tools, mark, record_remote, Visit, maps_of, succeeds,
  visit_reference, visit_sub_agent, visit_sub_agents, enter, traverse_agent,
}
use agent_runtime_operator.Controller.Workforce.Traverse.Keys.{text_key-injective}
use agent_runtime_operator.Controller.Workforce.Traverse.Steps.{
  IsUniverse, is_visited-mark, is_visited-record_remote, IsFinished, Extends, Extends-refl,
  Extends-trans,
}

pub maps_of-some :
    (v : Visit) (s : Traversal) → maps_of v ≡ some s → (e : Option Error) × (v ≡ some (s, e))
maps_of-some none s h = cc
maps_of-some (some (t, e)) s h = (e, cc)

pub succeeds-some :
    (o : Option Traversal) (s : Traversal) (e : Option Error)
    → succeeds o ≡ some (s, e)
    → o ≡ some s
succeeds-some none s e h = cc
succeeds-some (some t) s e h = cc

module _ (r : Reader) (universe : List NamespacedName) (uni : IsUniverse r universe) where
  pub text_of-injective :
      (j k : NamespacedName) → Memᴰ j universe → Memᴰ k universe → text_of j ≡ text_of k → j ≡ k
  text_of-injective j k mj mk e =
      let (namespace, name) =
        text_key-injective j.namespace k.namespace j.name k.name (uni.names j mj) (uni.names k mk)
          e in
      ap₂ (λ a b. record { namespace = a; name = b }) namespace name

  -- what the recursive call does
  abbrev pub CallExtends : (NamespacedName → Traversal → Visit) → Type 0
  CallExtends visit =
      (k : NamespacedName) (s s' : Traversal) (e : Option Error)
      → Memᴰ k universe
      → visit k s ≡ some (s', e)
      → Extends r universe s s' × (is_visited (text_of k) s' ≡ true)

  record_remote-Extends :
      (k : NamespacedName) (a : Agent) (sub : SubAgent) (s : Traversal)
      → Memᴰ k universe
      → r.get_agent k ≡ ok a
      → Memᴰ sub a.spec.sub_agents
      → Extends r universe s (record_remote sub s)
  record_remote-Extends k a sub s m got in_a = record {
    kept = λ j h. ground (arith, is_visited-record_remote j sub s);
    finished = λ j mj new there.
        ground
          (arith, is_visited-record_remote (text_of j) sub s, uni.urls j k a sub mj m got in_a);
  }

  module _ (visit : NamespacedName → Traversal → Visit) (extends : CallExtends visit)
      (k : NamespacedName) (a : Agent) (m : Memᴰ k universe) (got : r.get_agent k ≡ ok a) where
    pub visit_sub_agent-Extends :
        (sub : SubAgent) (s s' : Traversal)
        → Memᴰ sub a.spec.sub_agents
        → visit_sub_agent visit a.namespace sub s ≡ some s'
        → Extends r universe s s'
          × ((ref : ObjectReference)
              → sub.agent_ref ≡ some ref
              → is_visited (text_of (agent_key ref a.namespace)) s' ≡ true)
    visit_sub_agent-Extends sub s s' in_a h = elim (Option-cases sub.agent_ref) [
      | inl remote ↦ (
        let h' = ap (λ o. visit_reference visit a.namespace sub o s) (sym remote) ∙ h in
            elim (Bool-cases (sub.url == "")) [
              | inl unset ↦
                  let same : s ≡ s' = some-injective (rw unset at h') in
                  rw (← same) (Extends-refl r universe s)
              | inr set ↦
                  let same : record_remote sub s ≡ s' = some-injective (rw set at h') in
                  rw (← same) (record_remote-Extends k a sub s m got in_a)
            ],
        λ ref e. cc,
      )
      | inr (ref, e) ↦
          let (error, h') =
            maps_of-some (visit (agent_key ref a.namespace) s) s'
              (ap (λ o. visit_reference visit a.namespace sub o s) (sym e) ∙ h) in
          let (step, there) =
            extends (agent_key ref a.namespace) s s' error (uni.references k a sub ref m got in_a e)
              h' in
          (
            step,
            λ ref' e'. let same : ref ≡ ref' = some-injective (sym e ∙ e') in rw (← same) there,
          )
    ]

    visit_sub_agents-Extends :
        (subs : List SubAgent) (s s' : Traversal)
        → ((sub : SubAgent) → Memᴰ sub subs → Memᴰ sub a.spec.sub_agents)
        → visit_sub_agents visit a.namespace subs s ≡ some s'
        → Extends r universe s s'
          × ((sub : SubAgent) (ref : ObjectReference)
              → Memᴰ sub subs
              → sub.agent_ref ≡ some ref
              → is_visited (text_of (agent_key ref a.namespace)) s' ≡ true)
    unfolding visit_sub_agents
    visit_sub_agents-Extends [] s s' inside h = (
      let same : s ≡ s' = some-injective h in rw (← same) (Extends-refl r universe s),
      λ sub ref n. absurd (Memᴰ.not-nil n),
    )
    visit_sub_agents-Extends (sub ∷ subs) s s' inside h =
        elim (Option-cases (visit_sub_agent visit a.namespace sub s)) [
          | inl out ↦ absurd (ground (arith, out))
          | inr (t, e) ↦
              let (first, ref_first) =
                visit_sub_agent-Extends sub s t (inside sub (Memᴰ.head refl)) e in
              let (rest, ref_rest) =
                visit_sub_agents-Extends subs t s' (λ x n. inside x (Memᴰ.tail n))
                  (rw (e, visit_sub_agents) at h) in
              (
                Extends-trans r universe s t s' first rest,
                λ x ref n has.
                    ⊎_elim
                      (λ here. rest.kept _ (ref_first ref (ap (λ y. y.agent_ref) (sym here) ∙ has)))
                      (λ later. ref_rest x ref later has) (Memᴰ.cases_cons n),
              )
        ]

  mark_then :
      (k : NamespacedName) (s s' : Traversal)
      → Memᴰ k universe
      → Extends r universe (mark k s) s'
      → IsFinished r universe k s'
      → Extends r universe s s' × (is_visited (text_of k) s' ≡ true)
  mark_then k s s' m step done = (
    record {
      kept = λ j h. step.kept j (ground (arith, is_visited-mark j k s));
      finished = λ j mj new there. elim (Bool-cases (is_visited (text_of j) (mark k s))) [
        | inr later ↦ step.finished j mj later there
        | inl now ↦
            let here : (text_of k == text_of j) ≡ true =
              ground (arith, is_visited-mark (text_of j) k s) in
            let same : k ≡ j =
              text_of-injective k j m mj ((eq_iff (text_of k) (text_of j)).0 here) in
            rw (← same) done
      ];
    },
    step.kept (text_of k) (ground (arith, is_visited-mark (text_of k) k s, eq_refl (text_of k))),
  )

  pub traverse_agent-Extends : (fuel : ℕ) → CallExtends (traverse_agent r fuel)
  unfolding traverse_agent
  traverse_agent-Extends zero k s s' e m h = cc
  traverse_agent-Extends (suc fuel) k s s' e m h = elim (Bool-cases (is_visited (text_of k) s)) [
    | inl seen ↦
        let same : s ≡ s' = ap (λ p. p.0) (some-injective (rw (seen, traverse_agent) at h)) in
        (rw (← same) (Extends-refl r universe s), rw (← same) seen)
    | inr new ↦
        let call = traverse_agent-Extends fuel in
        let h' : enter (traverse_agent r fuel) k (r.get_agent k) (mark k s) ≡ some (s', e) =
          rw (new, traverse_agent) at h in
        elim (Result-cases (r.get_agent k)) [
          | inr (error, got) ↦
              let same : mark k s ≡ s' =
                ap (λ p. p.0)
                  (some-injective
                    (ap (λ x. enter (traverse_agent r fuel) k x (mark k s)) (sym got) ∙ h')) in
              mark_then k s s' m (rw (← same) (Extends-refl r universe (mark k s)))
                (λ a sub ref got'. cc)
          | inl (a, got) ↦
              let marked = mark k s in
              let started = record marked {
                tools = collect_tools a.namespace a.spec.tools marked.tools;
              } in
              let ends =
                succeeds-some
                  (visit_sub_agents (traverse_agent r fuel) a.namespace a.spec.sub_agents started)
                  s' e (ap (λ x. enter (traverse_agent r fuel) k x marked) (sym got) ∙ h') in
              let (step, refs) =
                visit_sub_agents-Extends (traverse_agent r fuel) call k a m got a.spec.sub_agents
                  started s' (λ sub n. n) ends in
              mark_then k s s' m (record { kept = step.kept; finished = step.finished })
                (λ a' sub ref got' n has.
                  let same : a ≡ a' = ok-injective (sym got ∙ got') in
                  rw (← same) (refs sub ref (rw same n) has))
        ]
  ]
