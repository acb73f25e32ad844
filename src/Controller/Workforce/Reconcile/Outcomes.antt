-- ===== src/Controller/Workforce/Reconcile/Outcomes.antt =====
-- What a reconciliation of a workforce leaves behind.
use mathlib.Core.List.{Mem, Memᴰ}
use mathlib.Core.Path.{subst}
use agent_runtime_operator.Base.{
  ℕ, ◌<◌, String, ◌≡◌, refl, sym, ap, ◌∙◌, ◌↔◌, Bool, true, some, List, Map, length, inl, inr,
  Bool-cases, eq_iff,
}
use agent_runtime_operator.Base.Maps.Values.{IsRange}
use agent_runtime_operator.Api.Meta.{NamespacedName, Condition, condition_true}
use agent_runtime_operator.Api.Workforce.{TransitiveAgent, AgenticWorkforceStatus, AgenticWorkforce}
use agent_runtime_operator.Cluster.{Outcome, ok, Reader}
use agent_runtime_operator.Controller.Util.{condition_type_ready, find_ready_condition}
use agent_runtime_operator.Controller.Server.{ApiServer}
use agent_runtime_operator.Controller.Server.Laws.{IsApiServer}
use agent_runtime_operator.Controller.Workforce.Traverse.Steps.{IsUniverse}
use agent_runtime_operator.Controller.Workforce.Traverse.Reach.{cluster_agent}
use agent_runtime_operator.Controller.Workforce.Traverse.Correct.{HasEntries}
use agent_runtime_operator.Controller.Workforce.Traverse.Listed.{
  Leads, IsListed, collect_transitive_agents_and_tools_correct,
}
use agent_runtime_operator.Controller.Workforce.Reconcile.{
  Validation, validate_entry_point_agents, workforce_condition, set_workforce_status, reconcile,
}
use agent_runtime_operator.Controller.Workforce.Reconcile.Entries.{
  AllThere, validate_entry_point_agents_outcome,
}

-- the Ready condition: of this generation, and true if and only if `ready` holds
abbrev pub ShowsReady : AgenticWorkforce → Type 0 → AgenticWorkforceStatus → Type 0
ShowsReady w ready status =
    (found : Condition) × (find_ready_condition status.conditions ≡ some found)
    × ((found.status ≡ condition_true) ↔ ready)
    × (found.observed_generation ≡ w.metadata.generation)

-- The status agrees with what `r` has.
pub record IsCurrent (r : Reader) (universe : List NamespacedName) (uni : IsUniverse r universe)
    (w : AgenticWorkforce) (status : AgenticWorkforceStatus) : Type 0 where
  pub complete :
      (k : NamespacedName)
      → Memᴰ k universe
      → Mem (cluster_agent k) status.transitive_agents ↔ ∥ Leads r universe uni w k ∥₁
  pub sound :
      (t : TransitiveAgent) → Mem t status.transitive_agents → ∥ IsListed r universe uni w t ∥₁
  pub shown : ShowsReady w (AllThere r w.namespace w.spec.entry_point_agents) status

workforce_condition_kept :
    (w : AgenticWorkforce) (v : Validation)
    → ((workforce_condition w v).type ≡ condition_type_ready)
      × ((workforce_condition w v).observed_generation ≡ w.metadata.generation)
      × (((workforce_condition w v).status ≡ condition_true) ↔ (v.all_ready ≡ true))
unfolding workforce_condition
workforce_condition_kept w v = elim (Bool-cases v.all_ready) [
  | inl ready ↦ rw (ready, workforce_condition) (refl, refl, (λ h. refl, λ h. refl))
  | inr missing ↦
      rw (missing, workforce_condition) (refl, refl, (λ h. absurd (cc h), λ h. absurd (cc h)))
]

module _ (api : ApiServer) (laws : IsApiServer api)
    (agents_order : Map TransitiveAgent → List TransitiveAgent)
    (tools_order : Map Bool → List String) (ranges : IsRange agents_order) (fuel : ℕ) where
  condition_shown :
      (w : AgenticWorkforce) (s : api.State)
      → ShowsReady w
          (AllThere (api.reader s) w.namespace w.spec.entry_point_agents)
          (record w.status {
            conditions =
                api.set_status_condition w.status.conditions
                  (workforce_condition w (validate_entry_point_agents (api.reader s) w));
          })
  condition_shown w s =
      let v = validate_entry_point_agents (api.reader s) w in
      let (typed, generation, status) = workforce_condition_kept w v in
      let (all, _, _) = validate_entry_point_agents_outcome (api.reader s) w in
      let (found, finds, set) =
        laws.set_condition w.status.conditions (workforce_condition w v)
          ((eq_iff (workforce_condition w v).type condition_type_ready).1 typed) in
      (
        found,
        finds,
        (λ h. all.0 (status.0 (sym set.status ∙ h)), λ h. set.status ∙ status.1 (all.1 h)),
        set.observed_generation ∙ generation,
      )

  -- Let the workforce be there, let the universe have its entry points and all references of the
  -- agents of the universe, with no slash in a namespace and no URL that is the text of a key, and
  -- let there be more fuel than the universe has keys. The reconciliation returns, in whatever order
  -- `range` visits the map of agents. If it reports no error, then the workforce is stored with a
  -- list of transitive agents that has an agent of the universe if and only if the entry points lead
  -- to it, and that has nothing but agents that they lead to and remote agents of these; its Ready
  -- condition is of its generation, and true if and only if each entry point that is not nil can be
  -- read.
  pub reconcile-IsCurrent :
      (key : NamespacedName) (w : AgenticWorkforce) (s : api.State)
      → api.get_workforce key s ≡ ok w
      → (universe : List NamespacedName) (uni : IsUniverse (api.reader s) universe)
      → HasEntries (api.reader s) universe uni w.namespace w.spec.entry_point_agents
      → length universe < fuel
      → (o : Outcome) × (s' : api.State) × (reconcile api agents_order tools_order fuel key s
          ≡ some (o, s'))
        × (o ≡ ok tt
            → (stored : AgenticWorkforce) × (api.get_workforce key s' ≡ ok stored)
              × IsCurrent (api.reader s) universe uni w stored.status)
  unfolding reconcile set_workforce_status
  reconcile-IsCurrent key w s got universe uni inside enough =
      let (agents, tools, collected, complete, sound) =
        collect_transitive_agents_and_tools_correct (api.reader s) universe uni w agents_order
          tools_order ranges inside fuel enough in
      let v = validate_entry_point_agents (api.reader s) w in
      let after = set_workforce_status api agents_order tools_order fuel v agents tools w in
      let (o, s') = api.update_workforce_status after s in
      let current : IsCurrent (api.reader s) universe uni w after.status = record {
        complete = complete;
        sound = sound;
        shown = condition_shown w s;
      } in
      (
        o,
        s',
        rw (got, collected, reconcile) refl,
        λ h.
            let (stored, there, same) =
              laws.workforce_status_written after s s' (ap (λ (x : Outcome). (x, s')) h) in
            (
              stored,
              ap (λ k. api.get_workforce k s') (sym (laws.workforce_key key s w got)) ∙ there,
              subst (IsCurrent (api.reader s) universe uni w) (sym same) current,
            ),
      )
