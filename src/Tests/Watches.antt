-- ===== src/Tests/Watches.antt =====
-- The theorems on watches and on the resolution of references, at concrete resources.
use mathlib.Core.List.{Memᴰ}
use mathlib.Core.List.Memᴰ
use agent_runtime_operator.Base.{
  ◌≡◌, refl, [], ◌∷◌, List, Bool, map, ◌==◌, eq_iff, inl, inr, if◌then◌else◌,
}
use agent_runtime_operator.Base.Maps
use agent_runtime_operator.Base.Maps.{over}
use agent_runtime_operator.Cluster.{ok, err}
use agent_runtime_operator.Controller.SubAgents.{resolve_all_sub_agents}
use agent_runtime_operator.Controller.SubAgents.Outcome.{
  last_resolved, failures, resolve_all_sub_agents_outcome,
}
use agent_runtime_operator.Controller.SubAgents.{report}
use agent_runtime_operator.Cluster.{Reader}
use agent_runtime_operator.Api.Meta.{Opaque, ObjectMeta, NamespacedName, key_of, same_key}
use agent_runtime_operator.Controller.Workload.{Deployment, new_deployment}
use agent_runtime_operator.Base.{true}
use agent_runtime_operator.Controller.Reconcile.{resolve_dependencies}
use agent_runtime_operator.Controller.Watches.{deployment_changed, enqueued}
use agent_runtime_operator.Controller.Watches.Changes.{Owned, EnqueuesOwner}
use agent_runtime_operator.Controller.Watches.Complete.{enqueued_complete}
use agent_runtime_operator.Api.Workforce.{AgenticWorkforce}
use agent_runtime_operator.Controller.Workforce.{contains, find_workforces_referencing_agent}
use agent_runtime_operator.Controller.Workforce.Watch.{
  IsDistinct, Mentions, find_workforces_referencing_agent_complete,
}
use agent_runtime_operator.Tests.Samples.{quoted, crew, planner, helper, absent, before}

resolve_all_sub_agents_outcome_example :
    (Maps.lookup "helper" (resolve_all_sub_agents quoted before planner).0
      ≡ last_resolved quoted before "team" planner.spec.sub_agents "helper")
    × ((resolve_all_sub_agents quoted before planner).1
        ≡ report (failures quoted before "team" planner.spec.sub_agents))
resolve_all_sub_agents_outcome_example =
    resolve_all_sub_agents_outcome quoted before planner "helper"

abbrev with_crew : Reader
with_crew = record before { list_workforces = ok (crew ∷ []) }

-- the handler of `Owns`, where an owner reference is the owner's name
abbrev refers_by_name : Opaque → ObjectMeta → Bool
refers_by_name ref owner = ref == owner.name

abbrev owners_of : ObjectMeta → List NamespacedName
owners_of meta =
    map (λ (ref : Opaque). record { namespace = meta.namespace; name = ref }) meta.owner_references

owners_of-EnqueuesOwner : EnqueuesOwner refers_by_name owners_of
owners_of-EnqueuesOwner = record {
  owner = λ meta owner ref m same namespace.
      rw (← namespace, ← (eq_iff ref owner.name).0 same)
        (Memᴰ.map (λ (ref : Opaque). record { namespace = meta.namespace; name = ref }) m);
}

-- the Deployment of `helper` is created
abbrev helper_deployment : Deployment
helper_deployment = record (new_deployment helper.name helper.namespace) {
  metadata = record (new_deployment helper.name helper.namespace).metadata {
    owner_references = helper.name ∷ [];
  };
}

abbrev without_helper : Owned
without_helper = record { get_deployment = λ j. err absent; get_service = λ j. err absent }

abbrev with_helper : Owned
with_helper = record {
  get_deployment = λ j.
      if same_key j (key_of helper_deployment.metadata) then ok helper_deployment else err absent;
  get_service = λ j. err absent;
}

enqueued_complete_example :
    (before.get_agent (key_of planner.metadata) ≡ before.get_agent (key_of planner.metadata))
    × (resolve_dependencies "ops" quoted before planner
        ≡ resolve_dependencies "ops" quoted before planner)
    × (without_helper.get_deployment (key_of planner.metadata)
        ≡ with_helper.get_deployment (key_of planner.metadata))
    × (without_helper.get_service (key_of planner.metadata)
        ≡ with_helper.get_service (key_of planner.metadata))
unfolding enqueued
enqueued_complete_example =
    enqueued_complete "ops" quoted before before without_helper with_helper planner true
      refers_by_name owners_of (deployment_changed helper_deployment.metadata)
      (planner ∷ helper ∷ [])
      (
        (
          λ j. refl,
          record { servers = λ j. refl; routes = λ j. refl },
          record { gateways = λ j. refl; lists = λ n. refl },
          λ n. refl,
        ),
        λ j other. rw other refl,
        λ j. refl,
      )
      owners_of-EnqueuesOwner (λ same. absurd (cc same)) refl (Memᴰ.head refl)
      (λ m. elim (Memᴰ.cases_cons m) [
        | inl same ↦ absurd (cc same)
        | inr later ↦ Memᴰ.not-nil later
      ])

find_workforces_referencing_agent_complete_example :
    IsDistinct (find_workforces_referencing_agent with_crew planner)
    × ((w : AgenticWorkforce)
        → Memᴰ w (crew ∷ [])
        → Mentions planner w
        → contains (key_of w.metadata) (find_workforces_referencing_agent with_crew planner) ≡ true)
find_workforces_referencing_agent_complete_example =
    find_workforces_referencing_agent_complete with_crew planner (crew ∷ []) refl
