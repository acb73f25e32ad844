-- ===== src/Controller/Workforce/Reconcile/Watched.antt =====
-- The watch on agents, for a workforce that has been reconciled.
use mathlib.Core.List.{Memᴰ}
use mathlib.Core.Logic.{∥∥₁_elim}
use mathlib.Core.Bool.{So-prop}
use agent_runtime_operator.Base.{◌≡◌, refl, true, List, inr}
use agent_runtime_operator.Api.Meta.{NamespacedName, key_of}
use agent_runtime_operator.Api.Agent.{Agent}
use agent_runtime_operator.Api.Workforce.{AgenticWorkforce}
use agent_runtime_operator.Cluster.{ok, Reader}
use agent_runtime_operator.Controller.Workforce.{contains, find_workforces_referencing_agent}
use agent_runtime_operator.Controller.Workforce.Watch.{
  Mentions, find_workforces_referencing_agent_complete,
}
use agent_runtime_operator.Controller.Workforce.Traverse.Steps.{IsUniverse}
use agent_runtime_operator.Controller.Workforce.Traverse.Reach.{cluster_agent}
use agent_runtime_operator.Controller.Workforce.Traverse.Listed.{Leads}
use agent_runtime_operator.Controller.Workforce.Reconcile.Outcomes.{IsCurrent}

listed-Mentions :
    (agent : Agent) (w : AgenticWorkforce)
    → Memᴰ (cluster_agent (key_of agent.metadata)) w.status.transitive_agents
    → Mentions agent w
listed-Mentions agent w m = inr (cluster_agent (key_of agent.metadata), m, refl, refl)

-- Let the status of a workforce agree with what `r` has, as it does after a reconciliation. Then
-- whenever the workforces are listed and the workforce is among them, the watch enqueues it for
-- every agent of the universe that its entry points lead to by references.
pub current_workforce-enqueued :
    (r : Reader) (universe : List NamespacedName) (uni : IsUniverse r universe)
    (w : AgenticWorkforce)
    → IsCurrent r universe uni w w.status
    → (agent : Agent) → Memᴰ (key_of agent.metadata) universe
    → ∥ Leads r universe uni w (key_of agent.metadata) ∥₁
    → (later : Reader) (workforces : List AgenticWorkforce) → later.list_workforces ≡ ok workforces
    → Memᴰ w workforces
    → contains (key_of w.metadata) (find_workforces_referencing_agent later agent) ≡ true
current_workforce-enqueued r universe uni w current agent m leads later workforces listed n =
    let is_listed = (current.complete (key_of agent.metadata) m).1 leads in
    let (_, each) = find_workforces_referencing_agent_complete later agent workforces listed in
    ∥∥₁_elim is_listed (So-prop _) (λ listed_there. each w n (listed-Mentions agent w listed_there))
