-- ===== src/Controller/System/Kept.antt =====
-- What a reconciliation keeps: only a Ready agent shows a URL or a gateway.
use mathlib.Core.Path.{subst}
use agent_runtime_operator.Base.{◌≡◌, refl, sym, ◌⊎◌, inl, inr, none, some}
use agent_runtime_operator.Api.Meta.{NamespacedName, Condition, condition_true}
use agent_runtime_operator.Api.Agent.{Agent, AgentStatus}
use agent_runtime_operator.Cluster.{ok}
use agent_runtime_operator.Controller.Util.{find_ready_condition}
use agent_runtime_operator.Controller.Server.{Call, ApiServer}
use agent_runtime_operator.Controller.Server.Laws.{IsApiServer, Runs-keeps}
use agent_runtime_operator.Controller.Server.Frame.{blank_status, KeepsStatuses, KeepsAgents}

-- the Ready condition is true
abbrev pub IsReady : AgentStatus → Type 0
IsReady status =
    (c : Condition) × (find_ready_condition status.conditions ≡ some c)
    × (c.status ≡ condition_true)

-- only a Ready agent shows a URL or a gateway
abbrev pub IsCoherent : AgentStatus → Type 0
IsCoherent status = ((status.url ≡ "") × (status.ai_gateway_ref ≡ none)) ⊎ IsReady status

abbrev pub AreCoherent : (api : ApiServer) → api.State → Type 0
AreCoherent api s =
    (k : NamespacedName) (a : Agent) → (api.reader s).get_agent k ≡ ok a → IsCoherent a.status

module _ (api : ApiServer) (laws : IsApiServer api) (keeps : KeepsAgents api) where
  kept :
      (s : api.State)
      → AreCoherent api s
      → (k : NamespacedName) (a : Agent)
      → (a.status ≡ blank_status)
        ⊎ ((b : Agent) × ((api.reader s).get_agent k ≡ ok b) × (a.status ≡ b.status))
      → IsCoherent a.status
  kept s coherent k a (inl blank) = subst IsCoherent (sym blank) (inl (refl, refl))
  kept s coherent k a (inr (b, before, same)) = subst IsCoherent (sym same) (coherent k b before)

  pub statuses_kept :
      (s s' : api.State) → KeepsStatuses api s s' → AreCoherent api s → AreCoherent api s'
  statuses_kept s s' from coherent k a got = kept s coherent k a (from k a got)

  pub retried :
      {S : Type 0} (state : S → api.State) (f : Call S)
      → ((x : S) → AreCoherent api (state x) → AreCoherent api (state (f x).1))
      → (x : S) → AreCoherent api (state x)
      → AreCoherent api (state (api.retry_on_conflict S f x).1)
  retried state f keep x =
      Runs-keeps (λ y. AreCoherent api (state y)) f keep x (api.retry_on_conflict _ f x)
        (laws.retries f x)

  pub status_written :
      (a : Agent) (s : api.State)
      → IsCoherent a.status
      → AreCoherent api s
      → AreCoherent api (api.update_agent_status a s).1
  status_written a s set coherent k b got = elim (keeps.agent_status_written a s k b got) [
    | inl others ↦ kept s coherent k b others
    | inr (_, written) ↦ subst IsCoherent (sym written) set
  ]
