-- ===== src/Controller/Server/Laws.antt =====
-- The documented behaviour of the API server and of the libraries.
use mathlib.Core.Path.{subst}
use agent_runtime_operator.Base.{◌≡◌, refl, sym, ap, ◌∙◌, true, some, List, ◌==◌}
use agent_runtime_operator.Api.Meta.{NamespacedName, Condition, key_of}
use agent_runtime_operator.Api.Agent.{Agent}
use agent_runtime_operator.Api.ToolServer.{ToolServer}
use agent_runtime_operator.Api.Workforce.{AgenticWorkforce}
use agent_runtime_operator.Cluster.{Outcome, ok, err, Error, is_conflict}
use agent_runtime_operator.Controller.Util.{condition_type_ready, find_ready_condition}
use agent_runtime_operator.Controller.Server.{Call, ApiServer}

-- the calls that `RetryOnConflict` can make: another one only after a conflict
pub data Runs {S : Type 0} (f : Call S) : S → Outcome × S → Type 0 where
  last : (s : S) → Runs f s (f s)
  again :
      (s t : S) (e : Error) (out : Outcome × S)
      → f s ≡ (err e, t)
      → is_conflict e ≡ true
      → Runs f t out
      → Runs f s out

-- the condition that `FindStatusCondition` returns after `SetStatusCondition`
pub record IsSetTo (c found : Condition) : Type 0 where
  pub status : found.status ≡ c.status
  pub reason : found.reason ≡ c.reason
  pub message : found.message ≡ c.message
  pub observed_generation : found.observed_generation ≡ c.observed_generation

pub record IsApiServer (api : ApiServer) : Type 1 where
  pub retries : {S : Type 0} (f : Call S) (s : S) → Runs f s (api.retry_on_conflict S f s)
  pub set_condition :
      (cs : List Condition) (c : Condition)
      → (c.type == condition_type_ready) ≡ true
      → (found : Condition) × (find_ready_condition (api.set_status_condition cs c) ≡ some found)
        × IsSetTo c found
  pub agent_key :
      (k : NamespacedName) (s : api.State) (a : Agent)
      → (api.reader s).get_agent k ≡ ok a
      → key_of a.metadata ≡ k
  pub agent_status_written :
      (a : Agent) (s s' : api.State)
      → api.update_agent_status a s ≡ (ok tt, s')
      → (stored : Agent) × ((api.reader s').get_agent (key_of a.metadata) ≡ ok stored)
        × (stored.status ≡ a.status)
  pub tool_server_key :
      (k : NamespacedName) (s : api.State) (t : ToolServer)
      → (api.reader s).get_tool_server k ≡ ok t
      → key_of t.metadata ≡ k
  pub tool_server_status_written :
      (t : ToolServer) (s s' : api.State)
      → api.update_tool_server_status t s ≡ (ok tt, s')
      → (stored : ToolServer) × ((api.reader s').get_tool_server (key_of t.metadata) ≡ ok stored)
        × (stored.status ≡ t.status)
  pub workforce_key :
      (k : NamespacedName) (s : api.State) (w : AgenticWorkforce)
      → api.get_workforce k s ≡ ok w
      → key_of w.metadata ≡ k
  pub workforce_status_written :
      (w : AgenticWorkforce) (s s' : api.State)
      → api.update_workforce_status w s ≡ (ok tt, s')
      → (stored : AgenticWorkforce) × (api.get_workforce (key_of w.metadata) s' ≡ ok stored)
        × (stored.status ≡ w.status)

-- A retried call that succeeds in the end has succeeded in its last run, before which any
-- property held that the call keeps.
pub Runs-ok {ℓ} :
    {S : Type 0} (P : S → Type ℓ) (f : Call S)
    → ((s : S) → P s → P (f s).1)
    → (s : S) (out : Outcome × S) → Runs f s out
    → P s
    → (t : S) × P t × (out ≡ f t)
Runs-ok P f keep s out (last _) p = (s, p, refl)
Runs-ok P f keep s out (again _ t e _ failed conflict rest) p =
    Runs-ok P f keep t out rest (subst (λ x. P x.1) failed (keep s p))

-- What each run keeps, a retried call keeps.
pub Runs-keeps {ℓ} :
    {S : Type 0} (P : S → Type ℓ) (f : Call S)
    → ((s : S) → P s → P (f s).1)
    → (s : S) (out : Outcome × S) → Runs f s out
    → P s
    → P out.1
Runs-keeps P f keep s out (last _) p = keep s p
Runs-keeps P f keep s out (again _ t e _ failed conflict rest) p =
    Runs-keeps P f keep t out rest (subst (λ x. P x.1) failed (keep s p))

-- If each run fails and keeps a property, the retried call fails and keeps it.
pub Runs-err {ℓ} :
    {S : Type 0} (P : S → Type ℓ) (f : Call S)
    → ((s : S) → P s → (e : Error) × (t : S) × (f s ≡ (err e, t)) × P t)
    → (s : S) (out : Outcome × S) → Runs f s out
    → P s
    → (e : Error) × (t : S) × (out ≡ (err e, t)) × P t
Runs-err P f fails s out (last _) p = fails s p
Runs-err P f fails s out (again _ t e _ failed conflict rest) p =
    let (e', t', same, p') = fails s p in
    Runs-err P f fails t out rest (subst P (ap (λ x. x.1) (sym same ∙ failed)) p')
