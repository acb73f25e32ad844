-- ===== src/Controller/System/Coherent.antt =====
-- The statuses of the agents while the operator runs, and what other agents resolve through them.
use agent_runtime_operator.Base.{
  String, ◌≡◌, refl, sym, ◌∙◌, inl, inr, true, false, Option, none, some, ◌==◌, eq_iff, Bool-cases,
}
use mathlib.Core.Path.{subst}
use agent_runtime_operator.Api.Meta.{ObjectReference, NamespacedName}
use agent_runtime_operator.Api.Agent.{SubAgent, Agent}
use agent_runtime_operator.Cluster.{Result, ok, err, Reader, ok-injective}
use agent_runtime_operator.Controller.SubAgents.{
  agent_key, status_url, fetched_url, resolve_agent_ref, resolve_cluster_agent,
  resolve_sub_agent_url,
}
use agent_runtime_operator.Controller.Server.{ApiServer}
use agent_runtime_operator.Controller.Server.Laws.{IsApiServer}
use agent_runtime_operator.Controller.Server.Frame.{KeepsAgents}
use agent_runtime_operator.Controller.System.{
  Step, Reach, edited, agent_reconciled, tool_server_reconciled, workforce_reconciled, start, later,
}
use agent_runtime_operator.Controller.System.Kept.{IsReady, IsCoherent, AreCoherent, statuses_kept}
use agent_runtime_operator.Controller.System.KeptByAgents.{reconcile-AreCoherent}
use agent_runtime_operator.Controller.System.KeptByOthers.{
  tool_server-AreCoherent, workforce-AreCoherent,
}

status_url-ok :
    (key : NamespacedName) (a : Agent) (url : String)
    → status_url key a ≡ ok url
    → (a.status.url ≡ url) × ((a.status.url == "") ≡ false)
status_url-ok key a url h = elim (Bool-cases (a.status.url == "")) [
  | inl unset ↦ absurd (cc (rw unset at h))
  | inr set ↦ (ok-injective (rw set at h), set)
]

-- how a sub-agent that is given by a reference has come to a URL
fetched_url-ok :
    (key : NamespacedName) (r : Result Agent) (url : String)
    → fetched_url key r ≡ ok url
    → (a : Agent) × (r ≡ ok a) × (a.status.url ≡ url) × ((a.status.url == "") ≡ false)
fetched_url-ok key (err e) url h = absurd (cc h)
fetched_url-ok key (ok a) url h =
    let (same, set) = status_url-ok key a url h in (a, refl, same, set)

resolve_agent_ref-ok :
    (r : Reader) (o : Option ObjectReference) (namespace url : String)
    → resolve_agent_ref r o namespace ≡ ok url
    → (ref : ObjectReference) × (a : Agent) × (o ≡ some ref)
      × (r.get_agent (agent_key ref namespace) ≡ ok a)
      × (a.status.url ≡ url)
      × ((a.status.url == "") ≡ false)
unfolding resolve_cluster_agent
resolve_agent_ref-ok r none namespace url h = absurd (cc h)
resolve_agent_ref-ok r (some ref) namespace url h =
    let (a, got, same, set) =
      fetched_url-ok (agent_key ref namespace) (r.get_agent (agent_key ref namespace)) url h in
    (ref, a, refl, got, same, set)

module _ (api : ApiServer) (laws : IsApiServer api) (keeps : KeepsAgents api)
    (operator_namespace : String) where
  Step-AreCoherent :
      (s s' : api.State) → Step api operator_namespace s s' → AreCoherent api s → AreCoherent api s'
  Step-AreCoherent s s' (edited edits) = statuses_kept api laws keeps s s' edits
  Step-AreCoherent s s' (agent_reconciled p key) =
      reconcile-AreCoherent api laws keeps p operator_namespace key s
  Step-AreCoherent s s' (tool_server_reconciled p key) =
      tool_server-AreCoherent api laws keeps p key s
  Step-AreCoherent s s' (workforce_reconciled agents_order tools_order fuel key {out} h) =
      workforce-AreCoherent api laws keeps agents_order tools_order fuel key s out h

  -- Let the operator start where no agent has a status, and let only the operator write statuses.
  -- Then an agent that shows a URL or an AI gateway in its status has a Ready condition that is
  -- true, whatever the reconcilers and others have done in whatever order, and whichever calls have
  -- failed.
  pub Reach-AreCoherent : (s : api.State) → Reach api operator_namespace s → AreCoherent api s
  Reach-AreCoherent s (start blank) =
      λ k a got. subst IsCoherent (sym (blank k a got)) (inl (refl, refl))
  Reach-AreCoherent s (later {s = before} reached step) =
      Step-AreCoherent before s step (Reach-AreCoherent before reached)

  -- Let the operator start where no agent has a status, and let only the operator write statuses.
  -- Then, whatever has happened since, a sub-agent with no URL of its own that resolves refers to an
  -- agent that is Ready and whose status shows that URL.
  pub resolve_sub_agent_url-IsReady :
      (s : api.State)
      → Reach api operator_namespace s
      → (sub : SubAgent) (namespace url : String) → sub.url ≡ ""
      → resolve_sub_agent_url (api.reader s) sub namespace ≡ ok url
      → (ref : ObjectReference) × (a : Agent) × (sub.agent_ref ≡ some ref)
        × ((api.reader s).get_agent (agent_key ref namespace) ≡ ok a)
        × (a.status.url ≡ url)
        × IsReady a.status
  unfolding resolve_sub_agent_url
  resolve_sub_agent_url-IsReady s reached sub namespace url no_url h =
      let unset : (sub.url == "") ≡ true = (eq_iff sub.url "").1 no_url in
      let (ref, a, refers, got, same, set) =
        resolve_agent_ref-ok (api.reader s) sub.agent_ref namespace url (rw unset at h) in
      elim (Reach-AreCoherent s reached (agent_key ref namespace) a got) [
        | inl (empty, _) ↦ absurd (cc (sym set ∙ (eq_iff a.status.url "").1 empty))
        | inr is_ready ↦ (ref, a, refers, got, same, is_ready)
      ]
