-- ===== src/Controller/Reconcile/Resolves.antt =====
-- What the agents that refer to a reconciled agent find.
use agent_runtime_operator.Base.{
  String, ◌≡◌, refl, ap, ◌∙◌, ◌⊎◌, inl, inr, false, none, some, ◌==◌, ◌<>◌, eq_iff, arith,
}
use agent_runtime_operator.Api.Meta.{ObjectReference, NamespacedName}
use agent_runtime_operator.Api.Agent.{AgentProtocol, SubAgent, Agent}
use agent_runtime_operator.Cluster.{Error, ok, err, Reader, errorf}
use agent_runtime_operator.Controller.Protocols.{find_a2a_protocol, build_a2a_agent_card_url}
use agent_runtime_operator.Controller.Protocols.Advertised.{build_a2a_agent_card_url-probe}
use agent_runtime_operator.Controller.SubAgents.{
  agent_key, fetched_url, resolve_cluster_agent, resolve_sub_agent_url,
}
use agent_runtime_operator.Controller.AgentDeployment.{Platform}
use agent_runtime_operator.Controller.Server.{ApiServer}
use agent_runtime_operator.Controller.Server.Laws.{IsApiServer}
use agent_runtime_operator.Controller.Reconcile.{reconcile_agent, not_ready, reconcile}
use agent_runtime_operator.Controller.Reconcile.Outcomes.{reconcile-ready, reconcile-not_ready}

-- the sub-agent refers to the key, from the namespace
pub record RefersTo (key : NamespacedName) (namespace : String) (sub : SubAgent) : Type 0 where
  pub ref : ObjectReference
  pub is_reference : sub.agent_ref ≡ some ref
  pub no_url : sub.url ≡ ""
  pub is_key : agent_key ref namespace ≡ key

resolve-reference :
    (r : Reader) (key : NamespacedName) (namespace : String) (sub : SubAgent)
    → RefersTo key namespace sub
    → resolve_sub_agent_url r sub namespace ≡ resolve_cluster_agent r key
unfolding resolve_sub_agent_url
resolve-reference r key namespace sub refers =
    ground (arith, refers.is_reference, (eq_iff sub.url "").1 refers.no_url)
    ∙ ap (resolve_cluster_agent r) refers.is_key

resolve-with_url :
    (r : Reader) (key : NamespacedName) (a : Agent) (url : String)
    → r.get_agent key ≡ ok a
    → a.status.url ≡ url
    → (url == "") ≡ false
    → resolve_cluster_agent r key ≡ ok url
unfolding resolve_cluster_agent
resolve-with_url r key a url got same set =
    let set' : (a.status.url == "") ≡ false = ap (λ u. u == "") same ∙ set in
    ap (fetched_url key) got ∙ rw set' (ap ok same)

resolve-without_url :
    (r : Reader) (key : NamespacedName) (a : Agent)
    → r.get_agent key ≡ ok a
    → a.status.url ≡ ""
    → (e : Error) × (resolve_cluster_agent r key ≡ err e)
unfolding resolve_cluster_agent
resolve-without_url r key a got same =
    let unset = (eq_iff a.status.url "").1 same in
    (
      errorf (
          "cluster Agent " <> key.namespace <> "/" <> key.name
          <> " has no URL in its Status field (may not be ready or have A2A protocol)"),
      ap (fetched_url key) got ∙ rw unset refl,
    )

module _ (api : ApiServer) (laws : IsApiServer api) (p : Platform)
    (operator_namespace : String) where
  -- If an agent is there and its reconciliation reports no error, then afterwards every sub-agent
  -- that refers to it resolves to the URL of its card, unless it has no protocol A2A: then no
  -- sub-agent that refers to it resolves.
  pub reconcile-resolves :
      (key : NamespacedName) (agent : Agent) (s s' : api.State)
      → (api.reader s).get_agent key ≡ ok agent
      → reconcile api p operator_namespace key s ≡ (ok tt, s')
      → (sub : SubAgent) (namespace : String) → RefersTo key namespace sub
      → ((q : AgentProtocol) × (find_a2a_protocol agent ≡ some q)
          × (resolve_sub_agent_url (api.reader s') sub namespace
              ≡ ok (build_a2a_agent_card_url agent)))
        ⊎ ((find_a2a_protocol agent ≡ none)
            × ((e : Error) × (resolve_sub_agent_url (api.reader s') sub namespace ≡ err e)))
  reconcile-resolves key agent s s' found h sub namespace refers =
      let (_, _, _, (stored, got, is_ready)) =
        reconcile-ready api laws p operator_namespace key agent s s' found h in
      let r = api.reader s' in
      let resolves = resolve-reference r key namespace sub refers in
      elim (build_a2a_agent_card_url-probe agent) [
        | inl (missing, unset, _) ↦
            let (e, fails) = resolve-without_url r key stored got (is_ready.url ∙ unset) in
            inr (missing, (e, resolves ∙ fails))
        | inr (q, _, _, a2a, _, _, _, _, set) ↦ inl (
          q,
          a2a,
          resolves
              ∙ resolve-with_url r key stored (build_a2a_agent_card_url agent) got is_ready.url set,
        )
      ]

  -- If the reconciliation of an agent fails and the update of its status succeeds, then afterwards no
  -- sub-agent that refers to it resolves.
  pub reconcile-unresolved :
      (key : NamespacedName) (agent a' : Agent) (e : Error) (s t t' : api.State)
      → (api.reader s).get_agent key ≡ ok agent
      → reconcile_agent api p operator_namespace agent s ≡ (err e, t)
      → not_ready api p operator_namespace agent e t ≡ (ok tt, (a', t'))
      → (sub : SubAgent) (namespace : String) → RefersTo key namespace sub
      → (e' : Error) × (resolve_sub_agent_url (api.reader t') sub namespace ≡ err e')
  reconcile-unresolved key agent a' e s t t' found failed written sub namespace refers =
      let (_, (stored, got, is_not_ready)) =
        reconcile-not_ready api laws p operator_namespace key agent a' e s t t' found failed
          written in
      let (e', fails) = resolve-without_url (api.reader t') key stored got is_not_ready.url in
      (e', resolve-reference (api.reader t') key namespace sub refers ∙ fails)
