-- ===== src/Controller/SubAgents/Outcome.antt =====
-- What the resolution of all sub-agents returns, without its loop: the last entry of a name counts,
-- and every failure is reported, in order.
use agent_runtime_operator.Base.{
  String, ◌≡◌, refl, ap, sym, ◌∙◌, ◌↔◌, Option, none, some, List, [], ◌∷◌, ◌++◌, ◌==◌, arith,
  if◌then◌else◌, All,
}
use agent_runtime_operator.Base.Maps
use agent_runtime_operator.Base.Maps.{over, over_assoc, over-none, lookup-insert}
use mathlib.Core.List.{append_assoc, append-nil}
use agent_runtime_operator.Api.Agent.{SubAgent, Agent}
use agent_runtime_operator.Cluster.{Result, ok, err, Reader}
use agent_runtime_operator.Controller.SubAgents.{
  ResolvedSubAgent, resolve_sub_agent_url, Progress, issue, add_result, resolve_each, report,
  resolve_all_sub_agents,
}

-- What one sub-agent contributes to the entry `name` of the result.
abbrev pub contribution : SubAgent → String → Result String → Option ResolvedSubAgent
contribution sub name (err e) = none
contribution sub name (ok url) =
    if sub.name == name
    then some (record { url = url; interaction_type = sub.interaction_type })
    else none

abbrev pub failure : (String → String) → SubAgent → Result String → List String
failure quote sub (ok url) = []
failure quote sub (err e) = issue quote sub e ∷ []

failure-nil_iff :
    (quote : String → String) (sub : SubAgent) (url : Result String) (rest : List String)
    → (failure quote sub url ++ rest ≡ []) ↔ (((u : String) × (url ≡ ok u)) × (rest ≡ []))
failure-nil_iff quote sub (ok u) rest = (λ e. ((u, refl), e), λ (_, e). e)
failure-nil_iff quote sub (err e) rest = (λ e. cc, λ ((u, e), _). cc)

report-none_iff : (issues : List String) → (report issues ≡ none) ↔ (issues ≡ [])
report-none_iff [] = (λ _. refl, λ _. refl)
report-none_iff (i ∷ issues) = (λ e. cc, λ e. cc)

module _ (quote : String → String) (r : Reader) (namespace : String) where
  -- The last sub-agent of the name that resolves.
  abbrev pub last_resolved : List SubAgent → String → Option ResolvedSubAgent
  last_resolved [] name = none
  last_resolved (sub ∷ subs) name =
      over (last_resolved subs name) (contribution sub name (resolve_sub_agent_url r sub namespace))

  abbrev pub failures : List SubAgent → List String
  failures [] = []
  failures (sub ∷ subs) = failure quote sub (resolve_sub_agent_url r sub namespace) ++ failures subs

  add_result-lookup :
      (sub : SubAgent) (url : Result String) (p : Progress) (name : String)
      → Maps.lookup name (add_result quote sub url p).0
        ≡ over (contribution sub name url) (Maps.lookup name p.0)
  unfolding add_result
  add_result-lookup sub (err e) p name = refl
  add_result-lookup sub (ok url) p name = ground (
    arith,
    lookup-insert name sub.name (record { url = url; interaction_type = sub.interaction_type }) p.0,
  )

  add_result-issues :
      (sub : SubAgent) (url : Result String) (p : Progress)
      → (add_result quote sub url p).1 ≡ p.1 ++ failure quote sub url
  unfolding add_result
  add_result-issues sub (err e) p = refl
  add_result-issues sub (ok url) p = sym (append-nil p.1)

  resolve_each-lookup :
      (subs : List SubAgent) (p : Progress) (name : String)
      → Maps.lookup name (resolve_each quote r namespace subs p).0
        ≡ over (last_resolved subs name) (Maps.lookup name p.0)
  unfolding resolve_each
  resolve_each-lookup [] p name = refl
  resolve_each-lookup (sub ∷ subs) p name =
      let url = resolve_sub_agent_url r sub namespace in
      resolve_each-lookup subs (add_result quote sub url p) name
      ∙ rw (add_result-lookup sub url p name) (
          sym (
            over_assoc (last_resolved subs name) (contribution sub name url)
              (Maps.lookup name p.0)))

  resolve_each-issues :
      (subs : List SubAgent) (p : Progress)
      → (resolve_each quote r namespace subs p).1 ≡ p.1 ++ failures subs
  unfolding resolve_each
  resolve_each-issues [] p = sym (append-nil p.1)
  resolve_each-issues (sub ∷ subs) p =
      let url = resolve_sub_agent_url r sub namespace in
      resolve_each-issues subs (add_result quote sub url p)
      ∙ rw (add_result-issues sub url p) (append_assoc p.1 (failure quote sub url) (failures subs))

  pub failures-nil_iff :
      (subs : List SubAgent)
      → (failures subs ≡ [])
        ↔ All (λ sub. (url : String) × (resolve_sub_agent_url r sub namespace ≡ ok url)) subs
  failures-nil_iff [] = (λ _. tt, λ _. refl)
  failures-nil_iff (sub ∷ subs) =
      let (to, from) =
        failure-nil_iff quote sub (resolve_sub_agent_url r sub namespace) (failures subs) in
      let (ih, ih') = failures-nil_iff subs in
      (λ e. let (here, later) = to e in (here, ih later), λ (here, later). from (here, ih' later))

-- The result holds under each name the last sub-agent of that name that resolves, and the error
-- reports all the failures in their order.
pub resolve_all_sub_agents_outcome :
    (quote : String → String) (r : Reader) (agent : Agent) (name : String)
    → (Maps.lookup name (resolve_all_sub_agents quote r agent).0
        ≡ last_resolved quote r agent.namespace agent.spec.sub_agents name)
      × ((resolve_all_sub_agents quote r agent).1
          ≡ report (failures quote r agent.namespace agent.spec.sub_agents))
unfolding resolve_all_sub_agents Maps.lookup
resolve_all_sub_agents_outcome quote r agent name =
    let subs = agent.spec.sub_agents in
    (
      resolve_each-lookup quote r agent.namespace subs ([], []) name ∙ over-none _,
      ap report (resolve_each-issues quote r agent.namespace subs ([], [])),
    )

-- There is no error exactly when every sub-agent resolves.
pub resolve_all_sub_agents-none_iff :
    (quote : String → String) (r : Reader) (agent : Agent)
    → ((resolve_all_sub_agents quote r agent).1 ≡ none)
      ↔ All
          (λ sub. (url : String) × (resolve_sub_agent_url r sub agent.namespace ≡ ok url))
          agent.spec.sub_agents
resolve_all_sub_agents-none_iff quote r agent =
    let (_, e) = resolve_all_sub_agents_outcome quote r agent "" in
    let (to, from) = report-none_iff (failures quote r agent.namespace agent.spec.sub_agents) in
    let (ih, ih') = failures-nil_iff quote r agent.namespace agent.spec.sub_agents in
    (λ h. ih (to (sym e ∙ h)), λ h. e ∙ from (ih' h))
