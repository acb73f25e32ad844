-- ===== src/Controller/SubAgents/Typed.antt =====
-- The resolution of sub-agents keeps their interaction types.
use agent_runtime_operator.Base.{String, ◌≢◌, List, [], ◌∷◌, All}
use agent_runtime_operator.Base.Everywhere.{All-insert}
use agent_runtime_operator.Api.Agent.{SubAgent, Agent}
use agent_runtime_operator.Cluster.{Result, ok, err, Reader}
use agent_runtime_operator.Controller.SubAgents.{
  Progress, resolve_sub_agent_url, add_result, resolve_each, resolve_all_sub_agents,
}
use agent_runtime_operator.Controller.Template.Laws.{HasInteractionTypes}

module _ (quote : String → String) (r : Reader) (namespace : String) where
  add_result-HasInteractionTypes :
      (sub : SubAgent) (url : Result String) (progress : Progress)
      → sub.interaction_type ≢ ""
      → HasInteractionTypes progress.0
      → HasInteractionTypes (add_result quote sub url progress).0
  unfolding add_result
  add_result-HasInteractionTypes sub (err e) (resolved, issues) here typed = typed
  add_result-HasInteractionTypes sub (ok url) (resolved, issues) here typed =
      All-insert (λ e. e.1.interaction_type ≢ "") sub.name
        (record { url = url; interaction_type = sub.interaction_type }) resolved here typed

  resolve_each-HasInteractionTypes :
      (subs : List SubAgent) (progress : Progress)
      → All (λ (sub : SubAgent). sub.interaction_type ≢ "") subs
      → HasInteractionTypes progress.0
      → HasInteractionTypes (resolve_each quote r namespace subs progress).0
  unfolding resolve_each
  resolve_each-HasInteractionTypes [] progress h typed = typed
  resolve_each-HasInteractionTypes (sub ∷ subs) progress (here, h) typed =
      resolve_each-HasInteractionTypes subs
        (add_result quote sub (resolve_sub_agent_url r sub namespace) progress) h
        (add_result-HasInteractionTypes sub (resolve_sub_agent_url r sub namespace) progress here
          typed)

pub resolve_all_sub_agents-HasInteractionTypes :
    (quote : String → String) (r : Reader) (agent : Agent)
    → All (λ (sub : SubAgent). sub.interaction_type ≢ "") agent.spec.sub_agents
    → HasInteractionTypes (resolve_all_sub_agents quote r agent).0
unfolding resolve_all_sub_agents
resolve_all_sub_agents-HasInteractionTypes quote r agent typed =
    resolve_each-HasInteractionTypes quote r agent.namespace agent.spec.sub_agents ([], []) typed tt
