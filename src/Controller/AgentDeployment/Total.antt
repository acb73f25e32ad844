-- ===== src/Controller/AgentDeployment/Total.antt =====
-- When the updates of an agent's Deployment and Service cannot fail.
use mathlib.Core.List.{Permᴰ}
use mathlib.Core.List.Permᴰ
use agent_runtime_operator.Base.{
  String, ◌≡◌, refl, ap, ◌∙◌, inl, inr, List, Map, is_nil, [], Bool-cases,
}
use agent_runtime_operator.Base.Everywhere.{All-Permᴰ}
use agent_runtime_operator.Api.Meta.{ObjectMeta, EnvVar}
use agent_runtime_operator.Api.Agent.{Agent}
use agent_runtime_operator.Cluster.{ok, ◌>>=◌}
use agent_runtime_operator.Controller.SubAgents.{ResolvedSubAgent}
use agent_runtime_operator.Controller.Tools.{ResolvedTool}
use agent_runtime_operator.Controller.Env.{merge_environment_variables}
use agent_runtime_operator.Controller.Template.{
  ToolConfig, marshalled, visited_sub_agents, sub_agents_json, tools_json, tools_map, all_variables,
  build_template_environment_vars,
}
use agent_runtime_operator.Controller.Template.Laws.{HasInteractionTypes, sub_agents_map-ok_iff}
use agent_runtime_operator.Controller.AgentDeployment.{
  Platform, Resolved, gateway_url, all_env_vars, update_deployment, mutate_deployment,
  update_service, mutate_service,
}
use agent_runtime_operator.Controller.Server.Healthy.{IsTotal}

-- json.Marshal of texts and SetControllerReference do not fail, and `range` visits each entry once
pub record NeverFails (p : Platform) : Type 0 where
  pub marshal_sub_agents :
      (m : Map (Map String)) → (text : String) × (p.go.marshal_sub_agents m ≡ ok text)
  pub marshal_tools : (m : Map ToolConfig) → (text : String) × (p.go.marshal_tools m ≡ ok text)
  pub visits : (m : Map ResolvedSubAgent) → Permᴰ (p.go.sub_agent_order m) m
  pub owner : (o : ObjectMeta) → IsTotal (p.set_controller_reference o)

module _ (p : Platform) (never : NeverFails p) where
  visited :
      (subs : Map ResolvedSubAgent)
      → HasInteractionTypes subs
      → (m : Map (Map String)) × (visited_sub_agents p.go subs ≡ ok m)
  unfolding visited_sub_agents
  visited subs typed = elim (Bool-cases (is_nil subs)) [
    | inl empty ↦ ([], rw empty refl)
    | inr some_sub ↦
        let (_, from) = sub_agents_map-ok_iff p.go (p.go.sub_agent_order subs) [] in
        let (m, e) = from (All-Permᴰ _ (Permᴰ.symm (never.visits subs)) typed) in (m, rw some_sub e)
  ]

  json :
      (subs : Map ResolvedSubAgent)
      → HasInteractionTypes subs
      → (text : String) × (sub_agents_json p.go subs ≡ ok text)
  unfolding sub_agents_json
  json subs typed =
      let (m, e) = visited subs typed in
      let (text, e') = never.marshal_sub_agents m in
      (
        text,
        ap (λ r. r >>= λ x. marshalled p.go "subAgents" (p.go.marshal_sub_agents x)) e
            ∙ ap (marshalled p.go "subAgents") e',
      )

  tools : (resolved : Map ResolvedTool) → (text : String) × (tools_json p.go resolved ≡ ok text)
  unfolding tools_json
  tools resolved =
      let (text, e) = never.marshal_tools (tools_map p.go resolved) in
      (text, ap (marshalled p.go "tools") e)

  environment :
      (agent : Agent) (resolved : Resolved)
      → HasInteractionTypes resolved.sub_agents
      → (env : List EnvVar) × (all_env_vars p agent resolved ≡ ok env)
  unfolding all_env_vars build_template_environment_vars
  environment agent resolved typed =
      let (a, ea) = json resolved.sub_agents typed in
      let (t, et) = tools resolved.tools in
      (
        merge_environment_variables p.env_order
            (all_variables p.go agent (gateway_url resolved.ai_gateway) a t) agent.spec.env,
        rw (ea, et) refl,
      )

  pub mutate_deployment-IsTotal :
      (agent : Agent) (resolved : Resolved)
      → HasInteractionTypes resolved.sub_agents
      → IsTotal (mutate_deployment p agent resolved)
  unfolding mutate_deployment
  mutate_deployment-IsTotal agent resolved typed d =
      let (env, e) = environment agent resolved typed in
      let updated = update_deployment p agent resolved env d in
      let (meta, e') = never.owner agent.metadata updated.metadata in
      (
        record updated { metadata = meta },
        ap
              (λ r. r >>= λ x.
                p.set_controller_reference agent.metadata
                  (update_deployment p agent resolved x d).metadata
                >>= λ m. ok (record (update_deployment p agent resolved x d) { metadata = m }))
              e
            ∙ ap (λ r. r >>= λ m. ok (record updated { metadata = m })) e',
      )

  pub mutate_service-IsTotal : (agent : Agent) → IsTotal (mutate_service p agent)
  unfolding mutate_service
  mutate_service-IsTotal agent s =
      let updated = update_service p agent s in
      let (meta, e) = never.owner agent.metadata updated.metadata in
      (
        record updated { metadata = meta },
        ap (λ r. r >>= λ m. ok (record updated { metadata = m })) e,
      )
