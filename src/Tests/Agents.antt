-- ===== src/Tests/Agents.antt =====
-- The theorems on the agent's Deployment and on its admission, at a concrete agent.
use mathlib.Core.List.{Permᴰ}
use mathlib.Core.List.Permᴰ
use agent_runtime_operator.Base.{
  String, ◌≡◌, refl, true, false, none, some, List, [], ◌∷◌, arith, All,
}
use agent_runtime_operator.Api.Meta.{EnvVar}
use agent_runtime_operator.Cluster.{Result, ok}
use agent_runtime_operator.Controller.Names.{agent_container_name, sanitize_agent_name}
use agent_runtime_operator.Controller.Env.{merge_environment_variables, values}
use agent_runtime_operator.Controller.Template.{variable, all_variables}
use agent_runtime_operator.Controller.Workload.{Deployment, new_service, blank_container}
use agent_runtime_operator.Controller.Workload.Laws.{others, find_container}
use agent_runtime_operator.Controller.AgentDeployment.{
  all_env_vars, mutate_deployment, update_agent_container, update_deployment, mutate_service,
  update_service,
}
use agent_runtime_operator.Controller.AgentDeployment.Laws.{mutate_deployment-containers}
use agent_runtime_operator.Base.{Map, is_some, is_nil, if◌then◌else◌}
use agent_runtime_operator.Base.Maps
use agent_runtime_operator.Api.Agent.{Agent}
use agent_runtime_operator.Controller.SubAgents.{ResolvedSubAgent}
use agent_runtime_operator.Controller.Template.Orders.{VisitsEachEntry, MarshalsByKey}
use agent_runtime_operator.Controller.AgentDeployment.{Platform, Resolved}
use agent_runtime_operator.Webhook.Agent.{AgentCustomDefaulter, apply_defaults}
use agent_runtime_operator.Webhook.Agent.Laws.{IsExposable, apply_defaults_complete}
use agent_runtime_operator.Controller.Env.{merge_environment_variables, values}
use agent_runtime_operator.Controller.AgentDeployment.Idempotent.{
  reordered, mutate_deployment_idempotent, mutate_service_idempotent,
}
use agent_runtime_operator.Tests.Updates.{
  platform-SetsOwner, exchanged, values-VisitsEachOnce, exchanged-VisitsEachOnce, planner_service,
}
use agent_runtime_operator.Tests.Samples.{
  planner, go, platform, nothing_resolved, with_sidecar, remote,
}

abbrev planner_env : List EnvVar
planner_env = all_variables go planner none "{}" "{}"

abbrev merged_env : List EnvVar
merged_env = merge_environment_variables values planner_env []

abbrev pub planner_deployment : Deployment
planner_deployment =
    let d = update_deployment platform planner nothing_resolved merged_env with_sidecar in
    record d { metadata = record d.metadata { owner_references = "planner" ∷ [] } }

mutate_deployment-containers_example :
    (others agent_container_name planner_deployment.pod.containers ≡ blank_container "sidecar" ∷ [])
    × ((env : List EnvVar) × (all_env_vars platform planner nothing_resolved ≡ ok env)
        × (find_container agent_container_name planner_deployment.pod.containers
            ≡ some (
                update_agent_container platform planner nothing_resolved env
                  (blank_container agent_container_name))))
unfolding mutate_deployment
mutate_deployment-containers_example =
    mutate_deployment-containers platform planner nothing_resolved with_sidecar planner_deployment
      refl

abbrev same_text : String → String
same_text s = s

abbrev defaulter : AgentCustomDefaulter
defaulter = record { default_replicas = 1; default_port = 8000 }

apply_defaults_complete_example :
    (is_some (apply_defaults same_text defaulter planner).spec.replicas ≡ true)
    × (is_nil (apply_defaults same_text defaulter planner).spec.protocols ≡ false)
    × All
        (IsExposable same_text defaulter)
        (apply_defaults same_text defaulter planner).spec.protocols
apply_defaults_complete_example =
    apply_defaults_complete same_text defaulter planner (λ e. omega arith)

-- a json.Marshal that tells whether the map has one key
abbrev told : Map (Map String) → Result String
told m = ok (if is_some (Maps.lookup "first" m) then "{first}" else "{}")

told-MarshalsByKey : MarshalsByKey told
told-MarshalsByKey m n same = rw (same "first") refl

abbrev telling : Platform
telling = record platform { go = record go { marshal_sub_agents = told } }

abbrev two_resolved : Resolved
two_resolved = record nothing_resolved {
  sub_agents = ("first", remote "http://first") ∷ ("second", remote "http://second") ∷ [];
}

-- the first two sub-agents are exchanged
abbrev other_order : Map ResolvedSubAgent → Map ResolvedSubAgent
other_order [] = []
other_order (e ∷ []) = e ∷ []
other_order (e ∷ f ∷ m) = f ∷ e ∷ m

other_order-VisitsEachEntry : VisitsEachEntry other_order
other_order-VisitsEachEntry [] = Permᴰ.nil
other_order-VisitsEachEntry (e ∷ []) = Permᴰ.refl (e ∷ [])
other_order-VisitsEachEntry (e ∷ f ∷ m) = Permᴰ.swap refl refl

-- an agent with two variables of its own
abbrev planner_with_env : Agent
planner_with_env = record planner {
  spec = record planner.spec { env = variable "ROOT" "/data" ∷ variable "MODE" "read" ∷ [] };
}

abbrev two_env : List EnvVar
two_env =
    merge_environment_variables values (all_variables go planner_with_env none "{first}" "{}")
      planner_with_env.spec.env

abbrev updated_deployment : Deployment
updated_deployment =
    let d = update_deployment telling planner_with_env two_resolved two_env with_sidecar in
    record d { metadata = record d.metadata { owner_references = "planner" ∷ [] } }

mutate_deployment_idempotent_example :
    mutate_deployment
      (reordered telling exchanged other_order)
      planner_with_env
      two_resolved
      updated_deployment
    ≡ ok updated_deployment
unfolding mutate_deployment Maps.lookup sanitize_agent_name Maps.insert update_deployment
mutate_deployment_idempotent_example =
    mutate_deployment_idempotent telling planner_with_env two_resolved exchanged other_order
      with_sidecar updated_deployment platform-SetsOwner values-VisitsEachOnce
      exchanged-VisitsEachOnce (λ m. Permᴰ.refl m) other_order-VisitsEachEntry told-MarshalsByKey
      (refl, (refl, tt)) (record { labels = tt; annotations = tt }) tt refl

mutate_service_idempotent_example :
    mutate_service platform planner planner_service ≡ ok planner_service
unfolding mutate_service Maps.lookup Maps.insert update_service
mutate_service_idempotent_example =
    mutate_service_idempotent platform planner (new_service "planner" "team") planner_service
      platform-SetsOwner (record { labels = tt; annotations = tt }) tt refl
