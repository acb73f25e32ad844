-- ===== src/Tests/Environment.antt =====
-- The theorems on names, metadata and the environment, at concrete inputs.
use mathlib.Core.List.Permᴰ
use agent_runtime_operator.Base.{String, ◌≡◌, refl, none, some, List, [], ◌∷◌, or_else}
use agent_runtime_operator.Base.Maps
use agent_runtime_operator.Base.Maps.{over}
use agent_runtime_operator.Api.Meta.{EnvVar}
use agent_runtime_operator.Cluster.{ok}
use agent_runtime_operator.Controller.Util.{find_env_var, build_pod_template_metadata}
use agent_runtime_operator.Controller.Util.Metadata.{build_pod_template_metadata-precedence}
use agent_runtime_operator.Controller.Names.{sanitize_agent_name}
use agent_runtime_operator.Controller.Names.Laws.{IsIdentifier, sanitize_agent_name-IsIdentifier}
use agent_runtime_operator.Controller.Env.{merge_environment_variables, values, merged_entries}
use agent_runtime_operator.Controller.Env.Names.{HasDistinctNames, IsSorted}
use agent_runtime_operator.Controller.Env.Overrides.{last_named}
use agent_runtime_operator.Controller.Env.Merge.{
  merge_environment_variables_outcome, merge_environment_variables_unique,
}
use agent_runtime_operator.Controller.Template.{
  sub_agents_json, tools_json, variable, sub_agents_map, sub_agent_config,
  build_template_environment_vars, all_variables,
}
use agent_runtime_operator.Controller.Template.Laws.{
  build_template_environment_vars-distinct, last_sanitized, sub_agents_map-lookup,
}
use agent_runtime_operator.Tests.Samples.{planner, go, remote}

abbrev template : List EnvVar
template = variable "AGENT_NAME" "a" ∷ variable "AGENT_MODEL" "m" ∷ []

abbrev user : List EnvVar
user = variable "AGENT_MODEL" "mine" ∷ variable "DEBUG" "1" ∷ []

merge_environment_variables_outcome_example :
    IsSorted (merge_environment_variables values template user)
    × HasDistinctNames (merge_environment_variables values template user)
    × ((n : String)
        → find_env_var (merge_environment_variables values template user) n
          ≡ over (last_named user n) (find_env_var template n))
unfolding find_env_var
merge_environment_variables_outcome_example =
    merge_environment_variables_outcome values template user (λ m. Permᴰ.refl (values m))
      (refl, (refl, tt))

sanitize_agent_name-IsIdentifier_example : IsIdentifier (sanitize_agent_name "9-lives")
sanitize_agent_name-IsIdentifier_example = sanitize_agent_name-IsIdentifier "9-lives"

sub_agents_map-lookup_example :
    Maps.lookup "a" (("a", sub_agent_config (remote "http://a")) ∷ [])
    ≡ over (last_sanitized (("a", remote "http://a") ∷ []) "a") (Maps.lookup "a" [])
unfolding sub_agents_map sanitize_agent_name Maps.insert
sub_agents_map-lookup_example =
    sub_agents_map-lookup go (("a", remote "http://a") ∷ []) []
      (("a", sub_agent_config (remote "http://a")) ∷ []) "a" refl

build_pod_template_metadata-precedence_example :
    (Maps.lookup "app" (build_pod_template_metadata (("app", "x") ∷ []) none none).0
      ≡ over
          (Maps.lookup "app" (("app", "x") ∷ []))
          (over (Maps.lookup "app" []) (Maps.lookup "app" [])))
    × (Maps.lookup "app" (or_else (build_pod_template_metadata (("app", "x") ∷ []) none none).1 [])
        ≡ over (Maps.lookup "app" []) (Maps.lookup "app" []))
unfolding Maps.lookup
build_pod_template_metadata-precedence_example =
    build_pod_template_metadata-precedence (("app", "x") ∷ []) none none "app" (refl, tt) tt tt tt
      tt

merge_environment_variables_unique_example :
    (variable "AGENT_NAME" "a" ∷ variable "DEBUG" "1" ∷ [])
    ≡ merge_environment_variables values
        (variable "AGENT_NAME" "a" ∷ [])
        (variable "DEBUG" "1" ∷ [])
unfolding find_env_var merged_entries Maps.lookup Maps.insert
merge_environment_variables_unique_example =
    merge_environment_variables_unique values values (variable "AGENT_NAME" "a" ∷ [])
      (variable "DEBUG" "1" ∷ []) (variable "AGENT_NAME" "a" ∷ variable "DEBUG" "1" ∷ [])
      (λ m. Permᴰ.refl (values m)) (λ m. Permᴰ.refl (values m)) (refl, tt)
      (Permᴰ.refl
        (merged_entries values (variable "AGENT_NAME" "a" ∷ []) (variable "DEBUG" "1" ∷ [])))
      ((refl, tt), (tt, tt))

abbrev planner_env : List EnvVar
planner_env = all_variables go planner none "{}" "{}"

build_template_environment_vars-distinct_example :
    HasDistinctNames planner_env
    × (find_env_var planner_env "AGENT_NAME"
        ≡ some (variable "AGENT_NAME" (sanitize_agent_name "planner")))
    × (find_env_var planner_env "OTEL_SERVICE_NAME" ≡ some (variable "OTEL_SERVICE_NAME" "planner"))
    × ((a : String) × (sub_agents_json go [] ≡ ok a)
        × (find_env_var planner_env "SUB_AGENTS" ≡ some (variable "SUB_AGENTS" a)))
    × ((t : String) × (tools_json go [] ≡ ok t)
        × (find_env_var planner_env "AGENT_TOOLS" ≡ some (variable "AGENT_TOOLS" t)))
unfolding build_template_environment_vars
build_template_environment_vars-distinct_example =
    build_template_environment_vars-distinct go planner [] [] none planner_env refl
