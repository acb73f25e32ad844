-- ===== src/Controller/Template/Laws.antt =====
-- The template variables: no name stands twice, the variables that are always set, and when the
-- construction fails.
use agent_runtime_operator.Base.{
  String, ◌≡◌, ◌≢◌, refl, sym, ap, ◌∙◌, Option, none, some, List, [], ◌∷◌, ◌==◌, arith, ◌↔◌, All,
  Map, Bool-cases, inl, inr, eq_iff, if◌then◌else◌,
}
use agent_runtime_operator.Base.Maps
use agent_runtime_operator.Base.Maps.{over, lookup-insert}
use agent_runtime_operator.Api.Meta.{EnvVar}
use agent_runtime_operator.Api.Agent.{Agent}
use agent_runtime_operator.Cluster.{ok, bind-ok, ok-injective}
use agent_runtime_operator.Controller.Util.{find_env_var}
use agent_runtime_operator.Controller.Env.Names.{HasDistinctNames}
use agent_runtime_operator.Controller.SubAgents.{ResolvedSubAgent}
use agent_runtime_operator.Controller.Tools.{ResolvedTool}
use agent_runtime_operator.Controller.Names.{sanitize_agent_name}
use agent_runtime_operator.Controller.Template.{
  Runtime, variable, sub_agent_config, sub_agents_map, sub_agents_json, tools_json, all_variables,
  build_template_environment_vars,
}

all_variables-distinct :
    (go : Runtime) (agent : Agent) (gateway_url : Option String) (sub_agents tools : String)
    → HasDistinctNames (all_variables go agent gateway_url sub_agents tools)
unfolding find_env_var
all_variables-distinct go agent none sub_agents tools = ground arith
all_variables-distinct go agent (some url) sub_agents tools = ground arith

find-sub_agents :
    (go : Runtime) (agent : Agent) (gateway_url : Option String) (a t : String)
    → find_env_var (all_variables go agent gateway_url a t) "SUB_AGENTS"
      ≡ some (variable "SUB_AGENTS" a)
unfolding find_env_var
find-sub_agents go agent none a t = ground arith
find-sub_agents go agent (some url) a t = ground arith

find-agent_tools :
    (go : Runtime) (agent : Agent) (gateway_url : Option String) (a t : String)
    → find_env_var (all_variables go agent gateway_url a t) "AGENT_TOOLS"
      ≡ some (variable "AGENT_TOOLS" t)
unfolding find_env_var
find-agent_tools go agent none a t = ground arith
find-agent_tools go agent (some url) a t = ground arith

-- What a successful construction returns: the listed variables around the two JSON texts.
pub build_template_environment_vars-ok :
    (go : Runtime) (agent : Agent) (subs : Map ResolvedSubAgent) (tools : Map ResolvedTool)
    (gateway_url : Option String) (env : List EnvVar)
    → build_template_environment_vars go agent subs tools gateway_url ≡ ok env
    → (a t : String) × (sub_agents_json go subs ≡ ok a)
      × (tools_json go tools ≡ ok t)
      × (env ≡ all_variables go agent gateway_url a t)
unfolding build_template_environment_vars
build_template_environment_vars-ok go agent subs tools gateway_url env h =
    let (a, ea, h') = bind-ok (sub_agents_json go subs) _ h in
    let (t, et, h'') = bind-ok (tools_json go tools) _ h' in (a, t, ea, et, cc)

-- If the construction succeeds, no name stands twice, and AGENT_NAME, OTEL_SERVICE_NAME, SUB_AGENTS
-- and AGENT_TOOLS are set, to the sanitised name, the name and the two JSON texts.
pub build_template_environment_vars-distinct :
    (go : Runtime) (agent : Agent) (subs : Map ResolvedSubAgent) (tools : Map ResolvedTool)
    (gateway_url : Option String) (env : List EnvVar)
    → build_template_environment_vars go agent subs tools gateway_url ≡ ok env
    → HasDistinctNames env
      × (find_env_var env "AGENT_NAME"
          ≡ some (variable "AGENT_NAME" (sanitize_agent_name agent.name)))
      × (find_env_var env "OTEL_SERVICE_NAME" ≡ some (variable "OTEL_SERVICE_NAME" agent.name))
      × ((a : String) × (sub_agents_json go subs ≡ ok a)
          × (find_env_var env "SUB_AGENTS" ≡ some (variable "SUB_AGENTS" a)))
      × ((t : String) × (tools_json go tools ≡ ok t)
          × (find_env_var env "AGENT_TOOLS" ≡ some (variable "AGENT_TOOLS" t)))
build_template_environment_vars-distinct go agent subs tools gateway_url env h =
    let (a, t, ea, et, e) =
      build_template_environment_vars-ok go agent subs tools gateway_url env h in
    rw e (
      all_variables-distinct go agent gateway_url a t,
      unfold find_env_var in refl,
      unfold find_env_var in refl,
      (a, ea, find-sub_agents go agent gateway_url a t),
      (t, et, find-agent_tools go agent gateway_url a t),
    )

-- every sub-agent has an interaction type
abbrev pub HasInteractionTypes : Map ResolvedSubAgent → Type 0
HasInteractionTypes = All (λ e. e.1.interaction_type ≢ "")

-- the last sub-agent visited whose sanitised name is the key
abbrev pub last_sanitized : Map ResolvedSubAgent → String → Option (Map String)
last_sanitized [] key = none
last_sanitized ((name, sub) ∷ rest) key =
    over (last_sanitized rest key)
      (if sanitize_agent_name name == key then some (sub_agent_config sub) else none)

-- The loop over the sub-agents succeeds exactly when every one of them has an interaction type.
pub sub_agents_map-ok_iff :
    (go : Runtime) (subs : Map ResolvedSubAgent) (m : Map (Map String))
    → ((result : Map (Map String)) × (sub_agents_map go subs m ≡ ok result))
      ↔ HasInteractionTypes subs
unfolding sub_agents_map
sub_agents_map-ok_iff go [] m = (λ _. tt, λ _. (m, refl))
sub_agents_map-ok_iff go ((name, sub) ∷ subs) m =
    let next = Maps.insert (sanitize_agent_name name) (sub_agent_config sub) m in
    let (to, from) = sub_agents_map-ok_iff go subs next in
    elim (Bool-cases (sub.interaction_type == "")) [
      | inl missing ↦
          rw missing
            ((λ (r, e). cc), λ (set, _). absurd (set ((eq_iff sub.interaction_type "").0 missing)))
      | inr set ↦ rw set (
        λ found. ((λ e. cc ((eq_iff sub.interaction_type "").1 e)), to found),
        λ (_, rest). from rest,
      )
    ]

-- When it succeeds, each sanitised name has the configuration of the last sub-agent visited under it.
pub sub_agents_map-lookup :
    (go : Runtime) (subs : Map ResolvedSubAgent) (m result : Map (Map String)) (key : String)
    → sub_agents_map go subs m ≡ ok result
    → Maps.lookup key result ≡ over (last_sanitized subs key) (Maps.lookup key m)
unfolding sub_agents_map
sub_agents_map-lookup go [] m result key h = ap (Maps.lookup key) (sym (ok-injective h))
sub_agents_map-lookup go ((name, sub) ∷ subs) m result key h =
    let next = Maps.insert (sanitize_agent_name name) (sub_agent_config sub) m in
    let ih = sub_agents_map-lookup go subs next result key (ground arith) in
    ih ∙ rw (lookup-insert key (sanitize_agent_name name) (sub_agent_config sub) m) (ground arith)

-- Two sub-agents whose names are sanitised alike leave one entry: the first one visited is lost.
pub sub_agents_map_collision :
    (go : Runtime) (name name' : String) (sub sub' : ResolvedSubAgent)
    → sanitize_agent_name name ≡ sanitize_agent_name name'
    → sub.interaction_type ≢ ""
    → sub'.interaction_type ≢ ""
    → sub_agents_map go ((name, sub) ∷ (name', sub') ∷ []) []
      ≡ ok ((sanitize_agent_name name', sub_agent_config sub') ∷ [])
unfolding sub_agents_map Maps.insert
sub_agents_map_collision go name name' sub sub' same set set' = ground (
  arith,
  eq_iff sub.interaction_type "",
  eq_iff sub'.interaction_type "",
  eq_iff (sanitize_agent_name name) (sanitize_agent_name name'),
)
