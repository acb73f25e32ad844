-- ===== src/Controller/Template.antt =====
-- `buildTemplateEnvironmentVars` of internal/controller/agent_config.go
pub mod Laws
pub mod Orders
use agent_runtime_operator.Base.{
  String, ◌<>◌, Bool, Option, none, some, List, [], ◌∷◌, ◌++◌, ◌==◌, Map, if◌then◌else◌, is_nil,
}
use agent_runtime_operator.Base.Maps
use agent_runtime_operator.Api.Meta.{EnvVar}
use agent_runtime_operator.Api.Agent.{Agent}
use agent_runtime_operator.Cluster.{Result, ok, err, ◌>>=◌, errorf, wrap}
use agent_runtime_operator.Controller.SubAgents.{ResolvedSubAgent}
use agent_runtime_operator.Controller.Tools.{ResolvedTool}
use agent_runtime_operator.Controller.Names.{sanitize_agent_name}
use agent_runtime_operator.Controller.Protocols.{build_a2a_agent_rpc_url}

abbrev pub variable : String → String → EnvVar
variable name value = record { name = name; value = value; value_from = none }

-- one tool in AGENT_TOOLS; the headers are left out if there are none
pub record ToolConfig : Type 0 where
  pub url : String
  pub propagate_headers : Option (List String)

abbrev pub sub_agent_config : ResolvedSubAgent → Map String
sub_agent_config resolved =
    ("url", resolved.url) ∷ ("interaction_type", resolved.interaction_type) ∷ []

abbrev tool_config : ResolvedTool → ToolConfig
tool_config tool = record {
  url = tool.url;
  propagate_headers = if is_nil tool.propagated_headers then none else some tool.propagated_headers;
}

-- What the function uses of Go's packages: `json.Marshal` at the two types, `%q`, and the order in
-- which `range` visits the map of the sub-agents.
pub record Runtime : Type 0 where
  pub marshal_sub_agents : Map (Map String) → Result String
  pub marshal_tools : Map ToolConfig → Result String
  pub quote : String → String
  pub sub_agent_order : Map ResolvedSubAgent → Map ResolvedSubAgent

module _ (go : Runtime) where
  -- the loop that fills `subAgentsMap`
  unfoldable pub sub_agents_map :
      Map ResolvedSubAgent → Map (Map String) → Result (Map (Map String))
  sub_agents_map [] m = ok m
  sub_agents_map ((name, resolved) ∷ rest) m =
      let later =
        sub_agents_map rest
          (Maps.insert (sanitize_agent_name name) (sub_agent_config resolved) m) in
      if resolved.interaction_type == ""
      then err (
          errorf
            ("subAgent " <> go.quote name <> " has no interactionType set (CRD defaulting failed)"))
      else later

  -- the loop that fills `toolsMap`: each name is inserted once, so the order is of no account
  abbrev pub tools_map : Map ResolvedTool → Map ToolConfig
  tools_map [] = []
  tools_map ((name, tool) ∷ rest) = (name, tool_config tool) ∷ tools_map rest

  abbrev pub marshalled : String → Result String → Result String
  marshalled what (ok text) = ok text
  marshalled what (err e) = err (wrap ("failed to marshal " <> what <> ": ") e)

  -- `subAgentsMap`; an empty map makes an empty object, with no loop
  unfoldable pub visited_sub_agents : Map ResolvedSubAgent → Result (Map (Map String))
  unfolding sub_agents_map
  visited_sub_agents resolved =
      if is_nil resolved then ok [] else sub_agents_map (go.sub_agent_order resolved) []

  unfoldable pub sub_agents_json : Map ResolvedSubAgent → Result String
  unfolding visited_sub_agents
  sub_agents_json resolved = do
    m ← visited_sub_agents resolved
    marshalled "subAgents" (go.marshal_sub_agents m)

  unfoldable pub tools_json : Map ResolvedTool → Result String
  tools_json resolved = marshalled "tools" (go.marshal_tools (tools_map resolved))

  abbrev pub a2a_variables : String → List EnvVar
  a2a_variables url = if url == "" then [] else variable "AGENT_A2A_RPC_URL" url ∷ []

  abbrev pub gateway_variables : Agent → Option String → List EnvVar
  gateway_variables agent none = []
  gateway_variables agent (some url) =
      variable "LITELLM_PROXY_API_BASE" url
      ∷ variable "LITELLM_PROXY_API_KEY" (agent.namespace <> "/" <> agent.name)
      ∷ variable "USE_LITELLM_PROXY" "True"
      ∷ []

  abbrev pub fixed_variables : Agent → List EnvVar
  fixed_variables agent =
      variable "AGENT_NAME" (sanitize_agent_name agent.name)
      ∷ variable "AGENT_DESCRIPTION" agent.spec.description
      ∷ variable "AGENT_INSTRUCTION" agent.spec.instruction
      ∷ variable "AGENT_MODEL" agent.spec.model
      ∷ variable "OTEL_SEMCONV_STABILITY_OPT_IN" "gen_ai_latest_experimental"
      ∷ variable "OTEL_SERVICE_NAME" agent.name
      ∷ []

  abbrev pub all_variables : Agent → Option String → String → String → List EnvVar
  all_variables agent gateway_url sub_agents tools =
      fixed_variables agent
      ++ (a2a_variables (build_a2a_agent_rpc_url agent)
          ++ (gateway_variables agent gateway_url
              ++ variable "SUB_AGENTS" sub_agents ∷ variable "AGENT_TOOLS" tools ∷ []))

  unfoldable pub build_template_environment_vars :
      Agent → Map ResolvedSubAgent → Map ResolvedTool → Option String → Result (List EnvVar)
  unfolding sub_agents_json tools_json
  build_template_environment_vars agent resolved_sub_agents resolved_tools gateway_url = do
    sub_agents ← sub_agents_json resolved_sub_agents
    tools ← tools_json resolved_tools
    ok (all_variables agent gateway_url sub_agents tools)
