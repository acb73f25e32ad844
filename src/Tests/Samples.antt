-- ===== src/Tests/Samples.antt =====
-- Concrete resources and a concrete API server, for the tests.
use agent_runtime_operator.Base.{
  String, false, Option, none, some, List, [], ◌∷◌, ◌<>◌, if◌then◌else◌, ◌==◌,
}
use agent_runtime_operator.Api.Meta.{ObjectReference, NamespacedName, same_key}
use agent_runtime_operator.Api.Agent.{SubAgent, AgentTool, Agent, a2a_protocol}
use agent_runtime_operator.Api.Gateways.{AiGateway, ToolRoute}
use agent_runtime_operator.Api.ToolServer.{ToolServer}
use agent_runtime_operator.Api.Workforce.{AgenticWorkforce}
use agent_runtime_operator.Cluster.{not_found, Error, Result, ok, err, Reader}
use agent_runtime_operator.Controller.SubAgents.{ResolvedSubAgent}
use agent_runtime_operator.Controller.AiGateways.{default_ai_gateway_namespace}
use agent_runtime_operator.Controller.Template.{Runtime}
use agent_runtime_operator.Controller.Env.{values}
use agent_runtime_operator.Controller.AgentDeployment.{Platform, Resolved}
use agent_runtime_operator.Controller.Workload.{
  new_metadata, new_deployment, blank_container, Deployment,
}

abbrev pub quoted : String → String
quoted s = "\"" <> s <> "\""

abbrev pub reference : String → ObjectReference
reference name = record { api_version = ""; kind = ""; name = name; namespace = "" }

abbrev pub sub_agent_of : String → SubAgent
sub_agent_of name = record {
  name = name;
  agent_ref = some (reference name);
  url = "";
  interaction_type = "tool_call";
}

abbrev pub route_tool : String → AgentTool
route_tool name = record {
  name = name;
  upstream = record {
    tool_route_ref = some (reference name);
    tool_server_ref = none;
    external = none;
  };
  propagated_headers = [];
}

abbrev pub server_tool : String → AgentTool
server_tool name = record {
  name = name;
  upstream = record {
    tool_route_ref = none;
    tool_server_ref = some (reference name);
    external = none;
  };
  propagated_headers = [];
}

abbrev pub agent_of : String → List SubAgent → List AgentTool → Agent
agent_of name sub_agents tools = record {
  metadata = new_metadata name "team";
  spec = record {
    framework = "";
    replicas = none;
    image = "";
    description = "";
    instruction = "";
    model = "";
    sub_agents = sub_agents;
    tools = tools;
    protocols = record { name = "a2a"; type = a2a_protocol; port = 8000; path = "" } ∷ [];
    exposed = false;
    ai_gateway_ref = none;
    env = [];
    env_from = [];
    volume_mounts = [];
    volumes = [];
    resources = none;
    common_metadata = none;
    pod_metadata = none;
  };
  status = record { conditions = []; url = "http://" <> name; ai_gateway_ref = none };
}

abbrev pub planner : Agent
planner =
    agent_of "planner" (sub_agent_of "helper" ∷ []) (route_tool "search" ∷ server_tool "files" ∷ [])

abbrev pub helper : Agent
helper = agent_of "helper" [] []

abbrev pub stranger : Agent
stranger = agent_of "stranger" [] []

abbrev pub absent : Error
absent = record { kind = not_found; message = "not found" }

abbrev pub route_of : String → String → ToolRoute
route_of name url = record {
  metadata = new_metadata name "team";
  spec = record {
    tool_gateway_ref = none;
    upstream = record { tool_server_ref = none; external = none };
    tool_filter = none;
  };
  status = record { url = url; conditions = [] };
}

abbrev pub server_of : String → String → ToolServer
server_of name url = record {
  metadata = new_metadata name "team";
  spec = record {
    protocol = "mcp";
    transport_type = "http";
    image = "files:1";
    image_pull_secrets = [];
    command = [];
    args = [];
    port = 8080;
    path = "/mcp";
    replicas = none;
    env = [];
    env_from = [];
    resources = none;
    common_metadata = none;
    pod_metadata = none;
  };
  status = record { conditions = []; url = url };
}

abbrev pub gateway_of : String → String → AiGateway
gateway_of name namespace = record {
  api_version = "runtime.agentic-layer.ai/v1alpha1";
  kind = "AiGateway";
  metadata = new_metadata name namespace;
  spec = record {
    ai_gateway_class_name = "";
    port = 4000;
    ai_models = [];
    env = [];
    env_from = [];
    guardrails = [];
    common_metadata = none;
    pod_metadata = none;
  };
  conditions = [];
}

abbrev pub team : String → NamespacedName
team name = record { namespace = "team"; name = name }

-- An API server with three agents. What it answers for the agent `stranger`, the route `old`, the
-- tool server `old` and the gateway `elsewhere/spare` is left open.
abbrev pub server : Result Agent → Result ToolRoute → Result ToolServer → Result AiGateway → Reader
server strange route tool_server gateway = record {
  get_agent = λ k.
      if same_key k (team "stranger")
      then strange
      else if k.name == "helper"
      then ok helper
      else err absent;
  get_tool_route = λ k.
      if same_key k (team "old")
      then route
      else if k.name == "search"
      then ok (route_of "search" "http://search")
      else err absent;
  get_tool_server = λ k.
      if same_key k (team "old")
      then tool_server
      else if k.name == "files"
      then ok (server_of "files" "http://files")
      else err absent;
  get_ai_gateway = λ k.
      if same_key k (record { namespace = "elsewhere"; name = "spare" })
      then gateway
      else err absent;
  list_agents = ok (planner ∷ helper ∷ []);
  list_workforces = ok [];
  list_ai_gateways = λ namespace.
      if namespace == default_ai_gateway_namespace
      then ok (gateway_of "main" default_ai_gateway_namespace ∷ [])
      else ok [];
  list_configurations = λ namespace. ok [];
}

abbrev pub before : Reader
before = server (err absent) (err absent) (err absent) (err absent)

abbrev pub go : Runtime
go = record {
  marshal_sub_agents = λ m. ok "{}";
  marshal_tools = λ m. ok "{}";
  quote = quoted;
  sub_agent_order = λ m. m;
}

abbrev pub platform : Platform
platform = record {
  go = go;
  env_order = values;
  set_controller_reference =
      λ owner object. ok (record object { owner_references = owner.name ∷ [] });
}

abbrev pub nothing_resolved : Resolved
nothing_resolved = record { sub_agents = []; tools = []; ai_gateway = none; config = none }

abbrev pub with_sidecar : Deployment
with_sidecar =
    let d = new_deployment "planner" "team" in
    record d { pod = record d.pod { containers = blank_container "sidecar" ∷ [] } }

abbrev pub remote : String → ResolvedSubAgent
remote url = record { url = url; interaction_type = "tool_call" }

abbrev pub workforce_of : String → List (Option ObjectReference) → AgenticWorkforce
workforce_of name entries = record {
  metadata = new_metadata name "team";
  spec = record {
    name = name;
    description = "";
    owner = "";
    tags = [];
    entry_point_agents = entries;
  };
  status = record { conditions = []; transitive_agents = []; transitive_tools = [] };
}

abbrev pub crew : AgenticWorkforce
crew = workforce_of "crew" (none ∷ some (reference "planner") ∷ [])
