-- ===== src/Controller/Protocols.antt =====
-- The A2A protocol of an agent: the URLs of internal/controller/agent_config.go and the probe of
-- internal/controller/agent_probe.go
pub mod Advertised
use agent_runtime_operator.Base.{
  ℕ, String, ◌<>◌, Option, none, some, List, [], ◌∷◌, ◌==◌, if◌then◌else◌, decimal, find_first,
}
use agent_runtime_operator.Api.Agent.{AgentProtocol, Agent, a2a_protocol}

abbrev pub agent_card_endpoint : String
agent_card_endpoint = "/.well-known/agent-card.json"

unfoldable pub find_a2a_protocol : Agent → Option AgentProtocol
find_a2a_protocol agent = find_first (λ p. p.type == a2a_protocol) agent.spec.protocols

-- the loop of `buildA2AAgentRpcUrl`: the URL of the first A2A protocol
unfoldable pub rpc_url_of : String → String → List AgentProtocol → String
rpc_url_of name namespace [] = ""
rpc_url_of name namespace (p ∷ ps) =
    let rest = rpc_url_of name namespace ps in
    if p.type == a2a_protocol
    then "http://" <> name <> "." <> namespace <> ".svc.cluster.local:" <> decimal p.port <> p.path
    else rest

unfoldable pub build_a2a_agent_rpc_url : Agent → String
unfolding rpc_url_of
build_a2a_agent_rpc_url agent = rpc_url_of agent.name agent.namespace agent.spec.protocols

unfoldable pub build_a2a_agent_card_url : Agent → String
build_a2a_agent_card_url agent =
    let rpc_url = build_a2a_agent_rpc_url agent in
    if rpc_url == "" then "" else rpc_url <> agent_card_endpoint

pub data ProbeHandler : Type 0 where
  http_get : (path : String) (port : ℕ) → ProbeHandler
  tcp_socket : (port : ℕ) → ProbeHandler

pub record Probe : Type 0 where
  pub handler : ProbeHandler
  pub initial_delay_seconds : ℕ
  pub period_seconds : ℕ
  pub timeout_seconds : ℕ
  pub success_threshold : ℕ
  pub failure_threshold : ℕ

abbrev pub agent_card_probe : AgentProtocol → Probe
agent_card_probe p = record {
  handler = http_get (p.path <> agent_card_endpoint) p.port;
  initial_delay_seconds = 10;
  period_seconds = 10;
  timeout_seconds = 3;
  success_threshold = 1;
  failure_threshold = 10;
}

unfoldable pub generate_readiness_probe : Agent → Option Probe
unfolding find_a2a_protocol
generate_readiness_probe agent = elim (find_a2a_protocol agent) [
  | none ↦ none
  | some p ↦ some (agent_card_probe p)
]
