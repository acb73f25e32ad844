-- ===== src/Controller/Protocols/Advertised.antt =====
-- The URL of an agent's card and its readiness probe.
use mathlib.Core.List.{Memᴰ}
use text.Mathlib.TextLemmas.{append_assoc}
use agent_runtime_operator.Base.{
  ℕ, String, ◌<>◌, ◌≡◌, refl, ap, ◌∙◌, ◌⊎◌, inl, inr, false, Option, none, some, List, [], ◌∷◌,
  ◌==◌, arith, Bool-cases, decimal, find_first,
}
use agent_runtime_operator.Base.Appended.{append-not_empty}
use agent_runtime_operator.Api.Agent.{AgentProtocol, Agent, a2a_protocol}
use agent_runtime_operator.Controller.Protocols.{
  agent_card_endpoint, find_a2a_protocol, rpc_url_of, build_a2a_agent_rpc_url,
  build_a2a_agent_card_url, Probe, http_get, agent_card_probe, generate_readiness_probe,
}

-- the host and the port at which the Service of the agent is reached
abbrev pub host_url : Agent → ℕ → String
host_url agent port =
    "http://" <> agent.name <> "." <> agent.namespace <> ".svc.cluster.local:" <> decimal port

abbrev first_a2a : List AgentProtocol → Option AgentProtocol
first_a2a = find_first (λ p. p.type == a2a_protocol)

rpc_url_of-first :
    (agent : Agent) (ps : List AgentProtocol)
    → ((first_a2a ps ≡ none) × (rpc_url_of agent.name agent.namespace ps ≡ ""))
      ⊎ ((q : AgentProtocol) × (first_a2a ps ≡ some q)
          × Memᴰ q ps
          × (rpc_url_of agent.name agent.namespace ps ≡ host_url agent q.port <> q.path))
unfolding rpc_url_of
rpc_url_of-first agent [] = inl (refl, refl)
rpc_url_of-first agent (p ∷ ps) = elim (Bool-cases (p.type == a2a_protocol)) [
  | inl a2a ↦ inr (p, ground arith, Memᴰ.head refl, rw (a2a, rpc_url_of) (simp append_assoc refl))
  | inr other ↦ elim (rpc_url_of-first agent ps) [
    | inl (missing, unset) ↦ inl (ground arith, ground arith)
    | inr (q, found, m, url) ↦ inr (q, ground arith, Memᴰ.tail m, ground arith)
  ]
]

host-not_empty : (agent : Agent) (port : ℕ) (t : String) → (host_url agent port <> t == "") ≡ false
host-not_empty agent port t =
    append-not_empty (host_url agent port) t (append-not_empty "http://" _ refl)

-- Either the agent has no protocol A2A, and then neither a readiness probe nor a URL of its card,
-- or the probe asks for the card at the port of its first protocol A2A, and the URL is that port at
-- the name of the Service, followed by the path of the probe.
pub build_a2a_agent_card_url-probe :
    (agent : Agent)
    → ((find_a2a_protocol agent ≡ none)
        × (build_a2a_agent_card_url agent ≡ "")
        × (generate_readiness_probe agent ≡ none))
      ⊎ ((q : AgentProtocol) × (probe : Probe) × (path : String) × (find_a2a_protocol agent
            ≡ some q)
          × Memᴰ q agent.spec.protocols
          × (generate_readiness_probe agent ≡ some probe)
          × (probe.handler ≡ http_get path q.port)
          × (build_a2a_agent_card_url agent ≡ host_url agent q.port <> path)
          × ((build_a2a_agent_card_url agent == "") ≡ false))
unfolding build_a2a_agent_card_url build_a2a_agent_rpc_url generate_readiness_probe
    find_a2a_protocol
build_a2a_agent_card_url-probe agent = elim (rpc_url_of-first agent agent.spec.protocols) [
  | inl (missing, unset) ↦ inl (missing, rw unset refl, ground arith)
  | inr (q, found, m, url) ↦
      let set : (build_a2a_agent_rpc_url agent == "") ≡ false =
        ap (λ u. u == "") url ∙ host-not_empty agent q.port q.path in
      let card : build_a2a_agent_card_url agent
          ≡ host_url agent q.port <> (q.path <> agent_card_endpoint) =
        rw (set, build_a2a_agent_card_url)
          (ap (λ u. u <> agent_card_endpoint) url
            ∙ append_assoc (host_url agent q.port) q.path agent_card_endpoint) in
      inr (
        q,
        agent_card_probe q,
        q.path <> agent_card_endpoint,
        found,
        m,
        ground arith,
        refl,
        card,
        ap (λ u. u == "") card ∙ host-not_empty agent q.port (q.path <> agent_card_endpoint),
      )
]
