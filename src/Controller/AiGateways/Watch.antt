-- ===== src/Controller/AiGateways/Watch.antt =====
-- The watch on AI gateways covers every agent whose gateway can resolve differently after an update.
use agent_runtime_operator.Base.{String, ◌≡◌, false, Option, none, some, List, ◌==◌, arith}
use mathlib.Core.List.{Memᴰ}
use agent_runtime_operator.Api.Meta.{ObjectReference, NamespacedName, key_of, same_key}
use agent_runtime_operator.Api.Agent.{Agent}
use agent_runtime_operator.Api.Gateways.{AiGateway}
use agent_runtime_operator.Cluster.{ok, Reader}
use agent_runtime_operator.Controller.Util.{enqueue_if_absent}
use agent_runtime_operator.Controller.AiGateways.{
  default_ai_gateway_namespace, gateway_key, choose_gateway, resolve_explicit_ai_gateway,
  resolve_default_ai_gateway, resolve_ai_gateway, uses_gateway, find_agents_referencing_ai_gateway,
}

-- Both clients answer alike for every gateway but the one under the key, and for the list of every
-- namespace but the key's.
pub record SameGatewaysExcept (k : NamespacedName) (r r' : Reader) : Type 0 where
  pub gateways :
      (j : NamespacedName) → same_key j k ≡ false → r.get_ai_gateway j ≡ r'.get_ai_gateway j
  pub lists :
      (namespace : String)
      → (k.namespace == namespace) ≡ false
      → r.list_ai_gateways namespace ≡ r'.list_ai_gateways namespace

choose_gateway_same :
    (updated : AiGateway) (r r' : Reader) (ref : Option ObjectReference) (namespace : String)
    → SameGatewaysExcept (key_of updated.metadata) r r'
    → uses_gateway updated ref namespace ≡ false
    → choose_gateway r ref namespace ≡ choose_gateway r' ref namespace
unfolding uses_gateway resolve_explicit_ai_gateway resolve_default_ai_gateway
choose_gateway_same updated r r' (some ref) namespace same h =
    rw (same.gateways (gateway_key ref namespace) (ground arith))
choose_gateway_same updated r r' none namespace same h = rw (same.lists _ h)

-- An agent that the watch on AI gateways does not enqueue resolves its gateway as before the update.
pub ai_gateway_watch_complete :
    (updated : AiGateway) (agent : Agent) (agents : List Agent) (r r' : Reader)
    → SameGatewaysExcept (key_of updated.metadata) r r'
    → r'.list_agents ≡ ok agents
    → Memᴰ agent agents
    → ¬ Memᴰ (key_of agent.metadata) (find_agents_referencing_ai_gateway r' updated)
    → resolve_ai_gateway r agent ≡ resolve_ai_gateway r' agent
unfolding resolve_ai_gateway find_agents_referencing_ai_gateway
ai_gateway_watch_complete updated agent agents r r' same listed m absent =
    choose_gateway_same updated r r' agent.spec.ai_gateway_ref agent.namespace same
      (enqueue_if_absent _ agent agents m (rw listed at absent))

module _ (r r' : Reader) where
  choose_gateway_alike :
      (ref : Option ObjectReference) (namespace : String)
      → ((j : NamespacedName) → r.get_ai_gateway j ≡ r'.get_ai_gateway j)
      → ((n : String) → r.list_ai_gateways n ≡ r'.list_ai_gateways n)
      → choose_gateway r ref namespace ≡ choose_gateway r' ref namespace
  unfolding resolve_explicit_ai_gateway resolve_default_ai_gateway
  choose_gateway_alike (some ref) namespace gateways lists =
      rw (gateways (gateway_key ref namespace))
  choose_gateway_alike none namespace gateways lists = rw (lists default_ai_gateway_namespace)

  -- Readers that give the same gateways and lists of gateways resolve the gateway alike.
  pub resolve_ai_gateway_alike :
      (agent : Agent)
      → ((j : NamespacedName) → r.get_ai_gateway j ≡ r'.get_ai_gateway j)
      → ((n : String) → r.list_ai_gateways n ≡ r'.list_ai_gateways n)
      → resolve_ai_gateway r agent ≡ resolve_ai_gateway r' agent
  unfolding resolve_ai_gateway
  resolve_ai_gateway_alike agent = choose_gateway_alike agent.spec.ai_gateway_ref agent.namespace
