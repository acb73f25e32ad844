-- ===== src/Controller/Watches/Complete.antt =====
-- The watches of the agent controller cover every agent that a change can concern.
use mathlib.Core.List.{Memᴰ}
use mathlib.Core.List.Memᴰ
use agent_runtime_operator.Base.{
  String, ◌≡◌, refl, sym, ap, false, Bool, List, [], ◌∷◌, map, inl, inr, Bool-cases,
}
use agent_runtime_operator.Api.Meta.{Opaque, NamespacedName, ObjectMeta, key_of, same_key}
use agent_runtime_operator.Api.Keys.{same_key-eq}
use agent_runtime_operator.Api.Agent.{Agent}
use agent_runtime_operator.Cluster.{ok, Reader}
use agent_runtime_operator.Controller.SubAgents.{
  resolve_all_sub_agents, find_agents_referencing_sub_agent,
}
use agent_runtime_operator.Controller.SubAgents.Watch.{
  SameAgentsExcept, sub_agent_watch_complete, resolve_all_sub_agents_alike,
}
use agent_runtime_operator.Controller.Tools.{resolve_all_tools}
use agent_runtime_operator.Controller.Tools.Watch.{
  tool_route_watch_complete, tool_server_watch_complete, resolve_all_tools_alike,
}
use agent_runtime_operator.Controller.AiGateways.{resolve_ai_gateway}
use agent_runtime_operator.Controller.AiGateways.Watch.{
  ai_gateway_watch_complete, resolve_ai_gateway_alike,
}
use agent_runtime_operator.Controller.Reconcile.{
  get_agent_runtime_configuration, resolve_dependencies, find_all_agents_for_runtime_configuration,
}
use agent_runtime_operator.Controller.Watches.{
  Event, agent_changed, deployment_changed, service_changed, tool_route_changed,
  tool_server_changed, configuration_changed, ai_gateway_changed, enqueued,
}
use agent_runtime_operator.Controller.Watches.Changes.{
  Owned, SameConfigurations, SameReader, Changes, EnqueuesOwner, IsOwnedUnder, HasOwner,
}

mem_keys :
    (agent : Agent) (agents : List Agent)
    → Memᴰ agent agents
    → Memᴰ (key_of agent.metadata) (map (λ (a : Agent). key_of a.metadata) agents)
mem_keys agent [] m = absurd (Memᴰ.not-nil m)
mem_keys agent (a ∷ agents) (Memᴰ.head e) = Memᴰ.head (ap (λ (x : Agent). key_of x.metadata) e)
mem_keys agent (a ∷ agents) (Memᴰ.tail m) = Memᴰ.tail (mem_keys agent agents m)

all_enqueued :
    (agent : Agent) (agents : List Agent) (r : Reader)
    → r.list_agents ≡ ok agents
    → Memᴰ agent agents
    → Memᴰ (key_of agent.metadata) (find_all_agents_for_runtime_configuration r)
unfolding find_all_agents_for_runtime_configuration
all_enqueued agent agents r listed m = rw listed (mem_keys agent agents m)

module _ (operator_namespace : String) (quote : String → String) (r r' : Reader) (o o' : Owned)
    (agent : Agent) where
  configuration_alike :
      SameConfigurations r r'
      → get_agent_runtime_configuration operator_namespace r
        ≡ get_agent_runtime_configuration operator_namespace r'
  unfolding get_agent_runtime_configuration
  configuration_alike same = rw (same operator_namespace)

  dependencies_alike :
      get_agent_runtime_configuration operator_namespace r
        ≡ get_agent_runtime_configuration operator_namespace r'
      → resolve_all_sub_agents quote r agent ≡ resolve_all_sub_agents quote r' agent
      → resolve_all_tools quote r agent ≡ resolve_all_tools quote r' agent
      → resolve_ai_gateway r agent ≡ resolve_ai_gateway r' agent
      → resolve_dependencies operator_namespace quote r agent
        ≡ resolve_dependencies operator_namespace quote r' agent
  unfolding resolve_dependencies
  dependencies_alike config subs tools gateway = rw (config, subs, tools, gateway) refl

  reader_alike :
      SameReader r r'
      → (r.get_agent (key_of agent.metadata) ≡ r'.get_agent (key_of agent.metadata))
        × (resolve_dependencies operator_namespace quote r agent
            ≡ resolve_dependencies operator_namespace quote r' agent)
  reader_alike (agents, tools, gateways, configs) = (
    agents (key_of agent.metadata),
    dependencies_alike (configuration_alike configs)
        (resolve_all_sub_agents_alike r r' agents quote agent)
        (resolve_all_tools_alike quote r r' agent tools.routes tools.servers)
        (resolve_ai_gateway_alike r r' agent gateways.gateways gateways.lists),
  )

  -- An object that a watched owner has under its key is another one than the changed object, or the
  -- owner is enqueued.
  other_object :
      (refers_to : Opaque → ObjectMeta → Bool) (owners : ObjectMeta → List NamespacedName)
      (meta : ObjectMeta)
      → EnqueuesOwner refers_to owners
      → IsOwnedUnder refers_to agent meta
      → ¬ Memᴰ (key_of agent.metadata) (owners meta)
      → same_key (key_of agent.metadata) (key_of meta) ≡ false
  other_object refers_to owners meta laws owned absent =
      elim (Bool-cases (same_key (key_of agent.metadata) (key_of meta))) [
        | inr other ↦ other
        | inl own ↦
            let same : key_of meta ≡ key_of agent.metadata =
              sym (same_key-eq (key_of agent.metadata) (key_of meta) own) in
            let (ref, m, refers) = owned same in
            absurd (
              absent (
                laws.owner meta agent.metadata ref m refers
                  (ap (λ (k : NamespacedName). k.namespace) same)))
      ]

  other_agent :
      (updated : Agent) (keys : List NamespacedName)
      → SameAgentsExcept (key_of updated.metadata) r r'
      → ¬ Memᴰ (key_of agent.metadata) (key_of updated.metadata ∷ keys)
      → r.get_agent (key_of agent.metadata) ≡ r'.get_agent (key_of agent.metadata)
  other_agent updated keys same absent =
      elim (Bool-cases (same_key (key_of agent.metadata) (key_of updated.metadata))) [
        | inl own ↦
            absurd (
              absent
                (Memᴰ.head (same_key-eq (key_of agent.metadata) (key_of updated.metadata) own)))
        | inr other ↦ same (key_of agent.metadata) other
      ]

  -- Let one resource have changed, a gateway only where its resource definition is installed; let a
  -- changed Deployment or Service under the agent's key have an owner reference to the agent, the
  -- handler of `Owns` enqueue the owners that the references of an object refer to, and the agents
  -- be listed. Then for a listed agent that is not enqueued the agent itself, all that it refers to
  -- as it resolves, and the Deployment and the Service under its key are as before.
  pub enqueued_complete :
      (installed : Bool) (refers_to : Opaque → ObjectMeta → Bool)
      (owners : ObjectMeta → List NamespacedName) (event : Event) (agents : List Agent)
      → Changes installed event r r' o o'
      → EnqueuesOwner refers_to owners
      → HasOwner refers_to agent event
      → r'.list_agents ≡ ok agents
      → Memᴰ agent agents
      → ¬ Memᴰ (key_of agent.metadata) (enqueued installed owners r' event)
      → (r.get_agent (key_of agent.metadata) ≡ r'.get_agent (key_of agent.metadata))
        × (resolve_dependencies operator_namespace quote r agent
            ≡ resolve_dependencies operator_namespace quote r' agent)
        × (o.get_deployment (key_of agent.metadata) ≡ o'.get_deployment (key_of agent.metadata))
        × (o.get_service (key_of agent.metadata) ≡ o'.get_service (key_of agent.metadata))
  unfolding enqueued
  enqueued_complete installed refers_to owners (agent_changed updated) agents
        (same, tools, gateways, configs, owned) handler has_owner listed m absent =
      (
        other_agent updated (find_agents_referencing_sub_agent r' updated) same absent,
        dependencies_alike (configuration_alike configs)
            (sub_agent_watch_complete quote updated agent agents r r' same listed m
              (λ n. absent (Memᴰ.tail n)))
            (resolve_all_tools_alike quote r r' agent tools.routes tools.servers)
            (resolve_ai_gateway_alike r r' agent gateways.gateways gateways.lists),
        owned.deployments (key_of agent.metadata),
        owned.services (key_of agent.metadata),
      )
  enqueued_complete installed refers_to owners (deployment_changed meta) agents
        (same, deployments, services) handler has_owner listed m absent =
      let (unchanged, resolved) = reader_alike same in
      (
        unchanged,
        resolved,
        deployments (key_of agent.metadata)
            (other_object refers_to owners meta handler has_owner absent),
        services (key_of agent.metadata),
      )
  enqueued_complete installed refers_to owners (service_changed meta) agents
        (same, deployments, services) handler has_owner listed m absent =
      let (unchanged, resolved) = reader_alike same in
      (
        unchanged,
        resolved,
        deployments (key_of agent.metadata),
        services (key_of agent.metadata)
            (other_object refers_to owners meta handler has_owner absent),
      )
  enqueued_complete installed refers_to owners (tool_route_changed route) agents
        (same, tools, gateways, configs, owned) handler has_owner listed m absent =
      (
        same (key_of agent.metadata),
        dependencies_alike (configuration_alike configs)
            (resolve_all_sub_agents_alike r r' same quote agent)
            (tool_route_watch_complete quote route agent agents r r' tools listed m absent)
            (resolve_ai_gateway_alike r r' agent gateways.gateways gateways.lists),
        owned.deployments (key_of agent.metadata),
        owned.services (key_of agent.metadata),
      )
  enqueued_complete installed refers_to owners (tool_server_changed tool_server) agents
        (same, tools, gateways, configs, owned) handler has_owner listed m absent =
      (
        same (key_of agent.metadata),
        dependencies_alike (configuration_alike configs)
            (resolve_all_sub_agents_alike r r' same quote agent)
            (tool_server_watch_complete quote tool_server agent agents r r' tools listed m absent)
            (resolve_ai_gateway_alike r r' agent gateways.gateways gateways.lists),
        owned.deployments (key_of agent.metadata),
        owned.services (key_of agent.metadata),
      )
  enqueued_complete installed refers_to owners (configuration_changed config) agents same handler
        has_owner listed m absent =
      absurd (absent (all_enqueued agent agents r' listed m))
  enqueued_complete installed refers_to owners (ai_gateway_changed gateway) agents
        (same, tools, gateways, configs, on, owned) handler has_owner listed m absent =
      (
        same (key_of agent.metadata),
        dependencies_alike (configuration_alike configs)
            (resolve_all_sub_agents_alike r r' same quote agent)
            (resolve_all_tools_alike quote r r' agent tools.routes tools.servers)
            (ai_gateway_watch_complete gateway agent agents r r' gateways listed m
              (rw on at absent)),
        owned.deployments (key_of agent.metadata),
        owned.services (key_of agent.metadata),
      )
