-- ===== src/Controller/Watches/Changes.antt =====
-- What the cluster has before and after the event of a watch.
use mathlib.Core.List.{Memᴰ}
use agent_runtime_operator.Base.{String, ◌≡◌, Bool, true, false, List}
use agent_runtime_operator.Api.Meta.{Opaque, NamespacedName, ObjectMeta, key_of, same_key}
use agent_runtime_operator.Api.Agent.{Agent}
use agent_runtime_operator.Cluster.{Result, Reader}
use agent_runtime_operator.Controller.Workload.{Deployment, Service}
use agent_runtime_operator.Controller.SubAgents.Watch.{SameAgentsExcept}
use agent_runtime_operator.Controller.Tools.Watch.{SameRoutesExcept, SameServersExcept}
use agent_runtime_operator.Controller.AiGateways.Watch.{SameGatewaysExcept}
use agent_runtime_operator.Controller.Watches.{
  Event, agent_changed, deployment_changed, service_changed, tool_route_changed,
  tool_server_changed, configuration_changed, ai_gateway_changed,
}

-- The objects that a reconciliation writes for its agent, as the cluster has them: CreateOrUpdate and
-- ensureService read them first.
pub record Owned : Type 0 where
  pub get_deployment : NamespacedName → Result Deployment
  pub get_service : NamespacedName → Result Service

abbrev pub SameAgents : Reader → Reader → Type 0
SameAgents r r' = (j : NamespacedName) → r.get_agent j ≡ r'.get_agent j

pub record SameTools (r r' : Reader) : Type 0 where
  pub routes : (j : NamespacedName) → r.get_tool_route j ≡ r'.get_tool_route j
  pub servers : (j : NamespacedName) → r.get_tool_server j ≡ r'.get_tool_server j

pub record SameGateways (r r' : Reader) : Type 0 where
  pub gateways : (j : NamespacedName) → r.get_ai_gateway j ≡ r'.get_ai_gateway j
  pub lists : (n : String) → r.list_ai_gateways n ≡ r'.list_ai_gateways n

abbrev pub SameConfigurations : Reader → Reader → Type 0
SameConfigurations r r' = (n : String) → r.list_configurations n ≡ r'.list_configurations n

pub record SameOwned (o o' : Owned) : Type 0 where
  pub deployments : (j : NamespacedName) → o.get_deployment j ≡ o'.get_deployment j
  pub services : (j : NamespacedName) → o.get_service j ≡ o'.get_service j

-- the resources that the reconciler reads but does not write
abbrev pub SameReader : Reader → Reader → Type 0
SameReader r r' = SameAgents r r' × SameTools r r' × SameGateways r r' × SameConfigurations r r'

-- Only the resource of the event has changed. Gateways change only where their resource definition
-- is installed.
abbrev pub Changes : Bool → Event → Reader → Reader → Owned → Owned → Type 0
Changes installed (agent_changed agent) r r' o o' =
    SameAgentsExcept (key_of agent.metadata) r r'
    × SameTools r r'
    × SameGateways r r'
    × SameConfigurations r r'
    × SameOwned o o'
Changes installed (deployment_changed meta) r r' o o' =
    SameReader r r'
    × ((j : NamespacedName)
        → same_key j (key_of meta) ≡ false
        → o.get_deployment j ≡ o'.get_deployment j)
    × ((j : NamespacedName) → o.get_service j ≡ o'.get_service j)
Changes installed (service_changed meta) r r' o o' =
    SameReader r r'
    × ((j : NamespacedName) → o.get_deployment j ≡ o'.get_deployment j)
    × ((j : NamespacedName) → same_key j (key_of meta) ≡ false → o.get_service j ≡ o'.get_service j)
Changes installed (tool_route_changed route) r r' o o' =
    SameAgents r r'
    × SameRoutesExcept (key_of route.metadata) r r'
    × SameGateways r r'
    × SameConfigurations r r'
    × SameOwned o o'
Changes installed (tool_server_changed tool_server) r r' o o' =
    SameAgents r r'
    × SameServersExcept (key_of tool_server.metadata) r r'
    × SameGateways r r'
    × SameConfigurations r r'
    × SameOwned o o'
Changes installed (configuration_changed config) r r' o o' =
    SameAgents r r' × SameTools r r' × SameGateways r r' × SameOwned o o'
Changes installed (ai_gateway_changed gateway) r r' o o' =
    SameAgents r r'
    × SameTools r r'
    × SameGatewaysExcept (key_of gateway.metadata) r r'
    × SameConfigurations r r'
    × (installed ≡ true)
    × SameOwned o o'

-- The handler that `Owns` installs, EnqueueRequestForOwner of controller-runtime: it enqueues, in the
-- namespace of the object, the owner that an owner reference of the object refers to.
pub record EnqueuesOwner (refers_to : Opaque → ObjectMeta → Bool)
    (owners : ObjectMeta → List NamespacedName) : Type 0 where
  pub owner :
      (meta owner : ObjectMeta) (ref : Opaque)
      → Memᴰ ref meta.owner_references
      → refers_to ref owner ≡ true
      → meta.namespace ≡ owner.namespace
      → Memᴰ (key_of owner) (owners meta)

-- A Deployment or Service with the agent's key has an owner reference to the agent.
abbrev pub IsOwnedUnder : (Opaque → ObjectMeta → Bool) → Agent → ObjectMeta → Type 0
IsOwnedUnder refers_to agent meta =
    key_of meta ≡ key_of agent.metadata
    → (ref : Opaque) × Memᴰ ref meta.owner_references × (refers_to ref agent.metadata ≡ true)

-- the same of the object of an event
abbrev pub HasOwner : (Opaque → ObjectMeta → Bool) → Agent → Event → Type 0
HasOwner refers_to agent (deployment_changed meta) = IsOwnedUnder refers_to agent meta
HasOwner refers_to agent (service_changed meta) = IsOwnedUnder refers_to agent meta
HasOwner refers_to agent (agent_changed a) = Unit
HasOwner refers_to agent (tool_route_changed route) = Unit
HasOwner refers_to agent (tool_server_changed tool_server) = Unit
HasOwner refers_to agent (configuration_changed config) = Unit
HasOwner refers_to agent (ai_gateway_changed gateway) = Unit
