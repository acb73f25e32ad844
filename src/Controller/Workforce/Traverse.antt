-- ===== src/Controller/Workforce/Traverse.antt =====
-- `collectTransitiveAgentsAndTools` and `traverseAgent` of
-- internal/controller/agenticworkforce_reconciler.go. The recursion of `traverseAgent` is on fuel,
-- and `none` says that the fuel has run out. `Reach` shows how much is enough.
pub mod Keys
pub mod Steps
pub mod Visits
pub mod Reach
pub mod Invariant
pub mod Bound
pub mod Correct
pub mod Listed
use agent_runtime_operator.Base.{
  ℕ, zero, suc, String, ◌<>◌, Bool, true, false, Option, none, some, List, [], ◌∷◌, ◌==◌, Map,
  if◌then◌else◌, is_some,
}
use agent_runtime_operator.Base.Maps
use agent_runtime_operator.Api.Meta.{ObjectReference, NamespacedName}
use agent_runtime_operator.Api.Agent.{
  SubAgent, AgentTool, AgentToolUpstream, ExternalUpstream, Agent,
}
use agent_runtime_operator.Api.Workforce.{TransitiveAgent, AgenticWorkforce}
use agent_runtime_operator.Cluster.{Error, Result, ok, err, is_not_found, wrap, Reader}
use agent_runtime_operator.Controller.Util.{get_namespace_with_default}
use agent_runtime_operator.Controller.SubAgents.{agent_key}
use agent_runtime_operator.Controller.Workforce.{text_key}

-- The maps `visitedAgents` and `allTools`, which all the calls share.
pub record Traversal : Type 0 where
  pub visited : Map TransitiveAgent
  pub tools : Map Bool

abbrev pub empty_traversal : Traversal
empty_traversal = record { visited = []; tools = [] }

abbrev pub text_of : NamespacedName → String
text_of k = text_key k.namespace k.name

abbrev pub is_visited : String → Traversal → Bool
is_visited k s = is_some (Maps.lookup k s.visited)

-- the `switch` on a tool's upstream; `none` is `continue`
abbrev external_key : Option ExternalUpstream → Option String
external_key none = none
external_key (some e) = if e.url == "" then none else some ("external:" <> e.url)

abbrev reference_key : String → String → Option ObjectReference → Option String → Option String
reference_key prefix namespace none otherwise = otherwise
reference_key prefix namespace (some ref) otherwise =
    if ref.name == ""
    then otherwise
    else some (prefix <> text_key (get_namespace_with_default ref namespace) ref.name)

unfoldable pub tool_key : String → AgentToolUpstream → Option String
tool_key namespace u =
    reference_key "toolroute:" namespace u.tool_route_ref
      (reference_key "toolserver:" namespace u.tool_server_ref (external_key u.external))

-- the loop over the tools
unfoldable pub collect_tools : String → List AgentTool → Map Bool → Map Bool
unfolding tool_key
collect_tools namespace [] m = m
collect_tools namespace (tool ∷ tools) m =
    collect_tools namespace tools
      (elim (tool_key namespace tool.upstream) [ none ↦ m | some k ↦ Maps.insert k true m ])

-- "Mark this agent as visited"
unfoldable pub mark : NamespacedName → Traversal → Traversal
mark key s = record s {
  visited =
      Maps.insert (text_of key) (record { name = key.name; namespace = key.namespace; url = "" })
        s.visited;
}

unfoldable pub record_remote : SubAgent → Traversal → Traversal
record_remote sub s = record s {
  visited =
      Maps.insert sub.url (record { name = sub.name; namespace = ""; url = sub.url }) s.visited;
}

-- what a call of `traverseAgent` returns and leaves in the maps
abbrev pub Visit : Type 0
Visit = Option (Traversal × Option Error)

-- The error of an inner call is logged, and the loop goes on.
abbrev pub maps_of : Visit → Option Traversal
maps_of none = none
maps_of (some (s, e)) = some s

abbrev pub succeeds : Option Traversal → Visit
succeeds none = none
succeeds (some s) = some (s, none)

-- the loop over the sub-agents, `visit` being the recursive call
module _ (visit : NamespacedName → Traversal → Visit) where
  abbrev pub visit_reference :
      String → SubAgent → Option ObjectReference → Traversal → Option Traversal
  visit_reference namespace sub (some ref) s = maps_of (visit (agent_key ref namespace) s)
  visit_reference namespace sub none s = some (if sub.url == "" then s else record_remote sub s)

  -- the body of the loop over the sub-agents
  abbrev pub visit_sub_agent : String → SubAgent → Traversal → Option Traversal
  visit_sub_agent namespace sub s = visit_reference namespace sub sub.agent_ref s

  unfoldable pub visit_sub_agents : String → List SubAgent → Traversal → Option Traversal
  unfolding record_remote
  visit_sub_agents namespace [] s = some s
  visit_sub_agents namespace (sub ∷ subs) s = elim (visit_sub_agent namespace sub s) [
    | none ↦ none
    | some s' ↦ visit_sub_agents namespace subs s'
  ]

  -- what follows "Fetch the agent"
  abbrev pub enter : NamespacedName → Result Agent → Traversal → Visit
  enter key (err e) s = some (
    s,
    if is_not_found e
        then none
        else some (wrap ("failed to get agent " <> (text_of key <> ": ")) e),
  )
  enter key (ok agent) s = succeeds (
      visit_sub_agents agent.namespace agent.spec.sub_agents
        (record s { tools = collect_tools agent.namespace agent.spec.tools s.tools }))

module _ (r : Reader) where
  unfoldable pub traverse_agent : ℕ → NamespacedName → Traversal → Visit
  unfolding mark visit_sub_agents
  traverse_agent zero key s = none
  traverse_agent (suc fuel) key s = elim (is_visited (text_of key) s) [
    | true ↦ some (s, none)
    | false ↦ enter (traverse_agent fuel) key (r.get_agent key) (mark key s)
  ]

  -- the loop over the entry points, from the workforce's namespace
  unfoldable pub traverse_entries :
      ℕ → String → List (Option ObjectReference) → Traversal → Option Traversal
  unfolding traverse_agent
  traverse_entries fuel namespace [] s = some s
  traverse_entries fuel namespace (none ∷ refs) s = traverse_entries fuel namespace refs s
  traverse_entries fuel namespace (some ref ∷ refs) s =
      elim (maps_of (traverse_agent fuel (agent_key ref namespace) s)) [
        | none ↦ none
        | some s' ↦ traverse_entries fuel namespace refs s'
      ]

  -- `agents_order` and `tools_order` are the orders in which `range` visits the two maps.
  unfoldable pub collect_transitive_agents_and_tools :
      (Map TransitiveAgent → List TransitiveAgent)
      → (Map Bool → List String)
      → ℕ
      → AgenticWorkforce
      → Option (List TransitiveAgent × List String)
  unfolding traverse_entries
  collect_transitive_agents_and_tools agents_order tools_order fuel workforce =
      elim (traverse_entries fuel workforce.namespace workforce.spec.entry_point_agents
        empty_traversal) [
          | none ↦ none
          | some s ↦ some (agents_order s.visited, tools_order s.tools)
        ]
