-- ===== src/Controller/Workforce/Reconcile.antt =====
-- `Reconcile` and `validateEntryPointAgents` of internal/controller/agenticworkforce_reconciler.go.
-- `none` says that the fuel of the traversal has run out.
pub mod Entries
pub mod Outcomes
pub mod Watched
use agent_runtime_operator.Base.{
  ℕ, String, ◌<>◌, Bool, true, false, Option, none, some, List, [], ◌∷◌, ◌++◌, Map, if◌then◌else◌,
  join,
}
use agent_runtime_operator.Api.Meta.{
  ObjectReference, NamespacedName, Condition, condition_true, condition_false,
}
use agent_runtime_operator.Api.Agent.{Agent}
use agent_runtime_operator.Api.Workforce.{TransitiveAgent, AgenticWorkforce}
use agent_runtime_operator.Cluster.{Outcome, Result, ok, err, is_not_found, Reader}
use agent_runtime_operator.Controller.Util.{condition_type_ready}
use agent_runtime_operator.Controller.SubAgents.{agent_key}
use agent_runtime_operator.Controller.Workforce.Traverse.{
  text_of, collect_transitive_agents_and_tools,
}
use agent_runtime_operator.Controller.Server.{ApiServer}

-- `allReady` and `missingAgents`
pub record Validation : Type 0 where
  pub all_ready : Bool
  pub missing_agents : List String

-- Both kinds of error are logged and do the same to the two variables.
abbrev pub note_entry : NamespacedName → Result Agent → Validation → Validation
note_entry key (ok agent) v = v
note_entry key (err e) v = record {
  all_ready = false;
  missing_agents = v.missing_agents ++ (text_of key ∷ []);
}

-- the loop over the entry points
unfoldable pub validate_each :
    Reader → String → List (Option ObjectReference) → Validation → Validation
validate_each r namespace [] v = v
validate_each r namespace (none ∷ refs) v = validate_each r namespace refs v
validate_each r namespace (some ref ∷ refs) v =
    let key = agent_key ref namespace in
    validate_each r namespace refs (note_entry key (r.get_agent key) v)

unfoldable pub validate_entry_point_agents : Reader → AgenticWorkforce → Validation
unfolding validate_each
validate_entry_point_agents r workforce =
    validate_each r workforce.namespace workforce.spec.entry_point_agents
      (record { all_ready = true; missing_agents = [] })

unfoldable pub workforce_condition : AgenticWorkforce → Validation → Condition
workforce_condition workforce v =
    if v.all_ready
    then record {
      type = condition_type_ready;
      status = condition_true;
      observed_generation = workforce.metadata.generation;
      reason = "AllAgentsReady";
      message = "All entry point agents are available";
    }
    else record {
      type = condition_type_ready;
      status = condition_false;
      observed_generation = workforce.metadata.generation;
      reason = "AgentsMissing";
      message = "Missing agents: [" <> (join " " v.missing_agents <> "]");
    }

module _ (api : ApiServer) (agents_order : Map TransitiveAgent → List TransitiveAgent)
    (tools_order : Map Bool → List String) (fuel : ℕ) where
  -- the assignments to the workforce's status
  unfoldable pub set_workforce_status :
      Validation → List TransitiveAgent → List String → AgenticWorkforce → AgenticWorkforce
  unfolding workforce_condition
  set_workforce_status v agents tools workforce = record workforce {
    status = record {
      conditions =
          api.set_status_condition workforce.status.conditions (workforce_condition workforce v);
      transitive_agents = agents;
      transitive_tools = tools;
    };
  }

  abbrev pub write_workforce :
      AgenticWorkforce
      → Option (List TransitiveAgent × List String)
      → api.State
      → Option (Outcome × api.State)
  write_workforce workforce none s = none
  write_workforce workforce (some (agents, tools)) s = some (
      api.update_workforce_status
        (set_workforce_status (validate_entry_point_agents (api.reader s) workforce) agents tools
          workforce)
        s)

  abbrev pub reconcile_found_workforce :
      Result AgenticWorkforce → api.State → Option (Outcome × api.State)
  reconcile_found_workforce (err e) s = some (if is_not_found e then ok tt else err e, s)
  reconcile_found_workforce (ok workforce) s =
      write_workforce workforce
        (collect_transitive_agents_and_tools (api.reader s) agents_order tools_order fuel workforce)
        s

  unfoldable pub reconcile : NamespacedName → api.State → Option (Outcome × api.State)
  unfolding validate_entry_point_agents set_workforce_status collect_transitive_agents_and_tools
  reconcile key s = reconcile_found_workforce (api.get_workforce key s) s
