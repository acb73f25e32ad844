-- ===== src/Controller/Tools/Resolved.antt =====
-- The resolution of tools has no error if each tool resolves.
use agent_runtime_operator.Base.{String, ◌≡◌, refl, ap, ◌∙◌, none, List, [], ◌∷◌, All}
use agent_runtime_operator.Api.Agent.{AgentTool, Agent}
use agent_runtime_operator.Cluster.{ok, Reader}
use agent_runtime_operator.Controller.Tools.{
  Progress, report, resolve_tool_url, add_result, resolve_each, resolve_all_tools,
}

module _ (quote : String → String) (r : Reader) (namespace : String) where
  resolve_each-issues :
      (tools : List AgentTool) (progress : Progress)
      → All (λ tool. (url : String) × (resolve_tool_url r tool namespace ≡ ok url)) tools
      → (resolve_each quote r namespace tools progress).1 ≡ progress.1
  unfolding resolve_each add_result
  resolve_each-issues [] progress h = refl
  resolve_each-issues (tool ∷ tools) progress ((url, e), h) =
      resolve_each-issues tools (add_result quote tool (resolve_tool_url r tool namespace) progress)
        h
      ∙ ap (λ u. (add_result quote tool u progress).1) e

pub resolve_all_tools-none :
    (quote : String → String) (r : Reader) (agent : Agent)
    → All
        (λ tool. (url : String) × (resolve_tool_url r tool agent.namespace ≡ ok url))
        agent.spec.tools
    → (resolve_all_tools quote r agent).1 ≡ none
unfolding resolve_all_tools
resolve_all_tools-none quote r agent resolve =
    ap report (resolve_each-issues quote r agent.namespace agent.spec.tools ([], []) resolve)
