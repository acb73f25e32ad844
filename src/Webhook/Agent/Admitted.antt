-- ===== src/Webhook/Agent/Admitted.antt =====
-- What an agent is like that all the checks let through.
use mathlib.Core.List.{Memᴰ}
use mathlib.Core.List.Memᴰ
use mathlib.Core.Path.{subst}
use agent_runtime_operator.Base.{
  ℕ, suc, String, Bool, any, ◌==◌, eq_iff, Bool-cases, ◌≡◌, refl, sym, ap, ◌∙◌, ◌≢◌, ◌⊎◌, inl, inr,
  true, Option, none, some, List, [], ◌∷◌, ◌++◌, All, arith,
}
use agent_runtime_operator.Api.Meta.{ObjectReference, Volume, VolumeMount}
use agent_runtime_operator.Api.Agent.{SubAgent, AgentTool, Agent}
use agent_runtime_operator.Cluster.{ok, Reader}
use agent_runtime_operator.Controller.SubAgents.{
  agent_key, resolve_cluster_agent, resolve_sub_agent_url,
}
use agent_runtime_operator.Controller.AgentDeployment.{
  default_template_image_fallback, effective_image,
}
use agent_runtime_operator.Webhook.Fields.{FieldError, ParsedUrl}
use agent_runtime_operator.Webhook.Agent.{
  has_name, is_volume, validate_framework, validate_sub_agent, validate_tool,
  validate_volume_mounts, check_each, validate_agent,
}
use agent_runtime_operator.Webhook.Agent.Laws.{
  validated_framework-image, validated_sub_agent-resolution,
}
use agent_runtime_operator.Webhook.Agent.Mounts.{
  append-nil_iff, IsNamed, AreApart, validate_volume_mounts-nil_iff,
}

check_each-nil :
    {A : Type 0} (check : A → ℕ → List FieldError) (i : ℕ) (l : List A)
    → check_each check i l ≡ []
    → (a : A) → Memᴰ a l
    → (j : ℕ) × (check a j ≡ [])
check_each-nil check i [] h a m = absurd (Memᴰ.not-nil m)
check_each-nil check i (b ∷ l) h a m =
    let (here, rest) = (append-nil_iff (check b i) (check_each check (suc i) l)).0 h in
    elim (Memᴰ.cases_cons m) [
      | inl same ↦ (i, ap (λ x. check x i) same ∙ here)
      | inr later ↦ check_each-nil check (suc i) l rest a later
    ]

-- what `resolveSubAgentUrl` does with the sub-agent
abbrev pub IsResolvable : Reader → String → SubAgent → Type 0
IsResolvable r namespace sub =
    ((sub.agent_ref ≡ none) × (sub.url ≢ "") × (resolve_sub_agent_url r sub namespace ≡ ok sub.url))
    ⊎ ((ref : ObjectReference) × (sub.agent_ref ≡ some ref)
        × (ref.name ≢ "")
        × (sub.url ≡ "")
        × (resolve_sub_agent_url r sub namespace
            ≡ resolve_cluster_agent r (agent_key ref namespace)))

validated_tool-named :
    (tool : AgentTool) (index : ℕ)
    → validate_tool tool index ≡ []
    → (has_name tool.upstream.tool_route_ref ≡ true)
      × (has_name tool.upstream.tool_server_ref ≡ true)
unfolding validate_tool
validated_tool-named tool index h = (ground arith, ground arith)

any-found :
    {A : Type 0} (p : A → Bool) (l : List A) → any p l ≡ true → (a : A) × Memᴰ a l × (p a ≡ true)
any-found p [] h = absurd (cc h)
any-found p (b ∷ l) h = elim (Bool-cases (p b)) [
  | inl here ↦ (b, Memᴰ.head refl, here)
  | inr other ↦ let (a, m, found) = any-found p l (ground arith) in (a, Memᴰ.tail m, found)
]

all_mem : {A : Type 0} (P : A → Type 0) (l : List A) → All P l → (a : A) → Memᴰ a l → P a
all_mem P [] h a m = absurd (Memᴰ.not-nil m)
all_mem P (b ∷ l) (here, rest) a m = elim (Memᴰ.cases_cons m) [
  | inl same ↦ subst P (sym same) here
  | inr later ↦ all_mem P l rest a later
]

named-volume :
    (name : String) (volumes : List Volume)
    → is_volume name volumes ≡ true
    → (v : Volume) × Memᴰ v volumes × (v.name ≡ name)
named-volume name volumes h =
    let (v, m, same) = any-found (λ (v : Volume). v.name == name) volumes h in
    (v, m, (eq_iff v.name name).0 same)

-- what the checks assure of an agent
pub record IsAdmitted (clean : String → String) (r : Reader) (agent : Agent) : Type 0 where
  pub image :
      agent.spec.image ≢ default_template_image_fallback
      → effective_image agent none ≢ default_template_image_fallback
  pub sub_agents :
      (sub : SubAgent) → Memᴰ sub agent.spec.sub_agents → IsResolvable r agent.namespace sub
  pub tools :
      (tool : AgentTool)
      → Memᴰ tool agent.spec.tools
      → (has_name tool.upstream.tool_route_ref ≡ true)
        × (has_name tool.upstream.tool_server_ref ≡ true)
  pub mounts_named :
      (m : VolumeMount)
      → Memᴰ m agent.spec.volume_mounts
      → (v : Volume) × Memᴰ v agent.spec.volumes × (v.name ≡ m.name)
  pub mounts_apart : AreApart clean agent.spec.volume_mounts

-- If no check of an agent reports an error, then without a configuration its container does not get
-- the fallback image, unless that is its own image; each sub-agent has a URL and no reference and
-- resolves to the URL, or has a reference with a name and resolves as the referenced agent; each
-- reference of a tool has a name; each volume mount has the name of one of the volumes; and of any
-- two mounts the later one has no path, or their cleaned paths are equal, or neither cleaned path,
-- with a slash added, begins with the other one with a slash added. So two mounts at one path, and
-- mounts below the root, are let through.
pub validate_agent-IsAdmitted :
    (parse : String → Option ParsedUrl) (clean : String → String) (r : Reader) (agent : Agent)
    → validate_agent parse clean agent ≡ []
    → IsAdmitted clean r agent
unfolding validate_agent
validate_agent-IsAdmitted parse clean r agent h =
    let subs = check_each (validate_sub_agent parse) 0 agent.spec.sub_agents in
    let tools = check_each validate_tool 0 agent.spec.tools in
    let mounts = validate_volume_mounts clean agent in
    let (framework, rest) =
      (append-nil_iff (validate_framework agent) (subs ++ (tools ++ mounts))).0 h in
    let (no_sub, rest') = (append-nil_iff subs (tools ++ mounts)).0 rest in
    let (no_tool, no_mount) = (append-nil_iff tools mounts).0 rest' in
    let (named, apart) = (validate_volume_mounts-nil_iff clean agent).0 no_mount in
    record {
      image = validated_framework-image agent framework;
      sub_agents = λ sub m.
          let (i, none_found) =
            check_each-nil (validate_sub_agent parse) 0 agent.spec.sub_agents no_sub sub m in
          validated_sub_agent-resolution parse r sub i agent.namespace none_found;
      tools = λ tool m.
          let (i, none_found) = check_each-nil validate_tool 0 agent.spec.tools no_tool tool m in
          validated_tool-named tool i none_found;
      mounts_named = λ m found.
          named-volume m.name agent.spec.volumes
            (all_mem (IsNamed clean agent.spec.volumes) agent.spec.volume_mounts named m found);
      mounts_apart = apart;
    }
