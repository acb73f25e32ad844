-- ===== src/Webhook/Agent.antt =====
-- internal/webhook/v1alpha1/agent_webhook.go: the defaults of an Agent and its checks
pub mod Laws
pub mod Mounts
pub mod PortNames
pub mod PortNumbers
pub mod Admitted
use Prim.Native.String
use text.Mathlib.Text.{starts_with}
use agent_runtime_operator.Base.{
  ℕ, suc, any, String, Char, code, ◌<>◌, Bool, true, false, not, ◌&&◌, ◌||◌, Option, none, some,
  List, [], ◌∷◌, ◌++◌, ◌==◌, map, if◌then◌else◌, or_else, is_some, is_nil, decimal, leb, eqb,
  trim_left, trim_right,
}
use agent_runtime_operator.Api.Meta.{ObjectReference, Volume, VolumeMount}
use agent_runtime_operator.Api.Agent.{AgentProtocol, SubAgent, AgentTool, Agent, a2a_protocol}
use agent_runtime_operator.Webhook.Fields.{
  FieldError, invalid, forbidden, required, when, ParsedUrl,
}

pub record AgentCustomDefaulter : Type 0 where
  pub default_replicas : ℕ
  pub default_port : ℕ

abbrev pub is_hyphen : Char → Bool
is_hyphen c = eqb (code c) b'-'

-- a lower-case letter, a digit or a hyphen
abbrev pub is_port_char : Char → Bool
is_port_char c =
    leb b'a' (code c) && leb (code c) b'z' || leb b'0' (code c) && leb (code c) b'9' || is_hyphen c

-- the loop over the runes
unfoldable pub hyphenate : String → String
hyphenate String.[] = ""
hyphenate (String.◌∷◌ c s) =
    let rest = hyphenate s in if is_port_char c then String.◌∷◌ c rest else "-" <> rest

-- `to_lower` is `strings.ToLower`
module _ (to_lower : String → String) where
  unfoldable pub sanitize_for_port_name : String → String
  unfolding hyphenate
  sanitize_for_port_name name =
      let result = trim_right is_hyphen (trim_left is_hyphen (hyphenate (to_lower name))) in
      if result == "" then "port" else result

  -- the body of the loop over the protocols
  unfoldable pub default_protocol : AgentCustomDefaulter → AgentProtocol → AgentProtocol
  unfolding sanitize_for_port_name
  default_protocol d p =
      let port = if eqb p.port 0 then d.default_port else p.port in
      record p {
        port = port;
        name =
            if p.name == "" then sanitize_for_port_name p.type <> ("-" <> decimal port) else p.name;
      }

  abbrev pub protocols_or_a2a : List AgentProtocol → List AgentProtocol
  protocols_or_a2a [] = record { name = ""; type = a2a_protocol; port = 0; path = "" } ∷ []
  protocols_or_a2a (p ∷ ps) = p ∷ ps

  unfoldable pub apply_defaults : AgentCustomDefaulter → Agent → Agent
  unfolding default_protocol
  apply_defaults d agent = record agent {
    spec = record agent.spec {
      replicas = some (or_else agent.spec.replicas d.default_replicas);
      protocols = map (default_protocol d) (protocols_or_a2a agent.spec.protocols);
    };
  }

abbrev is_template_framework : String → Bool
is_template_framework framework = framework == "google-adk" || framework == "msaf"

-- the first check of `validateAgent`
unfoldable pub validate_framework : Agent → List FieldError
validate_framework agent =
    when
      (not (agent.spec.framework == "")
        && agent.spec.image == ""
        && not (is_template_framework agent.spec.framework))
      (invalid "spec.framework")

abbrev is_http : Option ParsedUrl → Bool
is_http none = false
is_http (some u) = (u.scheme == "https" || u.scheme == "http") && not (u.host == "")

abbrev pub has_name : Option ObjectReference → Bool
has_name none = true
has_name (some ref) = not (ref.name == "")

-- `parse` is `url.Parse`, `none` for an error
module _ (parse : String → Option ParsedUrl) where
  -- `validateHTTPScheme` returns no error
  unfoldable pub validate_http_scheme : String → Bool
  validate_http_scheme url = if url == "" then true else is_http (parse url)

  unfoldable pub validate_sub_agent : SubAgent → ℕ → List FieldError
  unfolding validate_http_scheme
  validate_sub_agent sub index =
      let path = "spec.subAgents[" <> decimal index <> "]" in
      let has_url = not (sub.url == "") in
      when (is_some sub.agent_ref && has_url) (forbidden path)
      ++ (when (not (is_some sub.agent_ref) && not has_url) (required path)
          ++ (when (not (has_name sub.agent_ref)) (required (path <> ".agentRef.name"))
              ++ when (has_url && not (validate_http_scheme sub.url)) (invalid (path <> ".url"))))

unfoldable pub validate_tool : AgentTool → ℕ → List FieldError
validate_tool tool index =
    let path = "spec.tools[" <> decimal index <> "].upstream" in
    when (not (has_name tool.upstream.tool_route_ref)) (required (path <> ".toolRouteRef.name"))
    ++ when (not (has_name tool.upstream.tool_server_ref))
        (required (path <> ".toolServerRef.name"))

abbrev pub is_volume : String → List Volume → Bool
is_volume name volumes = any (λ v. v.name == name) volumes

abbrev mount_path_of : ℕ → String
mount_path_of index = "spec.volumeMounts[" <> decimal index <> "]"

-- `clean` is `filepath.Clean`
module _ (clean : String → String) where
  -- is the first path below the second one? `starts_with` is `strings.HasPrefix`
  abbrev pub is_below : String → String → Bool
  is_below inner outer = starts_with (inner <> "/") (outer <> "/")

  -- the body of the inner loop
  unfoldable pub check_overlap : ℕ → VolumeMount → ℕ → VolumeMount → List FieldError
  check_overlap i m j n =
      let first = clean m.mount_path in
      let second = clean n.mount_path in
      if n.mount_path == "" || first == second
      then []
      else if is_below second first
      then invalid (mount_path_of j <> ".mountPath") ∷ []
      else when (is_below first second) (invalid (mount_path_of i <> ".mountPath"))

  -- the inner loop, from the index `j`
  unfoldable pub check_later : ℕ → VolumeMount → ℕ → List VolumeMount → List FieldError
  unfolding check_overlap
  check_later i m j [] = []
  check_later i m j (n ∷ ms) = check_overlap i m j n ++ check_later i m (suc j) ms

  -- the outer loop, from the index `i`
  unfoldable pub check_mounts : List Volume → ℕ → List VolumeMount → List FieldError
  unfolding check_later
  check_mounts volumes i [] = []
  check_mounts volumes i (m ∷ ms) =
      when (not (is_volume m.name volumes)) (invalid (mount_path_of i <> ".name"))
      ++ (check_later i m (suc i) ms ++ check_mounts volumes (suc i) ms)

  unfoldable pub validate_volume_mounts : Agent → List FieldError
  unfolding check_mounts
  validate_volume_mounts agent = check_mounts agent.spec.volumes 0 agent.spec.volume_mounts

-- the loops over the sub-agents and over the tools
abbrev pub check_each : {A : Type 0} → (A → ℕ → List FieldError) → ℕ → List A → List FieldError
check_each check i [] = []
check_each check i (a ∷ rest) = check a i ++ check_each check (suc i) rest

-- The errors that `validateAgent` aggregates; it returns nil if there is none.
unfoldable pub validate_agent :
    (String → Option ParsedUrl) → (String → String) → Agent → List FieldError
unfolding validate_framework validate_sub_agent validate_tool validate_volume_mounts
validate_agent parse clean agent =
    validate_framework agent
    ++ (check_each (validate_sub_agent parse) 0 agent.spec.sub_agents
        ++ (check_each validate_tool 0 agent.spec.tools ++ validate_volume_mounts clean agent))
