-- ===== src/Tests/Admission.antt =====
-- The theorems on the webhooks of agents and of tool servers, at concrete resources.
use agent_runtime_operator.Base.{
  String, ◌<>◌, ◌≡◌, refl, ◌≢◌, ◌↔◌, true, false, Option, some, [], ◌∷◌, ◌==◌, All, inl, is_some,
}
use agent_runtime_operator.Api.Meta.{Volume, VolumeMount}
use agent_runtime_operator.Api.Agent.{Agent}
use agent_runtime_operator.Api.ToolServer.{ToolServer}
use agent_runtime_operator.Webhook.Fields.{ParsedUrl}
use agent_runtime_operator.Webhook.Agent.{validate_volume_mounts, validate_agent}
use agent_runtime_operator.Webhook.Agent.Mounts.{IsNamed, AreApart, validate_volume_mounts-nil_iff}
use agent_runtime_operator.Webhook.Agent.Admitted.{IsAdmitted, validate_agent-IsAdmitted}
use agent_runtime_operator.Webhook.ToolServer.{apply_defaults, validate_tool_server}
use agent_runtime_operator.Webhook.ToolServer.Laws.{
  IsPath, validate_tool_server-nil_iff, apply_defaults-admitted,
}
use agent_runtime_operator.Tests.Samples.{planner, server_of, before}

abbrev data_volume : Volume
data_volume = record { name = "data"; source = "" }

abbrev mount_at : String → VolumeMount
mount_at path = record { name = "data"; mount_path = path; options = "" }

-- two mounts whose paths have a common beginning
abbrev mounted : Agent
mounted = record planner {
  spec = record planner.spec {
    volumes = data_volume ∷ [];
    volume_mounts = mount_at "/data" ∷ mount_at "/data-backup" ∷ [];
  };
}

abbrev unchanged : String → String
unchanged s = s

-- a parser that knows the URLs of two paths
abbrev known : String → Option ParsedUrl
known url = elim (url == "http://example.com" <> "/mcp") [
  | true ↦ some (record { scheme = "http"; host = "example.com"; path = "/mcp" })
  | false ↦ some (record { scheme = "http"; host = "example.com"; path = "/sse" })
]

validate_volume_mounts-nil_iff_example : (validate_volume_mounts unchanged mounted ≡ []) ↔ (
    All (IsNamed unchanged mounted.spec.volumes) mounted.spec.volume_mounts
    × AreApart unchanged mounted.spec.volume_mounts)
validate_volume_mounts-nil_iff_example = validate_volume_mounts-nil_iff unchanged mounted

validate_agent-IsAdmitted_example : IsAdmitted unchanged before mounted
unfolding validate_agent
validate_agent-IsAdmitted_example = validate_agent-IsAdmitted known unchanged before mounted refl

-- a tool server with neither port nor path
abbrev bare : ToolServer
bare = record (server_of "files" "") {
  spec = record (server_of "files" "").spec { port = 0; path = "" };
}

validate_tool_server-nil_iff_example :
    (validate_tool_server known bare ≡ []) ↔ ((bare.spec.port ≢ 0) × IsPath known bare.spec.path)
validate_tool_server-nil_iff_example = validate_tool_server-nil_iff known bare

apply_defaults-admitted_example :
    (validate_tool_server known (apply_defaults bare) ≡ [])
    × (((apply_defaults bare).spec.path == "") ≡ false)
    × (is_some (apply_defaults bare).spec.replicas ≡ true)
    × (((apply_defaults bare).spec.protocol == "") ≡ false)
    × (apply_defaults (apply_defaults bare) ≡ apply_defaults bare)
apply_defaults-admitted_example = apply_defaults-admitted known bare refl refl refl (inl refl)
