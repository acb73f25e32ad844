-- ===== src/Webhook/ToolServer.antt =====
-- internal/webhook/v1alpha1/toolserver_webhook.go
pub mod Laws
use Prim.Native.String
use agent_runtime_operator.Base.{
  ℕ, String, Char, code, ◌<>◌, Bool, true, false, not, ◌&&◌, ◌||◌, Option, none, some, List, ◌++◌,
  ◌==◌, if◌then◌else◌, or_else, ltb, eqb,
}
use agent_runtime_operator.Api.ToolServer.{ToolServer}
use agent_runtime_operator.Webhook.Fields.{FieldError, invalid, required, when, ParsedUrl}

abbrev pub default_port : ℕ
default_port = 8080

abbrev pub default_replicas : ℕ
default_replicas = 1

abbrev pub is_over_http : String → Bool
is_over_http transport = transport == "http" || transport == "sse"

-- the `switch` on the transport
abbrev pub default_path : String → String
default_path transport =
    if transport == "http" then "/mcp" else if transport == "sse" then "/sse" else ""

unfoldable pub apply_defaults : ToolServer → ToolServer
apply_defaults t =
    let over_http = is_over_http t.spec.transport_type in
    record t {
      spec = record t.spec {
        protocol = if t.spec.protocol == "" then "mcp" else t.spec.protocol;
        port = if over_http && eqb t.spec.port 0 then default_port else t.spec.port;
        path = if t.spec.path == "" then default_path t.spec.transport_type else t.spec.path;
        replicas =
            if over_http then some (or_else t.spec.replicas default_replicas) else t.spec.replicas;
      };
    }

abbrev pub starts_with_slash : String → Bool
starts_with_slash String.[] = false
starts_with_slash (String.◌∷◌ c s) = eqb (code c) b'/'

-- no control character, space, question mark or hash
abbrev pub is_path_char : Char → Bool
is_path_char c =
    not (ltb (code c) 0x20 || eqb (code c) 0x7F || eqb (code c) b' ')
    && not (eqb (code c) b'?')
    && not (eqb (code c) b'#')

-- the loop over the runes and the one over the two texts that `strings.Contains` looks for
abbrev pub every_char : (Char → Bool) → String → Bool
every_char p String.[] = true
every_char p (String.◌∷◌ c s) = p c && every_char p s

abbrev pub has_path : Option ParsedUrl → String → Bool
has_path none path = false
has_path (some u) path = u.path == path

-- `parse` is `url.Parse`, `none` for an error
module _ (parse : String → Option ParsedUrl) where
  unfoldable pub is_valid_path_format : String → Bool
  is_valid_path_format path =
      starts_with_slash path
      && every_char is_path_char path
      && has_path (parse ("http://example.com" <> path)) path

  unfoldable pub validate_tool_server : ToolServer → List FieldError
  unfolding is_valid_path_format
  validate_tool_server t =
      when (eqb t.spec.port 0) (required "spec.port")
      ++ when
          (not (t.spec.path == "")
            && not (t.spec.path == "/")
            && not (is_valid_path_format t.spec.path))
          (invalid "spec.path")
