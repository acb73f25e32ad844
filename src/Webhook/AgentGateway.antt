-- ===== src/Webhook/AgentGateway.antt =====
-- internal/webhook/v1alpha1/agentgateway_webhook.go
pub mod Laws
use agent_runtime_operator.Base.{ℕ, some, or_else}
use agent_runtime_operator.Api.Gateways.{AgentGateway}

pub record AgentGatewayCustomDefaulter : Type 0 where
  pub default_replicas : ℕ

-- 360 seconds
abbrev pub default_timeout : ℕ
default_timeout = 360000000000

unfoldable pub apply_defaults : AgentGatewayCustomDefaulter → AgentGateway → AgentGateway
apply_defaults d gateway = record gateway {
  spec = record gateway.spec {
    replicas = some (or_else gateway.spec.replicas d.default_replicas);
    timeout = some (or_else gateway.spec.timeout default_timeout);
  };
}
