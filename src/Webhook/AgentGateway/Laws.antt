-- ===== src/Webhook/AgentGateway/Laws.antt =====
-- The defaults of a gateway.
use agent_runtime_operator.Base.{◌≡◌, refl, some, or_else}
use agent_runtime_operator.Api.Gateways.{AgentGateway}
use agent_runtime_operator.Webhook.AgentGateway.{
  AgentGatewayCustomDefaulter, default_timeout, apply_defaults,
}

-- A gateway with defaults has the replicas and the timeout it had, or else the default number of
-- replicas and 360 seconds. The rest of its fields stay, and to apply the defaults again changes
-- nothing.
pub apply_defaults_gateway :
    (d : AgentGatewayCustomDefaulter) (gateway : AgentGateway)
    → let after = apply_defaults d gateway in
      (after.spec.replicas ≡ some (or_else gateway.spec.replicas d.default_replicas))
      × (after.spec.timeout ≡ some (or_else gateway.spec.timeout default_timeout))
      × (record after {
        spec = record after.spec {
          replicas = gateway.spec.replicas;
          timeout = gateway.spec.timeout;
        };
      }
          ≡ gateway)
      × (apply_defaults d after ≡ after)
unfolding apply_defaults
apply_defaults_gateway d gateway = (refl, refl, refl, refl)
