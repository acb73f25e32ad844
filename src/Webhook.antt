-- ===== src/Webhook.antt =====
-- internal/webhook/v1alpha1: what the API server asks before it stores a resource
pub mod Fields
pub mod Agent
pub mod ToolServer
pub mod AgentGateway
